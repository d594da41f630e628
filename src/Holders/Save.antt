-- ===== src/Holders/Save.antt =====
-- What `__save_holders` leaves in the table.
use ibet_prime.Base.{
  ℕ, ◌≡◌, refl, Bool, List, [], ◌∷◌, ◌++◌, Option, none, some, arith, ◌==◌, ◌&&◌, not,
  if◌then◌else◌, select, subst,
}
use ibet_prime.Chain.{Address}
use ibet_prime.Holders.Book.{Page, BalanceBook}
use ibet_prime.Holders.Pages.{find_page, IsBook}
use ibet_prime.Holders.Table.{
  TokenHolder, is_holder, find_holder, write_balances, has_balance, holder_of, save_page,
  save_holders, is_non_holder, delete_non_holders,
}

-- The row of an account after its page was saved.
abbrev pub saved : ℕ → Page → Option TokenHolder → Option TokenHolder
saved list p none = if has_balance p then some (holder_of list p) else none
saved list p (some h) = some (holder_of list p)

find_holder-append :
    (list list' : ℕ) (a : Address) (p : Page) (hs : List TokenHolder)
    → find_holder list' a (hs ++ holder_of list p ∷ []) ≡ elim (find_holder list' a hs) [
      | none ↦ if is_holder list' a (holder_of list p) then some (holder_of list p) else none
      | some h ↦ some h
    ]
find_holder-append list list' a p [] = ground arith
find_holder-append list list' a p (h ∷ hs) = ground (arith, find_holder-append list list' a p hs)

find_holder-write_balances :
    (list list' : ℕ) (a : Address) (p : Page) (hs : List TokenHolder)
    → find_holder list' a (write_balances list p hs) ≡ elim (find_holder list' a hs) [
      | none ↦ none
      | some h ↦ if list == list' && p.account_address == a then some (holder_of list p) else some h
    ]
unfolding write_balances
find_holder-write_balances list list' a p [] = refl
find_holder-write_balances list list' a p (h ∷ hs) =
    ground (arith, find_holder-write_balances list list' a p hs)

-- One page, seen from any row.
abbrev touched : ℕ → ℕ → Address → Address → Page → Bool
touched list list' owner a p = list == list' && p.account_address == a && not (a == owner)

find_holder-save_page :
    (list list' : ℕ) (owner a : Address) (p : Page) (hs : List TokenHolder)
    → find_holder list' a (save_page list owner p hs) ≡ (
        if touched list list' owner a p
        then saved list p (find_holder list a hs)
        else find_holder list' a hs)
unfolding save_page
find_holder-save_page list list' owner a p hs =
    ground
      (arith, find_holder-append list list' a p hs, find_holder-write_balances list list' a p hs)

-- The row of an account after a book was saved: from its page, if it has one.
abbrev pub saved_from : ℕ → Option Page → Option TokenHolder → Option TokenHolder
saved_from list none old = old
saved_from list (some p) old = saved list p old

-- Saving a book with one page for each account writes, into the snapshot, each page that has a row or
-- a positive balance or lock; the owner's row, accounts with no page and the other snapshots are left
-- as they were.
pub find_holder-save_holders :
    (list list' : ℕ) (owner a : Address) (b : BalanceBook) (hs : List TokenHolder)
    → IsBook b
    → find_holder list' a (save_holders list owner b hs) ≡ (
        if list == list' && not (a == owner)
        then saved_from list (find_page a b) (find_holder list a hs)
        else find_holder list' a hs)
unfolding save_holders
find_holder-save_holders list list' owner a [] hs k = ground arith
find_holder-save_holders list list' owner a (p ∷ b) hs k =
    let same : p.account_address ≡ a → find_page a b ≡ none =
      λ e. subst (λ x. find_page x b ≡ none) e k.0 in
    ground (
      arith,
      same,
      find_holder-save_holders list list' owner a b (save_page list owner p hs) k.1,
      find_holder-save_page list list' owner a p hs,
      find_holder-save_page list list owner a p hs,
    )

-- No two rows are of one snapshot and account.
abbrev pub IsTable : List TokenHolder → Type 0
IsTable [] = Unit
IsTable (h ∷ hs) = (find_holder h.holder_list_id h.account_address hs ≡ none) × IsTable hs

find_holder-select :
    (list list' : ℕ) (a : Address) (hs : List TokenHolder)
    → find_holder list' a hs ≡ none
    → find_holder list' a (select (λ h. not (is_non_holder list h)) hs) ≡ none
find_holder-select list list' a [] e = refl
find_holder-select list list' a (h ∷ hs) e = ground (arith, find_holder-select list list' a hs)

-- Where no two rows have one key, finishing a snapshot deletes its rows whose balance and lock are
-- both zero, and no others.
pub find_holder-delete_non_holders :
    (list list' : ℕ) (a : Address) (hs : List TokenHolder)
    → IsTable hs
    → find_holder list' a (delete_non_holders list hs) ≡ elim (find_holder list' a hs) [
      | none ↦ none
      | some h ↦ if is_non_holder list h then none else some h
    ]
unfolding delete_non_holders
find_holder-delete_non_holders list list' a [] k = refl
find_holder-delete_non_holders list list' a (h ∷ hs) k =
    let gone : find_holder h.holder_list_id h.account_address
          (select (λ x. not (is_non_holder list x)) hs)
        ≡ none =
      find_holder-select list h.holder_list_id h.account_address hs k.0 in
    ground (arith, gone, find_holder-delete_non_holders list list' a hs k.1)

append-IsTable :
    (list : ℕ) (p : Page) (hs : List TokenHolder)
    → find_holder list p.account_address hs ≡ none
    → IsTable hs
    → IsTable (hs ++ holder_of list p ∷ [])
append-IsTable list p [] e k = (refl, tt)
append-IsTable list p (h ∷ hs) e k = ground (
  arith,
  append-IsTable list p hs,
  find_holder-append list h.holder_list_id h.account_address p hs,
)

write_balances-IsTable :
    (list : ℕ) (p : Page) (hs : List TokenHolder) → IsTable hs → IsTable (write_balances list p hs)
unfolding write_balances
write_balances-IsTable list p [] k = tt
write_balances-IsTable list p (h ∷ hs) k = ground (
  arith,
  write_balances-IsTable list p hs k.1,
  find_holder-write_balances list h.holder_list_id h.account_address p hs,
)

-- Where no two rows have one primary key, none have one after saving a book.
pub save_holders-IsTable :
    (list : ℕ) (owner : Address) (b : BalanceBook) (hs : List TokenHolder)
    → IsTable hs
    → IsTable (save_holders list owner b hs)
unfolding save_holders save_page
save_holders-IsTable list owner [] hs k = k
save_holders-IsTable list owner (p ∷ b) hs k =
    save_holders-IsTable list owner b (save_page list owner p hs)
      (ground (arith, append-IsTable list p hs, write_balances-IsTable list p hs k))
