-- ===== src/Holders/Pages.antt =====
-- The balance book as a map from accounts to pages.
use ibet_prime.Base.{◌≡◌, refl, [], ◌∷◌, Option, none, some, arith, ◌==◌, if◌then◌else◌, first}
use ibet_prime.Base.Int.{ℤ, ◌+ℤ◌}
use ibet_prime.Chain.{Address}
use ibet_prime.Holders.Book.{Page, BalanceBook, store}

-- `self.pages[a]`, if there is one.
abbrev pub find_page : Address → BalanceBook → Option Page
find_page a = first (λ p. p.account_address == a)

-- What a call adds to the page of its account.
abbrev pub added : Address → ℤ → ℤ → Option Page → Page
added a x l none = record { account_address = a; hold_balance = x; locked_balance = l }
added a x l (some p) = record p {
  hold_balance = p.hold_balance +ℤ x;
  locked_balance = p.locked_balance +ℤ l;
}

-- `store` adds to the page of its account, which it makes if there is none, and to no other.
pub find_page-store :
    (a a' : Address) (x l : ℤ) (b : BalanceBook)
    → find_page a' (store a x l b)
      ≡ (if a == a' then some (added a x l (find_page a b)) else find_page a' b)
unfolding store
find_page-store a a' x l [] = ground arith
find_page-store a a' x l (p ∷ b) = ground (arith, find_page-store a a' x l b)

-- Each account has one page.
abbrev pub IsBook : BalanceBook → Type 0
IsBook [] = Unit
IsBook (p ∷ ps) = (find_page p.account_address ps ≡ none) × IsBook ps

pub store-IsBook : (a : Address) (x l : ℤ) (b : BalanceBook) → IsBook b → IsBook (store a x l b)
unfolding store
store-IsBook a x l [] k = (refl, tt)
store-IsBook a x l (p ∷ b) k =
    ground (arith, store-IsBook a x l b k.1, find_page-store a p.account_address x l b)
