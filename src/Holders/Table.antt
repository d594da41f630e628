-- ===== src/Holders/Table.antt =====
-- The tables `token_holders_list` and `token_holder` (app/model/db/token_holders_collection.py), and
-- `__save_holders` and `__update_status` of batch/indexer_token_holders.py. A page that was added to
-- the session is the row from then on; since each save writes the page into the row, the row is
-- kept as a copy here.
use ibet_prime.Base.{
  ℕ, ◌==◌, ◌&&◌, ◌||◌, not, Bool, false, List, [], ◌∷◌, ◌++◌, Option, none, some, first, select,
  map, if◌then◌else◌,
}
use ibet_prime.Base.Int.{ℤ, pos, negsuc, ltb_ℤ}
use ibet_prime.Chain.{Address}
use ibet_prime.Holders.Book.{Page, BalanceBook}

pub data TokenHolderBatchStatus : Type 0 where
  pending done failed : TokenHolderBatchStatus

pub record TokenHoldersList : Type 0 where
  pub id : ℕ
  pub token_address : Address
  pub block_number : ℕ
  pub batch_status : TokenHolderBatchStatus

-- The primary key is the pair of `holder_list_id` and `account_address`.
pub record TokenHolder : Type 0 where
  pub holder_list_id : ℕ
  pub account_address : Address
  pub hold_balance : ℤ
  pub locked_balance : ℤ

abbrev pub is_holder : ℕ → Address → TokenHolder → Bool
is_holder list a h = h.holder_list_id == list && h.account_address == a

-- The row of an account in a snapshot.
abbrev pub find_holder : ℕ → Address → List TokenHolder → Option TokenHolder
find_holder list a = first (is_holder list a)

-- Write the balances of a page into the row of its account, if there is one.
unfoldable pub write_balances : ℕ → Page → List TokenHolder → List TokenHolder
write_balances list p [] = []
write_balances list p (h ∷ hs) =
    if is_holder list p.account_address h
    then record h { hold_balance = p.hold_balance; locked_balance = p.locked_balance } ∷ hs
    else h ∷ write_balances list p hs

-- `page.hold_balance > 0 or page.locked_balance > 0`
abbrev pub has_balance : Page → Bool
has_balance p = ltb_ℤ (pos 0) p.hold_balance || ltb_ℤ (pos 0) p.locked_balance

abbrev pub holder_of : ℕ → Page → TokenHolder
holder_of list p = record {
  holder_list_id = list;
  account_address = p.account_address;
  hold_balance = p.hold_balance;
  locked_balance = p.locked_balance;
}

-- The body of the loop of `__save_holders`.
unfoldable pub save_page : ℕ → Address → Page → List TokenHolder → List TokenHolder
unfolding write_balances
save_page list owner p hs =
    if p.account_address == owner then hs else elim (find_holder list p.account_address hs) [
      | some _ ↦ write_balances list p hs
      | none ↦ if has_balance p then hs ++ holder_of list p ∷ [] else hs
    ]

unfoldable pub save_holders : ℕ → Address → BalanceBook → List TokenHolder → List TokenHolder
unfolding save_page
save_holders list owner [] hs = hs
save_holders list owner (p ∷ ps) hs = save_holders list owner ps (save_page list owner p hs)

abbrev pub is_zero : ℤ → Bool
is_zero (pos n) = n == 0
is_zero (negsuc n) = false

abbrev pub is_non_holder : ℕ → TokenHolder → Bool
is_non_holder list h =
    h.holder_list_id == list && is_zero h.hold_balance && is_zero h.locked_balance

-- `delete(TokenHolder).where(…)`
unfoldable pub delete_non_holders : ℕ → List TokenHolder → List TokenHolder
delete_non_holders list = select (λ h. not (is_non_holder list h))

-- `self.target.batch_status = status.value` and the `merge`.
unfoldable pub set_status :
    ℕ → TokenHolderBatchStatus → List TokenHoldersList → List TokenHoldersList
set_status list status =
    map (λ (l : TokenHoldersList). if l.id == list then record l { batch_status = status } else l)
