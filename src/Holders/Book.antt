-- ===== src/Holders/Book.antt =====
-- `BalanceBook` of batch/indexer_token_holders.py: the pages of the accounts, as a dictionary in
-- the order of insertion.
use ibet_prime.Base.{List, [], ◌∷◌, ◌==◌, if◌then◌else◌}
use ibet_prime.Base.Int.{ℤ, ◌+ℤ◌}
use ibet_prime.Chain.{Address}

-- A page, with the columns of `TokenHolder` that the book fills in.
pub record Page : Type 0 where
  pub account_address : Address
  pub hold_balance : ℤ
  pub locked_balance : ℤ

-- `self.pages`
abbrev pub BalanceBook : Type 0
BalanceBook = List Page

-- `store(account_address, amount, locked)`
unfoldable pub store : Address → ℤ → ℤ → BalanceBook → BalanceBook
store a amount locked [] =
    record { account_address = a; hold_balance = amount; locked_balance = locked } ∷ []
store a amount locked (p ∷ ps) =
    if p.account_address == a
    then record p {
      hold_balance = p.hold_balance +ℤ amount;
      locked_balance = p.locked_balance +ℤ locked;
    }
      ∷ ps
    else p ∷ store a amount locked ps
