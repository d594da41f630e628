-- ===== src/Utxo/Table.antt =====
-- The table `utxo` (app/model/db/utxo.py): its rows, and the reads and writes that the processor
-- makes of it. A row is identified by its transaction hash and account address. The columns are
-- numbers: no row is written with a null in them.
use ibet_prime.Base.{
  ℕ, Bool, List, [], ◌∷◌, Option, ltb, leb, ◌==◌, ◌&&◌, if◌then◌else◌, select, first,
}
use ibet_prime.Base.Sort.{sort_by}

pub record Utxo : Type 0 where
  pub transaction_hash : ℕ
  pub account_address : ℕ
  pub token_address : ℕ
  pub amount : ℕ
  pub block_number : ℕ
  pub block_timestamp : ℕ

-- The primary key.
abbrev pub has_key : ℕ → ℕ → Utxo → Bool
has_key h a u = u.transaction_hash == h && u.account_address == a

-- The row of a transaction and an account.
abbrev pub find : ℕ → ℕ → List Utxo → Option Utxo
find h a = first (has_key h a)

-- `_utxo.amount = v` and the `merge` that writes it.
abbrev pub set_amount : ℕ → ℕ → ℕ → List Utxo → List Utxo
set_amount h a v [] = []
set_amount h a v (u ∷ us) =
    if has_key h a u then record u { amount = v } ∷ us else u ∷ set_amount h a v us

abbrev pub older : Utxo → Utxo → Bool
older u w = leb u.block_timestamp w.block_timestamp

-- The unspent rows of an account and token, oldest first.
unfoldable pub unspent : ℕ → ℕ → List Utxo → List Utxo
unspent a k t =
    sort_by older (select (λ u. u.account_address == a && u.token_address == k && ltb 0 u.amount) t)
