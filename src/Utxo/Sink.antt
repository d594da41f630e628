-- ===== src/Utxo/Sink.antt =====
-- `Processor.__sink_on_utxo` of batch/processor_create_utxo.py.
use ibet_prime.Base.{
  ℕ, ◌+◌, ◌-◌, List, [], ◌∷◌, ◌++◌, Option, none, some, Bool, true, false, leb, ◌==◌, if◌then◌else◌,
}
use ibet_prime.Utxo.Table.{Utxo, find, set_amount, unspent}

-- Add to the row of the transaction and account, or insert the row.
unfoldable pub credit : Utxo → List Utxo → List Utxo
credit row t = elim (find row.transaction_hash row.account_address t) [
  | none ↦ t ++ row ∷ []
  | some old ↦ set_amount row.transaction_hash row.account_address (old.amount + row.amount) t
]

-- The row that a source row becomes under its new holder.
abbrev pub moved : ℕ → ℕ → Utxo → Utxo
moved holder v u = record u { account_address = holder; amount = v }

-- The loop over the source rows of a reallocation: `remaining`, the rows left, the table.
unfoldable pub reallocate : ℕ → ℕ → List Utxo → List Utxo → List Utxo
reallocate holder remaining [] t = t
reallocate holder remaining (u ∷ us) t =
    let whole = reallocate holder (remaining - u.amount) us (credit (moved holder u.amount u) t) in
    let part = reallocate holder 0 us (credit (moved holder remaining u) t) in
    if remaining == 0 then t else if leb u.amount remaining then whole else part

-- The loop over the rows that are spent.
unfoldable pub spend : ℕ → List Utxo → List Utxo → List Utxo
spend remaining [] t = t
spend remaining (u ∷ us) t =
    let whole =
      spend (remaining - u.amount) us (set_amount u.transaction_hash u.account_address 0 t) in
    let part =
      spend 0 us (set_amount u.transaction_hash u.account_address (u.amount - remaining) t) in
    if remaining == 0 then t else if leb u.amount remaining then whole else part

-- `__sink_on_utxo(spent, …, reallocation_from)`; the second argument holds the others, which are
-- the columns of a row.
unfoldable pub sink_on_utxo : Bool → Utxo → Option ℕ → List Utxo → List Utxo
sink_on_utxo false row none t = credit row t
sink_on_utxo false row (some source) t =
    reallocate row.account_address row.amount (unspent source row.token_address t) t
sink_on_utxo true row r t = spend row.amount (unspent row.account_address row.token_address t) t
