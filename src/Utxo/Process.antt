-- ===== src/Utxo/Process.antt =====
-- `Processor.process` of batch/processor_create_utxo.py, and the block number that it keeps.
pub mod Keys
pub mod Progress
use ibet_prime.Base.{
  ℕ, zero, suc, ◌+◌, ◌-◌, leb, ◌||◌, Bool, true, false, List, [], ◌∷◌, Option, none, some, get_or,
  if◌then◌else◌, ◌>>=◌,
}
use ibet_prime.Chain.{Address, Chain}
use ibet_prime.Tokens.{Token, Account, issued_tokens}
use ibet_prime.Utxo.Table.{Utxo}
use ibet_prime.Utxo.Events.{process_transfer, process_issue, process_redeem}

-- The tables that a run reads or writes. `others` is what `request_ledger_creation` writes.
pub record Database (D : Type 0) : Type 0 where
  pub tokens : List Token
  pub accounts : List Account
  pub utxos : List Utxo
  pub latest_block_number : Option ℕ
  pub others : D

-- `__get_utxo_block_number`
unfoldable pub utxo_block_number : {D : Type 0} → Database D → ℕ
utxo_block_number db = get_or db.latest_block_number 0

-- `__set_utxo_block_number`
unfoldable pub set_utxo_block_number : {D : Type 0} → ℕ → Database D → Database D
set_utxo_block_number n db = record db { latest_block_number = some n }

-- `block_to` and `latest_synced`: at most `CREATE_UTXO_BLOCK_LOT_MAX_SIZE` blocks from `block_from`.
unfoldable pub block_lot : ℕ → ℕ → ℕ → ℕ × Bool
block_lot lot block_from latest =
    if leb lot (latest - block_from) then (block_from + lot - 1, false) else (latest, true)

-- `request_ledger_creation` (app/utils/ibet_ledger_utils.py) on the tables that it writes, reading
-- the rows so far; `none` is a `DBAPIError`, after which the savepoint is rolled back.
abbrev pub Request : Type 0 → Type 0
Request D = Address → List Utxo → D → Option D

-- The body of the loop over the tokens.
unfoldable pub sync_token :
    {D : Type 0} → Chain → Request D → ℕ → ℕ → Token → Database D → Option (Database D)
sync_token c request block_from block_to token db = do
  (t1, issued) ← process_issue c token block_from block_to db.utxos
  (t2, transferred) ← process_transfer c token block_from block_to t1
  (t3, redeemed) ← process_redeem c token block_from block_to t2
  some (record db {
    utxos = t3;
    others =
        if issued || transferred || redeemed
        then get_or (request token.token_address t3 db.others) db.others
        else db.others;
  })

unfoldable pub sync_tokens :
    {D : Type 0} → Chain → Request D → ℕ → ℕ → List Token → Database D → Option (Database D)
unfolding sync_token
sync_tokens c request block_from block_to [] db = some db
sync_tokens c request block_from block_to (token ∷ tokens) db = do
  db' ← sync_token c request block_from block_to token db
  sync_tokens c request block_from block_to tokens db'

-- A run that is not cut short: the committed tables and `latest_synced`. `none` is an exception,
-- after which nothing is committed. `lot` is `CREATE_UTXO_BLOCK_LOT_MAX_SIZE`.
unfoldable pub process :
    {D : Type 0} → ℕ → Chain → Request D → Database D → Option (Database D × Bool)
unfolding sync_tokens set_utxo_block_number utxo_block_number block_lot
process lot c request db = if leb c.latest_block (utxo_block_number db) then some (db, true) else do
  let block_from = utxo_block_number db + 1
  let (block_to, latest_synced) = block_lot lot block_from c.latest_block
  db' ← sync_tokens c request block_from block_to (issued_tokens db.accounts db.tokens) db
  some (set_utxo_block_number block_to db', latest_synced)

-- How the loop of `main` comes to its sleep: with the tables committed last, and whether an
-- exception, which `main` logs, ended it.
pub data Rest (D : Type 0) : Type 0 where
  out_of_fuel : Rest D
  asleep : Database D → Bool → Rest D

-- The rounds of `main` up to its next sleep: a run that is not `latest_synced` is followed at once.
unfoldable pub rounds : {D : Type 0} → ℕ → ℕ → Chain → Request D → Database D → Rest D
rounds zero lot c request db = out_of_fuel
rounds (suc fuel) lot c request db = elim (process lot c request db) [
  | none ↦ asleep db true
  | some (db', latest_synced) ↦ elim latest_synced [
    | true ↦ asleep db' false
    | false ↦ rounds fuel lot c request db'
  ]
]
