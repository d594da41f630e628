-- ===== src/Utxo/Process/Progress.antt =====
-- The block number of the processor: it moves forward, by no more than a lot and not past the chain,
-- and `main` reaches the latest block.
use ibet_prime.Base.{
  ℕ, zero, suc, ◌+◌, ◌-◌, ◌≤◌, ◌<◌, ◌≡◌, refl, Bool, true, false, some, arith, >>=-eq-some, leb,
  Bool-cases, Option-cases, inl, inr,
}
use ibet_prime.Chain.{Chain}
use ibet_prime.Tokens.{issued_tokens}
use ibet_prime.Utxo.Process.{
  Database, Request, sync_tokens, process, utxo_block_number, block_lot, asleep, rounds,
}

module _ {D : Type 0} (c : Chain) (request : Request D) where
  -- A run with nothing new to read changes nothing and reports that it is synced.
  process_idle :
      (lot : ℕ) (db : Database D)
      → c.latest_block ≤ utxo_block_number db
      → process lot c request db ≡ some (db, true)
  unfolding process
  process_idle lot db h = ground arith

  -- With a positive lot size, a run that starts behind the chain and ends moves the block number
  -- forward, by at most a lot and not past the latest block; it reports `latest_synced` exactly
  -- when it has reached that block.
  pub process-advances :
      (lot : ℕ) (db db' : Database D) (synced : Bool)
      → 0 < lot
      → utxo_block_number db < c.latest_block
      → process lot c request db ≡ some (db', synced)
      → (utxo_block_number db < utxo_block_number db')
        × (utxo_block_number db' ≤ c.latest_block)
        × (utxo_block_number db' ≤ utxo_block_number db + lot)
        × (synced ≡ leb c.latest_block (utxo_block_number db'))
  unfolding process
  process-advances lot db db' synced pos_lot behind h =
      let block_from = utxo_block_number db + 1 in
      let block_to = (block_lot lot block_from c.latest_block).0 in
      let tokens = issued_tokens db.accounts db.tokens in
      let not_idle : leb c.latest_block (utxo_block_number db) ≡ false = ground arith in
      let (db1, _, done) =
        >>=-eq-some (sync_tokens c request block_from block_to tokens db) _ (rw not_idle at h) in
      ground (arith, done)

  -- With a positive lot size and fuel for each block that is left, the rounds of `main` end: with an
  -- exception, or with the block number at the latest block or above.
  pub rounds-end :
      (fuel lot : ℕ) (db : Database D)
      → 0 < lot
      → c.latest_block - utxo_block_number db < fuel
      → (db' : Database D) × (raised : Bool) × (rounds fuel lot c request db ≡ asleep db' raised)
        × (raised ≡ false → c.latest_block ≤ utxo_block_number db')
  unfolding rounds
  rounds-end zero lot db p h = absurd (omega arith)
  rounds-end (suc fuel) lot db p h = elim (Option-cases (process lot c request db)) [
    | inl raised ↦ rw (raised, rounds) (db, true, refl, λ e. cc)
    | inr ((db', synced), ended) ↦ elim (Bool-cases (leb c.latest_block (utxo_block_number db))) [
      | inl idle ↦
          rw (process_idle lot db (ground arith), rounds) (db, false, refl, λ e. ground arith)
      | inr behind ↦
          let below : utxo_block_number db < c.latest_block = ground arith in
          let (up, _, _, reached) = process-advances lot db db' synced p below ended in
          elim (Bool-cases synced) [
            | inl last ↦ rw (ended, last, rounds) (db', false, refl, λ e. ground arith)
            | inr more ↦ rw (ended, more, rounds) (rounds-end fuel lot db' p (omega arith))
          ]
    ]
  ]
