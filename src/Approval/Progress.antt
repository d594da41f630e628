-- ===== src/Approval/Progress.antt =====
-- Which blocks a run of the transfer approval indexer reads, and what it commits.
use ibet_prime.Base.{
  ℕ, ◌+◌, ◌-◌, ◌≤◌, ◌<◌, ◌≡◌, refl, sym, ◌∙◌, ◌≢◌, List, [], ◌∷◌, arith, ltb, leb, Bool-cases, inl,
  inr, ◌⊎◌, if◌then◌else◌,
}
use ibet_prime.Blocks.{
  Loop, run_all, IsCover, lots, lots-IsCover, sync_lots-run_all, run_all_one,
  run_all-ne-out_of_fuel, sync_lots-shift,
}
use ibet_prime.Chain.{Chain}
use ibet_prime.Approval.Events.{State, Scope, sync_all}
use ibet_prime.Approval.Sync.{
  Database, Loaded, load_tokens, contract_list, block_number, sync_blocks, commit, sync_new_logs,
}

-- With a positive lot size and more fuel than there are new blocks, the loop reads block ranges
-- that follow each other without gap or overlap, from the block after the last one synced to the
-- latest, each of at most a lot.
pub sync_blocks-covers :
    (fuel lot from_block : ℕ) (c : Chain) (k : Scope) (s : State)
    → 0 < lot
    → from_block < c.latest_block
    → c.latest_block - from_block < fuel
    → (rs : List (ℕ × ℕ)) × IsCover lot (from_block + 1) c.latest_block rs
      × (sync_blocks fuel lot c k from_block s ≡ run_all (sync_all c k) rs s)
unfolding sync_blocks
sync_blocks-covers fuel lot from_block c k s p f e =
    let last = c.latest_block in
    let to_block = from_block + lot in
    let step = sync_all c k in
    elim (Bool-cases (ltb to_block last)) [
      | inl many ↦ (
        lots lot last fuel (from_block + 1) to_block,
        lots-IsCover lot last fuel (from_block + 1) to_block p (omega arith) (omega arith)
            (omega arith),
        rw (many, sync_blocks)
            (sync_lots-shift step lot last fuel from_block to_block s
              ∙ sync_lots-run_all step lot last fuel (from_block + 1) to_block s p (omega arith)),
      )
      | inr one ↦
          let within : last ≤ to_block = ground arith in
          (
            (from_block + 1, last) ∷ [],
            (refl, omega arith, omega arith, refl),
            rw (one, sync_blocks) (sym (run_all_one step (from_block + 1) last s)),
          )
    ]

committed :
    (c : Chain) (db : Database) (l : Loop State)
    → l ≢ Loop.out_of_fuel
    → (commit c db l ≡ Loop.raised)
      ⊎ ((db' : Database) × (commit c db l ≡ Loop.ended db') × (block_number db' ≡ c.latest_block))
unfolding commit block_number
committed c db Loop.out_of_fuel n = absurd (n refl)
committed c db Loop.raised n = inl refl
committed c db (Loop.ended s) n = inr (_, refl, refl)

-- A run with a positive lot size and fuel for each new block ends. It raises, or leaves the block number
-- at the latest block, or, if it was there or above already, as it was.
pub sync_new_logs-ends :
    (fuel lot : ℕ) (c : Chain) (loaded : List Loaded) (db : Database)
    → 0 < lot
    → c.latest_block - block_number db < fuel
    → ((sync_new_logs fuel lot c loaded db).1 ≡ Loop.raised)
      ⊎ ((db' : Database) × ((sync_new_logs fuel lot c loaded db).1 ≡ Loop.ended db')
          × (block_number db'
              ≡ (if leb c.latest_block (block_number db) then block_number db else c.latest_block)))
unfolding sync_new_logs
sync_new_logs-ends fuel lot c loaded db p e =
    elim (Bool-cases (leb c.latest_block (block_number db))) [
      | inl idle ↦ rw (idle, sync_new_logs) (inr (db, refl, refl))
      | inr behind ↦
          let below : block_number db < c.latest_block = ground arith in
          let k = contract_list c (load_tokens db loaded) in
          let s : State = record { table = db.table; notification_events = [] } in
          let (rs, _, covers) = sync_blocks-covers fuel lot (block_number db) c k s p below e in
          rw (behind, sync_new_logs)
            (committed c db (sync_blocks fuel lot c k (block_number db) s)
              λ stuck. run_all-ne-out_of_fuel (sync_all c k) rs s (sym covers ∙ stuck))
    ]
