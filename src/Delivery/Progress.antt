-- ===== src/Delivery/Progress.antt =====
-- Which blocks a run of the DVP delivery indexer reads of an exchange, and where it leaves the block
-- numbers.
use ibet_prime.Base.{
  ℕ, ◌+◌, ◌-◌, ◌≤◌, ◌<◌, ◌≡◌, refl, sym, ◌∙◌, List, [], ◌∷◌, arith, ltb, Bool-cases, inl, inr, ◌⊎◌,
  All,
}
use ibet_prime.Blocks.{
  run_all, IsCover, lots, lots-IsCover, sync_lots-run_all, run_all_one, sync_lots-shift,
}
use ibet_prime.Delivery.Events.{Context, State, sync_all}
use ibet_prime.Delivery.Sync.{Database, Services, Ending, block_number, sync_blocks}

-- With a positive lot size and more fuel than there are new blocks, the loop reads block ranges
-- that follow each other without gap or overlap, from the block after the last one synced to the
-- latest, each of at most a lot.
pub sync_blocks-covers :
    (fuel lot : ℕ) (x : Context) (k from_block : ℕ) (s : State)
    → 0 < lot
    → from_block < x.chain.latest_block
    → x.chain.latest_block - from_block < fuel
    → (rs : List (ℕ × ℕ)) × IsCover lot (from_block + 1) x.chain.latest_block rs
      × (sync_blocks fuel lot x k from_block s ≡ run_all (sync_all x k) rs s)
unfolding sync_blocks
sync_blocks-covers fuel lot x k from_block s p f e =
    let last = x.chain.latest_block in
    let to_block = from_block + lot in
    let step = sync_all x k in
    elim (Bool-cases (ltb to_block last)) [
      | inl many ↦ (
        lots lot last fuel (from_block + 1) to_block,
        lots-IsCover lot last fuel (from_block + 1) to_block p (omega arith) (omega arith)
            (omega arith),
        rw (many, sync_blocks)
            (sync_lots-shift step lot last fuel from_block to_block s
              ∙ sync_lots-run_all step lot last fuel (from_block + 1) to_block s p (omega arith)),
      )
      | inr one ↦
          let within : last ≤ to_block = ground arith in
          (
            (from_block + 1, last) ∷ [],
            (refl, omega arith, omega arith, refl),
            rw (one, sync_blocks) (sym (run_all_one step (from_block + 1) last s)),
          )
    ]

-- A run returns or raises, or completes with every exchange at the latest block.
abbrev pub IsEnded : Services → List ℕ → Database × Ending → Type 0
IsEnded v ks r =
    (r.1 ≡ Ending.returned)
    ⊎ (r.1 ≡ Ending.raised)
    ⊎ ((r.1 ≡ Ending.completed)
        × All (λ k. block_number r.0.block_numbers k ≡ v.chain.latest_block) ks)
