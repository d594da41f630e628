-- ===== src/Holders/Progress.antt =====
-- How a collection ends, and which blocks it has read.
use ibet_prime.Base.{
  ℕ, ◌+◌, ◌-◌, ◌≤◌, ◌<◌, ◌≡◌, refl, sym, ◌∙◌, Bool, true, List, [], ◌∷◌, none, some, arith, ltb,
  leb, ◌==◌, first, select, Bool-cases, Option-cases, inl, inr, ◌≢◌, All, All-first, All-mono,
  select_sound, ◌&&◌,
}
use ibet_prime.Base.Sort.{sort_by, All-sort_by}
use ibet_prime.Blocks.{
  Loop, run_all, IsCover, lots, lots-IsCover, sync_lots-run_all, run_all_one,
  run_all-ne-out_of_fuel,
}
use ibet_prime.Chain.{Chain}
use ibet_prime.Holders.Table.{TokenHoldersList, TokenHolderBatchStatus}
use ibet_prime.Holders.Collect.{
  Database, State, TokenInfo, out_of_fuel, nothing_pending, not_listed, is_pending, process_all,
  collect_blocks, load_target, load_token_info, load_checkpoint, finish, collect, is_done,
  update_status,
}

-- With a positive lot size and more fuel than the snapshot has blocks, the snapshot is made by
-- passes over block ranges that follow each other without gap or overlap from the first block,
-- which is not after the snapshot's, to the snapshot's, each of at most a lot.
pub collect_blocks-covers :
    (fuel lot from_block : ℕ) (c : Chain) (info : TokenInfo) (target : TokenHoldersList) (s : State)
    → 0 < lot
    → from_block ≤ target.block_number
    → target.block_number < fuel
    → (rs : List (ℕ × ℕ)) × IsCover lot from_block target.block_number rs
      × (collect_blocks fuel lot c info target from_block s
          ≡ run_all (process_all c info target.id) rs s)
unfolding collect_blocks
collect_blocks-covers fuel lot from_block c info target s p f e =
    let last = target.block_number in
    let to_block = lot - 1 + from_block in
    let step = process_all c info target.id in
    elim (Bool-cases (ltb to_block last)) [
      | inl many ↦ (
        lots lot last fuel from_block to_block,
        lots-IsCover lot last fuel from_block to_block p (omega arith) f (omega arith),
        rw (many, collect_blocks)
            (sync_lots-run_all step lot last fuel from_block to_block s p (omega arith)),
      )
      | inr one ↦
          let within : last ≤ to_block = ground arith in
          (
            (from_block, last) ∷ [],
            (refl, f, omega arith, refl),
            rw (one, collect_blocks) (sym (run_all_one step from_block last s)),
          )
    ]

-- The first block that a checkpoint asks for is not past the snapshot's.
load_checkpoint-le :
    (address block_to : ℕ) (db : Database) → (load_checkpoint address block_to db).1 ≤ block_to
unfolding load_checkpoint
load_checkpoint-le address block_to db = elim (Option-cases (first (λ _. true) sorted)) [
  | inl none_done ↦ rw (none_done, load_checkpoint) (omega arith)
  | inr (l, found) ↦
      let below : l.block_number < block_to = All-first _ (λ _. true) sorted earlier found in
      rw (found, load_checkpoint) (omega arith)
]
  where
    fits : TokenHoldersList → Bool
    fits l = l.token_address == address && ltb l.block_number block_to && is_done l

    sorted : List TokenHoldersList
    sorted =
        sort_by (λ (l m : TokenHoldersList). leb m.block_number l.block_number)
          (select fits db.lists)

    earlier : All (λ (l : TokenHoldersList). l.block_number < block_to) sorted
    earlier = All-sort_by _ _ (select fits db.lists) (
        All-mono (λ l. fits l ≡ true) _ (select fits db.lists) (λ l h. ground arith)
          (select_sound fits db.lists))

-- How a collection of a listed token goes on.
collect_listed :
    (fuel lot : ℕ) (c : Chain) (db : Database) (target : TokenHoldersList) (info : TokenInfo)
    → load_target db ≡ some target
    → load_token_info c target.token_address db ≡ some info
    → collect fuel lot c db ≡ (
        let (b, from_block) = load_checkpoint target.token_address target.block_number db in
        finish db target.id (collect_blocks fuel lot c info target from_block (b, db.holders)))
unfolding collect
collect_listed fuel lot c db target info e1 e2 = rw (e1, collect) (rw e2)

-- How a collection goes, by what it loads.
collect_cases {ℓ} :
    {P : Type ℓ} (fuel lot : ℕ) (c : Chain) (db : Database)
    → ((load_target db ≡ none) → collect fuel lot c db ≡ (db, nothing_pending) → P)
    → ((target : TokenHoldersList)
        → load_target db ≡ some target
        → collect fuel lot c db
          ≡ (update_status target.id TokenHolderBatchStatus.failed db, not_listed)
        → P)
    → ((target : TokenHoldersList) (info : TokenInfo)
        → load_target db ≡ some target
        → load_token_info c target.token_address db ≡ some info
        → P)
    → P
unfolding collect
collect_cases fuel lot c db idle unlisted listed = elim (Option-cases (load_target db)) [
  | inl e ↦ idle e (rw (e, collect))
  | inr (target, e) ↦ elim (Option-cases (load_token_info c target.token_address db)) [
    | inl missing ↦ unlisted target e (rw (e, collect) (rw missing))
    | inr (info, found) ↦ listed target info e found
  ]
]

finish_out_of_fuel :
    (db : Database) (list : ℕ) (l : Loop State)
    → (finish db list l).1 ≡ out_of_fuel
    → l ≡ Loop.out_of_fuel
unfolding finish
finish_out_of_fuel db list Loop.out_of_fuel h = refl
finish_out_of_fuel db list Loop.raised h = cc
finish_out_of_fuel db list (Loop.ended s) h = cc

-- With a positive lot size and more fuel than any snapshot has blocks, a collection ends.
pub collect-ends :
    (fuel lot : ℕ) (c : Chain) (db : Database)
    → 0 < lot
    → All (λ l. l.block_number < fuel) db.lists
    → (collect fuel lot c db).1 ≢ out_of_fuel
unfolding load_target
collect-ends fuel lot c db p bound h =
    collect_cases fuel lot c db (λ e out. ground arith) (λ target e out. ground arith)
      λ target info e found.
        let cp = load_checkpoint target.token_address target.block_number db in
        let small : target.block_number < fuel = All-first _ is_pending db.lists bound e in
        let (rs, _, covers) =
          collect_blocks-covers fuel lot cp.1 c info target (cp.0, db.holders) p
            (load_checkpoint-le target.token_address target.block_number db) small in
        let stuck =
          finish_out_of_fuel db target.id
            (collect_blocks fuel lot c info target cp.1 (cp.0, db.holders))
            (rw (collect_listed fuel lot c db target info e found) at h) in
        run_all-ne-out_of_fuel (process_all c info target.id) rs (cp.0, db.holders)
          (sym covers ∙ stuck)
