-- ===== src/Blocks.antt =====
-- The loop by which the indexers go through a range of blocks in lots of at most
-- `INDEXER_BLOCK_LOT_MAX_SIZE` (`collect` of batch/indexer_token_holders.py, `sync_new_logs` of
-- batch/indexer_transfer_approval.py and batch/indexer_issue_redeem.py), and what it covers.
use ibet_prime.Base.{
  subst, ap, ◌∙◌, ℕ, zero, suc, ◌+◌, ◌-◌, ◌≤◌, ◌<◌, ◌≡◌, refl, ◌≢◌, true, false, List, [], ◌∷◌,
  Option, none, some, arith, ltb, if◌then◌else◌, Bool-cases, Option-cases, inl, inr, ◌⊎◌,
}

-- How a loop ends. A step that raises is `none`.
pub data Loop (S : Type 0) : Type 0 where
  out_of_fuel raised : Loop S
  ended : S → Loop S

pub Loop-cases :
    {S : Type 0} (l : Loop S) → (l ≡ out_of_fuel) ⊎ (l ≡ raised) ⊎ ((s : S) × (l ≡ ended s))
Loop-cases out_of_fuel = inl refl
Loop-cases raised = inr (inl refl)
Loop-cases (ended s) = inr (inr (s, refl))

abbrev pub ending : {S : Type 0} → Option S → Loop S
ending none = raised
ending (some s) = ended s

module _ {S : Type 0} (step : ℕ → ℕ → S → Option S) (lot target : ℕ) where
  -- `while _to < target: step(_from, _to); _from += lot; _to += lot`, and then `step(_from, target)`.
  unfoldable pub sync_lots : ℕ → ℕ → ℕ → S → Loop S
  sync_lots zero from to s = out_of_fuel
  sync_lots (suc fuel) from to s = elim (ltb to target) [
    | false ↦ ending (step from target s)
    | true ↦ elim (step from to s) [
      | none ↦ raised
      | some s' ↦ sync_lots fuel (from + lot) (to + lot) s'
    ]
  ]

-- One step for each range.
unfoldable pub run_all : {S : Type 0} → (ℕ → ℕ → S → Option S) → List (ℕ × ℕ) → S → Loop S
run_all step [] s = ended s
run_all step ((a, b) ∷ rs) s = elim (step a b s) [ none ↦ raised | some s' ↦ run_all step rs s' ]

-- The ranges follow each other without gap or overlap from the first block to the last, and none
-- has more blocks than a lot.
abbrev pub IsCover : ℕ → ℕ → ℕ → List (ℕ × ℕ) → Type 0
IsCover lot first last [] = first ≡ last + 1
IsCover lot first last ((a, b) ∷ rs) =
    (a ≡ first) × (first ≤ b) × (b < first + lot) × IsCover lot (b + 1) last rs

-- The ranges of the loop.
pub lots : ℕ → ℕ → ℕ → ℕ → ℕ → List (ℕ × ℕ)
lots lot target zero from to = []
lots lot target (suc fuel) from to =
    let rest = lots lot target fuel (from + lot) (to + lot) in
    if ltb to target then (from, to) ∷ rest else (from, target) ∷ []

pub lots-IsCover :
    (lot target fuel from to : ℕ)
    → 0 < lot
    → to + 1 ≡ from + lot
    → from ≤ target
    → target - to < fuel
    → IsCover lot from target (lots lot target fuel from to)
unfolding lots
lots-IsCover lot target zero from to p w f e = absurd (omega arith)
lots-IsCover lot target (suc fuel) from to p w f e = elim (Bool-cases (ltb to target)) [
  | inl more ↦
      let below : to < target = ground arith in
      let next : from + lot ≡ to + 1 = omega arith in
      let rest : IsCover lot (from + lot) target (lots lot target fuel (from + lot) (to + lot)) =
        lots-IsCover lot target fuel (from + lot) (to + lot) p (omega arith) (omega arith)
          (omega arith) in
      let rest' : IsCover lot (to + 1) target (lots lot target fuel (from + lot) (to + lot)) =
        subst (λ m. IsCover lot m target (lots lot target fuel (from + lot) (to + lot))) next
          rest in
      rw more (refl, omega arith, omega arith, rest')
  | inr last ↦ let reached : target ≤ to = ground arith in rw last (refl, f, omega arith, refl)
]

pub sync_lots-run_all :
    {S : Type 0} (step : ℕ → ℕ → S → Option S) (lot target fuel from to : ℕ) (s : S)
    → 0 < lot
    → target - to < fuel
    → sync_lots step lot target fuel from to s ≡ run_all step (lots lot target fuel from to) s
unfolding sync_lots run_all lots
sync_lots-run_all step lot target zero from to s p e = absurd (omega arith)
sync_lots-run_all step lot target (suc fuel) from to s p e = elim (Bool-cases (ltb to target)) [
  | inl more ↦
      let below : to < target = ground arith in
      elim (Option-cases (step from to s)) [
        | inl raises ↦ rw (more, sync_lots) (rw (raises, run_all))
        | inr (s', steps) ↦
            rw (more, sync_lots)
              (rw (steps, run_all)
                (sync_lots-run_all step lot target fuel (from + lot) (to + lot) s' p (omega arith)))
      ]
  | inr last ↦ elim (Option-cases (step from target s)) [
    | inl raises ↦ rw (last, sync_lots) (rw (raises, run_all))
    | inr (s', steps) ↦ rw (last, sync_lots) (rw (steps, run_all))
  ]
]

pub run_all_one :
    {S : Type 0} (step : ℕ → ℕ → S → Option S) (a b : ℕ) (s : S)
    → run_all step ((a, b) ∷ []) s ≡ ending (step a b s)
unfolding run_all
run_all_one step a b s = ground arith

pub run_all-ne-out_of_fuel :
    {S : Type 0} (step : ℕ → ℕ → S → Option S) (rs : List (ℕ × ℕ)) (s : S)
    → run_all step rs s ≢ out_of_fuel
unfolding run_all
run_all-ne-out_of_fuel step [] s h = cc
run_all-ne-out_of_fuel step ((a, b) ∷ rs) s h = elim (Option-cases (step a b s)) [
  | inl raises ↦ cc (rw (raises, run_all) at h)
  | inr (s', steps) ↦ run_all-ne-out_of_fuel step rs s' (rw (steps, run_all) at h)
]

-- A loop whose steps begin one block later begins one block later.
pub sync_lots-shift :
    {S : Type 0} (step : ℕ → ℕ → S → Option S) (lot target fuel from to : ℕ) (s : S)
    → sync_lots (λ m n. step (m + 1) n) lot target fuel from to s
      ≡ sync_lots step lot target fuel (from + 1) to s
unfolding sync_lots
sync_lots-shift step lot target zero from to s = refl
sync_lots-shift step lot target (suc fuel) from to s = elim (Bool-cases (ltb to target)) [
  | inl more ↦ elim (Option-cases (step (from + 1) to s)) [
    | inl raises ↦ rw (more, sync_lots) (rw raises)
    | inr (s', steps) ↦
        let next : from + lot + 1 ≡ from + 1 + lot = omega arith in
        rw (more, sync_lots)
          (rw steps (
            sync_lots-shift step lot target fuel (from + lot) (to + lot) s'
            ∙ ap (λ m. sync_lots step lot target fuel m (to + lot) s') next))
  ]
  | inr last ↦ rw (last, sync_lots)
]

pub ending-keeps {κ} :
    {S : Type 0} (P : S → Type κ) (o : Option S) (s : S)
    → ((s' : S) → o ≡ some s' → P s → P s')
    → (s' : S) → ending o ≡ ended s'
    → P s
    → P s'
ending-keeps P none s keeps s' h p = cc
ending-keeps P (some u) s keeps s' h p = keeps s' (ground (arith, h)) p

-- What every step keeps, the loop keeps.
pub sync_lots-keeps {κ} :
    {S : Type 0} (P : S → Type κ) (step : ℕ → ℕ → S → Option S)
    → ((m n : ℕ) (s s' : S) → step m n s ≡ some s' → P s → P s')
    → (lot target fuel from to : ℕ) (s s' : S) → sync_lots step lot target fuel from to s ≡ ended s'
    → P s
    → P s'
unfolding sync_lots
sync_lots-keeps P step keeps lot target zero from to s s' h p = cc
sync_lots-keeps P step keeps lot target (suc fuel) from to s s' h p =
    elim (Bool-cases (ltb to target)) [
      | inl more ↦ elim (Option-cases (step from to s)) [
        | inl raises ↦ cc (rw (more, sync_lots, raises) at h)
        | inr (u, steps) ↦
            sync_lots-keeps P step keeps lot target fuel (from + lot) (to + lot) u s'
              (rw (more, sync_lots, steps) at h) (keeps from to s u steps p)
      ]
      | inr last ↦
          ending-keeps P (step from target s) s (keeps from target s) s' (rw (last, sync_lots) at h)
            p
    ]

-- A step that raises on every range with a block, where the steps before keep what makes it so, makes
-- the ranges that cover the block raise.
pub run_all_raises {κ} :
    {S : Type 0} (P : S → Type κ) (step : ℕ → ℕ → S → Option S) (lot first last block : ℕ)
    (rs : List (ℕ × ℕ)) (s : S)
    → IsCover lot first last rs
    → P s
    → first ≤ block
    → block ≤ last
    → ((m n : ℕ) (s s' : S) → first ≤ m → step m n s ≡ some s' → P s → P s')
    → ((m n : ℕ) (s : S) → first ≤ m → m ≤ block → block ≤ n → P s → step m n s ≡ none)
    → run_all step rs s ≡ raised
unfolding run_all
run_all_raises P step lot first last block [] s cover p from_first to_last keeps raises =
    absurd (omega arith)
run_all_raises P step lot first last block ((a, b) ∷ rs) s (begins, held, _, rest) p from_first
      to_last keeps raises =
    elim (Bool-cases (ltb b block)) [
      | inl after ↦ elim (Option-cases (step a b s)) [
        | inl stops ↦ rw (stops, run_all)
        | inr (u, steps) ↦
            let below : b < block = ground arith in
            rw (steps, run_all)
              (run_all_raises P step lot (b + 1) last block rs u rest
                (keeps a b s u (omega arith) steps p) (omega arith) to_last
                (λ m n x x' h. keeps m n x x' (omega arith))
                (λ m n x h. raises m n x (omega arith)))
      ]
      | inr within ↦
          let above : block ≤ b = ground arith in
          rw (raises a b s (omega arith) (omega arith) above p, run_all)
    ]
