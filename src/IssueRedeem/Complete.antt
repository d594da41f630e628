-- ===== src/IssueRedeem/Complete.antt =====
-- Which blocks a run of the issue and redeem indexer reads, and what it leaves in the index.
use ibet_prime.Base.{
  ℕ, ◌+◌, ◌-◌, ◌≤◌, ◌<◌, ◌≡◌, refl, sym, ap, subst, ◌∙◌, List, [], ◌∷◌, ◌++◌, some, arith, ltb, leb,
  Bool-cases, All, false, Option-cases, inl, inr,
}
use ibet_prime.Blocks.{
  Loop, run_all, IsCover, lots, lots-IsCover, sync_lots-run_all, run_all_one, sync_lots-shift,
}
use ibet_prime.Chain.{Address, EventName, Chain}
use ibet_prime.IssueRedeem.Index.{IdxIssueRedeemEventType, IdxIssueRedeem, sync_issue_redeem}
use ibet_prime.IssueRedeem.Sync.{
  Database, synced_block_number, index_blocks, commit_index, sync_index, token_list,
}
use ibet_prime.IssueRedeem.Rows.{rows_of, indexed, append_assoc, indexed-append}
use ibet_prime.IssueRedeem.Passes.{IsOnce, name_of, rows_of-sync_issue_redeem}
use ibet_prime.IssueRedeem.Returns.{IsNamed, sync_issue_redeem_returns}

-- The loop is one pass for each range of a cover.
index_blocks-covers :
    (fuel lot from_block : ℕ) (c : Chain) (ks : List Address) (t : List IdxIssueRedeem)
    → 0 < lot
    → from_block < c.latest_block
    → c.latest_block - from_block < fuel
    → (rs : List (ℕ × ℕ)) × IsCover lot (from_block + 1) c.latest_block rs
      × (index_blocks fuel lot c ks from_block t ≡ run_all (sync_issue_redeem c ks) rs t)
unfolding index_blocks
index_blocks-covers fuel lot from_block c ks t p f e =
    let last = c.latest_block in
    let to_block = from_block + lot in
    let step = sync_issue_redeem c ks in
    elim (Bool-cases (ltb to_block last)) [
      | inl many ↦ (
        lots lot last fuel (from_block + 1) to_block,
        lots-IsCover lot last fuel (from_block + 1) to_block p (omega arith) (omega arith)
            (omega arith),
        rw (many, index_blocks)
            (sync_lots-shift step lot last fuel from_block to_block t
              ∙ sync_lots-run_all step lot last fuel (from_block + 1) to_block t p (omega arith)),
      )
      | inr one ↦
          let within : last ≤ to_block = ground arith in
          (
            (from_block + 1, last) ∷ [],
            (refl, omega arith, omega arith, refl),
            rw (one, index_blocks) (sym (run_all_one step (from_block + 1) last t)),
          )
    ]

-- The logs of a range are those of its two parts.
abbrev pub IsContinuous : Chain → Address → EventName → Type 0
IsContinuous c k name =
    (m b n : ℕ)
    → m ≤ b
    → b < n
    → c.get_event_logs k name [] m n
      ≡ c.get_event_logs k name [] m b ++ c.get_event_logs k name [] (b + 1) n

cover_within :
    (lot first last : ℕ) (r : ℕ × ℕ) (rs : List (ℕ × ℕ))
    → IsCover lot first last (r ∷ rs)
    → first ≤ last
cover_within lot first last (a, b) [] (_, f, _, e) = omega arith
cover_within lot first last (a, b) (r ∷ rs) (_, f, _, e) =
    let rest : b + 1 ≤ last = cover_within lot (b + 1) last r rs e in omega arith

rows_of-run_all :
    (c : Chain) (y : IdxIssueRedeemEventType) (k lot first last : ℕ) (ks : List Address)
    (rs : List (ℕ × ℕ)) (t t' : List IdxIssueRedeem)
    → IsContinuous c k (name_of y)
    → IsOnce k ks
    → first ≤ last
    → IsCover lot first last rs
    → run_all (sync_issue_redeem c ks) rs t ≡ Loop.ended t'
    → rows_of y k t' ≡ rows_of y k t ++ indexed c y k (c.get_event_logs k (name_of y) [] first last)
unfolding run_all
rows_of-run_all c y k lot first last ks [] t t' s o w e h = absurd (omega arith)
rows_of-run_all c y k lot first last ks ((a, b) ∷ []) t t' s o w (d, f, g, e) h =
    elim (Option-cases (sync_issue_redeem c ks a b t)) [
      | inl raises ↦ cc (rw (raises, run_all) at h)
      | inr (u, one) ↦
          let ended : u ≡ t' = cc (rw (one, run_all) at h) in
          let whole : b ≡ last = omega arith in
          ap (rows_of y k) (sym ended)
          ∙ rows_of-sync_issue_redeem c y a b k ks t u o one
          ∙ rw (d, whole) refl
    ]
rows_of-run_all c y k lot first last ks ((a, b) ∷ r ∷ rs) t t' s o w (d, f, g, e) h =
    elim (Option-cases (sync_issue_redeem c ks a b t)) [
      | inl raises ↦ cc (rw (raises, run_all) at h)
      | inr (u, one) ↦
          let within : b + 1 ≤ last = cover_within lot (b + 1) last r rs e in
          let logs = λ (m n : ℕ). indexed c y k (c.get_event_logs k (name_of y) [] m n) in
          let rest : rows_of y k t' ≡ rows_of y k u ++ logs (b + 1) last =
            rows_of-run_all c y k lot (b + 1) last ks (r ∷ rs) u t' s o within e
              (rw (one, run_all) at h) in
          let here : rows_of y k u ≡ rows_of y k t ++ logs first b =
            subst (λ m. rows_of y k u ≡ rows_of y k t ++ logs m b) d
              (rows_of-sync_issue_redeem c y a b k ks t u o one) in
          let both : logs first last ≡ logs first b ++ logs (b + 1) last =
            ap (indexed c y k) (s first b last f (omega arith))
            ∙ indexed-append c y k (c.get_event_logs k (name_of y) [] first b)
                (c.get_event_logs k (name_of y) [] (b + 1) last) in
          rest
          ∙ ap (λ v. v ++ logs (b + 1) last) here
          ∙ append_assoc (rows_of y k t) (logs first b) (logs (b + 1) last)
          ∙ ap (λ v. rows_of y k t ++ v) (sym both)
    ]

-- Every event of the two names carries the three arguments that the indexer reads.
abbrev pub IsComplete : Chain → Type 0
IsComplete c =
    (k : Address) (y : IdxIssueRedeemEventType) (m n : ℕ)
    → All IsNamed (c.get_event_logs k (name_of y) [] m n)

run_all_ends :
    (c : Chain) (ks : List Address) (rs : List (ℕ × ℕ)) (t : List IdxIssueRedeem)
    → IsComplete c
    → (t' : List IdxIssueRedeem) × (run_all (sync_issue_redeem c ks) rs t ≡ Loop.ended t')
unfolding run_all
run_all_ends c ks [] t w = (t, refl)
run_all_ends c ks ((a, b) ∷ rs) t w =
    let (u, one) =
      sync_issue_redeem_returns c a b ks t (λ k. w k IdxIssueRedeemEventType.issue a b)
        (λ k. w k IdxIssueRedeemEventType.redeem a b) in
    let (t', rest) = run_all_ends c ks rs u w in (t', rw (one, run_all) rest)

-- A run that starts behind the chain ends at its latest block and adds to the index, for each type of
-- event and each token that is listed once, exactly the events of the new blocks whose amount fits, in
-- the order of the node's logs, however the blocks are cut into lots; with a positive lot size and more
-- fuel than there are new blocks, if the node's logs of a range are those of its two parts, and each
-- event carries the arguments read.
pub sync_index_complete :
    (fuel lot : ℕ) (c : Chain) (loaded : List Address) (db : Database) (y : IdxIssueRedeemEventType)
    (k : Address)
    → 0 < lot
    → synced_block_number db < c.latest_block
    → c.latest_block - synced_block_number db < fuel
    → IsContinuous c k (name_of y)
    → IsComplete c
    → IsOnce k (token_list db loaded)
    → (db' : Database) × ((sync_index fuel lot c loaded db).1 ≡ Loop.ended db')
      × (synced_block_number db' ≡ c.latest_block)
      × (rows_of y k db'.index
          ≡ rows_of y k db.index
            ++ indexed c y k
                (c.get_event_logs k (name_of y) [] (synced_block_number db + 1) c.latest_block))
unfolding sync_index synced_block_number commit_index
sync_index_complete fuel lot c loaded db y k p f e s w o =
    let from_block = synced_block_number db in
    let ks = token_list db loaded in
    let behind : leb c.latest_block from_block ≡ false = ground arith in
    let (rs, cover, runs) = index_blocks-covers fuel lot from_block c ks db.index p f e in
    let (t', ends) = run_all_ends c ks rs db.index w in
    (
      record db { index = t'; latest_block_number = some c.latest_block },
      rw (behind, sync_index) (rw (runs ∙ ends) refl),
      refl,
      rows_of-run_all c y k lot (from_block + 1) c.latest_block ks rs db.index t' s o (omega arith)
          cover ends,
    )
