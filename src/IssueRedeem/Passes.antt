-- ===== src/IssueRedeem/Passes.antt =====
-- What the two passes over a block range add to the rows of one type and token.
use ibet_prime.Base.{
  ℕ, ◌≡◌, refl, sym, ap, subst, ◌∙◌, ◌≢◌, ◌⊎◌, inl, inr, Bool, true, false, ◌==◌, ◌&&◌, List, [],
  ◌∷◌, ◌++◌, some, arith, All, Option-cases,
}
use ibet_prime.Chain.{Address, EventName, Chain}
use ibet_prime.Logs.{for_each}
use ibet_prime.IssueRedeem.Index.{
  IdxIssueRedeemEventType, IdxIssueRedeem, sync_event, sync_tokens_events, sync_issue, sync_redeem,
  sync_issue_redeem,
}
use ibet_prime.IssueRedeem.Rows.{
  is_same, rows_of, indexed, append_nil, rows_of-append, for_each-indexed, rows_of-indexed,
  rows_of-indexed_other,
}

-- The token is listed once.
abbrev pub IsOnce : Address → List Address → Type 0
IsOnce k [] = ⊥
IsOnce k (x ∷ xs) = (x ≡ k × All (λ z. z ≢ k) xs) ⊎ (x ≢ k × IsOnce k xs)

and_false : (b p : Bool) → p ≡ false → (b && p) ≡ false
and_false true p h = h
and_false false p h = refl

-- A pass over tokens adds nothing to the rows of another type or token.
rows_of-sync_tokens_other :
    (c : Chain) (y y' : IdxIssueRedeemEventType) (name : EventName) (m n k' : ℕ) (ks : List Address)
    (t t' : List IdxIssueRedeem)
    → (is_same y y' ≡ false) ⊎ All (λ z. z ≢ k') ks
    → sync_tokens_events c y name m n ks t ≡ some t'
    → rows_of y' k' t' ≡ rows_of y' k' t
unfolding sync_tokens_events
rows_of-sync_tokens_other c y y' name m n k' [] t t' o h =
    let kept : t ≡ t' = cc h in ap (rows_of y' k') (sym kept)
rows_of-sync_tokens_other c y y' name m n k' (k ∷ ks) t t' o h =
    let es = c.get_event_logs k name [] m n in
    elim (Option-cases (for_each (sync_event c y k) es t)) [
      | inl raises ↦ cc (rw (raises, sync_tokens_events) at h)
      | inr (u, e) ↦
          let miss : (is_same y y' && k == k') ≡ false = elim o [
            | inl d ↦ rw d refl
            | inr d ↦ and_false (is_same y y') (k == k') (ground (arith, d.0))
          ] in
          let rest : (is_same y y' ≡ false) ⊎ All (λ z. z ≢ k') ks = elim o [
            | inl d ↦ inl d
            | inr d ↦ inr d.1
          ] in
          rows_of-sync_tokens_other c y y' name m n k' ks u t' rest
            (rw (e, sync_tokens_events) at h)
          ∙ ap (rows_of y' k') (for_each-indexed c y k es t u e)
          ∙ rows_of-append y' k' t (indexed c y k es)
          ∙ ap (λ v. rows_of y' k' t ++ v) (rows_of-indexed_other c y y' k k' es miss)
          ∙ append_nil (rows_of y' k' t)
    ]

-- A pass over tokens adds, to the rows of its type and a token that is listed once, those of the
-- token's events.
rows_of-sync_tokens :
    (c : Chain) (y : IdxIssueRedeemEventType) (name : EventName) (m n k' : ℕ) (ks : List Address)
    (t t' : List IdxIssueRedeem)
    → IsOnce k' ks
    → sync_tokens_events c y name m n ks t ≡ some t'
    → rows_of y k' t' ≡ rows_of y k' t ++ indexed c y k' (c.get_event_logs k' name [] m n)
unfolding sync_tokens_events
rows_of-sync_tokens c y name m n k' [] t t' o h = absurd o
rows_of-sync_tokens c y name m n k' (k ∷ ks) t t' o h =
    let es = c.get_event_logs k name [] m n in
    elim (Option-cases (for_each (sync_event c y k) es t)) [
      | inl raises ↦ cc (rw (raises, sync_tokens_events) at h)
      | inr (u, e) ↦
          let after : sync_tokens_events c y name m n ks u ≡ some t' =
            (rw (e, sync_tokens_events) at h) in
          let added : rows_of y k' u ≡ rows_of y k' t ++ rows_of y k' (indexed c y k es) =
            ap (rows_of y k') (for_each-indexed c y k es t u e)
            ∙ rows_of-append y k' t (indexed c y k es) in
          elim o [
            | inl (hit, others) ↦
                rows_of-sync_tokens_other c y y name m n k' ks u t' (inr others) after
                ∙ added
                ∙ subst
                    (λ z.
                      rows_of y k' t
                        ++ rows_of y k' (indexed c y z (c.get_event_logs z name [] m n))
                      ≡ rows_of y k' t ++ indexed c y k' (c.get_event_logs k' name [] m n))
                    (sym hit)
                    (ap (λ v. rows_of y k' t ++ v)
                      (rows_of-indexed c y k' (c.get_event_logs k' name [] m n)))
            | inr (miss, once) ↦
                rows_of-sync_tokens c y name m n k' ks u t' once after
                ∙ ap (λ v. v ++ indexed c y k' (c.get_event_logs k' name [] m n))
                    (added
                      ∙ ap (λ v. rows_of y k' t ++ v)
                          (rows_of-indexed_other c y y k k' es
                            (and_false (is_same y y) (k == k') (ground arith)))
                      ∙ append_nil (rows_of y k' t))
          ]
    ]

abbrev pub name_of : IdxIssueRedeemEventType → EventName
name_of IdxIssueRedeemEventType.issue = EventName.issue
name_of IdxIssueRedeemEventType.redeem = EventName.redeem

-- The two passes over a block range add, to the rows of a type and a token that is listed once, those
-- of its events in the range.
pub rows_of-sync_issue_redeem :
    (c : Chain) (y : IdxIssueRedeemEventType) (m n k : ℕ) (ks : List Address)
    (t t' : List IdxIssueRedeem)
    → IsOnce k ks
    → sync_issue_redeem c ks m n t ≡ some t'
    → rows_of y k t' ≡ rows_of y k t ++ indexed c y k (c.get_event_logs k (name_of y) [] m n)
unfolding sync_issue_redeem sync_issue sync_redeem
rows_of-sync_issue_redeem c y m n k ks t t' o h = elim (Option-cases (sync_issue c ks m n t)) [
  | inl raises ↦ cc (rw (raises, sync_issue_redeem) at h)
  | inr (u, e) ↦ by_type y u e (rw (e, sync_issue_redeem) at h)
]
  where
    by_type :
        (y : IdxIssueRedeemEventType) (u : List IdxIssueRedeem)
        → sync_issue c ks m n t ≡ some u
        → sync_redeem c ks m n u ≡ some t'
        → rows_of y k t' ≡ rows_of y k t ++ indexed c y k (c.get_event_logs k (name_of y) [] m n)
    by_type IdxIssueRedeemEventType.issue u e f =
        rows_of-sync_tokens_other c IdxIssueRedeemEventType.redeem IdxIssueRedeemEventType.issue
          EventName.redeem m n k ks u t' (inl refl) f
        ∙ rows_of-sync_tokens c IdxIssueRedeemEventType.issue EventName.issue m n k ks t u o e
    by_type IdxIssueRedeemEventType.redeem u e f =
        rows_of-sync_tokens c IdxIssueRedeemEventType.redeem EventName.redeem m n k ks u t' o f
        ∙ ap
            (λ v.
              v
              ++ indexed c IdxIssueRedeemEventType.redeem k
                  (c.get_event_logs k EventName.redeem [] m n))
            (rows_of-sync_tokens_other c IdxIssueRedeemEventType.issue
              IdxIssueRedeemEventType.redeem EventName.issue m n k ks t u (inl refl) e)
