-- ===== src/IssueRedeem/Returns.antt =====
-- The passes return, where the events carry the arguments that they read.
use ibet_prime.Base.{ℕ, ◌≡◌, refl, inl, inr, ltb, List, [], ◌∷◌, some, All, Bool-cases}
use ibet_prime.Chain.{Address, maxsize, EventName, ArgName, Event, Chain}
use ibet_prime.Logs.{for_each}
use ibet_prime.IssueRedeem.Index.{
  IdxIssueRedeemEventType, IdxIssueRedeem, sync_event, sync_tokens_events, sync_issue, sync_redeem,
  sync_issue_redeem,
}

-- The event carries the arguments that the indexer reads.
abbrev pub IsNamed : Event → Type 0
IsNamed e =
    (v l x : ℕ) × (e.args ArgName.amount ≡ some v)
    × (e.args ArgName.lock_address ≡ some l)
    × (e.args ArgName.target_address ≡ some x)

sync_event_returns :
    (c : Chain) (y : IdxIssueRedeemEventType) (k : Address) (e : Event) (t : List IdxIssueRedeem)
    → IsNamed e
    → (t' : List IdxIssueRedeem) × (sync_event c y k e t ≡ some t')
unfolding sync_event
sync_event_returns c y k e t (v, l, x, ev, el, ex) = elim (Bool-cases (ltb maxsize v)) [
  | inl large ↦ (t, rw (ev, large, sync_event) refl)
  | inr small ↦ rw (ev, el, ex, small, sync_event) (_, refl)
]

for_each_returns :
    (c : Chain) (y : IdxIssueRedeemEventType) (k : Address) (es : List Event)
    (t : List IdxIssueRedeem)
    → All IsNamed es
    → (t' : List IdxIssueRedeem) × (for_each (sync_event c y k) es t ≡ some t')
unfolding for_each
for_each_returns c y k [] t w = (t, refl)
for_each_returns c y k (e ∷ es) t (named, w) =
    let (u, one) = sync_event_returns c y k e t named in
    let (t', rest) = for_each_returns c y k es u w in (t', rw (one, for_each) rest)

sync_tokens_returns :
    (c : Chain) (y : IdxIssueRedeemEventType) (name : EventName) (m n : ℕ) (ks : List Address)
    (t : List IdxIssueRedeem)
    → ((k : Address) → All IsNamed (c.get_event_logs k name [] m n))
    → (t' : List IdxIssueRedeem) × (sync_tokens_events c y name m n ks t ≡ some t')
unfolding sync_tokens_events
sync_tokens_returns c y name m n [] t w = (t, refl)
sync_tokens_returns c y name m n (k ∷ ks) t w =
    let (u, one) = for_each_returns c y k (c.get_event_logs k name [] m n) t (w k) in
    let (t', rest) = sync_tokens_returns c y name m n ks u w in
    (t', rw (one, sync_tokens_events) rest)

pub sync_issue_redeem_returns :
    (c : Chain) (m n : ℕ) (ks : List Address) (t : List IdxIssueRedeem)
    → ((k : Address) → All IsNamed (c.get_event_logs k EventName.issue [] m n))
    → ((k : Address) → All IsNamed (c.get_event_logs k EventName.redeem [] m n))
    → (t' : List IdxIssueRedeem) × (sync_issue_redeem c ks m n t ≡ some t')
unfolding sync_issue_redeem sync_issue sync_redeem
sync_issue_redeem_returns c m n ks t v w =
    let (u, one) = sync_tokens_returns c IdxIssueRedeemEventType.issue EventName.issue m n ks t v in
    let (t', two) =
      sync_tokens_returns c IdxIssueRedeemEventType.redeem EventName.redeem m n ks u w in
    (t', rw (one, sync_issue_redeem) two)
