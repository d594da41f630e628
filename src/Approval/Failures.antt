-- ===== src/Approval/Failures.antt =====
-- The events on which the indexer raises, and so commits nothing, each time it reads them.
use ibet_prime.Base.{
  ℕ, ◌≡◌, refl, ◌≢◌, ◌<◌, false, none, some, arith, ltb, get_or, Option-cases, inl, inr,
}
use ibet_prime.Chain.{Chain, Instant, Event, ArgName, maxsize}
use ibet_prime.Approval.Table.{
  Table, EventType, Arguments, find, sink, sink_on_transfer_approval, assign_found,
}
use ibet_prime.Approval.Events.{State, Source, sync_apply, sink_and_note}

-- An event other than an application that fits no row raises.
pub sink_missing :
    (c : Chain) (a : Arguments) (t : Table)
    → a.event_type ≢ EventType.apply_for
    → find a.token_address a.exchange_address a.application_id t.rows ≡ none
    → sink_on_transfer_approval c a t ≡ none
unfolding sink_on_transfer_approval
sink_missing c a t n missing = other a.event_type n
  where
    other : (ev : EventType) → ev ≢ EventType.apply_for → sink ev c a t ≡ none
    other EventType.apply_for n = absurd (n refl)
    other EventType.cancel n = rw (missing, sink)
    other EventType.escrow_finish n = rw (missing, sink, assign_found)
    other EventType.approve n = rw (missing, sink)

-- An application whose amount fits and whose data is a number that no datetime stands for raises.
pub sync_apply_overflow :
    (c : Chain) (key : ArgName) (source : Event → Source) (e : Event) (text amount : ℕ) (s : State)
    → e.args ArgName.value ≡ some amount
    → ¬ (maxsize < amount)
    → e.args ArgName.optional_data ≡ some text
    → c.instant_of text ≡ Instant.overflow_error
    → sync_apply c key source e s ≡ none
unfolding sync_apply sink_and_note sink_on_transfer_approval sink
sync_apply_overflow c key source e text amount s value fits named overflow =
    let small : ltb maxsize (get_or (e.args ArgName.value) 0) ≡ false = rw value (ground arith) in
    elim (Option-cases (e.args key)) [
      | inl unnamed ↦ rw small (rw unnamed)
      | inr (id, found) ↦ rw small (rw found (rw named (rw overflow)))
    ]
