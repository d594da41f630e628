-- ===== src/Delivery/Failures.antt =====
-- What stops the DVP delivery indexer for good.
use ibet_prime.Base.{
  All, All-mono, ℕ, ◌+◌, ◌≤◌, ◌<◌, ◌≡◌, ◌≢◌, refl, ◌∙◌, true, false, List, [], ◌∷◌, Option, none,
  some, arith, ltb, leb, Option-cases, inl, inr, ap, ◌>>=◌,
}
use ibet_prime.Blocks.{Loop, run_all_raises}
use ibet_prime.Chain.{Event, EventName, ArgName, address_arg}
use ibet_prime.Logs.{for_each_raises, Occurs}
use ibet_prime.Delivery.Table.{
  EventType, Registry, Arguments, Table, find, is_involved, sink, sink_on_delivery, assign_found,
}
use ibet_prime.Delivery.Events.{
  Context, State, Loaded, Document, document, sink_created, sync_created, arguments, sunk,
  is_oversized, issuer_address_token_type, sync_noted, sync_ended, sync_events,
  sync_delivery_created, sync_delivery_canceled, sync_delivery_confirmed, sync_all,
}
use ibet_prime.Delivery.Sync.{
  Database, Services, Ending, block_number, sync_blocks, context, sync_exchanges,
}
use ibet_prime.Delivery.Progress.{sync_blocks-covers}
use ibet_prime.Delivery.Keeps.{sink_on_delivery_absent}
use ibet_prime.Delivery.Passes.{sync_ended-keeps, sync_delivery_created-keeps, sync_all-keeps}

-- A confirmation or a finish of a delivery of a token that has no row in `token` raises, whoever
-- takes part in it.
sync_noted_unknown :
    (ev : EventType) (code : ℕ) (x : Context) (k : ℕ) (e : Event) (s : State)
    → is_oversized e ≡ false
    → issuer_address_token_type x.tokens (address_arg e ArgName.token) ≡ none
    → sync_noted ev code x k e s ≡ none
unfolding sync_noted
sync_noted_unknown ev code x k e s fits unknown =
    elim (Option-cases (sunk x (arguments x.chain ev k e) s)) [
      | inl stops ↦ rw (sync_noted, fits, stops)
      | inr (u, goes) ↦ rw (sync_noted, fits, goes, unknown)
    ]

-- A range with such a confirmation raises.
sync_all_unknown :
    (x : Context) (k m n : ℕ) (e : Event) (s : State)
    → m ≤ n
    → Occurs e (x.chain.get_event_logs k EventName.delivery_confirmed [] m n)
    → is_oversized e ≡ false
    → issuer_address_token_type x.tokens (address_arg e ArgName.token) ≡ none
    → sync_all x k m n s ≡ none
unfolding sync_all sync_delivery_confirmed sync_events
sync_all_unknown x k m n e s range occurs fits unknown =
    let full : ltb n m ≡ false = ground arith in
    let raises =
      for_each_raises {0, 0} (λ s. Unit) (sync_noted EventType.confirm_event 0 x k) e
        (λ f u u' _ _. tt)
        (λ s _. sync_noted_unknown EventType.confirm_event 0 x k e s fits unknown)
        (x.chain.get_event_logs k EventName.delivery_confirmed [] m n) in
    elim (Option-cases (sync_delivery_created x k m n s)) [
      | inl stops ↦ rw (sync_all, stops)
      | inr (s1, creates) ↦ elim (Option-cases (sync_delivery_canceled x k m n s1)) [
        | inl stops ↦ rw (sync_all, creates, stops)
        | inr (s2, cancels) ↦
            rw (sync_all, creates, cancels, sync_delivery_confirmed, sync_events, full)
              (rw (raises s2 tt occurs))
      ]
    ]

-- If an exchange logs, in a block not synced yet, the confirmation of a delivery of a token that the
-- table of tokens lacks, with an amount that fits, then a run that comes to this exchange raises, and
-- commits nothing for it or the exchanges after it.
pub sync_exchanges_blocked :
    (fuel lot : ℕ) (v : Services) (k block : ℕ) (ks : List ℕ) (db : Database) (e : Event)
    → 0 < lot
    → v.chain.latest_block < fuel
    → block_number db.block_numbers k < block
    → block ≤ v.chain.latest_block
    → ((m n : ℕ)
        → m ≤ block
        → block ≤ n
        → Occurs e (v.chain.get_event_logs k EventName.delivery_confirmed [] m n))
    → is_oversized e ≡ false
    → issuer_address_token_type db.tokens (address_arg e ArgName.token) ≡ none
    → sync_exchanges fuel lot v (k ∷ ks) db ≡ (db, Ending.raised)
unfolding sync_exchanges
sync_exchanges_blocked fuel lot v k block ks db e p f after upto occurs fits unknown =
    let s : State = record { table = db.table; notification_events = [] } in
    let from_block = block_number db.block_numbers k in
    let x = context v db in
    let behind : leb v.chain.latest_block from_block ≡ false = ground arith in
    let (rs, cover, covers) =
      sync_blocks-covers fuel lot x k from_block s p (omega arith) (omega arith) in
    let raises =
      run_all_raises {0} (λ s. Unit) (sync_all x k) lot (from_block + 1) v.chain.latest_block block
        rs s cover tt (omega arith) upto (λ m n s s' _ _ _. tt)
        (λ m n s _ above below _.
          sync_all_unknown x k m n e s (omega arith) (occurs m n above below) fits unknown) in
    let done : sync_blocks fuel lot x k from_block s ≡ Loop.raised = covers ∙ raises in
    rw (behind, done, sync_exchanges)

-- A call for another event than a creation that an account takes part in, on a delivery without a row, raises.
sink_missing :
    (g : Registry) (a : Arguments) (i : ℕ) (t : Table)
    → a.event_type ≢ EventType.created
    → find a.exchange_address i t.rows ≡ none
    → sink a.event_type g a i t ≡ none
unfolding sink
sink_missing g a i t n missing = other a.event_type n
  where
    other : (ev : EventType) → ev ≢ EventType.created → sink ev g a i t ≡ none
    other EventType.created n = absurd (n refl)
    other EventType.canceled n = rw (missing, sink, assign_found)
    other EventType.confirm_event n = rw (missing, sink, assign_found)
    other EventType.finished n = rw (missing, sink, assign_found)
    other EventType.aborted n = rw (missing, sink, assign_found)

-- A cancellation that an account takes part in, of a delivery without a row, raises.
sync_ended_missing :
    (x : Context) (k i : ℕ) (e : Event) (s : State)
    → is_oversized e ≡ false
    → e.args ArgName.delivery_id ≡ some i
    → is_involved x.registry (arguments x.chain EventType.canceled k e) ≡ true
    → find k i s.table.rows ≡ none
    → sync_ended EventType.canceled x k e s ≡ none
unfolding sync_ended sink_on_delivery
sync_ended_missing x k i e s fits named involved missing =
    let a = arguments x.chain EventType.canceled k e in
    let raises = sink_missing x.registry a i s.table (λ e. cc) missing in
    let stops : sink_on_delivery x.registry a s.table ≡ none =
      rw involved
        (ap (λ o. o >>= λ j. sink EventType.canceled x.registry a j s.table) named ∙ raises) in
    rw (sync_ended, fits, stops)

-- Only the creations of the delivery with the identifier are barred.
abbrev IsOther : ℕ → EventType → Option ℕ → Type 0
IsOther i ev d = ev ≡ EventType.created → d ≢ some i

-- Creations of other deliveries are not barred.
made-IsOther :
    (i : ℕ) (es : List Event)
    → All (λ (c : Event). c.args ArgName.delivery_id ≢ some i) es
    → All (λ (c : Event). IsOther i EventType.created (c.args ArgName.delivery_id)) es
made-IsOther i es =
    All-mono (λ (c : Event). c.args ArgName.delivery_id ≢ some i)
      (λ (c : Event). IsOther i EventType.created (c.args ArgName.delivery_id)) es
      (λ c other _. other)

-- A range with such a cancellation, and without the creation, raises.
sync_all_missing :
    (x : Context) (k i m n : ℕ) (e : Event) (s : State)
    → m ≤ n
    → All
        (λ (c : Event). c.args ArgName.delivery_id ≢ some i)
        (x.chain.get_event_logs k EventName.delivery_created [] m n)
    → Occurs e (x.chain.get_event_logs k EventName.delivery_canceled [] m n)
    → is_oversized e ≡ false
    → e.args ArgName.delivery_id ≡ some i
    → is_involved x.registry (arguments x.chain EventType.canceled k e) ≡ true
    → find k i s.table.rows ≡ none
    → sync_all x k m n s ≡ none
unfolding sync_all sync_delivery_canceled sync_events
sync_all_missing x k i m n e s range made occurs fits named involved missing =
    let full : ltb n m ≡ false = ground arith in
    let P = λ (t : Table). find k i t.rows ≡ none in
    let keeps =
      λ (g : Registry) (a : Arguments) (t t' : Table) (o : IsOther i a.event_type a.delivery_id).
        sink_on_delivery_absent g a t t' k i o in
    let raises =
      for_each_raises (λ (u : State). P u.table) (sync_ended EventType.canceled x k) e
        (λ f u u'. sync_ended-keeps P (IsOther i) keeps EventType.canceled x k f u u' (λ e. cc))
        (λ u. sync_ended_missing x k i e u fits named involved)
        (x.chain.get_event_logs k EventName.delivery_canceled [] m n) in
    elim (Option-cases (sync_delivery_created x k m n s)) [
      | inl stops ↦ rw (sync_all, stops)
      | inr (s1, creates) ↦
          let absent =
            sync_delivery_created-keeps P (IsOther i) keeps x k m n s s1 (made-IsOther i _ made)
              creates missing in
          rw (sync_all, creates, sync_delivery_canceled, sync_events, full)
            (rw (raises s1 absent occurs))
    ]

-- If an exchange logs, in a block not synced yet, the cancellation of a delivery that has no row and
-- whose creation is in none of the blocks not synced yet, and an account takes part in the delivery,
-- with an amount that fits, then a run that comes to this exchange raises, and commits nothing for it
-- or the exchanges after it.
pub sync_exchanges_late :
    (fuel lot : ℕ) (v : Services) (k block i : ℕ) (ks : List ℕ) (db : Database) (e : Event)
    → 0 < lot
    → v.chain.latest_block < fuel
    → block_number db.block_numbers k < block
    → block ≤ v.chain.latest_block
    → find k i db.table.rows ≡ none
    → ((m n : ℕ)
        → block_number db.block_numbers k < m
        → All
            (λ (c : Event). c.args ArgName.delivery_id ≢ some i)
            (v.chain.get_event_logs k EventName.delivery_created [] m n))
    → ((m n : ℕ)
        → m ≤ block
        → block ≤ n
        → Occurs e (v.chain.get_event_logs k EventName.delivery_canceled [] m n))
    → is_oversized e ≡ false
    → e.args ArgName.delivery_id ≡ some i
    → is_involved db.registry (arguments v.chain EventType.canceled k e) ≡ true
    → sync_exchanges fuel lot v (k ∷ ks) db ≡ (db, Ending.raised)
unfolding sync_exchanges
sync_exchanges_late fuel lot v k block i ks db e p f after upto missing made occurs fits named
      involved =
    let s : State = record { table = db.table; notification_events = [] } in
    let from_block = block_number db.block_numbers k in
    let x = context v db in
    let P = λ (t : Table). find k i t.rows ≡ none in
    let keeps =
      λ (g : Registry) (a : Arguments) (t t' : Table) (o : IsOther i a.event_type a.delivery_id).
        sink_on_delivery_absent g a t t' k i o in
    let behind : leb v.chain.latest_block from_block ≡ false = ground arith in
    let (rs, cover, covers) =
      sync_blocks-covers fuel lot x k from_block s p (omega arith) (omega arith) in
    let raises =
      run_all_raises (λ (u : State). P u.table) (sync_all x k) lot (from_block + 1)
        v.chain.latest_block block rs s cover missing (omega arith) upto
        (λ m n u u' later.
          sync_all-keeps P (IsOther i) keeps x k m n u u'
            (made-IsOther i _ (made m n (omega arith))) (λ ev d other eq. absurd (other eq)))
        (λ m n u later above below.
          sync_all_missing x k i m n e u (omega arith) (made m n (omega arith))
            (occurs m n above below) fits named involved) in
    let done : sync_blocks fuel lot x k from_block s ≡ Loop.raised = covers ∙ raises in
    rw (behind, done, sync_exchanges)

-- A creation with an amount that fits and data that is JSON but no object raises.
pub sync_created_other :
    (x : Context) (k : ℕ) (e : Event) (raw : ℕ) (s : State)
    → is_oversized e ≡ false
    → e.args ArgName.raw_data ≡ some raw
    → x.codec.json_loads raw ≡ Loaded.other
    → sync_created x k e s ≡ none
unfolding sync_created
sync_created_other x k e raw s fits named other =
    let body = λ (o : Option Document). o >>= λ d. sink_created x k e s raw d in
    let fails : document x.codec raw ≡ none = rw (other, document) in
    rw (sync_created, fits, named) (ap body fails)
