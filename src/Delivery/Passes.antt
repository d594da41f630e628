-- ===== src/Delivery/Passes.antt =====
-- What the event passes of batch/indexer_dvp_delivery.py keep.
use ibet_prime.Base.{
  All, All-every, ◌≢◌, ℕ, ◌≡◌, List, [], Option, some, arith, ltb, Bool-cases, inl, inr,
  >>=-eq-some, ◌>>=◌, subst,
}
use ibet_prime.Chain.{Event, EventName, ArgName}
use ibet_prime.Logs.{for_each-keeps}
use ibet_prime.Delivery.Table.{Table, Registry, Arguments, EventType, sink_on_delivery}
use ibet_prime.Delivery.Events.{
  Context, State, arguments, document, data_of, sunk, sink_created, note, is_oversized,
  issuer_address_token_type, sync_created, sync_ended, sync_noted, sync_events,
  sync_delivery_created, sync_delivery_canceled, sync_delivery_confirmed, sync_delivery_finished,
  sync_delivery_aborted, sync_all,
}

-- What every call of the sink keeps for the events that fit, the loops around it keep.
module _ {κ} (P : Table → Type κ) (Fits : EventType → Option ℕ → Type 0)
    (keeps : (g : Registry) (a : Arguments) (t t' : Table)
      → Fits a.event_type a.delivery_id
      → sink_on_delivery g a t ≡ some t'
      → P t
      → P t') where
  pub sunk-keeps :
      (x : Context) (a : Arguments) (s s' : State)
      → Fits a.event_type a.delivery_id
      → sunk x a s ≡ some s'
      → P s.table
      → P s'.table
  sunk-keeps x a s s' q h p =
      let (t, sinks, done) = >>=-eq-some (sink_on_delivery x.registry a s.table) _ h in
      let eq : t ≡ s'.table = ground (arith, done) in
      subst P eq (keeps x.registry a s.table t q sinks p)

  sync_created-keeps :
      (x : Context) (k : ℕ) (e : Event) (s s' : State)
      → Fits EventType.created (e.args ArgName.delivery_id)
      → sync_created x k e s ≡ some s'
      → P s.table
      → P s'.table
  unfolding sync_created
  sync_created-keeps x k e s s' q h p = elim (Bool-cases (is_oversized e)) [
    | inl large ↦
        let done = rw (large, sync_created) at h in
        let eq : s ≡ s' = cc in subst (λ u. P u.table) eq p
    | inr fits ↦
        let a = arguments x.chain EventType.created k e in
        let (raw, _, h1) =
          >>=-eq-some (e.args ArgName.raw_data)
            (λ raw. document x.codec raw >>= λ d. sink_created x k e s raw d)
            (rw (fits, sync_created) at h) in
        let (d, _, h2) = >>=-eq-some (document x.codec raw) (λ d. sink_created x k e s raw d) h1 in
        sunk-keeps x
          (record a {
            data_text = some (data_of x.codec raw d);
            settlement_service_type = d.settlement_service_type;
          })
          s s' q h2 p
  ]

  pub sync_ended-keeps :
      (ev : EventType) (x : Context) (k : ℕ) (e : Event) (s s' : State)
      → Fits ev (e.args ArgName.delivery_id)
      → sync_ended ev x k e s ≡ some s'
      → P s.table
      → P s'.table
  unfolding sync_ended
  sync_ended-keeps ev x k e s s' q h p = elim (Bool-cases (is_oversized e)) [
    | inl large ↦
        let done = rw (large, sync_ended) at h in
        let eq : s ≡ s' = cc in subst (λ u. P u.table) eq p
    | inr fits ↦ sunk-keeps x (arguments x.chain ev k e) s s' q (rw (fits, sync_ended) at h) p
  ]

  sync_noted-keeps :
      (ev : EventType) (code : ℕ) (x : Context) (k : ℕ) (e : Event) (s s' : State)
      → Fits ev (e.args ArgName.delivery_id)
      → sync_noted ev code x k e s ≡ some s'
      → P s.table
      → P s'.table
  unfolding sync_noted
  sync_noted-keeps ev code x k e s s' q h p = elim (Bool-cases (is_oversized e)) [
    | inl large ↦
        let done = rw (large, sync_noted) at h in
        let eq : s ≡ s' = cc in subst (λ u. P u.table) eq p
    | inr fits ↦
        let a = arguments x.chain ev k e in
        let find_token = issuer_address_token_type x.tokens a.token_address in
        let (u, sinks, h1) =
          >>=-eq-some (sunk x a s) (λ u. find_token >>= λ token. some (note code a token u))
            (rw (fits, sync_noted) at h) in
        let (token, _, h2) = >>=-eq-some find_token (λ token. some (note code a token u)) h1 in
        let eq : u.table ≡ s'.table = ground (arith, h2) in
        subst P eq (sunk-keeps x a s u q sinks p)
  ]

  sync_events-keeps :
      (Q : Event → Type 0) (body : Event → State → Option State) (x : Context) (name : EventName)
      (k m n : ℕ) (s s' : State)
      → ((e : Event) (u u' : State) → Q e → body e u ≡ some u' → P u.table → P u'.table)
      → All Q (x.chain.get_event_logs k name [] m n)
      → sync_events body x name k m n s ≡ some s'
      → P s.table
      → P s'.table
  unfolding sync_events
  sync_events-keeps Q body x name k m n s s' each q h p = elim (Bool-cases (ltb n m)) [
    | inl empty ↦
        let done = rw (empty, sync_events) at h in
        let eq : s ≡ s' = cc in subst (λ u. P u.table) eq p
    | inr range ↦
        for_each-keeps (λ (u : State). P u.table) Q body each (x.chain.get_event_logs k name [] m n)
          s s' q (rw (range, sync_events) at h) p
  ]

  -- The events of a pass that fit.
  abbrev FitsLogs : EventType → Event → Type 0
  FitsLogs ev e = Fits ev (e.args ArgName.delivery_id)

  pub sync_delivery_created-keeps :
      (x : Context) (k m n : ℕ) (s s' : State)
      → All
          (FitsLogs EventType.created)
          (x.chain.get_event_logs k EventName.delivery_created [] m n)
      → sync_delivery_created x k m n s ≡ some s'
      → P s.table
      → P s'.table
  unfolding sync_delivery_created
  sync_delivery_created-keeps x k m n s s' q h p =
      sync_events-keeps (FitsLogs EventType.created) (sync_created x k) x EventName.delivery_created
        k m n s s' (sync_created-keeps x k) q h p

  pub sync_all-keeps :
      (x : Context) (k m n : ℕ) (s s' : State)
      → All
          (FitsLogs EventType.created)
          (x.chain.get_event_logs k EventName.delivery_created [] m n)
      → ((ev : EventType) (d : Option ℕ) → ev ≢ EventType.created → Fits ev d)
      → sync_all x k m n s ≡ some s'
      → P s.table
      → P s'.table
  unfolding sync_all sync_delivery_canceled sync_delivery_confirmed sync_delivery_finished
      sync_delivery_aborted
  sync_all-keeps x k m n s s' q others h p =
      let (s1, created, h1) = >>=-eq-some (sync_delivery_created x k m n s) _ h in
      let (s2, canceled, h2) = >>=-eq-some (sync_delivery_canceled x k m n s1) _ h1 in
      let (s3, confirmed, h3) = >>=-eq-some (sync_delivery_confirmed x k m n s2) _ h2 in
      let (s4, finished, aborted) = >>=-eq-some (sync_delivery_finished x k m n s3) _ h3 in
      let every = λ (ev : EventType) (o : ev ≢ EventType.created) (es : List Event).
        All-every (FitsLogs ev) es (λ e. others ev (e.args ArgName.delivery_id) o) in
      let p1 = sync_delivery_created-keeps x k m n s s1 q created p in
      let p2 =
        sync_events-keeps (FitsLogs EventType.canceled) _ x _ k m n s1 s2
          (sync_ended-keeps EventType.canceled x k) (every EventType.canceled (λ e. cc) _) canceled
          p1 in
      let p3 =
        sync_events-keeps (FitsLogs EventType.confirm_event) _ x _ k m n s2 s3
          (sync_noted-keeps EventType.confirm_event 0 x k)
          (every EventType.confirm_event (λ e. cc) _) confirmed p2 in
      let p4 =
        sync_events-keeps (FitsLogs EventType.finished) _ x _ k m n s3 s4
          (sync_noted-keeps EventType.finished 1 x k) (every EventType.finished (λ e. cc) _)
          finished p3 in
      sync_events-keeps (FitsLogs EventType.aborted) _ x _ k m n s4 s'
        (sync_ended-keeps EventType.aborted x k) (every EventType.aborted (λ e. cc) _) aborted p4
