-- ===== src/Scheduled/Pending.antt =====
-- A worker processes only events that are not finished.
use ibet_prime.Base.{
  ℕ, suc, ◌≡◌, refl, subst, ◌≢◌, ◌<◌, inl, inr, Bool, not, ◌==◌, List, [], ◌∷◌, ◌++◌, arith, select,
  All, All-append, All-mono, All-select, Option-cases,
}
use ibet_prime.Chain.{Address}
use ibet_prime.Scheduled.Table.{ScheduledEvent, processing, next_event, events_of}
use ibet_prime.Scheduled.Workers.{
  Phase, idle, taken, working, leaving, Sent, State, move, take, load, process_event, release,
  Action, goes_on, shuts_down, schedules, deletes, removes, go_on, shut_down, soft_delete, step,
  run,
}
use ibet_prime.Scheduled.Exclusion.{IsExclusive, step-IsExclusive, process_event_keeps}
use ibet_prime.Scheduled.Rows.{
  IsUnique, IsOpen, IsTask, soft_delete-IsUnique, soft_delete-below, soft_delete-IsOpen,
  select-IsUnique, append-IsUnique, events_of-IsTask,
}
use ibet_prime.Scheduled.Tasks.{
  IsTasks, IsPending, move-IsPending, rewritten-IsTasks, process_event_writes, finished-IsPending,
}

load-IsPending : (w t a : ℕ) (s : State) → IsPending s → IsPending (load w t a s)
unfolding load
load-IsPending w t a s q =
    by_events (events_of t a s.events)
      (events_of-IsTask t a s.next_event_id s.events q.unique q.below)
  where
    by_events :
        (es : List ScheduledEvent)
        → IsUnique es × All (IsTask a s.next_event_id s.events) es
        → IsPending (elim es [ [] ↦ move w idle s | e ∷ es ↦ move w (working a (e ∷ es)) s ])
    by_events [] h = move-IsPending w idle s tt q
    by_events (e ∷ es) h = move-IsPending w (working a (e ∷ es)) s h q

take-IsPending : (w t : ℕ) (s : State) → IsPending s → IsPending (take w t s)
unfolding take
take-IsPending w t s q = elim (Option-cases (next_event t s.processing_issuers s.events)) [
  | inl n ↦ rw (n, take) q
  | inr (e, found) ↦
      rw (found, take)
        (move-IsPending w (taken t e.issuer_address)
          (record s { processing_issuers = e.issuer_address ∷ s.processing_issuers }) tt
          (record { unique = q.unique; below = q.below; tasks = q.tasks }))
]

release-IsPending : (w a : ℕ) (s : State) → IsPending s → IsPending (release w a s)
unfolding release
release-IsPending w a s q =
    move-IsPending w idle
      (record s {
        processing_issuers = select (λ (p : Address). not (p == a)) s.processing_issuers;
      })
      tt (record { unique = q.unique; below = q.below; tasks = q.tasks })

go_on-IsPending :
    (has_key : Address → Bool) (w now : ℕ) (sent : Sent) (p : Phase) (s : State)
    → s.workers w ≡ p
    → IsExclusive s
    → IsPending s
    → IsPending (go_on has_key w now sent p s)
unfolding go_on
go_on-IsPending has_key w now sent idle s at x q = take-IsPending w now s q
go_on-IsPending has_key w now sent (taken t a) s at x q = load-IsPending w t a s q
go_on-IsPending has_key w now sent (working a []) s at x q = move-IsPending w (leaving a) s tt q
go_on-IsPending has_key w now sent (working a (e ∷ es)) s at x q =
    elim (Option-cases (process_event has_key sent e s)) [
      | inl raises ↦ rw (raises, go_on) (move-IsPending w (leaving a) s tt q)
      | inr (s', done) ↦
          let (same, _) = process_event_keeps has_key sent e s s' done in
          let (status, written, next) = process_event_writes has_key sent e s s' done in
          rw (done, go_on) (finished-IsPending w a status e es s s' at same written next x q)
    ]
go_on-IsPending has_key w now sent (leaving a) s at x q = release-IsPending w a s q

shut_down-IsPending : (w : ℕ) (p : Phase) (s : State) → IsPending s → IsPending (shut_down w p s)
shut_down-IsPending w (working a es) s q = move-IsPending w (leaving a) s tt q
shut_down-IsPending w idle s q = q
shut_down-IsPending w (taken t a) s q = q
shut_down-IsPending w (leaving a) s q = q

-- What the API writes.
api-IsPending :
    (next : ℕ) (rows : List ScheduledEvent) (s : State)
    → IsUnique rows
    → All (λ r. r.id < next) rows
    → ((a : Address) (e : ScheduledEvent)
        → IsTask a s.next_event_id s.events e
        → IsTask a next rows e)
    → IsPending s
    → IsPending (record s { events = rows; next_event_id = next })
api-IsPending next rows s u b f q = record {
  unique = u;
  below = b;
  tasks = λ w. rewritten-IsTasks s.next_event_id next s.events rows (s.workers w) f (q.tasks w);
}

step-IsPending :
    (has_key : Address → Bool) (a : Action) (s : State)
    → IsExclusive s
    → IsPending s
    → IsPending (step has_key a s)
unfolding step
step-IsPending has_key (goes_on w now sent) s x q =
    go_on-IsPending has_key w now sent (s.workers w) s refl x q
step-IsPending has_key (shuts_down w) s x q = shut_down-IsPending w (s.workers w) s q
step-IsPending has_key (schedules e) s x q =
    let new : ScheduledEvent = record e { id = s.next_event_id; status = processing } in
    api-IsPending (suc s.next_event_id) (s.events ++ new ∷ []) s
      (append-IsUnique new s.events q.below q.unique)
      (All-append (λ r. r.id < suc s.next_event_id) s.events (new ∷ [])
        (All-mono (λ r. r.id < s.next_event_id) (λ r. r.id < suc s.next_event_id) s.events
          (λ r h. omega arith) q.below)
        (omega arith, tt))
      (λ a f k. (
        k.0,
        omega (arith, k.1),
        All-append (IsOpen a f) s.events (new ∷ []) k.2 ((λ same. absurd (late f k.1 same)), tt),
      ))
      q
  where
    late : (f : ScheduledEvent) → f.id < s.next_event_id → s.next_event_id ≢ f.id
    late f h e = omega arith
step-IsPending has_key (deletes id) s x q =
    api-IsPending s.next_event_id (soft_delete id s.events) s
      (soft_delete-IsUnique id s.events q.unique)
      (soft_delete-below id s.next_event_id s.events q.below)
      (λ a f k. (k.0, k.1, soft_delete-IsOpen id a f s.events k.2)) q
step-IsPending has_key (removes id) s x q =
    let left = λ (e : ScheduledEvent). not (e.id == id) in
    api-IsPending s.next_event_id (select left s.events) s (select-IsUnique left s.events q.unique)
      (All-select (λ r. r.id < s.next_event_id) left s.events q.below)
      (λ a f k. (k.0, k.1, All-select (IsOpen a f) left s.events k.2)) q

-- In whatever order the workers and the API take their steps: an event that a worker is about to
-- process is of the issuer that it holds, and is not finished in the table; if the tasks, the numbers of
-- the rows and the marks are sound at the start.
pub run-IsPending :
    (has_key : Address → Bool) (actions : List Action) (s : State) (w a : ℕ) (e : ScheduledEvent)
    (es : List ScheduledEvent)
    → IsExclusive s
    → IsPending s
    → (run has_key actions s).workers w ≡ working a (e ∷ es)
    → (e.issuer_address ≡ a)
      × All (λ r. r.id ≡ e.id → r.status ≡ processing) (run has_key actions s).events
unfolding run
run-IsPending has_key [] s w a e es x q at =
    let own : IsTasks s.next_event_id s.events (working a (e ∷ es)) =
      subst (IsTasks s.next_event_id s.events) at (q.tasks w) in
    (
      own.1.0.0,
      All-mono (IsOpen a e) (λ r. r.id ≡ e.id → r.status ≡ processing) s.events
          (λ r k same. (k same).0) own.1.0.2,
    )
run-IsPending has_key (b ∷ rest) s w a e es x q at =
    run-IsPending has_key rest (step has_key b s) w a e es (step-IsExclusive has_key b s x)
      (step-IsPending has_key b s x q) at
