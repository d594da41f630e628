-- ===== src/Scheduled/Tasks.antt =====
-- The tasks of the workers, and what the end of one does to the others.
use ibet_prime.Base.{
  ℕ, ◌≡◌, refl, sym, ap, subst, ◌≢◌, ◌<◌, inl, inr, Bool, ◌==◌, List, ◌∷◌, Option, none, some,
  arith, first, All, All-mono, Option-cases, Bool-cases,
}
use ibet_prime.Chain.{Address}
use ibet_prime.Tokens.{TokenType, Account}
use ibet_prime.Scheduled.Table.{ScheduledEvent, succeeded, failed, set_event_status}
use ibet_prime.Scheduled.Workers.{
  Phase, idle, taken, working, leaving, Sent, State, move, fail, succeed, process_event,
}
use ibet_prime.Scheduled.Exclusion.{issuer_of, IsExclusive}
use ibet_prime.Scheduled.Rows.{
  IsUnique, IsOpen, IsTask, All-zip, set_event_status-IsUnique, set_event_status-below,
  set_event_status-IsOpen, set_event_status-other,
}

-- The tasks of a phase: distinct, and each of its issuer and not finished.
abbrev pub IsTasks : ℕ → List ScheduledEvent → Phase → Type 0
IsTasks next rows idle = Unit
IsTasks next rows (taken _ _) = Unit
IsTasks next rows (working a es) = IsUnique es × All (IsTask a next rows) es
IsTasks next rows (leaving _) = Unit

-- The numbers of the rows are distinct and below the next, and the tasks of each worker are sound.
pub record IsPending (s : State) : Type 0 where
  pub unique : IsUnique s.events
  pub below : All (λ r. r.id < s.next_event_id) s.events
  pub tasks : (w : ℕ) → IsTasks s.next_event_id s.events (s.workers w)

moved-IsTasks :
    (w : ℕ) (p : Phase) (s : State) (v : ℕ)
    → IsTasks s.next_event_id s.events p
    → IsTasks s.next_event_id s.events (s.workers v)
    → IsTasks s.next_event_id s.events ((move w p s).workers v)
moved-IsTasks w p s v h k = elim (Bool-cases (v == w)) [
  | inl here ↦ rw here h
  | inr there ↦ rw there k
]

pub move-IsPending :
    (w : ℕ) (p : Phase) (s : State)
    → IsTasks s.next_event_id s.events p
    → IsPending s
    → IsPending (move w p s)
move-IsPending w p s h x = record {
  unique = x.unique;
  below = x.below;
  tasks = λ v. moved-IsTasks w p s v h (x.tasks v);
}

-- A write to the table that no task notices.
pub rewritten-IsTasks :
    (next next' : ℕ) (rows rows' : List ScheduledEvent) (p : Phase)
    → ((a : Address) (e : ScheduledEvent) → IsTask a next rows e → IsTask a next' rows' e)
    → IsTasks next rows p
    → IsTasks next' rows' p
rewritten-IsTasks next next' rows rows' idle f h = tt
rewritten-IsTasks next next' rows rows' (taken t a) f h = tt
rewritten-IsTasks next next' rows rows' (working a es) f (u, h) =
    (u, All-mono (IsTask a next rows) (IsTask a next' rows') es (f a) h)
rewritten-IsTasks next next' rows rows' (leaving a) f h = tt

-- The event has got a status, and no row a number.
abbrev pub IsWritten : ScheduledEvent → State → State → Type 0
IsWritten e s s' =
    (status : ℕ) × (s'.events ≡ set_event_status e.id status s.events)
    × (s'.next_event_id ≡ s.next_event_id)

failed_writes :
    (e : ScheduledEvent) (code : ℕ) (s s' : State)
    → some (fail e code s) ≡ some s'
    → IsWritten e s s'
unfolding fail
failed_writes e code s s' h =
    let same : fail e code s ≡ s' = cc in subst (IsWritten e s) same (failed, refl, refl)

succeeded_writes :
    (e : ScheduledEvent) (s s' : State) → some (succeed e s) ≡ some s' → IsWritten e s s'
unfolding succeed
succeeded_writes e s s' h =
    let same : succeed e s ≡ s' = cc in subst (IsWritten e s) same (succeeded, refl, refl)

pub process_event_writes :
    (has_key : Address → Bool) (sent : Sent) (e : ScheduledEvent) (s s' : State)
    → process_event has_key sent e s ≡ some s'
    → IsWritten e s s'
unfolding process_event
process_event_writes has_key sent e s s' h =
    elim (Option-cases (first (λ (a : Account). a.issuer_address == e.issuer_address) s.accounts)) [
      | inl lost ↦ failed_writes e 0 s s' (rw (lost, process_event) at h)
      | inr (a, found) ↦
          let h1 = rw (found, process_event) at h in
          elim (Bool-cases (has_key e.issuer_address)) [
            | inr none_key ↦ failed_writes e 1 s s' (rw none_key at h1)
            | inl key ↦ by_type e.token_type sent (rw key at h1)
          ]
    ]
  where
    by_sent :
        (sent : Sent)
        → elim sent [
          | Sent.updated ↦ some (succeed e s)
          | Sent.reverted ↦ some (fail e 2 s)
          | Sent.unsent ↦ some (fail e 2 s)
          | Sent.raised ↦ none
        ]
          ≡ some s'
        → IsWritten e s s'
    by_sent Sent.updated k = succeeded_writes e s s' k
    by_sent Sent.reverted k = failed_writes e 2 s s' k
    by_sent Sent.unsent k = failed_writes e 2 s s' k
    by_sent Sent.raised k = cc

    by_type :
        (type : Option TokenType) (sent : Sent)
        → elim type [
          | none ↦ some (succeed e s)
          | some _ ↦ elim sent [
            | Sent.updated ↦ some (succeed e s)
            | Sent.reverted ↦ some (fail e 2 s)
            | Sent.unsent ↦ some (fail e 2 s)
            | Sent.raised ↦ none
          ]
        ]
          ≡ some s'
        → IsWritten e s s'
    by_type none sent k = succeeded_writes e s s' k
    by_type (some type) sent k = by_sent sent k

other-IsTasks :
    (a next status : ℕ) (e : ScheduledEvent) (rows : List ScheduledEvent) (p : Phase)
    → issuer_of p ≢ some a
    → All (IsOpen a e) rows
    → IsTasks next rows p
    → IsTasks next (set_event_status e.id status rows) p
other-IsTasks a next status e rows idle n o h = tt
other-IsTasks a next status e rows (taken t b) n o h = tt
other-IsTasks a next status e rows (leaving b) n o h = tt
other-IsTasks a next status e rows (working b es) n o (u, h) =
    let apart : a ≢ b = λ q. n (ap (λ y. some y) (sym q)) in
    (
      u,
      All-mono (IsTask b next rows) (IsTask b next (set_event_status e.id status rows)) es
          (λ f k. (k.0, k.1, set_event_status-other a b status e f rows apart o k.2)) h,
    )

own-IsTasks :
    (a next status : ℕ) (e : ScheduledEvent) (es rows : List ScheduledEvent)
    → IsTasks next rows (working a (e ∷ es))
    → IsTasks next (set_event_status e.id status rows) (working a es)
own-IsTasks a next status e es rows ((n, u), (h, hs)) = (
  u,
  All-mono (λ f. (f.id ≢ e.id) × IsTask a next rows f)
      (IsTask a next (set_event_status e.id status rows)) es
      (λ f k. (k.1.0, k.1.1, set_event_status-IsOpen e.id status a f rows k.0 k.1.2))
      (All-zip (λ f. f.id ≢ e.id) (IsTask a next rows) es n hs),
)

-- The table after a worker has finished the first of its tasks.
pub finished-IsPending :
    (w a status : ℕ) (e : ScheduledEvent) (es : List ScheduledEvent) (s s' : State)
    → s.workers w ≡ working a (e ∷ es)
    → s'.workers ≡ s.workers
    → s'.events ≡ set_event_status e.id status s.events
    → s'.next_event_id ≡ s.next_event_id
    → IsExclusive s
    → IsPending s
    → IsPending (move w (working a es) s')
finished-IsPending w a status e es s s' at same written next x q =
    let rows = set_event_status e.id status s.events in
    let own : IsTasks s.next_event_id s.events (working a (e ∷ es)) =
      subst (IsTasks s.next_event_id s.events) at (q.tasks w) in
    let held : issuer_of (s.workers w) ≡ some a = ap issuer_of at in
    let on = λ (v : ℕ). by_worker v own held in
    record {
      unique =
          subst IsUnique (sym written) (set_event_status-IsUnique e.id status s.events q.unique);
      below =
          subst (λ n. All (λ r. r.id < n) s'.events) (sym next)
            (subst (All (λ r. r.id < s.next_event_id)) (sym written)
              (set_event_status-below e.id status s.next_event_id s.events q.below));
      tasks = λ v.
          subst (λ n. IsTasks n s'.events ((move w (working a es) s').workers v)) (sym next)
            (subst (λ r. IsTasks s.next_event_id r ((move w (working a es) s').workers v))
              (sym written) (on v));
    }
  where
    by_worker :
        (v : ℕ)
        → IsTasks s.next_event_id s.events (working a (e ∷ es))
        → issuer_of (s.workers w) ≡ some a
        → IsTasks s.next_event_id
            (set_event_status e.id status s.events)
            ((move w (working a es) s').workers v)
    by_worker v own held = elim (Bool-cases (v == w)) [
      | inl here ↦ rw here (own-IsTasks a s.next_event_id status e es s.events own)
      | inr there ↦
          let n : v ≢ w = ground arith in
          let there_of : s'.workers v ≡ s.workers v = ap (λ (g : ℕ → Phase). g v) same in
          let kept : IsTasks s.next_event_id (set_event_status e.id status s.events) (s.workers v) =
            other-IsTasks a s.next_event_id status e s.events (s.workers v)
              (λ k. x.apart v w a n k held) own.1.0.2 (q.tasks v) in
          rw there (
            subst (IsTasks s.next_event_id (set_event_status e.id status s.events)) (sym there_of)
              kept)
    ]
