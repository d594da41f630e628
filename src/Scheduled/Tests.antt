-- ===== src/Scheduled/Tests.antt =====
-- Runs of the workers of scheduled events.
use ibet_prime.Base.{
  ℕ, ◌+◌, ◌*◌, if◌then◌else◌, subst, ◌≡◌, refl, Bool, true, false, List, [], ◌∷◌, some, arith, All,
  ◌==◌,
}
use ibet_prime.Chain.{Address}
use ibet_prime.Tokens.{TokenType}
use ibet_prime.Scheduled.Table.{ScheduledEvent, processing, next_event, events_of, set_event_status}
use ibet_prime.Scheduled.Workers.{
  idle, taken, working, Sent, State, take, load, succeed, process_event, release, Action, goes_on,
  schedules, removes, go_on, step, run,
}
use ibet_prime.Scheduled.Exclusion.{IsExclusive, run-IsExclusive}
use ibet_prime.Scheduled.Tasks.{IsPending}
use ibet_prime.Scheduled.Pending.{run-IsPending}
use ibet_prime.Scheduled.Failures.{IsLeaked, run-IsLeaked}

abbrev event : ℕ → ℕ → ScheduledEvent
event id issuer = record {
  id = id;
  event_id = 100 + id;
  issuer_address = issuer;
  token_address = 10 * issuer;
  token_type = some TokenType.ibet_share;
  scheduled_datetime = id;
  status = processing;
  contents = 0;
  is_soft_deleted = false;
}

-- Two events of issuer 1 and one of issuer 2; no worker has begun.
abbrev start : State
start = record {
  events = event 1 1 ∷ event 2 2 ∷ event 3 1 ∷ [];
  next_event_id = 4;
  accounts =
      record { issuer_address = 1; is_deleted = some false }
      ∷ record { issuer_address = 2; is_deleted = some false }
      ∷ [];
  notices = [];
  operation_logs = [];
  processing_issuers = [];
  workers = λ w. idle;
}

abbrev any_key : Address → Bool
any_key a = true

-- A step of a worker at time 9, whose transaction, if it sends one, is accepted.
abbrev on : ℕ → Action
on w = goes_on w 9 Sent.updated

start-IsExclusive : IsExclusive start
start-IsExclusive = record { marked = λ w a h. cc; apart = λ v w a n h k. cc }

start-IsPending : IsPending start
start-IsPending = record {
  unique = (((λ e. cc), ((λ e. cc), tt)), (((λ e. cc), tt), (tt, tt)));
  below = (omega arith, (omega arith, (omega arith, tt)));
  tasks = λ w. tt;
}

-- Workers 0 and 1 take their steps in turn.
abbrev turns : List Action
turns = on 0 ∷ on 1 ∷ on 1 ∷ on 0 ∷ on 1 ∷ on 0 ∷ []

run-IsExclusive_example : IsExclusive (run any_key turns start)
run-IsExclusive_example = run-IsExclusive any_key turns start start-IsExclusive

next_of_worker : (run any_key turns start).workers 0 ≡ working 1 (event 3 1 ∷ [])
unfolding run step go_on take load process_event succeed next_event events_of set_event_status
    release
next_of_worker = refl

run-IsPending_example :
    ((event 3 1).issuer_address ≡ 1)
    × All (λ r. r.id ≡ 3 → r.status ≡ processing) (run any_key turns start).events
run-IsPending_example =
    run-IsPending any_key turns start 0 1 (event 3 1) [] start-IsExclusive start-IsPending
      next_of_worker

-- The events of issuer 1 are deleted after worker 0 has taken the issuer.
abbrev deleted : State
deleted = record start {
  events = event 2 2 ∷ [];
  processing_issuers = 1 ∷ [];
  workers = λ w. if w == 0 then taken 9 1 else idle;
}

deleted_by : run any_key (on 0 ∷ removes 1 ∷ removes 3 ∷ []) start ≡ deleted
unfolding run step go_on take next_event
deleted_by = refl

deleted-IsExclusive : IsExclusive deleted
deleted-IsExclusive =
    subst IsExclusive deleted_by
      (run-IsExclusive any_key (on 0 ∷ removes 1 ∷ removes 3 ∷ []) start start-IsExclusive)

gone : events_of 9 1 deleted.events ≡ []
unfolding events_of
gone = refl

run-IsLeaked_example : IsLeaked 1 (run any_key (on 0 ∷ schedules (event 4 1) ∷ on 1 ∷ []) deleted)
run-IsLeaked_example =
    run-IsLeaked any_key 0 9 1 9 Sent.updated (schedules (event 4 1) ∷ on 1 ∷ []) deleted
      deleted-IsExclusive refl gone
