-- ===== src/Scheduled/Table.antt =====
-- The table `scheduled_events` (app/model/db/scheduled_events.py), and the two queries for what is due.
use ibet_prime.Base.{
  ℕ, leb, ltb, ◌==◌, ◌&&◌, ◌||◌, not, Bool, List, [], ◌∷◌, Option, none, some, select,
  if◌then◌else◌,
}
use ibet_prime.Base.Sort.{sort_by}
use ibet_prime.Chain.{Address}
use ibet_prime.Tokens.{TokenType, contains}

-- The column `status`.
abbrev pub processing : ℕ
processing = 0

abbrev pub succeeded : ℕ
succeeded = 1

abbrev pub failed : ℕ
failed = 2

-- `event_type` has one value, UPDATE, and is left out. `contents` is the column `data`.
pub record ScheduledEvent : Type 0 where
  pub id : ℕ
  pub event_id : ℕ
  pub issuer_address : Address
  pub token_address : Address
  pub token_type : Option TokenType
  pub scheduled_datetime : ℕ
  pub status : ℕ
  pub contents : ℕ
  pub is_soft_deleted : Bool

-- `order_by(scheduled_datetime, id)`
abbrev pub due_before : ScheduledEvent → ScheduledEvent → Bool
due_before e f =
    ltb e.scheduled_datetime f.scheduled_datetime
    || (e.scheduled_datetime == f.scheduled_datetime && leb e.id f.id)

abbrev pub is_due : ℕ → ScheduledEvent → Bool
is_due filter_time e =
    e.status == processing && leb e.scheduled_datetime filter_time && not e.is_soft_deleted

-- `.first()`
abbrev pub head : List ScheduledEvent → Option ScheduledEvent
head [] = none
head (e ∷ es) = some e

-- The event of which the issuer is taken: the first that is due of an issuer that is not processed.
unfoldable pub next_event : ℕ → List Address → List ScheduledEvent → Option ScheduledEvent
next_event filter_time processing_issuers events = head (
    sort_by due_before (
      select
        (λ (e : ScheduledEvent).
          is_due filter_time e && not (contains e.issuer_address processing_issuers))
        events))

-- `events_list`: the events of the issuer that are due.
unfoldable pub events_of : ℕ → Address → List ScheduledEvent → List ScheduledEvent
events_of filter_time issuer events =
    sort_by due_before
      (select (λ (e : ScheduledEvent). is_due filter_time e && e.issuer_address == issuer) events)

-- `update(ScheduledEvents).where(id == record_id).values(status=status)`
unfoldable pub set_event_status : ℕ → ℕ → List ScheduledEvent → List ScheduledEvent
set_event_status record_id status [] = []
set_event_status record_id status (e ∷ es) =
    (if e.id == record_id then record e { status = status } else e)
    ∷ set_event_status record_id status es
