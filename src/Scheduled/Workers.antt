-- ===== src/Scheduled/Workers.antt =====
-- The workers of batch/processor_scheduled_events.py: what `Processor.process` does between one wait
-- and the next, as one step, and the steps of all workers and of the API in any order.
use ibet_prime.Base.{
  ℕ, suc, ◌==◌, not, Bool, true, List, [], ◌∷◌, ◌++◌, Option, none, some, first, select,
  if◌then◌else◌,
}
use ibet_prime.Chain.{Address}
use ibet_prime.Tokens.{TokenType, Account}
use ibet_prime.Scheduled.Table.{
  ScheduledEvent, processing, succeeded, failed, next_event, events_of, set_event_status,
}

-- Where a worker is: asleep or between two issuers, with the issuer that it has taken at a filter time,
-- with the events of the issuer that it has yet to process, or with the issuer that it has to release.
pub data Phase : Type 0 where
  idle : Phase
  taken : ℕ → Address → Phase
  working : Address → List ScheduledEvent → Phase
  leaving : Address → Phase

-- How sending the update of a token ends. `raised` is another exception than `ContractRevertError` and
-- `SendTransactionError`.
pub data Sent : Type 0 where
  updated reverted unsent raised : Sent

-- A row of `notification` of the type SCHEDULE_EVENT_ERROR, less its random `notice_id`.
pub record ErrorNotice : Type 0 where
  pub issuer_address : Address
  pub code : ℕ
  pub scheduled_event_id : ℕ
  pub token_type : Option TokenType
  pub token_address : Address

-- A row of `token_update_operation_log`.
pub record OperationLog : Type 0 where
  pub token_address : Address
  pub issuer_address : Address
  pub type : TokenType
  pub arguments : ℕ

-- The tables, the next `id` of `scheduled_events`, `processing_issuers`, and the workers.
pub record State : Type 0 where
  pub events : List ScheduledEvent
  pub next_event_id : ℕ
  pub accounts : List Account
  pub notices : List ErrorNotice
  pub operation_logs : List OperationLog
  pub processing_issuers : List Address
  pub workers : ℕ → Phase

abbrev pub move : ℕ → Phase → State → State
move w p s = record s { workers = λ i. if i == w then p else s.workers i }

-- `__sink_on_finish_event_process` and `__sink_on_error_notification`
unfoldable pub fail : ScheduledEvent → ℕ → State → State
fail e code s = record s {
  events = set_event_status e.id failed s.events;
  notices =
      s.notices
      ++ record {
        issuer_address = e.issuer_address;
        code = code;
        scheduled_event_id = e.event_id;
        token_type = e.token_type;
        token_address = e.token_address;
      }
        ∷ [];
}

-- `__sink_on_token_update_operation_log`, for a token of a known type, and
-- `__sink_on_finish_event_process`.
unfoldable pub succeed : ScheduledEvent → State → State
succeed e s = record s {
  events = set_event_status e.id succeeded s.events;
  operation_logs = elim e.token_type [
    | none ↦ s.operation_logs
    | some type ↦
        s.operation_logs
        ++ record {
          token_address = e.token_address;
          issuer_address = e.issuer_address;
          type = type;
          arguments = e.contents;
        }
          ∷ []
  ];
}

-- The section under the lock of `__get_events_of_one_issuer`.
unfoldable pub take : ℕ → ℕ → State → State
take w filter_time s = elim (next_event filter_time s.processing_issuers s.events) [
  | none ↦ s
  | some e ↦
      move w (taken filter_time e.issuer_address)
        (record s { processing_issuers = e.issuer_address ∷ s.processing_issuers })
]

-- The second query. With no event `process` returns, and does not release the issuer.
unfoldable pub load : ℕ → ℕ → Address → State → State
load w filter_time issuer s = elim (events_of filter_time issuer s.events) [
  | [] ↦ move w idle s
  | e ∷ es ↦ move w (working issuer (e ∷ es)) s
]

-- The body of the loop of `__process`. `has_key` is whether the issuer's key can be decrypted. A token
-- of another type is not updated, so nothing is sent.
unfoldable pub process_event : (Address → Bool) → Sent → ScheduledEvent → State → Option State
unfolding fail succeed
process_event has_key sent e s =
    elim (first (λ (a : Account). a.issuer_address == e.issuer_address) s.accounts) [
      | none ↦ some (fail e 0 s)
      | some _ ↦ if not (has_key e.issuer_address) then some (fail e 1 s) else elim e.token_type [
        | none ↦ some (succeed e s)
        | some _ ↦ elim sent [
          | updated ↦ some (succeed e s)
          | reverted ↦ some (fail e 2 s)
          | unsent ↦ some (fail e 2 s)
          | raised ↦ none
        ]
      ]
    ]

-- `__release_processing_issuer`
unfoldable pub release : ℕ → Address → State → State
release w issuer s = move w idle (record s {
  processing_issuers = select (λ (a : Address). not (a == issuer)) s.processing_issuers;
})

-- What happens next: a worker goes on, with the time if it looks for an issuer and with the fate of its
-- transaction if it sends one; a worker finds `is_shutdown` set; the API schedules an event, or deletes
-- one, or its row.
pub data Action : Type 0 where
  goes_on : ℕ → ℕ → Sent → Action
  shuts_down : ℕ → Action
  schedules : ScheduledEvent → Action
  deletes : ℕ → Action
  removes : ℕ → Action

unfoldable pub go_on : (Address → Bool) → ℕ → ℕ → Sent → Phase → State → State
unfolding take load process_event release
go_on has_key w now sent idle s = take w now s
go_on has_key w now sent (taken filter_time issuer) s = load w filter_time issuer s
go_on has_key w now sent (working issuer []) s = move w (leaving issuer) s
go_on has_key w now sent (working issuer (e ∷ es)) s = elim (process_event has_key sent e s) [
  | none ↦ move w (leaving issuer) s
  | some s' ↦ move w (working issuer es) s'
]
go_on has_key w now sent (leaving issuer) s = release w issuer s

-- `is_shutdown` is looked at before each event.
abbrev pub shut_down : ℕ → Phase → State → State
shut_down w (working issuer es) s = move w (leaving issuer) s
shut_down w _ s = s

-- `is_soft_deleted = True`
unfoldable pub soft_delete : ℕ → List ScheduledEvent → List ScheduledEvent
soft_delete id [] = []
soft_delete id (e ∷ es) =
    (if e.id == id then record e { is_soft_deleted = true } else e) ∷ soft_delete id es

unfoldable pub step : (Address → Bool) → Action → State → State
unfolding go_on soft_delete
step has_key (goes_on w now sent) s = go_on has_key w now sent (s.workers w) s
step has_key (shuts_down w) s = shut_down w (s.workers w) s
step has_key (schedules e) s = record s {
  events = s.events ++ record e { id = s.next_event_id; status = processing } ∷ [];
  next_event_id = suc s.next_event_id;
}
step has_key (deletes id) s = record s { events = soft_delete id s.events }
step has_key (removes id) s = record s {
  events = select (λ (e : ScheduledEvent). not (e.id == id)) s.events;
}

unfoldable pub run : (Address → Bool) → List Action → State → State
unfolding step
run has_key [] s = s
run has_key (a ∷ rest) s = run has_key rest (step has_key a s)
