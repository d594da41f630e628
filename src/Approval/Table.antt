-- ===== src/Approval/Table.antt =====
-- The table `idx_transfer_approval` (app/model/db/idx_transfer_approval.py), and
-- `__sink_on_transfer_approval` of batch/indexer_transfer_approval.py.
use ibet_prime.Base.{
  ℕ, suc, ◌==◌, ◌&&◌, Bool, true, List, [], ◌∷◌, ◌++◌, Option, none, some, first, if◌then◌else◌,
  ◌>>=◌,
}
use ibet_prime.Chain.{Address, Instant, Chain}

-- A row; `none` is a null.
pub record TransferApproval : Type 0 where
  pub id : ℕ
  pub token_address : Address
  pub exchange_address : Address
  pub application_id : ℕ
  pub from_address : Option Address
  pub to_address : Option Address
  pub amount : Option ℕ
  pub application_datetime : Option ℕ
  pub application_blocktimestamp : Option ℕ
  pub approval_datetime : Option ℕ
  pub approval_blocktimestamp : Option ℕ
  pub cancellation_blocktimestamp : Option ℕ
  pub cancelled : Option Bool
  pub escrow_finished : Option Bool
  pub transfer_approved : Option Bool

-- The table, and the next value of the sequence that numbers its rows.
pub record Table : Type 0 where
  pub rows : List TransferApproval
  pub next_id : ℕ

abbrev pub is_application : Address → Address → ℕ → TransferApproval → Bool
is_application token exchange application r =
    r.token_address == token && r.exchange_address == exchange && r.application_id == application

-- The row of an application, by the columns that the indexer looks it up by.
abbrev pub find : Address → Address → ℕ → List TransferApproval → Option TransferApproval
find token exchange application = first (is_application token exchange application)

-- Assignments to the columns of that row.
unfoldable pub assign :
    Address
    → Address
    → ℕ
    → (TransferApproval → TransferApproval)
    → List TransferApproval
    → List TransferApproval
assign token exchange application f [] = []
assign token exchange application f (r ∷ rs) =
    if is_application token exchange application r
    then f r ∷ rs
    else r ∷ assign token exchange application f rs

pub data EventType : Type 0 where
  apply_for cancel escrow_finish approve : EventType

-- The arguments of `__sink_on_transfer_approval`.
pub record Arguments : Type 0 where
  pub event_type : EventType
  pub token_address : Address
  pub exchange_address : Address
  pub application_id : ℕ
  pub from_address : Option Address
  pub to_address : Option Address
  pub amount : Option ℕ
  pub optional_data_applicant : Option ℕ
  pub optional_data_approver : Option ℕ
  pub block_timestamp : Option ℕ

-- `try: datetime.fromtimestamp(float(data)) except ValueError: None`; any other exception leaves.
abbrev pub datetime_of : Instant → Option (Option ℕ)
datetime_of (Instant.instant t) = some (some t)
datetime_of Instant.value_error = some none
datetime_of Instant.overflow_error = none

-- A new row: no column but the key and the parties is set yet.
abbrev pub new_row : ℕ → Arguments → TransferApproval
new_row id a = record {
  id = id;
  token_address = a.token_address;
  exchange_address = a.exchange_address;
  application_id = a.application_id;
  from_address = a.from_address;
  to_address = a.to_address;
  amount = none;
  application_datetime = none;
  application_blocktimestamp = none;
  approval_datetime = none;
  approval_blocktimestamp = none;
  cancellation_blocktimestamp = none;
  cancelled = none;
  escrow_finished = none;
  transfer_approved = none;
}

-- What the four events assign.
abbrev pub apply_columns : Option ℕ → Option ℕ → ℕ → TransferApproval → TransferApproval
apply_columns amount datetime timestamp r = record r {
  amount = amount;
  application_datetime = datetime;
  application_blocktimestamp = some timestamp;
}

abbrev pub cancel_columns : ℕ → TransferApproval → TransferApproval
cancel_columns timestamp r = record r {
  cancellation_blocktimestamp = some timestamp;
  cancelled = some true;
}

abbrev pub finish_columns : TransferApproval → TransferApproval
finish_columns r = record r { escrow_finished = some true }

abbrev pub approve_columns : Option ℕ → ℕ → TransferApproval → TransferApproval
approve_columns datetime timestamp r = record r {
  approval_datetime = datetime;
  approval_blocktimestamp = some timestamp;
  transfer_approved = some true;
}

-- An assignment to a row that has to be there: `merge(None)` raises.
abbrev pub assign_found : Arguments → (TransferApproval → TransferApproval) → Table → Option Table
assign_found a f t = elim (find a.token_address a.exchange_address a.application_id t.rows) [
  | none ↦ none
  | some _ ↦
      some (record t { rows = assign a.token_address a.exchange_address a.application_id f t.rows })
]

-- An application: its row is made if it is not there.
abbrev pub apply : Arguments → (TransferApproval → TransferApproval) → Table → Table
apply a f t = elim (find a.token_address a.exchange_address a.application_id t.rows) [
  | none ↦ record { rows = t.rows ++ f (new_row t.next_id a) ∷ []; next_id = suc t.next_id }
  | some _ ↦ record t { rows = assign a.token_address a.exchange_address a.application_id f t.rows }
]

-- The body, by the type of the event. `float(None)` and `fromtimestamp(None)` raise.
unfoldable pub sink : EventType → Chain → Arguments → Table → Option Table
unfolding assign
sink EventType.apply_for c a t = do
  optional_data ← a.optional_data_applicant
  datetime ← datetime_of (c.instant_of optional_data)
  timestamp ← a.block_timestamp
  some (apply a (apply_columns a.amount datetime timestamp) t)
sink EventType.cancel c a t =
    elim (find a.token_address a.exchange_address a.application_id t.rows) [
      | none ↦ none
      | some _ ↦ a.block_timestamp >>= λ timestamp. assign_found a (cancel_columns timestamp) t
    ]
sink EventType.escrow_finish c a t = assign_found a finish_columns t
sink EventType.approve c a t =
    elim (find a.token_address a.exchange_address a.application_id t.rows) [
      | none ↦ none
      | some _ ↦ do
        optional_data ← a.optional_data_approver
        datetime ← datetime_of (c.instant_of optional_data)
        timestamp ← a.block_timestamp
        assign_found a (approve_columns datetime timestamp) t
    ]

-- `__sink_on_transfer_approval`; `none` is an exception.
unfoldable pub sink_on_transfer_approval : Chain → Arguments → Table → Option Table
unfolding sink
sink_on_transfer_approval c a t = sink a.event_type c a t
