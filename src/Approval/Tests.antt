-- ===== src/Approval/Tests.antt =====
-- Runs of the transfer approval indexer on small tables and chains.
use ibet_prime.Base.{
  ℕ, ltb, All, ◌≤◌, true, inl, inr, Bool-cases, ◌+◌, ◌*◌, ◌<◌, ◌≡◌, ◌⊎◌, refl, false, List, [], ◌∷◌,
  Option, none, some, arith, leb, ◌==◌, ◌&&◌, if◌then◌else◌,
}
use ibet_prime.Blocks.{Loop, sync_lots}
use ibet_prime.Chain.{Chain, Event, EventName, ArgName, Instant, maxsize}
use ibet_prime.Tokens.{Token, TokenType, TokenStatus, issued_tokens}
use ibet_prime.Approval.Table.{
  TransferApproval, Table, EventType, Arguments, find, sink_on_transfer_approval, new_row,
  apply_columns, cancel_columns,
}
use ibet_prime.Approval.Events.{
  Notice, State, Scope, sync_all, sync_token_apply_for_transfer, sync_token_cancel_transfer,
  sync_token_approve_transfer, sync_exchange_apply_for_transfer, sync_exchange_cancel_transfer,
  sync_exchange_escrow_finished, sync_exchange_approve_transfer,
}
use ibet_prime.Approval.Notify.{insert_notification_events}
use ibet_prime.Approval.Sync.{
  Database, block_number, sync_blocks, sync_new_logs, load_tokens, contract_list, commit,
}
use ibet_prime.Approval.Rows.{
  IsSameApplication, IsLater, IsTable, sink_on_transfer_approval_keeps,
  sink_on_transfer_approval-IsTable,
}
use ibet_prime.Approval.Notices.{about}
use ibet_prime.Approval.Progress.{sync_new_logs-ends}
use ibet_prime.Approval.Oversized.{IsOversized, sync_new_logs_oversized}
use ibet_prime.Logs.{Occurs}

-- Account 2 applies in block 1 for the transfer of 4 of token 10 to account 3, and cancels in block 2.
-- Text 1 reads as the time 5, text 2 as infinity.
abbrev args : ℕ → ℕ → ArgName → Option ℕ
args text amount key = elim key [
  | ArgName.index ↦ some 8
  | ArgName.from ↦ some 2
  | ArgName.to ↦ some 3
  | ArgName.value ↦ some amount
  | ArgName.optional_data ↦ some text
  | _ ↦ none
]

abbrev event : EventName → ℕ → ℕ → ℕ → Event
event name text amount block = record {
  event = name;
  args = args text amount;
  transaction_hash = 100 + block;
  block_number = block;
  log_index = 0;
}

abbrev applied : Event
applied = event EventName.apply_for_transfer 1 4 1

abbrev cancelled : Event
cancelled = event EventName.cancel_transfer 1 4 2

abbrev logs : EventName → List Event
logs EventName.apply_for_transfer = applied ∷ []
logs EventName.cancel_transfer = cancelled ∷ []
logs _ = []

abbrev within : ℕ → ℕ → List Event → List Event
within m n [] = []
within m n (e ∷ es) =
    if leb m e.block_number && leb e.block_number n then e ∷ within m n es else within m n es

abbrev chain : Chain
chain = record {
  latest_block = 3;
  get_event_logs =
      λ contract name filters m n. if contract == 10 then within m n (logs name) else [];
  has_code = λ account. false;
  tradable_exchange = λ token. 20;
  block_timestamp = λ block. 10 * block;
  input_hex = λ hash. [];
  sender = λ hash. 2;
  json_loads = λ digits. none;
  instant_of = λ text. if text == 1 then Instant.instant 5 else Instant.overflow_error;
}

abbrev arguments : EventType → ℕ → Arguments
arguments event_type block = record {
  event_type = event_type;
  token_address = 10;
  exchange_address = 0;
  application_id = 8;
  from_address = some 2;
  to_address = some 3;
  amount = some 4;
  optional_data_applicant = some 1;
  optional_data_approver = none;
  block_timestamp = some (10 * block);
}

abbrev row : TransferApproval
row = apply_columns (some 4) (some 5) 10 (new_row 1 (arguments EventType.apply_for 1))

abbrev empty : Table
empty = record { rows = []; next_id = 1 }

abbrev table : Table
table = record { rows = row ∷ []; next_id = 2 }

abbrev cancelled_table : Table
cancelled_table = record { rows = cancel_columns 20 row ∷ []; next_id = 2 }

applies : sink_on_transfer_approval chain (arguments EventType.apply_for 1) empty ≡ some table
unfolding sink_on_transfer_approval
applies = refl

cancels :
    sink_on_transfer_approval chain (arguments EventType.cancel 2) table ≡ some cancelled_table
unfolding sink_on_transfer_approval
cancels = refl

sink_on_transfer_approval_keeps_example :
    (s : TransferApproval) × (find 10 0 8 cancelled_table.rows ≡ some s)
    × IsSameApplication row s
    × IsLater row s
sink_on_transfer_approval_keeps_example =
    sink_on_transfer_approval_keeps chain (arguments EventType.cancel 2) table cancelled_table 10 0
      8 row cancels refl

empty-IsTable : IsTable empty
empty-IsTable = record { keyed = tt; numbered = tt }

sink_on_transfer_approval-IsTable_example : IsTable table
sink_on_transfer_approval-IsTable_example =
    sink_on_transfer_approval-IsTable chain (arguments EventType.apply_for 1) empty table
      empty-IsTable applies

abbrev start : State
start = record { table = empty; notification_events = [] }

small : ¬ (maxsize < 4)
unfolding maxsize
small = omega arith

abbrev token : Token
token = record {
  id = 1;
  type = some TokenType.ibet_share;
  issuer_address = 1;
  token_address = 10;
  token_status = some TokenStatus.succeeded;
}

abbrev notice : Notice
notice = record {
  transaction_hash = 101;
  token_address = 10;
  exchange_address = 0;
  application_id = 8;
  notice_code = 0;
}

abbrev scope : Scope
scope = record { token_list = 10 ∷ []; exchange_list = 20 ∷ [] }

abbrev database : Database
database = record {
  tokens = token ∷ [];
  accounts = record { issuer_address = 1; is_deleted = some false } ∷ [];
  table = empty;
  latest_block_number = none;
  notifications = [];
}

syncs : sync_new_logs 4 2 chain [] database ≡ (
  record { address = 10; token_type = some TokenType.ibet_share } ∷ [],
  Loop.ended (record database {
    table = cancelled_table;
    latest_block_number = some 3;
    notifications =
        about token row notice
        ∷ about token row (record notice { transaction_hash = 102; notice_code = 1 })
        ∷ [];
  }),
)
unfolding sync_new_logs load_tokens contract_list sync_blocks sync_lots commit
    insert_notification_events block_number sync_all sync_token_apply_for_transfer
    sync_token_cancel_transfer sync_token_approve_transfer sync_exchange_apply_for_transfer
    sync_exchange_cancel_transfer sync_exchange_escrow_finished sync_exchange_approve_transfer
    sink_on_transfer_approval issued_tokens maxsize
syncs = refl

sync_new_logs-ends_example :
    ((sync_new_logs 4 2 chain [] database).1 ≡ Loop.raised)
    ⊎ ((db' : Database) × ((sync_new_logs 4 2 chain [] database).1 ≡ Loop.ended db')
        × (block_number db' ≡ 3))
unfolding block_number
sync_new_logs-ends_example = sync_new_logs-ends 4 2 chain [] database (omega arith) (omega arith)

-- The application of block 1 is for more than any 64-bit integer, and is cancelled in block 2.
abbrev oversized : Event
oversized = event EventName.apply_for_transfer 1 9_223_372_036_854_775_808 1

abbrev oversized_logs : EventName → List Event
oversized_logs EventName.apply_for_transfer = oversized ∷ []
oversized_logs EventName.cancel_transfer = cancelled ∷ []
oversized_logs _ = []

abbrev oversized_chain : Chain
oversized_chain = record chain {
  get_event_logs =
      λ contract name filters m n. if contract == 10 then within m n (oversized_logs name) else [];
}

large : ltb maxsize 9_223_372_036_854_775_808 ≡ true
unfolding maxsize
large = refl

applications-IsOversized :
    (m n : ℕ)
    → 0 < m
    → All (IsOversized 8) (oversized_chain.get_event_logs 10 EventName.apply_for_transfer [] m n)
applications-IsOversized m n after = elim (Bool-cases (leb m 1 && leb 1 n)) [
  | inl reads ↦ rw (reads, within) ((λ _. large), tt)
  | inr passed ↦ rw (passed, within) tt
]

cancelled-Occurs :
    (m n : ℕ)
    → m ≤ 2
    → 2 ≤ n
    → Occurs cancelled (oversized_chain.get_event_logs 10 EventName.cancel_transfer [] m n)
cancelled-Occurs m n above below =
    let in_range : (leb m 2 && leb 2 n) ≡ true = ground arith in rw (in_range, within) (inl refl)

sync_new_logs_oversized_example : (sync_new_logs 4 2 oversized_chain [] database).1 ≡ Loop.raised
unfolding block_number load_tokens contract_list issued_tokens
sync_new_logs_oversized_example =
    sync_new_logs_oversized 4 2 oversized_chain [] database 10 8 2 cancelled (omega arith)
      (omega arith) (omega arith) (omega arith) refl refl applications-IsOversized cancelled-Occurs
      refl
