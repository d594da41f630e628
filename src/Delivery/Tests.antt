-- ===== src/Delivery/Tests.antt =====
-- Runs of the DVP delivery indexer on small tables and chains.
use ibet_prime.Base.{
  All, ◌≢◌, ◌<◌, ℕ, ◌+◌, ◌*◌, ◌≤◌, ◌≡◌, refl, true, false, List, [], ◌∷◌, Option, none, some, arith,
  leb, ◌==◌, ◌&&◌, if◌then◌else◌, inl, inr, Bool-cases,
}
use ibet_prime.Chain.{Chain, Event, EventName, ArgName, Instant, maxsize}
use ibet_prime.Blocks.{sync_lots}
use ibet_prime.Logs.{Occurs}
use ibet_prime.Tokens.{Token, TokenType, TokenStatus, issued_tokens}
use ibet_prime.Delivery.Table.{
  Delivery, Table, Registry, EventType, Arguments, DvpAsyncProcessType, find, new_delivery,
  finish_columns, confirm_columns, new_process, is_involved, sink_on_delivery,
}
use ibet_prime.Delivery.Events.{
  Codec, Loaded, arguments, sync_delivery_created, sync_delivery_canceled, sync_delivery_confirmed,
  sync_delivery_finished, sync_delivery_aborted,
}
use ibet_prime.Delivery.Sync.{
  Database, Services, Processor, Ending, block_number, load_required, get_contract_list,
  sync_exchanges, sync_new_logs,
}
use ibet_prime.Delivery.Rows.{IsSameDelivery, IsLater}
use ibet_prime.Delivery.Keeps.{IsTable}
use ibet_prime.Delivery.Runs.{sync_new_logs-IsTable, sync_new_logs_still}
use ibet_prime.Delivery.Failures.{sync_exchanges_blocked, sync_exchanges_late}
use ibet_prime.Delivery.Contracts.{get_contract_list_lost}

-- Account 2 sells 4 of token 10 to account 3 on exchange 20, through agent 5: delivery 8 is made in
-- block 1, confirmed in block 2 and finished in block 3. In block 4 delivery 9 of a token 11, which no
-- table knows, is confirmed.
abbrev args : ℕ → ℕ → ArgName → Option ℕ
args token id key = elim key [
  | ArgName.delivery_id ↦ some id
  | ArgName.token ↦ some token
  | ArgName.seller ↦ some (if token == 10 then 2 else 6)
  | ArgName.buyer ↦ some (if token == 10 then 3 else 7)
  | ArgName.agent ↦ some 5
  | ArgName.amount ↦ some 4
  | ArgName.raw_data ↦ some 50
  | _ ↦ none
]

abbrev event : EventName → ℕ → ℕ → ℕ → Event
event name token id block = record {
  event = name;
  args = args token id;
  transaction_hash = 100 + block;
  block_number = block;
  log_index = 0;
}

abbrev foreign : Event
foreign = event EventName.delivery_confirmed 11 9 4

abbrev logs : EventName → List Event
logs EventName.delivery_created = event EventName.delivery_created 10 8 1 ∷ []
logs EventName.delivery_confirmed = event EventName.delivery_confirmed 10 8 2 ∷ foreign ∷ []
logs EventName.delivery_finished = event EventName.delivery_finished 10 8 3 ∷ []
logs _ = []

abbrev within : ℕ → ℕ → List Event → List Event
within m n [] = []
within m n (e ∷ es) =
    if leb m e.block_number && leb e.block_number n then e ∷ within m n es else within m n es

abbrev chain : ℕ → Chain
chain latest = record {
  latest_block = latest;
  get_event_logs =
      λ contract name filters m n. if contract == 20 then within m n (logs name) else [];
  has_code = λ account. false;
  tradable_exchange = λ token. 20;
  block_timestamp = λ block. 10 * block;
  input_hex = λ hash. [];
  sender = λ hash. 2;
  json_loads = λ digits. none;
  instant_of = λ text. Instant.value_error;
}

abbrev codec : Codec
codec = record {
  json_loads = λ text. Loaded.json_decode_error;
  is_encrypted = true;
  aes_256_cbc = 60;
  local = 61;
  decrypt = λ text. none;
}

abbrev services : ℕ → Services
services latest = record {
  chain = chain latest;
  codec = codec;
  tradable_exchange = λ token. some 20;
}

abbrev registry : Registry
registry = record {
  accounts =
      record { issuer_address = 1; is_deleted = some false }
      ∷ record { issuer_address = 3; is_deleted = some false }
      ∷ [];
  agents = [];
}

abbrev token : Token
token = record {
  id = 1;
  type = some TokenType.ibet_share;
  issuer_address = 1;
  token_address = 10;
  token_status = some TokenStatus.succeeded;
}

abbrev empty : Table
empty = record { rows = []; next_id = 1; processes = [] }

abbrev database : Database
database = record {
  tokens = token ∷ [];
  registry = registry;
  table = empty;
  block_numbers = [];
  notifications = [];
}

abbrev fresh : Processor
fresh = record { token_list = []; exchange_list = [] }

abbrev made : Arguments
made = record (arguments (chain 3) EventType.created 20 (event EventName.delivery_created 10 8 1)) {
  data_text = some 50;
}

abbrev confirmation : Arguments
confirmation =
    arguments (chain 3) EventType.confirm_event 20 (event EventName.delivery_confirmed 10 8 2)

abbrev finish : Arguments
finish = arguments (chain 3) EventType.finished 20 (event EventName.delivery_finished 10 8 3)

-- A run up to block 3: the buyer is an account, and is to withdraw.
run_to_finish :
    ((sync_new_logs 9 2 (services 3) fresh database).1.0.table ≡ record {
      rows =
          finish_columns finish (confirm_columns confirmation (new_delivery registry made 8 1))
          ∷ [];
      next_id = 2;
      processes = new_process DvpAsyncProcessType.finish_delivery 3 finish 8 ∷ [];
    })
    × ((sync_new_logs 9 2 (services 3) fresh database).1.1 ≡ Ending.completed)
unfolding sync_new_logs issued_tokens sync_lots sync_delivery_created maxsize sink_on_delivery
    sync_delivery_canceled sync_delivery_confirmed sync_delivery_finished sync_delivery_aborted
run_to_finish = (refl, refl)

abbrev created_row : Delivery
created_row = new_delivery registry made 8 1

abbrev created_table : Table
created_table = record { rows = created_row ∷ []; next_id = 2; processes = [] }

-- The tables after block 1.
abbrev created_database : Database
created_database = record database { table = created_table; block_numbers = (20, 1) ∷ [] }

empty-IsTable : IsTable empty
empty-IsTable = record { keyed = tt; numbered = tt; settled = tt; backed = tt }

sync_new_logs-IsTable_example : IsTable (sync_new_logs 9 2 (services 3) fresh database).1.0.table
sync_new_logs-IsTable_example = sync_new_logs-IsTable 9 2 (services 3) fresh database empty-IsTable

sync_new_logs_still_example :
    (s : Delivery) × (find 20 8
        (sync_new_logs 9 2 (services 3) fresh created_database).1.0.table.rows
      ≡ some s)
    × IsSameDelivery created_row s
    × IsLater created_row s
sync_new_logs_still_example =
    sync_new_logs_still 9 2 (services 3) fresh created_database 20 8 created_row refl

foreign-Occurs :
    (m n : ℕ)
    → m ≤ 4
    → 4 ≤ n
    → Occurs foreign ((chain 4).get_event_logs 20 EventName.delivery_confirmed [] m n)
foreign-Occurs m n above below =
    let in_range : (leb m 4 && leb 4 n) ≡ true = ground arith in
    elim (Bool-cases (leb m 2 && leb 2 n)) [
      | inl first_too ↦ rw (first_too, within) (rw in_range (inr (inl refl)))
      | inr only ↦ rw (only, within) (rw in_range (inl refl))
    ]

-- The confirmation of a delivery between strangers stops the indexer.
sync_exchanges_blocked_example :
    sync_exchanges 9 2 (services 4) (20 ∷ []) database ≡ (database, Ending.raised)
unfolding block_number maxsize
sync_exchanges_blocked_example =
    sync_exchanges_blocked 9 2 (services 4) 20 4 [] database foreign (omega arith) (omega arith)
      (omega arith) (omega arith) foreign-Occurs refl refl

-- Delivery 8 is canceled in block 5, and its creation, in block 1, was synced before its buyer had an
-- account.
abbrev cancellation : Event
cancellation = event EventName.delivery_canceled 10 8 5

abbrev late_logs : EventName → List Event
late_logs EventName.delivery_created = event EventName.delivery_created 10 8 1 ∷ []
late_logs EventName.delivery_canceled = cancellation ∷ []
late_logs _ = []

abbrev late_chain : Chain
late_chain = record (chain 5) {
  get_event_logs =
      λ contract name filters m n. if contract == 20 then within m n (late_logs name) else [];
}

abbrev late_services : Services
late_services = record (services 5) { chain = late_chain }

abbrev late_database : Database
late_database = record database { block_numbers = (20, 1) ∷ [] }

-- The run up to block 1 without the buyer's account passes over the creation.
abbrev unregistered : Registry
unregistered = record { accounts = []; agents = [] }

passed_over :
    (sync_exchanges 9 2
      (record (services 1) { chain = record late_chain { latest_block = 1 } })
      (20 ∷ [])
      (record database { registry = unregistered })).0.table
    ≡ empty
unfolding sync_exchanges maxsize sink_on_delivery sync_delivery_created sync_delivery_canceled
    sync_delivery_confirmed sync_delivery_finished sync_delivery_aborted is_involved sync_lots
passed_over = refl

late-others :
    (m n : ℕ)
    → 1 < m
    → All
        (λ (c : Event). c.args ArgName.delivery_id ≢ some 8)
        (late_chain.get_event_logs 20 EventName.delivery_created [] m n)
late-others m n later = elim (Bool-cases (leb m 1 && leb 1 n)) [
  | inl reads ↦ absurd (ground (arith, reads))
  | inr passed ↦ rw (passed, within) tt
]

late-Occurs :
    (m n : ℕ)
    → m ≤ 5
    → 5 ≤ n
    → Occurs cancellation (late_chain.get_event_logs 20 EventName.delivery_canceled [] m n)
late-Occurs m n above below =
    let in_range : (leb m 5 && leb 5 n) ≡ true = ground arith in rw (in_range, within) (inl refl)

sync_exchanges_late_example :
    sync_exchanges 9 2 late_services (20 ∷ []) late_database ≡ (late_database, Ending.raised)
unfolding block_number maxsize is_involved
sync_exchanges_late_example =
    sync_exchanges_late 9 2 late_services 20 5 8 [] late_database cancellation (omega arith)
      (omega arith) (omega arith) (omega arith) refl late-others late-Occurs refl refl refl

abbrev failing : Services
failing = record (services 3) { tradable_exchange = λ token. none }

abbrev listed_only : Processor
listed_only = record { token_list = 10 ∷ []; exchange_list = [] }

get_contract_list_lost_example :
    (get_contract_list failing database fresh ≡ (listed_only, false))
    × (get_contract_list (services 3) database listed_only ≡ (listed_only, true))
unfolding load_required issued_tokens
get_contract_list_lost_example =
    get_contract_list_lost failing (services 3) database fresh token TokenType.ibet_share refl refl
      refl refl
