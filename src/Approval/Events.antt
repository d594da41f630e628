-- ===== src/Approval/Events.antt =====
-- The seven `__sync_…` methods of batch/indexer_transfer_approval.py and `__sync_all`.
use ibet_prime.Base.{ℕ, ltb, List, [], ◌∷◌, ◌++◌, Option, none, some, get_or, if◌then◌else◌, ◌>>=◌}
use ibet_prime.Chain.{Address, zero_address, maxsize, EventName, ArgName, Event, address_arg, Chain}
use ibet_prime.Logs.{for_each}
use ibet_prime.Approval.Table.{EventType, Arguments, Table, sink_on_transfer_approval}

-- An entry of `notification_events`.
pub record Notice : Type 0 where
  pub transaction_hash : ℕ
  pub token_address : Address
  pub exchange_address : Address
  pub application_id : ℕ
  pub notice_code : ℕ

pub record State : Type 0 where
  pub table : Table
  pub notification_events : List Notice

-- The two contracts that an event is about.
pub record Source : Type 0 where
  pub token : Address
  pub exchange : Address

abbrev pub of_token : Address → Event → Source
of_token token e = record { token = token; exchange = zero_address }

-- `args.get("token", ZERO_ADDRESS)` and the exchange that was asked.
abbrev pub of_exchange : Address → Event → Source
of_exchange exchange e = record { token = address_arg e ArgName.token; exchange = exchange }

-- The two statements of each loop body: the sink, and the notice that is appended after it.
unfoldable pub sink_and_note : Chain → ℕ → Event → Arguments → State → Option State
sink_and_note c code e a s = do
  table ← sink_on_transfer_approval c a s.table
  some (record {
    table = table;
    notification_events =
        s.notification_events
        ++ record {
          transaction_hash = e.transaction_hash;
          token_address = a.token_address;
          exchange_address = a.exchange_address;
          application_id = a.application_id;
          notice_code = code;
        }
          ∷ [];
  })

-- The keyword arguments that the events share. An event without an id fits no row and no new one.
abbrev pub arguments : Chain → EventType → Source → ℕ → Event → Arguments
arguments c event_type source id e = record {
  event_type = event_type;
  token_address = source.token;
  exchange_address = source.exchange;
  application_id = id;
  from_address = some (address_arg e ArgName.from);
  to_address = some (address_arg e ArgName.to);
  amount = none;
  optional_data_applicant = none;
  optional_data_approver = none;
  block_timestamp = some (c.block_timestamp e.block_number);
}

-- The loop bodies, for the events of tokens and of exchanges alike.
unfoldable pub sync_apply : Chain → ArgName → (Event → Source) → Event → State → Option State
unfolding sink_and_note
sync_apply c key source e s =
    let sunk = e.args key >>= λ id.
    sink_and_note c 0 e
      (record (arguments c EventType.apply_for (source e) id e) {
        amount = e.args ArgName.value;
        optional_data_applicant = e.args ArgName.optional_data;
      })
      s in
    if ltb maxsize (get_or (e.args ArgName.value) 0) then some s else sunk

unfoldable pub sync_cancel : Chain → ArgName → (Event → Source) → Event → State → Option State
unfolding sink_and_note
sync_cancel c key source e s = do
  id ← e.args key
  sink_and_note c 1 e (arguments c EventType.cancel (source e) id e) s

unfoldable pub sync_approve : Chain → ArgName → (Event → Source) → Event → State → Option State
unfolding sink_and_note
sync_approve c key source e s = do
  id ← e.args key
  sink_and_note c 2 e
      (record (arguments c EventType.approve (source e) id e) {
        optional_data_approver = e.args ArgName.optional_data;
      })
      s

-- An approval by an exchange names no parties.
unfoldable pub sync_approve_escrow :
    Chain → ArgName → (Event → Source) → Event → State → Option State
unfolding sink_and_note
sync_approve_escrow c key source e s = do
  id ← e.args key
  sink_and_note c 2 e
      (record (arguments c EventType.approve (source e) id e) {
        from_address = none;
        to_address = none;
        optional_data_approver = e.args ArgName.optional_data;
      })
      s

unfoldable pub sync_finish : Chain → ArgName → (Event → Source) → Event → State → Option State
unfolding sink_and_note
sync_finish c key source e s = do
  id ← e.args key
  sink_and_note c 3 e
      (record (arguments c EventType.escrow_finish (source e) id e) {
        from_address = some (address_arg e ArgName.sender);
        to_address = some (address_arg e ArgName.recipient);
        block_timestamp = none;
      })
      s

-- `for contract in …: events = get_event_logs(…); for event in events: …`
unfoldable pub for_contracts :
    (Address → List Event)
    → (Address → Event → State → Option State)
    → List Address
    → State
    → Option State
unfolding for_each
for_contracts logs body [] s = some s
for_contracts logs body (k ∷ ks) s = do
  s' ← for_each (body k) (logs k) s
  for_contracts logs body ks s'

abbrev logs_of : Chain → EventName → ℕ → ℕ → Address → List Event
logs_of c name block_from block_to k = c.get_event_logs k name [] block_from block_to

-- What a sync reads: the chain and the contracts loaded.
pub record Scope : Type 0 where
  pub token_list : List Address
  pub exchange_list : List Address

unfoldable pub sync_token_apply_for_transfer : Chain → Scope → ℕ → ℕ → State → Option State
unfolding for_contracts sync_apply
sync_token_apply_for_transfer c k m n =
    for_contracts (logs_of c EventName.apply_for_transfer m n)
      (λ token. sync_apply c ArgName.index (of_token token)) k.token_list

unfoldable pub sync_token_cancel_transfer : Chain → Scope → ℕ → ℕ → State → Option State
unfolding for_contracts sync_cancel
sync_token_cancel_transfer c k m n =
    for_contracts (logs_of c EventName.cancel_transfer m n)
      (λ token. sync_cancel c ArgName.index (of_token token)) k.token_list

unfoldable pub sync_token_approve_transfer : Chain → Scope → ℕ → ℕ → State → Option State
unfolding for_contracts sync_approve
sync_token_approve_transfer c k m n =
    for_contracts (logs_of c EventName.approve_transfer m n)
      (λ token. sync_approve c ArgName.index (of_token token)) k.token_list

unfoldable pub sync_exchange_apply_for_transfer : Chain → Scope → ℕ → ℕ → State → Option State
unfolding for_contracts sync_apply
sync_exchange_apply_for_transfer c k m n =
    for_contracts (logs_of c EventName.apply_for_transfer m n)
      (λ exchange. sync_apply c ArgName.escrow_id (of_exchange exchange)) k.exchange_list

unfoldable pub sync_exchange_cancel_transfer : Chain → Scope → ℕ → ℕ → State → Option State
unfolding for_contracts sync_cancel
sync_exchange_cancel_transfer c k m n =
    for_contracts (logs_of c EventName.cancel_transfer m n)
      (λ exchange. sync_cancel c ArgName.escrow_id (of_exchange exchange)) k.exchange_list

-- Only the escrows that want an approval are asked for.
unfoldable pub sync_exchange_escrow_finished : Chain → Scope → ℕ → ℕ → State → Option State
unfolding for_contracts sync_finish
sync_exchange_escrow_finished c k m n =
    for_contracts
      (λ exchange.
        c.get_event_logs exchange EventName.escrow_finished
          ((ArgName.transfer_approval_required, 1) ∷ []) m n)
      (λ exchange. sync_finish c ArgName.escrow_id (of_exchange exchange)) k.exchange_list

unfoldable pub sync_exchange_approve_transfer : Chain → Scope → ℕ → ℕ → State → Option State
unfolding for_contracts sync_approve_escrow
sync_exchange_approve_transfer c k m n =
    for_contracts (logs_of c EventName.approve_transfer m n)
      (λ exchange. sync_approve_escrow c ArgName.escrow_id (of_exchange exchange)) k.exchange_list

unfoldable pub sync_all : Chain → Scope → ℕ → ℕ → State → Option State
sync_all c k block_from block_to s = do
  s1 ← sync_token_apply_for_transfer c k block_from block_to s
  s2 ← sync_token_cancel_transfer c k block_from block_to s1
  s3 ← sync_token_approve_transfer c k block_from block_to s2
  s4 ← sync_exchange_apply_for_transfer c k block_from block_to s3
  s5 ← sync_exchange_cancel_transfer c k block_from block_to s4
  s6 ← sync_exchange_escrow_finished c k block_from block_to s5
  sync_exchange_approve_transfer c k block_from block_to s6
