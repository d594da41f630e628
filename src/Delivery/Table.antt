-- ===== src/Delivery/Table.antt =====
-- The tables `idx_delivery` (app/model/db/idx_dvp_delivery.py), `dvp_agent_account` and
-- `dvp_async_process` (app/model/db/dvp.py), and `__sink_on_delivery` of
-- batch/indexer_dvp_delivery.py.
use ibet_prime.Base.{
  ℕ, suc, ◌==◌, ◌&&◌, ◌||◌, Bool, true, false, List, [], ◌∷◌, ◌++◌, Option, none, some, first,
  if◌then◌else◌, ◌>>=◌,
}
use ibet_prime.Chain.{Address}
use ibet_prime.Tokens.{Account, is_live}

pub data DeliveryStatus : Type 0 where
  delivery_created delivery_canceled delivery_confirmed delivery_finished : DeliveryStatus
  delivery_aborted : DeliveryStatus

-- A row of `idx_delivery`; `none` is a null. `data_text` is the column `data`.
pub record Delivery : Type 0 where
  pub id : ℕ
  pub exchange_address : Address
  pub delivery_id : ℕ
  pub token_address : Address
  pub buyer_address : Address
  pub seller_address : Address
  pub amount : ℕ
  pub agent_address : Address
  pub data_text : Option ℕ
  pub settlement_service_type : Option ℕ
  pub create_blocktimestamp : ℕ
  pub create_transaction_hash : ℕ
  pub cancel_blocktimestamp : Option ℕ
  pub cancel_transaction_hash : Option ℕ
  pub confirm_blocktimestamp : Option ℕ
  pub confirm_transaction_hash : Option ℕ
  pub finish_blocktimestamp : Option ℕ
  pub finish_transaction_hash : Option ℕ
  pub abort_blocktimestamp : Option ℕ
  pub abort_transaction_hash : Option ℕ
  pub confirmed : Bool
  pub valid : Bool
  pub status : DeliveryStatus
  pub dedicated_agent_id : Option ℕ

-- A row of `dvp_agent_account`, of the columns that the indexer reads.
pub record DvpAgentAccount : Type 0 where
  pub account_address : Address
  pub is_deleted : Option Bool
  pub dedicated_agent_id : Option ℕ

pub data DvpAsyncProcessType : Type 0 where
  create_delivery cancel_delivery finish_delivery abort_delivery : DvpAsyncProcessType

pub data DvpAsyncProcessStepTxStatus : Type 0 where
  pending done failed retry : DvpAsyncProcessStepTxStatus

pub data DvpAsyncProcessStatus : Type 0 where
  processing done_success done_failed error : DvpAsyncProcessStatus

pub data DvpAsyncProcessRevertTxStatus : Type 0 where
  pending done failed : DvpAsyncProcessRevertTxStatus

-- A row of `dvp_async_process`; `data_text` is the column `data`.
pub record DvpAsyncProcess : Type 0 where
  pub issuer_address : Address
  pub process_type : DvpAsyncProcessType
  pub process_status : DvpAsyncProcessStatus
  pub dvp_contract_address : Address
  pub token_address : Address
  pub seller_address : Address
  pub buyer_address : Address
  pub amount : ℕ
  pub agent_address : Address
  pub delivery_id : Option ℕ
  pub step : ℕ
  pub step_tx_hash : Option ℕ
  pub step_tx_status : Option DvpAsyncProcessStepTxStatus
  pub data_text : Option ℕ
  pub revert_tx_hash : Option ℕ
  pub revert_tx_status : Option DvpAsyncProcessRevertTxStatus

-- The two tables that the sink writes, and the next value of the sequence of `idx_delivery`.
pub record Table : Type 0 where
  pub rows : List Delivery
  pub next_id : ℕ
  pub processes : List DvpAsyncProcess

-- The two tables that it reads.
pub record Registry : Type 0 where
  pub accounts : List Account
  pub agents : List DvpAgentAccount

pub data EventType : Type 0 where
  created canceled confirm_event finished aborted : EventType

-- The arguments of `__sink_on_delivery`.
pub record Arguments : Type 0 where
  pub event_type : EventType
  pub exchange_address : Address
  pub delivery_id : Option ℕ
  pub token_address : Address
  pub buyer_address : Address
  pub seller_address : Address
  pub amount : ℕ
  pub agent_address : Address
  pub block_timestamp : ℕ
  pub transaction_hash : ℕ
  pub data_text : Option ℕ
  pub settlement_service_type : Option ℕ

abbrev pub is_some {ℓ} : {A : Type ℓ} → Option A → Bool
is_some none = false
is_some (some _) = true

-- Is `_buyer`, or `_seller`, an account?
abbrev pub has_account : Registry → Address → Bool
has_account g address =
    is_some
      (first (λ (a : Account). a.issuer_address == address && is_live a.is_deleted) g.accounts)

-- `_agent`
abbrev pub agent_of : Registry → Address → Option DvpAgentAccount
agent_of g address =
    first (λ (a : DvpAgentAccount). a.account_address == address && is_live a.is_deleted) g.agents

-- `not (_buyer is None and _seller is None and _agent is None)`
unfoldable pub is_involved : Registry → Arguments → Bool
is_involved g a =
    has_account g a.buyer_address
    || has_account g a.seller_address
    || is_some (agent_of g a.agent_address)

abbrev pub is_delivery : Address → ℕ → Delivery → Bool
is_delivery exchange i r = r.exchange_address == exchange && r.delivery_id == i

-- `select(IDXDelivery).where(…).where(…).limit(1)).first()`
abbrev pub find : Address → ℕ → List Delivery → Option Delivery
find exchange i = first (is_delivery exchange i)

-- Assignments to the columns of that row.
unfoldable pub assign : Address → ℕ → (Delivery → Delivery) → List Delivery → List Delivery
assign exchange i f [] = []
assign exchange i f (r ∷ rs) =
    if is_delivery exchange i r then f r ∷ rs else r ∷ assign exchange i f rs

-- The row that a creation makes.
abbrev pub new_delivery : Registry → Arguments → ℕ → ℕ → Delivery
new_delivery g a i id = record {
  id = id;
  exchange_address = a.exchange_address;
  delivery_id = i;
  token_address = a.token_address;
  buyer_address = a.buyer_address;
  seller_address = a.seller_address;
  amount = a.amount;
  agent_address = a.agent_address;
  data_text = a.data_text;
  settlement_service_type = a.settlement_service_type;
  create_blocktimestamp = a.block_timestamp;
  create_transaction_hash = a.transaction_hash;
  cancel_blocktimestamp = none;
  cancel_transaction_hash = none;
  confirm_blocktimestamp = none;
  confirm_transaction_hash = none;
  finish_blocktimestamp = none;
  finish_transaction_hash = none;
  abort_blocktimestamp = none;
  abort_transaction_hash = none;
  confirmed = false;
  valid = true;
  status = DeliveryStatus.delivery_created;
  dedicated_agent_id = elim (agent_of g a.agent_address) [
    | none ↦ none
    | some agent ↦ agent.dedicated_agent_id
  ];
}

-- What the other four events assign.
abbrev pub cancel_columns : Arguments → Delivery → Delivery
cancel_columns a r = record r {
  cancel_blocktimestamp = some a.block_timestamp;
  cancel_transaction_hash = some a.transaction_hash;
  valid = false;
  status = DeliveryStatus.delivery_canceled;
}

abbrev pub confirm_columns : Arguments → Delivery → Delivery
confirm_columns a r = record r {
  confirm_blocktimestamp = some a.block_timestamp;
  confirm_transaction_hash = some a.transaction_hash;
  confirmed = true;
  status = DeliveryStatus.delivery_confirmed;
}

abbrev pub finish_columns : Arguments → Delivery → Delivery
finish_columns a r = record r {
  finish_blocktimestamp = some a.block_timestamp;
  finish_transaction_hash = some a.transaction_hash;
  valid = false;
  status = DeliveryStatus.delivery_finished;
}

abbrev pub abort_columns : Arguments → Delivery → Delivery
abort_columns a r = record r {
  abort_blocktimestamp = some a.block_timestamp;
  abort_transaction_hash = some a.transaction_hash;
  valid = false;
  status = DeliveryStatus.delivery_aborted;
}

-- The asynchronous process that an event instructs.
abbrev pub new_process : DvpAsyncProcessType → Address → Arguments → ℕ → DvpAsyncProcess
new_process type issuer a i = record {
  issuer_address = issuer;
  process_type = type;
  process_status = DvpAsyncProcessStatus.processing;
  dvp_contract_address = a.exchange_address;
  token_address = a.token_address;
  seller_address = a.seller_address;
  buyer_address = a.buyer_address;
  amount = a.amount;
  agent_address = a.agent_address;
  delivery_id = some i;
  step = 0;
  step_tx_hash = some a.transaction_hash;
  step_tx_status = some DvpAsyncProcessStepTxStatus.done;
  data_text = none;
  revert_tx_hash = none;
  revert_tx_status = none;
}

-- The processes instructed: for the seller, or the buyer, if it is an account.
abbrev pub instructed :
    Registry → DvpAsyncProcessType → Address → Arguments → ℕ → List DvpAsyncProcess
instructed g type issuer a i = if has_account g issuer then new_process type issuer a i ∷ [] else []

-- Assignments to a row that has to be there, since `merge(None)` raises, and the processes instructed.
abbrev pub assign_found :
    Arguments → ℕ → (Delivery → Delivery) → List DvpAsyncProcess → Table → Option Table
assign_found a i f ps t = elim (find a.exchange_address i t.rows) [
  | none ↦ none
  | some _ ↦
      some (record t { rows = assign a.exchange_address i f t.rows; processes = t.processes ++ ps })
]

-- The branches on the type of the event.
unfoldable pub sink : EventType → Registry → Arguments → ℕ → Table → Option Table
unfolding assign
sink EventType.created g a i t = elim (find a.exchange_address i t.rows) [
  | none ↦
      some
        (record t { rows = t.rows ++ new_delivery g a i t.next_id ∷ []; next_id = suc t.next_id })
  | some _ ↦ some t
]
sink EventType.canceled g a i t =
    assign_found a i (cancel_columns a)
      (instructed g DvpAsyncProcessType.cancel_delivery a.seller_address a i) t
sink EventType.confirm_event g a i t = assign_found a i (confirm_columns a) [] t
sink EventType.finished g a i t =
    assign_found a i (finish_columns a)
      (instructed g DvpAsyncProcessType.finish_delivery a.buyer_address a i) t
sink EventType.aborted g a i t =
    assign_found a i (abort_columns a)
      (instructed g DvpAsyncProcessType.abort_delivery a.seller_address a i) t

-- `__sink_on_delivery`; `none` is an exception. A delivery that no account takes part in is passed
-- over; an event without an id fits no row, and no new one, as the column is not nullable.
unfoldable pub sink_on_delivery : Registry → Arguments → Table → Option Table
unfolding is_involved sink
sink_on_delivery g a t =
    let sunk = a.delivery_id >>= λ i. sink a.event_type g a i t in
    if is_involved g a then sunk else some t
