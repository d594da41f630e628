-- ===== src/Delivery/Events.antt =====
-- The five `__sync_delivery_…` methods of batch/indexer_dvp_delivery.py, `__sync_all` and
-- `__get_issuer_address_token_type`.
use ibet_prime.Base.{
  ℕ, ltb, ◌==◌, ◌&&◌, Bool, false, List, [], ◌∷◌, ◌++◌, Option, none, some, get_or, first,
  if◌then◌else◌, ◌>>=◌,
}
use ibet_prime.Chain.{Address, maxsize, EventName, ArgName, Event, address_arg, Chain}
use ibet_prime.Logs.{for_each}
use ibet_prime.Tokens.{Token, TokenType}
use ibet_prime.Delivery.Table.{EventType, Arguments, Registry, Table, is_some, sink_on_delivery}

-- The object in the argument `data` of a creation; `none` is a missing key or a null. Texts are
-- numbers.
pub record Document : Type 0 where
  pub encryption_algorithm : Option ℕ
  pub encryption_key_ref : Option ℕ
  pub settlement_service_type : Option ℕ
  pub encrypted : Option ℕ

-- What `json.loads` makes of a text: a `JSONDecodeError`, an object, or a value without `get`.
pub data Loaded : Type 0 where
  json_decode_error other : Loaded
  object : Document → Loaded

-- Python's libraries and the configuration, as far as the texts go.
pub record Codec : Type 0 where
  pub json_loads : ℕ → Loaded
  -- `DVP_DATA_ENCRYPTION_MODE == "aes-256-cbc"`
  pub is_encrypted : Bool
  -- The texts "aes-256-cbc" and "local".
  pub aes_256_cbc : ℕ
  pub local : ℕ
  -- `b64decode`, `AES`, `unpad` and `decode` with the key configured; `none` is an exception.
  pub decrypt : ℕ → Option ℕ

-- What the indexer reads besides what it writes.
pub record Context : Type 0 where
  pub chain : Chain
  pub codec : Codec
  pub registry : Registry
  pub tokens : List Token

-- An entry of `notification_events`.
pub record Notice : Type 0 where
  pub exchange_address : Address
  pub delivery_id : Option ℕ
  pub issuer_address : Address
  pub token_address : Address
  pub token_type : Option TokenType
  pub buyer_address : Address
  pub seller_address : Address
  pub amount : ℕ
  pub agent_address : Address
  pub code : ℕ

pub record State : Type 0 where
  pub table : Table
  pub notification_events : List Notice

-- The keyword arguments that the events share.
abbrev pub arguments : Chain → EventType → Address → Event → Arguments
arguments c event_type exchange e = record {
  event_type = event_type;
  exchange_address = exchange;
  delivery_id = e.args ArgName.delivery_id;
  token_address = address_arg e ArgName.token;
  buyer_address = address_arg e ArgName.buyer;
  seller_address = address_arg e ArgName.seller;
  amount = get_or (e.args ArgName.amount) 0;
  agent_address = address_arg e ArgName.agent;
  block_timestamp = c.block_timestamp e.block_number;
  transaction_hash = e.transaction_hash;
  data_text = none;
  settlement_service_type = none;
}

-- `if amount > sys.maxsize: continue`
abbrev pub is_oversized : Event → Bool
is_oversized e = ltb maxsize (get_or (e.args ArgName.amount) 0)

-- The object read; a text that is no JSON gives one without entries, and another value than an
-- object has no `get`.
abbrev pub document : Codec → ℕ → Option Document
document k raw = elim (k.json_loads raw) [
  | Loaded.json_decode_error ↦ some (record {
    encryption_algorithm = none;
    encryption_key_ref = none;
    settlement_service_type = none;
    encrypted = none;
  })
  | Loaded.other ↦ none
  | Loaded.object d ↦ some d
]

abbrev pub is_text : ℕ → Option ℕ → Bool
is_text text none = false
is_text text (some t) = t == text

-- `_data`: the text decrypted, if it is encrypted with the local key and can be decrypted.
unfoldable pub data_of : Codec → ℕ → Document → ℕ
data_of k raw d =
    let plain : ℕ = elim d.encrypted [ none ↦ raw | some text ↦ get_or (k.decrypt text) raw ] in
    if k.is_encrypted
      && is_text k.aes_256_cbc d.encryption_algorithm
      && is_text k.local d.encryption_key_ref
      && is_some d.encrypted
    then plain
    else raw

-- `self.__sink_on_delivery(…)` in a loop body.
abbrev pub sunk : Context → Arguments → State → Option State
sunk x a s = do table ← sink_on_delivery x.registry a s.table; some (record s { table = table })

-- The call for a creation, with the text of its data and the object read from it.
abbrev pub sink_created : Context → Address → Event → State → ℕ → Document → Option State
sink_created x exchange e s raw d =
    sunk x
      (record (arguments x.chain EventType.created exchange e) {
        data_text = some (data_of x.codec raw d);
        settlement_service_type = d.settlement_service_type;
      })
      s

unfoldable pub sync_created : Context → Address → Event → State → Option State
unfolding data_of
sync_created x exchange e s =
    let body = e.args ArgName.raw_data >>= λ raw.
    document x.codec raw >>= λ d. sink_created x exchange e s raw d in
    if is_oversized e then some s else body

-- The loop body of the cancellations and of the abortions.
unfoldable pub sync_ended : EventType → Context → Address → Event → State → Option State
sync_ended event_type x exchange e s =
    let body = sunk x (arguments x.chain event_type exchange e) s in
    if is_oversized e then some s else body

-- `__get_issuer_address_token_type`: the row is unpacked, so that an unknown token raises.
abbrev pub issuer_address_token_type : List Token → Address → Option Token
issuer_address_token_type tokens address = first (λ (t : Token). t.token_address == address) tokens

-- `self.notification_events.append(…)`
abbrev pub note : ℕ → Arguments → Token → State → State
note code a token s = record s {
  notification_events =
      s.notification_events
      ++ record {
        exchange_address = a.exchange_address;
        delivery_id = a.delivery_id;
        issuer_address = token.issuer_address;
        token_address = a.token_address;
        token_type = token.type;
        buyer_address = a.buyer_address;
        seller_address = a.seller_address;
        amount = a.amount;
        agent_address = a.agent_address;
        code = code;
      }
        ∷ [];
}

-- The loop body of the confirmations, with code 0, and of the finishes, with code 1: the sink, and
-- the notice that is appended after it.
unfoldable pub sync_noted : EventType → ℕ → Context → Address → Event → State → Option State
sync_noted event_type code x exchange e s =
    let a = arguments x.chain event_type exchange e in
    let body = sunk x a s >>= λ s'.
    issuer_address_token_type x.tokens a.token_address >>= λ token. some (note code a token s') in
    if is_oversized e then some s else body

-- The guard, the query for the logs of one event, and the loop over them.
unfoldable pub sync_events :
    (Event → State → Option State) → Context → EventName → Address → ℕ → ℕ → State → Option State
unfolding for_each
sync_events body x name exchange block_from block_to s =
    let events = x.chain.get_event_logs exchange name [] block_from block_to in
    let done = for_each body events s in if ltb block_to block_from then some s else done

-- The five methods.
unfoldable pub sync_delivery_created : Context → Address → ℕ → ℕ → State → Option State
unfolding sync_events sync_created
sync_delivery_created x k = sync_events (sync_created x k) x EventName.delivery_created k

unfoldable pub sync_delivery_canceled : Context → Address → ℕ → ℕ → State → Option State
unfolding sync_events sync_ended
sync_delivery_canceled x k =
    sync_events (sync_ended EventType.canceled x k) x EventName.delivery_canceled k

unfoldable pub sync_delivery_confirmed : Context → Address → ℕ → ℕ → State → Option State
unfolding sync_events sync_noted
sync_delivery_confirmed x k =
    sync_events (sync_noted EventType.confirm_event 0 x k) x EventName.delivery_confirmed k

unfoldable pub sync_delivery_finished : Context → Address → ℕ → ℕ → State → Option State
unfolding sync_events sync_noted
sync_delivery_finished x k =
    sync_events (sync_noted EventType.finished 1 x k) x EventName.delivery_finished k

unfoldable pub sync_delivery_aborted : Context → Address → ℕ → ℕ → State → Option State
unfolding sync_events sync_ended
sync_delivery_aborted x k =
    sync_events (sync_ended EventType.aborted x k) x EventName.delivery_aborted k

-- `__sync_all`
unfoldable pub sync_all : Context → Address → ℕ → ℕ → State → Option State
sync_all x exchange block_from block_to s = do
  s1 ← sync_delivery_created x exchange block_from block_to s
  s2 ← sync_delivery_canceled x exchange block_from block_to s1
  s3 ← sync_delivery_confirmed x exchange block_from block_to s2
  s4 ← sync_delivery_finished x exchange block_from block_to s3
  sync_delivery_aborted x exchange block_from block_to s4
