-- ===== src/Chain.antt =====
-- What the processors ask of the ledger node and of Python's libraries: event logs, contract code,
-- transactions, blocks (`AsyncContractUtils`, `web3.eth`), `json.loads`, `datetime`. All of it is a
-- parameter. Addresses, hashes and texts are only compared and handed on, so they are numbers; a
-- timestamp stands for the datetime that `datetime.fromtimestamp` makes of it.
use ibet_prime.Base.{ℕ, ◌-◌, ◌^◌, Bool, List, Option, get_or}

abbrev pub Address : Type 0
Address = ℕ

-- `ZERO_ADDRESS`
abbrev pub zero_address : Address
zero_address = 0

-- `sys.maxsize` of a 64-bit build.
unfoldable pub maxsize : ℕ
maxsize = 2 ^ 63 - 1

-- The names of the events that the processors read.
pub data EventName : Type 0 where
  holder_changed transfer unlock force_unlock force_change_locked_account : EventName
  issue redeem lock force_lock : EventName
  apply_for_transfer cancel_transfer approve_transfer escrow_finished : EventName
  delivery_created delivery_canceled delivery_confirmed delivery_finished : EventName
  delivery_aborted : EventName

-- The keys of `event["args"]`.
pub data ArgName : Type 0 where
  from to value token : ArgName
  account_address recipient_address before_account_address after_account_address : ArgName
  target_address lock_address amount : ArgName
  index escrow_id sender recipient transfer_approval_required optional_data : ArgName
  delivery_id seller buyer agent raw_data : ArgName

-- One entry of `get_event_logs`. `args` is the dictionary: `none` is a missing key.
pub record Event : Type 0 where
  pub event : EventName
  pub args : ArgName → Option ℕ
  pub transaction_hash : ℕ
  pub block_number : ℕ
  pub log_index : ℕ

-- `args.get(key, ZERO_ADDRESS)`
abbrev pub address_arg : Event → ArgName → Address
address_arg e key = get_or (e.args key) zero_address

-- The value of `json.loads`: an object, of which only `get("purpose") == "Reallocation"` is read, or
-- another value, which has no method `get`.
pub data Json : Type 0 where
  object : Bool → Json
  other : Json

-- A text read as a timestamp. Python documents a `ValueError` for a text that is no number, and an
-- `OverflowError` for a number that no datetime stands for, such as that of "inf".
pub data Instant : Type 0 where
  instant : ℕ → Instant
  value_error overflow_error : Instant

pub record Chain : Type 0 where
  -- `web3.eth.block_number`
  pub latest_block : ℕ
  -- `get_event_logs(contract, event, argument_filters, block_from, block_to)`
  pub get_event_logs : Address → EventName → List (ArgName × ℕ) → ℕ → ℕ → List Event
  -- `web3.eth.get_code(a).to_0x_hex() != "0x"`
  pub has_code : Address → Bool
  -- `tradable_exchange_contract_address` of the bond or share contract at an address.
  pub tradable_exchange : Address → Address
  -- The timestamp of a block.
  pub block_timestamp : ℕ → ℕ
  -- `tx_data.hex()` of a transaction, as the codes of its digits.
  pub input_hex : ℕ → List ℕ
  -- The sender of a transaction.
  pub sender : ℕ → Address
  -- `json.loads(bytes.fromhex(s))`; `none` is a `ValueError`.
  pub json_loads : List ℕ → Option Json
  -- `datetime.fromtimestamp(float(s), tz=UTC)` on the text numbered `s`.
  pub instant_of : ℕ → Instant
