-- ===== src/Utxo/Events.antt =====
-- `Processor.__process_transfer`, `__process_issue` and `__process_redeem` of
-- batch/processor_create_utxo.py. `none` is an exception that leaves the method: a missing key, or
-- call data that is JSON but no object.
use ibet_prime.Base.{
  ℕ, ◌==◌, leb, ◌||◌, Bool, true, false, List, [], ◌∷◌, ◌++◌, Option, none, some, if◌then◌else◌,
  ◌>>=◌,
}
use ibet_prime.Base.Sort.{sort_by}
use ibet_prime.Chain.{
  Address, zero_address, maxsize, EventName, ArgName, Event, address_arg, Json, Chain,
}
use ibet_prime.Logs.{keep_if, differ, is_of, earlier, for_each}
use ibet_prime.Tokens.{Token}
use ibet_prime.Utxo.Table.{Utxo}
use ibet_prime.Utxo.Sink.{sink_on_utxo}

-- The exchange of a token: its contract's, or the zero address if the type is unknown.
unfoldable pub exchange_contract_address : Chain → Token → Address
exchange_contract_address c token = elim token.type [
  | some t ↦ c.tradable_exchange token.token_address
  | none ↦ zero_address
]

-- The events of a block range that move a token between accounts, in the order of `tmp_events`.
unfoldable pub transfer_events : Chain → Token → ℕ → ℕ → Option (List Event)
unfolding exchange_contract_address keep_if
transfer_events c token block_from block_to = do
  let address = token.token_address
  let logs = λ (name : EventName). c.get_event_logs address name [] block_from block_to
  changed ← keep_if (is_of address) (
      c.get_event_logs (exchange_contract_address c token) EventName.holder_changed
        ((ArgName.token, address) ∷ []) block_from block_to)
  unlocked ←
      keep_if (differ ArgName.account_address ArgName.recipient_address) (logs EventName.unlock)
  force_unlocked ←
      keep_if (differ ArgName.account_address ArgName.recipient_address)
        (logs EventName.force_unlock)
  relocked ←
      keep_if (differ ArgName.before_account_address ArgName.after_account_address)
        (logs EventName.force_change_locked_account)
  some (changed ++ (logs EventName.transfer ++ (unlocked ++ (force_unlocked ++ relocked))))

-- `from_account`, `to_account` and `amount` of a sink.
pub record Parties : Type 0 where
  pub from_account : Address
  pub to_account : Address
  pub amount : Option ℕ

abbrev pub between : Event → ArgName → ArgName → Parties
between e giver taker = record {
  from_account = address_arg e giver;
  to_account = address_arg e taker;
  amount = e.args ArgName.value;
}

-- The arguments read depend on the event's name; `int(None)` raises.
unfoldable pub parties_of : EventName → Event → Option Parties
parties_of EventName.unlock e = some (between e ArgName.account_address ArgName.recipient_address)
parties_of EventName.force_unlock e =
    some (between e ArgName.account_address ArgName.recipient_address)
parties_of EventName.force_change_locked_account e =
    some (between e ArgName.before_account_address ArgName.after_account_address)
parties_of name e = do amount ← e.args ArgName.value; some (between e ArgName.from ArgName.to)

-- The digits of the marker "c0ffee00".
abbrev pub marker : List ℕ
marker = b'c' ∷ b'0' ∷ b'f' ∷ b'f' ∷ b'e' ∷ b'e' ∷ b'0' ∷ b'0' ∷ []

-- What follows a prefix.
unfoldable pub after_prefix : List ℕ → List ℕ → Option (List ℕ)
after_prefix [] xs = some xs
after_prefix (p ∷ ps) [] = none
after_prefix (p ∷ ps) (x ∷ xs) = if p == x then after_prefix ps xs else none

-- `s.split(sep, 1)[1]`; `none` if `sep` is not in `s`.
unfoldable pub after_first : List ℕ → List ℕ → Option (List ℕ)
unfolding after_prefix
after_first sep [] = after_prefix sep []
after_first sep (x ∷ xs) = elim (after_prefix sep (x ∷ xs)) [
  | some rest ↦ some rest
  | none ↦ after_first sep xs
]

-- What the parsed call data says: nothing if it is no JSON, an `AttributeError` if it is no object.
abbrev pub reallocation_purpose : Option Json → Option Bool
reallocation_purpose none = some false
reallocation_purpose (some (Json.object b)) = some b
reallocation_purpose (some Json.other) = none

-- Whether the transaction of a `Transfer` event carries the purpose "Reallocation".
unfoldable pub is_reallocation : Chain → Event → Option Bool
unfolding after_first
is_reallocation c e = elim e.event [
  | EventName.transfer ↦ elim (after_first marker (c.input_hex e.transaction_hash)) [
    | none ↦ some false
    | some raw_call_data ↦ reallocation_purpose (c.json_loads raw_call_data)
  ]
  | _ ↦ some false
]

-- The table and `event_triggered`.
abbrev pub State : Type 0
State = List Utxo × Bool

-- A row of `__sink_on_utxo`'s arguments.
abbrev pub row_of : Chain → Address → Address → ℕ → Event → Utxo
row_of c token account amount e = record {
  transaction_hash = e.transaction_hash;
  account_address = account;
  token_address = token;
  amount = amount;
  block_number = e.block_number;
  block_timestamp = c.block_timestamp e.block_number;
}

-- The two sinks of a movement, if it has an amount and that fits.
unfoldable pub sink_movement : Chain → Address → Event → Parties → Option Address → State → State
sink_movement c token e p reallocation_from (t, triggered) = elim p.amount [
  | none ↦ (t, triggered)
  | some amount ↦
      if leb amount maxsize
      then (
        sink_on_utxo true (row_of c token p.from_account amount e) none
            (sink_on_utxo false (row_of c token p.to_account amount e) reallocation_from t),
        true,
      )
      else (t, triggered)
]

-- The body of the loop over the sorted events.
unfoldable pub sink_transfer : Chain → Address → Event → State → Option State
unfolding parties_of is_reallocation sink_movement
sink_transfer c token e s = do
  p ← parties_of e.event e
  let skip = c.has_code p.from_account || c.has_code p.to_account || p.from_account == p.to_account
  let sunk = is_reallocation c e >>= λ b.
      some (sink_movement c token e p (if b then some p.from_account else none) s)
  if skip then some s else sunk

unfoldable pub process_transfer : Chain → Token → ℕ → ℕ → List Utxo → Option State
unfolding transfer_events sink_transfer for_each
process_transfer c token block_from block_to t = do
  tmp_events ← transfer_events c token block_from block_to
  for_each (sink_transfer c token.token_address) (sort_by earlier tmp_events) (t, false)

-- The body of the loops over `Issue` and `Redeem` events.
unfoldable pub sink_supply : Bool → Chain → Address → Event → State → Option State
sink_supply spent c token e (t, triggered) = some (elim (e.args ArgName.amount) [
  | none ↦ (t, triggered)
  | some amount ↦
      if leb amount maxsize
      then (
        sink_on_utxo spent (row_of c token (address_arg e ArgName.target_address) amount e) none t,
        true,
      )
      else (t, triggered)
])

unfoldable pub process_issue : Chain → Token → ℕ → ℕ → List Utxo → Option State
unfolding for_each sink_supply
process_issue c token block_from block_to t =
    for_each (sink_supply false c token.token_address)
      (c.get_event_logs token.token_address EventName.issue [] block_from block_to) (t, false)

unfoldable pub process_redeem : Chain → Token → ℕ → ℕ → List Utxo → Option State
unfolding for_each sink_supply
process_redeem c token block_from block_to t =
    for_each (sink_supply true c token.token_address)
      (c.get_event_logs token.token_address EventName.redeem [] block_from block_to) (t, false)
