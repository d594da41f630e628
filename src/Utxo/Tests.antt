-- ===== src/Utxo/Tests.antt =====
-- Runs of the UTXO processor on small tables and chains.
use ibet_prime.Base.{
  ℕ, ◌+◌, ◌-◌, ◌*◌, ◌≤◌, ◌<◌, ◌≡◌, refl, Bool, true, false, List, [], ◌∷◌, Option, none, some,
  arith, leb, ◌==◌, ◌&&◌, if◌then◌else◌,
}
use ibet_prime.Chain.{Chain, Event, EventName, ArgName, Json, Instant, maxsize}
use ibet_prime.Logs.{keep_if, for_each}
use ibet_prime.Tokens.{Token, TokenType, TokenStatus, issued_tokens}
use ibet_prime.Utxo.Table.{Utxo, unspent}
use ibet_prime.Utxo.Sink.{credit, reallocate, spend, sink_on_utxo}
use ibet_prime.Utxo.Totals.{total, of_holder, of_origin, of_token}
use ibet_prime.Utxo.Loops.{IsKeyed, IsFree}
use ibet_prime.Utxo.Balances.{
  total-sink_on_utxo_spent, total-sink_on_utxo_credited, total-sink_on_utxo_reallocated,
}
use ibet_prime.Utxo.Provenance.{reallocation, total-reallocation_origin}
use ibet_prime.Utxo.Movements.{total-sink_movement, credit_contested}
use ibet_prime.Utxo.Fifo.{here, there, IsSpentFirst, sink_on_utxo-IsSpentFirst}
use ibet_prime.Utxo.Failures.{process_transfer_raises}
use ibet_prime.Utxo.Events.{
  sink_movement, transfer_events, process_transfer, process_issue, process_redeem, sink_supply,
  sink_transfer, after_first, marker, exchange_contract_address, parties_of, is_reallocation,
}
use ibet_prime.Utxo.Process.{Database, Request, process, utxo_block_number, rounds, asleep}
use ibet_prime.Utxo.Process.Keys.{process-IsKeyed}
use ibet_prime.Utxo.Process.Progress.{process-advances, rounds-end}

abbrev utxo : ℕ → ℕ → ℕ → ℕ → Utxo
utxo hash account amount block = record {
  transaction_hash = hash;
  account_address = account;
  token_address = 10;
  amount = amount;
  block_number = block;
  block_timestamp = 10 * block;
}

-- Account 1 holds 5 and 7 of token 10.
abbrev rows : List Utxo
rows = utxo 100 1 5 1 ∷ utxo 101 1 7 2 ∷ []

-- 6 go to account 2.
abbrev arrival : Utxo
arrival = utxo 102 2 6 3

-- 6 leave account 1.
abbrev departure : Utxo
departure = utxo 102 1 6 3

rows-IsKeyed : IsKeyed rows
rows-IsKeyed = ((refl, tt), (tt, tt))

spends : sink_on_utxo true departure none rows ≡ utxo 100 1 0 1 ∷ utxo 101 1 6 2 ∷ []
unfolding sink_on_utxo unspent spend
spends = refl

reallocates :
    reallocation arrival 1 rows
    ≡ utxo 100 1 0 1 ∷ utxo 101 1 6 2 ∷ utxo 100 2 5 1 ∷ utxo 101 2 1 2 ∷ []
unfolding sink_on_utxo unspent spend reallocate credit
reallocates = refl

free : IsFree 2 10 (unspent 1 10 rows) rows
unfolding unspent
free = ((λ e. refl, (λ e. refl, tt)), ((λ e. refl, (λ e. refl, tt)), tt))

total-reallocation_origin_example :
    total (of_origin 100 10) (reallocation arrival 1 rows) ≡ total (of_origin 100 10) rows
total-reallocation_origin_example =
    total-reallocation_origin arrival 1 100 10 rows rows-IsKeyed (omega arith) free

total-sink_on_utxo_spent_example :
    total (of_holder 1 10) (sink_on_utxo true departure none rows) ≡ 12 - 6
total-sink_on_utxo_spent_example = total-sink_on_utxo_spent departure none 1 10 rows rows-IsKeyed

total-sink_on_utxo_credited_example :
    total (of_holder 2 10) (sink_on_utxo false arrival none rows) ≡ 0 + 6
total-sink_on_utxo_credited_example =
    total-sink_on_utxo_credited arrival 2 10 rows (λ e. refl, (λ e. refl, tt))

total-sink_on_utxo_reallocated_example :
    total (of_holder 2 10) (sink_on_utxo false arrival (some 1) rows) ≡ 0 + 6
total-sink_on_utxo_reallocated_example = total-sink_on_utxo_reallocated arrival 1 2 10 rows free

sink_on_utxo-IsSpentFirst_example :
    IsSpentFirst (utxo 100 1 5 1) (utxo 101 1 7 2) (sink_on_utxo true departure none rows)
sink_on_utxo-IsSpentFirst_example =
    sink_on_utxo-IsSpentFirst departure none rows (utxo 100 1 5 1) (utxo 101 1 7 2) rows-IsKeyed
      (record { of_account = refl; of_token = refl; positive = omega arith })
      (record { of_account = refl; of_token = refl; positive = omega arith }) here (there here)
      (omega arith)

-- A transaction that moves token 11 to account 1, which has a row of token 10 under it.
abbrev other_token : Utxo
other_token = record departure { transaction_hash = 100; token_address = 11 }

credit_contested_example :
    (total (of_holder 1 11) (sink_on_utxo false other_token none rows) ≡ 0)
    × (total (of_holder 1 10) (sink_on_utxo false other_token none rows) ≡ 12 + 6)
credit_contested_example = credit_contested other_token (utxo 100 1 5 1) rows refl (omega arith)

-- Account 1 is issued 9 of token 10 in block 1, and sends 4 to account 2 in block 2; 3 of it are
-- redeemed from account 2 in block 3.
abbrev issue_args : ArgName → Option ℕ
issue_args key = elim key [ ArgName.target_address ↦ some 1 | ArgName.amount ↦ some 9 | _ ↦ none ]

abbrev transfer_args : ArgName → Option ℕ
transfer_args key = elim key [
  | ArgName.from ↦ some 1
  | ArgName.to ↦ some 2
  | ArgName.value ↦ some 4
  | _ ↦ none
]

abbrev redeem_args : ArgName → Option ℕ
redeem_args key = elim key [ ArgName.target_address ↦ some 2 | ArgName.amount ↦ some 3 | _ ↦ none ]

abbrev event : EventName → (ArgName → Option ℕ) → ℕ → Event
event name args block = record {
  event = name;
  args = args;
  transaction_hash = 100 + block;
  block_number = block;
  log_index = 0;
}

abbrev logs : ℕ → EventName → List Event
logs token EventName.issue = if token == 10 then event EventName.issue issue_args 1 ∷ [] else []
logs token EventName.transfer =
    if token == 10 then event EventName.transfer transfer_args 2 ∷ [] else []
logs token EventName.redeem = if token == 10 then event EventName.redeem redeem_args 3 ∷ [] else []
logs token _ = []

abbrev within : ℕ → ℕ → List Event → List Event
within m n [] = []
within m n (e ∷ es) =
    if leb m e.block_number && leb e.block_number n then e ∷ within m n es else within m n es

-- The call data of every transaction is the marker, and what follows is `answer`.
abbrev chain_with : Json → Chain
chain_with answer = record {
  latest_block = 3;
  get_event_logs = λ contract name filters m n. within m n (logs contract name);
  has_code = λ account. false;
  tradable_exchange = λ token. 20;
  block_timestamp = λ block. 10 * block;
  input_hex = λ hash. marker;
  sender = λ hash. 1;
  json_loads = λ digits. some answer;
  instant_of = λ text. Instant.value_error;
}

abbrev chain : Chain
chain = chain_with (Json.object false)

abbrev token : Token
token = record {
  id = 1;
  type = some TokenType.ibet_share;
  issuer_address = 1;
  token_address = 10;
  token_status = some TokenStatus.succeeded;
}

-- A database that counts the requests for ledgers.
abbrev request : Request ℕ
request _ _ n = some (n + 1)

abbrev database : List Utxo → ℕ → ℕ → Database ℕ
database rows block requests = record {
  tokens = token ∷ [];
  accounts = record { issuer_address = 1; is_deleted = some false } ∷ [];
  utxos = rows;
  latest_block_number = some block;
  others = requests;
}

abbrev issued : Utxo
issued = utxo 101 1 9 1

abbrev sent : List Utxo
sent = utxo 101 1 5 1 ∷ utxo 102 2 4 2 ∷ []

abbrev redeemed : List Utxo
redeemed = utxo 101 1 5 1 ∷ utxo 102 2 1 2 ∷ []

runs : process 2 chain request (database [] 0 0) ≡ some (database sent 2 1, false)
unfolding process process_issue process_transfer process_redeem transfer_events sink_transfer
    sink_supply sink_movement is_reallocation parties_of after_first exchange_contract_address
    keep_if for_each sink_on_utxo unspent spend credit issued_tokens maxsize
runs = refl

comes_to_rest : rounds 4 2 chain request (database [] 0 0) ≡ asleep (database redeemed 3 2) false
unfolding rounds process process_issue process_transfer process_redeem transfer_events sink_transfer
    sink_supply sink_movement is_reallocation parties_of after_first exchange_contract_address
    keep_if for_each sink_on_utxo unspent spend credit issued_tokens maxsize
comes_to_rest = refl

process-IsKeyed_example : IsKeyed sent
process-IsKeyed_example =
    process-IsKeyed chain request 2 (database [] 0 0) (database sent 2 1) false tt runs

process-advances_example :
    (utxo_block_number (database [] 0 0) < utxo_block_number (database sent 2 1))
    × (utxo_block_number (database sent 2 1) ≤ 3)
    × (utxo_block_number (database sent 2 1) ≤ utxo_block_number (database [] 0 0) + 2)
    × (false ≡ leb 3 (utxo_block_number (database sent 2 1)))
unfolding utxo_block_number
process-advances_example =
    process-advances chain request 2 (database [] 0 0) (database sent 2 1) false (omega arith)
      (omega arith) runs

rounds-end_example :
    (db' : Database ℕ) × (raised : Bool) × (rounds 4 2 chain request (database [] 0 0)
      ≡ asleep db' raised)
    × (raised ≡ false → 3 ≤ utxo_block_number db')
unfolding utxo_block_number
rounds-end_example = rounds-end chain request 4 2 (database [] 0 0) (omega arith) (omega arith)

abbrev transferred : Event
transferred = event EventName.transfer transfer_args 2

total-sink_movement_example :
    total
      (of_token 10)
      (sink_movement chain 10 transferred
        (record { from_account = 1; to_account = 2; amount = some 4 })
        none
        (rows, false)).0
    ≡ total (of_token 10) rows
total-sink_movement_example =
    total-sink_movement chain 10 10 4 transferred
      (record { from_account = 1; to_account = 2; amount = some 4 }) false rows false rows-IsKeyed
      refl (omega arith) (omega arith) (λ e. refl, (λ e. refl, tt))

-- Call data that is JSON, but no object.
process_transfer_raises_example : process_transfer (chain_with Json.other) token 1 3 rows ≡ none
unfolding transfer_events keep_if exchange_contract_address after_first
process_transfer_raises_example =
    process_transfer_raises (chain_with Json.other) token 1 3 rows (transferred ∷ []) [] []
      transferred refl refl
      (record {
        raw_call_data = [];
        amount = 4;
        named = refl;
        valued = refl;
        giver_plain = refl;
        taker_plain = refl;
        distinct = omega arith;
        marked = refl;
        no_object = refl;
      })
