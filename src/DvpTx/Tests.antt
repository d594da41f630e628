-- ===== src/DvpTx/Tests.antt =====
-- Rounds of the processor of asynchronous DVP transactions on small tables.
use ibet_prime.Base.{
  List, ◌≤◌, ℕ, ◌+◌, ◌*◌, ◌≡◌, refl, Bool, true, false, [], ◌∷◌, Option, none, some, ◌==◌,
  if◌then◌else◌, All, get_elem?,
}
use ibet_prime.Chain.{EventName, ArgName, Event, Instant, maxsize}
use ibet_prime.Tokens.{TokenType, TokenStatus, issued_tokens}
use ibet_prime.Delivery.Events.{
  Loaded, sync_delivery_created, sync_delivery_canceled, sync_delivery_confirmed,
  sync_delivery_finished, sync_delivery_aborted,
}
use ibet_prime.Delivery.Sync.{Database, Services, Processor, sync_new_logs}
use ibet_prime.Delivery.Table.{
  DvpAsyncProcess, DvpAsyncProcessType, DvpAsyncProcessStatus, DvpAsyncProcessStepTxStatus,
  DvpAsyncProcessRevertTxStatus, EventType, Arguments, new_process, sink_on_delivery,
}
use ibet_prime.DvpTx.Process.{World, Receipt, withdrawal, step_transaction, process, rounds}
use ibet_prime.DvpTx.Kept.{IsSound}
use ibet_prime.DvpTx.Composed.{rounds-sync_new_logs-IsSound}
use ibet_prime.DvpTx.Places.{number_of}
use ibet_prime.DvpTx.Endless.{
  is_withdrawal_of, IsReverting, IsReverted, with_sent, rounds_final, rounds_resend,
}
use ibet_prime.DvpTx.Ends.{IsDone, IsFair, process_completes}

-- The n-th transaction sent has the hash 100 + n. All succeed.
abbrev fair : World
fair = record {
  finds_key = λ issuer. true;
  send = λ n tx. some (100 + n);
  receipt = λ hash. Receipt.success;
}

fair-IsFair : IsFair fair
fair-IsFair = record { keys = λ a. refl; sends = λ n tx. (100 + n, refl); succeeds = λ h. refl }

-- The transaction with the hash 100, a creation, was reverted; the others succeed.
abbrev is_hundred : Option ℕ → Bool
is_hundred none = false
is_hundred (some h) = h == 100

abbrev reverting : World
reverting = record fair {
  receipt = λ hash. if is_hundred hash then Receipt.reverted else Receipt.success;
}

reverting-IsReverted : IsReverted 100 reverting
reverting-IsReverted = record { keys = λ a. refl; sends = λ n tx. (100 + n, refl); reverts = refl }

-- Account 3 bought 4 of token 10 on exchange 20 from account 2: delivery 8 is finished.
abbrev finished : Arguments
finished = record {
  event_type = EventType.finished;
  exchange_address = 20;
  delivery_id = some 8;
  token_address = 10;
  buyer_address = 3;
  seller_address = 2;
  amount = 4;
  agent_address = 5;
  block_timestamp = 30;
  transaction_hash = 50;
  data_text = none;
  settlement_service_type = none;
}

abbrev finish : DvpAsyncProcess
finish = new_process DvpAsyncProcessType.finish_delivery 3 finished 8

-- A creation whose tokens are deposited.
abbrev creation : DvpAsyncProcess
creation = record finish {
  issuer_address = 2;
  process_type = DvpAsyncProcessType.create_delivery;
  delivery_id = none;
}

abbrev reverting_creation : DvpAsyncProcess
reverting_creation = record creation {
  step = 1;
  step_tx_hash = some 100;
  step_tx_status = some DvpAsyncProcessStepTxStatus.failed;
  revert_tx_hash = some 101;
  revert_tx_status = some DvpAsyncProcessRevertTxStatus.pending;
}

abbrev finished_process : DvpAsyncProcess
finished_process = record finish {
  process_status = DvpAsyncProcessStatus.done_success;
  step = 1;
  step_tx_hash = some 100;
}

-- The creation is sent and reverted, a withdrawal is sent, and then another for the same step.
reverts :
    (rounds (reverting ∷ []) (creation ∷ []) (with_sent []) ≡ (
      record reverting_creation { revert_tx_hash = some 102 } ∷ [],
      with_sent (step_transaction creation ∷ withdrawal creation ∷ withdrawal creation ∷ []),
    ))
unfolding rounds
reverts = refl

finish-IsSound : IsSound finish
finish-IsSound = record {
  step_named = λ h. refl;
  revert_of_creation = λ h. cc;
  revert_after_step = λ h. cc;
  revert_named = λ h. cc;
  succeeded_stepped = λ h. cc;
  succeeded_done = λ h. cc;
  failed_reverted = λ h. cc;
}

reverting_creation-IsReverting : IsReverting 100 reverting_creation
reverting_creation-IsReverting = record {
  of_creation = refl;
  still_processing = refl;
  step_hash = refl;
  step_failed = refl;
  revert_waits = refl;
}

rounds_resend_example :
    (s : DvpAsyncProcess) × (get_elem?
        (rounds (reverting ∷ reverting ∷ []) (finish ∷ reverting_creation ∷ []) (with_sent [])).0
        1
      ≡ some s)
    × IsReverting 100 s
    × (2
        ≤ number_of
            (is_withdrawal_of reverting_creation)
            (rounds
              (reverting ∷ reverting ∷ [])
              (finish ∷ reverting_creation ∷ [])
              (with_sent [])).1.sent)
rounds_resend_example =
    rounds_resend 100 (reverting ∷ reverting ∷ []) (finish ∷ reverting_creation ∷ []) (with_sent [])
      1 reverting_creation (reverting-IsReverted, (reverting-IsReverted, tt)) refl refl
      reverting_creation-IsReverting

rounds_final_example :
    get_elem? (rounds (fair ∷ []) (finish ∷ finished_process ∷ []) (with_sent [])).0 1
    ≡ some finished_process
rounds_final_example =
    rounds_final (fair ∷ []) (finish ∷ finished_process ∷ []) (with_sent []) 1 finished_process
      (λ e. cc) refl

-- The second row waits, the first is done.
process_completes_example :
    ((s : DvpAsyncProcess) × (get_elem?
          (process fair (finished_process ∷ creation ∷ []) (with_sent [])).0
          1
        ≡ some s)
      × IsDone s)
    × ((process fair (finished_process ∷ creation ∷ []) (with_sent [])).1
        ≡ with_sent (step_transaction creation ∷ []))
process_completes_example =
    process_completes fair (finished_process ∷ creation ∷ []) [] 1 creation fair-IsFair refl refl

-- Delivery 8 is made in block 1 and finished in block 2; the buyer, account 3, is known.
abbrev args : ArgName → Option ℕ
args key = elim key [
  | ArgName.delivery_id ↦ some 8
  | ArgName.token ↦ some 10
  | ArgName.seller ↦ some 2
  | ArgName.buyer ↦ some 3
  | ArgName.agent ↦ some 5
  | ArgName.amount ↦ some 4
  | ArgName.raw_data ↦ some 50
  | _ ↦ none
]

abbrev event : EventName → ℕ → Event
event name block = record {
  event = name;
  args = args;
  transaction_hash = block;
  block_number = block;
  log_index = 0;
}

abbrev logs : EventName → List Event
logs EventName.delivery_created = event EventName.delivery_created 1 ∷ []
logs EventName.delivery_finished = event EventName.delivery_finished 2 ∷ []
logs _ = []

abbrev services : Services
services = record {
  chain = record {
    latest_block = 2;
    get_event_logs = λ contract name filters m n. logs name;
    has_code = λ account. false;
    tradable_exchange = λ token. 20;
    block_timestamp = λ block. 10 * block;
    input_hex = λ hash. [];
    sender = λ hash. 2;
    json_loads = λ digits. none;
    instant_of = λ text. Instant.value_error;
  };
  codec = record {
    json_loads = λ text. Loaded.json_decode_error;
    is_encrypted = false;
    aes_256_cbc = 60;
    local = 61;
    decrypt = λ text. none;
  };
  tradable_exchange = λ token. some 20;
}

abbrev database : Database
database = record {
  tokens =
      record {
        id = 1;
        type = some TokenType.ibet_share;
        issuer_address = 1;
        token_address = 10;
        token_status = some TokenStatus.succeeded;
      }
      ∷ [];
  registry = record {
    accounts = record { issuer_address = 3; is_deleted = some false } ∷ [];
    agents = [];
  };
  table = record { rows = []; next_id = 1; processes = finish ∷ [] };
  block_numbers = [];
  notifications = [];
}

abbrev listed : Processor
listed = record { token_list = []; exchange_list = 20 ∷ [] }

rounds-sync_new_logs-IsSound_example :
    All IsSound
      (rounds
        (fair ∷ reverting ∷ [])
        (sync_new_logs 9 2 services listed database).1.0.table.processes
        (with_sent [])).0
rounds-sync_new_logs-IsSound_example =
    rounds-sync_new_logs-IsSound 9 2 services listed database (fair ∷ reverting ∷ []) (with_sent [])
      (finish-IsSound, tt)

-- The indexer instructs the second process, and a fair round completes both.
completed_twice :
    (process fair (sync_new_logs 9 2 services listed database).1.0.table.processes (with_sent [])).1
    ≡ with_sent (withdrawal finish ∷ withdrawal finish ∷ [])
unfolding process sync_new_logs issued_tokens sync_delivery_created maxsize sink_on_delivery
    sync_delivery_canceled sync_delivery_confirmed sync_delivery_finished sync_delivery_aborted
completed_twice = refl
