-- ===== src/Holders/Tests.antt =====
-- Runs of the token holder snapshots on small tables and chains.
use ibet_prime.Base.{
  ℕ, ◌+◌, ◌*◌, ◌≡◌, ◌≢◌, refl, false, List, [], ◌∷◌, Option, none, some, arith, leb, ◌==◌, ◌&&◌,
  if◌then◌else◌, sum_of,
}
use ibet_prime.Base.Int.{pos, ◌+ℤ◌}
use ibet_prime.Blocks.{sync_lots}
use ibet_prime.Chain.{Chain, Event, EventName, ArgName, Instant, maxsize}
use ibet_prime.Logs.{keep_if, for_each}
use ibet_prime.Tokens.{TokenType, TokenStatus}
use ibet_prime.Holders.Book.{Page, BalanceBook, store}
use ibet_prime.Holders.Events.{
  Contracts, process_events, process_transfer, process_issue, process_redeem, process_lock,
  process_force_lock, process_unlock, process_force_unlock, process_force_change_locked_account,
  each, store_transfer, store_supply, store_lock, store_unlock, store_relock,
}
use ibet_prime.Holders.Table.{
  TokenHolderBatchStatus, TokenHoldersList, TokenHolder, find_holder, holder_of, save_holders,
}
use ibet_prime.Holders.Collect.{
  Database, TokenInfo, collected, out_of_fuel, collect_blocks, collect, process_all, load_target,
  load_token_info, load_checkpoint, finish, update_status,
}
use ibet_prime.Holders.Supply.{worth, supply_of, worth-process_events}
use ibet_prime.Holders.Pages.{IsBook}
use ibet_prime.Holders.Save.{IsTable, find_holder-save_holders}
use ibet_prime.Holders.Progress.{collect-ends}

-- In block 1 account 2 is issued 9 of token 10; in block 2 it sends 4 to account 3; in block 3 account 3
-- locks 1, and in block 4 account 2 redeems 5.
abbrev args : EventName → ArgName → Option ℕ
args EventName.issue key = elim key [
  | ArgName.target_address ↦ some 2
  | ArgName.amount ↦ some 9
  | _ ↦ none
]
args EventName.transfer key = elim key [
  | ArgName.from ↦ some 2
  | ArgName.to ↦ some 3
  | ArgName.value ↦ some 4
  | _ ↦ none
]
args EventName.lock key = elim key [
  | ArgName.account_address ↦ some 3
  | ArgName.value ↦ some 1
  | _ ↦ none
]
args EventName.redeem key = elim key [
  | ArgName.target_address ↦ some 2
  | ArgName.amount ↦ some 5
  | _ ↦ none
]
args _ key = none

abbrev event : EventName → ℕ → Event
event name block = record {
  event = name;
  args = args name;
  transaction_hash = 100 + block;
  block_number = block;
  log_index = 0;
}

abbrev logs : EventName → List Event
logs EventName.issue = event EventName.issue 1 ∷ []
logs EventName.transfer = event EventName.transfer 2 ∷ []
logs EventName.lock = event EventName.lock 3 ∷ []
logs EventName.redeem = event EventName.redeem 4 ∷ []
logs _ = []

abbrev within : ℕ → ℕ → List Event → List Event
within m n [] = []
within m n (e ∷ es) =
    if leb m e.block_number && leb e.block_number n then e ∷ within m n es else within m n es

abbrev chain_of : (EventName → List Event) → Chain
chain_of all = record {
  latest_block = 4;
  get_event_logs =
      λ contract name filters m n. if contract == 10 then within m n (all name) else [];
  has_code = λ account. false;
  tradable_exchange = λ token. 20;
  block_timestamp = λ block. 10 * block;
  input_hex = λ hash. [];
  sender = λ hash. 1;
  json_loads = λ digits. none;
  instant_of = λ text. Instant.value_error;
}

abbrev chain : Chain
chain = chain_of logs

abbrev contracts : Contracts
contracts = record { token = 10; exchange = 20 }

abbrev page : ℕ → ℕ → ℕ → Page
page account hold locked = record {
  account_address = account;
  hold_balance = pos hold;
  locked_balance = pos locked;
}

abbrev book : BalanceBook
book = page 2 0 0 ∷ page 3 3 1 ∷ []

passes : process_events chain contracts 0 4 [] ≡ some book
unfolding process_events process_transfer process_issue process_redeem process_lock
    process_force_lock process_unlock process_force_unlock process_force_change_locked_account
    keep_if for_each each store store_transfer store_supply store_lock store_unlock store_relock
    maxsize ◌+ℤ◌
passes = refl

worth-process_events_example :
    worth book +ℤ pos (sum_of supply_of (logs EventName.redeem))
    ≡ worth [] +ℤ pos (sum_of supply_of (logs EventName.issue))
worth-process_events_example = worth-process_events chain contracts 0 4 [] book passes

abbrev holder : ℕ → ℕ → ℕ → ℕ → TokenHolder
holder list account hold locked = holder_of list (page account hold locked)

-- The rows of snapshot 7, and one of snapshot 6.
abbrev holders : List TokenHolder
holders = holder 7 2 5 0 ∷ holder 6 3 8 0 ∷ []

saves :
    save_holders 7 1 (page 1 50 0 ∷ book) holders
    ≡ holder 7 2 0 0 ∷ holder 6 3 8 0 ∷ holder 7 3 3 1 ∷ []
unfolding save_holders
saves = refl

book-IsBook : IsBook book
book-IsBook = (refl, (refl, tt))

holders-IsTable : IsTable holders
holders-IsTable = (refl, (refl, tt))

find_holder-save_holders_example :
    find_holder 7 3 (save_holders 7 1 book holders) ≡ some (holder 7 3 3 1)
find_holder-save_holders_example = find_holder-save_holders 7 7 1 3 book holders book-IsBook

abbrev snapshot : TokenHolderBatchStatus → TokenHoldersList
snapshot status = record { id = 7; token_address = 10; block_number = 4; batch_status = status }

abbrev info : TokenInfo
info = record { token_owner_address = 1; contracts = contracts }

abbrev database : TokenHolderBatchStatus → List TokenHolder → Database
database status rows = record {
  tokens =
      record {
        id = 1;
        type = some TokenType.ibet_share;
        issuer_address = 1;
        token_address = 10;
        token_status = some TokenStatus.succeeded;
      }
      ∷ [];
  lists = snapshot status ∷ [];
  holders = rows;
}

collects :
    collect 5 2 chain (database TokenHolderBatchStatus.pending [])
    ≡ (database TokenHolderBatchStatus.done (holder 7 3 3 1 ∷ []), collected)
unfolding collect load_target load_token_info load_checkpoint collect_blocks sync_lots process_all
    finish update_status save_holders process_events process_transfer process_issue process_redeem
    process_lock process_force_lock process_unlock process_force_unlock
    process_force_change_locked_account keep_if for_each each store store_transfer store_supply
    store_lock store_unlock store_relock maxsize ◌+ℤ◌
collects = refl

collect-ends_example :
    (collect 5 2 chain (database TokenHolderBatchStatus.pending [])).1 ≢ out_of_fuel
collect-ends_example =
    collect-ends 5 2 chain (database TokenHolderBatchStatus.pending []) (omega arith) (omega arith)
