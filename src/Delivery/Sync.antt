-- ===== src/Delivery/Sync.antt =====
-- `Processor.sync_new_logs` of batch/indexer_dvp_delivery.py, and the contracts and the block numbers
-- that it keeps.
use ibet_prime.Base.{
  ℕ, ◌+◌, leb, ltb, ◌==◌, ◌&&◌, not, Bool, true, false, List, [], ◌∷◌, ◌++◌, Option, none, some,
  first, select, map, if◌then◌else◌, ◌>>=◌, upsert,
}
use ibet_prime.Blocks.{Loop, sync_lots, ending}
use ibet_prime.Chain.{Address, zero_address, Chain}
use ibet_prime.Tokens.{contains, Token, issued_tokens, is_succeeded}
use ibet_prime.Delivery.Table.{Table, Registry}
use ibet_prime.Delivery.Events.{Context, Codec, Notice, State, sync_all}

-- A row of `notification`, of the type `DVP_DELIVERY_INFO`; its identifier is left out.
pub record Notification : Type 0 where
  pub issuer_address : Address
  pub priority : ℕ
  pub code : ℕ
  pub metainfo : Notice

pub record Database : Type 0 where
  pub tokens : List Token
  pub registry : Registry
  pub table : Table
  -- `idx_delivery_block_number`: the latest block number of each exchange.
  pub block_numbers : List (ℕ × ℕ)
  pub notifications : List Notification

-- `self.token_list` and `self.exchange_list`.
pub record Processor : Type 0 where
  pub token_list : List Address
  pub exchange_list : List Address

-- What the indexer asks: the chain, and `tradable_exchange_contract_address` of the bond or share
-- contract at an address, where `none` is an exception of the call.
pub record Services : Type 0 where
  pub chain : Chain
  pub codec : Codec
  pub tradable_exchange : Address → Option Address

exchange_of : Services → Token → Option Address
exchange_of v t = elim t.type [
  | some _ ↦ v.tradable_exchange t.token_address
  | none ↦ some zero_address
]

-- The loop over the tokens to load: the list of tokens, and the exchanges found if no call raises.
-- A token is on the list before its contract is asked.
unfoldable pub load : Services → List Token → List Address → List Address × Option (List Address)
unfolding exchange_of
load v [] loaded = (loaded, some [])
load v (t ∷ ts) loaded =
    let rest = load v ts (loaded ++ t.token_address ∷ []) in
    elim (exchange_of v t) [
      | none ↦ (loaded ++ t.token_address ∷ [], none)
      | some a ↦ (rest.0, rest.1 >>= λ es. some (if a == zero_address then es else a ∷ es))
    ]

-- The loop over the exchanges found. Python's `set` gives them in no fixed order; here they come in
-- the order of the tokens.
unfoldable pub add_exchanges : List Address → List Address → List Address
add_exchanges [] known = known
add_exchanges (a ∷ es) known =
    add_exchanges es (if contains a known then known else known ++ a ∷ [])

-- The tokens that are issued or loaded, and not both.
unfoldable pub load_required : Database → List Address → List Token
load_required db loaded =
    let issued =
      map (λ (t : Token). t.token_address) (issued_tokens db.registry.accounts db.tokens) in
    let required =
      λ (a : Address). if contains a issued then not (contains a loaded) else contains a loaded in
    select (λ (t : Token). is_succeeded t.token_status && required t.token_address) db.tokens

-- The lists of the processor after the loops, and whether the call returns.
abbrev pub listed : Processor → List Address × Option (List Address) → Processor × Bool
listed p (tokens, none) = (record p { token_list = tokens }, false)
listed p (tokens, some found) =
    (record { token_list = tokens; exchange_list = add_exchanges found p.exchange_list }, true)

-- `__get_contract_list`
unfoldable pub get_contract_list : Services → Database → Processor → Processor × Bool
unfolding load add_exchanges load_required
get_contract_list v db p = listed p (load v (load_required db p.token_list) p.token_list)

-- `__get_idx_delivery_block_number`
unfoldable pub block_number : List (ℕ × ℕ) → Address → ℕ
block_number numbers exchange = elim (first (λ (n : ℕ × ℕ). n.0 == exchange) numbers) [
  | none ↦ 0
  | some n ↦ n.1
]

-- `__set_idx_delivery_block_number`
unfoldable pub set_block_number : Address → ℕ → List (ℕ × ℕ) → List (ℕ × ℕ)
set_block_number exchange number = upsert exchange (λ _. number)

-- `__insert_notification_events`
unfoldable pub insert_notification_events : List Notice → List Notification → List Notification
insert_notification_events [] ns = ns
insert_notification_events (e ∷ es) ns = insert_notification_events es (
    ns
    ++ record { issuer_address = e.issuer_address; priority = 0; code = e.code; metainfo = e } ∷ [])

-- The loop over the new blocks. `lot` is `INDEXER_BLOCK_LOT_MAX_SIZE`.
unfoldable pub sync_blocks : ℕ → ℕ → Context → Address → ℕ → State → Loop State
unfolding sync_all
sync_blocks fuel lot x exchange from_block s =
    let step = λ (m n : ℕ). sync_all x exchange (m + 1) n in
    let to_block = from_block + lot in
    let many = sync_lots step lot x.chain.latest_block fuel from_block to_block s in
    if ltb to_block x.chain.latest_block
    then many
    else ending (step from_block x.chain.latest_block s)

-- What is committed for an exchange: the block number and the notifications too.
unfoldable pub commit : Chain → Address → Database → State → Database
unfolding set_block_number insert_notification_events
commit c exchange db s = record db {
  table = s.table;
  block_numbers = set_block_number exchange c.latest_block db.block_numbers;
  notifications = insert_notification_events s.notification_events db.notifications;
}

abbrev pub context : Services → Database → Context
context v db = record {
  chain = v.chain;
  codec = v.codec;
  registry = db.registry;
  tokens = db.tokens;
}

-- How a run ends: all the exchanges are done, or it returns at one that is up to date, or an
-- exception leaves it. What was committed before stays.
pub data Ending : Type 0 where
  completed returned raised out_of_fuel : Ending

-- The loop over the exchanges.
unfoldable pub sync_exchanges : ℕ → ℕ → Services → List Address → Database → Database × Ending
unfolding block_number sync_blocks commit
sync_exchanges fuel lot v [] db = (db, Ending.completed)
sync_exchanges fuel lot v (k ∷ ks) db =
    let s : State = record { table = db.table; notification_events = [] } in
    let from_block = block_number db.block_numbers k in
    elim (leb v.chain.latest_block from_block) [
      | true ↦ (db, Ending.returned)
      | false ↦ elim (sync_blocks fuel lot (context v db) k from_block s) [
        | Loop.out_of_fuel ↦ (db, Ending.out_of_fuel)
        | Loop.raised ↦ (db, Ending.raised)
        | Loop.ended s' ↦ sync_exchanges fuel lot v ks (commit v.chain k db s')
      ]
    ]

-- `sync_new_logs`
unfoldable pub sync_new_logs :
    ℕ → ℕ → Services → Processor → Database → Processor × (Database × Ending)
unfolding get_contract_list sync_exchanges
sync_new_logs fuel lot v p db =
    let (p', loaded) = get_contract_list v db p in
    let done = sync_exchanges fuel lot v p'.exchange_list db in
    (p', if loaded then done else (db, Ending.raised))
