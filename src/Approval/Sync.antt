-- ===== src/Approval/Sync.antt =====
-- `Processor.sync_new_logs` of batch/indexer_transfer_approval.py, and the contracts and the block
-- number that it keeps.
use ibet_prime.Base.{
  ℕ, ◌+◌, leb, ltb, ◌==◌, ◌&&◌, not, List, [], ◌∷◌, Option, none, some, select, map, get_or,
  if◌then◌else◌,
}
use ibet_prime.Blocks.{Loop, sync_lots, ending}
use ibet_prime.Chain.{Address, zero_address, Chain}
use ibet_prime.Tokens.{contains, Token, TokenType, Account, issued_tokens, is_succeeded}
use ibet_prime.Approval.Table.{Table}
use ibet_prime.Approval.Events.{State, Scope, sync_all}
use ibet_prime.Approval.Notify.{Notification, insert_notification_events}

pub record Database : Type 0 where
  pub tokens : List Token
  pub accounts : List Account
  pub table : Table
  pub latest_block_number : Option ℕ
  pub notifications : List Notification

-- An entry of `self.token_list` and `self.token_type_map`.
pub record Loaded : Type 0 where
  pub address : Address
  pub token_type : Option TokenType

-- `d[address] = …` on a dictionary in the order of insertion.
abbrev pub put : Loaded → List Loaded → List Loaded
put l [] = l ∷ []
put l (m ∷ ms) = if m.address == l.address then l ∷ ms else m ∷ put l ms

put_all : List Token → List Loaded → List Loaded
put_all [] ls = ls
put_all (t ∷ ts) ls =
    put_all ts (put (record { address = t.token_address; token_type = t.type }) ls)

-- The tokens that are issued or loaded, and not both, are loaded anew.
unfoldable pub load_tokens : Database → List Loaded → List Loaded
unfolding put_all
load_tokens db loaded =
    let issued = map (λ (t : Token). t.token_address) (issued_tokens db.accounts db.tokens) in
    let held = map (λ (l : Loaded). l.address) loaded in
    let required =
      λ (a : Address). if contains a issued then not (contains a held) else contains a held in
    put_all
      (select (λ (t : Token). is_succeeded t.token_status && required t.token_address) db.tokens)
      loaded

exchange_of : Chain → Loaded → Address
exchange_of c l = elim l.token_type [ some _ ↦ c.tradable_exchange l.address | none ↦ zero_address ]

-- The exchanges of the loaded tokens, each once. Python's `set` gives them in no fixed order; here the
-- last mention counts.
unfoldable pub exchanges : Chain → List Loaded → List Address
unfolding exchange_of
exchanges c [] = []
exchanges c (l ∷ ls) =
    let rest = exchanges c ls in
    let a = exchange_of c l in
    if a == zero_address then rest else if contains a rest then rest else a ∷ rest

-- `__get_contract_list`
unfoldable pub contract_list : Chain → List Loaded → Scope
unfolding exchanges
contract_list c loaded = record {
  token_list = map (λ (l : Loaded). l.address) loaded;
  exchange_list = exchanges c loaded;
}

-- `__get_idx_transfer_approval_block_number`
unfoldable pub block_number : Database → ℕ
block_number db = get_or db.latest_block_number 0

-- The loop over the new blocks. `lot` is `INDEXER_BLOCK_LOT_MAX_SIZE`.
unfoldable pub sync_blocks : ℕ → ℕ → Chain → Scope → ℕ → State → Loop State
sync_blocks fuel lot c k from_block s =
    let step = λ (m n : ℕ). sync_all c k (m + 1) n in
    let to_block = from_block + lot in
    let many = sync_lots step lot c.latest_block fuel from_block to_block s in
    if ltb to_block c.latest_block then many else ending (step from_block c.latest_block s)

-- What is committed once the loop has ended: the block number and the notifications too.
unfoldable pub commit : Chain → Database → Loop State → Loop Database
commit c db Loop.out_of_fuel = Loop.out_of_fuel
commit c db Loop.raised = Loop.raised
commit c db (Loop.ended s) = Loop.ended (record db {
  table = s.table;
  latest_block_number = some c.latest_block;
  notifications =
      insert_notification_events c db.tokens s.table.rows s.notification_events db.notifications;
})

-- `sync_new_logs`: the loaded tokens, which stay in memory, and the committed tables; `raised` is an
-- exception, after which nothing is committed.
unfoldable pub sync_new_logs : ℕ → ℕ → Chain → List Loaded → Database → List Loaded × Loop Database
sync_new_logs fuel lot c loaded db =
    let loaded' = load_tokens db loaded in
    let s : State = record { table = db.table; notification_events = [] } in
    (
      loaded',
      if leb c.latest_block (block_number db)
          then Loop.ended db
          else commit c db (sync_blocks fuel lot c (contract_list c loaded') (block_number db) s),
    )
