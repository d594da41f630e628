-- ===== src/Holders/Collect.antt =====
-- `Processor.collect` of batch/indexer_token_holders.py, with what it loads and how it ends.
use ibet_prime.Base.{
  ℕ, ◌+◌, ◌-◌, ltb, leb, ◌==◌, ◌&&◌, Bool, true, false, List, [], ◌∷◌, Option, none, some, first,
  select, if◌then◌else◌, ◌>>=◌,
}
use ibet_prime.Base.Sort.{sort_by}
use ibet_prime.Blocks.{Loop, sync_lots, ending}
use ibet_prime.Chain.{Address, Chain}
use ibet_prime.Tokens.{Token, is_succeeded}
use ibet_prime.Holders.Book.{BalanceBook, store}
use ibet_prime.Holders.Events.{Contracts, process_events}
use ibet_prime.Holders.Table.{
  TokenHolderBatchStatus, TokenHoldersList, TokenHolder, save_holders, delete_non_holders,
  set_status,
}

pub record Database : Type 0 where
  pub tokens : List Token
  pub lists : List TokenHoldersList
  pub holders : List TokenHolder

abbrev pub is_pending : TokenHoldersList → Bool
is_pending l = elim l.batch_status [ TokenHolderBatchStatus.pending ↦ true | _ ↦ false ]

abbrev pub is_done : TokenHoldersList → Bool
is_done l = elim l.batch_status [ TokenHolderBatchStatus.done ↦ true | _ ↦ false ]

-- `__load_target`
unfoldable pub load_target : Database → Option TokenHoldersList
load_target db = first is_pending db.lists

-- What `__load_token_info` sets: the owner and the contracts.
pub record TokenInfo : Type 0 where
  pub token_owner_address : Address
  pub contracts : Contracts

-- `__load_token_info`; `none` is `False`: no issued token, or a type that is neither bond nor share.
unfoldable pub load_token_info : Chain → Address → Database → Option TokenInfo
load_token_info c address db = do
  issued_token ←
      first (λ (t : Token). t.token_address == address && is_succeeded t.token_status) db.tokens
  token_type ← issued_token.type
  some (record {
    token_owner_address = issued_token.issuer_address;
    contracts = record { token = address; exchange = c.tradable_exchange address };
  })

-- The pages of a finished snapshot.
unfoldable pub load_pages : List TokenHolder → BalanceBook → BalanceBook
load_pages [] b = b
load_pages (h ∷ hs) b = load_pages hs (store h.account_address h.hold_balance h.locked_balance b)

-- `__load_checkpoint`: the book and the first block to read.
unfoldable pub load_checkpoint : Address → ℕ → Database → BalanceBook × ℕ
unfolding load_pages
load_checkpoint address block_to db =
    elim (first (λ _. true)
      (sort_by (λ (l m : TokenHoldersList). leb m.block_number l.block_number)
        (select (λ l. l.token_address == address && ltb l.block_number block_to && is_done l)
          db.lists))) [
            | none ↦ ([], 0)
            | some l ↦ (
              load_pages (select (λ (h : TokenHolder). h.holder_list_id == l.id) db.holders) [],
              l.block_number + 1,
            )
          ]

-- The book and the rows of `token_holder`.
abbrev pub State : Type 0
State = BalanceBook × List TokenHolder

-- `__process_all`
unfoldable pub process_all : Chain → TokenInfo → ℕ → ℕ → ℕ → State → Option State
process_all c info list block_from block_to (b, hs) = do
  b' ← process_events c info.contracts block_from block_to b
  some (b', save_holders list info.token_owner_address b' hs)

-- `__update_status`, which also resets the processor.
unfoldable pub update_status : ℕ → TokenHolderBatchStatus → Database → Database
unfolding set_status delete_non_holders
update_status list TokenHolderBatchStatus.done db = record db {
  holders = delete_non_holders list db.holders;
  lists = set_status list TokenHolderBatchStatus.done db.lists;
}
update_status list status db = record db { lists = set_status list status db.lists }

pub data Outcome : Type 0 where
  -- No snapshot is pending; the token is not listed; the snapshot is done; an exception.
  nothing_pending not_listed collected raised out_of_fuel : Outcome

-- The loop over the blocks of a snapshot. `lot` is `INDEXER_BLOCK_LOT_MAX_SIZE`.
unfoldable pub collect_blocks :
    ℕ → ℕ → Chain → TokenInfo → TokenHoldersList → ℕ → State → Loop State
collect_blocks fuel lot c info target from_block s =
    let to_block = lot - 1 + from_block in
    let many =
      sync_lots (process_all c info target.id) lot target.block_number fuel from_block to_block s in
    let one = ending (process_all c info target.id from_block target.block_number s) in
    if ltb to_block target.block_number then many else one

-- The end of `collect`: the status by how the loop ended. An exception rolls the session back first.
unfoldable pub finish : Database → ℕ → Loop State → Database × Outcome
finish db list Loop.out_of_fuel = (db, out_of_fuel)
finish db list Loop.raised = (update_status list TokenHolderBatchStatus.failed db, raised)
finish db list (Loop.ended (b, hs)) =
    (update_status list TokenHolderBatchStatus.done (record db { holders = hs }), collected)

-- `collect`, from the committed tables to the committed tables.
unfoldable pub collect : ℕ → ℕ → Chain → Database → Database × Outcome
collect fuel lot c db = elim (load_target db) [
  | none ↦ (db, nothing_pending)
  | some target ↦ elim (load_token_info c target.token_address db) [
    | none ↦ (update_status target.id TokenHolderBatchStatus.failed db, not_listed)
    | some info ↦
        let (b, from_block) = load_checkpoint target.token_address target.block_number db in
        finish db target.id (collect_blocks fuel lot c info target from_block (b, db.holders))
  ]
]
