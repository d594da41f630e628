-- ===== src/IssueRedeem/Sync.antt =====
-- `Processor.sync_new_logs` of batch/indexer_issue_redeem.py, and the tokens and the block number that
-- it keeps.
use ibet_prime.Base.{
  ℕ, ◌+◌, leb, ltb, ◌&&◌, ◌++◌, not, List, [], ◌∷◌, Option, some, select, map, get_or,
  if◌then◌else◌,
}
use ibet_prime.Blocks.{Loop, sync_lots, ending}
use ibet_prime.Chain.{Address, Chain}
use ibet_prime.Tokens.{contains, Token, Account, issued_tokens, is_succeeded}
use ibet_prime.IssueRedeem.Index.{IdxIssueRedeem, sync_issue_redeem}

pub record Database : Type 0 where
  pub tokens : List Token
  pub accounts : List Account
  pub index : List IdxIssueRedeem
  pub latest_block_number : Option ℕ

-- `self.token_list[address] = …`: the keys, in the order of insertion.
unfoldable pub put_tokens : List Token → List Address → List Address
put_tokens [] ks = ks
put_tokens (t ∷ ts) ks =
    put_tokens ts (if contains t.token_address ks then ks else ks ++ t.token_address ∷ [])

-- `__get_token_list`: the tokens that are issued or loaded, and not both, are loaded anew.
unfoldable pub token_list : Database → List Address → List Address
token_list db loaded =
    let issued = map (λ (t : Token). t.token_address) (issued_tokens db.accounts db.tokens) in
    let required =
      λ (a : Address). if contains a issued then not (contains a loaded) else contains a loaded in
    put_tokens
      (select (λ (t : Token). is_succeeded t.token_status && required t.token_address) db.tokens)
      loaded

-- `__get_idx_issue_redeem_block_number`
unfoldable pub synced_block_number : Database → ℕ
synced_block_number db = get_or db.latest_block_number 0

-- The loop over the new blocks. `lot` is `INDEXER_BLOCK_LOT_MAX_SIZE`.
unfoldable pub index_blocks :
    ℕ → ℕ → Chain → List Address → ℕ → List IdxIssueRedeem → Loop (List IdxIssueRedeem)
index_blocks fuel lot c ks from_block t =
    let step = λ (m n : ℕ). sync_issue_redeem c ks (m + 1) n in
    let to_block = from_block + lot in
    let many = sync_lots step lot c.latest_block fuel from_block to_block t in
    if ltb to_block c.latest_block then many else ending (step from_block c.latest_block t)

-- What is committed once the loop has ended.
unfoldable pub commit_index : Chain → Database → Loop (List IdxIssueRedeem) → Loop Database
commit_index c db Loop.out_of_fuel = Loop.out_of_fuel
commit_index c db Loop.raised = Loop.raised
commit_index c db (Loop.ended t) =
    Loop.ended (record db { index = t; latest_block_number = some c.latest_block })

-- `sync_new_logs`: the loaded tokens, which stay in memory, and the committed tables; `raised` is an
-- exception, after which nothing is committed.
unfoldable pub sync_index : ℕ → ℕ → Chain → List Address → Database → List Address × Loop Database
sync_index fuel lot c loaded db =
    let loaded' = token_list db loaded in
    (
      loaded',
      if leb c.latest_block (synced_block_number db)
          then Loop.ended db
          else commit_index c db
              (index_blocks fuel lot c loaded' (synced_block_number db) db.index),
    )
