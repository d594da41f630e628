-- ===== src/IssueRedeem/Tests.antt =====
-- Runs of the issue and redeem indexer on a small chain.
use ibet_prime.Base.{
  ℕ, ◌+◌, ◌-◌, ◌*◌, ◌<◌, ◌≡◌, refl, false, List, [], ◌∷◌, ◌++◌, Option, none, some, arith, leb,
  ◌==◌, ◌&&◌, if◌then◌else◌, All, inl, inr, Bool-cases, map,
}
use ibet_prime.Blocks.{Loop, sync_lots}
use ibet_prime.Chain.{Chain, Event, EventName, ArgName, Instant, maxsize}
use ibet_prime.Logs.{for_each}
use ibet_prime.Tokens.{Token, TokenType, TokenStatus, issued_tokens, join_accounts}
use ibet_prime.IssueRedeem.Index.{
  IdxIssueRedeemEventType, IdxIssueRedeem, insert_index, sync_event, sync_tokens_events, sync_issue,
  sync_redeem, sync_issue_redeem,
}
use ibet_prime.IssueRedeem.Sync.{
  Database, synced_block_number, put_tokens, token_list, index_blocks, sync_index,
}
use ibet_prime.IssueRedeem.Rows.{rows_of, indexed}
use ibet_prime.IssueRedeem.Passes.{IsOnce, name_of}
use ibet_prime.IssueRedeem.Returns.{IsNamed}
use ibet_prime.IssueRedeem.Listed.{token_list-IsOnce}
use ibet_prime.IssueRedeem.Complete.{IsContinuous, IsComplete, sync_index_complete}

abbrev args : ℕ → ArgName → Option ℕ
args amount key = elim key [
  | ArgName.amount ↦ some amount
  | ArgName.lock_address ↦ some 7
  | ArgName.target_address ↦ some 2
  | _ ↦ none
]

abbrev event : EventName → ℕ → ℕ → Event
event name amount block = record {
  event = name;
  args = args amount;
  transaction_hash = 100 + block;
  block_number = block;
  log_index = 0;
}

-- Token 10 issues 4 in block 1, then more than fits in block 3, and redeems 3 in block 2.
abbrev issued : Event
issued = event EventName.issue 4 1

abbrev oversized : Event
oversized = event EventName.issue 9_223_372_036_854_775_808 3

abbrev redeemed : Event
redeemed = event EventName.redeem 3 2

abbrev logs : EventName → List Event
logs EventName.issue = issued ∷ oversized ∷ []
logs EventName.redeem = redeemed ∷ []
logs _ = []

abbrev within : ℕ → ℕ → List Event → List Event
within m n [] = []
within m n (e ∷ es) =
    if leb m e.block_number && leb e.block_number n then e ∷ within m n es else within m n es

abbrev chain : Chain
chain = record {
  latest_block = 3;
  get_event_logs =
      λ contract name filters m n. if contract == 10 then within m n (logs name) else [];
  has_code = λ account. false;
  tradable_exchange = λ token. 20;
  block_timestamp = λ block. 10 * block;
  input_hex = λ hash. [];
  sender = λ hash. 2;
  json_loads = λ digits. none;
  instant_of = λ text. Instant.overflow_error;
}

abbrev token : Token
token = record {
  id = 1;
  type = some TokenType.ibet_share;
  issuer_address = 1;
  token_address = 10;
  token_status = some TokenStatus.succeeded;
}

abbrev database : Database
database = record {
  tokens = token ∷ [];
  accounts = record { issuer_address = 1; is_deleted = some false } ∷ [];
  index = [];
  latest_block_number = none;
}

chain-IsContinuous : IsContinuous chain 10 EventName.issue
chain-IsContinuous m b n f g = ground arith

named : (name : EventName) (amount block : ℕ) → IsNamed (event name amount block)
named name amount block = (amount, 7, 2, refl, refl, refl)

All-within : (m n : ℕ) (es : List Event) → All IsNamed es → All IsNamed (within m n es)
All-within m n [] h = tt
All-within m n (e ∷ es) h = ground (arith, All-within m n es h.1)

logs-All : (y : IdxIssueRedeemEventType) → All IsNamed (logs (name_of y))
logs-All IdxIssueRedeemEventType.issue =
    (named EventName.issue 4 1, (named EventName.issue 9_223_372_036_854_775_808 3, tt))
logs-All IdxIssueRedeemEventType.redeem = (named EventName.redeem 3 2, tt)

chain-IsComplete : IsComplete chain
chain-IsComplete k y m n = elim (Bool-cases (k == 10)) [
  | inl here ↦ rw here (All-within m n (logs (name_of y)) (logs-All y))
  | inr elsewhere ↦ rw elsewhere tt
]

listed : token_list database [] ≡ 10 ∷ []
unfolding token_list put_tokens issued_tokens
listed = refl

once : IsOnce 10 (token_list database [])
once = rw listed (inl (refl, tt))

behind : synced_block_number database < chain.latest_block
unfolding synced_block_number
behind = omega arith

fuelled : chain.latest_block - synced_block_number database < 4
unfolding synced_block_number
fuelled = omega arith

sync_index_complete_example :
    (db' : Database) × ((sync_index 4 1 chain [] database).1 ≡ Loop.ended db')
    × (synced_block_number db' ≡ chain.latest_block)
    × (rows_of IdxIssueRedeemEventType.issue 10 db'.index
        ≡ rows_of IdxIssueRedeemEventType.issue 10 database.index
          ++ indexed chain IdxIssueRedeemEventType.issue 10
              (chain.get_event_logs 10 EventName.issue [] (synced_block_number database + 1) 3))
sync_index_complete_example =
    sync_index_complete 4 1 chain [] database IdxIssueRedeemEventType.issue 10 (omega arith) behind
      fuelled chain-IsContinuous chain-IsComplete once

-- Only the issue that fits and the redemption are indexed.
indexes :
    map
      (λ (r : IdxIssueRedeem). r.amount)
      (elim (index_blocks 4 1 chain (10 ∷ []) 0 []) [ Loop.ended t ↦ t | _ ↦ [] ])
    ≡ 4 ∷ 3 ∷ []
unfolding index_blocks sync_lots sync_issue_redeem sync_issue sync_redeem sync_tokens_events
    for_each sync_event insert_index maxsize
indexes = refl

known :
    map (λ (t : Token). t.token_address) (issued_tokens database.accounts database.tokens) ≡ 10 ∷ []
unfolding issued_tokens join_accounts
known = refl

token_list-IsOnce_example : IsOnce 10 (token_list database [])
token_list-IsOnce_example = token_list-IsOnce database [] 10 (λ h. cc) (rw known refl)
