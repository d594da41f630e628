-- ===== src/IssueRedeem/Index.antt =====
-- `__sync_issue`, `__sync_redeem` and `__insert_index` of batch/indexer_issue_redeem.py, and the table
-- `idx_issue_redeem`. The column `id` counts the rows up, and nothing here reads it. `none` is a
-- `KeyError`.
use ibet_prime.Base.{ℕ, ltb, List, [], ◌∷◌, ◌++◌, Option, some, if◌then◌else◌, ◌>>=◌}
use ibet_prime.Chain.{Address, maxsize, EventName, ArgName, Event, Chain}
use ibet_prime.Logs.{for_each}

pub data IdxIssueRedeemEventType : Type 0 where
  issue redeem : IdxIssueRedeemEventType

pub record IdxIssueRedeem : Type 0 where
  pub event_type : IdxIssueRedeemEventType
  pub transaction_hash : ℕ
  pub token_address : Address
  pub locked_address : Address
  pub target_address : Address
  pub amount : ℕ
  pub block_timestamp : ℕ

-- `__insert_index`
unfoldable pub insert_index : IdxIssueRedeem → List IdxIssueRedeem → List IdxIssueRedeem
insert_index row t = t ++ row ∷ []

-- The body of the loop over the events. An amount that does not fit is passed over.
unfoldable pub sync_event :
    Chain
    → IdxIssueRedeemEventType
    → Address
    → Event
    → List IdxIssueRedeem
    → Option (List IdxIssueRedeem)
sync_event c event_type token e t = do
  amount ← e.args ArgName.amount
  let inserted = e.args ArgName.lock_address >>= λ locked.
      e.args ArgName.target_address >>= λ target. some (
        insert_index
          (record {
            event_type = event_type;
            transaction_hash = e.transaction_hash;
            token_address = token;
            locked_address = locked;
            target_address = target;
            amount = amount;
            block_timestamp = c.block_timestamp e.block_number;
          })
          t)
  if ltb maxsize amount then some t else inserted

-- `for token in self.token_list.values(): …`, for the events of one name.
unfoldable pub sync_tokens_events :
    Chain
    → IdxIssueRedeemEventType
    → EventName
    → ℕ
    → ℕ
    → List Address
    → List IdxIssueRedeem
    → Option (List IdxIssueRedeem)
unfolding for_each
sync_tokens_events c event_type name block_from block_to [] t = some t
sync_tokens_events c event_type name block_from block_to (k ∷ ks) t = do
  t' ← for_each (sync_event c event_type k) (c.get_event_logs k name [] block_from block_to) t
  sync_tokens_events c event_type name block_from block_to ks t'

unfoldable pub sync_issue :
    Chain → List Address → ℕ → ℕ → List IdxIssueRedeem → Option (List IdxIssueRedeem)
sync_issue c ks m n t = sync_tokens_events c IdxIssueRedeemEventType.issue EventName.issue m n ks t

unfoldable pub sync_redeem :
    Chain → List Address → ℕ → ℕ → List IdxIssueRedeem → Option (List IdxIssueRedeem)
sync_redeem c ks m n t =
    sync_tokens_events c IdxIssueRedeemEventType.redeem EventName.redeem m n ks t

-- `__sync_all`
unfoldable pub sync_issue_redeem :
    Chain → List Address → ℕ → ℕ → List IdxIssueRedeem → Option (List IdxIssueRedeem)
sync_issue_redeem c ks block_from block_to t = do
  t' ← sync_issue c ks block_from block_to t
  sync_redeem c ks block_from block_to t'
