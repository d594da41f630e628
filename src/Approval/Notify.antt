-- ===== src/Approval/Notify.antt =====
-- `__register_notification` and its callers of batch/indexer_transfer_approval.py: who is told of
-- which event.
use ibet_prime.Base.{
  ℕ, ◌==◌, ◌||◌, not, List, [], ◌∷◌, ◌++◌, Option, none, some, first, if◌then◌else◌,
}
use ibet_prime.Chain.{Address, Chain}
use ibet_prime.Tokens.{Token, TokenType}
use ibet_prime.Approval.Table.{TransferApproval, find}
use ibet_prime.Approval.Events.{Notice}

-- A row of `notification`: of the type TRANSFER_APPROVAL_INFO and of low priority. Its random
-- `notice_id` is left out.
pub record Notification : Type 0 where
  pub issuer_address : Address
  pub code : ℕ
  pub token_address : Address
  pub token_type : Option TokenType
  pub id : ℕ

-- `__sink_on_info_notification`
unfoldable pub sink_on_info_notification :
    Token → ℕ → Address → ℕ → List Notification → List Notification
sink_on_info_notification token code token_address id ns =
    ns
    ++ record {
      issuer_address = token.issuer_address;
      code = code;
      token_address = token_address;
      token_type = token.type;
      id = id;
    }
      ∷ []

-- `__register_notification`: an application, cancellation or finish by another than the issuer, or an
-- approval by the issuer.
unfoldable pub register_notification :
    Chain → List Token → List TransferApproval → Notice → List Notification → List Notification
unfolding sink_on_info_notification
register_notification c tokens rows n ns =
    elim (find n.token_address n.exchange_address n.application_id rows) [
      | none ↦ ns
      | some r ↦ elim (first (λ (t : Token). t.token_address == n.token_address) tokens) [
        | none ↦ ns
        | some token ↦
            let noted = sink_on_info_notification token n.notice_code n.token_address r.id ns in
            if not (token.issuer_address == c.sender n.transaction_hash)
            then if n.notice_code == 0
              then noted
              else if n.notice_code == 1 || n.notice_code == 3
              then noted
              else ns
            else if n.notice_code == 2
            then noted
            else ns
      ]
    ]

-- `__insert_notification_events`
unfoldable pub insert_notification_events :
    Chain → List Token → List TransferApproval → List Notice → List Notification → List Notification
unfolding register_notification
insert_notification_events c tokens rows [] ns = ns
insert_notification_events c tokens rows (n ∷ rest) ns =
    insert_notification_events c tokens rows rest (register_notification c tokens rows n ns)
