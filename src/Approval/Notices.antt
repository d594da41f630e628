-- ===== src/Approval/Notices.antt =====
-- Who is notified of which event.
use ibet_prime.Base.{
  ℕ, ◌≡◌, ◌≤◌, Bool, not, List, [], ◌∷◌, ◌++◌, some, arith, ◌==◌, first, if◌then◌else◌,
}
use ibet_prime.Chain.{Chain}
use ibet_prime.Tokens.{Token}
use ibet_prime.Approval.Table.{TransferApproval, find}
use ibet_prime.Approval.Events.{Notice}
use ibet_prime.Approval.Notify.{Notification, register_notification}

-- Whether the issuer is told: approvals (2) of its own, and the other events of others.
abbrev pub is_told : Bool → ℕ → Bool
is_told by_issuer code = if code == 2 then by_issuer else not by_issuer

-- The notification of a notice about a row and its token.
abbrev pub about : Token → TransferApproval → Notice → Notification
about token r n = record {
  issuer_address = token.issuer_address;
  code = n.notice_code;
  token_address = n.token_address;
  token_type = token.type;
  id = r.id;
}

-- For one of the four notice codes, and an application and a token that are known, the issuer gets
-- one notification exactly if the event is an approval that it sent itself, or another event that
-- it did not send.
pub register_notification_known :
    (c : Chain) (tokens : List Token) (rows : List TransferApproval) (n : Notice)
    (ns : List Notification) (r : TransferApproval) (token : Token)
    → n.notice_code ≤ 3
    → find n.token_address n.exchange_address n.application_id rows ≡ some r
    → first (λ (t : Token). t.token_address == n.token_address) tokens ≡ some token
    → register_notification c tokens rows n ns ≡ (
        if is_told (token.issuer_address == c.sender n.transaction_hash) n.notice_code
        then ns ++ about token r n ∷ []
        else ns)
unfolding register_notification
register_notification_known c tokens rows n ns r token code found known =
    rw (found, register_notification) (rw known (ground arith))
