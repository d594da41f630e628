-- ===== src/Ledger/Process.antt =====
-- `Processor.process` of batch/processor_create_ledger.py.
use ibet_prime.Base.{
  ℕ, zero, suc, ◌+◌, ltb, ◌==◌, Bool, true, false, List, [], ◌∷◌, Option, none, some, select,
  if◌then◌else◌,
}
use ibet_prime.Chain.{Address}
use ibet_prime.Tokens.{Token, TokenType}
use ibet_prime.Ledger.Tables.{LedgerCreationStatus, LedgerCreationRequest, Office}
use ibet_prime.Ledger.Request.{LedgerTables}
use ibet_prime.Ledger.Finalize.{sync_rows, finalize_ledger}

-- `timedelta(hours=6)`
abbrev pub six_hours : ℕ
six_hours = 21_600_000_000

-- `token_contract`, the variable that one pass of the loop leaves to the next: its class and address.
abbrev pub TokenContract : Type 0
TokenContract = TokenType × Address

-- The assignment to it. A request of another type leaves the last contract, or raises if there is none.
abbrev pub contract_of : LedgerCreationRequest → Option TokenContract → Option TokenContract
contract_of req last = elim req.token_type [
  | none ↦ last
  | some type ↦ some (type, req.token_address)
]

-- `face_value_currency`, of a bond. The first call goes by the request's type, the second by the
-- contract's; a request of no known type has no currency in the first.
abbrev pub currency_of : Office → Option TokenType → Address → Option ℕ
currency_of o (some TokenType.ibet_straight_bond) token = some (o.face_value_currency token)
currency_of o _ token = none

abbrev pub is_processing : LedgerCreationRequest → Bool
is_processing r = elim r.status [
  | LedgerCreationStatus.processing ↦ true
  | LedgerCreationStatus.completed ↦ false
]

-- `req.status = COMPLETED` and the `merge` that writes it.
unfoldable pub set_completed : ℕ → List LedgerCreationRequest → List LedgerCreationRequest
set_completed request_id [] = []
set_completed request_id (r ∷ rs) =
    (if r.request_id == request_id then record r { status = LedgerCreationStatus.completed } else r)
    ∷ set_completed request_id rs

-- The body of the loop, for the contract that it has chosen.
unfoldable pub process_request :
    Office → List Token → TokenContract → LedgerCreationRequest → LedgerTables → LedgerTables
unfolding sync_rows finalize_ledger set_completed
process_request o tokens (type, address) req d =
    let (rows, initial_unset_count, final_set_count) =
      sync_rows d.personal_info req.request_id (o.issuer_address address) d.request_data in
    let synced = record d { request_data = rows } in
    let finalize = λ (currency : Option ℕ) (unregistered : Bool).
      let done = finalize_ledger o tokens req.request_id address currency unregistered synced in
      record done { requests = set_completed req.request_id done.requests } in
    if initial_unset_count == final_set_count
    then finalize (currency_of o req.token_type address) false
    else if ltb (req.created + six_hours) o.now
    then finalize (currency_of o (some type) address) true
    else synced

-- The loop over the requests, each committed. The first argument is the number of requests that are
-- begun before `is_shutdown` is set. The result tells whether an exception ended the loop.
unfoldable pub process_requests :
    ℕ
    → Office
    → List Token
    → Option TokenContract
    → List LedgerCreationRequest
    → LedgerTables
    → LedgerTables × Bool
unfolding process_request
process_requests quota o tokens last [] d = (d, false)
process_requests zero o tokens last (req ∷ reqs) d = (d, false)
process_requests (suc quota) o tokens last (req ∷ reqs) d = elim (contract_of req last) [
  | none ↦ (d, true)
  | some contract ↦
      process_requests quota o tokens (some contract) reqs (process_request o tokens contract req d)
]

unfoldable pub process_ledgers : ℕ → Office → List Token → LedgerTables → LedgerTables × Bool
unfolding process_requests
process_ledgers quota o tokens d =
    process_requests quota o tokens none (select is_processing d.requests) d
