-- ===== src/Ledger/Finishes.antt =====
-- A run of the ledger processor completes what is overdue.
use ibet_prime.Base.{
  ℕ, zero, suc, ◌+◌, ◌≡◌, refl, sym, ap, subst, ◌∙◌, ◌≢◌, ◌≤◌, ◌<◌, ◌⊎◌, inl, inr, true, false, ltb,
  ◌==◌, List, [], ◌∷◌, Option, none, some, arith, select, All, All-mono, Option-cases, Bool-cases,
  sum_of,
}
use ibet_prime.Tokens.{Token, TokenType}
use ibet_prime.Ledger.Tables.{LedgerCreationStatus, LedgerCreationRequest, Office}
use ibet_prime.Ledger.Request.{LedgerTables}
use ibet_prime.Ledger.Process.{
  six_hours, TokenContract, contract_of, is_processing, set_completed, process_request,
  process_requests, process_ledgers,
}
use ibet_prime.Ledger.Completes.{none_of, process_request-completes}

abbrev pub IsCompleted : LedgerCreationRequest → Type 0
IsCompleted r = r.status ≡ LedgerCreationStatus.completed

-- The request is completed, or among those to come.
abbrev IsHandled : List LedgerCreationRequest → LedgerCreationRequest → Type 0
IsHandled reqs r =
    IsCompleted r
    ⊎ (none_of (λ (q : LedgerCreationRequest). q.request_id == r.request_id) reqs ≡ false)

-- A request of a known type, made more than six hours ago.
abbrev pub IsOverdue : Office → LedgerCreationRequest → Type 0
IsOverdue o r = (r.token_type ≢ none) × (r.created + six_hours < o.now)

set_completed-IsHandled :
    (req : LedgerCreationRequest) (reqs rs : List LedgerCreationRequest)
    → All (IsHandled (req ∷ reqs)) rs
    → All (IsHandled reqs) (set_completed req.request_id rs)
unfolding set_completed
set_completed-IsHandled req reqs [] h = tt
set_completed-IsHandled req reqs (r ∷ rs) (h, hs) = (
  elim h [ inl done ↦ inl (ground arith) | inr listed ↦ ground (arith, listed) ],
  set_completed-IsHandled req reqs rs hs,
)

process_requests_next :
    (quota : ℕ) (o : Office) (tokens : List Token) (last : Option TokenContract)
    (req : LedgerCreationRequest) (reqs : List LedgerCreationRequest) (d : LedgerTables)
    (k : TokenContract)
    → contract_of req last ≡ some k
    → process_requests (suc quota) o tokens last (req ∷ reqs) d
      ≡ process_requests quota o tokens (some k) reqs (process_request o tokens k req d)
unfolding process_requests
process_requests_next quota o tokens last req reqs d k e = rw (e, process_requests) refl

process_requests_finish :
    (quota : ℕ) (o : Office) (tokens : List Token) (last : Option TokenContract)
    (reqs : List LedgerCreationRequest) (d : LedgerTables)
    → sum_of (λ (r : LedgerCreationRequest). 1) reqs ≤ quota
    → All (IsOverdue o) reqs
    → All (IsHandled reqs) d.requests
    → let (d', raised) = process_requests quota o tokens last reqs d in
      (raised ≡ false) × All IsCompleted d'.requests
unfolding process_requests
process_requests_finish quota o tokens last [] d q w h = (
  refl,
  All-mono (IsHandled []) IsCompleted d.requests (λ r k. elim k [ inl done ↦ done | inr n ↦ cc ]) h,
)
process_requests_finish zero o tokens last (req ∷ reqs) d q w h = absurd (omega arith)
process_requests_finish (suc quota) o tokens last (req ∷ reqs) d q ((known, due), w) h =
    elim (Option-cases req.token_type) [
      | inl n ↦ absurd (known n)
      | inr (type, e) ↦
          let contract : TokenContract = (type, req.token_address) in
          let d' = process_request o tokens contract req d in
          let late : ltb (req.created + six_hours) o.now ≡ true = ground arith in
          let set : d'.requests ≡ set_completed req.request_id d.requests =
            process_request-completes o tokens type req.token_address req d
            ∙ rw late (ground arith) in
          let chosen : contract_of req last ≡ some contract =
            ap
              (λ (t : Option TokenType). elim t [
                | none ↦ last
                | some y ↦ some (y, req.token_address)
              ])
              e in
          rw (process_requests_next quota o tokens last req reqs d contract chosen) (
            process_requests_finish quota o tokens (some contract) reqs d' (omega arith) w (
              subst (All (IsHandled reqs)) (sym set)
                (set_completed-IsHandled req reqs d.requests h)))
    ]

IsCompleted-status : (r : LedgerCreationRequest) → is_processing r ≡ false → IsCompleted r
IsCompleted-status r h = ground (arith, h)

IsHandled-cons :
    (r q : LedgerCreationRequest) (reqs : List LedgerCreationRequest)
    → IsHandled reqs q
    → IsHandled (r ∷ reqs) q
IsHandled-cons r q reqs (inl done) = inl done
IsHandled-cons r q reqs (inr listed) = inr (ground (arith, listed))

select-IsHandled : (rs : List LedgerCreationRequest) → All (IsHandled (select is_processing rs)) rs
select-IsHandled [] = tt
select-IsHandled (r ∷ rs) =
    let rest = select-IsHandled rs in
    let waiting = select is_processing rs in
    elim (Bool-cases (is_processing r)) [
      | inl waits ↦
          let chosen : select is_processing (r ∷ rs) ≡ r ∷ waiting = rw waits refl in
          subst (λ x. All (IsHandled x) (r ∷ rs)) (sym chosen)
            (
              inr (ground arith),
              All-mono (IsHandled waiting) (IsHandled (r ∷ waiting)) rs
                  (λ q. IsHandled-cons r q waiting) rest,
            )
      | inr done ↦
          let passed : select is_processing (r ∷ rs) ≡ waiting = rw done refl in
          subst (λ x. All (IsHandled x) (r ∷ rs)) (sym passed)
            (inl (IsCompleted-status r done), rest)
    ]

-- Where each request that waits is of a known type and was made more than six hours ago, a run that is
-- not shut down raises nothing and leaves every request completed, whatever personal information is
-- missing.
pub process_ledgers-IsCompleted :
    (quota : ℕ) (o : Office) (tokens : List Token) (d : LedgerTables)
    → sum_of (λ (r : LedgerCreationRequest). 1) (select is_processing d.requests) ≤ quota
    → All (IsOverdue o) (select is_processing d.requests)
    → let (d', raised) = process_ledgers quota o tokens d in
      (raised ≡ false) × All IsCompleted d'.requests
unfolding process_ledgers
process_ledgers-IsCompleted quota o tokens d q w =
    process_requests_finish quota o tokens none (select is_processing d.requests) d q w
      (select-IsHandled d.requests)
