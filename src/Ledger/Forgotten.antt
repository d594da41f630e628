-- ===== src/Ledger/Forgotten.antt =====
-- What a run of the ledger processor makes of the requests of a token without a template.
use ibet_prime.Base.{
  ℕ, zero, suc, ◌+◌, ◌≡◌, refl, ap, ◌∙◌, ◌≤◌, Bool, true, false, ltb, ◌==◌, List, [], ◌∷◌, ◌++◌,
  Option, none, some, arith, first, select, All, Option-cases, Bool-cases, inl, inr, sum_of, subst,
}
use ibet_prime.Chain.{Address}
use ibet_prime.Tokens.{Token}
use ibet_prime.Ledger.Tables.{LedgerTemplate, LedgerCreationRequest, Ledger, Office}
use ibet_prime.Ledger.Request.{LedgerTables}
use ibet_prime.Ledger.Finalize.{finalize_ledger, sync_rows}
use ibet_prime.Ledger.Process.{
  six_hours, TokenContract, contract_of, currency_of, is_processing, process_request,
  process_requests, process_ledgers,
}
use ibet_prime.Ledger.Finishes.{IsCompleted, IsOverdue, process_ledgers-IsCompleted}

-- The ledgers of a token.
abbrev pub ledgers_of : Address → LedgerTables → List Ledger
ledgers_of a d = select (λ (l : Ledger). l.token_address == a) d.ledgers

abbrev pub template_of : Address → LedgerTables → Option LedgerTemplate
template_of a d = first (λ (t : LedgerTemplate). t.token_address == a) d.templates

-- The token has no template, and its ledgers are those of the first tables.
record IsBare (a : Address) (d d' : LedgerTables) : Type 0 where
  same_templates : d'.templates ≡ d.templates
  same_ledgers : ledgers_of a d' ≡ ledgers_of a d

select-append_other :
    {A : Type 0} (p : A → Bool) (xs : List A) (y : A)
    → p y ≡ false
    → select p (xs ++ y ∷ []) ≡ select p xs
select-append_other p [] y h = rw h
select-append_other p (x ∷ xs) y h = ground (arith, select-append_other p xs y h)

finalize_ledger-IsBare :
    (o : Office) (tokens : List Token) (id : ℕ) (k a : Address) (currency : Option ℕ) (u : Bool)
    (d : LedgerTables)
    → template_of a d ≡ none
    → IsBare a d (finalize_ledger o tokens id k currency u d)
unfolding finalize_ledger
finalize_ledger-IsBare o tokens id k a currency u d bare =
    elim (Option-cases (first (λ (t : Token). t.token_address == k) tokens)) [
      | inl unknown ↦ rw (unknown, finalize_ledger) same
      | inr (token, found) ↦ elim (Option-cases token.type) [
        | inl untyped ↦ rw (found, finalize_ledger) (rw untyped same)
        | inr (type, typed) ↦ elim (Option-cases (template_of k d)) [
          | inl gone ↦ rw (found, finalize_ledger) (rw typed (rw gone same))
          | inr (t, there) ↦
              let other : (k == a) ≡ false = elim (Bool-cases (k == a)) [
                | inr apart ↦ apart
                | inl together ↦
                    let eq : k ≡ a = ground arith in
                    let clash = subst (λ b. template_of b d ≡ some t) eq there in cc
              ] in
              rw (found, finalize_ledger)
                (rw typed (
                  rw there (record {
                    same_templates = refl;
                    same_ledgers =
                        select-append_other (λ (l : Ledger). l.token_address == a) d.ledgers _
                          other;
                  })))
        ]
      ]
    ]
  where
    same : IsBare a d d
    same = record { same_templates = refl; same_ledgers = refl }

process_request-IsBare :
    (o : Office) (tokens : List Token) (k : TokenContract) (a : Address)
    (req : LedgerCreationRequest) (d : LedgerTables)
    → template_of a d ≡ none
    → IsBare a d (process_request o tokens k req d)
unfolding process_request
process_request-IsBare o tokens (type, k) a req d bare =
    let id = req.request_id in
    let (rows, unset, set) = sync_rows d.personal_info id (o.issuer_address k) d.request_data in
    let synced = record d { request_data = rows } in
    let done = λ (currency : Option ℕ) (u : Bool).
      finalize_ledger-IsBare o tokens id k a currency u synced bare in
    elim (Bool-cases (unset == set)) [
      | inl all_set ↦
          let h = done (currency_of o req.token_type k) false in
          rw (all_set, process_request)
            (record { same_templates = h.same_templates; same_ledgers = h.same_ledgers })
      | inr lacking ↦ elim (Bool-cases (ltb (req.created + six_hours) o.now)) [
        | inl late ↦
            let h = done (currency_of o (some type) k) true in
            rw (lacking, late, process_request)
              (record { same_templates = h.same_templates; same_ledgers = h.same_ledgers })
        | inr early ↦
            rw (lacking, early, process_request)
              (record { same_templates = refl; same_ledgers = refl })
      ]
    ]

process_requests-IsBare :
    (quota : ℕ) (o : Office) (tokens : List Token) (last : Option TokenContract) (a : Address)
    (reqs : List LedgerCreationRequest) (d : LedgerTables)
    → template_of a d ≡ none
    → IsBare a d (process_requests quota o tokens last reqs d).0
unfolding process_requests
process_requests-IsBare quota o tokens last a [] d bare = record {
  same_templates = refl;
  same_ledgers = refl;
}
process_requests-IsBare zero o tokens last a (req ∷ reqs) d bare = record {
  same_templates = refl;
  same_ledgers = refl;
}
process_requests-IsBare (suc quota) o tokens last a (req ∷ reqs) d bare =
    elim (Option-cases (contract_of req last)) [
      | inl raises ↦
          rw (raises, process_requests) (record { same_templates = refl; same_ledgers = refl })
      | inr (k, chosen) ↦
          let d' = process_request o tokens k req d in
          let h = process_request-IsBare o tokens k a req d bare in
          let bare' : template_of a d' ≡ none =
            ap (first (λ (t : LedgerTemplate). t.token_address == a)) h.same_templates ∙ bare in
          let r = process_requests-IsBare quota o tokens (some k) a reqs d' bare' in
          rw (chosen, process_requests)
            (record {
              same_templates = r.same_templates ∙ h.same_templates;
              same_ledgers = r.same_ledgers ∙ h.same_ledgers;
            })
    ]

-- If a token's template is gone, and each request that waits, of that token or another, is of a known
-- type and was made more than six hours ago, then a run that is not shut down completes every request,
-- and makes no ledger of the token: its requests are lost.
pub process_ledgers_forgotten :
    (quota : ℕ) (o : Office) (tokens : List Token) (d : LedgerTables) (a : Address)
    → template_of a d ≡ none
    → sum_of (λ (r : LedgerCreationRequest). 1) (select is_processing d.requests) ≤ quota
    → All (IsOverdue o) (select is_processing d.requests)
    → let (d', raised) = process_ledgers quota o tokens d in
      (raised ≡ false) × All IsCompleted d'.requests × (ledgers_of a d' ≡ ledgers_of a d)
unfolding process_ledgers
process_ledgers_forgotten quota o tokens d a bare q w =
    let (calm, done) = process_ledgers-IsCompleted quota o tokens d q w in
    let kept =
      process_requests-IsBare quota o tokens none a (select is_processing d.requests) d bare in
    (calm, done, kept.same_ledgers)
