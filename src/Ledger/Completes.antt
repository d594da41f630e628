-- ===== src/Ledger/Completes.antt =====
-- Which requests a run completes.
use ibet_prime.Base.{
  ℕ, ◌+◌, ◌≡◌, refl, ◌≤◌, inl, inr, Bool, true, false, ltb, ◌==◌, ◌&&◌, ◌||◌, List, [], ◌∷◌, Option,
  none, some, arith, Option-cases, Bool-cases, if◌then◌else◌,
}
use ibet_prime.Chain.{Address}
use ibet_prime.Tokens.{Token, TokenType}
use ibet_prime.Ledger.Tables.{
  LedgerCreationRequest, LedgerCreationRequestData, IdxPersonalInfo, Office,
}
use ibet_prime.Ledger.Request.{LedgerTables}
use ibet_prime.Ledger.Finalize.{is_unset, info_of, sync_rows, finalize_ledger}
use ibet_prime.Ledger.Process.{six_hours, currency_of, set_completed, process_request}

-- No row of a list fits.
abbrev pub none_of {ℓ} : {A : Type ℓ} → (A → Bool) → List A → Bool
none_of p [] = true
none_of p (x ∷ xs) = if p x then false else none_of p xs

-- A row of the request whose personal information is not set and cannot be.
abbrev pub is_lacking : List IdxPersonalInfo → ℕ → Address → LedgerCreationRequestData → Bool
is_lacking infos id issuer r =
    is_unset id issuer r && elim (info_of infos issuer r) [ none ↦ true | some _ ↦ false ]

sync_rows-counts :
    (infos : List IdxPersonalInfo) (id : ℕ) (issuer : Address)
    (rows : List LedgerCreationRequestData)
    → let (_, unset, set) = sync_rows infos id issuer rows in
      (set ≤ unset) × ((unset == set) ≡ none_of (is_lacking infos id issuer) rows)
unfolding sync_rows
sync_rows-counts infos id issuer [] = (omega arith, refl)
sync_rows-counts infos id issuer (r ∷ rows) =
    let (le, eq) = sync_rows-counts infos id issuer rows in
    elim (Bool-cases (is_unset id issuer r)) [
      | inl unset ↦ elim (Option-cases (info_of infos issuer r)) [
        | inl lost ↦ rw (unset, lost) (omega arith, ground arith)
        | inr (i, found) ↦ rw (unset, found) (omega arith, ground (arith, eq))
      ]
      | inr set ↦ rw set (le, eq)
    ]

finalize_ledger-requests :
    (o : Office) (tokens : List Token) (id : ℕ) (a : Address) (currency : Option ℕ) (u : Bool)
    (d : LedgerTables)
    → (finalize_ledger o tokens id a currency u d).requests ≡ d.requests
unfolding finalize_ledger
finalize_ledger-requests o tokens id a currency u d = ground arith

-- A pass over a request completes it if more than six hours have passed, or if no row is left that has
-- the request's id, is of the type ibetfin and of another account than the issuer's, has no name, and
-- has no personal information registered; else it completes none. It completes no other request.
pub process_request-completes :
    (o : Office) (tokens : List Token) (type : TokenType) (a : Address)
    (req : LedgerCreationRequest) (d : LedgerTables)
    → (process_request o tokens (type, a) req d).requests ≡ (
        if none_of (is_lacking d.personal_info req.request_id (o.issuer_address a)) d.request_data
          || ltb (req.created + six_hours) o.now
        then set_completed req.request_id d.requests
        else d.requests)
unfolding process_request
process_request-completes o tokens type a req d =
    let id = req.request_id in
    let (rows, unset, set) = sync_rows d.personal_info id (o.issuer_address a) d.request_data in
    let synced = record d { request_data = rows } in
    let counts : (unset == set)
        ≡ none_of (is_lacking d.personal_info id (o.issuer_address a)) d.request_data =
      (sync_rows-counts d.personal_info id (o.issuer_address a) d.request_data).1 in
    rw (← counts) (
      ground (
        arith,
        finalize_ledger-requests o tokens id a (currency_of o req.token_type a) false synced,
        finalize_ledger-requests o tokens id a (currency_of o (some type) a) true synced,
      ))
