-- ===== src/Ledger/Sources.antt =====
-- The sources of a request's input data, each taken once.
use ibet_prime.Base.{
  ℕ, ◌+◌, ◌≡◌, refl, ap, subst, ◌∙◌, inl, inr, Bool, true, false, ltb, ◌==◌, ◌&&◌, List, [], ◌∷◌,
  ◌++◌, map, Option, none, some, arith, select, first, All, All-append, Option-cases, Bool-cases,
  sum_of, if◌then◌else◌,
}
use ibet_prime.Base.Sort.{sort_by}
use ibet_prime.Chain.{Address}
use ibet_prime.Utxo.Table.{Utxo}
use ibet_prime.Ledger.Tables.{
  LedgerDataType, LedgerDetailsTemplate, LedgerCreationRequestData, LedgerDetailsData, Office,
}
use ibet_prime.Ledger.Dataset.{
  Grouped, dataset_row, dataset_rows, group_utxos, by_account, dataset_from_ibetfin,
  dataset_from_db, same_source, older_details,
}
use ibet_prime.Ledger.Request.{same_type, distinct_sources, input_dataset, input_datasets}
use ibet_prime.Ledger.Sums.{Choice, row_amount}

abbrev pub Source : Type 0
Source = LedgerDataType × Option ℕ

abbrev pub same_key : Source → Source → Bool
same_key s p = same_type s.0 p.0 && same_source s.1 p.1

-- The rows of a request that an entry of the ledger takes.
abbrev pub is_for : ℕ → Source → LedgerCreationRequestData → Bool
is_for id s r = r.request_id == id && same_type r.data_type s.0 && same_source r.data_source s.1

abbrev pub IsFrom : ℕ → Source → LedgerCreationRequestData → Type 0
IsFrom id s r = (r.request_id ≡ id) × (r.data_type ≡ s.0) × (r.data_source ≡ s.1)

pub chosen_amount-append :
    (w : Choice) (p : LedgerCreationRequestData → Bool) (xs ys : List LedgerCreationRequestData)
    → sum_of (row_amount w) (select p (xs ++ ys))
      ≡ sum_of (row_amount w) (select p xs) + sum_of (row_amount w) (select p ys)
chosen_amount-append w p [] ys = omega arith
chosen_amount-append w p (x ∷ xs) ys = ground (arith, chosen_amount-append w p xs ys)

same_key_refl : (s : Source) → same_key s s ≡ true
same_key_refl (LedgerDataType.ibet_fin, none) = refl
same_key_refl (LedgerDataType.ibet_fin, some n) = ground arith
same_key_refl (LedgerDataType.db, none) = refl
same_key_refl (LedgerDataType.db, some n) = ground arith

pub same_key-eq : (s p : Source) → same_key s p ≡ true → s ≡ p
same_key-eq (LedgerDataType.ibet_fin, none) (LedgerDataType.ibet_fin, none) h = refl
same_key-eq (LedgerDataType.db, none) (LedgerDataType.db, none) h = refl
same_key-eq (LedgerDataType.ibet_fin, some n) (LedgerDataType.ibet_fin, some m) h =
    let e : n ≡ m = ground (arith, h) in rw e refl
same_key-eq (LedgerDataType.db, some n) (LedgerDataType.db, some m) h =
    let e : n ≡ m = ground (arith, h) in rw e refl
same_key-eq (LedgerDataType.ibet_fin, none) (LedgerDataType.ibet_fin, some m) h = cc
same_key-eq (LedgerDataType.db, none) (LedgerDataType.db, some m) h = cc
same_key-eq (LedgerDataType.ibet_fin, some m) (LedgerDataType.ibet_fin, none) h = cc
same_key-eq (LedgerDataType.db, some m) (LedgerDataType.db, none) h = cc
same_key-eq (LedgerDataType.db, x) (LedgerDataType.ibet_fin, y) h = cc
same_key-eq (LedgerDataType.ibet_fin, x) (LedgerDataType.db, y) h = cc

is_for-IsFrom :
    (id : ℕ) (s p : Source) (r : LedgerCreationRequestData)
    → IsFrom id s r
    → is_for id p r ≡ same_key s p
is_for-IsFrom id s p r (a, b, c) = ground (arith, a, b, c)

-- Rows of one source, where an entry is of that source or of another.
pub amount-IsFrom :
    (w : Choice) (id : ℕ) (s p : Source) (rows : List LedgerCreationRequestData)
    → All (IsFrom id s) rows
    → sum_of (row_amount w) (select (is_for id p) rows)
      ≡ (if same_key s p then sum_of (row_amount w) rows else 0)
amount-IsFrom w id s p [] h = ground arith
amount-IsFrom w id s p (r ∷ rows) ((a, b, c), h) =
    let match : is_for id p r ≡ same_key s p = is_for-IsFrom id s p r (a, b, c) in
    let rest = amount-IsFrom w id s p rows h in
    elim (Bool-cases (same_key s p)) [
      | inl hit ↦ ground (arith, match, rest, hit)
      | inr miss ↦ ground (arith, match, rest, miss)
    ]

rows_of_days-IsFrom :
    (id : ℕ) (source : Option ℕ) (price a : ℕ) (days : List (ℕ × ℕ))
    → All (IsFrom id (LedgerDataType.ibet_fin, source)) (map (dataset_row id source price a) days)
rows_of_days-IsFrom id source price a [] = tt
rows_of_days-IsFrom id source price a ((d, n) ∷ days) =
    ((refl, refl, refl), rows_of_days-IsFrom id source price a days)

dataset_rows-IsFrom :
    (id : ℕ) (source : Option ℕ) (price : ℕ) (g : Grouped)
    → All (IsFrom id (LedgerDataType.ibet_fin, source)) (dataset_rows id source price g)
unfolding dataset_rows
dataset_rows-IsFrom id source price [] = tt
dataset_rows-IsFrom id source price ((a, days) ∷ g) =
    All-append _ (map (dataset_row id source price a) days) (dataset_rows id source price g)
      (rows_of_days-IsFrom id source price a days) (dataset_rows-IsFrom id source price g)

abbrev stored_row : ℕ → Option ℕ → LedgerDetailsData → LedgerCreationRequestData
stored_row id source d = record {
  request_id = id;
  data_type = LedgerDataType.db;
  data_source = source;
  holding = record (d.holding) { account_address = none };
}

stored_rows-IsFrom :
    (id : ℕ) (source : Option ℕ) (ds : List LedgerDetailsData)
    → All (IsFrom id (LedgerDataType.db, source)) (map (stored_row id source) ds)
stored_rows-IsFrom id source [] = tt
stored_rows-IsFrom id source (d ∷ ds) = ((refl, refl, refl), stored_rows-IsFrom id source ds)

pub input_dataset-IsFrom :
    (o : Office) (us : List Utxo) (ds : List LedgerDetailsData) (id : ℕ) (token : Address)
    (s : Source)
    → All (IsFrom id s) (input_dataset o us ds id token s)
unfolding input_dataset dataset_from_ibetfin dataset_from_db
input_dataset-IsFrom o us ds id token (LedgerDataType.ibet_fin, source) =
    dataset_rows-IsFrom id source (o.unit_price token) (
      group_utxos o
        (sort_by by_account (select (λ (u : Utxo). u.token_address == token && ltb 0 u.amount) us))
        [])
input_dataset-IsFrom o us ds id token (LedgerDataType.db, source) = stored_rows-IsFrom id source (
    sort_by older_details (
      select (λ (d : LedgerDetailsData). d.token_address == token && same_source d.data_id source)
        ds))

-- The key of a source is among the templates'.
abbrev pub has_key_of : Source → List LedgerDetailsTemplate → Bool
has_key_of p [] = false
has_key_of p (t ∷ ts) = if same_key (t.data_type, t.data_source) p then true else has_key_of p ts

abbrev pub among : Source → List Source → Bool
among p [] = false
among p (s ∷ ss) = if same_key s p then true else among p ss

among-first :
    (k : Source) (ss : List Source)
    → among k ss ≡ elim (first (λ (s : Source). same_key s k) ss) [ none ↦ false | some _ ↦ true ]
among-first k [] = refl
among-first k (s ∷ ss) = ground (arith, among-first k ss)

pub distinct_sources-among :
    (p : Source) (ts : List LedgerDetailsTemplate) → among p (distinct_sources ts) ≡ has_key_of p ts
unfolding distinct_sources
distinct_sources-among p [] = refl
distinct_sources-among p (t ∷ ts) =
    let k : Source = (t.data_type, t.data_source) in
    let rest = distinct_sources ts in
    let ih = distinct_sources-among p ts in
    elim (Option-cases (first (λ (s : Source). same_key s k) rest)) [
      | inl n ↦ rw (n, distinct_sources) (ground (arith, ih))
      | inr (s, e) ↦
          let held : among k rest ≡ true = among-first k rest ∙ rw e refl in
          rw (e, distinct_sources)
            (elim (Bool-cases (same_key k p)) [
              | inl hit ↦
                  let same : k ≡ p = same_key-eq k p hit in
                  let here : among p rest ≡ true = subst (λ x. among x rest ≡ true) same held in
                  rw hit here
              | inr miss ↦ rw miss ih
            ])
    ]

-- Each source is once among the sources of a request.
abbrev pub IsApart : List Source → Type 0
IsApart [] = Unit
IsApart (s ∷ ss) = (among s ss ≡ false) × IsApart ss

pub distinct_sources-IsApart : (ts : List LedgerDetailsTemplate) → IsApart (distinct_sources ts)
unfolding distinct_sources
distinct_sources-IsApart [] = tt
distinct_sources-IsApart (t ∷ ts) =
    let k : Source = (t.data_type, t.data_source) in
    let rest = distinct_sources ts in
    elim (Option-cases (first (λ (s : Source). same_key s k) rest)) [
      | inl n ↦
          let new : among k rest ≡ false = among-first k rest ∙ rw n refl in
          rw (n, distinct_sources) (new, distinct_sources-IsApart ts)
      | inr (s, e) ↦ rw (e, distinct_sources) (distinct_sources-IsApart ts)
    ]

-- The rows of all sources, taken for one of them.
pub amount-input_datasets :
    (o : Office) (us : List Utxo) (ds : List LedgerDetailsData) (w : Choice) (id : ℕ)
    (token : Address) (p : Source) (ss : List Source)
    → IsApart ss
    → sum_of (row_amount w) (select (is_for id p) (input_datasets o us ds id token ss))
      ≡ (if among p ss then sum_of (row_amount w) (input_dataset o us ds id token p) else 0)
unfolding input_datasets
amount-input_datasets o us ds w id token p [] h = refl
amount-input_datasets o us ds w id token p (s ∷ ss) (h, hs) =
    let here = input_dataset o us ds id token s in
    let rest = amount-input_datasets o us ds w id token p ss hs in
    let parts = chosen_amount-append w (is_for id p) here (input_datasets o us ds id token ss) in
    let own = amount-IsFrom w id s p here (input_dataset-IsFrom o us ds id token s) in
    elim (Bool-cases (same_key s p)) [
      | inl hit ↦
          let same : s ≡ p = same_key-eq s p hit in
          let once : among p ss ≡ false = subst (λ x. among x ss ≡ false) same h in
          let all : sum_of (row_amount w) here
              ≡ sum_of (row_amount w) (input_dataset o us ds id token p) =
            ap (λ x. sum_of (row_amount w) (input_dataset o us ds id token x)) same in
          ground (arith, parts, own, rest, hit, once, all)
      | inr miss ↦ ground (arith, parts, own, rest, miss)
    ]
