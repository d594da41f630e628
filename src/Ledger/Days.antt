-- ===== src/Ledger/Days.antt =====
-- A dataset has one row for an account and a day.
use ibet_prime.Base.{
  ℕ, ◌≡◌, refl, ◌∙◌, ◌≢◌, ltb, ◌==◌, ◌&&◌, List, [], ◌∷◌, ◌++◌, map, Option, none, some, arith,
  select, All, All-append, All-mono, upsert, Bool-cases, inl, inr,
}
use ibet_prime.Base.Sort.{sort_by}
use ibet_prime.Chain.{Address}
use ibet_prime.Utxo.Table.{Utxo}
use ibet_prime.Ledger.Tables.{LedgerCreationRequestData, Office}
use ibet_prime.Ledger.Dataset.{
  by_account, Grouped, add_amount, add_day, group_utxo, group_utxos, dataset_row, dataset_rows,
  dataset_from_ibetfin,
}

-- A dictionary has each key once.
abbrev IsDict {ℓ} : {V : Type ℓ} → List (ℕ × V) → Type 0
IsDict [] = Unit
IsDict ((k, _) ∷ items) = All (λ i. i.0 ≢ k) items × IsDict items

abbrev IsGrouped : Grouped → Type 0
IsGrouped g = IsDict g × All (λ i. IsDict i.1) g

upsert-All_ne {ℓ} :
    {V : Type ℓ} (k : ℕ) (f : Option V → V) (x : ℕ) (d : List (ℕ × V))
    → k ≢ x
    → All (λ i. i.0 ≢ x) d
    → All (λ i. i.0 ≢ x) (upsert k f d)
upsert-All_ne k f x [] n h = (n, tt)
upsert-All_ne k f x ((y, v) ∷ d) n h = ground (arith, upsert-All_ne k f x d n h.1)

upsert-IsDict {ℓ} :
    {V : Type ℓ} (k : ℕ) (f : Option V → V) (d : List (ℕ × V)) → IsDict d → IsDict (upsert k f d)
upsert-IsDict k f [] h = (tt, tt)
upsert-IsDict k f ((y, v) ∷ d) (h, r) = elim (Bool-cases (y == k)) [
  | inl e ↦ rw e (h, r)
  | inr e ↦ rw e (upsert-All_ne k f y d (ground arith) h, upsert-IsDict k f d r)
]

-- A value's predicate, which the new value has too.
upsert-All {ℓ κ} :
    {V : Type ℓ} (P : V → Type κ) (k : ℕ) (f : Option V → V) (d : List (ℕ × V))
    → P (f none)
    → ((v : V) → P v → P (f (some v)))
    → All (λ i. P i.1) d
    → All (λ i. P i.1) (upsert k f d)
upsert-All P k f [] n s h = (n, tt)
upsert-All P k f ((y, v) ∷ d) n s (p, h) = elim (Bool-cases (y == k)) [
  | inl e ↦ rw e (s v p, h)
  | inr e ↦ rw e (p, upsert-All P k f d n s h)
]

group_utxo-IsGrouped :
    (o : Office) (u : Utxo) (g : Grouped) → IsGrouped g → IsGrouped (group_utxo o u g)
unfolding group_utxo
group_utxo-IsGrouped o u g (d, a) =
    let date = o.local_date u.block_timestamp in
    let add = add_day date u.amount in
    (
      upsert-IsDict u.account_address add g d,
      upsert-All IsDict u.account_address add g (tt, tt)
          (λ days h. upsert-IsDict date (add_amount u.amount) days h) a,
    )

group_utxos-IsGrouped :
    (o : Office) (us : List Utxo) (g : Grouped) → IsGrouped g → IsGrouped (group_utxos o us g)
unfolding group_utxos
group_utxos-IsGrouped o [] g h = h
group_utxos-IsGrouped o (u ∷ us) g h =
    group_utxos-IsGrouped o us (group_utxo o u g) (group_utxo-IsGrouped o u g h)

-- No two rows have one account and one day.
abbrev pub IsDaily : List LedgerCreationRequestData → Type 0
IsDaily [] = Unit
IsDaily (r ∷ rs) =
    All
      (λ s.
        s.holding.account_address ≡ r.holding.account_address
        → s.holding.acquisition_date ≢ r.holding.acquisition_date)
      rs
    × IsDaily rs

IsDaily-append :
    (rs ss : List LedgerCreationRequestData) (a : Address)
    → All (λ r. r.holding.account_address ≡ some a) rs
    → All (λ s. s.holding.account_address ≢ some a) ss
    → IsDaily rs
    → IsDaily ss
    → IsDaily (rs ++ ss)
IsDaily-append [] ss a h k d e = e
IsDaily-append (r ∷ rs) ss a (h, hs) k (d, ds) e = (
  All-append _ rs ss d (All-mono _ _ ss (λ s n same. absurd (n (same ∙ h))) k),
  IsDaily-append rs ss a hs k ds e,
)

rows_of_days-IsOf :
    (id : ℕ) (source : Option ℕ) (price a : ℕ) (days : List (ℕ × ℕ))
    → All (λ r. r.holding.account_address ≡ some a) (map (dataset_row id source price a) days)
rows_of_days-IsOf id source price a [] = tt
rows_of_days-IsOf id source price a ((d, n) ∷ days) =
    (refl, rows_of_days-IsOf id source price a days)

rows_of_days-ne :
    (id : ℕ) (source : Option ℕ) (price a x : ℕ) (days : List (ℕ × ℕ))
    → a ≢ x
    → All (λ r. r.holding.account_address ≢ some x) (map (dataset_row id source price a) days)
rows_of_days-ne id source price a x days n =
    All-mono _ _ (map (dataset_row id source price a) days) (λ r e f. n (cc))
      (rows_of_days-IsOf id source price a days)

rows_of_days-other_day :
    (id : ℕ) (source : Option ℕ) (price a d : ℕ) (days : List (ℕ × ℕ))
    → All (λ i. i.0 ≢ d) days
    → All (λ r. r.holding.acquisition_date ≢ d) (map (dataset_row id source price a) days)
rows_of_days-other_day id source price a d [] h = tt
rows_of_days-other_day id source price a d ((e, n) ∷ days) (h, hs) =
    (h, rows_of_days-other_day id source price a d days hs)

rows_of_days-IsDaily :
    (id : ℕ) (source : Option ℕ) (price a : ℕ) (days : List (ℕ × ℕ))
    → IsDict days
    → IsDaily (map (dataset_row id source price a) days)
rows_of_days-IsDaily id source price a [] h = tt
rows_of_days-IsDaily id source price a ((d, n) ∷ days) (h, hs) = (
  All-mono _ _ (map (dataset_row id source price a) days) (λ r o same. o)
      (rows_of_days-other_day id source price a d days h),
  rows_of_days-IsDaily id source price a days hs,
)

dataset_rows-ne :
    (id : ℕ) (source : Option ℕ) (price x : ℕ) (g : Grouped)
    → All (λ i. i.0 ≢ x) g
    → All (λ r. r.holding.account_address ≢ some x) (dataset_rows id source price g)
unfolding dataset_rows
dataset_rows-ne id source price x [] h = tt
dataset_rows-ne id source price x ((a, days) ∷ g) (h, hs) =
    All-append _ (map (dataset_row id source price a) days) (dataset_rows id source price g)
      (rows_of_days-ne id source price a x days h) (dataset_rows-ne id source price x g hs)

dataset_rows-IsDaily :
    (id : ℕ) (source : Option ℕ) (price : ℕ) (g : Grouped)
    → IsGrouped g
    → IsDaily (dataset_rows id source price g)
unfolding dataset_rows
dataset_rows-IsDaily id source price [] h = tt
dataset_rows-IsDaily id source price ((a, days) ∷ g) ((h, hs), (k, ks)) =
    IsDaily-append (map (dataset_row id source price a) days) (dataset_rows id source price g) a
      (rows_of_days-IsOf id source price a days) (dataset_rows-ne id source price a g h)
      (rows_of_days-IsDaily id source price a days k)
      (dataset_rows-IsDaily id source price g (hs, ks))

-- No two of the rows that one call of `__create_dataset_from_ibetfin` makes, so for one request, one
-- token and one data source, have one account and one day.
pub dataset_from_ibetfin-IsDaily :
    (o : Office) (id : ℕ) (token : Address) (source : Option ℕ) (us : List Utxo)
    → IsDaily (dataset_from_ibetfin o id token source us)
unfolding dataset_from_ibetfin
dataset_from_ibetfin-IsDaily o id token source us =
    let held = select (λ (u : Utxo). u.token_address == token && ltb 0 u.amount) us in
    dataset_rows-IsDaily id source (o.unit_price token) (group_utxos o (sort_by by_account held) [])
      (group_utxos-IsGrouped o (sort_by by_account held) [] (tt, tt))
