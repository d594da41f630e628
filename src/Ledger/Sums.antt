-- ===== src/Ledger/Sums.antt =====
-- The amounts of a dataset are those of the UTXOs.
use ibet_prime.Base.{
  ℕ, ◌+◌, ◌≡◌, refl, Bool, ltb, ◌==◌, ◌&&◌, List, [], ◌∷◌, map, Option, none, some, get_or, arith,
  select, sum_of, sum_of-append, if◌then◌else◌, upsert,
}
use ibet_prime.Base.Sort.{sort_by, sum_of-sort_by}
use ibet_prime.Chain.{Address}
use ibet_prime.Utxo.Table.{Utxo}
use ibet_prime.Ledger.Tables.{Holding, LedgerCreationRequestData, Office}
use ibet_prime.Ledger.Dataset.{
  by_account, Grouped, add_amount, group_utxo, group_utxos, dataset_row, dataset_rows,
  dataset_from_ibetfin,
}

-- A condition on an account and a day.
abbrev pub Choice : Type 0
Choice = Address → ℕ → Bool

-- The amount of a row, if its account and day are chosen.
abbrev pub holding_amount : Choice → Holding → ℕ
holding_amount w h = elim h.account_address [
  | none ↦ 0
  | some a ↦ if w a h.acquisition_date then get_or h.amount 0 else 0
]

abbrev pub row_amount : Choice → LedgerCreationRequestData → ℕ
row_amount w r = holding_amount w r.holding

-- The amount of a UTXO of the token, if its account and its day are chosen.
abbrev pub utxo_amount : Office → Address → Choice → Utxo → ℕ
utxo_amount o token w u =
    if u.token_address == token && w u.account_address (o.local_date u.block_timestamp)
    then u.amount
    else 0

abbrev day_amount : Choice → Address → ℕ × ℕ → ℕ
day_amount w a (d, n) = if w a d then n else 0

abbrev days_amount : Choice → ℕ × List (ℕ × ℕ) → ℕ
days_amount w (a, days) = sum_of (day_amount w a) days

sum_of-upsert_day :
    (w : Choice) (a d n : ℕ) (days : List (ℕ × ℕ))
    → sum_of (day_amount w a) (upsert d (add_amount n) days)
      ≡ sum_of (day_amount w a) days + (if w a d then n else 0)
sum_of-upsert_day w a d n [] = ground arith
sum_of-upsert_day w a d n ((k, v) ∷ days) = ground (arith, sum_of-upsert_day w a d n days)

sum_of-group_utxo :
    (o : Office) (w : Choice) (u : Utxo) (g : Grouped)
    → sum_of (days_amount w) (group_utxo o u g)
      ≡ sum_of (days_amount w) g
        + (if w u.account_address (o.local_date u.block_timestamp) then u.amount else 0)
unfolding group_utxo
sum_of-group_utxo o w u [] = ground arith
sum_of-group_utxo o w u ((k, days) ∷ g) = ground (
  arith,
  sum_of-upsert_day w k (o.local_date u.block_timestamp) u.amount days,
  sum_of-group_utxo o w u g,
)

abbrev chosen_amount : Office → Choice → Utxo → ℕ
chosen_amount o w u = if w u.account_address (o.local_date u.block_timestamp) then u.amount else 0

sum_of-group_utxos :
    (o : Office) (w : Choice) (us : List Utxo) (g : Grouped)
    → sum_of (days_amount w) (group_utxos o us g)
      ≡ sum_of (days_amount w) g + sum_of (chosen_amount o w) us
unfolding group_utxos
sum_of-group_utxos o w [] g = omega arith
sum_of-group_utxos o w (u ∷ us) g =
    omega (arith, sum_of-group_utxo o w u g, sum_of-group_utxos o w us (group_utxo o u g))

sum_of-held :
    (o : Office) (token : Address) (w : Choice) (us : List Utxo)
    → sum_of
        (chosen_amount o w)
        (select (λ (u : Utxo). u.token_address == token && ltb 0 u.amount) us)
      ≡ sum_of (utxo_amount o token w) us
sum_of-held o token w [] = refl
sum_of-held o token w (u ∷ us) = ground (arith, sum_of-held o token w us)

sum_of-rows_of_days :
    (w : Choice) (id : ℕ) (source : Option ℕ) (price a : ℕ) (days : List (ℕ × ℕ))
    → sum_of (row_amount w) (map (dataset_row id source price a) days)
      ≡ sum_of (day_amount w a) days
sum_of-rows_of_days w id source price a [] = refl
sum_of-rows_of_days w id source price a ((d, n) ∷ days) =
    ground (arith, sum_of-rows_of_days w id source price a days)

sum_of-dataset_rows :
    (w : Choice) (id : ℕ) (source : Option ℕ) (price : ℕ) (g : Grouped)
    → sum_of (row_amount w) (dataset_rows id source price g) ≡ sum_of (days_amount w) g
unfolding dataset_rows
sum_of-dataset_rows w id source price [] = refl
sum_of-dataset_rows w id source price ((a, days) ∷ g) = omega (
  arith,
  sum_of-append (row_amount w) (map (dataset_row id source price a) days)
      (dataset_rows id source price g),
  sum_of-rows_of_days w id source price a days,
  sum_of-dataset_rows w id source price g,
)

-- Whatever accounts and days are chosen, the amounts of the rows that a ledger request makes for them
-- add up to the amounts of the token's UTXOs of these accounts and days.
pub sum_of-dataset_from_ibetfin :
    (o : Office) (w : Choice) (id : ℕ) (token : Address) (source : Option ℕ) (us : List Utxo)
    → sum_of (row_amount w) (dataset_from_ibetfin o id token source us)
      ≡ sum_of (utxo_amount o token w) us
unfolding dataset_from_ibetfin
sum_of-dataset_from_ibetfin o w id token source us =
    let held = select (λ (u : Utxo). u.token_address == token && ltb 0 u.amount) us in
    omega (
      arith,
      sum_of-dataset_rows w id source (o.unit_price token)
          (group_utxos o (sort_by by_account held) []),
      sum_of-group_utxos o w (sort_by by_account held) [],
      sum_of-sort_by by_account (chosen_amount o w) held,
      sum_of-held o token w us,
    )
