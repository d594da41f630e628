-- ===== src/Utxo/Provenance.antt =====
-- A reallocation keeps the provenance of what it moves: the crediting and the spending call together
-- conserve the amount that stems from each transaction.
use ibet_prime.Base.{
  ℕ, ◌+◌, ◌-◌, ◌≡◌, refl, ap, ◌≢◌, Bool, true, false, List, [], ◌∷◌, ◌++◌, some, none, arith, inl,
  inr, Option-cases, select,
}
use ibet_prime.Base.Sort.{sort_by}
use ibet_prime.Utxo.Table.{Utxo, find, set_amount, older, unspent}
use ibet_prime.Utxo.Sink.{credit, moved, reallocate, sink_on_utxo}
use ibet_prime.Utxo.Totals.{Picks, total, of_origin}
use ibet_prime.Utxo.Loops.{IsKeyed, IsFree, taken, total-spend, total-reallocate}
use ibet_prime.Utxo.Keys.{sink_on_utxo-IsKeyed}
use ibet_prime.Utxo.Holdings.{is_unspent, unspent-of_token, unspent-IsHeld, unspent-IsKeyed}

select-append :
    (p : Utxo → Bool) (t : List Utxo) (row : Utxo)
    → p row ≡ false
    → select p (t ++ row ∷ []) ≡ select p t
select-append p [] row h = ground arith
select-append p (u ∷ t) row h = ground (arith, select-append p t row h)

select-set_amount :
    (a k h a' v : ℕ) (t : List Utxo)
    → a' ≢ a
    → select (is_unspent a k) (set_amount h a' v t) ≡ select (is_unspent a k) t
select-set_amount a k h a' v [] n = refl
select-set_amount a k h a' v (u ∷ t) n = ground (arith, select-set_amount a k h a' v t n)

-- A credit to another account leaves the rows that an account may spend.
pub unspent-credit :
    (a k : ℕ) (row : Utxo) (t : List Utxo)
    → row.account_address ≢ a
    → unspent a k (credit row t) ≡ unspent a k t
unfolding unspent credit
unspent-credit a k row t n = elim (Option-cases (find row.transaction_hash row.account_address t)) [
  | inl e ↦
      rw (e, credit) (ap (sort_by older) (select-append (is_unspent a k) t row (ground arith)))
  | inr (u, e) ↦
      rw (e, credit)
        (ap (sort_by older) (
          select-set_amount a k row.transaction_hash row.account_address (u.amount + row.amount) t
            n))
]

pub unspent-reallocate :
    (a k holder rem : ℕ) (us t : List Utxo)
    → holder ≢ a
    → unspent a k (reallocate holder rem us t) ≡ unspent a k t
unfolding reallocate
unspent-reallocate a k holder rem [] t n = refl
unspent-reallocate a k holder rem (u ∷ us) t n = ground (
  arith,
  unspent-credit a k (moved holder u.amount u) t n,
  unspent-credit a k (moved holder rem u) t n,
  unspent-reallocate a k holder (rem - u.amount) us (credit (moved holder u.amount u) t) n,
  unspent-reallocate a k holder 0 us (credit (moved holder rem u) t) n,
)

-- The two calls that a reallocating transfer makes: to the new holder, then from the source.
abbrev pub reallocation : Utxo → ℕ → List Utxo → List Utxo
reallocation row source t =
    sink_on_utxo true (record row { account_address = source }) none
      (sink_on_utxo false row (some source) t)

-- Where no two rows have one key and no row of another token is credited, a reallocation to another
-- account conserves, for each transaction and token, the amount that stems from it, whatever the
-- amount asked for.
pub total-reallocation_origin :
    (row : Utxo) (source h k : ℕ) (t : List Utxo)
    → IsKeyed t
    → row.account_address ≢ source
    → IsFree row.account_address row.token_address (unspent source row.token_address t) t
    → total (of_origin h k) (reallocation row source t) ≡ total (of_origin h k) t
unfolding sink_on_utxo
total-reallocation_origin row source h k t keyed n free = omega (
  arith,
  total-reallocate p holder token row.amount rows t (unspent-of_token source token t) free,
  total-spend p row.amount (unspent source token after) after
      (unspent-IsHeld source token after keyed') (unspent-IsKeyed source token after keyed'),
  ap (taken p row.amount) (unspent-reallocate source token holder row.amount rows t n),
)
  where
    p : Picks
    p = of_origin h k

    holder : ℕ
    holder = row.account_address

    token : ℕ
    token = row.token_address

    rows : List Utxo
    rows = unspent source token t

    after : List Utxo
    after = reallocate holder row.amount rows t

    keyed' : IsKeyed after
    keyed' = sink_on_utxo-IsKeyed false row (some source) t keyed
