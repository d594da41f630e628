-- ===== src/Utxo/Loops.antt =====
-- What the two loops of `__sink_on_utxo` take and give, in each total.
use ibet_prime.Base.{
  ℕ, ◌+◌, ◌-◌, min, ◌≡◌, refl, false, List, [], ◌∷◌, some, arith, inl, inr, All, All-mono,
  Option-cases, All-append,
}
use ibet_prime.Utxo.Table.{Utxo, has_key, find, set_amount}
use ibet_prime.Utxo.Sink.{credit, moved, reallocate, spend}
use ibet_prime.Utxo.Totals.{
  Picks, weight, total, total-set_amount, find-set_amount_ne, IsUncontested, total-credit,
}

-- What a loop with `rem` left takes out of these rows, as far as the condition picks them.
abbrev pub taken : Picks → ℕ → List Utxo → ℕ
taken p rem [] = 0
taken p rem (u ∷ us) =
    weight p (record u { amount = min rem u.amount }) + taken p (rem - u.amount) us

pub taken_zero : (p : Picks) (us : List Utxo) → taken p 0 us ≡ 0
taken_zero p [] = refl
taken_zero p (u ∷ us) = ground (arith, taken_zero p us)

-- Each row is in the table as it was read.
abbrev pub IsHeld : List Utxo → List Utxo → Type 0
IsHeld t = All (λ u. find u.transaction_hash u.account_address t ≡ some u)

-- No two rows have one key.
abbrev pub IsKeyed : List Utxo → Type 0
IsKeyed [] = Unit
IsKeyed (u ∷ us) = All (λ w. has_key u.transaction_hash u.account_address w ≡ false) us × IsKeyed us

pub set_amount-IsHeld :
    (u : Utxo) (v : ℕ) (us t : List Utxo)
    → All (λ w. has_key u.transaction_hash u.account_address w ≡ false) us
    → IsHeld t us
    → IsHeld (set_amount u.transaction_hash u.account_address v t) us
set_amount-IsHeld u v [] t k h = tt
set_amount-IsHeld u v (w ∷ us) t k h = (
  find-set_amount_ne u.transaction_hash u.account_address v w.transaction_hash w.account_address t w
      k.0 h.0,
  set_amount-IsHeld u v us t k.1 h.1,
)

-- The spending loop lowers each total by what it takes.
pub total-spend :
    (p : Picks) (rem : ℕ) (us t : List Utxo)
    → IsHeld t us
    → IsKeyed us
    → total p (spend rem us t) + taken p rem us ≡ total p t
unfolding spend
total-spend p rem [] t h k = omega arith
total-spend p rem (u ∷ us) t h k = ground (
  arith,
  total-set_amount p u.transaction_hash u.account_address 0 t u h.0,
  total-set_amount p u.transaction_hash u.account_address (u.amount - rem) t u h.0,
  total-spend p (rem - u.amount) us (set_amount u.transaction_hash u.account_address 0 t)
      (set_amount-IsHeld u 0 us t k.0 h.1) k.1,
  total-spend p 0 us (set_amount u.transaction_hash u.account_address (u.amount - rem) t)
      (set_amount-IsHeld u (u.amount - rem) us t k.0 h.1) k.1,
  taken_zero p us,
)

pub All-set_amount {ℓ} :
    (P : Utxo → Type ℓ) (h a v : ℕ) (t : List Utxo)
    → ((u : Utxo) → P u → P (record u { amount = v }))
    → All P t
    → All P (set_amount h a v t)
All-set_amount P h a v [] f c = tt
All-set_amount P h a v (u ∷ t) f c = ground (arith, f u c.0, All-set_amount P h a v t f c.1)

-- What holds of every row whatever its amount, and of the new row, holds after a credit.
pub All-credit {ℓ} :
    (P : Utxo → Type ℓ) (row : Utxo) (t : List Utxo)
    → ((u : Utxo) (v : ℕ) → P u → P (record u { amount = v }))
    → P row
    → All P t
    → All P (credit row t)
unfolding credit
All-credit P row t f r c = elim (Option-cases (find row.transaction_hash row.account_address t)) [
  | inl e ↦ rw (e, credit) (All-append P t (row ∷ []) c (r, tt))
  | inr (u, e) ↦
      rw (e, credit)
        (All-set_amount P row.transaction_hash row.account_address (u.amount + row.amount) t
          (λ w. f w (u.amount + row.amount)) c)
]

-- No row that the holder has from these transactions is of another token.
abbrev pub IsFree : ℕ → ℕ → List Utxo → List Utxo → Type 0
IsFree holder k us t = All (λ u. IsUncontested u.transaction_hash holder k t) us

pub credit-IsFree :
    (holder k : ℕ) (row : Utxo) (us t : List Utxo)
    → row.token_address ≡ k
    → IsFree holder k us t
    → IsFree holder k us (credit row t)
credit-IsFree holder k row us t e =
    All-mono _ _ us λ u c. All-credit _ row t (λ w v f. f) (λ hit. e) c

-- The reallocating loop raises each total by what it takes, seen under the new holder.
pub total-reallocate :
    (p : Picks) (holder k rem : ℕ) (us t : List Utxo)
    → All (λ u. u.token_address ≡ k) us
    → IsFree holder k us t
    → total p (reallocate holder rem us t) ≡ total p t + taken (λ h _. p h holder) rem us
unfolding reallocate
total-reallocate p holder k rem [] t e f = omega arith
total-reallocate p holder k rem (u ∷ us) t e f = ground (
  arith,
  gives u.amount,
  gives rem,
  total-reallocate p holder k (rem - u.amount) us (credit (moved holder u.amount u) t) e.1
      (free u.amount),
  total-reallocate p holder k 0 us (credit (moved holder rem u) t) e.1 (free rem),
  taken_zero (λ h _. p h holder) us,
)
  where
    gives :
        (v : ℕ) → total p (credit (moved holder v u) t) ≡ total p t + weight p (moved holder v u)
    gives v = total-credit p (moved holder v u) t (rw e.0 f.0)

    free : (v : ℕ) → IsFree holder k us (credit (moved holder v u) t)
    free v = credit-IsFree holder k (moved holder v u) us t e.0 f.1
