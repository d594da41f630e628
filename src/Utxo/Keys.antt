-- ===== src/Utxo/Keys.antt =====
-- No call makes two rows with one primary key.
use ibet_prime.Base.{
  ℕ, ◌+◌, ◌-◌, ◌≡◌, Bool, true, false, List, [], ◌∷◌, ◌++◌, Option, some, none, arith, inl, inr,
  Option-cases, All-append,
}
use ibet_prime.Utxo.Table.{Utxo, has_key, find, set_amount}
use ibet_prime.Utxo.Sink.{credit, moved, reallocate, spend, sink_on_utxo}
use ibet_prime.Utxo.Loops.{IsKeyed, All-set_amount}

-- Another row than this one.
abbrev IsOther : Utxo → Utxo → Type 0
IsOther u w = has_key u.transaction_hash u.account_address w ≡ false

set_amount-IsKeyed : (h a v : ℕ) (t : List Utxo) → IsKeyed t → IsKeyed (set_amount h a v t)
set_amount-IsKeyed h a v [] k = tt
set_amount-IsKeyed h a v (u ∷ t) k =
    ground
      (arith, set_amount-IsKeyed h a v t k.1, All-set_amount (IsOther u) h a v t (λ w f. f) k.0)

append-IsKeyed :
    (row : Utxo) (t : List Utxo)
    → find row.transaction_hash row.account_address t ≡ none
    → IsKeyed t
    → IsKeyed (t ++ row ∷ [])
append-IsKeyed row [] e k = (tt, tt)
append-IsKeyed row (u ∷ t) e k =
    ground (arith, append-IsKeyed row t, All-append (IsOther u) t (row ∷ []) k.0)

pub credit-IsKeyed : (row : Utxo) (t : List Utxo) → IsKeyed t → IsKeyed (credit row t)
unfolding credit
credit-IsKeyed row t k = elim (Option-cases (find row.transaction_hash row.account_address t)) [
  | inl e ↦ rw (e, credit) (append-IsKeyed row t e k)
  | inr (u, e) ↦
      rw (e, credit)
        (set_amount-IsKeyed row.transaction_hash row.account_address (u.amount + row.amount) t k)
]

reallocate-IsKeyed :
    (holder rem : ℕ) (us t : List Utxo) → IsKeyed t → IsKeyed (reallocate holder rem us t)
unfolding reallocate
reallocate-IsKeyed holder rem [] t k = k
reallocate-IsKeyed holder rem (u ∷ us) t k = ground (
  arith,
  reallocate-IsKeyed holder (rem - u.amount) us (credit (moved holder u.amount u) t)
      (credit-IsKeyed (moved holder u.amount u) t k),
  reallocate-IsKeyed holder 0 us (credit (moved holder rem u) t)
      (credit-IsKeyed (moved holder rem u) t k),
)

spend-IsKeyed : (rem : ℕ) (us t : List Utxo) → IsKeyed t → IsKeyed (spend rem us t)
unfolding spend
spend-IsKeyed rem [] t k = k
spend-IsKeyed rem (u ∷ us) t k = ground (
  arith,
  spend-IsKeyed (rem - u.amount) us (set_amount u.transaction_hash u.account_address 0 t)
      (set_amount-IsKeyed u.transaction_hash u.account_address 0 t k),
  spend-IsKeyed 0 us (set_amount u.transaction_hash u.account_address (u.amount - rem) t)
      (set_amount-IsKeyed u.transaction_hash u.account_address (u.amount - rem) t k),
)

pub sink_on_utxo-IsKeyed :
    (spent : Bool) (row : Utxo) (r : Option ℕ) (t : List Utxo)
    → IsKeyed t
    → IsKeyed (sink_on_utxo spent row r t)
unfolding sink_on_utxo
sink_on_utxo-IsKeyed false row none t k = credit-IsKeyed row t k
sink_on_utxo-IsKeyed false row (some source) t k = reallocate-IsKeyed _ _ _ t k
sink_on_utxo-IsKeyed true row r t k = spend-IsKeyed _ _ t k
