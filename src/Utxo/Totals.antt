-- ===== src/Utxo/Totals.antt =====
-- Amounts summed over the rows that a condition on the key and the token picks, under each write.
use ibet_prime.Base.{
  ℕ, ◌+◌, ◌≡◌, Bool, List, [], ◌∷◌, some, arith, ◌==◌, ◌&&◌, true, false, if◌then◌else◌, sum_of,
  sum_of-append, Option-cases, All, inl, inr, All-first, first_sound,
}
use ibet_prime.Utxo.Table.{Utxo, has_key, find, set_amount}
use ibet_prime.Utxo.Sink.{credit}

-- A condition on transaction hash, account address and token address.
abbrev pub Picks : Type 0
Picks = ℕ → ℕ → ℕ → Bool

abbrev pub weight : Picks → Utxo → ℕ
weight p u = if p u.transaction_hash u.account_address u.token_address then u.amount else 0

abbrev pub total : Picks → List Utxo → ℕ
total p = sum_of (weight p)

-- What an account holds of a token, over all its rows.
abbrev pub of_holder : ℕ → ℕ → Picks
of_holder a k _ account token = account == a && token == k

-- What stems from a transaction of a token, over all its holders.
abbrev pub of_origin : ℕ → ℕ → Picks
of_origin h k transaction _ token = transaction == h && token == k

-- All of a token.
abbrev pub of_token : ℕ → Picks
of_token k _ _ token = token == k

pub total-set_amount :
    (p : Picks) (h a v : ℕ) (t : List Utxo) (u : Utxo)
    → find h a t ≡ some u
    → total p (set_amount h a v t) + weight p u ≡ total p t + weight p (record u { amount = v })
total-set_amount p h a v [] u e = cc
total-set_amount p h a v (x ∷ t) u e = ground (arith, total-set_amount p h a v t u)

pub find-set_amount_ne :
    (h a v h' a' : ℕ) (t : List Utxo) (u : Utxo)
    → has_key h a u ≡ false
    → find h' a' t ≡ some u
    → find h' a' (set_amount h a v t) ≡ some u
find-set_amount_ne h a v h' a' [] u n e = cc
find-set_amount_ne h a v h' a' (x ∷ t) u n e = ground (arith, find-set_amount_ne h a v h' a' t u n)

-- The row that holds this key, if there is one, is of this token.
abbrev pub IsUncontested : ℕ → ℕ → ℕ → List Utxo → Type 0
IsUncontested h a k = All (λ u. has_key h a u ≡ true → u.token_address ≡ k)

-- The row found under an uncontested key, and what it tells.
pub found {ℓ} :
    {P : Type ℓ} (h a k : ℕ) (t : List Utxo) (u : Utxo)
    → IsUncontested h a k t
    → find h a t ≡ some u
    → (u.transaction_hash ≡ h → u.account_address ≡ a → u.token_address ≡ k → P)
    → P
found h a k t u c e f =
    let hit : has_key h a u ≡ true = first_sound (has_key h a) t e in
    f (ground arith) (ground arith) (All-first _ (has_key h a) t c e hit)

-- A credit under an uncontested key adds its amount to each total that picks it, and nothing to the
-- others.
pub total-credit :
    (p : Picks) (row : Utxo) (t : List Utxo)
    → IsUncontested row.transaction_hash row.account_address row.token_address t
    → total p (credit row t) ≡ total p t + weight p row
unfolding credit
total-credit p row t c = elim (Option-cases (find row.transaction_hash row.account_address t)) [
  | inl e ↦ rw (e, credit) (omega (arith, sum_of-append (weight p) t (row ∷ [])))
  | inr (u, e) ↦
      found row.transaction_hash row.account_address row.token_address t u c e λ eh ea ek.
        rw (e, credit)
          (ground (
            arith,
            total-set_amount p row.transaction_hash row.account_address (u.amount + row.amount) t u,
          ))
]
