-- ===== src/Utxo/Holdings.antt =====
-- The rows that `__sink_on_utxo` reads: they are in the table, under distinct keys, and hold all
-- that the account has of the token.
use ibet_prime.Base.{
  ℕ, ◌-◌, ◌<◌, min, ◌≡◌, refl, Bool, true, false, List, [], ◌∷◌, arith, ◌==◌, ◌&&◌, ltb, ap, ◌∙◌,
  if◌then◌else◌, All, All-mono, All-select, select, select_sound, sum_of,
}
use ibet_prime.Base.Sort.{insert_by, sort_by, sum_of-sort_by, All-insert_by, All-sort_by}
use ibet_prime.Utxo.Table.{Utxo, has_key, older, unspent}
use ibet_prime.Utxo.Totals.{Picks, total, of_holder}
use ibet_prime.Utxo.Loops.{IsHeld, IsKeyed, taken}

-- The rows that a query for an account and token picks.
abbrev pub is_unspent : ℕ → ℕ → Utxo → Bool
is_unspent a k u = u.account_address == a && u.token_address == k && ltb 0 u.amount

pub record IsHolding (a k : ℕ) (u : Utxo) : Type 0 where
  pub of_account : u.account_address ≡ a
  pub of_token : u.token_address ≡ k
  pub positive : 0 < u.amount

pub unspent-IsHolding : (a k : ℕ) (t : List Utxo) → All (IsHolding a k) (unspent a k t)
unfolding unspent
unspent-IsHolding a k t = All-sort_by older (IsHolding a k) (select (is_unspent a k) t) (
    All-mono (λ u. is_unspent a k u ≡ true) (IsHolding a k) (select (is_unspent a k) t)
      (λ u h. ground arith) (select_sound (is_unspent a k) t))

pub unspent-of_token : (a k : ℕ) (t : List Utxo) → All (λ u. u.token_address ≡ k) (unspent a k t)
unspent-of_token a k t =
    All-mono (IsHolding a k) (λ u. u.token_address ≡ k) (unspent a k t) (λ u h. h.of_token)
      (unspent-IsHolding a k t)

-- A row whose key differs from another's is not found in its place.
IsHeld-cons :
    (x : Utxo) (us t : List Utxo)
    → All (λ w. has_key x.transaction_hash x.account_address w ≡ false) us
    → IsHeld t us
    → IsHeld (x ∷ t) us
IsHeld-cons x [] t k h = tt
IsHeld-cons x (u ∷ us) t k h = (ground arith, IsHeld-cons x us t k.1 h.1)

keyed-IsHeld : (t : List Utxo) → IsKeyed t → IsHeld t t
keyed-IsHeld [] k = tt
keyed-IsHeld (u ∷ t) k = (ground arith, IsHeld-cons u t t k.0 (keyed-IsHeld t k.1))

pub unspent-IsHeld : (a k : ℕ) (t : List Utxo) → IsKeyed t → IsHeld t (unspent a k t)
unfolding unspent
unspent-IsHeld a k t h =
    All-sort_by older _ (select (is_unspent a k) t)
      (All-select _ (is_unspent a k) t (keyed-IsHeld t h))

select-IsKeyed : (p : Utxo → Bool) (t : List Utxo) → IsKeyed t → IsKeyed (select p t)
select-IsKeyed p [] k = tt
select-IsKeyed p (u ∷ t) k = ground (
  arith,
  select-IsKeyed p t k.1,
  All-select (λ w. has_key u.transaction_hash u.account_address w ≡ false) p t k.0,
)

insert_by-IsKeyed :
    (x : Utxo) (us : List Utxo)
    → All (λ w. has_key x.transaction_hash x.account_address w ≡ false) us
    → IsKeyed us
    → IsKeyed (insert_by older x us)
insert_by-IsKeyed x [] h k = (tt, tt)
insert_by-IsKeyed x (u ∷ us) h k = ground (
  arith,
  insert_by-IsKeyed x us h.1 k.1,
  All-insert_by older (λ w. has_key u.transaction_hash u.account_address w ≡ false) x us,
)

sort_by-IsKeyed : (us : List Utxo) → IsKeyed us → IsKeyed (sort_by older us)
sort_by-IsKeyed [] k = tt
sort_by-IsKeyed (u ∷ us) k =
    insert_by-IsKeyed u (sort_by older us) (All-sort_by older _ us k.0) (sort_by-IsKeyed us k.1)

pub unspent-IsKeyed : (a k : ℕ) (t : List Utxo) → IsKeyed t → IsKeyed (unspent a k t)
unfolding unspent
unspent-IsKeyed a k t h = sort_by-IsKeyed (select (is_unspent a k) t) (select-IsKeyed _ t h)

abbrev amounts : List Utxo → ℕ
amounts = sum_of (λ u. u.amount)

amounts-select :
    (a k : ℕ) (t : List Utxo) → amounts (select (is_unspent a k) t) ≡ total (of_holder a k) t
amounts-select a k [] = refl
amounts-select a k (u ∷ t) = ground (arith, amounts-select a k t)

-- What is unspent is what the account holds.
pub amounts-unspent : (a k : ℕ) (t : List Utxo) → amounts (unspent a k t) ≡ total (of_holder a k) t
unfolding unspent
amounts-unspent a k t =
    omega (
      arith,
      sum_of-sort_by older (λ u. u.amount) (select (is_unspent a k) t),
      amounts-select a k t,
    )

-- A condition that picks every row of a holding takes the amount asked for, or all there is.
taken-All :
    (p : Picks) (a k rem : ℕ) (us : List Utxo)
    → ((h : ℕ) → p h a k ≡ true)
    → All (IsHolding a k) us
    → taken p rem us ≡ min rem (amounts us)
taken-All p a k rem [] all h = omega arith
taken-All p a k rem (u ∷ us) all h =
    ground
      (arith, all u.transaction_hash, h.0.of_account, taken-All p a k (rem - u.amount) us all h.1)

-- A condition that picks no row of a holding takes nothing.
taken_none :
    (p : Picks) (a k rem : ℕ) (us : List Utxo)
    → ((h : ℕ) → p h a k ≡ false)
    → All (IsHolding a k) us
    → taken p rem us ≡ 0
taken_none p a k rem [] off h = refl
taken_none p a k rem (u ∷ us) off h =
    ground (arith, off u.transaction_hash, taken_none p a k (rem - u.amount) us off h.1)

-- Where a condition picks by account and token alone, what is taken of a holding is the amount
-- asked for, or all there is, or nothing.
pub taken-unspent :
    (p : Picks) (a k rem : ℕ) (t : List Utxo) (b : Bool)
    → ((h : ℕ) → p h a k ≡ b)
    → taken p rem (unspent a k t) ≡ (if b then min rem (total (of_holder a k) t) else 0)
taken-unspent p a k rem t true all =
    taken-All p a k rem (unspent a k t) all (unspent-IsHolding a k t)
    ∙ ap (min rem) (amounts-unspent a k t)
taken-unspent p a k rem t false off =
    taken_none p a k rem (unspent a k t) off (unspent-IsHolding a k t)
