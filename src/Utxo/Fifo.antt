-- ===== src/Utxo/Fifo.antt =====
-- Rows are spent oldest first.
use ibet_prime.Base.{
  ℕ, ◌-◌, ◌≤◌, ◌<◌, ◌≡◌, refl, Bool, true, false, List, [], ◌∷◌, Option, some, arith, ◌==◌, leb,
  ◌⊎◌, inl, inr, Bool-cases, All, All-mono, select,
}
use ibet_prime.Base.Sort.{insert_by, sort_by, All-insert_by}
use ibet_prime.Utxo.Table.{Utxo, has_key, find, set_amount, older, unspent}
use ibet_prime.Utxo.Sink.{spend, sink_on_utxo}
use ibet_prime.Utxo.Totals.{find-set_amount_ne}
use ibet_prime.Utxo.Loops.{IsHeld, IsKeyed, set_amount-IsHeld}
use ibet_prime.Utxo.Holdings.{IsHolding, is_unspent, unspent-IsHeld, unspent-IsKeyed}

-- A row stands in a list of rows.
pub data Among (u : Utxo) : List Utxo → Type 0 where
  here : {us : List Utxo} → Among u (u ∷ us)
  there : {w : Utxo} {us : List Utxo} → Among u us → Among u (w ∷ us)

All-among {ℓ} : (P : Utxo → Type ℓ) {u : Utxo} {us : List Utxo} → All P us → Among u us → P u
All-among P h here = h.0
All-among P h (there m) = All-among P h.1 m

abbrev IsSorted : List Utxo → Type 0
IsSorted [] = Unit
IsSorted (u ∷ us) = All (λ w. u.block_timestamp ≤ w.block_timestamp) us × IsSorted us

find-set_amount_self :
    (h a v : ℕ) (t : List Utxo) (u : Utxo)
    → find h a t ≡ some u
    → find h a (set_amount h a v t) ≡ some (record u { amount = v })
find-set_amount_self h a v [] u e = cc
find-set_amount_self h a v (x ∷ t) u e = ground (arith, find-set_amount_self h a v t u)

-- A row that no spent row shares its key with stays as it is.
find-spend_ne :
    (rem : ℕ) (us t : List Utxo) (x : Utxo)
    → All (λ u. has_key u.transaction_hash u.account_address x ≡ false) us
    → find x.transaction_hash x.account_address t ≡ some x
    → find x.transaction_hash x.account_address (spend rem us t) ≡ some x
unfolding spend
find-spend_ne rem [] t x n e = e
find-spend_ne rem (u ∷ us) t x n e = ground (
  arith,
  kept 0,
  kept (u.amount - rem),
  find-spend_ne (rem - u.amount) us (written 0) x n.1,
  find-spend_ne 0 us (written (u.amount - rem)) x n.1,
)
  where
    written : ℕ → List Utxo
    written v = set_amount u.transaction_hash u.account_address v t

    kept : (v : ℕ) → find x.transaction_hash x.account_address (written v) ≡ some x
    kept v =
        find-set_amount_ne u.transaction_hash u.account_address v x.transaction_hash
          x.account_address t x n.0 e

-- The key of a row is the key of no other row of a keyed list, whichever of the two is asked.
flip_key :
    (u : Utxo) (us : List Utxo)
    → All (λ w. has_key u.transaction_hash u.account_address w ≡ false) us
    → All (λ w. has_key w.transaction_hash w.account_address u ≡ false) us
flip_key u us =
    All-mono (λ w. has_key u.transaction_hash u.account_address w ≡ false)
      (λ w. has_key w.transaction_hash w.account_address u ≡ false) us (λ w h. ground arith)

-- Spent in this order, a row is untouched, or each row before it is spent whole.
abbrev pub IsSpentFirst : Utxo → Utxo → List Utxo → Type 0
IsSpentFirst u w t =
    (find w.transaction_hash w.account_address t ≡ some w)
    ⊎ (find u.transaction_hash u.account_address t ≡ some (record u { amount = 0 }))

spend_zero : (us t : List Utxo) → spend 0 us t ≡ t
unfolding spend
spend_zero [] t = refl
spend_zero (u ∷ us) t = refl

spend-IsSpentFirst :
    (rem : ℕ) (us t : List Utxo) (u w : Utxo)
    → IsKeyed us
    → IsSorted us
    → IsHeld t us
    → Among u us
    → Among w us
    → u.block_timestamp < w.block_timestamp
    → IsSpentFirst u w (spend rem us t)
unfolding spend
spend-IsSpentFirst rem [] t u w k s h m n lt = elim m [ ]
spend-IsSpentFirst rem (x ∷ us) t u w k s h here here lt = absurd (omega arith)
spend-IsSpentFirst rem (x ∷ us) t u w k s h here (there m) lt = elim (Bool-cases (rem == 0)) [
  | inl over ↦ rw (over, spend) (inl (All-among _ h.1 m))
  | inr more ↦ elim (Bool-cases (leb u.amount rem)) [
    | inl whole ↦
        rw (more, whole, spend)
          (inr (
            find-spend_ne (rem - u.amount) us (set_amount u.transaction_hash u.account_address 0 t)
              (record u { amount = 0 }) (flip_key u us k.0)
              (find-set_amount_self u.transaction_hash u.account_address 0 t u h.0)))
    | inr part ↦
        rw (more, part, spend)
          (rw spend_zero (inl (All-among _ (set_amount-IsHeld u (u.amount - rem) us t k.0 h.1) m)))
  ]
]
spend-IsSpentFirst rem (x ∷ us) t u w k s h (there m) here lt =
    let later = All-among (λ y. x.block_timestamp ≤ y.block_timestamp) s.0 m in absurd (omega arith)
spend-IsSpentFirst rem (x ∷ us) t u w k s h (there m) (there n) lt =
    let next = λ (r v : ℕ).
      spend-IsSpentFirst r us (set_amount x.transaction_hash x.account_address v t) u w k.1 s.1
        (set_amount-IsHeld x v us t k.0 h.1) m n lt in
    elim (Bool-cases (rem == 0)) [
      | inl over ↦ rw (over, spend) (inl (All-among _ h.1 n))
      | inr more ↦ elim (Bool-cases (leb x.amount rem)) [
        | inl whole ↦ rw (more, whole, spend) (next (rem - x.amount) 0)
        | inr part ↦ rw (more, part, spend) (next 0 (x.amount - rem))
      ]
    ]

Among-select :
    (p : Utxo → Bool) {u : Utxo} (t : List Utxo) → p u ≡ true → Among u t → Among u (select p t)
Among-select p [] h m = elim m [ ]
Among-select p (u ∷ t) h here = rw h here
Among-select p (x ∷ t) h (there m) = elim (Bool-cases (p x)) [
  | inl kept ↦ rw kept (there (Among-select p t h m))
  | inr dropped ↦ rw dropped (Among-select p t h m)
]

Among-insert_by_self : (u : Utxo) (us : List Utxo) → Among u (insert_by older u us)
Among-insert_by_self u [] = here
Among-insert_by_self u (x ∷ us) = elim (Bool-cases (older u x)) [
  | inl first ↦ rw first here
  | inr later ↦ rw later (there (Among-insert_by_self u us))
]

Among-insert_by :
    (x : Utxo) {u : Utxo} (us : List Utxo) → Among u us → Among u (insert_by older x us)
Among-insert_by x [] m = elim m [ ]
Among-insert_by x (y ∷ us) here = elim (Bool-cases (older x y)) [
  | inl first ↦ rw first (there here)
  | inr later ↦ rw later here
]
Among-insert_by x (y ∷ us) (there m) = elim (Bool-cases (older x y)) [
  | inl first ↦ rw first (there (there m))
  | inr later ↦ rw later (there (Among-insert_by x us m))
]

Among-sort_by : {u : Utxo} (us : List Utxo) → Among u us → Among u (sort_by older us)
Among-sort_by [] m = elim m [ ]
Among-sort_by (u ∷ us) here = Among-insert_by_self u (sort_by older us)
Among-sort_by (x ∷ us) (there m) = Among-insert_by x (sort_by older us) (Among-sort_by us m)

insert_by-IsSorted : (x : Utxo) (us : List Utxo) → IsSorted us → IsSorted (insert_by older x us)
insert_by-IsSorted x [] s = (tt, tt)
insert_by-IsSorted x (y ∷ us) s = elim (Bool-cases (older x y)) [
  | inl first ↦
      let lt : x.block_timestamp ≤ y.block_timestamp = ground arith in
      rw first (
        (
          lt,
          All-mono (λ w. y.block_timestamp ≤ w.block_timestamp)
              (λ w. x.block_timestamp ≤ w.block_timestamp) us (λ w h. omega arith) s.0,
        ),
        s,
      )
  | inr later ↦ rw later (
    All-insert_by older (λ w. y.block_timestamp ≤ w.block_timestamp) x us (ground arith) s.0,
    insert_by-IsSorted x us s.1,
  )
]

sort_by-IsSorted : (us : List Utxo) → IsSorted (sort_by older us)
sort_by-IsSorted [] = tt
sort_by-IsSorted (u ∷ us) = insert_by-IsSorted u (sort_by older us) (sort_by-IsSorted us)

-- Where no two rows have one key, a spending call takes the rows of the account and token oldest
-- first: of two unspent rows, the newer is untouched, or the older is spent whole.
pub sink_on_utxo-IsSpentFirst :
    (row : Utxo) (r : Option ℕ) (t : List Utxo) (u w : Utxo)
    → IsKeyed t
    → IsHolding row.account_address row.token_address u
    → IsHolding row.account_address row.token_address w
    → Among u t
    → Among w t
    → u.block_timestamp < w.block_timestamp
    → IsSpentFirst u w (sink_on_utxo true row r t)
unfolding sink_on_utxo unspent
sink_on_utxo-IsSpentFirst row r t u w k hu hw mu mw lt =
    spend-IsSpentFirst row.amount (unspent a tok t) t u w (unspent-IsKeyed a tok t k)
      (sort_by-IsSorted (select (is_unspent a tok) t)) (unspent-IsHeld a tok t k)
      (Among-sort_by _ (Among-select (is_unspent a tok) t (ground arith) mu))
      (Among-sort_by _ (Among-select (is_unspent a tok) t (ground arith) mw)) lt
  where
    a : ℕ
    a = row.account_address

    tok : ℕ
    tok = row.token_address
