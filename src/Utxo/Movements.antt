-- ===== src/Utxo/Movements.antt =====
-- What one transfer event does to the table: the crediting and the spending call together.
use ibet_prime.Base.{
  ℕ, ◌+◌, ◌≤◌, min, ◌≡◌, refl, ap, ◌∙◌, ◌≢◌, Bool, true, false, List, Option, some, none, arith,
  ◌==◌, if◌then◌else◌, first_sound,
}
use ibet_prime.Chain.{Chain, Event}
use ibet_prime.Utxo.Table.{Utxo, has_key, find, unspent}
use ibet_prime.Utxo.Sink.{credit, sink_on_utxo}
use ibet_prime.Utxo.Totals.{
  total, of_holder, of_token, IsUncontested, total-credit, total-set_amount,
}
use ibet_prime.Utxo.Loops.{IsKeyed, IsFree, taken, total-spend, total-reallocate}
use ibet_prime.Utxo.Keys.{sink_on_utxo-IsKeyed}
use ibet_prime.Utxo.Holdings.{unspent-of_token, unspent-IsHeld, unspent-IsKeyed, taken-unspent}
use ibet_prime.Utxo.Provenance.{unspent-credit, unspent-reallocate}
use ibet_prime.Utxo.Events.{Parties, row_of, sink_movement}

-- The rows that the crediting call writes to hold no other token.
abbrev pub IsClear : Utxo → Option ℕ → List Utxo → Type 0
IsClear row none t = IsUncontested row.transaction_hash row.account_address row.token_address t
IsClear row (some source) t =
    IsFree row.account_address row.token_address (unspent source row.token_address t) t

-- The amount that a crediting call gives.
abbrev pub given : Utxo → Option ℕ → List Utxo → ℕ
given row none t = row.amount
given row (some source) t = min row.amount (total (of_holder source row.token_address) t)

total-credited :
    (row : Utxo) (r : Option ℕ) (k : ℕ) (t : List Utxo)
    → IsClear row r t
    → total (of_token k) (sink_on_utxo false row r t)
      ≡ total (of_token k) t + (if row.token_address == k then given row r t else 0)
unfolding sink_on_utxo
total-credited row none k t c = total-credit (of_token k) row t c
total-credited row (some source) k t c =
    total-reallocate (of_token k) row.account_address row.token_address row.amount
      (unspent source row.token_address t) t (unspent-of_token source row.token_address t) c
    ∙ ap (◌+◌ (total (of_token k) t)) (
        taken-unspent (of_token k) source row.token_address row.amount t (row.token_address == k)
          (λ h. refl))

-- A crediting call to another account leaves what an account can spend.
unspent-credited :
    (a k : ℕ) (row : Utxo) (r : Option ℕ) (t : List Utxo)
    → row.account_address ≢ a
    → unspent a k (sink_on_utxo false row r t) ≡ unspent a k t
unfolding sink_on_utxo
unspent-credited a k row none t n = unspent-credit a k row t n
unspent-credited a k row (some source) t n =
    unspent-reallocate a k row.account_address row.amount (unspent source row.token_address t) t n

total-spent :
    (row : Utxo) (k : ℕ) (t t' : List Utxo)
    → IsKeyed t'
    → unspent row.account_address row.token_address t'
      ≡ unspent row.account_address row.token_address t
    → total (of_token k) (sink_on_utxo true row none t')
        + (if row.token_address == k
            then min row.amount (total (of_holder row.account_address row.token_address) t)
            else 0)
      ≡ total (of_token k) t'
unfolding sink_on_utxo
total-spent row k t t' keyed same = omega (
  arith,
  total-spend (of_token k) row.amount (unspent a tok t') t' (unspent-IsHeld a tok t' keyed)
      (unspent-IsKeyed a tok t' keyed),
  ap (taken (of_token k) row.amount) same,
  taken-unspent (of_token k) a tok row.amount t (tok == k) (λ h. refl),
)
  where
    a : ℕ
    a = row.account_address

    tok : ℕ
    tok = row.token_address

-- Where no two rows have one key, a transfer event between two accounts whose amount the giver
-- holds conserves the total amount of every token, also as a reallocation, if the rows that it
-- credits hold no other token.
pub total-sink_movement :
    (c : Chain) (token k amount : ℕ) (e : Event) (p : Parties) (reallocates : Bool) (t : List Utxo)
    (triggered : Bool)
    → IsKeyed t
    → p.amount ≡ some amount
    → p.to_account ≢ p.from_account
    → amount ≤ total (of_holder p.from_account token) t
    → IsClear
        (row_of c token p.to_account amount e)
        (if reallocates then some p.from_account else none)
        t
    → total
        (of_token k)
        (sink_movement c token e p
          (if reallocates then some p.from_account else none)
          (t, triggered)).0
      ≡ total (of_token k) t
unfolding sink_movement
total-sink_movement c token k amount e p b t triggered keyed found n covered clear =
    rw (found, sink_movement)
      (ground (
        arith,
        total-credited taker r k t clear,
        total-spent giver k t (sink_on_utxo false taker r t)
            (sink_on_utxo-IsKeyed false taker r t keyed)
            (unspent-credited p.from_account token taker r t n),
        given_all b,
      ))
  where
    r : Option ℕ
    r = if b then some p.from_account else none

    taker : Utxo
    taker = row_of c token p.to_account amount e

    giver : Utxo
    giver = row_of c token p.from_account amount e

    given_all : (b : Bool) → given taker (if b then some p.from_account else none) t ≡ amount
    given_all true = omega arith
    given_all false = refl

-- The key of a row names no token: a credit under a key that a row of another token holds goes to
-- that token. The balance credited by rights stays as it was, and the other token's grows.
pub credit_contested :
    (row u : Utxo) (t : List Utxo)
    → find row.transaction_hash row.account_address t ≡ some u
    → u.token_address ≢ row.token_address
    → (total (of_holder row.account_address row.token_address) (sink_on_utxo false row none t)
        ≡ total (of_holder row.account_address row.token_address) t)
      × (total (of_holder row.account_address u.token_address) (sink_on_utxo false row none t)
          ≡ total (of_holder row.account_address u.token_address) t + row.amount)
unfolding sink_on_utxo credit
credit_contested row u t e n =
    let h = row.transaction_hash in
    let a = row.account_address in
    let hit : has_key h a u ≡ true = first_sound (has_key h a) t e in
    let sums = λ (k : ℕ). total-set_amount (of_holder a k) h a (u.amount + row.amount) t u e in
    rw (e, credit) (ground (arith, sums row.token_address), ground (arith, sums u.token_address))
