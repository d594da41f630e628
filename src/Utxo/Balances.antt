-- ===== src/Utxo/Balances.antt =====
-- What one call of `__sink_on_utxo` does to each holder's balance and to each origin's amount.
use ibet_prime.Base.{
  ℕ, ◌+◌, ◌-◌, min, ◌≡◌, refl, ap, ◌∙◌, true, false, List, Option, some, none, arith, ◌==◌, ◌&&◌,
  if◌then◌else◌,
}
use ibet_prime.Utxo.Table.{Utxo, unspent}
use ibet_prime.Utxo.Sink.{sink_on_utxo}
use ibet_prime.Utxo.Totals.{total, of_holder, IsUncontested, total-credit}
use ibet_prime.Utxo.Loops.{IsKeyed, IsFree, total-spend, total-reallocate}
use ibet_prime.Utxo.Holdings.{unspent-of_token, unspent-IsHeld, unspent-IsKeyed, taken-unspent}

-- Where no two rows have one key, spending lowers the balance of the account and token by the
-- amount, at most to zero, and leaves every other balance alone.
pub total-sink_on_utxo_spent :
    (row : Utxo) (r : Option ℕ) (a k : ℕ) (t : List Utxo)
    → IsKeyed t
    → total (of_holder a k) (sink_on_utxo true row r t)
      ≡ total (of_holder a k) t
        - (if row.account_address == a && row.token_address == k then row.amount else 0)
unfolding sink_on_utxo
total-sink_on_utxo_spent row r a k t h = ground (
  arith,
  total-spend (of_holder a k) row.amount (unspent row.account_address row.token_address t) t
      (unspent-IsHeld row.account_address row.token_address t h)
      (unspent-IsKeyed row.account_address row.token_address t h),
  taken-unspent (of_holder a k) row.account_address row.token_address row.amount t
      (row.account_address == a && row.token_address == k) (λ h. refl),
)

-- A credit under a key that no other token's row holds raises the balance of the account and token
-- by the amount, and leaves every other balance alone.
pub total-sink_on_utxo_credited :
    (row : Utxo) (a k : ℕ) (t : List Utxo)
    → IsUncontested row.transaction_hash row.account_address row.token_address t
    → total (of_holder a k) (sink_on_utxo false row none t)
      ≡ total (of_holder a k) t
        + (if row.account_address == a && row.token_address == k then row.amount else 0)
unfolding sink_on_utxo
total-sink_on_utxo_credited row a k t c = total-credit (of_holder a k) row t c

-- Where no row of another token is credited, a reallocation gives the new holder the amount, or all
-- that the source holds if that is less, and leaves every other balance alone, the source's too.
pub total-sink_on_utxo_reallocated :
    (row : Utxo) (source a k : ℕ) (t : List Utxo)
    → IsFree row.account_address row.token_address (unspent source row.token_address t) t
    → total (of_holder a k) (sink_on_utxo false row (some source) t)
      ≡ total (of_holder a k) t
        + (if row.account_address == a && row.token_address == k
            then min row.amount (total (of_holder source row.token_address) t)
            else 0)
unfolding sink_on_utxo
total-sink_on_utxo_reallocated row source a k t f =
    total-reallocate (of_holder a k) row.account_address row.token_address row.amount
      (unspent source row.token_address t) t (unspent-of_token source row.token_address t) f
    ∙ ap (◌+◌ (total (of_holder a k) t)) (
        taken-unspent (λ _ _ token. row.account_address == a && token == k) source row.token_address
          row.amount t (row.account_address == a && row.token_address == k) (λ h. refl))
