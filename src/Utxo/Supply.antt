-- ===== src/Utxo/Supply.antt =====
-- What the loops over `Issue` and `Redeem` events do to the balances.
use ibet_prime.Base.{
  ℕ, ◌+◌, ◌-◌, ◌≡◌, refl, Bool, true, false, List, [], ◌∷◌, Option, some, none, arith, ◌==◌, leb,
  if◌then◌else◌, inl, inr, Bool-cases, Option-cases, All, All-mono, sum_of,
}
use ibet_prime.Chain.{Chain, Address, Event, EventName, ArgName, maxsize, address_arg}
use ibet_prime.Logs.{for_each}
use ibet_prime.Tokens.{Token}
use ibet_prime.Utxo.Table.{Utxo}
use ibet_prime.Utxo.Sink.{sink_on_utxo}
use ibet_prime.Utxo.Totals.{total, of_holder, IsUncontested}
use ibet_prime.Utxo.Loops.{IsKeyed, All-credit}
use ibet_prime.Utxo.Keys.{sink_on_utxo-IsKeyed}
use ibet_prime.Utxo.Balances.{total-sink_on_utxo_spent, total-sink_on_utxo_credited}
use ibet_prime.Utxo.Events.{State, row_of, sink_supply, process_issue, process_redeem}

-- The amount of an event, if it has one that fits.
abbrev pub fitting : Option ℕ → ℕ
fitting none = 0
fitting (some amount) = if leb amount maxsize then amount else 0

-- The amount that an event of a token names for a holder.
abbrev pub amount_for : Address → Event → ℕ
amount_for a e =
    if address_arg e ArgName.target_address == a then fitting (e.args ArgName.amount) else 0

-- No event credits a row of another token.
abbrev pub IsClear : Address → List Event → List Utxo → Type 0
IsClear token es t =
    All (λ e. IsUncontested e.transaction_hash (address_arg e ArgName.target_address) token t) es

-- The table after an event that supplies or takes tokens.
abbrev supplied : Bool → Chain → Address → Event → List Utxo → List Utxo
supplied spent c token e t = elim (e.args ArgName.amount) [
  | none ↦ t
  | some amount ↦
      if leb amount maxsize
      then sink_on_utxo spent (row_of c token (address_arg e ArgName.target_address) amount e) none
          t
      else t
]

sink_supply-supplied :
    (spent : Bool) (c : Chain) (token : Address) (e : Event) (t : List Utxo) (b : Bool)
    → (b' : Bool) × (sink_supply spent c token e (t, b) ≡ some (supplied spent c token e t, b'))
unfolding sink_supply
sink_supply-supplied spent c token e t b = elim (Option-cases (e.args ArgName.amount)) [
  | inl absent ↦ (b, rw (absent, supplied))
  | inr (amount, found) ↦ elim (Bool-cases (leb amount maxsize)) [
    | inl fits ↦ (true, rw (found, supplied) (rw fits))
    | inr over ↦ (b, rw (found, supplied) (rw over))
  ]
]

total-supplied_issue :
    (c : Chain) (token a : Address) (e : Event) (t : List Utxo)
    → IsUncontested e.transaction_hash (address_arg e ArgName.target_address) token t
    → total (of_holder a token) (supplied false c token e t)
      ≡ total (of_holder a token) t + amount_for a e
total-supplied_issue c token a e t clear = elim (Option-cases (e.args ArgName.amount)) [
  | inl absent ↦ rw absent (ground arith)
  | inr (amount, found) ↦
      let row = row_of c token (address_arg e ArgName.target_address) amount e in
      rw found (ground (arith, total-sink_on_utxo_credited row a token t clear))
]

supplied-IsUncontested :
    (c : Chain) (token : Address) (e : Event) (t : List Utxo) (h a : ℕ)
    → IsUncontested h a token t
    → IsUncontested h a token (supplied false c token e t)
unfolding sink_on_utxo
supplied-IsUncontested c token e t h a clear = elim (Option-cases (e.args ArgName.amount)) [
  | inl absent ↦ rw (absent, supplied) clear
  | inr (amount, found) ↦ elim (Bool-cases (leb amount maxsize)) [
    | inl fits ↦
        rw (found, supplied)
          (rw (fits) (
            All-credit _ (row_of c token (address_arg e ArgName.target_address) amount e) t
              (λ w v f. f) (λ hit. refl) clear))
    | inr over ↦ rw (found, supplied) (rw over clear)
  ]
]

total-supplied_redeem :
    (c : Chain) (token a : Address) (e : Event) (t : List Utxo)
    → IsKeyed t
    → total (of_holder a token) (supplied true c token e t)
      ≡ total (of_holder a token) t - amount_for a e
total-supplied_redeem c token a e t keyed = elim (Option-cases (e.args ArgName.amount)) [
  | inl absent ↦ rw absent (ground arith)
  | inr (amount, found) ↦
      let row = row_of c token (address_arg e ArgName.target_address) amount e in
      rw found (ground (arith, total-sink_on_utxo_spent row none a token t keyed))
]

supplied-IsKeyed :
    (c : Chain) (token : Address) (e : Event) (t : List Utxo)
    → IsKeyed t
    → IsKeyed (supplied true c token e t)
supplied-IsKeyed c token e t keyed = elim (Option-cases (e.args ArgName.amount)) [
  | inl absent ↦ rw (absent, supplied) keyed
  | inr (amount, found) ↦
      let row = row_of c token (address_arg e ArgName.target_address) amount e in
      rw (found, supplied) (ground (arith, sink_on_utxo-IsKeyed true row none t keyed))
]

for_each_issue :
    (c : Chain) (token a : Address) (es : List Event) (t : List Utxo) (b : Bool)
    → IsClear token es t
    → (s : State) × (for_each (sink_supply false c token) es (t, b) ≡ some s)
      × (total (of_holder a token) s.0 ≡ total (of_holder a token) t + sum_of (amount_for a) es)
unfolding for_each
for_each_issue c token a [] t b clear = ((t, b), refl, omega arith)
for_each_issue c token a (e ∷ es) t b clear =
    let (b', step) = sink_supply-supplied false c token e t b in
    let t' = supplied false c token e t in
    let (s, ended, added) = for_each_issue c token a es t' b' (
      All-mono _ _ es
        (λ f.
          supplied-IsUncontested c token e t f.transaction_hash
            (address_arg f ArgName.target_address))
        clear.1) in
    (s, rw step ended, omega (arith, added, total-supplied_issue c token a e t clear.0))

for_each_redeem :
    (c : Chain) (token a : Address) (es : List Event) (t : List Utxo) (b : Bool)
    → IsKeyed t
    → (s : State) × (for_each (sink_supply true c token) es (t, b) ≡ some s)
      × (total (of_holder a token) s.0 ≡ total (of_holder a token) t - sum_of (amount_for a) es)
unfolding for_each
for_each_redeem c token a [] t b keyed = ((t, b), refl, omega arith)
for_each_redeem c token a (e ∷ es) t b keyed =
    let (b', step) = sink_supply-supplied true c token e t b in
    let t' = supplied true c token e t in
    let (s, ended, taken) =
      for_each_redeem c token a es t' b' (supplied-IsKeyed c token e t keyed) in
    (s, rw step ended, omega (arith, taken, total-supplied_redeem c token a e t keyed))

-- Where no event credits a row of another token, the issue pass ends, and raises each holder's
-- balance by the sum of the amounts, as far as they fit, that its events name for the holder.
pub total-process_issue :
    (c : Chain) (token : Token) (m n a : ℕ) (t : List Utxo)
    → IsClear token.token_address (c.get_event_logs token.token_address EventName.issue [] m n) t
    → (s : State) × (process_issue c token m n t ≡ some s)
      × (total (of_holder a token.token_address) s.0
          ≡ total (of_holder a token.token_address) t
            + sum_of (amount_for a) (c.get_event_logs token.token_address EventName.issue [] m n))
unfolding process_issue
total-process_issue c token m n a t clear =
    for_each_issue c token.token_address a
      (c.get_event_logs token.token_address EventName.issue [] m n) t false clear

-- Where no two rows have one key, the redeem pass ends, and lowers each holder's balance, at most
-- to zero, by the sum of the amounts, as far as they fit, that its events name for the holder.
pub total-process_redeem :
    (c : Chain) (token : Token) (m n a : ℕ) (t : List Utxo)
    → IsKeyed t
    → (s : State) × (process_redeem c token m n t ≡ some s)
      × (total (of_holder a token.token_address) s.0
          ≡ total (of_holder a token.token_address) t
            - sum_of (amount_for a) (c.get_event_logs token.token_address EventName.redeem [] m n))
unfolding process_redeem
total-process_redeem c token m n a t keyed =
    for_each_redeem c token.token_address a
      (c.get_event_logs token.token_address EventName.redeem [] m n) t false keyed
