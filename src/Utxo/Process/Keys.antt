-- ===== src/Utxo/Process/Keys.antt =====
-- The primary key through a whole run of the processor.
use ibet_prime.Base.{
  ℕ, ◌+◌, ◌≡◌, Bool, true, false, List, [], ◌∷◌, Option, none, some, arith, >>=-eq-some, leb, subst,
  ◌⊎◌, ◌||◌, ◌==◌, Option-cases, if◌then◌else◌, Bool-cases, inl, inr,
}
use ibet_prime.Base.Sort.{sort_by}
use ibet_prime.Chain.{Address, Chain, Event, EventName, ArgName, maxsize, address_arg}
use ibet_prime.Logs.{for_each, earlier}
use ibet_prime.Tokens.{Token, issued_tokens}
use ibet_prime.Utxo.Table.{Utxo}
use ibet_prime.Utxo.Sink.{sink_on_utxo}
use ibet_prime.Utxo.Loops.{IsKeyed}
use ibet_prime.Utxo.Keys.{sink_on_utxo-IsKeyed}
use ibet_prime.Utxo.Events.{
  parties_of, is_reallocation, State, Parties, row_of, sink_movement, sink_transfer, sink_supply,
  process_transfer, process_issue, process_redeem, transfer_events,
}
use ibet_prime.Utxo.Process.{
  Database, Request, sync_token, sync_tokens, process, utxo_block_number, block_lot,
}

-- A step keeps the primary key, if it does not raise.
abbrev KeepsKeys : (State → Option State) → Type 0
KeepsKeys f = (s s' : State) → IsKeyed s.0 → f s ≡ some s' → IsKeyed s'.0

same : (s s' : State) → IsKeyed s.0 → some s ≡ some s' → IsKeyed s'.0
same s s' k h = let e : s ≡ s' = cc in subst (λ (x : State). IsKeyed x.0) e k

sink_movement-IsKeyed :
    (c : Chain) (token : Address) (e : Event) (p : Parties) (r : Option Address) (s : State)
    → IsKeyed s.0
    → IsKeyed (sink_movement c token e p r s).0
unfolding sink_movement
sink_movement-IsKeyed c token e p r (t, b) k = elim (Option-cases p.amount) [
  | inl absent ↦ rw (absent, sink_movement) k
  | inr (amount, found) ↦
      let taker : Utxo = row_of c token p.to_account amount e in
      let giver : Utxo = row_of c token p.from_account amount e in
      rw (found, sink_movement)
        (ground (
          arith,
          sink_on_utxo-IsKeyed true giver none (sink_on_utxo false taker r t)
              (sink_on_utxo-IsKeyed false taker r t k),
        ))
]

sink_supply-IsKeyed :
    (spent : Bool) (c : Chain) (token : Address) (e : Event)
    → KeepsKeys (sink_supply spent c token e)
unfolding sink_supply
sink_supply-IsKeyed spent c token e (t, b) s' k h = elim (Option-cases (e.args ArgName.amount)) [
  | inl absent ↦ same (t, b) s' k (rw absent at h)
  | inr (amount, found) ↦ elim (Bool-cases (leb amount maxsize)) [
    | inl fits ↦
        same _ s'
          (sink_on_utxo-IsKeyed spent
            (row_of c token (address_arg e ArgName.target_address) amount e) none t k)
          (rw (found, fits) at h)
    | inr over ↦ same (t, b) s' k (rw (found, over) at h)
  ]
]

-- The body of the transfer loop leaves the state alone, or makes the two sinks.
pub sink_transfer-cases :
    (c : Chain) (token : Address) (e : Event) (s s' : State)
    → sink_transfer c token e s ≡ some s'
    → (s' ≡ s) ⊎ ((p : Parties) × (r : Option Address) × (s' ≡ sink_movement c token e p r s))
unfolding sink_transfer
sink_transfer-cases c token e s s' h =
    let (p, found, rest) = >>=-eq-some (parties_of e.event e) _ h in
    elim (Bool-cases
      (c.has_code p.from_account || c.has_code p.to_account || p.from_account == p.to_account)) [
        | inl skip ↦ let rest' : some s ≡ some s' = rw skip at rest in inl (cc)
        | inr go ↦
            let (b, purpose, done) = >>=-eq-some (is_reallocation c e) _ (rw go at rest) in
            inr (p, (if b then some p.from_account else none), cc)
      ]

sink_transfer-IsKeyed :
    (c : Chain) (token : Address) (e : Event) → KeepsKeys (sink_transfer c token e)
unfolding sink_transfer
sink_transfer-IsKeyed c token e s s' k h = elim (sink_transfer-cases c token e s s' h) [
  | inl unchanged ↦ rw unchanged k
  | inr (p, r, sunk) ↦ rw sunk (sink_movement-IsKeyed c token e p r s k)
]

for_each-IsKeyed :
    (body : Event → State → Option State)
    → ((e : Event) → KeepsKeys (body e))
    → (es : List Event) → KeepsKeys (for_each body es)
unfolding for_each
for_each-IsKeyed body keep [] s s' k h = same s s' k h
for_each-IsKeyed body keep (e ∷ es) s s' k h =
    let (s1, e1, h1) = >>=-eq-some (body e s) (for_each body es) h in
    for_each-IsKeyed body keep es s1 s' (keep e s s1 k e1) h1

-- The three passes over a token's events.
process_issue-IsKeyed :
    (c : Chain) (token : Token) (m n : ℕ) (t : List Utxo) (s : State)
    → IsKeyed t
    → process_issue c token m n t ≡ some s
    → IsKeyed s.0
unfolding process_issue
process_issue-IsKeyed c token m n t s k h =
    for_each-IsKeyed _ (sink_supply-IsKeyed false c token.token_address)
      (c.get_event_logs token.token_address EventName.issue [] m n) (t, false) s k h

process_redeem-IsKeyed :
    (c : Chain) (token : Token) (m n : ℕ) (t : List Utxo) (s : State)
    → IsKeyed t
    → process_redeem c token m n t ≡ some s
    → IsKeyed s.0
unfolding process_redeem
process_redeem-IsKeyed c token m n t s k h =
    for_each-IsKeyed _ (sink_supply-IsKeyed true c token.token_address)
      (c.get_event_logs token.token_address EventName.redeem [] m n) (t, false) s k h

process_transfer-IsKeyed :
    (c : Chain) (token : Token) (m n : ℕ) (t : List Utxo) (s : State)
    → IsKeyed t
    → process_transfer c token m n t ≡ some s
    → IsKeyed s.0
unfolding process_transfer
process_transfer-IsKeyed c token m n t s k h =
    let (events, _, done) = >>=-eq-some (transfer_events c token m n) _ h in
    for_each-IsKeyed _ (sink_transfer-IsKeyed c token.token_address) (sort_by earlier events)
      (t, false) s k done

module _ {D : Type 0} (c : Chain) (request : Request D) where
  sync_token-IsKeyed :
      (m n : ℕ) (token : Token) (db db' : Database D)
      → IsKeyed db.utxos
      → sync_token c request m n token db ≡ some db'
      → IsKeyed db'.utxos
  unfolding sync_token
  sync_token-IsKeyed m n token db db' k h =
      let (s1, e1, h1) = >>=-eq-some (process_issue c token m n db.utxos) _ h in
      let (s2, e2, h2) = >>=-eq-some (process_transfer c token m n s1.0) _ h1 in
      let (s3, e3, h3) = >>=-eq-some (process_redeem c token m n s2.0) _ h2 in
      let k3 : IsKeyed s3.0 =
        process_redeem-IsKeyed c token m n s2.0 s3
          (process_transfer-IsKeyed c token m n s1.0 s2
            (process_issue-IsKeyed c token m n db.utxos s1 k e1) e2)
          e3 in
      let e : s3.0 ≡ db'.utxos = ground arith in subst IsKeyed e k3

  sync_tokens-IsKeyed :
      (m n : ℕ) (tokens : List Token) (db db' : Database D)
      → IsKeyed db.utxos
      → sync_tokens c request m n tokens db ≡ some db'
      → IsKeyed db'.utxos
  unfolding sync_tokens
  sync_tokens-IsKeyed m n [] db db' k h =
      let e : db ≡ db' = cc in subst (λ (x : Database D). IsKeyed x.utxos) e k
  sync_tokens-IsKeyed m n (token ∷ tokens) db db' k h =
      let (db1, e1, h1) = >>=-eq-some (sync_token c request m n token db) _ h in
      sync_tokens-IsKeyed m n tokens db1 db' (sync_token-IsKeyed m n token db db1 k e1) h1

  -- A run that ends leaves a table in which no two rows have one transaction hash and account, if
  -- it started from one.
  pub process-IsKeyed :
      (lot : ℕ) (db db' : Database D) (synced : Bool)
      → IsKeyed db.utxos
      → process lot c request db ≡ some (db', synced)
      → IsKeyed db'.utxos
  unfolding process
  process-IsKeyed lot db db' synced k h =
      elim (Bool-cases (leb c.latest_block (utxo_block_number db))) [
        | inl idle ↦
            let ended : ◌≡◌ {A = Option (Database D × Bool)} (some (db, true))
                (some (db', synced)) =
              rw idle at h in
            let e : db ≡ db' = cc in subst (λ (x : Database D). IsKeyed x.utxos) e k
        | inr behind ↦
            let block_from = utxo_block_number db + 1 in
            let block_to = (block_lot lot block_from c.latest_block).0 in
            let tokens = issued_tokens db.accounts db.tokens in
            let (db1, e1, h1) =
              >>=-eq-some (sync_tokens c request block_from block_to tokens db) _
                (rw behind at h) in
            let e : db1.utxos ≡ db'.utxos = ground arith in
            subst IsKeyed e (sync_tokens-IsKeyed block_from block_to tokens db db1 k e1)
      ]
