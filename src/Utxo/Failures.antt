-- ===== src/Utxo/Failures.antt =====
-- Call data on which the processor raises, and so commits nothing, each time it reads its block.
use ibet_prime.Base.{
  ℕ, ◌≡◌, ◌≢◌, false, List, [], ◌∷◌, ◌++◌, Option, none, some, arith, Option-cases, inl, inr, subst,
  sym,
}
use ibet_prime.Base.Sort.{sort_by}
use ibet_prime.Chain.{Address, Chain, Event, EventName, ArgName, Json, address_arg}
use ibet_prime.Logs.{for_each, earlier}
use ibet_prime.Tokens.{Token}
use ibet_prime.Utxo.Table.{Utxo}
use ibet_prime.Utxo.Events.{
  State, between, parties_of, marker, after_first, is_reallocation, sink_transfer, transfer_events,
  process_transfer,
}

-- A loop one of whose steps raises in every state raises.
for_each_raises :
    (body : Event → State → Option State) (xs ys : List Event) (e : Event) (s : State)
    → ((s : State) → body e s ≡ none)
    → for_each body (xs ++ e ∷ ys) s ≡ none
unfolding for_each
for_each_raises body [] ys e s h = rw (h s)
for_each_raises body (x ∷ xs) ys e s h = elim (Option-cases (body x s)) [
  | inl raises ↦ rw raises
  | inr (s', steps) ↦ rw steps (for_each_raises body xs ys e s' h)
]

-- A `Transfer` between two accounts whose transaction carries the marker and, behind it, JSON that is
-- no object.
pub record IsPoisoned (c : Chain) (e : Event) : Type 0 where
  pub raw_call_data : List ℕ
  pub amount : ℕ
  pub named : e.event ≡ EventName.transfer
  pub valued : e.args ArgName.value ≡ some amount
  pub giver_plain : c.has_code (address_arg e ArgName.from) ≡ false
  pub taker_plain : c.has_code (address_arg e ArgName.to) ≡ false
  pub distinct : address_arg e ArgName.from ≢ address_arg e ArgName.to
  pub marked : after_first marker (c.input_hex e.transaction_hash) ≡ some raw_call_data
  pub no_object : c.json_loads raw_call_data ≡ some Json.other

transfer_parties :
    (e : Event) (amount : ℕ)
    → e.event ≡ EventName.transfer
    → e.args ArgName.value ≡ some amount
    → parties_of e.event e ≡ some (between e ArgName.from ArgName.to)
unfolding parties_of
transfer_parties e amount named valued =
    subst (λ v. parties_of v e ≡ some (between e ArgName.from ArgName.to)) (sym named) (rw valued)

poisoned_purpose : (c : Chain) (e : Event) → IsPoisoned c e → is_reallocation c e ≡ none
unfolding is_reallocation
poisoned_purpose c e p = ground (arith, p.named, p.marked, p.no_object)

sink_transfer_raises :
    (c : Chain) (token : Address) (e : Event) (s : State)
    → IsPoisoned c e
    → sink_transfer c token e s ≡ none
unfolding sink_transfer
sink_transfer_raises c token e s p =
    rw (transfer_parties e p.amount p.named p.valued)
      (ground (arith, p.giver_plain, p.taker_plain, p.distinct, poisoned_purpose c e p))

-- If one of the events read from a block range is a transfer between two different accounts that
-- are no contracts, whose call data is marked and is JSON but no object, the pass over the range
-- raises.
pub process_transfer_raises :
    (c : Chain) (token : Token) (m n : ℕ) (t : List Utxo) (events xs ys : List Event) (e : Event)
    → transfer_events c token m n ≡ some events
    → sort_by earlier events ≡ xs ++ e ∷ ys
    → IsPoisoned c e
    → process_transfer c token m n t ≡ none
unfolding process_transfer
process_transfer_raises c token m n t events xs ys e read sorted p = rw read (
    rw sorted (
      for_each_raises (sink_transfer c token.token_address) xs ys e (t, false)
        (λ s. sink_transfer_raises c token.token_address e s p)))
