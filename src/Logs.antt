-- ===== src/Logs.antt =====
-- What the processors do with event logs before and while they act on them. `none` is an exception.
use ibet_prime.Base.{
  ◌==◌, leb, ltb, ◌&&◌, ◌||◌, not, Bool, List, [], ◌∷◌, Option, none, some, if◌then◌else◌, ◌>>=◌,
  ◌≡◌, ◌⊎◌, inl, inr, subst, All, Option-cases, >>=-eq-some,
}
use ibet_prime.Chain.{Address, ArgName, Event}

-- The loops that append an event to `tmp_events` if a test, which may raise, holds.
unfoldable pub keep_if : (Event → Option Bool) → List Event → Option (List Event)
keep_if test [] = some []
keep_if test (e ∷ es) = do b ← test e; rest ← keep_if test es; some (if b then e ∷ rest else rest)

-- `args[key]`, on two keys, and `!=`
abbrev pub differ : ArgName → ArgName → Event → Option Bool
differ key other e = do a ← e.args key; b ← e.args other; some (not (a == b))

-- `token_contract.address == _event["args"]["token"]`
abbrev pub is_of : Address → Event → Option Bool
is_of token e = do t ← e.args ArgName.token; some (token == t)

-- `key=lambda x: (x["block_number"], x["log_index"])`
abbrev pub earlier : Event → Event → Bool
earlier e f =
    ltb e.block_number f.block_number
    || (e.block_number == f.block_number && leb e.log_index f.log_index)

-- `for event in events: …`
unfoldable pub for_each {ℓ} : {S : Type ℓ} → (Event → S → Option S) → List Event → S → Option S
for_each body [] s = some s
for_each body (e ∷ es) s = do s' ← body e s; for_each body es s'

-- What every event of the list keeps, the loop keeps.
pub for_each-keeps {ℓ κ μ} :
    {S : Type ℓ} (P : S → Type κ) (Q : Event → Type μ) (body : Event → S → Option S)
    → ((e : Event) (s s' : S) → Q e → body e s ≡ some s' → P s → P s')
    → (es : List Event) (s s' : S) → All Q es
    → for_each body es s ≡ some s'
    → P s
    → P s'
unfolding for_each
for_each-keeps P Q body keeps [] s s' qs h p = let eq : s ≡ s' = cc in subst P eq p
for_each-keeps P Q body keeps (e ∷ es) s s' (q, qs) h p =
    let (u, first_step, rest) = >>=-eq-some (body e s) _ h in
    for_each-keeps P Q body keeps es u s' qs rest (keeps e s u q first_step p)

-- An event is in the list.
abbrev pub Occurs : Event → List Event → Type 0
Occurs e [] = ⊥
Occurs e (f ∷ es) = (e ≡ f) ⊎ Occurs e es

-- A loop over an event on which the body raises, where all events keep what makes it so, raises.
pub for_each_raises {ℓ κ} :
    {S : Type ℓ} (P : S → Type κ) (body : Event → S → Option S) (e : Event)
    → ((f : Event) (s s' : S) → body f s ≡ some s' → P s → P s')
    → ((s : S) → P s → body e s ≡ none)
    → (es : List Event) (s : S) → P s
    → Occurs e es
    → for_each body es s ≡ none
unfolding for_each
for_each_raises P body e keeps raises [] s p h = elim h [ ]
for_each_raises P body e keeps raises (f ∷ es) s p (inl eq) =
    rw (subst (λ d. body d s ≡ none) eq (raises s p), for_each)
for_each_raises P body e keeps raises (f ∷ es) s p (inr later) = elim (Option-cases (body f s)) [
  | inl stops ↦ rw (stops, for_each)
  | inr (u, goes) ↦
      rw (goes, for_each) (for_each_raises P body e keeps raises es u (keeps f s u goes p) later)
]
