-- ===== src/Delivery/Contracts.antt =====
-- What `__get_contract_list` of batch/indexer_dvp_delivery.py leaves on the lists of the processor.
use ibet_prime.Base.{
  ℕ, ◌≡◌, sym, ◌∙◌, Bool, true, false, List, [], ◌∷◌, ◌++◌, none, some, arith, ◌==◌, ◌&&◌, ◌||◌,
  not, if◌then◌else◌, Bool-cases, inl, inr, subst, ap, map, select, select-select, select_same,
}
use ibet_prime.Tokens.{contains, Token, TokenType, issued_tokens, is_succeeded}
use ibet_prime.Delivery.Sync.{
  Database, Services, Processor, load, add_exchanges, load_required, get_contract_list, listed,
}

contains-append : (a b : ℕ) (xs : List ℕ) → contains a (xs ++ b ∷ []) ≡ (contains a xs || (b == a))
contains-append a b [] = ground arith
contains-append a b (x ∷ xs) = ground (arith, contains-append a b xs)

abbrev is_issued : Database → ℕ → Bool
is_issued db a =
    contains a (map (λ (t : Token). t.token_address) (issued_tokens db.registry.accounts db.tokens))

abbrev is_required : Database → List ℕ → Token → Bool
is_required db loaded t =
    is_succeeded t.token_status
    && (if is_issued db t.token_address
        then not (contains t.token_address loaded)
        else contains t.token_address loaded)

-- Once it is on the list, an issued token is not required any more, and the others as before.
is_required-append :
    (db : Database) (loaded : List ℕ) (a : ℕ) (u : Token)
    → is_issued db a ≡ true
    → is_required db (loaded ++ a ∷ []) u ≡ (is_required db loaded u && not (a == u.token_address))
is_required-append db loaded a u issued = elim (Bool-cases (a == u.token_address)) [
  | inl eq ↦
      let same : a ≡ u.token_address = ground arith in
      let issued' : is_issued db u.token_address ≡ true =
        subst (λ b. is_issued db b ≡ true) same issued in
      let held = contains-append u.token_address a loaded in ground (arith, issued', held)
  | inr ne ↦ let held = contains-append u.token_address a loaded in ground (arith, held)
]

load_required-append :
    (db : Database) (loaded : List ℕ) (t : Token)
    → is_issued db t.token_address ≡ true
    → load_required db loaded ≡ t ∷ []
    → load_required db (loaded ++ t.token_address ∷ []) ≡ []
unfolding load_required
load_required-append db loaded t issued only =
    let a = t.token_address in
    let q = λ (u : Token). not (a == u.token_address) in
    let p = is_required db loaded in
    let last : select q (t ∷ []) ≡ [] = ground arith in
    select_same (is_required db (loaded ++ a ∷ [])) (λ u. p u && q u) db.tokens
      (λ u. is_required-append db loaded a u issued)
    ∙ sym (select-select p q db.tokens)
    ∙ ap (select q) only
    ∙ last

-- If the one token to be loaded is an issued bond or share and the call of its contract raises, then
-- the token is on the list without its exchange, and no later call on the same tables looks the
-- exchange up again, whatever the contracts answer then.
pub get_contract_list_lost :
    (v later : Services) (db : Database) (p : Processor) (t : Token) (type : TokenType)
    → load_required db p.token_list ≡ t ∷ []
    → is_issued db t.token_address ≡ true
    → t.type ≡ some type
    → v.tradable_exchange t.token_address ≡ none
    → let p' : Processor = record p { token_list = p.token_list ++ t.token_address ∷ [] } in
      (get_contract_list v db p ≡ (p', false)) × (get_contract_list later db p' ≡ (p', true))
unfolding get_contract_list load add_exchanges
get_contract_list_lost v later db p t type only issued typed raises =
    let held = p.token_list ++ t.token_address ∷ [] in
    let p' : Processor = record p { token_list = held } in
    let idle = load_required-append db p.token_list t issued only in
    let stops : load v (t ∷ []) p.token_list ≡ (held, none) = rw (typed, load) (rw raises) in
    (
      ap (λ ts. listed p (load v ts p.token_list)) only ∙ ap (listed p) stops,
      ap (λ ts. listed p' (load later ts held)) idle,
    )
