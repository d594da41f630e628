-- ===== src/IssueRedeem/Listed.antt =====
-- The list of tokens whose events are read names each token once.
use ibet_prime.Base.{
  ◌≡◌, refl, sym, subst, ◌≢◌, inl, inr, Bool, true, false, not, ◌==◌, ◌&&◌, leb, List, [], ◌∷◌,
  ◌++◌, map, arith, select, All, All-append, Bool-cases, if◌then◌else◌,
}
use ibet_prime.Base.Sort.{All-sort_by}
use ibet_prime.Chain.{Address}
use ibet_prime.Tokens.{Token, Account, contains, is_succeeded, join_accounts, issued_tokens}
use ibet_prime.IssueRedeem.Sync.{Database, put_tokens, token_list}
use ibet_prime.IssueRedeem.Passes.{IsOnce}

abbrev pub addresses : List Token → List Address
addresses = map (λ (t : Token). t.token_address)

IsOnce-contains : (k : Address) (ks : List Address) → IsOnce k ks → contains k ks ≡ true
IsOnce-contains k [] o = absurd o
IsOnce-contains k (x ∷ xs) (inl (hit, _)) = ground (arith, hit)
IsOnce-contains k (x ∷ xs) (inr (miss, o)) = ground (arith, miss, IsOnce-contains k xs o)

IsOnce-append : (k x : Address) (ks : List Address) → x ≢ k → IsOnce k ks → IsOnce k (ks ++ x ∷ [])
IsOnce-append k x [] n o = absurd o
IsOnce-append k x (y ∷ ys) n (inl (hit, others)) =
    inl (hit, All-append (λ z. z ≢ k) ys (x ∷ []) others (n, tt))
IsOnce-append k x (y ∷ ys) n (inr (miss, o)) = inr (miss, IsOnce-append k x ys n o)

IsOnce-added : (k : Address) (ks : List Address) → contains k ks ≡ false → IsOnce k (ks ++ k ∷ [])
IsOnce-added k [] h = inl (refl, tt)
IsOnce-added k (x ∷ xs) h = inr ((ground (arith, h)), IsOnce-added k xs (ground (arith, h)))

put_tokens_keeps :
    (k : Address) (ts : List Token) (ks : List Address) → IsOnce k ks → IsOnce k (put_tokens ts ks)
unfolding put_tokens
put_tokens_keeps k [] ks o = o
put_tokens_keeps k (t ∷ ts) ks o = elim (Bool-cases (contains t.token_address ks)) [
  | inl held ↦ rw held (put_tokens_keeps k ts ks o)
  | inr new ↦ rw new (
      put_tokens_keeps k ts (ks ++ t.token_address ∷ [])
        (IsOnce-append k t.token_address ks (let held = IsOnce-contains k ks o in λ e. cc) o))
]

contains-append :
    (k x : Address) (ks : List Address)
    → contains k ks ≡ false
    → x ≢ k
    → contains k (ks ++ x ∷ []) ≡ false
contains-append k x [] h n = ground arith
contains-append k x (y ∷ ys) h n =
    let rest : contains k ys ≡ false = ground (arith, h) in
    ground (arith, h, contains-append k x ys rest n)

put_tokens_adds :
    (k : Address) (ts : List Token) (ks : List Address)
    → contains k ks ≡ false
    → contains k (addresses ts) ≡ true
    → IsOnce k (put_tokens ts ks)
unfolding put_tokens
put_tokens_adds k [] ks h w = cc
put_tokens_adds k (t ∷ ts) ks h w = elim (Bool-cases (t.token_address == k)) [
  | inl here ↦
      let e : t.token_address ≡ k = ground arith in
      let new : contains t.token_address ks ≡ false = cc in
      rw new (
        put_tokens_keeps k ts (ks ++ t.token_address ∷ [])
          (subst (λ z. IsOnce k (ks ++ z ∷ [])) (sym e) (IsOnce-added k ks h)))
  | inr elsewhere ↦
      let n : t.token_address ≢ k = ground arith in
      let w' : contains k (addresses ts) ≡ true = ground (arith, w) in
      elim (Bool-cases (contains t.token_address ks)) [
        | inl held ↦ rw held (put_tokens_adds k ts ks h w')
        | inr new ↦ rw new (
            put_tokens_adds k ts (ks ++ t.token_address ∷ [])
              (contains-append k t.token_address ks h n) w')
      ]
]

-- No succeeded token has the address.
abbrev IsAbsent : Address → Token → Type 0
IsAbsent k t = (is_succeeded t.token_status && t.token_address == k) ≡ false

select-IsAbsent :
    (k : Address) (r : Address → Bool) (ts : List Token)
    → r k ≡ true
    → contains k
        (addresses (select (λ (t : Token). is_succeeded t.token_status && r t.token_address) ts))
      ≡ false
    → All (IsAbsent k) ts
select-IsAbsent k r [] w h = tt
select-IsAbsent k r (t ∷ ts) w h =
    let kept = is_succeeded t.token_status && r t.token_address in
    elim (Bool-cases kept) [
      | inl asked ↦
          let h' : contains k (
                t.token_address
                ∷ addresses
                    (select (λ (t : Token). is_succeeded t.token_status && r t.token_address) ts))
              ≡ false =
            rw asked at h in
          (ground (arith, h'), select-IsAbsent k r ts w (ground (arith, h')))
      | inr passed ↦ (absent passed, select-IsAbsent k r ts w (rw passed at h))
    ]
  where
    absent : (is_succeeded t.token_status && r t.token_address) ≡ false → IsAbsent k t
    absent passed = elim (Bool-cases (t.token_address == k)) [
      | inl same ↦
          let e : t.token_address ≡ k = ground arith in
          let asked : r t.token_address ≡ true = subst (λ z. r z ≡ true) (sym e) w in
          ground (arith, passed, asked)
      | inr other ↦ ground (arith, other)
    ]

All-const :
    (k : Address) (t : Token) (xs : List Account)
    → IsAbsent k t
    → All (IsAbsent k) (map (λ _. t) xs)
All-const k t [] h = tt
All-const k t (x ∷ xs) h = (h, All-const k t xs h)

join-IsAbsent :
    (k : Address) (accounts : List Account) (ts : List Token)
    → All (IsAbsent k) ts
    → All (IsAbsent k) (join_accounts accounts ts)
unfolding join_accounts
join-IsAbsent k accounts [] h = tt
join-IsAbsent k accounts (t ∷ ts) h =
    All-append (IsAbsent k) _ (join_accounts accounts ts) (All-const k t _ h.0)
      (join-IsAbsent k accounts ts h.1)

issued-absent :
    (k : Address) (ts : List Token)
    → All (IsAbsent k) ts
    → All
        (λ (t : Token). t.token_address ≢ k)
        (select (λ (t : Token). is_succeeded t.token_status) ts)
issued-absent k [] h = tt
issued-absent k (t ∷ ts) h = ground (arith, h.0, issued-absent k ts h.1)

All-contains :
    (k : Address) (ts : List Token)
    → All (λ (t : Token). t.token_address ≢ k) ts
    → contains k (addresses ts) ≡ false
All-contains k [] h = refl
All-contains k (t ∷ ts) h = ground (arith, h.0, All-contains k ts h.1)

not_issued :
    (k : Address) (accounts : List Account) (tokens : List Token)
    → All (IsAbsent k) tokens
    → contains k (addresses (issued_tokens accounts tokens)) ≡ false
unfolding issued_tokens
not_issued k accounts tokens h = All-contains k (issued_tokens accounts tokens) (
    All-sort_by (λ (t s : Token). leb t.id s.id) (λ (t : Token). t.token_address ≢ k)
      (select (λ (t : Token). is_succeeded t.token_status) (join_accounts accounts tokens))
      (issued-absent k (join_accounts accounts tokens) (join-IsAbsent k accounts tokens h)))

-- Once the token list is refreshed, each token that an issuer who is not deleted has issued is listed
-- exactly once, if it was not listed twice before.
pub token_list-IsOnce :
    (db : Database) (loaded : List Address) (k : Address)
    → (contains k loaded ≡ true → IsOnce k loaded)
    → contains k (addresses (issued_tokens db.accounts db.tokens)) ≡ true
    → IsOnce k (token_list db loaded)
unfolding token_list
token_list-IsOnce db loaded k o w = elim (Bool-cases (contains k loaded)) [
  | inl held ↦ put_tokens_keeps k _ loaded (o held)
  | inr new ↦
      let issued = addresses (issued_tokens db.accounts db.tokens) in
      let required =
        λ (a : Address). if contains a issued then not (contains a loaded) else contains a loaded in
      let asked : required k ≡ true = rw (w, new) refl in
      let chosen =
        select (λ (t : Token). is_succeeded t.token_status && required t.token_address) db.tokens in
      elim (Bool-cases (contains k (addresses chosen))) [
        | inl found ↦ put_tokens_adds k chosen loaded new found
        | inr lost ↦
            let absent =
              not_issued k db.accounts db.tokens
                (select-IsAbsent k required db.tokens asked lost) in
            cc
      ]
]
