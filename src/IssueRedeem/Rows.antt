-- ===== src/IssueRedeem/Rows.antt =====
-- The rows that the events of a token add to the index.
use ibet_prime.Base.{
  ◌≡◌, refl, sym, ap, ◌∙◌, inl, inr, Bool, true, false, leb, ◌==◌, ◌&&◌, ltb, List, [], ◌∷◌, ◌++◌,
  map, some, get_or, arith, select, Bool-cases, Option-cases,
}
use ibet_prime.Chain.{Address, maxsize, ArgName, Event, Chain}
use ibet_prime.Logs.{for_each}
use ibet_prime.IssueRedeem.Index.{IdxIssueRedeemEventType, IdxIssueRedeem, insert_index, sync_event}

abbrev pub is_same : IdxIssueRedeemEventType → IdxIssueRedeemEventType → Bool
is_same IdxIssueRedeemEventType.issue IdxIssueRedeemEventType.issue = true
is_same IdxIssueRedeemEventType.redeem IdxIssueRedeemEventType.redeem = true
is_same _ _ = false

-- The rows of one type and token.
abbrev pub rows_of : IdxIssueRedeemEventType → Address → List IdxIssueRedeem → List IdxIssueRedeem
rows_of y k = select (λ r. is_same r.event_type y && r.token_address == k)

-- The row of an event, and the events that have one.
abbrev pub indexed_row : Chain → IdxIssueRedeemEventType → Address → Event → IdxIssueRedeem
indexed_row c y k e = record {
  event_type = y;
  transaction_hash = e.transaction_hash;
  token_address = k;
  locked_address = get_or (e.args ArgName.lock_address) 0;
  target_address = get_or (e.args ArgName.target_address) 0;
  amount = get_or (e.args ArgName.amount) 0;
  block_timestamp = c.block_timestamp e.block_number;
}

abbrev pub fits : Event → Bool
fits e = leb (get_or (e.args ArgName.amount) 0) maxsize

abbrev pub indexed : Chain → IdxIssueRedeemEventType → Address → List Event → List IdxIssueRedeem
indexed c y k es = map (indexed_row c y k) (select fits es)

pub append_assoc : (xs ys zs : List IdxIssueRedeem) → (xs ++ ys) ++ zs ≡ xs ++ (ys ++ zs)
append_assoc [] ys zs = refl
append_assoc (x ∷ xs) ys zs = rw (append_assoc xs ys zs)

pub append_nil : (xs : List IdxIssueRedeem) → xs ++ [] ≡ xs
append_nil [] = refl
append_nil (x ∷ xs) = rw (append_nil xs)

is_same_refl : (y : IdxIssueRedeemEventType) → is_same y y ≡ true
is_same_refl IdxIssueRedeemEventType.issue = refl
is_same_refl IdxIssueRedeemEventType.redeem = refl

pub rows_of-append :
    (y : IdxIssueRedeemEventType) (k : Address) (t u : List IdxIssueRedeem)
    → rows_of y k (t ++ u) ≡ rows_of y k t ++ rows_of y k u
rows_of-append y k [] u = refl
rows_of-append y k (r ∷ t) u = ground (arith, rows_of-append y k t u)

-- One event adds its row, if it fits.
sync_event-indexed :
    (c : Chain) (y : IdxIssueRedeemEventType) (k : Address) (e : Event) (t t' : List IdxIssueRedeem)
    → sync_event c y k e t ≡ some t'
    → t' ≡ t ++ indexed c y k (e ∷ [])
unfolding sync_event insert_index
sync_event-indexed c y k e t t' h = elim (Option-cases (e.args ArgName.amount)) [
  | inl n ↦ cc (rw (n, sync_event) at h)
  | inr (v, n) ↦ elim (Bool-cases (ltb maxsize v)) [
    | inl large ↦
        let misfit : fits e ≡ false = rw n (ground arith) in
        let kept : t ≡ t' = cc (rw (n, large, sync_event) at h) in
        rw misfit (sym kept ∙ sym (append_nil t))
    | inr small ↦
        let fit : fits e ≡ true = rw n (ground arith) in
        elim (Option-cases (e.args ArgName.lock_address)) [
          | inl none_l ↦ cc (rw (n, small, none_l, sync_event) at h)
          | inr (l, el) ↦ elim (Option-cases (e.args ArgName.target_address)) [
            | inl none_t ↦ cc (rw (n, small, el, none_t, sync_event) at h)
            | inr (x, ex) ↦
                rw fit (rw (n, el, ex) (cc (rw (n, small, el, ex, sync_event, insert_index) at h)))
          ]
        ]
  ]
]

-- The events of a token add their rows, in order.
pub for_each-indexed :
    (c : Chain) (y : IdxIssueRedeemEventType) (k : Address) (es : List Event)
    (t t' : List IdxIssueRedeem)
    → for_each (sync_event c y k) es t ≡ some t'
    → t' ≡ t ++ indexed c y k es
unfolding for_each
for_each-indexed c y k [] t t' h = let kept : t ≡ t' = cc h in sym kept ∙ sym (append_nil t)
for_each-indexed c y k (e ∷ es) t t' h = elim (Option-cases (sync_event c y k e t)) [
  | inl n ↦ cc (rw (n, for_each) at h)
  | inr (u, n) ↦
      let first : u ≡ t ++ indexed c y k (e ∷ []) = sync_event-indexed c y k e t u n in
      let rest : t' ≡ u ++ indexed c y k es =
        for_each-indexed c y k es u t' (rw (n, for_each) at h) in
      rest
      ∙ ap (λ v. v ++ indexed c y k es) first
      ∙ append_assoc t (indexed c y k (e ∷ [])) (indexed c y k es)
      ∙ ground arith
]

pub rows_of-indexed :
    (c : Chain) (y : IdxIssueRedeemEventType) (k : Address) (es : List Event)
    → rows_of y k (indexed c y k es) ≡ indexed c y k es
rows_of-indexed c y k [] = refl
rows_of-indexed c y k (e ∷ es) = ground (arith, rows_of-indexed c y k es, is_same_refl y)

pub rows_of-indexed_other :
    (c : Chain) (y y' : IdxIssueRedeemEventType) (k k' : Address) (es : List Event)
    → (is_same y y' && k == k') ≡ false
    → rows_of y' k' (indexed c y k es) ≡ []
rows_of-indexed_other c y y' k k' [] n = refl
rows_of-indexed_other c y y' k k' (e ∷ es) n =
    ground (arith, rows_of-indexed_other c y y' k k' es n)

pub indexed-append :
    (c : Chain) (y : IdxIssueRedeemEventType) (k : Address) (es fs : List Event)
    → indexed c y k (es ++ fs) ≡ indexed c y k es ++ indexed c y k fs
indexed-append c y k [] fs = refl
indexed-append c y k (e ∷ es) fs = ground (arith, indexed-append c y k es fs)
