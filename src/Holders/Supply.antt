-- ===== src/Holders/Supply.antt =====
-- What the passes over the events do to the sums over all pages: balances and locks.
use ibet_prime.Base.{
  ℕ, ◌≡◌, refl, ◌∙◌, ap, sym, ◌++◌, sum_of, List, [], ◌∷◌, none, some, arith, ◌==◌, leb,
  if◌then◌else◌, inl, inr, Option-cases, >>=-eq-some,
}
use ibet_prime.Base.Int.{ℤ, pos, pos_part, neg_part, neg, ◌+ℤ◌, int_laws}
use ibet_prime.Base.Sort.{sort_by}
use ibet_prime.Chain.{Chain, Address, zero_address, EventName, ArgName, Event, address_arg, maxsize}
use ibet_prime.Logs.{for_each, keep_if, is_of, earlier}
use ibet_prime.Holders.Book.{BalanceBook, store}
use ibet_prime.Holders.Events.{
  Contracts, store_transfer, process_transfer, each, store_supply, process_issue, process_redeem,
  store_lock, process_lock, process_force_lock, store_unlock, process_unlock, process_force_unlock,
  store_relock, process_force_change_locked_account, process_events,
}

-- The sums over all pages.
abbrev pub total_hold : BalanceBook → ℤ
total_hold [] = pos 0
total_hold (p ∷ ps) = p.hold_balance +ℤ total_hold ps

abbrev pub total_locked : BalanceBook → ℤ
total_locked [] = pos 0
total_locked (p ∷ ps) = p.locked_balance +ℤ total_locked ps

total_hold-store :
    (a : Address) (x l : ℤ) (b : BalanceBook) → total_hold (store a x l b) ≡ total_hold b +ℤ x
unfolding store
total_hold-store a x l [] = omega int_laws
total_hold-store a x l (p ∷ b) = grind (int_laws, total_hold-store a x l b)

total_locked-store :
    (a : Address) (x l : ℤ) (b : BalanceBook) → total_locked (store a x l b) ≡ total_locked b +ℤ l
unfolding store
total_locked-store a x l [] = omega int_laws
total_locked-store a x l (p ∷ b) = grind (int_laws, total_locked-store a x l b)

-- Balances and locks together.
abbrev pub worth : BalanceBook → ℤ
worth b = total_hold b +ℤ total_locked b

worth-store : (a : Address) (x l : ℤ) (b : BalanceBook) → worth (store a x l b) ≡ worth b +ℤ x +ℤ l
worth-store a x l b = rw (total_hold-store a x l b, total_locked-store a x l b) (omega int_laws)

-- Two entries that cancel.
worth-store_twice :
    (a a' : Address) (x x' l l' : ℤ) (b : BalanceBook)
    → x +ℤ x' +ℤ (l +ℤ l') ≡ pos 0
    → worth (store a' x' l' (store a x l b)) ≡ worth b
worth-store_twice a a' x x' l l' b h =
    rw (worth-store a' x' l' (store a x l b), worth-store a x l b)
      (omega (int_laws, ap pos_part h, ap neg_part h))

cancels : (n : ℕ) → neg n +ℤ pos n ≡ pos 0
cancels n = omega int_laws

worth-store_transfer :
    (c : Chain) (e : Event) (b b' : BalanceBook)
    → store_transfer c e b ≡ some b'
    → worth b' ≡ worth b
unfolding store_transfer
worth-store_transfer c e b b' h =
    let (n, _, rest) = >>=-eq-some (e.args ArgName.value) _ h in
    let from_account = address_arg e ArgName.from in
    let to_account = address_arg e ArgName.to in
    let moved : worth (store to_account (pos n) (pos 0) (store from_account (neg n) (pos 0) b))
        ≡ worth b =
      worth-store_twice from_account to_account (neg n) (pos n) (pos 0) (pos 0) b
        (omega int_laws) in
    ground (arith, moved, rest)

worth-store_lock : (e : Event) (b : BalanceBook) → worth (store_lock e b) ≡ worth b
unfolding store_lock
worth-store_lock e b = elim (Option-cases (e.args ArgName.value)) [
  | inl absent ↦ rw absent
  | inr (n, found) ↦
      let account = address_arg e ArgName.account_address in
      let moved : worth (store account (neg n) (pos n) b) ≡ worth b =
        rw (worth-store account (neg n) (pos n) b) (omega int_laws) in
      rw found (ground (arith, moved))
]

worth-store_unlock : (e : Event) (b : BalanceBook) → worth (store_unlock e b) ≡ worth b
unfolding store_unlock
worth-store_unlock e b = elim (Option-cases (e.args ArgName.value)) [
  | inl absent ↦ rw absent
  | inr (n, found) ↦ rw found (
      ground (
        arith,
        worth-store_twice (address_arg e ArgName.account_address)
            (address_arg e ArgName.recipient_address) (pos 0) (pos n) (neg n) (pos 0) b
            (omega int_laws),
      ))
]

worth-store_relock : (e : Event) (b : BalanceBook) → worth (store_relock e b) ≡ worth b
unfolding store_relock
worth-store_relock e b = elim (Option-cases (e.args ArgName.value)) [
  | inl absent ↦ rw absent
  | inr (n, found) ↦ rw found (
      ground (
        arith,
        worth-store_twice (address_arg e ArgName.before_account_address)
            (address_arg e ArgName.after_account_address) (pos 0) (pos 0) (neg n) (pos n) b
            (omega int_laws),
      ))
]

worth-each :
    (body : Event → BalanceBook → BalanceBook)
    → ((e : Event) (b : BalanceBook) → worth (body e b) ≡ worth b)
    → (es : List Event) (b : BalanceBook) → worth (each body es b) ≡ worth b
unfolding each
worth-each body keep [] b = refl
worth-each body keep (e ∷ es) b = worth-each body keep es (body e b) ∙ keep e b

worth-for_each :
    (c : Chain) (es : List Event) (b b' : BalanceBook)
    → for_each (store_transfer c) es b ≡ some b'
    → worth b' ≡ worth b
unfolding for_each
worth-for_each c [] b b' h = let same : b ≡ b' = cc in rw same refl
worth-for_each c (e ∷ es) b b' h =
    let (b1, first_step, rest) = >>=-eq-some (store_transfer c e b) _ h in
    worth-for_each c es b1 b' rest ∙ worth-store_transfer c e b b1 first_step

-- The amount of an `Issue` or `Redeem` event that counts: it fits, and is not locked.
abbrev pub supply_of : Event → ℕ
supply_of e =
    if address_arg e ArgName.lock_address == zero_address
    then elim (e.args ArgName.amount) [ none ↦ 0 | some n ↦ if leb n maxsize then n else 0 ]
    else 0

worth-store_supply :
    (sign : ℕ → ℤ) (e : Event) (b : BalanceBook)
    → sign 0 ≡ pos 0
    → worth (store_supply sign e b) ≡ worth b +ℤ sign (supply_of e)
unfolding store_supply
worth-store_supply sign e b zero_sign =
    let account = address_arg e ArgName.target_address in
    let kept : worth b ≡ worth b +ℤ sign 0 = rw zero_sign (omega int_laws) in
    elim (Option-cases (e.args ArgName.amount)) [
      | inl absent ↦ rw absent (ground (arith, kept))
      | inr (n, found) ↦
          let given : worth (store account (sign n) (pos 0) b) ≡ worth b +ℤ sign n =
            rw (worth-store account (sign n) (pos 0) b) (omega int_laws) in
          rw found (ground (arith, kept, given))
    ]

worth-each_issue :
    (es : List Event) (b : BalanceBook)
    → worth (each (store_supply pos) es b) ≡ worth b +ℤ pos (sum_of supply_of es)
unfolding each
worth-each_issue [] b = omega int_laws
worth-each_issue (e ∷ es) b =
    rw (worth-each_issue es (store_supply pos e b), worth-store_supply pos e b refl)
      (omega int_laws)

worth-each_redeem :
    (es : List Event) (b : BalanceBook)
    → worth (each (store_supply neg) es b) +ℤ pos (sum_of supply_of es) ≡ worth b
unfolding each
worth-each_redeem [] b = omega int_laws
worth-each_redeem (e ∷ es) b =
    let rest = worth-each_redeem es (store_supply neg e b) in
    let step = worth-store_supply neg e b refl in
    omega (int_laws, ap pos_part rest, ap neg_part rest, ap pos_part step, ap neg_part step)

worth-process_transfer :
    (c : Chain) (k : Contracts) (m n : ℕ) (b b' : BalanceBook)
    → process_transfer c k m n b ≡ some b'
    → worth b' ≡ worth b
unfolding process_transfer
worth-process_transfer c k m n b b' h =
    let (changed, _, done) =
      >>=-eq-some
        (keep_if (is_of k.token) (
          c.get_event_logs k.exchange EventName.holder_changed ((ArgName.token, k.token) ∷ []) m n))
        _ h in
    worth-for_each c
      (sort_by earlier (changed ++ c.get_event_logs k.token EventName.transfer [] m n)) b b' done

module _ (c : Chain) (k : Contracts) (m n : ℕ) (b : BalanceBook) where
  worth-process_lock : worth (process_lock c k m n b) ≡ worth b
  unfolding process_lock
  worth-process_lock =
      worth-each store_lock worth-store_lock (c.get_event_logs k.token EventName.lock [] m n) b

  worth-process_force_lock : worth (process_force_lock c k m n b) ≡ worth b
  unfolding process_force_lock
  worth-process_force_lock =
      worth-each store_lock worth-store_lock (c.get_event_logs k.token EventName.force_lock [] m n)
        b

  worth-process_unlock : worth (process_unlock c k m n b) ≡ worth b
  unfolding process_unlock
  worth-process_unlock =
      worth-each store_unlock worth-store_unlock (c.get_event_logs k.token EventName.unlock [] m n)
        b

  worth-process_force_unlock : worth (process_force_unlock c k m n b) ≡ worth b
  unfolding process_force_unlock
  worth-process_force_unlock =
      worth-each store_unlock worth-store_unlock
        (c.get_event_logs k.token EventName.force_unlock [] m n) b

  worth-process_relock : worth (process_force_change_locked_account c k m n b) ≡ worth b
  unfolding process_force_change_locked_account
  worth-process_relock =
      worth-each store_relock worth-store_relock
        (c.get_event_logs k.token EventName.force_change_locked_account [] m n) b

  worth-process_issue :
      worth (process_issue c k m n b)
      ≡ worth b +ℤ pos (sum_of supply_of (c.get_event_logs k.token EventName.issue [] m n))
  unfolding process_issue
  worth-process_issue = worth-each_issue (c.get_event_logs k.token EventName.issue [] m n) b

  worth-process_redeem :
      worth (process_redeem c k m n b)
        +ℤ pos (sum_of supply_of (c.get_event_logs k.token EventName.redeem [] m n))
      ≡ worth b
  unfolding process_redeem
  worth-process_redeem = worth-each_redeem (c.get_event_logs k.token EventName.redeem [] m n) b

-- The eight passes over a block range, where they do not raise, change the sum of all balances and
-- locks by what the range issues less what it redeems, of the amounts that fit and are not locked.
pub worth-process_events :
    (c : Chain) (k : Contracts) (m n : ℕ) (b b' : BalanceBook)
    → process_events c k m n b ≡ some b'
    → worth b' +ℤ pos (sum_of supply_of (c.get_event_logs k.token EventName.redeem [] m n))
      ≡ worth b +ℤ pos (sum_of supply_of (c.get_event_logs k.token EventName.issue [] m n))
unfolding process_events
worth-process_events c k m n b b' h =
    let (b0, moved, rest) = >>=-eq-some (process_transfer c k m n b) _ h in
    let b1 = process_issue c k m n b0 in
    let b2 = process_redeem c k m n b1 in
    let b3 = process_lock c k m n b2 in
    let b4 = process_force_lock c k m n b3 in
    let b5 = process_unlock c k m n b4 in
    let b6 = process_force_unlock c k m n b5 in
    let last : process_force_change_locked_account c k m n b6 ≡ b' = cc in
    let same : worth b' ≡ worth b2 =
      ap worth (sym last)
      ∙ worth-process_relock c k m n b6
      ∙ worth-process_force_unlock c k m n b5
      ∙ worth-process_unlock c k m n b4
      ∙ worth-process_force_lock c k m n b3
      ∙ worth-process_lock c k m n b2 in
    rw same (
      worth-process_redeem c k m n b1
      ∙ worth-process_issue c k m n b0
      ∙ ap
          (λ (w : ℤ). w +ℤ pos (sum_of supply_of (c.get_event_logs k.token EventName.issue [] m n)))
          (worth-process_transfer c k m n b b0 moved))
