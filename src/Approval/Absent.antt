-- ===== src/Approval/Absent.antt =====
-- Which events of batch/indexer_transfer_approval.py leave an application without a row.
use ibet_prime.Base.{
  ℕ, ◌≡◌, ◌∙◌, ap, subst, refl, Bool, true, false, ltb, ◌==◌, ◌&&◌, List, [], ◌∷◌, Option, none,
  some, get_or, arith, All, Bool-cases, Option-cases, inl, inr, >>=-eq-some,
}
use ibet_prime.Chain.{Address, maxsize, ArgName, Event, Chain}
use ibet_prime.Logs.{for_each, for_each-keeps}
use ibet_prime.Tokens.{contains}
use ibet_prime.Approval.Table.{
  Table, EventType, Arguments, is_application, find, new_row, sink_on_transfer_approval,
}
use ibet_prime.Approval.Events.{
  State, Source, sink_and_note, sync_apply, sync_cancel, sync_approve, sync_approve_escrow,
  sync_finish, for_contracts,
}
use ibet_prime.Approval.Rows.{
  Change, inserts, assigns, sink_on_transfer_approval-Change, find-assign, find-append_ne,
}

module _ (k x i : ℕ) where
  abbrev pub IsAbsent : State → Type 0
  IsAbsent s = find k x i s.table.rows ≡ none

  -- An application of this id, of these contracts.
  abbrev pub is_meant : Source → ℕ → Bool
  is_meant source id = source.token == k && source.exchange == x && id == i

  -- A call that is no application, or another one, makes no row for it.
  sink_on_transfer_approval-IsAbsent :
      (c : Chain) (a : Arguments) (t t' : Table)
      → (a.event_type ≡ EventType.apply_for
          → (a.token_address == k && a.exchange_address == x && a.application_id == i) ≡ false)
      → sink_on_transfer_approval c a t ≡ some t'
      → find k x i t.rows ≡ none
      → find k x i t'.rows ≡ none
  sink_on_transfer_approval-IsAbsent c a t t' other h missing =
      by (sink_on_transfer_approval-Change c a t t' h)
    where
      by : Change a t t' → find k x i t'.rows ≡ none
      by (inserts f keeps made _ rows _) =
          let same = (keeps (new_row t.next_id a)).0 in
          let another : is_application k x i (f (new_row t.next_id a)) ≡ false =
            rw (same.same_token, same.same_exchange, same.same_application) (other made) in
          ap (find k x i) rows
          ∙ find-append_ne k x i t.rows (f (new_row t.next_id a))
          ∙ (rw missing (rw another refl))
      by (assigns f _ keeps _ rows _) =
          ap (find k x i) rows
          ∙ find-assign a.token_address a.exchange_address a.application_id k x i f t.rows keeps
          ∙ (rw missing)

  sink_and_note-IsAbsent :
      (c : Chain) (code : ℕ) (e : Event) (a : Arguments) (s s' : State)
      → (a.event_type ≡ EventType.apply_for
          → (a.token_address == k && a.exchange_address == x && a.application_id == i) ≡ false)
      → sink_and_note c code e a s ≡ some s'
      → IsAbsent s
      → IsAbsent s'
  unfolding sink_and_note
  sink_and_note-IsAbsent c code e a s s' other h p =
      let (t, sinks, done) = >>=-eq-some (sink_on_transfer_approval c a s.table) _ h in
      let eq : t ≡ s'.table = ground (arith, done) in
      subst (λ (u : Table). find k x i u.rows ≡ none) eq
        (sink_on_transfer_approval-IsAbsent c a s.table t other sinks p)

  pub sync_apply-IsAbsent :
      (c : Chain) (key : ArgName) (source : Event → Source) (e : Event) (s s' : State)
      → ((id : ℕ)
          → e.args key ≡ some id
          → ltb maxsize (get_or (e.args ArgName.value) 0) ≡ false
          → is_meant (source e) id ≡ false)
      → sync_apply c key source e s ≡ some s'
      → IsAbsent s
      → IsAbsent s'
  unfolding sync_apply
  sync_apply-IsAbsent c key source e s s' other h p =
      elim (Bool-cases (ltb maxsize (get_or (e.args ArgName.value) 0))) [
        | inl large ↦
            let done = rw (large, sync_apply) at h in let eq : s ≡ s' = cc in subst IsAbsent eq p
        | inr fits ↦
            let (id, named, h1) = >>=-eq-some (e.args key) _ (rw (fits, sync_apply) at h) in
            sink_and_note-IsAbsent c 0 e _ s s' (λ _. other id named fits) h1 p
      ]

  pub sync_cancel-IsAbsent :
      (c : Chain) (key : ArgName) (source : Event → Source) (e : Event) (s s' : State)
      → sync_cancel c key source e s ≡ some s'
      → IsAbsent s
      → IsAbsent s'
  unfolding sync_cancel
  sync_cancel-IsAbsent c key source e s s' h p =
      let (id, _, h1) = >>=-eq-some (e.args key) _ h in
      sink_and_note-IsAbsent c 1 e _ s s' (λ eq. cc) h1 p

  pub sync_approve-IsAbsent :
      (c : Chain) (key : ArgName) (source : Event → Source) (e : Event) (s s' : State)
      → sync_approve c key source e s ≡ some s'
      → IsAbsent s
      → IsAbsent s'
  unfolding sync_approve
  sync_approve-IsAbsent c key source e s s' h p =
      let (id, _, h1) = >>=-eq-some (e.args key) _ h in
      sink_and_note-IsAbsent c 2 e _ s s' (λ eq. cc) h1 p

  pub sync_approve_escrow-IsAbsent :
      (c : Chain) (key : ArgName) (source : Event → Source) (e : Event) (s s' : State)
      → sync_approve_escrow c key source e s ≡ some s'
      → IsAbsent s
      → IsAbsent s'
  unfolding sync_approve_escrow
  sync_approve_escrow-IsAbsent c key source e s s' h p =
      let (id, _, h1) = >>=-eq-some (e.args key) _ h in
      sink_and_note-IsAbsent c 2 e _ s s' (λ eq. cc) h1 p

  pub sync_finish-IsAbsent :
      (c : Chain) (key : ArgName) (source : Event → Source) (e : Event) (s s' : State)
      → sync_finish c key source e s ≡ some s'
      → IsAbsent s
      → IsAbsent s'
  unfolding sync_finish
  sync_finish-IsAbsent c key source e s s' h p =
      let (id, _, h1) = >>=-eq-some (e.args key) _ h in
      sink_and_note-IsAbsent c 3 e _ s s' (λ eq. cc) h1 p

-- What the events that fit keep, the loops over contracts with such events keep.
module _ {κ} (P : State → Type κ) (R : Address → Type 0) (Q : Address → Event → Type 0)
    (logs : Address → List Event) (body : Address → Event → State → Option State)
    (keeps : (k : Address) (e : Event) (s s' : State) → Q k e → body k e s ≡ some s' → P s → P s')
    (fits : (k : Address) → R k → All (Q k) (logs k)) where
  pub for_contracts-keeps :
      (ks : List Address) (s s' : State)
      → All R ks
      → for_contracts logs body ks s ≡ some s'
      → P s
      → P s'
  unfolding for_contracts
  for_contracts-keeps [] s s' rs h p = let eq : s ≡ s' = cc in subst P eq p
  for_contracts-keeps (k ∷ ks) s s' (r, rs) h p =
      let (u, here, rest) = >>=-eq-some (for_each (body k) (logs k) s) _ h in
      for_contracts-keeps ks u s' rs rest
        (for_each-keeps P (Q k) (body k) (keeps k) (logs k) s u (fits k r) here p)

  -- If a contract's events then raise, the loop over the contracts does.
  pub for_contracts_raises :
      (j : Address) (ks : List Address) (s : State)
      → ((u : State) → P u → for_each (body j) (logs j) u ≡ none)
      → All R ks
      → contains j ks ≡ true
      → P s
      → for_contracts logs body ks s ≡ none
  unfolding for_contracts
  for_contracts_raises j [] s raises rs has p = cc
  for_contracts_raises j (k ∷ ks) s raises (r, rs) has p = elim (Bool-cases (k == j)) [
    | inl hit ↦
        let eq : j ≡ k = ground arith in
        let stops = subst (λ a. for_each (body a) (logs a) s ≡ none) eq (raises s p) in
        rw (stops, for_contracts)
    | inr miss ↦ elim (Option-cases (for_each (body k) (logs k) s)) [
      | inl stops ↦ rw (stops, for_contracts)
      | inr (u, goes) ↦
          let kept = for_each-keeps P (Q k) (body k) (keeps k) (logs k) s u (fits k r) goes p in
          rw (goes, for_contracts) (for_contracts_raises j ks u raises rs (rw miss at has) kept)
    ]
  ]
