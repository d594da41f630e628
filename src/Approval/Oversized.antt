-- ===== src/Approval/Oversized.antt =====
-- What an application whose amount does not fit does to the run that reads its cancellation.
use ibet_prime.Base.{
  ℕ, ◌+◌, ◌-◌, ◌<◌, ◌≤◌, ◌≡◌, ◌≢◌, ◌∙◌, ap, subst, refl, true, false, ltb, leb, ◌==◌, List, [], ◌∷◌,
  Option, none, some, get_or, arith, All, All-mono, All-every, Bool-cases, Option-cases, inl, inr,
  >>=-eq-some,
}
use ibet_prime.Blocks.{Loop, run_all_raises}
use ibet_prime.Chain.{Address, zero_address, maxsize, EventName, ArgName, Event, Chain}
use ibet_prime.Logs.{for_each_raises, Occurs}
use ibet_prime.Tokens.{contains}
use ibet_prime.Approval.Table.{EventType, find}
use ibet_prime.Approval.Events.{
  State, Source, Scope, of_token, of_exchange, arguments, sync_approve, sync_approve_escrow,
  sync_finish, sink_and_note, sync_apply, sync_cancel, for_contracts, sync_token_apply_for_transfer,
  sync_token_cancel_transfer, sync_token_approve_transfer, sync_exchange_apply_for_transfer,
  sync_exchange_cancel_transfer, sync_exchange_escrow_finished, sync_exchange_approve_transfer,
  sync_all,
}
use ibet_prime.Approval.Sync.{
  Database, Loaded, load_tokens, exchanges, contract_list, block_number, sync_blocks, commit,
  sync_new_logs,
}
use ibet_prime.Approval.Failures.{sink_missing}
use ibet_prime.Approval.Progress.{sync_blocks-covers}
use ibet_prime.Approval.Absent.{
  IsAbsent, is_meant, sync_apply-IsAbsent, sync_cancel-IsAbsent, sync_approve-IsAbsent,
  sync_approve_escrow-IsAbsent, sync_finish-IsAbsent, for_contracts-keeps, for_contracts_raises,
}

-- If the event is an application of this id, its amount does not fit.
abbrev pub IsOversized : ℕ → Event → Type 0
IsOversized id e =
    e.args ArgName.index ≡ some id → ltb maxsize (get_or (e.args ArgName.value) 0) ≡ true

-- The exchanges asked are contracts.
exchanges-IsReal : (c : Chain) (ls : List Loaded) → All (λ a. a ≢ zero_address) (exchanges c ls)
unfolding exchanges
exchanges-IsReal c [] = tt
exchanges-IsReal c (l ∷ ls) = ground (arith, exchanges-IsReal c ls)

-- No condition.
abbrev AnyContract : Address → Type 0
AnyContract a = Unit

abbrev AnyEvent : Event → Type 0
AnyEvent e = Unit

module _ (c : Chain) (scope : Scope) (token id m n : ℕ)
    (real : All (λ a. a ≢ zero_address) scope.exchange_list)
    (oversized : All
      (IsOversized id)
      (c.get_event_logs token EventName.apply_for_transfer [] m n)) where
  abbrev Absent : State → Type 0
  Absent = IsAbsent token zero_address id

  abbrev logs : EventName → Address → List Event
  logs name k = c.get_event_logs k name [] m n

  -- What an application needs to make no row for this one.
  abbrev Fits : ArgName → (Address → Event → Source) → Address → Event → Type 0
  Fits key source k e =
      (j : ℕ)
      → e.args key ≡ some j
      → ltb maxsize (get_or (e.args ArgName.value) 0) ≡ false
      → is_meant token zero_address id (source k e) j ≡ false

  oversized-Fits : (e : Event) → IsOversized id e → Fits ArgName.index of_token token e
  oversized-Fits e large j named fits = elim (Bool-cases (j == id)) [
    | inl hit ↦ let eq : j ≡ id = ground arith in let full = large (named ∙ ap some eq) in cc
    | inr miss ↦ ground (arith, miss)
  ]

  token-Fits :
      (k : Address)
      → AnyContract k
      → All (Fits ArgName.index of_token k) (c.get_event_logs k EventName.apply_for_transfer [] m n)
  token-Fits k u = elim (Bool-cases (k == token)) [
    | inl hit ↦
        let eq : token ≡ k = ground arith in
        subst
          (λ a.
            All (Fits ArgName.index of_token a)
              (c.get_event_logs a EventName.apply_for_transfer [] m n))
          eq
          (All-mono (IsOversized id) (Fits ArgName.index of_token token) _ oversized-Fits oversized)
    | inr miss ↦ All-every (Fits ArgName.index of_token k) _ (λ e j named fits. rw miss refl)
  ]

  exchange-Fits :
      (k : Address)
      → k ≢ zero_address
      → All
          (Fits ArgName.escrow_id of_exchange k)
          (c.get_event_logs k EventName.apply_for_transfer [] m n)
  exchange-Fits k there =
      let other : (k == zero_address) ≡ false = ground (arith, there) in
      All-every (Fits ArgName.escrow_id of_exchange k) _ (λ e j named fits. ground (arith, other))

  every : (ks : List Address) → All AnyContract ks
  every ks = All-every AnyContract ks (λ a. tt)

  -- A pass of events that are no applications makes no row.
  quiet :
      (logs : Address → List Event) (body : Address → Event → State → Option State)
      → ((k : Address) (e : Event) (s s' : State) → body k e s ≡ some s' → Absent s → Absent s')
      → (ks : List Address) (s s' : State) → for_contracts logs body ks s ≡ some s'
      → Absent s
      → Absent s'
  quiet logs body keeps ks s s' =
      for_contracts-keeps Absent AnyContract (λ k. AnyEvent) logs body
        (λ k e u u' _. keeps k e u u') (λ k _. All-every AnyEvent (logs k) (λ e. tt)) ks s s'
        (every ks)

  token_applies :
      (s s' : State) → sync_token_apply_for_transfer c scope m n s ≡ some s' → Absent s → Absent s'
  unfolding sync_token_apply_for_transfer
  token_applies s s' =
      for_contracts-keeps Absent AnyContract (Fits ArgName.index of_token)
        (logs EventName.apply_for_transfer) (λ k. sync_apply c ArgName.index (of_token k))
        (λ k e u u'. sync_apply-IsAbsent token zero_address id c ArgName.index (of_token k) e u u')
        token-Fits scope.token_list s s' (every scope.token_list)

  exchange_applies :
      (s s' : State)
      → sync_exchange_apply_for_transfer c scope m n s ≡ some s'
      → Absent s
      → Absent s'
  unfolding sync_exchange_apply_for_transfer
  exchange_applies s s' =
      for_contracts-keeps Absent (λ a. a ≢ zero_address) (Fits ArgName.escrow_id of_exchange)
        (logs EventName.apply_for_transfer) (λ k. sync_apply c ArgName.escrow_id (of_exchange k))
        (λ k. sync_apply-IsAbsent token zero_address id c ArgName.escrow_id (of_exchange k))
        exchange-Fits scope.exchange_list s s' real

  sync_all-Absent : (s s' : State) → sync_all c scope m n s ≡ some s' → Absent s → Absent s'
  unfolding sync_all sync_token_cancel_transfer sync_token_approve_transfer
      sync_exchange_cancel_transfer sync_exchange_escrow_finished sync_exchange_approve_transfer
  sync_all-Absent s s' h p =
      let z = zero_address in
      let (s1, h1, g1) = >>=-eq-some (sync_token_apply_for_transfer c scope m n s) _ h in
      let (s2, h2, g2) = >>=-eq-some (sync_token_cancel_transfer c scope m n s1) _ g1 in
      let (s3, h3, g3) = >>=-eq-some (sync_token_approve_transfer c scope m n s2) _ g2 in
      let (s4, h4, g4) = >>=-eq-some (sync_exchange_apply_for_transfer c scope m n s3) _ g3 in
      let (s5, h5, g5) = >>=-eq-some (sync_exchange_cancel_transfer c scope m n s4) _ g4 in
      let (s6, h6, h7) = >>=-eq-some (sync_exchange_escrow_finished c scope m n s5) _ g5 in
      let p1 = token_applies s s1 h1 p in
      let p2 =
        quiet (logs EventName.cancel_transfer) (λ k. sync_cancel c ArgName.index (of_token k))
          (λ k. sync_cancel-IsAbsent token z id c ArgName.index (of_token k)) scope.token_list s1 s2
          h2 p1 in
      let p3 =
        quiet (logs EventName.approve_transfer) (λ k. sync_approve c ArgName.index (of_token k))
          (λ k. sync_approve-IsAbsent token z id c ArgName.index (of_token k)) scope.token_list s2
          s3 h3 p2 in
      let p4 = exchange_applies s3 s4 h4 p3 in
      let p5 =
        quiet (logs EventName.cancel_transfer)
          (λ k. sync_cancel c ArgName.escrow_id (of_exchange k))
          (λ k. sync_cancel-IsAbsent token z id c ArgName.escrow_id (of_exchange k))
          scope.exchange_list s4 s5 h5 p4 in
      let p6 =
        quiet
          (λ k.
            c.get_event_logs k EventName.escrow_finished
              ((ArgName.transfer_approval_required, 1) ∷ []) m n)
          (λ k. sync_finish c ArgName.escrow_id (of_exchange k))
          (λ k. sync_finish-IsAbsent token z id c ArgName.escrow_id (of_exchange k))
          scope.exchange_list s5 s6 h6 p5 in
      quiet (logs EventName.approve_transfer)
        (λ k. sync_approve_escrow c ArgName.escrow_id (of_exchange k))
        (λ k. sync_approve_escrow-IsAbsent token z id c ArgName.escrow_id (of_exchange k))
        scope.exchange_list s6 s' h7 p6

  cancel_missing :
      (e : Event) (s : State)
      → e.args ArgName.index ≡ some id
      → Absent s
      → sync_cancel c ArgName.index (of_token token) e s ≡ none
  unfolding sync_cancel sink_and_note
  cancel_missing e s named p =
      let raises =
        sink_missing c (arguments c EventType.cancel (of_token token e) id e) s.table (λ e. cc) p in
      rw named (rw raises)

  -- A range with a cancellation then raises.
  sync_all_missing :
      (e : Event) (s : State)
      → contains token scope.token_list ≡ true
      → e.args ArgName.index ≡ some id
      → Occurs e (c.get_event_logs token EventName.cancel_transfer [] m n)
      → Absent s
      → sync_all c scope m n s ≡ none
  unfolding sync_all sync_token_cancel_transfer
  sync_all_missing e s held named occurs p =
      elim (Option-cases (sync_token_apply_for_transfer c scope m n s)) [
        | inl stops ↦ rw (stops, sync_all)
        | inr (s1, applies) ↦
            let body = λ (k : Address). sync_cancel c ArgName.index (of_token k) in
            let logged = logs EventName.cancel_transfer in
            let keeps = λ (k : Address).
              sync_cancel-IsAbsent token zero_address id c ArgName.index (of_token k) in
            let raises =
              for_contracts_raises Absent AnyContract (λ k. AnyEvent) logged body
                (λ k f u u' _. keeps k f u u') (λ k _. All-every AnyEvent (logged k) (λ f. tt))
                token scope.token_list s1
                (λ u q.
                  for_each_raises Absent (body token) e (keeps token)
                    (λ w. cancel_missing e w named) (logged token) u q occurs)
                (every scope.token_list) held (token_applies s s1 applies p) in
            rw (applies, sync_all) (rw (raises, sync_token_cancel_transfer))
      ]

-- If a token that is loaded logs, in a block not synced yet, the cancellation of an application that
-- has no row, and each application of this id that the token logs in the blocks not synced yet has an
-- amount that does not fit, then the run raises.
pub sync_new_logs_oversized :
    (fuel lot : ℕ) (c : Chain) (loaded : List Loaded) (db : Database) (token id block : ℕ)
    (e : Event)
    → 0 < lot
    → c.latest_block - block_number db < fuel
    → block_number db < block
    → block ≤ c.latest_block
    → contains token (contract_list c (load_tokens db loaded)).token_list ≡ true
    → find token zero_address id db.table.rows ≡ none
    → ((m n : ℕ)
        → block_number db < m
        → All (IsOversized id) (c.get_event_logs token EventName.apply_for_transfer [] m n))
    → ((m n : ℕ)
        → m ≤ block
        → block ≤ n
        → Occurs e (c.get_event_logs token EventName.cancel_transfer [] m n))
    → e.args ArgName.index ≡ some id
    → (sync_new_logs fuel lot c loaded db).1 ≡ Loop.raised
unfolding sync_new_logs commit contract_list
sync_new_logs_oversized fuel lot c loaded db token id block e p f after upto held missing oversized
      occurs named =
    let ls = load_tokens db loaded in
    let k = contract_list c ls in
    let s : State = record { table = db.table; notification_events = [] } in
    let real = exchanges-IsReal c ls in
    let behind : leb c.latest_block (block_number db) ≡ false = ground arith in
    let (rs, cover, covers) =
      sync_blocks-covers fuel lot (block_number db) c k s p (omega arith) f in
    let raises =
      run_all_raises (IsAbsent token zero_address id) (sync_all c k) lot (block_number db + 1)
        c.latest_block block rs s cover missing (omega arith) upto
        (λ m n u u' later. sync_all-Absent c k token id m n real (oversized m n (omega arith)) u u')
        (λ m n u later above below q.
          sync_all_missing c k token id m n real (oversized m n (omega arith)) e u held named
            (occurs m n above below) q) in
    let done : sync_blocks fuel lot c k (block_number db) s ≡ Loop.raised = covers ∙ raises in
    rw (behind, sync_new_logs) (rw (done, commit))
