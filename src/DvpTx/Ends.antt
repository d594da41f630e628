-- ===== src/DvpTx/Ends.antt =====
-- A round of batch/processor_dvp_async_tx.py in which everything works completes its processes.
use ibet_prime.Base.{
  ℕ, ◌≡◌, refl, Bool, true, false, List, [], ◌∷◌, ◌++◌, some, arith, ◌==◌, ◌&&◌, map, select,
  get_elem?, Option, Bool-cases, inl, inr, append_nil, append_assoc, ap, ◌∙◌, subst, sym,
}
use ibet_prime.Delivery.Table.{DvpAsyncProcess, DvpAsyncProcessStatus}
use ibet_prime.DvpTx.Process.{
  World, Effects, Receipt, Transaction, send, count, step_transaction, step_sent, send_step,
  step_succeeded, sync_step, sync_revert, revert_succeeded, is_processing, is_next, is_step_pending,
  is_revert_pending, pass, send_step_tx, sync_step_tx_result, sync_revert_tx_result, process,
}
use ibet_prime.DvpTx.Endless.{with_sent}
use ibet_prime.DvpTx.Rows.{pass_at}
use ibet_prime.DvpTx.Places.{
  IsRunning, pass-IsGrown, pass_reaches, send_step-Grows, sync_step-Grows,
}

-- The keys are there, every transaction is sent, and succeeds.
pub record IsFair (w : World) : Type 0 where
  pub keys : (a : ℕ) → w.finds_key a ≡ true
  pub sends : (n : ℕ) (tx : Transaction) → (h : ℕ) × (w.send n tx ≡ some h)
  pub succeeds : (h : Option ℕ) → w.receipt h ≡ Receipt.success

-- In process, with the next step to be sent.
abbrev pub is_ready : DvpAsyncProcess → Bool
is_ready r = is_processing r.process_status && is_next r.step_tx_status

-- Just sent.
record IsSent (r : DvpAsyncProcess) : Type 0 where
  hash : ℕ
  waits : (is_processing r.process_status && is_step_pending r.step_tx_status) ≡ true
  named : r.step_tx_hash ≡ some hash
  stepped : r.step ≡ 1

abbrev pub IsDone : DvpAsyncProcess → Type 0
IsDone r = r.process_status ≡ DvpAsyncProcessStatus.done_success

step_sent-IsSent : (r : DvpAsyncProcess) (h : ℕ) → is_ready r ≡ true → IsSent (step_sent r h)
step_sent-IsSent r h ready = record {
  hash = h;
  waits = ground (arith, ready);
  named = refl;
  stepped = refl;
}

-- The first pass sends the step of each row that waits for it, in the order of the table.
sends_each :
    (w : World) (rows : List DvpAsyncProcess) (sent : List Transaction)
    → IsFair w
    → (pass is_ready (send_step w) rows (with_sent sent)).1
      ≡ with_sent (sent ++ map step_transaction (select is_ready rows))
unfolding pass
sends_each w [] sent fair = ap with_sent (sym (append_nil sent))
sends_each w (r ∷ rs) sent fair = elim (Bool-cases (is_ready r)) [
  | inr other ↦ rw (other, pass) (sends_each w rs sent fair)
  | inl ready ↦
      let tx = step_transaction r in
      let (hash, sends) = fair.sends (count sent) tx in
      let step : send_step w r (with_sent sent) ≡ (step_sent r hash, with_sent (sent ++ tx ∷ [])) =
        rw (send_step, fair.keys r.issuer_address) (rw (sends, send)) in
      rw (ready, pass)
        (ap (λ (d : DvpAsyncProcess × Effects). (pass is_ready (send_step w) rs d.1).1) step
          ∙ sends_each w rs (sent ++ tx ∷ []) fair
          ∙ ap with_sent (append_assoc sent tx (map step_transaction (select is_ready rs))))
]

-- A pass whose handler sends nothing sends nothing.
pass_silent :
    (chosen : DvpAsyncProcess → Bool)
    (handle : DvpAsyncProcess → Effects → DvpAsyncProcess × Effects)
    → ((r : DvpAsyncProcess) (fx : Effects) → (handle r fx).1 ≡ fx)
    → (rows : List DvpAsyncProcess) (sent : List Transaction)
    → (pass chosen handle rows (with_sent sent)).1 ≡ with_sent sent
unfolding pass
pass_silent chosen handle silent [] sent = refl
pass_silent chosen handle silent (r ∷ rs) sent = elim (Bool-cases (chosen r)) [
  | inr other ↦ rw (other, pass) (pass_silent chosen handle silent rs sent)
  | inl taken ↦
      rw (taken, pass)
        (ap (λ fx. (pass chosen handle rs fx).1) (silent r (with_sent sent))
          ∙ pass_silent chosen handle silent rs sent)
]

sync_step_fair :
    (w : World)
    → IsFair w
    → (r : DvpAsyncProcess) (fx : Effects) → sync_step w r fx ≡ (step_succeeded r, fx)
sync_step_fair w fair r fx = let done = fair.succeeds r.step_tx_hash in rw (done, sync_step)

sync_revert_fair :
    (w : World)
    → IsFair w
    → (r : DvpAsyncProcess) (fx : Effects) → sync_revert w r fx ≡ (revert_succeeded r, fx)
sync_revert_fair w fair r fx = let done = fair.succeeds r.step_tx_hash in rw (done, sync_revert)

send_step-IsSent :
    (w : World) (r : DvpAsyncProcess) (fx : Effects)
    → IsFair w
    → is_ready r ≡ true
    → IsSent (send_step w r fx).0
send_step-IsSent w r fx fair ready =
    let (hash, sends) = fair.sends (count fx.sent) (step_transaction r) in
    rw (send_step, fair.keys r.issuer_address) (rw (sends, send) (step_sent-IsSent r hash ready))

step_succeeded-IsDone : (r : DvpAsyncProcess) → IsSent r → IsDone (step_succeeded r)
step_succeeded-IsDone r s = let last : (r.step == 1) ≡ true = ap (λ n. n == 1) s.stepped in rw last

revert_pass-IsDone :
    (w : World) (r : DvpAsyncProcess) (fx : Effects)
    → (is_processing r.process_status && is_revert_pending r.revert_tx_status) ≡ true
    → IsDone r
    → IsDone (sync_revert w r fx).0
revert_pass-IsDone w r fx c done = absurd (ground (arith, c, done))

-- No test counts.
abbrev no_transaction : Transaction → Bool
no_transaction tx = false

process_at :
    (w : World) (rows : List DvpAsyncProcess) (sent : List Transaction) (i : ℕ)
    (r : DvpAsyncProcess)
    → IsFair w
    → get_elem? rows i ≡ some r
    → is_ready r ≡ true
    → (s : DvpAsyncProcess) × (get_elem? (process w rows (with_sent sent)).0 i ≡ some s) × IsDone s
unfolding process send_step_tx sync_step_tx_result sync_revert_tx_result
process_at w rows sent i r fair found ready =
    let p = no_transaction in
    let stepped = send_step_tx w rows (with_sent sent) in
    let synced = sync_step_tx_result w stepped.0 stepped.1 in
    let (fx, _, at_u, _) =
      pass_reaches p is_ready (send_step w) (send_step-Grows p w) rows (with_sent sent) i r refl
        found ready in
    let u = (send_step w r fx).0 in
    let sent_u : IsSent u = send_step-IsSent w r fx fair ready in
    let runs : IsRunning stepped.1 =
      (pass-IsGrown p is_ready (send_step w) (send_step-Grows p w) rows (with_sent sent)).running
        refl in
    let (fx', _, at_v, _) =
      pass_reaches p (λ q. is_processing q.process_status && is_step_pending q.step_tx_status)
        (sync_step w) (sync_step-Grows p w) stepped.0 stepped.1 i u runs at_u sent_u.waits in
    let done : IsDone (sync_step w u fx').0 =
      subst (λ (d : DvpAsyncProcess × Effects). IsDone d.0) (sym (sync_step_fair w fair u fx'))
        (step_succeeded-IsDone u sent_u) in
    pass_at IsDone (λ q. is_processing q.process_status && is_revert_pending q.revert_tx_status)
      (sync_revert w) (revert_pass-IsDone w) synced.0 synced.1 i ((sync_step w u fx').0, at_v, done)

process_sends :
    (w : World) (rows : List DvpAsyncProcess) (sent : List Transaction)
    → IsFair w
    → (process w rows (with_sent sent)).1
      ≡ with_sent (sent ++ map step_transaction (select is_ready rows))
unfolding process send_step_tx sync_step_tx_result sync_revert_tx_result
process_sends w rows sent fair =
    let sent' = sent ++ map step_transaction (select is_ready rows) in
    let stepped = send_step_tx w rows (with_sent sent) in
    let first_pass : stepped.1 ≡ with_sent sent' = sends_each w rows sent fair in
    let synced = sync_step_tx_result w stepped.0 (with_sent sent') in
    let second_pass : synced.1 ≡ with_sent sent' =
      pass_silent _ (sync_step w)
        (λ r fx. ap (λ (d : DvpAsyncProcess × Effects). d.1) (sync_step_fair w fair r fx)) stepped.0
        sent' in
    let third_pass : (sync_revert_tx_result w synced.0 (with_sent sent')).1 ≡ with_sent sent' =
      pass_silent _ (sync_revert w)
        (λ r fx. ap (λ (d : DvpAsyncProcess × Effects). d.1) (sync_revert_fair w fair r fx))
        synced.0 sent' in
    ap
      (λ fx.
        (sync_revert_tx_result w (sync_step_tx_result w stepped.0 fx).0
          (sync_step_tx_result w stepped.0 fx).1).1)
      first_pass
    ∙ ap (λ fx. (sync_revert_tx_result w synced.0 fx).1) second_pass
    ∙ third_pass

-- A round without a shutdown in which the keys are there and every transaction is sent and succeeds
-- completes each process that waits for its next step, wherever its row stands in the table and
-- whatever the other rows are; and it sends one transaction for each of those rows, in their order, and
-- no other.
pub process_completes :
    (w : World) (rows : List DvpAsyncProcess) (sent : List Transaction) (i : ℕ)
    (r : DvpAsyncProcess)
    → IsFair w
    → get_elem? rows i ≡ some r
    → is_ready r ≡ true
    → ((s : DvpAsyncProcess) × (get_elem? (process w rows (with_sent sent)).0 i ≡ some s)
        × IsDone s)
      × ((process w rows (with_sent sent)).1
          ≡ with_sent (sent ++ map step_transaction (select is_ready rows)))
process_completes w rows sent i r fair found ready =
    (process_at w rows sent i r fair found ready, process_sends w rows sent fair)
