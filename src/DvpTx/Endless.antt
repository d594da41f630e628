-- ===== src/DvpTx/Endless.antt =====
-- How processes of batch/processor_dvp_async_tx.py end, and which do not.
use ibet_prime.Base.{
  ℕ, ◌+◌, ◌≤◌, ◌==◌, sum_of, ◌≡◌, ◌≢◌, refl, Bool, true, false, List, [], ◌∷◌, ◌++◌, none, some,
  arith, ◌&&◌, Bool-cases, inl, inr, All, get_elem?, subst, ap, sym, ◌∙◌,
}
use ibet_prime.Delivery.Table.{
  DvpAsyncProcess, DvpAsyncProcessType, DvpAsyncProcessStatus, DvpAsyncProcessStepTxStatus,
  DvpAsyncProcessRevertTxStatus,
}
use ibet_prime.DvpTx.Process.{
  World, Effects, Receipt, Transaction, create_delivery_tx, withdraw_partial_tx, send, count,
  withdrawal, send_step, sync_step, revert_resent, revert_reverted, sync_revert, is_creation,
  is_processing, is_next, is_step_pending, is_revert_pending, pass, send_step_tx,
  sync_step_tx_result, sync_revert_tx_result, process, rounds,
}
use ibet_prime.DvpTx.Rows.{pass_at, send-keeps}
use ibet_prime.DvpTx.Places.{
  IsRunning, number_of, number_of-append, IsGrown, pass-IsGrown, pass_reaches, send_step-Grows,
  sync_step-Grows, sync_revert-Grows,
}

-- A creation whose step, with this hash, was reverted, and for which a withdrawal was sent.
pub record IsReverting (hash : ℕ) (r : DvpAsyncProcess) : Type 0 where
  pub of_creation : r.process_type ≡ DvpAsyncProcessType.create_delivery
  pub still_processing : r.process_status ≡ DvpAsyncProcessStatus.processing
  pub step_hash : r.step_tx_hash ≡ some hash
  pub step_failed : r.step_tx_status ≡ some DvpAsyncProcessStepTxStatus.failed
  pub revert_waits : r.revert_tx_status ≡ some DvpAsyncProcessRevertTxStatus.pending

revert_resent-IsReverting :
    (hash hash' : ℕ) (r : DvpAsyncProcess)
    → IsReverting hash r
    → IsReverting hash (revert_resent r hash')
revert_resent-IsReverting hash hash' r s = record {
  of_creation = s.of_creation;
  still_processing = s.still_processing;
  step_hash = s.step_hash;
  step_failed = s.step_failed;
  revert_waits = refl;
}

send_step-IsReverting :
    (hash : ℕ) (w : World) (r : DvpAsyncProcess) (fx : Effects)
    → (is_processing r.process_status && is_next r.step_tx_status) ≡ true
    → IsReverting hash r
    → IsReverting hash (send_step w r fx).0
send_step-IsReverting hash w r fx c s = absurd (ground (arith, c, s.step_failed))

sync_step-IsReverting :
    (hash : ℕ) (w : World) (r : DvpAsyncProcess) (fx : Effects)
    → (is_processing r.process_status && is_step_pending r.step_tx_status) ≡ true
    → IsReverting hash r
    → IsReverting hash (sync_step w r fx).0
sync_step-IsReverting hash w r fx c s = absurd (ground (arith, c, s.step_failed))

sync_revert-IsReverting :
    (hash : ℕ) (w : World) (r : DvpAsyncProcess) (fx : Effects)
    → w.receipt (some hash) ≡ Receipt.reverted
    → IsReverting hash r
    → IsReverting hash (sync_revert w r fx).0
sync_revert-IsReverting hash w r fx fails s =
    let fails' : w.receipt r.step_tx_hash ≡ Receipt.reverted = ap w.receipt s.step_hash ∙ fails in
    let creation : is_creation r.process_type ≡ true = ap is_creation s.of_creation in
    elim (Bool-cases (w.finds_key r.issuer_address)) [
      | inl has ↦
          rw (fails', has, sync_revert)
            (rw (creation, revert_reverted)
              (send-keeps (IsReverting hash) w (withdrawal r) (revert_resent r) r fx s
                (λ hash'. revert_resent-IsReverting hash hash' r s)))
      | inr lacks ↦ rw (fails', lacks, sync_revert) s
    ]

process-IsReverting :
    (hash : ℕ) (w : World) (rows : List DvpAsyncProcess) (fx : Effects) (i : ℕ)
    → w.receipt (some hash) ≡ Receipt.reverted
    → (r : DvpAsyncProcess) × (get_elem? rows i ≡ some r) × IsReverting hash r
    → (r : DvpAsyncProcess) × (get_elem? (process w rows fx).0 i ≡ some r) × IsReverting hash r
unfolding process send_step_tx sync_step_tx_result sync_revert_tx_result
process-IsReverting hash w rows fx i fails s =
    let P = IsReverting hash in
    let sends = pass_at P _ (send_step w) (send_step-IsReverting hash w) rows fx i s in
    let steps = pass_at P _ (sync_step w) (sync_step-IsReverting hash w) _ _ i sends in
    pass_at P _ (sync_revert w) (λ r fx _. sync_revert-IsReverting hash w r fx fails) _ _ i steps

-- A creation whose step was reverted stays in process, with its withdrawal pending, in every round,
-- as long as the node reports the step as reverted, whatever becomes of the withdrawal.
rounds-IsReverting :
    (hash : ℕ) (ws : List World) (rows : List DvpAsyncProcess) (fx : Effects) (i : ℕ)
    (r : DvpAsyncProcess)
    → All (λ (w : World). w.receipt (some hash) ≡ Receipt.reverted) ws
    → get_elem? rows i ≡ some r
    → IsReverting hash r
    → (s : DvpAsyncProcess) × (get_elem? (rounds ws rows fx).0 i ≡ some s) × IsReverting hash s
unfolding rounds
rounds-IsReverting hash [] rows fx i r fails found s = (r, found, s)
rounds-IsReverting hash (w ∷ ws) rows fx i r fails found s =
    let (u, at_u, s') = process-IsReverting hash w rows fx i fails.0 (r, found, s) in
    rounds-IsReverting hash ws (process w rows fx).0 (process w rows fx).1 i u fails.1 at_u s'

is_over :
    (r s : DvpAsyncProcess) (b : Bool)
    → r.process_status ≢ DvpAsyncProcessStatus.processing
    → s ≡ r
    → (is_processing s.process_status && b) ≡ false
is_over r s b over eq =
    subst (λ (u : DvpAsyncProcess). (is_processing u.process_status && b) ≡ false) (sym eq)
      (grind (arith, over))

-- A pass over rows in process leaves the others.
pass_final :
    (test : DvpAsyncProcess → Bool) (handle : DvpAsyncProcess → Effects → DvpAsyncProcess × Effects)
    (rows : List DvpAsyncProcess) (fx : Effects) (i : ℕ) (r : DvpAsyncProcess)
    → r.process_status ≢ DvpAsyncProcessStatus.processing
    → get_elem? rows i ≡ some r
    → get_elem? (pass (λ s. is_processing s.process_status && test s) handle rows fx).0 i ≡ some r
pass_final test handle rows fx i r over found =
    let (u, at_u, eq) =
      pass_at (λ s. s ≡ r) (λ s. is_processing s.process_status && test s) handle
        (λ s fx taken eq. absurd (cc (is_over r s (test s) over eq))) rows fx i (r, found, refl) in
    at_u ∙ ap some eq

-- Rounds leave a process that is done, or in error, as it is.
pub rounds_final :
    (ws : List World) (rows : List DvpAsyncProcess) (fx : Effects) (i : ℕ) (r : DvpAsyncProcess)
    → r.process_status ≢ DvpAsyncProcessStatus.processing
    → get_elem? rows i ≡ some r
    → get_elem? (rounds ws rows fx).0 i ≡ some r
unfolding rounds process send_step_tx sync_step_tx_result sync_revert_tx_result
rounds_final [] rows fx i r over found = found
rounds_final (w ∷ ws) rows fx i r over found =
    let stepped = send_step_tx w rows fx in
    let synced = sync_step_tx_result w stepped.0 stepped.1 in
    let sends = pass_final (λ s. is_next s.step_tx_status) (send_step w) rows fx i r over found in
    let steps =
      pass_final (λ s. is_step_pending s.step_tx_status) (sync_step w) stepped.0 stepped.1 i r over
        sends in
    rounds_final ws (process w rows fx).0 (process w rows fx).1 i r over (
      pass_final (λ s. is_revert_pending s.revert_tx_status) (sync_revert w) synced.0 synced.1 i r
        over steps)

-- A round in which the keys are there and every transaction is sent, and the node reports the
-- transaction of a step as reverted.
pub record IsReverted (hash : ℕ) (w : World) : Type 0 where
  pub keys : (a : ℕ) → w.finds_key a ≡ true
  pub sends : (n : ℕ) (tx : Transaction) → (h : ℕ) × (w.send n tx ≡ some h)
  pub reverts : w.receipt (some hash) ≡ Receipt.reverted

abbrev pub with_sent : List Transaction → Effects
with_sent sent = record { sent = sent; until_shutdown = none }

-- A withdrawal like that of the row.
abbrev pub is_withdrawal_of : DvpAsyncProcess → Transaction → Bool
is_withdrawal_of r (create_delivery_tx _ _ _ _ _ _ _) = false
is_withdrawal_of r (withdraw_partial_tx contract sender token value) =
    contract == r.dvp_contract_address
    && sender == r.issuer_address
    && token == r.token_address
    && value == r.amount

-- A creation that is reverting, with the row's withdrawal.
abbrev IsRepeating : ℕ → DvpAsyncProcess → DvpAsyncProcess → Type 0
IsRepeating hash r s = IsReverting hash s × (is_withdrawal_of r (withdrawal s) ≡ true)

send_step-IsRepeating :
    (hash : ℕ) (w : World) (r s : DvpAsyncProcess) (fx : Effects)
    → (is_processing s.process_status && is_next s.step_tx_status) ≡ true
    → IsRepeating hash r s
    → IsRepeating hash r (send_step w s fx).0
send_step-IsRepeating hash w r s fx c h = absurd (ground (arith, c, h.0.step_failed))

sync_step-IsRepeating :
    (hash : ℕ) (w : World) (r s : DvpAsyncProcess) (fx : Effects)
    → (is_processing s.process_status && is_step_pending s.step_tx_status) ≡ true
    → IsRepeating hash r s
    → IsRepeating hash r (sync_step w s fx).0
sync_step-IsRepeating hash w r s fx c h = absurd (ground (arith, c, h.0.step_failed))

-- A round of the revert pass sends the withdrawal again.
resends :
    (hash : ℕ) (w : World) (r : DvpAsyncProcess) (fx : Effects)
    → IsReverted hash w
    → IsReverting hash r
    → (h : ℕ) × (sync_revert w r fx
        ≡ (revert_resent r h, record fx { sent = fx.sent ++ withdrawal r ∷ [] }))
resends hash w r fx good s =
    let (h, sends) = good.sends (count fx.sent) (withdrawal r) in
    let fails : w.receipt r.step_tx_hash ≡ Receipt.reverted =
      ap w.receipt s.step_hash ∙ good.reverts in
    let creation : is_creation r.process_type ≡ true = ap is_creation s.of_creation in
    (h, rw (sync_revert, fails, good.keys r.issuer_address) (rw creation (rw (sends, send))))

sync_revert-IsRepeating :
    (hash : ℕ) (w : World) (r s : DvpAsyncProcess) (fx : Effects)
    → IsReverted hash w
    → IsRepeating hash r s
    → IsRepeating hash r (sync_revert w s fx).0
sync_revert-IsRepeating hash w r s fx good (h, same) =
    let (n, sends) = resends hash w s fx good h in
    subst (λ (d : DvpAsyncProcess × Effects). IsRepeating hash r d.0) (sym sends)
      (revert_resent-IsReverting hash n s h, same)

-- A round adds a withdrawal, and the creation is at its place as before.
process_adds :
    (hash : ℕ) (w : World) (rows : List DvpAsyncProcess) (fx : Effects) (i : ℕ)
    (r s : DvpAsyncProcess)
    → IsReverted hash w
    → IsRunning fx
    → get_elem? rows i ≡ some s
    → IsRepeating hash r s
    → (u : DvpAsyncProcess) × (get_elem? (process w rows fx).0 i ≡ some u)
      × IsRepeating hash r u
      × IsRunning (process w rows fx).1
      × (number_of (is_withdrawal_of r) fx.sent + 1
          ≤ number_of (is_withdrawal_of r) (process w rows fx).1.sent)
unfolding process send_step_tx sync_step_tx_result sync_revert_tx_result
process_adds hash w rows fx i r s good runs found h =
    let P = IsRepeating hash r in
    let p = is_withdrawal_of r in
    let stepped = send_step_tx w rows fx in
    let synced = sync_step_tx_result w stepped.0 stepped.1 in
    let grown1 : IsGrown p fx stepped.1 =
      pass-IsGrown p _ (send_step w) (send_step-Grows p w) rows fx in
    let grown2 : IsGrown p stepped.1 synced.1 =
      pass-IsGrown p _ (sync_step w) (sync_step-Grows p w) stepped.0 stepped.1 in
    let runs' : IsRunning synced.1 = grown2.running (grown1.running runs) in
    let sends =
      pass_at P _ (send_step w) (send_step-IsRepeating hash w r) rows fx i (s, found, h) in
    let (u, at_u, again) =
      pass_at P _ (sync_step w) (sync_step-IsRepeating hash w r) stepped.0 stepped.1 i sends in
    let waits : (is_processing u.process_status && is_revert_pending u.revert_tx_status) ≡ true =
      rw (again.0.still_processing, again.0.revert_waits) in
    let (at, before, there, after) =
      pass_reaches p (λ q. is_processing q.process_status && is_revert_pending q.revert_tx_status)
        (sync_revert w) (sync_revert-Grows p w) synced.0 synced.1 i u runs' at_u waits in
    let (n, resent) = resends hash w u at good again.0 in
    let one : number_of p (at.sent ++ withdrawal u ∷ []) ≡ number_of p at.sent + 1 =
      number_of-append p at.sent (withdrawal u ∷ []) ∙ (rw again.1) in
    let counted : number_of p (sync_revert w u at).1.sent ≡ number_of p at.sent + 1 =
      ap (λ (d : DvpAsyncProcess × Effects). number_of p d.1.sent) resent ∙ one in
    let m1 = grown1.more in
    let m2 = grown2.more in
    let m3 = before.more in
    let m4 = after.more in
    let running : IsRunning (sync_revert w u at).1 =
      (sync_revert-Grows p w u at).running (before.running runs') in
    (
      (sync_revert w u at).0,
      there,
      sync_revert-IsRepeating hash w r u at good again,
      after.running running,
      omega (arith, counted, m1, m2, m3, m4),
    )

-- The row's own withdrawal is like it.
own_withdrawal : (r : DvpAsyncProcess) → is_withdrawal_of r (withdrawal r) ≡ true
own_withdrawal r = ground arith

rounds_repeat :
    (hash : ℕ) (ws : List World) (rows : List DvpAsyncProcess) (fx : Effects) (i : ℕ)
    (r s : DvpAsyncProcess)
    → All (IsReverted hash) ws
    → IsRunning fx
    → get_elem? rows i ≡ some s
    → IsRepeating hash r s
    → (u : DvpAsyncProcess) × (get_elem? (rounds ws rows fx).0 i ≡ some u)
      × IsReverting hash u
      × (number_of (is_withdrawal_of r) fx.sent + sum_of (λ (w : World). 1) ws
          ≤ number_of (is_withdrawal_of r) (rounds ws rows fx).1.sent)
unfolding rounds
rounds_repeat hash [] rows fx i r s good runs found h = (s, found, h.0, omega arith)
rounds_repeat hash (w ∷ ws) rows fx i r s good runs found h =
    let (u, at_u, again, runs', one) = process_adds hash w rows fx i r s good.0 runs found h in
    let (v, at_v, reverting, more) =
      rounds_repeat hash ws (process w rows fx).0 (process w rows fx).1 i r u good.1 runs' at_u
        again in
    (v, at_v, reverting, omega (arith, one, more))

-- In rounds in which keys and node work and a creation's step stays reverted, wherever its row stands in
-- the table and whatever the other rows are, and while no shutdown comes, each round sends at least one
-- more withdrawal for the creation, and it stays in process.
pub rounds_resend :
    (hash : ℕ) (ws : List World) (rows : List DvpAsyncProcess) (fx : Effects) (i : ℕ)
    (r : DvpAsyncProcess)
    → All (IsReverted hash) ws
    → IsRunning fx
    → get_elem? rows i ≡ some r
    → IsReverting hash r
    → (s : DvpAsyncProcess) × (get_elem? (rounds ws rows fx).0 i ≡ some s)
      × IsReverting hash s
      × (number_of (is_withdrawal_of r) fx.sent + sum_of (λ (w : World). 1) ws
          ≤ number_of (is_withdrawal_of r) (rounds ws rows fx).1.sent)
rounds_resend hash ws rows fx i r good runs found h =
    rounds_repeat hash ws rows fx i r r good runs found (h, own_withdrawal r)
