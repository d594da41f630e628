-- ===== src/DvpTx/Kept.antt =====
-- What the rounds of batch/processor_dvp_async_tx.py keep of the rows.
use ibet_prime.Base.{
  ℕ, ◌≡◌, refl, true, List, [], ◌∷◌, none, some, arith, ◌&&◌, Bool-cases, inl, inr, ap, All,
}
use ibet_prime.Delivery.Table.{
  DvpAsyncProcess, DvpAsyncProcessType, DvpAsyncProcessStatus, DvpAsyncProcessStepTxStatus,
  DvpAsyncProcessRevertTxStatus, is_some,
}
use ibet_prime.DvpTx.Process.{
  World, Effects, withdrawal, step_transaction, step_sent, send_step, revert_sent, step_reverted,
  step_succeeded, sync_step, revert_resent, revert_reverted, revert_succeeded, sync_revert,
  is_creation, is_processing, is_next, is_step_pending, is_revert_pending, send_step_tx,
  sync_step_tx_result, sync_revert_tx_result, process, rounds,
}
use ibet_prime.DvpTx.Rows.{Receipt-cases, pass-keeps, send-keeps}

-- A step that is waited for has a hash; a revert that is waited for is of a creation whose step has
-- failed, and has a hash; a process that is done succeeded after its one step, or failed after its
-- revert.
pub record IsSound (r : DvpAsyncProcess) : Type 0 where
  pub step_named : is_step_pending r.step_tx_status ≡ true → is_some r.step_tx_hash ≡ true
  pub revert_of_creation :
      is_revert_pending r.revert_tx_status ≡ true
      → r.process_type ≡ DvpAsyncProcessType.create_delivery
  pub revert_after_step :
      is_revert_pending r.revert_tx_status ≡ true
      → r.step_tx_status ≡ some DvpAsyncProcessStepTxStatus.failed
  pub revert_named : is_revert_pending r.revert_tx_status ≡ true → is_some r.revert_tx_hash ≡ true
  pub succeeded_stepped : r.process_status ≡ DvpAsyncProcessStatus.done_success → r.step ≡ 1
  pub succeeded_done :
      r.process_status ≡ DvpAsyncProcessStatus.done_success
      → r.step_tx_status ≡ some DvpAsyncProcessStepTxStatus.done
  pub failed_reverted :
      r.process_status ≡ DvpAsyncProcessStatus.done_failed
      → r.revert_tx_status ≡ some DvpAsyncProcessRevertTxStatus.done

step_sent-IsSound :
    (r : DvpAsyncProcess) (hash : ℕ)
    → (is_processing r.process_status && is_next r.step_tx_status) ≡ true
    → IsSound r
    → IsSound (step_sent r hash)
step_sent-IsSound r hash c s = grind (
  arith, s.step_named, s.revert_of_creation, s.revert_after_step, s.revert_named,
  s.succeeded_stepped, s.succeeded_done, s.failed_reverted,
)

revert_sent-IsSound :
    (r : DvpAsyncProcess) (hash : ℕ)
    → (is_processing r.process_status && is_step_pending r.step_tx_status) ≡ true
    → r.process_type ≡ DvpAsyncProcessType.create_delivery
    → IsSound r
    → IsSound (revert_sent r hash)
revert_sent-IsSound r hash c t s = record {
  step_named = λ h. cc;
  revert_of_creation = λ h. t;
  revert_after_step = λ h. refl;
  revert_named = λ h. refl;
  succeeded_stepped = λ h. s.succeeded_stepped h;
  succeeded_done = λ h. ground (arith, c, h);
  failed_reverted = λ h. ground (arith, c, h);
}

step_succeeded-IsSound :
    (r : DvpAsyncProcess)
    → (is_processing r.process_status && is_step_pending r.step_tx_status) ≡ true
    → IsSound r
    → IsSound (step_succeeded r)
step_succeeded-IsSound r c s = ground arith

retried-IsSound :
    (r : DvpAsyncProcess)
    → (is_processing r.process_status && is_step_pending r.step_tx_status) ≡ true
    → IsSound r
    → IsSound
        (record r { step_tx_hash = none; step_tx_status = some DvpAsyncProcessStepTxStatus.retry })
retried-IsSound r c s = grind (
  arith, s.revert_of_creation, s.revert_after_step, s.revert_named, s.succeeded_stepped,
  s.succeeded_done, s.failed_reverted,
)

revert_resent-IsSound :
    (r : DvpAsyncProcess) (hash : ℕ)
    → (is_processing r.process_status && is_revert_pending r.revert_tx_status) ≡ true
    → IsSound r
    → IsSound (revert_resent r hash)
revert_resent-IsSound r hash c s = grind (
  arith, s.step_named, s.revert_of_creation, s.revert_after_step, s.revert_named,
  s.succeeded_stepped, s.succeeded_done, s.failed_reverted,
)

revert_succeeded-IsSound :
    (r : DvpAsyncProcess)
    → (is_processing r.process_status && is_revert_pending r.revert_tx_status) ≡ true
    → IsSound r
    → IsSound (revert_succeeded r)
revert_succeeded-IsSound r c s = ground (arith, s.step_named)

-- The three handlers, each on a row that its query selects.
send_step-IsSound :
    (w : World) (r : DvpAsyncProcess) (fx : Effects)
    → (is_processing r.process_status && is_next r.step_tx_status) ≡ true
    → IsSound r
    → IsSound (send_step w r fx).0
send_step-IsSound w r fx c s = elim (Bool-cases (w.finds_key r.issuer_address)) [
  | inl has ↦
      rw (has, send_step)
        (send-keeps IsSound w (step_transaction r) (step_sent r) r fx s
          (λ hash. step_sent-IsSound r hash c s))
  | inr lacks ↦ rw (lacks, send_step) s
]

step_reverted-IsSound :
    (w : World) (r : DvpAsyncProcess) (fx : Effects) (type : DvpAsyncProcessType)
    → r.process_type ≡ type
    → (is_processing r.process_status && is_step_pending r.step_tx_status) ≡ true
    → IsSound r
    → IsSound (step_reverted w r fx).0
step_reverted-IsSound w r fx DvpAsyncProcessType.create_delivery t c s =
    rw (step_reverted, t)
      (send-keeps IsSound w (withdrawal r) (revert_sent r) r fx s
        (λ hash. revert_sent-IsSound r hash c t s))
step_reverted-IsSound w r fx DvpAsyncProcessType.cancel_delivery t c s =
    rw (step_reverted, t) (retried-IsSound r c s)
step_reverted-IsSound w r fx DvpAsyncProcessType.finish_delivery t c s =
    rw (step_reverted, t) (retried-IsSound r c s)
step_reverted-IsSound w r fx DvpAsyncProcessType.abort_delivery t c s =
    rw (step_reverted, t) (retried-IsSound r c s)

sync_step-IsSound :
    (w : World) (r : DvpAsyncProcess) (fx : Effects)
    → (is_processing r.process_status && is_step_pending r.step_tx_status) ≡ true
    → IsSound r
    → IsSound (sync_step w r fx).0
sync_step-IsSound w r fx c s = elim (Receipt-cases (w.receipt r.step_tx_hash)) [
  | inl waits ↦ rw (waits, sync_step) s
  | inr (inl fails) ↦ elim (Bool-cases (w.finds_key r.issuer_address)) [
    | inl has ↦ rw (fails, has, sync_step) (step_reverted-IsSound w r fx r.process_type refl c s)
    | inr lacks ↦ rw (fails, lacks, sync_step) s
  ]
  | inr (inr succeeds) ↦ rw (succeeds, sync_step) (step_succeeded-IsSound r c s)
]

sync_revert-IsSound :
    (w : World) (r : DvpAsyncProcess) (fx : Effects)
    → (is_processing r.process_status && is_revert_pending r.revert_tx_status) ≡ true
    → IsSound r
    → IsSound (sync_revert w r fx).0
sync_revert-IsSound w r fx c s = elim (Receipt-cases (w.receipt r.step_tx_hash)) [
  | inl waits ↦ rw (waits, sync_revert) s
  | inr (inl fails) ↦ elim (Bool-cases (w.finds_key r.issuer_address)) [
    | inl has ↦
        let t : is_creation r.process_type ≡ true =
          ap is_creation (s.revert_of_creation (ground arith)) in
        rw (fails, has, sync_revert)
          (rw (t, revert_reverted)
            (send-keeps IsSound w (withdrawal r) (revert_resent r) r fx s
              (λ hash. revert_resent-IsSound r hash c s)))
    | inr lacks ↦ rw (fails, lacks, sync_revert) s
  ]
  | inr (inr succeeds) ↦ rw (succeeds, sync_revert) (revert_succeeded-IsSound r c s)
]

process-IsSound :
    (w : World) (rows : List DvpAsyncProcess) (fx : Effects)
    → All IsSound rows
    → All IsSound (process w rows fx).0
unfolding process send_step_tx sync_step_tx_result sync_revert_tx_result
process-IsSound w rows fx s =
    let sends = pass-keeps IsSound _ (send_step w) (send_step-IsSound w) rows fx s in
    let steps = pass-keeps IsSound _ (sync_step w) (sync_step-IsSound w) _ _ sends in
    pass-keeps IsSound _ (sync_revert w) (sync_revert-IsSound w) _ _ steps

-- Rounds keep every row sound, whatever keys, node and shutdown do.
pub rounds-IsSound :
    (ws : List World) (rows : List DvpAsyncProcess) (fx : Effects)
    → All IsSound rows
    → All IsSound (rounds ws rows fx).0
unfolding rounds
rounds-IsSound [] rows fx s = s
rounds-IsSound (w ∷ ws) rows fx s =
    rounds-IsSound ws (process w rows fx).0 (process w rows fx).1 (process-IsSound w rows fx s)
