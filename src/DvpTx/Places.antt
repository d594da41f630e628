-- ===== src/DvpTx/Places.antt =====
-- What the passes of batch/processor_dvp_async_tx.py do at one place of the table, before a shutdown.
use ibet_prime.Base.{
  ℕ, ◌+◌, ◌-◌, ◌≤◌, ◌≡◌, refl, Bool, true, false, List, [], ◌∷◌, ◌++◌, none, some, arith, ◌==◌,
  Bool-cases, Option-cases, inl, inr, get_elem?, subst, ap, ◌∙◌, if◌then◌else◌,
}
use ibet_prime.Delivery.Table.{DvpAsyncProcess, DvpAsyncProcessType}
use ibet_prime.DvpTx.Rows.{Receipt-cases}
use ibet_prime.DvpTx.Process.{
  World, Effects, Transaction, is_shutdown, tick, count, send, pass, step_transaction, step_sent,
  send_step, step_reverted, withdrawal, revert_sent, revert_resent, sync_step, sync_revert,
  is_creation, revert_reverted,
}

-- No shutdown is coming.
abbrev pub IsRunning : Effects → Type 0
IsRunning fx = fx.until_shutdown ≡ none

-- How many of the transactions fit.
abbrev pub number_of : (Transaction → Bool) → List Transaction → ℕ
number_of p [] = 0
number_of p (x ∷ xs) = if p x then number_of p xs + 1 else number_of p xs

pub number_of-append :
    (p : Transaction → Bool) (xs ys : List Transaction)
    → number_of p (xs ++ ys) ≡ number_of p xs + number_of p ys
number_of-append p [] ys = omega arith
number_of-append p (x ∷ xs) ys = ground (arith, number_of-append p xs ys)

-- Transactions are only added, and no shutdown comes.
pub record IsGrown (p : Transaction → Bool) (fx fx' : Effects) : Type 0 where
  pub more : number_of p fx.sent ≤ number_of p fx'.sent
  pub running : IsRunning fx → IsRunning fx'

pub IsGrown-same : (p : Transaction → Bool) (fx : Effects) → IsGrown p fx fx
IsGrown-same p fx = record { more = omega arith; running = λ h. h }

IsGrown-tick : (p : Transaction → Bool) (fx : Effects) → IsGrown p fx (tick fx)
IsGrown-tick p fx = record { more = omega arith; running = λ h. rw (tick, h) }

pub IsGrown-then :
    (p : Transaction → Bool) (f g h : Effects) → IsGrown p f g → IsGrown p g h → IsGrown p f h
IsGrown-then p f g h a b =
    let m = a.more in
    let n = b.more in record { more = omega (arith, m, n); running = λ x. b.running (a.running x) }

pub send-IsGrown :
    (p : Transaction → Bool) (w : World) (tx : Transaction) (f : ℕ → DvpAsyncProcess)
    (r : DvpAsyncProcess) (fx : Effects)
    → IsGrown p fx (send w tx f r fx).1
send-IsGrown p w tx f r fx = elim (Option-cases (w.send (count fx.sent) tx)) [
  | inl fails ↦ rw (fails, send) (IsGrown-same p fx)
  | inr (hash, sends) ↦
      let added = number_of-append p fx.sent (tx ∷ []) in
      rw (sends, send) (record { more = omega (arith, added); running = λ h. h })
]

-- A handler that only adds transactions.
abbrev pub Grows :
    (Transaction → Bool) → (DvpAsyncProcess → Effects → DvpAsyncProcess × Effects) → Type 0
Grows p handle = (r : DvpAsyncProcess) (fx : Effects) → IsGrown p fx (handle r fx).1

pub pass-IsGrown :
    (p : Transaction → Bool) (chosen : DvpAsyncProcess → Bool)
    (handle : DvpAsyncProcess → Effects → DvpAsyncProcess × Effects)
    → Grows p handle
    → (rows : List DvpAsyncProcess) (fx : Effects) → IsGrown p fx (pass chosen handle rows fx).1
unfolding pass
pass-IsGrown p chosen handle grows [] fx = IsGrown-same p fx
pass-IsGrown p chosen handle grows (r ∷ rs) fx = elim (Bool-cases (chosen r)) [
  | inr other ↦ rw (other, pass) (pass-IsGrown p chosen handle grows rs fx)
  | inl taken ↦ elim (Bool-cases (is_shutdown fx)) [
    | inl stops ↦ rw (taken, stops, pass) (IsGrown-same p fx)
    | inr goes ↦
        let handled = (handle r (tick fx)).1 in
        rw (taken, goes, pass)
          (IsGrown-then p fx (tick fx) _ (IsGrown-tick p fx) (
            IsGrown-then p (tick fx) handled _ (grows r (tick fx))
              (pass-IsGrown p chosen handle grows rs handled)))
  ]
]

-- A pass comes to every row that is chosen: it handles it, after what the rows before it sent, and
-- before what the rows after it send.
pub pass_reaches :
    (p : Transaction → Bool) (chosen : DvpAsyncProcess → Bool)
    (handle : DvpAsyncProcess → Effects → DvpAsyncProcess × Effects)
    → Grows p handle
    → (rows : List DvpAsyncProcess) (fx : Effects) (i : ℕ) (r : DvpAsyncProcess) → IsRunning fx
    → get_elem? rows i ≡ some r
    → chosen r ≡ true
    → (at : Effects) × IsGrown p fx at
      × (get_elem? (pass chosen handle rows fx).0 i ≡ some (handle r at).0)
      × IsGrown p (handle r at).1 (pass chosen handle rows fx).1
unfolding pass
pass_reaches p chosen handle grows [] fx i r runs found taken = cc
pass_reaches p chosen handle grows (s ∷ rs) fx i r runs found taken =
    let goes : is_shutdown fx ≡ false = rw (is_shutdown, runs) in
    elim (Bool-cases (i == 0)) [
      | inl here ↦
          let eq : s ≡ r = ground (arith, found) in
          let taken' : chosen s ≡ true = ap chosen eq ∙ taken in
          let handled = handle s (tick fx) in
          rw (taken', goes, pass)
            (
              tick fx,
              IsGrown-tick p fx,
              rw here (ap (λ u. some (handle u (tick fx)).0) eq),
              subst (λ u. IsGrown p (handle u (tick fx)).1 (pass chosen handle rs handled.1).1) eq
                  (pass-IsGrown p chosen handle grows rs handled.1),
            )
      | inr later ↦
          let found' : get_elem? rs (i - 1) ≡ some r = rw later at found in
          elim (Bool-cases (chosen s)) [
            | inr other ↦
                let (at, before, there, after) =
                  pass_reaches p chosen handle grows rs fx (i - 1) r runs found' taken in
                rw (other, pass) (at, before, rw later there, after)
            | inl first_too ↦
                let handled = (handle s (tick fx)).1 in
                let grown =
                  IsGrown-then p fx (tick fx) handled (IsGrown-tick p fx) (grows s (tick fx)) in
                let (at, before, there, after) =
                  pass_reaches p chosen handle grows rs handled (i - 1) r (grown.running runs)
                    found' taken in
                rw (first_too, goes, pass)
                  (at, IsGrown-then p fx handled at grown before, rw later there, after)
          ]
    ]

-- The three handlers only add transactions.
pub send_step-Grows : (p : Transaction → Bool) (w : World) → Grows p (send_step w)
send_step-Grows p w r fx = elim (Bool-cases (w.finds_key r.issuer_address)) [
  | inl has ↦ rw (has, send_step) (send-IsGrown p w (step_transaction r) (step_sent r) r fx)
  | inr lacks ↦ rw (lacks, send_step) (IsGrown-same p fx)
]

step_reverted-IsGrown :
    (p : Transaction → Bool) (w : World) (r : DvpAsyncProcess) (fx : Effects)
    (type : DvpAsyncProcessType)
    → r.process_type ≡ type
    → IsGrown p fx (step_reverted w r fx).1
step_reverted-IsGrown p w r fx DvpAsyncProcessType.create_delivery t =
    rw (step_reverted, t) (send-IsGrown p w (withdrawal r) (revert_sent r) r fx)
step_reverted-IsGrown p w r fx DvpAsyncProcessType.cancel_delivery t =
    rw (step_reverted, t) (IsGrown-same p fx)
step_reverted-IsGrown p w r fx DvpAsyncProcessType.finish_delivery t =
    rw (step_reverted, t) (IsGrown-same p fx)
step_reverted-IsGrown p w r fx DvpAsyncProcessType.abort_delivery t =
    rw (step_reverted, t) (IsGrown-same p fx)

pub sync_step-Grows : (p : Transaction → Bool) (w : World) → Grows p (sync_step w)
sync_step-Grows p w r fx = elim (Receipt-cases (w.receipt r.step_tx_hash)) [
  | inl waits ↦ rw (waits, sync_step) (IsGrown-same p fx)
  | inr (inl fails) ↦ elim (Bool-cases (w.finds_key r.issuer_address)) [
    | inl has ↦ rw (fails, has, sync_step) (step_reverted-IsGrown p w r fx r.process_type refl)
    | inr lacks ↦ rw (fails, lacks, sync_step) (IsGrown-same p fx)
  ]
  | inr (inr succeeds) ↦ rw (succeeds, sync_step) (IsGrown-same p fx)
]

pub sync_revert-Grows : (p : Transaction → Bool) (w : World) → Grows p (sync_revert w)
sync_revert-Grows p w r fx = elim (Receipt-cases (w.receipt r.step_tx_hash)) [
  | inl waits ↦ rw (waits, sync_revert) (IsGrown-same p fx)
  | inr (inl fails) ↦ elim (Bool-cases (w.finds_key r.issuer_address)) [
    | inl has ↦ elim (Bool-cases (is_creation r.process_type)) [
      | inl creation ↦
          rw (fails, has, sync_revert)
            (rw (creation, revert_reverted)
              (send-IsGrown p w (withdrawal r) (revert_resent r) r fx))
      | inr other ↦ rw (fails, has, sync_revert) (rw (other, revert_reverted) (IsGrown-same p fx))
    ]
    | inr lacks ↦ rw (fails, lacks, sync_revert) (IsGrown-same p fx)
  ]
  | inr (inr succeeds) ↦ rw (succeeds, sync_revert) (IsGrown-same p fx)
]
