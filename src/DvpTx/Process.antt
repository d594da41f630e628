-- ===== src/DvpTx/Process.antt =====
-- `Processor.process` of batch/processor_dvp_async_tx.py. The handling of a row reads and writes that
-- row only, so each pass takes the rows in the order of the table, where the second and the third
-- pass of the code take the one changed longest ago first.
use ibet_prime.Base.{
  ℕ, zero, suc, ◌==◌, ◌&&◌, Bool, true, false, List, [], ◌∷◌, ◌++◌, Option, none, some,
  if◌then◌else◌,
}
use ibet_prime.Chain.{Address}
use ibet_prime.Delivery.Table.{
  DvpAsyncProcess, DvpAsyncProcessType, DvpAsyncProcessStatus, DvpAsyncProcessStepTxStatus,
  DvpAsyncProcessRevertTxStatus,
}

-- A transaction, with its sender.
pub data Transaction : Type 0 where
  create_delivery_tx :
      (contract sender token_address buyer_address amount agent_address : ℕ)
      → Option ℕ
      → Transaction
  withdraw_partial_tx : (contract sender token_address value : ℕ) → Transaction

-- How `wait_for_transaction_receipt` ends: with the exception `TimeExhausted`, or with a receipt.
pub data Receipt : Type 0 where
  time_exhausted reverted success : Receipt

-- What a round finds: whether `__get_issuers_pk` gives the key of an issuer; the hash of a
-- transaction that is sent after so many others, where `none` is a `SendTransactionError`; and the
-- receipts by hash.
pub record World : Type 0 where
  pub finds_key : Address → Bool
  pub send : ℕ → Transaction → Option ℕ
  pub receipt : Option ℕ → Receipt

-- What is sent, and how many rows are still handled before `is_shutdown` is set, if it is.
pub record Effects : Type 0 where
  pub sent : List Transaction
  pub until_shutdown : Option ℕ

abbrev pub is_shutdown : Effects → Bool
is_shutdown fx = elim fx.until_shutdown [ none ↦ false | some n ↦ n == 0 ]

abbrev pub tick : Effects → Effects
tick fx = record fx {
  until_shutdown = elim fx.until_shutdown [
    | none ↦ none
    | some n ↦ elim n [ zero ↦ some 0 | suc m ↦ some m ]
  ];
}

abbrev pub count : List Transaction → ℕ
count [] = 0
count (x ∷ xs) = suc (count xs)

-- A transaction is sent, and its hash goes to the row, or the exception leaves both as they are.
abbrev pub send :
    World
    → Transaction
    → (ℕ → DvpAsyncProcess)
    → DvpAsyncProcess
    → Effects
    → DvpAsyncProcess × Effects
send w tx sent r fx = elim (w.send (count fx.sent) tx) [
  | none ↦ (r, fx)
  | some hash ↦ (sent hash, record fx { sent = fx.sent ++ tx ∷ [] })
]

abbrev pub withdrawal : DvpAsyncProcess → Transaction
withdrawal r = withdraw_partial_tx r.dvp_contract_address r.issuer_address r.token_address r.amount

-- The transaction of the step after the first.
abbrev pub step_transaction : DvpAsyncProcess → Transaction
step_transaction r = elim r.process_type [
  | DvpAsyncProcessType.create_delivery ↦
      create_delivery_tx r.dvp_contract_address r.issuer_address r.token_address r.buyer_address
        r.amount r.agent_address r.data_text
  | _ ↦ withdrawal r
]

abbrev pub step_sent : DvpAsyncProcess → ℕ → DvpAsyncProcess
step_sent r hash = record r {
  step = 1;
  step_tx_hash = some hash;
  step_tx_status = some DvpAsyncProcessStepTxStatus.pending;
}

-- A row of `__send_step_tx`.
abbrev pub send_step : World → DvpAsyncProcess → Effects → DvpAsyncProcess × Effects
send_step w r fx =
    if w.finds_key r.issuer_address then send w (step_transaction r) (step_sent r) r fx else (r, fx)

abbrev pub revert_sent : DvpAsyncProcess → ℕ → DvpAsyncProcess
revert_sent r hash = record r {
  step_tx_status = some DvpAsyncProcessStepTxStatus.failed;
  revert_tx_hash = some hash;
  revert_tx_status = some DvpAsyncProcessRevertTxStatus.pending;
}

-- A step reverted: a creation is withdrawn, another step is sent anew in the next round.
abbrev pub step_reverted : World → DvpAsyncProcess → Effects → DvpAsyncProcess × Effects
step_reverted w r fx = elim r.process_type [
  | DvpAsyncProcessType.create_delivery ↦ send w (withdrawal r) (revert_sent r) r fx
  | _ ↦ (
    record r { step_tx_hash = none; step_tx_status = some DvpAsyncProcessStepTxStatus.retry },
    fx,
  )
]

-- A step that succeeds; the last one completes the process.
abbrev pub step_succeeded : DvpAsyncProcess → DvpAsyncProcess
step_succeeded r = record r {
  step_tx_status = some DvpAsyncProcessStepTxStatus.done;
  process_status = if r.step == 1 then DvpAsyncProcessStatus.done_success else r.process_status;
}

-- A row of `__sync_step_tx_result`.
abbrev pub sync_step : World → DvpAsyncProcess → Effects → DvpAsyncProcess × Effects
sync_step w r fx = elim (w.receipt r.step_tx_hash) [
  | time_exhausted ↦ (r, fx)
  | reverted ↦ if w.finds_key r.issuer_address then step_reverted w r fx else (r, fx)
  | success ↦ (step_succeeded r, fx)
]

abbrev pub revert_resent : DvpAsyncProcess → ℕ → DvpAsyncProcess
revert_resent r hash = record r {
  revert_tx_hash = some hash;
  revert_tx_status = some DvpAsyncProcessRevertTxStatus.pending;
}

-- `process_type == DVPAsyncProcessType.CREATE_DELIVERY`
abbrev pub is_creation : DvpAsyncProcessType → Bool
is_creation DvpAsyncProcessType.create_delivery = true
is_creation _ = false

-- A revert that is reverted is sent again, for a creation.
abbrev pub revert_reverted : World → DvpAsyncProcess → Effects → DvpAsyncProcess × Effects
revert_reverted w r fx =
    if is_creation r.process_type then send w (withdrawal r) (revert_resent r) r fx else (r, fx)

abbrev pub revert_succeeded : DvpAsyncProcess → DvpAsyncProcess
revert_succeeded r = record r {
  process_status = DvpAsyncProcessStatus.done_failed;
  revert_tx_status = some DvpAsyncProcessRevertTxStatus.done;
}

-- A row of `__sync_revert_tx_result`, which waits for the transaction of the step.
abbrev pub sync_revert : World → DvpAsyncProcess → Effects → DvpAsyncProcess × Effects
sync_revert w r fx = elim (w.receipt r.step_tx_hash) [
  | time_exhausted ↦ (r, fx)
  | reverted ↦ if w.finds_key r.issuer_address then revert_reverted w r fx else (r, fx)
  | success ↦ (revert_succeeded r, fx)
]

-- `process_status == DVPAsyncProcessStatus.PROCESSING`
abbrev pub is_processing : DvpAsyncProcessStatus → Bool
is_processing DvpAsyncProcessStatus.processing = true
is_processing _ = false

-- `step_tx_status.in_([DONE, RETRY])`
abbrev pub is_next : Option DvpAsyncProcessStepTxStatus → Bool
is_next (some DvpAsyncProcessStepTxStatus.done) = true
is_next (some DvpAsyncProcessStepTxStatus.retry) = true
is_next _ = false

abbrev pub is_step_pending : Option DvpAsyncProcessStepTxStatus → Bool
is_step_pending (some DvpAsyncProcessStepTxStatus.pending) = true
is_step_pending _ = false

abbrev pub is_revert_pending : Option DvpAsyncProcessRevertTxStatus → Bool
is_revert_pending (some DvpAsyncProcessRevertTxStatus.pending) = true
is_revert_pending _ = false

-- `for record in …`, over the rows that a query selects, until the shutdown.
unfoldable pub pass :
    (DvpAsyncProcess → Bool)
    → (DvpAsyncProcess → Effects → DvpAsyncProcess × Effects)
    → List DvpAsyncProcess
    → Effects
    → List DvpAsyncProcess × Effects
pass chosen handle [] fx = ([], fx)
pass chosen handle (r ∷ rs) fx = elim (chosen r) [
  | false ↦ let rest = pass chosen handle rs fx in (r ∷ rest.0, rest.1)
  | true ↦ elim (is_shutdown fx) [
    | true ↦ (r ∷ rs, fx)
    | false ↦
        let handled = handle r (tick fx) in
        let rest = pass chosen handle rs handled.1 in (handled.0 ∷ rest.0, rest.1)
  ]
]

unfoldable pub send_step_tx :
    World → List DvpAsyncProcess → Effects → List DvpAsyncProcess × Effects
unfolding pass
send_step_tx w =
    pass (λ r. is_processing r.process_status && is_next r.step_tx_status) (send_step w)

unfoldable pub sync_step_tx_result :
    World → List DvpAsyncProcess → Effects → List DvpAsyncProcess × Effects
unfolding pass
sync_step_tx_result w =
    pass (λ r. is_processing r.process_status && is_step_pending r.step_tx_status) (sync_step w)

unfoldable pub sync_revert_tx_result :
    World → List DvpAsyncProcess → Effects → List DvpAsyncProcess × Effects
unfolding pass
sync_revert_tx_result w =
    pass (λ r. is_processing r.process_status && is_revert_pending r.revert_tx_status)
      (sync_revert w)

-- `process`
unfoldable pub process : World → List DvpAsyncProcess → Effects → List DvpAsyncProcess × Effects
unfolding send_step_tx sync_step_tx_result sync_revert_tx_result
process w rows fx =
    let stepped = send_step_tx w rows fx in
    let synced = sync_step_tx_result w stepped.0 stepped.1 in
    sync_revert_tx_result w synced.0 synced.1

-- The rounds of `main`.
unfoldable pub rounds : List World → List DvpAsyncProcess → Effects → List DvpAsyncProcess × Effects
unfolding process
rounds [] rows fx = (rows, fx)
rounds (w ∷ ws) rows fx = let done = process w rows fx in rounds ws done.0 done.1
