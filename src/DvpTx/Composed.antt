-- ===== src/DvpTx/Composed.antt =====
-- The DVP delivery indexer and the processor of asynchronous transactions on one table of processes.
use ibet_prime.Base.{refl, List, [], ◌∷◌, All, All-append, subst, sym, ℕ}
use ibet_prime.Delivery.Table.{DvpAsyncProcessType, Table, Registry, Arguments, new_process}
use ibet_prime.Delivery.Rows.{Change, same, inserts, assigns, instructs, sink_on_delivery-Change}
use ibet_prime.Delivery.Sync.{Database, Services, Processor, sync_new_logs}
use ibet_prime.Delivery.Runs.{sync_new_logs-keeps}
use ibet_prime.DvpTx.Process.{World, Effects, rounds}
use ibet_prime.DvpTx.Kept.{IsSound, rounds-IsSound}

new_process-IsSound :
    (type : DvpAsyncProcessType) (issuer : ℕ) (a : Arguments) (i : ℕ)
    → IsSound (new_process type issuer a i)
new_process-IsSound type issuer a i = record {
  step_named = λ h. refl;
  revert_of_creation = λ h. cc;
  revert_after_step = λ h. cc;
  revert_named = λ h. cc;
  succeeded_stepped = λ h. cc;
  succeeded_done = λ h. cc;
  failed_reverted = λ h. cc;
}

Change-IsSound :
    (g : Registry) (a : Arguments) (t t' : Table)
    → Change g a t t'
    → All IsSound t.processes
    → All IsSound t'.processes
Change-IsSound g a t t' (same e) s = subst (λ (u : Table). All IsSound u.processes) (sym e) s
Change-IsSound g a t t' (inserts i _ _ _ _ _ ps) s = subst (All IsSound) (sym ps) s
Change-IsSound g a t t' (assigns i f r _ _ _ _ ps) s = subst (All IsSound) (sym ps) s
Change-IsSound g a t t' (instructs i f r type issuer e _ _ _ _ _ _ _ ps) s =
    subst (All IsSound) (sym ps) (
      All-append IsSound t.processes (new_process type issuer a i ∷ []) s
        (new_process-IsSound type issuer a i, tt))

-- If every process is sound, it is so after a run of the indexer, however it ends, and then any rounds
-- of the processor, whatever keys, node and shutdown do: a step or revert that is waited for has a hash,
-- a revert is of a creation whose step has failed, and a process is done after its step or its revert.
pub rounds-sync_new_logs-IsSound :
    (fuel lot : ℕ) (v : Services) (p : Processor) (db : Database) (ws : List World) (fx : Effects)
    → All IsSound db.table.processes
    → All IsSound (rounds ws (sync_new_logs fuel lot v p db).1.0.table.processes fx).0
rounds-sync_new_logs-IsSound fuel lot v p db ws fx s =
    rounds-IsSound ws (sync_new_logs fuel lot v p db).1.0.table.processes fx (
      sync_new_logs-keeps (λ (t : Table). All IsSound t.processes)
        (λ g a t t' h. Change-IsSound g a t t' (sink_on_delivery-Change g a t t' h)) fuel lot v p db
        s)
