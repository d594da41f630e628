-- ===== src/Delivery/Runs.antt =====
-- What a run of the DVP delivery indexer keeps, however it ends.
use ibet_prime.Base.{All-every, ℕ, ◌+◌, ◌≡◌, List, [], ◌∷◌, some, ltb, leb, Bool-cases, inl, inr}
use ibet_prime.Blocks.{Loop, Loop-cases, sync_lots-keeps, ending-keeps}
use ibet_prime.Chain.{EventName}
use ibet_prime.Delivery.Table.{Delivery, Table, Registry, Arguments, find, sink_on_delivery}
use ibet_prime.Delivery.Events.{Context, State, sync_all}
use ibet_prime.Delivery.Sync.{
  Database, Services, Processor, get_contract_list, block_number, sync_blocks, commit, context,
  sync_exchanges, sync_new_logs,
}
use ibet_prime.Delivery.Passes.{sync_all-keeps}
use ibet_prime.Delivery.Keeps.{IsTable, Still, Still-step, same_row, sink_on_delivery-IsTable}
use ibet_prime.Delivery.Rows.{IsSameDelivery, IsLater}

-- What every call of the sink keeps, the loops around it keep.
module _ {κ} (P : Table → Type κ)
    (keeps : (g : Registry) (a : Arguments) (t t' : Table)
      → sink_on_delivery g a t ≡ some t'
      → P t
      → P t') where
  any_all-keeps :
      (x : Context) (k m n : ℕ) (s s' : State)
      → sync_all x k m n s ≡ some s'
      → P s.table
      → P s'.table
  any_all-keeps x k m n s s' =
      sync_all-keeps P (λ ev d. Unit) (λ g a t t' _. keeps g a t t') x k m n s s'
        (All-every _ (x.chain.get_event_logs k EventName.delivery_created [] m n) (λ e. tt))
        (λ ev d o. tt)

  sync_blocks-keeps :
      (fuel lot : ℕ) (x : Context) (k from : ℕ) (s s' : State)
      → sync_blocks fuel lot x k from s ≡ Loop.ended s'
      → P s.table
      → P s'.table
  unfolding sync_blocks
  sync_blocks-keeps fuel lot x k from s s' h p =
      let last = x.chain.latest_block in
      let step = λ (m n : ℕ). sync_all x k (m + 1) n in
      elim (Bool-cases (ltb (from + lot) last)) [
        | inl many ↦
            sync_lots-keeps (λ (u : State). P u.table) step
              (λ m n u u' e. any_all-keeps x k (m + 1) n u u' e) lot last fuel from (from + lot) s
              s' (rw (many, sync_blocks) at h) p
        | inr one ↦
            ending-keeps (λ (u : State). P u.table) (step from last s) s
              (λ u e. any_all-keeps x k (from + 1) last s u e) s' (rw (one, sync_blocks) at h) p
      ]

  sync_exchanges-keeps :
      (fuel lot : ℕ) (v : Services) (ks : List ℕ) (db : Database)
      → P db.table
      → P (sync_exchanges fuel lot v ks db).0.table
  unfolding sync_exchanges commit
  sync_exchanges-keeps fuel lot v [] db p = p
  sync_exchanges-keeps fuel lot v (k ∷ ks) db p =
      let s : State = record { table = db.table; notification_events = [] } in
      let from_block = block_number db.block_numbers k in
      let done = sync_blocks fuel lot (context v db) k from_block s in
      elim (Bool-cases (leb v.chain.latest_block from_block)) [
        | inl idle ↦ rw (idle, sync_exchanges) p
        | inr behind ↦ elim (Loop-cases done) [
          | inl stuck ↦ rw (behind, stuck, sync_exchanges) p
          | inr (inl raises) ↦ rw (behind, raises, sync_exchanges) p
          | inr (inr (s', ends)) ↦
              rw (behind, sync_exchanges, ends)
                (sync_exchanges-keeps fuel lot v ks (commit v.chain k db s')
                  (sync_blocks-keeps fuel lot (context v db) k from_block s s' ends p))
        ]
      ]

  pub sync_new_logs-keeps :
      (fuel lot : ℕ) (v : Services) (p : Processor) (db : Database)
      → P db.table
      → P (sync_new_logs fuel lot v p db).1.0.table
  unfolding sync_new_logs
  sync_new_logs-keeps fuel lot v p db h =
      let listed = get_contract_list v db p in
      elim (Bool-cases listed.1) [
        | inl loaded ↦
            rw (sync_new_logs, loaded) (sync_exchanges-keeps fuel lot v listed.0.exchange_list db h)
        | inr stops ↦ rw (stops, sync_new_logs) h
      ]

-- A run keeps the committed tables well-formed, however it ends.
pub sync_new_logs-IsTable :
    (fuel lot : ℕ) (v : Services) (p : Processor) (db : Database)
    → IsTable db.table
    → IsTable (sync_new_logs fuel lot v p db).1.0.table
sync_new_logs-IsTable =
    sync_new_logs-keeps IsTable (λ g a t t' h v. sink_on_delivery-IsTable g a t t' v h)

-- A run loses no committed delivery, changes none of its terms, and takes back none of its events,
-- however it ends.
pub sync_new_logs_still :
    (fuel lot : ℕ) (v : Services) (p : Processor) (db : Database) (x j : ℕ) (r : Delivery)
    → find x j db.table.rows ≡ some r
    → (s : Delivery) × (find x j (sync_new_logs fuel lot v p db).1.0.table.rows ≡ some s)
      × IsSameDelivery r s
      × IsLater r s
sync_new_logs_still fuel lot v p db x j r found =
    sync_new_logs-keeps (Still r x j) (λ g a t t' h. Still-step g a t t' x j r h) fuel lot v p db
      (r, found, (same_row r).0, (same_row r).1)
