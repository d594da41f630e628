-- ===== src/Delivery/Keeps.antt =====
-- What every event keeps of the tables of deliveries and processes.
use ibet_prime.Base.{
  ◌≢◌, ℕ, suc, ◌<◌, ◌≡◌, refl, Bool, true, false, List, [], ◌∷◌, ◌++◌, none, some, arith, ◌==◌,
  ◌&&◌, if◌then◌else◌, Bool-cases, inl, inr, All, All-mono, All-append, subst, ap, sym, ◌∙◌,
}
use ibet_prime.Delivery.Table.{
  Delivery, DeliveryStatus, DvpAsyncProcess, Table, Registry, Arguments, EventType, is_delivery,
  find, assign, new_delivery, new_process, sink_on_delivery,
}
use ibet_prime.Delivery.Rows.{
  IsSameDelivery, IsLater, IsSettled, is_recorded, Keeps, outcome, Change, same, inserts, assigns,
  instructs, new_delivery-IsSettled, sink_on_delivery-Change,
}

find-assign :
    (exchange i x j : ℕ) (f : Delivery → Delivery) (rows : List Delivery)
    → Keeps f
    → find x j (assign exchange i f rows) ≡ elim (find x j rows) [
      | none ↦ none
      | some r ↦ some (if exchange == x && i == j then f r else r)
    ]
unfolding assign
find-assign exchange i x j f [] keeps = refl
find-assign exchange i x j f (r ∷ rows) keeps =
    let eq = (keeps r).0 in
    ground (arith, eq.same_exchange, eq.same_delivery, find-assign exchange i x j f rows keeps)

find-append :
    (x j : ℕ) (rows : List Delivery) (r : Delivery)
    → find x j (rows ++ r ∷ [])
      ≡ elim (find x j rows) [ none ↦ if is_delivery x j r then some r else none | some s ↦ some s ]
find-append x j [] r = refl
find-append x j (s ∷ rows) r = ground (arith, find-append x j rows r)

-- A delivery is still there, with the same terms, and later.
abbrev pub Still : Delivery → ℕ → ℕ → Table → Type 0
Still r x j t = (s : Delivery) × (find x j t.rows ≡ some s) × IsSameDelivery r s × IsLater r s

pub same_row : (r : Delivery) → IsSameDelivery r r × IsLater r r
same_row r = ground arith

either :
    (f : Delivery → Delivery)
    → Keeps f
    → (r : Delivery) (b : Bool)
    → IsSameDelivery r (if b then f r else r) × IsLater r (if b then f r else r)
either f keeps r true = ((keeps r).0, (keeps r).1)
either f keeps r false = same_row r

assign-Still :
    (exchange i x j : ℕ) (f : Delivery → Delivery) (r : Delivery) (t t' : Table)
    → Keeps f
    → t'.rows ≡ assign exchange i f t.rows
    → find x j t.rows ≡ some r
    → Still r x j t'
assign-Still exchange i x j f r t t' keeps rows found =
    let hit = exchange == x && i == j in
    (
      if hit then f r else r,
      ap (find x j) rows ∙ find-assign exchange i x j f t.rows keeps ∙ (rw found),
      (either f keeps r hit).0,
      (either f keeps r hit).1,
    )

Change-Still :
    (g : Registry) (a : Arguments) (t t' : Table) (x j : ℕ) (r : Delivery)
    → Change g a t t'
    → find x j t.rows ≡ some r
    → Still r x j t'
Change-Still g a t t' x j r (same e) found =
    (r, ap (λ u. find x j u.rows) e ∙ found, (same_row r).0, (same_row r).1)
Change-Still g a t t' x j r (inserts i _ _ _ rows _ _) found = (
  r,
  ap (find x j) rows ∙ find-append x j t.rows (new_delivery g a i t.next_id) ∙ (rw found),
  (same_row r).0,
  (same_row r).1,
)
Change-Still g a t t' x j r (assigns i f _ keeps _ rows _ _) found =
    assign-Still a.exchange_address i x j f r t t' keeps rows found
Change-Still g a t t' x j r (instructs i f _ _ _ _ keeps _ _ _ _ rows _ _) found =
    assign-Still a.exchange_address i x j f r t t' keeps rows found

-- No two rows are of one delivery.
abbrev pub IsKeyed : List Delivery → Type 0
IsKeyed [] = Unit
IsKeyed (r ∷ rs) = (find r.exchange_address r.delivery_id rs ≡ none) × IsKeyed rs

-- A process other than a creation is for a delivery that has a row, on which the event is recorded.
abbrev pub IsInstructed : List Delivery → DvpAsyncProcess → Type 0
IsInstructed rows p =
    (e : DeliveryStatus)
    → outcome p.process_type ≡ some e
    → (i : ℕ) × (r : Delivery) × (p.delivery_id ≡ some i)
      × (find p.dvp_contract_address i rows ≡ some r)
      × (is_recorded e r ≡ true)

-- No two rows are of one delivery, the numbers given are below the next, the columns of each row
-- agree, and each process other than a creation stands on a recorded event.
pub record IsTable (t : Table) : Type 0 where
  pub keyed : IsKeyed t.rows
  pub numbered : All (λ r. r.id < t.next_id) t.rows
  pub settled : All IsSettled t.rows
  pub backed : All (IsInstructed t.rows) t.processes

append-IsKeyed :
    (r : Delivery) (rows : List Delivery)
    → find r.exchange_address r.delivery_id rows ≡ none
    → IsKeyed rows
    → IsKeyed (rows ++ r ∷ [])
append-IsKeyed r [] e k = (refl, tt)
append-IsKeyed r (s ∷ rows) e k =
    ground (arith, append-IsKeyed r rows, find-append s.exchange_address s.delivery_id rows r)

assign-IsKeyed :
    (exchange i : ℕ) (f : Delivery → Delivery) (rows : List Delivery)
    → Keeps f
    → IsKeyed rows
    → IsKeyed (assign exchange i f rows)
unfolding assign
assign-IsKeyed exchange i f [] keeps k = tt
assign-IsKeyed exchange i f (r ∷ rows) keeps k =
    let eq = (keeps r).0 in
    ground (
      arith,
      eq.same_exchange,
      eq.same_delivery,
      assign-IsKeyed exchange i f rows keeps k.1,
      find-assign exchange i r.exchange_address r.delivery_id f rows keeps,
    )

All-assign :
    (P : Delivery → Type 0) (exchange i : ℕ) (f : Delivery → Delivery) (rows : List Delivery)
    → ((r : Delivery) → P r → P (f r))
    → All P rows
    → All P (assign exchange i f rows)
unfolding assign
All-assign P exchange i f [] keeps h = tt
All-assign P exchange i f (r ∷ rows) keeps h = elim (Bool-cases (is_delivery exchange i r)) [
  | inl hit ↦ rw (hit, assign) (keeps r h.0, h.1)
  | inr miss ↦ rw (miss, assign) (h.0, All-assign P exchange i f rows keeps h.1)
]

-- A process stands as long as every delivery is still there.
Still-IsInstructed :
    (t t' : Table) (p : DvpAsyncProcess)
    → ((x j : ℕ) (r : Delivery) → find x j t.rows ≡ some r → Still r x j t')
    → IsInstructed t.rows p
    → IsInstructed t'.rows p
Still-IsInstructed t t' p still h e leads =
    let (i, r, id, found, recorded) = h e leads in
    let (s, found', _, later) = still p.dvp_contract_address i r found in
    (i, s, id, found', later.recorded_stays e recorded)

All-IsInstructed :
    (t t' : Table) (ps : List DvpAsyncProcess)
    → ((x j : ℕ) (r : Delivery) → find x j t.rows ≡ some r → Still r x j t')
    → All (IsInstructed t.rows) ps
    → All (IsInstructed t'.rows) ps
All-IsInstructed t t' ps still =
    All-mono (IsInstructed t.rows) (IsInstructed t'.rows) ps (λ p. Still-IsInstructed t t' p still)

-- The parts of the table that no process is in.
record IsKept (t t' : Table) : Type 0 where
  keyed : IsKeyed t'.rows
  numbered : All (λ r. r.id < t'.next_id) t'.rows
  settled : All IsSettled t'.rows

assign-IsKept :
    (exchange i : ℕ) (f : Delivery → Delivery) (t t' : Table)
    → Keeps f
    → t'.rows ≡ assign exchange i f t.rows
    → t'.next_id ≡ t.next_id
    → IsTable t
    → IsKept t t'
assign-IsKept exchange i f t t' keeps rows next v = record {
  keyed = subst IsKeyed (sym rows) (assign-IsKeyed exchange i f t.rows keeps v.keyed);
  numbered =
      subst (λ n. All (λ s. s.id < n) t'.rows) (sym next)
        (subst (All (λ s. s.id < t.next_id)) (sym rows) (
          All-assign (λ s. s.id < t.next_id) exchange i f t.rows
            (λ r h. let eq = (keeps r).0 in omega (arith, eq.same_id)) v.numbered));
  settled =
      subst (All IsSettled) (sym rows)
        (All-assign IsSettled exchange i f t.rows (λ r. (keeps r).2) v.settled);
}

insert-IsKept :
    (g : Registry) (a : Arguments) (i : ℕ) (t t' : Table)
    → find a.exchange_address i t.rows ≡ none
    → t'.rows ≡ t.rows ++ new_delivery g a i t.next_id ∷ []
    → t'.next_id ≡ suc t.next_id
    → IsTable t
    → IsKept t t'
insert-IsKept g a i t t' missing rows next v =
    let r = new_delivery g a i t.next_id in
    record {
      keyed = subst IsKeyed (sym rows) (append-IsKeyed r t.rows missing v.keyed);
      numbered =
          subst (λ n. All (λ s. s.id < n) t'.rows) (sym next)
            (subst (All (λ s. s.id < suc t.next_id)) (sym rows) (
              All-append _ t.rows (r ∷ []) (All-mono _ _ t.rows (λ s h. omega arith) v.numbered)
                (omega arith, tt)));
      settled = subst (All IsSettled) (sym rows) (
          All-append IsSettled t.rows (r ∷ []) v.settled
            (new_delivery-IsSettled g a i t.next_id, tt));
    }

with_processes : (t t' : Table) → IsKept t t' → All (IsInstructed t'.rows) t'.processes → IsTable t'
with_processes t t' k ps = record {
  keyed = k.keyed;
  numbered = k.numbered;
  settled = k.settled;
  backed = ps;
}

Change-IsTable :
    (g : Registry) (a : Arguments) (t t' : Table)
    → ((x j : ℕ) (r : Delivery) → find x j t.rows ≡ some r → Still r x j t')
    → Change g a t t'
    → IsTable t
    → IsTable t'
Change-IsTable g a t t' still (same e) v = subst IsTable (sym e) v
Change-IsTable g a t t' still (inserts i _ _ missing rows next ps) v =
    with_processes t t' (insert-IsKept g a i t t' missing rows next v) (
      subst (All (IsInstructed t'.rows)) (sym ps)
        (All-IsInstructed t t' t.processes still v.backed))
Change-IsTable g a t t' still (assigns i f r keeps found rows next ps) v =
    with_processes t t' (assign-IsKept a.exchange_address i f t t' keeps rows next v) (
      subst (All (IsInstructed t'.rows)) (sym ps)
        (All-IsInstructed t t' t.processes still v.backed))
Change-IsTable g a t t' still
      (instructs i f r type issuer e keeps leads records _ found rows next ps) v =
    let p = new_process type issuer a i in
    let x = a.exchange_address in
    let hit : find x i t'.rows ≡ some (f r) =
      ap (find x i) rows ∙ find-assign x i x i f t.rows keeps ∙ (rw found (ground arith)) in
    let stands : IsInstructed t'.rows p = λ e' leads'.
      let eq : e ≡ e' = cc in
      (i, f r, refl, hit, subst (λ d. is_recorded d (f r) ≡ true) eq records) in
    with_processes t t' (assign-IsKept x i f t t' keeps rows next v) (
      subst (All (IsInstructed t'.rows)) (sym ps) (
        All-append (IsInstructed t'.rows) t.processes (p ∷ [])
          (All-IsInstructed t t' t.processes still v.backed) (stands, tt)))

-- No event that does not raise loses a delivery, changes its terms, or takes back that it is
-- canceled, confirmed, finished or aborted.
pub sink_on_delivery_keeps :
    (g : Registry) (a : Arguments) (t t' : Table) (x j : ℕ) (r : Delivery)
    → sink_on_delivery g a t ≡ some t'
    → find x j t.rows ≡ some r
    → (s : Delivery) × (find x j t'.rows ≡ some s) × IsSameDelivery r s × IsLater r s
sink_on_delivery_keeps g a t t' x j r h found =
    Change-Still g a t t' x j r (sink_on_delivery-Change g a t t' h) found

-- Every event that does not raise keeps the tables well-formed.
pub sink_on_delivery-IsTable :
    (g : Registry) (a : Arguments) (t t' : Table)
    → IsTable t
    → sink_on_delivery g a t ≡ some t'
    → IsTable t'
sink_on_delivery-IsTable g a t t' v h =
    let change = sink_on_delivery-Change g a t t' h in
    Change-IsTable g a t t' (λ x j r. Change-Still g a t t' x j r change) change v

IsSameDelivery-then :
    (r s u : Delivery) → IsSameDelivery r s → IsSameDelivery s u → IsSameDelivery r u
IsSameDelivery-then r s u h k = record {
  same_id = k.same_id ∙ h.same_id;
  same_exchange = k.same_exchange ∙ h.same_exchange;
  same_delivery = k.same_delivery ∙ h.same_delivery;
  same_token = k.same_token ∙ h.same_token;
  same_buyer = k.same_buyer ∙ h.same_buyer;
  same_seller = k.same_seller ∙ h.same_seller;
  same_amount = k.same_amount ∙ h.same_amount;
  same_agent = k.same_agent ∙ h.same_agent;
  same_data = k.same_data ∙ h.same_data;
  same_service = k.same_service ∙ h.same_service;
  same_creation = k.same_creation ∙ h.same_creation;
  same_dedicated = k.same_dedicated ∙ h.same_dedicated;
}

IsLater-then : (r s u : Delivery) → IsLater r s → IsLater s u → IsLater r u
IsLater-then r s u h k = record {
  recorded_stays = λ e x. k.recorded_stays e (h.recorded_stays e x);
  invalid_stays = λ x. k.invalid_stays (h.invalid_stays x);
  confirmed_stays = λ x. k.confirmed_stays (h.confirmed_stays x);
}

-- An event later, a delivery is still there.
pub Still-step :
    (g : Registry) (a : Arguments) (t t' : Table) (x j : ℕ) (r : Delivery)
    → sink_on_delivery g a t ≡ some t'
    → Still r x j t
    → Still r x j t'
Still-step g a t t' x j r h (s, found, eq, later) =
    let (u, found', eq', later') = sink_on_delivery_keeps g a t t' x j s h found in
    (u, found', IsSameDelivery-then r s u eq eq', IsLater-then r s u later later')

-- A call that is no creation, or is of another delivery, leaves a delivery without a row.
pub sink_on_delivery_absent :
    (g : Registry) (a : Arguments) (t t' : Table) (x j : ℕ)
    → (a.event_type ≡ EventType.created → a.delivery_id ≢ some j)
    → sink_on_delivery g a t ≡ some t'
    → find x j t.rows ≡ none
    → find x j t'.rows ≡ none
sink_on_delivery_absent g a t t' x j other h missing = by (sink_on_delivery-Change g a t t' h)
  where
    by : Change g a t t' → find x j t'.rows ≡ none
    by (same e) = ap (λ (u : Table). find x j u.rows) e ∙ missing
    by (inserts i made named _ rows _ _) =
        let n : i ≢ j = λ eq. other made (named ∙ ap some eq) in
        let another : is_delivery x j (new_delivery g a i t.next_id) ≡ false = grind (arith, n) in
        ap (find x j) rows
        ∙ find-append x j t.rows (new_delivery g a i t.next_id)
        ∙ (rw missing (rw another refl))
    by (assigns i f _ keeps _ rows _ _) =
        ap (find x j) rows ∙ find-assign a.exchange_address i x j f t.rows keeps ∙ (rw missing)
    by (instructs i f _ _ _ _ keeps _ _ _ _ rows _ _) =
        ap (find x j) rows ∙ find-assign a.exchange_address i x j f t.rows keeps ∙ (rw missing)
