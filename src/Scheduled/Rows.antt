-- ===== src/Scheduled/Rows.antt =====
-- The rows of `scheduled_events` under the writes of the workers and of the API.
use ibet_prime.Base.{
  ℕ, ◌≡◌, refl, sym, ◌∙◌, ◌≢◌, ◌<◌, inl, inr, Bool, true, ◌==◌, ◌&&◌, List, [], ◌∷◌, ◌++◌, arith,
  select, All, All-append, All-mono, All-select, select_sound, Bool-cases,
}
use ibet_prime.Base.Sort.{insert_by, sort_by, All-insert_by, All-sort_by}
use ibet_prime.Chain.{Address}
use ibet_prime.Scheduled.Table.{
  ScheduledEvent, processing, due_before, is_due, events_of, set_event_status,
}
use ibet_prime.Scheduled.Workers.{soft_delete}

abbrev pub IsUnique : List ScheduledEvent → Type 0
IsUnique [] = Unit
IsUnique (e ∷ es) = All (λ f. f.id ≢ e.id) es × IsUnique es

-- A row with the id of an event is not finished, and is of the issuer.
abbrev pub IsOpen : Address → ScheduledEvent → ScheduledEvent → Type 0
IsOpen a e r = r.id ≡ e.id → (r.status ≡ processing) × (r.issuer_address ≡ a)

-- Events that a worker has yet to process: of its issuer, numbered before the next, and not finished in
-- the table.
abbrev pub IsTask : Address → ℕ → List ScheduledEvent → ScheduledEvent → Type 0
IsTask a next rows e = (e.issuer_address ≡ a) × (e.id < next) × All (IsOpen a e) rows

pub All-zip {ℓ κ} :
    {A : Type 0} (P : A → Type ℓ) (Q : A → Type κ) (xs : List A)
    → All P xs
    → All Q xs
    → All (λ x. P x × Q x) xs
All-zip P Q [] h k = tt
All-zip P Q (x ∷ xs) h k = ((h.0, k.0), All-zip P Q xs h.1 k.1)

-- Finishing an event.
pub set_event_status-All_ne :
    (x id status : ℕ) (rows : List ScheduledEvent)
    → All (λ r. r.id ≢ x) rows
    → All (λ r. r.id ≢ x) (set_event_status id status rows)
unfolding set_event_status
set_event_status-All_ne x id status [] h = tt
set_event_status-All_ne x id status (r ∷ rows) h =
    ground (arith, h.0, set_event_status-All_ne x id status rows h.1)

pub set_event_status-IsUnique :
    (id status : ℕ) (rows : List ScheduledEvent)
    → IsUnique rows
    → IsUnique (set_event_status id status rows)
unfolding set_event_status
set_event_status-IsUnique id status [] h = tt
set_event_status-IsUnique id status (r ∷ rows) h =
    let rest : All (λ f. f.id ≢ r.id) (set_event_status id status rows)
        × IsUnique (set_event_status id status rows) =
      (
        set_event_status-All_ne r.id id status rows h.0,
        set_event_status-IsUnique id status rows h.1,
      ) in
    elim (Bool-cases (r.id == id)) [ inl hit ↦ rw hit rest | inr miss ↦ rw miss rest ]

pub set_event_status-below :
    (id status next : ℕ) (rows : List ScheduledEvent)
    → All (λ r. r.id < next) rows
    → All (λ r. r.id < next) (set_event_status id status rows)
unfolding set_event_status
set_event_status-below id status next [] h = tt
set_event_status-below id status next (r ∷ rows) h =
    ground (arith, h.0, set_event_status-below id status next rows h.1)

pub set_event_status-IsOpen :
    (id status : ℕ) (a : Address) (e : ScheduledEvent) (rows : List ScheduledEvent)
    → e.id ≢ id
    → All (IsOpen a e) rows
    → All (IsOpen a e) (set_event_status id status rows)
unfolding set_event_status
set_event_status-IsOpen id status a e [] n h = tt
set_event_status-IsOpen id status a e (r ∷ rows) n h = elim (Bool-cases (r.id == id)) [
  | inl hit ↦ rw hit ((λ same. ground arith), set_event_status-IsOpen id status a e rows n h.1)
  | inr miss ↦ rw miss (h.0, set_event_status-IsOpen id status a e rows n h.1)
]

-- Finishing an event of another issuer.
pub set_event_status-other :
    (a b status : ℕ) (e f : ScheduledEvent) (rows : List ScheduledEvent)
    → a ≢ b
    → All (IsOpen a e) rows
    → All (IsOpen b f) rows
    → All (IsOpen b f) (set_event_status e.id status rows)
unfolding set_event_status
set_event_status-other a b status e f [] n h k = tt
set_event_status-other a b status e f (r ∷ rows) n (h, hs) (k, ks) =
    let rest = set_event_status-other a b status e f rows n hs ks in
    elim (Bool-cases (r.id == e.id)) [
      | inl hit ↦
          let same : r.id ≡ e.id = ground arith in
          rw hit ((λ q. absurd (n (sym (h same).1 ∙ (k q).1))), rest)
      | inr miss ↦ rw miss (k, rest)
    ]

-- Deleting an event, and its row.
pub soft_delete-All_ne :
    (x id : ℕ) (rows : List ScheduledEvent)
    → All (λ r. r.id ≢ x) rows
    → All (λ r. r.id ≢ x) (soft_delete id rows)
unfolding soft_delete
soft_delete-All_ne x id [] h = tt
soft_delete-All_ne x id (r ∷ rows) h = ground (arith, h.0, soft_delete-All_ne x id rows h.1)

pub soft_delete-IsUnique :
    (id : ℕ) (rows : List ScheduledEvent) → IsUnique rows → IsUnique (soft_delete id rows)
unfolding soft_delete
soft_delete-IsUnique id [] h = tt
soft_delete-IsUnique id (r ∷ rows) h =
    let rest : All (λ f. f.id ≢ r.id) (soft_delete id rows) × IsUnique (soft_delete id rows) =
      (soft_delete-All_ne r.id id rows h.0, soft_delete-IsUnique id rows h.1) in
    elim (Bool-cases (r.id == id)) [ inl hit ↦ rw hit rest | inr miss ↦ rw miss rest ]

pub soft_delete-below :
    (id next : ℕ) (rows : List ScheduledEvent)
    → All (λ r. r.id < next) rows
    → All (λ r. r.id < next) (soft_delete id rows)
unfolding soft_delete
soft_delete-below id next [] h = tt
soft_delete-below id next (r ∷ rows) h = ground (arith, h.0, soft_delete-below id next rows h.1)

pub soft_delete-IsOpen :
    (id : ℕ) (a : Address) (e : ScheduledEvent) (rows : List ScheduledEvent)
    → All (IsOpen a e) rows
    → All (IsOpen a e) (soft_delete id rows)
unfolding soft_delete
soft_delete-IsOpen id a e [] h = tt
soft_delete-IsOpen id a e (r ∷ rows) h = elim (Bool-cases (r.id == id)) [
  | inl hit ↦ rw hit (h.0, soft_delete-IsOpen id a e rows h.1)
  | inr miss ↦ rw miss (h.0, soft_delete-IsOpen id a e rows h.1)
]

pub select-IsUnique :
    (p : ScheduledEvent → Bool) (rows : List ScheduledEvent)
    → IsUnique rows
    → IsUnique (select p rows)
select-IsUnique p [] h = tt
select-IsUnique p (r ∷ rows) h =
    ground (arith, All-select (λ f. f.id ≢ r.id) p rows h.0, select-IsUnique p rows h.1)

-- A new row, with the next number.
pub append-IsUnique :
    (r : ScheduledEvent) (rows : List ScheduledEvent)
    → All (λ x. x.id < r.id) rows
    → IsUnique rows
    → IsUnique (rows ++ r ∷ [])
append-IsUnique r [] b h = (tt, tt)
append-IsUnique r (x ∷ rows) (b, bs) (h, hs) = (
  All-append (λ f. f.id ≢ x.id) rows (r ∷ []) h ((λ e. omega arith), tt),
  append-IsUnique r rows bs hs,
)

insert_by-IsUnique :
    (x : ScheduledEvent) (es : List ScheduledEvent)
    → All (λ f. f.id ≢ x.id) es
    → IsUnique es
    → IsUnique (insert_by due_before x es)
insert_by-IsUnique x [] n h = (tt, tt)
insert_by-IsUnique x (y ∷ ys) (n, ns) (h, hs) = elim (Bool-cases (due_before x y)) [
  | inl first ↦ rw first ((n, ns), (h, hs))
  | inr later ↦ rw later (
    All-insert_by due_before (λ f. f.id ≢ y.id) x ys (λ e. n (sym e)) h,
    insert_by-IsUnique x ys ns hs,
  )
]

sort_by-IsUnique : (es : List ScheduledEvent) → IsUnique es → IsUnique (sort_by due_before es)
sort_by-IsUnique [] h = tt
sort_by-IsUnique (e ∷ es) (h, hs) =
    insert_by-IsUnique e (sort_by due_before es) (All-sort_by due_before (λ f. f.id ≢ e.id) es h)
      (sort_by-IsUnique es hs)

-- A row with the id of another is that row.
abbrev IsTwin : ScheduledEvent → ScheduledEvent → Type 0
IsTwin e r = r.id ≡ e.id → (r.status ≡ e.status) × (r.issuer_address ≡ e.issuer_address)

IsUnique-twins : (rows : List ScheduledEvent) → IsUnique rows → All (λ e. All (IsTwin e) rows) rows
IsUnique-twins [] h = tt
IsUnique-twins (x ∷ rows) (h, hs) = (
  ((λ _. (refl, refl)), All-mono (λ f. f.id ≢ x.id) (IsTwin x) rows (λ f n e. absurd (n e)) h),
  All-mono (λ e. (e.id ≢ x.id) × All (IsTwin e) rows) (λ e. All (IsTwin e) (x ∷ rows)) rows
      (λ e k. ((λ same. absurd (k.0 (sym same))), k.1))
      (All-zip (λ e. e.id ≢ x.id) (λ e. All (IsTwin e) rows) rows h (IsUnique-twins rows hs)),
)

chosen-IsTask :
    (t : ℕ) (a : Address) (next : ℕ) (rows : List ScheduledEvent) (e : ScheduledEvent)
    → (is_due t e && e.issuer_address == a) ≡ true
    → e.id < next
    → All (IsTwin e) rows
    → IsTask a next rows e
chosen-IsTask t a next rows e h below twins =
    let open_status : e.status ≡ processing = ground (arith, h) in
    let mine : e.issuer_address ≡ a = ground (arith, h) in
    (
      mine,
      below,
      All-mono (IsTwin e) (IsOpen a e) rows
          (λ r twin same. ((twin same).0 ∙ open_status, (twin same).1 ∙ mine)) twins,
    )

-- The events that a worker loads.
pub events_of-IsTask :
    (t : ℕ) (a : Address) (next : ℕ) (rows : List ScheduledEvent)
    → IsUnique rows
    → All (λ r. r.id < next) rows
    → IsUnique (events_of t a rows) × All (IsTask a next rows) (events_of t a rows)
unfolding events_of
events_of-IsTask t a next rows u b =
    let test = λ (e : ScheduledEvent). is_due t e && e.issuer_address == a in
    let chosen = select test rows in
    let twins = All-select (λ e. All (IsTwin e) rows) test rows (IsUnique-twins rows u) in
    let facts =
      All-zip (λ e. test e ≡ true) (λ e. (e.id < next) × All (IsTwin e) rows) chosen
        (select_sound test rows)
        (All-zip (λ e. e.id < next) (λ e. All (IsTwin e) rows) chosen
          (All-select (λ e. e.id < next) test rows b) twins) in
    let tasks : All (IsTask a next rows) chosen =
      All-mono (λ e. (test e ≡ true) × ((e.id < next) × All (IsTwin e) rows)) (IsTask a next rows)
        chosen (λ e k. chosen-IsTask t a next rows e k.0 k.1.0 k.1.1) facts in
    (
      sort_by-IsUnique chosen (select-IsUnique test rows u),
      All-sort_by due_before (IsTask a next rows) chosen tasks,
    )
