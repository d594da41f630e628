-- ===== src/Approval/Rows.antt =====
-- What `__sink_on_transfer_approval` does to the rows.
use ibet_prime.Base.{
  ℕ, suc, ◌<◌, ◌≡◌, refl, Bool, true, false, List, [], ◌∷◌, ◌++◌, Option, none, some, arith, ◌==◌,
  ◌&&◌, if◌then◌else◌, Option-cases, inl, inr, All, All-mono, All-append, >>=-eq-some, subst, ap,
  sym, ◌∙◌,
}
use ibet_prime.Chain.{Chain}
use ibet_prime.Approval.Table.{
  TransferApproval, Table, EventType, Arguments, is_application, find, assign, datetime_of, new_row,
  apply_columns, cancel_columns, finish_columns, approve_columns, assign_found, apply, sink,
  sink_on_transfer_approval,
}

-- The columns that tell an application are as they were.
pub record IsSameApplication (r s : TransferApproval) : Type 0 where
  pub same_id : s.id ≡ r.id
  pub same_token : s.token_address ≡ r.token_address
  pub same_exchange : s.exchange_address ≡ r.exchange_address
  pub same_application : s.application_id ≡ r.application_id
  pub same_from : s.from_address ≡ r.from_address
  pub same_to : s.to_address ≡ r.to_address

-- A status that is set stays set.
pub record IsLater (r s : TransferApproval) : Type 0 where
  pub cancelled_stays : r.cancelled ≡ some true → s.cancelled ≡ some true
  pub finished_stays : r.escrow_finished ≡ some true → s.escrow_finished ≡ some true
  pub approved_stays : r.transfer_approved ≡ some true → s.transfer_approved ≡ some true

abbrev pub Keeps : (TransferApproval → TransferApproval) → Type 0
Keeps f = (r : TransferApproval) → IsSameApplication r (f r) × IsLater r (f r)

pub find-assign :
    (token exchange application k x i : ℕ) (f : TransferApproval → TransferApproval)
    (rows : List TransferApproval)
    → Keeps f
    → find k x i (assign token exchange application f rows) ≡ elim (find k x i rows) [
      | none ↦ none
      | some r ↦ some (if token == k && exchange == x && application == i then f r else r)
    ]
unfolding assign
find-assign token exchange application k x i f [] keeps = refl
find-assign token exchange application k x i f (r ∷ rows) keeps =
    let same = (keeps r).0 in
    ground (
      arith,
      same.same_token,
      same.same_exchange,
      same.same_application,
      find-assign token exchange application k x i f rows keeps,
    )

apply_columns-Keeps : (amount datetime : Option ℕ) (t : ℕ) → Keeps (apply_columns amount datetime t)
apply_columns-Keeps amount datetime t r = ground arith

cancel_columns-Keeps : (t : ℕ) → Keeps (cancel_columns t)
cancel_columns-Keeps t r = ground arith

finish_columns-Keeps : Keeps finish_columns
finish_columns-Keeps r = ground arith

approve_columns-Keeps : (datetime : Option ℕ) (t : ℕ) → Keeps (approve_columns datetime t)
approve_columns-Keeps datetime t r = ground arith

-- No two rows are of one application.
abbrev pub IsKeyed : List TransferApproval → Type 0
IsKeyed [] = Unit
IsKeyed (r ∷ rs) = (find r.token_address r.exchange_address r.application_id rs ≡ none) × IsKeyed rs

-- How a call that does not raise changes the table: it makes a row for the application, or assigns
-- to the columns of the row that is there.
pub data Change (a : Arguments) (t t' : Table) : Type 0 where
  inserts :
      (f : TransferApproval → TransferApproval)
      → Keeps f
      → a.event_type ≡ EventType.apply_for
      → find a.token_address a.exchange_address a.application_id t.rows ≡ none
      → t'.rows ≡ t.rows ++ f (new_row t.next_id a) ∷ []
      → t'.next_id ≡ suc t.next_id
      → Change a t t'
  assigns :
      (f : TransferApproval → TransferApproval) (r : TransferApproval)
      → Keeps f
      → find a.token_address a.exchange_address a.application_id t.rows ≡ some r
      → t'.rows ≡ assign a.token_address a.exchange_address a.application_id f t.rows
      → t'.next_id ≡ t.next_id
      → Change a t t'

assign_found-Change :
    (a : Arguments) (f : TransferApproval → TransferApproval) (t t' : Table)
    → Keeps f
    → assign_found a f t ≡ some t'
    → Change a t t'
assign_found-Change a f t t' keeps h =
    elim (Option-cases (find a.token_address a.exchange_address a.application_id t.rows)) [
      | inl missing ↦ cc (rw (missing, assign_found) at h)
      | inr (r, found) ↦
          let done = rw (found, assign_found) at h in
          assigns f r keeps found (ground (arith, done)) (ground (arith, done))
    ]

apply-Change :
    (a : Arguments) (f : TransferApproval → TransferApproval) (t : Table)
    → a.event_type ≡ EventType.apply_for
    → Keeps f
    → Change a t (apply a f t)
apply-Change a f t ev keeps =
    elim (Option-cases (find a.token_address a.exchange_address a.application_id t.rows)) [
      | inl missing ↦ inserts f keeps ev missing (rw (missing, apply)) (rw (missing, apply))
      | inr (r, found) ↦ assigns f r keeps found (rw (found, apply)) (rw (found, apply))
    ]

sink-Change :
    (ev : EventType) (c : Chain) (a : Arguments) (t t' : Table)
    → a.event_type ≡ ev
    → sink ev c a t ≡ some t'
    → Change a t t'
unfolding sink
sink-Change EventType.apply_for c a t t' e h =
    let (data', _, h1) = >>=-eq-some a.optional_data_applicant _ h in
    let (datetime, _, h2) = >>=-eq-some (datetime_of (c.instant_of data')) _ h1 in
    let (timestamp, _, h3) = >>=-eq-some a.block_timestamp _ h2 in
    let f = apply_columns a.amount datetime timestamp in
    let same : apply a f t ≡ t' = cc in
    subst (Change a t) same (apply-Change a f t e (apply_columns-Keeps a.amount datetime timestamp))
sink-Change EventType.cancel c a t t' e h =
    elim (Option-cases (find a.token_address a.exchange_address a.application_id t.rows)) [
      | inl missing ↦ cc (rw (missing, sink) at h)
      | inr (r, found) ↦
          let (timestamp, _, h1) = >>=-eq-some a.block_timestamp _ (rw (found, sink) at h) in
          assign_found-Change a (cancel_columns timestamp) t t' (cancel_columns-Keeps timestamp) h1
    ]
sink-Change EventType.escrow_finish c a t t' e h =
    assign_found-Change a finish_columns t t' finish_columns-Keeps h
sink-Change EventType.approve c a t t' e h =
    elim (Option-cases (find a.token_address a.exchange_address a.application_id t.rows)) [
      | inl missing ↦ cc (rw (missing, sink) at h)
      | inr (r, found) ↦
          let (data', _, h1) = >>=-eq-some a.optional_data_approver _ (rw (found, sink) at h) in
          let (datetime, _, h2) = >>=-eq-some (datetime_of (c.instant_of data')) _ h1 in
          let (timestamp, _, h3) = >>=-eq-some a.block_timestamp _ h2 in
          assign_found-Change a (approve_columns datetime timestamp) t t'
            (approve_columns-Keeps datetime timestamp) h3
    ]

-- Every call that does not raise makes a row for the application or changes its row.
pub sink_on_transfer_approval-Change :
    (c : Chain) (a : Arguments) (t t' : Table)
    → sink_on_transfer_approval c a t ≡ some t'
    → Change a t t'
unfolding sink_on_transfer_approval
sink_on_transfer_approval-Change c a t t' h = sink-Change a.event_type c a t t' refl h

pub find-append_ne :
    (k x i : ℕ) (rows : List TransferApproval) (r : TransferApproval)
    → find k x i (rows ++ r ∷ []) ≡ elim (find k x i rows) [
      | none ↦ if is_application k x i r then some r else none
      | some s ↦ some s
    ]
find-append_ne k x i [] r = refl
find-append_ne k x i (s ∷ rows) r = ground (arith, find-append_ne k x i rows r)

unchanged : Keeps (λ r. r)
unchanged r = ground arith

either :
    (f : TransferApproval → TransferApproval)
    → Keeps f
    → (r : TransferApproval) (b : Bool)
    → IsSameApplication r (if b then f r else r) × IsLater r (if b then f r else r)
either f keeps r true = keeps r
either f keeps r false = unchanged r

-- No event that does not raise loses an application, changes what tells it (its number, token,
-- exchange, id and parties), or takes back that it is cancelled, finished or approved.
pub sink_on_transfer_approval_keeps :
    (c : Chain) (a : Arguments) (t t' : Table) (k x i : ℕ) (r : TransferApproval)
    → sink_on_transfer_approval c a t ≡ some t'
    → find k x i t.rows ≡ some r
    → (s : TransferApproval) × (find k x i t'.rows ≡ some s) × IsSameApplication r s × IsLater r s
sink_on_transfer_approval_keeps c a t t' k x i r h found =
    kept (sink_on_transfer_approval-Change c a t t' h)
  where
    kept :
        Change a t t'
        → (s : TransferApproval) × (find k x i t'.rows ≡ some s)
          × IsSameApplication r s
          × IsLater r s
    kept (inserts f keeps _ _ rows _) = (
      r,
      ap (find k x i) rows ∙ find-append_ne k x i t.rows (f (new_row t.next_id a)) ∙ (rw found),
      (unchanged r).0,
      (unchanged r).1,
    )
    kept (assigns f _ keeps _ rows _) =
        let hit = a.token_address == k && a.exchange_address == x && a.application_id == i in
        (
          if hit then f r else r,
          ap (find k x i) rows
              ∙ find-assign a.token_address a.exchange_address a.application_id k x i f t.rows keeps
              ∙ (rw found),
          (either f keeps r hit).0,
          (either f keeps r hit).1,
        )

-- No two rows are of one application, and the numbers given are below the next.
pub record IsTable (t : Table) : Type 0 where
  pub keyed : IsKeyed t.rows
  pub numbered : All (λ r. r.id < t.next_id) t.rows

append-IsKeyed :
    (r : TransferApproval) (rows : List TransferApproval)
    → find r.token_address r.exchange_address r.application_id rows ≡ none
    → IsKeyed rows
    → IsKeyed (rows ++ r ∷ [])
append-IsKeyed r [] e k = (refl, tt)
append-IsKeyed r (s ∷ rows) e k = ground (
  arith,
  append-IsKeyed r rows,
  find-append_ne s.token_address s.exchange_address s.application_id rows r,
)

assign-IsKeyed :
    (token exchange application : ℕ) (f : TransferApproval → TransferApproval)
    (rows : List TransferApproval)
    → Keeps f
    → IsKeyed rows
    → IsKeyed (assign token exchange application f rows)
unfolding assign
assign-IsKeyed token exchange application f [] keeps k = tt
assign-IsKeyed token exchange application f (r ∷ rows) keeps k =
    let same = (keeps r).0 in
    ground (
      arith,
      same.same_token,
      same.same_exchange,
      same.same_application,
      assign-IsKeyed token exchange application f rows keeps k.1,
      find-assign token exchange application r.token_address r.exchange_address r.application_id f
          rows keeps,
    )

assign-numbered :
    (token exchange application n : ℕ) (f : TransferApproval → TransferApproval)
    (rows : List TransferApproval)
    → Keeps f
    → All (λ r. r.id < n) rows
    → All (λ r. r.id < n) (assign token exchange application f rows)
unfolding assign
assign-numbered token exchange application n f [] keeps h = tt
assign-numbered token exchange application n f (r ∷ rows) keeps h =
    let same = (keeps r).0 in
    ground (arith, same.same_id, assign-numbered token exchange application n f rows keeps h.1)

Change-IsTable : (a : Arguments) (t t' : Table) → Change a t t' → IsTable t → IsTable t'
Change-IsTable a t t' (inserts f keeps _ missing rows next) v =
    let r = f (new_row t.next_id a) in
    let same = (keeps (new_row t.next_id a)).0 in
    let fresh : find r.token_address r.exchange_address r.application_id t.rows ≡ none =
      rw (same.same_token, same.same_exchange, same.same_application) missing in
    record {
      keyed = subst IsKeyed (sym rows) (append-IsKeyed r t.rows fresh v.keyed);
      numbered =
          subst (λ n. All (λ s. s.id < n) t'.rows) (sym next)
            (subst (All (λ s. s.id < suc t.next_id)) (sym rows) (
              All-append _ t.rows (r ∷ []) (All-mono _ _ t.rows (λ s h. omega arith) v.numbered)
                (omega (arith, same.same_id), tt)));
    }
Change-IsTable a t t' (assigns f _ keeps _ rows next) v = record {
  keyed =
      subst IsKeyed (sym rows)
        (assign-IsKeyed a.token_address a.exchange_address a.application_id f t.rows keeps v.keyed);
  numbered =
      subst (λ n. All (λ s. s.id < n) t'.rows) (sym next)
        (subst (All (λ s. s.id < t.next_id)) (sym rows) (
          assign-numbered a.token_address a.exchange_address a.application_id t.next_id f t.rows
            keeps v.numbered));
}

-- Every call that does not raise keeps the rows of distinct applications, with numbers below the next.
pub sink_on_transfer_approval-IsTable :
    (c : Chain) (a : Arguments) (t t' : Table)
    → IsTable t
    → sink_on_transfer_approval c a t ≡ some t'
    → IsTable t'
sink_on_transfer_approval-IsTable c a t t' v h =
    Change-IsTable a t t' (sink_on_transfer_approval-Change c a t t' h) v
