-- ===== src/Delivery/Rows.antt =====
-- What `__sink_on_delivery` does to the rows of deliveries.
use ibet_prime.Base.{
  ℕ, suc, ◌≡◌, refl, Bool, true, false, [], ◌∷◌, ◌++◌, Option, none, some, arith, ◌||◌, not,
  Option-cases, Bool-cases, append_nil, inl, inr, >>=-eq-some, subst,
}
use ibet_prime.Delivery.Table.{
  Delivery, DeliveryStatus, DvpAsyncProcessType, Table, Registry, EventType, Arguments, is_some,
  has_account, is_involved, find, assign, new_delivery, new_process, cancel_columns,
  confirm_columns, finish_columns, abort_columns, instructed, assign_found, sink, sink_on_delivery,
}

-- The terms of the delivery are as they were.
pub record IsSameDelivery (r s : Delivery) : Type 0 where
  pub same_id : s.id ≡ r.id
  pub same_exchange : s.exchange_address ≡ r.exchange_address
  pub same_delivery : s.delivery_id ≡ r.delivery_id
  pub same_token : s.token_address ≡ r.token_address
  pub same_buyer : s.buyer_address ≡ r.buyer_address
  pub same_seller : s.seller_address ≡ r.seller_address
  pub same_amount : s.amount ≡ r.amount
  pub same_agent : s.agent_address ≡ r.agent_address
  pub same_data : s.data_text ≡ r.data_text
  pub same_service : s.settlement_service_type ≡ r.settlement_service_type
  pub same_creation : s.create_transaction_hash ≡ r.create_transaction_hash
  pub same_dedicated : s.dedicated_agent_id ≡ r.dedicated_agent_id

-- Is the event that leads to a status recorded?
abbrev pub is_recorded : DeliveryStatus → Delivery → Bool
is_recorded DeliveryStatus.delivery_created r = true
is_recorded DeliveryStatus.delivery_canceled r = is_some r.cancel_transaction_hash
is_recorded DeliveryStatus.delivery_confirmed r = is_some r.confirm_transaction_hash
is_recorded DeliveryStatus.delivery_finished r = is_some r.finish_transaction_hash
is_recorded DeliveryStatus.delivery_aborted r = is_some r.abort_transaction_hash

-- What is recorded stays so, an invalid delivery stays invalid, and a confirmed one confirmed.
pub record IsLater (r s : Delivery) : Type 0 where
  pub recorded_stays : (e : DeliveryStatus) → is_recorded e r ≡ true → is_recorded e s ≡ true
  pub invalid_stays : r.valid ≡ false → s.valid ≡ false
  pub confirmed_stays : r.confirmed ≡ true → s.confirmed ≡ true

-- The columns agree: a delivery is invalid when it is canceled, finished or aborted, confirmed when
-- a confirmation is recorded, and the event of its status is recorded; a time stands with each hash.
pub record IsSettled (r : Delivery) : Type 0 where
  pub invalid_when : not r.valid ≡ (
      is_some r.cancel_transaction_hash
      || is_some r.finish_transaction_hash
      || is_some r.abort_transaction_hash)
  pub confirmed_when : r.confirmed ≡ is_some r.confirm_transaction_hash
  pub status_recorded : is_recorded r.status r ≡ true
  pub cancel_timed : is_some r.cancel_blocktimestamp ≡ is_some r.cancel_transaction_hash
  pub confirm_timed : is_some r.confirm_blocktimestamp ≡ is_some r.confirm_transaction_hash
  pub finish_timed : is_some r.finish_blocktimestamp ≡ is_some r.finish_transaction_hash
  pub abort_timed : is_some r.abort_blocktimestamp ≡ is_some r.abort_transaction_hash

-- An assignment to the columns of an event.
abbrev pub Keeps : (Delivery → Delivery) → Type 0
Keeps f =
    (r : Delivery) → IsSameDelivery r (f r) × IsLater r (f r) × (IsSettled r → IsSettled (f r))

pub new_delivery-IsSettled :
    (g : Registry) (a : Arguments) (i id : ℕ) → IsSettled (new_delivery g a i id)
new_delivery-IsSettled g a i id = record {
  invalid_when = refl;
  confirmed_when = refl;
  status_recorded = refl;
  cancel_timed = refl;
  confirm_timed = refl;
  finish_timed = refl;
  abort_timed = refl;
}

cancel_columns-Keeps : (a : Arguments) → Keeps (cancel_columns a)
cancel_columns-Keeps a r = ground arith

confirm_columns-Keeps : (a : Arguments) → Keeps (confirm_columns a)
confirm_columns-Keeps a r = ground arith

finish_columns-Keeps : (a : Arguments) → Keeps (finish_columns a)
finish_columns-Keeps a r = ground arith

abort_columns-Keeps : (a : Arguments) → Keeps (abort_columns a)
abort_columns-Keeps a r = ground arith

-- The status that the event of a process leads to; the indexer instructs no creation.
abbrev pub outcome : DvpAsyncProcessType → Option DeliveryStatus
outcome DvpAsyncProcessType.create_delivery = none
outcome DvpAsyncProcessType.cancel_delivery = some DeliveryStatus.delivery_canceled
outcome DvpAsyncProcessType.finish_delivery = some DeliveryStatus.delivery_finished
outcome DvpAsyncProcessType.abort_delivery = some DeliveryStatus.delivery_aborted

-- How a call that does not raise changes the tables: not at all, by a row for the delivery, or by
-- assignments to the row that is there, with or without a process for it.
pub data Change (g : Registry) (a : Arguments) (t t' : Table) : Type 0 where
  same : t' ≡ t → Change g a t t'
  inserts :
      (i : ℕ)
      → a.event_type ≡ EventType.created
      → a.delivery_id ≡ some i
      → find a.exchange_address i t.rows ≡ none
      → t'.rows ≡ t.rows ++ new_delivery g a i t.next_id ∷ []
      → t'.next_id ≡ suc t.next_id
      → t'.processes ≡ t.processes
      → Change g a t t'
  assigns :
      (i : ℕ) (f : Delivery → Delivery) (r : Delivery)
      → Keeps f
      → find a.exchange_address i t.rows ≡ some r
      → t'.rows ≡ assign a.exchange_address i f t.rows
      → t'.next_id ≡ t.next_id
      → t'.processes ≡ t.processes
      → Change g a t t'
  instructs :
      (i : ℕ) (f : Delivery → Delivery) (r : Delivery) (type : DvpAsyncProcessType) (issuer : ℕ)
      (e : DeliveryStatus)
      → Keeps f
      → outcome type ≡ some e
      → is_recorded e (f r) ≡ true
      → has_account g issuer ≡ true
      → find a.exchange_address i t.rows ≡ some r
      → t'.rows ≡ assign a.exchange_address i f t.rows
      → t'.next_id ≡ t.next_id
      → t'.processes ≡ t.processes ++ new_process type issuer a i ∷ []
      → Change g a t t'

created-Change :
    (g : Registry) (a : Arguments) (i : ℕ) (t t' : Table)
    → a.event_type ≡ EventType.created
    → a.delivery_id ≡ some i
    → sink EventType.created g a i t ≡ some t'
    → Change g a t t'
unfolding sink
created-Change g a i t t' made named h = elim (Option-cases (find a.exchange_address i t.rows)) [
  | inl missing ↦
      let done = rw (missing, sink) at h in
      inserts i made named missing (ground (arith, done)) (ground (arith, done))
        (ground (arith, done))
  | inr (r, found) ↦ let done = rw (found, sink) at h in same (ground (arith, done))
]

assigned-Change :
    (g : Registry) (a : Arguments) (i : ℕ) (f : Delivery → Delivery) (t t' : Table)
    → Keeps f
    → assign_found a i f [] t ≡ some t'
    → Change g a t t'
assigned-Change g a i f t t' keeps h = elim (Option-cases (find a.exchange_address i t.rows)) [
  | inl missing ↦ cc (rw (missing, assign_found) at h)
  | inr (r, found) ↦
      let done = rw (found, assign_found) at h in
      let none_added = append_nil t.processes in
      assigns i f r keeps found (ground (arith, done)) (ground (arith, done))
        (ground (arith, done, none_added))
]

instructed-Change :
    (g : Registry) (a : Arguments) (i : ℕ) (f : Delivery → Delivery) (type : DvpAsyncProcessType)
    (issuer : ℕ) (e : DeliveryStatus) (t t' : Table)
    → Keeps f
    → outcome type ≡ some e
    → ((r : Delivery) → is_recorded e (f r) ≡ true)
    → assign_found a i f (instructed g type issuer a i) t ≡ some t'
    → Change g a t t'
instructed-Change g a i f type issuer e t t' keeps leads records h =
    elim (Bool-cases (has_account g issuer)) [
      | inr unknown ↦
          let adds : instructed g type issuer a i ≡ [] = rw unknown in
          assigned-Change g a i f t t' keeps
            (subst (λ ps. assign_found a i f ps t ≡ some t') adds h)
      | inl known ↦
          let p = new_process type issuer a i in
          let adds : instructed g type issuer a i ≡ p ∷ [] = rw known in
          let done = subst (λ ps. assign_found a i f ps t ≡ some t') adds h in
          elim (Option-cases (find a.exchange_address i t.rows)) [
            | inl missing ↦ cc (rw (missing, assign_found) at done)
            | inr (r, found) ↦
                let done' = rw (found, assign_found) at done in
                instructs i f r type issuer e keeps leads (records r) known found
                  (ground (arith, done')) (ground (arith, done')) (ground (arith, done'))
          ]
    ]

sink-Change :
    (ev : EventType) (g : Registry) (a : Arguments) (i : ℕ) (t t' : Table)
    → a.event_type ≡ ev
    → a.delivery_id ≡ some i
    → sink ev g a i t ≡ some t'
    → Change g a t t'
unfolding sink
sink-Change EventType.created g a i t t' type named h = created-Change g a i t t' type named h
sink-Change EventType.canceled g a i t t' type named h =
    instructed-Change g a i (cancel_columns a) DvpAsyncProcessType.cancel_delivery a.seller_address
      DeliveryStatus.delivery_canceled t t' (cancel_columns-Keeps a) refl (λ r. refl) h
sink-Change EventType.confirm_event g a i t t' type named h =
    assigned-Change g a i (confirm_columns a) t t' (confirm_columns-Keeps a) h
sink-Change EventType.finished g a i t t' type named h =
    instructed-Change g a i (finish_columns a) DvpAsyncProcessType.finish_delivery a.buyer_address
      DeliveryStatus.delivery_finished t t' (finish_columns-Keeps a) refl (λ r. refl) h
sink-Change EventType.aborted g a i t t' type named h =
    instructed-Change g a i (abort_columns a) DvpAsyncProcessType.abort_delivery a.seller_address
      DeliveryStatus.delivery_aborted t t' (abort_columns-Keeps a) refl (λ r. refl) h

-- Every call that does not raise changes the tables in one of these ways.
pub sink_on_delivery-Change :
    (g : Registry) (a : Arguments) (t t' : Table)
    → sink_on_delivery g a t ≡ some t'
    → Change g a t t'
unfolding sink_on_delivery
sink_on_delivery-Change g a t t' h = elim (Bool-cases (is_involved g a)) [
  | inr stranger ↦ let done = rw (stranger, sink_on_delivery) at h in same (ground (arith, done))
  | inl involved ↦
      let (i, named, sunk) = >>=-eq-some a.delivery_id _ (rw (involved, sink_on_delivery) at h) in
      sink-Change a.event_type g a i t t' refl named sunk
]
