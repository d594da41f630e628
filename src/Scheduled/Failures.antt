-- ===== src/Scheduled/Failures.antt =====
-- How an issuer's events come to a halt.
use ibet_prime.Base.{
  ℕ, zero, suc, ◌≡◌, refl, sym, ap, subst, ◌∙◌, ◌≢◌, inl, inr, Bool, true, not, ◌==◌, List, [], ◌∷◌,
  some, arith, select, Option-cases,
}
use ibet_prime.Chain.{Address}
use ibet_prime.Tokens.{contains}
use ibet_prime.Scheduled.Table.{ScheduledEvent, next_event, events_of}
use ibet_prime.Scheduled.Workers.{
  Phase, idle, taken, working, leaving, Sent, State, move, take, load, process_event, release,
  Action, goes_on, shuts_down, schedules, deletes, removes, go_on, shut_down, step, run,
}
use ibet_prime.Scheduled.Exclusion.{
  issuer_of, IsExclusive, next_event-free, moved_issuer, contains-select, process_event_keeps,
}

-- The issuer is marked as being processed, and no worker processes it.
abbrev pub IsLeaked : Address → State → Type 0
IsLeaked a s =
    (contains a s.processing_issuers ≡ true) × ((v : ℕ) → issuer_of (s.workers v) ≢ some a)

-- A worker that holds another issuer, or none, after its move.
move-IsLeaked :
    (a w : ℕ) (p : Phase) (s : State)
    → issuer_of p ≢ some a
    → IsLeaked a s
    → IsLeaked a (move w p s)
move-IsLeaked a w p s n (m, l) =
    (m, λ v h. elim (moved_issuer w v a p s h) [ inl (_, own) ↦ n own | inr (_, old) ↦ l v old ])

take-IsLeaked : (a w t : ℕ) (s : State) → IsLeaked a s → IsLeaked a (take w t s)
unfolding take
take-IsLeaked a w t s (m, l) = elim (Option-cases (next_event t s.processing_issuers s.events)) [
  | inl n ↦ rw (n, take) (m, l)
  | inr (e, found) ↦
      let free = next_event-free t s.processing_issuers s.events e found in
      let other : e.issuer_address ≢ a =
        λ q. let f = ap (λ x. contains x s.processing_issuers) q in cc in
      let marked : contains a (e.issuer_address ∷ s.processing_issuers) ≡ true =
        ground (arith, m) in
      rw (found, take)
        (move-IsLeaked a w (taken t e.issuer_address)
          (record s { processing_issuers = e.issuer_address ∷ s.processing_issuers })
          (λ q. other (cc)) (marked, l))
]

load-IsLeaked : (a w t b : ℕ) (s : State) → b ≢ a → IsLeaked a s → IsLeaked a (load w t b s)
unfolding load
load-IsLeaked a w t b s n h = by_events (events_of t b s.events)
  where
    by_events :
        (es : List ScheduledEvent)
        → IsLeaked a (elim es [ [] ↦ move w idle s | e ∷ es ↦ move w (working b (e ∷ es)) s ])
    by_events [] = move-IsLeaked a w idle s (λ q. cc) h
    by_events (e ∷ es) = move-IsLeaked a w (working b (e ∷ es)) s (λ q. n (cc)) h

release-IsLeaked : (a w b : ℕ) (s : State) → b ≢ a → IsLeaked a s → IsLeaked a (release w b s)
unfolding release
release-IsLeaked a w b s n (m, l) =
    move-IsLeaked a w idle
      (record s {
        processing_issuers = select (λ (p : Address). not (p == b)) s.processing_issuers;
      })
      (λ q. cc) (contains-select b a s.processing_issuers (λ q. n (sym q)) m, l)

holds_other :
    (a w b : ℕ) (p : Phase) (s : State)
    → IsLeaked a s
    → s.workers w ≡ p
    → issuer_of p ≡ some b
    → b ≢ a
holds_other a w b p s (m, l) at held e = l w (ap issuer_of at ∙ held ∙ ap (λ x. some x) e)

go_on-IsLeaked :
    (has_key : Address → Bool) (a w now : ℕ) (sent : Sent) (p : Phase) (s : State)
    → s.workers w ≡ p
    → IsLeaked a s
    → IsLeaked a (go_on has_key w now sent p s)
unfolding go_on
go_on-IsLeaked has_key a w now sent idle s at h = take-IsLeaked a w now s h
go_on-IsLeaked has_key a w now sent (taken t b) s at h =
    load-IsLeaked a w t b s (holds_other a w b (taken t b) s h at refl) h
go_on-IsLeaked has_key a w now sent (working b []) s at h =
    let n = holds_other a w b (working b []) s h at refl in
    move-IsLeaked a w (leaving b) s (λ q. n (cc)) h
go_on-IsLeaked has_key a w now sent (working b (e ∷ es)) s at h =
    let n = holds_other a w b (working b (e ∷ es)) s h at refl in
    elim (Option-cases (process_event has_key sent e s)) [
      | inl raises ↦ rw (raises, go_on) (move-IsLeaked a w (leaving b) s (λ q. n (cc)) h)
      | inr (s', done) ↦
          let (f, g) = process_event_keeps has_key sent e s s' done in
          let h' : IsLeaked a s' = (
            ap (contains a) g ∙ h.0,
            λ v q. h.1 v (ap (λ (k : ℕ → Phase). issuer_of (k v)) (sym f) ∙ q),
          ) in
          rw (done, go_on) (move-IsLeaked a w (working b es) s' (λ q. n (cc)) h')
    ]
go_on-IsLeaked has_key a w now sent (leaving b) s at h =
    release-IsLeaked a w b s (holds_other a w b (leaving b) s h at refl) h

step-IsLeaked :
    (has_key : Address → Bool) (a : ℕ) (b : Action) (s : State)
    → IsLeaked a s
    → IsLeaked a (step has_key b s)
unfolding step
step-IsLeaked has_key a (goes_on w now sent) s h =
    go_on-IsLeaked has_key a w now sent (s.workers w) s refl h
step-IsLeaked has_key a (shuts_down w) s h = by_phase (s.workers w) refl
  where
    by_phase : (p : Phase) → s.workers w ≡ p → IsLeaked a (shut_down w p s)
    by_phase (working b es) at =
        let n = holds_other a w b (working b es) s h at refl in
        move-IsLeaked a w (leaving b) s (λ q. n (cc)) h
    by_phase idle at = h
    by_phase (taken t b) at = h
    by_phase (leaving b) at = h
step-IsLeaked has_key a (schedules e) s h = h
step-IsLeaked has_key a (deletes id) s h = h
step-IsLeaked has_key a (removes id) s h = h

run-keeps_leak :
    (has_key : Address → Bool) (a : ℕ) (actions : List Action) (s : State)
    → IsLeaked a s
    → IsLeaked a (run has_key actions s)
unfolding run
run-keeps_leak has_key a [] s h = h
run-keeps_leak has_key a (b ∷ rest) s h =
    run-keeps_leak has_key a rest (step has_key b s) (step-IsLeaked has_key a b s h)

load_nothing :
    (has_key : Address → Bool) (w t a now : ℕ) (sent : Sent) (s : State)
    → events_of t a s.events ≡ []
    → go_on has_key w now sent (taken t a) s ≡ move w idle s
unfolding go_on load
load_nothing has_key w t a now sent s gone = rw (gone, load) refl

-- A worker that has taken an issuer and then finds no event of it due (the API has deleted it in
-- between) goes idle and never releases the issuer: whatever steps follow, the issuer stays marked, and
-- no worker processes it; if no two workers held one issuer before.
pub run-IsLeaked :
    (has_key : Address → Bool) (w t a now : ℕ) (sent : Sent) (rest : List Action) (s : State)
    → IsExclusive s
    → s.workers w ≡ taken t a
    → events_of t a s.events ≡ []
    → IsLeaked a (run has_key (goes_on w now sent ∷ rest) s)
unfolding run step
run-IsLeaked has_key w t a now sent rest s x at gone =
    let held : issuer_of (s.workers w) ≡ some a = ap issuer_of at in
    let goes : go_on has_key w now sent (s.workers w) s ≡ move w idle s =
      ap (λ p. go_on has_key w now sent p s) at ∙ load_nothing has_key w t a now sent s gone in
    let leaked : IsLeaked a (move w idle s) = (
      x.marked w a held,
      λ v h. elim (moved_issuer w v a idle s h) [
        | inl (_, own) ↦ cc
        | inr (n, old) ↦ x.apart v w a n old held
      ],
    ) in
    run-keeps_leak has_key a rest (go_on has_key w now sent (s.workers w) s)
      (subst (IsLeaked a) (sym goes) leaked)

-- Four steps of one worker, a number of times.
abbrev pub rounds_of : Action → ℕ → List Action
rounds_of again zero = []
rounds_of again (suc n) = again ∷ again ∷ again ∷ again ∷ rounds_of again n
