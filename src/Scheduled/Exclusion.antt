-- ===== src/Scheduled/Exclusion.antt =====
-- No issuer is processed by two workers.
use ibet_prime.Base.{
  ℕ, ◌≡◌, refl, sym, ap, subst, ◌∙◌, All-mono, ◌≢◌, ◌⊎◌, inl, inr, Bool, true, false, not, ◌==◌,
  ◌&&◌, List, [], ◌∷◌, Option, none, some, arith, select, All, select_sound, Option-cases,
  Bool-cases, if◌then◌else◌,
}
use ibet_prime.Base.Sort.{sort_by, All-sort_by}
use ibet_prime.Chain.{Address}
use ibet_prime.Tokens.{contains}
use ibet_prime.Scheduled.Table.{ScheduledEvent, due_before, is_due, head, next_event, events_of}
use ibet_prime.Scheduled.Workers.{
  Phase, idle, taken, working, leaving, Sent, State, move, fail, succeed, take, load, process_event,
  release, Action, goes_on, shuts_down, schedules, deletes, removes, go_on, shut_down, step, run,
}

-- The issuer that a worker holds.
abbrev pub issuer_of : Phase → Option Address
issuer_of idle = none
issuer_of (taken _ a) = some a
issuer_of (working a _) = some a
issuer_of (leaving a) = some a

-- Each issuer that a worker holds is marked, and no other worker holds it.
pub record IsExclusive (s : State) : Type 0 where
  pub marked :
      (w : ℕ) (a : Address)
      → issuer_of (s.workers w) ≡ some a
      → contains a s.processing_issuers ≡ true
  pub apart :
      (v w : ℕ) (a : Address)
      → v ≢ w
      → issuer_of (s.workers v) ≡ some a
      → issuer_of (s.workers w) ≢ some a

head-All {κ} :
    (P : ScheduledEvent → Type κ) (es : List ScheduledEvent) (e : ScheduledEvent)
    → All P es
    → head es ≡ some e
    → P e
head-All P [] e h q = cc
head-All P (x ∷ es) e h q = let same : x ≡ e = cc in subst P same h.0

pub next_event-free :
    (t : ℕ) (ps : List Address) (es : List ScheduledEvent) (e : ScheduledEvent)
    → next_event t ps es ≡ some e
    → contains e.issuer_address ps ≡ false
unfolding next_event
next_event-free t ps es e h =
    let test = λ (x : ScheduledEvent). is_due t x && not (contains x.issuer_address ps) in
    let chosen = select test es in
    let sound : All (λ x. contains x.issuer_address ps ≡ false) chosen =
      All-mono (λ x. test x ≡ true) (λ x. contains x.issuer_address ps ≡ false) chosen
        (λ x k. ground arith) (select_sound test es) in
    head-All (λ x. contains x.issuer_address ps ≡ false) (sort_by due_before chosen) e
      (All-sort_by due_before (λ x. contains x.issuer_address ps ≡ false) chosen sound) h

pub issuer_of-move :
    (w v : ℕ) (p : Phase) (s : State)
    → issuer_of ((move w p s).workers v) ≡ (if v == w then issuer_of p else issuer_of (s.workers v))
issuer_of-move w v p s = elim (Bool-cases (v == w)) [ inl e ↦ rw e refl | inr e ↦ rw e refl ]

-- A worker that holds an issuer after a move is the one that moved, or held it before.
pub moved_issuer :
    (w v b : ℕ) (p : Phase) (s : State)
    → issuer_of ((move w p s).workers v) ≡ some b
    → (v ≡ w × (issuer_of p ≡ some b)) ⊎ (v ≢ w × (issuer_of (s.workers v) ≡ some b))
moved_issuer w v b p s h =
    let e : (if v == w then issuer_of p else issuer_of (s.workers v)) ≡ some b =
      sym (issuer_of-move w v p s) ∙ h in
    elim (Bool-cases (v == w)) [
      | inl here ↦ inl (ground arith, rw here at e)
      | inr there ↦ inr (ground arith, rw there at e)
    ]

-- A worker that keeps its issuer.
move-IsExclusive :
    (w : ℕ) (p : Phase) (s : State)
    → issuer_of p ≡ issuer_of (s.workers w)
    → IsExclusive s
    → IsExclusive (move w p s)
move-IsExclusive w p s e x =
    let same : (v : ℕ) → issuer_of ((move w p s).workers v) ≡ issuer_of (s.workers v) = λ v.
      issuer_of-move w v p s ∙ elim (Bool-cases (v == w)) [
        | inl here ↦
            let k : v ≡ w = ground arith in rw here (e ∙ ap (λ i. issuer_of (s.workers i)) (sym k))
        | inr there ↦ rw there refl
      ] in
    record {
      marked = λ v a h. x.marked v a (sym (same v) ∙ h);
      apart = λ v u a n h k. x.apart v u a n (sym (same v) ∙ h) (sym (same u) ∙ k);
    }

-- A worker that takes an issuer which is not marked.
take_IsExclusive :
    (w t a : ℕ) (s : State)
    → contains a s.processing_issuers ≡ false
    → IsExclusive s
    → IsExclusive (move w (taken t a) (record s { processing_issuers = a ∷ s.processing_issuers }))
take_IsExclusive w t a s free x =
    let now = λ (v b : ℕ) (h : issuer_of ((move w (taken t a) s).workers v) ≡ some b).
      moved_issuer w v b (taken t a) s h in
    record {
      marked = λ v b h. elim (now v b h) [
        | inl (here, own) ↦ let k : b ≡ a = cc in ground (arith, k)
        | inr (there, old) ↦ ground (arith, x.marked v b old)
      ];
      apart = λ v u b n h k. elim (now v b h) [
        | inl (here, own) ↦ elim (now u b k) [
          | inl (here', own') ↦ n (here ∙ sym here')
          | inr (there', old') ↦
              let m = x.marked u b old' in let e : a ≡ b = cc in cc (rw e at free)
        ]
        | inr (there, old) ↦ elim (now u b k) [
          | inl (here', own') ↦ let m = x.marked v b old in let e : a ≡ b = cc in cc (rw e at free)
          | inr (there', old') ↦ x.apart v u b n old old'
        ]
      ];
    }

pub contains-select :
    (a b : ℕ) (ps : List ℕ)
    → b ≢ a
    → contains b ps ≡ true
    → contains b (select (λ (p : ℕ). not (p == a)) ps) ≡ true
contains-select a b [] n h = cc
contains-select a b (p ∷ ps) n h = ground (arith, contains-select a b ps n)

release-IsExclusive :
    (w a : ℕ) (s : State)
    → issuer_of (s.workers w) ≡ some a
    → IsExclusive s
    → IsExclusive (release w a s)
unfolding release
release-IsExclusive w a s held x =
    let now = λ (v b : ℕ) (h : issuer_of ((move w idle s).workers v) ≡ some b).
      moved_issuer w v b idle s h in
    record {
      marked = λ v b h. elim (now v b h) [
        | inl (here, own) ↦ cc
        | inr (there, old) ↦
            let n : b ≢ a = λ e. x.apart v w a there (old ∙ ap (λ y. some y) e) held in
            contains-select a b s.processing_issuers n (x.marked v b old)
      ];
      apart = λ v u b n h k. elim (now v b h) [
        | inl (here, own) ↦ cc
        | inr (there, old) ↦ elim (now u b k) [
          | inl (here', own') ↦ cc
          | inr (there', old') ↦ x.apart v u b n old old'
        ]
      ];
    }

-- A worker that goes idle, and leaves its issuer marked.
idle-IsExclusive : (w : ℕ) (s : State) → IsExclusive s → IsExclusive (move w idle s)
idle-IsExclusive w s x =
    let now = λ (v b : ℕ) (h : issuer_of ((move w idle s).workers v) ≡ some b).
      moved_issuer w v b idle s h in
    record {
      marked =
          λ v b h. elim (now v b h) [ inl (here, own) ↦ cc | inr (there, old) ↦ x.marked v b old ];
      apart = λ v u b n h k. elim (now v b h) [
        | inl (here, own) ↦ cc
        | inr (there, old) ↦ elim (now u b k) [
          | inl (here', own') ↦ cc
          | inr (there', old') ↦ x.apart v u b n old old'
        ]
      ];
    }

-- What a step that leaves the workers and the marks alone keeps.
kept-IsExclusive :
    (s s' : State)
    → s'.workers ≡ s.workers
    → s'.processing_issuers ≡ s.processing_issuers
    → IsExclusive s
    → IsExclusive s'
kept-IsExclusive s s' e f x =
    let held = λ (v : ℕ). ap (λ (g : ℕ → Phase). issuer_of (g v)) e in
    record {
      marked = λ v a h. ap (contains a) f ∙ x.marked v a (sym (held v) ∙ h);
      apart = λ v u a n h k. x.apart v u a n (sym (held v) ∙ h) (sym (held u) ∙ k);
    }

pub process_event_keeps :
    (has_key : Address → Bool) (sent : Sent) (e : ScheduledEvent) (s s' : State)
    → process_event has_key sent e s ≡ some s'
    → (s'.workers ≡ s.workers) × (s'.processing_issuers ≡ s.processing_issuers)
unfolding process_event fail succeed
process_event_keeps has_key sent e s s' h = ground (arith, h)

take-IsExclusive : (w t : ℕ) (s : State) → IsExclusive s → IsExclusive (take w t s)
unfolding take
take-IsExclusive w t s x = elim (Option-cases (next_event t s.processing_issuers s.events)) [
  | inl n ↦ rw (n, take) x
  | inr (e, found) ↦
      rw (found, take)
        (take_IsExclusive w t e.issuer_address s
          (next_event-free t s.processing_issuers s.events e found) x)
]

load-IsExclusive :
    (w t a : ℕ) (s : State)
    → issuer_of (s.workers w) ≡ some a
    → IsExclusive s
    → IsExclusive (load w t a s)
unfolding load
load-IsExclusive w t a s held x = by_events (events_of t a s.events)
  where
    by_events :
        (es : List ScheduledEvent)
        → IsExclusive (elim es [ [] ↦ move w idle s | e ∷ es ↦ move w (working a (e ∷ es)) s ])
    by_events [] = idle-IsExclusive w s x
    by_events (e ∷ es) = move-IsExclusive w (working a (e ∷ es)) s (sym held) x

go_on-IsExclusive :
    (has_key : Address → Bool) (w now : ℕ) (sent : Sent) (p : Phase) (s : State)
    → s.workers w ≡ p
    → IsExclusive s
    → IsExclusive (go_on has_key w now sent p s)
unfolding go_on
go_on-IsExclusive has_key w now sent idle s at x = take-IsExclusive w now s x
go_on-IsExclusive has_key w now sent (taken t a) s at x =
    load-IsExclusive w t a s (ap issuer_of at) x
go_on-IsExclusive has_key w now sent (working a []) s at x =
    move-IsExclusive w (leaving a) s (sym (ap issuer_of at)) x
go_on-IsExclusive has_key w now sent (working a (e ∷ es)) s at x =
    elim (Option-cases (process_event has_key sent e s)) [
      | inl raises ↦ rw (raises, go_on) (move-IsExclusive w (leaving a) s (sym (ap issuer_of at)) x)
      | inr (s', done) ↦
          let (f, g) = process_event_keeps has_key sent e s s' done in
          let held : issuer_of (s'.workers w) ≡ some a =
            ap (λ (h : ℕ → Phase). issuer_of (h w)) f ∙ ap issuer_of at in
          rw (done, go_on)
            (move-IsExclusive w (working a es) s' (sym held) (kept-IsExclusive s s' f g x))
    ]
go_on-IsExclusive has_key w now sent (leaving a) s at x =
    release-IsExclusive w a s (ap issuer_of at) x

shut_down-IsExclusive :
    (w : ℕ) (p : Phase) (s : State)
    → s.workers w ≡ p
    → IsExclusive s
    → IsExclusive (shut_down w p s)
shut_down-IsExclusive w (working a es) s at x =
    move-IsExclusive w (leaving a) s (sym (ap issuer_of at)) x
shut_down-IsExclusive w idle s at x = x
shut_down-IsExclusive w (taken t a) s at x = x
shut_down-IsExclusive w (leaving a) s at x = x

pub step-IsExclusive :
    (has_key : Address → Bool) (a : Action) (s : State)
    → IsExclusive s
    → IsExclusive (step has_key a s)
unfolding step
step-IsExclusive has_key (goes_on w now sent) s x =
    go_on-IsExclusive has_key w now sent (s.workers w) s refl x
step-IsExclusive has_key (shuts_down w) s x = shut_down-IsExclusive w (s.workers w) s refl x
step-IsExclusive has_key (schedules e) s x = kept-IsExclusive s _ refl refl x
step-IsExclusive has_key (deletes id) s x = kept-IsExclusive s _ refl refl x
step-IsExclusive has_key (removes id) s x = kept-IsExclusive s _ refl refl x

-- In whatever order the workers and the API take their steps, no two workers hold one issuer, and each
-- issuer that is held is marked as being processed; if that holds at the start.
pub run-IsExclusive :
    (has_key : Address → Bool) (actions : List Action) (s : State)
    → IsExclusive s
    → IsExclusive (run has_key actions s)
unfolding run
run-IsExclusive has_key [] s x = x
run-IsExclusive has_key (a ∷ rest) s x =
    run-IsExclusive has_key rest (step has_key a s) (step-IsExclusive has_key a s x)
