-- ===== src/Task/Schedule/Turns.antt =====
-- How long a task of the list waits for the processor.
use docqos_old.Base.{
  ℕ, zero, suc, ◌≤◌, ◌≡◌, refl, sym, ap, ◌∙◌, ◌≢◌, inl, inr, false, not, ◌&&◌, none, some, List, [],
  ◌∷◌, ◌++◌, arith, ◌==◌, if◌then◌else◌, get_elem?, Bool-cases, List-cases,
}
use mathlib.Core.Option.{none-ne-some, some-injective}
use mathlib.Core.List.{append-nil}
use docqos_old.Task.Schedule.{
  running, is_running, is_interruptible, Scheduler, is_member, set_state, take_memory, requeue,
  switch_to, choose, go_on, clear_need, pick, round,
}
use docqos_old.Task.Schedule.Runnable.{
  copies, copies-append, finish_scheduling-IsAlike, take_memory-IsAlike,
}

-- Calls of schedule one after another, each of the task that the last one chose.
unfoldable pub calls : ℕ → Scheduler → Scheduler
calls zero s = s
calls (suc k) s = calls k (round none s).1

-- The current task is on no list, no task is on it twice, and no signal ends the wait of the current one.
pub record IsOrderly (s : Scheduler) : Type 0 where
  pub once : (t : ℕ) → copies t s.runnable ≤ 1
  pub away : copies s.current s.runnable ≡ 0
  pub gives_up : (is_interruptible (s.tasks s.current).state && (s.tasks s.current).pending) ≡ false

-- A call when the list starts with `t`.
record Turned (t : ℕ) (ts : List ℕ) (s s' : Scheduler) : Type 0 where
  current : s'.current ≡ t
  state : (s'.tasks t).state ≡ running
  rest :
      (us : List ℕ) × (s'.runnable ≡ ts ++ us)
      × ((u : ℕ) → copies u us ≤ (if s.current == u then 1 else 0))

requeue-rest :
    (prev : ℕ) (s : Scheduler)
    → (us : List ℕ) × (requeue prev s ≡ s.runnable ++ us)
      × ((u : ℕ) → copies u us ≤ (if prev == u then 1 else 0))
unfolding requeue
requeue-rest prev s =
    elim (Bool-cases (
      not (prev == s.idle)
      && (is_running (s.tasks prev).state && not (is_member prev s.runnable)))) [
        | inl adds ↦ rw adds (prev ∷ [], refl, λ u. omega arith)
        | inr stays ↦ rw stays ([], sym (append-nil s.runnable), λ u. omega arith)
      ]

switch_to-Turned : (t : ℕ) (s : Scheduler) → Turned t s.runnable s (switch_to t s)
unfolding switch_to set_state
switch_to-Turned t s =
    let queued = record s { runnable = requeue s.current s } in
    let taken = take_memory s.current t queued in
    let a = take_memory-IsAlike s.current t queued in
    let f =
      finish_scheduling-IsAlike s.current (record (set_state t running taken) { current = t }) in
    let (us, e, few) = requeue-rest s.current s in
    record {
      current = f.current;
      state = f.state t ∙ ground arith;
      rest = (us, f.runnable ∙ a.runnable ∙ e, few);
    }

round-Turned :
    (t : ℕ) (ts : List ℕ) (s : Scheduler)
    → s.runnable ≡ t ∷ ts
    → t ≢ s.current
    → (is_interruptible (s.tasks s.current).state && (s.tasks s.current).pending) ≡ false
    → Turned t ts s (round none s).1
unfolding round pick choose go_on clear_need
round-Turned t ts s e ne calm =
    let other : (t == s.current) ≡ false = ground arith in
    let chosen = record (clear_need s) { runnable = ts } in
    let r = switch_to-Turned t chosen in
    rw (round, calm, e, other) (record { current = r.current; state = r.state; rest = r.rest })

Turned-IsOrderly :
    (t : ℕ) (ts : List ℕ) (s s' : Scheduler)
    → s.runnable ≡ t ∷ ts
    → IsOrderly s
    → Turned t ts s s'
    → IsOrderly s'
Turned-IsOrderly t ts s s' e v r =
    let (us, f, few) = r.rest in
    record {
      once = λ u. rw f (ground (arith, copies-append u ts us, v.once u, v.away, few u, e));
      away = rw (f, r.current) (ground (arith, copies-append t ts us, v.once t, v.away, few t, e));
      gives_up = rw (r.current, r.state) refl;
    }

get_elem?-append :
    (us vs : List ℕ) (k t : ℕ) → get_elem? us k ≡ some t → get_elem? (us ++ vs) k ≡ some t
get_elem?-append [] vs k t h = cc
get_elem?-append (u ∷ us) vs zero t h = h
get_elem?-append (u ∷ us) vs (suc k) t h = get_elem?-append us vs k t h

-- The first of the list is another task than the current one.
no_place : (k t : ℕ) (us : List ℕ) → us ≡ [] → get_elem? us k ≢ some t
no_place k t us e h = none-ne-some _ (sym (ap (λ (ws : List ℕ). get_elem? ws k) e) ∙ h)

first-ne : (u : ℕ) (us : List ℕ) (s : Scheduler) → s.runnable ≡ u ∷ us → IsOrderly s → u ≢ s.current
first-ne u us s e v q = ground (arith, v.away, e, q)

-- From a state whose list holds no task twice and not the current one, and whose current task is not one
-- that waits with a signal pending: the task at place `k` of the list has the processor after `k + 1`
-- calls of schedule, when nothing else happens between them.
pub calls-current :
    (k t : ℕ) (s : Scheduler)
    → IsOrderly s
    → get_elem? s.runnable k ≡ some t
    → (calls (suc k) s).current ≡ t
unfolding calls
calls-current zero t s v h = elim (List-cases s.runnable) [
  | inl e ↦ absurd (no_place zero t s.runnable e h)
  | inr (u, us, e) ↦
      let r = round-Turned u us s e (first-ne u us s e v) v.gives_up in
      r.current ∙ some-injective _ _ (ap (λ (ws : List ℕ). get_elem? ws zero) (sym e) ∙ h)
]
calls-current (suc k) t s v h = elim (List-cases s.runnable) [
  | inl e ↦ absurd (no_place (suc k) t s.runnable e h)
  | inr (u, us, e) ↦
      let r = round-Turned u us s e (first-ne u us s e v) v.gives_up in
      let (vs, f, few) = r.rest in
      let later = Turned-IsOrderly u us s (round none s).1 e v r in
      calls-current k t (round none s).1 later (
        ap (λ (ws : List ℕ). get_elem? ws k) f
        ∙ get_elem?-append us vs k t (ap (λ (ws : List ℕ). get_elem? ws (suc k)) (sym e) ∙ h))
]
