-- ===== src/Task/Schedule/Runnable.antt =====
-- The list of runnable tasks: no task is on it twice, and no running task is lost.
use docqos_old.Base.{
  ℕ, ◌+◌, ◌≤◌, ◌≡◌, refl, sym, ap, ◌∙◌, ◌≢◌, inl, inr, Bool, true, false, not, ◌&&◌, Option, none,
  some, List, [], ◌∷◌, ◌++◌, arith, ◌==◌, if◌then◌else◌, Bool-cases, Option-cases, List-cases,
}
use docqos_old.Task.Schedule.{
  TaskState, running, is_in, is_running, is_interruptible, Task, Scheduler, put, is_member,
  set_state, wake_up_task, exit_memory, finish_scheduling, take_memory, requeue, switch_to, choose,
  go_on, clear_need, pick, round,
}

-- How often a task is on a list.
abbrev pub copies : ℕ → List ℕ → ℕ
copies t [] = 0
copies t (u ∷ us) = (if u == t then 1 else 0) + copies t us

-- `localTimeInterrupt`
pub local_time_interrupt : Scheduler → Scheduler
local_time_interrupt s = record s {
  tasks = put s.current (record (s.tasks s.current) { need_schedule = true }) s.tasks;
}

-- A signal comes in for a task, or the last one is taken.
pub set_pending : ℕ → Bool → Scheduler → Scheduler
set_pending t p s = record s { tasks = put t (record (s.tasks t) { pending = p }) s.tasks }

-- What changes the scheduler: a call of wakeUpTask, a write of the current task to its own state, the
-- timer, signals, and a round of schedule.
pub data Step : Scheduler → Scheduler → Type 0 where
  wakes : (t : Option ℕ) (mask : ℕ) (s : Scheduler) → Step s (wake_up_task t mask s).1
  sets : (v : TaskState) (s : Scheduler) → Step s (set_state s.current v s)
  ticks : (s : Scheduler) → Step s (local_time_interrupt s)
  signals : (t : ℕ) (p : Bool) (s : Scheduler) → Step s (set_pending t p s)
  rounds : (stale : Option ℕ) (s : Scheduler) → Step s (round stale s).1

pub data Reachable (first : Scheduler) : Scheduler → Type 0 where
  begin : Reachable first first
  next : (s s' : Scheduler) → Reachable first s → Step s s' → Reachable first s'

-- The tasks that have to be on the list are on it, and none is on it twice.
pub record IsQueued (s : Scheduler) : Type 0 where
  pub once : (t : ℕ) → copies t s.runnable ≤ 1
  pub waiting_turn :
      (t : ℕ)
      → t ≢ s.current
      → t ≢ s.idle
      → is_running (s.tasks t).state ≡ true
      → 1 ≤ copies t s.runnable

is_member-copies : (t : ℕ) (us : List ℕ) → is_member t us ≡ true → 1 ≤ copies t us
is_member-copies t [] h = cc
is_member-copies t (u ∷ us) h = ground (arith, is_member-copies t us)

copies-is_member : (t : ℕ) (us : List ℕ) → is_member t us ≡ false → copies t us ≡ 0
copies-is_member t [] h = refl
copies-is_member t (u ∷ us) h = ground (arith, copies-is_member t us)

pub copies-append : (t : ℕ) (us vs : List ℕ) → copies t (us ++ vs) ≡ copies t us + copies t vs
copies-append t [] vs = omega arith
copies-append t (u ∷ us) vs = omega (arith, copies-append t us vs)

wakes-IsQueued :
    (t : Option ℕ) (mask : ℕ) (s : Scheduler) → IsQueued s → IsQueued (wake_up_task t mask s).1
unfolding wake_up_task set_state
wakes-IsQueued none mask s v = v
wakes-IsQueued (some t) mask s v =
    elim (Bool-cases (is_in (s.tasks t).state (if mask == 0 then 6 else mask))) [
      | inr stays ↦ rw stays v
      | inl goes ↦ rw goes (elim (Bool-cases (is_member t s.runnable)) [
        | inl on ↦ rw on (record {
          once = v.once;
          waiting_turn =
              λ u c i r. ground (arith, is_member-copies t s.runnable on, v.waiting_turn u c i);
        })
        | inr off ↦ rw off (record {
          once = λ u. ground (arith, copies-is_member t s.runnable off, v.once u);
          waiting_turn = λ u c i r. ground (arith, v.waiting_turn u c i);
        })
      ])
    ]

-- Two states with the same list, tasks' states, and current and idle task.
pub record IsAlike (s s' : Scheduler) : Type 0 where
  pub runnable : s'.runnable ≡ s.runnable
  pub current : s'.current ≡ s.current
  pub idle : s'.idle ≡ s.idle
  pub state : (t : ℕ) → (s'.tasks t).state ≡ (s.tasks t).state

along : (s s' : Scheduler) → IsAlike s s' → IsQueued s → IsQueued s'
along s s' a v = record {
  once = λ t. rw (a.runnable) (v.once t);
  waiting_turn = λ t c i r. rw (a.runnable) (
      v.waiting_turn t (λ e. c (e ∙ sym a.current)) (λ e. i (e ∙ sym a.idle))
        (sym (ap is_running (a.state t)) ∙ r));
}

exit_memory-IsAlike : (m : Option ℕ) (s : Scheduler) → IsAlike s (exit_memory m s)
unfolding exit_memory
exit_memory-IsAlike none s = record {
  runnable = refl;
  current = refl;
  idle = refl;
  state = λ t. refl;
}
exit_memory-IsAlike (some m) s = record {
  runnable = refl;
  current = refl;
  idle = refl;
  state = λ t. refl;
}

-- A write that keeps the state of the task that is written.
kept :
    (t u : ℕ) (w : Task) (s : Scheduler)
    → w.state ≡ (s.tasks t).state
    → (put t w s.tasks u).state ≡ (s.tasks u).state
kept t u w s e = ground arith

pub finish_scheduling-IsAlike : (from : ℕ) (s : Scheduler) → IsAlike s (finish_scheduling from s)
unfolding finish_scheduling exit_memory
finish_scheduling-IsAlike from s = elim (Option-cases (s.tasks from).mm) [
  | inr (m, e) ↦
      rw (finish_scheduling, e)
        (record { runnable = refl; current = refl; idle = refl; state = λ t. refl })
  | inl e ↦
      rw (finish_scheduling, e)
        (elim (Option-cases (s.tasks from).active_mm) [
          | inl a ↦ rw a (record {
            runnable = refl;
            current = refl;
            idle = refl;
            state = λ t. kept from t (record (s.tasks from) { active_mm = none }) s refl;
          })
          | inr (m, a) ↦ rw a (record {
            runnable = refl;
            current = refl;
            idle = refl;
            state = λ t. kept from t (record (s.tasks from) { active_mm = none }) s refl;
          })
        ])
]

pub take_memory-IsAlike : (prev to : ℕ) (s : Scheduler) → IsAlike s (take_memory prev to s)
unfolding take_memory
take_memory-IsAlike prev to s = elim (Option-cases (s.tasks to).mm) [
  | inl e ↦
      rw (take_memory, e)
        (record {
          runnable = refl;
          current = refl;
          idle = refl;
          state =
              λ t. kept to t (record (s.tasks to) { active_mm = (s.tasks prev).active_mm }) s refl;
        })
  | inr (m, e) ↦
      rw (take_memory, e)
        (record {
          runnable = refl;
          current = refl;
          idle = refl;
          state = λ t. kept to t (record (s.tasks to) { active_mm = some m }) s refl;
        })
]

-- As IsQueued, once the task that goes next is off the list.
record IsLeft (n : ℕ) (s : Scheduler) : Type 0 where
  once : (t : ℕ) → copies t s.runnable ≤ 1
  waiting_turn :
      (t : ℕ)
      → t ≢ n
      → t ≢ s.current
      → t ≢ s.idle
      → is_running (s.tasks t).state ≡ true
      → 1 ≤ copies t s.runnable

-- The state between two tasks: a task that gives the processor up stands in the queue.
requeue-IsQueued :
    (n : ℕ) (s : Scheduler)
    → IsLeft n s
    → IsQueued
        (record (set_state n running (record s { runnable = requeue s.current s })) { current = n })
unfolding requeue set_state
requeue-IsQueued n s v =
    elim (Bool-cases (
      not (s.current == s.idle)
      && (is_running (s.tasks s.current).state && not (is_member s.current s.runnable)))) [
        | inl adds ↦ rw adds (record {
          once = λ t. ground (
            arith,
            copies-append t s.runnable (s.current ∷ []),
            v.once t,
            copies-is_member s.current s.runnable,
          );
          waiting_turn = λ t c i r.
              ground (arith, copies-append t s.runnable (s.current ∷ []), v.waiting_turn t);
        })
        | inr leaves ↦ rw leaves (record {
          once = v.once;
          waiting_turn =
              λ t c i r. ground (arith, is_member-copies s.current s.runnable, v.waiting_turn t);
        })
      ]

switch_to-IsQueued : (n : ℕ) (s : Scheduler) → IsLeft n s → IsQueued (switch_to n s)
unfolding switch_to requeue take_memory set_state finish_scheduling
switch_to-IsQueued n s v =
    let queued = record s { runnable = requeue s.current s } in
    let taken = take_memory s.current n queued in
    let a = take_memory-IsAlike s.current n queued in
    let moved : IsAlike (record (set_state n running queued) { current = n })
        (record (set_state n running taken) { current = n }) =
      record {
        runnable = a.runnable;
        current = refl;
        idle = a.idle;
        state = λ t. ground (arith, a.state t, a.state n);
      } in
    along _ _
      (finish_scheduling-IsAlike s.current (record (set_state n running taken) { current = n }))
      (along _ _ moved (requeue-IsQueued n s v))

-- What choose takes off the list.
IsTaken : ℕ × List ℕ → Scheduler → Type 0
IsTaken (n, ts) s =
    (t : ℕ) → (copies t ts ≤ copies t s.runnable) × (t ≢ n → copies t s.runnable ≡ copies t ts)

choose-IsTaken : (stale : Option ℕ) (s : Scheduler) → IsTaken (choose stale s) s
unfolding choose IsTaken
choose-IsTaken stale s = elim (List-cases s.runnable) [
  | inr (u, us, e) ↦ rw (choose, e) (λ t. (omega arith, λ c. ground arith))
  | inl e ↦ elim (Option-cases stale) [
    | inl o ↦ rw (choose, e, o) (λ t. (omega arith, λ c. refl))
    | inr (u, o) ↦ rw (choose, e, o) (λ t. (omega arith, λ c. refl))
  ]
]

go_on-IsQueued :
    (p : ℕ × List ℕ) (s : Scheduler) → IsTaken p s → IsQueued s → IsQueued (go_on p s).1
unfolding go_on IsTaken
go_on-IsQueued (n, ts) s h v = elim (Bool-cases (n == s.current)) [
  | inl same ↦ rw same (record {
    once = λ t. omega (arith, (h t).0, v.once t);
    waiting_turn = λ t c i r. ground (arith, (h t).1, v.waiting_turn t c i r);
  })
  | inr other ↦ rw other (
      switch_to-IsQueued n (record s { runnable = ts })
        (record {
          once = λ t. omega (arith, (h t).0, v.once t);
          waiting_turn = λ t ne c i r. ground (arith, (h t).1 ne, v.waiting_turn t c i r);
        }))
]

-- A write of a task that keeps its state.
write-IsQueued :
    (t : ℕ) (w : Task) (s : Scheduler)
    → w.state ≡ (s.tasks t).state
    → IsQueued s
    → IsQueued (record s { tasks = put t w s.tasks })
write-IsQueued t w s e =
    along s (record s { tasks = put t w s.tasks })
      (record { runnable = refl; current = refl; idle = refl; state = λ u. kept t u w s e })

sets-IsQueued : (w : TaskState) (s : Scheduler) → IsQueued s → IsQueued (set_state s.current w s)
unfolding set_state
sets-IsQueued w s v = record {
  once = v.once;
  waiting_turn = λ t c i r. v.waiting_turn t c i (ground arith);
}

pick-IsQueued : (stale : Option ℕ) (s : Scheduler) → IsQueued s → IsQueued (pick stale s).1
unfolding pick choose go_on clear_need
pick-IsQueued stale s v =
    go_on-IsQueued (choose stale (clear_need s)) (clear_need s)
      (choose-IsTaken stale (clear_need s))
      (write-IsQueued s.current (record (s.tasks s.current) { need_schedule = false }) s refl v)

either-IsQueued :
    (b : Bool) (p q : Option ℕ × Scheduler)
    → IsQueued p.1
    → IsQueued q.1
    → IsQueued (if b then p else q).1
either-IsQueued true p q v w = v
either-IsQueued false p q v w = w

round-IsQueued : (stale : Option ℕ) (s : Scheduler) → IsQueued s → IsQueued (round stale s).1
unfolding round
round-IsQueued stale s v =
    let prev = s.tasks s.current in
    let woken = set_state s.current running s in
    let wv = sets-IsQueued running s v in
    let both =
      either-IsQueued prev.need_schedule (pick stale woken) (stale, woken)
        (pick-IsQueued stale woken wv) wv in
    either-IsQueued (is_interruptible prev.state && prev.pending)
      (if prev.need_schedule then pick stale woken else (stale, woken)) (pick stale s) both
      (pick-IsQueued stale s v)

Step-IsQueued : (s s' : Scheduler) → Step s s' → IsQueued s → IsQueued s'
unfolding local_time_interrupt set_pending
Step-IsQueued s s' (wakes t mask _) v = wakes-IsQueued t mask s v
Step-IsQueued s s' (sets w _) v = sets-IsQueued w s v
Step-IsQueued s s' (ticks _) v =
    write-IsQueued s.current (record (s.tasks s.current) { need_schedule = true }) s refl v
Step-IsQueued s s' (signals t p _) v =
    write-IsQueued t (record (s.tasks t) { pending = p }) s refl v
Step-IsQueued s s' (rounds n _) v = round-IsQueued n s v

-- However wake-ups, writes of the current task to its own state, ticks, signals and rounds of schedule
-- follow one another, a list of runnable tasks that starts with no task twice, and with every running
-- task but the current and the idle one, keeps both: no task is on it twice, and none that is running and
-- neither current nor idle is missing. This holds for any value that the variable `next` still has.
pub Reachable-IsQueued : (first s : Scheduler) → IsQueued first → Reachable first s → IsQueued s
Reachable-IsQueued first s v begin = v
Reachable-IsQueued first s v (next s0 _ r e) =
    Step-IsQueued s0 s e (Reachable-IsQueued first s0 v r)
