-- ===== src/Task/Schedule.antt =====
-- src/task/task.c: who runs next, and whose memory the processor uses. A task and a memory are their
-- addresses. A stretch with `runnableTaskLock` held or with interrupts closed is one step; `switchTo` is
-- the change of `current`. The rounds of one call of schedule are given one by one, each with what the
-- variable `next` held before it.
pub mod Runnable
pub mod Borrowing
pub mod Turns
mod Tests
use docqos_old.Base.{
  ℕ, ◌+◌, ◌-◌, ◌/◌, ◌%◌, Bool, true, false, not, ◌&&◌, Option, none, some, List, [], ◌∷◌, ◌++◌,
  ◌==◌, if◌then◌else◌,
}
use docqos_old.Base.Errno.{Ret, ok, err, einval}

pub data TaskState : Type 0 where
  running interruptible uninterruptible zombie stopping : TaskState

abbrev pub state_bit : TaskState → ℕ
state_bit running = 1
state_bit interruptible = 2
state_bit uninterruptible = 4
state_bit zombie = 8
state_bit stopping = 16

-- `task->state & state`
abbrev pub is_in : TaskState → ℕ → Bool
is_in s mask = (mask / state_bit s) % 2 == 1

-- `state == TaskRunning` and `state == TaskInterruptible`
abbrev pub is_running : TaskState → Bool
is_running s = state_bit s == 1

abbrev pub is_interruptible : TaskState → Bool
is_interruptible s = state_bit s == 2

-- What is read of `struct Task` here; `pending` is what taskSignalPending answers.
pub record Task : Type 0 where
  pub state : TaskState
  pub need_schedule : Bool
  pub pending : Bool
  pub mm : Option ℕ
  pub active_mm : Option ℕ

-- `runnableTaskList`, `idleTask`, the task on whose stack the processor is, and the fields `ref` of the
-- memories with those that were freed.
pub record Scheduler : Type 0 where
  pub tasks : ℕ → Task
  pub runnable : List ℕ
  pub idle : ℕ
  pub current : ℕ
  pub ref : ℕ → ℕ
  pub freed : List ℕ

abbrev pub put {ℓ} : {A : Type ℓ} → ℕ → A → (ℕ → A) → ℕ → A
put t v f u = if u == t then v else f u

abbrev pub is_member : ℕ → List ℕ → Bool
is_member t [] = false
is_member t (u ∷ us) = let rest = is_member t us in if u == t then true else rest

pub set_state : ℕ → TaskState → Scheduler → Scheduler
set_state t v s = record s { tasks = put t (record (s.tasks t) { state = v }) s.tasks }

-- `wakeUpTask`
pub wake_up_task : Option ℕ → ℕ → Scheduler → Ret × Scheduler
unfolding set_state
wake_up_task none mask s = (err einval, s)
wake_up_task (some t) mask s =
    if is_in (s.tasks t).state (if mask == 0 then 6 else mask)
    then (
      ok 0,
      record (set_state t running s) {
        runnable = if is_member t s.runnable then s.runnable else t ∷ s.runnable;
      },
    )
    else (err einval, s)

-- `taskForkMemory` with ForkShareMemory: the memory, and the counts.
abbrev pub share_memory : Option ℕ → (ℕ → ℕ) → ℕ → ℕ
share_memory none ref = ref
share_memory (some m) ref = put m (ref m + 1) ref

-- `taskExitMemory`, less the wait of a fork.
pub exit_memory : Option ℕ → Scheduler → Scheduler
exit_memory none s = s
exit_memory (some m) s = record s {
  ref = put m (s.ref m - 1) s.ref;
  freed = if s.ref m - 1 == 0 then m ∷ s.freed else s.freed;
}

-- `finishScheduling`
pub finish_scheduling : ℕ → Scheduler → Scheduler
unfolding exit_memory
finish_scheduling from s = elim (s.tasks from).mm [
  | none ↦
      let s' = exit_memory (s.tasks from).active_mm s in
      record s' { tasks = put from (record (s'.tasks from) { active_mm = none }) s'.tasks }
  | some m ↦ s
]

-- The memory that `next` goes on with, and the counts, when `prev` gives up the processor.
pub take_memory : ℕ → ℕ → Scheduler → Scheduler
take_memory prev next s = elim (s.tasks next).mm [
  | none ↦ record s {
    tasks = put next (record (s.tasks next) { active_mm = (s.tasks prev).active_mm }) s.tasks;
    ref = share_memory (s.tasks prev).active_mm s.ref;
  }
  | some m ↦ record s { tasks = put next (record (s.tasks next) { active_mm = some m }) s.tasks }
]

-- From the test of the previous task on, to another task.
pub requeue : ℕ → Scheduler → List ℕ
requeue prev s =
    if not (prev == s.idle) && (is_running (s.tasks prev).state && not (is_member prev s.runnable))
    then s.runnable ++ (prev ∷ [])
    else s.runnable

pub switch_to : ℕ → Scheduler → Scheduler
unfolding requeue take_memory set_state finish_scheduling
switch_to next s =
    let queued = record s { runnable = requeue s.current s } in
    let taken = take_memory s.current next queued in
    finish_scheduling s.current (record (set_state next running taken) { current = next })

-- The choice of the next task, and the list without it.
pub choose : Option ℕ → Scheduler → ℕ × List ℕ
choose next s = elim s.runnable [
  | t ∷ ts ↦ (t, ts)
  | [] ↦ elim next [
    | some t ↦ (t, [])
    | none ↦ (if is_running (s.tasks s.current).state then s.current else s.idle, [])
  ]
]

-- From the choice to the end of a round.
pub go_on : ℕ × List ℕ → Scheduler → Option ℕ × Scheduler
unfolding switch_to
go_on (n, ts) s =
    let taken = record s { runnable = ts } in
    (some n, if n == s.current then taken else switch_to n taken)

pub clear_need : Scheduler → Scheduler
clear_need s = record s {
  tasks = put s.current (record (s.tasks s.current) { need_schedule = false }) s.tasks;
}

-- From `prev->needSchedule = 0` on: `next`, and the state.
pub pick : Option ℕ → Scheduler → Option ℕ × Scheduler
unfolding choose go_on clear_need
pick next s = let cleared = clear_need s in go_on (choose next cleared) cleared

-- A round of schedule.
pub round : Option ℕ → Scheduler → Option ℕ × Scheduler
unfolding pick set_state
round next s =
    let prev = s.tasks s.current in
    let woken = set_state s.current running s in
    if is_interruptible prev.state && prev.pending
    then if prev.need_schedule then pick next woken else (next, woken)
    else pick next s
