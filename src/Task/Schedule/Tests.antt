-- ===== src/Task/Schedule/Tests.antt =====
-- Runs of the scheduler on a few tasks.
use docqos_old.Base.{ℕ, ◌≡◌, refl, false, Option, none, some, [], ◌∷◌, arith, ◌==◌, if◌then◌else◌}
use docqos_old.Task.Schedule.{
  TaskState, running, interruptible, uninterruptible, Task, Scheduler, wake_up_task, round,
  switch_to,
}
use docqos_old.Task.Schedule.Runnable.{begin, next, wakes, rounds, IsQueued, Reachable-IsQueued}
use docqos_old.Task.Schedule.Borrowing.{HandsOver, switch_to-HandsOver}
use docqos_old.Task.Schedule.Turns.{calls, calls-current}

abbrev a_task : TaskState → Option ℕ → Option ℕ → Task
a_task v mm active = record {
  state = v;
  need_schedule = false;
  pending = false;
  mm = mm;
  active_mm = active;
}

-- The idle task 0 runs on the memory 50 of the task 1 before it; the tasks 1 and 2 sleep.
abbrev at_rest : Scheduler
at_rest = record {
  tasks = λ t.
      if t == 0
      then a_task running none (some 50)
      else if t == 1
      then a_task interruptible (some 50) (some 50)
      else a_task uninterruptible none none;
  runnable = [];
  idle = 0;
  current = 0;
  ref = λ m. 2;
  freed = [];
}

abbrev woken : Scheduler
woken = (wake_up_task (some 1) 0 at_rest).1

abbrev both : Scheduler
both = (wake_up_task (some 2) 4 woken).1

at_rest-IsQueued : IsQueued at_rest
at_rest-IsQueued = record { once = λ t. omega arith; waiting_turn = λ t c i r. ground arith }

-- The task that was woken last is first on the list.
queue : both.runnable ≡ 2 ∷ 1 ∷ []
unfolding wake_up_task
queue = refl

after_one : (round none both).1.current ≡ 2
unfolding wake_up_task round
after_one = refl

Reachable-IsQueued_example : IsQueued (round none both).1
Reachable-IsQueued_example = Reachable-IsQueued at_rest (round none both).1 at_rest-IsQueued (
    next both _
      (next woken _ (next at_rest _ begin (wakes (some 1) 0 at_rest)) (wakes (some 2) 4 woken))
      (rounds none both))

-- The idle task gives its memory back to the task 1.
switch_to-HandsOver_example : HandsOver 1 at_rest (switch_to 1 at_rest)
switch_to-HandsOver_example = switch_to-HandsOver 1 at_rest (λ q. omega arith) (λ m. ground arith)

-- The tasks 2 and 1 wait; the task 1 is reached with the second call.
abbrev queued : Scheduler
queued = record at_rest {
  tasks = λ t. if t == 0 then a_task running none none else a_task running (some t) (some t);
  runnable = 2 ∷ 1 ∷ [];
}

calls-current_example : (calls 2 queued).current ≡ 1
calls-current_example =
    calls-current 1 1 queued (record { once = λ t. ground arith; away = refl; gives_up = refl })
      refl
