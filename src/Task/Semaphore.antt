-- ===== src/Task/Semaphore.antt =====
-- src/task/semaphore.c: the semaphore, and the tasks that use it. Each atomic operation and each stretch
-- under the queue's lock is one step. An `int` is read as unsigned, so that `>= 0` is the test against
-- 2 ^ 31. The tasks are counted by where they stand; the wait queue is how many are in it.
pub mod Exclusion
pub mod Interrupted
mod Tests
use docqos_old.Base.{
  ℕ, zero, suc, ◌+◌, ◌-◌, ◌%◌, ◌^◌, Bool, true, false, Option, none, some, List, [], ◌∷◌, ltb, ◌==◌,
  if◌then◌else◌,
}

abbrev pub int_add : ℕ → ℕ → ℕ
int_add a b = (a + b) % 2 ^ 32

abbrev pub minus_one : ℕ
minus_one = 2 ^ 32 - 1

abbrev pub is_natural : ℕ → Bool
is_natural n = ltb n (2 ^ 31)

-- `struct Semaphore`, less the queue.
pub record Semaphore : Type 0 where
  pub count : ℕ
  pub sleepers : ℕ

-- `initSemaphore`
pub init_semaphore : Semaphore
init_semaphore = record { count = 1; sleepers = 0 }

-- The start of downSemaphore: whether it returns at once.
pub down : Semaphore → Bool × Semaphore
down m = let c = int_add m.count minus_one in (is_natural c, record m { count = c })

-- A round of the loop of downSemaphore: whether it is the last.
pub try_again : Semaphore → Bool × Semaphore
try_again m =
    let c = int_add m.count (int_add m.sleepers minus_one) in
    if is_natural c
    then (true, record { count = c; sleepers = 0 })
    else (false, record { count = c; sleepers = 1 })

-- The first round, after `++sem->sleepers`.
pub enter : Semaphore → Bool × Semaphore
enter m = try_again (record m { sleepers = int_add m.sleepers 1 })

-- `upSemaphore`, less the call of wakeUp.
pub up : Semaphore → Semaphore
up m = record m { count = int_add m.count 1 }

-- The end of downSemaphoreInterruptible with a signal; `others` is how many are left in the queue.
pub give_up : ℕ → Semaphore → Semaphore
give_up others m = if others == 0 then record m { count = int_add m.count 1 } else m

-- The semaphore, and how many tasks do not use it, stand between the start of downSemaphore and its
-- loop, wait in the queue, or hold it.
pub record System : Type 0 where
  pub semaphore : Semaphore
  pub idle : ℕ
  pub arriving : ℕ
  pub waiting : ℕ
  pub holding : ℕ

pub data Event : Type 0 where
  downs : Event
  enters : Event
  retries : Event
  ups : Event
  signalled : Event

pub start : ℕ → System
start tasks = record {
  semaphore = init_semaphore;
  idle = tasks;
  arriving = 0;
  waiting = 0;
  holding = 0;
}

-- A task leaves one place for the critical section, or for the place that it waits at.
pub after_down : System → Bool × Semaphore → System
after_down s (true, m) = record s { semaphore = m; holding = s.holding + 1 }
after_down s (false, m) = record s { semaphore = m; arriving = s.arriving + 1 }

pub after_round : System → Bool × Semaphore → System
after_round s (true, m) = record s { semaphore = m; holding = s.holding + 1 }
after_round s (false, m) = record s { semaphore = m; waiting = s.waiting + 1 }

-- A step of one task; `none` when no task stands where the step begins. Only a holder calls upSemaphore,
-- and any waiting task may run a round.
pub step_from : Event → System → System
step_from downs s = after_down (record s { idle = s.idle - 1 }) (down s.semaphore)
step_from enters s = after_round (record s { arriving = s.arriving - 1 }) (enter s.semaphore)
step_from retries s = after_round (record s { waiting = s.waiting - 1 }) (try_again s.semaphore)
step_from ups s = record s {
  semaphore = up s.semaphore;
  holding = s.holding - 1;
  idle = s.idle + 1;
}
step_from signalled s = record s {
  semaphore = give_up (s.waiting - 1) s.semaphore;
  waiting = s.waiting - 1;
  idle = s.idle + 1;
}

pub standing : Event → System → ℕ
standing downs s = s.idle
standing enters s = s.arriving
standing retries s = s.waiting
standing ups s = s.holding
standing signalled s = s.waiting

pub step : Event → System → Option System
step e s = if standing e s == 0 then none else some (step_from e s)
