-- ===== src/Task/Family/Fork/Tests.antt =====
-- Runs of doFork, doExit and doWaitPID on a few tasks.
use docqos_old.Base.{ℕ, ◌≤◌, ◌≡◌, refl, false, none, some, [], ◌∷◌, arith, ◌==◌, if◌then◌else◌}
use docqos_old.Base.Errno.{ok, err, enomem}
use docqos_old.Task.Schedule.{running}
use docqos_old.Task.Schedule.Runnable.{copies}
use docqos_old.Task.Family.{
  Task, System, create_task, do_exit, write, good, bad, wanted, wait_pass, look_for_task_by_pid,
}
use docqos_old.Task.Family.Kinship.{IsFamily, state_of}
use docqos_old.Task.Family.Reaping.{Collects, wait_pass-do_exit}
use docqos_old.Task.Family.Fork.{Held, do_fork, gather, bear}
use docqos_old.Task.Family.Fork.Failing.{Undone, do_fork-Undone}
use docqos_old.Task.Family.Fork.Lives.{begin, next, forks, exits, Reachable-IsFamily}

abbrev a_task : ℕ → Task
a_task t = record {
  pid = t;
  state = running;
  parent = if t == 2 then some 1 else none;
  children = if t == 1 then 2 ∷ [] else [];
  waiting = t == 1;
  exit_code = 0;
  mm = none;
  active_mm = none;
  fs = some 7;
  files = some 8;
  sig = none;
  address_limit = 0;
}

-- The task 1 has the child 2.
abbrev two : System
two = record { tasks = a_task; all = 1 ∷ 2 ∷ []; next_pid = 3; freed = []; calls = [] }

abbrev given : Held
given = record { mm = none; fs = some 7; files = some 8; sig = none }

abbrev no_files : Held
no_files = record { mm = none; fs = some 7; files = none; sig = none }

two-IsFamily : IsFamily two
two-IsFamily = record {
  once = λ t. ground arith;
  listed = λ p c h. ground arith;
  only = λ p c h. ground arith;
  alive = λ p c h. ground arith;
  childless = λ p c o z. ground arith;
}

fork_result : (do_fork 2 3 0 given two).0 ≡ ok 3
unfolding do_fork gather create_task
fork_result = refl

found : look_for_task_by_pid 0 2 two (1 ∷ 2 ∷ []) ≡ 2
unfolding look_for_task_by_pid
found = refl

-- A fault leaves the child on the list of all tasks, and on no other.
fault_loses :
    ((state_of (wait_pass 1 2 bad false (do_exit 2 1 9 two))).all ≡ 1 ∷ 2 ∷ [])
    × (((state_of (wait_pass 1 2 bad false (do_exit 2 1 9 two))).tasks 1).children ≡ [])
unfolding wait_pass do_exit wanted
fault_loses = (refl, refl)

fork_fails : (do_fork 2 3 0 no_files two).0 ≡ err enomem
unfolding do_fork gather create_task
fork_fails = refl

fork_lists : 1 ≤ copies 2 (do_fork 2 3 0 given two).1.all
unfolding do_fork gather bear create_task write
fork_lists = omega arith

fork_keeps_parent : ((do_fork 2 3 0 given two).1.tasks 2).parent ≡ some 1
unfolding do_fork gather bear create_task write
fork_keeps_parent = refl

do_fork-Undone_example : Undone 2 3 no_files two (do_fork 2 3 0 no_files two).1
do_fork-Undone_example = do_fork-Undone 2 3 0 no_files two (λ e. omega arith) refl fork_fails

wait_pass-do_exit_example : Collects 2 9 2 (wait_pass 1 2 good false (do_exit 2 1 9 two))
wait_pass-do_exit_example =
    wait_pass-do_exit 2 1 9 false two two-IsFamily (λ e. omega arith) (omega arith) refl
      (omega arith) (λ t h e. e)

-- The task 2 forks 3, and exits.
Reachable-IsFamily_example : IsFamily (do_exit 2 1 9 (do_fork 2 3 0 given two).1)
Reachable-IsFamily_example =
    Reachable-IsFamily two (do_exit 2 1 9 (do_fork 2 3 0 given two).1) two-IsFamily (
      next _ _ (next _ _ begin (forks 2 3 0 given two refl (omega arith) refl))
        (exits 2 1 9 (do_fork 2 3 0 given two).1 (λ e. omega arith) fork_lists fork_keeps_parent))
