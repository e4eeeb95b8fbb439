-- ===== src/Task/Semaphore/Tests.antt =====
-- The semaphore in concrete states.
use docqos_old.Base.{◌≡◌, refl, arith}
use docqos_old.Task.Semaphore.{
  is_natural, init_semaphore, down, try_again, enter, System, downs, enters, signalled, start,
  after_down, after_round, step_from, standing, step,
}
use docqos_old.Task.Semaphore.Exclusion.{Reachable, begin, next, IsBalanced, Reachable-IsBalanced}
use docqos_old.Task.Semaphore.Interrupted.{signalled-two}

-- Of three tasks one holds the semaphore, one waits.
abbrev contended : System
contended = record {
  semaphore = record { count = 4294967295; sleepers = 1 };
  idle = 1;
  arriving = 0;
  waiting = 1;
  holding = 1;
}

contended-Reachable : Reachable 3 contended
unfolding step start init_semaphore standing step_from down enter try_again after_down after_round
    is_natural
contended-Reachable =
    next enters _ contended
      (next downs _
        (record {
          semaphore = record { count = 4294967295; sleepers = 0 };
          idle = 1;
          arriving = 1;
          waiting = 0;
          holding = 1;
        })
        (next downs _
          (record {
            semaphore = record { count = 0; sleepers = 0 };
            idle = 2;
            arriving = 0;
            waiting = 0;
            holding = 1;
          })
          begin (λ e. absurd (cc)) refl)
        (λ e. absurd (cc)) refl)
      (λ e. absurd (cc)) refl

Reachable-IsBalanced_example : IsBalanced 3 contended
Reachable-IsBalanced_example = Reachable-IsBalanced 3 (omega arith) contended contended-Reachable

signalled-two_example :
    (step_from enters (step_from downs (step_from signalled contended))).holding ≡ 2
signalled-two_example =
    signalled-two 3 contended (Reachable-IsBalanced 3 (omega arith) contended contended-Reachable)
      refl refl refl refl
