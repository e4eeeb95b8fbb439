-- ===== src/Task/Semaphore/Interrupted.antt =====
-- A wait that a signal ends.
use docqos_old.Base.{ℕ, ◌-◌, ◌^◌, ◌≡◌, refl, arith}
use docqos_old.Task.Semaphore.Exclusion.{IsBalanced}
use docqos_old.Task.Semaphore.{
  down, try_again, enter, give_up, System, downs, enters, signalled, after_down, after_round,
  step_from,
}

-- A signal that ends the only wait breaks the exclusion, in any balanced state that has a holder, none
-- arriving, one waiting and `sleepers` at 1: the count goes back up but `sleepers` stays 1, so that the next
-- task to call downSemaphore, and to run its first round, gets in beside the holder.
pub signalled-two :
    (tasks : ℕ) (s : System)
    → IsBalanced tasks s
    → s.holding ≡ 1
    → s.arriving ≡ 0
    → s.waiting ≡ 1
    → s.semaphore.sleepers ≡ 1
    → (step_from enters (step_from downs (step_from signalled s))).holding ≡ 2
unfolding step_from down enter try_again after_down after_round give_up
signalled-two tasks s v h a w sl =
    let c : s.semaphore.count ≡ 2 ^ 32 - 1 = omega (arith, v.sum, v.count_in) in
    rw (w, c, sl, h) refl
