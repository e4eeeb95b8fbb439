-- ===== src/Task/Semaphore/Exclusion.antt =====
-- Mutual exclusion of the waits that no signal ends.
use docqos_old.Base.{
  ℕ, ◌+◌, ◌-◌, ◌%◌, ◌^◌, ◌≤◌, ◌<◌, ◌≡◌, refl, ◌≢◌, inl, inr, true, none, some, arith, ltb, ◌==◌,
  Bool-cases,
}
use mathlib.Core.Path.{subst}
use mathlib.Core.Option.{some-injective}
use docqos_old.Task.Semaphore.{
  is_natural, Semaphore, init_semaphore, down, try_again, enter, up, System, Event, downs, enters,
  retries, ups, signalled, start, after_down, after_round, step_from, standing, step,
}

-- The states that the tasks reach when no wait is ended by a signal.
pub data Reachable (tasks : ℕ) : System → Type 0 where
  begin : Reachable tasks (start tasks)
  next :
      (e : Event) (s s' : System)
      → Reachable tasks s
      → e ≢ signalled
      → step e s ≡ some s'
      → Reachable tasks s'

-- What count and sleepers add up to with the tasks that hold the semaphore or arrive at it.
pub record IsBalanced (tasks : ℕ) (s : System) : Type 0 where
  pub total : s.idle + s.arriving + s.waiting + s.holding ≡ tasks
  pub sum : (s.semaphore.count + s.holding + s.arriving + s.semaphore.sleepers) % 2 ^ 32 ≡ 1
  pub count_in : s.semaphore.count < 2 ^ 32
  pub one_sleeper : s.semaphore.sleepers ≤ 1
  pub exclusive : s.holding ≤ 1

module _ (tasks : ℕ) (few : tasks < 2 ^ 30) where
  downs-IsBalanced :
      (s : System) → 0 < s.idle → IsBalanced tasks s → IsBalanced tasks (step_from downs s)
  unfolding step_from down after_down
  downs-IsBalanced s h v =
      let total = v.total in
      let sum = v.sum in
      let count_in = v.count_in in
      let one_sleeper = v.one_sleeper in
      let exclusive = v.exclusive in
      elim (Bool-cases (ltb ((s.semaphore.count + (2 ^ 32 - 1)) % 2 ^ 32) (2 ^ 31))) [
        | inl at ↦
            let small : (s.semaphore.count + (2 ^ 32 - 1)) % 2 ^ 32 < 2 ^ 31 = ground arith in
            rw at (record {
              total = omega arith;
              sum = omega arith;
              count_in = omega arith;
              one_sleeper = one_sleeper;
              exclusive = omega arith;
            })
        | inr at ↦ rw at (record {
          total = omega arith;
          sum = omega arith;
          count_in = omega arith;
          one_sleeper = one_sleeper;
          exclusive = exclusive;
        })
      ]

  -- One round of the loop, by a task that has left its place.
  round-IsBalanced :
      (s : System) (m : Semaphore)
      → s.idle + s.arriving + s.waiting + s.holding + 1 ≡ tasks
      → (m.count + s.holding + s.arriving + m.sleepers) % 2 ^ 32 ≡ 1
      → m.count < 2 ^ 32
      → m.sleepers ≤ 2
      → s.holding ≤ 1
      → IsBalanced tasks (after_round s (try_again m))
  unfolding try_again after_round
  round-IsBalanced s m total sum count_in le exclusive =
      elim (Bool-cases (ltb ((m.count + (m.sleepers + (2 ^ 32 - 1)) % 2 ^ 32) % 2 ^ 32) (2 ^ 31))) [
        | inl at ↦
            let small : (m.count + (m.sleepers + (2 ^ 32 - 1)) % 2 ^ 32) % 2 ^ 32 < 2 ^ 31 =
              ground arith in
            rw at (record {
              total = omega arith;
              sum = omega arith;
              count_in = omega arith;
              one_sleeper = omega arith;
              exclusive = omega arith;
            })
        | inr at ↦ rw at (record {
          total = omega arith;
          sum = omega arith;
          count_in = omega arith;
          one_sleeper = omega arith;
          exclusive = exclusive;
        })
      ]

  enters-IsBalanced :
      (s : System) → 0 < s.arriving → IsBalanced tasks s → IsBalanced tasks (step_from enters s)
  unfolding step_from enter
  enters-IsBalanced s h v =
      round-IsBalanced (record s { arriving = s.arriving - 1 })
        (record s.semaphore { sleepers = (s.semaphore.sleepers + 1) % 2 ^ 32 })
        (omega (arith, v.total)) (omega (arith, v.sum, v.one_sleeper)) v.count_in
        (omega (arith, v.one_sleeper)) v.exclusive

  retries-IsBalanced :
      (s : System) → 0 < s.waiting → IsBalanced tasks s → IsBalanced tasks (step_from retries s)
  unfolding step_from
  retries-IsBalanced s h v =
      round-IsBalanced (record s { waiting = s.waiting - 1 }) s.semaphore (omega (arith, v.total))
        v.sum v.count_in (omega (arith, v.one_sleeper)) v.exclusive

  ups-IsBalanced :
      (s : System) → 0 < s.holding → IsBalanced tasks s → IsBalanced tasks (step_from ups s)
  unfolding step_from up
  ups-IsBalanced s h v =
      let total = v.total in
      let sum = v.sum in
      let count_in = v.count_in in
      let exclusive = v.exclusive in
      record {
        total = omega arith;
        sum = omega arith;
        count_in = omega arith;
        one_sleeper = v.one_sleeper;
        exclusive = omega arith;
      }

  start-IsBalanced : IsBalanced tasks (start tasks)
  unfolding start init_semaphore
  start-IsBalanced = record {
    total = omega arith;
    sum = refl;
    count_in = omega arith;
    one_sleeper = omega arith;
    exclusive = omega arith;
  }

  step_from-IsBalanced :
      (e : Event) (s : System)
      → e ≢ signalled
      → 0 < standing e s
      → IsBalanced tasks s
      → IsBalanced tasks (step_from e s)
  unfolding standing
  step_from-IsBalanced downs s q h v = downs-IsBalanced s h v
  step_from-IsBalanced enters s q h v = enters-IsBalanced s h v
  step_from-IsBalanced retries s q h v = retries-IsBalanced s h v
  step_from-IsBalanced ups s q h v = ups-IsBalanced s h v
  step_from-IsBalanced signalled s q h v = absurd (q refl)

  step-IsBalanced :
      (e : Event) (s s' : System)
      → e ≢ signalled
      → step e s ≡ some s'
      → IsBalanced tasks s
      → IsBalanced tasks s'
  unfolding step
  step-IsBalanced e s s' q run v = elim (Bool-cases (standing e s == 0)) [
    | inl nobody ↦ let stuck : none ≡ some s' = rw nobody at run in absurd (cc)
    | inr somebody ↦
        let done : some (step_from e s) ≡ some s' = rw somebody at run in
        subst (IsBalanced tasks) (some-injective _ _ done)
          (step_from-IsBalanced e s q (ground arith) v)
  ]

  -- Whatever fewer than 2 ^ 30 tasks do in whatever order, as long as no signal ends a wait: at most one of
  -- them holds the semaphore, no task is lost, and count, sleepers, holders and arrivals add up to one.
  pub Reachable-IsBalanced : (s : System) → Reachable tasks s → IsBalanced tasks s
  Reachable-IsBalanced s begin = start-IsBalanced
  Reachable-IsBalanced s (next e r s' reached q run) =
      step-IsBalanced e r s q run (Reachable-IsBalanced r reached)

  -- No task waits for nothing: when upSemaphore releases the semaphore and no task is arriving, it finds a
  -- count that is not negative, which is when it wakes a waiting task, and a round of the loop then takes
  -- the semaphore.
  pub ups-enters :
      (s : System)
      → Reachable tasks s
      → 0 < s.holding
      → s.arriving ≡ 0
      → (is_natural (up s.semaphore).count ≡ true) × ((try_again (up s.semaphore)).0 ≡ true)
  unfolding up try_again is_natural
  ups-enters s r h a =
      let v = Reachable-IsBalanced s r in
      let c : (s.semaphore.count + 1) % 2 ^ 32 + s.semaphore.sleepers ≡ 1 =
        omega (arith, v.sum, v.exclusive, v.one_sleeper, v.count_in) in
      let small : ltb ((s.semaphore.count + 1) % 2 ^ 32) (2 ^ 31) ≡ true = ground arith in
      let zero_left : ((s.semaphore.count + 1) % 2 ^ 32
              + (s.semaphore.sleepers + (2 ^ 32 - 1)) % 2 ^ 32)
            % 2 ^ 32
          ≡ 0 =
        omega (arith, c) in
      (small, rw zero_left refl)
