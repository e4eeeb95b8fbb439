-- ===== src/Time/Timers/Firing.antt =====
-- What the timer interrupt fires.
use docqos_old.Base.{
  ℕ, zero, suc, ◌+◌, ◌%◌, ◌^◌, ◌≤◌, ◌<◌, ◌≡◌, refl, inl, inr, true, false, some, List, [], ◌∷◌,
  arith, ltb, leb, Bool-cases, All, filter, length,
}
use mathlib.Core.Path.{subst}
use docqos_old.Time.Timers.{Timer, State, next_due, fire, time_interrupt}
use docqos_old.Time.Timers.Sorting.{Sorted}

-- How many timers of the list are due.
abbrev pub due_count : ℕ → List Timer → ℕ
due_count now ts = length (filter (λ t. leb t.ticks now) ts)

-- What a callback may do: the counter stands still, the list stays sorted, and no timer is added that
-- is due at once.
pub record IsCallback (effect : Timer → State → State) : Type 0 where
  pub still : (t : Timer) (s : State) → (effect t s).now ≡ s.now
  pub sorted : (t : Timer) (s : State) → Sorted s.timers → Sorted (effect t s).timers
  pub later :
      (t : Timer) (s : State) → due_count s.now (effect t s).timers ≤ due_count s.now s.timers

-- The interrupt's result from `s` at the tick `now`: what fired was due, what is left is not.
pub record Fires (now : ℕ) (fired : List Timer) (s' : State) : Type 0 where
  pub was_due : All (λ t. t.ticks ≤ now) fired
  pub left : All (λ t. now < t.ticks) s'.timers
  pub sorted : Sorted s'.timers
  pub same_now : s'.now ≡ now

All-lt :
    (now b : ℕ) (ts : List Timer)
    → now < b
    → All (λ u. b ≤ u.ticks) ts
    → All (λ u. now < u.ticks) ts
All-lt now b [] h ps = tt
All-lt now b (u ∷ us) h ps = (omega (arith, ps.0), All-lt now b us h ps.1)

abbrev Ends : (Timer → State → State) → ℕ → State → Type 0
Ends effect fuel s =
    (fired : List Timer) × (s' : State) × (fire effect fuel s ≡ some (fired, s'))
    × Fires s.now fired s'

fire-Ends :
    (effect : Timer → State → State) (c : IsCallback effect) (fuel : ℕ) (s : State)
    → Sorted s.timers
    → due_count s.now s.timers < fuel
    → Ends effect fuel s
unfolding fire next_due
fire-Ends effect c zero s v enough = absurd (omega arith)
fire-Ends effect c (suc fuel) s v enough =
    at_list (λ s2. fire-Ends effect c fuel s2) s.timers v enough
  where
    at_list :
        ((s2 : State) → Sorted s2.timers → due_count s2.now s2.timers < fuel → Ends effect fuel s2)
        → (ts : List Timer) → Sorted ts
        → due_count s.now ts < suc fuel
        → Ends effect (suc fuel) (record s { timers = ts })
    at_list rec [] w lt = (
      [],
      record s { timers = [] },
      refl,
      record { was_due = tt; left = tt; sorted = tt; same_now = refl },
    )
    at_list rec (t ∷ ts) w lt = elim (Bool-cases (ltb s.now t.ticks)) [
      | inl wait ↦
          let h : s.now < t.ticks = ground arith in
          (
            [],
            record s { timers = t ∷ ts },
            rw (wait, fire) refl,
            record {
              was_due = tt;
              left = (h, All-lt s.now t.ticks ts h w.0);
              sorted = w;
              same_now = refl;
            },
          )
      | inr due ↦
          let s1 : State = record s { timers = ts } in
          let s2 : State = effect t s1 in
          let le : t.ticks ≤ s.now = ground arith in
          let now : s2.now ≡ s.now = c.still t s1 in
          let one : due_count s.now (t ∷ ts) ≡ suc (due_count s.now ts) = ground (arith, le) in
          let few : due_count s2.now s2.timers < fuel =
            rw now (omega (arith, one, lt, c.later t s1)) in
          let (fired, s', run, f) = rec s2 (c.sorted t s1 w.1) few in
          let f' : Fires s.now fired s' = subst (λ n. Fires n fired s') now f in
          (
            t ∷ fired,
            s',
            rw (due, fire, run) refl,
            record {
              was_due = (le, f'.was_due);
              left = f'.left;
              sorted = f'.sorted;
              same_now = f'.same_now;
            },
          )
    ]

-- timeInterrupt on a sorted list ends, whatever the callbacks do, if each leaves the counter `ticks` as it
-- is, keeps the list sorted and adds no timer that is due at once: one round for each due timer and one more are enough. Each timer that it
-- fires is due at the new tick, and no timer that is left is; the list stays sorted.
pub time_interrupt-ends :
    (effect : Timer → State → State) (fuel : ℕ) (s : State)
    → IsCallback effect
    → Sorted s.timers
    → due_count ((s.now + 1) % 2 ^ 64) s.timers < fuel
    → (fired : List Timer) × (s' : State) × (time_interrupt effect fuel s ≡ some (fired, s'))
      × Fires ((s.now + 1) % 2 ^ 64) fired s'
unfolding time_interrupt
time_interrupt-ends effect fuel s c v enough =
    fire-Ends effect c fuel (record s { now = (s.now + 1) % 2 ^ 64 }) v enough

filter-none_due :
    (now : ℕ) (ts : List Timer)
    → All (λ u. now < u.ticks) ts
    → filter (λ t. leb t.ticks now) ts ≡ []
filter-none_due now [] v = refl
filter-none_due now (u ∷ us) v = rw (filter-none_due now us v.1) (ground (arith, v.0))

filter-later_kept :
    (now : ℕ) (ts : List Timer)
    → All (λ u. now < u.ticks) ts
    → filter (λ t. ltb now t.ticks) ts ≡ ts
filter-later_kept now [] v = refl
filter-later_kept now (u ∷ us) v = rw (filter-later_kept now us v.1) (ground (arith, v.0))

fire-quiet :
    (now : ℕ) (freed : List ℕ) (fuel : ℕ) (ts : List Timer)
    → Sorted ts
    → length ts < fuel
    → fire (λ t s'. s') fuel (record { now = now; timers = ts; freed = freed })
      ≡ some (
        filter (λ t. leb t.ticks now) ts,
        record { now = now; timers = filter (λ t. ltb now t.ticks) ts; freed = freed },
      )
unfolding fire next_due
fire-quiet now freed zero ts v enough = absurd (omega arith)
fire-quiet now freed (suc fuel) [] v enough = refl
fire-quiet now freed (suc fuel) (t ∷ ts) v enough = elim (Bool-cases (ltb now t.ticks)) [
  | inl wait ↦
      let h : now < t.ticks = ground arith in
      let later : All (λ u. now < u.ticks) (t ∷ ts) = (h, All-lt now t.ticks ts h v.0) in
      let wait' : leb t.ticks now ≡ false = ground arith in
      rw (wait, fire, wait', filter-none_due now ts later.1, filter-later_kept now ts later.1) refl
  | inr due ↦
      let le : leb t.ticks now ≡ true = ground arith in
      rw (due, fire, le, fire-quiet now freed fuel ts v.1 (omega arith)) refl
]

-- When the list is sorted and the callbacks leave the timers alone, timeInterrupt fires exactly the timers that are due at the
-- new tick, in the order of the list, and keeps the others; it gives no timer to kfree, not even one of
-- createTimer.
pub time_interrupt-quiet :
    (fuel : ℕ) (s : State)
    → Sorted s.timers
    → length s.timers < fuel
    → time_interrupt (λ t s'. s') fuel s
      ≡ some (
        filter (λ t. leb t.ticks ((s.now + 1) % 2 ^ 64)) s.timers,
        record {
          now = (s.now + 1) % 2 ^ 64;
          timers = filter (λ t. ltb ((s.now + 1) % 2 ^ 64) t.ticks) s.timers;
          freed = s.freed;
        },
      )
unfolding time_interrupt
time_interrupt-quiet fuel s v enough =
    fire-quiet ((s.now + 1) % 2 ^ 64) s.freed fuel s.timers v enough
