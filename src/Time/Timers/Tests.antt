-- ===== src/Time/Timers/Tests.antt =====
-- Runs of the timers.
use docqos_old.Base.{◌≡◌, refl, true, false, some, List, [], ◌∷◌, arith}
use docqos_old.Time.Timers.{Timer, State, insert_timer, add_timer, time_interrupt}
use docqos_old.Time.Timers.Firing.{IsCallback, Fires, time_interrupt-ends}

abbrev first : Timer
first = record { address = 16; callback = 1; on_stack = false; ticks = 8 }

abbrev second : Timer
second = record { address = 32; callback = 2; on_stack = true; ticks = 9 }

abbrev third : Timer
third = record { address = 48; callback = 3; on_stack = true; ticks = 8 }

abbrev start : State
start = record { now = 7; timers = first ∷ second ∷ []; freed = [] }

third_behind_first : (add_timer third start).timers ≡ first ∷ third ∷ second ∷ []
unfolding add_timer insert_timer
third_behind_first = refl

-- A callback that frees its timer.
abbrev freeing : Timer → State → State
freeing t s = record s { freed = t.address ∷ s.freed }

freeing-IsCallback : IsCallback freeing
freeing-IsCallback = record { still = λ t s. refl; sorted = λ t s v. v; later = λ t s. omega arith }

time_interrupt-ends_example :
    (fired : List Timer) × (s' : State) × (time_interrupt freeing 3 start ≡ some (fired, s'))
    × Fires 8 fired s'
time_interrupt-ends_example =
    time_interrupt-ends freeing 3 start freeing-IsCallback ((omega arith, tt), (tt, tt))
      (omega arith)
