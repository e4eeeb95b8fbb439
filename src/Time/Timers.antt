-- ===== src/Time/Timers.antt =====
-- src/time/time.c: the tick counter and the sorted list of timers. A `Timer` on the list has an identity,
-- its address; `callback` stands for the fields `callback` and `data`. The spin lock makes each step
-- between its calls one step of the model.
pub mod Sorting
pub mod Firing
mod Tests
use docqos_old.Base.{
  ℕ, zero, suc, ◌+◌, ◌%◌, ◌^◌, Bool, true, false, Option, none, some, List, [], ◌∷◌, ltb, ◌==◌,
  if◌then◌else◌,
}

-- `struct Timer`; `ticks` is the tick at which it is due.
pub record Timer : Type 0 where
  pub address : ℕ
  pub callback : ℕ
  pub on_stack : Bool
  pub ticks : ℕ

-- The variables `ticks` and `timers`, and the timers given to kfree, the last one first.
pub record State : Type 0 where
  pub now : ℕ
  pub timers : List Timer
  pub freed : List ℕ

-- `initTimer`; a negative timeout is its value modulo 2 ^ 64.
pub init_timer : (address callback timeout : ℕ) → State → Timer
init_timer address callback timeout s = record {
  address = address;
  callback = callback;
  on_stack = true;
  ticks = (s.now + timeout) % 2 ^ 64;
}

-- `createTimer`, at the address that kmalloc gave.
pub create_timer : (address callback timeout : ℕ) → State → Timer
unfolding init_timer
create_timer address callback timeout s = record (init_timer address callback timeout s) {
  on_stack = false;
}

-- The loop of addTimer.
pub insert_timer : Timer → List Timer → List Timer
insert_timer t [] = t ∷ []
insert_timer t (u ∷ us) =
    let rest = insert_timer t us in if ltb t.ticks u.ticks then t ∷ u ∷ us else u ∷ rest

-- `addTimer`, of a timer that is on no list.
pub add_timer : Timer → State → State
add_timer t s = record s { timers = insert_timer t s.timers }

-- `listDelete`: nothing changes if the timer is on no list.
pub list_delete : ℕ → List Timer → List Timer
list_delete address [] = []
list_delete address (u ∷ us) =
    let rest = list_delete address us in if u.address == address then us else u ∷ rest

-- `removeTimer`
pub remove_timer : Timer → State → State
remove_timer t s = record s {
  timers = list_delete t.address s.timers;
  freed = if t.on_stack then s.freed else t.address ∷ s.freed;
}

-- A test of the loop of timeInterrupt: the first timer if it is due, and the state without it.
pub next_due : ℕ → List Timer → Option (Timer × List Timer)
next_due now [] = none
next_due now (t ∷ ts) = if ltb now t.ticks then none else some (t, ts)

-- The loop, with fuel: the timers that fired, in order. `effect` is what the call of a timer's callback
-- makes of the state.
pub fire : (Timer → State → State) → ℕ → State → Option (List Timer × State)
fire effect zero s = none
fire effect (suc fuel) s = elim (next_due s.now s.timers) [
  | none ↦ some ([], s)
  | some (t, ts) ↦ elim (fire effect fuel (effect t (record s { timers = ts }))) [
    | none ↦ none
    | some (fired, s') ↦ some (t ∷ fired, s')
  ]
]

-- `timeInterrupt`
pub time_interrupt : (Timer → State → State) → ℕ → State → Option (List Timer × State)
time_interrupt effect fuel s = fire effect fuel (record s { now = (s.now + 1) % 2 ^ 64 })
