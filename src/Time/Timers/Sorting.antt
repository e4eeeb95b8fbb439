-- ===== src/Time/Timers/Sorting.antt =====
-- The list of timers is sorted, and timers due at the same tick keep the order of their addition.
use docqos_old.Base.{
  ℕ, suc, ◌≤◌, ◌≡◌, refl, ◌≢◌, ap, sym, ◌∙◌, inl, inr, not, List, [], ◌∷◌, ◌++◌, arith, ltb, ◌==◌,
  if◌then◌else◌, Bool-cases, All, filter,
}
use mathlib.Core.Path.{subst}
use docqos_old.Time.Timers.{Timer, State, insert_timer, add_timer, list_delete, remove_timer}

-- Each timer is due no later than those behind it.
abbrev pub Sorted : List Timer → Type 0
Sorted [] = Unit {0}
Sorted (t ∷ ts) = All (λ u. t.ticks ≤ u.ticks) ts × Sorted ts

-- The timers due at one tick, in their order.
abbrev pub due_at : ℕ → List Timer → List Timer
due_at k ts = filter (λ t. t.ticks == k) ts

insert_timer-All :
    (P : Timer → Type 0) (t : Timer) (ts : List Timer) → P t → All P ts → All P (insert_timer t ts)
unfolding insert_timer
insert_timer-All P t [] p ps = (p, tt)
insert_timer-All P t (u ∷ us) p ps = elim (Bool-cases (ltb t.ticks u.ticks)) [
  | inl e ↦ rw e (p, ps)
  | inr e ↦ rw e (ps.0, insert_timer-All P t us p ps.1)
]

All-le : (a b : ℕ) (ts : List Timer) → a ≤ b → All (λ u. b ≤ u.ticks) ts → All (λ u. a ≤ u.ticks) ts
All-le a b [] h ps = tt
All-le a b (u ∷ us) h ps = (omega (arith, ps.0), All-le a b us h ps.1)

insert_timer-Sorted : (t : Timer) (ts : List Timer) → Sorted ts → Sorted (insert_timer t ts)
unfolding insert_timer
insert_timer-Sorted t [] v = (tt, tt)
insert_timer-Sorted t (u ∷ us) v = elim (Bool-cases (ltb t.ticks u.ticks)) [
  | inl e ↦
      let le : t.ticks ≤ u.ticks = ground arith in rw e ((le, All-le t.ticks u.ticks us le v.0), v)
  | inr e ↦ rw e (insert_timer-All _ t us (ground arith) v.0, insert_timer-Sorted t us v.1)
]

due_at-later : (k : ℕ) (ts : List Timer) → All (λ u. suc k ≤ u.ticks) ts → due_at k ts ≡ []
due_at-later k [] v = refl
due_at-later k (u ∷ us) v = rw (due_at-later k us v.1) (ground (arith, v.0))

append-nil : (ts : List Timer) → ts ++ [] ≡ ts
append-nil [] = refl
append-nil (t ∷ ts) = ap (λ l. t ∷ l) (append-nil ts)

insert_timer-due_at :
    (k : ℕ) (t : Timer) (ts : List Timer)
    → Sorted ts
    → due_at k (insert_timer t ts) ≡ due_at k ts ++ due_at k (t ∷ [])
unfolding insert_timer
insert_timer-due_at k t [] v = refl
insert_timer-due_at k t (u ∷ us) v = elim (Bool-cases (ltb t.ticks u.ticks)) [
  | inl e ↦ elim (Bool-cases (t.ticks == k)) [
    | inr other ↦ rw (e, other) (sym (append-nil (due_at k (u ∷ us))))
    | inl same ↦
        let later : suc k ≤ u.ticks = ground arith in
        let none_yet = due_at-later k (u ∷ us) (later, All-le (suc k) u.ticks us later v.0) in
        rw (e, same) (ap (λ l. t ∷ l) none_yet ∙ ap (λ l. l ++ (t ∷ [])) (sym none_yet))
  ]
  | inr e ↦ elim (Bool-cases (u.ticks == k)) [
    | inl same ↦ rw (e, same) (ap (λ l. u ∷ l) (insert_timer-due_at k t us v.1))
    | inr other ↦ rw (e, other) (insert_timer-due_at k t us v.1)
  ]
]

-- addTimer keeps a sorted list sorted, and puts the timer behind those due at the same tick: what is due at a
-- tick is what was due at it, and then the new timer if that is its tick.
pub add_timer_lem :
    (t : Timer) (s : State)
    → Sorted s.timers
    → Sorted (add_timer t s).timers
      × ((k : ℕ) → due_at k (add_timer t s).timers ≡ due_at k s.timers ++ due_at k (t ∷ []))
unfolding add_timer
add_timer_lem t s v = (insert_timer-Sorted t s.timers v, λ k. insert_timer-due_at k t s.timers v)

-- No two timers of the list are at one address.
abbrev pub Distinct : List Timer → Type 0
Distinct [] = Unit {0}
Distinct (t ∷ ts) = All (λ u. u.address ≢ t.address) ts × Distinct ts

abbrev pub others : ℕ → List Timer → List Timer
others address ts = filter (λ u. not (u.address == address)) ts

others-All :
    (P : Timer → Type 0) (address : ℕ) (ts : List Timer) → All P ts → All P (others address ts)
others-All P address [] ps = tt
others-All P address (u ∷ us) ps = elim (Bool-cases (u.address == address)) [
  | inl e ↦ rw e (others-All P address us ps.1)
  | inr e ↦ rw e (ps.0, others-All P address us ps.1)
]

others-Sorted : (address : ℕ) (ts : List Timer) → Sorted ts → Sorted (others address ts)
others-Sorted address [] v = tt
others-Sorted address (u ∷ us) v = elim (Bool-cases (u.address == address)) [
  | inl e ↦ rw e (others-Sorted address us v.1)
  | inr e ↦ rw e (others-All _ address us v.0, others-Sorted address us v.1)
]

others-same :
    (address : ℕ) (ts : List Timer) → All (λ u. u.address ≢ address) ts → others address ts ≡ ts
others-same address [] v = refl
others-same address (u ∷ us) v = rw (others-same address us v.1) (ground (arith, v.0))

list_delete-others :
    (address : ℕ) (ts : List Timer) → Distinct ts → list_delete address ts ≡ others address ts
unfolding list_delete
list_delete-others address [] d = refl
list_delete-others address (u ∷ us) d = elim (Bool-cases (u.address == address)) [
  | inl e ↦
      let same : u.address ≡ address = ground arith in
      rw e (sym (others-same address us (subst (λ a. All (λ w. w.address ≢ a) us) same d.0)))
  | inr e ↦ rw e (ap (λ l. u ∷ l) (list_delete-others address us d.1))
]

-- removeTimer, on a sorted list without two timers at one address, takes the timer off the list if it is
-- there and leaves the others in their order; the timer goes to kfree if createTimer made it, on the list or not.
pub remove_timer_lem :
    (t : Timer) (s : State)
    → Sorted s.timers
    → Distinct s.timers
    → ((remove_timer t s).timers ≡ others t.address s.timers)
      × Sorted (remove_timer t s).timers
      × ((remove_timer t s).freed ≡ (if t.on_stack then s.freed else t.address ∷ s.freed))
unfolding remove_timer
remove_timer_lem t s v d =
    let same = list_delete-others t.address s.timers d in
    (same, rw same (others-Sorted t.address s.timers v), refl)
