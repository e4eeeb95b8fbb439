-- ===== src/Task/Schedule/Borrowing.antt =====
-- A task of the kernel runs on the memory of the task before it, and counts as one of its users.
use docqos_old.Base.{
  ℕ, ◌+◌, ◌-◌, ◌≤◌, ◌≡◌, refl, ap, ◌∙◌, ◌≢◌, ◌⊎◌, inl, inr, Option, none, some, List, ◌∷◌, arith,
  ◌==◌, if◌then◌else◌, Bool-cases, Option-cases,
}
use docqos_old.Task.Schedule.{
  running, Task, Scheduler, set_state, exit_memory, finish_scheduling, share_memory, take_memory,
  requeue, switch_to,
}

abbrev pub names : Option ℕ → ℕ → ℕ
names none m = 0
names (some k) m = if k == m then 1 else 0

-- Whether a task uses a memory that is not its own.
abbrev pub borrows_as : Option ℕ → Option ℕ → ℕ → ℕ
borrows_as none active m = names active m
borrows_as (some k) active m = 0

abbrev pub borrows : Task → ℕ → ℕ
borrows t m = borrows_as t.mm t.active_mm m

-- The memory that a task runs on when it follows one that runs on `active`.
abbrev pub runs_on : Option ℕ → Option ℕ → Option ℕ
runs_on none active = active
runs_on (some m) active = some m

abbrev pub FreesUnused : Scheduler → Scheduler → Type 0
FreesUnused s s' =
    (s'.freed ≡ s.freed)
    ⊎ ((m : ℕ) × (s'.freed ≡ m ∷ s.freed) × (s'.ref m ≡ 0) × (1 ≤ borrows (s.tasks s.current) m))

-- What take_memory does: the task `to` runs on, and is counted for, what it takes.
record Takes (prev to : ℕ) (s s' : Scheduler) : Type 0 where
  same : s'.tasks prev ≡ s.tasks prev
  mm : (s'.tasks to).mm ≡ (s.tasks to).mm
  active : (s'.tasks to).active_mm ≡ runs_on (s.tasks to).mm (s.tasks prev).active_mm
  counted : (m : ℕ) → s'.ref m ≡ s.ref m + borrows_as (s.tasks to).mm (s.tasks prev).active_mm m
  freed : s'.freed ≡ s.freed

share-counts : (o : Option ℕ) (ref : ℕ → ℕ) (m : ℕ) → share_memory o ref m ≡ ref m + names o m
share-counts none ref m = omega arith
share-counts (some k) ref m = ground arith

take_memory-Takes :
    (prev to : ℕ) (s : Scheduler) → to ≢ prev → Takes prev to s (take_memory prev to s)
unfolding take_memory
take_memory-Takes prev to s ne = elim (Option-cases (s.tasks to).mm) [
  | inl e ↦
      rw (take_memory, e)
        (record {
          same = ground arith;
          mm = ground arith;
          active = ground (arith, e);
          counted = λ m. ground (arith, e, share-counts (s.tasks prev).active_mm s.ref m);
          freed = refl;
        })
  | inr (k, e) ↦
      rw (take_memory, e)
        (record {
          same = ground arith;
          mm = ground arith;
          active = ground (arith, e);
          counted = λ m. ground (arith, e);
          freed = refl;
        })
]

-- What finish_scheduling does: the task `from` borrows nothing any more.
record Gives (from : ℕ) (s s' : Scheduler) : Type 0 where
  others : (t : ℕ) → t ≢ from → s'.tasks t ≡ s.tasks t
  given_back : (m : ℕ) → borrows (s'.tasks from) m ≡ 0
  counted : (m : ℕ) → s'.ref m + borrows (s.tasks from) m ≡ s.ref m
  unused :
      (s'.freed ≡ s.freed)
      ⊎ ((m : ℕ) × (s'.freed ≡ m ∷ s.freed) × (s'.ref m ≡ 0) × (1 ≤ borrows (s.tasks from) m))

finish_scheduling-Gives :
    (from : ℕ) (s : Scheduler)
    → ((m : ℕ) → borrows (s.tasks from) m ≤ s.ref m)
    → Gives from s (finish_scheduling from s)
unfolding finish_scheduling exit_memory
finish_scheduling-Gives from s used = elim (Option-cases (s.tasks from).mm) [
  | inr (k, e) ↦
      rw (finish_scheduling, e)
        (record {
          others = λ t ne. refl;
          given_back = λ m. ground (arith, e);
          counted = λ m. ground (arith, e);
          unused = inl refl;
        })
  | inl e ↦ elim (Option-cases (s.tasks from).active_mm) [
    | inl a ↦
        rw (finish_scheduling, e, a)
          (record {
            others = λ t ne. ground arith;
            given_back = λ m. ground (arith, e);
            counted = λ m. ground (arith, e, a);
            unused = inl refl;
          })
    | inr (k, a) ↦
        let one : 1 ≤ borrows (s.tasks from) k = rw (e, a) (ground arith) in
        rw (finish_scheduling, e, a)
          (record {
            others = λ t ne. ground arith;
            given_back = λ m. ground (arith, e);
            counted = λ m. ground (arith, e, a, used k, one);
            unused = elim (Bool-cases (s.ref k - 1 == 0)) [
              | inl last ↦ rw last (inr (k, refl, ground arith, one))
              | inr more ↦ rw more (inl refl)
            ];
          })
  ]
]

lent_alike :
    (t u : Task) (m : ℕ) → u.mm ≡ t.mm → u.active_mm ≡ t.active_mm → borrows u m ≡ borrows t m
lent_alike t u m e f = rw (e, f) refl

taken_by :
    (u : Task) (o a : Option ℕ) (m : ℕ)
    → u.mm ≡ o
    → u.active_mm ≡ runs_on o a
    → borrows u m ≡ borrows_as o a m
taken_by u none a m e f = rw (e, f) refl
taken_by u (some k) a m e f = rw e refl

freed_alike :
    (s s' b : Scheduler)
    → b.freed ≡ s.freed
    → ((m : ℕ) → borrows (b.tasks s.current) m ≡ borrows (s.tasks s.current) m)
    → (s'.freed ≡ b.freed)
      ⊎ ((m : ℕ) × (s'.freed ≡ m ∷ b.freed) × (s'.ref m ≡ 0) × (1 ≤ borrows (b.tasks s.current) m))
    → (s'.freed ≡ s.freed)
      ⊎ ((m : ℕ) × (s'.freed ≡ m ∷ s.freed) × (s'.ref m ≡ 0) × (1 ≤ borrows (s.tasks s.current) m))
freed_alike s s' b e l (inl h) = inl (h ∙ e)
freed_alike s s' b e l (inr (m, h, z, one)) =
    inr (m, h ∙ ap (λ (fs : List ℕ). m ∷ fs) e, z, omega (arith, l m, one))

-- What a switch to the task `n` does to the memories.
pub record HandsOver (n : ℕ) (s s' : Scheduler) : Type 0 where
  pub balance :
      (m : ℕ) → s'.ref m + borrows (s.tasks s.current) m ≡ s.ref m + borrows (s'.tasks n) m
  pub given_back : (m : ℕ) → borrows (s'.tasks s.current) m ≡ 0
  pub loaded : (s'.tasks n).active_mm ≡ runs_on (s.tasks n).mm (s.tasks s.current).active_mm
  pub unused :
      (s'.freed ≡ s.freed)
      ⊎ ((m : ℕ) × (s'.freed ≡ m ∷ s.freed) × (s'.ref m ≡ 0) × (1 ≤ borrows (s.tasks s.current) m))

-- On a switch to another task, where each memory that the task before it borrows is counted at least once:
-- the count of every memory changes by what the task that comes borrows afterwards, less what the one that
-- goes borrowed, which then borrows none; the task that comes runs on its own memory if it has one, and
-- else on the one that was in use; and nothing is freed, or one memory is that the one that goes borrowed
-- and whose count is then 0.
pub switch_to-HandsOver :
    (n : ℕ) (s : Scheduler)
    → n ≢ s.current
    → ((m : ℕ) → borrows (s.tasks s.current) m ≤ s.ref m)
    → HandsOver n s (switch_to n s)
unfolding switch_to set_state
switch_to-HandsOver n s ne used =
    let queued = record s { runnable = requeue s.current s } in
    let taken = take_memory s.current n queued in
    let t = take_memory-Takes s.current n queued ne in
    let between = record (set_state n running taken) { current = n } in
    let same_mm : (between.tasks s.current).mm ≡ (s.tasks s.current).mm = ground (arith, t.same) in
    let same_active : (between.tasks s.current).active_mm ≡ (s.tasks s.current).active_mm =
      ground (arith, t.same) in
    let same_lent =
      λ (m : ℕ). lent_alike (s.tasks s.current) (between.tasks s.current) m same_mm same_active in
    let g =
      finish_scheduling-Gives s.current between
        (λ m. omega (arith, used m, same_lent m, t.counted m)) in
    let there = g.others n ne in
    let mm : ((switch_to n s).tasks n).mm ≡ (s.tasks n).mm = ground (arith, there, t.mm) in
    let active : ((switch_to n s).tasks n).active_mm
        ≡ runs_on (s.tasks n).mm (s.tasks s.current).active_mm =
      ground (arith, there, t.active) in
    record {
      balance = λ m. omega (
        arith,
        g.counted m,
        same_lent m,
        t.counted m,
        taken_by ((switch_to n s).tasks n) (s.tasks n).mm (s.tasks s.current).active_mm m mm active,
      );
      given_back = g.given_back;
      loaded = active;
      unused = freed_alike s (switch_to n s) between t.freed same_lent g.unused;
    }
