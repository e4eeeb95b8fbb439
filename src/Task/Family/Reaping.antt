-- ===== src/Task/Family/Reaping.antt =====
-- A task that has exited, and the call of doWaitPID that collects it.
use docqos_old.Base.{
  ℕ, ◌≤◌, ◌<◌, ◌≡◌, refl, sym, ap, ◌∙◌, ◌≢◌, inl, inr, Bool, true, false, ◌&&◌, some, List, [], ◌∷◌,
  arith, Bool-cases,
}
use mathlib.Core.Bool.{true≢false}
use mathlib.Core.Path.{subst}
use docqos_old.Base.Errno.{ok}
use docqos_old.Task.Schedule.{interruptible, running, zombie}
use docqos_old.Task.Schedule.Runnable.{copies}
use docqos_old.Task.Family.{
  Task, System, write, list_delete, destory_task, adopt, adopt_all, leave, do_exit, wanted,
  is_zombie, find_zombie, Pass, returns, good, reap, wait_pass,
}
use docqos_old.Task.Family.Kinship.{IsFamily, do_exit-IsFamily, list_delete-copies}

-- What of a task doExit of another task leaves as it is.
record IsAlike (s s' : System) : Type 0 where
  pid : (t : ℕ) → (s'.tasks t).pid ≡ (s.tasks t).pid
  state : (t : ℕ) → (s'.tasks t).state ≡ (s.tasks t).state
  exit_code : (t : ℕ) → (s'.tasks t).exit_code ≡ (s.tasks t).exit_code
  all : s'.all ≡ s.all
  freed : s'.freed ≡ s.freed

adopt-IsAlike : (current parent child : ℕ) (s : System) → IsAlike s (adopt current parent child s)
unfolding adopt write
adopt-IsAlike current parent child s = record {
  pid = λ t. ground arith;
  state = λ t. ground arith;
  exit_code = λ t. ground arith;
  all = refl;
  freed = refl;
}

adopt_all-IsAlike :
    (current parent : ℕ) (cs : List ℕ) (s : System) → IsAlike s (adopt_all current parent cs s)
unfolding adopt_all
adopt_all-IsAlike current parent [] s = record {
  pid = λ t. refl;
  state = λ t. refl;
  exit_code = λ t. refl;
  all = refl;
  freed = refl;
}
adopt_all-IsAlike current parent (c ∷ cs) s =
    let a = adopt-IsAlike current parent c s in
    let r = adopt_all-IsAlike current parent cs (adopt current parent c s) in
    record {
      pid = λ t. r.pid t ∙ a.pid t;
      state = λ t. r.state t ∙ a.state t;
      exit_code = λ t. r.exit_code t ∙ a.exit_code t;
      all = r.all ∙ a.all;
      freed = r.freed ∙ a.freed;
    }

-- A task that is not handed over keeps its parent.
adopt_all-parent :
    (current parent t : ℕ) (cs : List ℕ) (s : System)
    → copies t cs ≡ 0
    → ((adopt_all current parent cs s).tasks t).parent ≡ (s.tasks t).parent
unfolding adopt_all adopt write
adopt_all-parent current parent t [] s h = refl
adopt_all-parent current parent t (c ∷ cs) s h =
    adopt_all-parent current parent t cs (adopt current parent c s) (omega (arith, h))
    ∙ ground (arith, h)

-- The loop of doWaitPID finds a zombie that is the only task wanted.
find_zombie-only :
    (pid c : ℕ) (tasks : ℕ → Task) (cs : List ℕ)
    → 1 ≤ copies c cs
    → wanted pid (tasks c).pid ≡ true
    → is_zombie (tasks c).state ≡ true
    → ((d : ℕ) → 1 ≤ copies d cs → wanted pid (tasks d).pid ≡ true → d ≡ c)
    → find_zombie pid tasks cs ≡ some c
unfolding find_zombie
find_zombie-only pid c tasks [] h w z one = absurd (omega (arith, h))
find_zombie-only pid c tasks (d ∷ cs) h w z one =
    elim (Bool-cases (wanted pid (tasks d).pid && is_zombie (tasks d).state)) [
      | inl this ↦ rw (find_zombie, this) (ap some (one d (ground arith) (ground (arith, this))))
      | inr other ↦
          let ne : d ≢ c = λ e.
            let both : (wanted pid (tasks c).pid && is_zombie (tasks c).state) ≡ true =
              rw (w, z) refl in
            true≢false (
              sym both
              ∙ sym (ap (λ (x : ℕ). wanted pid (tasks x).pid && is_zombie (tasks x).state) e)
              ∙ other) in
          rw (find_zombie, other)
            (find_zombie-only pid c tasks cs (ground (arith, h, ne)) w z
              (λ e k. one e (ground (arith, k))))
    ]

-- The state in which `current` has exited.
record HasExited (current parent n : ℕ) (s e : System) : Type 0 where
  pid : (t : ℕ) → (e.tasks t).pid ≡ (s.tasks t).pid
  state : (e.tasks current).state ≡ zombie
  exit_code : (e.tasks current).exit_code ≡ n
  parent_is : (e.tasks current).parent ≡ some parent
  all : e.all ≡ s.all

do_exit-HasExited :
    (current parent n : ℕ) (s : System)
    → parent ≢ current
    → 1 ≤ copies current s.all
    → (s.tasks current).parent ≡ some parent
    → IsFamily s
    → HasExited current parent n s (do_exit current parent n s)
unfolding do_exit leave write
do_exit-HasExited current parent n s ne there kin v =
    let left = leave current n s in
    let cs = (left.tasks current).children in
    let a = adopt_all-IsAlike current parent cs left in
    let own : copies current (s.tasks current).children ≡ 0 =
      v.listed current current there ∙ rw kin (ground arith) in
    record {
      pid = λ t. a.pid t ∙ ground arith;
      state = a.state current ∙ ground arith;
      exit_code = a.exit_code current ∙ ground arith;
      parent_is =
          adopt_all-parent current parent current cs left (ground (arith, own))
          ∙ ground (arith, kin);
      all = a.all;
    }

-- What the parent's call comes back with: the number of the task, its exit code, and a state without it.
pub record Collects (child n pid : ℕ) (p : Pass) : Type 0 where
  pub after : System
  pub result : p ≡ returns (ok pid) (some n) after
  pub off : copies child after.all ≡ 0
  pub given_back : (fs : List ℕ) × (after.freed ≡ child ∷ fs)

same_number :
    (t d : ℕ) (w : Task) (s : System)
    → w.pid ≡ (s.tasks t).pid
    → ((write t w s).tasks d).pid ≡ (s.tasks d).pid
unfolding write
same_number t d w s e = ground (arith, e)

retell : (c n m k j : ℕ) (p : Pass) → n ≡ m → k ≡ j → Collects c n k p → Collects c m j p
retell c n m k j p e f h = record {
  after = h.after;
  result = rw (sym e, sym f) h.result;
  off = h.off;
  given_back = h.given_back;
}

reap-Collects :
    (current child : ℕ) (s : System)
    → child ≢ current
    → copies child s.all ≤ 1
    → Collects child (s.tasks child).exit_code (s.tasks child).pid (reap current child good s)
unfolding reap write destory_task
reap-Collects current child s ne one =
    let w = record (s.tasks current) {
      state = running;
      waiting = false;
      children = list_delete child (s.tasks current).children;
    } in
    let off = write current w s in
    let same : off.tasks child ≡ s.tasks child = ground arith in
    record {
      after = destory_task child off;
      result =
          ap (λ (u : Task). returns (ok u.pid) (some u.exit_code) (destory_task child off)) same;
      off = list_delete-copies child child s.all ∙ ground (arith, one);
      given_back = (s.freed, refl);
    }

-- The pass on a zombie that is the only child with its number.
wait_pass-Collects :
    (parent c : ℕ) (nowait : Bool) (e : System)
    → IsFamily e
    → c ≢ parent
    → 1 ≤ copies c (e.tasks parent).children
    → 0 < (e.tasks c).pid
    → (e.tasks c).state ≡ zombie
    → ((d : ℕ) → 1 ≤ copies d (e.tasks parent).children → (e.tasks d).pid ≡ (e.tasks c).pid → d ≡ c)
    → Collects c
        (e.tasks c).exit_code
        (e.tasks c).pid
        (wait_pass parent (e.tasks c).pid good nowait e)
unfolding wait_pass reap write destory_task wanted
wait_pass-Collects parent c nowait e v ne on some_pid z unique =
    let t = e.tasks parent in
    let pid = (e.tasks c).pid in
    let asks = write parent (record t { state = interruptible; waiting = true }) e in
    let same : asks.tasks c ≡ e.tasks c = ground arith in
    let same_pid =
      λ (d : ℕ). same_number parent d (record t { state = interruptible; waiting = true }) e refl in
    let found : find_zombie pid asks.tasks t.children ≡ some c =
      find_zombie-only pid c asks.tasks t.children on (rw same (ground arith)) (rw (same, z) refl)
        (λ d h w. unique d h (ground (arith, w, same_pid d))) in
    rw (wait_pass, found)
      (retell c _ _ _ _ _ (ap (λ (u : Task). u.exit_code) same) (ap (λ (u : Task). u.pid) same)
        (reap-Collects parent c asks ne (v.once c)))

at_number :
    (parent c : ℕ) (nowait : Bool) (e : System) (k : ℕ)
    → (e.tasks c).pid ≡ k
    → Collects c
        (e.tasks c).exit_code
        (e.tasks c).pid
        (wait_pass parent (e.tasks c).pid good nowait e)
    → Collects c (e.tasks c).exit_code (e.tasks c).pid (wait_pass parent k good nowait e)
at_number parent c nowait e k q h =
    subst
      (λ (j : ℕ).
        Collects c (e.tasks c).exit_code (e.tasks c).pid (wait_pass parent j good nowait e))
      q h

-- In a family where the task that exits is listed and has another task for its parent, and no other
-- listed task has its number, which is not 0: a call of doWaitPID by the parent for this number, after
-- doExit with code `n`, comes back at once with the number, writes `n` to the place that `result` points
-- to, takes the task off the list of all tasks and gives its page back, with `nowait` or without.
pub wait_pass-do_exit :
    (current parent n : ℕ) (nowait : Bool) (s : System)
    → IsFamily s
    → parent ≢ current
    → 1 ≤ copies current s.all
    → (s.tasks current).parent ≡ some parent
    → 0 < (s.tasks current).pid
    → ((t : ℕ) → 1 ≤ copies t s.all → (s.tasks t).pid ≡ (s.tasks current).pid → t ≡ current)
    → Collects current n
        (s.tasks current).pid
        (wait_pass parent (s.tasks current).pid good nowait (do_exit current parent n s))
unfolding wait_pass reap
wait_pass-do_exit current parent n nowait s v ne there kin some_pid unique =
    let e = do_exit current parent n s in
    let x = do_exit-HasExited current parent n s ne there kin v in
    let ev = do_exit-IsFamily current parent n s ne there kin v in
    let on : 1 ≤ copies current (e.tasks parent).children =
      rw (ev.listed parent current (ground (arith, x.all, there)), x.parent_is) (ground arith) in
    retell current _ _ _ _ _ x.exit_code (x.pid current) (
      at_number parent current nowait e _ (x.pid current) (
        wait_pass-Collects parent current nowait e ev (λ q. ne (sym q)) on
          (ground (arith, x.pid current, some_pid)) x.state
          (λ d h q.
            unique d (ground (arith, ev.only parent d, x.all))
              (sym (x.pid d) ∙ q ∙ x.pid current))))
