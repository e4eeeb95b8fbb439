-- ===== src/Task/Family/Fork/Lives.antt =====
-- The tasks from fork to wait: what forks, exits and waits keep together.
use docqos_old.Base.{
  ℕ, ◌≤◌, ◌≡◌, refl, ◌≢◌, inl, inr, Bool, false, none, some, List, [], ◌∷◌, ◌++◌, arith, Bool-cases,
}
use docqos_old.Task.Schedule.{TaskState}
use docqos_old.Task.Schedule.Runnable.{copies, copies-append}
use docqos_old.Task.Family.{
  Call, System, write, create_task, destory_task, do_exit, Pointer, bad, wait_pass, is_zombie,
}
use docqos_old.Task.Family.Kinship.{
  IsFamily, state_of, do_exit-IsFamily, wait_pass-IsFamily, write-IsFamilyBut,
}
use docqos_old.Task.Family.Fork.{Held, gather, give_back, bear, do_fork}
use docqos_old.Task.Family.Fork.Failing.{list_delete-last}

-- A new task is no one's child, and has no parent, until it is born.
create_task-IsFamily :
    (t : ℕ) (s : System) → copies t s.all ≡ 0 → IsFamily s → IsFamily (create_task t s)
unfolding create_task
create_task-IsFamily t s new v = record {
  once = λ u. ground (arith, copies-append u s.all (t ∷ []), v.once u, new);
  listed = λ p c h. ground (
    arith,
    copies-append c s.all (t ∷ []),
    v.listed p c,
    v.only p c,
    v.alive t c new,
    v.listed t c,
    new,
  );
  only = λ p c h. ground (arith, copies-append c s.all (t ∷ []), v.only p c);
  alive = λ p c h. ground (arith, copies-append p s.all (t ∷ []), v.alive p c);
  childless = λ p c o z. ground (arith, v.childless p c refl);
}

bear-IsFamily :
    (current t flags : ℕ) (h : Held) (s : System)
    → current ≢ t
    → copies t s.all ≡ 1
    → (s.tasks t).parent ≡ none
    → 1 ≤ copies current s.all
    → is_zombie (s.tasks current).state ≡ false
    → IsFamily s
    → IsFamily (bear current t flags h s)
unfolding bear write
bear-IsFamily current t flags h s ne there alone on well v = record {
  once = v.once;
  listed = λ p c k. ground (arith, v.listed p c k, ne, alone);
  only = λ p c k. ground (arith, v.only p c k, ne, there);
  alive = λ p c k. ground (arith, v.alive p c k, ne, on);
  childless = λ p c o z. ground (arith, v.childless p c refl, ne, well);
}

-- After a fork that failed.
failed-IsFamily :
    (t : ℕ) (cs : List Call) (s : System)
    → copies t s.all ≡ 0
    → IsFamily s
    → IsFamily (destory_task t (record (create_task t s) { calls = cs }))
unfolding create_task destory_task
failed-IsFamily t cs s new v =
    let same = list_delete-last t s.all new in
    record {
      once = λ u. rw same (v.once u);
      listed = λ p c h. ground (arith, same, v.listed p c, v.alive t c new, v.listed t c, new);
      only = λ p c h. ground (arith, same, v.only p c);
      alive = λ p c h. ground (arith, same, v.alive p c);
      childless = λ p c o z. ground (arith, v.childless p c refl);
    }

do_fork-IsFamily :
    (current t flags : ℕ) (given : Held) (s : System)
    → copies t s.all ≡ 0
    → 1 ≤ copies current s.all
    → is_zombie (s.tasks current).state ≡ false
    → IsFamily s
    → IsFamily (do_fork current t flags given s).1
unfolding do_fork create_task
do_fork-IsFamily current t flags given s new on well v =
    let made = create_task t s in
    let ne : current ≢ t = λ e. ground (arith, new, on, e) in
    let h = (gather (made.tasks current) given).0 in
    elim (Bool-cases (gather (made.tasks current) given).1) [
      | inr failed ↦ rw (do_fork, failed) (failed-IsFamily t (made.calls ++ give_back h) s new v)
      | inl fine ↦
          rw (do_fork, fine)
            (bear-IsFamily current t flags h made ne
              (ground (arith, copies-append t s.all (t ∷ []), new)) (ground arith)
              (ground (arith, copies-append current s.all (t ∷ []), on)) (ground (arith, ne, well))
              (create_task-IsFamily t s new v))
    ]

-- What tasks do: a listed task that has not exited forks, with any page that is no listed task and any
-- answers; a listed task exits; a task makes a pass of doWaitPID, whose result can be written; or its state
-- changes to one that is not TaskZombie.
pub data Step : System → System → Type 0 where
  forks :
      (current t flags : ℕ) (given : Held) (s : System)
      → copies t s.all ≡ 0
      → 1 ≤ copies current s.all
      → is_zombie (s.tasks current).state ≡ false
      → Step s (do_fork current t flags given s).1
  exits :
      (current parent n : ℕ) (s : System)
      → parent ≢ current
      → 1 ≤ copies current s.all
      → (s.tasks current).parent ≡ some parent
      → Step s (do_exit current parent n s)
  waits :
      (current pid : ℕ) (result : Pointer) (nowait : Bool) (s : System)
      → result ≢ bad
      → Step s (state_of (wait_pass current pid result nowait s))
  changes :
      (t : ℕ) (v : TaskState) (s : System)
      → is_zombie v ≡ false
      → Step s (write t (record (s.tasks t) { state = v }) s)

pub data Reachable (first : System) : System → Type 0 where
  begin : Reachable first first
  next : (s s' : System) → Reachable first s → Step s s' → Reachable first s'

Step-IsFamily : (s s' : System) → Step s s' → IsFamily s → IsFamily s'
Step-IsFamily s s' (forks current t flags given _ new on well) v =
    do_fork-IsFamily current t flags given s new on well v
Step-IsFamily s s' (exits current parent n _ ne on kin) v =
    do_exit-IsFamily current parent n s ne on kin v
Step-IsFamily s s' (waits current pid result nowait _ ne) v =
    wait_pass-IsFamily current pid result nowait s ne v
Step-IsFamily s s' (changes t w _ well) v =
    write-IsFamilyBut t (record (s.tasks t) { state = w }) s refl refl (inl well) v

-- However forks, exits, waits and other changes of state follow one another, from a family to begin with:
-- each listed task stays in the list of its parent's children, once, and in no other list; no list of
-- children holds or belongs to a task that is gone; and a task that has exited has no children. The waits
-- are those whose `result` can be written, a task exits to a parent other than itself, and a new task
-- comes on a page that no listed task has.
pub Reachable-IsFamily : (first s : System) → IsFamily first → Reachable first s → IsFamily s
Reachable-IsFamily first s v begin = v
Reachable-IsFamily first s v (next s0 _ r e) =
    Step-IsFamily s0 s e (Reachable-IsFamily first s0 v r)
