-- ===== src/Task/Family.antt =====
-- src/task/task.c: tasks that are created, exit and are waited for. A task is its address; its lists hold
-- addresses. What the file calls elsewhere is recorded in order, and what it is answered is an argument. A
-- stretch with `taskFamilyLock` held is one step.
pub mod Kinship
pub mod Reaping
pub mod Fork
use docqos_old.Base.{
  ℕ, ◌+◌, ◌%◌, ◌^◌, Bool, true, false, ◌&&◌, ◌||◌, Option, none, some, List, [], ◌∷◌, ◌++◌, ltb,
  ◌==◌, if◌then◌else◌,
}
use docqos_old.Base.Errno.{Ret, ok, err, efault, echild, etimedout, eintr_code}
use docqos_old.Task.Schedule.{
  TaskState, running, interruptible, uninterruptible, zombie, state_bit, put,
}

-- What is read of `struct Task` here; `children` is the list through the field `sibling`.
pub record Task : Type 0 where
  pub pid : ℕ
  pub state : TaskState
  pub parent : Option ℕ
  pub children : List ℕ
  pub waiting : Bool
  pub exit_code : ℕ
  pub mm : Option ℕ
  pub active_mm : Option ℕ
  pub fs : Option ℕ
  pub files : Option ℕ
  pub sig : Option ℕ
  pub address_limit : ℕ

-- The calls of functions of other files, of wakeUpTask and schedule, and of
-- downSemaphore on the semaphore of a fork that waits.
pub data Call : Type 0 where
  exits_memory : Option ℕ → Call
  exits_file_system : Option ℕ → Call
  exits_files : Option ℕ → Call
  exits_signal : Option ℕ → Call
  wakes : ℕ → Call
  downs : Call
  schedules : Call

-- The tasks, `allTaskList`, the counter `pid`, the pages given back, and the calls so far.
pub record System : Type 0 where
  pub tasks : ℕ → Task
  pub all : List ℕ
  pub next_pid : ℕ
  pub freed : List ℕ
  pub calls : List Call

pub write : ℕ → Task → System → System
write t v s = record s { tasks = put t v s.tasks }

-- `allocTask` at the page that allocAlignedPages gave, and `addTask`.
pub create_task : ℕ → System → System
create_task t s = record s {
  tasks =
      put t
        (record {
          pid = s.next_pid;
          state = uninterruptible;
          parent = none;
          children = [];
          waiting = false;
          exit_code = 0;
          mm = none;
          active_mm = none;
          fs = none;
          files = none;
          sig = none;
          address_limit = 0;
        })
        s.tasks;
  all = s.all ++ (t ∷ []);
  next_pid = (s.next_pid + 1) % 2 ^ 32;
}

-- `listDelete`: nothing changes if the task is not on the list.
pub list_delete : ℕ → List ℕ → List ℕ
list_delete t [] = []
list_delete t (u ∷ us) = let rest = list_delete t us in if u == t then us else u ∷ rest

-- `destoryTask`
pub destory_task : ℕ → System → System
unfolding list_delete
destory_task t s = record s { all = list_delete t s.all; freed = t ∷ s.freed }

-- A round of the loop of doExit: the first child goes over to the parent.
pub adopt : (current parent child : ℕ) → System → System
unfolding write list_delete
adopt current parent child s =
    let off =
      write current
        (record (s.tasks current) { children = list_delete child (s.tasks current).children }) s in
    let on =
      write parent (record (off.tasks parent) { children = child ∷ (off.tasks parent).children })
        off in
    write child (record (on.tasks child) { parent = some parent }) on

-- The loop, on the children that the list holds when it starts.
pub adopt_all : (current parent : ℕ) → List ℕ → System → System
unfolding adopt
adopt_all current parent [] s = s
adopt_all current parent (c ∷ cs) s = adopt_all current parent cs (adopt current parent c s)

-- The start of doExit, up to the lock.
pub leave : ℕ → ℕ → System → System
unfolding write
leave current n s =
    let t = s.tasks current in
    record (write current
      (record t {
        state = zombie;
        exit_code = n;
        mm = none;
        active_mm = none;
        fs = none;
        files = none;
        sig = none;
      })
      s) {
        calls =
            s.calls
            ++ (exits_memory t.mm
                ∷ exits_file_system t.fs
                ∷ exits_files t.files
                ∷ exits_signal t.sig
                ∷ []);
      }

-- `doExit` of a task with a parent, up to the call of schedule that does not return.
pub do_exit : (current parent n : ℕ) → System → System
unfolding leave adopt_all
do_exit current parent n s =
    let left = leave current n s in
    let over = adopt_all current parent (left.tasks current).children left in
    record over {
      calls =
          over.calls
          ++ (if (over.tasks parent).waiting
              then wakes parent ∷ schedules ∷ []
              else schedules ∷ []);
    }

-- The test of a round of the loop of doWaitPID: `pid` is 0 for any child.
pub wanted : ℕ → ℕ → Bool
wanted pid child_pid = (pid == 0) || (child_pid == pid)

abbrev pub is_zombie : TaskState → Bool
is_zombie v = state_bit v == 8

-- The loop: the first zombie that is wanted.
pub find_zombie : ℕ → (ℕ → Task) → List ℕ → Option ℕ
find_zombie pid tasks [] = none
find_zombie pid tasks (c ∷ cs) =
    let rest = find_zombie pid tasks cs in
    if wanted pid (tasks c).pid && is_zombie (tasks c).state then some c else rest

-- The variable `has` after the loop, when no zombie ends it.
pub has_wanted : ℕ → (ℕ → Task) → List ℕ → Bool
has_wanted pid tasks [] = false
has_wanted pid tasks (c ∷ cs) = wanted pid (tasks c).pid || has_wanted pid tasks cs

-- What a pass of doWaitPID ends with: a result, with what it wrote to `result`, or a wait.
pub data Pass : Type 0 where
  returns : Ret → Option ℕ → System → Pass
  sleeps : System → Pass

-- `result`: the null pointer, one that can be written to, and one that cannot.
pub data Pointer : Type 0 where
  null good bad : Pointer

-- From `case TaskZombie` on.
pub reap : (current child : ℕ) → Pointer → System → Pass
unfolding write list_delete destory_task
reap current child result s =
    let off =
      write current
        (record (s.tasks current) {
          state = running;
          waiting = false;
          children = list_delete child (s.tasks current).children;
        })
        s in
    let t = off.tasks child in
    elim result [
      | bad ↦ returns (err efault) none off
      | good ↦ returns (ok t.pid) (some t.exit_code) (destory_task child off)
      | null ↦ returns (ok t.pid) none (destory_task child off)
    ]

-- After the loop: the state in which the task asked, and the one with its fields put back.
abbrev pub no_zombie : (has nowait : Bool) → (asks back : System) → Pass
no_zombie has nowait asks back =
    if has
    then if nowait then returns (err etimedout) none back else sleeps asks
    else returns (err echild) none back

-- A pass of doWaitPID, from `retry` to its result or the call of schedule.
pub wait_pass : (current pid : ℕ) → Pointer → (nowait : Bool) → System → Pass
unfolding write reap find_zombie has_wanted
wait_pass current pid result nowait s =
    let t = s.tasks current in
    let asks = write current (record t { state = interruptible; waiting = true }) s in
    let has = has_wanted pid asks.tasks t.children in
    let back = write current (record t { state = running; waiting = false }) s in
    elim (find_zombie pid asks.tasks t.children) [
      | some c ↦ reap current c result asks
      | none ↦ no_zombie has nowait asks back
    ]

-- doWaitPID, after schedule.
pub after_sleep : (current pid : ℕ) → Pointer → (pending : Bool) → System → Pass
unfolding wait_pass
after_sleep current pid result pending s =
    if pending then returns (err eintr_code) none s else wait_pass current pid result false s

-- The loop of lookForTaskByPID. With no such task, the source returns a variable that it has not set,
-- which is `garbage` here.
pub look_for_task_by_pid : ℕ → ℕ → System → List ℕ → ℕ
look_for_task_by_pid garbage pid s [] = garbage
look_for_task_by_pid garbage pid s (t ∷ ts) =
    let rest = look_for_task_by_pid garbage pid s ts in if (s.tasks t).pid == pid then t else rest
