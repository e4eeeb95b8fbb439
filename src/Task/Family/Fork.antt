-- ===== src/Task/Family/Fork.antt =====
-- src/task/task.c: doFork. What the functions of other files give is an argument, and so is the page of the
-- new task, which allocAlignedPages is taken to have given. The frame of registers that the child starts
-- with, and the field `wait` of its memory, are not part of the model.
pub mod Failing
pub mod Lives
mod Tests
use docqos_old.Base.{
  ℕ, ◌+◌, ◌-◌, ◌*◌, ◌/◌, ◌%◌, ◌^◌, Bool, true, false, not, ◌&&◌, Option, none, some, List, [], ◌∷◌,
  ◌++◌, ◌==◌, if◌then◌else◌,
}
use docqos_old.Base.Errno.{Ret, ok, err, enomem}
use docqos_old.Task.Family.{
  Task, Call, exits_memory, exits_file_system, exits_files, exits_signal, wakes, downs, System,
  write, create_task, destory_task,
}

-- `enum ForkFlags`, the ones that doFork tests.
abbrev pub fork_wait : ℕ
fork_wait = 16

abbrev pub fork_kernel : ℕ
fork_kernel = 32

-- `flags & flag`, of a flag of one bit.
abbrev pub has_flag : ℕ → ℕ → Bool
has_flag flags flag = (flags / flag) % 2 == 1

abbrev pub page_offset : ℕ
page_offset = 2 ^ 39

-- The fields of the new task that taskForkMemory, taskForkFileSystem, taskForkFiles and taskForkSignal set.
pub record Held : Type 0 where
  pub mm : Option ℕ
  pub fs : Option ℕ
  pub files : Option ℕ
  pub sig : Option ℕ

abbrev pub is_null : Option ℕ → Bool
is_null none = true
is_null (some a) = false

abbrev pub nothing : Held
nothing = record { mm = none; fs = none; files = none; sig = none }

-- The calls up to the first that fails, with what each gives: what the task holds then, and whether none
-- failed.
pub gather : Task → Held → Held × Bool
gather current given =
    if not (is_null current.mm) && is_null given.mm
    then (nothing, false)
    else if is_null given.fs
    then (record nothing { mm = given.mm }, false)
    else if is_null given.files
    then (record nothing { mm = given.mm; fs = given.fs }, false)
    else if not (is_null current.sig) && is_null given.sig
    then (record given { sig = none }, false)
    else (given, true)

abbrev pub if_held : (Option ℕ → Call) → Option ℕ → List Call
if_held call none = []
if_held call (some a) = call (some a) ∷ []

-- The calls after `failed`.
pub give_back : Held → List Call
give_back h =
    if_held exits_memory h.mm
    ++ (if_held exits_files h.files
        ++ (if_held exits_file_system h.fs ++ if_held exits_signal h.sig))

-- From `new->parent = current` on.
pub bear : (current t flags : ℕ) → Held → System → System
unfolding write
bear current t flags h s =
    let child =
      write t
        (record (s.tasks t) {
          mm = h.mm;
          active_mm = h.mm;
          fs = h.fs;
          files = h.files;
          sig = h.sig;
          parent = some current;
          address_limit = if has_flag flags fork_kernel then 2 ^ 64 - 1 else page_offset;
        })
        s in
    let listed =
      write current (record (child.tasks current) { children = t ∷ (child.tasks current).children })
        child in
    record listed {
      calls = listed.calls ++ (wakes t ∷ (if has_flag flags fork_wait then downs ∷ [] else []));
    }

-- `doFork`, with the page `t` for the new task.
pub do_fork : (current t flags : ℕ) → Held → System → Ret × System
unfolding gather give_back bear create_task destory_task
do_fork current t flags given s =
    let new = create_task t s in
    let (h, all_given) = gather (new.tasks current) given in
    if all_given
    then (ok (new.tasks t).pid, bear current t flags h new)
    else (err enomem, destory_task t (record new { calls = new.calls ++ give_back h }))
