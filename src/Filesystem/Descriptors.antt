-- ===== src/Filesystem/Descriptors.antt =====
-- The file descriptors of src/filesystem/virtual.c: doOpen, doDup, doDup2, doClose, the lookup of the
-- calls that take a descriptor, taskForkFiles and taskExitFiles. A `VFSFile` is its identity; what is
-- modelled of it is its reference count. A descriptor is the C `int` read as unsigned, so a negative
-- one is a number past the table.
pub mod Counted
pub mod Fork
pub mod Search
mod Tests
use docqos_old.Base.{
  ℕ, zero, suc, ◌+◌, ◌-◌, Bool, true, false, Option, none, some, List, [], ◌∷◌, ltb, ◌==◌,
  if◌then◌else◌, get_or, set, replicate,
}
use docqos_old.Base.Errno.{Errno, ebadf, emfile, Ret, ok, err}

-- `TASK_MAX_FILES`
abbrev pub max_files : ℕ
max_files = 20

abbrev pub Slots : Type 0
Slots = List (Option ℕ)

-- The files: the field `ref` of each, and those that closeFile has destroyed, the last one first.
pub record Files : Type 0 where
  pub ref : ℕ → ℕ
  pub freed : List ℕ

-- The task's table `fd`, and the files.
pub record State : Type 0 where
  pub fd : Slots
  pub files : Files

pub set_ref : ℕ → ℕ → Files → Files
set_ref f n s = record s { ref = λ g. if g == f then n else s.ref g }

-- `vfsGetFile` of a file that is there.
pub get_file : ℕ → Files → Files
unfolding set_ref
get_file f s = set_ref f (s.ref f + 1) s

-- `closeFile`. The count is never 0 here, so `-` is C's.
pub close_file : ℕ → Files → Files
unfolding set_ref
close_file f s =
    let s' = set_ref f (s.ref f - 1) s in
    if s.ref f - 1 == 0 then record s' { freed = f ∷ s.freed } else s'

-- The test that each call with a descriptor begins with: the file, or `-EBADF`.
pub file_of : ℕ → Slots → Option ℕ
file_of n fd = if ltb n max_files then get_or fd n none else none

-- What `openFile` makes of the path: an error, or a file that was not in use.
pub data Opened : Type 0 where
  failed : Errno → Opened
  file : ℕ → Opened

-- The loop of doOpen, from slot `i` on.
pub first_free : Slots → ℕ → Option ℕ
first_free [] i = none
first_free (none ∷ fd) i = some i
first_free (some f ∷ fd) i = first_free fd (i + 1)

-- The end of doOpen, in the free slot.
pub install : Option ℕ → Opened → State → Ret × State
unfolding set_ref
install none o s = (err emfile, s)
install (some n) (failed e) s = (err e, s)
install (some n) (file f) s =
    (ok n, record { fd = set s.fd n (some f); files = set_ref f 1 s.files })

-- `doOpen`
pub do_open : Opened → State → Ret × State
unfolding first_free install
do_open o s = install (first_free s.fd 0) o s

-- `if(*pnew) closeFile(*pnew);`
pub close_slot : Option ℕ → Files → Files
unfolding close_file
close_slot none s = s
close_slot (some f) s = close_file f s

-- `doDup2` past its tests.
pub replace : ℕ → Option ℕ → State → Ret × State
unfolding close_slot get_file
replace new none s = (err ebadf, s)
replace new (some f) s = (
  ok new,
  record {
    fd = set s.fd new (some f);
    files = get_file f (close_slot (get_or s.fd new none) s.files);
  },
)

-- `doDup2`
pub do_dup2 : ℕ → ℕ → State → Ret × State
unfolding replace
do_dup2 fd new s =
    if ltb fd max_files
    then (if ltb new max_files
        then (if fd == new then (ok new, s) else replace new (get_or s.fd fd none) s)
        else (err ebadf, s))
    else (err ebadf, s)

-- The loop of doDup, with as many rounds as there are slots left: it advances `fd`, and looks at slot
-- `new`, which stays 0.
pub dup_loop : ℕ → ℕ → State → Ret × State
unfolding do_dup2
dup_loop zero fd s = (err emfile, s)
dup_loop (suc rounds) fd s =
    let rest = dup_loop rounds (fd + 1) s in
    elim (get_or s.fd 0 none) [ none ↦ do_dup2 fd 0 s | some g ↦ rest ]

-- `doDup`
pub do_dup : ℕ → State → Ret × State
unfolding dup_loop file_of
do_dup fd s = elim (file_of fd s.fd) [
  | none ↦ (err ebadf, s)
  | some f ↦ dup_loop (max_files - fd) fd s
]

-- The end of doClose, on the file found.
pub drop_slot : ℕ → Option ℕ → State → Ret × State
unfolding close_file
drop_slot n none s = (err ebadf, s)
drop_slot n (some f) s = (ok 0, record { fd = set s.fd n none; files = close_file f s.files })

-- `doClose`
pub do_close : ℕ → State → Ret × State
unfolding file_of drop_slot
do_close n s = drop_slot n (file_of n s.fd) s

-- `taskForkFiles` without sharing: the child's table has the same files, each counted once more.
pub fork_files : Slots → Files → Files
unfolding get_file
fork_files [] s = s
fork_files (none ∷ fd) s = fork_files fd s
fork_files (some f ∷ fd) s = fork_files fd (get_file f s)

-- `taskExitFiles` of a table that no other task shares.
pub exit_files : Slots → Files → Files
unfolding close_file
exit_files [] s = s
exit_files (none ∷ fd) s = exit_files fd s
exit_files (some f ∷ fd) s = exit_files fd (close_file f s)
