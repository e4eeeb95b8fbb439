-- ===== src/Filesystem/Descriptors/Fork.antt =====
-- A task's table copied to its child, and given up at its exit.
use docqos_old.Base.{
  ℕ, ◌+◌, ◌≡◌, ◌&&◌, none, some, List, [], ◌∷◌, arith, ltb, ◌==◌, if◌then◌else◌, ◌∙◌,
}
use docqos_old.Filesystem.Descriptors.{
  Slots, Files, State, get_file, close_file, fork_files, exit_files,
}
use docqos_old.Filesystem.Descriptors.Counted.{uses, IsCounted}

get_file-ref : (f g : ℕ) (s : Files) → (get_file g s).ref f ≡ s.ref f + (if g == f then 1 else 0)
unfolding get_file
get_file-ref f g s = ground arith

fork_files-ref : (f : ℕ) (fd : Slots) (s : Files) → (fork_files fd s).ref f ≡ s.ref f + uses f fd
unfolding fork_files uses
fork_files-ref f [] s = omega arith
fork_files-ref f (none ∷ fd) s = fork_files-ref f fd s
fork_files-ref f (some g ∷ fd) s =
    ground (arith, fork_files-ref f fd (get_file g s), get_file-ref f g s)

-- `taskForkFiles` leaves parent and child with the same table, each file counted for both.
pub fork-IsCounted :
    (others : ℕ → ℕ) (s : State)
    → IsCounted others s
    → IsCounted
        (λ f. uses f s.fd + others f)
        (record { fd = s.fd; files = fork_files s.fd s.files })
fork-IsCounted others s v = record {
  slots = v.slots;
  counted = λ f. omega (arith, fork_files-ref f s.fd s.files, v.counted f);
}

-- How often a file has been destroyed.
pub times : ℕ → List ℕ → ℕ
times f [] = 0
times f (g ∷ gs) = (if g == f then 1 else 0) + times f gs

-- What closing one of the files at the head of the table leaves.
module _ (others : ℕ → ℕ) (g : ℕ) (fd : Slots) (s : Files)
    (counted : (f : ℕ) → s.ref f ≡ uses f (some g ∷ fd) + others f) where
  left : (f : ℕ) → (close_file g s).ref f ≡ uses f fd + others f
  unfolding close_file uses
  left f = ground (arith, counted f, counted g)

  destroyed :
      (f : ℕ)
      → times f (close_file g s).freed
        ≡ times f s.freed + (if (g == f) && ((uses g fd == 0) && (others g == 0)) then 1 else 0)
  unfolding close_file uses times
  destroyed f = ground (arith, counted g)

  head_case :
      (f : ℕ)
      → times f (close_file g s).freed + (if ltb 0 (uses f fd) && (others f == 0) then 1 else 0)
        ≡ times f s.freed + (if ltb 0 (uses f (some g ∷ fd)) && (others f == 0) then 1 else 0)
  unfolding uses
  head_case f = ground (arith, destroyed f)

-- `taskExitFiles` takes away exactly this table's references, and destroys each file of the table that
-- no other task refers to, once, and no other file.
pub exit-freed :
    (others : ℕ → ℕ) (fd : Slots) (s : Files)
    → ((f : ℕ) → s.ref f ≡ uses f fd + others f)
    → (f : ℕ)
    → ((exit_files fd s).ref f ≡ others f)
      × (times f (exit_files fd s).freed
          ≡ times f s.freed + (if ltb 0 (uses f fd) && (others f == 0) then 1 else 0))
unfolding exit_files uses
exit-freed others [] s counted f = ground (arith, counted f)
exit-freed others (none ∷ fd) s counted f = exit-freed others fd s counted f
exit-freed others (some g ∷ fd) s counted f =
    let ih = exit-freed others fd (close_file g s) (left others g fd s counted) f in
    (ih.0, ih.1 ∙ head_case others g fd s counted f)
