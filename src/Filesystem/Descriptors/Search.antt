-- ===== src/Filesystem/Descriptors/Search.antt =====
-- Which descriptor a call returns.
use docqos_old.Base.{
  ℕ, zero, suc, ◌+◌, ◌-◌, ◌<◌, ◌≡◌, refl, ◌≢◌, ◌⊎◌, inl, inr, none, some, [], ◌∷◌, arith, get_or,
  set, length, Option-cases,
}
use docqos_old.Base.Errno.{emfile, ok, err}
use docqos_old.Filesystem.Descriptors.{
  max_files, Slots, State, set_ref, file_of, file, first_free, install, do_open, dup_loop, do_dup,
}

-- Each slot of the table below `k` is in use.
abbrev pub AllUsed : Slots → ℕ → Type 0
AllUsed fd k = (j : ℕ) → j < k → get_or fd j none ≢ none

cons-AllUsed : (f k : ℕ) (fd : Slots) → AllUsed fd k → AllUsed (some f ∷ fd) (suc k)
cons-AllUsed f k fd u zero h = λ q. cc q
cons-AllUsed f k fd u (suc j) h = u j (omega arith)

pub first_free-some :
    (fd : Slots) (i n : ℕ)
    → first_free fd i ≡ some n
    → (j : ℕ) × (n ≡ i + j) × (j < length fd) × (get_or fd j none ≡ none) × AllUsed fd j
unfolding first_free
first_free-some [] i n h = cc
first_free-some (none ∷ fd) i n h =
    (0, ground arith, omega arith, refl, λ j q. absurd (omega arith))
first_free-some (some f ∷ fd) i n h =
    let (j, same, within, free, used) = first_free-some fd (i + 1) n h in
    (suc j, omega arith, omega arith, free, cons-AllUsed f j fd used)

first_free-none : (fd : Slots) (i : ℕ) → first_free fd i ≡ none → AllUsed fd (length fd)
unfolding first_free
first_free-none [] i h = λ j q. absurd (omega arith)
first_free-none (none ∷ fd) i h = cc
first_free-none (some f ∷ fd) i h = cons-AllUsed f (length fd) fd (first_free-none fd (i + 1) h)

-- `doOpen` of a file takes the lowest free descriptor, and refuses only a full table, which it leaves as
-- it was.
pub do_open-lowest :
    (f : ℕ) (s : State)
    → length s.fd ≡ max_files
    → ((n : ℕ) × (do_open (file f) s
          ≡ (ok n, record { fd = set s.fd n (some f); files = set_ref f 1 s.files }))
        × (n < max_files)
        × (get_or s.fd n none ≡ none)
        × AllUsed s.fd n)
      ⊎ ((do_open (file f) s ≡ (err emfile, s)) × AllUsed s.fd max_files)
unfolding do_open install
do_open-lowest f s l = elim (Option-cases (first_free s.fd 0)) [
  | inl e ↦ rw (e, install) (inr (refl, rw l at (first_free-none s.fd 0 e)))
  | inr (n, e) ↦
      let (j, same, within, free, used) = first_free-some s.fd 0 n e in
      let at : j ≡ n = omega arith in
      rw (e, install) (inl (n, refl, omega arith, rw at at free, rw at at used))
]

dup_loop-used :
    (rounds n g : ℕ) (s : State)
    → get_or s.fd 0 none ≡ some g
    → dup_loop rounds n s ≡ (err emfile, s)
unfolding dup_loop
dup_loop-used zero n g s e = refl
dup_loop-used (suc rounds) n g s e = rw (e, dup_loop) (dup_loop-used rounds (n + 1) g s e)

-- While descriptor 0 is in use, `doDup` of any open descriptor fails with EMFILE and changes nothing,
-- however many slots are free.
pub do_dup-used :
    (n f g : ℕ) (s : State)
    → n < max_files
    → get_or s.fd n none ≡ some f
    → get_or s.fd 0 none ≡ some g
    → do_dup n s ≡ (err emfile, s)
unfolding do_dup
do_dup-used n f g s h e used =
    rw (found n f s h e, do_dup) (dup_loop-used (max_files - n) n g s used)
  where
    found :
        (n f : ℕ) (s : State)
        → n < max_files
        → get_or s.fd n none ≡ some f
        → file_of n s.fd ≡ some f
    found n f s h e = unfold file_of in ground arith
