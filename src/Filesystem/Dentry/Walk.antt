-- ===== src/Filesystem/Dentry/Walk.antt =====
-- src/filesystem/virtual.c: vfsLookUp, with the names that getFileNameFromPath cuts out of the path as an
-- argument.
pub mod Holding
use docqos_old.Base.{ℕ, Bool, Option, none, some, List, [], ◌∷◌}
use docqos_old.Base.Errno.{Errno, enoent}
use docqos_old.Filesystem.Dentry.{
  Store, look_up_dentry, look_up_clear, Outcome, at, fails_at, faults, Component, step,
}

-- A name of the path, whether it is the last one with no `/` behind it, and what a dentry for it would be:
-- its address, and what the file system answers.
pub record Visit : Type 0 where
  pub name : Component
  pub last : Bool
  pub new : ℕ
  pub answer : Option Bool

-- The loop of vfsLookUp, from `ret` on.
pub walk : List Visit → (root ret : ℕ) → Store → Outcome
walk [] root ret s = at ret s
walk (v ∷ vs) root ret s = elim (step v.name v.last root v.new v.answer ret s) [
  | at d s' ↦ walk vs root d s'
  | fails_at d s' ↦ fails_at d s'
  | faults ↦ faults
]

-- What vfsLookUp comes back with.
pub data Result : Type 0 where
  found : ℕ → Store → Result
  error : Errno → Store → Result

-- At the label `failed`, the references are given back; `none` is for want of fuel, or for a read through
-- null.
pub ending : ℕ → Outcome → Option Result
ending fuel (at d s) = some (found d s)
ending fuel (fails_at d s) = elim (look_up_clear fuel (some d) s) [
  | some s' ↦ some (error enoent s')
  | none ↦ none
]
ending fuel faults = none

-- `vfsLookUp`, of a path that is not empty, from the dentry that it starts at.
pub look_up : (fuel : ℕ) → List Visit → (root first : ℕ) → Store → Option Result
unfolding walk ending
look_up fuel vs root first s = elim (look_up_dentry fuel (some first) s) [
  | none ↦ none
  | some s' ↦ ending fuel (walk vs root first s')
]
