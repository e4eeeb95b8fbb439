-- ===== src/Filesystem/Dentry/Mounting.antt =====
-- src/filesystem/virtual.c: doMount from the dentry that vfsLookUp found for the mount point on, where `root`
-- is the root that the file system's mount set, and doUMount from the dentry that it found. Of the mount, its
-- root and the dentry that it is mounted on are part of the model, but not the block of memory.
pub mod Cycle
mod Tests
use docqos_old.Base.{
  ℕ, ◌+◌, ◌-◌, ◌^◌, Bool, true, false, not, ◌&&◌, Option, none, some, List, [], ◌∷◌, ◌==◌,
  if◌then◌else◌,
}
use docqos_old.Base.Errno.{Ret, ok, err, ebusy, enotdir, einval}
use docqos_old.Filesystem.Dentry.{Dentry, Store, put, set_ref, look_up_clear}

-- `1 << 16`
abbrev pub mounted_bit : ℕ
mounted_bit = 2 ^ 16

abbrev pub is_null : Option ℕ → Bool
is_null none = true
is_null (some d) = false

-- `vfsLookUpClear` and an error; `none` is for want of fuel.
pub give_up : ℕ → Ret → ℕ → Store → Option (Ret × Store)
give_up fuel r d s = elim (look_up_clear fuel (some d) s) [ some s' ↦ some (r, s') | none ↦ none ]

-- `destoryFileSystemMount`, of a mount with a file system: one reference less on its root, which is freed with
-- the last one.
pub destory_mount : (root : ℕ) → Store → Store
unfolding set_ref
destory_mount root s = record (set_ref root ((s.dentries root).ref - 1) s) {
  freed = if (s.dentries root).ref == 1 then root ∷ s.freed else s.freed;
}

-- `vfsLookUpClear` of the mount point, the end of the mount and an error.
pub refuse : (fuel : ℕ) → Ret → (point root : ℕ) → Store → Option (Ret × Store)
unfolding destory_mount
refuse fuel r point root s = elim (look_up_clear fuel (some point) s) [
  | some s' ↦ some (r, destory_mount root s')
  | none ↦ none
]

-- `mnt->point = dentry`, and the root that knows it.
pub attach_root : (point root : ℕ) → Store → Store
attach_root point root s = record s {
  dentries = put root (record (s.dentries root) { parent = none; point = some point }) s.dentries;
}

-- The bit of the count, and `dentry->mounted = mnt`.
pub set_mounted : (point root : ℕ) → Store → Store
set_mounted point root s = record s {
  dentries =
      put point
        (record (s.dentries point) {
          ref = (s.dentries point).ref + mounted_bit;
          mounted = some root;
        })
        s.dentries;
}

-- The end of `doMount`, when `init` is 0.
pub do_mount : (fuel point root : ℕ) → Store → Option (Ret × Store)
unfolding refuse attach_root set_mounted
do_mount fuel point root s =
    let t = attach_root point root s in
    let v = t.dentries point in
    if is_null v.parent && not (is_null v.point)
    then refuse fuel (err ebusy) point root t
    else if not v.is_directory
    then refuse fuel (err enotdir) point root t
    else if not (v.ref == 1)
    then refuse fuel (err ebusy) point root t
    else some (ok 0, set_mounted point root t)

-- The bit off the count, and `dentry->mounted = 0`.
pub clear_mounted : ℕ → Store → Store
clear_mounted point s = record s {
  dentries =
      put point
        (record (s.dentries point) { ref = (s.dentries point).ref - mounted_bit; mounted = none })
        s.dentries;
}

-- The two calls of vfsLookUpClear at the end of doUMount.
pub clear_twice : (fuel point : ℕ) → Store → Option (Ret × Store)
unfolding give_up
clear_twice fuel point s = elim (look_up_clear fuel (some point) s) [
  | some s' ↦ give_up fuel (ok 0) point s'
  | none ↦ none
]

-- `doUMount` of another path than `/`, from the dentry `d` on that it found.
pub do_umount : (fuel d : ℕ) → Store → Option (Ret × Store)
unfolding give_up clear_mounted destory_mount clear_twice
do_umount fuel d s = elim (s.dentries d).parent [
  | some p ↦ give_up fuel (err einval) d s
  | none ↦ elim (s.dentries d).point [
    | none ↦ none
    | some q ↦
        if (s.dentries q).ref == mounted_bit + 2
        then elim (s.dentries q).mounted [
          | none ↦ none
          | some root ↦ clear_twice fuel q (destory_mount root (clear_mounted q s))
        ]
        else give_up fuel (err ebusy) q s
  ]
]
