-- ===== src/Filesystem/Dentry/Mounting/Tests.antt =====
-- A mount on the directory 2 of the root 1, which is mounted on the dentry 0; the new root is 5.
use docqos_old.Base.{
  ℕ, ◌+◌, ◌≡◌, refl, true, Option, none, some, [], ◌∷◌, arith, ◌==◌, if◌then◌else◌,
}
use docqos_old.Base.Errno.{ok}
use docqos_old.Filesystem.Dentry.{Dentry, Store, holder, beyond}
use docqos_old.Filesystem.Dentry.Taking.{copies, Chain, top, link}
use docqos_old.Filesystem.Dentry.Mounting.{attach_root, set_mounted, do_mount}
use docqos_old.Filesystem.Dentry.Mounting.Cycle.{Undoes, do_umount-do_mount}

abbrev dentry : ℕ → Option ℕ → Option ℕ → Dentry
dentry ref parent point = record {
  ref = ref;
  parent = parent;
  point = point;
  name = [];
  hash = 0;
  mounted = none;
  is_directory = true;
}

abbrev before : Store
before = record {
  dentries = λ d.
      if d == 0
      then dentry 65540 none none
      else if d == 1
      then dentry 1 none (some 0)
      else if d == 2
      then dentry 1 (some 1) (some 0)
      else dentry 1 none none;
  cache = λ b. [];
  freed = [];
}

chain_of_2 : Chain (attach_root 2 5 before).dentries (some 2) (2 ∷ 0 ∷ [])
unfolding attach_root holder beyond
chain_of_2 = link 2 (0 ∷ []) (link 1 [] top)

-- Found again: one reference more on 2 and on 0.
abbrev found_again : Store
found_again =
    let t = set_mounted 2 5 (attach_root 2 5 before) in
    record t {
      dentries = λ d. record (t.dentries d) { ref = (t.dentries d).ref + copies d (2 ∷ 0 ∷ []) };
    }

do_umount-do_mount_example :
    (do_mount 2 2 5 before ≡ some (ok 0, set_mounted 2 5 (attach_root 2 5 before)))
    × Undoes 2 2 5 (2 ∷ 0 ∷ []) before found_again
do_umount-do_mount_example =
    do_umount-do_mount 2 2 5 (2 ∷ 0 ∷ []) before found_again
      (record {
        other = λ e. omega arith;
        parent = (1, refl);
        directory = refl;
        held_once = refl;
        new_root = refl;
      })
      chain_of_2 refl refl (omega arith) (λ x. ground arith)
      (record {
        ref = λ d. refl;
        alike = record { parent = λ d. refl; point = λ d. refl };
        mounted = λ d. refl;
        cache = refl;
        freed = refl;
      })
