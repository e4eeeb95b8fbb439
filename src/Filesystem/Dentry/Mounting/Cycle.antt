-- ===== src/Filesystem/Dentry/Mounting/Cycle.antt =====
-- A file system mounted, found and unmounted again.
use docqos_old.Base.{
  ℕ, ◌+◌, ◌-◌, ◌≤◌, ◌≡◌, refl, ◌∙◌, ◌≢◌, inl, inr, Bool-cases, ap, true, none, some, List, arith,
  ◌==◌, if◌then◌else◌, length,
}
use docqos_old.Base.Errno.{ok}
use docqos_old.Filesystem.Dentry.{Store, set_ref, look_up_clear}
use docqos_old.Filesystem.Dentry.Taking.{copies, Chain, IsAlike, Chain-alike, Raises}
use docqos_old.Filesystem.Dentry.Chains.{look_up_clear-Lowers}
use docqos_old.Filesystem.Dentry.Mounting.{
  mounted_bit, give_up, destory_mount, attach_root, set_mounted, do_mount, clear_mounted,
  clear_twice, do_umount,
}

-- A directory with a parent, that only the lookup of the mount point holds, and the root of a new mount.
pub record IsFree (point root : ℕ) (s : Store) : Type 0 where
  pub other : root ≢ point
  pub parent : (p : ℕ) × ((s.dentries point).parent ≡ some p)
  pub directory : (s.dentries point).is_directory ≡ true
  pub held_once : (s.dentries point).ref ≡ 1
  pub new_root : (s.dentries root).ref ≡ 1

do_mount-free :
    (fuel point root : ℕ) (s : Store)
    → IsFree point root s
    → do_mount fuel point root s ≡ some (ok 0, set_mounted point root (attach_root point root s))
unfolding do_mount attach_root
do_mount-free fuel point root s v =
    let (p, e) = v.parent in
    let same : (attach_root point root s).dentries point ≡ s.dentries point =
      ground (arith, v.other) in
    rw (do_mount, same, e, v.directory, v.held_once) refl

-- The chain of the mount point is what it was, when the root is no part of it.
mounted-IsAlike :
    (point root : ℕ) (s : Store)
    → IsAlike
        (attach_root point root s).dentries
        (set_mounted point root (attach_root point root s)).dentries
unfolding set_mounted attach_root
mounted-IsAlike point root s = record { parent = λ d. ground arith; point = λ d. ground arith }

clear_mounted-IsAlike : (q : ℕ) (s : Store) → IsAlike s.dentries (clear_mounted q s).dentries
unfolding clear_mounted
clear_mounted-IsAlike q s = record { parent = λ d. ground arith; point = λ d. ground arith }

destory_mount-IsAlike : (root : ℕ) (s : Store) → IsAlike s.dentries (destory_mount root s).dentries
unfolding destory_mount set_ref
destory_mount-IsAlike root s = record { parent = λ d. ground arith; point = λ d. ground arith }

destory_mount-ref :
    (root x : ℕ) (s : Store)
    → x ≢ root
    → ((destory_mount root s).dentries x).ref ≡ (s.dentries x).ref
unfolding destory_mount set_ref
destory_mount-ref root x s ne = ground (arith, ne)

-- The only reference of the root goes, and the root with it.
destory_mount-freed :
    (root : ℕ) (s : Store)
    → (s.dentries root).ref ≡ 1
    → 1 ≤ copies root (destory_mount root s).freed
unfolding destory_mount set_ref
destory_mount-freed root s one =
    let last : ((s.dentries root).ref == 1) ≡ true = ground (arith, one) in rw last (ground arith)

twice_eq :
    (fuel q : ℕ) (s t u : Store)
    → look_up_clear fuel (some q) s ≡ some t
    → look_up_clear fuel (some q) t ≡ some u
    → clear_twice fuel q s ≡ some (ok 0, u)
unfolding clear_twice give_up
twice_eq fuel q s t u e f = rw (clear_twice, e, give_up, f) refl

-- Two walks' references given back.
clear_twice-Lowers :
    (fuel q : ℕ) (ds : List ℕ) (s : Store)
    → Chain s.dentries (some q) ds
    → length ds ≤ fuel
    → ((x : ℕ) → copies x ds + copies x ds ≤ (s.dentries x).ref)
    → (s' : Store) × (clear_twice fuel q s ≡ some (ok 0, s'))
      × ((x : ℕ) → (s'.dentries x).ref + copies x ds + copies x ds ≡ (s.dentries x).ref)
      × ((x : ℕ) → copies x s.freed ≤ copies x s'.freed)
unfolding clear_twice give_up
clear_twice-Lowers fuel q ds s c h enough =
    let (t, e, l) = look_up_clear-Lowers fuel (some q) ds s c h (λ x. omega (arith, enough x)) in
    let (u, f, m) =
      look_up_clear-Lowers fuel (some q) ds t
        (Chain-alike s.dentries t.dentries (some q) ds l.alike c) h
        (λ x. omega (arith, enough x, l.ref x)) in
    (
      u,
      twice_eq fuel q s t u e f,
      (λ x. omega (arith, l.ref x, m.ref x)),
      λ x. omega (arith, l.stays_freed x, m.stays_freed x),
    )

set_mounted-ref :
    (point root x : ℕ) (s : Store)
    → ((set_mounted point root (attach_root point root s)).dentries x).ref
      ≡ (s.dentries x).ref + (if x == point then mounted_bit else 0)
unfolding set_mounted attach_root
set_mounted-ref point root x s = ground arith

clear_mounted-ref :
    (q x : ℕ) (s : Store)
    → ((clear_mounted q s).dentries x).ref
      ≡ (s.dentries x).ref - (if x == q then mounted_bit else 0)
unfolding clear_mounted
clear_mounted-ref q x s = ground arith

-- The counts after the bit has come and gone.
bit_gone :
    (point root x : ℕ) (ds : List ℕ) (s u : Store)
    → (u.dentries x).ref
      ≡ ((set_mounted point root (attach_root point root s)).dentries x).ref + copies x ds
    → ((clear_mounted point u).dentries x).ref ≡ (s.dentries x).ref + copies x ds
bit_gone point root x ds s u e =
    clear_mounted-ref point x u ∙ omega (arith, e, set_mounted-ref point root x s)

root_parent :
    (point root : ℕ) (s : Store)
    → root ≢ point
    → ((set_mounted point root (attach_root point root s)).dentries root).parent ≡ none
unfolding set_mounted attach_root
root_parent point root s ne = ground arith

root_point :
    (point root : ℕ) (s : Store)
    → root ≢ point
    → ((set_mounted point root (attach_root point root s)).dentries root).point ≡ some point
unfolding set_mounted attach_root
root_point point root s ne = ground arith

point_mounted :
    (point root : ℕ) (s : Store)
    → ((set_mounted point root (attach_root point root s)).dentries point).mounted ≡ some root
unfolding set_mounted attach_root
point_mounted point root s = ground arith

do_umount-root :
    (fuel root q : ℕ) (u z : Store)
    → (u.dentries root).parent ≡ none
    → (u.dentries root).point ≡ some q
    → (u.dentries q).ref ≡ mounted_bit + 2
    → (u.dentries q).mounted ≡ some root
    → clear_twice fuel q (destory_mount root (clear_mounted q u)) ≡ some (ok 0, z)
    → do_umount fuel root u ≡ some (ok 0, z)
unfolding do_umount
do_umount-root fuel root q u z e f g m h =
    let same : ((u.dentries q).ref == mounted_bit + 2) ≡ true = ground (arith, g) in
    rw (do_umount, e, f, same, m) h

-- What a mount and an unmount leave.
pub record Undoes (fuel point root : ℕ) (ds : List ℕ) (s u : Store) : Type 0 where
  pub after : Store
  pub unmounts : do_umount fuel root u ≡ some (ok 0, after)
  pub ref : (x : ℕ) → x ≢ root → (after.dentries x).ref + copies x ds ≡ (s.dentries x).ref
  pub root_freed : 1 ≤ copies root after.freed

-- A directory with a parent, that only the lookup of it holds, on whose chain it stands once and the root
-- does not stand, and a root that has one reference: doMount of the root succeeds there. From any state that has one reference more for each
-- link of the directory's chain, as a lookup of the mounted root leaves it, doUMount then succeeds, with
-- the length of the chain as fuel. It frees the root, and the count of each other dentry is what it was before
-- the mount, less the references that the lookup of the mount point had taken.
pub do_umount-do_mount :
    (fuel point root : ℕ) (ds : List ℕ) (s u : Store)
    → IsFree point root s
    → Chain (attach_root point root s).dentries (some point) ds
    → copies point ds ≡ 1
    → copies root ds ≡ 0
    → length ds ≤ fuel
    → ((x : ℕ) → copies x ds ≤ (s.dentries x).ref)
    → Raises ds (set_mounted point root (attach_root point root s)) u
    → (do_mount fuel point root s ≡ some (ok 0, set_mounted point root (attach_root point root s)))
      × Undoes fuel point root ds s u
unfolding do_umount
do_umount-do_mount fuel point root ds s u v c one off h enough r =
    let t = set_mounted point root (attach_root point root s) in
    let half = clear_mounted point u in
    let w = destory_mount root half in
    let own : (if point == point then mounted_bit else 0) ≡ mounted_bit = ground arith in
    let counts = λ (x : ℕ). bit_gone point root x ds s u (r.ref x) in
    let cu = Chain-alike t.dentries u.dentries (some point) ds r.alike (
      Chain-alike (attach_root point root s).dentries t.dentries (some point) ds
        (mounted-IsAlike point root s) c) in
    let cw =
      Chain-alike half.dentries w.dentries (some point) ds (destory_mount-IsAlike root half)
        (Chain-alike u.dentries half.dentries (some point) ds (clear_mounted-IsAlike point u) cu) in
    let others = λ (x : ℕ) (ne : x ≢ root). destory_mount-ref root x half ne ∙ counts x in
    let alone : (half.dentries root).ref ≡ 1 = omega (arith, counts root, off, v.new_root) in
    let covered : (x : ℕ) → copies x ds + copies x ds ≤ (w.dentries x).ref = λ x.
      elim (Bool-cases (x == root)) [
        | inl e ↦
            let same : x ≡ root = ground (arith, e) in
            let none_there : copies x ds ≡ 0 = ap (λ y. copies y ds) same ∙ off in
            omega (arith, none_there)
        | inr e ↦ omega (arith, others x (ground (arith, e)), enough x)
      ] in
    let (z, e, l, f) = clear_twice-Lowers fuel point ds w cw h covered in
    (
      do_mount-free fuel point root s v,
      record {
        after = z;
        unmounts =
            do_umount-root fuel root point u z
              (r.alike.parent root ∙ root_parent point root s v.other)
              (r.alike.point root ∙ root_point point root s v.other)
              (omega
                (arith, r.ref point, set_mounted-ref point root point s, own, v.held_once, one))
              (r.mounted point ∙ point_mounted point root s) e;
        ref = λ x ne. omega (arith, l x, others x ne);
        root_freed = omega (arith, f root, destory_mount-freed root half alone);
      },
    )
