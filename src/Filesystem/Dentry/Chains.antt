-- ===== src/Filesystem/Dentry/Chains.antt =====
-- The references that are held for a dentry, given back.
use docqos_old.Base.{
  ℕ, zero, suc, ◌+◌, ◌-◌, ◌≤◌, ◌<◌, ◌≡◌, refl, ap, ◌∙◌, ◌⊎◌, inl, inr, Option, some, List, arith,
  ◌==◌, if◌then◌else◌, length, Bool-cases, Option-cases,
}
use docqos_old.Filesystem.Dentry.{
  Store, set_ref, destory_dentry, holder_of, holder, beyond, look_up_dentry, first_mount, drop,
  look_up_clear,
}
use docqos_old.Filesystem.Dentry.Taking.{
  copies, Chain, IsUniform, IsAlike, set_ref-IsAlike, Chain-alike, set_ref-ref, IsAlike-trans,
  look_up_dentry-Raises, top, link,
}

-- What drop does to a store.
pub record Drops (d : ℕ) (s s' : Store) : Type 0 where
  pub ref :
      (e : ℕ)
      → (s'.dentries e).ref
        ≡ (if e == holder s.dentries d then (s.dentries e).ref - 1 else (s.dentries e).ref)
  pub alike : IsAlike s.dentries s'.dentries
  pub kept :
      2 ≤ (s.dentries (holder s.dentries d)).ref → (s'.cache ≡ s.cache) × (s'.freed ≡ s.freed)
  pub unused : (e : ℕ) → (copies e s'.freed ≡ copies e s.freed) ⊎ ((s'.dentries e).ref ≡ 0)
  pub stays_freed : (e : ℕ) → copies e s.freed ≤ copies e s'.freed

less-Drops :
    (d : ℕ) (s : Store)
    → Drops d s (set_ref (holder s.dentries d) ((s.dentries (holder s.dentries d)).ref - 1) s)
unfolding set_ref
less-Drops d s =
    let h = holder s.dentries d in
    let n = (s.dentries h).ref - 1 in
    record {
      ref = λ e. set_ref-ref h n e s ∙ ground arith;
      alike = set_ref-IsAlike h n s;
      kept = λ two. (refl, refl);
      unused = λ e. inl refl;
      stays_freed = λ e. omega arith;
    }

gone-Drops :
    (d p : ℕ) (s : Store)
    → (s.dentries d).parent ≡ some p
    → (s.dentries (holder s.dentries d)).ref - 1 ≡ 0
    → Drops d s (
        destory_dentry d
          (set_ref (holder s.dentries d) ((s.dentries (holder s.dentries d)).ref - 1) s))
unfolding set_ref destory_dentry holder
gone-Drops d p s o z =
    let h = holder s.dentries d in
    let n = (s.dentries h).ref - 1 in
    let l = less-Drops d s in
    let own : h ≡ d = ap (λ (q : Option ℕ). holder_of q (s.dentries d).point d) o in
    record {
      ref = l.ref;
      alike = l.alike;
      kept = λ two. absurd (omega (arith, two, z));
      unused = λ e. elim (Bool-cases (d == e)) [
        | inl same ↦ inr (l.ref e ∙ ground (arith, same, own, z))
        | inr other ↦ inl (ground (arith, other))
      ];
      stays_freed = λ e. omega arith;
    }

pub drop-Drops : (d : ℕ) (s : Store) → Drops d s (drop d s)
unfolding drop
drop-Drops d s = elim (Option-cases (s.dentries d).parent) [
  | inl o ↦ rw (drop, o) (less-Drops d s)
  | inr (p, o) ↦ elim (Bool-cases ((s.dentries (holder s.dentries d)).ref - 1 == 0)) [
    | inl z ↦ rw (drop, o, z) (gone-Drops d p s o (ground (arith, z)))
    | inr more ↦ rw (drop, o, more) (less-Drops d s)
  ]
]

-- The counts go down by one for each time that a dentry is on a list; what is freed has no reference left;
-- and when each keeps one, the table is as before and nothing is freed.
pub record Lowers (ds : List ℕ) (s s' : Store) : Type 0 where
  pub ref : (d : ℕ) → (s'.dentries d).ref + copies d ds ≡ (s.dentries d).ref
  pub alike : IsAlike s.dentries s'.dentries
  pub kept :
      ((d : ℕ) → 1 ≤ copies d ds → copies d ds < (s.dentries d).ref)
      → (s'.cache ≡ s.cache) × (s'.freed ≡ s.freed)
  pub unused : (d : ℕ) → (copies d s'.freed ≡ copies d s.freed) ⊎ ((s'.dentries d).ref ≡ 0)
  pub stays_freed : (d : ℕ) → copies d s.freed ≤ copies d s'.freed

-- With fuel for the dentries above, and a reference on each count for each link of the chain,
-- vfsLookUpClear gives them back.
pub look_up_clear-Lowers :
    (fuel : ℕ) (o : Option ℕ) (ds : List ℕ) (s : Store)
    → Chain s.dentries o ds
    → length ds ≤ fuel
    → ((d : ℕ) → copies d ds ≤ (s.dentries d).ref)
    → (s' : Store) × (look_up_clear fuel o s ≡ some s') × Lowers ds s s'
unfolding look_up_clear
look_up_clear-Lowers fuel o ds s top h enough = (
  s,
  refl,
  record {
    ref = λ d. omega arith;
    alike = record { parent = λ d. refl; point = λ d. refl };
    kept = λ more. (refl, refl);
    unused = λ d. inl refl;
    stays_freed = λ d. omega arith;
  },
)
look_up_clear-Lowers zero o ds s (link d es c) h enough = absurd (omega (arith, h))
look_up_clear-Lowers (suc fuel) o ds s (link d es c) h enough =
    let k = holder s.dentries d in
    let t = drop d s in
    let a = drop-Drops d s in
    let (s', e, r) =
      look_up_clear-Lowers fuel (beyond s.dentries d) es t
        (Chain-alike s.dentries t.dentries (beyond s.dentries d) es a.alike c) (omega (arith, h))
        (λ x. ground (arith, enough x, a.ref x)) in
    (
      s',
      e,
      record {
        ref = λ x. ground (arith, r.ref x, a.ref x, enough x);
        alike = IsAlike-trans s.dentries t.dentries s'.dentries a.alike r.alike;
        kept = λ more.
            let first = a.kept (ground (arith, more k)) in
            let rest = r.kept (λ x one. ground (arith, more x, a.ref x)) in
            (rest.0 ∙ first.0, rest.1 ∙ first.1);
        unused = λ x. elim (r.unused x) [
          | inr z ↦ inr z
          | inl same ↦ elim (a.unused x) [
            | inl before ↦ inl (same ∙ before)
            | inr z ↦ inr (omega (arith, r.ref x, z))
          ]
        ];
        stays_freed = λ x. omega (arith, a.stays_freed x, r.stays_freed x);
      },
    )

-- A walk's references taken and given back.
pub record Restores (fuel : ℕ) (o : Option ℕ) (s : Store) : Type 0 where
  pub taken : Store
  pub after : Store
  pub takes : look_up_dentry fuel o s ≡ some taken
  pub gives : look_up_clear fuel o taken ≡ some after
  pub ref : (d : ℕ) → (after.dentries d).ref ≡ (s.dentries d).ref
  pub cache : after.cache ≡ s.cache
  pub freed : after.freed ≡ s.freed

-- vfsLookUpDentry and then vfsLookUpClear, on a dentry whose chain is as long as the fuel at most, each
-- dentry of which has a reference to begin with, and on the way up from which each dentry without a parent
-- has a mount just when the first dentry has one: both come to an end, and leave each reference count, the
-- table and the freed dentries as they were.
pub look_up_clear-look_up_dentry :
    (fuel : ℕ) (o : Option ℕ) (ds : List ℕ) (s : Store)
    → Chain s.dentries o ds
    → IsUniform (first_mount s.dentries o) s.dentries o
    → length ds ≤ fuel
    → ((d : ℕ) → 1 ≤ copies d ds → 1 ≤ (s.dentries d).ref)
    → Restores fuel o s
look_up_clear-look_up_dentry fuel o ds s c same_mount h used =
    let (t, e, r) = look_up_dentry-Raises fuel o ds s c same_mount h in
    let (u, f, l) =
      look_up_clear-Lowers fuel o ds t (Chain-alike s.dentries t.dentries o ds r.alike c) h
        (λ d. omega (arith, r.ref d)) in
    let same = l.kept (λ d one. omega (arith, r.ref d, used d one)) in
    record {
      taken = t;
      after = u;
      takes = e;
      gives = f;
      ref = λ d. omega (arith, l.ref d, r.ref d);
      cache = same.0 ∙ r.cache;
      freed = same.1 ∙ r.freed;
    }
