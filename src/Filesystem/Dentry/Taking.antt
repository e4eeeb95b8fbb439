-- ===== src/Filesystem/Dentry/Taking.antt =====
-- The references that are held for a dentry, and how vfsLookUpDentry takes them.
use docqos_old.Base.{
  ℕ, zero, suc, ◌+◌, ◌≤◌, ◌≡◌, refl, sym, ap, ◌∙◌, inl, inr, Option, none, some, Bool, true, false,
  List, [], ◌∷◌, arith, ◌==◌, if◌then◌else◌, length, Option-cases,
}
use mathlib.Core.Path.{subst}
use docqos_old.Filesystem.Dentry.{
  Dentry, Store, set_ref, holder_of, holder, beyond_of, beyond, look_up_dentry, is_set, taken_at,
  look_up_from, first_mount,
}

-- How often a dentry is on a list.
abbrev pub copies : ℕ → List ℕ → ℕ
copies d [] = 0
copies d (e ∷ es) = (if e == d then 1 else 0) + copies d es

-- The dentries on whose counts a reference to a dentry stands: it and the directories above it, where the
-- root of a mounted file system stands for the dentry that it is mounted on.
pub data Chain (dentries : ℕ → Dentry) : Option ℕ → List ℕ → Type 0 where
  top : Chain dentries none []
  link :
      (d : ℕ) (ds : List ℕ)
      → Chain dentries (beyond dentries d) ds
      → Chain dentries (some d) (holder dentries d ∷ ds)

-- Of the dentries without a parent on the way up, each has a mount or none has one.
pub data IsUniform (has_mount : Bool) (dentries : ℕ → Dentry) : Option ℕ → Type 0 where
  all_seen : IsUniform has_mount dentries none
  same_here :
      (d : ℕ)
      → ((dentries d).parent ≡ none → is_set (dentries d).point ≡ has_mount)
      → IsUniform has_mount dentries (beyond dentries d)
      → IsUniform has_mount dentries (some d)

-- Two stores whose dentries stand in the same places.
pub record IsAlike (s s' : ℕ → Dentry) : Type 0 where
  pub parent : (d : ℕ) → (s' d).parent ≡ (s d).parent
  pub point : (d : ℕ) → (s' d).point ≡ (s d).point

pub set_ref-IsAlike : (d n : ℕ) (s : Store) → IsAlike s.dentries (set_ref d n s).dentries
unfolding set_ref
set_ref-IsAlike d n s = record { parent = λ e. ground arith; point = λ e. ground arith }

pub holder-alike : (s s' : ℕ → Dentry) (d : ℕ) → IsAlike s s' → holder s' d ≡ holder s d
unfolding holder
holder-alike s s' d a =
    ap (λ (o : Option ℕ). holder_of o (s' d).point d) (a.parent d)
    ∙ ap (λ (o : Option ℕ). holder_of (s d).parent o d) (a.point d)

pub beyond-alike : (s s' : ℕ → Dentry) (d : ℕ) → IsAlike s s' → beyond s' d ≡ beyond s d
unfolding beyond
beyond-alike s s' d a =
    ap (λ (o : Option ℕ). beyond_of o (s' (holder s' d)).parent) (a.parent d)
    ∙ ap (beyond_of (s d).parent)
        (ap (λ (h : ℕ). (s' h).parent) (holder-alike s s' d a) ∙ a.parent (holder s d))

pub Chain-alike :
    (s s' : ℕ → Dentry) (o : Option ℕ) (ds : List ℕ) → IsAlike s s' → Chain s o ds → Chain s' o ds
Chain-alike s s' o ds a top = top
Chain-alike s s' o ds a (link d es c) =
    subst (λ (h : ℕ). Chain s' (some d) (h ∷ es)) (holder-alike s s' d a)
      (link d es (
        subst (λ (b : Option ℕ). Chain s' b es) (sym (beyond-alike s s' d a))
          (Chain-alike s s' (beyond s d) es a c)))

IsUniform-alike :
    (has : Bool) (s s' : ℕ → Dentry) (o : Option ℕ)
    → IsAlike s s'
    → IsUniform has s o
    → IsUniform has s' o
IsUniform-alike has s s' o a all_seen = all_seen
IsUniform-alike has s s' o a (same_here d e u) =
    same_here d (λ p. ap is_set (a.point d) ∙ e (sym (a.parent d) ∙ p))
      (subst (IsUniform has s') (sym (beyond-alike s s' d a))
        (IsUniform-alike has s s' (beyond s d) a u))

parts_at :
    (has : Bool) (s : ℕ → Dentry) (d : ℕ)
    → IsUniform has s (some d)
    → ((s d).parent ≡ none → is_set (s d).point ≡ has) × IsUniform has s (beyond s d)
parts_at has s d (same_here _ e u) = (e, u)

-- Where the dentry has a mount or not, as the first one has, both loops take the same count.
taken_at-holder :
    (has : Bool) (dentries : ℕ → Dentry) (d : ℕ)
    → ((dentries d).parent ≡ none → is_set (dentries d).point ≡ has)
    → taken_at has dentries d ≡ some (holder dentries d)
unfolding taken_at holder
taken_at-holder has dentries d same = elim (Option-cases (dentries d).parent) [
  | inr (p, e) ↦ rw (taken_at, e, holder) refl
  | inl e ↦ elim (Option-cases (dentries d).point) [
    | inl n ↦
        let h : false ≡ has = sym (ap is_set n) ∙ same e in rw (taken_at, e, holder, n, ← h) refl
    | inr (q, n) ↦
        let h : true ≡ has = sym (ap is_set n) ∙ same e in rw (taken_at, e, holder, n, ← h) refl
  ]
]

-- The counts go up by one for each time that a dentry is on a list, and nothing else changes.
pub record Raises (ds : List ℕ) (s s' : Store) : Type 0 where
  pub ref : (d : ℕ) → (s'.dentries d).ref ≡ (s.dentries d).ref + copies d ds
  pub alike : IsAlike s.dentries s'.dentries
  pub mounted : (d : ℕ) → (s'.dentries d).mounted ≡ (s.dentries d).mounted
  pub cache : s'.cache ≡ s.cache
  pub freed : s'.freed ≡ s.freed

pub set_ref-ref :
    (d n e : ℕ) (s : Store)
    → ((set_ref d n s).dentries e).ref ≡ (if e == d then n else (s.dentries e).ref)
unfolding set_ref
set_ref-ref d n e s = ground arith

set_ref-mounted :
    (d n e : ℕ) (s : Store) → ((set_ref d n s).dentries e).mounted ≡ (s.dentries e).mounted
unfolding set_ref
set_ref-mounted d n e s = ground arith

pub IsAlike-trans : (s t u : ℕ → Dentry) → IsAlike s t → IsAlike t u → IsAlike s u
IsAlike-trans s t u a b = record {
  parent = λ d. b.parent d ∙ a.parent d;
  point = λ d. b.point d ∙ a.point d;
}

look_up_from-next :
    (has : Bool) (fuel d : ℕ) (s : Store)
    → ((s.dentries d).parent ≡ none → is_set (s.dentries d).point ≡ has)
    → look_up_from has (suc fuel) (some d) s
      ≡ look_up_from has fuel
          (beyond s.dentries d)
          (set_ref (holder s.dentries d) ((s.dentries (holder s.dentries d)).ref + 1) s)
unfolding look_up_from beyond
look_up_from-next has fuel d s same =
    rw (look_up_from, taken_at-holder has s.dentries d same, beyond) refl

look_up_from-Raises :
    (has : Bool) (fuel : ℕ) (s : Store) (o : Option ℕ) (ds : List ℕ)
    → Chain s.dentries o ds
    → IsUniform has s.dentries o
    → length ds ≤ fuel
    → (s' : Store) × (look_up_from has fuel o s ≡ some s') × Raises ds s s'
unfolding look_up_from
look_up_from-Raises has fuel s o ds top u h = (
  s,
  refl,
  record {
    ref = λ d. omega arith;
    alike = record { parent = λ d. refl; point = λ d. refl };
    mounted = λ d. refl;
    cache = refl;
    freed = refl;
  },
)
look_up_from-Raises has zero s o ds (link d es c) u h = absurd (omega (arith, h))
look_up_from-Raises has (suc fuel) s o ds (link d es c) v h =
    let (same, u) = parts_at has s.dentries d v in
    let k = holder s.dentries d in
    let t = set_ref k ((s.dentries k).ref + 1) s in
    let a = set_ref-IsAlike k ((s.dentries k).ref + 1) s in
    let (s', e, r) =
      look_up_from-Raises has fuel t (beyond s.dentries d) es
        (Chain-alike s.dentries t.dentries (beyond s.dentries d) es a c)
        (IsUniform-alike has s.dentries t.dentries (beyond s.dentries d) a u) (omega (arith, h)) in
    (
      s',
      look_up_from-next has fuel d s same ∙ e,
      record {
        ref = λ x. r.ref x ∙ ground (arith, set_ref-ref k ((s.dentries k).ref + 1) x s);
        alike = IsAlike-trans s.dentries t.dentries s'.dentries a r.alike;
        mounted = λ x. r.mounted x ∙ set_ref-mounted k ((s.dentries k).ref + 1) x s;
        cache = r.cache;
        freed = r.freed;
      },
    )

-- Where the dentries without a parent on the way have a mount or not, as the first one has, and with fuel for
-- the dentries above, vfsLookUpDentry takes one reference for each link of the chain.
pub look_up_dentry-Raises :
    (fuel : ℕ) (o : Option ℕ) (ds : List ℕ) (s : Store)
    → Chain s.dentries o ds
    → IsUniform (first_mount s.dentries o) s.dentries o
    → length ds ≤ fuel
    → (s' : Store) × (look_up_dentry fuel o s ≡ some s') × Raises ds s s'
unfolding look_up_dentry
look_up_dentry-Raises fuel o ds s = look_up_from-Raises (first_mount s.dentries o) fuel s o ds
