-- ===== src/Filesystem/Dentry/Walk/Holding.antt =====
-- The references that a whole lookup leaves behind.
use docqos_old.Base.{
  inl, inr, Bool, Option-cases, ℕ, zero, suc, ◌+◌, ◌≤◌, ◌≡◌, refl, sym, ◌∙◌, ◌≢◌, Option, none,
  some, List, [], ◌∷◌, arith, length,
}
use mathlib.Core.Path.{subst}
use mathlib.Core.Option.{none-ne-some, some-injective}
use docqos_old.Base.Errno.{Errno, enoent}
use docqos_old.Filesystem.Dentry.{
  Store, look_up_dentry, look_up_from, first_mount, taken_at, look_up_clear, Outcome, at, fails_at,
  faults, named, step,
}
use docqos_old.Filesystem.Dentry.Taking.{
  copies, Chain, Chain-alike, IsUniform, look_up_dentry-Raises,
}
use docqos_old.Filesystem.Dentry.Chains.{look_up_clear-Lowers}
use docqos_old.Filesystem.Dentry.Steps.{Moves, Holds, IsFresh, FindsChild, step-Holds}
use docqos_old.Filesystem.Dentry.Walk.{Visit, walk, Result, found, error, ending, look_up}

-- What a step asks for at the dentry that it starts from.
pub record IsReady (v : Visit) (ret : ℕ) (s : Store) : Type 0 where
  pub mounted : (s.dentries ret).parent ≡ none → (s.dentries ret).point ≢ none
  pub fresh : IsFresh v.new s
  pub other : ret ≢ v.new
  pub child : (n : List ℕ) → v.name ≡ named n → FindsChild ret n s

-- Each step of a walk finds what it asks for.
abbrev pub AfterStep : (ℕ → Store → Type 0) → Outcome → Type 0
AfterStep P (at d s) = P d s
AfterStep P (fails_at d s) = Unit
AfterStep P faults = Unit

abbrev pub IsSound : List Visit → (root ret : ℕ) → Store → Type 0
IsSound [] root ret s = Unit
IsSound (v ∷ vs) root ret s =
    IsReady v ret s
    × AfterStep (λ d s'. IsSound vs root d s') (step v.name v.last root v.new v.answer ret s)

-- The counts cover the chain, and are above it what they are in `s`.
record Covers (s : Store) (d : ℕ) (s' : Store) : Type 0 where
  chain : List ℕ
  held : Chain s'.dentries (some d) chain
  ref : (x : ℕ) → (s'.dentries x).ref ≡ (s.dentries x).ref + copies x chain

abbrev CoversAt : Store → Outcome → Type 0
CoversAt s (at d s') = Covers s d s'
CoversAt s (fails_at d s') = Covers s d s'
CoversAt s faults = ⊥

Covers-Moves : (s t u : Store) (d e : ℕ) (v : Covers s d t) → Moves t v.chain e u → Covers s e u
Covers-Moves s t u d e v m = record {
  chain = m.chain;
  held = m.held;
  ref = λ x. omega (arith, v.ref x, m.ref x);
}

after-CoversAt :
    (vs : List Visit) (root d : ℕ) (s t : Store) (v : Covers s d t) (o : Outcome)
    → ((e : ℕ) (u : Store) → Covers s e u → IsSound vs root e u → CoversAt s (walk vs root e u))
    → Holds t v.chain o
    → AfterStep (λ e u. IsSound vs root e u) o
    → CoversAt s
        (elim o [ at e u ↦ walk vs root e u | fails_at e u ↦ fails_at e u | faults ↦ faults ])
after-CoversAt vs root d s t v (at e u) rest m sound = rest e u (Covers-Moves s t u d e v m) sound
after-CoversAt vs root d s t v (fails_at e u) rest m sound = Covers-Moves s t u d e v m
after-CoversAt vs root d s t v faults rest m sound = m

walk-CoversAt :
    (vs : List Visit) (root ret : ℕ) (s t : Store)
    → Covers s ret t
    → IsSound vs root ret t
    → CoversAt s (walk vs root ret t)
unfolding walk
walk-CoversAt [] root ret s t v sound = v
walk-CoversAt (w ∷ vs) root ret s t v (r, rest) =
    after-CoversAt vs root ret s t v (step w.name w.last root w.new w.answer ret t)
      (λ e u. walk-CoversAt vs root e s u)
      (step-Holds w.name w.last root w.new w.answer ret t v.chain v.held
        (λ x. omega (arith, v.ref x)) r.mounted r.fresh r.other r.child)
      rest

-- What a lookup leaves: a dentry, with a reference more on each link of its chain, or an error, with the
-- counts as before.
pub data Settled (s : Store) : Result → Type 0 where
  holds :
      (d : ℕ) (s' : Store) (chain : List ℕ)
      → Chain s'.dentries (some d) chain
      → ((x : ℕ) → (s'.dentries x).ref ≡ (s.dentries x).ref + copies x chain)
      → Settled s (found d s')
  restored :
      (e : Errno) (s' : Store)
      → ((x : ℕ) → (s'.dentries x).ref ≡ (s.dentries x).ref)
      → Settled s (error e s')

-- The end of a walk, and the fuel that it needs.
record Ends (s : Store) (o : Outcome) : Type 0 where
  bound : ℕ
  ends : (fuel : ℕ) → bound ≤ fuel → (r : Result) × (ending fuel o ≡ some r) × Settled s r

ending-fails :
    (fuel d : ℕ) (u w : Store)
    → look_up_clear fuel (some d) u ≡ some w
    → ending fuel (fails_at d u) ≡ some (error enoent w)
unfolding ending
ending-fails fuel d u w e = rw (ending, e) refl

-- More fuel gives vfsLookUpDentry the same result.
look_up_from-more :
    (has : Bool) (few fuel : ℕ) (o : Option ℕ) (s t : Store)
    → few ≤ fuel
    → look_up_from has few o s ≡ some t
    → look_up_from has fuel o s ≡ some t
unfolding look_up_from
look_up_from-more has few fuel none s t h e = e
look_up_from-more has zero fuel (some d) s t h e = absurd (none-ne-some t e)
look_up_from-more has (suc few) zero (some d) s t h e = absurd (omega (arith, h))
look_up_from-more has (suc few) (suc fuel) (some d) s t h e =
    elim (Option-cases (taken_at has s.dentries d)) [
      | inl n ↦ absurd (none-ne-some t (rw (look_up_from, n) at e))
      | inr (k, n) ↦
          rw (look_up_from, n)
            (look_up_from-more has few fuel _ _ t (omega (arith, h)) (rw (look_up_from, n) at e))
    ]

look_up_dentry-more :
    (few fuel : ℕ) (o : Option ℕ) (s t : Store)
    → few ≤ fuel
    → look_up_dentry few o s ≡ some t
    → look_up_dentry fuel o s ≡ some t
unfolding look_up_dentry
look_up_dentry-more few fuel o s t = look_up_from-more (first_mount s.dentries o) few fuel o s t

ending-Ends : (s : Store) (o : Outcome) → CoversAt s o → Ends s o
unfolding ending
ending-Ends s (at d u) v = record {
  bound = 0;
  ends = λ fuel h. (found d u, refl, holds d u v.chain v.held v.ref);
}
ending-Ends s (fails_at d u) v = record {
  bound = length v.chain;
  ends = λ fuel h.
      let (w, e, l) =
        look_up_clear-Lowers fuel (some d) v.chain u v.held h (λ x. omega (arith, v.ref x)) in
      (
        error enoent w,
        ending-fails fuel d u w e,
        restored enoent w (λ x. omega (arith, l.ref x, v.ref x)),
      );
}
ending-Ends s faults v = absurd v

-- A lookup that returns with any fuel from a bound on.
pub record Returns (vs : List Visit) (root first : ℕ) (s : Store) : Type 0 where
  pub bound : ℕ
  pub returns :
      (fuel : ℕ)
      → bound ≤ fuel
      → (r : Result) × (look_up fuel vs root first s ≡ some r) × Settled s r

look_up-ending :
    (fuel : ℕ) (vs : List Visit) (root first : ℕ) (s t : Store)
    → look_up_dentry fuel (some first) s ≡ some t
    → look_up fuel vs root first s ≡ ending fuel (walk vs root first t)
unfolding look_up
look_up-ending fuel vs root first s t e = rw (look_up, e) refl

-- vfsLookUp from a dentry with a chain to the top, on which each dentry without a parent has a mount just when
-- the first dentry has one, where each step finds what it asks for: there is a bound
-- such that with any fuel from it on the lookup returns. It returns a dentry, and then the counts have
-- one reference more for each link of that dentry's chain; or an error, and then each count is what it was.
-- What a step asks for: the root of a mounted file system knows where it is mounted, a new dentry comes at
-- an address that no dentry names, and the table gives a dentry of the directory that it is asked for.
pub look_up-Returns :
    (vs : List Visit) (root first : ℕ) (s t : Store) (ds : List ℕ)
    → Chain s.dentries (some first) ds
    → IsUniform (first_mount s.dentries (some first)) s.dentries (some first)
    → look_up_dentry (length ds) (some first) s ≡ some t
    → IsSound vs root first t
    → Returns vs root first s
unfolding look_up
look_up-Returns vs root first s t ds c u e sound =
    let (t', e', r) = look_up_dentry-Raises (length ds) (some first) ds s c u (omega arith) in
    let same : t' ≡ t = some-injective _ _ (sym e' ∙ e) in
    let v : Covers s first t = subst (Covers s first) same (record {
      chain = ds;
      held = Chain-alike s.dentries t'.dentries (some first) ds r.alike c;
      ref = r.ref;
    }) in
    let end = ending-Ends s (walk vs root first t) (walk-CoversAt vs root first s t v sound) in
    record {
      bound = length ds + end.bound;
      returns = λ fuel h.
          let (q, f, z) = end.ends fuel (omega (arith, h)) in
          (
            q,
            look_up-ending fuel vs root first s t
                  (look_up_dentry-more (length ds) fuel (some first) s t (omega (arith, h)) e)
                ∙ f,
            z,
          );
    }
