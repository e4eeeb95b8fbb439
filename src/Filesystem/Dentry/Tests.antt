-- ===== src/Filesystem/Dentry/Tests.antt =====
-- Lookups in a small tree: the dentry 0 is the first root, 1 the root that is mounted on it, and 2 the
-- directory `a` in it.
use docqos_old.Base.{
  ℕ, ◌≡◌, refl, sym, ap, true, false, Option, none, some, List, [], ◌∷◌, arith, ◌==◌, if◌then◌else◌,
}
use mathlib.Core.Path.{subst}
use mathlib.Core.Bool.{true≢false}
use mathlib.Core.Option.{none-ne-some, some-injective}
use docqos_old.Filesystem.Dentry.{
  Dentry, Store, hash_from, hash_name, hash_dentry, same_name, matches, first_match, holder, beyond,
  set_ref, look_up_dentry, look_up_from, taken_at, Component, here, named, component, above,
  cache_look_up, take_match, target, new_dentry, add_dentry, step, step_down,
}
use docqos_old.Filesystem.Dentry.Taking.{Chain, top, link, IsUniform, all_seen, same_here}
use docqos_old.Filesystem.Dentry.Chains.{Restores, look_up_clear-look_up_dentry}
use docqos_old.Filesystem.Dentry.Steps.{FindsChild, IsChild}
use docqos_old.Filesystem.Dentry.Walk.{Visit}
use docqos_old.Filesystem.Dentry.Walk.Holding.{IsSound, IsReady, Returns, look_up-Returns}

abbrev dentry : ℕ → Option ℕ → Option ℕ → List ℕ → Dentry
dentry ref parent point name = record {
  ref = ref;
  parent = parent;
  point = point;
  name = name;
  hash = hash_name name;
  mounted = none;
  is_directory = true;
}

abbrev small : Store
small = record {
  dentries = λ d.
      if d == 0
      then record (dentry 65538 none none []) { mounted = some 1 }
      else if d == 1
      then dentry 1 none (some 0) []
      else if d == 2
      then dentry 1 (some 1) (some 0) (97 ∷ [])
      else dentry 0 none none [];
  cache = λ b. if b == hash_dentry 1 (hash_name (97 ∷ [])) then 2 ∷ [] else [];
  freed = [];
}

dots : component (46 ∷ 46 ∷ []) ≡ above
unfolding component same_name
dots = refl

hash_a : hash_name (97 ∷ []) ≡ 17138
unfolding hash_name hash_from
hash_a = refl

-- Two directories 2 ^ 17 bytes apart share a bucket, and a lookup in the one finds the other's entry.
same_bucket : hash_dentry 131073 (hash_name (97 ∷ [])) ≡ hash_dentry 1 (hash_name (97 ∷ []))
unfolding hash_dentry hash_name hash_from
same_bucket = refl

chain_of_1 : Chain small.dentries (some 1) (0 ∷ [])
unfolding holder beyond
chain_of_1 = link 1 [] top

same_above : IsUniform true small.dentries (some 1)
unfolding holder beyond
same_above = same_here 1 (λ p. refl) all_seen

look_up_clear-look_up_dentry_example : Restores 5 (some 1) small
look_up_clear-look_up_dentry_example =
    look_up_clear-look_up_dentry 5 (some 1) (0 ∷ []) small chain_of_1 same_above (omega arith)
      (λ d h. ground arith)

abbrev started : Store
started = set_ref 0 65539 small

starts : look_up_dentry 1 (some 1) small ≡ some started
unfolding look_up_dentry look_up_from taken_at set_ref
starts = refl

abbrev to_a : Visit
to_a = record { name = named (97 ∷ []); last = false; new = 9; answer = none }

abbrev to_b : Visit
to_b = record { name = named (98 ∷ []); last = true; new = 9; answer = some false }

abbrev at_a : Store
at_a = set_ref 2 2 started

abbrev name_of : Component → List ℕ
name_of (named n) = n
name_of here = []
name_of above = []

started-IsChild : IsChild 1 started 2
unfolding set_ref
started-IsChild = record { parent = refl; mounted = λ m. absurd (true≢false (sym m)) }

finds_a : (n : List ℕ) → named (97 ∷ []) ≡ named n → FindsChild 1 n started
unfolding set_ref first_match matches same_name hash_dentry hash_name hash_from
finds_a n e c f =
    let f' : some 2 ≡ some c =
      subst
        (λ (m : List ℕ).
          first_match (hash_name m) m started.dentries (started.cache (hash_dentry 1 (hash_name m)))
          ≡ some c)
        (sym (ap name_of e)) f in
    subst (IsChild 1 started) (some-injective 2 c f') started-IsChild

finds_b : (n : List ℕ) → named (98 ∷ []) ≡ named n → FindsChild 2 n at_a
unfolding set_ref first_match matches same_name hash_dentry hash_name hash_from
finds_b n e c f =
    let f' : none ≡ some c =
      subst
        (λ (m : List ℕ).
          first_match (hash_name m) m at_a.dentries (at_a.cache (hash_dentry 2 (hash_name m)))
          ≡ some c)
        (sym (ap name_of e)) f in
    absurd (none-ne-some c f')

to_a-IsReady : IsReady to_a 1 started
unfolding set_ref
to_a-IsReady = record {
  mounted = λ e f. none-ne-some 0 (sym f);
  fresh = record { unused = refl; no_parent = λ d e. ground arith; no_point = λ d e. ground arith };
  other = λ e. omega arith;
  child = finds_a;
}

to_b-IsReady : IsReady to_b 2 at_a
unfolding set_ref
to_b-IsReady = record {
  mounted = λ e f. none-ne-some 0 (sym f);
  fresh = record { unused = refl; no_parent = λ d e. ground arith; no_point = λ d e. ground arith };
  other = λ e. omega arith;
  child = finds_b;
}

walk-IsSound : IsSound (to_a ∷ to_b ∷ []) 1 1 started
unfolding step step_down cache_look_up take_match target set_ref first_match matches same_name
    hash_dentry hash_name hash_from new_dentry add_dentry
walk-IsSound = (to_a-IsReady, (to_b-IsReady, tt))

look_up-Returns_example : Returns (to_a ∷ to_b ∷ []) 1 1 small
look_up-Returns_example =
    look_up-Returns (to_a ∷ to_b ∷ []) 1 1 small started (0 ∷ []) chain_of_1 same_above starts
      walk-IsSound
