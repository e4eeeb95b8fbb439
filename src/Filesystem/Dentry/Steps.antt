-- ===== src/Filesystem/Dentry/Steps.antt =====
-- The references that a walk holds, after each of its steps.
use docqos_old.Base.{
  ℕ, ◌+◌, ◌≤◌, ◌≡◌, refl, sym, ap, ◌∙◌, ◌≢◌, inl, inr, Bool, true, false, ◌||◌, Option, none, some,
  List, ◌∷◌, arith, ◌==◌, if◌then◌else◌, Bool-cases, Option-cases,
}
use mathlib.Core.Path.{subst}
use mathlib.Core.Option.{some-injective}
use docqos_old.Filesystem.Dentry.{
  Dentry, Store, put, set_ref, holder_of, holder, beyond_of, beyond, drop, Outcome, at, fails_at,
  faults, step_up, is_mounted, target, take_match, cache_look_up, hash_name, hash_dentry,
  new_dentry, add_dentry, step_down, Component, here, above, named, step, first_match,
}
use docqos_old.Filesystem.Dentry.Taking.{copies, Chain, top, link, set_ref-IsAlike, Chain-alike}
use docqos_old.Filesystem.Dentry.Chains.{drop-Drops}

-- Where the walk stands, from a store and a chain to others: what the counts are above the references of
-- the chain is the same.
pub record Moves (s : Store) (ds : List ℕ) (d : ℕ) (s' : Store) : Type 0 where
  pub chain : List ℕ
  pub held : Chain s'.dentries (some d) chain
  pub ref : (x : ℕ) → (s'.dentries x).ref + copies x ds ≡ (s.dentries x).ref + copies x chain

-- A step ends at a dentry in this way, where it goes on or where it fails.
abbrev pub Holds : Store → List ℕ → Outcome → Type 0
Holds s ds (at d s') = Moves s ds d s'
Holds s ds (fails_at d s') = Moves s ds d s'
Holds s ds faults = ⊥

stays : (d : ℕ) (ds : List ℕ) (s : Store) → Chain s.dentries (some d) ds → Moves s ds d s
stays d ds s c = record { chain = ds; held = c; ref = λ x. refl }

-- One reference of the chain given back.
drop-Moves :
    (d p : ℕ) (s : Store) (ds : List ℕ)
    → Chain s.dentries (some d) ds
    → beyond s.dentries d ≡ some p
    → ((x : ℕ) → copies x ds ≤ (s.dentries x).ref)
    → Moves s ds p (drop d s)
drop-Moves d p s ds (link _ es c) b enough =
    let a = drop-Drops d s in
    record {
      chain = es;
      held =
          subst (λ (o : Option ℕ). Chain (drop d s).dentries o es) b
            (Chain-alike s.dentries (drop d s).dentries (beyond s.dentries d) es a.alike c);
      ref = λ x. ground (arith, a.ref x, enough x);
    }

step_up-Holds :
    (root ret : ℕ) (s : Store) (ds : List ℕ)
    → Chain s.dentries (some ret) ds
    → ((x : ℕ) → copies x ds ≤ (s.dentries x).ref)
    → ((s.dentries ret).parent ≡ none → (s.dentries ret).point ≢ none)
    → Holds s ds (step_up root ret s)
unfolding step_up beyond holder
step_up-Holds root ret s ds c enough mounted = elim (Option-cases (s.dentries ret).parent) [
  | inr (p, e) ↦
      let b : beyond s.dentries ret ≡ some p =
        ap (λ (o : Option ℕ). beyond_of o (s.dentries (holder s.dentries ret)).parent) e in
      rw (step_up, e) (drop-Moves ret p s ds c b enough)
  | inl e ↦ elim (Option-cases (s.dentries ret).point) [
    | inl f ↦ absurd (mounted e f)
    | inr (q, f) ↦ elim (Option-cases (s.dentries q).parent) [
      | inl g ↦ rw (step_up, e, f, g) (stays ret ds s c)
      | inr (p, g) ↦ elim (Bool-cases (ret == root)) [
        | inl h ↦ rw (step_up, e, f, g, h) (stays ret ds s c)
        | inr h ↦
            let k : holder s.dentries ret ≡ q =
              ap (λ (o : Option ℕ). holder_of o (s.dentries ret).point ret) e
              ∙ ap (λ (o : Option ℕ). holder_of none o ret) f in
            let b : beyond s.dentries ret ≡ some p =
              ap (λ (o : Option ℕ). beyond_of o (s.dentries (holder s.dentries ret)).parent) e
              ∙ ap (λ (n : ℕ). (s.dentries n).parent) k
              ∙ g in
            rw (step_up, e, f, g, h) (drop-Moves ret p s ds c b enough)
      ]
    ]
  ]
]

-- A dentry that is found stands in the directory that it was looked for in, and what is mounted on it
-- has its root there.
pub record IsChild (ret : ℕ) (s : Store) (c : ℕ) : Type 0 where
  pub parent : (s.dentries c).parent ≡ some ret
  pub mounted :
      is_mounted (s.dentries c).ref ≡ true
      → (r : ℕ) × ((s.dentries c).mounted ≡ some r)
        × ((s.dentries r).parent ≡ none)
        × ((s.dentries r).point ≡ some c)

-- A chain longer by one, from its parts.
longer :
    (dentries : ℕ → Dentry) (d h p : ℕ) (ds : List ℕ)
    → holder dentries d ≡ h
    → beyond dentries d ≡ some p
    → Chain dentries (some p) ds
    → Chain dentries (some d) (h ∷ ds)
longer dentries d h p ds e b c =
    subst (λ (k : ℕ). Chain dentries (some d) (k ∷ ds)) e
      (link d ds (subst (λ (o : Option ℕ). Chain dentries o ds) (sym b) c))

child-links :
    (dentries : ℕ → Dentry) (c ret : ℕ) (ds : List ℕ)
    → (dentries c).parent ≡ some ret
    → Chain dentries (some ret) ds
    → Chain dentries (some c) (c ∷ ds)
unfolding holder beyond
child-links dentries c ret ds e =
    longer dentries c c ret ds (ap (λ (o : Option ℕ). holder_of o (dentries c).point c) e)
      (ap (λ (o : Option ℕ). beyond_of o (dentries (holder dentries c)).parent) e)

root-links :
    (dentries : ℕ → Dentry) (r c ret : ℕ) (ds : List ℕ)
    → (dentries c).parent ≡ some ret
    → (dentries r).parent ≡ none
    → (dentries r).point ≡ some c
    → Chain dentries (some ret) ds
    → Chain dentries (some r) (c ∷ ds)
unfolding holder beyond
root-links dentries r c ret ds e f g =
    let k : holder dentries r ≡ c =
      ap (λ (o : Option ℕ). holder_of o (dentries r).point r) f
      ∙ ap (λ (o : Option ℕ). holder_of none o r) g in
    longer dentries r c ret ds k (
      ap (λ (o : Option ℕ). beyond_of o (dentries (holder dentries r)).parent) f
      ∙ ap (λ (n : ℕ). (dentries n).parent) k
      ∙ e)

-- The count of a match, and a chain to what is taken.
raised-Moves :
    (c d : ℕ) (s : Store) (ds : List ℕ)
    → Chain s.dentries (some d) (c ∷ ds)
    → Moves s ds d (set_ref c ((s.dentries c).ref + 1) s)
unfolding set_ref
raised-Moves c d s ds k =
    let t = set_ref c ((s.dentries c).ref + 1) s in
    record {
      chain = c ∷ ds;
      held =
          Chain-alike s.dentries t.dentries (some d) (c ∷ ds)
            (set_ref-IsAlike c ((s.dentries c).ref + 1) s) k;
      ref = λ x. ground arith;
    }

take_match-Moves :
    (c ret : ℕ) (s : Store) (ds : List ℕ)
    → Chain s.dentries (some ret) ds
    → IsChild ret s c
    → Moves s ds (take_match c s).0 (take_match c s).1
unfolding take_match target
take_match-Moves c ret s ds k v =
    let up = set_ref c ((s.dentries c).ref + 1) s in
    let to = λ (d : ℕ) (e : target c (s.dentries c) ≡ d) (m : Moves s ds d up).
      subst (λ (x : ℕ). Moves s ds x up) (sym e) m in
    elim (Bool-cases (is_mounted (s.dentries c).ref)) [
      | inr bare ↦
          to c (rw (target, bare) refl)
            (raised-Moves c c s ds (child-links s.dentries c ret ds v.parent k))
      | inl there ↦
          let (r, m, e, f) = v.mounted there in
          to r (rw (target, there, m) refl)
            (raised-Moves c r s ds (root-links s.dentries r c ret ds v.parent e f k))
    ]

-- An address that no dentry names, with a count that is 0.
pub record IsFresh (new : ℕ) (s : Store) : Type 0 where
  pub unused : (s.dentries new).ref ≡ 0
  pub no_parent : (d : ℕ) → (s.dentries d).parent ≢ some new
  pub no_point : (d : ℕ) → (s.dentries d).point ≢ some new

same_holder :
    (new : ℕ) (v : Dentry) (dentries : ℕ → Dentry) (d : ℕ)
    → d ≢ new
    → holder (put new v dentries) d ≡ holder dentries d
unfolding holder
same_holder new v dentries d ne =
    let same : put new v dentries d ≡ dentries d = ground arith in
    ap (λ (w : Dentry). holder_of w.parent w.point d) same

holder-ne : (new d : ℕ) (s : Store) → IsFresh new s → d ≢ new → holder s.dentries d ≢ new
unfolding holder
holder-ne new d s v ne e = elim (Option-cases (s.dentries d).parent) [
  | inr (p, f) ↦ ne (sym (ap (λ (o : Option ℕ). holder_of o (s.dentries d).point d) f) ∙ e)
  | inl f ↦ elim (Option-cases (s.dentries d).point) [
    | inl g ↦ ne (
        sym (
          ap (λ (o : Option ℕ). holder_of o (s.dentries d).point d) f
          ∙ ap (λ (o : Option ℕ). holder_of none o d) g)
        ∙ e)
    | inr (q, g) ↦ v.no_point d (
        g
        ∙ ap some (
            sym (
              ap (λ (o : Option ℕ). holder_of o (s.dentries d).point d) f
              ∙ ap (λ (o : Option ℕ). holder_of none o d) g)
            ∙ e))
  ]
]

beyond-ne : (new d : ℕ) (s : Store) → IsFresh new s → beyond s.dentries d ≢ some new
unfolding beyond
beyond-ne new d s v e = elim (Option-cases (s.dentries d).parent) [
  | inr (p, f) ↦
      v.no_parent d (
        f
        ∙ sym (ap (λ (o : Option ℕ). beyond_of o (s.dentries (holder s.dentries d)).parent) f)
        ∙ e)
  | inl f ↦
      v.no_parent (holder s.dentries d)
        (sym (ap (λ (o : Option ℕ). beyond_of o (s.dentries (holder s.dentries d)).parent) f) ∙ e)
]

-- A chain that a new dentry is no part of.
Chain-fresh :
    (new : ℕ) (v : Dentry) (s : Store) (o : Option ℕ) (ds : List ℕ)
    → IsFresh new s
    → o ≢ some new
    → Chain s.dentries o ds
    → Chain (put new v s.dentries) o ds
unfolding beyond
Chain-fresh new v s o ds f ne top = top
Chain-fresh new v s o ds f ne (link d es c) =
    let far : d ≢ new = λ e. ne (ap some e) in
    let h = same_holder new v s.dentries d far in
    let far' = holder-ne new d s f far in
    let at_d : put new v s.dentries d ≡ s.dentries d = ground arith in
    let at_h : put new v s.dentries (holder s.dentries d) ≡ s.dentries (holder s.dentries d) =
      ground arith in
    let b : beyond (put new v s.dentries) d ≡ beyond s.dentries d =
      ap
        (λ (w : Dentry).
          beyond_of w.parent (put new v s.dentries (holder (put new v s.dentries) d)).parent)
        at_d
      ∙ ap (λ (k : ℕ). beyond_of (s.dentries d).parent (put new v s.dentries k).parent) h
      ∙ ap (λ (w : Dentry). beyond_of (s.dentries d).parent w.parent) at_h in
    subst (λ (k : ℕ). Chain (put new v s.dentries) (some d) (k ∷ es)) h
      (link d es (
        subst (λ (x : Option ℕ). Chain (put new v s.dentries) x es) (sym b)
          (Chain-fresh new v s (beyond s.dentries d) es f (beyond-ne new d s f) c)))

add_dentry-Moves :
    (new ret : ℕ) (name : List ℕ) (is_directory : Bool) (s : Store) (ds : List ℕ)
    → Chain s.dentries (some ret) ds
    → IsFresh new s
    → ret ≢ new
    → Moves s ds new (add_dentry new ret name is_directory s)
unfolding add_dentry new_dentry
add_dentry-Moves new ret name is_directory s ds c f ne =
    let t = add_dentry new ret name is_directory s in
    record {
      chain = new ∷ ds;
      held = child-links t.dentries new ret ds (ground arith) (
          Chain-fresh new (new_dentry ret name is_directory s) s (some ret) ds f
            (λ e. ne (some-injective _ _ e)) c);
      ref = λ x. ground (arith, f.unused);
    }

-- The dentry that the table gives for a name in a directory is one of that directory.
abbrev pub FindsChild : ℕ → List ℕ → Store → Type 0
FindsChild ret name s =
    (c : ℕ)
    → first_match (hash_name name) name s.dentries (s.cache (hash_dentry ret (hash_name name)))
      ≡ some c
    → IsChild ret s c

either-Holds :
    (b : Bool) (d : ℕ) (s : Store) (ds : List ℕ) (s' : Store)
    → Moves s ds d s'
    → Holds s ds (if b then at d s' else fails_at d s')
either-Holds true d s ds s' m = m
either-Holds false d s ds s' m = m

choose-Holds :
    (b : Bool) (d e : ℕ) (s : Store) (ds : List ℕ) (t u : Store)
    → Moves s ds d t
    → Moves s ds e u
    → Holds s ds (if b then at d t else fails_at e u)
choose-Holds true d e s ds t u m n = m
choose-Holds false d e s ds t u m n = n

step_down-Holds :
    (last : Bool) (new : ℕ) (answer : Option Bool) (name : List ℕ) (ret : ℕ) (s : Store)
    (ds : List ℕ)
    → Chain s.dentries (some ret) ds
    → IsFresh new s
    → ret ≢ new
    → FindsChild ret name s
    → Holds s ds (step_down last new answer name ret s)
unfolding step_down cache_look_up
step_down-Holds last new answer name ret s ds c f ne child =
    elim (Option-cases
      (first_match (hash_name name) name s.dentries (s.cache (hash_dentry ret (hash_name name))))) [
        | inr (d, e) ↦
            let m = take_match-Moves d ret s ds c (child d e) in
            rw (step_down, e) (either-Holds _ (take_match d s).0 s ds (take_match d s).1 m)
        | inl e ↦ elim (Option-cases answer) [
          | inl a ↦ rw (step_down, e, a) (stays ret ds s c)
          | inr (dir, a) ↦
              rw (step_down, e, a)
                (choose-Holds (last || dir) new ret s ds (add_dentry new ret name dir s) s
                  (add_dentry-Moves new ret name dir s ds c f ne) (stays ret ds s c))
        ]
      ]

-- A step of vfsLookUp, from a dentry whose chain of references the counts cover, keeps the count of each
-- dentry above the references of the chain: where the step ends, at a dentry or at the label `failed`, the
-- references that stand for the new chain are what the counts have more, or less, than before. The
-- conditions: the root of a mounted file system knows where it is mounted; a new dentry comes at an
-- address that no dentry names; and the table gives, for a name in a directory, a dentry of that directory.
pub step-Holds :
    (name : Component) (last : Bool) (root new : ℕ) (answer : Option Bool) (ret : ℕ) (s : Store)
    (ds : List ℕ)
    → Chain s.dentries (some ret) ds
    → ((x : ℕ) → copies x ds ≤ (s.dentries x).ref)
    → ((s.dentries ret).parent ≡ none → (s.dentries ret).point ≢ none)
    → IsFresh new s
    → ret ≢ new
    → ((n : List ℕ) → name ≡ named n → FindsChild ret n s)
    → Holds s ds (step name last root new answer ret s)
unfolding step
step-Holds here last root new answer ret s ds c enough mounted f ne child = stays ret ds s c
step-Holds above last root new answer ret s ds c enough mounted f ne child =
    step_up-Holds root ret s ds c enough mounted
step-Holds (named n) last root new answer ret s ds c enough mounted f ne child =
    step_down-Holds last new answer n ret s ds c f ne (child n refl)
