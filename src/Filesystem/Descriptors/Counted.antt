-- ===== src/Filesystem/Descriptors/Counted.antt =====
-- Reference counts: a file is counted once for each slot that refers to it.
use docqos_old.Base.{
  ℕ, zero, suc, ◌+◌, ◌-◌, ◌<◌, ◌≡◌, refl, ◌≢◌, sym, ◌∙◌, ◌⊎◌, inl, inr, Option, none, some, [], ◌∷◌,
  arith, ltb, ◌==◌, if◌then◌else◌, get_or, set, length, length-set, get_or-set_ne, Bool-cases,
  Option-cases,
}
use docqos_old.Filesystem.Descriptors.Search.{first_free-some}
use docqos_old.Filesystem.Descriptors.{
  max_files, Slots, State, set_ref, get_file, close_file, file_of, Opened, failed, file, first_free,
  install, do_open, close_slot, replace, do_dup2, dup_loop, do_dup, drop_slot, do_close,
}

-- How many slots of a table refer to a file.
unfoldable pub uses : ℕ → Slots → ℕ
uses f [] = 0
uses f (none ∷ fd) = uses f fd
uses f (some g ∷ fd) = (if g == f then 1 else 0) + uses f fd

abbrev pub holds : ℕ → Option ℕ → ℕ
holds f none = 0
holds f (some g) = if g == f then 1 else 0

-- Writing a slot.
uses-set :
    (f n : ℕ) (v : Option ℕ) (fd : Slots)
    → n < length fd
    → uses f (set fd n v) + holds f (get_or fd n none) ≡ uses f fd + holds f v
unfolding uses
uses-set f n v [] h = absurd (omega arith)
uses-set f zero none (none ∷ fd) h = omega arith
uses-set f zero none (some g ∷ fd) h = omega arith
uses-set f zero (some w) (none ∷ fd) h = omega arith
uses-set f zero (some w) (some g ∷ fd) h = omega arith
uses-set f (suc n) v (none ∷ fd) h = uses-set f n v fd (omega arith)
uses-set f (suc n) v (some g ∷ fd) h = omega (arith, uses-set f n v fd (omega arith))

uses-pos : (f n : ℕ) (fd : Slots) → get_or fd n none ≡ some f → 0 < uses f fd
unfolding uses
uses-pos f n [] h = cc
uses-pos f zero (none ∷ fd) h = cc
uses-pos f zero (some g ∷ fd) h = ground arith
uses-pos f (suc n) (none ∷ fd) h = uses-pos f n fd h
uses-pos f (suc n) (some g ∷ fd) h = omega (arith, uses-pos f n fd h)

-- The table has its slots, and each file's count is the number of slots that refer to it, here and, by
-- `others`, in the tables of other tasks.
pub record IsCounted (others : ℕ → ℕ) (s : State) : Type 0 where
  pub slots : length s.fd ≡ max_files
  pub counted : (f : ℕ) → s.files.ref f ≡ uses f s.fd + others f

-- Going from `s` to `s'`, no file is destroyed, or one is that no slot refers to any more.
abbrev pub FreesUnused : (ℕ → ℕ) → State → State → Type 0
FreesUnused others s s' =
    (s'.files.freed ≡ s.files.freed)
    ⊎ ((f : ℕ) × (s'.files.freed ≡ f ∷ s.files.freed) × (uses f s'.fd ≡ 0) × (others f ≡ 0))

-- A call keeps the counts, and destroys at most a file without references.
abbrev pub Keeps : (ℕ → ℕ) → State → State → Type 0
Keeps others s s' = IsCounted others s' × FreesUnused others s s'

module _ (others : ℕ → ℕ) where
  drop_slot-Keeps :
      (n f : ℕ) (s : State)
      → IsCounted others s
      → n < max_files
      → get_or s.fd n none ≡ some f
      → Keeps others s (drop_slot n (some f) s).1
  unfolding drop_slot close_file set_ref
  drop_slot-Keeps n f s v h e =
      let w = λ (g : ℕ). uses-set g n none s.fd (omega (arith, v.slots)) in
      let l = length-set s.fd n none in
      let pos = uses-pos f n s.fd e in
      (
        record {
          slots = ground (arith, l, v.slots);
          counted = λ g. ground (arith, w g, e, v.counted g, v.counted f, pos);
        },
        elim (Bool-cases (s.files.ref f - 1 == 0)) [
          | inl last ↦ rw last (
              inr (
                f,
                refl,
                ground (arith, w f, e, v.counted f, pos),
                ground (arith, v.counted f, pos),
              ))
          | inr more ↦ rw more (inl refl)
        ],
      )

  -- What replace does, with what slot `new` held written out.
  replace_with : ℕ → ℕ → Option ℕ → State → State
  replace_with new f o s = record {
    fd = set s.fd new (some f);
    files = get_file f (close_slot o s.files);
  }

  -- Another slot than `new` refers to `f`.
  still_used :
      (new n f : ℕ) (s : State)
      → n ≢ new
      → get_or s.fd n none ≡ some f
      → 0 < uses f (set s.fd new none)
  still_used new n f s ne e =
      uses-pos f n (set s.fd new none) (get_or-set_ne s.fd none none (λ q. ne (sym q)) ∙ e)

  replace_with-Keeps :
      (new n f : ℕ) (o : Option ℕ) (s : State)
      → IsCounted others s
      → new < max_files
      → n ≢ new
      → get_or s.fd n none ≡ some f
      → get_or s.fd new none ≡ o
      → Keeps others s (replace_with new f o s)
  unfolding replace_with close_slot get_file close_file set_ref
  replace_with-Keeps new n f none s v h ne e eo =
      let w = λ (g : ℕ). uses-set g new (some f) s.fd (omega (arith, v.slots)) in
      let l = length-set s.fd new (some f) in
      (
        record {
          slots = ground (arith, l, v.slots);
          counted = λ g. ground (arith, w g, eo, v.counted g, v.counted f);
        },
        inl refl,
      )
  replace_with-Keeps new n f (some o) s v h ne e eo =
      let w = λ (g : ℕ). uses-set g new (some f) s.fd (omega (arith, v.slots)) in
      let u = λ (g : ℕ). uses-set g new none s.fd (omega (arith, v.slots)) in
      let l = length-set s.fd new (some f) in
      let pos = uses-pos o new s.fd eo in
      let keep = still_used new n f s ne e in
      (
        record {
          slots = ground (arith, l, v.slots);
          counted =
              λ g. ground (arith, w g, eo, v.counted g, v.counted f, v.counted o, pos, u f, keep);
        },
        elim (Bool-cases (s.files.ref o - 1 == 0)) [
          | inl last ↦ rw last (
              inr (
                o,
                refl,
                ground (arith, w o, eo, v.counted o, pos, u f, keep),
                ground (arith, v.counted o, pos),
              ))
          | inr more ↦ rw more (inl refl)
        ],
      )

  stays : (s : State) → IsCounted others s → Keeps others s s
  stays s v = (v, inl refl)

  -- `doClose` keeps the counts, and destroys a file only when nothing refers to it any more.
  pub do_close-Keeps : (n : ℕ) (s : State) → IsCounted others s → Keeps others s (do_close n s).1
  unfolding do_close file_of
  do_close-Keeps n s v = elim (Bool-cases (ltb n max_files)) [
    | inr out ↦ rw out (stays s v)
    | inl within ↦ rw within (at_slot (get_or s.fd n none) refl (ground arith))
  ]
    where
      at_slot :
          (o : Option ℕ)
          → get_or s.fd n none ≡ o
          → n < max_files
          → Keeps others s (drop_slot n (get_or s.fd n none) s).1
      at_slot none e h = rw e (stays s v)
      at_slot (some f) e h = rw e (drop_slot-Keeps n f s v h e)

  -- `doDup2` keeps the counts, and destroys a file only when nothing refers to it any more.
  pub do_dup2-Keeps :
      (n new : ℕ) (s : State) → IsCounted others s → Keeps others s (do_dup2 n new s).1
  unfolding do_dup2 replace replace_with
  do_dup2-Keeps n new s v = elim (Bool-cases (ltb n max_files)) [
    | inr a ↦ rw a (stays s v)
    | inl a ↦ elim (Bool-cases (ltb new max_files)) [
      | inr b ↦ rw (a, b) (stays s v)
      | inl b ↦ elim (Bool-cases (n == new)) [
        | inl c ↦ rw (a, b, c) (stays s v)
        | inr c ↦ rw (a, b, c) (at_slot (get_or s.fd n none) refl (ground arith) (ground arith))
      ]
    ]
  ]
    where
      at_slot :
          (o : Option ℕ)
          → get_or s.fd n none ≡ o
          → new < max_files
          → n ≢ new
          → Keeps others s (replace new (get_or s.fd n none) s).1
      at_slot none e h ne = rw e (stays s v)
      at_slot (some f) e h ne =
          rw e (replace_with-Keeps new n f (get_or s.fd new none) s v h ne e refl)

  dup_loop-Keeps :
      (rounds n : ℕ) (s : State) → IsCounted others s → Keeps others s (dup_loop rounds n s).1
  unfolding dup_loop
  dup_loop-Keeps zero n s v = stays s v
  dup_loop-Keeps (suc rounds) n s v = elim (Option-cases (get_or s.fd 0 none)) [
    | inl e ↦ rw (e, dup_loop) (do_dup2-Keeps n 0 s v)
    | inr (g, e) ↦ rw (e, dup_loop) (dup_loop-Keeps rounds (n + 1) s v)
  ]

  -- `doDup` keeps the counts, and destroys no file that is referred to.
  pub do_dup-Keeps : (n : ℕ) (s : State) → IsCounted others s → Keeps others s (do_dup n s).1
  unfolding do_dup
  do_dup-Keeps n s v = elim (Option-cases (file_of n s.fd)) [
    | inl e ↦ rw (e, do_dup) (stays s v)
    | inr (g, e) ↦ rw (e, do_dup) (dup_loop-Keeps (max_files - n) n s v)
  ]

  -- `openFile` gives a file that was not in use.
  abbrev pub IsFresh : State → Opened → Type 0
  IsFresh s (failed e) = Unit {0}
  IsFresh s (file f) = s.files.ref f ≡ 0

  install-Keeps :
      (n : ℕ) (o : Opened) (s : State)
      → IsCounted others s
      → n < max_files
      → get_or s.fd n none ≡ none
      → IsFresh s o
      → Keeps others s (install (some n) o s).1
  unfolding install set_ref
  install-Keeps n (failed e) s v h free new = stays s v
  install-Keeps n (file f) s v h free new =
      let w = λ (g : ℕ). uses-set g n (some f) s.fd (omega (arith, v.slots)) in
      let l = length-set s.fd n (some f) in
      (
        record {
          slots = ground (arith, l, v.slots);
          counted = λ g. ground (arith, w g, free, v.counted g, v.counted f, new);
        },
        inl refl,
      )

  -- `doOpen` of a fresh file keeps the counts, and destroys nothing that is referred to.
  pub do_open-Keeps :
      (o : Opened) (s : State) → IsCounted others s → IsFresh s o → Keeps others s (do_open o s).1
  unfolding do_open
  do_open-Keeps o s v new = elim (Option-cases (first_free s.fd 0)) [
    | inl e ↦ rw (e, install) (stays s v)
    | inr (n, e) ↦
        let (j, same, h, free, below) = first_free-some s.fd 0 n e in
        let at : n ≡ j = omega arith in
        rw (e, install) (install-Keeps n o s v (omega (arith, v.slots)) (rw at free) new)
  ]
