-- ===== src/Filesystem/Iso9660/Walk/Entries.antt =====
-- What a walk over a directory can and cannot pass.
use mathlib.Core.Option.{none-ne-some, some-injective}
use docqos_old.Base.{
  ℕ, zero, suc, ◌+◌, ◌-◌, ◌/◌, ◌%◌, ◌≤◌, ◌<◌, ◌≡◌, refl, ap, sym, inl, inr, true, false, none, some,
  arith, ltb, leb, Bool-cases, Option-cases,
}
use docqos_old.Filesystem.Iso9660.Record.{Info, get_information}
use docqos_old.Filesystem.Iso9660.Record.Names.{get_information-zero}
use docqos_old.Filesystem.Iso9660.Walk.{
  page_size, Directory, Walk, is_dir, turn, next_block, record_at, pass_gap, pass_record, name_char,
  LookUp, look_up_loop, iso_look_up, Listing, listed, stuck, faulted, Filler, read_dir_loop,
  iso_read_dir,
}

-- The walk stands at a block's start, before the end, and there is no record.
pub record IsBlocked (d : Directory) (w : Walk) : Type 0 where
  pub in_page : w.pos < page_size
  pub at_block : w.pos % 2048 ≡ 0
  pub real_at_block : w.real % 2048 ≡ 0
  pub before_end : w.real < d.size
  pub no_record : get_information (record_at w) ≡ none

pass_gap-IsBlocked : (d : Directory) (w : Walk) → IsBlocked d w → pass_gap w ≡ w
unfolding pass_gap
pass_gap-IsBlocked d w v =
    let p : next_block w.pos ≡ w.pos = omega (arith, v.at_block) in
    let r : next_block w.real ≡ w.real = omega (arith, v.real_at_block) in rw (p, r) refl

look_up_loop-IsBlocked :
    (fuel : ℕ) (d : Directory) (length : ℕ) (name : ℕ → ℕ) (w : Walk)
    → IsBlocked d w
    → look_up_loop fuel d length name w ≡ LookUp.spinning
unfolding look_up_loop turn
look_up_loop-IsBlocked zero d length name w v = refl
look_up_loop-IsBlocked (suc fuel) d length name w v =
    let more : leb d.size w.real ≡ false = ground (arith, v.before_end) in
    let here : ltb w.pos page_size ≡ true = ground (arith, v.in_page) in
    let again = look_up_loop-IsBlocked fuel d length name w v in
    rw (more, here, v.no_record, pass_gap-IsBlocked d w v) again

-- A directory that is not empty, whose first page the cache gives and starts with a byte 0, keeps
-- iso9660LookUp in its loop for ever, whatever name is looked for.
pub iso_look_up-spins :
    (fuel length : ℕ) (d : Directory) (name : ℕ → ℕ) (pages : ℕ → ℕ → ℕ)
    → is_dir d.mode ≡ true
    → d.ready 0 ≡ true
    → 0 < d.size
    → pages 0 0 ≡ 0
    → iso_look_up fuel d length name pages ≡ LookUp.spinning
unfolding iso_look_up
iso_look_up-spins fuel length d name pages dir ready pos none_there =
    rw (dir, ready)
      (look_up_loop-IsBlocked fuel d (length % 256) name _ (record {
        in_page = omega arith;
        at_block = refl;
        real_at_block = refl;
        before_end = pos;
        no_record = get_information-zero _ none_there;
      }))

turn-real : (d : Directory) (w w' : Walk) → turn d w ≡ some w' → w'.real ≡ w.real
unfolding turn
turn-real d w w' e = elim (Bool-cases (ltb w.pos page_size)) [
  | inl p ↦ sym (ap (λ x. x.real) (some-injective _ _ (rw p at e)))
  | inr p ↦ elim (Bool-cases (d.ready (w.real / page_size))) [
    | inl r ↦ sym (ap (λ x. x.real) (some-injective _ _ (rw (p, r) at e)))
    | inr r ↦ absurd (none-ne-some _ (rw (p, r) at e))
  ]
]

next_block-le : (p : ℕ) → p ≤ next_block p
next_block-le p = omega arith

module _ {ℓ} {A : Type ℓ} (filler : Filler A) (old : ℕ) where
  -- The file's new `seek` is as far behind the old one as the result says.
  pub IsMoved : Listing A → Type 0
  IsMoved (listed a n s) = s ≡ old + n
  IsMoved (stuck a) = Unit
  IsMoved faulted = Unit
  IsMoved Listing.spinning = Unit

  read_dir_loop-IsMoved :
      (fuel : ℕ) (d : Directory) (a : A) (w : Walk)
      → old ≤ w.real
      → IsMoved (read_dir_loop filler old fuel d a w)
  unfolding read_dir_loop IsMoved pass_gap pass_record
  read_dir_loop-IsMoved zero d a w h = tt
  read_dir_loop-IsMoved (suc fuel) d a w h = elim (Bool-cases (leb d.size w.real)) [
    | inl e ↦ rw e (omega (arith, h))
    | inr e ↦ elim (Option-cases (turn d w)) [
      | inl none_there ↦ rw (e, none_there) tt
      | inr (w', t) ↦
          let real : w'.real ≡ w.real = turn-real d w w' t in
          elim (Option-cases (get_information (record_at w'))) [
            | inl gap ↦
                rw (e, t, gap)
                  (read_dir_loop-IsMoved fuel d a (pass_gap w')
                    (omega (arith, h, real, next_block-le w'.real)))
            | inr (i, g) ↦
                let r = filler a (is_dir i.mode) i.length (name_char i.name i.bytes) in
                let behind : old ≤ w'.real + i.step = omega (arith, h, real) in
                elim (Bool-cases r.1) [
                  | inl refused ↦ rw (e, t, g, refused) (omega (arith, behind))
                  | inr taken ↦
                      rw (e, t, g, taken)
                        (read_dir_loop-IsMoved fuel d r.0 (pass_record i w') behind)
                ]
          ]
    ]
  ]

  -- The next iso9660ReadDir goes on where this one has stopped: `seek` has moved by the result.
  pub iso_read_dir-IsMoved :
      (fuel : ℕ) (d : Directory) (pages : ℕ → ℕ → ℕ) (a : A)
      → IsMoved (iso_read_dir filler old fuel d pages a)
  unfolding iso_read_dir IsMoved
  iso_read_dir-IsMoved fuel d pages a = elim (Bool-cases (d.ready (old / page_size))) [
    | inl r ↦ rw r (read_dir_loop-IsMoved fuel d a _ (omega arith))
    | inr r ↦ rw r tt
  ]

  -- An entry that the filler refuses, for want of room, is passed over all the same: the file's `seek` is
  -- behind it.
  pub iso_read_dir-refused :
      (fuel : ℕ) (d : Directory) (pages : ℕ → ℕ → ℕ) (a : A) (i : Info)
      → d.ready (old / page_size) ≡ true
      → old < d.size
      → get_information (λ q. pages (old / page_size) (old % page_size + q)) ≡ some i
      → (filler a (is_dir i.mode) i.length (name_char i.name i.bytes)).1 ≡ true
      → iso_read_dir filler old (suc fuel) d pages a
        ≡ listed
            (filler a (is_dir i.mode) i.length (name_char i.name i.bytes)).0
            i.step
            (old + i.step)
  unfolding iso_read_dir read_dir_loop turn pass_record
  iso_read_dir-refused fuel d pages a i ready more g refused =
      let open_end : leb d.size old ≡ false = ground (arith, more) in
      let here : ltb (old % page_size) page_size ≡ true = ground arith in
      let n : old + i.step - old ≡ i.step = omega arith in
      rw (ready, open_end, here, g, refused, n) refl
