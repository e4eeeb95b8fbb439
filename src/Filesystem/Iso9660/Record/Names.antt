-- ===== src/Filesystem/Iso9660/Record/Names.antt =====
-- The names of directory records.
use docqos_old.Base.{
  ℕ, zero, suc, ◌+◌, ◌-◌, ◌/◌, ◌%◌, ◌≤◌, ◌<◌, ◌≡◌, refl, ◌≢◌, ap, ◌∙◌, inl, inr, true, false, ◌&&◌,
  none, some, arith, leb, ◌==◌, if◌then◌else◌, Bool-cases,
}
use docqos_old.Filesystem.Iso9660.Record.{
  inside, Info, u32_at, file_mode, Ridge, put, lower_loop, iso_name, entries, choose_name,
  get_information,
}

-- The bytes behind the first character of the name.
lower_loop-others : (n q : ℕ) (b : ℕ → ℕ) → q ≢ 33 → lower_loop n b q ≡ b q
unfolding lower_loop
lower_loop-others zero q b h = refl
lower_loop-others (suc n) q b h =
    let other : (q == 33) ≡ false = ground (arith, h) in
    elim (Bool-cases (leb b'A' (b 33) && leb (b 33) b'Z')) [
      | inl e ↦ rw e (lower_loop-others n q (put 33 (b 33 + 32) b) h ∙ rw other refl)
      | inr e ↦ rw e (lower_loop-others n q b h)
    ]

lower_loop-fixed :
    (n : ℕ) (b : ℕ → ℕ) → (leb b'A' (b 33) && leb (b 33) b'Z') ≡ false → lower_loop n b 33 ≡ b 33
unfolding lower_loop
lower_loop-fixed zero b e = refl
lower_loop-fixed (suc n) b e = rw e (lower_loop-fixed n b e)

-- The letter in lower case.
abbrev pub lower : ℕ → ℕ
lower c = if leb b'A' c && leb c b'Z' then c + 32 else c

lower_loop-first : (n : ℕ) (b : ℕ → ℕ) → lower_loop (suc n) b 33 ≡ lower (b 33)
unfolding lower_loop
lower_loop-first n b = elim (Bool-cases (leb b'A' (b 33) && leb (b 33) b'Z')) [
  | inl e ↦ rw e (lower_loop-fixed n (put 33 (b 33 + 32) b) (ground (arith, e)))
  | inr e ↦ rw e (lower_loop-fixed n b e)
]

-- A record of a file without Rock Ridge entries, with nothing behind its name, which
-- ends with a version, as in "NOTES.TXT;1". A name of even length has a byte of padding behind it.
pub record IsPlain (b : ℕ → ℕ) : Type 0 where
  pub short : b 0 ≤ b 32 + 33
  pub present : 0 < b 0
  pub is_file : b 25 / 2 % 2 ≡ 0
  pub long_name : 4 ≤ b 32
  pub byte : b 32 < 256
  pub first : b 33 ≢ b'_'
  pub extension : b (30 + b 32) ≢ b'.'

entries-IsPlain :
    (b : ℕ → ℕ)
    → IsPlain b
    → entries b ≡ record { at = 0; left = 0; mode = 0; name = none; length = b 32 }
unfolding entries
entries-IsPlain b v =
    let plain : leb (b 0) (b 32 + 33) ≡ true = ground (arith, v.short) in rw plain refl

choose_name-IsPlain :
    (b : ℕ → ℕ) (r : Ridge)
    → IsPlain b
    → r.name ≡ none
    → r.length ≡ b 32
    → choose_name false r b ≡ (inside 33, (b 32 - 2, lower_loop (b 32 - 2) b))
unfolding choose_name iso_name
choose_name-IsPlain b r v none_there same =
    let n : (b 32 + 254) % 256 ≡ b 32 - 2 = omega (arith, v.long_name, v.byte) in
    let long : (b 32 - 2 == 1) ≡ false = ground (arith, v.long_name) in
    let end : 32 + (b 32 - 2) ≡ 30 + b 32 = omega (arith, v.long_name) in
    let no_dot : (b (30 + b 32) == b'.') ≡ false = ground (arith, v.extension) in
    let no_line : (b 33 == b'_') ≡ false = ground (arith, v.first) in
    rw (none_there, same, n, long, no_line, end, no_dot) refl

-- Of the name in the record of a file that ends with its name, so that there are no Rock Ridge entries and
-- no padding, of four characters and more, not with a line at the start nor a point before its last
-- two, the last two are cut off, and only the
-- first letter is put into lower case.
pub get_information-IsPlain :
    (b : ℕ → ℕ)
    → IsPlain b
    → (i : Info) × (get_information b ≡ some i)
      × (i.name ≡ inside 33)
      × (i.length ≡ b 32 - 2)
      × (i.mode ≡ file_mode)
      × (i.bytes 33 ≡ lower (b 33))
      × ((q : ℕ) → q ≢ 33 → i.bytes q ≡ b q)
unfolding get_information
get_information-IsPlain b v =
    let here : (b 0 == 0) ≡ false = ground (arith, v.present) in
    let file : (b 25 / 2 % 2 == 1) ≡ false = ground (arith, v.is_file) in
    let r : Ridge = record { at = 0; left = 0; mode = 0; name = none; length = b 32 } in
    let n : b 32 - 2 ≡ suc (b 32 - 3) = omega (arith, v.long_name) in
    (
      record {
        name = inside 33;
        length = b 32 - 2;
        mode = file_mode;
        size = u32_at b 10;
        lba = u32_at b 2;
        step = b 0;
        bytes = lower_loop (b 32 - 2) b;
      },
      rw (here, file, entries-IsPlain b v, choose_name-IsPlain b r v refl refl) refl,
      refl,
      refl,
      refl,
      ap (λ k. lower_loop k b 33) n ∙ lower_loop-first (b 32 - 3) b,
      λ q h. lower_loop-others (b 32 - 2) q b h,
    )

-- A record that starts with a zero is the end of a block.
pub get_information-zero : (b : ℕ → ℕ) → b 0 ≡ 0 → get_information b ≡ none
unfolding get_information
get_information-zero b e = let z : (b 0 == 0) ≡ true = ground (arith, e) in rw z refl
