-- ===== src/Filesystem/Iso9660/Mount/Descriptors.antt =====
-- Which volume descriptor is mounted.
use docqos_old.Base.{
  ℕ, zero, suc, ◌+◌, ◌*◌, ◌<◌, ◌≡◌, refl, ◌≢◌, ap, sym, ◌∙◌, true, false, Option, none, some, List,
  [], ◌∷◌, arith, ◌==◌,
}
use docqos_old.Filesystem.Iso9660.Mount.{
  Mounted, fresh, is_descriptor, primary, find_primary, share, root_of, iso_mount,
}

-- The `k` blocks from `start` on are volume descriptors of other kinds.
abbrev pub AreOthers : (ℕ → Option (ℕ → ℕ)) → ℕ → ℕ → Type 0
AreOthers read start k =
    (i : ℕ)
    → i < k
    → (b : ℕ → ℕ) × (read (start + 2048 * i) ≡ some b)
      × (is_descriptor b ≡ true)
      × (b 0 ≢ 1)
      × (b 0 ≢ 255)

find_primary-primary :
    (fuel k start : ℕ) (read : ℕ → Option (ℕ → ℕ)) (b : ℕ → ℕ)
    → AreOthers read start k
    → read (start + 2048 * k) ≡ some b
    → is_descriptor b ≡ true
    → b 0 ≡ 1
    → k < fuel
    → find_primary fuel read start ≡ primary (start + 2048 * k) b
unfolding find_primary
find_primary-primary zero k start read b others here d kind enough = absurd (omega (arith, enough))
find_primary-primary (suc fuel) zero start read b others here d kind enough =
    let at : start + 2048 * 0 ≡ start = omega arith in
    let at_start : read start ≡ some b = rw at at here in
    let first : (b 0 == 255) ≡ false = ground (arith, kind) in
    let found : (b 0 == 1) ≡ true = ground (arith, kind) in
    rw (at_start, find_primary, d, first, found) (ap (λ p. primary p b) (sym at))
find_primary-primary (suc fuel) (suc k) start read b others here d kind enough =
    let (b0, r0, d0, k0, t0) = others 0 (omega arith) in
    let at : start + 2048 * 0 ≡ start = omega arith in
    let at_start : read start ≡ some b0 = rw at at r0 in
    let first : (b0 0 == 255) ≡ false = ground (arith, t0) in
    let found : (b0 0 == 1) ≡ false = ground (arith, k0) in
    let next : (i : ℕ) → start + 2048 * suc i ≡ start + 2048 + 2048 * i = λ i. omega arith in
    rw (at_start, find_primary, d0, first, found)
      (find_primary-primary fuel k (start + 2048) read b
          (λ i h. rw (next i) at (others (suc i) (omega (arith, h)))) (rw (next k) at here) d kind
          (omega (arith, enough))
        ∙ ap (λ p. primary p b) (sym (next k)))

module _ (part : ℕ) where
  -- Each mount's part is another one.
  abbrev pub AreApart : List Mounted → Type 0
  AreApart [] = Unit
  AreApart (m ∷ ms) = (m.part ≢ part) × AreApart ms

  share-none : (ms : List Mounted) → AreApart ms → share part ms ≡ none
  unfolding share
  share-none [] a = refl
  share-none (m ∷ ms) (ne, a) =
      let other : (m.part == part) ≡ false = ground (arith, ne) in rw (other, share-none ms a) refl

  -- With the primary descriptor behind at most `fuel - 1` descriptors of other kinds, and a proper record of
  -- the root in it, iso9660Mount takes the root from there, when no mount has the part yet.
  pub iso_mount_lem :
      (fuel k : ℕ) (read : ℕ → Option (ℕ → ℕ)) (mounts : List Mounted) (b : ℕ → ℕ)
      → AreOthers read 0x8000 k
      → read (0x8000 + 2048 * k) ≡ some b
      → is_descriptor b ≡ true
      → b 0 ≡ 1
      → k < fuel
      → b 156 ≡ 0x22
      → AreApart mounts
      → iso_mount fuel read part mounts ≡ fresh (root_of part (0x8000 + 2048 * k) b)
  unfolding iso_mount
  iso_mount_lem fuel k read mounts b others here d kind enough proper apart =
      let root : (b 156 == 0x22) ≡ true = ground (arith, proper) in
      rw
        (
          find_primary-primary fuel k 0x8000 read b others here d kind enough,
          iso_mount,
          root,
          share-none mounts apart,
        )
        refl
