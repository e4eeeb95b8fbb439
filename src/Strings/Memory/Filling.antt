-- ===== src/Strings/Memory/Filling.antt =====
-- memset fills its bytes and no others.
use docqos_old.Base.{
  ℕ, zero, suc, ◌+◌, ◌-◌, ◌*◌, ◌/◌, ◌%◌, ◌≤◌, ◌<◌, ◌≡◌, refl, ◌∙◌, inl, inr, true, false, arith,
  ltb, leb, ◌==◌, Bool-cases,
}
use docqos_old.Strings.Memory.{
  Bytes, store, store_word, spread, Cursor, put_byte, align, store_line, fill_lines, fill_words,
  fill_bytes, fill_wide, memset,
}

-- `m'` is `m` with `c` in the `n` bytes from `a` on.
pub record IsFilled (c a n : ℕ) (m m' : Bytes) : Type 0 where
  pub inside : (q : ℕ) → a ≤ q → q < a + n → m' q ≡ c
  pub before : (q : ℕ) → q < a → m' q ≡ m q
  pub behind : (q : ℕ) → a + n ≤ q → m' q ≡ m q

none-IsFilled : (c a : ℕ) (m : Bytes) → IsFilled c a 0 m m
none-IsFilled c a m = record {
  inside = λ q h lt. absurd (omega (arith, h, lt));
  before = λ q h. refl;
  behind = λ q h. refl;
}

store-IsFilled : (c a : ℕ) (m : Bytes) → IsFilled c a 1 m (store a c m)
store-IsFilled c a m = record {
  inside = λ q h lt. here q h lt;
  before = λ q h. off q (omega (arith, h));
  behind = λ q h. above q h;
}
  where
    here : (q : ℕ) → a ≤ q → q < a + 1 → store a c m q ≡ c
    here q h lt = let e : (q == a) ≡ true = ground (arith, h, lt) in rw e refl

    off : (q : ℕ) → q < a → store a c m q ≡ m q
    off q h = let e : (q == a) ≡ false = ground (arith, h) in rw e refl

    above : (q : ℕ) → a + 1 ≤ q → store a c m q ≡ m q
    above q h = let e : (q == a) ≡ false = ground (arith, h) in rw e refl

module _ (c : ℕ) where
  -- Two pieces, the lower one first or last.
  IsFilled-up :
      (a n k : ℕ) {m m' m'' : Bytes}
      → IsFilled c a n m m'
      → IsFilled c (a + n) k m' m''
      → IsFilled c a (n + k) m m''
  IsFilled-up a n k {m} {m'} {m''} f g = record {
    inside = λ q h lt. elim (Bool-cases (ltb q (a + n))) [
      | inl e ↦ g.before q (ground (arith, e)) ∙ f.inside q h (ground (arith, e))
      | inr e ↦ g.inside q (ground (arith, e)) (omega (arith, lt))
    ];
    before = λ q h. g.before q (omega (arith, h)) ∙ f.before q h;
    behind = λ q h. g.behind q (omega (arith, h)) ∙ f.behind q (omega (arith, h));
  }

  IsFilled-down :
      (a n k : ℕ) {m m' m'' : Bytes}
      → IsFilled c (a + n) k m m'
      → IsFilled c a n m' m''
      → IsFilled c a (n + k) m m''
  IsFilled-down a n k {m} {m'} {m''} f g = record {
    inside = λ q h lt. elim (Bool-cases (ltb q (a + n))) [
      | inl e ↦ g.inside q h (ground (arith, e))
      | inr e ↦ g.behind q (ground (arith, e)) ∙ f.inside q (ground (arith, e)) (omega (arith, lt))
    ];
    before = λ q h. g.before q h ∙ f.before q (omega (arith, h));
    behind = λ q h. g.behind q (omega (arith, h)) ∙ f.behind q (omega (arith, h));
  }

  -- Each of the lowest `n` bytes of `w` is `c`.
  Repeats : ℕ → ℕ → Type 0
  Repeats zero w = Unit
  Repeats (suc n) w = (w % 256 ≡ c) × Repeats n (w / 256)

  resize : {a n k : ℕ} {m m' : Bytes} → n ≡ k → IsFilled c a n m m' → IsFilled c a k m m'
  resize e f = record {
    inside = λ q h lt. f.inside q h (omega (arith, e, lt));
    before = f.before;
    behind = λ q h. f.behind q (omega (arith, e, h));
  }

  store_word-IsFilled :
      (n p w : ℕ) (m : Bytes) → Repeats n w → IsFilled c p n m (store_word n p w m)
  unfolding store_word Repeats
  store_word-IsFilled zero p w m r = none-IsFilled c p m
  store_word-IsFilled (suc n) p w m r = rw r.0 (
      resize (omega arith) (
        IsFilled-up p 1 n (store-IsFilled c p m)
          (store_word-IsFilled n (p + 1) (w / 256) (store p c m) r.1)))

  fill_bytes-IsFilled : (n p : ℕ) (m : Bytes) → IsFilled c p n m (fill_bytes n p c m)
  unfolding fill_bytes
  fill_bytes-IsFilled zero p m = none-IsFilled c p m
  fill_bytes-IsFilled (suc n) p m =
      resize (omega arith)
        (IsFilled-up p 1 n (store-IsFilled c p m) (fill_bytes-IsFilled n (p + 1) (store p c m)))

  spread-Repeats : c < 256 → Repeats 8 (spread c)
  unfolding Repeats
  spread-Repeats h = (
    omega (arith, h),
    (
      omega (arith, h),
      (
        omega (arith, h),
        (
          omega (arith, h),
          (omega (arith, h), (omega (arith, h), (omega (arith, h), (omega (arith, h), tt)))),
        ),
      ),
    ),
  )

  module _ (w : ℕ) (r : Repeats 8 w) where
    store_line-IsFilled : (n p : ℕ) (m : Bytes) → IsFilled c p (8 * n) m (store_line n p w m)
    unfolding store_line
    store_line-IsFilled zero p m = none-IsFilled c p m
    store_line-IsFilled (suc n) p m = resize (omega arith) (
        IsFilled-down p (8 * n) 8 (store_word-IsFilled 8 (p + 8 * n) w m r)
          (store_line-IsFilled n p (store_word 8 (p + 8 * n) w m)))

    fill_lines-IsFilled : (n p : ℕ) (m : Bytes) → IsFilled c p (64 * n) m (fill_lines n p w m)
    unfolding fill_lines
    fill_lines-IsFilled zero p m = none-IsFilled c p m
    fill_lines-IsFilled (suc n) p m = resize (omega arith) (
        IsFilled-up p 64 (64 * n) (store_line-IsFilled 8 p m)
          (fill_lines-IsFilled n (p + 64) (store_line 8 p w m)))

    fill_words-IsFilled : (n p : ℕ) (m : Bytes) → IsFilled c p (8 * n) m (fill_words n p w m)
    unfolding fill_words
    fill_words-IsFilled zero p m = none-IsFilled c p m
    fill_words-IsFilled (suc n) p m = resize (omega arith) (
        IsFilled-up p 8 (8 * n) (store_word-IsFilled 8 p w m r)
          (fill_words-IsFilled n (p + 8) (store_word 8 p w m)))

  -- What the loops before the last one have filled.
  record IsAhead (start len : ℕ) (m : Bytes) (s : Cursor) : Type 0 where
    done : IsFilled c start (s.at - start) m s.bytes
    reached : start ≤ s.at
    total : s.at + s.left ≡ start + len

  extend :
      (start len n : ℕ) {m m' : Bytes} (s : Cursor)
      → IsAhead start len m s
      → n ≤ s.left
      → IsFilled c s.at n s.bytes m'
      → IsAhead start len m (record { at = s.at + n; left = s.left - n; bytes = m' })
  extend start len n {m} {m'} s v h f = record {
    done =
        resize (omega (arith, v.reached))
          (IsFilled-up start (s.at - start) n v.done (moved (omega (arith, v.reached))));
    reached = omega (arith, v.reached);
    total = omega (arith, v.total, h);
  }
    where
      moved : s.at ≡ start + (s.at - start) → IsFilled c (start + (s.at - start)) n s.bytes m'
      moved e = rw e at f

  align-IsAhead :
      (fuel start len : ℕ) (m : Bytes) (s : Cursor)
      → IsAhead start len m s
      → fuel ≤ s.left
      → IsAhead start len m (align c fuel s)
  unfolding align
  align-IsAhead zero start len m s v h = v
  align-IsAhead (suc fuel) start len m s v h = elim (Bool-cases (s.at % 8 == 0)) [
    | inl e ↦ rw e v
    | inr e ↦ rw e (
        align-IsAhead fuel start len m (put_byte c s)
          (extend start len 1 s v (omega (arith, h)) (store-IsFilled c s.at s.bytes))
          (omega (arith, h)))
  ]

  fill_wide-IsAhead :
      (mem len : ℕ) (m : Bytes)
      → c < 256
      → 8 ≤ len
      → IsAhead mem len m (record { at = mem; left = len; bytes = m })
      → IsAhead mem len m (fill_wide c (record { at = mem; left = len; bytes = m }))
  unfolding fill_wide
  fill_wide-IsAhead mem len m small h v =
      let s : Cursor = record { at = mem; left = len; bytes = m } in
      let a : Cursor = align c 8 s in
      let r = spread-Repeats small in
      let w = spread c in
      let lines = a.left / 64 in
      let words = a.left % 64 / 8 in
      let m1 = fill_lines lines a.at w a.bytes in
      let v0 = align-IsAhead 8 mem len m s v h in
      let v1 =
        extend mem len (64 * lines) a v0 (omega arith)
          (fill_lines-IsFilled w r lines a.at a.bytes) in
      let v2 =
        extend mem len (8 * words) _ v1 (omega arith)
          (fill_words-IsFilled w r words (a.at + 64 * lines) m1) in
      rw (rest a.left) v2
    where
      rest : (n : ℕ) → n % 64 % 8 ≡ n - 64 * (n / 64) - 8 * (n % 64 / 8)
      rest n = omega arith

  ends :
      (start len : ℕ) (m : Bytes) (s : Cursor)
      → IsAhead start len m s
      → IsFilled c start len m (fill_bytes s.left s.at c s.bytes)
  ends start len m s v =
      let t = extend start len s.left s v (omega arith) (fill_bytes-IsFilled s.left s.at s.bytes) in
      resize (omega (arith, v.total, v.reached)) t.done

-- memset with a byte sets its bytes and no others, and returns the end of them, for any start and
-- length.
pub memset_lem :
    (mem c len : ℕ) (m : Bytes)
    → c < 256
    → ((memset mem c len m).0 ≡ mem + len) × IsFilled c mem len m (memset mem c len m).1
unfolding memset fill_wide
memset_lem mem c len m h =
    let start : Cursor = record { at = mem; left = len; bytes = m } in
    let v : IsAhead c mem len m start = record {
      done = resize c (omega arith) (none-IsFilled c mem m);
      reached = omega arith;
      total = refl;
    } in
    elim (Bool-cases (leb 8 len)) [
      | inl e ↦
          let w = fill_wide-IsAhead c mem len m h (ground (arith, e)) v in
          rw e (w.total, ends c mem len m (fill_wide c start) w)
      | inr e ↦ rw e (v.total, ends c mem len m start v)
    ]
