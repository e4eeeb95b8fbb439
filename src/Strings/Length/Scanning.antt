-- ===== src/Strings/Length/Scanning.antt =====
-- strlen finds the first zero.
use docqos_old.Base.{
  ℕ, zero, suc, ◌+◌, ◌-◌, ◌*◌, ◌%◌, ◌^◌, ◌≤◌, ◌<◌, ◌≡◌, refl, ◌≢◌, ap, sym, ◌⊎◌, inl, inr, Bool,
  true, false, not, ◌&&◌, ◌||◌, some, arith, ltb, ◌==◌, Bool-cases,
}
use docqos_old.Strings.Memory.{Bytes}
use docqos_old.Strings.Length.{
  bit, xor, any_below, magic, test_bit, may_have_zero, read_word, byte_loop, word_loop, strlen,
}

any_below-true : (k n : ℕ) (f : ℕ → Bool) → n < k → f n ≡ true → any_below k f ≡ true
unfolding any_below
any_below-true zero n f h e = absurd (omega (arith, h))
any_below-true (suc k) n f h e = elim (Bool-cases (k == n)) [
  | inl s ↦ let same : k ≡ n = ground (arith, s) in rw (same, e) refl
  | inr d ↦ let r = any_below-true k n f (ground (arith, d, h)) e in rw r (or_true (f k))
]
  where
    or_true : (b : Bool) → (b || true) ≡ true
    or_true true = refl
    or_true false = refl

-- A bit in which the sum and the word agree, where the mask has one.
agreeing :
    (w n : ℕ) → n < 32 → bit magic n ≡ false → bit (w + magic) n ≡ bit w n → may_have_zero w ≡ true
unfolding may_have_zero
agreeing w n h free same =
    let low : ltb n 32 ≡ true = ground (arith, h) in
    any_below-true 64 n (test_bit w) (omega (arith, h)) (rw (free, same, low) (flip (bit w n)))
  where
    flip : (b : Bool) → (xor b (true && not b) && true) ≡ true
    flip true = refl
    flip false = refl

-- A zero among the four bytes of a word.
word_test :
    (a b c d : ℕ)
    → a < 256
    → b < 256
    → c < 256
    → d < 256
    → (a ≡ 0) ⊎ ((b ≡ 0) ⊎ ((c ≡ 0) ⊎ (d ≡ 0)))
    → may_have_zero (a + 2 ^ 8 * b + 2 ^ 16 * c + 2 ^ 24 * d) ≡ true
word_test a b c d ha hb hc hd (inl z) =
    agreeing _ 8 (omega arith) refl (ap (λ x. x == 1) (omega (arith, z)))
word_test a b c d ha hb hc hd (inr (inl z)) =
    agreeing _ 16 (omega arith) refl (ap (λ x. x == 1) (omega (arith, ha, z)))
word_test a b c d ha hb hc hd (inr (inr (inl z))) =
    agreeing _ 24 (omega arith) refl (ap (λ x. x == 1) (omega (arith, ha, hb, z)))
word_test a b c d ha hb hc hd (inr (inr (inr z))) =
    agreeing _ 31 (omega arith) refl (ap (λ x. x == 1) (omega (arith, ha, hb, hc, z)))

-- `p` is the first zero from `a` on.
abbrev pub IsFirstZero : ℕ → ℕ → Bytes → Type 0
IsFirstZero a p m = (a ≤ p) × (m p ≡ 0) × ((q : ℕ) → a ≤ q → q < p → m q ≢ 0)

further : (a p : ℕ) (m : Bytes) → m a ≢ 0 → IsFirstZero (a + 1) p m → IsFirstZero a p m
further a p m ne (h, z, f) = (
  omega (arith, h),
  z,
  λ q l lt. elim (Bool-cases (q == a)) [
    | inl e ↦ let same : q ≡ a = ground (arith, e) in rw same ne
    | inr e ↦ f q (ground (arith, e, l)) lt
  ],
)

byte_loop_lem :
    (fuel a p : ℕ) (m : Bytes) → IsFirstZero a p m → p < a + fuel → byte_loop fuel a m ≡ some p
unfolding byte_loop
byte_loop_lem zero a p m (h, z, f) enough = absurd (omega (arith, h, enough))
byte_loop_lem (suc fuel) a p m (h, z, f) enough = elim (Bool-cases (m a == 0)) [
  | inl e ↦ elim (Bool-cases (a == p)) [
    | inl s ↦ rw e (ap some (ground (arith, s)))
    | inr d ↦ absurd (f a (omega arith) (ground (arith, d, h)) (ground (arith, e)))
  ]
  | inr e ↦
      let beyond : p ≢ a = λ s. let t : m a ≡ 0 = rw (← s) z in ground (arith, e, t) in
      rw e (
        byte_loop_lem fuel (a + 1) p m
          (ground (arith, h, beyond), z, (λ q l lt. f q (omega (arith, l)) lt))
          (omega (arith, enough)))
]

nonzero : (a p q : ℕ) (m : Bytes) → IsFirstZero a p m → a ≤ q → q < p → (m q == 0) ≡ false
nonzero a p q m (h, z, f) l lt = let ne = f q l lt in ground (arith, ne)

read_word-zero :
    (a : ℕ) (m : Bytes)
    → ((q : ℕ) → m q < 256)
    → (m a ≡ 0) ⊎ ((m (a + 1) ≡ 0) ⊎ ((m (a + 2) ≡ 0) ⊎ (m (a + 3) ≡ 0)))
    → may_have_zero (read_word a m) ≡ true
unfolding read_word
read_word-zero a m bytes z =
    word_test (m a) (m (a + 1)) (m (a + 2)) (m (a + 3)) (bytes _) (bytes _) (bytes _) (bytes _) z

word_loop_lem :
    (fuel a p : ℕ) (m : Bytes)
    → ((q : ℕ) → m q < 256)
    → IsFirstZero a p m
    → p < a + fuel
    → word_loop fuel a m ≡ some p
unfolding word_loop
word_loop_lem zero a p m bytes (h, z, f) enough = absurd (omega (arith, h, enough))
word_loop_lem (suc fuel) a p m bytes v enough = elim (Bool-cases (p == a)) [
  | inl e ↦
      let same : p ≡ a = ground (arith, e) in
      let z : m a ≡ 0 = rw (← same) v.1 in
      let t : (m a == 0) ≡ true = ground (arith, z) in
      rw (read_word-zero a m bytes (inl z), t) (ap some (sym same))
  | inr a0 ↦
      let n0 = nonzero a p a m v (omega arith) (ground (arith, a0, v.0)) in
      elim (Bool-cases (p == a + 1)) [
        | inl e ↦
            let same : p ≡ a + 1 = ground (arith, e) in
            let z : m (a + 1) ≡ 0 = rw (← same) v.1 in
            let t : (m (a + 1) == 0) ≡ true = ground (arith, z) in
            rw (read_word-zero a m bytes (inr (inl z)), n0, t) (ap some (sym same))
        | inr a1 ↦
            let n1 = nonzero a p (a + 1) m v (omega arith) (ground (arith, a0, a1, v.0)) in
            elim (Bool-cases (p == a + 2)) [
              | inl e ↦
                  let same : p ≡ a + 2 = ground (arith, e) in
                  let z : m (a + 2) ≡ 0 = rw (← same) v.1 in
                  let t : (m (a + 2) == 0) ≡ true = ground (arith, z) in
                  rw (read_word-zero a m bytes (inr (inr (inl z))), n0, n1, t) (ap some (sym same))
              | inr a2 ↦
                  let n2 =
                    nonzero a p (a + 2) m v (omega arith) (ground (arith, a0, a1, a2, v.0)) in
                  elim (Bool-cases (p == a + 3)) [
                    | inl e ↦
                        let same : p ≡ a + 3 = ground (arith, e) in
                        let z : m (a + 3) ≡ 0 = rw (← same) v.1 in
                        let t : (m (a + 3) == 0) ≡ true = ground (arith, z) in
                        rw (read_word-zero a m bytes (inr (inr (inr z))), n0, n1, n2, t)
                          (ap some (sym same))
                    | inr a3 ↦
                        let n3 =
                          nonzero a p (a + 3) m v (omega arith)
                            (ground (arith, a0, a1, a2, a3, v.0)) in
                        let on =
                          word_loop_lem fuel (a + 4) p m bytes
                            (
                              ground (arith, a0, a1, a2, a3, v.0),
                              v.1,
                              (λ q l lt. v.2 q (omega (arith, l)) lt),
                            )
                            (omega (arith, enough)) in
                        elim (Bool-cases (may_have_zero (read_word a m))) [
                          | inl w ↦ rw (w, n0, n1, n2, n3) on
                          | inr w ↦ rw (w) on
                        ]
                  ]
            ]
      ]
]

-- With fuel for its bytes, in memory of bytes and on a string shorter than 2 ^ 31, strlen gives the
-- distance of the first zero, whether it reads bytes or words.
pub strlen_lem :
    (fuel string n : ℕ) (m : Bytes)
    → ((q : ℕ) → m q < 256)
    → m (string + n) ≡ 0
    → ((q : ℕ) → q < n → m (string + q) ≢ 0)
    → n < 2 ^ 31
    → n < fuel
    → strlen fuel string m ≡ some n
unfolding strlen
strlen_lem fuel string n m bytes z f int enough =
    let v : IsFirstZero string (string + n) m = (
      omega arith,
      z,
      (λ q l lt.
          let e : string + (q - string) ≡ q = omega (arith, l) in
          rw e at (f (q - string) (omega (arith, lt, l)))),
    ) in
    let less : string + n < string + fuel = omega (arith, enough) in
    let back : (string + n - string) % 2 ^ 32 ≡ n = omega (arith, int) in
    elim (Bool-cases (string % 4 == 0)) [
      | inl e ↦ rw (e, strlen, word_loop_lem fuel string (string + n) m bytes v less) (ap some back)
      | inr e ↦ rw (e, strlen, byte_loop_lem fuel string (string + n) m v less) (ap some back)
    ]
