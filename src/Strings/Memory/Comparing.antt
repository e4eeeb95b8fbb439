-- ===== src/Strings/Memory/Comparing.antt =====
-- memcmp finds the first byte that differs.
use docqos_old.Base.{
  ℕ, zero, suc, ◌+◌, ◌-◌, ◌<◌, ◌≡◌, refl, ◌≢◌, ap, sym, ◌∙◌, ◌⊎◌, inl, inr, true, arith, leb, ◌==◌,
  Bool-cases,
}
use docqos_old.Base.Int.{ℤ, pos, sub_ℕ}
use docqos_old.Strings.Memory.{Bytes, compare_loop, memcmp}

-- The `n` bytes at `p` and at `q` are the same.
abbrev pub Agree : ℕ → ℕ → ℕ → Bytes → Type 0
Agree p q n m = (i : ℕ) → i < n → m (p + i) ≡ m (q + i)

-- What memcmp gives: 0 for the same bytes, else the difference of the first two that are not.
abbrev pub Compares : ℕ → ℕ → ℕ → Bytes → ℤ → Type 0
Compares p q n m r =
    (Agree p q n m × (r ≡ pos 0))
    ⊎ ((k : ℕ) × (k < n)
        × Agree p q k m
        × (m (p + k) ≢ m (q + k))
        × (r ≡ sub_ℕ (m (p + k)) (m (q + k))))

sub_ℕ-same : (a : ℕ) → sub_ℕ a a ≡ pos 0
sub_ℕ-same a = let e : leb a a ≡ true = ground arith in rw e (ap pos (omega arith))

at_start : (p : ℕ) (m : Bytes) → m (p + 0) ≡ m p
at_start p m = ap m (omega arith)

shift : (p i : ℕ) (m : Bytes) → 0 < i → m (p + 1 + (i - 1)) ≡ m (p + i)
shift p i m h = ap m (omega (arith, h))

Agree-suc : (p q n : ℕ) (m : Bytes) → m p ≡ m q → Agree (p + 1) (q + 1) n m → Agree p q (suc n) m
Agree-suc p q n m e a i h = elim (Bool-cases (i == 0)) [
  | inl z ↦
      let zero_i : i ≡ 0 = ground (arith, z) in rw zero_i (at_start p m ∙ e ∙ sym (at_start q m))
  | inr z ↦
      sym (shift p i m (ground (arith, z)))
      ∙ a (i - 1) (ground (arith, z, h))
      ∙ shift q i m (ground (arith, z))
]

compare_loop-Compares : (n p q : ℕ) (m : Bytes) → 0 < n → Compares p q n m (compare_loop n p q m)
unfolding compare_loop
compare_loop-Compares zero p q m h = absurd (omega (arith, h))
compare_loop-Compares (suc n) p q m h = elim (Bool-cases (m p == m q)) [
  | inr d ↦
      let ne : m p ≢ m q = ground (arith, d) in
      rw d (
        inr (
          0,
          omega arith,
          (λ i lt. absurd (omega (arith, lt))),
          (λ e. ne (sym (at_start p m) ∙ e ∙ at_start q m)),
          rw (at_start p m, at_start q m) refl,
        ))
  | inl s ↦
      let e : m p ≡ m q = ground (arith, s) in
      elim (Bool-cases (n == 0)) [
        | inl z ↦
            let n0 : n ≡ 0 = ground (arith, z) in
            rw (s, z)
              (inl (
                (λ i lt. Agree-suc p q n m e (λ j l. absurd (omega (arith, n0, l))) i lt),
                ap (λ a. sub_ℕ a (m q)) e ∙ sub_ℕ-same (m q),
              ))
        | inr z ↦
            rw (s, z)
              (further p q n m e (compare_loop-Compares n (p + 1) (q + 1) m (ground (arith, z))))
      ]
]
  where
    further :
        (p q n : ℕ) (m : Bytes) {r : ℤ}
        → m p ≡ m q
        → Compares (p + 1) (q + 1) n m r
        → Compares p q (suc n) m r
    further p q n m e (inl (a, z)) = inl (Agree-suc p q n m e a, z)
    further p q n m e (inr (k, lt, a, ne, r)) =
        let x : m (p + 1 + k) ≡ m (p + suc k) = ap m (omega arith) in
        let y : m (q + 1 + k) ≡ m (q + suc k) = ap m (omega arith) in
        inr (
          suc k,
          omega (arith, lt),
          Agree-suc p q k m e a,
          (λ f. ne (x ∙ f ∙ sym y)),
          rw (sym x, sym y) r,
        )

-- memcmp gives 0 when the bytes are the same, and else the difference of the first two bytes that are not.
pub memcmp-Compares : (p q n : ℕ) (m : Bytes) → Compares p q n m (memcmp p q n m)
unfolding memcmp
memcmp-Compares p q n m = elim (Bool-cases (n == 0)) [
  | inl z ↦ rw z (inl ((λ i lt. absurd (ground (arith, z, lt))), refl))
  | inr z ↦ rw z (compare_loop-Compares n p q m (ground (arith, z)))
]
