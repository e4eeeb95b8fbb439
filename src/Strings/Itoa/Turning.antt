-- ===== src/Strings/Itoa/Turning.antt =====
-- The loop of itoa that turns the text around.
use docqos_old.Base.{
  ℕ, zero, suc, ◌+◌, ◌-◌, ◌≤◌, ◌<◌, ◌≡◌, refl, ◌≢◌, ap, ◌∙◌, ◌⊎◌, inl, inr, true, false, arith, ltb,
  ◌==◌, Bool-cases,
}
use docqos_old.Strings.Memory.{Bytes, store}
use docqos_old.Strings.Itoa.{turn_loop}

pub store-same : (p v : ℕ) (m : Bytes) → store p v m p ≡ v
store-same p v m = let e : (p == p) ≡ true = ground arith in rw e refl

pub store-other : (p v q : ℕ) (m : Bytes) → q ≢ p → store p v m q ≡ m q
store-other p v q m h = let e : (q == p) ≡ false = ground (arith, h) in rw e refl

-- The `n` bytes from `a` on, the other way around.
pub record IsTurned (a n : ℕ) (m m' : Bytes) : Type 0 where
  pub turned : (i : ℕ) → i < n → m' (a + i) ≡ m (a + (n - 1 - i))
  pub rest : (q : ℕ) → (q < a) ⊎ (a + n ≤ q) → m' q ≡ m q

module _ (a n : ℕ) (m : Bytes) (h : 0 < n) where
  -- The memory after the first exchange.
  abbrev swapped : Bytes
  swapped = store a (m (a + n - 1)) (store (a + n - 1) (m a) m)

  swapped-first : swapped a ≡ m (a + (n - 1))
  swapped-first =
      let e : a + n - 1 ≡ a + (n - 1) = omega (arith, h) in
      store-same a (m (a + n - 1)) (store (a + n - 1) (m a) m) ∙ ap m e

  swapped-last : swapped (a + n - 1) ≡ m a
  swapped-last = elim (Bool-cases (a + n - 1 == a)) [
    | inl e ↦ let s : a + n - 1 ≡ a = ground (arith, e) in rw (e, s) refl
    | inr e ↦ rw e (store-same (a + n - 1) (m a) m)
  ]

  swapped-other : (q : ℕ) → q ≢ a → q ≢ a + n - 1 → swapped q ≡ m q
  swapped-other q x y =
      store-other a (m (a + n - 1)) q (store (a + n - 1) (m a) m) x
      ∙ store-other (a + n - 1) (m a) q m y

  -- The bytes inside, turned around or too few for it, give the whole.
  swapped-IsTurned :
      (m' : Bytes)
      → ((q : ℕ) → (q < a + 1) ⊎ (a + n ≤ q + 1) → m' q ≡ swapped q)
      → ((i : ℕ) → 0 < i → i + 1 < n → m' (a + i) ≡ swapped (a + (n - 1 - i)))
      → IsTurned a n m m'
  swapped-IsTurned m' out mid = record {
    turned = λ i l. elim (Bool-cases (i == 0)) [
      | inl z ↦
          let at : a + i ≡ a = ground (arith, z) in
          let to : n - 1 - i ≡ n - 1 = ground (arith, z) in
          rw (at, to) (out a (inl (omega arith)) ∙ swapped-first)
      | inr z ↦ elim (Bool-cases (i + 1 == n)) [
        | inl t ↦
            let at : a + i ≡ a + n - 1 = ground (arith, t) in
            let to : a + (n - 1 - i) ≡ a = ground (arith, t) in
            rw (at, to) (out (a + n - 1) (inr (omega (arith, h))) ∙ swapped-last)
        | inr t ↦
            mid i (ground (arith, z)) (ground (arith, t, l))
            ∙ swapped-other (a + (n - 1 - i)) (λ e. ground (arith, e, t, l))
                (λ e. ground (arith, e, z, l))
      ]
    ];
    rest = λ q o. out q (wider q o) ∙ swapped-other q (apart q o) (apart_end q o);
  }
    where
      wider : (q : ℕ) → (q < a) ⊎ (a + n ≤ q) → (q < a + 1) ⊎ (a + n ≤ q + 1)
      wider q (inl l) = inl (omega (arith, l))
      wider q (inr l) = inr (omega (arith, l))

      apart : (q : ℕ) → (q < a) ⊎ (a + n ≤ q) → q ≢ a
      apart q (inl l) e = omega (arith, l, e)
      apart q (inr l) e = omega (arith, l, e, h)

      apart_end : (q : ℕ) → (q < a) ⊎ (a + n ≤ q) → q ≢ a + n - 1
      apart_end q (inl l) e = omega (arith, l, e, h)
      apart_end q (inr l) e = omega (arith, l, e, h)

pub turn_loop-IsTurned :
    (fuel a n : ℕ) (m : Bytes)
    → 0 < n
    → n ≤ fuel
    → IsTurned a n m (turn_loop fuel a (a + n - 1) m).1
unfolding turn_loop
turn_loop-IsTurned zero a n m h enough = absurd (omega (arith, h, enough))
turn_loop-IsTurned (suc fuel) a n m h enough = elim (Bool-cases (ltb (a + 1) (a + n - 1 - 1))) [
  | inr e ↦
      let few : n ≤ 3 = ground (arith, e) in
      rw e (
        swapped-IsTurned a n m h (swapped a n m h) (λ q o. refl)
          (λ i l u. ap (swapped a n m h) (omega (arith, few, l, u))))
  | inl e ↦
      let many : 3 < n = ground (arith, e) in
      let last : a + n - 1 - 1 ≡ a + 1 + (n - 2) - 1 = omega (arith, many) in
      let v =
        turn_loop-IsTurned fuel (a + 1) (n - 2) (swapped a n m h) (omega (arith, many))
          (omega (arith, enough)) in
      rw (e, last)
        (swapped-IsTurned a n m h (turn_loop fuel (a + 1) (a + 1 + (n - 2) - 1) (swapped a n m h)).1
          (λ q o. v.rest q (inner q o many)) (λ i l u. middle i l u v))
]
  where
    inner : (q : ℕ) → (q < a + 1) ⊎ (a + n ≤ q + 1) → 3 < n → (q < a + 1) ⊎ (a + 1 + (n - 2) ≤ q)
    inner q (inl l) many = inl l
    inner q (inr l) many = inr (omega (arith, l, many))

    middle :
        (i : ℕ) {m1 m2 : Bytes}
        → 0 < i
        → i + 1 < n
        → IsTurned (a + 1) (n - 2) m1 m2
        → m2 (a + i) ≡ m1 (a + (n - 1 - i))
    middle i {m1} {m2} l u v =
        let at : a + i ≡ a + 1 + (i - 1) = omega (arith, l) in
        let to : a + 1 + (n - 2 - 1 - (i - 1)) ≡ a + (n - 1 - i) = omega (arith, l, u) in
        rw at (v.turned (i - 1) (omega (arith, l, u)) ∙ ap m1 to)
