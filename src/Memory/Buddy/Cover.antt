-- ===== src/Memory/Buddy/Cover.antt =====
-- How many free blocks contain a page.
use docqos_old.Base.{
  ℕ, zero, suc, ◌+◌, ◌^◌, ◌≤◌, ◌<◌, ◌≡◌, refl, ap, inl, inr, Bool, true, false, ◌&&◌, none, some,
  List, [], ◌∷◌, ◌++◌, arith, ltb, leb, ◌==◌, if◌then◌else◌, Bool-cases, Option-cases,
}
use mathlib.Core.Path.{subst}
use mathlib.Core.Option.{some-injective}
use docqos_old.Memory.Buddy.{update, take_first}

-- Whether the page `q` is in the block at `b` of order `k`.
abbrev pub inside : ℕ → ℕ → ℕ → ℕ
inside q b k = if leb b q && ltb q (b + 2 ^ k) then 1 else 0

abbrev pub among : ℕ → ℕ → List ℕ → ℕ
among q k [] = 0
among q k (b ∷ bs) = inside q b k + among q k bs

-- How many blocks of the orders below `n` contain the page.
unfoldable pub cover : ℕ → ℕ → (ℕ → List ℕ) → ℕ
cover q zero lists = 0
cover q (suc n) lists = cover q n lists + among q n (lists n)

pub among-append :
    (q k : ℕ) (bs : List ℕ) (b : ℕ) → among q k (bs ++ (b ∷ [])) ≡ among q k bs + inside q b k
among-append q k [] b = omega arith
among-append q k (c ∷ bs) b = omega (arith, among-append q k bs b)

cover-above :
    (q n k : ℕ) (l : List ℕ) (lists : ℕ → List ℕ)
    → n ≤ k
    → cover q n (update k l lists) ≡ cover q n lists
unfolding cover
cover-above q zero k l lists h = refl
cover-above q (suc n) k l lists h =
    let other : (n == k) ≡ false = ground arith in
    rw (cover-above q n k l lists (omega arith), other) refl

cover-update_top :
    (q n : ℕ) (l : List ℕ) (lists : ℕ → List ℕ)
    → cover q (suc n) (update n l lists) + among q n (lists n) ≡ cover q (suc n) lists + among q n l
unfolding cover
cover-update_top q n l lists =
    let self : (n == n) ≡ true = ground arith in
    let new : update n l lists n ≡ l = rw self refl in
    omega (arith, cover-above q n n l lists (omega arith), ap (among q n) new)

-- Putting another list of blocks at an order.
pub cover-update :
    (q n k : ℕ) (l : List ℕ) (lists : ℕ → List ℕ)
    → k < n
    → cover q n (update k l lists) + among q k (lists k) ≡ cover q n lists + among q k l
unfolding cover
cover-update q zero k l lists h = absurd (omega arith)
cover-update q (suc n) k l lists h = elim (Bool-cases (n == k)) [
  | inl same ↦
      let e : n ≡ k = ground arith in
      subst
        (λ j.
          cover q (suc n) (update j l lists) + among q j (lists j)
          ≡ cover q (suc n) lists + among q j l)
        e (cover-update_top q n l lists)
  | inr other ↦
      let lt : k < n = ground arith in rw other (omega (arith, cover-update q n k l lists lt))
]

-- A block is its two halves.
pub inside-halves : (q b k : ℕ) → inside q b (suc k) ≡ inside q b k + inside q (b + 2 ^ k) k
inside-halves q b k = ground arith

pub among-take_first :
    (q k : ℕ) (fits : ℕ → Bool) (bs : List ℕ) (b : ℕ) (rest : List ℕ)
    → take_first fits bs ≡ some (b, rest)
    → among q k bs ≡ inside q b k + among q k rest
unfolding take_first
among-take_first q k fits [] b rest e = absurd (cc)
among-take_first q k fits (c ∷ cs) b rest e = elim (Bool-cases (fits c)) [
  | inl here ↦
      let e' : some (c, cs) ≡ some (b, rest) = rw here at e in
      let p : (c, cs) ≡ (b, rest) = some-injective _ _ e' in
      ap (λ x. inside q x.0 k + among q k x.1) p
  | inr later ↦ elim (Option-cases (take_first fits cs)) [
    | inl nothing ↦ let bad : none ≡ some (b, rest) = rw (later, nothing) at e in absurd (cc)
    | inr (w, found) ↦
        let e' : some (w.0, c ∷ w.1) ≡ some (b, rest) = rw (later, found) at e in
        omega (
          arith,
          among-take_first q k fits cs w.0 w.1 found,
          ap (λ x. inside q x.0 k + among q k x.1) (some-injective _ _ e'),
        )
  ]
]
