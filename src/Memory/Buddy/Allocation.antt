-- ===== src/Memory/Buddy/Allocation.antt =====
-- What an allocation takes from the free blocks.
use mathlib.Core.Path.{subst}
use mathlib.Core.Option.{some-injective}
use docqos_old.Base.{
  ℕ, zero, suc, ◌+◌, ◌-◌, ◌^◌, ◌≤◌, ◌<◌, ◌≡◌, refl, ap, inl, inr, Bool, true, false, Option, none,
  some, List, [], ◌∷◌, ◌++◌, arith, ◌==◌, Bool-cases, Option-cases, All,
}
use docqos_old.Memory.Buddy.{
  max_order, State, take_first, Found, search, give_half, take_out, split, take_block, alloc_with,
  alloc_pages,
}
use docqos_old.Memory.Buddy.Cover.{
  inside, cover, among-append, cover-update, inside-halves, among-take_first,
}

-- How many free blocks contain a page.
abbrev pub free_blocks : ℕ → State → ℕ
free_blocks q s = cover q max_order s.lists

give_half-free_blocks :
    (q page k : ℕ) (s : State)
    → k < max_order
    → free_blocks q (give_half page k s) ≡ free_blocks q s + inside q (page + 2 ^ k) k
unfolding give_half
give_half-free_blocks q page k s h = omega (
  arith,
  cover-update q max_order k (s.lists k ++ ((page + 2 ^ k) ∷ [])) s.lists h,
  among-append q k (s.lists k) (page + 2 ^ k),
)

split-free_blocks :
    (q n page order : ℕ) (s : State)
    → order + n ≤ max_order
    → free_blocks q (split n page order s) + inside q page order
      ≡ free_blocks q s + inside q page (order + n)
unfolding split
split-free_blocks q zero page order s h =
    let same : order ≡ order + 0 = omega arith in ap (λ k. free_blocks q s + inside q page k) same
split-free_blocks q (suc n) page order s h =
    let above : suc (order + n) ≡ order + suc n = omega arith in
    omega (
      ap (inside q page) above,
      arith,
      split-free_blocks q n page order (give_half page (order + n) s) (omega arith),
      give_half-free_blocks q page (order + n) s (omega arith),
      inside-halves q page (order + n),
    )

take_first-fits :
    (fits : ℕ → Bool) (bs : List ℕ) (b : ℕ) (rest : List ℕ)
    → take_first fits bs ≡ some (b, rest)
    → fits b ≡ true
unfolding take_first
take_first-fits fits [] b rest e = absurd (cc)
take_first-fits fits (c ∷ cs) b rest e = elim (Bool-cases (fits c)) [
  | inl here ↦
      let e' : some (c, cs) ≡ some (b, rest) = rw here at e in
      subst (λ x. fits x ≡ true) (ap (λ x. x.0) (some-injective _ _ e')) here
  | inr later ↦ elim (Option-cases (take_first fits cs)) [
    | inl nothing ↦ let bad : none ≡ some (b, rest) = rw (later, nothing) at e in absurd (cc)
    | inr (w, found) ↦
        let e' : some (w.0, c ∷ w.1) ≡ some (b, rest) = rw (later, found) at e in
        subst (λ x. fits x ≡ true) (ap (λ x. x.0) (some-injective _ _ e'))
          (take_first-fits fits cs w.0 w.1 found)
  ]
]

take_first-none :
    (fits : ℕ → Bool) (bs : List ℕ) → take_first fits bs ≡ none → All (λ b. fits b ≡ false) bs
unfolding take_first
take_first-none fits [] e = tt
take_first-none fits (c ∷ cs) e = elim (Bool-cases (fits c)) [
  | inl here ↦ let bad : some (c, cs) ≡ none = rw here at e in absurd (cc)
  | inr later ↦ elim (Option-cases (take_first fits cs)) [
    | inl nothing ↦ (later, take_first-none fits cs nothing)
    | inr (w, found) ↦ let bad : some (w.0, c ∷ w.1) ≡ none = rw (later, found) at e in absurd (cc)
  ]
]

-- What the search finds.
record IsFound (fits : ℕ → Bool) (lists : ℕ → List ℕ) (order : ℕ) (limit : ℕ) (f : Found)
    : Type 0 where
  from : order ≤ f.at
  below : f.at < limit
  taken : take_first fits (lists f.at) ≡ some (f.page, f.rest)

abbrev NoneFits : (ℕ → Bool) → (ℕ → List ℕ) → ℕ → ℕ → Type 0
NoneFits fits lists order limit =
    (k : ℕ) → order ≤ k → k < limit → All (λ b. fits b ≡ false) (lists k)

abbrev SearchResult : (ℕ → Bool) → (ℕ → List ℕ) → ℕ → ℕ → Option Found → Type 0
SearchResult fits lists order limit none = NoneFits fits lists order limit
SearchResult fits lists order limit (some f) = IsFound fits lists order limit f

-- An order without a block that fits can be left out of the search.
pass_over :
    (fits : ℕ → Bool) (lists : ℕ → List ℕ) (order limit : ℕ) (o : Option Found)
    → All (λ b. fits b ≡ false) (lists order)
    → SearchResult fits lists (order + 1) limit o
    → SearchResult fits lists order limit o
pass_over fits lists order limit none h r = λ k lo hi. elim (Bool-cases (order == k)) [
  | inl same ↦
      let e : order ≡ k = ground arith in subst (λ j. All (λ b. fits b ≡ false) (lists j)) e h
  | inr other ↦ r k (ground arith) hi
]
pass_over fits lists order limit (some f) h r = record {
  from = omega (arith, r.from);
  below = r.below;
  taken = r.taken;
}

search-SearchResult :
    (rounds : ℕ) (fits : ℕ → Bool) (lists : ℕ → List ℕ) (order limit : ℕ)
    → order + rounds ≡ limit
    → SearchResult fits lists order limit (search rounds fits lists order)
unfolding search
search-SearchResult zero fits lists order limit e = λ k lo hi. absurd (omega arith)
search-SearchResult (suc rounds) fits lists order limit e =
    with_first (take_first fits (lists order)) refl
      (search-SearchResult rounds fits lists (order + 1) limit (omega arith))
  where
    with_first :
        (o : Option (ℕ × List ℕ))
        → take_first fits (lists order) ≡ o
        → SearchResult fits lists (order + 1) limit (search rounds fits lists (order + 1))
        → SearchResult fits lists order limit (elim o [
          | none ↦ search rounds fits lists (order + 1)
          | some (b, bs) ↦ some (record { page = b; at = order; rest = bs })
        ])
    with_first none nothing later =
        pass_over fits lists order limit (search rounds fits lists (order + 1))
          (take_first-none fits (lists order) nothing) later
    with_first (some (b, bs)) found later = record {
      from = omega arith;
      below = omega arith;
      taken = found;
    }

take_out-free_blocks :
    (q order : ℕ) (fits : ℕ → Bool) (f : Found) (s : State)
    → IsFound fits s.lists order max_order f
    → free_blocks q s ≡ free_blocks q (take_out f s) + inside q f.page f.at
unfolding take_out
take_out-free_blocks q order fits f s v = omega (
  arith,
  cover-update q max_order f.at f.rest s.lists v.below,
  among-take_first q f.at fits (s.lists f.at) f.page f.rest v.taken,
)

take_block-free_blocks :
    (q order : ℕ) (fits : ℕ → Bool) (f : Found) (s : State)
    → IsFound fits s.lists order max_order f
    → free_blocks q s ≡ free_blocks q (take_block order f s) + inside q f.page order
unfolding take_block
take_block-free_blocks q order fits f s v =
    let sum : order + (f.at - order) ≡ f.at = omega (arith, v.from) in
    omega (
      arith,
      take_out-free_blocks q order fits f s v,
      ap (inside q f.page) sum,
      split-free_blocks q (f.at - order) f.page order (take_out f s)
          (omega (arith, v.from, v.below)),
    )

-- What an allocation of an order comes to, with the page that it returns.
abbrev pub Allocates : (ℕ → Bool) → ℕ → State → Option ℕ × State → Type 0
Allocates fits order s (none, s') =
    (s' ≡ s) × ((k : ℕ) → order ≤ k → k < max_order → All (λ b. fits b ≡ false) (s.lists k))
Allocates fits order s (some b, s') =
    (fits b ≡ true) × ((q : ℕ) → free_blocks q s ≡ free_blocks q s' + inside q b order)

-- An allocation that returns a page has taken exactly the pages of its block, 2 ^ order from that page on,
-- from the free blocks: each other page is in as many free blocks as before, whatever was split. It returns
-- none only when no free block of the order or above passes its test of the address, and changes nothing.
pub alloc_with-Allocates :
    (fits : ℕ → Bool) (order : ℕ) (s : State)
    → order ≤ max_order
    → Allocates fits order s (alloc_with fits order s)
unfolding alloc_with
alloc_with-Allocates fits order s h =
    with_found (search (max_order - order) fits s.lists order)
      (search-SearchResult (max_order - order) fits s.lists order max_order (omega arith))
  where
    with_found :
        (o : Option Found)
        → SearchResult fits s.lists order max_order o
        → Allocates fits order s
            (elim o [ none ↦ (none, s) | some f ↦ (some f.page, take_block order f s) ])
    with_found none r = (refl, r)
    with_found (some f) v = (
      take_first-fits fits (s.lists f.at) f.page f.rest v.taken,
      λ q. take_block-free_blocks q order fits f s v,
    )

-- Two allocations in turn return blocks without a common page, if no page is in two free blocks before.
pub alloc_pages-alloc_pages :
    (o1 o2 : ℕ) (s s1 s2 : State) (b c : ℕ)
    → o1 ≤ max_order
    → o2 ≤ max_order
    → ((q : ℕ) → free_blocks q s ≤ 1)
    → alloc_pages o1 s ≡ (some b, s1)
    → alloc_pages o2 s1 ≡ (some c, s2)
    → (q : ℕ) → inside q b o1 + inside q c o2 ≤ 1
unfolding alloc_pages
alloc_pages-alloc_pages o1 o2 s s1 s2 b c h1 h2 once first second q =
    let one = subst (Allocates (λ b. true) o1 s) first (alloc_with-Allocates (λ b. true) o1 s h1) in
    let two =
      subst (Allocates (λ b. true) o2 s1) second (alloc_with-Allocates (λ b. true) o2 s1 h2) in
    omega (arith, one.1 q, two.1 q, once q)
