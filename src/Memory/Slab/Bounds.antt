-- ===== src/Memory/Slab/Bounds.antt =====
-- The local cache of objects stays within its array.
use mathlib.Core.Option.{none-ne-some, some-injective}
use docqos_old.Base.{
  ℕ, zero, suc, ◌+◌, ◌-◌, ◌/◌, ◌%◌, ◌^◌, ◌≤◌, ◌<◌, ◌≡◌, refl, ap, sym, ◌∙◌, inl, inr, true, false,
  Option, none, some, List, [], ◌∷◌, arith, ltb, ◌==◌, if◌then◌else◌, Bool-cases, Option-cases,
}
use docqos_old.Memory.Slab.{
  Slab, LocalCache, Cache, pop, alloc_by_cache, take_owner, remove_owner, place_slab, put_object,
  update, give_back, flush_loop, flush_local_cache, push, free_by_cache,
}

-- The objects in the local cache are in its array, and a batch fits into it.
pub record IsBounded (n : LocalCache) : Type 0 where
  pub avail_in : n.avail ≤ n.limit
  pub batch_in : n.batch ≤ n.limit
  pub batch_pos : 0 < n.batch
  pub limit_in : n.limit < 2 ^ 32 - 1

-- Room for `b - 1` more objects.
record HasRoom (b : ℕ) (n : LocalCache) : Type 0 where
  room : n.avail + b ≤ n.limit + 1
  bounded : IsBounded n

-- What allocByCache leaves: after an object, one place of the array is free, so that what was taken into it
-- before the object was popped was within it.
abbrev pub Keeps : Option (Option ℕ × Cache) → Type 0
Keeps none = ⊥
Keeps (some (none, d)) = IsBounded d.near
Keeps (some (some obj, d)) = IsBounded d.near × (d.near.avail < d.near.limit)

-- What a call can do when the first pages are got, and then none.
abbrev pub until_none : List ℕ → List (Option ℕ)
until_none [] = none ∷ []
until_none (p ∷ ps) = some p ∷ until_none ps

place_slab-near : (s : Slab) (c : Cache) → (place_slab s c).near ≡ c.near
unfolding place_slab
place_slab-near s c = elim (Bool-cases (s.used == 0)) [
  | inl e ↦ elim (Bool-cases (ltb c.free_limit c.free_count)) [
    | inl f ↦ rw (e, f) refl
    | inr f ↦ rw (e, f) refl
  ]
  | inr e ↦ rw e refl
]

remove_owner-near :
    (obj : ℕ) (c c' : Cache) (s : Slab) → remove_owner obj c ≡ some (s, c') → c'.near ≡ c.near
unfolding remove_owner
remove_owner-near obj c c' s e = elim (Option-cases (take_owner c.order obj c.partial)) [
  | inr (t, p) ↦ sym (ap (λ x. x.1.near) (some-injective _ _ (rw (p, remove_owner) at e)))
  | inl p ↦ elim (Option-cases (take_owner c.order obj c.full)) [
    | inr (t, f) ↦ sym (ap (λ x. x.1.near) (some-injective _ _ (rw (p, remove_owner, f) at e)))
    | inl f ↦ elim (Option-cases (take_owner c.order obj c.free)) [
      | inr (t, g) ↦ sym (ap (λ x. x.1.near) (some-injective _ _ (rw (p, remove_owner, f, g) at e)))
      | inl g ↦ absurd (none-ne-some _ (rw (p, remove_owner, f, g) at e))
    ]
  ]
]

put_object-near : (obj : ℕ) (s : Slab) (c : Cache) → (put_object obj s c).near ≡ c.near
unfolding put_object
put_object-near obj s c =
    let number = (obj - s.memory) / c.obj_size in
    let t : Slab = record s {
      descriptors = update number s.next_free s.descriptors;
      next_free = number;
      used = s.used - 1;
    } in
    let d : Cache = record c { free_count = (c.free_count + 1) % 2 ^ 32 } in place_slab-near t d

give_back-near : (obj : ℕ) (c : Cache) → (give_back obj c).near ≡ c.near
unfolding give_back
give_back-near obj c = elim (Option-cases (remove_owner obj c)) [
  | inl n ↦ rw (n, give_back) refl
  | inr ((s, c'), r) ↦ rw (r, give_back) (put_object-near obj s c' ∙ remove_owner-near obj c c' s r)
]

flush_loop-near : (rounds i : ℕ) (c : Cache) → (flush_loop rounds i c).near ≡ c.near
unfolding flush_loop
flush_loop-near zero i c = refl
flush_loop-near (suc rounds) i c =
    let obj = c.near.objects (c.near.limit - i - 1) in
    flush_loop-near rounds (i + 1) (give_back obj c) ∙ give_back-near obj c

-- The local cache that freeByCache stores into.
abbrev target : LocalCache → LocalCache
target n = if n.avail == n.limit then record n { avail = n.avail - n.batch } else n

free_by_cache-near : (obj : ℕ) (c : Cache) → (free_by_cache obj c).near ≡ push obj (target c.near)
unfolding free_by_cache flush_local_cache
free_by_cache-near obj c = elim (Bool-cases (c.near.avail == c.near.limit)) [
  | inl e ↦ rw e (
      ap (λ n. push obj (record n { avail = n.avail - n.batch }))
        (flush_loop-near c.near.batch 0 c))
  | inr e ↦ rw e refl
]

push-IsBounded : (obj : ℕ) (n : LocalCache) → IsBounded n → IsBounded (push obj (target n))
push-IsBounded obj n v = elim (Bool-cases (n.avail == n.limit)) [
  | inl e ↦ rw e (record {
    avail_in = ground (arith, e, v.batch_in, v.batch_pos);
    batch_in = v.batch_in;
    batch_pos = v.batch_pos;
    limit_in = v.limit_in;
  })
  | inr e ↦ rw e (record {
    avail_in = ground (arith, e, v.avail_in);
    batch_in = v.batch_in;
    batch_pos = v.batch_pos;
    limit_in = v.limit_in;
  })
]

pop-push :
    (obj : ℕ) (n : LocalCache) (fuel : ℕ) (pages : List (Option ℕ)) (c : Cache)
    → c.near ≡ push obj n
    → (d : Cache) × (alloc_by_cache fuel pages c ≡ some (some obj, d))
unfolding alloc_by_cache pop
pop-push obj n fuel pages c e =
    let some_left : (c.near.avail == 0) ≡ false = ground (arith, ap (λ m. m.avail) e) in
    let top : c.near.objects (c.near.avail - 1) ≡ obj = rw e (at_top obj n) in
    ((pop c).1, rw (some_left, top) refl)
  where
    at_top : (obj : ℕ) (n : LocalCache) → update n.avail obj n.objects (n.avail + 1 - 1) ≡ obj
    at_top obj n = let e : (n.avail + 1 - 1 == n.avail) ≡ true = ground arith in rw e refl

-- When the local cache is within its array and a batch fits into it, freeByCache stores the object
-- within the array, if need be after a flush, and allocByCache then gives the same object again,
-- whatever pages there are.
pub alloc_by_cache-free_by_cache :
    (fuel obj : ℕ) (pages : List (Option ℕ)) (c : Cache)
    → IsBounded c.near
    → IsBounded (free_by_cache obj c).near
      × ((d : Cache) × (alloc_by_cache fuel pages (free_by_cache obj c) ≡ some (some obj, d)))
alloc_by_cache-free_by_cache fuel obj pages c v =
    let e = free_by_cache-near obj c in
    (
      rw e (push-IsBounded obj c.near v),
      pop-push obj (target c.near) fuel pages (free_by_cache obj c) e,
    )
