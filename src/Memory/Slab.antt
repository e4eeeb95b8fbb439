-- ===== src/Memory/Slab.antt =====
-- src/memory/slab.c: a cache of objects of one size, on its slabs and its local cache. A slab is told by its
-- address; a list of slabs has its first slab first. `pages` is what slabAllocPages gives.
pub mod Bounds
mod Tests
use docqos_old.Base.{
  ℕ, zero, suc, ◌+◌, ◌-◌, ◌*◌, ◌/◌, ◌%◌, ◌^◌, Bool, true, false, not, ◌&&◌, ◌||◌, Option, none,
  some, List, [], ◌∷◌, ◌++◌, ltb, leb, ◌==◌, if◌then◌else◌,
}

-- `(SlabObjDescriptor)(-1)`
abbrev pub last : ℕ
last = 2 ^ 32 - 1

-- `struct Slab`
pub record Slab : Type 0 where
  pub address : ℕ
  pub memory : ℕ
  pub next_free : ℕ
  pub used : ℕ
  pub descriptors : ℕ → ℕ

-- `struct LocalSlabCache`
pub record LocalCache : Type 0 where
  pub limit : ℕ
  pub avail : ℕ
  pub batch : ℕ
  pub objects : ℕ → ℕ

-- `struct SlabCache`
pub record Cache : Type 0 where
  pub near : LocalCache
  pub order : ℕ
  pub per_slab : ℕ
  pub slab_size : ℕ
  pub obj_size : ℕ
  pub free_limit : ℕ
  pub free_count : ℕ
  pub free : List Slab
  pub full : List Slab
  pub partial : List Slab

abbrev pub update : ℕ → ℕ → (ℕ → ℕ) → ℕ → ℕ
update k v f i = if i == k then v else f i

-- `allocSlabForSlabCache`, with the address of its pages.
pub new_slab : ℕ → Cache → Cache
new_slab address c =
    let s : Slab = record {
      address = address;
      memory = address + c.slab_size;
      next_free = 0;
      used = 0;
      descriptors = update (c.per_slab - 1) last (λ i. i + 1);
    } in
    record c { free = s ∷ c.free; free_count = (c.free_count + c.per_slab) % 2 ^ 32 }

-- The order of initSlabCache, with its rounds.
pub order_loop : ℕ → ℕ → ℕ → ℕ
order_loop zero order pages = order
order_loop (suc rounds) order pages =
    let on = order_loop rounds (order + 1) pages in if leb pages (2 ^ order) then order else on

-- `initSlabCache`; 40 is `sizeof(Slab)`.
pub init_slab_cache : ℕ → ℕ → LocalCache → Cache
unfolding order_loop
init_slab_cache obj_size count near =
    let slab_size = (count * 4 + 40) % 2 ^ 32 in
    let pages = (slab_size + obj_size * count + 0xfff) % 2 ^ 32 / 2 ^ 12 in
    record {
      near = near;
      order = order_loop 11 0 pages;
      per_slab = count;
      slab_size = slab_size;
      obj_size = obj_size;
      free_limit = (count + 2 * near.batch) % 2 ^ 32;
      free_count = 0;
      free = [];
      full = [];
      partial = [];
    }

-- The taking of an object out of a slab.
pub take_object : Slab → Cache → Slab × Cache
take_object s c =
    let near = c.near in
    (
      record s { used = s.used + 1; next_free = s.descriptors s.next_free },
      record c {
        near = record near {
          avail = near.avail + 1;
          objects = update near.avail (s.memory + s.next_free * c.obj_size) near.objects;
        };
        free_count = (c.free_count + (2 ^ 32 - 1)) % 2 ^ 32;
      },
    )

-- The inner loop of refillCache, on `batchCount`: what is left of it, the slab and the cache.
pub take_objects : ℕ → Slab → Cache → ℕ × (Slab × Cache)
unfolding take_object
take_objects zero s c = (0, (s, c))
take_objects (suc b) s c =
    let t = take_object s c in
    let on = take_objects b t.0 t.1 in
    if ltb s.used c.per_slab then (if b == 0 then (0, (s, c)) else on) else (suc b, (s, c))

-- The first slab of the partial ones, or else of the free ones, out of its list.
pub first_of : List Slab → List Slab → Cache → Option (Slab × Cache)
first_of (s ∷ ss) free c = some (s, record c { partial = ss })
first_of [] (s ∷ ss) c = some (s, record c { free = ss })
first_of [] [] c = none

-- The slab that a round of the outer loop takes from.
pub next_slab : Cache → Option (Slab × Cache)
unfolding first_of
next_slab c = first_of c.partial c.free c

-- The end of a round.
pub put_slab : Slab → Cache → Cache
put_slab s c =
    if s.next_free == last
    then record c { full = s ∷ c.full }
    else record c { partial = s ∷ c.partial }

-- The outer loop of refillCache, with fuel: what is left of `batchCount`, and the cache.
pub take_loop : ℕ → ℕ → Cache → ℕ × Cache
unfolding take_objects next_slab put_slab
take_loop zero b c = (b, c)
take_loop (suc fuel) b c = if b == 0 then (0, c) else elim (next_slab c) [
  | none ↦ (b, c)
  | some (s, c') ↦ let (b', (s', c'')) = take_objects b s c' in take_loop fuel b' (put_slab s' c'')
]

-- `localCache->data[--localCache->avail]`
pub pop : Cache → ℕ × Cache
pop c =
    let near = c.near in
    (near.objects (near.avail - 1), record c { near = record near { avail = near.avail - 1 } })

-- What refillCache does from `retry:` on, with fuel for its tries and for the loop, on what slabAllocPages
-- gives in turn.
pub refill : ℕ → List (Option ℕ) → ℕ → Cache → Option (Option ℕ × Cache)
unfolding take_loop pop new_slab
refill fuel [] b c =
    let (b', c') = take_loop fuel b c in
    let popped = pop c' in if not (c'.near.avail == 0) then some (some popped.0, popped.1) else none
refill fuel (none ∷ more) b c =
    let (b', c') = take_loop fuel b c in
    let popped = pop c' in
    if not (c'.near.avail == 0) then some (some popped.0, popped.1) else some (none, c')
refill fuel (some address ∷ more) b c =
    let (b', c') = take_loop fuel b c in
    let popped = pop c' in
    let again = refill fuel more b' (new_slab address c') in
    if not (c'.near.avail == 0) then some (some popped.0, popped.1) else again

-- `allocByCache`; with the fuel, `none` when refillCache asks for more pages than there are answers.
pub alloc_by_cache : ℕ → List (Option ℕ) → Cache → Option (Option ℕ × Cache)
unfolding refill pop
alloc_by_cache fuel pages c =
    let popped = pop c in
    let batch = (c.near.batch + 1) % 2 ^ 32 in
    let filled = refill fuel pages batch c in
    if not (c.near.avail == 0)
    then some (some popped.0, popped.1)
    else if batch == 0
    then some (none, c)
    else filled

-- The slab that has an object among its pages, out of a list: it and the rest.
pub take_owner : ℕ → ℕ → List Slab → Option (Slab × List Slab)
take_owner order obj [] = none
take_owner order obj (s ∷ ss) =
    let rest = take_owner order obj ss in
    if leb s.address obj && ltb obj (s.address + 2 ^ order * 4096)
    then some (s, ss)
    else elim rest [ none ↦ none | some (t, ts) ↦ some (t, s ∷ ts) ]

-- `listDelete(&slab->list)`, on the owner of an object, whichever list it is on.
pub remove_owner : ℕ → Cache → Option (Slab × Cache)
unfolding take_owner
remove_owner obj c = elim (take_owner c.order obj c.partial) [
  | some (s, ss) ↦ some (s, record c { partial = ss })
  | none ↦ elim (take_owner c.order obj c.full) [
    | some (s, ss) ↦ some (s, record c { full = ss })
    | none ↦ elim (take_owner c.order obj c.free) [
      | some (s, ss) ↦ some (s, record c { free = ss })
      | none ↦ none
    ]
  ]
]

-- The end of a round of flushLocalCache, with the slab out of its list: a slab without objects in use is
-- kept or destroyed.
pub place_slab : Slab → Cache → Cache
place_slab s c =
    if not (s.used == 0)
    then record c { partial = s ∷ c.partial }
    else if ltb c.free_limit c.free_count
    then record c { free_count = (c.free_count + (2 ^ 32 - c.per_slab)) % 2 ^ 32 }
    else record c { free = s ∷ c.free }

-- What a round of flushLocalCache does with the owner of its object, out of its list.
pub put_object : ℕ → Slab → Cache → Cache
unfolding place_slab
put_object obj s c =
    let number = (obj - s.memory) / c.obj_size in
    place_slab
      (record s {
        descriptors = update number s.next_free s.descriptors;
        next_free = number;
        used = s.used - 1;
      })
      (record c { free_count = (c.free_count + 1) % 2 ^ 32 })

-- A round of flushLocalCache.
pub give_back : ℕ → Cache → Cache
unfolding remove_owner put_object
give_back obj c = elim (remove_owner obj c) [ none ↦ c | some (s, c') ↦ put_object obj s c' ]

-- The loop of flushLocalCache, from `i` on.
pub flush_loop : ℕ → ℕ → Cache → Cache
unfolding give_back
flush_loop zero i c = c
flush_loop (suc rounds) i c =
    flush_loop rounds (i + 1) (give_back (c.near.objects (c.near.limit - i - 1)) c)

-- `flushLocalCache`
pub flush_local_cache : Cache → Cache
unfolding flush_loop
flush_local_cache c =
    let d = flush_loop c.near.batch 0 c in
    record d { near = record d.near { avail = d.near.avail - d.near.batch } }

-- `localCache->data[localCache->avail++] = obj`
abbrev pub push : ℕ → LocalCache → LocalCache
push obj n = record n { avail = n.avail + 1; objects = update n.avail obj n.objects }

-- `freeByCache`
pub free_by_cache : ℕ → Cache → Cache
unfolding flush_local_cache
free_by_cache obj c =
    let flushed = flush_local_cache c in
    let d : Cache = if c.near.avail == c.near.limit then flushed else c in
    record d { near = push obj d.near }

-- The size that createCache asks for.
pub align_size : ℕ → ℕ → ℕ
align_size size align =
    let a = 2 ^ (align % 32) in if align == 0 then size else (size + (a - 1)) % 2 ^ 32 / a * a

pub data Created : Type 0 where
  nothing : Created
  faulted : Created
  made : ℕ → ℕ → Cache → Created

-- The local cache that createCache fills in.
abbrev pub empty_near : LocalCache
empty_near = record { limit = 0x50; avail = 0; batch = 0x10; objects = λ i. 0 }

-- `createCache`, on cacheCache and localCacheCache, with what slabAllocPages gives to either: the addresses
-- of the two structures and the cache. Without room for the second it is written to at address 0.
pub create_cache :
    ℕ
    → List (Option ℕ)
    → List (Option ℕ)
    → ℕ
    → ℕ
    → Cache
    → Cache
    → Option (Created × (Cache × Cache))
unfolding alloc_by_cache init_slab_cache align_size
create_cache fuel pages more size align caches nears = elim (alloc_by_cache fuel pages caches) [
  | none ↦ none
  | some (none, caches') ↦ some (nothing, (caches', nears))
  | some (some a, caches') ↦ elim (alloc_by_cache fuel more nears) [
    | none ↦ none
    | some (none, nears') ↦ some (faulted, (caches', nears'))
    | some (some l, nears') ↦
        some
          (made a l (init_slab_cache (align_size size align) 0x100 empty_near), (caches', nears'))
  ]
]

-- `destorySlab` on each slab of a list, first to last: the addresses that are freed.
pub destroy_slabs : List Slab → List ℕ
destroy_slabs [] = []
destroy_slabs (s ∷ ss) = s.address ∷ destroy_slabs ss

-- `destoryCache`, of the cache with the addresses `a` and `l` of its two structures.
pub destory_cache : ℕ → ℕ → Cache → Cache → Cache → List ℕ × (Cache × Cache)
unfolding destroy_slabs free_by_cache
destory_cache a l c caches nears = (
  destroy_slabs c.free ++ (destroy_slabs c.partial ++ destroy_slabs c.full),
  (free_by_cache a caches, free_by_cache l nears),
)
