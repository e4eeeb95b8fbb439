-- ===== src/Memory/Slab/Tests.antt =====
-- A cache of objects of 64 bytes, with one slab.
use docqos_old.Base.{◌≡◌, some, [], arith}
use docqos_old.Memory.Slab.{LocalCache, Cache, init_slab_cache, alloc_by_cache, free_by_cache}
use docqos_old.Memory.Slab.Bounds.{IsBounded, alloc_by_cache-free_by_cache}

abbrev near : LocalCache
near = record { limit = 80; avail = 0; batch = 16; objects = λ i. 0 }

abbrev fresh : Cache
fresh = record (init_slab_cache 64 256 near) { near = near }

near-IsBounded : IsBounded near
near-IsBounded = record {
  avail_in = omega arith;
  batch_in = omega arith;
  batch_pos = omega arith;
  limit_in = omega arith;
}

alloc_by_cache-free_by_cache_example :
    IsBounded (free_by_cache 0x400440 fresh).near
    × ((d : Cache) × (alloc_by_cache 20 [] (free_by_cache 0x400440 fresh)
          ≡ some (some 0x400440, d)))
alloc_by_cache-free_by_cache_example =
    alloc_by_cache-free_by_cache 20 0x400440 [] fresh near-IsBounded
