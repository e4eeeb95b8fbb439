-- ===== src/Memory/Buddy/Tests.antt =====
-- Runs of the buddy allocator.
use docqos_old.Base.{ℕ, ◌≤◌, ◌≡◌, refl, true, false, some, [], ◌∷◌, arith}
use docqos_old.Base.Errno.{ok}
use docqos_old.Memory.Buddy.{
  State, init_page, page_is_buddy, update, take_first, search, give_half, split, take_out,
  take_block, alloc_with, alloc_pages, drop_block, merge, put_block, free_pages,
}
use docqos_old.Memory.Buddy.Cover.{cover}
use docqos_old.Memory.Buddy.Allocation.{Allocates, free_blocks, alloc_with-Allocates}

-- Pages 8 to 15 are one free block.
abbrev eight_free : State
eight_free = record {
  pages =
      update 8
        (record {
          count = 0;
          reserved = false;
          has_order = true;
          slab = false;
          cached = false;
          order = 3;
        })
        (λ i. record init_page { count = 0 });
  lists = update 3 (8 ∷ []) (λ k. []);
  free_count = 8;
}

alloc_with-Allocates_example :
    Allocates (λ b. true) 1 eight_free (alloc_with (λ b. true) 1 eight_free)
alloc_with-Allocates_example = alloc_with-Allocates (λ b. true) 1 eight_free (omega arith)

lower_half : (alloc_with (λ b. true) 1 eight_free).0 ≡ some 8
unfolding alloc_with search take_first
lower_half = refl

first_block : alloc_pages 1 eight_free ≡ (some 8, (alloc_pages 1 eight_free).1)
unfolding alloc_pages alloc_with search take_first take_block
first_block = refl

second_block :
    alloc_pages 0 (alloc_pages 1 eight_free).1
    ≡ (some 10, (alloc_pages 0 (alloc_pages 1 eight_free).1).1)
unfolding alloc_pages alloc_with search take_first take_block take_out split give_half
second_block = refl

free_once : (q : ℕ) → free_blocks q eight_free ≤ 1
unfolding cover
free_once q = ground arith

-- Freed in turn, the two blocks of order 2 merge into the block of order 3 again.
abbrev both_freed : State
both_freed =
    let s = (alloc_pages 2 (alloc_pages 2 eight_free).1).1 in
    (free_pages (λ p s. (ok 0, s)) 8 2 (free_pages (λ p s. (ok 0, s)) 12 2 s).1).1

merged_again :
    (both_freed.lists 3 ≡ 8 ∷ []) × (both_freed.lists 2 ≡ []) × (both_freed.free_count ≡ 8)
unfolding free_pages put_block merge drop_block page_is_buddy alloc_pages alloc_with search
    take_first take_block take_out split give_half init_page
merged_again = (refl, refl, refl)
