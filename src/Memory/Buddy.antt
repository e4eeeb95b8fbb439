-- ===== src/Memory/Buddy.antt =====
-- src/memory/buddy.c: the buddy allocator. A page is its index in `memoryMap`; a list of free blocks holds
-- the index of each block's first page. The spin locks are left out, so an allocation or a release is one
-- step. Page addresses stay below 2 ^ 64.
pub mod Cover
pub mod Allocation
mod Tests
use Prim.Native.Nat.{bit_xor, bit_and}
use docqos_old.Base.{
  ℕ, zero, suc, ◌+◌, ◌-◌, ◌*◌, ◌%◌, ◌^◌, Bool, true, false, not, ◌&&◌, Option, none, some, List, [],
  ◌∷◌, ◌++◌, ltb, ◌==◌, if◌then◌else◌,
}
use docqos_old.Base.Errno.{Ret, ok, err, eperm}

-- `MAX_ORDER`
abbrev pub max_order : ℕ
max_order = 11

-- `struct PhysicsPage`, with the flags as Booleans; `order` is the field `data`.
pub record Page : Type 0 where
  pub count : ℕ
  pub reserved : Bool
  pub has_order : Bool
  pub slab : Bool
  pub cached : Bool
  pub order : ℕ

-- `memoryMap`, `buddyFreeList` and `freePhysicsPageCount`.
pub record State : Type 0 where
  pub pages : ℕ → Page
  pub lists : ℕ → List ℕ
  pub free_count : ℕ

-- `initPhysicsPage`
pub init_page : Page
init_page = record {
  count = 1;
  reserved = false;
  has_order = false;
  slab = false;
  cached = false;
  order = 0;
}

-- `initBuddySystem`
pub init_buddy_system : State
init_buddy_system = record { pages = λ i. init_page; lists = λ k. []; free_count = 0 }

-- `pageIsBuddy`
pub page_is_buddy : Page → ℕ → Bool
page_is_buddy p k = (p.count == 0) && not p.reserved && p.has_order && (p.order == k)

abbrev pub update {ℓ} : {A : Type ℓ} → ℕ → A → (ℕ → A) → ℕ → A
update k a f = λ j. if j == k then a else f j

-- The first block of a list that passes the test, and the list without it.
pub take_first : (ℕ → Bool) → List ℕ → Option (ℕ × List ℕ)
take_first fits [] = none
take_first fits (b ∷ bs) =
    let rest = take_first fits bs in
    if fits b then some (b, bs) else elim rest [ none ↦ none | some (c, cs) ↦ some (c, b ∷ cs) ]

-- The block that the allocation takes out.
pub record Found : Type 0 where
  pub page : ℕ
  pub at : ℕ
  pub rest : List ℕ

-- The outer loop of the allocation, from the order `at` on, for the rounds that are left.
pub search : ℕ → (ℕ → Bool) → (ℕ → List ℕ) → ℕ → Option Found
search zero fits lists at = none
search (suc rounds) fits lists at =
    let later = search rounds fits lists (at + 1) in
    elim (take_first fits (lists at)) [
      | none ↦ later
      | some (b, bs) ↦ some (record { page = b; at = at; rest = bs })
    ]

-- One round of the splitting loop: the upper half goes to the end of the list of its order.
pub give_half : ℕ → ℕ → State → State
give_half page k s =
    let buddy = page + 2 ^ k in
    record s {
      pages = update buddy (record (s.pages buddy) { has_order = true; order = k }) s.pages;
      lists = update k (s.lists k ++ (buddy ∷ [])) s.lists;
    }

-- The splitting loop, from the order `order + rounds` down.
pub split : ℕ → ℕ → ℕ → State → State
split zero page order s = s
split (suc rounds) page order s = split rounds page order (give_half page (order + rounds) s)

-- The block found leaves its list, and its page is counted and unmarked.
pub take_out : Found → State → State
take_out f s =
    let p = s.pages f.page in
    record s {
      pages =
          update f.page (record p { count = (p.count + 1) % 2 ^ 32; has_order = false; order = 0 })
            s.pages;
      lists = update f.at f.rest s.lists;
    }

-- What an allocation does with the block found.
pub take_block : ℕ → Found → State → State
take_block order f s =
    let s' = split (f.at - order) f.page order (take_out f s) in
    record s' { free_count = (s'.free_count + (2 ^ 64 - 2 ^ order)) % 2 ^ 64 }

-- The body that the three allocations share; `fits` is their test of a block's address.
pub alloc_with : (ℕ → Bool) → ℕ → State → Option ℕ × State
alloc_with fits order s = elim (search (max_order - order) fits s.lists order) [
  | none ↦ (none, s)
  | some f ↦ (some f.page, take_block order f s)
]

-- `allocPages`
pub alloc_pages : ℕ → State → Option ℕ × State
alloc_pages order s = alloc_with (λ b. true) order s

-- `allocAlignedPages`; the address of page 0 is a multiple of the alignment.
pub alloc_aligned_pages : ℕ → State → Option ℕ × State
alloc_aligned_pages order s = alloc_with (λ b. b * 2 ^ 12 % 2 ^ (12 + order) == 0) order s

-- `allocDMAPages`; `max` is a number of bits.
pub alloc_dma_pages : ℕ → ℕ → State → Option ℕ × State
alloc_dma_pages order max s = alloc_with (λ b. b * 2 ^ 12 % 2 ^ max == b * 2 ^ 12) order s

-- `listDelete` of a block.
pub drop_block : ℕ → List ℕ → List ℕ
drop_block b [] = []
drop_block b (c ∷ cs) = let rest = drop_block b cs in if c == b then cs else c ∷ rest

-- The merging loop of freePages: the block that it ends with, and its order. `page` is the page given.
pub merge : ℕ → ℕ → ℕ → ℕ → State → (ℕ × ℕ) × State
merge zero page index k s = ((index, k), s)
merge (suc rounds) page index k s =
    let buddy = bit_xor index (2 ^ k) in
    let s' = record s {
      pages =
          update page
            (record (s.pages page) {
              reserved = false;
              has_order = false;
              slab = false;
              cached = false;
              order = 0;
            })
            s.pages;
      lists = update k (drop_block buddy (s.lists k)) s.lists;
    } in
    let more = merge rounds page (bit_and index buddy) (k + 1) s' in
    if page_is_buddy (s.pages buddy) k then more else ((index, k), s)

-- The end of freePages.
pub put_block : (ℕ × ℕ) × State → State
put_block ((index, k), s) = record s {
  pages = update index (record (s.pages index) { count = 0; has_order = true; order = k }) s.pages;
  lists = update k (s.lists k ++ (index ∷ [])) s.lists;
}

-- `freePages`, of a page with `put_page` for its cache's operation `putPage`: its result, and the state. A
-- result of the count is the `int` read as unsigned.
pub free_pages : (ℕ → State → Ret × State) → ℕ → ℕ → State → Ret × State
free_pages put_page page order s =
    let p = s.pages page in
    let left = (p.count + (2 ^ 32 - 1)) % 2 ^ 32 in
    let s1 = record s { pages = update page (record p { count = left }) s.pages } in
    let s2 = record s1 { free_count = (s.free_count + 2 ^ order) % 2 ^ 64 } in
    if p.reserved
    then (err eperm, s)
    else if p.cached
    then put_page page s
    else if left == 0
    then (ok 0, put_block (merge (max_order - 1 - order) page page order s2))
    else (ok left, s1)
