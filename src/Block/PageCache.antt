-- ===== src/Block/PageCache.antt =====
-- src/block/pagecache.c: the pages that an inode has in memory, with their reference counts, over a map from
-- indices to pages that offers what the radix tree does. Pages are told by their number.
pub mod References
mod Tests
use docqos_old.Base.{
  ℕ, ◌+◌, ◌-◌, ◌%◌, ◌^◌, ◌≡◌, ◌≢◌, Bool, true, false, not, ◌||◌, Option, none, some, List, [], ◌∷◌,
  ◌==◌, if◌then◌else◌,
}
use docqos_old.Base.Errno.{Ret, ok, err, einval}

-- What both functions rely on of getFromRadixTree, insertIntoRadixTree and removeFromRadixTree. That an
-- inserted page is found again is no part of it: the tree as it stands does not keep one.
pub record PageMap {ℓ} (M : Type ℓ) : Type ℓ where
  pub get : ℕ → M → Option ℕ
  pub insert : ℕ → ℕ → M → M
  pub remove : ℕ → M → M
  pub get-insert_other : (j k p : ℕ) (m : M) → j ≢ k → get j (insert k p m) ≡ get j m
  pub get-remove : (k : ℕ) (m : M) → get k (remove k m) ≡ none
  pub get-remove_other : (j k : ℕ) (m : M) → j ≢ k → get j (remove k m) ≡ get j m

-- What is used of `struct PhysicsPage` here; `in_cache` and `has_data` are its two flags.
pub record Page : Type 0 where
  pub count : ℕ
  pub in_cache : Bool
  pub has_data : Bool
  pub index : ℕ

-- A cache with its pages, the pages that were read and those that were freed, the last one first.
pub record State {ℓ} (M : Type ℓ) : Type ℓ where
  pub tree : M
  pub page : ℕ → Page
  pub reads : List ℕ
  pub freed : List ℕ

abbrev pub update : ℕ → Page → (ℕ → Page) → ℕ → Page
update k v f i = if i == k then v else f i

-- `referencePage`
pub reference_page : Page → Page
reference_page p = record p { count = (p.count + 1) % 2 ^ 32 }

module _ {ℓ} {M : Type ℓ} (map_of : PageMap M) where
  -- `getPageFromPageCache`, with what allocPages gives.
  pub get_page : Option ℕ → ℕ → State M → Option ℕ × State M
  unfolding reference_page
  get_page room index s = elim (map_of.get index s.tree) [
    | some p ↦ (some p, record s { page = update p (reference_page (s.page p)) s.page })
    | none ↦ elim room [
      | none ↦ (none, s)
      | some p ↦
          let fresh : Page = record (s.page p) {
            in_cache = true;
            has_data = true;
            index = index;
          } in
          (
            some p,
            record {
              tree = map_of.insert index p s.tree;
              page = update p (reference_page fresh) s.page;
              reads = index ∷ s.reads;
              freed = s.freed;
            },
          )
    ]
  ]

  -- `putPageIntoPageCache`; atomicAddRet gives the new count.
  pub put_page : ℕ → State M → Ret × State M
  put_page p s =
      let old : Page = s.page p in
      let count = (old.count + (2 ^ 32 - 1)) % 2 ^ 32 in
      let left : State M = record s { page = update p (record old { count = count }) s.page } in
      let gone : State M = record {
        tree = map_of.remove old.index s.tree;
        page = update p (record old { count = count; in_cache = false; has_data = false }) s.page;
        reads = s.reads;
        freed = p ∷ s.freed;
      } in
      if not old.in_cache || not old.has_data
      then (err einval, s)
      else if count == 1
      then (ok 0, gone)
      else (ok count, left)
