-- ===== src/Block/PageCache/Tests.antt =====
-- A cache over functions from indices to pages.
use docqos_old.Base.{
  ℕ, ◌≡◌, refl, ◌≢◌, true, false, Option, none, some, [], arith, ◌==◌, if◌then◌else◌,
}
use docqos_old.Block.PageCache.{PageMap, State}

abbrev Table : Type 0
Table = ℕ → Option ℕ

abbrev put : ℕ → Option ℕ → Table → Table
put k v m j = if j == k then v else m j

put-same : (k : ℕ) (v : Option ℕ) (m : Table) → put k v m k ≡ v
put-same k v m = let e : (k == k) ≡ true = ground arith in rw e refl

put-other : (j k : ℕ) (v : Option ℕ) (m : Table) → j ≢ k → put k v m j ≡ m j
put-other j k v m h = let e : (j == k) ≡ false = ground (arith, h) in rw e refl

abbrev table_map : PageMap Table
table_map = record {
  get = λ k m. m k;
  insert = λ k p. put k (some p);
  remove = λ k. put k none;
  get-insert_other = λ j k p. put-other j k (some p);
  get-remove = λ k. put-same k none;
  get-remove_other = λ j k. put-other j k none;
}

-- Nothing is cached, and each page has been allocated.
abbrev start : State Table
start = record {
  tree = λ k. none;
  page = λ p. record { count = 1; in_cache = false; has_data = false; index = 0 };
  reads = [];
  freed = [];
}
