-- ===== src/Block/PageCache/References.antt =====
-- What a reader of a page leaves in the cache.
use docqos_old.Base.{
  ℕ, ◌+◌, ◌-◌, ◌%◌, ◌^◌, ◌≤◌, ◌<◌, ◌≡◌, refl, ◌≢◌, ◌∙◌, inl, inr, true, false, none, some, ◌∷◌,
  arith, ◌==◌, Bool-cases,
}
use docqos_old.Base.Errno.{ok}
use docqos_old.Block.PageCache.{PageMap, State, update, reference_page, get_page, put_page}

same : (p : ℕ) → (p == p) ≡ true
same p = ground arith

module _ {ℓ} {M : Type ℓ} (map_of : PageMap M) (index p : ℕ) (s : State M) where
  -- What a page that is asked for and given back by one reader ends as.
  pub record IsGone (t : State M) : Type ℓ where
    pub out : map_of.get index t.tree ≡ none
    pub others : (j : ℕ) → j ≢ index → map_of.get j t.tree ≡ map_of.get j s.tree
    pub read_once : t.reads ≡ (index ∷ s.reads)
    pub freed_once : t.freed ≡ (p ∷ s.freed)
    pub rest : (q : ℕ) → q ≢ p → t.page q ≡ s.page q

  get_fresh :
      map_of.get index s.tree ≡ none
      → get_page map_of (some p) index s ≡ (
        some p,
        record {
          tree = map_of.insert index p s.tree;
          page =
              update p
                (record {
                  count = ((s.page p).count + 1) % 2 ^ 32;
                  in_cache = true;
                  has_data = true;
                  index = index;
                })
                s.page;
          reads = index ∷ s.reads;
          freed = s.freed;
        },
      )
  unfolding get_page reference_page
  get_fresh e = rw (get_page, e) refl

  -- A page that the cache does not hold, that comes with a count of 1, and that a single reader asks
  -- for and gives back is read once and freed once, and the cache holds the same pages as before.
  pub put_page-get_page :
      map_of.get index s.tree ≡ none
      → (s.page p).count ≡ 1
      → ((get_page map_of (some p) index s).0 ≡ some p)
        × ((put_page map_of p (get_page map_of (some p) index s).1).0 ≡ ok 0)
        × IsGone (put_page map_of p (get_page map_of (some p) index s).1).1
  unfolding put_page
  put_page-get_page e one =
      rw (get_fresh e, same p, one)
        (
          refl,
          refl,
          record {
            out = map_of.get-remove index (map_of.insert index p s.tree);
            others = λ j h.
                map_of.get-remove_other j index (map_of.insert index p s.tree) h
                ∙ map_of.get-insert_other j index p s.tree h;
            read_once = refl;
            freed_once = refl;
            rest = λ q h. let o : (q == p) ≡ false = ground (arith, h) in rw o refl;
          },
        )

  get_held :
      map_of.get index s.tree ≡ some p
      → get_page map_of none index s ≡ (
        some p,
        record s {
          page = update p (record (s.page p) { count = ((s.page p).count + 1) % 2 ^ 32 }) s.page;
        },
      )
  unfolding get_page reference_page
  get_held e = rw (get_page, e) refl

  -- A page that another reader still holds stays in the cache, and asking for it and giving it back leaves
  -- its count as it was; nothing is read or freed.
  pub put_page-get_page_held :
      map_of.get index s.tree ≡ some p
      → (s.page p).in_cache ≡ true
      → (s.page p).has_data ≡ true
      → 2 ≤ (s.page p).count
      → (s.page p).count < 2 ^ 32 - 1
      → (t : State M) × (put_page map_of p (get_page map_of none index s).1
          ≡ (ok (s.page p).count, t))
        × (t.tree ≡ s.tree)
        × ((q : ℕ) → (t.page q).count ≡ (s.page q).count)
        × (t.reads ≡ s.reads)
        × (t.freed ≡ s.freed)
  unfolding put_page
  put_page-get_page_held e cached data_there held small =
      let up : ((s.page p).count + 1) % 2 ^ 32 ≡ (s.page p).count + 1 = omega (arith, small) in
      let down : ((s.page p).count + 1 + (2 ^ 32 - 1)) % 2 ^ 32 ≡ (s.page p).count =
        omega (arith, small) in
      let more : ((s.page p).count == 1) ≡ false = ground (arith, held) in
      let w : State M = record s {
        page =
            update p (s.page p)
              (update p (record (s.page p) { count = (s.page p).count + 1 }) s.page);
      } in
      (
        w,
        rw (get_held e, up, same p, down, more, cached, data_there) refl,
        refl,
        counts,
        refl,
        refl,
      )
    where
      counts :
          (q : ℕ)
          → (update p
              (s.page p)
              (update p (record (s.page p) { count = (s.page p).count + 1 }) s.page)
              q).count
            ≡ (s.page q).count
      counts q = elim (Bool-cases (q == p)) [
        | inl t ↦ let e : q ≡ p = ground (arith, t) in rw (e, same p) refl
        | inr f ↦ rw f refl
      ]
