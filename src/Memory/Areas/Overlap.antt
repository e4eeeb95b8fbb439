-- ===== src/Memory/Areas/Overlap.antt =====
-- What the search does when the first area of the list is not before the start of the search.
use docqos_old.Base.{
  ℕ, ◌+◌, ◌^◌, ◌≤◌, ◌<◌, ◌≡◌, refl, ap, ◌∙◌, true, false, Option, none, some, List, [], ◌∷◌, arith,
  ltb, leb, ◌==◌,
}
use docqos_old.Memory.Areas.{
  Area, page_offset, add64, end_of, look_for_area, search, search_from, look_for_free, whole_pages,
  vmalloc,
}

-- When the first area ends behind `type`, the search stops at `type` itself, whatever the area covers.
look_for_free-head :
    (type stop length : ℕ) (a : Area) (vm : List Area)
    → type < end_of a
    → length ≤ page_offset
    → add64 type length ≤ stop
    → look_for_free type stop (a ∷ vm) 0 length ≡ some (type, [], a ∷ vm)
unfolding look_for_free search_from look_for_area search
look_for_free-head type stop length a vm past k below =
    let small : ltb page_offset length ≡ false = ground (arith, k) in
    let fits : leb (add64 type length) stop ≡ true = ground (arith, below) in
    let behind : ltb type (end_of a) ≡ true = ground (arith, past) in
    rw (look_for_free, small, behind, fits) refl

look_for_free-nil :
    (type stop length : ℕ)
    → length ≤ page_offset
    → add64 type length ≤ stop
    → look_for_free type stop [] 0 length ≡ some (type, [], [])
unfolding look_for_free search_from look_for_area search
look_for_free-nil type stop length k below =
    let small : ltb page_offset length ≡ false = ground (arith, k) in
    let fits : leb (add64 type length) stop ≡ true = ground (arith, below) in
    rw (look_for_free, small, fits) refl

abbrev an_area : ℕ → ℕ → Area
an_area start length = record { start = start; length = length; file = none; offset = 0; prot = 0 }

-- A call whose search ends at the head of the list.
vmalloc-head :
    (type stop size : ℕ) (vm : List Area)
    → 0 < whole_pages size
    → look_for_free type stop vm 0 (whole_pages size) ≡ some (type, [], vm)
    → vmalloc type stop size vm ≡ (some type, an_area type (whole_pages size) ∷ vm)
unfolding vmalloc
vmalloc-head type stop size vm p h =
    let some_pages : (whole_pages size == 0) ≡ false = ground (arith, p) in
    rw (vmalloc, some_pages, h) refl

-- Two calls of vmalloc one after the other, from an empty list, for sizes that are some whole pages up to
-- 2 ^ 39 and fit between the bounds: both return the same address.
pub vmalloc-vmalloc :
    (type stop first second : ℕ)
    → 0 < whole_pages first
    → whole_pages first ≤ page_offset
    → 0 < whole_pages second
    → whole_pages second ≤ page_offset
    → type + whole_pages first ≤ stop
    → type + whole_pages second ≤ stop
    → stop < 2 ^ 63
    → ((vmalloc type stop first []).0 ≡ some type)
      × ((vmalloc type stop second (vmalloc type stop first []).1).0 ≡ some type)
vmalloc-vmalloc type stop first second p k q j room more s =
    let one =
      vmalloc-head type stop first [] p
        (look_for_free-nil type stop (whole_pages first) k (omega (arith, k, room, s))) in
    let two = vmalloc-head type stop second (an_area type (whole_pages first) ∷ []) q (
      look_for_free-head type stop (whole_pages second) (an_area type (whole_pages first)) []
        (omega (arith, p, k, room, s)) j (omega (arith, j, more, s))) in
    (
      ap (λ (r : Option ℕ × List Area). r.0) one,
      ap (λ (r : Option ℕ × List Area). (vmalloc type stop second r.1).0) one
          ∙ ap (λ (r : Option ℕ × List Area). r.0) two,
    )
