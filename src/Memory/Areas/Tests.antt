-- ===== src/Memory/Areas/Tests.antt =====
-- Searches among a few areas.
use docqos_old.Base.{ℕ, ◌*◌, ◌^◌, ◌≡◌, ◌≢◌, refl, sym, inl, none, some, List, [], ◌∷◌, arith}
use mathlib.Core.List.{nil≢cons}
use docqos_old.Memory.Areas.{
  Area, look_for_area, from_last, search, search_again, look_for_free, vmalloc,
}
use docqos_old.Memory.Areas.Placing.{HasBelow, from_hint, Fits, look_for_free-Fits}
use docqos_old.Memory.Areas.Overlap.{vmalloc-vmalloc}

abbrev an_area : ℕ → ℕ → Area
an_area start length = record { start = start; length = length; file = none; offset = 0; prot = 1 }

-- A program at 4 MB, and a mapping at 1 GB.
abbrev two : List Area
two = an_area 4194304 8192 ∷ an_area 1073741824 4096 ∷ []

below_mappings : HasBelow 1073741824 two
unfolding look_for_area
below_mappings = inl (λ e. nil≢cons (sym e))

below_hint : HasBelow 8388608 two
unfolding look_for_area
below_hint = inl (λ e. nil≢cons (sym e))

from_program : (look_for_area 1073741824 (from_hint two 8388608)).0 ≢ []
unfolding look_for_area from_last
from_program = λ e. nil≢cons (sym e)

-- There is no room for 1 GB at the hint, and the search goes on to the range behind the mapping.
next_range :
    look_for_free 1073741824 (2 ^ 39) two 8388608 1073741824
    ≡ some (1073745920, an_area 4194304 8192 ∷ an_area 1073741824 4096 ∷ [], [])
unfolding look_for_free look_for_area from_last search_again search
next_range = refl

look_for_free-Fits_example :
    Fits 1073741824 two (1073745920, an_area 4194304 8192 ∷ an_area 1073741824 4096 ∷ [], [])
look_for_free-Fits_example =
    look_for_free-Fits 1073741824 (2 ^ 39) two 8388608 1073741824
      (1073745920, an_area 4194304 8192 ∷ an_area 1073741824 4096 ∷ [], [])
      (omega arith, omega arith, (omega arith, omega arith, tt)) (omega arith) (omega arith)
      (omega arith) below_mappings below_hint (λ given below. from_program) next_range

-- A second mapping, 8 KB after the first.
abbrev three : List Area
three = an_area 4194304 8192 ∷ an_area 1073741824 4096 ∷ an_area 1073750016 4096 ∷ []

-- A hint between the two mappings, without room for 8 KB: the search goes on from the first mapping, takes
-- the list to begin there, and gives the range of the first mapping again.
on_mapping : look_for_free 1073741824 (2 ^ 39) three 1073745920 8192 ≡ some (1073741824, [], three)
unfolding look_for_free look_for_area from_last search_again search
on_mapping = refl

vmalloc-vmalloc_example :
    ((vmalloc (768 * 2 ^ 30) (2 ^ 40) 5000 []).0 ≡ some (768 * 2 ^ 30))
    × ((vmalloc (768 * 2 ^ 30) (2 ^ 40) 9000 (vmalloc (768 * 2 ^ 30) (2 ^ 40) 5000 []).1).0
        ≡ some (768 * 2 ^ 30))
vmalloc-vmalloc_example =
    vmalloc-vmalloc (768 * 2 ^ 30) (2 ^ 40) 5000 9000 (omega arith) (omega arith) (omega arith)
      (omega arith) (omega arith) (omega arith) (omega arith)
