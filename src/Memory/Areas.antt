-- ===== src/Memory/Areas.antt =====
-- src/memory/paging.c: the areas of virtual memory of a task, or of vmalloc, in the order of their list, and
-- the search for a free range among them. An address is a word of 64 bits. The page tables are not part of
-- this model.
pub mod Searching
pub mod Placing
pub mod Overlap
mod Tests
use docqos_old.Base.{
  ℕ, ◌+◌, ◌-◌, ◌/◌, ◌%◌, ◌*◌, ◌^◌, Bool, true, false, not, ◌&&◌, ◌||◌, Option, none, some, List, [],
  ◌∷◌, ◌++◌, ltb, leb, ◌==◌, if◌then◌else◌,
}
use docqos_old.Base.Errno.{Errno, ebusy, einval, eprotonosupport}

-- `struct VirtualMemoryArea`
pub record Area : Type 0 where
  pub start : ℕ
  pub length : ℕ
  pub file : Option ℕ
  pub offset : ℕ
  pub prot : ℕ

abbrev pub page_offset : ℕ
page_offset = 2 ^ 39

abbrev pub add64 : ℕ → ℕ → ℕ
add64 a b = (a + b) % 2 ^ 64

abbrev pub end_of : Area → ℕ
end_of a = add64 a.start a.length

-- `lookForVirtualMemoryArea`: the list cut behind the area that it returns.
pub look_for_area : ℕ → List Area → List Area × List Area
look_for_area start [] = ([], [])
look_for_area start (a ∷ vm) =
    let rest = look_for_area start vm in
    if ltb start (end_of a) then ([], a ∷ vm) else (a ∷ rest.0, rest.1)

-- The tests before `goto found`: there is no area before the cut, or none behind it, or enough room.
abbrev pub is_room : (start length : ℕ) → List Area → List Area → Bool
is_room start length [] after = true
is_room start length (b ∷ before) [] = true
is_room start length (b ∷ before) (a ∷ after) = leb (add64 start length) a.start

-- The loop of lookForFreeVirtualMemoryArea. A result is the start of the range, and the list cut where
-- the new area goes.
pub search :
    (stop length start : ℕ) → (before after : List Area) → Option (ℕ × List Area × List Area)
search stop length start before [] =
    if leb (add64 start length) stop then some (start, before, []) else none
search stop length start before (a ∷ after) =
    let rest = search stop length (end_of a) (before ++ (a ∷ [])) after in
    if leb (add64 start length) stop
    then if is_room start length before (a ∷ after) then some (start, before, a ∷ after) else rest
    else none

-- From `start = type` on.
pub search_from : (type stop length : ℕ) → List Area → Option (ℕ × List Area × List Area)
unfolding look_for_area search
search_from type stop length vm =
    let cut = look_for_area type vm in search stop length type cut.0 cut.1

-- A list cut in two, cut before the last area of the first part instead: that area is the `vma` that a
-- failed test of the hint leaves.
pub from_last : List Area → List Area → List Area × List Area
from_last [] after = ([], after)
from_last (b ∷ []) after = ([], b ∷ after)
from_last (b ∷ c ∷ before) after = let r = from_last (c ∷ before) after in (b ∷ r.0, r.1)

-- From `start = type` on, in the areas from `vma` on, where `passed` are those before it. When `vma` does not
-- end before `type`, the search starts with no area, as if the list began there.
pub search_again :
    (type stop length : ℕ) → (passed areas : List Area) → Option (ℕ × List Area × List Area)
unfolding look_for_area search
search_again type stop length passed areas = elim (look_for_area type areas).0 [
  | [] ↦ search stop length type [] (passed ++ areas)
  | b ∷ before ↦ search stop length type (passed ++ (b ∷ before)) (look_for_area type areas).1
]

-- `lookForFreeVirtualMemoryArea`; after a hint that was tested, the search goes on from the area that the
-- test has put into `vma`.
pub look_for_free :
    (type stop : ℕ) → List Area → (start length : ℕ) → Option (ℕ × List Area × List Area)
unfolding look_for_area from_last search_from search_again
look_for_free type stop vm start length =
    if ltb page_offset length
    then none
    else let cut = look_for_area start vm in
      let split = from_last cut.0 cut.1 in
      if not (start == 0) && leb (add64 start length) page_offset
      then if is_room start length cut.0 cut.1
        then some (start, cut.0, cut.1)
        else search_again type stop length split.0 split.1
      else search_from type stop length vm

-- The tests of doMMap after the search, in their order; `file` is whether there is one, and can_map whether
-- its getPage is not 0.
pub record Request : Type 0 where
  pub address : ℕ
  pub length : ℕ
  pub offset : ℕ
  pub prot : ℕ
  pub fixed : Bool
  pub anonymous : Bool
  pub private : Bool
  pub file : Option ℕ
  pub can_map : Bool

-- `prot & PROT_READ` and `prot & PROT_WRITE`
abbrev pub reads : ℕ → Bool
reads prot = prot % 2 == 1

abbrev pub writes : ℕ → Bool
writes prot = prot / 2 % 2 == 1

abbrev pub is_null : Option ℕ → Bool
is_null none = true
is_null (some f) = false

pub refusal : Request → ℕ → Option Errno
refusal r start =
    if writes r.prot && not (reads r.prot)
    then some einval
    else if r.fixed && (not (r.address == 0) && not (r.address == start))
    then some ebusy
    else if not r.anonymous && is_null r.file
    then some einval
    else if not r.anonymous && not (r.offset % 4096 == 0)
    then some einval
    else if not r.anonymous && (not r.private && writes r.prot)
    then some eprotonosupport
    else if not r.anonymous && not r.can_map
    then some einval
    else if not (r.address % 4096 == 0)
    then some einval
    else none

-- What doMMap returns: 0, an error, or an address.
pub data Mapped : Type 0 where
  nothing : Mapped
  refused : Errno → Mapped
  mapped : ℕ → Mapped

-- -ENOMEM as the u64 that it is kept in.
abbrev pub no_memory : ℕ
no_memory = 2 ^ 64 - 12

-- The start and the cut that doMMap goes on with: its test for an error never holds, so that a search
-- without a result leaves -ENOMEM as the start, and the list uncut.
abbrev pub placed : List Area → Option (ℕ × List Area × List Area) → ℕ × List Area × List Area
placed vm none = (no_memory, [], vm)
placed vm (some cut) = cut

-- `doMMap`, with the bounds MMAP_START and MMAP_END as `type` and `stop`, where kmalloc gives an area.
pub do_mmap : (type stop : ℕ) → Request → List Area → Mapped × List Area
unfolding look_for_free refusal
do_mmap type stop r vm =
    let (start, before, after) = placed vm (look_for_free type stop vm r.address r.length) in
    if r.prot == 0 then (nothing, vm) else elim (refusal r start) [
      | some e ↦ (refused e, vm)
      | none ↦ (
        mapped start,
        before
            ++ (record {
              start = start;
              length = r.length;
              file = if r.anonymous then none else r.file;
              offset = r.offset;
              prot = r.prot;
            }
                ∷ after),
      )
    ]

-- The size that vmalloc asks for, in whole pages.
abbrev pub whole_pages : ℕ → ℕ
whole_pages size = add64 size 4095 / 4096 * 4096

-- `vmalloc`, up to the page tables, where kmalloc gives an area; the result is the address.
pub vmalloc : (type stop : ℕ) → ℕ → List Area → Option ℕ × List Area
unfolding look_for_free
vmalloc type stop size vm =
    let pages = whole_pages size in
    if pages == 0 then (none, vm) else elim (look_for_free type stop vm 0 pages) [
      | none ↦ (none, vm)
      | some (start, before, after) ↦ (
        some start,
        before
            ++ (record { start = start; length = pages; file = none; offset = 0; prot = 0 }
                ∷ after),
      )
    ]
