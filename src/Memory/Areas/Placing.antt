-- ===== src/Memory/Areas/Placing.antt =====
-- Where a new area goes: among areas in order, with a range that no other area meets.
use docqos_old.Base.{
  ℕ, ◌+◌, ◌^◌, ◌≤◌, ◌<◌, ◌≡◌, refl, sym, ap, ◌∙◌, ◌≢◌, ◌⊎◌, inl, inr, Bool, true, false, not, ◌&&◌,
  none, some, List, [], ◌∷◌, ◌++◌, arith, ltb, leb, ◌==◌, Bool-cases,
}
use mathlib.Core.Path.{subst}
use mathlib.Core.Bool.{true≢false}
use mathlib.Core.List.{append_assoc, nil≢cons}
use mathlib.Core.Option.{none-ne-some, some-injective}
use docqos_old.Memory.Areas.{
  Area, page_offset, add64, look_for_area, is_room, search, search_from, from_last, search_again,
  look_for_free,
}
use docqos_old.Memory.Areas.Searching.{
  IsLaid, EndBy, BeginsFrom, insert-IsLaid, ends-before, EndBy-later, IsPlace, room-BeginsFrom,
  has_area, search-IsPlace, look_for_area-IsCut,
}

-- Some area ends by `start`, or none ends later.
abbrev pub HasBelow : ℕ → List Area → Type 0
HasBelow start vm = ((look_for_area start vm).0 ≢ []) ⊎ ((look_for_area start vm).1 ≡ [])

-- The list cut where an area of this length at this start can go.
pub record Fits (length : ℕ) (vm : List Area) (p : ℕ × List Area × List Area) : Type 0 where
  pub whole : p.1 ++ p.2 ≡ vm
  pub laid : (new : Area) → new.start ≡ p.0 → new.length ≡ length → IsLaid 0 (p.1 ++ (new ∷ p.2))

IsPlace-Fits :
    (low stop length : ℕ) (vm : List Area) (p : ℕ × List Area × List Area)
    → IsLaid 0 vm
    → stop < 2 ^ 63
    → IsPlace low stop length vm p
    → Fits length vm p
IsPlace-Fits low stop length vm p v s i = record {
  whole = i.whole;
  laid = λ new e f.
      insert-IsLaid 0 new p.1 p.2 (subst (IsLaid 0) (sym i.whole) v) (omega arith)
        (omega (arith, e, f, i.below, s)) (subst (λ (n : ℕ). EndBy n p.1) (sym e) i.ends)
        (rw (e, f) i.begins);
}

search_from-Fits :
    (type stop length : ℕ) (vm : List Area) (p : ℕ × List Area × List Area)
    → IsLaid 0 vm
    → type < 2 ^ 63
    → stop < 2 ^ 63
    → length ≤ page_offset
    → HasBelow type vm
    → search_from type stop length vm ≡ some p
    → Fits length vm p
unfolding search_from
search_from-Fits type stop length vm p v t s k has h =
    let c = look_for_area-IsCut type 0 vm v in
    let cut = look_for_area type vm in
    IsPlace-Fits type stop length vm p v s (
      subst (λ (w : List Area). IsPlace type stop length w p) c.whole
        (search-IsPlace type stop length type cut.0 cut.1 p (subst (IsLaid 0) (sym c.whole) v)
          c.ends (omega arith) t k has c.past h))

List-cases {ℓ} : {A : Type ℓ} (xs : List A) → (xs ≡ []) ⊎ ((x : A) × (ys : List A) × (xs ≡ x ∷ ys))
List-cases [] = inl refl
List-cases (x ∷ xs) = inr (x, xs, refl)

EndBy-append :
    (at : ℕ) (before after : List Area)
    → EndBy at before
    → EndBy at after
    → EndBy at (before ++ after)
EndBy-append at [] after e f = f
EndBy-append at (b ∷ before) after (e, es) f = (e, EndBy-append at before after es f)

append-cons-ne : (passed : List Area) (b : Area) (before : List Area) → passed ++ (b ∷ before) ≢ []
append-cons-ne [] b before e = nil≢cons (sym e)
append-cons-ne (a ∷ passed) b before e = nil≢cons (sym e)

-- Where the areas behind others begin at the earliest.
abbrev low_of : ℕ → List Area → ℕ
low_of low [] = low
low_of low (a ∷ passed) = low_of (a.start + a.length) passed

areas-IsLaid :
    (low : ℕ) (passed areas : List Area)
    → IsLaid low (passed ++ areas)
    → IsLaid (low_of low passed) areas
areas-IsLaid low [] areas v = v
areas-IsLaid low (a ∷ passed) areas (l, s, v) = areas-IsLaid (a.start + a.length) passed areas v

from_last-append :
    (before after : List Area)
    → (from_last before after).0 ++ (from_last before after).1 ≡ before ++ after
unfolding from_last
from_last-append [] after = refl
from_last-append (b ∷ []) after = refl
from_last-append (b ∷ c ∷ before) after =
    ap (λ (l : List Area). b ∷ l) (from_last-append (c ∷ before) after)

-- The search after a hint: the areas in front of the hint's start end before `type`, and so do some from
-- there on.
search_again-Fits :
    (type stop length : ℕ) (passed areas : List Area) (p : ℕ × List Area × List Area)
    → IsLaid 0 (passed ++ areas)
    → type < 2 ^ 63
    → stop < 2 ^ 63
    → length ≤ page_offset
    → (look_for_area type areas).0 ≢ []
    → search_again type stop length passed areas ≡ some p
    → Fits length (passed ++ areas) p
unfolding search_again
search_again-Fits type stop length passed areas p v t s k has h =
    let c = look_for_area-IsCut type (low_of 0 passed) areas (areas-IsLaid 0 passed areas v) in
    elim (List-cases (look_for_area type areas).0) [
      | inl e ↦ absurd (has e)
      | inr (b, before, e) ↦
          let after = (look_for_area type areas).1 in
          let whole : passed ++ ((b ∷ before) ++ after) ≡ passed ++ areas =
            ap (λ (l : List Area). passed ++ (l ++ after)) (sym e)
            ∙ ap (λ (l : List Area). passed ++ l) c.whole in
          let joined : (passed ++ (b ∷ before)) ++ after ≡ passed ++ areas =
            append_assoc passed (b ∷ before) after ∙ whole in
          let laid : IsLaid 0 (passed ++ (b ∷ (before ++ after))) =
            subst (IsLaid 0) (sym whole) v in
          let (l, r, f) = ends-before 0 b passed (before ++ after) laid in
          let ends : EndBy type (b ∷ before) = subst (EndBy type) e c.ends in
          let near : b.start ≤ type = omega (arith, ends.0) in
          let h' : search stop length type (passed ++ (b ∷ before)) after ≡ some p =
            rw (search_again, e) at h in
          IsPlace-Fits type stop length (passed ++ areas) p v s (
            subst (λ (w : List Area). IsPlace type stop length w p) joined
              (search-IsPlace type stop length type (passed ++ (b ∷ before)) after p
                (subst (IsLaid 0) (sym joined) v)
                (EndBy-append type passed (b ∷ before) (EndBy-later b.start type passed near f)
                  ends)
                (omega arith) t k (inl (append-cons-ne passed b before)) c.past h'))
    ]

and_left : (a b : Bool) → (a && b) ≡ true → a ≡ true
and_left true b h = refl
and_left false b h = h

and_right : (a b : Bool) → (a && b) ≡ true → b ≡ true
and_right true b h = h
and_right false b h = absurd (true≢false (sym h))

hint-begins :
    (start length : ℕ) (before after : List Area)
    → start + length < 2 ^ 64
    → (before ≢ []) ⊎ (after ≡ [])
    → is_room start length before after ≡ true
    → BeginsFrom (start + length) after
hint-begins start length before [] s has room = tt
hint-begins start length before (a ∷ after) s has room =
    room-BeginsFrom start length before a after s (has_area before a after has) room

hint-Fits :
    (start length : ℕ) (vm : List Area)
    → IsLaid 0 vm
    → start < 2 ^ 63
    → length ≤ page_offset
    → HasBelow start vm
    → leb (add64 start length) page_offset ≡ true
    → is_room start length (look_for_area start vm).0 (look_for_area start vm).1 ≡ true
    → Fits length vm (start, (look_for_area start vm).0, (look_for_area start vm).1)
hint-Fits start length vm v s k has below room =
    let c = look_for_area-IsCut start 0 vm v in
    let cut = look_for_area start vm in
    IsPlace-Fits 0 page_offset length vm (start, cut.0, cut.1) v (omega arith)
      (record {
        whole = c.whole;
        above = omega arith;
        below = ground (arith, below, s, k);
        ends = c.ends;
        begins = hint-begins start length cut.0 cut.1 (ground (arith, s, k)) has room;
      })

-- The areas that the search goes through after a hint has been tested.
abbrev pub from_hint : List Area → ℕ → List Area
from_hint vm start = (from_last (look_for_area start vm).0 (look_for_area start vm).1).1

-- A search that gives a range, among areas in order below 2 ^ 63, from a start and a type below 2 ^ 63 and
-- with a stop below it. For the start and for the type some area ends before it, or none ends after it; and
-- when the start is a hint, so that it is not 0 and its range is below PAGE_OFFSET, the last area that ends
-- before it ends before the type too. Then the list is cut in two, and an area with this start and length
-- goes between the two parts so that the areas stay in order and none meets the next.
pub look_for_free-Fits :
    (type stop : ℕ) (vm : List Area) (start length : ℕ) (p : ℕ × List Area × List Area)
    → IsLaid 0 vm
    → type < 2 ^ 63
    → stop < 2 ^ 63
    → start < 2 ^ 63
    → HasBelow type vm
    → HasBelow start vm
    → (start ≢ 0 → start + length ≤ page_offset → (look_for_area type (from_hint vm start)).0 ≢ [])
    → look_for_free type stop vm start length ≡ some p
    → Fits length vm p
unfolding look_for_free
look_for_free-Fits type stop vm start length p v t s u has_type has_start again h =
    let cut = look_for_area start vm in
    let split = from_last cut.0 cut.1 in
    let c = look_for_area-IsCut start 0 vm v in
    let whole : split.0 ++ split.1 ≡ vm = from_last-append cut.0 cut.1 ∙ c.whole in
    elim (Bool-cases (ltb page_offset length)) [
      | inl large ↦
          let h' : none ≡ some p = rw (look_for_free, large) at h in absurd (none-ne-some p h')
      | inr small ↦ elim (Bool-cases (not (start == 0) && leb (add64 start length) page_offset)) [
        | inr free ↦
            let h' : search_from type stop length vm ≡ some p =
              rw (look_for_free, small, free) at h in
            search_from-Fits type stop length vm p v t s (ground (arith, small)) has_type h'
        | inl hint ↦ elim (Bool-cases (is_room start length cut.0 cut.1)) [
          | inl room ↦
              let h' : some (start, cut.0, cut.1) ≡ some p =
                rw (look_for_free, small, hint, room) at h in
              subst (Fits length vm) (some-injective (start, cut.0, cut.1) p h') (
                hint-Fits start length vm v u (ground (arith, small)) has_start (and_right _ _ hint)
                  room)
          | inr full ↦
              let h' : search_again type stop length split.0 split.1 ≡ some p =
                rw (look_for_free, small, hint, full) at h in
              let below : leb (add64 start length) page_offset ≡ true = and_right _ _ hint in
              let given : not (start == 0) ≡ true = and_left _ _ hint in
              subst (λ (w : List Area). Fits length w p) whole
                (search_again-Fits type stop length split.0 split.1 p
                  (subst (IsLaid 0) (sym whole) v) t s (ground (arith, small))
                  (again (ground (arith, given)) (ground (arith, below, small, u))) h')
        ]
      ]
    ]
