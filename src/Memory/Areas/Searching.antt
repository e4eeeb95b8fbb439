-- ===== src/Memory/Areas/Searching.antt =====
-- Areas in order, and what a search among them gives.
use docqos_old.Base.{
  ℕ, ◌+◌, ◌^◌, ◌≤◌, ◌<◌, ◌≡◌, refl, sym, ap, ◌≢◌, ◌⊎◌, inl, inr, true, none, some, List, [], ◌∷◌,
  ◌++◌, arith, ltb, leb, All, Bool-cases,
}
use mathlib.Core.Path.{subst}
use mathlib.Core.List.{append_assoc, nil≢cons}
use mathlib.Core.Option.{none-ne-some, some-injective}
use docqos_old.Memory.Areas.{Area, page_offset, add64, end_of, look_for_area, is_room, search}

-- Areas in order from `low` on, none of which meets the next, up to 2 ^ 63.
abbrev pub IsLaid : ℕ → List Area → Type 0
IsLaid low [] = Unit
IsLaid low (a ∷ vm) =
    (low ≤ a.start) × (a.start + a.length < 2 ^ 63) × IsLaid (a.start + a.length) vm

abbrev pub EndBy : ℕ → List Area → Type 0
EndBy at vm = All (λ (a : Area). a.start + a.length ≤ at) vm

-- The first area begins at `at` or later.
abbrev pub BeginsFrom : ℕ → List Area → Type 0
BeginsFrom at [] = Unit
BeginsFrom at (a ∷ vm) = at ≤ a.start

later-IsLaid : (low at : ℕ) (vm : List Area) → BeginsFrom at vm → IsLaid low vm → IsLaid at vm
later-IsLaid low at [] b v = tt
later-IsLaid low at (a ∷ vm) b (l, s, v) = (b, s, v)

pub insert-IsLaid :
    (low : ℕ) (new : Area) (before after : List Area)
    → IsLaid low (before ++ after)
    → low ≤ new.start
    → new.start + new.length < 2 ^ 63
    → EndBy new.start before
    → BeginsFrom (new.start + new.length) after
    → IsLaid low (before ++ (new ∷ after))
insert-IsLaid low new [] after v l s e b = (l, s, later-IsLaid low _ after b v)
insert-IsLaid low new (a ∷ before) after (la, sa, v) l s (e, es) b =
    (la, sa, insert-IsLaid (a.start + a.length) new before after v e s es b)

-- In a list in order, what stands before an area ends where it starts.
pub ends-before :
    (low : ℕ) (n : Area) (before after : List Area)
    → IsLaid low (before ++ (n ∷ after))
    → (low ≤ n.start) × (n.start + n.length < 2 ^ 63) × EndBy n.start before
ends-before low n [] after (l, s, v) = (l, s, tt)
ends-before low n (a ∷ before) after (l, s, v) =
    let (m, t, e) = ends-before (a.start + a.length) n before after v in
    (omega (arith, m, l), t, (m, e))

pub EndBy-later : (at to : ℕ) (vm : List Area) → at ≤ to → EndBy at vm → EndBy to vm
EndBy-later at to [] h e = tt
EndBy-later at to (a ∷ vm) h (e, es) = (omega (arith, e, h), EndBy-later at to vm h es)

EndBy-last :
    (at : ℕ) (n : Area) (vm : List Area)
    → EndBy at vm
    → n.start + n.length ≤ at
    → EndBy at (vm ++ (n ∷ []))
EndBy-last at n [] e h = (h, tt)
EndBy-last at n (a ∷ vm) (e, es) h = (e, EndBy-last at n vm es h)

-- The range that a search gives, and where it goes: the areas before and behind are those of the list.
pub record IsPlace (low stop length : ℕ) (vm : List Area) (p : ℕ × List Area × List Area)
    : Type 0 where
  pub whole : p.1 ++ p.2 ≡ vm
  pub above : low ≤ p.0
  pub below : p.0 + length ≤ stop
  pub ends : EndBy p.0 p.1
  pub begins : BeginsFrom (p.0 + length) p.2

-- The first area ends at `at` or later.
abbrev EndsFrom : ℕ → List Area → Type 0
EndsFrom at [] = Unit
EndsFrom at (a ∷ vm) = at ≤ a.start + a.length

EndsFrom-next :
    (at : ℕ) (n : Area) (low : ℕ) (before after : List Area)
    → IsLaid low (before ++ (n ∷ after))
    → at ≤ n.start + n.length
    → EndsFrom at after
EndsFrom-next at n low [] [] v h = tt
EndsFrom-next at n low [] (a ∷ after) (l, s, (m, r, v)) h = omega (arith, h, m)
EndsFrom-next at n low (b ∷ before) after (l, s, v) h =
    EndsFrom-next at n (b.start + b.length) before after v h

placed-IsPlace :
    (low stop length start : ℕ) (before after : List Area) (p : ℕ × List Area × List Area)
    → EndBy start before
    → low ≤ start
    → start + length ≤ stop
    → BeginsFrom (start + length) after
    → some (start, before, after) ≡ some p
    → IsPlace low stop length (before ++ after) p
placed-IsPlace low stop length start before after p e l b f h =
    subst (IsPlace low stop length (before ++ after)) (some-injective (start, before, after) p h)
      (record { whole = refl; above = l; below = b; ends = e; begins = f })

-- Enough room, as the code tests it.
pub room-BeginsFrom :
    (start length : ℕ) (before : List Area) (a : Area) (after : List Area)
    → start + length < 2 ^ 64
    → before ≢ []
    → is_room start length before (a ∷ after) ≡ true
    → start + length ≤ a.start
room-BeginsFrom start length [] a after s ne h = absurd (ne refl)
room-BeginsFrom start length (b ∷ before) a after s ne h = ground arith

pub has_area :
    (before : List Area) (a : Area) (after : List Area)
    → (before ≢ []) ⊎ (a ∷ after ≡ [])
    → before ≢ []
has_area before a after (inl ne) = ne
has_area before a after (inr e) = absurd (nil≢cons (sym e))

append-ne : (n : Area) (before : List Area) → before ++ (n ∷ []) ≢ []
append-ne n [] e = nil≢cons (sym e)
append-ne n (b ∷ before) e = nil≢cons (sym e)

pub search-IsPlace :
    (low stop length start : ℕ) (before after : List Area) (p : ℕ × List Area × List Area)
    → IsLaid 0 (before ++ after)
    → EndBy start before
    → low ≤ start
    → start < 2 ^ 63
    → length ≤ page_offset
    → (before ≢ []) ⊎ (after ≡ [])
    → EndsFrom start after
    → search stop length start before after ≡ some p
    → IsPlace low stop length (before ++ after) p
unfolding search
search-IsPlace low stop length start before [] p v e l s k some_area past h =
    elim (Bool-cases (leb (add64 start length) stop)) [
      | inl fits ↦
          let h' : some (start, before, []) ≡ some p = rw (search, fits) at h in
          placed-IsPlace low stop length start before [] p e l (ground (arith, fits, s, k)) tt h'
      | inr full ↦ let h' : none ≡ some p = rw (search, full) at h in absurd (none-ne-some p h')
    ]
search-IsPlace low stop length start before (a ∷ after) p v e l s k some_area past h =
    let ne = has_area before a after some_area in
    elim (Bool-cases (leb (add64 start length) stop)) [
      | inr full ↦ let h' : none ≡ some p = rw (search, full) at h in absurd (none-ne-some p h')
      | inl fits ↦ elim (Bool-cases (is_room start length before (a ∷ after))) [
        | inl room ↦
            let h' : some (start, before, a ∷ after) ≡ some p = rw (search, fits, room) at h in
            placed-IsPlace low stop length start before (a ∷ after) p e l
              (ground (arith, fits, s, k))
              (room-BeginsFrom start length before a after (ground (arith, s, k)) ne room) h'
        | inr small ↦
            let (m, t, f) = ends-before 0 a before after v in
            let same : end_of a ≡ a.start + a.length = ground (arith, t) in
            let h' : search stop length (end_of a) (before ++ (a ∷ [])) after ≡ some p =
              rw (search, fits, small) at h in
            let whole = append_assoc before (a ∷ []) after in
            subst (λ (vm : List Area). IsPlace low stop length vm p) whole
              (search-IsPlace low stop length (end_of a) (before ++ (a ∷ [])) after p
                (subst (IsLaid 0) (sym whole) v)
                (EndBy-last (end_of a) a before
                  (EndBy-later a.start (end_of a) before (omega (arith, same)) f)
                  (omega (arith, same)))
                (omega (arith, l, past, same)) (omega (arith, same, t)) k (inl (append-ne a before))
                (EndsFrom-next (end_of a) a 0 before after v (omega (arith, same))) h')
      ]
    ]

-- The cut of lookForVirtualMemoryArea.
pub record IsCut (start : ℕ) (vm : List Area) (cut : List Area × List Area) : Type 0 where
  pub whole : cut.0 ++ cut.1 ≡ vm
  pub ends : EndBy start cut.0
  pub past : EndsFrom start cut.1

pub look_for_area-IsCut :
    (start low : ℕ) (vm : List Area) → IsLaid low vm → IsCut start vm (look_for_area start vm)
unfolding look_for_area
look_for_area-IsCut start low [] v = record { whole = refl; ends = tt; past = tt }
look_for_area-IsCut start low (a ∷ vm) (l, s, v) =
    let c = look_for_area-IsCut start (a.start + a.length) vm v in
    let same : end_of a ≡ a.start + a.length = ground (arith, s) in
    elim (Bool-cases (ltb start (end_of a))) [
      | inl past ↦
          rw (look_for_area, past)
            (record { whole = refl; ends = tt; past = ground (arith, past, same) })
      | inr by ↦
          rw (look_for_area, by)
            (record {
              whole = ap (λ (r : List Area). a ∷ r) c.whole;
              ends = (ground (arith, by, same), c.ends);
              past = c.past;
            })
    ]
