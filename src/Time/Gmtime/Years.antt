-- ===== src/Time/Gmtime/Years.antt =====
-- The loop that finds the year.
use docqos_old.Base.{
  ℕ, suc, ◌+◌, ◌-◌, ◌*◌, ◌/◌, ◌%◌, ◌≤◌, ◌<◌, ◌≡◌, refl, ap, ◌∙◌, inl, inr, Bool, true, not, ◌&&◌,
  some, arith, ltb, leb, if◌then◌else◌, Bool-cases,
}
use mathlib.Core.Path.{ap₂}
use docqos_old.Base.Int.{ℤ, pos, negsuc, sub_ℕ, ◌-ℤ◌}
use docqos_old.Time.Calendar.{is_leap, year_length, days_to_year, days_to_year_closed, leaps_before}
use docqos_old.Time.Gmtime.{
  is_leap_year, divide, leaps_until, get_leap_years, outside, next_year, next_days, year_days,
}

leaps_until_pos : (y : ℕ) → 1 ≤ y → leaps_until (pos y) ≡ pos (leaps_before y)
unfolding leaps_until divide
leaps_until_pos y h = ground arith

pub is_leap_year_pos : (y : ℕ) → is_leap_year (pos y) ≡ is_leap y
unfolding is_leap_year is_leap
is_leap_year_pos y = ground arith

outside_pos : (y d : ℕ) → outside (pos y) (pos d) ≡ not (ltb d (year_length y))
unfolding outside year_length
outside_pos y d = ground (arith, is_leap_year_pos y)

leaps_mono : (y z : ℕ) → y ≤ z → leaps_before y ≤ leaps_before z
leaps_mono y z h = omega arith

get_leap_years_pos :
    (y z : ℕ)
    → 1 ≤ y
    → y ≤ z
    → (get_leap_years (pos y) (pos z) ≡ pos (leaps_before z - leaps_before y))
      × (get_leap_years (pos z) (pos y) ≡ pos (leaps_before z - leaps_before y))
unfolding get_leap_years
get_leap_years_pos y z h le =
    let a = leaps_until_pos y h in
    let b = leaps_until_pos z (omega arith) in
    let m = leaps_mono y z le in (rw (a, b) (ground (arith, m)), rw (a, b) (ground (arith, m)))

divide_pos : (d : ℕ) → divide (pos d) 365 ≡ pos (d / 365)
unfolding divide
divide_pos d = ground arith

-- The first round, from 1970.
first_year : (d : ℕ) → next_year (pos 1970) (pos d) ≡ pos (1970 + d / 365)
unfolding next_year
first_year d = rw (divide_pos d) (ground arith)

first_days :
    (d : ℕ) → next_days (pos 1970) (pos d) ≡ sub_ℕ (d % 365 + 477) (leaps_before (1970 + d / 365))
unfolding next_days
first_days d =
    let g = (get_leap_years_pos 1970 (1970 + d / 365) (omega arith) (omega arith)).0 in
    let m : 477 ≤ leaps_before (1970 + d / 365) = leaps_mono 1970 (1970 + d / 365) (omega arith) in
    rw (first_year d, g) (ground (arith, m))

-- A round from a day before the first of `1971 + k`, by less than a year, goes back to `1970 + k`.
back_year : (k b : ℕ) → b < 365 → next_year (pos (1971 + k)) (negsuc b) ≡ pos (1970 + k)
unfolding next_year divide
back_year k b h = ground arith

leap_step :
    (k : ℕ)
    → leaps_before (1971 + k) ≡ leaps_before (1970 + k) + (if is_leap (1970 + k) then 1 else 0)
unfolding is_leap
leap_step k = ground arith

leap_count : (k : ℕ) → ℕ
leap_count k = if is_leap (1970 + k) then 1 else 0

one_back : (k : ℕ) → pos (1970 + k) -ℤ pos (1971 + k) ≡ negsuc 0
one_back k = ground arith

gained : (k : ℕ) → leaps_before (1971 + k) - leaps_before (1970 + k) ≡ leap_count k
unfolding leap_count
gained k = ground (arith, leap_step k)

back_days :
    (k b : ℕ) → b < 365 → next_days (pos (1971 + k)) (negsuc b) ≡ sub_ℕ 364 (b + leap_count k)
unfolding next_days
back_days k b h =
    let g = (get_leap_years_pos (1970 + k) (1971 + k) (omega arith) (omega arith)).1 in
    rw (back_year k b h, g, one_back k, gained k) (ground arith)

-- Where the loop ends for the day `doy` of the year `1970 + k`. The first guess, 365 days to a year,
-- reaches the next year when enough leap days have gone by; the step back then counts the leap day of
-- the year itself the wrong way.
abbrev pub late_in_leap : ℕ → ℕ → Bool
late_in_leap k days = is_leap (1970 + k) && leb (365 * (k + 1)) days

outside_before : (y b : ℕ) → outside (pos y) (negsuc b) ≡ true
unfolding outside
outside_before y b = ground arith

stop_here :
    (fuel y d : ℕ) → d < year_length y → year_days (suc fuel) (pos y) (pos d) ≡ some (pos y, pos d)
unfolding year_days
stop_here fuel y d h = rw (outside_pos y d) (ground arith)

round_again :
    (fuel : ℕ) (y d : ℤ)
    → outside y d ≡ true
    → year_days (suc fuel) y d ≡ year_days fuel (next_year y d) (next_days y d)
unfolding year_days
round_again fuel y d h = rw h refl

first_length : year_length 1970 ≡ 365
unfolding year_length is_leap
first_length = refl

short_year : (k : ℕ) → 365 ≤ year_length k
unfolding year_length
short_year k = ground arith

module _ (k doy : ℕ) (small : k < 1000) (in_year : doy < year_length (1970 + k)) where
  -- Day number since 1970.
  day : ℕ
  day = days_to_year k + doy

  closed : day + 477 ≡ 365 * k + leaps_before (1970 + k) + doy
  unfolding day
  closed = omega (arith, days_to_year_closed k)

  short : doy < 365 + leap_count k
  unfolding leap_count year_length
  short = ground (arith, in_year)

  -- The first guess is right.
  guess_right : day < 365 * (k + 1) → day / 365 ≡ k
  guess_right h = omega (arith, closed)

  guess_late : 365 * (k + 1) ≤ day → day / 365 ≡ k + 1
  unfolding leap_count
  guess_late h = ground (arith, closed, short)

  at_once : day < 365 → year_days 4 (pos 1970) (pos day) ≡ some (pos (1970 + k), pos doy)
  at_once h =
      let k0 : k ≡ 0 = omega (arith, guess_right (omega arith)) in
      let l0 : leaps_before (1970 + k) ≡ 477 = ap (λ t. leaps_before (1970 + t)) k0 in
      let same : day ≡ doy = omega (arith, closed, l0) in
      let year : 1970 ≡ 1970 + k = omega arith in
      stop_here 3 1970 day (omega (arith, first_length))
      ∙ ap₂ (λ y d. some (pos y, pos d)) year same

  outside_later : 365 ≤ day → outside (pos 1970) (pos day) ≡ true
  outside_later lo = rw (outside_pos 1970 day, first_length) (ground arith)

  one_round :
      365 ≤ day
      → day < 365 * (k + 1)
      → year_days 4 (pos 1970) (pos day) ≡ some (pos (1970 + k), pos doy)
  one_round lo hi =
      let e : day / 365 ≡ k = guess_right hi in
      let y : next_year (pos 1970) (pos day) ≡ pos (1970 + k) =
        first_year day ∙ ap (λ q. pos (1970 + q)) e in
      let d : next_days (pos 1970) (pos day) ≡ pos doy =
        first_days day
        ∙ ap (λ q. sub_ℕ (day % 365 + 477) (leaps_before (1970 + q))) e
        ∙ ground (arith, closed) in
      round_again 3 (pos 1970) (pos day) (outside_later lo)
      ∙ rw (y, d) (stop_here 2 (1970 + k) doy in_year)

  -- How far before the next year the first guess lands, less one.
  behind : ℕ
  behind = 364 + leap_count k - doy

  behind_bounds : 365 * (k + 1) ≤ day → (leap_count k ≤ 1) × (115 ≤ doy)
  unfolding leap_count
  behind_bounds lo = (ground arith, omega (arith, closed))

  behind_lt : 365 * (k + 1) ≤ day → behind < 365
  unfolding behind
  behind_lt lo = omega (arith, behind_bounds lo)

  before_next :
      365 * (k + 1) ≤ day → sub_ℕ (day % 365 + 477) (leaps_before (1971 + k)) ≡ negsuc behind
  unfolding behind leap_count
  before_next lo = ground (arith, closed, short, guess_late lo, leap_step k)

  left_over : 365 * (k + 1) ≤ day → sub_ℕ 364 (behind + leap_count k) ≡ pos (doy - 2 * leap_count k)
  unfolding behind
  left_over lo = ground (arith, behind_bounds lo, short)

  two_rounds :
      365 * (k + 1) ≤ day
      → year_days 4 (pos 1970) (pos day) ≡ some (pos (1970 + k), pos (doy - 2 * leap_count k))
  two_rounds lo =
      let e : day / 365 ≡ k + 1 = guess_late lo in
      let late : leap_count k ≤ 1 × (115 ≤ doy) = behind_bounds lo in
      let y : next_year (pos 1970) (pos day) ≡ pos (1971 + k) =
        first_year day ∙ ap pos (omega (arith, e)) in
      let d : next_days (pos 1970) (pos day) ≡ negsuc behind =
        first_days day
        ∙ ap (λ q. sub_ℕ (day % 365 + 477) (leaps_before q)) (omega (arith, e))
        ∙ before_next lo in
      let y' = back_year k behind (behind_lt lo) in
      let d' : next_days (pos (1971 + k)) (negsuc behind) ≡ pos (doy - 2 * leap_count k) =
        back_days k behind (behind_lt lo) ∙ left_over lo in
      let r1 = round_again 3 (pos 1970) (pos day) (outside_later (omega arith)) in
      let r2 = round_again 2 (pos (1971 + k)) (negsuc behind) (outside_before (1971 + k) behind) in
      rw (r1, y, d, r2, y', d') (stop_here 1 (1970 + k) (doy - 2 * leap_count k) (omega arith))

-- The year loop of `gmtime`, for a day of the years 1970 to 2969: four rounds are enough, the year is
-- right, and the day of the year is right too, unless the year is a leap year and at least 365 days
-- for each year since 1970, this one included, have gone by; then it is two days too early.
pub year_days_lem :
    (k doy : ℕ)
    → k < 1000
    → doy < year_length (1970 + k)
    → year_days 4 (pos 1970) (pos (days_to_year k + doy))
      ≡ some (pos (1970 + k), pos (if late_in_leap k (days_to_year k + doy) then doy - 2 else doy))
unfolding day leap_count
year_days_lem k doy small in_year = elim (Bool-cases (leb (365 * (k + 1)) (days_to_year k + doy))) [
  | inl late ↦ two_rounds k doy small in_year (ground arith) ∙ ground arith
  | inr early ↦ elim (Bool-cases (ltb (days_to_year k + doy) 365)) [
    | inl few ↦ at_once k doy small in_year (ground arith) ∙ ground arith
    | inr many ↦ one_round k doy small in_year (ground arith) (ground arith) ∙ ground arith
  ]
]
