-- ===== src/Time/Rtc/Stamp.antt =====
-- `mktime` against the calendar.
use docqos_old.Base.{
  ℕ, ◌+◌, ◌-◌, ◌*◌, ◌/◌, ◌%◌, ◌^◌, ◌≤◌, ◌<◌, ◌≡◌, arith, ap, ◌∙◌, leb, if◌then◌else◌,
}
use docqos_old.Time.Calendar.{
  is_leap, month_length, days_to_year, days_to_month, days_to_year_closed, Date, IsDate, days_to,
  leaps_before, month-cases,
}
use docqos_old.Time.Rtc.{mktime}

-- The day count in `mktime`, for a month from 1 to 12: the year starts in March.
pub march_days : (y m d : ℕ) → ℕ
march_days y m d =
    let y' = if leb m 2 then y - 1 else y in
    let m' = if leb m 2 then m + 10 else m - 2 in
    y' / 4 - y' / 100 + y' / 400 + 367 * m' / 12 + d + y' * 365

module _ (y d : ℕ) (since : 1970 ≤ y) (pos : 1 ≤ d) where
  CountsFrom : ℕ → Type 0
  CountsFrom m =
      march_days y m d ≡ days_to_year (y - 1970) + days_to_month y (m - 1) + (d - 1) + 719499

  year_start :
      days_to_year (y - 1970) + 477
      ≡ 365 * (y - 1970) + ((y - 1) / 4 - (y - 1) / 100 + (y - 1) / 400)
  year_start =
      let e : 1970 + (y - 1970) ≡ y = omega arith in
      days_to_year_closed (y - 1970) ∙ ap (λ t. 365 * (y - 1970) + leaps_before t) e

  early_months : CountsFrom 1 × CountsFrom 2
  unfolding CountsFrom march_days days_to_month month_length
  early_months = (ground (arith, year_start), ground (arith, year_start))

  spring_months : CountsFrom 3 × CountsFrom 4 × CountsFrom 5 × CountsFrom 6 × CountsFrom 7
  unfolding CountsFrom march_days days_to_month month_length is_leap
  spring_months = (
    ground (arith, year_start),
    ground (arith, year_start),
    ground (arith, year_start),
    ground (arith, year_start),
    ground (arith, year_start),
  )

  late_months : CountsFrom 8 × CountsFrom 9 × CountsFrom 10 × CountsFrom 11 × CountsFrom 12
  unfolding CountsFrom march_days days_to_month month_length is_leap
  late_months = (
    ground (arith, year_start),
    ground (arith, year_start),
    ground (arith, year_start),
    ground (arith, year_start),
    ground (arith, year_start),
  )

pub march_days_lem :
    (y m d : ℕ)
    → 1970 ≤ y
    → 1 ≤ m
    → m ≤ 12
    → 1 ≤ d
    → march_days y m d ≡ days_to_year (y - 1970) + days_to_month y (m - 1) + (d - 1) + 719499
unfolding CountsFrom
march_days_lem y m d since lo hi pos =
    let a = early_months y d since pos in
    let b = spring_months y d since pos in
    let c = late_months y d since pos in
    month-cases (CountsFrom y d since pos)
      (a.0, a.1, b.0, b.1, b.2, b.3, b.4, c.0, c.1, c.2, c.3, c.4) m lo hi

march_days-lt : (y m d : ℕ) → y < 2 ^ 16 → m ≤ 12 → d < 2 ^ 8 → march_days y m d < 2 ^ 26
unfolding march_days
march_days-lt y m d hy hm hd = ground arith

mktime_march :
    (y m d h i s : ℕ)
    → 1 ≤ y
    → y < 2 ^ 16
    → 1 ≤ m
    → m ≤ 12
    → mktime y m d h i s
      ≡ ((((march_days y m d + (2 ^ 64 - 719499)) % 2 ^ 64 * 24 + h) * 60 + i) * 60 + s) % 2 ^ 64
unfolding mktime march_days
mktime_march y m d h i s py hy lo hi = ground arith

-- `mktime` of a calendar date from 1970 on, with a year of 16 bits, is the number of seconds since
-- 1970: the days counted by the calendar, and the time of day.
pub mktime_lem :
    (t : Date) (h i s : ℕ)
    → IsDate t
    → t.year < 2 ^ 16
    → t.day < 2 ^ 8
    → h < 24
    → i < 60
    → s < 60
    → mktime t.year t.month t.day h i s ≡ days_to t * 86400 + h * 3600 + i * 60 + s
unfolding days_to
mktime_lem t h i s v hy hd hh hi hs = omega (
  arith,
  mktime_march t.year t.month t.day h i s (omega arith) hy v.month_pos v.month_le,
  march_days_lem t.year t.month t.day v.since v.month_pos v.month_le v.day_pos,
  march_days-lt t.year t.month t.day hy v.month_le hd,
)
