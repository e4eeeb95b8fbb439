-- ===== src/Time/Gmtime/Months.antt =====
-- From the day of the year to the month and the day, and the whole of `gmtime`.
use docqos_old.Base.{
  ℕ, ◌+◌, ◌-◌, ◌*◌, ◌/◌, ◌%◌, ◌≤◌, ◌<◌, ◌≡◌, refl, ap, ◌∙◌, false, some, arith, get_or,
}
use docqos_old.Base.Int.{ℤ, pos}
use docqos_old.Time.Calendar.{
  is_leap, year_length, month_length, days_to_year, days_to_month, Date, IsDate, days_to,
  month-cases,
}
use docqos_old.Time.Gmtime.{year_days, month_days, find_month, fields, month_and_day, gmtime}
use docqos_old.Time.Gmtime.Years.{late_in_leap, is_leap_year_pos, year_days_lem}

-- For a date's day of the year, the search of `monthDays` stops at its month.
FindsMonth : ℕ → ℕ → Type 0
FindsMonth y m =
    (d : ℕ)
    → 1 ≤ d
    → d ≤ month_length y m
    → (find_month (month_days (is_leap y)) (days_to_month y (m - 1) + (d - 1)) 11 ≡ some (m - 1))
      × (get_or (month_days (is_leap y)) (m - 1) 0 ≡ days_to_month y (m - 1))
      × (days_to_month y (m - 1) + (d - 1) < year_length y)

first_half :
    (y : ℕ)
    → FindsMonth y 1
      × FindsMonth y 2
      × FindsMonth y 3
      × FindsMonth y 4
      × FindsMonth y 5
      × FindsMonth y 6
unfolding FindsMonth find_month days_to_month month_length year_length
first_half y = (
  (λ d p q. ground arith),
  (λ d p q. ground arith),
  (λ d p q. ground arith),
  (λ d p q. ground arith),
  (λ d p q. ground arith),
  (λ d p q. ground arith),
)

second_half :
    (y : ℕ)
    → FindsMonth y 7
      × FindsMonth y 8
      × FindsMonth y 9
      × FindsMonth y 10
      × FindsMonth y 11
      × FindsMonth y 12
unfolding FindsMonth find_month days_to_month month_length year_length
second_half y = (
  (λ d p q. ground arith),
  (λ d p q. ground arith),
  (λ d p q. ground arith),
  (λ d p q. ground arith),
  (λ d p q. ground arith),
  (λ d p q. ground arith),
)

finds_month : (y m : ℕ) → 1 ≤ m → m ≤ 12 → FindsMonth y m
finds_month y m lo hi =
    let a = first_half y in
    let b = second_half y in
    month-cases (FindsMonth y) (a.0, a.1, a.2, a.3, a.4, a.5, b.0, b.1, b.2, b.3, b.4, b.5) m lo hi

day_of_year : Date → ℕ
day_of_year t = days_to_month t.year (t.month - 1) + (t.day - 1)

month_and_day_lem :
    (t : Date) (time : ℕ)
    → IsDate t
    → month_and_day time (pos t.year, pos (day_of_year t))
      ≡ some (record {
        year = pos t.year;
        month = t.month;
        day = t.day;
        wday = (4 + time / 86400) % 7;
        hour = time % 86400 / 3600;
        minute = time % 86400 % 3600 / 60;
        second = time % 86400 % 3600 % 60;
      })
unfolding month_and_day fields FindsMonth day_of_year
month_and_day_lem t time v =
    let f = finds_month t.year t.month v.month_pos v.month_le t.day v.day_pos v.day_le in
    rw (is_leap_year_pos t.year, f.0, f.1) (ground (arith, v.month_pos, v.day_pos))

in_year : (t : Date) → IsDate t → day_of_year t < year_length t.year
unfolding FindsMonth day_of_year
in_year t v = (finds_month t.year t.month v.month_pos v.month_le t.day v.day_pos v.day_le).2

year_part :
    (t : Date)
    → IsDate t
    → t.year < 2970
    → late_in_leap (t.year - 1970) (days_to t) ≡ false
    → year_days 4 (pos 1970) (pos (days_to t)) ≡ some (pos t.year, pos (day_of_year t))
unfolding days_to day_of_year
year_part t v small ok =
    let same : 1970 + (t.year - 1970) ≡ t.year = omega (arith, v.since) in
    let sum : days_to t ≡ days_to_year (t.year - 1970) + day_of_year t = omega arith in
    let inside : day_of_year t < year_length (1970 + (t.year - 1970)) = rw same (in_year t v) in
    rw sum (
      year_days_lem (t.year - 1970) (day_of_year t) (omega arith) inside
      ∙ ground (arith, ok, sum, same))

day_part :
    (t : Date) (h i s : ℕ)
    → h < 24
    → i < 60
    → s < 60
    → (days_to t * 86400 + h * 3600 + i * 60 + s) / 86400 ≡ days_to t
day_part t h i s hh hi hs = omega arith

rest_part :
    (d h i s : ℕ)
    → h < 24
    → i < 60
    → s < 60
    → let time = d * 86400 + h * 3600 + i * 60 + s in
      (time % 86400 / 3600 ≡ h) × (time % 86400 % 3600 / 60 ≡ i) × (time % 86400 % 3600 % 60 ≡ s)
rest_part d h i s hh hi hs = omega arith

gmtime_of_year_days :
    (time : ℕ) (p : ℤ × ℤ)
    → year_days 4 (pos 1970) (pos (time / 86400)) ≡ some p
    → gmtime 4 time ≡ month_and_day time p
unfolding gmtime
gmtime_of_year_days time p e = rw (e, gmtime) refl

-- `gmtime` gives back the date, the time of day and the day of the week, for every date from 1970 to
-- 2969 but the last ones of a leap year, those by which 365 days for each year since 1970, this one
-- included, have gone by. 1970-01-01 is a Thursday.
pub gmtime-days_to :
    (t : Date) (h i s : ℕ)
    → IsDate t
    → t.year < 2970
    → h < 24
    → i < 60
    → s < 60
    → late_in_leap (t.year - 1970) (days_to t) ≡ false
    → gmtime 4 (days_to t * 86400 + h * 3600 + i * 60 + s)
      ≡ some (record {
        year = pos t.year;
        month = t.month;
        day = t.day;
        wday = (4 + days_to t) % 7;
        hour = h;
        minute = i;
        second = s;
      })
gmtime-days_to t h i s v small hh hi hs ok =
    let time : ℕ = days_to t * 86400 + h * 3600 + i * 60 + s in
    gmtime_of_year_days time (pos t.year, pos (day_of_year t))
      (ap (λ n. year_days 4 (pos 1970) (pos n)) (day_part t h i s hh hi hs)
        ∙ year_part t v small ok)
    ∙ month_and_day_lem t time v
    ∙ ground (arith, day_part t h i s hh hi hs, rest_part (days_to t) h i s hh hi hs)
