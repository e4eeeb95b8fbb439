-- ===== src/Time/Gmtime.antt =====
-- user/date/date.c: from seconds since 1970 to a calendar date. `signed long` is an integer, without
-- overflow: the values stay far below 2 ^ 63.
pub mod Years
pub mod Months
mod Tests
use docqos_old.Base.{
  ℕ, zero, suc, ◌+◌, ◌-◌, ◌*◌, ◌/◌, ◌%◌, Bool, true, false, not, ◌&&◌, ◌||◌, Option, none, some,
  List, [], ◌∷◌, ltb, ◌==◌, if◌then◌else◌, get_or,
}
use docqos_old.Base.Int.{ℤ, pos, negsuc, ◌+ℤ◌, ◌-ℤ◌, scale, quot, rem, ltb_ℤ, is_zero}

-- `isLeapYear`
pub is_leap_year : ℤ → Bool
is_leap_year y = is_zero (rem y 4) && (not (is_zero (rem y 100)) || is_zero (rem y 400))

-- `divide`, whose second argument is always a positive constant.
pub divide : ℤ → ℕ → ℤ
divide d1 d2 = quot d1 d2 -ℤ (if ltb_ℤ (rem d1 d2) (pos 0) then pos 1 else pos 0)

-- The expressions for `d1` and `d2` in `getLeapYears`.
pub leaps_until : ℤ → ℤ
leaps_until y = let p = y -ℤ pos 1 in divide p 4 -ℤ divide p 100 +ℤ divide p 400

-- `getLeapYears`
pub get_leap_years : ℤ → ℤ → ℤ
get_leap_years y1 y2 =
    let d = leaps_until y1 -ℤ leaps_until y2 in if ltb_ℤ (pos 0) d then d else pos 0 -ℤ d

-- The test of the `while` loop of `gmtime`.
pub outside : ℤ → ℤ → Bool
outside year days =
    ltb_ℤ days (pos 0) || not (ltb_ℤ days (if is_leap_year year then pos 366 else pos 365))

-- The year that one round of the loop moves to, and the days left then.
pub next_year : ℤ → ℤ → ℤ
next_year year days = year +ℤ divide days 365

pub next_days : ℤ → ℤ → ℤ
next_days year days =
    let y = next_year year days in days -ℤ scale 365 (y -ℤ year) -ℤ get_leap_years year y

-- The loop, with fuel: the year, and the day of the year.
pub year_days : ℕ → ℤ → ℤ → Option (ℤ × ℤ)
year_days zero year days = none
year_days (suc fuel) year days =
    let rest = year_days fuel (next_year year days) (next_days year days) in
    if outside year days then rest else some (year, days)

-- `monthDays`
abbrev pub month_days : Bool → List ℕ
month_days false = 0 ∷ 31 ∷ 59 ∷ 90 ∷ 120 ∷ 151 ∷ 181 ∷ 212 ∷ 243 ∷ 273 ∷ 304 ∷ 334 ∷ 365 ∷ []
month_days true = 0 ∷ 31 ∷ 60 ∷ 91 ∷ 121 ∷ 152 ∷ 182 ∷ 213 ∷ 244 ∷ 274 ∷ 305 ∷ 335 ∷ 366 ∷ []

-- `for(year = 11; days < id[year]; --year);` from `year = k` on; `none` is a step below the table.
pub find_month : List ℕ → ℕ → ℕ → Option ℕ
find_month table days zero = if ltb days (get_or table 0 0) then none else some 0
find_month table days (suc k) =
    let rest = find_month table days k in
    if ltb days (get_or table (suc k) 0) then rest else some (suc k)

-- `result`: year, month, day, day of the week, hour, minute and second.
pub record Fields : Type 0 where
  pub year : ℤ
  pub month : ℕ
  pub day : ℕ
  pub wday : ℕ
  pub hour : ℕ
  pub minute : ℕ
  pub second : ℕ

-- The fields, from the row of `monthDays` and the month found in it.
pub fields : ℕ → ℤ → ℕ → List ℕ → Option ℕ → Option Fields
fields time year days table none = none
fields time year days table (some m) = some (record {
  year = year;
  month = m + 1;
  day = days - get_or table m 0 + 1;
  wday = (4 + time / 86400) % 7;
  hour = time % 86400 / 3600;
  minute = time % 86400 % 3600 / 60;
  second = time % 86400 % 3600 % 60;
})

-- `gmtime` after the loop; `days` is not negative there.
pub month_and_day : ℕ → ℤ × ℤ → Option Fields
month_and_day time (year, negsuc n) = none
month_and_day time (year, pos days) =
    let table = month_days (is_leap_year year) in
    fields time year days table (find_month table days 11)

-- `gmtime`, with fuel for the loop.
pub gmtime : ℕ → ℕ → Option Fields
gmtime fuel time = elim (year_days fuel (pos 1970) (pos (time / 86400))) [
  | none ↦ none
  | some p ↦ month_and_day time p
]
