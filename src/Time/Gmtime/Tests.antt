-- ===== src/Time/Gmtime/Tests.antt =====
-- `gmtime` at concrete dates, late December of a leap year among them.
use docqos_old.Base.{◌+◌, ◌*◌, ◌%◌, ◌≡◌, refl, some, arith}
use docqos_old.Base.Int.{pos}
use docqos_old.Time.Calendar.{
  Date, IsDate, days_to, days_to_year, days_to_month, month_length, year_length, is_leap,
}
use docqos_old.Time.Gmtime.{
  is_leap_year, divide, leaps_until, get_leap_years, outside, next_year, next_days, year_days,
  find_month, fields, month_and_day, gmtime,
}
use docqos_old.Time.Gmtime.Months.{gmtime-days_to}

abbrev spring : Date
spring = record { year = 2013; month = 3; day = 1 }

spring-IsDate : IsDate spring
unfolding month_length is_leap
spring-IsDate = omega arith

-- The last day of 2012 comes out as 29 December.
new_years_eve :
    gmtime 4 1356912000
    ≡ some (record {
      year = pos 2012;
      month = 12;
      day = 29;
      wday = 1;
      hour = 0;
      minute = 0;
      second = 0;
    })
unfolding gmtime year_days outside is_leap_year next_days next_year get_leap_years leaps_until
    divide month_and_day fields find_month
new_years_eve = refl

gmtime-days_to_example :
    gmtime 4 (days_to spring * 86400 + 12 * 3600 + 34 * 60 + 56)
    ≡ some (record {
      year = pos 2013;
      month = 3;
      day = 1;
      wday = (4 + days_to spring) % 7;
      hour = 12;
      minute = 34;
      second = 56;
    })
unfolding days_to days_to_year days_to_month month_length year_length is_leap
gmtime-days_to_example =
    gmtime-days_to spring 12 34 56 spring-IsDate (omega arith) (omega arith) (omega arith)
      (omega arith) refl
