-- ===== src/Time/Rtc/Tests.antt =====
-- The clock's theorems at concrete times.
use docqos_old.Base.{◌+◌, ◌*◌, ◌≡◌, refl, true, some, [], ◌∷◌, arith}
use docqos_old.Time.Calendar.{Date, IsDate, days_to, month_length, is_leap}
use docqos_old.Time.Rtc.{mktime, Registers, RtcTime, same, read_stable, read_rtc}
use docqos_old.Time.Rtc.Decode.{IsTime, encode, read_rtc_lem}

abbrev leap_day : Date
leap_day = record { year = 2012; month = 2; day = 29 }

abbrev moment : RtcTime
moment = record { year = 2012; month = 2; day = 29; hour = 23; minute = 59; second = 58 }

-- The registers at that moment, in BCD.
abbrev regs : Registers
regs = record { second = 0x58; minute = 0x59; hour = 0x23; day = 0x29; month = 0x02; year = 0x12 }

abbrev earlier : Registers
earlier = record {
  second = 0x57;
  minute = 0x59;
  hour = 0x23;
  day = 0x29;
  month = 0x02;
  year = 0x12;
}

leap_day-IsDate : IsDate leap_day
unfolding month_length is_leap
leap_day-IsDate = omega arith

moment-IsTime : IsTime moment
moment-IsTime = omega arith

stamp_of_leap_day : mktime 2012 2 29 23 59 58 ≡ 1330559998
unfolding mktime
stamp_of_leap_day = refl

regs_of_moment : encode true moment ≡ regs
unfolding encode
regs_of_moment = refl

settles : read_stable earlier (regs ∷ regs ∷ []) ≡ some regs
unfolding read_stable same
settles = refl

read_rtc_lem_example :
    read_rtc 2 earlier (regs ∷ regs ∷ [])
    ≡ some (days_to leap_day * 86400 + 23 * 3600 + 59 * 60 + 58)
unfolding encode
read_rtc_lem_example =
    read_rtc_lem true 2 earlier (regs ∷ regs ∷ []) moment (refl, refl) moment-IsTime leap_day-IsDate
      settles
