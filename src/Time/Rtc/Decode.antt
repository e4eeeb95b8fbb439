-- ===== src/Time/Rtc/Decode.antt =====
-- What the registers mean.
use docqos_old.Base.{
  ℕ, ◌+◌, ◌-◌, ◌*◌, ◌/◌, ◌%◌, ◌≤◌, ◌<◌, ◌≡◌, inl, inr, Bool, true, false, some, List, [], ◌∷◌, ap,
  ◌++◌, arith, leb, ◌==◌, if◌then◌else◌, Bool-cases,
}
use docqos_old.Time.Calendar.{IsDate, days_to}
use docqos_old.Time.Rtc.{Registers, RtcTime, bcd_to_bin, same, read_stable, decode, read_rtc}
use docqos_old.Time.Rtc.Stamp.{mktime_lem}

-- Two decimal digits in a byte.
abbrev pub bcd : ℕ → ℕ
bcd n = n / 10 * 16 + n % 10

pub bcd_to_bin-bcd : (n : ℕ) → n < 100 → bcd_to_bin (bcd n) ≡ n
unfolding bcd_to_bin
bcd_to_bin-bcd n h = omega arith

-- A time that the clock can hold in its 24-hour modes.
pub record IsTime (t : RtcTime) : Type 0 where
  pub year_from : 2000 ≤ t.year
  pub year_to : t.year < 2100
  pub month_in : t.month ≤ 12
  pub day_in : t.day ≤ 31
  pub hour_in : t.hour < 24
  pub minute_in : t.minute < 60
  pub second_in : t.second < 60

-- The registers of a clock that counts in BCD, or in binary, and in 24 hours.
unfoldable pub encode : Bool → RtcTime → Registers
encode in_bcd t =
    let f = λ (n : ℕ). if in_bcd then bcd n else n in
    record {
      second = f t.second;
      minute = f t.minute;
      hour = f t.hour;
      day = f t.day;
      month = f t.month;
      year = f (t.year - 2000);
    }

-- What status register B says of such a clock: bit 1 for 24 hours, bit 2 for binary.
abbrev pub Says24 : Bool → ℕ → Type 0
Says24 in_bcd rb = (rb / 2 % 2 ≡ 1) × (rb / 4 % 2 ≡ (if in_bcd then 0 else 1))

-- `kernelReadRTC` recovers any time of a 24-hour clock, in BCD and in binary.
pub decode-encode :
    (in_bcd : Bool) (rb : ℕ) (t : RtcTime)
    → IsTime t
    → Says24 in_bcd rb
    → decode rb (encode in_bcd t) ≡ t
unfolding decode encode bcd_to_bin
decode-encode true rb t v b = ground arith
decode-encode false rb t v b = ground arith

-- The hour register of a clock that counts in 12 hours: 12, 1, .., 11, with the top bit after noon.
unfoldable pub hour12 : Bool → ℕ → ℕ
hour12 in_bcd h =
    let n = if h % 12 == 0 then 12 else h % 12 in
    (if in_bcd then bcd n else n) + (if leb 12 h then 128 else 0)

abbrev pub Says12 : Bool → ℕ → Type 0
Says12 in_bcd rb = (rb / 2 % 2 ≡ 0) × (rb / 4 % 2 ≡ (if in_bcd then 0 else 1))

-- `kernelReadRTC` on a 12-hour clock gets every hour right but two: it takes noon for midnight, and
-- midnight for noon.
pub decode-hour12 :
    (in_bcd : Bool) (rb h : ℕ) (r : Registers)
    → h < 24
    → Says12 in_bcd rb
    → r.hour ≡ hour12 in_bcd h
    → (decode rb r).hour ≡ (if h % 12 == 0 then 12 - h else h)
unfolding decode hour12 bcd_to_bin
decode-hour12 true rb h r small b e = ground arith
decode-hour12 false rb h r small b e = ground arith

same_eq : (a b : Registers) → same a b ≡ true → a ≡ b
unfolding same
same_eq a b h = ground arith

-- What the loop of `kernelReadRTC` settles on is a reading that came twice in a row.
pub read_stable-twice :
    (last : Registers) (readings : List Registers) (r : Registers)
    → read_stable last readings ≡ some r
    → (before : List Registers) × (after : List Registers) × (last ∷ readings
        ≡ before ++ (r ∷ r ∷ after))
unfolding read_stable
read_stable-twice last [] r h = cc
read_stable-twice last (now ∷ more) r h = elim (Bool-cases (same last now)) [
  | inl e ↦ ([], more, cc (same_eq last now e, stop e h))
  | inr e ↦
      let (before, after, p) = read_stable-twice now more r (go_on e h) in
      (last ∷ before, after, cc)
]
  where
    stop : same last now ≡ true → read_stable last (now ∷ more) ≡ some r → now ≡ r
    stop e q = ground (arith, e, q)

    go_on :
        same last now ≡ false
        → read_stable last (now ∷ more) ≡ some r
        → read_stable now more ≡ some r
    go_on e q = ground (arith, e, q)

-- `readRTC` on a 24-hour clock that holds a date of 2000 to 2099 is the number of seconds since 1970.
pub read_rtc_lem :
    (in_bcd : Bool) (rb : ℕ) (first : Registers) (readings : List Registers) (t : RtcTime)
    → Says24 in_bcd rb
    → IsTime t
    → IsDate (record { year = t.year; month = t.month; day = t.day })
    → read_stable first readings ≡ some (encode in_bcd t)
    → read_rtc rb first readings
      ≡ some (
          days_to (record { year = t.year; month = t.month; day = t.day }) * 86400
          + t.hour * 3600
          + t.minute * 60
          + t.second)
unfolding read_rtc
read_rtc_lem in_bcd rb first readings t b v d e =
    rw (e, read_rtc, decode-encode in_bcd rb t v b)
      (ap some (
        mktime_lem (record { year = t.year; month = t.month; day = t.day }) t.hour t.minute t.second
          d (omega arith) (omega arith) v.hour_in v.minute_in v.second_in))
