-- ===== src/Time/Rtc.antt =====
-- src/time/rtc.c: the CMOS clock. What the six time registers and status register B hold is an
-- argument; the wait for the update flag is left out. A register is a number below 256, and for such
-- `x & 0x0f` is `x % 16`, `x >> 4` is `x / 16`, `hour & 0x80` is the test `128 ≤ hour`, and the bits 1
-- and 2 of `rb` are `rb / 2 % 2` and `rb / 4 % 2`.
pub mod Stamp
pub mod Decode
mod Tests
use docqos_old.Base.{
  ℕ, ◌+◌, ◌-◌, ◌*◌, ◌/◌, ◌%◌, ◌^◌, Bool, true, false, ◌&&◌, ◌||◌, Option, none, some, List, [], ◌∷◌,
  leb, ◌==◌, if◌then◌else◌,
}

abbrev pub u8 : ℕ → ℕ
u8 x = x % 2 ^ 8

abbrev pub u16 : ℕ → ℕ
u16 x = x % 2 ^ 16

abbrev pub u64 : ℕ → ℕ
u64 x = x % 2 ^ 64

-- The six time registers, as read.
pub record Registers : Type 0 where
  pub second : ℕ
  pub minute : ℕ
  pub hour : ℕ
  pub day : ℕ
  pub month : ℕ
  pub year : ℕ

-- `struct RTCTime`
pub record RtcTime : Type 0 where
  pub year : ℕ
  pub month : ℕ
  pub day : ℕ
  pub hour : ℕ
  pub minute : ℕ
  pub second : ℕ

-- `mktime`. `(s8)(month -= 2) <= 0` reads the byte as a signed one; 719499 is subtracted in 64 bits.
pub mktime : (year month day hour minute second : ℕ) → ℕ
mktime year month day hour minute second =
    let m = u8 (month + 254) in
    let early = (m == 0) || leb 128 m in
    let m' = if early then u8 (m + 12) else m in
    let y' = if early then u16 (year + 65535) else year in
    let days =
      u64 (y' / 4 - y' / 100 + y' / 400 + 367 * m' / 12 + day + y' * 365 + (2 ^ 64 - 719499)) in
    u64 (((days * 24 + hour) * 60 + minute) * 60 + second)

-- The macro `BCD2BIN`, stored into a byte.
pub bcd_to_bin : ℕ → ℕ
bcd_to_bin x = u8 (x % 16 + x / 16 * 10)

pub same : Registers → Registers → Bool
same a b =
    (a.second == b.second)
    && (a.minute == b.minute)
    && (a.hour == b.hour)
    && (a.day == b.day)
    && (a.month == b.month)
    && (a.year == b.year)

-- The loop that reads until two readings agree, over the readings that the clock gives in turn; `none`
-- if they end before.
pub read_stable : Registers → List Registers → Option Registers
read_stable last [] = none
read_stable last (now ∷ more) = elim (same last now) [
  | true ↦ some now
  | false ↦ read_stable now more
]

-- The end of `kernelReadRTC`, from the stable registers and status register B.
pub decode : ℕ → Registers → RtcTime
decode rb r =
    let half = rb / 2 % 2 == 0 in
    let pm = half && leb 128 r.hour in
    let rb' = if pm then rb else if half then rb + 2 else rb in
    let hour = if pm then r.hour - 128 else r.hour in
    let bcd = rb / 4 % 2 == 0 in
    let number = λ (x : ℕ). if bcd then bcd_to_bin x else x in
    let hour' = if rb' / 2 % 2 == 0 then u8 (number hour + 12) else number hour in
    record {
      year = u16 (number r.year + 2000);
      month = number r.month;
      day = number r.day;
      hour = hour' % 24;
      minute = number r.minute;
      second = number r.second;
    }

-- `readRTC`
pub read_rtc : ℕ → Registers → List Registers → Option ℕ
read_rtc rb first readings = elim (read_stable first readings) [
  | none ↦ none
  | some r ↦ let t = decode rb r in some (mktime t.year t.month t.day t.hour t.minute t.second)
]
