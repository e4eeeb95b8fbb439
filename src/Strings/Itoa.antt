-- ===== src/Strings/Itoa.antt =====
-- itoa of src/lib/string.c, with the fuel for its loop over the digits. A pointer does not wrap around.
pub mod Turning
pub mod Digits
mod Tests
use docqos_old.Base.{
  ℕ, zero, suc, ◌+◌, ◌-◌, ◌*◌, ◌/◌, ◌%◌, ◌^◌, Bool, true, false, not, ◌&&◌, Option, none, some, ltb,
  leb, ◌==◌, if◌then◌else◌,
}
use docqos_old.Base.Int.{ℤ, pos, negsuc}
use docqos_old.Strings.Memory.{Bytes, store}

-- The character of a digit, with the cast to a `char` for a letter.
abbrev pub digit_char : ℕ → ℕ
digit_char bit = (if ltb 9 bit then bit - 10 + b'a' else bit + b'0') % 256

-- The loop over the digits, the lowest one first: where it ends, and the memory.
pub put_digits : ℕ → ℕ → ℕ → ℕ → Bytes → Option (ℕ × Bytes)
put_digits zero radix val buf m = none
put_digits (suc fuel) radix val buf m =
    let m' = store buf (digit_char (val % radix)) m in
    let on = put_digits fuel radix (val / radix) (buf + 1) m' in
    if val / radix == 0 then some (buf + 1, m') else on

-- A loop that appends the alignment's character, with its rounds.
pub append : ℕ → ℕ → ℕ → Bytes → Bytes
append zero c p m = m
append (suc n) c p m = append n c (p + 1) (store p c m)

-- The loop that turns the text around, with fuel: where `start` is then, and the memory.
pub turn_loop : ℕ → ℕ → ℕ → Bytes → ℕ × Bytes
turn_loop zero start buf m = (start, m)
turn_loop (suc fuel) start buf m =
    let m' = store start (m buf) (store buf (m start) m) in
    let on = turn_loop fuel (start + 1) (buf - 1) m' in
    if ltb (start + 1) (buf - 1) then on else (start + 1, m')

-- What follows the digits, from `start` to `buf`: `align` is `alignType`.
pub finish : ℤ → ℕ → ℕ → ℕ → Bytes → ℕ × Bytes
unfolding append turn_loop
finish (pos n) c start buf m =
    let end = if ltb (buf - start) n then start + n else buf in
    let m' = append (n - (buf - start)) c buf m in
    let t = turn_loop (end - start) start (end - 1) (store end 0 m') in (end, t.1)
finish (negsuc n) c start buf m =
    let t = turn_loop (buf - start) start (buf - 1) (store buf 0 m) in
    let size = buf + 1 - t.0 in
    let end = if ltb size (suc n) then buf + (suc n - size) else buf in
    (end, store end 0 (append (suc n - size) c buf t.1))

-- `itoa`: the end of the text, and the memory. `val` is a word of 64 bits.
pub itoa : ℕ → ℕ → ℕ → ℕ → ℤ → ℕ → Bool → Bytes → Option (ℕ × Bytes)
unfolding put_digits finish
itoa fuel val buf radix align align_char is_unsigned m =
    let c = if align_char == 0 then b' ' else align_char in
    let negative = leb (2 ^ 63) val && not is_unsigned in
    let start = if negative then buf + 1 else buf in
    let v = if negative then 2 ^ 64 - val else val in
    elim (put_digits fuel radix v start (if negative then store buf b'-' m else m)) [
      | none ↦ none
      | some (end, m') ↦ some (finish align c start end m')
    ]
