-- ===== src/Strings/Length.antt =====
-- strlen of src/lib/string.c, with the fuel for its loops. A `long` and a `u32` are words of 64 and of 32
-- bits, read bit by bit.
pub mod Scanning
mod Tests
use docqos_old.Base.{
  ℕ, zero, suc, ◌+◌, ◌-◌, ◌*◌, ◌/◌, ◌%◌, ◌^◌, Bool, true, false, not, ◌&&◌, ◌||◌, Option, none,
  some, ltb, ◌==◌, if◌then◌else◌,
}
use docqos_old.Strings.Memory.{Bytes}

abbrev pub bit : ℕ → ℕ → Bool
bit x n = x / 2 ^ n % 2 == 1

abbrev pub xor : Bool → Bool → Bool
xor a b = if a then not b else b

pub any_below : ℕ → (ℕ → Bool) → Bool
any_below zero f = false
any_below (suc k) f = f k || any_below k f

abbrev pub magic : ℕ
magic = 0x7efefeff

-- `((dword + 0x7efefeffL) ^ ~dword) & ~0x7efefeffL` at one bit.
abbrev pub test_bit : ℕ → ℕ → Bool
test_bit w n = xor (bit (w + magic) n) (ltb n 32 && not (bit w n)) && not (bit magic n)

-- The test on a word, which is whether it is not 0.
pub may_have_zero : ℕ → Bool
unfolding any_below
may_have_zero w = any_below 64 (test_bit w)

pub read_word : ℕ → Bytes → ℕ
read_word p m = m p + 2 ^ 8 * m (p + 1) + 2 ^ 16 * m (p + 2) + 2 ^ 24 * m (p + 3)

-- The loop over bytes, from `p` on, for a string that does not start at a word: the address of the zero.
pub byte_loop : ℕ → ℕ → Bytes → Option ℕ
byte_loop zero p m = none
byte_loop (suc fuel) p m = let rest = byte_loop fuel (p + 1) m in if m p == 0 then some p else rest

-- The loop over words.
pub word_loop : ℕ → ℕ → Bytes → Option ℕ
unfolding may_have_zero read_word
word_loop zero p m = none
word_loop (suc fuel) p m =
    let rest = word_loop fuel (p + 4) m in
    let w = may_have_zero (read_word p m) in
    if w && (m p == 0)
    then some p
    else if w && (m (p + 1) == 0)
    then some (p + 1)
    else if w && (m (p + 2) == 0)
    then some (p + 2)
    else if w && (m (p + 3) == 0)
    then some (p + 3)
    else rest

-- `strlen`; the `int` that it returns is kept as its word of 32 bits.
pub strlen : ℕ → ℕ → Bytes → Option ℕ
unfolding byte_loop word_loop
strlen fuel string m =
    let found = if string % 4 == 0 then word_loop fuel string m else byte_loop fuel string m in
    elim found [ none ↦ none | some p ↦ some ((p - string) % 2 ^ 32) ]
