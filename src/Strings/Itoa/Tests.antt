-- ===== src/Strings/Itoa/Tests.antt =====
-- The text of concrete numbers.
use docqos_old.Base.{ℕ, ◌+◌, ◌-◌, ◌^◌, ◌≡◌, true, false, some, arith, if◌then◌else◌}
use docqos_old.Base.Int.{pos}
use docqos_old.Strings.Memory.{Bytes}
use docqos_old.Strings.Itoa.{itoa}
use docqos_old.Strings.Itoa.Digits.{IsText, is_negative, itoa-IsText}

abbrev clear : Bytes
clear q = 0

-- -255, in the radix 16.
abbrev minus_255 : ℕ
minus_255 = 2 ^ 64 - 255

itoa-IsText_example :
    (n : ℕ) × (m' : Bytes) × (itoa 64 minus_255 100 16 (pos 0) 0 false clear
      ≡ some ((if is_negative minus_255 false then 101 else 100) + n, m'))
    × IsText 16
        (if is_negative minus_255 false then 2 ^ 64 - minus_255 else minus_255)
        (if is_negative minus_255 false then 101 else 100)
        n
        m'
    × (is_negative minus_255 false ≡ true → m' 100 ≡ b'-')
itoa-IsText_example =
    itoa-IsText minus_255 100 16 0 false clear (omega arith) (omega arith) (omega arith)
