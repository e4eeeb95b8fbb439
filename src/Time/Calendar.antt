-- ===== src/Time/Calendar.antt =====
-- The Gregorian calendar by counting, an independent description of what the clock code computes.
use docqos_old.Base.{
  ℕ, zero, suc, ◌+◌, ◌-◌, ◌*◌, ◌/◌, ◌%◌, ◌≤◌, ◌≡◌, refl, Bool, not, ◌&&◌, ◌||◌, List, [], ◌∷◌,
  arith, ◌==◌, if◌then◌else◌, get_or,
}

unfoldable pub is_leap : ℕ → Bool
is_leap y = (y % 4 == 0) && (not (y % 100 == 0) || (y % 400 == 0))

unfoldable pub year_length : ℕ → ℕ
unfolding is_leap
year_length y = if is_leap y then 366 else 365

-- Days from 1970-01-01 to the first day of the year `1970 + k`.
unfoldable pub days_to_year : ℕ → ℕ
days_to_year zero = 0
days_to_year (suc k) = days_to_year k + year_length (1970 + k)

abbrev pub month_lengths : List ℕ
month_lengths = 31 ∷ 28 ∷ 31 ∷ 30 ∷ 31 ∷ 30 ∷ 31 ∷ 31 ∷ 30 ∷ 31 ∷ 30 ∷ 31 ∷ []

-- The length of a month, 1 to 12.
unfoldable pub month_length : ℕ → ℕ → ℕ
month_length y m = get_or month_lengths (m - 1) 0 + (if is_leap y && (m == 2) then 1 else 0)

-- Days from the first of January to the first of the month after the first `k` months.
unfoldable pub days_to_month : ℕ → ℕ → ℕ
days_to_month y zero = 0
days_to_month y (suc k) = days_to_month y k + month_length y (suc k)

pub record Date : Type 0 where
  pub year : ℕ
  pub month : ℕ
  pub day : ℕ

pub record IsDate (d : Date) : Type 0 where
  pub since : 1970 ≤ d.year
  pub month_pos : 1 ≤ d.month
  pub month_le : d.month ≤ 12
  pub day_pos : 1 ≤ d.day
  pub day_le : d.day ≤ month_length d.year d.month

-- The days between 1970-01-01 and a date.
unfoldable pub days_to : Date → ℕ
days_to d = days_to_year (d.year - 1970) + days_to_month d.year (d.month - 1) + (d.day - 1)

-- The count of leap years before `y`, in closed form.
abbrev pub leaps_before : ℕ → ℕ
leaps_before y = (y - 1) / 4 - (y - 1) / 100 + (y - 1) / 400

-- The years before `1970 + k` have 365 days each, and one more for each leap year.
pub days_to_year_closed : (k : ℕ) → days_to_year k + 477 ≡ 365 * k + leaps_before (1970 + k)
unfolding days_to_year year_length
days_to_year_closed zero = refl
days_to_year_closed (suc k) = ground (arith, days_to_year_closed k)

-- A statement about each of the twelve months.
pub month-cases :
    (P : ℕ → Type 0)
    → P 1 × P 2 × P 3 × P 4 × P 5 × P 6 × P 7 × P 8 × P 9 × P 10 × P 11 × P 12
    → (m : ℕ) → 1 ≤ m
    → m ≤ 12
    → P m
month-cases P h zero lo hi = absurd (omega arith)
month-cases P h (suc zero) lo hi = h.0
month-cases P h (suc (suc zero)) lo hi = h.1
month-cases P h (suc (suc (suc zero))) lo hi = h.2
month-cases P h (suc (suc (suc (suc zero)))) lo hi = h.3
month-cases P h (suc (suc (suc (suc (suc zero))))) lo hi = h.4
month-cases P h (suc (suc (suc (suc (suc (suc zero)))))) lo hi = h.5
month-cases P h (suc (suc (suc (suc (suc (suc (suc zero))))))) lo hi = h.6
month-cases P h (suc (suc (suc (suc (suc (suc (suc (suc zero)))))))) lo hi = h.7
month-cases P h (suc (suc (suc (suc (suc (suc (suc (suc (suc zero))))))))) lo hi = h.8
month-cases P h (suc (suc (suc (suc (suc (suc (suc (suc (suc (suc zero)))))))))) lo hi = h.9
month-cases P h (suc (suc (suc (suc (suc (suc (suc (suc (suc (suc (suc zero))))))))))) lo hi = h.10
month-cases P h (suc (suc (suc (suc (suc (suc (suc (suc (suc (suc (suc (suc zero)))))))))))) lo hi =
    h.11
month-cases P h (suc (suc (suc (suc (suc (suc (suc (suc (suc (suc (suc (suc (suc m))))))))))))) lo
      hi =
    absurd (omega arith)
