-- ===== src/Strings/Itoa/Digits.antt =====
-- The text of a number.
use mathlib.Core.Bool.{true≢false}
use native.Mathlib.Nat.{pow-suc, div-mul-le_self, mul-le-mul_left}
use docqos_old.Base.{
  ℕ, zero, suc, ◌+◌, ◌-◌, ◌/◌, ◌%◌, ◌^◌, ◌≤◌, ◌<◌, ◌≡◌, refl, ap, sym, ◌∙◌, inl, inr, Bool, true,
  false, not, ◌&&◌, some, arith, ltb, leb, ◌==◌, if◌then◌else◌, Bool-cases,
}
use docqos_old.Base.Int.{pos}
use docqos_old.Strings.Memory.{Bytes, store}
use docqos_old.Strings.Itoa.Turning.{store-same, store-other, turn_loop-IsTurned}
use docqos_old.Strings.Itoa.{digit_char, put_digits, append, finish, itoa}

-- The digit with `i` lower ones below it.
pub digit : ℕ → ℕ → ℕ → ℕ
digit radix zero val = val % radix
digit radix (suc i) val = digit radix i (val / radix)

-- The value is below the radix to the `n`.
pub FitsIn : ℕ → ℕ → ℕ → Type 0
FitsIn radix zero val = val ≡ 0
FitsIn radix (suc n) val = FitsIn radix n (val / radix)

-- The digits from `p` on, the lowest one first.
record AreDigits (radix val p n : ℕ) (m m' : Bytes) : Type 0 where
  some_digit : 0 < n
  fits : FitsIn radix n val
  chars : (i : ℕ) → i < n → m' (p + i) ≡ digit_char (digit radix i val)
  before : (q : ℕ) → q < p → m' q ≡ m q

div-radix : (val radix fuel : ℕ) → 2 ≤ radix → val < 2 ^ suc fuel → val / radix < 2 ^ fuel
div-radix val radix fuel h small =
    omega (arith, small, pow-suc 2 fuel, div-mul-le_self val radix, mul-le-mul_left (val / radix) h)

one-AreDigits :
    (radix val p : ℕ) (m : Bytes)
    → (val / radix == 0) ≡ true
    → AreDigits radix val p 1 m (store p (digit_char (val % radix)) m)
unfolding digit FitsIn
one-AreDigits radix val p m e = record {
  some_digit = omega arith;
  fits = ground (arith, e);
  chars = chars;
  before = λ q l. store-other p (digit_char (val % radix)) q m (λ s. omega (arith, s, l));
}
  where
    chars :
        (i : ℕ)
        → i < 1
        → store p (digit_char (val % radix)) m (p + i) ≡ digit_char (digit radix i val)
    chars zero l =
        let e : p + 0 ≡ p = omega arith in rw e (store-same p (digit_char (val % radix)) m)
    chars (suc i) l = absurd (omega (arith, l))

more-AreDigits :
    (radix val p n : ℕ) (m m' : Bytes)
    → AreDigits radix (val / radix) (p + 1) n (store p (digit_char (val % radix)) m) m'
    → AreDigits radix val p (n + 1) m m'
unfolding digit FitsIn
more-AreDigits radix val p n m m' v = record {
  some_digit = omega arith;
  fits = fits (omega arith);
  chars = chars;
  before = λ q l.
      v.before q (omega (arith, l))
      ∙ store-other p (digit_char (val % radix)) q m (λ s. omega (arith, s, l));
}
  where
    fits : n + 1 ≡ suc n → FitsIn radix (n + 1) val
    fits e = rw e v.fits

    chars : (i : ℕ) → i < n + 1 → m' (p + i) ≡ digit_char (digit radix i val)
    chars zero l =
        let e : p + 0 ≡ p = omega arith in
        rw e (v.before p (omega arith) ∙ store-same p (digit_char (val % radix)) m)
    chars (suc i) l =
        let e : p + suc i ≡ p + 1 + i = omega arith in rw e (v.chars i (omega (arith, l)))

-- What put_digits gives, with rounds for the bits of the value.
abbrev Gives : ℕ → ℕ → ℕ → ℕ → Bytes → Type 0
Gives fuel radix val p m =
    (n : ℕ) × (m' : Bytes) × (put_digits fuel radix val p m ≡ some (p + n, m'))
    × AreDigits radix val p n m m'

put_digits-Gives :
    (fuel radix val p : ℕ) (m : Bytes)
    → 2 ≤ radix
    → val < 2 ^ suc fuel
    → Gives (suc fuel) radix val p m
unfolding put_digits
put_digits-Gives zero radix val p m h small =
    let none_left : val / radix < 2 ^ 0 = div-radix val radix 0 h small in
    let e : (val / radix == 0) ≡ true = ground (arith, none_left) in
    (1, store p (digit_char (val % radix)) m, rw e refl, one-AreDigits radix val p m e)
put_digits-Gives (suc fuel) radix val p m h small = elim (Bool-cases (val / radix == 0)) [
  | inl e ↦ (1, store p (digit_char (val % radix)) m, rw e refl, one-AreDigits radix val p m e)
  | inr e ↦
      let m1 = store p (digit_char (val % radix)) m in
      let (n, m', run, v) =
        put_digits-Gives fuel radix (val / radix) (p + 1) m1 h
          (div-radix val radix (suc fuel) h small) in
      let at : p + 1 + n ≡ p + (n + 1) = omega arith in
      (n + 1, m', rw e (run ∙ ap (λ q. some (q, m')) at), more-AreDigits radix val p n m m' v)
]

-- The text of a number at an address: its digits, the highest one first, and a zero behind them.
pub record IsText (radix val a n : ℕ) (m : Bytes) : Type 0 where
  pub some_digit : 0 < n
  pub fits : FitsIn radix n val
  pub chars : (i : ℕ) → i < n → m (a + i) ≡ digit_char (digit radix (n - 1 - i) val)
  pub ends : m (a + n) ≡ 0

-- What `finish` leaves without an alignment.
finish-IsText :
    (radix val a n c : ℕ) (m m' : Bytes)
    → AreDigits radix val a n m m'
    → IsText radix val a n (finish (pos 0) c a (a + n) m').1
      × ((finish (pos 0) c a (a + n) m').0 ≡ a + n)
      × ((q : ℕ) → q < a → (finish (pos 0) c a (a + n) m').1 q ≡ m q)
unfolding finish append
finish-IsText radix val a n c m m' v =
    let size : a + n - a ≡ n = omega arith in
    let none_left : 0 - n ≡ 0 = omega arith in
    let fits : ltb n 0 ≡ false = ground arith in
    let t = turn_loop-IsTurned n a n (store (a + n) 0 m') v.some_digit (omega arith) in
    rw (size, fits, none_left, size)
      (
        record {
          some_digit = v.some_digit;
          fits = v.fits;
          chars = λ i l.
              t.turned i l
              ∙ store-other (a + n) 0 (a + (n - 1 - i)) m' (λ e. omega (arith, e, l))
              ∙ v.chars (n - 1 - i) (omega (arith, l));
          ends = t.rest (a + n) (inr (omega arith)) ∙ store-same (a + n) 0 m';
        },
        refl,
        λ q l.
            t.rest q (inl l) ∙ store-other (a + n) 0 q m' (λ e. omega (arith, e, l)) ∙ v.before q l,
      )

-- Whether itoa writes a sign.
abbrev pub is_negative : ℕ → Bool → Bool
is_negative val is_unsigned = leb (2 ^ 63) val && not is_unsigned

sign_set : (val : ℕ) (is_unsigned : Bool) → is_negative val is_unsigned ≡ true → 2 ^ 63 ≤ val
sign_set val is_unsigned e = ground (arith, e)

-- Without an alignment, 64 rounds are enough for itoa in any radix from 2 on that is an `unsigned
-- int`. It writes the characters of the number's digits, each cut to a byte, the highest one first and a zero
-- behind them, with a sign before them for a negative number, and
-- returns the end.
pub itoa-IsText :
    (val buf radix align_char : ℕ) (is_unsigned : Bool) (m : Bytes)
    → 2 ≤ radix
    → radix < 2 ^ 32
    → val < 2 ^ 64
    → (n : ℕ) × (m' : Bytes) × (itoa 64 val buf radix (pos 0) align_char is_unsigned m
        ≡ some ((if is_negative val is_unsigned then buf + 1 else buf) + n, m'))
      × IsText radix
          (if is_negative val is_unsigned then 2 ^ 64 - val else val)
          (if is_negative val is_unsigned then buf + 1 else buf)
          n
          m'
      × (is_negative val is_unsigned ≡ true → m' buf ≡ b'-')
unfolding itoa
itoa-IsText val buf radix align_char is_unsigned m h int small =
    let c = if align_char == 0 then b' ' else align_char in
    elim (Bool-cases (is_negative val is_unsigned)) [
      | inl e ↦
          let big : 2 ^ 63 ≤ val = sign_set val is_unsigned e in
          let m0 = store buf b'-' m in
          let (n, m1, run, v) =
            put_digits-Gives 63 radix (2 ^ 64 - val) (buf + 1) m0 h (omega (arith, big)) in
          let t = finish-IsText radix (2 ^ 64 - val) (buf + 1) n c m0 m1 v in
          (
            n,
            (finish (pos 0) c (buf + 1) (buf + 1 + n) m1).1,
            rw (itoa, e, run, e)
                (ap (λ q. some (q, (finish (pos 0) c (buf + 1) (buf + 1 + n) m1).1)) t.1),
            rw e t.0,
            λ s. t.2 buf (omega arith) ∙ store-same buf b'-' m,
          )
      | inr e ↦
          let (n, m1, run, v) = put_digits-Gives 63 radix val buf m h small in
          let t = finish-IsText radix val buf n c m m1 v in
          (
            n,
            (finish (pos 0) c buf (buf + n) m1).1,
            rw (itoa, e, run, e) (ap (λ q. some (q, (finish (pos 0) c buf (buf + n) m1).1)) t.1),
            rw e t.0,
            λ s. absurd (true≢false (sym s ∙ e)),
          )
    ]
