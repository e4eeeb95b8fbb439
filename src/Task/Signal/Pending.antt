-- ===== src/Task/Signal/Pending.antt =====
-- Which signal is taken next.
use docqos_old.Base.{
  ℕ, zero, suc, ◌+◌, ◌%◌, ◌≤◌, ◌<◌, ◌≡◌, refl, ap, sym, ◌∙◌, inl, inr, Bool, true, false, not, ◌&&◌,
  ◌||◌, some, arith, ltb, leb, ◌==◌, if◌then◌else◌, Bool-cases,
}
use mathlib.Core.Path.{subst}
use docqos_old.Base.Errno.{ok}
use docqos_old.Task.Signal.{
  Bits, sigkill, sigcont, sigstop, int_bit, meets_below, meets, union, Task, task_signal_pending,
  round_test, scan, choose, get_pending_signal, do_kill,
}

-- Pending, and not blocked.
abbrev pub deliverable : Task → ℕ → Bool
deliverable t n = t.pending n && not (t.blocked n)

int_bit-small : (i n : ℕ) → i < 31 → int_bit i n ≡ (n == i)
int_bit-small i n h =
    let same : i % 32 ≡ i = omega arith in
    let low : (i == 31) ≡ false = ground arith in rw (same, low) refl

bit_only : (k i : ℕ) (a : Bits) → ((a k && (k == i)) || (ltb i k && a i)) ≡ (ltb i (suc k) && a i)
bit_only k i a = elim (Bool-cases (k == i)) [
  | inl same ↦
      let e : k ≡ i = ground arith in
      let at : ltb i (suc i) ≡ true = ground arith in
      let self : (i == i) ≡ true = ground arith in
      let out : ltb i i ≡ false = ground arith in rw (e, at, self, out) (ground arith)
  | inr other ↦ let less : ltb i (suc k) ≡ ltb i k = ground arith in rw (other, less) (ground arith)
]

meets_below-int_bit : (k i : ℕ) (a : Bits) → i < 31 → meets_below k a (int_bit i) ≡ (ltb i k && a i)
unfolding meets_below
meets_below-int_bit zero i a h = let out : ltb i 0 ≡ false = ground arith in rw out refl
meets_below-int_bit (suc k) i a h =
    rw (int_bit-small i k h, meets_below-int_bit k i a h) (bit_only k i a)

meets-int_bit : (i : ℕ) (a : Bits) → i < 31 → meets a (int_bit i) ≡ a i
unfolding meets
meets-int_bit i a h =
    let within : ltb i 64 ≡ true = ground arith in meets_below-int_bit 64 i a h ∙ rw within refl

meets_below-nothing :
    (k : ℕ) (a b : Bits) → ((n : ℕ) → n < k → (a n && b n) ≡ false) → meets_below k a b ≡ false
unfolding meets_below
meets_below-nothing zero a b h = refl
meets_below-nothing (suc k) a b h =
    rw (h k (omega arith), meets_below-nothing k a b (λ n lt. h n (omega arith))) refl

meets_below-false :
    (k n : ℕ) (a b : Bits) → meets_below k a b ≡ false → n < k → (a n && b n) ≡ false
unfolding meets_below
meets_below-false zero n a b e h = absurd (omega arith)
meets_below-false (suc k) n a b e h = elim (Bool-cases (k == n)) [
  | inl same ↦ let eq : k ≡ n = ground arith in rw (← eq) (ground (arith, e))
  | inr other ↦ meets_below-false k n a b (ground (arith, e)) (ground arith)
]

-- Only signals that an `int` can hold are pending: 1 to 30.
pub record IsSmall (t : Task) : Type 0 where
  pub no_zero : t.pending 0 ≡ false
  pub below : (n : ℕ) → 31 ≤ n → t.pending n ≡ false

-- The signal is the first that can be delivered, or 0 when there is none.
pub data IsFirst (t : Task) : ℕ → Type 0 where
  nothing : ((n : ℕ) → n < 31 → deliverable t n ≡ false) → IsFirst t 0
  first :
      (r : ℕ)
      → 0 < r
      → r < 31
      → deliverable t r ≡ true
      → ((n : ℕ) → n < r → deliverable t n ≡ false)
      → IsFirst t r

round_test-small : (t : Task) (i : ℕ) → i < 31 → round_test t i ≡ deliverable t i
unfolding round_test
round_test-small t i h = rw (meets-int_bit i t.pending h, meets-int_bit i t.blocked h) refl

meets-nothing : (a b : Bits) → ((n : ℕ) → n < 64 → (a n && b n) ≡ false) → meets a b ≡ false
unfolding meets
meets-nothing a b h = meets_below-nothing 64 a b h

round_test-large :
    (t : Task) (i : ℕ)
    → IsSmall t
    → 31 ≤ i
    → i < 64
    → ((n : ℕ) → n < 31 → deliverable t n ≡ false)
    → round_test t i ≡ false
unfolding round_test
round_test-large t i v lo hi h = elim (Bool-cases (i % 32 == 31)) [
  | inl sign ↦
      let none_set : meets t.pending (int_bit i) ≡ false =
        meets-nothing t.pending (int_bit i) (λ n lt. rw sign (high n)) in
      rw none_set refl
  | inr low ↦
      let j : i % 32 < 31 = ground arith in
      let same : int_bit i ≡ int_bit (i % 32) =
        let twice : i % 32 ≡ i % 32 % 32 = omega arith in
        ap {B = Bits} (λ (m : ℕ) (n : ℕ). if m == 31 then leb 31 n else n == m) twice in
      rw same (round_test-small t (i % 32) j ∙ h (i % 32) j)
]
  where
    high : (n : ℕ) → (t.pending n && leb 31 n) ≡ false
    high n = elim (Bool-cases (leb 31 n)) [
      | inl e ↦ rw (v.below n (ground arith)) refl
      | inr e ↦ rw e (ground arith)
    ]

scan-IsFirst :
    (rounds i : ℕ) (t : Task)
    → IsSmall t
    → 0 < i
    → i + rounds ≡ 64
    → ((n : ℕ) → n < 31 → n < i → deliverable t n ≡ false)
    → IsFirst t (scan rounds i t)
unfolding scan
scan-IsFirst zero i t v pos e before = nothing (λ n lt. before n lt (omega arith))
scan-IsFirst (suc rounds) i t v pos e before = elim (Bool-cases (round_test t i)) [
  | inl hit ↦ elim (Bool-cases (ltb i 31)) [
    | inl small ↦
        let lt : i < 31 = ground arith in
        rw hit
          (first i pos lt (sym (round_test-small t i lt) ∙ hit) (λ n h. before n (omega arith) h))
    | inr large ↦
        let ge : 31 ≤ i = ground arith in
        let miss = round_test-large t i v ge (omega arith) (λ n h. before n h (omega arith)) in
        absurd (cc)
  ]
  | inr miss ↦ rw miss (
      scan-IsFirst rounds (i + 1) t v (omega arith) (omega arith)
        (λ n h lt. at_most n h (omega arith) miss))
]
  where
    at_most : (n : ℕ) → n < 31 → n < suc i → round_test t i ≡ false → deliverable t n ≡ false
    at_most n h lt miss = elim (Bool-cases (n == i)) [
      | inl same ↦
          let eq : i ≡ n = ground arith in
          subst (λ k. deliverable t k ≡ false) eq (sym (round_test-small t i (omega arith)) ∙ miss)
      | inr other ↦ before n h (ground arith)
    ]

-- Whether the two signals that no task can block are pending, and which signal is next then.
pub data IsNext (t : Task) : ℕ → Type 0 where
  kill : t.pending sigkill ≡ true → IsNext t sigkill
  stop : t.pending sigkill ≡ false → t.pending sigstop ≡ true → IsNext t sigstop
  other : (r : ℕ) → t.pending sigkill ≡ false → t.pending sigstop ≡ false → IsFirst t r → IsNext t r

quiet-IsFirst : (t : Task) → task_signal_pending t ≡ false → IsFirst t 0
unfolding task_signal_pending
quiet-IsFirst t e =
    nothing (λ n h. meets_below-false 32 n t.pending (λ n. not (t.blocked n)) e (omega arith))

rest-IsFirst :
    (t : Task) → IsSmall t → IsFirst t (if not (task_signal_pending t) then 0 else scan 63 1 t)
rest-IsFirst t v = elim (Bool-cases (task_signal_pending t)) [
  | inr e ↦ rw e (quiet-IsFirst t e)
  | inl e ↦ rw e (scan-IsFirst 63 1 t v (omega arith) refl (λ n h lt. zero_only n (omega arith)))
]
  where
    zero_only : (n : ℕ) → n ≡ 0 → deliverable t n ≡ false
    zero_only n z = rw (z, v.no_zero) refl

choose-IsNext : (t : Task) → IsSmall t → IsNext t (choose t)
unfolding choose
choose-IsNext t v = elim (Bool-cases (t.pending sigkill)) [
  | inl e ↦ rw (meets-int_bit sigkill t.pending (omega arith), e) (kill e)
  | inr e ↦ elim (Bool-cases (t.pending sigstop)) [
    | inl f ↦
        rw
          (
            meets-int_bit sigkill t.pending (omega arith),
            e,
            meets-int_bit sigstop t.pending (omega arith),
            f,
          )
          (stop e f)
    | inr f ↦
        rw
          (
            meets-int_bit sigkill t.pending (omega arith),
            e,
            meets-int_bit sigstop t.pending (omega arith),
            f,
          )
          (other _ e f (rest-IsFirst t v))
  ]
]

IsNext-lt : (t : Task) (r : ℕ) → IsNext t r → r < 31
IsNext-lt t r (kill e) = omega arith
IsNext-lt t r (stop e f) = omega arith
IsNext-lt t r (other _ e f (nothing h)) = omega arith
IsNext-lt t r (other _ e f (first _ lo hi d b)) = hi

-- getPendingSignal, while only the signals 1 to 30 are pending, takes SIGKILL first and SIGSTOP second,
-- blocked or not, and then the lowest pending one that is not blocked, or 0 when there is none; the one
-- taken is pending no longer, and the others are as they were.
pub get_pending_signal_lem :
    (t : Task)
    → IsSmall t
    → IsNext t (get_pending_signal t).0
      × ((n : ℕ)
          → (get_pending_signal t).1.pending n
            ≡ (t.pending n && not (n == (get_pending_signal t).0)))
unfolding get_pending_signal
get_pending_signal_lem t v =
    let next = choose-IsNext t v in
    (next, λ n. rw (int_bit-small (choose t) n (IsNext-lt t (choose t) next)) refl)

low-task_signal_pending :
    (t : Task) → ((n : ℕ) → n < 32 → t.pending n ≡ false) → task_signal_pending t ≡ false
unfolding task_signal_pending
low-task_signal_pending t h =
    meets_below-nothing 32 t.pending (λ n. not (t.blocked n)) (λ n lt. rw (h n lt) refl)

lost-choose : (t : Task) → ((n : ℕ) → n < 32 → t.pending n ≡ false) → choose t ≡ 0
unfolding choose
lost-choose t h =
    let a = meets-int_bit sigkill t.pending (omega arith) in
    let b = meets-int_bit sigstop t.pending (omega arith) in
    rw (a, h sigkill (omega arith), b, h sigstop (omega arith), low-task_signal_pending t h) refl

-- A signal from 32 on that doKill accepts is never delivered: while no other signal is pending,
-- getPendingSignal finds nothing, and the signal stays pending.
pub do_kill-get_pending_signal :
    (sig : ℕ) (t : Task)
    → 32 ≤ sig
    → sig < 64
    → t.has_memory ≡ true
    → ((n : ℕ) → n < 64 → t.pending n ≡ false)
    → (t' : Task) × (w : Bool) × (do_kill sig (some t) ≡ (ok 0, some (t', w)))
      × ((get_pending_signal t').0 ≡ 0)
      × ((get_pending_signal t').1.pending sig ≡ true)
unfolding do_kill get_pending_signal
do_kill-get_pending_signal sig t lo hi m h =
    let t' : Task = record t { pending = union t.pending (λ n. n == sig) } in
    let in_range : leb 64 sig ≡ false = ground arith in
    let positive : (sig == 0) ≡ false = ground arith in
    let self : (sig == sig) ≡ true = ground arith in
    let idle : choose t' ≡ 0 = lost-choose t' (λ n lt. rw (h n (omega arith)) (ground arith)) in
    (
      t',
      (sig == sigcont) || (sig == sigkill),
      rw (in_range, m, positive) refl,
      idle,
      rw (idle, h sig hi, self, positive) refl,
    )
