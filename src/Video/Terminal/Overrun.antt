-- ===== src/Video/Terminal/Overrun.antt =====
-- A read of the terminal into a buffer of two bytes.
use docqos_old.Base.{
  ℕ, suc, ◌+◌, ◌%◌, ◌^◌, ◌≤◌, ◌<◌, ◌≡◌, refl, ap, sym, ◌∙◌, true, false, Option, none, some, List,
  [], ◌∷◌, ◌++◌, arith, ◌==◌, All, map, length,
}
use docqos_old.Video.Terminal.{Reader, put, took, take, finished, read_loop, tty_read}

-- A character that ttyRead puts into the line as it is.
abbrev pub IsPlain : ℕ → Type 0
IsPlain c = 32 ≤ c

-- A read of two bytes, on its way: `left` will not be 2 again.
record IsOverrunning (r : Reader) : Type 0 where
  at : r.place ≡ r.count
  sum : (r.left + r.count) % 2 ^ 64 ≡ 2
  left_in : r.left < 2 ^ 64
  few : r.count + 1 < 2 ^ 31

overrun-left : (c : ℕ) (r : Reader) → IsOverrunning r → ((took c r).left == 2) ≡ false
unfolding took put
overrun-left c r v = ground (arith, v.sum, v.left_in, v.few)

overrun-take : (c : ℕ) (r : Reader) → IsOverrunning r → take c r ≡ took c r
unfolding take
overrun-take c r v = rw (overrun-left c r v, take) refl

took-IsOverrunning :
    (c : ℕ) (r : Reader)
    → IsOverrunning r
    → r.count + 2 < 2 ^ 31
    → IsOverrunning (took c r) × ((took c r).count ≡ r.count + 1)
unfolding took put
took-IsOverrunning c r v more =
    let n : (r.count + 1) % 2 ^ 32 ≡ r.count + 1 = omega (arith, more) in
    (
      record {
        at = omega (arith, v.at, n);
        sum = omega (arith, v.sum, v.left_in, n);
        left_in = omega arith;
        few = omega (arith, n, more);
      },
      n,
    )

took-ends :
    (r : Reader)
    → IsOverrunning r
    → ((took 10 r).count ≡ r.count + 1) × ((put 0 (took 10 r)).buffer (r.count + 1) ≡ some 0)
unfolding took put
took-ends r v =
    let here : (r.count + 1 == r.place + 1) ≡ true = ground (arith, v.at) in
    (omega (arith, v.few), rw here refl)

read_loop-overrun :
    (text : List ℕ) (r : Reader)
    → All IsPlain text
    → IsOverrunning r
    → r.count + length text + 1 < 2 ^ 31
    → (b : ℕ → Option ℕ) × (read_loop (map some text ++ (some 10 ∷ [])) r
        ≡ finished (r.count + length text + 1) b)
      × (b (r.count + length text + 1) ≡ some 0)
unfolding read_loop
read_loop-overrun [] r plain v few =
    let e = took-ends r v in
    let n : (took 10 r).count ≡ r.count + length text0 + 1 = omega (arith, e.0) in
    let back : r.count + length text0 + 1 ≡ r.count + 1 = omega arith in
    (
      (put 0 (took 10 r)).buffer,
      rw (overrun-take 10 r v, overrun-left 10 r v)
          (ap (λ k. finished k (put 0 (took 10 r)).buffer) n),
      ap (put 0 (took 10 r)).buffer back ∙ e.1,
    )
  where
    text0 : List ℕ
    text0 = []
read_loop-overrun (c ∷ text) r plain v few =
    let t = took-IsOverrunning c r v (omega (arith, few)) in
    let rest = read_loop-overrun text (took c r) plain.1 t.0 (omega (arith, few, t.1)) in
    let n : (took c r).count + length text + 1 ≡ r.count + suc (length text) + 1 =
      omega (arith, t.1) in
    let a : (c == 9) ≡ false = ground (arith, plain.0) in
    let b : (c == 0) ≡ false = ground (arith, plain.0) in
    let d : (c == 8) ≡ false = ground (arith, plain.0) in
    let e : (c == 10) ≡ false = ground (arith, plain.0) in
    (
      rest.0,
      rw (a, b, d, e, overrun-take c r v, overrun-left c r v)
          (rest.1 ∙ ap (λ k. finished k rest.0) n),
      rw n at rest.2,
    )

-- ttyRead into a buffer of two bytes does not stop there: of a line of fewer than 2 ^ 30 characters,
-- none of them a control character, it writes all, with the line feed and a zero behind them.
pub tty_read-overrun :
    (text : List ℕ)
    → All IsPlain text
    → length text < 2 ^ 30
    → (b : ℕ → Option ℕ) × (tty_read 2 (map some text ++ (some 10 ∷ []))
        ≡ finished (length text + 1) b)
      × (b (length text + 1) ≡ some 0)
unfolding tty_read
tty_read-overrun text plain few =
    let start : Reader = record { left = 2; count = 0; place = 0; buffer = λ q. none } in
    let v : IsOverrunning start = record {
      at = refl;
      sum = refl;
      left_in = omega arith;
      few = omega arith;
    } in
    let t = read_loop-overrun text start plain v (omega (arith, few)) in
    let n : 0 + length text + 1 ≡ length text + 1 = omega arith in
    (t.0, t.1 ∙ ap (λ k. finished k t.0) n, ap t.0 (sym n) ∙ t.2)
