-- ===== src/Video/Terminal/Reading.antt =====
-- What ttyRead writes into the reader's buffer.
use docqos_old.Base.{
  ℕ, ◌+◌, ◌-◌, ◌%◌, ◌^◌, ◌≤◌, ◌<◌, ◌≡◌, refl, ap, ◌⊎◌, inl, inr, true, false, not, ◌&&◌, ◌||◌,
  Option, none, some, List, [], ◌∷◌, ◌++◌, ◌∙◌, if◌then◌else◌, arith, ◌==◌, Bool-cases,
}
use docqos_old.Video.Terminal.{
  Reader, put, took, take, Outcome, finished, interrupted, waiting, read_loop, tty_read,
}

-- Nothing is written from `size` on.
abbrev pub Within : ℕ → (ℕ → Option ℕ) → Type 0
Within size b = (q : ℕ) → size ≤ q → b q ≡ none

-- How many characters a line has after one more: a tab and the end of the input add none, a backspace takes
-- one away.
abbrev pub kept : ℕ → ℕ → ℕ
kept c n = if (c == 9) || (c == 0) then n else if c == 8 then n - 1 else n + 1

-- How many are left of a line of `n` characters and those that are typed then.
abbrev pub typed : ℕ → List (Option ℕ) → ℕ
typed n [] = n
typed n (none ∷ chars) = typed n chars
typed n (some c ∷ chars) = typed (kept c n) chars

-- The input has its end, which is a 0, at a place where nothing is left of the line.
pub record IsOver (n : ℕ) (chars : List (Option ℕ)) : Type 0 where
  pub before : List (Option ℕ)
  pub after : List (Option ℕ)
  pub there : chars ≡ before ++ (some 0 ∷ after)
  pub nothing_left : typed n before ≡ 0

-- A line of `n` characters that ends with a line feed and a zero.
abbrev pub IsLine : (size n : ℕ) → (ℕ → Option ℕ) → Type 0
IsLine size n b = (n < size) × (b (n - 1) ≡ some 10) × (b n ≡ some 0)

-- What a read of `chars` leaves in the buffer, when the line has `count` characters before: nothing behind the
-- buffer, and a line, or the length 0 when the input is over.
abbrev pub Fits : (size count : ℕ) → List (Option ℕ) → Outcome → Type 0
Fits size count chars (finished n b) =
    Within size b × (((n ≡ 0) × IsOver count chars) ⊎ IsLine size n b)
Fits size count chars (interrupted b) = Within size b
Fits size count chars (waiting r) = Within size r.buffer

Fits-more :
    (size c n m : ℕ) (chars : List (Option ℕ)) (o : Outcome)
    → kept c n ≡ m
    → Fits size m chars o
    → Fits size n (some c ∷ chars) o
Fits-more size c n m chars (finished k b) e (w, inl (z, v)) = (
  w,
  inl (
    z,
    record {
      before = some c ∷ v.before;
      after = v.after;
      there = ap (λ (cs : List (Option ℕ)). some c ∷ cs) v.there;
      nothing_left = ap (λ k. typed k v.before) e ∙ v.nothing_left;
    },
  ),
)
Fits-more size c n m chars (finished k b) e (w, inr line) = (w, inr line)
Fits-more size c n m chars (interrupted b) e w = w
Fits-more size c n m chars (waiting r) e w = w

-- The loop's invariant.
record IsReading (size : ℕ) (r : Reader) : Type 0 where
  room : 3 ≤ r.left
  sum : r.left + r.count ≡ size
  at : r.place ≡ r.count
  within : Within size r.buffer

took-place : (c : ℕ) (r : Reader) → (took c r).place ≡ r.place + 1
unfolding took put
took-place c r = refl

take-plain : (c : ℕ) (r : Reader) → (c == 10) ≡ true → take c r ≡ took c r
unfolding take
take-plain c r e =
    let test : (((took c r).left == 2) && not (c == 10)) ≡ false = ground (arith, e) in
    rw (test, take) refl

take-added :
    (c : ℕ) (r : Reader)
    → (c == 10) ≡ false
    → ((took c r).left == 2) ≡ true
    → take c r ≡ put 10 (record (took c r) { count = ((took c r).count + 1) % 2 ^ 32 })
unfolding take
take-added c r e full = rw (full, e, take) refl

module _ (size : ℕ) (small : size < 2 ^ 32) where
  took-IsTaken :
      (c : ℕ) (r : Reader)
      → IsReading size r
      → ((took c r).left ≡ r.left - 1) × ((took c r).count ≡ r.count + 1)
  unfolding took put
  took-IsTaken c r v = (omega (arith, v.room, v.sum), omega (arith, v.room, v.sum))

  take-left : (c : ℕ) (r : Reader) → (take c r).left ≡ (took c r).left
  unfolding take put
  take-left c r = elim (Bool-cases (((took c r).left == 2) && not (c == 10))) [
    | inl e ↦ rw (e, take) refl
    | inr e ↦ rw (e, take) refl
  ]

  took-Within : (c : ℕ) (r : Reader) → IsReading size r → Within size (took c r).buffer
  unfolding took put
  took-Within c r v q h =
      let off : (q == r.place) ≡ false = ground (arith, v.at, v.room, v.sum) in
      rw off (v.within q h)

  -- A character that does not end the line.
  take-IsReading :
      (c : ℕ) (r : Reader)
      → IsReading size r
      → ((take c r).left == 2) ≡ false
      → IsReading size (take c r)
  unfolding take
  take-IsReading c r v more =
      let t = took-IsTaken c r v in
      let on : ((took c r).left == 2) ≡ false = rw (take-left c r) at more in
      rw on (record {
        room = ground (arith, on, t.0, v.room);
        sum = omega (arith, t.0, t.1, v.room, v.sum);
        at = omega (arith, took-place c r, t.1, v.at);
        within = took-Within c r v;
      })

  -- The zero behind a line that ends with a line feed.
  put-IsLine :
      (n : ℕ) (r : Reader)
      → r.place ≡ n
      → n < size
      → 0 < n
      → r.buffer (n - 1) ≡ some 10
      → Within size r.buffer
      → Within size (put 0 r).buffer × IsLine size n (put 0 r).buffer
  unfolding put
  put-IsLine n r at lt pos ends w =
      let here : (n == r.place) ≡ true = ground (arith, at) in
      let before : (n - 1 == r.place) ≡ false = ground (arith, at) in
      ((λ q h. rw (beyond q h) (w q h)), (lt, rw before ends, rw here refl))
    where
      beyond : (q : ℕ) → size ≤ q → (q == r.place) ≡ false
      beyond q h = ground (arith, at)

  put-newline_IsLine :
      (r : Reader) (n : ℕ)
      → r.place + 1 ≡ n
      → n < size
      → Within size r.buffer
      → Within size (put 0 (put 10 r)).buffer × IsLine size n (put 0 (put 10 r)).buffer
  unfolding put
  put-newline_IsLine r n at lt w =
      let here : (n - 1 == r.place) ≡ true = ground (arith, at) in
      put-IsLine n (put 10 r) at lt (omega (arith, at)) (rw here refl)
        (λ q h. rw (beyond q h) (w q h))
    where
      beyond : (q : ℕ) → size ≤ q → (q == r.place) ≡ false
      beyond q h = ground (arith, at)

  took-newline :
      (c : ℕ) (r : Reader)
      → c ≡ 10
      → IsReading size r
      → (took c r).buffer ((took c r).count - 1) ≡ some 10
  unfolding took put
  took-newline c r e v =
      let t = took-IsTaken c r v in
      let here : ((took c r).count - 1 == r.place) ≡ true = ground (arith, t.1, v.at) in
      rw here (ap some e)

  take-IsLine :
      (c : ℕ) (r : Reader)
      → IsReading size r
      → (((take c r).left == 2) || (c == 10)) ≡ true
      → Within size (put 0 (take c r)).buffer
        × IsLine size (take c r).count (put 0 (take c r)).buffer
  unfolding put
  take-IsLine c r v last =
      let t = took-IsTaken c r v in
      elim (Bool-cases (c == 10)) [
        | inl e ↦
            let same : take c r ≡ took c r = take-plain c r e in
            rw same (
              put-IsLine (took c r).count (took c r) (omega (arith, took-place c r, t.1, v.at))
                (omega (arith, t.1, v.room, v.sum)) (omega (arith, t.1))
                (took-newline c r (ground arith) v) (took-Within c r v))
        | inr e ↦
            let full : ((took c r).left == 2) ≡ true = ground (arith, last, e, take-left c r) in
            let same = take-added c r e full in
            let n : ((took c r).count + 1) % 2 ^ 32 ≡ (took c r).count + 1 =
              omega (arith, t.1, v.room, v.sum) in
            rw (same, n)
              (put-newline_IsLine (record (took c r) { count = (took c r).count + 1 })
                ((took c r).count + 1) (omega (arith, took-place c r, t.1, v.at))
                (ground (arith, full, t.0, t.1, v.room, v.sum)) (took-Within c r v))
      ]

  read_loop-Fits :
      (chars : List (Option ℕ)) (r : Reader)
      → IsReading size r
      → Fits size r.count chars (read_loop chars r)
  unfolding read_loop
  read_loop-Fits [] r v = v.within
  read_loop-Fits (none ∷ more) r v = v.within
  read_loop-Fits (some c ∷ more) r v = elim (Bool-cases (c == 9)) [
    | inl e ↦
        let same : kept c r.count ≡ r.count = ground (arith, e) in
        rw e
          (Fits-more size c r.count r.count more (read_loop more r) same (read_loop-Fits more r v))
    | inr a ↦ elim (Bool-cases (c == 0)) [
      | inl e ↦ elim (Bool-cases (r.count == 0)) [
        | inl f ↦
            let end : c ≡ 0 = ground (arith, e) in
            rw (a, e, f)
              (
                v.within,
                inl (
                  refl,
                  record {
                    before = [];
                    after = more;
                    there = ap (λ k. some k ∷ more) end;
                    nothing_left = ground (arith, f);
                  },
                ),
              )
        | inr f ↦
            let same : kept c r.count ≡ r.count = ground (arith, e) in
            rw (a, e, f)
              (Fits-more size c r.count r.count more (read_loop more r) same
                (read_loop-Fits more r v))
      ]
      | inr b ↦ elim (Bool-cases (c == 8)) [
        | inl e ↦ elim (Bool-cases (r.count == 0)) [
          | inl f ↦
              let same : kept c r.count ≡ r.count = ground (arith, a, b, e, f) in
              rw (a, b, e, f)
                (Fits-more size c r.count r.count more (read_loop more r) same
                  (read_loop-Fits more r v))
          | inr f ↦
              let same : kept c r.count ≡ r.count - 1 = ground (arith, a, b, e) in
              rw (a, b, e, f)
                (Fits-more size c r.count (r.count - 1) more _ same (
                  read_loop-Fits more
                    (record r {
                      left = (r.left + 1) % 2 ^ 64;
                      count = r.count - 1;
                      place = r.place - 1;
                    })
                    (record {
                      room = omega (arith, v.room, v.sum);
                      sum = ground (arith, v.sum);
                      at = omega (arith, v.at);
                      within = v.within;
                    })))
        ]
        | inr d ↦ elim (Bool-cases (((take c r).left == 2) || (c == 10))) [
          | inl e ↦ let t = take-IsLine c r v e in rw (a, b, d, e) (t.0, inr t.1)
          | inr e ↦
              let v' = take-IsReading c r v (ground (arith, e)) in
              let same : kept c r.count ≡ (take c r).count =
                ground
                  (arith, a, b, d, v.sum, v'.sum, take-left c r, (took-IsTaken c r v).0, v.room) in
              rw (a, b, d, e)
                (Fits-more size c r.count (take c r).count more (read_loop more (take c r)) same
                  (read_loop-Fits more (take c r) v'))
        ]
      ]
    ]
  ]

-- ttyRead into a buffer of 3 to 2 ^ 32 - 1 bytes writes nothing behind it, whatever is typed, erased or
-- interrupted. When it returns a line, that ends with a line feed and a zero, and its length counts the line
-- feed. It returns 0 only when the input has its end at a place where nothing is left of the line, by a count
-- of what is typed and erased before.
pub tty_read-Fits :
    (size : ℕ) (chars : List (Option ℕ))
    → 3 ≤ size
    → size < 2 ^ 32
    → Fits size 0 chars (tty_read size chars)
unfolding tty_read
tty_read-Fits size chars h small =
    let a : (size == 1) ≡ false = ground arith in
    let b : (size == 0) ≡ false = ground arith in
    rw (a, b)
      (read_loop-Fits size small chars _
        (record { room = h; sum = omega arith; at = refl; within = λ q lt. refl }))
