-- ===== src/Filesystem/Iso9660/Reads/Copies.antt =====
-- What a read of a file leaves in user memory.
use mathlib.Core.Option.{none-ne-some}
use docqos_old.Base.{
  ℕ, zero, suc, ◌+◌, ◌-◌, ◌/◌, ◌%◌, ◌^◌, ◌≤◌, ◌<◌, ◌≡◌, refl, ◌≢◌, ap, sym, ◌∙◌, ◌⊎◌, inl, inr,
  Bool, true, false, Option, none, some, arith, ltb, leb, ◌==◌, Bool-cases, Option-cases,
}
use docqos_old.Base.Errno.{Ret, ok, err}
use docqos_old.Filesystem.Iso9660.Reads.{
  page_size, Inode, Read, copy, piece, advance, read_pages, cut, iso_read,
}

module _ (inode : Inode) (writable : ℕ → ℕ → Bool) (buf : ℕ) where
  -- The loop ends before the bytes it is given are used up.
  read_pages-ends :
      (fuel : ℕ) (r : Read) → r.left < fuel → read_pages fuel inode writable buf r ≢ none
  unfolding read_pages advance
  read_pages-ends zero r h = absurd (omega (arith, h))
  read_pages-ends (suc fuel) r h = elim (Bool-cases (r.left == 0)) [
    | inl e ↦ rw e (λ x. none-ne-some _ (sym x))
    | inr e ↦ elim (Option-cases (inode.pages (r.seek / page_size))) [
      | inl n ↦ rw (e, n) (λ x. none-ne-some _ (sym x))
      | inr (bytes, p) ↦ elim (Bool-cases (writable buf (piece r))) [
        | inl w ↦
            rw (e, p, w)
              (read_pages-ends fuel (advance buf bytes r) (shorter bytes (ground (arith, e))))
        | inr w ↦ rw (e, p, w) (λ x. none-ne-some _ (sym x))
      ]
    ]
  ]
    where
      shorter : (bytes : ℕ → ℕ) → 0 < r.left → r.left - piece r < fuel
      shorter bytes pos = ground (arith, h)

  -- The bytes of user memory from a page's length behind the buffer's start on are as they were.
  IsKept : (ℕ → ℕ) → Read → Type 0
  IsKept user r = (q : ℕ) → page_size ≤ q → r.user (buf + q) ≡ user (buf + q)

  record IsGoing (seek total : ℕ) (user : ℕ → ℕ) (r : Read) : Type 0 where
    at : r.seek ≡ seek + r.done
    rest : r.done + r.left ≡ total
    put_back : r.held ≡ 0
    kept : IsKept user r

  -- What a read of `total` bytes ends with: all of them, but for an error.
  Ends : ℕ → ℕ → (ℕ → ℕ) → Option (Ret × Read) → Type 0
  Ends seek total user none = ⊥
  Ends seek total user (some (ok n, r)) =
      (n ≡ total % 2 ^ 32) × (r.seek ≡ seek + total) × (r.held ≡ 0) × IsKept user r
  Ends seek total user (some (err e, r)) = IsKept user r

  copy-outside :
      (bytes user : ℕ → ℕ) (n q : ℕ)
      → n ≤ page_size
      → page_size ≤ q
      → copy buf bytes n user (buf + q) ≡ user (buf + q)
  copy-outside bytes user n q h l =
      let out : ltb (buf + q) (buf + n) ≡ false = ground (arith, h, l) in
      let below : leb buf (buf + q) ≡ true = ground arith in rw (out, below) refl

  advance-IsGoing :
      (seek total : ℕ) (user bytes : ℕ → ℕ) (r : Read)
      → IsGoing seek total user r
      → IsGoing seek total user (advance buf bytes r)
  unfolding advance IsKept
  advance-IsGoing seek total user bytes r v =
      let small : piece r ≤ r.left = ground arith in
      let fits : piece r ≤ page_size = ground arith in
      record {
        at = omega (arith, v.at);
        rest = omega (arith, v.rest, small);
        put_back = v.put_back;
        kept = λ q h.
            copy-outside (λ i. bytes (r.seek % page_size + i)) r.user (piece r) q fits h
            ∙ v.kept q h;
      }

  read_pages-Ends :
      (fuel seek total : ℕ) (user : ℕ → ℕ) (r : Read)
      → IsGoing seek total user r
      → r.left < fuel
      → Ends seek total user (read_pages fuel inode writable buf r)
  unfolding read_pages IsKept Ends
  read_pages-Ends zero seek total user r v enough = absurd (omega (arith, enough))
  read_pages-Ends (suc fuel) seek total user r v enough = elim (Bool-cases (r.left == 0)) [
    | inl e ↦
        let all : r.done ≡ total = ground (arith, e, v.rest) in
        rw e (ap (λ k. k % 2 ^ 32) all, omega (arith, all, v.at), v.put_back, v.kept)
    | inr e ↦ elim (Option-cases (inode.pages (r.seek / page_size))) [
      | inl n ↦ rw (e, n) v.kept
      | inr (bytes, p) ↦ elim (Bool-cases (writable buf (piece r))) [
        | inl w ↦
            rw (e, p, w)
              (read_pages-Ends fuel seek total user (advance buf bytes r)
                (advance-IsGoing seek total user bytes r v) (shorter bytes (ground (arith, e))))
        | inr w ↦ rw (e, p, w) v.kept
      ]
    ]
  ]
    where
      shorter : (bytes : ℕ → ℕ) → 0 < r.left → r.left - piece r < fuel
      shorter bytes pos = ground (arith, enough)

  -- The first round, when the bytes are in one page.
  read_pages-page :
      (fuel size : ℕ) (bytes : ℕ → ℕ) (r : Read)
      → r.left ≡ size
      → 0 < size
      → r.seek % page_size + size ≤ page_size
      → inode.pages (r.seek / page_size) ≡ some bytes
      → writable buf size ≡ true
      → (s : Read) × (read_pages (suc (suc fuel)) inode writable buf r
          ≡ some (ok ((r.done + size) % 2 ^ 32), s))
        × ((q : ℕ) → q < size → s.user (buf + q) ≡ bytes (r.seek % page_size + q))
  unfolding read_pages advance
  read_pages-page fuel size bytes r left pos fits p w =
      let e : (r.left == 0) ≡ false = ground (arith, left, pos) in
      let n : piece r ≡ size = ground (arith, left, fits) in
      let f : (r.left - size == 0) ≡ true = ground (arith, left) in
      let ok_w : writable buf (piece r) ≡ true = ap (writable buf) n ∙ w in
      let last : ((advance buf bytes r).left == 0) ≡ true = ground (arith, left, n) in
      let sum : r.done + piece r ≡ r.done + size = ap (λ k. r.done + k) n in
      (
        advance buf bytes r,
        rw (e, p, ok_w, last) (ap (λ k. some (ok (k % 2 ^ 32), advance buf bytes r)) sum),
        λ q h. copied q (omega (arith, h, n)),
      )
    where
      copied :
          (q : ℕ)
          → q < piece r
          → copy buf (λ i. bytes (r.seek % page_size + i)) (piece r) r.user (buf + q)
            ≡ bytes (r.seek % page_size + q)
      copied q h =
          let lo : leb buf (buf + q) ≡ true = ground arith in
          let hi : ltb (buf + q) (buf + piece r) ≡ true = ground (arith, h) in
          let i : buf + q - buf ≡ q = omega arith in rw (lo, hi, i) refl

module _ (inode : Inode) (writable : ℕ → ℕ → Bool) (buf size seek : ℕ) (user : ℕ → ℕ) where
  -- iso9660Read, with fuel for its bytes, always returns.
  pub iso_read-ends :
      (fuel : ℕ) → size < fuel → iso_read fuel inode writable buf size seek user ≢ none
  unfolding iso_read
  iso_read-ends fuel h = elim (Bool-cases (ltb ((seek + size) % 2 ^ 64) seek)) [
    | inl a ↦ rw a (λ x. none-ne-some _ (sym x))
    | inr a ↦ elim (Bool-cases (leb inode.size seek)) [
      | inl b ↦ rw (a, b) (λ x. none-ne-some _ (sym x))
      | inr b ↦ elim (Bool-cases (cut inode size seek == 0)) [
        | inl c ↦ rw (a, b, c) (λ x. none-ne-some _ (sym x))
        | inr c ↦
            rw (a, b, c) (read_pages-ends inode writable buf fuel _ (less (ground (arith, a, b))))
      ]
    ]
  ]
    where
      less : seek < inode.size → cut inode size seek < fuel
      less lt = ground (arith, h)

  -- What iso9660Read leaves, by its result.
  pub Leaves : Option (Ret × Read) → Type 0
  Leaves none = ⊥
  Leaves (some (ok n, r)) =
      ((n ≡ 0) ⊎ (seek + n < inode.size))
      × (r.seek ≡ seek + n)
      × (r.held ≡ 0)
      × ((q : ℕ) → page_size ≤ q → r.user (buf + q) ≡ user (buf + q))
  Leaves (some (err e, r)) = (q : ℕ) → page_size ≤ q → r.user (buf + q) ≡ user (buf + q)

  Ends-Leaves :
      (total : ℕ) (o : Option (Ret × Read))
      → seek + total < inode.size
      → inode.size < 2 ^ 31
      → Ends inode writable buf seek total user o
      → Leaves o
  unfolding Ends IsKept Leaves
  Ends-Leaves total none h small v = v
  Ends-Leaves total (some (ok n, r)) h small (e, at, held, kept) =
      let same : n ≡ total = omega (arith, e, h, small) in
      (inr (omega (arith, same, h)), omega (arith, same, at), held, kept)
  Ends-Leaves total (some (err e, r)) h small v = v

  -- Whatever iso9660Read is asked for of a file shorter than 2 ^ 31 bytes, with fuel for the size it returns,
  -- never gives the last byte of the file, and leaves user memory from the buffer's byte 4096 on as it
  -- was. When it succeeds, `*seek` has moved by its result and all
  -- pages are put back.
  pub iso_read-Leaves :
      (fuel : ℕ)
      → size < fuel
      → inode.size < 2 ^ 31
      → Leaves (iso_read fuel inode writable buf size seek user)
  unfolding iso_read Leaves IsKept
  iso_read-Leaves fuel enough small = elim (Bool-cases (ltb ((seek + size) % 2 ^ 64) seek)) [
    | inl a ↦ rw a (λ q h. refl)
    | inr a ↦ elim (Bool-cases (leb inode.size seek)) [
      | inl b ↦ rw (a, b) (inl refl, omega arith, refl, (λ q h. refl))
      | inr b ↦ elim (Bool-cases (cut inode size seek == 0)) [
        | inl c ↦ rw (a, b, c) (inl refl, omega arith, refl, (λ q h. refl))
        | inr c ↦
            let start : Read = record {
              seek = seek;
              left = cut inode size seek;
              done = 0;
              user = user;
              held = 0;
            } in
            rw (a, b, c)
              (Ends-Leaves (cut inode size seek) _ (inside (ground (arith, b))) small (
                read_pages-Ends inode writable buf fuel seek (cut inode size seek) user start
                  (record {
                    at = omega arith;
                    rest = omega arith;
                    put_back = refl;
                    kept = λ q h. refl;
                  })
                  (less (ground (arith, b)))))
      ]
    ]
  ]
    where
      less : seek < inode.size → cut inode size seek < fuel
      less lt = ground (arith, enough)

      inside : seek < inode.size → seek + cut inode size seek < inode.size
      inside lt = ground (arith, lt)

  open_read :
      (fuel : ℕ)
      → ltb ((seek + size) % 2 ^ 64) seek ≡ false
      → leb inode.size seek ≡ false
      → (cut inode size seek == 0) ≡ false
      → iso_read fuel inode writable buf size seek user
        ≡ read_pages fuel inode writable buf
            (record { seek = seek; left = cut inode size seek; done = 0; user = user; held = 0 })
  unfolding iso_read
  open_read fuel a b d = rw (a, b, d) refl

  -- A read of at least a byte inside of a page that the cache gives, before the last byte of the file,
  -- into a buffer that can be written, returns its size and copies what was asked for.
  pub iso_read-page :
      (fuel : ℕ) (bytes : ℕ → ℕ)
      → 0 < size
      → seek + size < inode.size
      → inode.size < 2 ^ 64
      → seek % page_size + size ≤ page_size
      → inode.pages (seek / page_size) ≡ some bytes
      → writable buf size ≡ true
      → (s : Read) × (iso_read (suc (suc fuel)) inode writable buf size seek user
          ≡ some (ok size, s))
        × ((q : ℕ) → q < size → s.user (buf + q) ≡ bytes (seek % page_size + q))
  iso_read-page fuel bytes pos h small fits p w =
      let a : ltb ((seek + size) % 2 ^ 64) seek ≡ false = ground (arith, h, small) in
      let b : leb inode.size seek ≡ false = ground (arith, h) in
      let c : cut inode size seek ≡ size = ground (arith, h) in
      let d : (cut inode size seek == 0) ≡ false = ground (arith, pos, c) in
      let start : Read = record {
        seek = seek;
        left = cut inode size seek;
        done = 0;
        user = user;
        held = 0;
      } in
      let t = read_pages-page inode writable buf fuel size bytes start c pos fits p w in
      let n : (0 + size) % 2 ^ 32 ≡ size = omega (arith, fits) in
      (t.0, open_read (suc (suc fuel)) a b d ∙ t.1 ∙ ap (λ k. some (ok k, t.0)) n, t.2)
