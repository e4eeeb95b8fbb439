-- ===== src/Strings/Memory.antt =====
-- memset and memcmp of src/lib/string.c, on memory as a function of the address. A pointer does not wrap
-- around in them, and a word is stored with its lowest byte first.
pub mod Filling
pub mod Comparing
mod Tests
use docqos_old.Base.{
  ℕ, zero, suc, ◌+◌, ◌-◌, ◌*◌, ◌/◌, ◌%◌, ◌^◌, Bool, true, false, ltb, leb, ◌==◌, if◌then◌else◌,
}
use docqos_old.Base.Int.{ℤ, pos, sub_ℕ}

abbrev pub Bytes : Type 0
Bytes = ℕ → ℕ

abbrev pub store : ℕ → ℕ → Bytes → Bytes
store p v m q = if q == p then v else m q

-- The lowest `n` bytes of a word.
pub store_word : ℕ → ℕ → ℕ → Bytes → Bytes
store_word zero p w m = m
store_word (suc n) p w m = store_word n (p + 1) (w / 256) (store p (w % 256) m)

-- The three steps that spread a byte over a word; what is joined by `|` has no bit in common.
abbrev pub spread : ℕ → ℕ
spread c = let w = c + c * 2 ^ 8 in let w' = w + w * 2 ^ 16 in w' + w' * 2 ^ 32

-- `mem`, `len` and the memory, between the loops.
pub record Cursor : Type 0 where
  pub at : ℕ
  pub left : ℕ
  pub bytes : Bytes

abbrev pub put_byte : ℕ → Cursor → Cursor
put_byte c s = record { at = s.at + 1; left = s.left - 1; bytes = store s.at c s.bytes }

-- The loop up to an address that 8 divides, with fuel.
pub align : ℕ → ℕ → Cursor → Cursor
align c zero s = s
align c (suc fuel) s = let on = align c fuel (put_byte c s) in if s.at % 8 == 0 then s else on

-- `mem64[0] = ... = mem64[7] = fill`, from the last one to the first.
pub store_line : ℕ → ℕ → ℕ → Bytes → Bytes
unfolding store_word
store_line zero p w m = m
store_line (suc n) p w m = store_line n p w (store_word 8 (p + 8 * n) w m)

-- The loop over lines of eight words, with its rounds.
pub fill_lines : ℕ → ℕ → ℕ → Bytes → Bytes
unfolding store_line
fill_lines zero p w m = m
fill_lines (suc n) p w m = fill_lines n (p + 64) w (store_line 8 p w m)

-- The loop over words.
pub fill_words : ℕ → ℕ → ℕ → Bytes → Bytes
unfolding store_word
fill_words zero p w m = m
fill_words (suc n) p w m = fill_words n (p + 8) w (store_word 8 p w m)

-- The loop over bytes.
pub fill_bytes : ℕ → ℕ → ℕ → Bytes → Bytes
fill_bytes zero p c m = m
fill_bytes (suc n) p c m = fill_bytes n (p + 1) c (store p c m)

-- The part for eight bytes and more.
pub fill_wide : ℕ → Cursor → Cursor
unfolding align fill_lines fill_words
fill_wide c s =
    let w = spread c in
    let a : Cursor = align c 8 s in
    let lines = a.left / 64 in
    let words = a.left % 64 / 8 in
    record {
      at = a.at + 64 * lines + 8 * words;
      left = a.left % 64 % 8;
      bytes = fill_words words (a.at + 64 * lines) w (fill_lines lines a.at w a.bytes);
    }

-- `memset`: what it returns, and the memory.
pub memset : ℕ → ℕ → ℕ → Bytes → ℕ × Bytes
unfolding fill_wide fill_bytes
memset mem c len m =
    let start : Cursor = record { at = mem; left = len; bytes = m } in
    let s : Cursor = if leb 8 len then fill_wide c start else start in
    (s.at + s.left, fill_bytes s.left s.at c s.bytes)

-- The loop of memcmp, with the bytes that are left.
pub compare_loop : ℕ → ℕ → ℕ → Bytes → ℤ
compare_loop zero p q m = pos 0
compare_loop (suc n) p q m =
    let rest = compare_loop n (p + 1) (q + 1) m in
    if m p == m q then (if n == 0 then sub_ℕ (m p) (m q) else rest) else sub_ℕ (m p) (m q)

-- `memcmp`, of a length that is not negative.
pub memcmp : ℕ → ℕ → ℕ → Bytes → ℤ
unfolding compare_loop
memcmp p q n m = if n == 0 then pos 0 else compare_loop n p q m
