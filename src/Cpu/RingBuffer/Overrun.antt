-- ===== src/Cpu/RingBuffer/Overrun.antt =====
-- What `outRingBuffer` does to a full ring: it drops the oldest word, except where `reader` stands
-- at the last word of the storage, which leaves `reader` past the end.
use docqos_old.Base.{
  ℕ, ◌+◌, ◌/◌, ◌%◌, ◌≡◌, ◌≢◌, none, List, [], ◌∷◌, ◌++◌, arith, ap, length, get_or, set, length-set,
  get_elem?-none,
}
use mathlib.Core.Path.{ap₂, ◌∙◌, sym}
use docqos_old.Cpu.RingBuffer.{Ring, out_ring_buffer, take_word, Wake, word, in_ring_buffer}
use docqos_old.Cpu.RingBuffer.Fifo.{
  IsValid, words, held, contents, words-set, words-suc, next_writer_lem, in-ready,
}

words_at : (buf : List ℕ) (h h' n n' : ℕ) → h ≡ h' → n ≡ n' → words buf h n ≡ words buf h' n'
words_at buf h h' n n' p q = ap₂ (words buf) p q

module _ (r : Ring) (c : ℕ) (v : IsValid r) (h : held r ≡ 1023) (ne : r.reader ≢ 4092) where
  full_moves :
      let r' = (out_ring_buffer r c).0 in
      (r'.size ≡ 4096)
      × (r'.reader ≡ r.reader + 4)
      × (r'.writer ≡ r.reader)
      × (r'.buffer ≡ set r.buffer (r.writer / 4) c)
  unfolding out_ring_buffer
  full_moves = ground (arith, next_writer_lem r v)

  full-IsValid : IsValid (out_ring_buffer r c).0
  full-IsValid = ground (arith, full_moves, length-set r.buffer (r.writer / 4) c)

  full_words :
      contents (out_ring_buffer r c).0
      ≡ words (set r.buffer (r.writer / 4) c) (r.reader / 4 + 1) 1023
  full_words =
      let m = full_moves in
      rw (m.1, m.2, m.3)
        (words_at (set r.buffer (r.writer / 4) c) _ (r.reader / 4 + 1) _ 1023 (omega arith)
          (omega arith))

  -- `outRingBuffer` into a valid full ring drops the oldest word and appends the new one, unless `reader`
  -- is at the storage's last word.
  pub out-full :
      (x : ℕ) (xs : List ℕ)
      → contents r ≡ x ∷ xs
      → IsValid (out_ring_buffer r c).0 × (contents (out_ring_buffer r c).0 ≡ xs ++ (c ∷ []))
  out-full x xs e = (
    full-IsValid,
    full_words
        ∙ words-set r.buffer c 1022 (r.reader / 4 + 1) (r.writer / 4) v.storage (omega arith)
            (omega arith) (omega arith)
        ∙ ap (λ l. l ++ (c ∷ [])) rest,
  )
    where
      first :
          contents r
          ≡ get_or r.buffer (r.reader / 4) 0 ∷ words r.buffer ((r.reader / 4 + 1) % 1024) 1022
      first = words-suc r.buffer (r.reader / 4) (held r) 1022 (omega arith)

      next : (r.reader / 4 + 1) % 1024 ≡ r.reader / 4 + 1
      next = omega arith

      rest : words r.buffer (r.reader / 4 + 1) 1022 ≡ xs
      rest = cc (sym first ∙ e, next)

overrun :
    (r : Ring) (c : ℕ)
    → IsValid r
    → held r ≡ 1023
    → r.reader ≡ 4092
    → let r' = (out_ring_buffer r c).0 in
      (r'.reader ≡ 4096) × (r'.writer ≡ 4092) × (length r'.buffer ≡ 1024)
unfolding out_ring_buffer
overrun r c v h e = ground (arith, next_writer_lem r v, length-set r.buffer (r.writer / 4) c)

take-past : (r : Ring) → r.reader ≡ 4096 → length r.buffer ≡ 1024 → (take_word r).0 ≡ none
unfolding take_word
take-past r e l = get_elem?-none r.buffer (r.reader / 4) (omega arith)

-- `outRingBuffer` into a valid full ring whose `reader` is at the storage's last word puts `reader` past
-- the storage, and the next `inRingBuffer` reads there.
pub out-full_wrap :
    (t : ℕ) (ws : List Wake) (r : Ring) (c : ℕ)
    → IsValid r
    → held r ≡ 1023
    → r.reader ≡ 4092
    → ((out_ring_buffer r c).0.reader ≡ 4096)
      × ((in_ring_buffer t ws (out_ring_buffer r c).0).0 ≡ word none)
out-full_wrap t ws r c v h e =
    let at_end = overrun r c v h e in
    let r' = (out_ring_buffer r c).0 in
    (
      at_end.0,
      rw (in-ready t ws r' (omega (arith, at_end))) (ap word (take-past r' at_end.0 at_end.2)),
    )
