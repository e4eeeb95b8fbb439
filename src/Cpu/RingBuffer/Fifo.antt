-- ===== src/Cpu/RingBuffer/Fifo.antt =====
-- A ring that is not overrun is a first-in first-out queue of at most 1023 words.
use docqos_old.Base.{
  ℕ, zero, suc, ◌+◌, ◌-◌, ◌/◌, ◌%◌, ◌≤◌, ◌<◌, ◌≡◌, refl, ◌≢◌, ap, some, List, [], ◌∷◌, ◌++◌, arith,
  length, get_or, set, length-set, get_elem?-eq-get_or, get_or-set_self, get_or-set_ne,
}
use mathlib.Core.Path.{ap₂, ◌∙◌}
use docqos_old.Base.{All, inl, inr, ◌==◌, Bool-cases, none, sym}
use docqos_old.Cpu.RingBuffer.{
  wait_for_ring_buffer, enqueue, dequeue, Ring, next_writer, out_ring_buffer, take_word, Wake, word,
  in_ring_buffer,
}

-- Both offsets are words of the storage, and the storage has its 4096 bytes.
pub record IsValid (r : Ring) : Type 0 where
  pub size_lem : r.size ≡ 4096
  pub storage : length r.buffer ≡ 1024
  pub reader_word : r.reader % 4 ≡ 0
  pub writer_word : r.writer % 4 ≡ 0
  pub reader_in : r.reader < 4096
  pub writer_in : r.writer < 4096

-- The `n` words from slot `h` on, going round at 1024.
abbrev pub words : List ℕ → ℕ → ℕ → List ℕ
words buf h zero = []
words buf h (suc n) = get_or buf h 0 ∷ words buf ((h + 1) % 1024) n

-- How many words the ring holds.
abbrev pub held : Ring → ℕ
held r = (r.writer + 4096 - r.reader) % 4096 / 4

abbrev pub contents : Ring → List ℕ
contents r = words r.buffer (r.reader / 4) (held r)

words-zero : (buf : List ℕ) (h n : ℕ) → n ≡ 0 → words buf h n ≡ []
words-zero buf h zero e = refl
words-zero buf h (suc n) e = absurd (omega arith)

-- `words` matches on `suc`, a count is given by an equation.
pub words-suc :
    (buf : List ℕ) (h n m : ℕ)
    → n ≡ m + 1
    → words buf h n ≡ get_or buf h 0 ∷ words buf ((h + 1) % 1024) m
words-suc buf h zero m e = absurd (omega arith)
words-suc buf h (suc n) m e = ap (λ k. get_or buf h 0 ∷ words buf ((h + 1) % 1024) k) (omega arith)

-- Writing just past the held words appends that word.
pub words-set :
    (buf : List ℕ) (x n h i : ℕ)
    → length buf ≡ 1024
    → h < 1024
    → n < 1024
    → i ≡ (h + n) % 1024
    → words (set buf i x) h (suc n) ≡ words buf h n ++ (x ∷ [])
words-set buf x zero h i hl hh hn e =
    ap (λ v. v ∷ [])
      (let here : i ≡ h = omega arith in
        ap (λ k. get_or (set buf k x) h 0) here ∙ get_or-set_self buf h x 0 (omega arith))
words-set buf x (suc n) h i hl hh hn e =
    ap₂ ◌∷◌ (get_or-set_ne buf x 0 (omega arith))
      (words-set buf x n ((h + 1) % 1024) i hl (omega arith) (omega arith) (omega arith))

pub next_writer_lem : (r : Ring) → IsValid r → next_writer r ≡ (r.writer + 4) % 4096
unfolding next_writer
next_writer_lem r v = ground arith

-- `outRingBuffer` into a ring that holds fewer than 1023 words appends the word, keeps the others in
-- order, and keeps the offsets inside the storage.
pub out-append :
    (r : Ring) (c : ℕ)
    → IsValid r
    → held r < 1023
    → IsValid (out_ring_buffer r c).0
      × (contents (out_ring_buffer r c).0 ≡ contents r ++ (c ∷ []))
      × (held (out_ring_buffer r c).0 ≡ held r + 1)
unfolding out_ring_buffer
out-append r c v h = ground (
  arith,
  next_writer_lem r v,
  length-set r.buffer (r.writer / 4) c,
  words-set r.buffer c (held r) (r.reader / 4) (r.writer / 4),
  words-suc (set r.buffer (r.writer / 4) c) (r.reader / 4) (held r + 1) (held r),
)

-- The end of `inRingBuffer` on a ring that holds a word yields the oldest one, never reads past the
-- storage, leaves the others in order, and keeps the offsets inside the storage.
pub take-oldest :
    (r : Ring)
    → IsValid r
    → 0 < held r
    → IsValid (take_word r).1
      × ((take_word r).0 ≡ some (get_or r.buffer (r.reader / 4) 0))
      × (contents r ≡ get_or r.buffer (r.reader / 4) 0 ∷ contents (take_word r).1)
      × (held (take_word r).1 + 1 ≡ held r)
unfolding take_word
take-oldest r v h = ground (
  arith,
  get_elem?-eq-get_or r.buffer (r.reader / 4) 0,
  words-suc r.buffer (r.reader / 4) (held r) (held r - 1),
)

held-zero : (r : Ring) → IsValid r → r.writer ≡ r.reader → held r ≡ 0
held-zero r v e = omega arith

-- A reader that finds a word takes it at once.
pub in-ready :
    (t : ℕ) (ws : List Wake) (r : Ring)
    → r.writer ≢ r.reader
    → in_ring_buffer t ws r ≡ (word (take_word r).0, (take_word r).1)
unfolding in_ring_buffer
in-ready t [] r h = ground arith
in-ready t (w ∷ ws) r h = ground arith

held-contents : (r : Ring) (x : ℕ) (xs : List ℕ) → contents r ≡ x ∷ xs → 0 < held r
held-contents r x xs h = ground (arith, words-zero r.buffer (r.reader / 4) (held r))

-- `inRingBuffer` on a ring with words yields the oldest without sleeping, whatever could happen while
-- asleep, and leaves the others in order.
pub in-oldest :
    (t : ℕ) (ws : List Wake) (r : Ring) (x : ℕ) (xs : List ℕ)
    → IsValid r
    → contents r ≡ x ∷ xs
    → ((in_ring_buffer t ws r).0 ≡ word (some x))
      × (contents (in_ring_buffer t ws r).1 ≡ xs)
      × IsValid (in_ring_buffer t ws r).1
in-oldest t ws r x xs v h =
    let p = held-contents r x xs h in
    let got = take-oldest r v p in
    let same : get_or r.buffer (r.reader / 4) 0 ∷ contents (take_word r).1 ≡ x ∷ xs =
      sym got.2 ∙ h in
    rw (in-ready t ws r (omega (arith, held-zero r v, p))) (cc (got.1, same), cc same, got.0)

-- Calls of outRingBuffer in turn.
abbrev pub out_all : List ℕ → Ring → Ring
out_all [] r = r
out_all (c ∷ cs) r = out_all cs (out_ring_buffer r c).0

-- What runs while the reader sleeps is calls of outRingBuffer, for 1023 words at most.
abbrev pub Writes : Wake → Type 0
Writes w = (cs : List ℕ) × (length cs ≤ 1023) × ((r : Ring) → w.others r ≡ out_all cs r)

out_all-IsValid :
    (cs : List ℕ) (r : Ring) → IsValid r → held r + length cs ≤ 1023 → IsValid (out_all cs r)
out_all-IsValid [] r v h = v
out_all-IsValid (c ∷ cs) r v h =
    let a = out-append r c v (omega (arith, h)) in
    out_all-IsValid cs (out_ring_buffer r c).0 a.0 (omega (arith, h, a.2))

enqueue-IsValid : (t : ℕ) (r : Ring) → IsValid r → IsValid (enqueue t r)
unfolding enqueue
enqueue-IsValid t r v = omega arith

take-IsValid :
    (r : Ring)
    → IsValid r
    → r.writer ≢ r.reader
    → (word (take_word r).0 ≢ word none) × IsValid (take_word r).1
take-IsValid r v ne = let got = take-oldest r v (omega arith) in (λ q. cc (q, got.1), got.0)

wait-IsValid :
    (t : ℕ) (w : Wake) (r : Ring)
    → Writes w
    → IsValid r
    → r.writer ≡ r.reader
    → IsValid (wait_for_ring_buffer t w r).0
unfolding wait_for_ring_buffer enqueue dequeue
wait-IsValid t w r (cs, few, same) v e =
    let q = enqueue-IsValid t r v in
    let z : held (enqueue t r) ≡ 0 = omega (arith, e, v.reader_in) in
    let w' : IsValid (w.others (enqueue t r)) =
      rw (same (enqueue t r)) (out_all-IsValid cs (enqueue t r) q (omega (arith, z, few))) in
    omega (arith, w')

-- No read of `inRingBuffer` leaves the storage, however often it sleeps, as long as what runs in each
-- of its sleeps is outRingBuffer, for 1023 words at most; the offsets stay valid too.
pub in-IsValid :
    (t : ℕ) (ws : List Wake) (r : Ring)
    → All Writes ws
    → IsValid r
    → ((in_ring_buffer t ws r).0 ≢ word none) × IsValid (in_ring_buffer t ws r).1
unfolding in_ring_buffer
in-IsValid t [] r k v = elim (Bool-cases (r.writer == r.reader)) [
  | inl e ↦ rw e (λ q. cc q, enqueue-IsValid t r v)
  | inr e ↦ rw e (take-IsValid r v (ground arith))
]
in-IsValid t (w ∷ ws) r k v = elim (Bool-cases (r.writer == r.reader)) [
  | inl e ↦
      let v' = wait-IsValid t w r k.0 v (ground (arith, e)) in
      elim (Bool-cases (wait_for_ring_buffer t w r).1) [
        | inl s ↦ rw (e, s) (λ q. cc q, v')
        | inr s ↦ rw (e, s) (in-IsValid t ws (wait_for_ring_buffer t w r).0 k.1 v')
      ]
  | inr e ↦ rw e (take-IsValid r v (ground arith))
]
