-- ===== src/Cpu/RingBuffer/Tests.antt =====
-- The ring's theorems at small rings, and runs of its functions.
use docqos_old.Base.{
  ◌+◌, ◌≡◌, ◌≢◌, refl, none, some, true, false, List, [], ◌∷◌, ◌++◌, arith, replicate,
}
use docqos_old.Cpu.RingBuffer.{
  Ring, init, out_ring_buffer, Wake, word, eintr, in_ring_buffer, wait_for_ring_buffer, enqueue,
  dequeue, drop_task, wake_up, next_writer, take_word,
}
use docqos_old.Cpu.RingBuffer.Overrun.{out-full, out-full_wrap}
use docqos_old.Cpu.RingBuffer.Fifo.{
  IsValid, words, held, contents, out_all, out-append, in-oldest, in-IsValid,
}

abbrev fresh : Ring
fresh = record { size = 4096; reader = 0; writer = 0; buffer = replicate 1024 0; waiters = [] }

abbrev two : Ring
two = record {
  size = 4096;
  reader = 8;
  writer = 16;
  buffer = 0 ∷ 0 ∷ 5 ∷ 6 ∷ replicate 1020 0;
  waiters = [];
}

-- Full, with the oldest word at the start and at the end of the storage.
abbrev full_at_start : Ring
full_at_start = record {
  size = 4096;
  reader = 0;
  writer = 4092;
  buffer = replicate 1024 7;
  waiters = [];
}

abbrev full_at_end : Ring
full_at_end = record {
  size = 4096;
  reader = 4092;
  writer = 4088;
  buffer = replicate 1024 7;
  waiters = [];
}

abbrev wakes : List Wake
wakes = record { others = λ r. r; signal = false } ∷ record { others = λ r. r; signal = true } ∷ []

fresh-IsValid : IsValid fresh
fresh-IsValid = omega arith

two-IsValid : IsValid two
two-IsValid = omega arith

init_lem : init (replicate 1024 0) ≡ fresh
unfolding init
init_lem = refl

sleeps_then_signal : (in_ring_buffer 9 wakes fresh).0 ≡ eintr
unfolding in_ring_buffer wait_for_ring_buffer enqueue dequeue drop_task
sleeps_then_signal = refl

wakes_waiter : (out_ring_buffer (in_ring_buffer 9 [] fresh).1 65).1 ≡ some 9
unfolding in_ring_buffer out_ring_buffer wake_up enqueue
wakes_waiter = refl

out-append_example :
    IsValid (out_ring_buffer two 9).0
    × (contents (out_ring_buffer two 9).0 ≡ contents two ++ (9 ∷ []))
    × (held (out_ring_buffer two 9).0 ≡ held two + 1)
out-append_example = out-append two 9 two-IsValid (omega arith)

in-oldest_example :
    ((in_ring_buffer 9 wakes two).0 ≡ word (some 5))
    × (contents (in_ring_buffer 9 wakes two).1 ≡ 6 ∷ [])
    × IsValid (in_ring_buffer 9 wakes two).1
in-oldest_example = in-oldest 9 wakes two 5 (6 ∷ []) two-IsValid refl

-- Nothing comes in the first sleep, and two words in the second.
abbrev two_sleeps : List Wake
two_sleeps =
    record { others = out_all []; signal = false }
    ∷ record { others = out_all (65 ∷ 66 ∷ []); signal = false }
    ∷ []

out-full_example :
    IsValid (out_ring_buffer full_at_start 9).0
    × (contents (out_ring_buffer full_at_start 9).0 ≡ words full_at_start.buffer 1 1022 ++ (9 ∷ []))
out-full_example =
    out-full full_at_start 9 (omega arith) (omega arith) (λ e. omega (arith, e)) 7
      (words full_at_start.buffer 1 1022) refl

out-full_wrap_example :
    ((out_ring_buffer full_at_end 9).0.reader ≡ 4096)
    × ((in_ring_buffer 8 [] (out_ring_buffer full_at_end 9).0).0 ≡ word none)
out-full_wrap_example = out-full_wrap 8 [] full_at_end 9 (omega arith) (omega arith) refl

in-IsValid_example :
    ((in_ring_buffer 9 two_sleeps fresh).0 ≢ word none)
    × IsValid (in_ring_buffer 9 two_sleeps fresh).1
in-IsValid_example =
    in-IsValid 9 two_sleeps fresh
      (([], omega arith, (λ r. refl)), ((65 ∷ 66 ∷ [], omega arith, (λ r. refl)), tt)) fresh-IsValid

-- The first of the two is what the reader gets.
gets_first : (in_ring_buffer 9 two_sleeps fresh).0 ≡ word (some 65)
unfolding in_ring_buffer wait_for_ring_buffer enqueue dequeue drop_task out_ring_buffer next_writer
    take_word
gets_first = refl
