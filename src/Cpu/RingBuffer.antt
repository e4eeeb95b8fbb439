-- ===== src/Cpu/RingBuffer.antt =====
-- src/cpu/ringbuffer.c and include/cpu/ringbuffer.h: the ring of 32-bit words between the keyboard
-- interrupt and the tasks that read it. `reader` and `writer` are byte offsets; every access is one
-- aligned word, so the storage is a list of words indexed by offset / 4.
pub mod Fifo
pub mod Overrun
mod Tests
use docqos_old.Base.{
  ℕ, ◌+◌, ◌/◌, ◌%◌, ◌^◌, Bool, Option, none, some, List, [], ◌∷◌, ◌==◌, if◌then◌else◌, get_elem?,
  set, replicate,
}

-- `struct RingBuffer`. `waiters` is the list behind `wait`, the tasks' identities, first one first.
pub record Ring : Type 0 where
  pub size : ℕ
  pub reader : ℕ
  pub writer : ℕ
  pub buffer : List ℕ
  pub waiters : List ℕ

abbrev pub u32_add : ℕ → ℕ → ℕ
u32_add a b = (a + b) % 2 ^ 32

-- `initRingBuffer`; the storage keeps what it held, here `old`.
pub init : List ℕ → Ring
init old = record { size = 4096; reader = 0; writer = 0; buffer = old; waiters = [] }

-- The task that `wakeUpLocked` wakes: the first of the queue, if there is one.
pub wake_up : List ℕ → Option ℕ
wake_up [] = none
wake_up (t ∷ ts) = some t

-- The writer's place after a word.
pub next_writer : Ring → ℕ
next_writer r = let w = u32_add r.writer 4 in if w == r.size then 0 else w

-- `outRingBuffer`, with the task that it wakes. A write past the storage is left out.
pub out_ring_buffer : Ring → ℕ → Ring × Option ℕ
out_ring_buffer r c =
    let w = next_writer r in
    (
      record r {
        buffer = set r.buffer (r.writer / 4) c;
        writer = w;
        reader = if w == r.reader then u32_add r.reader 4 else r.reader;
      },
      wake_up r.waiters,
    )

-- The end of `inRingBuffer`: `none` stands for a read past the storage.
pub take_word : Ring → Option ℕ × Ring
take_word r =
    let next = u32_add r.reader 4 in
    (get_elem? r.buffer (r.reader / 4), record r { reader = if next == r.size then 0 else next })

-- What happens while the reader sleeps: what the other tasks and interrupts make of the ring, and
-- whether a signal is pending when it runs again.
pub record Wake : Type 0 where
  pub others : Ring → Ring
  pub signal : Bool

pub data Outcome : Type 0 where
  word : Option ℕ → Outcome
  eintr : Outcome
  asleep : Outcome

pub drop_task : ℕ → List ℕ → List ℕ
drop_task t [] = []
drop_task t (x ∷ xs) = if x == t then xs else x ∷ drop_task t xs

pub enqueue : ℕ → Ring → Ring
enqueue t r = record r { waiters = t ∷ r.waiters }

pub dequeue : ℕ → Ring → Ring
dequeue t r = record r { waiters = drop_task t r.waiters }

-- `waitForRingBuffer`: queue the task, sleep, leave the queue, and look at the signals.
pub wait_for_ring_buffer : ℕ → Wake → Ring → Ring × Bool
wait_for_ring_buffer t w r = (dequeue t (w.others (enqueue t r)), w.signal)

-- `inRingBuffer` of task `t`, given what happens at each sleep. `asleep`: no further wake up.
pub in_ring_buffer : ℕ → List Wake → Ring → Outcome × Ring
in_ring_buffer t [] r =
    if r.writer == r.reader
    then (asleep, enqueue t r)
    else (let (o, r') = take_word r in (word o, r'))
in_ring_buffer t (w ∷ ws) r =
    let (r', interrupted) = wait_for_ring_buffer t w r in
    let rest = in_ring_buffer t ws r' in
    if r.writer == r.reader
    then (if interrupted then (eintr, r') else rest)
    else (let (o, s) = take_word r in (word o, s))
