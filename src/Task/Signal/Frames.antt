-- ===== src/Task/Signal/Frames.antt =====
-- A handler's frame, and the termination of the delivery.
use docqos_old.Base.{
  ℕ, zero, suc, ◌+◌, ◌*◌, length, List, [], ◌∷◌, ◌%◌, ◌^◌, ◌≤◌, ◌<◌, ◌≡◌, refl, ◌≢◌, ◌∙◌, inl, inr,
  Bool, true, false, not, ◌&&◌, arith, ◌==◌, if◌then◌else◌, Bool-cases,
}
use docqos_old.Task.Signal.{
  Bits, sigkill, sigstop, int_bit, task_signal_pending, meets_below, meets, without, Task, Action,
  round_test, scan, choose, get_pending_signal, unblockable, content_size, Machine, down,
  enter_handler, do_signal_return, exited, stopped, spinning, Verdict, dies, stops, ignored,
  handled, verdict, handle_signal,
}

-- When a handler has returned, with its frame as it was, doSignalReturn gives back every register of
-- the model as it was when the signal came, but r10, rbp and rflags, which keep what the handler left in
-- them, and the signals that were blocked, less SIGKILL and SIGSTOP.
pub do_signal_return-enter_handler :
    (trampoline sig : ℕ) (a : Action) (s m : Machine)
    → s.registers.rsp < 2 ^ 64
    → m.registers.rsp ≡ down s.registers.rsp content_size
    → m.memory.contents m.registers.rsp
      ≡ (enter_handler trampoline sig a s).memory.contents m.registers.rsp
    → ((do_signal_return m).registers ≡ record s.registers {
      r10 = m.registers.r10;
      rbp = m.registers.rbp;
      rflags = m.registers.rflags;
    })
      × ((do_signal_return m).task.blocked ≡ without s.task.blocked unblockable)
unfolding do_signal_return enter_handler
do_signal_return-enter_handler trampoline sig a s m h at kept =
    let self : (m.registers.rsp == down s.registers.rsp content_size) ≡ true = ground (arith, at) in
    let c : m.memory.contents m.registers.rsp
        ≡ record { saved = s.registers; blocked = s.task.blocked } =
      kept ∙ rw self refl in
    let back : (m.registers.rsp + content_size) % 2 ^ 64 ≡ s.registers.rsp = omega (arith, at) in
    (rw (c, back) refl, rw c refl)

-- How many signals below `k` are pending.
abbrev pub pending_below : ℕ → Bits → ℕ
pending_below zero p = 0
pending_below (suc k) p = (if p k then 1 else 0) + pending_below k p

pending_below-without : (k : ℕ) (p b : Bits) → pending_below k (without p b) ≤ pending_below k p
pending_below-without zero p b = omega arith
pending_below-without (suc k) p b = ground (arith, pending_below-without k p b)

pending_below-taken :
    (k : ℕ) (p b : Bits)
    → meets_below k p b ≡ true
    → pending_below k (without p b) < pending_below k p
unfolding meets_below
pending_below-taken zero p b h = absurd (cc)
pending_below-taken (suc k) p b h = elim (Bool-cases (p k && b k)) [
  | inl here ↦ ground (arith, here, pending_below-without k p b)
  | inr later ↦ ground (arith, h, later, pending_below-taken k p b)
]

scan-meets :
    (rounds i : ℕ) (t : Task)
    → scan rounds i t ≢ 0
    → meets t.pending (int_bit (scan rounds i t)) ≡ true
unfolding scan round_test
scan-meets zero i t h = absurd (h refl)
scan-meets (suc rounds) i t h = elim (Bool-cases (round_test t i)) [
  | inl hit ↦ rw hit (hit_left (meets t.pending (int_bit i)) (meets t.blocked (int_bit i)) hit)
  | inr miss ↦ rw miss (scan-meets rounds (i + 1) t (rw miss at h))
]
  where
    hit_left : (a b : Bool) → (a && not b) ≡ true → a ≡ true
    hit_left true b e = refl
    hit_left false b e = e

choose-meets : (t : Task) → choose t ≢ 0 → meets t.pending (int_bit (choose t)) ≡ true
unfolding choose
choose-meets t h = elim (Bool-cases (meets t.pending (int_bit sigkill))) [
  | inl e ↦ rw e e
  | inr e ↦ elim (Bool-cases (meets t.pending (int_bit sigstop))) [
    | inl f ↦ rw (e, f) f
    | inr f ↦ elim (Bool-cases (task_signal_pending t)) [
      | inl g ↦ rw (e, f, g) (scan-meets 63 1 t (rw (e, f, g) at h))
      | inr g ↦ absurd ((rw (e, f, g) at h) refl)
    ]
  ]
]

taken-lt :
    (t : Task)
    → choose t ≢ 0
    → pending_below 64 (get_pending_signal t).1.pending < pending_below 64 t.pending
unfolding get_pending_signal meets
taken-lt t h = pending_below-taken 64 t.pending (int_bit (choose t)) (choose-meets t h)

pending_below-le : (k : ℕ) (p : Bits) → pending_below k p ≤ k
pending_below-le zero p = omega arith
pending_below-le (suc k) p = ground (arith, pending_below-le k p)

-- The rounds that are left at most.
abbrev rounds_left : List (Task → Task) → Task → ℕ
rounds_left wakes t = pending_below 64 t.pending + 65 * length wakes

with_verdict :
    (wakes : List (Task → Task)) (trampoline fuel : ℕ) (s : Machine)
    → ((ws : List (Task → Task)) (m : Machine)
        → rounds_left ws m.task < fuel
        → handle_signal ws trampoline fuel m ≢ spinning)
    → (w : Verdict) → rounds_left wakes (get_pending_signal s.task).1 < fuel
    → elim w [
      | dies ↦ exited (choose s.task)
      | stops ↦ elim wakes [
        | [] ↦ stopped (record s { task = (get_pending_signal s.task).1 })
        | w ∷ ws ↦
            handle_signal ws trampoline fuel (record s { task = w (get_pending_signal s.task).1 })
      ]
      | ignored ↦
          handle_signal wakes trampoline fuel (record s { task = (get_pending_signal s.task).1 })
      | handled ↦ handle_signal wakes trampoline fuel (
          enter_handler trampoline
            (choose s.task)
            (s.task.actions (choose s.task))
            (record s { task = (get_pending_signal s.task).1 }))
    ]
      ≢ spinning
unfolding enter_handler
with_verdict wakes trampoline fuel s rec dies a = λ e. absurd (cc)
with_verdict [] trampoline fuel s rec stops a = λ e. absurd (cc)
with_verdict (w ∷ ws) trampoline fuel s rec stops a =
    let t : Task = w (get_pending_signal s.task).1 in
    rec ws (record s { task = t }) (omega (arith, a, pending_below-le 64 t.pending))
with_verdict wakes trampoline fuel s rec ignored a =
    rec wakes (record s { task = (get_pending_signal s.task).1 }) a
with_verdict wakes trampoline fuel s rec handled a =
    rec wakes
      (enter_handler trampoline (choose s.task) (s.task.actions (choose s.task))
        (record s { task = (get_pending_signal s.task).1 }))
      a

handle_signal-ends :
    (wakes : List (Task → Task)) (trampoline fuel : ℕ) (s : Machine)
    → rounds_left wakes s.task < fuel
    → handle_signal wakes trampoline fuel s ≢ spinning
unfolding handle_signal get_pending_signal
handle_signal-ends wakes trampoline zero s enough = absurd (omega arith)
handle_signal-ends wakes trampoline (suc fuel) s enough = elim (Bool-cases (choose s.task == 0)) [
  | inl done ↦ rw (done, handle_signal) (λ e. absurd (cc))
  | inr more ↦
      let less = taken-lt s.task (ground arith) in
      rw more (
        with_verdict wakes trampoline fuel s (λ ws m. handle_signal-ends ws trampoline fuel m)
          (verdict (choose s.task) (s.task.actions (choose s.task))) (omega (arith, less, enough)))
]

-- handleSignal ends: it exits, goes back to the program or stays stopped. Each round takes a pending signal
-- away, so that one round for each of the 64 signals and one more are enough to begin with, and as
-- many again for each time that the task is continued, whatever the others have made of it meanwhile.
pub handle_signal-ne-spinning :
    (wakes : List (Task → Task)) (trampoline fuel : ℕ) (s : Machine)
    → 64 + 65 * length wakes < fuel
    → handle_signal wakes trampoline fuel s ≢ spinning
handle_signal-ne-spinning wakes trampoline fuel s enough =
    handle_signal-ends wakes trampoline fuel s
      (omega (arith, enough, pending_below-le 64 s.task.pending))
