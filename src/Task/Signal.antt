-- ===== src/Task/Signal.antt =====
-- src/task/signal.c: the pending signals of a task, their actions, and the frame of a handler. A word of
-- 64 bits is the function of its bits, which is read below 64 only. An `int` that meets such a word is
-- extended by its sign, and a shift of an `int` takes its count modulo 32, as the machine does.
pub mod Pending
pub mod Frames
mod Tests
use docqos_old.Base.{
  ℕ, zero, suc, ◌+◌, ◌-◌, ◌%◌, ◌^◌, Bool, true, false, not, ◌&&◌, ◌||◌, Option, none, some, List,
  [], ◌∷◌, ltb, leb, ◌==◌, if◌then◌else◌,
}
use docqos_old.Base.Errno.{Ret, ok, err, eperm, einval, esrch}

abbrev pub Bits : Type 0
Bits = ℕ → Bool

abbrev pub sigint : ℕ
sigint = 2

abbrev pub sigkill : ℕ
sigkill = 9

abbrev pub sigchld : ℕ
sigchld = 17

abbrev pub sigcont : ℕ
sigcont = 18

abbrev pub sigstop : ℕ
sigstop = 19

abbrev pub sigurg : ℕ
sigurg = 23

abbrev pub sigwinch : ℕ
sigwinch = 28

-- `1 << i` as a word of 64 bits.
abbrev pub int_bit : ℕ → Bits
int_bit i n = if i % 32 == 31 then leb 31 n else n == i % 32

-- `a & b` as a condition, with the bits below `k` read.
pub meets_below : ℕ → Bits → Bits → Bool
meets_below zero a b = false
meets_below (suc k) a b = (a k && b k) || meets_below k a b

pub meets : Bits → Bits → Bool
unfolding meets_below
meets a b = meets_below 64 a b

-- `a & ~b`
abbrev pub without : Bits → Bits → Bits
without a b n = a n && not (b n)

abbrev pub union : Bits → Bits → Bits
union a b n = a n || b n

-- `struct SignalAction`: the handler's address, and the mask.
pub record Action : Type 0 where
  pub handler : ℕ
  pub mask : Bits

-- What is read of `struct Task` here. `actions` is the table that `sig` points at; `has_memory` is
-- whether `mm` is not null.
pub record Task : Type 0 where
  pub pending : Bits
  pub blocked : Bits
  pub actions : ℕ → Action
  pub has_memory : Bool

-- `taskSignalPending`, whose result is cut to an `int`.
pub task_signal_pending : Task → Bool
unfolding meets_below
task_signal_pending t = meets_below 32 t.pending (λ n. not (t.blocked n))

-- The test of a round of the loop of getPendingSignal.
pub round_test : Task → ℕ → Bool
round_test t i = meets t.pending (int_bit i) && not (meets t.blocked (int_bit i))

-- The loop, from `i` on.
pub scan : ℕ → ℕ → Task → ℕ
scan zero i t = 0
scan (suc rounds) i t = let rest = scan rounds (i + 1) t in if round_test t i then i else rest

pub choose : Task → ℕ
choose t =
    if meets t.pending (int_bit sigkill)
    then sigkill
    else if meets t.pending (int_bit sigstop)
    then sigstop
    else if not (task_signal_pending t)
    then 0
    else scan 63 1 t

-- `getPendingSignal`; the action is that of the result in `actions`.
pub get_pending_signal : Task → ℕ × Task
get_pending_signal t = let r = choose t in (r, record t { pending = without t.pending (int_bit r) })

-- `doKill`, of the task that lookForTaskByPID found, with whether wakeUpTask also wakes a stopped one.
pub do_kill : ℕ → Option Task → Ret × Option (Task × Bool)
do_kill sig found = if leb 64 sig then (err einval, none) else elim found [
  | none ↦ (err esrch, none)
  | some t ↦ if not t.has_memory then (err eperm, none) else if sig == 0 then (ok 0, none) else (
    ok 0,
    some (
      record t { pending = union t.pending (λ n. n == sig) },
      (sig == sigcont) || (sig == sigkill),
    ),
  )
]

-- `doSignalAction`, on the table of actions; `none` is a null pointer.
pub do_signal_action : ℕ → Option Action → (ℕ → Action) → Ret × (ℕ → Action)
do_signal_action sig none actions = (err einval, actions)
do_signal_action sig (some a) actions =
    if leb 64 sig then (err einval, actions) else (ok 0, λ n. if n == sig then a else actions n)

-- What taskForkSignal gives: null, the same structure with one more reference, a new one with this table and
-- a count of 0, or an access through a null pointer.
pub data Forked : Type 0 where
  nothing : Forked
  shared : Forked
  copied : (ℕ → Action) → Forked
  faulted : Forked

abbrev pub no_actions : ℕ → Action
no_actions n = record { handler = 0; mask = λ i. false }

-- `taskForkSignal`, given the two flags that it reads, whether kmalloc has room, and the old table.
pub task_fork_signal : Bool → Bool → Bool → Option (ℕ → Action) → Forked
task_fork_signal kernel share room old =
    if kernel
    then nothing
    else if share
    then elim old [ some a ↦ nothing | none ↦ faulted ]
    else if not room
    then nothing
    else elim old [ some a ↦ copied a | none ↦ copied no_actions ]

-- `taskExitSignal`, on the reference count; atomicAdd gives 0, so nothing is freed.
pub task_exit_signal : Option ℕ → Option ℕ
task_exit_signal none = none
task_exit_signal (some ref) = some ((ref + (2 ^ 32 - 1)) % 2 ^ 32)

-- The registers of a task that has been interrupted in user mode: `IRQRegisters` less `irq`, `cs` and `ss`, which
-- a signal neither saves nor changes.
pub record Registers : Type 0 where
  pub rax : ℕ
  pub rbx : ℕ
  pub rcx : ℕ
  pub rdx : ℕ
  pub rsi : ℕ
  pub rdi : ℕ
  pub r8 : ℕ
  pub r9 : ℕ
  pub r10 : ℕ
  pub r11 : ℕ
  pub r12 : ℕ
  pub r13 : ℕ
  pub r14 : ℕ
  pub r15 : ℕ
  pub rip : ℕ
  pub rsp : ℕ
  pub rbp : ℕ
  pub rflags : ℕ

-- `struct SignalContent`: registers, of which `rsp`, `rbp` and `rflags` are no part, and the blocked signals.
pub record Content : Type 0 where
  pub saved : Registers
  pub blocked : Bits

-- User memory: the contents, by address, and the return addresses.
pub record Memory : Type 0 where
  pub contents : ℕ → Content
  pub returns : ℕ → ℕ

abbrev pub unblockable : Bits
unblockable = union (int_bit sigkill) (int_bit sigstop)

-- `sizeof(SignalContent)`
abbrev pub content_size : ℕ
content_size = 128

pub record Machine : Type 0 where
  pub registers : Registers
  pub memory : Memory
  pub task : Task

-- `reg->rsp -= size`
abbrev pub down : ℕ → ℕ → ℕ
down rsp size = (rsp + (2 ^ 64 - size)) % 2 ^ 64

abbrev pub store {ℓ} : {A : Type ℓ} → ℕ → A → (ℕ → A) → ℕ → A
store p a f = λ q. if q == p then a else f q

-- The end of a round of handleSignal: the handler is entered. `trampoline` is vkernelSignalReturn.
pub enter_handler : ℕ → ℕ → Action → Machine → Machine
enter_handler trampoline sig a s =
    let regs = s.registers in
    let at = down regs.rsp content_size in
    let top = down at 8 in
    record {
      registers = record regs { rsp = top; rip = a.handler; rdi = sig };
      memory = record {
        contents = store at (record { saved = regs; blocked = s.task.blocked }) s.memory.contents;
        returns = store top trampoline s.memory.returns;
      };
      task = record s.task { blocked = without (union s.task.blocked a.mask) unblockable };
    }

pub data Outcome : Type 0 where
  exited : ℕ → Outcome
  resumed : Machine → Outcome
  stopped : Machine → Outcome
  spinning : Outcome

-- What a round of handleSignal does with a signal and its action: an exit, a stop, nothing, or a handler.
pub data Verdict : Type 0 where
  dies : Verdict
  stops : Verdict
  ignored : Verdict
  handled : Verdict

pub verdict : ℕ → Action → Verdict
verdict sig a =
    if sig == sigkill
    then dies
    else if sig == sigstop
    then stops
    else if a.handler == 0
    then (if (sig == sigchld) || (sig == sigcont) || (sig == sigurg) || (sig == sigwinch)
        then ignored
        else dies)
    else if a.handler == 1
    then ignored
    else handled

-- `handleSignal`, with fuel. `wakes` has, for each time that the task is continued, what the others made of
-- it while it was stopped; a task that is not continued stays stopped.
pub handle_signal : List (Task → Task) → ℕ → ℕ → Machine → Outcome
handle_signal wakes trampoline zero s = spinning
handle_signal wakes trampoline (suc fuel) s =
    let (sig, t) = get_pending_signal s.task in
    let s' : Machine = record s { task = t } in
    if sig == 0 then resumed s' else elim (verdict sig (t.actions sig)) [
      | dies ↦ exited sig
      | stops ↦ elim wakes [
        | [] ↦ stopped s'
        | w ∷ ws ↦ handle_signal ws trampoline fuel (record s' { task = w t })
      ]
      | ignored ↦ handle_signal wakes trampoline fuel s'
      | handled ↦
          handle_signal wakes trampoline fuel (enter_handler trampoline sig (t.actions sig) s')
    ]

-- `doSignalReturn`; r10 is not restored, rbp and rflags are not in the frame.
pub do_signal_return : Machine → Machine
do_signal_return s =
    let regs = s.registers in
    let c = s.memory.contents regs.rsp in
    record s {
      registers = record c.saved {
        r10 = regs.r10;
        rsp = (regs.rsp + content_size) % 2 ^ 64;
        rbp = regs.rbp;
        rflags = regs.rflags;
      };
      task = record s.task { blocked = without c.blocked unblockable };
    }
