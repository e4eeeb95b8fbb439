-- ===== src/Task/Signal/Tests.antt =====
-- Signals of a concrete task.
use docqos_old.Base.{ℕ, ◌≡◌, refl, ◌≢◌, [], ◌∷◌, true, false, not, ◌&&◌, ◌||◌, arith, ◌==◌}
use docqos_old.Task.Signal.{
  Bits, without, unblockable, Task, Action, meets_below, meets, task_signal_pending, round_test,
  scan, choose, get_pending_signal, Registers, Machine, enter_handler, do_signal_return,
  handle_signal, verdict, exited, spinning,
}
use docqos_old.Task.Signal.Pending.{IsSmall, IsNext, get_pending_signal_lem}
use docqos_old.Task.Signal.Frames.{do_signal_return-enter_handler, handle_signal-ne-spinning}

abbrev none_set : Bits
none_set n = false

-- Every signal has its default action.
abbrev calm : Task
calm = record {
  pending = none_set;
  blocked = none_set;
  actions = λ n. record { handler = 0; mask = none_set };
  has_memory = true;
}

-- SIGINT, blocked, and SIGALRM.
abbrev alarmed : Task
alarmed = record calm { pending = λ n. (n == 2) || (n == 14); blocked = λ n. n == 2 }

alarmed-IsSmall : IsSmall alarmed
alarmed-IsSmall = record { no_zero = refl; below = λ n h. ground arith }

alarm_first : (get_pending_signal alarmed).0 ≡ 14
unfolding get_pending_signal choose scan round_test meets meets_below task_signal_pending
alarm_first = refl

get_pending_signal_lem_example :
    IsNext alarmed (get_pending_signal alarmed).0
    × ((n : ℕ)
        → (get_pending_signal alarmed).1.pending n
          ≡ (alarmed.pending n && not (n == (get_pending_signal alarmed).0)))
get_pending_signal_lem_example = get_pending_signal_lem alarmed alarmed-IsSmall

abbrev regs : Registers
regs = record {
  rax = 1;
  rbx = 2;
  rcx = 3;
  rdx = 4;
  rsi = 5;
  rdi = 6;
  r8 = 8;
  r9 = 9;
  r10 = 10;
  r11 = 11;
  r12 = 12;
  r13 = 13;
  r14 = 14;
  r15 = 15;
  rip = 4096;
  rsp = 8192;
  rbp = 0;
  rflags = 514;
}

abbrev machine : Machine
machine = record {
  registers = regs;
  memory = record { contents = λ p. record { saved = regs; blocked = none_set }; returns = λ p. 0 };
  task = alarmed;
}

abbrev action : Action
action = record { handler = 65536; mask = none_set }

-- The handler has changed rax, r10, rbp and rflags, and has returned.
abbrev returned : Machine
returned = record {
  registers = record regs { rax = 77; r10 = 78; rsp = 8064; rbp = 600; rflags = 515 };
  memory = record {
    contents = λ p. record { saved = regs; blocked = λ n. n == 2 };
    returns = λ p. 0;
  };
  task = alarmed;
}

do_signal_return-enter_handler_example :
    ((do_signal_return returned).registers ≡ record regs { r10 = 78; rbp = 600; rflags = 515 })
    × ((do_signal_return returned).task.blocked ≡ without (λ n. n == 2) unblockable)
unfolding enter_handler
do_signal_return-enter_handler_example =
    do_signal_return-enter_handler 512 14 action machine returned (omega arith) refl refl

-- Stopped, and then continued by SIGCONT.
abbrev stopping : Machine
stopping = record machine { task = record alarmed { pending = λ n. n == 19 } }

abbrev continued : Task → Task
continued t = record t { pending = λ n. (n == 18) || t.pending n }

handle_signal-ne-spinning_example : handle_signal (continued ∷ []) 512 130 stopping ≢ spinning
handle_signal-ne-spinning_example =
    handle_signal-ne-spinning (continued ∷ []) 512 130 stopping (omega arith)

alarm_kills : handle_signal [] 512 3 machine ≡ exited 14
unfolding handle_signal get_pending_signal choose scan round_test meets meets_below
    task_signal_pending verdict
alarm_kills = refl
