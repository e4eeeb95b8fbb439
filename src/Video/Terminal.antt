-- ===== src/Video/Terminal.antt =====
-- The terminal's input in src/video/tty.c: what ttyKeyboardTask does with a character, and the line editor
-- of ttyRead. The screen's output is left out here; the calls of ttyWriteScreen and ttyUpdate by these two
-- do not change what is read.
pub mod Reading
pub mod Overrun
mod Tests
use docqos_old.Base.{
  ℕ, zero, suc, ◌+◌, ◌-◌, ◌%◌, ◌^◌, Bool, true, false, not, ◌&&◌, ◌||◌, Option, none, some, List,
  [], ◌∷◌, leb, ◌==◌, if◌then◌else◌,
}
use docqos_old.Base.Errno.{Ret, ok, err, efault, eintr_code}
use docqos_old.Input.Keyboard.{State, keyboard_callback}

abbrev pub sigint : ℕ
sigint = 2

abbrev pub sigquit : ℕ
sigquit = 3

-- What a round of ttyKeyboardTask does: nothing, a signal to the terminal's group, or a word for ttyRead.
pub data Action : Type 0 where
  drop : Action
  kill : ℕ → Action
  give : ℕ → Action

-- The switch for a character with Ctrl.
pub control : ℕ → Action
control c =
    if (c == b'c') || (c == b'C')
    then kill sigint
    else if (c == b'd') || (c == b'D')
    then give 0
    else if c == 92
    then kill sigquit
    else drop

-- The round, on the character that the callback gave.
pub dispatch : Bool → ℕ → Action
unfolding control
dispatch ctrl c = if (c == 0) || leb 128 c then drop else if ctrl then control c else give c

-- A round of ttyKeyboardTask, on a byte from the keyboard.
pub keyboard_round : ℕ → State → Action × State
unfolding dispatch
keyboard_round byte s = let r = keyboard_callback byte s in (dispatch r.state.ctrl r.char, r.state)

-- The reader's variables: `left` is `data`, `count` is `i`, and `place` is how far `string` has moved. `buffer` is
-- the user's memory from its start on.
pub record Reader : Type 0 where
  pub left : ℕ
  pub count : ℕ
  pub place : ℕ
  pub buffer : ℕ → Option ℕ

-- A successful `putUser8Safe(string++,c)`.
pub put : ℕ → Reader → Reader
put c r = record r {
  buffer = λ q. if q == r.place then some c else r.buffer q;
  place = r.place + 1;
}

pub data Outcome : Type 0 where
  finished : ℕ → (ℕ → Option ℕ) → Outcome
  interrupted : (ℕ → Option ℕ) → Outcome
  waiting : Reader → Outcome

-- A character that is put into the line.
pub took : ℕ → Reader → Reader
unfolding put
took c r = record (put c r) {
  left = (r.left + (2 ^ 64 - 1)) % 2 ^ 64;
  count = (r.count + 1) % 2 ^ 32;
}

-- The line feed that the editor adds to a full line.
pub take : ℕ → Reader → Reader
unfolding took
take c r =
    let r' = took c r in
    if (r'.left == 2) && not (c == 10)
    then put 10 (record r' { count = (r'.count + 1) % 2 ^ 32 })
    else r'

-- The loop of ttyRead over what inRingBuffer gives in turn, `none` for -EINTR. User memory is writable.
pub read_loop : List (Option ℕ) → Reader → Outcome
read_loop [] r = waiting r
read_loop (none ∷ more) r = interrupted r.buffer
read_loop (some c ∷ more) r =
    let next = read_loop more r in
    let back =
      read_loop more
        (record r { left = (r.left + 1) % 2 ^ 64; count = r.count - 1; place = r.place - 1 }) in
    let r' = take c r in
    let on = read_loop more r' in
    if c == 9
    then next
    else if (c == 0) && (r.count == 0)
    then finished 0 r.buffer
    else if c == 0
    then next
    else if (c == 8) && (r.count == 0)
    then next
    else if c == 8
    then back
    else if (r'.left == 2) || (c == 10)
    then finished r'.count (put 0 r').buffer
    else on

-- `ttyRead`; a buffer of one byte takes the end of an empty string.
pub tty_read : ℕ → List (Option ℕ) → Outcome
unfolding read_loop take
tty_read size chars =
    if size == 1
    then finished 0 (λ q. if q == 0 then some 0 else none)
    else if size == 0
    then finished 0 (λ q. none)
    else read_loop chars (record { left = size; count = 0; place = 0; buffer = λ q. none })
