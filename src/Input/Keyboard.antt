-- ===== src/Input/Keyboard.antt =====
-- src/input/keyboard.c: from scan codes to characters. A byte is a number below 256, and for such
-- `data & 0x80` is the test `128 ≤ data` and `data & 0x7f` is `data % 128`. The port accesses
-- (`keyboardOut`, `keyboardIn`, the waits in `keyboardSetLED`) are not modelled: the bytes that the
-- controller yields are an argument, and the LED byte is a result.
pub mod Codes
pub mod Locks
mod Tests
use Prim.Native.Nat.{bit_or}
use mathlib.Core.Bool.{xor}
use docqos_old.Base.{
  ℕ, ◌+◌, ◌-◌, ◌*◌, ◌%◌, Bool, true, false, not, ◌&&◌, ◌||◌, Option, none, some, List, [], ◌∷◌,
  ◌++◌, ltb, leb, ◌==◌, if◌then◌else◌, get_or,
}

abbrev pub key_up : ℕ
key_up = 0x81

abbrev pub key_down : ℕ
key_down = 0x82

abbrev pub key_left : ℕ
key_left = 0x83

abbrev pub key_right : ℕ
key_right = 0x84

abbrev pub kb_data_ack : ℕ
kb_data_ack = 0xfa

abbrev pub kb_data_resend : ℕ
kb_data_resend = 0xfe

-- `keyboardMap`; 8, 9, 10, 39 and 92 are `\b`, `\t`, `\n`, the quote and the backslash.
abbrev pub keyboard_map : List ℕ
keyboard_map =
    0 ∷ 0 ∷ b'1' ∷ b'2' ∷ b'3' ∷ b'4' ∷ b'5' ∷ b'6' ∷ b'7' ∷ b'8' ∷ b'9' ∷ b'0' ∷ b'-' ∷ b'=' ∷ 8
    ∷ 9 ∷ b'q' ∷ b'w' ∷ b'e' ∷ b'r' ∷ b't' ∷ b'y' ∷ b'u' ∷ b'i' ∷ b'o' ∷ b'p' ∷ b'[' ∷ b']' ∷ 10 ∷ 0
    ∷ b'a' ∷ b's' ∷ b'd' ∷ b'f' ∷ b'g' ∷ b'h' ∷ b'j' ∷ b'k' ∷ b'l' ∷ b';' ∷ 39 ∷ b'`' ∷ 0 ∷ 92
    ∷ b'z' ∷ b'x' ∷ b'c' ∷ b'v' ∷ b'b' ∷ b'n' ∷ b'm' ∷ b',' ∷ b'.' ∷ b'/' ∷ 0 ∷ b'*' ∷ 0 ∷ b' ' ∷ 0
    ∷ 0 ∷ 0 ∷ 0 ∷ 0 ∷ 0 ∷ 0 ∷ 0 ∷ 0 ∷ 0 ∷ 0 ∷ 0 ∷ 0 ∷ b'7' ∷ b'8' ∷ b'9' ∷ b'-' ∷ b'4' ∷ b'5' ∷ b'6'
    ∷ b'+' ∷ b'1' ∷ b'2' ∷ b'3' ∷ b'0' ∷ b'.' ∷ []

-- `keyboardMapShift`, with 34 for the double quote.
abbrev pub keyboard_map_shift : List ℕ
keyboard_map_shift =
    0 ∷ 0 ∷ b'!' ∷ b'@' ∷ b'#' ∷ b'$' ∷ b'%' ∷ b'^' ∷ b'&' ∷ b'*' ∷ b'(' ∷ b')' ∷ b'_' ∷ b'+' ∷ 8
    ∷ 9 ∷ b'q' ∷ b'w' ∷ b'e' ∷ b'r' ∷ b't' ∷ b'y' ∷ b'u' ∷ b'i' ∷ b'o' ∷ b'p' ∷ b'{' ∷ b'}' ∷ 10 ∷ 0
    ∷ b'a' ∷ b's' ∷ b'd' ∷ b'f' ∷ b'g' ∷ b'h' ∷ b'j' ∷ b'k' ∷ b'l' ∷ b':' ∷ 34 ∷ b'~' ∷ 0 ∷ b'|'
    ∷ b'z' ∷ b'x' ∷ b'c' ∷ b'v' ∷ b'b' ∷ b'n' ∷ b'm' ∷ b'<' ∷ b'>' ∷ b'?' ∷ 0 ∷ b'*' ∷ 0 ∷ b' ' ∷ 0
    ∷ 0 ∷ 0 ∷ 0 ∷ 0 ∷ 0 ∷ 0 ∷ 0 ∷ 0 ∷ 0 ∷ 0 ∷ 0 ∷ 0 ∷ b'7' ∷ b'8' ∷ b'9' ∷ b'-' ∷ b'4' ∷ b'5' ∷ b'6'
    ∷ b'+' ∷ b'1' ∷ b'2' ∷ b'3' ∷ b'0' ∷ b'.' ∷ []

-- `struct KeyboardState`; `prefix` is the field `data`, set between 0xe0 and the byte after it.
pub record State : Type 0 where
  pub caps : Bool
  pub num : Bool
  pub scroll : Bool
  pub shift : Bool
  pub ctrl : Bool
  pub prefix : Bool

-- What a call returns: the character, the new state, and the byte given to `keyboardSetLED` if any.
pub record Reply : Type 0 where
  pub char : ℕ
  pub state : State
  pub led : Option ℕ

abbrev pub bit : Bool → ℕ
bit true = 1
bit false = 0

pub led_byte : State → ℕ
led_byte s = bit_or (bit_or (bit s.scroll) (bit s.num * 2)) (bit s.caps * 4)

-- `return 0` with no LED change.
pub quiet : State → Reply
quiet s = record { char = 0; state = s; led = none }

-- A lock key: its flag has been toggled in `s`.
pub lock : State → Reply
lock s = record { char = 0; state = s; led = some (led_byte s) }

-- The codes after 0xe0.
pub arrow : ℕ → ℕ
arrow code =
    if code == 0x48
    then key_up
    else if code == 0x50
    then key_down
    else if code == 0x4d
    then key_right
    else if code == 0x4b
    then key_left
    else 0

abbrev pub is_digit : ℕ → Bool
is_digit c = leb b'0' c && leb c b'9'

abbrev pub is_lower : ℕ → Bool
is_lower c = leb b'a' c && leb c b'z'

-- The `default:` of the second switch, on a make code.
pub translate : State → ℕ → ℕ
translate s code =
    let keypad = leb 0x47 code && leb code 0x53 in
    let c = if s.shift then get_or keyboard_map_shift code 0 else get_or keyboard_map code 0 in
    if leb 84 code
    then 0
    else if c == 0
    then 0
    else if is_digit c && keypad && not s.num
    then 0
    else if is_lower c && xor s.shift s.caps
    then c - 32
    else c

-- The second switch, on the code without its top bit.
pub plain : Bool → ℕ → State → Reply
plain make code s =
    if (code == 0x2a) || (code == 0x36)
    then quiet (record s { shift = make })
    else if code == 0x1d
    then quiet (record s { ctrl = make })
    else if code == 0x3a
    then (if make then lock (record s { caps = not s.caps }) else quiet s)
    else if code == 0x45
    then (if make then lock (record s { num = not s.num }) else quiet s)
    else if code == 0x46
    then (if make then lock (record s { scroll = not s.scroll }) else quiet s)
    else if make
    then record { char = translate s code; state = s; led = none }
    else quiet s

-- `keyboardCallback`
pub keyboard_callback : ℕ → State → Reply
keyboard_callback byte s =
    let make = ltb byte 128 in
    let code = byte % 128 in
    if byte == 0xe0
    then quiet (record s { prefix = true })
    else if s.prefix
    then record {
      char = if make then arrow code else 0;
      state = record s { prefix = false };
      led = none;
    }
    else plain make code s

-- `keyboardIRQ`: the new value of `status`, and the bytes handed to `ttyKeyboardPress`, in order.
pub keyboard_irq : ℕ → List ℕ → ℕ × List ℕ
keyboard_irq status [] = (status, [])
keyboard_irq status (b ∷ bs) =
    let answer = (b == kb_data_ack) || (b == kb_data_resend) in
    let (last, pressed) = keyboard_irq (if answer then b else status) bs in
    (last, if answer then pressed else b ∷ pressed)

-- The state after a sequence of bytes, and the characters on the way, zeros left out.
pub run : State → List ℕ → State × List ℕ
run s [] = (s, [])
run s (b ∷ bs) =
    let r = keyboard_callback b s in
    let (last, chars) = run r.state bs in (last, if r.char == 0 then chars else r.char ∷ chars)
