-- ===== src/Input/Keyboard/Tests.antt =====
-- The driver's theorems at concrete keys, and runs of its functions.
use mathlib.Core.Bool.{xor}
use docqos_old.Base.{ℕ, ◌≡◌, refl, true, false, List, [], ◌∷◌}
use docqos_old.Input.Keyboard.{
  State, quiet, lock, arrow, translate, plain, keyboard_callback, keyboard_irq, run,
}

-- The state that the terminal task starts from.
abbrev start : State
start = record {
  caps = false;
  num = true;
  scroll = false;
  shift = false;
  ctrl = false;
  prefix = false;
}

-- Shift down, `a`, Shift up, `a`, and the Up arrow.
abbrev keys : List ℕ
keys = 0x2a ∷ 0x1e ∷ 0x9e ∷ 0xaa ∷ 0x1e ∷ 0x9e ∷ 0xe0 ∷ 0x48 ∷ []

shift_then_letter : (run start keys).1 ≡ b'A' ∷ b'a' ∷ 0x81 ∷ []
unfolding run keyboard_callback plain quiet lock arrow translate xor
shift_then_letter = refl

irq_answers : keyboard_irq 0 (0x1e ∷ 0xfa ∷ 0x9e ∷ []) ≡ (0xfa, 0x1e ∷ 0x9e ∷ [])
unfolding keyboard_irq
irq_answers = refl
