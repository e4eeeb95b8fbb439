-- ===== src/Input/Keyboard/Locks.antt =====
-- The lock flags and the LEDs.
use mathlib.Core.Bool.{xor}
use docqos_old.Base.{
  ℕ, ◌<◌, ◌≡◌, ◌≢◌, ◌⊎◌, Bool, true, false, none, some, List, [], ◌∷◌, arith, ◌==◌, All, ◌∙◌,
}
use docqos_old.Input.Keyboard.{State, led_byte, quiet, lock, plain, keyboard_callback, run}

-- An LED command is sent exactly when one of the three lock keys is pressed, and it carries the three
-- flags as they are after the key; without one the flags stay as they were.
pub callback-led :
    (b : ℕ) (s : State)
    → let r = keyboard_callback b s in
      ((r.led ≡ some (led_byte r.state))
        × (s.prefix ≡ false)
        × ((b ≡ 0x3a) ⊎ ((b ≡ 0x45) ⊎ (b ≡ 0x46))))
      ⊎ ((r.led ≡ none)
          × (r.state.caps ≡ s.caps)
          × (r.state.num ≡ s.num)
          × (r.state.scroll ≡ s.scroll)
          × ((s.prefix ≡ true) ⊎ ((b ≢ 0x3a) × (b ≢ 0x45) × (b ≢ 0x46))))
unfolding keyboard_callback plain quiet lock xor
callback-led b s = ground arith

-- Whether 0x3a, the press of Caps Lock, occurs an odd number of times.
pub odd_presses : List ℕ → Bool
odd_presses [] = false
odd_presses (b ∷ bs) = xor (b == 0x3a) (odd_presses bs)

callback-caps :
    (b : ℕ) (s : State)
    → b < 256
    → b ≢ 0xe0
    → s.prefix ≡ false
    → let r = keyboard_callback b s in
      (r.state.prefix ≡ false) × (r.state.caps ≡ xor (b == 0x3a) s.caps)
unfolding keyboard_callback plain quiet lock xor
callback-caps b s h n p = ground arith

xor-swap : (a b c : Bool) → xor a (xor b c) ≡ xor (xor b a) c
unfolding xor
xor-swap a b c = ground arith

-- Over any bytes without the prefix 0xe0, Caps Lock is toggled once for each press of its key, whatever
-- else is typed in between.
pub run-caps :
    (bs : List ℕ) (s : State)
    → All (λ b. (b < 256) × (b ≢ 0xe0)) bs
    → s.prefix ≡ false
    → (run s bs).0.caps ≡ xor (odd_presses bs) s.caps
unfolding run odd_presses xor
run-caps [] s h p = ground arith
run-caps (b ∷ bs) s h p =
    let step = callback-caps b s h.0.0 h.0.1 p in
    run-caps bs (keyboard_callback b s).state h.1 step.0
    ∙ rw step.1 (xor-swap (odd_presses bs) (b == 0x3a) s.caps)
