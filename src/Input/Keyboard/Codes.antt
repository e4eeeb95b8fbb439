-- ===== src/Input/Keyboard/Codes.antt =====
-- The characters that scan codes yield.
use mathlib.Core.Bool.{xor}
use docqos_old.Base.{
  ℕ, zero, suc, ◌-◌, ◌%◌, ◌≤◌, ◌<◌, ◌≡◌, refl, ◌⊎◌, Bool, true, false, not, ◌&&◌, ◌||◌, none, List,
  [], ◌∷◌, arith, ltb, ◌==◌, if◌then◌else◌, get_or, All, length, passes_below, passes-at,
}
use docqos_old.Input.Keyboard.{
  keyboard_map, keyboard_map_shift, State, quiet, lock, arrow, is_lower, translate, plain,
  keyboard_callback,
}

get_or-lt : (xs : List ℕ) (n i : ℕ) → All (λ x. x < n) xs → 0 < n → get_or xs i 0 < n
get_or-lt [] n i h p = p
get_or-lt (x ∷ xs) n zero h p = h.0
get_or-lt (x ∷ xs) n (suc i) h p = get_or-lt xs n i h.1 p

map_chars : All (λ x. x < 127) keyboard_map
map_chars = omega arith

map_shift_chars : All (λ x. x < 127) keyboard_map_shift
map_shift_chars = omega arith

translate-lt : (s : State) (code : ℕ) → translate s code < 127
unfolding translate
translate-lt s code = ground (
  arith,
  get_or-lt keyboard_map 127 code map_chars (omega arith),
  get_or-lt keyboard_map_shift 127 code map_shift_chars (omega arith),
)

plain-lt : (make : Bool) (code : ℕ) (s : State) → (plain make code s).char < 127
unfolding plain quiet lock
plain-lt make code s = ground (arith, translate-lt s code)

-- A byte that is not an ASCII character comes only right after 0xe0, and is one of the four arrows.
pub callback-char :
    (b : ℕ) (s : State)
    → ((keyboard_callback b s).char < 127)
      ⊎ ((s.prefix ≡ true)
          × (0x81 ≤ (keyboard_callback b s).char)
          × ((keyboard_callback b s).char ≤ 0x84))
unfolding keyboard_callback quiet arrow
callback-char b s = ground (arith, plain-lt (ltb b 128) (b % 128) s)

-- Releasing a key yields no character, lights no LED, and changes no lock.
pub release-quiet :
    (b : ℕ) (s : State)
    → 128 ≤ b
    → let r = keyboard_callback b s in
      (r.char ≡ 0)
      × (r.led ≡ none)
      × (r.state.caps ≡ s.caps)
      × (r.state.num ≡ s.num)
      × (r.state.scroll ≡ s.scroll)
unfolding keyboard_callback plain quiet
release-quiet b s h = ground arith

-- What the two tables say of a letter, for every code: it is no modifier, both tables have it, and it
-- is not on the keypad.
letter_entry : ℕ → Bool
letter_entry code =
    let c = get_or keyboard_map code 0 in
    not (is_lower c)
    || ((get_or keyboard_map_shift code 0 == c)
        && not (
            (code == 0x2a)
            || (code == 0x36)
            || (code == 0x1d)
            || (code == 0x3a)
            || (code == 0x45)
            || (code == 0x46)))

letter_table : passes_below letter_entry 128 ≡ true
unfolding passes_below letter_entry
letter_table = refl

past_table : (xs : List ℕ) (n : ℕ) → length xs ≤ n → get_or xs n 0 ≡ 0
past_table [] n h = refl
past_table (x ∷ xs) zero h = absurd (omega arith)
past_table (x ∷ xs) (suc n) h = past_table xs n (omega arith)

-- Pressing a letter key yields the letter, in upper case exactly if one of Shift and Caps Lock is on,
-- and changes nothing else.
pub callback-letter :
    (code : ℕ) (s : State)
    → code < 128
    → s.prefix ≡ false
    → is_lower (get_or keyboard_map code 0) ≡ true
    → keyboard_callback code s ≡ record {
      char =
          if xor s.shift s.caps
          then get_or keyboard_map code 0 - 32
          else get_or keyboard_map code 0;
      state = s;
      led = none;
    }
unfolding keyboard_callback plain translate letter_entry
callback-letter code s h p l =
    ground (arith, passes-at letter_entry 128 code letter_table h, past_table keyboard_map code)
