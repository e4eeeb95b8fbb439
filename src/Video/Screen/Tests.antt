-- ===== src/Video/Screen/Tests.antt =====
-- Writes to the screen at concrete places.
use docqos_old.Base.{ℕ, refl, false, [], ◌∷◌, arith}
use docqos_old.Video.Screen.{Cell, Screen, tty_write_screen}
use docqos_old.Video.Screen.Position.{IsValid, tty_write_screen-IsValid}

abbrev blank : ℕ → Cell
blank p = record { code = 0; change = false; red = 0; green = 0; blue = 0 }

-- The end of the last line, with the top of the screen at the line 3.
abbrev last_place : Screen
last_place = record {
  x = 101;
  y = 41;
  scroll = 0;
  line = 3;
  fb = 38;
  cells = blank;
  dirty = λ p. 0;
}

last_place-IsValid : IsValid last_place
last_place-IsValid = record {
  x_in = omega arith;
  y_in = omega arith;
  line_in = omega arith;
  scroll_in = omega arith;
  row = refl;
}

tty_write_screen-IsValid_example : IsValid (tty_write_screen 3 (b'a' ∷ 8 ∷ 10 ∷ []) last_place)
tty_write_screen-IsValid_example =
    tty_write_screen-IsValid 3 (b'a' ∷ 8 ∷ 10 ∷ []) last_place last_place-IsValid

-- The cursor before the top line.
abbrev before_top : Screen
before_top = record { x = 0; y = 1; scroll = 0; line = 3; fb = 40; cells = blank; dirty = λ p. 0 }

before_top-IsValid : IsValid before_top
before_top-IsValid = record {
  x_in = omega arith;
  y_in = omega arith;
  line_in = omega arith;
  scroll_in = omega arith;
  row = refl;
}
