-- ===== src/Video/Terminal/Tests.antt =====
-- Reads of the terminal on concrete lines.
use docqos_old.Base.{ℕ, Option, some, List, [], ◌∷◌, arith}
use docqos_old.Video.Terminal.{tty_read}
use docqos_old.Video.Terminal.Reading.{Fits, tty_read-Fits}

-- "a", a backspace, "bc" and the return key.
abbrev typed : List (Option ℕ)
typed = some b'a' ∷ some 8 ∷ some b'b' ∷ some b'c' ∷ some 10 ∷ []

tty_read-Fits_example : Fits 4 0 typed (tty_read 4 typed)
tty_read-Fits_example = tty_read-Fits 4 typed (omega arith) (omega arith)

abbrev word : List ℕ
word = b'a' ∷ b'b' ∷ []
