-- ===== src/Video/Screen/Rows.antt =====
-- Where ttyUpdate draws a line.
use docqos_old.Base.{ℕ, ◌+◌, ◌-◌, ◌%◌, ◌≤◌, ◌<◌, ◌≡◌, false, arith, ltb, leb, ◌&&◌}
use docqos_old.Video.Screen.{lines, Screen, row_of}
use docqos_old.Video.Screen.Position.{IsValid}

-- ttyUpdate draws each line of a valid screen on its row below the top line, unless the line is before the
-- top line and the cursor's line is not.
pub row_of_lem :
    (s : Screen) (i : ℕ)
    → IsValid s
    → i < lines
    → (ltb i s.line && leb s.line s.y) ≡ false
    → row_of s i ≡ (i + lines - s.line) % lines
unfolding row_of
row_of_lem s i v h ok = ground (arith, v.y_in, v.line_in, v.row)

-- On a valid screen whose cursor is not before the top line, a line before the top line gets a row that is
-- off the screen.
pub row_of-off : (s : Screen) (i : ℕ) → IsValid s → i < s.line → s.line ≤ s.y → lines ≤ row_of s i
unfolding row_of
row_of-off s i v h ok = ground (arith, v.y_in, v.line_in, v.row)
