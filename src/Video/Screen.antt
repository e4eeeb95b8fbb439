-- ===== src/Video/Screen.antt =====
-- The screen of src/video/tty.c: ttyWriteScreen, and where ttyUpdate draws. `lines` and `columns` have the
-- values of initTTY, which are the bounds of the array `new`. A character's place in it is one number, since
-- `new[y][columns]` is the next line's first, and behind the last line stands `dirty[0]`. The semaphore
-- makes each function one step.
pub mod Position
pub mod Rows
mod Tests
use docqos_old.Base.{
  ℕ, zero, suc, ◌+◌, ◌-◌, ◌*◌, ◌/◌, ◌%◌, ◌^◌, Bool, true, false, ◌&&◌, ◌||◌, List, [], ◌∷◌, ltb,
  leb, ◌==◌, if◌then◌else◌, get_or, set,
}

abbrev pub lines : ℕ
lines = 42

abbrev pub columns : ℕ
columns = 102

-- `struct TTYCharacter`; `code` is the field `character`.
pub record Cell : Type 0 where
  pub code : ℕ
  pub change : Bool
  pub red : ℕ
  pub green : ℕ
  pub blue : ℕ

-- `struct TTYScreen`, less what never changes.
pub record Screen : Type 0 where
  pub x : ℕ
  pub y : ℕ
  pub scroll : ℕ
  pub line : ℕ
  pub fb : ℕ
  pub cells : ℕ → Cell
  pub dirty : ℕ → ℕ

pub record Colour : Type 0 where
  pub red : ℕ
  pub green : ℕ
  pub blue : ℕ

abbrev pub white : Colour
white = record { red = 255; green = 255; blue = 255 }

abbrev pub place : ℕ → ℕ → ℕ
place y x = y * columns + x

abbrev pub update {ℓ} : {A : Type ℓ} → ℕ → A → (ℕ → A) → ℕ → A
update k a f j = if j == k then a else f j

-- The places of the array.
abbrev pub cell_count : ℕ
cell_count = lines * columns

-- `screen->new[y][x].character = '\0'`: the seven bits of the byte, wherever it stands.
pub end_line : ℕ → ℕ → Screen → Screen
end_line y x s =
    let p = place y x in
    if ltb p cell_count
    then record s { cells = update p (record (s.cells p) { code = 0 }) s.cells }
    else record s { dirty = update (p - cell_count) (s.dirty (p - cell_count) / 128 * 128) s.dirty }

pub put_cell : ℕ → Cell → Screen → Screen
put_cell p c s = record s { cells = update p c s.cells }

-- The `default:` of the switch, up to the end of the line's text.
pub draw : ℕ → Colour → Screen → Screen
unfolding put_cell
draw c colour s =
    let code = if ltb 0x7e c || ltb c 0x20 then 0x20 else c in
    let p = place s.y s.x in
    let cell = record (s.cells p) {
      code = code;
      red = colour.red;
      green = colour.green;
      blue = colour.blue;
    } in
    record (put_cell p cell s) { x = s.x + 1; dirty = update s.y 1 s.dirty }

-- The `default:` of the switch.
pub write_char : ℕ → Colour → Screen → Screen
unfolding draw end_line
write_char c colour s = let s' = draw c colour s in end_line s'.y s'.x s'

-- The loop of the tab, over the spaces left.
pub write_spaces : ℕ → Screen → Screen
unfolding put_cell
write_spaces zero s = s
write_spaces (suc n) s =
    let p = place s.y s.x in
    let cell = record (s.cells p) { code = 0x20; red = 255; green = 255; blue = 255 } in
    write_spaces n (record (put_cell p cell s) { x = s.x + 1 })

pub tab : Screen → Screen
unfolding write_spaces
tab s =
    let c = 8 - s.x % 8 in
    let room = columns - s.x in write_spaces (if ltb c room then c else room) s

-- The end of the backspace, with `x` behind the character.
pub erase : Screen → Screen
unfolding put_cell
erase s =
    let p = place s.y (s.x - 1) in
    record (put_cell p (record (s.cells p) { code = 0x20; change = true }) s) {
      x = s.x - 1;
      dirty = update s.y 1 s.dirty;
    }

pub backspace : Screen → Screen
unfolding erase
backspace s =
    let back = record s {
      x = columns;
      y = (if s.y == 0 then lines else s.y) - 1;
      fb = (s.fb + (2 ^ 32 - 1)) % 2 ^ 32;
    } in
    if s.x == 0 then (if s.y == s.line then s else erase back) else erase s

-- What follows the switch when the line is full.
pub wrap : Screen → Screen
wrap s =
    let y = if s.y + 1 == lines then 0 else s.y + 1 in
    let line = if s.line + 1 == lines then 0 else s.line + 1 in
    if y == s.line
    then record s {
      x = 0;
      y = y;
      line = line;
      scroll = if ltb s.scroll lines then s.scroll + 1 else s.scroll;
    }
    else record s { x = 0; y = y; fb = (s.fb + 1) % 2 ^ 32 }

pub after_switch : Screen → Screen
unfolding wrap
after_switch s = if s.x == columns then wrap s else s

-- Whether the bytes after an escape are "[01;3", and "m" behind the colour's digit.
pub is_colour : List ℕ → Bool
is_colour text =
    (get_or text 0 0 == b'[')
    && (get_or text 3 0 == b';')
    && (get_or text 6 0 == b'm')
    && (get_or text 1 0 == b'0')
    && (get_or text 2 0 == b'1')
    && (get_or text 4 0 == b'3')

-- A round of the loop for a character other than the escape.
pub put : ℕ → Colour → Screen → Screen
unfolding write_char tab backspace after_switch
put c colour s = after_switch (
    if c == 9
    then tab s
    else if c == 8
    then backspace s
    else if c == 10
    then record s { x = columns }
    else write_char c colour s)

abbrev pub red : Colour
red = record { red = 255; green = 0; blue = 0 }

abbrev pub blue : Colour
blue = record { red = 0; green = 0; blue = 255 }

-- The colour that an escape sets, given the bytes after it.
pub escape : List ℕ → Colour → Colour × ℕ
unfolding is_colour
escape more colour =
    let digit = get_or more 5 0 in
    if is_colour more
    then (if digit == b'2' then (red, 7) else if digit == b'4' then (blue, 7) else (colour, 0))
    else (colour, 0)

-- The loop of ttyWriteScreen, with as many rounds as there are bytes left; it passes over the next `skip`
-- of them. The string has at least `rounds` bytes, and a byte behind its end reads as 0.
pub write_loop : ℕ → ℕ → Colour → List ℕ → Screen → Screen
unfolding put escape
write_loop zero skip colour text s = s
write_loop (suc rounds) skip colour [] s = s
write_loop (suc rounds) (suc skip) colour (c ∷ more) s = write_loop rounds skip colour more s
write_loop (suc rounds) zero colour (c ∷ more) s =
    let (colour', skip) = escape more colour in
    if c == 27
    then write_loop rounds skip colour' more (after_switch s)
    else write_loop rounds 0 colour more (put c colour s)

-- `ttyWriteScreen`
pub tty_write_screen : ℕ → List ℕ → Screen → Screen
unfolding write_loop
tty_write_screen length text s = let s' = write_loop length 0 white text s in end_line s'.y s'.x s'

-- The row on which ttyUpdate draws the line `i`.
pub row_of : Screen → ℕ → ℕ
row_of s i =
    let height = (i + (2 ^ 32 - s.y) + s.fb) % 2 ^ 32 in
    if leb lines height then height - lines else height
