-- ===== src/Video/Screen/Position.antt =====
-- Where the cursor is after a write.
use docqos_old.Base.{
  ℕ, zero, suc, ◌+◌, ◌-◌, ◌%◌, ◌≤◌, ◌<◌, ◌≡◌, refl, ◌≢◌, ◌∙◌, inl, inr, true, false, List, [], ◌∷◌,
  arith, ltb, ◌==◌, if◌then◌else◌, Bool-cases,
}
use docqos_old.Video.Screen.{
  lines, columns, Screen, Colour, white, end_line, put_cell, draw, write_char, write_spaces, tab,
  erase, backspace, wrap, after_switch, put, escape, write_loop, tty_write_screen, place,
  cell_count,
}

-- The cursor is on the screen, and `fb` is its row, counted from the line at the top.
pub record IsValid (s : Screen) : Type 0 where
  pub x_in : s.x < columns
  pub y_in : s.y < lines
  pub line_in : s.line < lines
  pub scroll_in : s.scroll ≤ lines
  pub row : s.fb ≡ (s.y + lines - s.line) % lines

-- The same, with `x` up to the end of the line: what the switch leaves.
pub record IsWide (s : Screen) : Type 0 where
  pub x_in : s.x ≤ columns
  pub y_in : s.y < lines
  pub line_in : s.line < lines
  pub scroll_in : s.scroll ≤ lines
  pub row : s.fb ≡ (s.y + lines - s.line) % lines

widen : (s : Screen) → IsValid s → IsWide s
widen s v = record {
  x_in = omega (arith, v.x_in);
  y_in = v.y_in;
  line_in = v.line_in;
  scroll_in = v.scroll_in;
  row = v.row;
}

-- Two screens with the cursor and the lines at the same place.
pub record SamePlace (s s' : Screen) : Type 0 where
  pub same_x : s'.x ≡ s.x
  pub same_y : s'.y ≡ s.y
  pub same_line : s'.line ≡ s.line
  pub same_scroll : s'.scroll ≡ s.scroll
  pub same_fb : s'.fb ≡ s.fb

end_line-SamePlace : (y x : ℕ) (s : Screen) → SamePlace s (end_line y x s)
unfolding end_line
end_line-SamePlace y x s = elim (Bool-cases (ltb (place y x) cell_count)) [
  | inl e ↦ rw e (record {
    same_x = refl;
    same_y = refl;
    same_line = refl;
    same_scroll = refl;
    same_fb = refl;
  })
  | inr e ↦ rw e (record {
    same_x = refl;
    same_y = refl;
    same_line = refl;
    same_scroll = refl;
    same_fb = refl;
  })
]

same-IsWide : (s s' : Screen) → SamePlace s s' → IsWide s → IsWide s'
same-IsWide s s' e v = record {
  x_in = omega (arith, e.same_x, v.x_in);
  y_in = omega (arith, e.same_y, v.y_in);
  line_in = omega (arith, e.same_line, v.line_in);
  scroll_in = omega (arith, e.same_scroll, v.scroll_in);
  row = rw (e.same_fb, e.same_y, e.same_line) v.row;
}

draw-IsWide : (c : ℕ) (colour : Colour) (s : Screen) → IsValid s → IsWide (draw c colour s)
unfolding draw put_cell
draw-IsWide c colour s v = record {
  x_in = omega (arith, v.x_in);
  y_in = v.y_in;
  line_in = v.line_in;
  scroll_in = v.scroll_in;
  row = v.row;
}

write_char-IsWide :
    (c : ℕ) (colour : Colour) (s : Screen) → IsValid s → IsWide (write_char c colour s)
unfolding write_char
write_char-IsWide c colour s v =
    same-IsWide (draw c colour s) _
      (end_line-SamePlace (draw c colour s).y (draw c colour s).x (draw c colour s))
      (draw-IsWide c colour s v)

write_spaces-IsWide :
    (n : ℕ) (s : Screen) → s.x + n ≤ columns → IsWide s → IsWide (write_spaces n s)
unfolding write_spaces put_cell
write_spaces-IsWide zero s h v = v
write_spaces-IsWide (suc n) s h v = write_spaces-IsWide n _ (omega arith) (record {
  x_in = omega arith;
  y_in = v.y_in;
  line_in = v.line_in;
  scroll_in = v.scroll_in;
  row = v.row;
})

tab-IsWide : (s : Screen) → IsValid s → IsWide (tab s)
unfolding tab
tab-IsWide s v =
    write_spaces-IsWide (if ltb (8 - s.x % 8) (columns - s.x) then 8 - s.x % 8 else columns - s.x) s
      (ground (arith, v.x_in)) (widen s v)

backspace-IsWide : (s : Screen) → IsValid s → IsWide (backspace s)
unfolding backspace erase put_cell
backspace-IsWide s v = elim (Bool-cases (s.x == 0)) [
  | inr inside ↦ rw inside (record {
    x_in = omega (arith, v.x_in);
    y_in = v.y_in;
    line_in = v.line_in;
    scroll_in = v.scroll_in;
    row = v.row;
  })
  | inl start ↦ elim (Bool-cases (s.y == s.line)) [
    | inl top ↦ rw (start, top) (widen s v)
    | inr below ↦ elim (Bool-cases (s.y == 0)) [
      | inl z ↦
          rw (start, below, z)
            (record {
              x_in = omega arith;
              y_in = omega arith;
              line_in = v.line_in;
              scroll_in = v.scroll_in;
              row = ground (arith, v.y_in, v.line_in, v.row);
            })
      | inr p ↦
          rw (start, below, p)
            (record {
              x_in = omega arith;
              y_in = ground (arith, v.y_in);
              line_in = v.line_in;
              scroll_in = v.scroll_in;
              row = ground (arith, v.y_in, v.line_in, v.row);
            })
    ]
  ]
]

wrap-IsValid : (s : Screen) → IsWide s → IsValid (wrap s)
unfolding wrap
wrap-IsValid s v = elim (Bool-cases (s.y + 1 == lines)) [
  | inl last ↦ elim (Bool-cases (0 == s.line)) [
    | inl full ↦
        rw (last, full)
          (record {
            x_in = omega arith;
            y_in = omega arith;
            line_in = ground arith;
            scroll_in = ground (arith, v.scroll_in);
            row = ground (arith, v.row);
          })
    | inr free ↦
        rw (last, free)
          (record {
            x_in = omega arith;
            y_in = omega arith;
            line_in = v.line_in;
            scroll_in = v.scroll_in;
            row = ground (arith, v.row, v.line_in);
          })
  ]
  | inr more ↦ elim (Bool-cases (s.y + 1 == s.line)) [
    | inl full ↦
        rw (more, full)
          (record {
            x_in = omega arith;
            y_in = ground (arith, v.y_in);
            line_in = ground (arith, v.line_in);
            scroll_in = ground (arith, v.scroll_in);
            row = ground (arith, v.row, v.line_in);
          })
    | inr free ↦
        rw (more, free)
          (record {
            x_in = omega arith;
            y_in = ground (arith, v.y_in);
            line_in = v.line_in;
            scroll_in = v.scroll_in;
            row = ground (arith, v.row, v.line_in, v.y_in);
          })
  ]
]

after_switch-IsValid : (s : Screen) → IsWide s → IsValid (after_switch s)
unfolding after_switch
after_switch-IsValid s v = elim (Bool-cases (s.x == columns)) [
  | inl full ↦ rw full (wrap-IsValid s v)
  | inr more ↦ rw more (record {
    x_in = ground (arith, v.x_in);
    y_in = v.y_in;
    line_in = v.line_in;
    scroll_in = v.scroll_in;
    row = v.row;
  })
]

put-IsValid : (c : ℕ) (colour : Colour) (s : Screen) → IsValid s → IsValid (put c colour s)
unfolding put
put-IsValid c colour s v = elim (Bool-cases (c == 9)) [
  | inl e ↦ rw e (after_switch-IsValid (tab s) (tab-IsWide s v))
  | inr e ↦ elim (Bool-cases (c == 8)) [
    | inl f ↦ rw (e, f) (after_switch-IsValid (backspace s) (backspace-IsWide s v))
    | inr f ↦ elim (Bool-cases (c == 10)) [
      | inl g ↦
          rw (e, f, g)
            (after_switch-IsValid (record s { x = columns })
              (record {
                x_in = omega arith;
                y_in = v.y_in;
                line_in = v.line_in;
                scroll_in = v.scroll_in;
                row = v.row;
              }))
      | inr g ↦
          rw (e, f, g)
            (after_switch-IsValid (write_char c colour s) (write_char-IsWide c colour s v))
    ]
  ]
]

write_loop-IsValid :
    (rounds skip : ℕ) (colour : Colour) (text : List ℕ) (s : Screen)
    → IsValid s
    → IsValid (write_loop rounds skip colour text s)
unfolding write_loop
write_loop-IsValid zero skip colour text s v = v
write_loop-IsValid (suc rounds) skip colour [] s v = v
write_loop-IsValid (suc rounds) (suc skip) colour (c ∷ more) s v =
    write_loop-IsValid rounds skip colour more s v
write_loop-IsValid (suc rounds) zero colour (c ∷ more) s v = elim (Bool-cases (c == 27)) [
  | inl e ↦ rw e (
      write_loop-IsValid rounds (escape more colour).1 (escape more colour).0 more (after_switch s)
        (after_switch-IsValid s (widen s v)))
  | inr e ↦
      rw e (write_loop-IsValid rounds 0 colour more (put c colour s) (put-IsValid c colour s v))
]

-- After ttyWriteScreen of any bytes, with tabs, backspaces, line feeds and colours among them, the cursor
-- is on the screen, no more than a screen is scrolled, and `fb` is the cursor's row below the top line.
pub tty_write_screen-IsValid :
    (length : ℕ) (text : List ℕ) (s : Screen) → IsValid s → IsValid (tty_write_screen length text s)
unfolding tty_write_screen
tty_write_screen-IsValid length text s v =
    let t : Screen = write_loop length 0 white text s in
    let w = write_loop-IsValid length 0 white text s v in
    let e = end_line-SamePlace t.y t.x t in
    record {
      x_in = omega (arith, e.same_x, w.x_in);
      y_in = omega (arith, e.same_y, w.y_in);
      line_in = omega (arith, e.same_line, w.line_in);
      scroll_in = omega (arith, e.same_scroll, w.scroll_in);
      row = rw (e.same_fb, e.same_y, e.same_line) w.row;
    }

-- A backspace, away from the line's start and at it.
put-back :
    (k : Colour) (s : Screen)
    → IsValid s
    → 0 < s.x
    → ((put 8 k s).x ≡ s.x - 1) × ((put 8 k s).y ≡ s.y)
unfolding put after_switch backspace erase put_cell
put-back k s v h =
    let a : (s.x == 0) ≡ false = ground arith in
    let b : (s.x - 1 == columns) ≡ false = ground (arith, v.x_in) in rw (a, b) (refl, refl)

put-back_line :
    (k : Colour) (s : Screen)
    → s.x ≡ 0
    → s.y ≢ s.line
    → ((put 8 k s).x ≡ columns - 1) × ((put 8 k s).y ≡ (if s.y == 0 then lines else s.y) - 1)
unfolding put after_switch backspace erase put_cell
put-back_line k s h ne =
    let a : (s.x == 0) ≡ true = ground arith in
    let b : (s.y == s.line) ≡ false = ground arith in rw (a, b) (refl, refl)

wrap-place :
    (s : Screen)
    → IsWide s
    → ((wrap s).x ≡ 0)
      × ((wrap s).y ≡ (if s.y + 1 == lines then 0 else s.y + 1))
      × ((wrap s).y ≢ (wrap s).line)
unfolding wrap
wrap-place s v = elim (Bool-cases ((if s.y + 1 == lines then 0 else s.y + 1) == s.line)) [
  | inl full ↦ rw full (refl, refl, λ e. ground (arith, v.y_in, v.line_in))
  | inr free ↦ rw free (refl, refl, ground arith)
]

put-visible :
    (c : ℕ) (k : Colour) (s : Screen) → 32 ≤ c → put c k s ≡ after_switch (write_char c k s)
unfolding put
put-visible c k s h =
    let a : (c == 9) ≡ false = ground arith in
    let b : (c == 8) ≡ false = ground arith in
    let d : (c == 10) ≡ false = ground arith in rw (a, b, d) refl

write_char-place :
    (c : ℕ) (k : Colour) (s : Screen)
    → ((write_char c k s).x ≡ s.x + 1) × ((write_char c k s).y ≡ s.y)
unfolding write_char draw put_cell
write_char-place c k s =
    let e = end_line-SamePlace (draw c k s).y (draw c k s).x (draw c k s) in (e.same_x, e.same_y)

-- A character and a backspace, in this order, bring the cursor back to where it was, also over the end of
-- a line and of the screen.
pub put-put :
    (c : ℕ) (k k' : Colour) (s : Screen)
    → IsValid s
    → 32 ≤ c
    → ((put 8 k' (put c k s)).x ≡ s.x) × ((put 8 k' (put c k s)).y ≡ s.y)
unfolding after_switch
put-put c k k' s v h =
    let w : Screen = write_char c k s in
    let wide = write_char-IsWide c k s v in
    let at = write_char-place c k s in
    rw (put-visible c k s h) (elim (Bool-cases (w.x == columns)) [
      | inl full ↦
          let p = wrap-place w wide in
          let b = put-back_line k' (wrap w) p.0 p.2 in
          rw full (
            omega (arith, b.0, at.0, full_lem (write_char c k s).x full),
            ground (arith, b.1, p.1, at.1, v.y_in),
          )
      | inr more ↦
          let t : IsValid w = rw more at (after_switch-IsValid w wide) in
          let b = put-back k' w t (omega (arith, at.0)) in
          rw more (omega (arith, b.0, at.0), b.1 ∙ at.1)
    ])
  where
    full_lem : (a : ℕ) → (a == columns) ≡ true → a ≡ columns
    full_lem a e = ground arith
