-- ===== src/Terminal/Cursor/Moves.antt =====
-- The cursor keys move within the input line.
use polx.Base.{ℕ, ◌+◌, ◌-◌, ◌*◌, ◌%◌, ◌≤◌, ◌<◌, min, ◌≡◌, ◌↔◌, true, false, arith}
use polx.Terminal.Cursor.{Cursor, move_left, move_right}

-- The number of the entry under the cursor, row by row.
abbrev pub place : Cursor → ℕ
place c = c.y * 80 + c.x

-- The cursor is on the screen, in an input line that ends on the screen: `position_ctr` characters
-- after the line's start, of `chars_ctr`.
pub record InLine (c : Cursor) : Type 0 where
  pub col : c.x < 80
  pub row : c.y ≤ 24
  pub line_col : c.line_x < 80
  pub order : c.position_ctr ≤ c.chars_ctr
  pub at : place c ≡ c.line_y * 80 + c.line_x + c.position_ctr
  pub end : c.line_y * 80 + c.line_x + c.chars_ctr < 2000

-- The left arrow goes back one character of the line, if there is one, and stays in the line.
pub move_left-InLine :
    (c : Cursor)
    → InLine c
    → InLine (move_left c false)
      × ((move_left c false).position_ctr ≡ c.position_ctr - 1)
      × ((move_left c false).chars_ctr ≡ c.chars_ctr)
unfolding move_left
move_left-InLine c l = ground arith

-- The right arrow goes on one character of the line, if there is one, and stays in the line.
pub move_right-InLine :
    (c : Cursor)
    → InLine c
    → InLine (move_right c false)
      × ((move_right c false).position_ctr ≡ min (c.position_ctr + 1) c.chars_ctr)
      × ((move_right c false).chars_ctr ≡ c.chars_ctr)
unfolding move_right
move_right-InLine c l = ground arith

-- With the cursor before the end of its line, the left arrow after the right arrow comes back to the same
-- place of the same line.
pub move_left-move_right :
    (c : Cursor)
    → InLine c
    → c.position_ctr < c.chars_ctr
    → let d = move_left (move_right c false) false in
      (d.x ≡ c.x) × (d.y ≡ c.y) × (d.position_ctr ≡ c.position_ctr) × (d.chars_ctr ≡ c.chars_ctr)
unfolding move_left move_right
move_left-move_right c l h = ground arith

-- HOME goes to the start of the line, and stays in the line.
pub move_left-home :
    (c : Cursor)
    → InLine c
    → InLine (move_left c true) × (place (move_left c true) ≡ c.line_y * 80 + c.line_x)
unfolding move_left
move_left-home c l = ground arith

-- With the cursor before the end of its line, END goes to the entry just after the line. The cursor's column is a column of the screen exactly
-- when the line's last row, counted from the line's first column, does not run past the right edge.
pub move_right-end :
    (c : Cursor)
    → InLine c
    → c.position_ctr < c.chars_ctr
    → let d = move_right c true in
      (place d ≡ c.line_y * 80 + c.line_x + c.chars_ctr)
      × (d.position_ctr ≡ c.chars_ctr)
      × ((d.x < 80) ↔ (c.line_x + c.chars_ctr % 80 < 80))
unfolding move_right
move_right-end c l h = ground arith

-- So END is right for a line that begins in the first column.
pub move_right_end-InLine : (c : Cursor) → InLine c → c.line_x ≡ 0 → InLine (move_right c true)
unfolding move_right
move_right_end-InLine c l z = ground arith
