-- ===== src/Terminal/Cursor/Lines.antt =====
-- Printing moves the cursor over the screen, and Enter ends the input line.
use polx.Base.{◌+◌, ◌-◌, ◌*◌, ◌/◌, ◌%◌, ◌≤◌, ◌<◌, ◌≡◌, ◌↔◌, ◌⊎◌, arith}
use polx.Terminal.Cursor.{
  Cursor, success, max_height, newline, newline_kbd, next_char, next_char_kbd, remove_char,
}
use polx.Terminal.Cursor.Moves.{place, InLine}

-- The cursor is on the screen.
pub record OnScreen (c : Cursor) : Type 0 where
  pub col : c.x < 80
  pub row : c.y ≤ 24

-- `cursor_newline` goes to the start of the next row, or asks for a scroll on the last one.
pub newline-OnScreen :
    (c : Cursor)
    → OnScreen c
    → OnScreen (newline c).1
      × ((newline c).1.x ≡ 0)
      × ((((newline c).0 ≡ max_height) × (c.y ≡ 24) × ((newline c).1.y ≡ 24))
          ⊎ (((newline c).0 ≡ success) × ((newline c).1.y ≡ c.y + 1)))
unfolding newline
newline-OnScreen c s = ground arith

-- `cursor_nextchar` goes to the next entry of the screen; on the last one it asks for a scroll and goes
-- to the start of the last row.
pub next_char-OnScreen :
    (c : Cursor)
    → OnScreen c
    → OnScreen (next_char c).1
      × ((((next_char c).0 ≡ max_height) × (place c ≡ 1999) × (place (next_char c).1 ≡ 1920))
          ⊎ (((next_char c).0 ≡ success) × (place (next_char c).1 ≡ place c + 1)))
unfolding next_char
next_char-OnScreen c s = ground arith

-- A typed character keeps the cursor in its line, with one more character before it and one more in
-- all, if the line still ends on the screen after it.
pub next_char_kbd-InLine :
    (c : Cursor)
    → InLine c
    → c.line_y * 80 + c.line_x + c.chars_ctr + 1 < 2000
    → InLine (next_char_kbd c).1
      × ((next_char_kbd c).0 ≡ success)
      × ((next_char_kbd c).1.position_ctr ≡ c.position_ctr + 1)
      × ((next_char_kbd c).1.chars_ctr ≡ c.chars_ctr + 1)
unfolding next_char_kbd
next_char_kbd-InLine c l h = ground arith

-- Removing a character that is not under the cursor keeps the cursor in its line.
pub remove_char-InLine :
    (c : Cursor)
    → InLine c
    → c.position_ctr < c.chars_ctr
    → InLine (remove_char c)
      × ((remove_char c).chars_ctr ≡ c.chars_ctr - 1)
      × ((remove_char c).position_ctr ≡ c.position_ctr)
unfolding remove_char
remove_char-InLine c l h = ground arith

-- Enter away from the last row, in a line that is not empty, puts the cursor below the whole input line exactly
-- when the line's last row, counted from the line's first column, does not run past the right edge.
pub newline_kbd-below_iff :
    (c : Cursor)
    → InLine c
    → c.y < 24
    → 0 < c.chars_ctr
    → let d = (newline_kbd c).1 in
      ((c.line_y * 80 + c.line_x + c.chars_ctr - 1) / 80 < d.y) ↔ (c.line_x + c.chars_ctr % 80 ≤ 80)
unfolding newline_kbd
newline_kbd-below_iff c l h k = ground arith

-- Enter with the cursor above the last row, in a line that fills the rows down to the last one, puts the
-- cursor below the screen.
pub newline_kbd-off_screen :
    (c : Cursor)
    → InLine c
    → c.y < 24
    → c.line_y + c.chars_ctr / 80 ≡ 24
    → ¬ OnScreen (newline_kbd c).1
unfolding newline_kbd
newline_kbd-off_screen c l h e = ground arith
