-- ===== src/Terminal/Cursor.antt =====
-- The terminal's cursor, src/dev/terminal/cursor.c and its header. The counters are 32-bit words; -1 in
-- `line_x` and `line_y` says that no input line has begun.
pub mod Moves
pub mod Lines
pub mod Shown
use polx.Base.{
  ℕ, ◌-◌, ◌/◌, ◌%◌, Bool, true, ◌&&◌, ltb, ◌==◌, if◌then◌else◌, add_word, sub_word, word_max,
}
use polx.Terminal.Vga.{Ports, vga_width, vga_height, set_cursor}

-- `cursor_t`, and the writes to the ports of the video hardware
pub record Cursor : Type 0 where
  pub x : ℕ
  pub y : ℕ
  pub blink : Bool
  pub line_x : ℕ
  pub line_y : ℕ
  pub position_ctr : ℕ
  pub chars_ctr : ℕ
  pub ports : Ports

pub data CursorRet : Type 0 where
  success : CursorRet
  max_height : CursorRet

-- `vga_set_cursor(cursor->x, cursor->y)`
unfoldable pub show : Cursor → Cursor
show c = record c { ports = set_cursor c.x c.y c.ports }

unfoldable pub set_default : Cursor → Cursor
unfolding show
set_default c = show (record c {
  x = 0;
  y = 0;
  line_x = word_max;
  line_y = word_max;
  position_ctr = 0;
  chars_ctr = 0;
  blink = true;
})

unfoldable pub newline : Cursor → CursorRet × Cursor
unfolding show
newline c =
    if c.y == vga_height
    then (max_height, show (record c { x = 0 }))
    else (success, show (record c { x = 0; y = add_word c.y 1 }))

unfoldable pub newline_kbd : Cursor → CursorRet × Cursor
unfolding show
newline_kbd c =
    let full = c.y == vga_height in
    let rows = c.chars_ctr / vga_width in
    let row = if full then c.y else add_word (add_word c.line_y rows) 1 in
    (
      if full then max_height else success,
      show (record c { x = 0; y = row; line_x = 0; line_y = row; position_ctr = 0; chars_ctr = 0 }),
    )

unfoldable pub next_char : Cursor → CursorRet × Cursor
unfolding newline
next_char c =
    let (ret, d) = newline c in
    if c.x == vga_width - 1
    then (ret, show d)
    else (success, show (record c { x = add_word c.x 1 }))

unfoldable pub next_char_kbd : Cursor → CursorRet × Cursor
unfolding next_char
next_char_kbd c =
    next_char
      (record c { chars_ctr = add_word c.chars_ctr 1; position_ctr = add_word c.position_ctr 1 })

-- `cursor_move_left` once the cursor can move; `max` is the HOME button
unfoldable pub left_of : Cursor → (max : Bool) → Cursor
left_of c max =
    if max
    then record c { x = c.line_x; y = c.line_y; position_ctr = 0 }
    else if c.x == 0 && ltb 0 c.y
    then record c {
      x = vga_width - 1;
      y = sub_word c.y 1;
      position_ctr = sub_word c.position_ctr 1;
    }
    else record c { x = sub_word c.x 1; position_ctr = sub_word c.position_ctr 1 }

unfoldable pub move_left : Cursor → (max : Bool) → Cursor
unfolding show left_of
move_left c max = if c.position_ctr == 0 then c else show (left_of c max)

-- `cursor_move_right` once the cursor can move; `max` is the END button
unfoldable pub right_of : Cursor → (max : Bool) → Cursor
right_of c max =
    if max
    then record c {
      y = add_word c.line_y (c.chars_ctr / vga_width);
      x = add_word c.line_x (c.chars_ctr % vga_width);
      position_ctr = c.chars_ctr;
    }
    else if c.x == vga_width - 1
    then record c { x = 0; y = add_word c.y 1; position_ctr = add_word c.position_ctr 1 }
    else record c { x = add_word c.x 1; position_ctr = add_word c.position_ctr 1 }

unfoldable pub move_right : Cursor → (max : Bool) → Cursor
unfolding show right_of
move_right c max = if c.position_ctr == c.chars_ctr then c else show (right_of c max)

unfoldable pub remove_char : Cursor → Cursor
remove_char c =
    let chars = if c.chars_ctr == 0 then 0 else c.chars_ctr - 1 in
    record c {
      chars_ctr = chars;
      position_ctr = if ltb chars c.position_ctr then chars else c.position_ctr;
    }
