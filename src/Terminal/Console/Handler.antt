-- ===== src/Terminal/Console/Handler.antt =====
-- `terminal_putchar_from_keyboard` of src/dev/terminal/terminal.c.
use polx.Base.{
  ℕ, true, false, ◌&&◌, ◌||◌, Option, none, some, ltb, leb, ◌==◌, if◌then◌else◌, sub_word, word_max,
  Outcome, done, panic, ◌>>=◌,
}
use polx.Terminal.Vga.{Buffer, copy_line}
use polx.Terminal.Cursor
use polx.Terminal.Cursor.{Cursor, CursorRet, success, max_height}
use polx.Terminal.Keys
use polx.Terminal.Console.{
  Console, scroll, put, moved, remove_from_inputline, insert_into_inputline,
}

-- what `dev_stdin_recall` is given: the line and its length
pub record Input : Type 0 where
  pub line : Buffer
  pub size : ℕ

-- The first character of an input line sets where the line starts.
unfoldable pub begin_line : Console → Console
begin_line t =
    let c = t.cursor in
    if c.line_y == word_max && c.line_x == word_max
    then record t { cursor = record c { line_x = c.x; line_y = c.y } }
    else t

-- `cursor_nextchar_kbd`, and the scroll that it may ask for
unfoldable pub advance_by : Console → CursorRet × Cursor → Console
advance_by t (success, c) = record t { cursor = c }
advance_by t (max_height, c) =
    scroll (record t { cursor = record c { line_y = sub_word c.line_y 1 } })

unfoldable pub advance : Console → Console
unfolding advance_by
advance t = advance_by t (Cursor.next_char_kbd t.cursor)

-- a character to print
unfoldable pub type_char : Console → (ch : ℕ) → Outcome Console
unfolding advance
type_char t ch =
    if ltb t.cursor.position_ctr t.cursor.chars_ctr
    then (do inserted ← insert_into_inputline t ch t.cursor.position_ctr; done (advance inserted))
    else done (advance (put t ch))

-- the `'\n'` case
unfoldable pub enter : Console → Outcome (Console × Option Input)
unfolding moved
enter t =
    let c = t.cursor in
    elim (copy_line t.video c.line_x c.line_y c.chars_ctr t.stdin_line) [
      | none ↦ panic
      | some line ↦
          (let u =
              moved (record t { stdin_line = line; stdin_len = c.chars_ctr })
                (Cursor.newline_kbd c) in
            done (u, some (record { line = u.stdin_line; size = u.stdin_len })))
    ]

-- the `BACKSPACE` case
unfoldable pub backspace : Console → Outcome Console
backspace t =
    let c = t.cursor in
    if c.chars_ctr == 0 || c.position_ctr == 0 then done t else (do
      u ← remove_from_inputline t (sub_word c.position_ctr 1)
      done (record u { cursor = Cursor.remove_char (Cursor.move_left u.cursor false) }))

-- the `DEL` case
unfoldable pub delete : Console → Outcome Console
delete t =
    let c = t.cursor in
    if c.chars_ctr == 0 || c.chars_ctr == c.position_ctr then done t else (do
      u ← remove_from_inputline t c.position_ctr
      done (record u { cursor = Cursor.remove_char u.cursor }))

abbrev quiet : Outcome Console → Outcome (Console × Option Input)
quiet m = m >>= λ t. done (t, none)

abbrev with_cursor : Console → Cursor → Outcome (Console × Option Input)
with_cursor t c = done (record t { cursor = c }, none)

unfoldable pub putchar_from_keyboard : Console → (ch : ℕ) → Outcome (Console × Option Input)
unfolding begin_line type_char enter backspace delete
putchar_from_keyboard t ch =
    let u = begin_line t in
    if leb 0x20 ch && leb ch 0x7e
    then quiet (type_char u ch)
    else if ch == Keys.arr_left
    then with_cursor u (Cursor.move_left u.cursor false)
    else if ch == Keys.home
    then with_cursor u (Cursor.move_left u.cursor true)
    else if ch == Keys.arr_right
    then with_cursor u (Cursor.move_right u.cursor false)
    else if ch == Keys.end
    then with_cursor u (Cursor.move_right u.cursor true)
    else if ch == b'\n'
    then enter u
    else if ch == Keys.backspace
    then quiet (backspace u)
    else if ch == Keys.del
    then quiet (delete u)
    else done (u, none)
