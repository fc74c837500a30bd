-- ===== src/Terminal/Console.antt =====
-- The terminal, src/dev/terminal/terminal.c. A `char` is its byte. `dev_stdin_recall`, which hands a
-- finished input line to the reader of standard input, is the result of the call.
pub mod Handler
pub mod Scroll
pub mod Print
pub mod Text
pub mod Edit
pub mod Insert
pub mod Typing
pub mod Erase
pub mod Input
use polx.Base.{
  ℕ, zero, suc, ◌+◌, Bool, true, ◌||◌, none, some, List, [], ◌∷◌, ltb, ◌==◌, if◌then◌else◌, update,
  add_word, sub_word, word_max, Outcome, done, panic,
}
use polx.Terminal.Vga.{
  Video, Buffer, vga_height, put_entry, clear_row, move_row_up, copy_line, paste_line,
  vga_entry_color,
}
use polx.Terminal.Cursor
use polx.Terminal.Cursor.{Cursor, CursorRet, success, max_height}

pub record Console : Type 0 where
  pub is_initialized : Bool
  pub video : Video
  pub command_buff : ℕ → ℕ
  pub command_idx : ℕ
  pub stdin_line : Buffer
  pub stdin_len : ℕ
  pub terminal_color : ℕ
  pub cursor : Cursor

-- the loop of `_terminal_scroll`
pub scroll_rows : (rounds i : ℕ) → Video → Video
scroll_rows zero i v = v
scroll_rows (suc n) i v = scroll_rows n (i + 1) (move_row_up v (i + 1))

unfoldable pub scroll : Console → Console
scroll t = record t {
  video = clear_row (scroll_rows vga_height 0 t.video) vga_height t.terminal_color;
}

unfoldable pub put : Console → (c : ℕ) → Console
put t c = record t { video = put_entry t.video t.cursor.x t.cursor.y t.terminal_color c }

-- `_terminal_remove_from_inputline`
unfoldable pub remove_from_inputline : Console → (idx : ℕ) → Outcome Console
remove_from_inputline t idx =
    let c = t.cursor in
    elim (copy_line t.video c.line_x c.line_y c.chars_ctr t.stdin_line) [
      | none ↦ panic
      | some line ↦
          (let cut = update line idx 0 in
            elim (paste_line t.video c.line_x c.line_y c.chars_ctr cut t.terminal_color) [
              | none ↦ panic
              | some v ↦ done (record t { video = v; stdin_line = cut; stdin_len = c.chars_ctr })
            ])
    ]

-- `_terminal_insert_into_inputline`
unfoldable pub insert_into_inputline : Console → (ch idx : ℕ) → Outcome Console
unfolding put
insert_into_inputline t ch idx =
    let c = t.cursor in
    elim (copy_line t.video c.line_x c.line_y c.chars_ctr t.stdin_line) [
      | none ↦ panic
      | some line ↦
          (let len = sub_word c.chars_ctr c.position_ctr in
            let column = add_word (add_word c.position_ctr c.line_x) 1 in
            elim (paste_line (put t ch).video column c.line_y len (λ k. line (idx + k))
              t.terminal_color) [
                | none ↦ panic
                | some v ↦
                    done (record t {
                      video = v;
                      stdin_line = line;
                      stdin_len = add_word c.chars_ctr 1;
                    })
              ])
    ]

abbrev pub comm_len : ℕ
comm_len = 3

-- `_terminal_command_buff_clear`
unfoldable pub command_buff_clear : Console → Console
command_buff_clear t = record t {
  command_buff = λ i. if ltb i comm_len then 0 else t.command_buff i;
  command_idx = 0;
}

-- the loop of `terminal_clear`
pub clear_rows : (rounds y color : ℕ) → Video → Video
clear_rows zero y color v = v
clear_rows (suc n) y color v = clear_rows n (y + 1) color (clear_row v y color)

unfoldable pub clear : Console → Console
clear t = record t {
  video = clear_rows vga_height 0 t.terminal_color t.video;
  cursor = Cursor.set_default t.cursor;
}

-- COMM_TERM_CLR is the only command.
unfoldable pub execute_command : Console → Console
execute_command t = if t.command_buff 1 == 0x1c then clear t else t

-- `terminal_init`: VGA_COLOR_GREEN is 2 and VGA_COLOR_BLACK is 0
unfoldable pub init : Console → Console
unfolding clear
init t =
    let cleared =
      clear (record t { terminal_color = vga_entry_color 2 0; command_idx = 0; stdin_len = 0 }) in
    record cleared { is_initialized = true }

-- `line_x = line_y = -1`: not an entry from the keyboard
unfoldable pub end_line : Console → Console
end_line t = record t { cursor = record (t.cursor) { line_x = word_max; line_y = word_max } }

unfoldable pub moved : Console → CursorRet × Cursor → Console
moved t (success, c) = record t { cursor = c }
moved t (max_height, c) = scroll (record t { cursor = c })

-- COMM_START is 0xb1 and COMM_END is 0xff.
unfoldable pub putchar : Console → (c : ℕ) → Console
unfolding put moved end_line command_buff_clear execute_command
putchar t c =
    if (c == 0xb1) || ltb 0 t.command_idx
    then (if t.command_idx == comm_len
        then command_buff_clear t
        else if c == 0xff
        then command_buff_clear (execute_command t)
        else record t {
          command_buff = update t.command_buff t.command_idx c;
          command_idx = add_word t.command_idx 1;
        })
    else end_line (
        if c == b'\n'
        then moved t (Cursor.newline t.cursor)
        else moved (put t c) (Cursor.next_char t.cursor))

unfoldable pub writestring : Console → List ℕ → Console
writestring t [] = t
writestring t (c ∷ s) = writestring (putchar t c) s
