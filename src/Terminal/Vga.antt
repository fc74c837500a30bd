-- ===== src/Terminal/Vga.antt =====
-- The text-mode screen, src/dev/terminal/vga_text_mode.c. The video memory is a function from the
-- index of an entry to its 16 bits, and a C string buffer one from the index to the byte. Writes to
-- I/O ports are a trace, the newest first.
pub mod Entry
pub mod Rows
pub mod Line
pub mod Paste
pub mod Chars
use polx.Base.{
  ℕ, zero, suc, ◌+◌, ◌-◌, ◌*◌, ◌/◌, ◌%◌, ◌^◌, bit_or, Bool, Option, none, some, List, ◌∷◌, ltb,
  ◌==◌, if◌then◌else◌, update, add_word, mul_word,
}

abbrev pub Video : Type 0
Video = ℕ → ℕ

abbrev pub Buffer : Type 0
Buffer = ℕ → ℕ

abbrev pub Ports : Type 0
Ports = List (ℕ × ℕ)

abbrev pub vga_width : ℕ
vga_width = 80

abbrev pub vga_height : ℕ
vga_height = 24

-- TERMINAL_MAX_LINE_LEN
abbrev pub max_line_len : ℕ
max_line_len = 1920

-- the entries of rows 0, ..., VGA_HEIGHT
abbrev pub screen_size : ℕ
screen_size = 2000

unfoldable pub vga_entry : (uc color : ℕ) → ℕ
vga_entry uc color = bit_or uc (color * 2 ^ 8 % 2 ^ 16)

unfoldable pub vga_entry_color : (fg bg : ℕ) → ℕ
vga_entry_color fg bg = bit_or fg (bg * 2 ^ 4) % 2 ^ 8

-- `y * VGA_WIDTH + x`
abbrev pub index : ℕ → ℕ → ℕ
index x y = add_word (mul_word y vga_width) x

unfoldable pub put_entry : Video → (x y color c : ℕ) → Video
put_entry v x y color c = update v (index x y) (vga_entry c color)

-- the four `outb` of `vga_set_cursor`
unfoldable pub set_cursor : (x y : ℕ) → Ports → Ports
set_cursor x y ports =
    let position = index x y % 2 ^ 16 in
    (0x3d5, position / 2 ^ 8) ∷ (0x3d4, 0x0e) ∷ (0x3d5, position % 2 ^ 8) ∷ (0x3d4, 0x0f) ∷ ports

-- `_mov_row`, with the rounds left and the index `i`
pub mov_row : (rounds i src dst : ℕ) → Video → Video
mov_row zero i src dst v = v
mov_row (suc n) i src dst v = mov_row n (i + 1) src dst (update v (dst + i) (v (src + i)))

-- `_fill_row`
pub fill_row : (rounds i src color c : ℕ) → Video → Video
fill_row zero i src color c v = v
fill_row (suc n) i src color c v =
    fill_row n (i + 1) src color c (update v (src + i) (vga_entry c color))

pub clear_row : Video → (row color : ℕ) → Video
clear_row v row color = fill_row vga_width 0 (mul_word row vga_width) color b' ' v

pub move_row_up : Video → (row : ℕ) → Video
move_row_up v row =
    if row == 0
    then v
    else mov_row vga_width 0 (mul_word row vga_width) (mul_word (row - 1) vga_width) v

-- the test with which both line functions start: the line would leave the video memory
pub outside : (start_x start_y len : ℕ) → Bool
outside start_x start_y len =
    if start_y == 0
    then ltb max_line_len (add_word start_x len)
    else ltb max_line_len (add_word (add_word (mul_word (start_y - 1) vga_width) start_x) len)

-- the loop of `vga_copy_line`
pub copy_loop : (rounds idx src : ℕ) → Video → Buffer → Buffer
copy_loop zero idx src v buffer = buffer
copy_loop (suc n) idx src v buffer =
    copy_loop n (idx + 1) src v (update buffer idx (v (src + idx) % 2 ^ 8))

-- `none` is -1
pub copy_line : Video → (start_x start_y len : ℕ) → Buffer → Option Buffer
unfolding outside
copy_line v start_x start_y len buffer =
    if outside start_x start_y len
    then none
    else some (copy_loop len 0 (index start_x start_y) v buffer)

-- the first loop of `vga_paste_line`, with the rounds left: `idx` and the memory after it
pub paste_loop : (rounds idx buffer_idx dst color : ℕ) → Buffer → Video → ℕ × Video
paste_loop zero idx buffer_idx dst color buffer v = (idx, v)
paste_loop (suc n) idx buffer_idx dst color buffer v =
    let skip = buffer buffer_idx == 0 in
    paste_loop n (if skip then idx else idx + 1) (buffer_idx + 1) dst color buffer
      (if skip then v else update v (dst + idx) (vga_entry (buffer buffer_idx) color))

-- `vga_paste_line`: the second loop fills what the skipped bytes leave
pub paste_line : Video → (start_x start_y len : ℕ) → Buffer → (color : ℕ) → Option Video
unfolding outside
paste_line v start_x start_y len buffer color =
    let dst = index start_x start_y in
    let (idx, pasted) = paste_loop len 0 0 dst color buffer v in
    if outside start_x start_y len
    then none
    else some (fill_row (len - idx) idx dst color b' ' pasted)
