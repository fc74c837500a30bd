-- ===== src/Terminal/Console/Scroll.antt =====
-- Scrolling and clearing the screen.
use polx.Base.{ℕ, zero, suc, ◌+◌, ◌*◌, ◌≡◌, ◌&&◌, arith, ltb, leb, if◌then◌else◌}
use polx.Terminal.Vga.{Video, vga_entry, clear_row, move_row_up}
use polx.Terminal.Vga.Rows.{clear_row_lem, move_row_up_lem}
use polx.Terminal.Console.{Console, scroll, scroll_rows, clear, clear_rows}

scroll_rows_lem :
    (n i : ℕ) (v : Video) (a : ℕ)
    → i + n ≡ 24
    → scroll_rows n i v a ≡ (if leb (i * 80) a && ltb a 1920 then v (a + 80) else v a)
unfolding scroll_rows
scroll_rows_lem zero i v a e = ground arith
scroll_rows_lem (suc n) i v a e = ground (
  arith,
  scroll_rows_lem n (i + 1) (move_row_up v (i + 1)) a,
  move_row_up_lem v (i + 1) a,
  move_row_up_lem v (i + 1) (a + 80),
)

-- A scroll moves every row of the screen up by one, blanks the last row, and changes nothing beyond the
-- screen.
pub scroll_lem :
    (t : Console) (a : ℕ)
    → (scroll t).video a ≡ (
        if ltb a 1920
        then t.video (a + 80)
        else if ltb a 2000
        then vga_entry b' ' t.terminal_color
        else t.video a)
unfolding scroll
scroll_lem t a = ground (
  arith,
  clear_row_lem (scroll_rows 24 0 t.video) 24 t.terminal_color a,
  scroll_rows_lem 24 0 t.video a,
)

clear_rows_lem :
    (n y color : ℕ) (v : Video) (a : ℕ)
    → y + n ≡ 24
    → clear_rows n y color v a
      ≡ (if leb (y * 80) a && ltb a 1920 then vga_entry b' ' color else v a)
unfolding clear_rows
clear_rows_lem zero y color v a e = ground arith
clear_rows_lem (suc n) y color v a e =
    ground
      (arith, clear_rows_lem n (y + 1) color (clear_row v y color) a, clear_row_lem v y color a)

-- `terminal_clear` blanks rows 0 to 23. The last row of the screen, and all beyond, keep what they held.
pub clear_lem :
    (t : Console) (a : ℕ)
    → (clear t).video a ≡ (if ltb a 1920 then vga_entry b' ' t.terminal_color else t.video a)
unfolding clear
clear_lem t a = ground (arith, clear_rows_lem 24 0 t.terminal_color t.video a)
