-- ===== src/Terminal/Vga/Rows.antt =====
-- Whole rows of the screen.
use polx.Base.{
  ℕ, zero, suc, ◌+◌, ◌-◌, ◌/◌, ◌≤◌, ◌<◌, ◌≡◌, ap, ◌&&◌, arith, ltb, leb, ◌==◌, if◌then◌else◌,
  update, mul_word,
}
use polx.Terminal.Vga.{Video, vga_width, vga_entry, fill_row, mov_row, clear_row, move_row_up}

pub fill_row_lem :
    (n i src color c : ℕ) (v : Video) (a : ℕ)
    → fill_row n i src color c v a
      ≡ (if leb (src + i) a && ltb a (src + i + n) then vga_entry c color else v a)
unfolding fill_row
fill_row_lem zero i src color c v a = ground arith
fill_row_lem (suc n) i src color c v a =
    ground (arith, fill_row_lem n (i + 1) src color c (update v (src + i) (vga_entry c color)) a)

mov_row_lem :
    (n i src dst : ℕ) (v : Video) (a : ℕ)
    → dst + vga_width ≤ src
    → i + n ≡ vga_width
    → mov_row n i src dst v a
      ≡ (if leb (dst + i) a && ltb a (dst + i + n) then v (src + (a - dst)) else v a)
unfolding mov_row
mov_row_lem zero i src dst v a apart e = ground arith
mov_row_lem (suc n) i src dst v a apart e = ground (
  arith,
  mov_row_lem n (i + 1) src dst (update v (dst + i) (v (src + i))) a,
  ap (λ k. v (src + k)),
)

-- Clearing a row fills its 80 entries with blanks in the given colour, and touches no other.
pub clear_row_lem :
    (v : Video) (row color a : ℕ)
    → row ≤ 24
    → clear_row v row color a ≡ (if a / 80 == row then vga_entry b' ' color else v a)
unfolding clear_row
clear_row_lem v row color a h =
    ground (arith, fill_row_lem 80 0 (mul_word row vga_width) color b' ' v a)

-- Moving a row up copies it over the row above, and touches no other.
pub move_row_up_lem :
    (v : Video) (row a : ℕ)
    → 0 < row
    → row ≤ 24
    → move_row_up v row a ≡ (if a / 80 == row - 1 then v (a + 80) else v a)
unfolding move_row_up
move_row_up_lem v row a pos h =
    ground
      (arith, mov_row_lem 80 0 (mul_word row vga_width) (mul_word (row - 1) vga_width) v a, ap v)
