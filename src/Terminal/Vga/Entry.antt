-- ===== src/Terminal/Vga/Entry.antt =====
-- A screen entry holds its character and its colour.
use polx.Base.{
  ℕ, ◌/◌, ◌%◌, ◌<◌, ◌≡◌, refl, Bool, true, ◌&&◌, arith, ◌==◌, all_below, all_below_sound,
}
use polx.Terminal.Vga.{vga_entry}

entry_fits : ℕ → ℕ → Bool
entry_fits c color = (vga_entry c color % 256 == c) && (vga_entry c color / 256 == color)

entry_table : all_below 256 (λ c. all_below 256 λ color. entry_fits c color) ≡ true
unfolding all_below entry_fits vga_entry
entry_table = refl

-- The low byte of an entry is the character and the high byte the colour.
pub vga_entry_fields :
    (c color : ℕ)
    → c < 256
    → color < 256
    → (vga_entry c color % 256 ≡ c) × (vga_entry c color / 256 ≡ color)
unfolding entry_fits
vga_entry_fields c color hc hcolor = ground (
  arith,
  all_below_sound 256 (entry_fits c) color
      (all_below_sound 256 (λ c. all_below 256 λ color. entry_fits c color) c entry_table hc)
      hcolor,
)
