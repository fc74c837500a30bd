-- ===== src/Pmm/Bits.antt =====
-- The bit operations of pmm.c: reading a bit after a write.
use polx.Base.{
  all_below, all_below_sound, ℕ, zero, suc, ◌/◌, ◌%◌, ◌^◌, ◌<◌, ◌≡◌, refl, Bool, true, false, not,
  ◌&&◌, arith, ltb, ◌==◌, if◌then◌else◌,
}
use Prim.Native.Nat.{bit_and-bitwise}
use polx.Pmm.{truth, byte_set, byte_get, bit_set, bit_get}

-- The frame with index `i` is taken.
abbrev pub used : (ℕ → ℕ) → ℕ → Bool
used bitmap i = not (bit_get bitmap i == 0)

unfoldable pub IsBytes : (ℕ → ℕ) → Type 0
IsBytes bitmap = (k : ℕ) → bitmap k < 256

-- what has to hold of one byte, two bits and a value
fits : ℕ → ℕ → ℕ → ℕ → Bool
fits v x c d =
    ltb (byte_set x c v) 256
    && (truth (not (byte_get (byte_set x c v) d == 0))
        == (if c == d then v else truth (not (byte_get x d == 0))))

abbrev table : ℕ → Bool
table v = all_below 256 λ x. all_below 8 λ c. all_below 8 λ d. fits v x c d

table_zero : table 0 ≡ true
unfolding all_below fits byte_set byte_get
table_zero = refl

table_one : table 1 ≡ true
unfolding all_below fits byte_set byte_get
table_one = refl

table-true : (v : ℕ) → v < 2 → table v ≡ true
table-true zero h = table_zero
table-true (suc zero) h = table_one
table-true (suc (suc v)) h = absurd (omega arith)

fits_true : (v x c d : ℕ) → v < 2 → x < 256 → c < 8 → d < 8 → fits v x c d ≡ true
fits_true v x c d hv hx hc hd =
    all_below_sound 8 _ d (all_below_sound 8 _ c (all_below_sound 256 _ x (table-true v hv) hx) hc)
      hd

byte_set-lt : (v x c : ℕ) → v < 2 → x < 256 → c < 8 → byte_set x c v < 256
unfolding fits
byte_set-lt v x c hv hx hc = ground (arith, fits_true v x c 0)

byte_get-byte_set :
    (v x c d : ℕ)
    → v < 2
    → x < 256
    → c < 8
    → d < 8
    → truth (not (byte_get (byte_set x c v) d == 0))
      ≡ (if c == d then v else truth (not (byte_get x d == 0)))
unfolding fits
byte_get-byte_set v x c d hv hx hc hd = ground (arith, fits_true v x c d)

pub bit_set-IsBytes : (b : ℕ → ℕ) (i v : ℕ) → v < 2 → IsBytes b → IsBytes (bit_set b i v)
unfolding bit_set IsBytes
bit_set-IsBytes b i v hv h k = ground (arith, h k, h (i / 8), byte_set-lt v (b (i / 8)) (i % 8))

truth_inj : (a b : Bool) → truth a ≡ truth b → a ≡ b
truth_inj a b h = ground arith

-- In a bitmap of bytes a written bit, 0 or 1, reads back, and no other bit changes.
pub used-bit_set :
    (b : ℕ → ℕ) (i j v : ℕ)
    → v < 2
    → IsBytes b
    → used (bit_set b i v) j ≡ (if i == j then v == 1 else used b j)
unfolding bit_set bit_get IsBytes
used-bit_set b i j v hv h = ground (
  arith,
  h (i / 8),
  h (j / 8),
  byte_get-byte_set v (b (i / 8)) (i % 8) (j % 8),
  truth_inj (not (byte_get (byte_set (b (i / 8)) (i % 8) v) (j % 8) == 0)) (v == 1),
)

-- A byte of zeros has only free frames.
pub used_of_zero : (b : ℕ → ℕ) (j : ℕ) → b (j / 8) ≡ 0 → used b j ≡ false
unfolding bit_get byte_get
used_of_zero b j z = rw (z, bit_and-bitwise 0 (0x80 / 2 ^ (j % 8)))
