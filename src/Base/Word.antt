-- ===== src/Base/Word.antt =====
-- The unsigned 32-bit words of the machine (`uint32_t`, `uintptr_t` and `size_t` on i386).
use Prim.Native.Nat.{ℕ, ◌+◌, ◌-◌, ◌*◌, ◌%◌, ◌^◌}

abbrev pub word : ℕ
word = 2 ^ 32

abbrev pub add_word : ℕ → ℕ → ℕ
add_word a b = (a + b) % word

abbrev pub sub_word : ℕ → ℕ → ℕ
sub_word a b = (a + word - b % word) % word

abbrev pub mul_word : ℕ → ℕ → ℕ
mul_word a b = (a * b) % word

-- `(size_t)-1`
abbrev pub word_max : ℕ
word_max = word - 1
