-- ===== src/Klib/Format.antt =====
-- Formatted output: src/kernel/klib/kprintf.c. A C `int` is its 32-bit pattern. A format is the list of
-- its bytes, without the closing 0, and the variable arguments are a list. The loops run on fuel.
pub mod Digits
pub mod Itoa
pub mod Render
use polx.Base.{
  ℕ, zero, suc, ◌+◌, ◌/◌, ◌%◌, ◌^◌, Bool, List, [], ◌∷◌, ltb, leb, ◌==◌, if◌then◌else◌, update,
  sub_word, Outcome, done, fault, out_of_fuel, ◌>>=◌,
}
use polx.Terminal.Console
use polx.Terminal.Console.{Console, putchar, writestring}
use polx.Terminal.Vga.Line.{chars}
use polx.Klib.Strings.{Bytes, strlen}

-- the loop of `_add_to_start`
unfoldable pub shift_loop : (i : ℕ) → Bytes → (dest : ℕ) → Bytes
shift_loop zero m dest = m
shift_loop (suc i) m dest = shift_loop i (update m (dest + suc i) (m (dest + i))) dest

unfoldable pub add_to_start : Bytes → (dest c last_idx : ℕ) → Bytes
unfolding shift_loop
add_to_start m dest c last_idx =
    update (update (shift_loop last_idx m dest) dest c) (dest + last_idx + 1) 0

abbrev pub digit : ℕ → ℕ
digit rest = if ltb 9 rest then rest + 55 else rest + 48

-- the loop of `_itoa`, for a positive `n`
unfoldable pub itoa_loop : (fuel : ℕ) → (n : ℕ) → Bytes → (dest base idx : ℕ) → Outcome (Bytes × ℕ)
itoa_loop zero n m dest base idx = if n == 0 then done (m, idx) else out_of_fuel
itoa_loop (suc f) n m dest base idx =
    let rest =
      itoa_loop f (n / base) (add_to_start m dest (digit (n % base)) idx) dest base (idx + 1) in
    if n == 0 then done (m, idx) else rest

abbrev pub is_negative : ℕ → Bool
is_negative n = leb (2 ^ 31) n

-- `n *= -1`
abbrev pub negate : ℕ → ℕ
negate n = sub_word 0 n

-- The loop is entered with `n > 0`: not with a pattern that is still negative.
unfoldable pub itoa : (n : ℕ) → Bytes → (dest base : ℕ) → Outcome Bytes
unfolding add_to_start itoa_loop
itoa n m dest base =
    let neg = is_negative n in
    let start = if n == 0 then add_to_start m dest b'0' 0 else m in
    let value = if neg then negate n else n in
    let left = if is_negative value then 0 else value in
    itoa_loop left left start dest base 0 >>= λ r.
    done (if neg then add_to_start r.0 dest b'-' r.1 else r.0)

pub data Arg : Type 0 where
  int : ℕ → Arg
  str : List ℕ → Arg

-- the C string at `p`, as `terminal_writestring` reads it
unfoldable pub read_string : Bytes → (p : ℕ) → Outcome (List ℕ)
unfolding strlen
read_string m p = strlen 20 m p >>= λ n. done (chars m p n)

-- `_itoa(va_arg(args, int), tmp, base); terminal_writestring(tmp);`
unfoldable pub write_int : Console → (tmp : Bytes) → (n base : ℕ) → Outcome (Console × Bytes)
unfolding itoa read_string
write_int t tmp n base = do
  filled ← itoa n tmp 0 base
  s ← read_string filled 0
  done (writestring t s, filled)

-- The loop of `kprintf`. A conversion whose argument is missing, or of another type, is undefined.
unfoldable pub kprintf_loop :
    Console → (tmp : Bytes) → (fmt : List ℕ) → (args : List Arg) → Outcome Console
kprintf_loop t tmp [] args = done t
kprintf_loop t tmp (c ∷ []) args = if c == b'%' then done t else done (putchar t c)
kprintf_loop t tmp (c ∷ d ∷ s) args =
    if c == b'%'
    then (if d == b'%'
        then kprintf_loop (putchar t b'%') tmp s args
        else if d == b'd'
        then elim args [
          | int n ∷ rest ↦ write_int t tmp n 10 >>= λ r. kprintf_loop r.0 r.1 s rest
          | str x ∷ rest ↦ fault
          | [] ↦ fault
        ]
        else if d == b'x'
        then elim args [
          | int n ∷ rest ↦ write_int t tmp n 16 >>= λ r. kprintf_loop r.0 r.1 s rest
          | str x ∷ rest ↦ fault
          | [] ↦ fault
        ]
        else if d == b's'
        then elim args [
          | int n ∷ rest ↦ fault
          | str x ∷ rest ↦ kprintf_loop (writestring t x) tmp s rest
          | [] ↦ fault
        ]
        else kprintf_loop t tmp s args)
    else kprintf_loop (putchar t c) tmp (d ∷ s) args

unfoldable pub kprintf :
    Console → (tmp : Bytes) → (fmt : List ℕ) → (args : List Arg) → Outcome Console
unfolding kprintf_loop
kprintf t tmp fmt args =
    let ready = if t.is_initialized then t else Console.init t in kprintf_loop ready tmp fmt args
