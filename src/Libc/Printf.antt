-- ===== src/Libc/Printf.antt =====
-- `printf` of src/libc/stdio/printf.c. Its `_add_to_start` is the kernel's, byte for byte. The text goes into
-- a buffer of TERMINAL_RESOLUTION + 1 bytes; what `write` is given at the end is the result. A format is the
-- list of its bytes, and the arguments are a list.
pub mod Bounds
use polx.Base.{
  ℕ, zero, suc, ◌+◌, ◌-◌, ◌/◌, ◌%◌, not, ◌&&◌, ◌||◌, List, [], ◌∷◌, ltb, leb, ◌==◌, if◌then◌else◌,
  update, Outcome, done, fault, out_of_fuel, ◌>>=◌,
}
use polx.Klib.Strings.{Bytes}
use polx.Klib.Format.{Arg, int, str, add_to_start, digit, is_negative, negate}

abbrev pub terminal_resolution : ℕ
terminal_resolution = 1920

-- the loop of `_itoa`, for a positive `n`
unfoldable pub itoa_loop : (fuel n : ℕ) → Bytes → (dest base idx max_len : ℕ) → Outcome (Bytes × ℕ)
itoa_loop zero n m dest base idx max_len =
    if n == 0 || leb max_len idx then done (m, idx) else out_of_fuel
itoa_loop (suc f) n m dest base idx max_len =
    let rest =
      itoa_loop f (n / base) (add_to_start m dest (digit (n % base)) idx) dest base (idx + 1)
        max_len in
    if n == 0 || leb max_len idx then done (m, idx) else rest

unfoldable pub itoa : (n : ℕ) → Bytes → (dest base max_len : ℕ) → Outcome (Bytes × ℕ)
unfolding itoa_loop
itoa n m dest base max_len =
    let neg = is_negative n in
    let value = if neg then negate n else n in
    let left = if is_negative value then 0 else value in
    if n == 0
    then done (update m dest b'0', 1)
    else (itoa_loop left left m dest base 0 max_len >>= λ r.
        done (if neg then (add_to_start r.0 dest b'-' r.1, r.1 + 1) else r))

-- the loop of the `%s` case: at most the buffer's characters
unfoldable pub copy_string : (s : List ℕ) → Bytes → (string_len : ℕ) → Bytes × ℕ
copy_string [] m string_len = (m, string_len)
copy_string (c ∷ s) m string_len =
    let rest = copy_string s (update m string_len c) (string_len + 1) in
    if ltb string_len terminal_resolution then rest else (m, string_len)

-- `%d` and `%x`
unfoldable pub put_int : (n base : ℕ) → Bytes → (string_len : ℕ) → Outcome (Bytes × ℕ)
unfolding itoa
put_int n base m string_len = do
  r ← itoa n m string_len base (terminal_resolution - string_len)
  done (r.0, string_len + r.1)

-- The loop of `printf`. A conversion whose argument is missing, or of another type, is undefined.
unfoldable pub printf_loop :
    (format : List ℕ) → (args : List Arg) → Bytes → (string_len : ℕ) → Outcome (Bytes × ℕ)
unfolding put_int copy_string
printf_loop [] args m string_len = done (m, string_len)
printf_loop (c ∷ []) args m string_len =
    if ltb string_len terminal_resolution && not (c == b'%')
    then done (update m string_len c, string_len + 1)
    else done (m, string_len)
printf_loop (c ∷ d ∷ s) args m string_len =
    if ltb string_len terminal_resolution
    then (if c == b'%'
        then (if d == b'%'
            then printf_loop s args (update m string_len b'%') (string_len + 1)
            else if d == b'd'
            then elim args [
              | int n ∷ rest ↦ put_int n 10 m string_len >>= λ r. printf_loop s rest r.0 r.1
              | str x ∷ rest ↦ fault
              | [] ↦ fault
            ]
            else if d == b'x'
            then elim args [
              | int n ∷ rest ↦ put_int n 16 m string_len >>= λ r. printf_loop s rest r.0 r.1
              | str x ∷ rest ↦ fault
              | [] ↦ fault
            ]
            else if d == b's'
            then elim args [
              | int n ∷ rest ↦ fault
              | str x ∷ rest ↦
                  (let (copied, len) = copy_string x m string_len in printf_loop s rest copied len)
              | [] ↦ fault
            ]
            else printf_loop s args m string_len)
        else printf_loop (d ∷ s) args (update m string_len c) (string_len + 1))
    else done (m, string_len)

-- the text given to `write`, and the length that is returned
unfoldable pub printf :
    (string : Bytes) → (format : List ℕ) → (args : List Arg) → Outcome (Bytes × ℕ)
unfolding printf_loop
printf string format args = printf_loop format args string 0
