-- ===== src/Klib/Format/Render.antt =====
-- What `kprintf` writes.
use polx.Base.{
  ℕ, ◌+◌, ◌^◌, ◌≤◌, ◌<◌, ◌≡◌, refl, sym, ap, ◌∙◌, ◌≢◌, inl, inr, false, List, [], ◌∷◌, ◌++◌, arith,
  ℕ_discrete, ◌==◌, if◌then◌else◌, Bool-cases, length, Outcome, done, panic, fault, out_of_fuel,
  ◌>>=◌, Ends, Ends-bind,
}
use mathlib.Core.Path.{ap₂}
use polx.Terminal.Console
use polx.Terminal.Console.{Console, putchar, writestring}
use polx.Terminal.Vga.Line.{chars}
use polx.Klib.Strings.{Bytes}
use polx.Klib.Strings.Length.{Holds, strlen-length}
use polx.Klib.Format.{
  Arg, int, str, is_negative, itoa, read_string, write_int, kprintf, kprintf_loop,
}
use polx.Klib.Format.Digits.{IsBase, digits-nonempty}
use polx.Klib.Format.Itoa.{
  int_text, itoa-Filled, int_text-AllChars, length-int_text, Filled, Filled-Holds,
}

-- A format and its arguments, piece by piece.
pub data Piece : Type 0 where
  plain : ℕ → Piece
  percent : Piece
  decimal : ℕ → Piece
  hexadecimal : ℕ → Piece
  string : List ℕ → Piece

abbrev pub format_of : List Piece → List ℕ
format_of [] = []
format_of (plain c ∷ ps) = c ∷ format_of ps
format_of (percent ∷ ps) = b'%' ∷ b'%' ∷ format_of ps
format_of (decimal n ∷ ps) = b'%' ∷ b'd' ∷ format_of ps
format_of (hexadecimal n ∷ ps) = b'%' ∷ b'x' ∷ format_of ps
format_of (string s ∷ ps) = b'%' ∷ b's' ∷ format_of ps

abbrev pub args_of : List Piece → List Arg
args_of [] = []
args_of (plain c ∷ ps) = args_of ps
args_of (percent ∷ ps) = args_of ps
args_of (decimal n ∷ ps) = int n ∷ args_of ps
args_of (hexadecimal n ∷ ps) = int n ∷ args_of ps
args_of (string s ∷ ps) = str s ∷ args_of ps

-- the text that the piece stands for
abbrev pub text_of : Piece → List ℕ
text_of (plain c) = c ∷ []
text_of percent = b'%' ∷ []
text_of (decimal n) = int_text n 10
text_of (hexadecimal n) = int_text n 16
text_of (string s) = s

abbrev pub texts_of : List Piece → List ℕ
texts_of [] = []
texts_of (p ∷ ps) = text_of p ++ texts_of ps

-- A `%` is written as `%%`, and an `int` is not the least one.
abbrev pub IsPiece : Piece → Type 0
IsPiece (plain c) = c ≢ b'%'
IsPiece percent = Unit
IsPiece (decimal n) = (n < 2 ^ 32) × (n ≢ 2 ^ 31)
IsPiece (hexadecimal n) = (n < 2 ^ 32) × (n ≢ 2 ^ 31)
IsPiece (string s) = Unit

abbrev pub ArePieces : List Piece → Type 0
ArePieces [] = Unit
ArePieces (p ∷ ps) = IsPiece p × ArePieces ps

writestring-append :
    (s r : List ℕ) (t : Console) → writestring t (s ++ r) ≡ writestring (writestring t s) r
unfolding writestring
writestring-append [] r t = refl
writestring-append (c ∷ s) r t = writestring-append s r (putchar t c)

Holds-chars : (s : List ℕ) (m : Bytes) (p : ℕ) → Holds m p s → chars m p (length s) ≡ s
Holds-chars [] m p h = refl
Holds-chars (c ∷ s) m p h = ap₂ ◌∷◌ h.0 (Holds-chars s m (p + 1) h.2)

int_text-nonempty : (n base : ℕ) → IsBase base → n < 2 ^ 32 → 0 < length (int_text n base)
int_text-nonempty n base b small = elim (ℕ_discrete n 0) [
  | yes z ↦ rw z (omega arith)
  | no ne ↦
      (let nonzero : (n == 0) ≡ false = ground (arith, ne) in
        elim (Bool-cases (is_negative n)) [
          | inl minus ↦ rw (nonzero, minus) (omega arith)
          | inr plus ↦ rw (nonzero, plus) (digits-nonempty n n base ne (omega arith))
        ])
]

read_string-Holds :
    (s : List ℕ) (m : Bytes) → Holds m 0 s → length s ≤ 11 → read_string m 0 ≡ done s
unfolding read_string
read_string-Holds s m h short =
    rw (strlen-length 20 m 0 s h (omega arith) (omega arith), Holds-chars s m 0 h)

write_int-writestring :
    (t : Console) (tmp : Bytes) (n base : ℕ)
    → IsBase base
    → n < 2 ^ 32
    → n ≢ 2 ^ 31
    → Ends (λ r. r.0 ≡ writestring t (int_text n base)) (write_int t tmp n base)
unfolding write_int
write_int-writestring t tmp n base b small not_least =
    Ends-bind (Filled (int_text n base) 0 tmp) (λ r. r.0 ≡ writestring t (int_text n base))
      (itoa n tmp 0 base) (λ filled. read_string filled 0 >>= λ s. done (writestring t s, filled))
      (itoa-Filled n 0 base tmp b small not_least)
      (λ w fill.
        let read =
          read_string-Holds (int_text n base) w
            (Filled-Holds (int_text n base) 0 tmp w (int_text-AllChars n base b small)
              (int_text-nonempty n base b small) fill)
            (length-int_text n base b small) in
        rw read refl)

-- after a number, the rest of the format
then_rest :
    (t : Console) (m : Outcome (Console × Bytes)) (x : List ℕ) (ps : List Piece)
    → Ends (λ r. r.0 ≡ writestring t x) m
    → ((u : Console) (tmp : Bytes)
        → kprintf_loop u tmp (format_of ps) (args_of ps) ≡ done (writestring u (texts_of ps)))
    → (m >>= λ (r : Console × Bytes). kprintf_loop r.0 r.1 (format_of ps) (args_of ps))
      ≡ done (writestring t (x ++ texts_of ps))
then_rest t (done r) x ps is rest =
    rest r.0 r.1
    ∙ ap done
        (ap (λ u. writestring u (texts_of ps)) is ∙ sym (writestring-append x (texts_of ps) t))
then_rest t panic x ps is rest = absurd is
then_rest t fault x ps is rest = absurd is
then_rest t out_of_fuel x ps is rest = absurd is

-- a byte that is written as it is
kprintf_loop-plain :
    (c : ℕ) (fmt : List ℕ) (args : List Arg) (t : Console) (tmp : Bytes)
    → c ≢ b'%'
    → kprintf_loop t tmp (c ∷ fmt) args ≡ kprintf_loop (putchar t c) tmp fmt args
unfolding kprintf_loop
kprintf_loop-plain c [] args t tmp ne =
    let n : (c == b'%') ≡ false = ground (arith, ne) in rw n refl
kprintf_loop-plain c (d ∷ s) args t tmp ne =
    let n : (c == b'%') ≡ false = ground (arith, ne) in rw n refl

kprintf_loop-texts_of :
    (ps : List Piece) (t : Console) (tmp : Bytes)
    → ArePieces ps
    → kprintf_loop t tmp (format_of ps) (args_of ps) ≡ done (writestring t (texts_of ps))
unfolding kprintf_loop writestring
kprintf_loop-texts_of [] t tmp ok = refl
kprintf_loop-texts_of (plain c ∷ ps) t tmp ok =
    kprintf_loop-plain c (format_of ps) (args_of ps) t tmp ok.0
    ∙ kprintf_loop-texts_of ps (putchar t c) tmp ok.1
kprintf_loop-texts_of (percent ∷ ps) t tmp ok = kprintf_loop-texts_of ps (putchar t b'%') tmp ok.1
kprintf_loop-texts_of (decimal n ∷ ps) t tmp ok =
    then_rest t (write_int t tmp n 10) (int_text n 10) ps
      (write_int-writestring t tmp n 10 (inl refl) ok.0.0 ok.0.1)
      (λ u w. kprintf_loop-texts_of ps u w ok.1)
kprintf_loop-texts_of (hexadecimal n ∷ ps) t tmp ok =
    then_rest t (write_int t tmp n 16) (int_text n 16) ps
      (write_int-writestring t tmp n 16 (inr refl) ok.0.0 ok.0.1)
      (λ u w. kprintf_loop-texts_of ps u w ok.1)
kprintf_loop-texts_of (string s ∷ ps) t tmp ok =
    kprintf_loop-texts_of ps (writestring t s) tmp ok.1
    ∙ ap done (sym (writestring-append s (texts_of ps) t))

-- `kprintf` of a format whose arguments suit it ends, and has written to the terminal, which it first
-- initialises if need be, the characters of the format with each conversion replaced by its argument's text.
-- No `int` may be the least one.
pub kprintf-texts_of :
    (ps : List Piece) (t : Console) (tmp : Bytes)
    → ArePieces ps
    → kprintf t tmp (format_of ps) (args_of ps)
      ≡ done (writestring (if t.is_initialized then t else Console.init t) (texts_of ps))
unfolding kprintf
kprintf-texts_of ps t tmp ok =
    kprintf_loop-texts_of ps (if t.is_initialized then t else Console.init t) tmp ok
