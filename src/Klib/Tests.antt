-- ===== src/Klib/Tests.antt =====
-- Runs of the kernel library.
use polx.Base.{◌-◌, ◌^◌, ◌≡◌, refl, true, List, [], ◌∷◌, arith, update, done}
use polx.Terminal.Console.{Console, writestring}
use polx.Klib.Strings.{Bytes}
use polx.Klib.Strings.Length.{Holds}
use polx.Klib.Format.{int, kprintf}
use polx.Klib.Format.Digits.{digits}
use polx.Klib.Format.Itoa.{int_text}
use polx.Klib.Format.Render.{Piece, plain, decimal, kprintf-texts_of}

-- "ab" at 4 and "ac" at 8
abbrev strings : Bytes
strings = update (update (update (update (λ a. 0) 4 b'a') 5 b'b') 8 b'a') 9 b'c'

strings-first : Holds strings 4 (b'a' ∷ b'b' ∷ [])
strings-first = (refl, omega arith, (refl, omega arith, refl))

strings-second : Holds strings 8 (b'a' ∷ b'c' ∷ [])
strings-second = (refl, omega arith, (refl, omega arith, refl))

minus_forty_two : int_text (2 ^ 32 - 42) 10 ≡ b'-' ∷ b'4' ∷ b'2' ∷ []
unfolding digits
minus_forty_two = refl

abbrev blank : Console
blank = record {
  is_initialized = true;
  video = λ a. 0;
  command_buff = λ i. 0;
  command_idx = 0;
  stdin_line = λ i. 0;
  stdin_len = 0;
  terminal_color = 2;
  cursor = record {
    x = 0;
    y = 0;
    blink = true;
    line_x = 0;
    line_y = 0;
    position_ctr = 0;
    chars_ctr = 0;
    ports = [];
  };
}

-- "pid %d"
abbrev pid_is : List Piece
pid_is = plain b'p' ∷ plain b'i' ∷ plain b'd' ∷ plain b' ' ∷ decimal 7 ∷ []

kprintf-texts_of_example :
    kprintf blank strings (b'p' ∷ b'i' ∷ b'd' ∷ b' ' ∷ b'%' ∷ b'd' ∷ []) (int 7 ∷ [])
    ≡ done (writestring blank (b'p' ∷ b'i' ∷ b'd' ∷ b' ' ∷ b'7' ∷ []))
unfolding digits
kprintf-texts_of_example =
    kprintf-texts_of pid_is blank strings
      (omega arith, (omega arith, (omega arith, (omega arith, ((omega arith, omega arith), tt)))))
