-- ===== src/Terminal/Tests.antt =====
-- Runs of the terminal.
use polx.Base.{◌≡◌, refl, true, false, Option, [], ◌∷◌, arith, word_max, done, ◌>>=◌, Ends}
use polx.Terminal.Cursor.{Cursor}
use polx.Terminal.Cursor.Moves.{InLine}
use polx.Terminal.Console.{Console, writestring}
use polx.Terminal.Console.Handler.{Input, putchar_from_keyboard, type_char, backspace}
use polx.Terminal.Console.Text.{Printed, writestring-Printed}
use polx.Terminal.Console.Edit.{Editable}
use polx.Terminal.Console.Typing.{Typed, Fits, type_char-Typed}
use polx.Terminal.Console.Erase.{SameLine, backspace-type_char}
use polx.Terminal.Console.Input.{Given, Fresh, type_line, type_line-Given}
use polx.Terminal.Keyboard.{Keyboard, layout, character, keyboard_isr}
use polx.Terminal.Keyboard.Held.{keyboard_isr-letter}
use polx.Terminal.Keyboard.Line.{isr_line, isr_line-Given}

-- a cursor two characters into a line of five that starts after a prompt of two
abbrev inside_line : Cursor
inside_line = record {
  x = 4;
  y = 3;
  blink = true;
  line_x = 2;
  line_y = 3;
  position_ctr = 2;
  chars_ctr = 5;
  ports = [];
}

abbrev at_prompt : Cursor
at_prompt = record (inside_line) {
  x = 2;
  line_x = word_max;
  line_y = word_max;
  position_ctr = 0;
  chars_ctr = 0;
}

abbrev screen : Cursor → Console
screen c = record {
  is_initialized = true;
  video = λ a. 0x0261;
  command_buff = λ i. 0;
  command_idx = 0;
  stdin_line = λ i. 0;
  stdin_len = 0;
  terminal_color = 2;
  cursor = c;
}

abbrev no_keys : Keyboard
no_keys = record { shift_hold = false; ctrl_hold = false; alt_hold = false; capslock_on = false }

inside_line-InLine : InLine inside_line
inside_line-InLine = record {
  col = omega arith;
  row = omega arith;
  line_col = omega arith;
  order = omega arith;
  at = omega arith;
  end = omega arith;
}

inside_line-Editable : Editable (screen inside_line)
inside_line-Editable = record {
  line = inside_line-InLine;
  short = λ z. omega arith;
  printed = λ r h. omega arith;
  color = omega arith;
}

inside_line-Fits : Fits (screen inside_line)
inside_line-Fits = record { screen = omega arith; line = λ z. omega arith }

at_prompt-Fresh : Fresh (screen at_prompt)
at_prompt-Fresh = record {
  screen = record { col = omega arith; row = omega arith };
  no_line = (refl, refl);
  no_chars = (refl, refl);
  color = omega arith;
}

isr_line-Given_example :
    Ends
      (λ out. Given (b'l' ∷ b's' ∷ []) (out.1, out.2))
      (isr_line no_keys (screen at_prompt) (38 ∷ 31 ∷ []))
unfolding character layout
isr_line-Given_example =
    isr_line-Given no_keys (38 ∷ 31 ∷ []) (screen at_prompt) at_prompt-Fresh
      ((omega arith, omega arith), ((omega arith, omega arith), tt)) (omega arith)
      (λ z. omega arith)

keyboard_isr-letter_example :
    keyboard_isr (record no_keys { shift_hold = true }) (screen at_prompt) 30 ≡ (
      putchar_from_keyboard (screen at_prompt) b'A' >>= λ (r : Console × Option Input).
      done (record no_keys { shift_hold = true }, r.0, r.1))
unfolding layout
keyboard_isr-letter_example =
    keyboard_isr-letter (record no_keys { shift_hold = true }) (screen at_prompt) 30 (omega arith)
      (omega arith) (omega arith)

type_line-Given_example :
    Ends (Given (b'l' ∷ b's' ∷ [])) (type_line (screen at_prompt) (b'l' ∷ b's' ∷ []))
type_line-Given_example =
    type_line-Given (b'l' ∷ b's' ∷ []) (screen at_prompt) at_prompt-Fresh
      ((omega arith, omega arith), ((omega arith, omega arith), tt)) (omega arith)
      (λ z. omega arith)

type_char-Typed_example :
    Ends (Typed b'x' (screen inside_line)) (type_char (screen inside_line) b'x')
type_char-Typed_example =
    type_char-Typed (screen inside_line) b'x' inside_line-Editable inside_line-Fits (omega arith)
      (omega arith)

backspace-type_char_example :
    Ends (SameLine (screen inside_line)) (type_char (screen inside_line) b'x' >>= backspace)
backspace-type_char_example =
    backspace-type_char (screen inside_line) b'x' inside_line-Editable inside_line-Fits
      (omega arith) (omega arith)

writestring-Printed_example :
    Printed
      (b'$' ∷ b' ' ∷ [])
      (screen inside_line)
      (writestring (screen inside_line) (b'$' ∷ b' ' ∷ []))
writestring-Printed_example =
    writestring-Printed (b'$' ∷ b' ' ∷ []) (screen inside_line)
      ((omega arith, omega arith, omega arith), ((omega arith, omega arith, omega arith), tt))
      (record {
        screen = record { col = omega arith; row = omega arith };
        command = refl;
        color = omega arith;
      })
      (omega arith)

-- a line of 150 characters in the last two rows, with the cursor in the first of them
abbrev two_rows : Cursor
two_rows = record (inside_line) {
  x = 70;
  y = 23;
  line_x = 60;
  line_y = 23;
  position_ctr = 10;
  chars_ctr = 90;
}
