-- ===== src/Terminal/Console/Input.antt =====
-- The input line, from the keys to the reader of standard input.
use polx.Base.{
  Ends-map, ℕ, zero, suc, ◌+◌, ◌≤◌, ◌<◌, ◌≡◌, refl, sym, ap, ◌∙◌, Option, none, some, List, [], ◌∷◌,
  ◌++◌, arith, length, take, drop, word_max, Outcome, done, ◌>>=◌, Ends, Ends-bind,
}
use mathlib.Core.Path.{subst}
use mathlib.Core.List.{append-nil, append_assoc}
use polx.Terminal.Vga.Line.{chars, length-chars}
use polx.Terminal.Cursor
use polx.Terminal.Cursor.{Cursor, CursorRet, success, max_height}
use polx.Terminal.Cursor.Moves.{place}
use polx.Terminal.Cursor.Lines.{OnScreen}
use polx.Terminal.Console.{Console, scroll, moved}
use polx.Terminal.Console.Handler.{Input, begin_line, type_char, enter, putchar_from_keyboard}
use polx.Terminal.Console.Typing.{Typed, type_char-Typed}
use polx.Terminal.Console.Edit.{line_start, line_text, Editable, shown, line-Copied}

-- the line is handed over as it stands on the screen
pub record Entered (t : Console) (out : Console × Option Input) : Type 0 where
  pub input : Input
  pub given : out.1 ≡ some input
  pub size : input.size ≡ t.cursor.chars_ctr
  pub text : chars input.line 0 input.size ≡ line_text t

moved-stdin :
    (t : Console) (m : CursorRet × Cursor)
    → ((moved t m).stdin_line ≡ t.stdin_line) × ((moved t m).stdin_len ≡ t.stdin_len)
unfolding moved scroll
moved-stdin t (success, c) = (refl, refl)
moved-stdin t (max_height, c) = (refl, refl)

enter-Entered : (t : Console) → Editable t → Ends (Entered t) (enter t)
unfolding enter
enter-Entered t e =
    let (b, copied, is) = line-Copied t e in
    let u =
      moved (record t { stdin_line = b; stdin_len = t.cursor.chars_ctr })
        (Cursor.newline_kbd t.cursor) in
    let kept =
      moved-stdin (record t { stdin_line = b; stdin_len = t.cursor.chars_ctr })
        (Cursor.newline_kbd t.cursor) in
    rw (copied, enter)
      (record {
        input = record { line = u.stdin_line; size = u.stdin_len };
        given = refl;
        size = kept.1;
        text = rw (kept.0, kept.1) is.bytes;
      })

-- A line has begun.
begun : (t : Console) → Editable t → begin_line t ≡ t
unfolding begin_line
begun t e = ground (arith, e.line.line_col)

-- A key that prints.
abbrev pub Prints : ℕ → Type 0
Prints c = (0x20 ≤ c) × (c ≤ 0x7e)

abbrev pub AllPrint : List ℕ → Type 0
AllPrint [] = Unit
AllPrint (c ∷ s) = Prints c × AllPrint s

-- The keys of a line in turn, then Enter.
unfoldable pub type_line : Console → List ℕ → Outcome (Console × Option Input)
type_line t [] = putchar_from_keyboard t b'\n'
type_line t (c ∷ s) = putchar_from_keyboard t c >>= λ r. type_line r.0 s

putchar_from_keyboard-Prints :
    (t : Console) (c : ℕ)
    → Prints c
    → putchar_from_keyboard t c ≡ (type_char (begin_line t) c >>= λ (u : Console). done (u, none))
unfolding putchar_from_keyboard
putchar_from_keyboard-Prints t c p = ground arith

putchar_from_keyboard-enter : (t : Console) → putchar_from_keyboard t b'\n' ≡ enter (begin_line t)
unfolding putchar_from_keyboard
putchar_from_keyboard-enter t = refl

-- The reader is given the line `s`.
pub record Given (s : List ℕ) (out : Console × Option Input) : Type 0 where
  pub input : Input
  pub given : out.1 ≡ some input
  pub size : input.size ≡ length s
  pub text : chars input.line 0 input.size ≡ s

Entered-Given :
    (t : Console) (out : Console × Option Input) → Entered t out → Given (line_text t ++ []) out
Entered-Given t out e = record {
  input = e.input;
  given = e.given;
  size =
      e.size
      ∙ sym (length-chars (shown t) (line_start t) t.cursor.chars_ctr)
      ∙ sym (ap length (append-nil (line_text t)));
  text = e.text ∙ sym (append-nil (line_text t));
}

take-length : (xs : List ℕ) (n : ℕ) → n ≡ length xs → take n xs ≡ xs
take-length [] zero e = refl
take-length [] (suc n) e = refl
take-length (x ∷ xs) zero e = absurd (omega arith)
take-length (x ∷ xs) (suc n) e = rw (take-length xs n (omega arith))

drop-length : (xs : List ℕ) (n : ℕ) → n ≡ length xs → drop n xs ≡ []
drop-length [] zero e = refl
drop-length [] (suc n) e = refl
drop-length (x ∷ xs) zero e = absurd (omega arith)
drop-length (x ∷ xs) (suc n) e = drop-length xs n (omega arith)

Typed-at_end :
    (t u : Console) (c : ℕ) (s : List ℕ)
    → t.cursor.position_ctr ≡ t.cursor.chars_ctr
    → Typed c t u
    → line_text u ++ s ≡ line_text t ++ c ∷ s
Typed-at_end t u c s last h =
    let n : t.cursor.position_ctr ≡ length (line_text t) =
      last ∙ sym (length-chars (shown t) (line_start t) t.cursor.chars_ctr) in
    rw (h.text, take-length (line_text t) _ n, drop-length (line_text t) _ n)
      (append_assoc (line_text t) (c ∷ []) s)

type_line-Given_of_begun :
    (s : List ℕ) (t : Console)
    → Editable t
    → t.cursor.position_ctr ≡ t.cursor.chars_ctr
    → AllPrint s
    → line_start t + t.cursor.chars_ctr + length s < 2000
    → ((t.cursor.line_y ≡ 0) → t.cursor.line_x + t.cursor.chars_ctr + length s < 1920)
    → Ends (Given (line_text t ++ s)) (type_line t s)
unfolding type_line
type_line-Given_of_begun [] t e last p room short =
    rw (putchar_from_keyboard-enter t, begun t e)
      (Ends-map (Entered t) _ (enter t) (Entered-Given t) (enter-Entered t e))
type_line-Given_of_begun (c ∷ s) t e last p room short =
    rw (putchar_from_keyboard-Prints t c p.0, begun t e)
      (Ends-bind (λ r. Typed c t r.0) (Given (line_text t ++ c ∷ s)) _ (λ r. type_line r.0 s)
        (Ends-bind (Typed c t) (λ r. Typed c t r.0) (type_char t c) (λ u. done (u, none))
          (type_char-Typed t c e (record { screen = omega arith; line = λ z. omega (arith, short) })
            (omega (arith, p.0.0)) (omega (arith, p.0.1)))
          (λ u h. h))
        (λ r h.
          subst (λ l. Ends (Given l) (type_line r.0 s)) (Typed-at_end t r.0 c s last h)
            (type_line-Given_of_begun s r.0 h.editable (omega (arith, h.position, h.count, last))
              p.1 (omega (arith, h.start, h.count)) (λ z. omega (arith, h.start, h.count, short)))))

-- No input line has begun, and the cursor is on the screen.
pub record Fresh (t : Console) : Type 0 where
  pub screen : OnScreen t.cursor
  pub no_line : (t.cursor.line_x ≡ word_max) × (t.cursor.line_y ≡ word_max)
  pub no_chars : (t.cursor.chars_ctr ≡ 0) × (t.cursor.position_ctr ≡ 0)
  pub color : t.terminal_color < 256

-- the console with an input line that starts under the cursor
abbrev started : Console → Console
started t = record t { cursor = record (t.cursor) { line_x = t.cursor.x; line_y = t.cursor.y } }

begin_line-started : (t : Console) → Fresh t → begin_line t ≡ started t
unfolding begin_line
begin_line-started t f = rw (f.no_line.0, f.no_line.1) refl

started-Editable :
    (t : Console) → Fresh t → (t.cursor.y ≡ 0 → t.cursor.x < 1920) → Editable (started t)
started-Editable t f h = record {
  line = ground (arith, f.screen.col, f.screen.row, f.no_chars.0, f.no_chars.1);
  short = λ z. omega (arith, f.screen.col, f.no_chars.0);
  printed = λ r lt. absurd (omega (arith, f.no_chars.0));
  color = f.color;
}

begin_line-started_again : (t : Console) → Fresh t → begin_line (started t) ≡ started t
unfolding begin_line
begin_line-started_again t f = ground (arith, f.screen.col)

-- The first key sets where the line starts, and does nothing more to it.
type_line-begin_line :
    (s : List ℕ) (t : Console)
    → begin_line (begin_line t) ≡ begin_line t
    → AllPrint s
    → type_line t s ≡ type_line (begin_line t) s
unfolding type_line
type_line-begin_line [] t e p =
    putchar_from_keyboard-enter t
    ∙ ap enter (sym e)
    ∙ sym (putchar_from_keyboard-enter (begin_line t))
type_line-begin_line (c ∷ s) t e p =
    ap (λ m. m >>= λ (r : Console × Option Input). type_line r.0 s)
      (putchar_from_keyboard-Prints t c p.0
        ∙ ap (λ u. type_char u c >>= λ (w : Console). done (w, none)) (sym e)
        ∙ sym (putchar_from_keyboard-Prints (begin_line t) c p.0))

-- Typing printable characters at a fresh prompt and then Enter hands exactly those characters, in order,
-- to the reader of standard input, if the line ends before the screen does.
pub type_line-Given :
    (s : List ℕ) (t : Console)
    → Fresh t
    → AllPrint s
    → place t.cursor + length s < 2000
    → (t.cursor.y ≡ 0 → t.cursor.x + length s < 1920)
    → Ends (Given s) (type_line t s)
type_line-Given s t f p room short =
    let b = begin_line-started t f in
    let again : begin_line (begin_line t) ≡ begin_line t =
      ap begin_line b ∙ begin_line-started_again t f ∙ sym b in
    let none_typed : line_text (started t) ≡ [] = rw (f.no_chars.0) refl in
    rw (type_line-begin_line s t again p, b)
      (subst (λ l. Ends (Given (l ++ s)) (type_line (started t) s)) none_typed
        (type_line-Given_of_begun s (started t)
          (started-Editable t f λ z. omega (arith, f.screen.col)) (f.no_chars.1 ∙ sym f.no_chars.0)
          p (omega (arith, f.no_chars.0)) (λ z. omega (arith, short z, f.no_chars.0))))
