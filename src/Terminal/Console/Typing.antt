-- ===== src/Terminal/Console/Typing.antt =====
-- Typing a character into the input line.
use polx.Base.{
  ℕ, zero, suc, ◌+◌, ◌*◌, ◌<◌, ◌≡◌, refl, sym, ◌∙◌, ◌≢◌, inl, inr, List, [], ◌∷◌, ◌++◌, arith, ltb,
  Bool-cases, length, get_or, take, drop, done, Ends, Ends-bind,
}
use mathlib.Core.Path.{ap₂}
use polx.Terminal.Vga.Entry.{vga_entry_fields}
use polx.Terminal.Vga.Line.{chars, length-chars, get_or-chars}
use polx.Terminal.Vga.Chars.{chars-append, chars-eq, take-chars, drop-chars}
use polx.Terminal.Cursor
use polx.Terminal.Cursor.{Cursor, CursorRet, success, max_height}
use polx.Terminal.Cursor.Lines.{next_char_kbd-InLine}
use polx.Terminal.Console.{Console, put, insert_into_inputline}
use polx.Terminal.Console.Handler.{advance, advance_by, type_char}
use polx.Terminal.Console.Edit.{line_start, line_text, Editable, shown}
use polx.Terminal.Console.Insert.{Inserted, insert_into_inputline-Inserted, put-video}

unfoldable pub AreNonzero : List ℕ → Type 0
AreNonzero [] = Unit
AreNonzero (x ∷ xs) = (x ≢ 0) × AreNonzero xs

pub get_or-ne_zero : (xs : List ℕ) (r : ℕ) → AreNonzero xs → r < length xs → get_or xs r 0 ≢ 0
unfolding AreNonzero
get_or-ne_zero [] r h lt = absurd (omega arith)
get_or-ne_zero (x ∷ xs) zero h lt = h.0
get_or-ne_zero (x ∷ xs) (suc r) h lt = get_or-ne_zero xs r h.1 (omega arith)

pub AreNonzero-chars :
    (f : ℕ → ℕ) (p n : ℕ) → ((r : ℕ) → r < n → f (p + r) ≢ 0) → AreNonzero (chars f p n)
unfolding AreNonzero
AreNonzero-chars f p zero h = tt
AreNonzero-chars f p (suc n) h =
    let e : p + 0 ≡ p = omega arith in
    (
      rw e at (h 0 (omega arith)),
      AreNonzero-chars f (p + 1) n
          λ r lt. let q : p + suc r ≡ p + 1 + r = omega arith in rw q at (h (suc r) (omega arith)),
    )

AreNonzero-insert :
    (i ch : ℕ) (xs : List ℕ) → ch ≢ 0 → AreNonzero xs → AreNonzero (take i xs ++ ch ∷ drop i xs)
unfolding AreNonzero
AreNonzero-insert zero ch xs nz h = (nz, h)
AreNonzero-insert (suc i) ch [] nz h = (nz, tt)
AreNonzero-insert (suc i) ch (x ∷ xs) nz h = (h.0, AreNonzero-insert i ch xs nz h.1)

-- The line after typing `ch` at the cursor.
pub record Typed (ch : ℕ) (t u : Console) : Type 0 where
  pub text :
      line_text u
      ≡ take t.cursor.position_ctr (line_text t) ++ ch ∷ drop t.cursor.position_ctr (line_text t)
  pub editable : Editable u
  pub start : (u.cursor.line_x ≡ t.cursor.line_x) × (u.cursor.line_y ≡ t.cursor.line_y)
  pub count : u.cursor.chars_ctr ≡ t.cursor.chars_ctr + 1
  pub position : u.cursor.position_ctr ≡ t.cursor.position_ctr + 1

-- The line with one more character still ends on the screen and is not too long.
pub record Fits (t : Console) : Type 0 where
  pub screen : line_start t + t.cursor.chars_ctr + 1 < 2000
  pub line : (t.cursor.line_y ≡ 0) → t.cursor.line_x + t.cursor.chars_ctr + 1 < 1920

next_char_kbd-line :
    (c : Cursor)
    → ((Cursor.next_char_kbd c).1.line_x ≡ c.line_x)
      × ((Cursor.next_char_kbd c).1.line_y ≡ c.line_y)
unfolding Cursor.next_char_kbd
next_char_kbd-line c = ground arith

advance_by-success :
    (t : Console) (m : CursorRet × Cursor)
    → m.0 ≡ success
    → advance_by t m ≡ record t { cursor = m.1 }
unfolding advance_by
advance_by-success t (success, c) e = refl
advance_by-success t (max_height, c) e = cc

abbrev typed_text : Console → ℕ → List ℕ
typed_text t ch =
    take t.cursor.position_ctr (line_text t) ++ ch ∷ drop t.cursor.position_ctr (line_text t)

typed_text-ne_zero : (t : Console) (ch : ℕ) → Editable t → ch ≢ 0 → AreNonzero (typed_text t ch)
typed_text-ne_zero t ch e nz =
    AreNonzero-insert t.cursor.position_ctr ch (line_text t) nz
      (AreNonzero-chars (shown t) (line_start t) t.cursor.chars_ctr e.printed)

-- Once the text is on the screen, the cursor moves on.
advance-Typed :
    (t u : Console) (ch : ℕ)
    → Editable t
    → Fits t
    → ch ≢ 0
    → chars (shown u) (line_start t) (t.cursor.chars_ctr + 1) ≡ typed_text t ch
    → u.cursor ≡ t.cursor
    → u.terminal_color ≡ t.terminal_color
    → Typed ch t (advance u)
unfolding advance
advance-Typed t u ch e fits nz shows same color =
    let step = next_char_kbd-InLine t.cursor e.line fits.screen in
    let kept = next_char_kbd-line t.cursor in
    let start : (Cursor.next_char_kbd t.cursor).1.line_y * 80
          + (Cursor.next_char_kbd t.cursor).1.line_x
        ≡ line_start t =
      omega (arith, kept) in
    rw (same, advance_by-success u (Cursor.next_char_kbd t.cursor) step.1)
      (record {
        text = rw (start, step.3) shows;
        editable = record {
          line = step.0;
          short = λ z. omega (arith, fits.line, kept, step.3);
          printed = λ r lt. rw start (
              rw
                (
                  ← get_or-chars (shown u) (line_start t) (t.cursor.chars_ctr + 1) r
                      (omega (arith, step.3)),
                  shows,
                )
                (get_or-ne_zero (typed_text t ch) r (typed_text-ne_zero t ch e nz) (
                  rw (← shows) (
                    omega (
                      arith,
                      step.3,
                      length-chars (shown u) (line_start t) (t.cursor.chars_ctr + 1),
                    )))));
          color = omega (arith, color, e.color);
        };
        start = kept;
        count = step.3;
        position = step.2;
      })

-- at the end of the line the character is simply put under the cursor
put-typed_text :
    (t : Console) (ch : ℕ)
    → Editable t
    → ch < 256
    → t.cursor.position_ctr ≡ t.cursor.chars_ctr
    → chars (shown (put t ch)) (line_start t) (t.cursor.chars_ctr + 1) ≡ typed_text t ch
put-typed_text t ch e byte last =
    chars-append (shown (put t ch)) (line_start t) i (suc zero) (n + 1) (omega arith)
    ∙ ap₂ ◌++◌
        (chars-eq (shown (put t ch)) (shown t) (line_start t) (line_start t) i
            (λ r lt. ground (arith, put-video t ch (line_start t + r) e.line))
          ∙ sym (take-chars (shown t) i (line_start t) n e.line.order))
        (ap₂ ◌∷◌ under (sym (drop-chars (shown t) i (line_start t) n 0 (omega arith))))
  where
    i : ℕ
    i = t.cursor.position_ctr

    n : ℕ
    n = t.cursor.chars_ctr

    under : shown (put t ch) (line_start t + i) ≡ ch
    under = ground (
      arith,
      put-video t ch (line_start t + i) e.line,
      vga_entry_fields ch t.terminal_color,
      e.color,
    )

put-same :
    (t : Console) (ch : ℕ)
    → ((put t ch).cursor ≡ t.cursor) × ((put t ch).terminal_color ≡ t.terminal_color)
unfolding put
put-same t ch = (refl, refl)

-- A printed character that still fits goes into the line at the cursor, wherever in the line that is: on
-- the screen the line reads as before with the character inserted, and the cursor is behind it.
pub type_char-Typed :
    (t : Console) (ch : ℕ)
    → Editable t
    → Fits t
    → ch ≢ 0
    → ch < 256
    → Ends (Typed ch t) (type_char t ch)
unfolding type_char
type_char-Typed t ch e fits nz byte =
    elim (Bool-cases (ltb t.cursor.position_ctr t.cursor.chars_ctr)) [
      | inl inside ↦ rw inside (
          Ends-bind (Inserted ch t) (Typed ch t) (insert_into_inputline t ch t.cursor.position_ctr)
            (λ inserted. done (advance inserted))
            (insert_into_inputline-Inserted t ch e
              (record { screen = omega (arith, fits.screen); line = λ z. omega (arith, fits.line) })
              byte)
            (λ u is. advance-Typed t u ch e fits nz is.text is.cursor is.color))
      | inr last ↦ rw last (
          advance-Typed t (put t ch) ch e fits nz
            (put-typed_text t ch e byte (ground (arith, e.line.order))) (put-same t ch).0
            (put-same t ch).1)
    ]
