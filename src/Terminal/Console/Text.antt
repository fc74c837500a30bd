-- ===== src/Terminal/Console/Text.antt =====
-- What a printed string looks like on the screen.
use polx.Base.{
  ℕ, ◌+◌, ◌≤◌, ◌<◌, ◌≡◌, refl, ◌≢◌, ◌⊎◌, List, [], ◌∷◌, arith, ◌==◌, if◌then◌else◌, length,
}
use mathlib.Core.Path.{ap₂}
use polx.Terminal.Vga.{vga_entry, index, put_entry}
use polx.Terminal.Vga.Entry.{vga_entry_fields}
use polx.Terminal.Vga.Line.{text}
use polx.Terminal.Cursor
use polx.Terminal.Cursor.{Cursor, CursorRet, success, max_height}
use polx.Terminal.Cursor.Moves.{place}
use polx.Terminal.Cursor.Lines.{OnScreen, next_char-OnScreen}
use polx.Terminal.Console.{Console, put, putchar, writestring, moved, end_line}

-- a byte that is printed as it is
abbrev pub IsPlain : ℕ → Type 0
IsPlain c = (c < 256) × (c ≢ 10) × (c ≢ 0xb1)

abbrev pub ArePlain : List ℕ → Type 0
ArePlain [] = Unit
ArePlain (c ∷ s) = IsPlain c × ArePlain s

-- No command is being read.
pub record Ready (t : Console) : Type 0 where
  pub screen : OnScreen t.cursor
  pub command : t.command_idx ≡ 0
  pub color : t.terminal_color < 256

-- `u` is `t` with `s` printed at the cursor.
pub record Printed (s : List ℕ) (t u : Console) : Type 0 where
  pub shown : text u.video (place t.cursor) (length s) ≡ s
  pub moved_to : place u.cursor ≡ place t.cursor + length s
  pub kept :
      (a : ℕ) → (a < place t.cursor) ⊎ (place t.cursor + length s ≤ a) → u.video a ≡ t.video a
  pub ready : Ready u

putchar-step :
    (t : Console) (c : ℕ)
    → IsPlain c
    → t.command_idx ≡ 0
    → putchar t c ≡ end_line (moved (put t c) (Cursor.next_char t.cursor))
unfolding putchar
putchar-step t c plain idle = ground arith

moved-success :
    (t : Console) (m : CursorRet × Cursor) → m.0 ≡ success → moved t m ≡ record t { cursor = m.1 }
unfolding moved
moved-success t (success, c) e = refl
moved-success t (max_height, c) e = cc

-- One plain byte away from the screen's last entry.
record Put (c : ℕ) (t u : Console) : Type 0 where
  entry :
      (a : ℕ)
      → u.video a ≡ (if place t.cursor == a then vga_entry c t.terminal_color else t.video a)
  next : place u.cursor ≡ place t.cursor + 1
  ready : Ready u

putchar-Put :
    (t : Console) (c : ℕ) → IsPlain c → Ready t → place t.cursor < 1999 → Put c t (putchar t c)
unfolding put put_entry end_line
putchar-Put t c plain r room =
    let next = next_char-OnScreen t.cursor r.screen in
    let ok : (Cursor.next_char t.cursor).0 ≡ success = ground (arith, next) in
    let at : index t.cursor.x t.cursor.y ≡ place t.cursor =
      omega (arith, r.screen.col, r.screen.row) in
    rw (putchar-step t c plain r.command, moved-success (put t c) (Cursor.next_char t.cursor) ok)
      (record {
        entry = λ a. rw at;
        next = ground (arith, next);
        ready = record {
          screen = record { col = next.0.col; row = next.0.row };
          command = r.command;
          color = r.color;
        };
      })

-- A string of plain bytes that ends before the screen's last entry appears at the cursor as it is: the
-- cursor ends just behind it and no other entry changes.
pub writestring-Printed :
    (s : List ℕ) (t : Console)
    → ArePlain s
    → Ready t
    → place t.cursor + length s < 2000
    → Printed s t (writestring t s)
unfolding writestring
writestring-Printed [] t plain r room = record {
  shown = refl;
  moved_to = omega arith;
  kept = λ a h. refl;
  ready = r;
}
writestring-Printed (c ∷ s) t plain r room =
    let one = putchar-Put t c plain.0 r (omega arith) in
    let rest = writestring-Printed s (putchar t c) plain.1 one.ready (omega (arith, one.next)) in
    let here = one.entry (place t.cursor) in
    let fields = (vga_entry_fields c t.terminal_color plain.0.0 r.color).0 in
    record {
      shown =
          ap₂ ◌∷◌ (ground (arith, rest.kept (place t.cursor), one.next, here, fields))
            (rw one.next at rest.shown);
      moved_to = omega (arith, one.next, rest.moved_to);
      kept = λ a h. ground (arith, one.next, rest.kept a, one.entry a);
      ready = rest.ready;
    }
