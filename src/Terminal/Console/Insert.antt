-- ===== src/Terminal/Console/Insert.antt =====
-- Typing in the middle of the input line.
use polx.Base.{
  ℕ, suc, ◌+◌, ◌-◌, ◌*◌, ◌%◌, ◌≤◌, ◌<◌, ◌≡◌, refl, sym, ap, ◌∙◌, ◌⊎◌, inl, inr, some, ◌∷◌, ◌++◌,
  arith, ◌==◌, if◌then◌else◌, length, take, drop, length-drop, add_word, sub_word, done, Ends,
}
use mathlib.Core.Path.{ap₂, subst}
use polx.Terminal.Vga.{Video, Buffer, vga_entry, index, put_entry, copy_line, paste_line}
use polx.Terminal.Vga.Entry.{vga_entry_fields}
use polx.Terminal.Vga.Line.{chars, length-chars}
use polx.Terminal.Vga.Chars.{
  take-chars, drop-chars, chars-eq, AreBytes-chars, chars-append, Line-text_full,
}
use polx.Terminal.Vga.Paste.{compact, Line, paste_line-Line}
use polx.Terminal.Cursor.{Cursor}
use polx.Terminal.Cursor.Moves.{InLine}
use polx.Terminal.Console.{Console, put, insert_into_inputline}
use polx.Terminal.Console.Edit.{
  line_start, line_text, Editable, shown, LineCopy, Copied-at, compact-chars, line-Copied,
}

-- What typing `ch` before the byte under the cursor gives.
pub record Inserted (ch : ℕ) (t u : Console) : Type 0 where
  pub text :
      chars (shown u) (line_start t) (t.cursor.chars_ctr + 1)
      ≡ take t.cursor.position_ctr (line_text t) ++ ch ∷ drop t.cursor.position_ctr (line_text t)
  pub kept :
      (a : ℕ)
      → (a < line_start t) ⊎ (line_start t + t.cursor.chars_ctr + 1 ≤ a)
      → u.video a ≡ t.video a
  pub cursor : u.cursor ≡ t.cursor
  pub len : u.stdin_len ≡ t.cursor.chars_ctr + 1
  pub color : u.terminal_color ≡ t.terminal_color

-- There is room for one more character.
pub record HasRoom (t : Console) : Type 0 where
  pub screen : line_start t + t.cursor.chars_ctr + 1 ≤ 2000
  pub line : (t.cursor.line_y ≡ 0) → t.cursor.line_x + t.cursor.chars_ctr + 1 ≤ 1920

abbrev rest_len : Console → ℕ
rest_len t = t.cursor.chars_ctr - t.cursor.position_ctr

-- the rest of the line, from the cursor on
rest_text :
    (t : Console) (b : Buffer)
    → Editable t
    → LineCopy t b
    → compact (chars (λ k. b (t.cursor.position_ctr + k)) 0 (rest_len t))
      ≡ drop t.cursor.position_ctr (line_text t)
rest_text t b e copied =
    compact-chars (λ k. b (i + k)) 0 (rest_len t)
      (λ r lo hi. ground (arith, e.line.order, Copied-at (i + r) copied, e.printed (i + r)))
    ∙ chars-eq (λ k. b (i + k)) (shown t) 0 (line_start t + i) (rest_len t) (λ r lt. rest_at r lt)
    ∙ sym (drop-chars (shown t) i (line_start t) n (rest_len t) (omega (arith, e.line.order)))
  where
    i : ℕ
    i = t.cursor.position_ctr

    n : ℕ
    n = t.cursor.chars_ctr

    rest_at : (r : ℕ) → r < rest_len t → b (i + (0 + r)) ≡ shown t (line_start t + i + r)
    rest_at r lt =
        let p : i + (0 + r) ≡ i + r = omega arith in
        let q : line_start t + i + r ≡ line_start t + (i + r) = omega arith in
        rw (p, q) (Copied-at (i + r) copied (omega arith))

insert_into_inputline-done :
    (t : Console) (ch : ℕ) (b : Buffer) (w : Video)
    → Editable t
    → copy_line t.video t.cursor.line_x t.cursor.line_y t.cursor.chars_ctr t.stdin_line ≡ some b
    → paste_line
        (put t ch).video
        (t.cursor.position_ctr + t.cursor.line_x + 1)
        t.cursor.line_y
        (rest_len t)
        (λ k. b (t.cursor.position_ctr + k))
        t.terminal_color
      ≡ some w
    → insert_into_inputline t ch t.cursor.position_ctr
      ≡ done (record t { video = w; stdin_line = b; stdin_len = t.cursor.chars_ctr + 1 })
unfolding insert_into_inputline
insert_into_inputline-done t ch b w e p q =
    let i : add_word (add_word t.cursor.position_ctr t.cursor.line_x) 1
        ≡ t.cursor.position_ctr + t.cursor.line_x + 1 =
      omega (arith, e.line.end, e.line.order) in
    let l : sub_word t.cursor.chars_ctr t.cursor.position_ctr ≡ rest_len t =
      omega (arith, e.line.end, e.line.order) in
    let n : add_word t.cursor.chars_ctr 1 ≡ t.cursor.chars_ctr + 1 = omega (arith, e.line.end) in
    rw (p, insert_into_inputline) (rw (i, l) (rw (q, insert_into_inputline) (rw n)))

rest_pasted :
    (t : Console) (ch : ℕ) (b : Buffer)
    → Editable t
    → HasRoom t
    → (w : Video) × (paste_line
          (put t ch).video
          (t.cursor.position_ctr + t.cursor.line_x + 1)
          t.cursor.line_y
          (rest_len t)
          (λ k. b (t.cursor.position_ctr + k))
          t.terminal_color
        ≡ some w)
      × Line
          (compact (chars (λ k. b (t.cursor.position_ctr + k)) 0 (rest_len t)))
          (t.cursor.line_y * 80 + (t.cursor.position_ctr + t.cursor.line_x + 1))
          (rest_len t)
          t.terminal_color
          (put t ch).video
          w
rest_pasted t ch b e room =
    elim (paste_line-Line (put t ch).video (c.position_ctr + c.line_x + 1) c.line_y (rest_len t)
      (λ k. b (c.position_ctr + k)) t.terminal_color (omega (arith, e.line.end, e.line.order))
      (omega (arith, e.line.end)) (omega (arith, e.line.end))) [
        | inl (refused, why) ↦ absurd (ground (arith, why, room.screen, room.line, e.line.order))
        | inr found ↦ found
      ]
  where
    c : Cursor
    c = t.cursor

pub put-video :
    (t : Console) (ch a : ℕ)
    → InLine t.cursor
    → (put t ch).video a ≡ (
        if line_start t + t.cursor.position_ctr == a
        then vga_entry ch t.terminal_color
        else t.video a)
unfolding put put_entry
put-video t ch a l =
    let at : index t.cursor.x t.cursor.y ≡ line_start t + t.cursor.position_ctr =
      omega (arith, l.col, l.row, l.at) in
    rw at

module _ (t : Console) (ch : ℕ) (w : Video) (e : Editable t) (byte : ch < 256)
    (line : Line
      (drop t.cursor.position_ctr (line_text t))
      (line_start t + t.cursor.position_ctr + 1)
      (rest_len t)
      t.terminal_color
      (put t ch).video
      w) where
  abbrev at_cursor : ℕ
  at_cursor = line_start t + t.cursor.position_ctr

  before :
      chars (λ k. w k % 256) (line_start t) t.cursor.position_ctr
      ≡ take t.cursor.position_ctr (line_text t)
  before =
      chars-eq (λ k. w k % 256) (shown t) (line_start t) (line_start t) t.cursor.position_ctr
        (λ r lt. ground (arith, line (line_start t + r), put-video t ch (line_start t + r) e.line))
      ∙ sym (
          take-chars (shown t) t.cursor.position_ctr (line_start t) t.cursor.chars_ctr e.line.order)

  under : w at_cursor % 256 ≡ ch
  under = ground (
    arith,
    line at_cursor,
    put-video t ch at_cursor e.line,
    vga_entry_fields ch t.terminal_color,
    e.color,
  )

  length-rest : length (drop t.cursor.position_ctr (line_text t)) ≡ rest_len t
  length-rest =
      length-drop t.cursor.position_ctr (line_text t)
      ∙ ap (λ (n : ℕ). n - t.cursor.position_ctr)
          (length-chars (shown t) (line_start t) t.cursor.chars_ctr)

  behind :
      chars (λ k. w k % 256) (at_cursor + 1) (rest_len t) ≡ drop t.cursor.position_ctr (line_text t)
  behind =
      subst
        (λ n. chars (λ k. w k % 256) (at_cursor + 1) n ≡ drop t.cursor.position_ctr (line_text t))
        length-rest
        (Line-text_full (drop t.cursor.position_ctr (line_text t)) (at_cursor + 1) t.terminal_color
          (put t ch).video w
          (rw
            (drop-chars (shown t) t.cursor.position_ctr (line_start t) t.cursor.chars_ctr
              (rest_len t) (omega (arith, e.line.order)))
            (AreBytes-chars (shown t) _ (rest_len t) λ r lt. omega arith))
          e.color
          (subst
            (λ n.
              Line (drop t.cursor.position_ctr (line_text t)) (at_cursor + 1) n t.terminal_color
                (put t ch).video w)
            (sym length-rest) line))

  inserted_text :
      chars (λ k. w k % 256) (line_start t) (t.cursor.chars_ctr + 1)
      ≡ take t.cursor.position_ctr (line_text t) ++ ch ∷ drop t.cursor.position_ctr (line_text t)
  inserted_text =
      chars-append (λ k. w k % 256) (line_start t) t.cursor.position_ctr (suc (rest_len t))
        (t.cursor.chars_ctr + 1) (omega (arith, e.line.order))
      ∙ ap₂ ◌++◌ before (ap₂ ◌∷◌ under behind)

-- `_terminal_insert_into_inputline` at the cursor, in a line with room for one more character, does not
-- panic: on the screen the character stands before the rest of the line, and nothing outside the line
-- and the entry behind it changes.
pub insert_into_inputline-Inserted :
    (t : Console) (ch : ℕ)
    → Editable t
    → HasRoom t
    → ch < 256
    → Ends (Inserted ch t) (insert_into_inputline t ch t.cursor.position_ctr)
insert_into_inputline-Inserted t ch e room byte =
    let (b, copied, is) = line-Copied t e in
    let (w, pasted, line) = rest_pasted t ch b e room in
    let at : t.cursor.line_y * 80 + (t.cursor.position_ctr + t.cursor.line_x + 1)
        ≡ line_start t + t.cursor.position_ctr + 1 =
      omega arith in
    let line' : Line (drop t.cursor.position_ctr (line_text t))
        (line_start t + t.cursor.position_ctr + 1) (rest_len t) t.terminal_color (put t ch).video
        w =
      rw (← rest_text t b e is, ← at) line in
    rw (insert_into_inputline-done t ch b w e copied pasted) (record {
      text = inserted_text t ch w e byte line';
      kept = λ a out. ground (arith, line' a, put-video t ch a e.line, e.line.order);
      cursor = refl;
      len = refl;
      color = refl;
    })
