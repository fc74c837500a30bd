-- ===== src/Terminal/Console/Erase.antt =====
-- The keys that take a character out of the input line.
use polx.Base.{
  ℕ, zero, suc, ◌+◌, ◌-◌, ◌%◌, ◌≤◌, ◌<◌, ◌≡◌, refl, sym, ap, ◌∙◌, ◌≢◌, false, ◌||◌, List, [], ◌∷◌,
  ◌++◌, arith, ◌==◌, length, take, drop, sub_word, ◌>>=◌, Ends, Ends-bind, Ends-map,
}
use polx.Terminal.Vga.Line.{chars, length-chars, get_or-chars}
use polx.Terminal.Vga.Chars.{take-chars}
use polx.Terminal.Cursor
use polx.Terminal.Cursor.{Cursor}
use polx.Terminal.Cursor.Moves.{InLine, move_left-InLine}
use polx.Terminal.Cursor.Lines.{remove_char-InLine}
use polx.Terminal.Console.{Console}
use polx.Terminal.Console.Handler.{type_char, backspace, delete}
use polx.Terminal.Console.Edit.{
  line_start, line_text, shown, Editable, Removed, remove_from_inputline-Removed, length-cut,
}
use polx.Terminal.Console.Typing.{
  Typed, Fits, type_char-Typed, AreNonzero, AreNonzero-chars, get_or-ne_zero,
}

-- The line after the removal of byte `idx`.
pub record Erased (idx : ℕ) (t u : Console) : Type 0 where
  pub text : line_text u ≡ take idx (line_text t) ++ drop (idx + 1) (line_text t)
  pub editable : Editable u
  pub start : (u.cursor.line_x ≡ t.cursor.line_x) × (u.cursor.line_y ≡ t.cursor.line_y)
  pub count : u.cursor.chars_ctr ≡ t.cursor.chars_ctr - 1
  pub position : u.cursor.position_ctr ≡ idx

take-append-length : (xs ys : List ℕ) (n : ℕ) → n ≡ length xs → take n (xs ++ ys) ≡ xs
take-append-length [] ys zero e = refl
take-append-length [] ys (suc n) e = absurd (omega arith)
take-append-length (x ∷ xs) ys zero e = absurd (omega arith)
take-append-length (x ∷ xs) ys (suc n) e = rw (take-append-length xs ys n (omega arith))

AreNonzero-cut : (i : ℕ) (xs : List ℕ) → AreNonzero xs → AreNonzero (take i xs ++ drop (i + 1) xs)
unfolding AreNonzero
AreNonzero-cut zero [] h = tt
AreNonzero-cut zero (x ∷ xs) h = h.1
AreNonzero-cut (suc i) [] h = let e : suc i + 1 ≡ suc (i + 1) = omega arith in rw e tt
AreNonzero-cut (suc i) (x ∷ xs) h =
    let e : suc i + 1 ≡ suc (i + 1) = omega arith in rw e (h.0, AreNonzero-cut i xs h.1)

-- the cursor after the removal, whatever moved it
record Shrunk (idx : ℕ) (t : Console) (c : Cursor) : Type 0 where
  line : InLine c
  start : (c.line_x ≡ t.cursor.line_x) × (c.line_y ≡ t.cursor.line_y)
  count : c.chars_ctr ≡ t.cursor.chars_ctr - 1
  position : c.position_ctr ≡ idx

Removed-text :
    (idx n : ℕ) (t u : Console)
    → idx < t.cursor.chars_ctr
    → n ≡ t.cursor.chars_ctr - 1
    → Removed idx t u
    → chars (shown u) (line_start t) n ≡ take idx (line_text t) ++ drop (idx + 1) (line_text t)
Removed-text idx n t u h count r =
    let there : line_start u ≡ line_start t = rw (r.cursor) refl in
    let same : u.cursor.chars_ctr ≡ t.cursor.chars_ctr = rw (r.cursor) refl in
    sym (take-chars (shown u) n (line_start t) t.cursor.chars_ctr (omega (arith, count)))
    ∙ ap (take n) (rw (there, same) at (r.text))
    ∙ take-append-length _ (b' ' ∷ []) n (omega (arith, length-cut t idx h, count))

Removed-printed :
    (idx n : ℕ) (t u : Console)
    → Editable t
    → idx < t.cursor.chars_ctr
    → n ≡ t.cursor.chars_ctr - 1
    → Removed idx t u
    → (k : ℕ) → k < n
    → u.video (line_start t + k) % 256 ≢ 0
Removed-printed idx n t u e h count r k lt =
    rw (← get_or-chars (shown u) (line_start t) n k lt, Removed-text idx n t u h count r)
      (get_or-ne_zero _ k
        (AreNonzero-cut idx (line_text t) (AreNonzero-chars (shown t) (line_start t) _ e.printed))
        (omega (arith, length-cut t idx h, count)))

Removed-Erased :
    (idx : ℕ) (t u : Console) (c : Cursor)
    → Editable t
    → idx < t.cursor.chars_ctr
    → Removed idx t u
    → Shrunk idx t c
    → Erased idx t (record u { cursor = c })
Removed-Erased idx t u c e h r s =
    let same : line_start (record u { cursor = c }) ≡ line_start t = omega (arith, s.start) in
    record {
      text = rw same (Removed-text idx c.chars_ctr t u h s.count r);
      editable = record {
        line = s.line;
        short = λ z. omega (arith, e.short, s.start, s.count);
        printed = rw same (Removed-printed idx c.chars_ctr t u e h s.count r);
        color = omega (arith, r.color, e.color);
      };
      start = s.start;
      count = s.count;
      position = s.position;
    }

move_left-line :
    (c : Cursor)
    → ((Cursor.move_left c false).line_x ≡ c.line_x)
      × ((Cursor.move_left c false).line_y ≡ c.line_y)
unfolding Cursor.move_left
move_left-line c = ground arith

remove_char-line :
    (c : Cursor)
    → ((Cursor.remove_char c).line_x ≡ c.line_x) × ((Cursor.remove_char c).line_y ≡ c.line_y)
unfolding Cursor.remove_char
remove_char-line c = ground arith

-- DEL on a character of an editable line ends with the line without it and the cursor at the same place.
pub delete-Erased :
    (t : Console)
    → Editable t
    → t.cursor.position_ctr < t.cursor.chars_ctr
    → Ends (Erased t.cursor.position_ctr t) (delete t)
unfolding delete
delete-Erased t e h =
    let busy : (t.cursor.chars_ctr == 0 || t.cursor.chars_ctr == t.cursor.position_ctr) ≡ false =
      ground arith in
    rw busy (
      Ends-bind (Removed t.cursor.position_ctr t) (Erased t.cursor.position_ctr t) _ _
        (remove_from_inputline-Removed t t.cursor.position_ctr e h)
        (λ u r.
          let (line, count, position) = remove_char-InLine t.cursor e.line h in
          rw (r.cursor) (
            Removed-Erased t.cursor.position_ctr t u (Cursor.remove_char t.cursor) e h r (record {
              line = line;
              start = remove_char-line t.cursor;
              count = count;
              position = position;
            }))))

-- BACKSPACE behind a character of the line takes it out and goes back to its place.
pub backspace-Erased :
    (t : Console)
    → Editable t
    → 0 < t.cursor.position_ctr
    → Ends (Erased (t.cursor.position_ctr - 1) t) (backspace t)
unfolding backspace
backspace-Erased t e h =
    let c = Cursor.move_left t.cursor false in
    let busy : (t.cursor.chars_ctr == 0 || t.cursor.position_ctr == 0) ≡ false =
      ground (arith, e.line.order) in
    let back : sub_word t.cursor.position_ctr 1 ≡ t.cursor.position_ctr - 1 =
      omega (arith, e.line.order, e.line.end) in
    let (line, position, count) = move_left-InLine t.cursor e.line in
    let lt : c.position_ctr < c.chars_ctr = omega (arith, position, count, e.line.order) in
    let (line', count', position') = remove_char-InLine c line lt in
    rw (busy, back)
      (Ends-bind (Removed (t.cursor.position_ctr - 1) t) (Erased (t.cursor.position_ctr - 1) t) _ _
        (remove_from_inputline-Removed t (t.cursor.position_ctr - 1) e
          (omega (arith, e.line.order)))
        (λ u r. rw (r.cursor) (
          Removed-Erased (t.cursor.position_ctr - 1) t u (Cursor.remove_char c) e
            (omega (arith, e.line.order)) r
            (record {
              line = line';
              start = (
                (remove_char-line c).0 ∙ (move_left-line t.cursor).0,
                (remove_char-line c).1 ∙ (move_left-line t.cursor).1,
              );
              count = omega (arith, count', count);
              position = omega (arith, position', position);
            }))))

cut-insert :
    (i ch : ℕ) (xs : List ℕ)
    → i ≤ length xs
    → let ys = take i xs ++ ch ∷ drop i xs in take i ys ++ drop (i + 1) ys ≡ xs
cut-insert zero ch xs h = refl
cut-insert (suc i) ch [] h = absurd (omega arith)
cut-insert (suc i) ch (x ∷ xs) h =
    let e : suc i + 1 ≡ suc (i + 1) = omega arith in
    rw e (ap (λ ys. x ∷ ys) (cut-insert i ch xs (omega arith)))

-- the line and where the cursor is in it
pub record SameLine (t u : Console) : Type 0 where
  pub text : line_text u ≡ line_text t
  pub editable : Editable u
  pub start : (u.cursor.line_x ≡ t.cursor.line_x) × (u.cursor.line_y ≡ t.cursor.line_y)
  pub position : u.cursor.position_ctr ≡ t.cursor.position_ctr

-- BACKSPACE undoes a printed character, wherever in an editable input line it is typed: the line reads as
-- before and the cursor is at the same place of it. The line with the character in it must fit.
pub backspace-type_char :
    (t : Console) (ch : ℕ)
    → Editable t
    → Fits t
    → ch ≢ 0
    → ch < 256
    → Ends (SameLine t) (type_char t ch >>= backspace)
backspace-type_char t ch e fits nz byte =
    Ends-bind (Typed ch t) (SameLine t) (type_char t ch) backspace
      (type_char-Typed t ch e fits nz byte)
      (λ u typed.
        Ends-map (Erased (u.cursor.position_ctr - 1) u) (SameLine t) (backspace u)
          (λ w er.
            let i : u.cursor.position_ctr - 1 ≡ t.cursor.position_ctr =
              omega (arith, typed.position) in
            record {
              text =
                  er.text
                  ∙ rw (i, typed.text)
                      (cut-insert t.cursor.position_ctr ch (line_text t) (
                        omega (
                          arith,
                          e.line.order,
                          length-chars (shown t) (line_start t) t.cursor.chars_ctr,
                        )));
              editable = er.editable;
              start = (er.start.0 ∙ typed.start.0, er.start.1 ∙ typed.start.1);
              position = omega (arith, er.position, typed.position);
            })
          (backspace-Erased u typed.editable (omega (arith, typed.position))))
