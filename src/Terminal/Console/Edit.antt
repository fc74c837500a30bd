-- ===== src/Terminal/Console/Edit.antt =====
-- Editing the input line in place: what the line on the screen reads afterwards.
use polx.Base.{
  ℕ, zero, suc, ◌+◌, ◌-◌, ◌*◌, ◌%◌, ◌≤◌, ◌<◌, ◌≡◌, refl, sym, ap, ◌∙◌, ◌≢◌, ◌⊎◌, inl, inr, some,
  List, [], ◌∷◌, ◌++◌, arith, length, length-append, get_or, take, drop, length-take, length-drop,
  update, done, Ends,
}
use mathlib.Core.Path.{ap₂, subst}
use polx.Terminal.Vga.{Video, Buffer, copy_line, paste_line}
use polx.Terminal.Vga.Line.{chars, text, length-chars, get_or-chars, Copied, copy_line-Copied}
use polx.Terminal.Vga.Chars.{
  AreBytes, take-chars, drop-chars, chars-eq, AreBytes-chars, AreBytes-append, Line-text,
}
use polx.Terminal.Vga.Paste.{compact, Line, paste_line-Line}
use polx.Terminal.Cursor.{Cursor}
use polx.Terminal.Cursor.Moves.{InLine}
use polx.Terminal.Console.{Console, remove_from_inputline}

-- where the input line starts
abbrev pub line_start : Console → ℕ
line_start t = t.cursor.line_y * 80 + t.cursor.line_x

-- The input line on the screen.
abbrev pub line_text : Console → List ℕ
line_text t = text t.video (line_start t) t.cursor.chars_ctr

-- The input line is on the screen, is not longer than a line may be, and holds no byte 0.
pub record Editable (t : Console) : Type 0 where
  pub line : InLine t.cursor
  pub short : (t.cursor.line_y ≡ 0) → t.cursor.line_x + t.cursor.chars_ctr < 1920
  pub printed : (r : ℕ) → r < t.cursor.chars_ctr → t.video (line_start t + r) % 256 ≢ 0
  pub color : t.terminal_color < 256

-- The rest of a line with no zero is unchanged by `compact`.
pub compact-chars :
    (b : Buffer) (j n : ℕ)
    → ((r : ℕ) → j ≤ r → r < j + n → b r ≢ 0)
    → compact (chars b j n) ≡ chars b j n
compact-chars b j zero h = refl
compact-chars b j (suc n) h = ground (
  arith,
  h j (omega arith) (omega arith),
  compact-chars b (j + 1) n (λ r lo hi. h r (omega arith) (omega arith)),
)

-- With its only zero `m` bytes in, `compact` drops that byte.
compact-cut :
    (b : Buffer) (m k j n : ℕ)
    → n ≡ m + suc k
    → b (j + m) ≡ 0
    → ((r : ℕ) → j ≤ r → r < j + n → r ≢ j + m → b r ≢ 0)
    → compact (chars b j n) ≡ chars b j m ++ chars b (j + m + 1) k
compact-cut b zero k j n e z h =
    let e' : n ≡ suc k = omega arith in
    let q : j + 0 ≡ j = omega arith in
    let z' : b j ≡ 0 = rw q at z in
    rw (e', q)
      (ground (
        arith,
        z',
        compact-chars b (j + 1) k λ r lo hi. h r (omega arith) (omega arith) (omega arith),
      ))
compact-cut b (suc m) k j n e z h =
    let e' : n ≡ suc (m + suc k) = omega arith in
    let q : j + suc m ≡ j + 1 + m = omega arith in
    rw (e', q)
      (ground (
        arith,
        h j (omega arith) (omega arith) (omega arith),
        compact-cut b m k (j + 1) (m + suc k) refl (rw q at z)
            (λ r lo hi ne. h r (omega arith) (omega arith) (omega arith)),
      ))

-- a byte of the copied line
pub Copied-at :
    {v : Video} {x y len : ℕ} {buffer b : Buffer} (r : ℕ)
    → Copied v x y len buffer b
    → r < len
    → b r ≡ v (y * 80 + x + r) % 256
Copied-at {v} {x} {y} {len} {b = b} r c h =
    ap b (omega arith)
    ∙ sym (get_or-chars b 0 len r h)
    ∙ ap (λ (k : List ℕ). get_or k r 0) c.bytes
    ∙ get_or-chars (λ k. v k % 256) (y * 80 + x) len r h

-- What removing the byte `idx` of the input line leaves.
pub record Removed (idx : ℕ) (t u : Console) : Type 0 where
  pub text : line_text u ≡ (take idx (line_text t) ++ drop (idx + 1) (line_text t)) ++ b' ' ∷ []
  pub kept :
      (a : ℕ) → (a < line_start t) ⊎ (line_start t + t.cursor.chars_ctr ≤ a) → u.video a ≡ t.video a
  pub cursor : u.cursor ≡ t.cursor
  pub len : u.stdin_len ≡ t.cursor.chars_ctr
  pub color : u.terminal_color ≡ t.terminal_color

-- The copy of an editable line succeeds.
pub line-Copied :
    (t : Console)
    → Editable t
    → (b : Buffer) × (copy_line t.video t.cursor.line_x t.cursor.line_y t.cursor.chars_ctr
          t.stdin_line
        ≡ some b)
      × Copied t.video t.cursor.line_x t.cursor.line_y t.cursor.chars_ctr t.stdin_line b
line-Copied t e =
    elim (copy_line-Copied t.video c.line_x c.line_y c.chars_ctr t.stdin_line e.line.line_col
      (omega (arith, e.line.end)) (omega (arith, e.line.end))) [
        | inl (refused, why) ↦ absurd (ground (arith, why, e.line.end, e.short))
        | inr found ↦ found
      ]
  where
    c : Cursor
    c = t.cursor

abbrev pub shown : Console → ℕ → ℕ
shown t k = t.video k % 256

abbrev pub LineCopy : Console → Buffer → Type 0
LineCopy t b = Copied t.video t.cursor.line_x t.cursor.line_y t.cursor.chars_ctr t.stdin_line b

cut-at :
    (t : Console) (idx : ℕ) (b : Buffer) (r i j : ℕ)
    → LineCopy t b
    → r < t.cursor.chars_ctr
    → r ≢ idx
    → i ≡ r
    → j ≡ line_start t + r
    → update b idx 0 i ≡ shown t j
cut-at t idx b r i j copied lt ne ei ej = rw (ei, ej) (ground (arith, Copied-at r copied))

-- the bytes that a cut at `idx` leaves of the copied line
cut_text :
    (t : Console) (idx : ℕ) (b : Buffer)
    → Editable t
    → idx < t.cursor.chars_ctr
    → LineCopy t b
    → compact (chars (update b idx 0) 0 t.cursor.chars_ctr)
      ≡ take idx (line_text t) ++ drop (idx + 1) (line_text t)
cut_text t idx b e h copied =
    compact-cut (update b idx 0) idx m 0 n (omega arith) at_cut not_zero
    ∙ ap₂ ◌++◌ (front ∙ sym (take-chars (shown t) idx (line_start t) n (omega arith)))
        (back ∙ sym (drop-chars (shown t) (idx + 1) (line_start t) n m (omega arith)))
  where
    n : ℕ
    n = t.cursor.chars_ctr

    m : ℕ
    m = n - idx - 1

    at_cut : update b idx 0 (0 + idx) ≡ 0
    at_cut = ground arith

    not_zero : (r : ℕ) → 0 ≤ r → r < 0 + n → r ≢ 0 + idx → update b idx 0 r ≢ 0
    not_zero r lo hi ne = ground (arith, Copied-at r copied, e.printed r)

    front : chars (update b idx 0) 0 idx ≡ chars (shown t) (line_start t) idx
    front = chars-eq _ _ 0 (line_start t) idx λ r lt.
        cut-at t idx b r (0 + r) (line_start t + r) copied (omega arith) (omega arith) (omega arith)
          refl

    back : chars (update b idx 0) (0 + idx + 1) m ≡ chars (shown t) (line_start t + (idx + 1)) m
    back = chars-eq _ _ (0 + idx + 1) (line_start t + (idx + 1)) m λ r lt.
        cut-at t idx b (idx + 1 + r) (0 + idx + 1 + r) (line_start t + (idx + 1) + r) copied
          (omega arith) (omega arith) (omega arith) (omega arith)

-- The paste of a line that fits succeeds.
Line-pasted :
    (t : Console) (b : Buffer)
    → Editable t
    → (w : Video) × (paste_line t.video t.cursor.line_x t.cursor.line_y t.cursor.chars_ctr b
          t.terminal_color
        ≡ some w)
      × Line
          (compact (chars b 0 t.cursor.chars_ctr))
          (line_start t)
          t.cursor.chars_ctr
          t.terminal_color
          t.video
          w
Line-pasted t b e =
    elim (paste_line-Line t.video c.line_x c.line_y c.chars_ctr b t.terminal_color
      (omega (arith, e.line.line_col)) (omega (arith, e.line.end)) (omega (arith, e.line.end))) [
        | inl (refused, why) ↦ absurd (ground (arith, why, e.line.end, e.short))
        | inr found ↦ found
      ]
  where
    c : Cursor
    c = t.cursor

AreBytes-take-drop :
    (t : Console) (idx : ℕ)
    → idx < t.cursor.chars_ctr
    → AreBytes (take idx (line_text t) ++ drop (idx + 1) (line_text t))
AreBytes-take-drop t idx h =
    rw
      (
        take-chars (shown t) idx (line_start t) n (omega arith),
        drop-chars (shown t) (idx + 1) (line_start t) n (n - idx - 1) (omega arith),
      )
      (AreBytes-append _ _ (AreBytes-chars (shown t) _ idx λ r lt. omega arith)
        (AreBytes-chars (shown t) _ (n - idx - 1) λ r lt. omega arith))
  where
    n : ℕ
    n = t.cursor.chars_ctr

remove_from_inputline-done :
    (t : Console) (idx : ℕ) (b : Buffer) (w : Video)
    → copy_line t.video t.cursor.line_x t.cursor.line_y t.cursor.chars_ctr t.stdin_line ≡ some b
    → paste_line t.video t.cursor.line_x t.cursor.line_y t.cursor.chars_ctr
        (update b idx 0)
        t.terminal_color
      ≡ some w
    → remove_from_inputline t idx
      ≡ done (record t { video = w; stdin_line = update b idx 0; stdin_len = t.cursor.chars_ctr })
unfolding remove_from_inputline
remove_from_inputline-done t idx b w p q =
    rw (p, remove_from_inputline) (rw (q, remove_from_inputline))

pub length-cut :
    (t : Console) (idx : ℕ)
    → idx < t.cursor.chars_ctr
    → length (take idx (line_text t) ++ drop (idx + 1) (line_text t)) + 1 ≡ t.cursor.chars_ctr
length-cut t idx h = omega (
  arith,
  length-append (take idx (line_text t)) (drop (idx + 1) (line_text t)),
  length-take idx (line_text t),
  length-drop (idx + 1) (line_text t),
  length-chars (shown t) (line_start t) t.cursor.chars_ctr,
)

-- `_terminal_remove_from_inputline` of a byte of the line does not panic: on the screen the rest of the
-- line moves up over the byte, a blank follows it, and nothing outside the line changes.
pub remove_from_inputline-Removed :
    (t : Console) (idx : ℕ)
    → Editable t
    → idx < t.cursor.chars_ctr
    → Ends (Removed idx t) (remove_from_inputline t idx)
remove_from_inputline-Removed t idx e h =
    let (b, copied, is) = line-Copied t e in
    let (w, pasted, line) = Line-pasted t (update b idx 0) e in
    let k = take idx (line_text t) ++ drop (idx + 1) (line_text t) in
    let line' : Line k (line_start t) t.cursor.chars_ctr t.terminal_color t.video w =
      rw (← cut_text t idx b e h is) line in
    rw (remove_from_inputline-done t idx b w copied pasted) (record {
      text =
          subst (λ n. text w (line_start t) n ≡ k ++ b' ' ∷ []) (length-cut t idx h)
            (Line-text k (line_start t) 1 t.terminal_color t.video w (AreBytes-take-drop t idx h)
              e.color
              (subst (λ n. Line k (line_start t) n t.terminal_color t.video w)
                (sym (length-cut t idx h)) line'));
      kept = λ a out. ground (arith, line a);
      cursor = refl;
      len = refl;
      color = refl;
    })
