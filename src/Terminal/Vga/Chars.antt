-- ===== src/Terminal/Vga/Chars.antt =====
-- Lists of bytes read from a buffer or from the screen.
use polx.Base.{
  ℕ, zero, suc, ◌+◌, ◌-◌, ◌%◌, ◌≤◌, ◌<◌, ◌≡◌, refl, sym, ap, ◌∙◌, List, [], ◌∷◌, ◌++◌, arith,
  length, length-append, get_or, take, drop, replicate, length-replicate,
}
use mathlib.Core.Path.{subst}
use mathlib.Core.List.{append-nil}
use polx.Terminal.Vga.{Video}
use polx.Terminal.Vga.Entry.{vga_entry_fields}
use polx.Terminal.Vga.Line.{chars, text, chars_of_get_or}
use polx.Terminal.Vga.Paste.{Line}

abbrev pub AreBytes : List ℕ → Type 0
AreBytes [] = Unit
AreBytes (x ∷ xs) = (x < 256) × AreBytes xs

pub take-chars : (f : ℕ → ℕ) (i p n : ℕ) → i ≤ n → take i (chars f p n) ≡ chars f p i
take-chars f zero p n h = refl
take-chars f (suc i) p zero h = absurd (omega arith)
take-chars f (suc i) p (suc n) h = rw (take-chars f i (p + 1) n (omega arith))

pub drop-chars : (f : ℕ → ℕ) (i p n m : ℕ) → i + m ≡ n → drop i (chars f p n) ≡ chars f (p + i) m
drop-chars f zero p n m e =
    let q : p + 0 ≡ p = omega arith in let e' : m ≡ n = omega arith in rw (q, e')
drop-chars f (suc i) p zero m e = absurd (omega arith)
drop-chars f (suc i) p (suc n) m e =
    let q : p + suc i ≡ p + 1 + i = omega arith in rw q (drop-chars f i (p + 1) n m (omega arith))

pub chars-eq :
    (f g : ℕ → ℕ) (p q n : ℕ)
    → ((r : ℕ) → r < n → f (p + r) ≡ g (q + r))
    → chars f p n ≡ chars g q n
chars-eq f g p q zero h = refl
chars-eq f g p q (suc n) h =
    let e : f p ≡ g q = ap f (omega arith) ∙ h 0 (omega arith) ∙ ap g (omega arith) in
    let rest =
      chars-eq f g (p + 1) (q + 1) n
        λ r lt. ap f (omega arith) ∙ h (suc r) (omega arith) ∙ ap g (omega arith) in
    rw (e, rest)

pub AreBytes-chars :
    (f : ℕ → ℕ) (p n : ℕ) → ((r : ℕ) → r < n → f (p + r) < 256) → AreBytes (chars f p n)
AreBytes-chars f p zero h = tt
AreBytes-chars f p (suc n) h =
    let e : p + 0 ≡ p = omega arith in
    (
      rw e at (h 0 (omega arith)),
      AreBytes-chars f (p + 1) n
          λ r lt. let q : p + suc r ≡ p + 1 + r = omega arith in rw q at (h (suc r) (omega arith)),
    )

pub AreBytes-append : (xs ys : List ℕ) → AreBytes xs → AreBytes ys → AreBytes (xs ++ ys)
AreBytes-append [] ys h k = k
AreBytes-append (x ∷ xs) ys h k = (h.0, AreBytes-append xs ys h.1 k)

pub get_or-AreBytes : (xs : List ℕ) (r : ℕ) → AreBytes xs → get_or xs r b' ' < 256
get_or-AreBytes [] r h = omega arith
get_or-AreBytes (x ∷ xs) zero h = h.0
get_or-AreBytes (x ∷ xs) (suc r) h = get_or-AreBytes xs r h.1

-- Reading past the end gives the blanks that follow.
get_or-blanks :
    (xs : List ℕ) (m r : ℕ)
    → r < length xs + m
    → get_or (xs ++ replicate m b' ') r 0 ≡ get_or xs r b' '
get_or-blanks [] zero r h = absurd (omega arith)
get_or-blanks [] (suc m) zero h = refl
get_or-blanks [] (suc m) (suc r) h = get_or-blanks [] m r (omega arith)
get_or-blanks (x ∷ xs) m zero h = refl
get_or-blanks (x ∷ xs) m (suc r) h = get_or-blanks xs m r (omega arith)

-- The text of a pasted line: the characters, then blanks.
pub Line-text :
    (k : List ℕ) (p m color : ℕ) (v w : Video)
    → AreBytes k
    → color < 256
    → Line k p (length k + m) color v w
    → text w p (length k + m) ≡ k ++ replicate m b' '
Line-text k p m color v w bytes hc h =
    let len : length (k ++ replicate m b' ') ≡ length k + m =
      omega (arith, length-append k (replicate m b' '), length-replicate {A = ℕ} m b' ') in
    rw (← len) (
      chars_of_get_or (λ a. w a % 256) (k ++ replicate m b' ') p
        λ r lt.
          (let at : p + r - p ≡ r = omega arith in
            let e = rw at at (h (p + r)) in
            ground (
              arith,
              len,
              e,
              get_or-blanks k m r,
              get_or-AreBytes k r bytes,
              vga_entry_fields (get_or k r b' ') color,
            )))

pub chars-append :
    (f : ℕ → ℕ) (p a b n : ℕ) → n ≡ a + b → chars f p n ≡ chars f p a ++ chars f (p + a) b
chars-append f p zero b n e =
    let q : p + 0 ≡ p = omega arith in let e' : n ≡ b = omega arith in rw (q, e')
chars-append f p (suc a) b n e =
    let q : p + suc a ≡ p + 1 + a = omega arith in
    let e' : n ≡ suc (a + b) = omega arith in
    rw (e', q) (ap (λ xs. f p ∷ xs) (chars-append f (p + 1) a b (a + b) refl))

-- A paste that fills its line exactly.
pub Line-text_full :
    (k : List ℕ) (p color : ℕ) (v w : Video)
    → AreBytes k
    → color < 256
    → Line k p (length k) color v w
    → text w p (length k) ≡ k
Line-text_full k p color v w bytes hc h =
    let z : length k + 0 ≡ length k = omega arith in
    subst (λ n. text w p n ≡ k) z
      (Line-text k p 0 color v w bytes hc (subst (λ n. Line k p n color v w) (sym z) h)
        ∙ append-nil k)
