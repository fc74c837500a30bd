-- ===== src/Terminal/Vga/Line.antt =====
-- Copying a line of text out of the video memory and pasting one into it.
use polx.Base.{
  ℕ, zero, suc, ◌+◌, ◌*◌, ◌%◌, ◌^◌, ◌≤◌, ◌<◌, ◌≡◌, refl, sym, ap, ◌∙◌, ◌⊎◌, inl, inr, false, ◌&&◌,
  none, some, List, [], ◌∷◌, arith, ltb, leb, if◌then◌else◌, Bool-cases, length, get_or, update,
}
use mathlib.Core.Path.{subst}
use polx.Terminal.Vga.{
  Video, Buffer, max_line_len, screen_size, index, outside, copy_loop, copy_line,
}

-- the `n` bytes of `f` from `p` on
abbrev pub chars : (ℕ → ℕ) → ℕ → ℕ → List ℕ
chars f p zero = []
chars f p (suc n) = f p ∷ chars f (p + 1) n

-- the text on the screen
abbrev pub text : Video → ℕ → ℕ → List ℕ
text v p n = chars (λ k. v k % 256) p n

pub length-chars : (f : ℕ → ℕ) (p n : ℕ) → length (chars f p n) ≡ n
length-chars f p zero = refl
length-chars f p (suc n) = ap suc (length-chars f (p + 1) n)

-- A list that agrees with `f` from `p` on is those bytes.
pub chars_of_get_or :
    (f : ℕ → ℕ) (xs : List ℕ) (p : ℕ)
    → ((r : ℕ) → r < length xs → f (p + r) ≡ get_or xs r 0)
    → chars f p (length xs) ≡ xs
chars_of_get_or f [] p h = refl
chars_of_get_or f (x ∷ xs) p h =
    rw (chars_of_get_or f xs (p + 1) λ r lt. (ap f (omega arith) ∙ h (suc r) (omega arith)))
      (let e : f p ≡ x = ap f (omega arith) ∙ h 0 (omega arith) in ap (λ y. y ∷ xs) e)

pub get_or-chars : (f : ℕ → ℕ) (p n r : ℕ) → r < n → get_or (chars f p n) r 0 ≡ f (p + r)
get_or-chars f p zero r h = absurd (omega arith)
get_or-chars f p (suc n) zero h = ap f (omega arith)
get_or-chars f p (suc n) (suc r) h = get_or-chars f (p + 1) n r (omega arith) ∙ ap f (omega arith)

-- A line that fits is inside the video memory.
pub outside-false :
    (x y len : ℕ)
    → x < 2 ^ 16
    → y ≤ 24
    → len < 2 ^ 16
    → outside x y len ≡ false
    → (y * 80 + x + len ≤ screen_size) × (len ≤ max_line_len)
unfolding outside
outside-false x y len hx hy hl h = ground arith

copy_loop_lem :
    (n idx src : ℕ) (v : Video) (buffer : Buffer) (k : ℕ)
    → copy_loop n idx src v buffer k
      ≡ (if leb idx k && ltb k (idx + n) then v (src + k) % 256 else buffer k)
unfolding copy_loop
copy_loop_lem zero idx src v buffer k = ground arith
copy_loop_lem (suc n) idx src v buffer k = ground (
  arith,
  copy_loop_lem n (idx + 1) src v (update buffer idx (v (src + idx) % 2 ^ 8)) k,
  ap (λ j. v (src + j) % 256),
)

-- What `vga_copy_line` gives for a line that starts at column `x` of row `y`.
pub record Copied (v : Video) (x y len : ℕ) (buffer b : Buffer) : Type 0 where
  pub within : y * 80 + x + len ≤ screen_size
  pub fits : len ≤ max_line_len
  pub bytes : chars b 0 len ≡ text v (y * 80 + x) len
  pub kept : (k : ℕ) → len ≤ k → b k ≡ buffer k

chars_of_text :
    (b : Buffer) (v : Video) (p n : ℕ)
    → ((r : ℕ) → r < n → b r ≡ v (p + r) % 256)
    → chars b 0 n ≡ text v p n
chars_of_text b v p n h =
    let len = length-chars (λ k. v k % 256) p n in
    subst (λ m. chars b 0 m ≡ text v p n) len
      (chars_of_get_or b (text v p n) 0 λ r lt.
        ap b (omega arith)
        ∙ h r (omega (arith, len))
        ∙ sym (get_or-chars (λ k. v k % 256) p n r (omega (arith, len))))

copy_loop-Copied :
    (v : Video) (x y len : ℕ) (buffer : Buffer)
    → x < 80
    → y ≤ 24
    → len < 2 ^ 16
    → outside x y len ≡ false
    → Copied v x y len buffer (copy_loop len 0 (index x y) v buffer)
copy_loop-Copied v x y len buffer hx hy hl fits =
    let bound = outside-false x y len (omega arith) hy hl fits in
    let at : index x y ≡ y * 80 + x = omega arith in
    rw at (record {
      within = bound.0;
      fits = bound.1;
      bytes =
          chars_of_text _ v (y * 80 + x) len
            λ r lt. ground (arith, copy_loop_lem len 0 (y * 80 + x) v buffer r);
      kept = λ k h. ground (arith, copy_loop_lem len 0 (y * 80 + x) v buffer k);
    })

-- `vga_copy_line` refuses only a line that would reach past the video memory or is longer than a
-- line may be; otherwise it copies exactly the characters of the line, and nothing else changes.
pub copy_line-Copied :
    (v : Video) (x y len : ℕ) (buffer : Buffer)
    → x < 80
    → y ≤ 24
    → len < 2 ^ 16
    → ((copy_line v x y len buffer ≡ none)
        × ((screen_size < y * 80 + x + len) ⊎ ((y ≡ 0) × (max_line_len < x + len))))
      ⊎ ((b : Buffer) × (copy_line v x y len buffer ≡ some b) × Copied v x y len buffer b)
unfolding copy_line outside
copy_line-Copied v x y len buffer hx hy hl = elim (Bool-cases (outside x y len)) [
  | inl out ↦ inl (rw out, ground arith)
  | inr fits ↦ inr (
    copy_loop len 0 (index x y) v buffer,
    rw fits,
    copy_loop-Copied v x y len buffer hx hy hl fits,
  )
]
