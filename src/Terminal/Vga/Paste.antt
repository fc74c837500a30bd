-- ===== src/Terminal/Vga/Paste.antt =====
-- Pasting a line of text into the video memory.
use polx.Base.{
  ℕ, zero, suc, ◌+◌, ◌-◌, ◌*◌, ◌^◌, ◌≤◌, ◌<◌, ◌≡◌, refl, ap, ◌⊎◌, inl, inr, ◌&&◌, none, some, List,
  [], ◌∷◌, arith, ℕ_discrete, ltb, leb, ◌==◌, if◌then◌else◌, Bool-cases, length, get_or, update,
}
use polx.Terminal.Vga.{
  Video, Buffer, max_line_len, screen_size, vga_entry, index, fill_row, outside, paste_loop,
  paste_line,
}
use polx.Terminal.Vga.Rows.{fill_row_lem}
use polx.Terminal.Vga.Line.{chars}

-- without its zeros
abbrev pub compact : List ℕ → List ℕ
compact [] = []
compact (x ∷ xs) = if x == 0 then compact xs else x ∷ compact xs

-- The first loop of `vga_paste_line` writes the characters `k`, at most `n`, from `idx` on.
record Pasted (k : List ℕ) (idx n dst color : ℕ) (v : Video) (out : ℕ × Video) : Type 0 where
  count : out.0 ≡ idx + length k
  short : length k ≤ n
  entry :
      (a : ℕ)
      → out.1 a ≡ (
          if leb (dst + idx) a && ltb a (dst + idx + length k)
          then vga_entry (get_or k (a - (dst + idx)) 0) color
          else v a)

get_or-cons : (x : ℕ) (xs : List ℕ) (r : ℕ) → 0 < r → get_or (x ∷ xs) r 0 ≡ get_or xs (r - 1) 0
get_or-cons x xs zero h = absurd (omega arith)
get_or-cons x xs (suc r) h = ap (λ k. get_or xs k 0) (omega arith)

Pasted-cons :
    (k : List ℕ) (x idx n dst color : ℕ) (v : Video) (out : ℕ × Video)
    → Pasted k (idx + 1) n dst color (update v (dst + idx) (vga_entry x color)) out
    → Pasted (x ∷ k) idx (suc n) dst color v out
Pasted-cons k x idx n dst color v out rest = record {
  count = omega (arith, rest.count);
  short = omega (arith, rest.short);
  entry = λ a. elim (Bool-cases (ltb (dst + idx) a)) [
    | inl above ↦
        (let e : a - (dst + (idx + 1)) ≡ a - (dst + idx) - 1 = omega arith in
          ground (
            arith,
            rest.entry a,
            get_or-cons x k (a - (dst + idx)),
            ap (λ (r : ℕ). get_or k r 0) e,
          ))
    | inr below ↦ elim (ℕ_discrete a (dst + idx)) [
      | yes e ↦ (let z : a - (dst + idx) ≡ 0 = omega arith in rw z (ground (arith, rest.entry a)))
      | no ne ↦ ground (arith, rest.entry a)
    ]
  ];
}

paste_loop-Pasted :
    (n idx j dst color : ℕ) (buffer : Buffer) (v : Video)
    → Pasted (compact (chars buffer j n)) idx n dst color v (paste_loop n idx j dst color buffer v)
unfolding paste_loop
paste_loop-Pasted zero idx j dst color buffer v = record {
  count = omega arith;
  short = omega arith;
  entry = λ a. ground arith;
}
paste_loop-Pasted (suc n) idx j dst color buffer v = elim (Bool-cases (buffer j == 0)) [
  | inl zero_byte ↦
      (let rest = paste_loop-Pasted n idx (j + 1) dst color buffer v in
        rw zero_byte
          (record { count = rest.count; short = omega (arith, rest.short); entry = rest.entry }))
  | inr char ↦ rw char (
      Pasted-cons (compact (chars buffer (j + 1) n)) (buffer j) idx n dst color v _ (
        paste_loop-Pasted n (idx + 1) (j + 1) dst color buffer
          (update v (dst + idx) (vga_entry (buffer j) color))))
]

-- The video memory after a paste of the characters `k` over the `len` entries from `p` on.
abbrev pub Line : (k : List ℕ) (p len color : ℕ) → Video → Video → Type 0
Line k p len color v w =
    (a : ℕ)
    → w a ≡ (if leb p a && ltb a (p + len) then vga_entry (get_or k (a - p) b' ') color else v a)

get_or_in : (k : List ℕ) (r d e : ℕ) → r < length k → get_or k r d ≡ get_or k r e
get_or_in [] r d e h = absurd (omega arith)
get_or_in (x ∷ k) zero d e h = refl
get_or_in (x ∷ k) (suc r) d e h = get_or_in k r d e (omega arith)

get_or_past : (k : List ℕ) (r d : ℕ) → length k ≤ r → get_or k r d ≡ d
get_or_past [] r d h = refl
get_or_past (x ∷ k) zero d h = absurd (omega arith)
get_or_past (x ∷ k) (suc r) d h = get_or_past k r d (omega arith)

Pasted-Line :
    (k : List ℕ) (len dst color : ℕ) (v : Video) (out : ℕ × Video)
    → Pasted k 0 len dst color v out
    → Line k dst len color v (fill_row (len - out.0) out.0 dst color b' ' out.1)
Pasted-Line k len dst color v out h a = elim (Bool-cases (ltb (a - dst) (length k))) [
  | inl inside ↦ ground (
    arith,
    h.count,
    h.short,
    h.entry a,
    fill_row_lem (len - out.0) out.0 dst color b' ' out.1 a,
    ap (λ (r : ℕ). get_or k r 0) {x = a - (dst + 0)} {y = a - dst},
    get_or_in k (a - dst) 0 b' ',
  )
  | inr beyond ↦ ground (
    arith,
    h.count,
    h.short,
    h.entry a,
    fill_row_lem (len - out.0) out.0 dst color b' ' out.1 a,
    get_or_past k (a - dst) b' ',
  )
]

-- `vga_paste_line` refuses only a line that would reach past the video memory or is longer than a
-- line may be; otherwise it writes the bytes of the buffer that are not 0, fills the rest of the line
-- with blanks, and touches no other entry.
pub paste_line-Line :
    (v : Video) (x y len : ℕ) (buffer : Buffer) (color : ℕ)
    → x < 2 ^ 16
    → y ≤ 24
    → len < 2 ^ 16
    → ((paste_line v x y len buffer color ≡ none)
        × ((screen_size < y * 80 + x + len) ⊎ ((y ≡ 0) × (max_line_len < x + len))))
      ⊎ ((w : Video) × (paste_line v x y len buffer color ≡ some w)
          × Line (compact (chars buffer 0 len)) (y * 80 + x) len color v w)
unfolding paste_line outside
paste_line-Line v x y len buffer color hx hy hl =
    let at : index x y ≡ y * 80 + x = omega arith in
    let out = paste_loop len 0 0 (index x y) color buffer v in
    let done_loop = paste_loop-Pasted len 0 0 (index x y) color buffer v in
    elim (Bool-cases (outside x y len)) [
      | inl far ↦ inl (rw far, ground arith)
      | inr fits ↦ inr (
        fill_row (len - out.0) out.0 (index x y) color b' ' out.1,
        rw fits,
        rw (← at) (Pasted-Line _ len (index x y) color v out done_loop),
      )
    ]
