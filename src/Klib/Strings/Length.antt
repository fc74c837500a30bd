-- ===== src/Klib/Strings/Length.antt =====
-- `strlen` and `strcmp` on C strings.
use polx.Base.{
  ℕ, zero, suc, ◌+◌, ◌^◌, ◌≤◌, ◌<◌, ◌≡◌, refl, ap, ◌∙◌, ◌≢◌, ◌↔◌, Bool, true, false, ◌&&◌, List, [],
  ◌∷◌, arith, ℕ_discrete, ◌==◌, length, get_or, drop, add_word, done, Ends,
}
use mathlib.Core.Path.{ap₂}
use polx.Klib.Strings.{Bytes, strlen, strlen_loop, strcmp, strcmp_loop}

-- The C string at `p` is `s`.
abbrev pub Holds : Bytes → (p : ℕ) → List ℕ → Type 0
Holds m p [] = m p ≡ 0
Holds m p (c ∷ s) = (m p ≡ c) × (c ≢ 0) × Holds m (p + 1) s

strlen_loop_lem :
    (fuel : ℕ) (m : Bytes) (p len : ℕ) (s : List ℕ)
    → Holds m (p + len) s
    → length s < fuel
    → len + length s < 2 ^ 32
    → strlen_loop fuel m p len ≡ done (len + length s)
unfolding strlen_loop
strlen_loop_lem zero m p len s h f small = absurd (omega arith)
strlen_loop_lem (suc n) m p len [] h f small =
    let e : len ≡ len + 0 = omega arith in rw h (ap done e)
strlen_loop_lem (suc n) m p len (c ∷ s) h f small =
    let q : p + len + 1 ≡ p + (len + 1) = omega arith in
    let next : add_word len 1 ≡ len + 1 = omega arith in
    let nonzero : (m (p + len) == 0) ≡ false = ground (arith, h.0, h.1) in
    let total : len + 1 + length s ≡ len + suc (length s) = omega arith in
    rw
      (nonzero, next, strlen_loop_lem n m p (len + 1) s (rw q at (h.2)) (omega arith) (omega arith))
      (ap done total)

-- `strlen` finds the length of every C string shorter than 4 GiB; one round more than its length is enough.
pub strlen-length :
    (fuel : ℕ) (m : Bytes) (p : ℕ) (s : List ℕ)
    → Holds m p s
    → length s < fuel
    → length s < 2 ^ 32
    → strlen fuel m p ≡ done (length s)
unfolding strlen
strlen-length fuel m p s h f small =
    let q : p ≡ p + 0 = omega arith in
    strlen_loop_lem fuel m p 0 s (rw q at h) f (omega arith) ∙ ap done (omega arith)

-- equality of texts
abbrev pub same_text : List ℕ → List ℕ → Bool
same_text [] [] = true
same_text [] (d ∷ t) = false
same_text (c ∷ s) [] = false
same_text (c ∷ s) (d ∷ t) = (c == d) && same_text s t

same_text_iff : (s t : List ℕ) → (same_text s t ≡ true) ↔ (s ≡ t)
same_text_iff [] [] = (λ e. refl, λ e. refl)
same_text_iff [] (d ∷ t) = (λ e. absurd (ground (arith, e)), λ e. cc)
same_text_iff (c ∷ s) [] = (λ e. absurd (ground (arith, e)), λ e. cc)
same_text_iff (c ∷ s) (d ∷ t) =
    let ih = same_text_iff s t in
    (
      λ e.
          let both : (c ≡ d) × (same_text s t ≡ true) = ground (arith, e) in
          ap₂ ◌∷◌ both.0 (ih.0 both.1),
      λ e.
          let one : c ≡ d = ap (λ l. get_or l 0 c) e in
          let rest : same_text s t ≡ true = ih.1 (ap (drop 1) e) in ground (arith, one, rest),
    )

strcmp_loop_lem :
    (s t : List ℕ) (m : Bytes) (p q i : ℕ)
    → Holds m (p + i) s
    → Holds m (q + i) t
    → length s ≡ length t
    → strcmp_loop (length s) m p q i ≡ same_text s t
unfolding strcmp_loop
strcmp_loop_lem [] [] m p q i h k e = refl
strcmp_loop_lem [] (d ∷ t) m p q i h k e = absurd (omega arith)
strcmp_loop_lem (c ∷ s) [] m p q i h k e = absurd (omega arith)
strcmp_loop_lem (c ∷ s) (d ∷ t) m p q i h k e =
    let a : p + i + 1 ≡ p + (i + 1) = omega arith in
    let b : q + i + 1 ≡ q + (i + 1) = omega arith in
    rw (h.0, k.0, strcmp_loop_lem s t m p q (i + 1) (rw a at (h.2)) (rw b at (k.2)) (omega arith))
      (ground arith)

-- `strcmp` ends on two C strings with 0 exactly when they have the same text; one round more than the longer
-- one has characters is enough.
pub strcmp_iff :
    (fuel : ℕ) (m : Bytes) (p q : ℕ) (s t : List ℕ)
    → Holds m p s
    → Holds m q t
    → length s < fuel
    → length t < fuel
    → fuel ≤ 2 ^ 32
    → Ends (λ b. (b ≡ true) ↔ (s ≡ t)) (strcmp fuel m p q)
unfolding strcmp
strcmp_iff fuel m p q s t h k f g small =
    rw (strlen-length fuel m p s h f (omega arith), strlen-length fuel m q t k g (omega arith))
      (elim (ℕ_discrete (length s) (length t)) [
        | yes same ↦
            (let a : p ≡ p + 0 = omega arith in
              let b : q ≡ q + 0 = omega arith in
              let equal : (length s == length t) ≡ true = ground (arith, same) in
              rw (equal, strcmp_loop_lem s t m p q 0 (rw a at h) (rw b at k) same)
                (same_text_iff s t))
        | no ne ↦
            (let differ : (length s == length t) ≡ false = ground (arith, ne) in
              rw differ (λ e. absurd (ground (arith, e)), λ e. absurd (ne (ap length e))))
      ])
