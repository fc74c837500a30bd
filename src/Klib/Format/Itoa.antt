-- ===== src/Klib/Format/Itoa.antt =====
-- What `_itoa` leaves in the buffer.
use polx.Base.{
  ℕ, zero, suc, ◌+◌, ◌-◌, ◌/◌, ◌%◌, ◌^◌, ◌≤◌, ◌<◌, ◌≡◌, refl, ap, ◌∙◌, ◌≢◌, ◌⊎◌, inl, inr, true,
  false, ◌&&◌, List, [], ◌∷◌, ◌++◌, arith, ℕ_discrete, ltb, leb, ◌==◌, if◌then◌else◌, Bool-cases,
  length, get_or, update, Ends, Ends-bind,
}
use mathlib.Core.List.{append-nil, append_assoc}
use polx.Klib.Strings.{Bytes}
use polx.Klib.Strings.Length.{Holds}
use polx.Klib.Format.{add_to_start, shift_loop, itoa, itoa_loop, digit, is_negative, negate}
use polx.Klib.Format.Digits.{
  digits, number, number-digits, IsBase, divide, AllChars, digits-AllChars, length-digits,
}

shift_loop_lem :
    (i : ℕ) (m : Bytes) (dest a : ℕ)
    → shift_loop i m dest a ≡ (if ltb dest a && leb a (dest + i) then m (a - 1) else m a)
unfolding shift_loop
shift_loop_lem zero m dest a = ground arith
shift_loop_lem (suc i) m dest a = ground (
  arith,
  shift_loop_lem i (update m (dest + suc i) (m (dest + i))) dest a,
  ap m {x = a - 1} {y = dest + i},
)

-- `_add_to_start` moves the text up by one byte, puts the character before it and 0 behind it.
pub add_to_start_lem :
    (m : Bytes) (dest c last a : ℕ)
    → add_to_start m dest c last a ≡ (
        if a == dest + last + 1
        then 0
        else if a == dest
        then c
        else if ltb dest a && leb a (dest + last)
        then m (a - 1)
        else m a)
unfolding add_to_start
add_to_start_lem m dest c last a = ground (arith, shift_loop_lem last m dest a)

-- The buffer holds the text `s` at `dest`, and beyond the closing 0 it is as in `m`.
pub record Filled (s : List ℕ) (dest : ℕ) (m w : Bytes) : Type 0 where
  pub text : (r : ℕ) → r < length s → w (dest + r) ≡ get_or s r 0
  pub closed : 0 < length s → w (dest + length s) ≡ 0
  pub kept : (a : ℕ) → (a < dest) ⊎ (dest + length s < a) → w a ≡ m a

add_to_start-text :
    (s : List ℕ) (dest c : ℕ) (m w : Bytes) (r : ℕ)
    → Filled s dest m w
    → r < length (c ∷ s)
    → add_to_start w dest c (length s) (dest + r) ≡ get_or (c ∷ s) r 0
add_to_start-text s dest c m w zero h lt =
    ground (arith, add_to_start_lem w dest c (length s) (dest + 0))
add_to_start-text s dest c m w (suc r) h lt = ground (
  arith,
  add_to_start_lem w dest c (length s) (dest + suc r),
  ap w {x = dest + suc r - 1} {y = dest + r},
  h.text r,
)

add_to_start-Filled :
    (s : List ℕ) (dest c : ℕ) (m w : Bytes)
    → Filled s dest m w
    → Filled (c ∷ s) dest m (add_to_start w dest c (length s))
add_to_start-Filled s dest c m w h = record {
  text = λ r lt. add_to_start-text s dest c m w r h lt;
  closed =
      λ some_text. ground (arith, add_to_start_lem w dest c (length s) (dest + suc (length s)));
  kept = λ a far. ground (arith, add_to_start_lem w dest c (length s) a, h.kept a);
}

-- The loop's result: the buffer, and how many characters are in it.
abbrev Written : List ℕ → ℕ → Bytes → Bytes × ℕ → Type 0
Written s dest m r = Filled s dest m r.0 × (r.1 ≡ length s)

-- The loop puts the digits of `n` before the text.
itoa_loop-Filled :
    (f n dest base : ℕ) (s : List ℕ) (m w : Bytes)
    → IsBase base
    → n ≤ f
    → Filled s dest m w
    → Ends (Written (digits f n base ++ s) dest m) (itoa_loop f n w dest base (length s))
unfolding itoa_loop digits
itoa_loop-Filled zero n dest base s m w b h fill =
    let z : (n == 0) ≡ true = ground (arith, h) in rw z (fill, refl)
itoa_loop-Filled (suc f) n dest base s m w b h fill = elim (ℕ_discrete n 0) [
  | yes z ↦ rw z (fill, refl)
  | no ne ↦
      (let (less, whole, small) = divide base n f b ne h in
        let busy : (n == 0) ≡ false = ground (arith, ne) in
        let next : length s + 1 ≡ suc (length s) = omega arith in
        rw (busy, next, append_assoc (digits f (n / base) base) (digit (n % base) ∷ []) s)
          (itoa_loop-Filled f (n / base) dest base (digit (n % base) ∷ s) m _ b less
            (add_to_start-Filled s dest (digit (n % base)) m w fill)))
]

nothing-Filled : (dest : ℕ) (m : Bytes) → Filled [] dest m m
nothing-Filled dest m = record {
  text = λ r lt. absurd (omega arith);
  closed = λ lt. absurd (omega arith);
  kept = λ a far. refl;
}

-- The text of an `int` in a base: a `-` before the digits of the magnitude, and 0 as one digit.
abbrev pub int_text : (n base : ℕ) → List ℕ
int_text n base =
    if n == 0
    then b'0' ∷ []
    else if is_negative n
    then b'-' ∷ digits (negate n) (negate n) base
    else digits n n base

itoa-zero : (dest base : ℕ) (m : Bytes) → Ends (Filled (b'0' ∷ []) dest m) (itoa 0 m dest base)
unfolding itoa
itoa-zero dest base m = add_to_start-Filled [] dest b'0' m m (nothing-Filled dest m)

itoa-positive :
    (n dest base : ℕ) (m : Bytes)
    → IsBase base
    → n ≢ 0
    → n < 2 ^ 31
    → Ends (Filled (digits n n base) dest m) (itoa n m dest base)
unfolding itoa
itoa-positive n dest base m b ne small =
    let z : (n == 0) ≡ false = ground (arith, ne) in
    let plus : is_negative n ≡ false = ground (arith, small) in
    rw (z, plus)
      (rw plus (
        Ends-bind (Written (digits n n base ++ []) dest m) (Filled (digits n n base) dest m) _ _
          (itoa_loop-Filled n n dest base [] m m b (omega arith) (nothing-Filled dest m))
          (λ r fill. rw (append-nil (digits n n base)) at (fill.0))))

itoa-negative :
    (n dest base : ℕ) (m : Bytes)
    → IsBase base
    → 2 ^ 31 < n
    → n < 2 ^ 32
    → Ends (Filled (b'-' ∷ digits (negate n) (negate n) base) dest m) (itoa n m dest base)
unfolding itoa
itoa-negative n dest base m b big small =
    let z : (n == 0) ≡ false = ground (arith, big) in
    let minus : is_negative n ≡ true = ground (arith, big) in
    let plus : is_negative (negate n) ≡ false = ground (arith, big, small) in
    rw (z, minus, plus)
      (Ends-bind (Written (digits (negate n) (negate n) base ++ []) dest m)
        (Filled (b'-' ∷ digits (negate n) (negate n) base) dest m) _ _
        (itoa_loop-Filled (negate n) (negate n) dest base [] m m b (omega arith)
          (nothing-Filled dest m))
        (λ r fill.
          let more = add_to_start-Filled _ dest b'-' m r.0 (fill.0) in
          rw (← (fill.1), append-nil (digits (negate n) (negate n) base)) at more))

-- `_itoa` ends, for every `int` but the least one, with the text of the number at `dest`, closed by 0, and
-- changes no byte behind the closing 0 or before `dest`.
pub itoa-Filled :
    (n dest base : ℕ) (m : Bytes)
    → IsBase base
    → n < 2 ^ 32
    → n ≢ 2 ^ 31
    → Ends (λ w. Filled (int_text n base) dest m w) (itoa n m dest base)
itoa-Filled n dest base m b word_sized not_least = elim (ℕ_discrete n 0) [
  | yes z ↦ rw z (itoa-zero dest base m)
  | no ne ↦
      (let nonzero : (n == 0) ≡ false = ground (arith, ne) in
        elim (Bool-cases (is_negative n)) [
          | inl minus ↦
              rw (nonzero, minus)
                (itoa-negative n dest base m b (ground (arith, minus, not_least)) word_sized)
          | inr plus ↦ rw (nonzero, plus) (itoa-positive n dest base m b ne (ground (arith, plus)))
        ])
]

-- The least `int` is printed as a `-` alone.
pub itoa-least :
    (dest base : ℕ) (m : Bytes) → Ends (Filled (b'-' ∷ []) dest m) (itoa (2 ^ 31) m dest base)
unfolding itoa
itoa-least dest base m = add_to_start-Filled [] dest b'-' m m (nothing-Filled dest m)

-- Read back, the text of a number that is not negative is the number; behind a `-` stands the magnitude.
pub number-int_text :
    (n base : ℕ)
    → IsBase base
    → n < 2 ^ 32
    → (n < 2 ^ 31 → number base 0 (int_text n base) ≡ n)
      × (2 ^ 31 ≤ n
          → (magnitude : List ℕ) × (int_text n base ≡ b'-' ∷ magnitude)
            × (number base 0 magnitude + n ≡ 2 ^ 32))
unfolding number
number-int_text n base b small = (
  λ plus. elim (ℕ_discrete n 0) [
    | yes z ↦ rw z (omega arith)
    | no ne ↦
        (let nonzero : (n == 0) ≡ false = ground (arith, ne) in
          let sign : is_negative n ≡ false = ground (arith, plus) in
          rw (nonzero, sign) (number-digits n n base (omega arith) b))
  ],
  λ minus.
      let nonzero : (n == 0) ≡ false = ground (arith, minus) in
      let sign : is_negative n ≡ true = ground (arith, minus) in
      rw (nonzero, sign)
        (
          digits (negate n) (negate n) base,
          refl,
          omega (arith, number-digits (negate n) (negate n) base (omega arith) b),
        ),
)

-- The texts are characters, and at most 11.
pub int_text-AllChars : (n base : ℕ) → IsBase base → n < 2 ^ 32 → AllChars (int_text n base)
int_text-AllChars n base b small = elim (ℕ_discrete n 0) [
  | yes z ↦ rw z (omega arith, omega arith, tt)
  | no ne ↦
      (let nonzero : (n == 0) ≡ false = ground (arith, ne) in
        elim (Bool-cases (is_negative n)) [
          | inl minus ↦
              rw (nonzero, minus)
                (
                  omega arith,
                  omega arith,
                  digits-AllChars (negate n) (negate n) base b (omega arith),
                )
          | inr plus ↦ rw (nonzero, plus) (digits-AllChars n n base b (omega arith))
        ])
]

pub length-int_text : (n base : ℕ) → IsBase base → n < 2 ^ 32 → length (int_text n base) ≤ 11
length-int_text n base b small = elim (ℕ_discrete n 0) [
  | yes z ↦ rw z (omega arith)
  | no ne ↦
      (let nonzero : (n == 0) ≡ false = ground (arith, ne) in
        elim (Bool-cases (is_negative n)) [
          | inl minus ↦
              rw (nonzero, minus)
                (omega (
                  arith,
                  length-digits (negate n) (negate n) base 10 b (ground (arith, minus, small)),
                ))
          | inr plus ↦
              rw (nonzero, plus) (omega (arith, length-digits n n base 10 b (ground (arith, plus))))
        ])
]

Holds-of_get_or :
    (s : List ℕ) (p : ℕ) (w : Bytes)
    → AllChars s
    → ((r : ℕ) → r < length s → w (p + r) ≡ get_or s r 0)
    → w (p + length s) ≡ 0
    → Holds w p s
Holds-of_get_or [] p w chars text closed = ap w (omega arith) ∙ closed
Holds-of_get_or (c ∷ s) p w chars text closed =
    let first : w p ≡ c = ap w (omega arith) ∙ text 0 (omega arith) in
    (
      first,
      omega (arith, chars.0),
      Holds-of_get_or s (p + 1) w chars.2 (λ r lt. ap w (omega arith) ∙ text (suc r) (omega arith))
          (ap w (omega arith) ∙ closed),
    )

pub Filled-Holds :
    (s : List ℕ) (dest : ℕ) (m w : Bytes)
    → AllChars s
    → 0 < length s
    → Filled s dest m w
    → Holds w dest s
Filled-Holds s dest m w chars nonempty fill =
    Holds-of_get_or s dest w chars fill.text (fill.closed nonempty)
