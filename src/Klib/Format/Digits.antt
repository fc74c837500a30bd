-- ===== src/Klib/Format/Digits.antt =====
-- The digits of a number.
use polx.Base.{
  ℕ, zero, suc, ◌+◌, ◌-◌, ◌*◌, ◌/◌, ◌%◌, ◌^◌, ◌≤◌, ◌<◌, ◌≡◌, refl, ◌≢◌, ◌⊎◌, inl, inr, false, List,
  [], ◌∷◌, ◌++◌, arith, ℕ_discrete, ltb, ◌==◌, if◌then◌else◌, length, length-append,
}
use polx.Klib.Format.{digit}

-- the digits of `n`, the highest first
unfoldable pub digits : (fuel n base : ℕ) → List ℕ
digits zero n base = []
digits (suc f) n base = if n == 0 then [] else digits f (n / base) base ++ digit (n % base) ∷ []

-- what a digit stands for
abbrev pub digit_value : ℕ → ℕ
digit_value c = if ltb c 65 then c - 48 else c - 55

-- the number that a text of digits stands for
unfoldable pub number : (base acc : ℕ) → List ℕ → ℕ
number base acc [] = acc
number base acc (c ∷ s) = number base (acc * base + digit_value c) s

number-append :
    (base acc : ℕ) (s t : List ℕ) → number base acc (s ++ t) ≡ number base (number base acc s) t
unfolding number
number-append base acc [] t = refl
number-append base acc (c ∷ s) t = number-append base (acc * base + digit_value c) s t

digit_value-digit : (d : ℕ) → d < 16 → digit_value (digit d) ≡ d
digit_value-digit d h = ground arith

abbrev pub IsBase : ℕ → Type 0
IsBase base = (base ≡ 10) ⊎ (base ≡ 16)

pub divide :
    (base n f : ℕ)
    → IsBase base
    → n ≢ 0
    → n ≤ suc f
    → (n / base ≤ f) × ((n / base) * base + n % base ≡ n) × (n % base < 16)
divide base n f (inl e) ne h = rw e (omega arith, omega arith, omega arith)
divide base n f (inr e) ne h = rw e (omega arith, omega arith, omega arith)

-- The digits of a number, read back, are the number.
pub number-digits :
    (fuel n base : ℕ) → n ≤ fuel → IsBase base → number base 0 (digits fuel n base) ≡ n
unfolding digits number
number-digits zero n base h b = omega arith
number-digits (suc f) n base h b = elim (ℕ_discrete n 0) [
  | yes z ↦ rw z refl
  | no ne ↦
      (let (less, whole, small) = divide base n f b ne h in
        let busy : (n == 0) ≡ false = ground (arith, ne) in
        rw
          (
            busy,
            number-append base 0 (digits f (n / base) base) (digit (n % base) ∷ []),
            number-digits f (n / base) base less b,
            digit_value-digit (n % base) small,
          )
          whole)
]

-- A digit is a character of the text, not its end.
abbrev pub AllChars : List ℕ → Type 0
AllChars [] = Unit
AllChars (c ∷ s) = (0 < c) × (c < 256) × AllChars s

AllChars-append : (s t : List ℕ) → AllChars s → AllChars t → AllChars (s ++ t)
AllChars-append [] t h k = k
AllChars-append (c ∷ s) t h k = (h.0, h.1, AllChars-append s t h.2 k)

pub digits-AllChars : (f n base : ℕ) → IsBase base → n ≤ f → AllChars (digits f n base)
unfolding digits
digits-AllChars zero n base b h = tt
digits-AllChars (suc f) n base b h = elim (ℕ_discrete n 0) [
  | yes z ↦ rw z tt
  | no ne ↦
      (let (less, whole, small) = divide base n f b ne h in
        let busy : (n == 0) ≡ false = ground (arith, ne) in
        rw busy (
          AllChars-append (digits f (n / base) base) (digit (n % base) ∷ [])
            (digits-AllChars f (n / base) base b less)
            (ground (arith, small), ground (arith, small), tt)))
]

divide_below : (base n x : ℕ) → IsBase base → n < 10 * x → n / base < x
divide_below base n x (inl e) h = rw e (omega arith)
divide_below base n x (inr e) h = rw e (omega arith)

-- A number below 10 ^ k has at most k digits, in base 16 as well.
pub length-digits : (f n base k : ℕ) → IsBase base → n < 10 ^ k → length (digits f n base) ≤ k
unfolding digits
length-digits zero n base k b h = omega arith
length-digits (suc f) n base zero b h = let z : n ≡ 0 = omega arith in rw z (omega arith)
length-digits (suc f) n base (suc k) b h = elim (ℕ_discrete n 0) [
  | yes z ↦ rw z (omega arith)
  | no ne ↦
      (let busy : (n == 0) ≡ false = ground (arith, ne) in
        rw busy (
          omega (
            arith,
            length-append (digits f (n / base) base) (digit (n % base) ∷ []),
            length-digits f (n / base) base k b (divide_below base n (10 ^ k) b (omega arith)),
          )))
]

pub digits-nonempty : (f n base : ℕ) → n ≢ 0 → n ≤ f → 0 < length (digits f n base)
unfolding digits
digits-nonempty zero n base ne h = absurd (omega (arith, ne))
digits-nonempty (suc f) n base ne h =
    let busy : (n == 0) ≡ false = ground (arith, ne) in
    rw busy (omega (arith, length-append (digits f (n / base) base) (digit (n % base) ∷ [])))
