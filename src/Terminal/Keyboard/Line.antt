-- ===== src/Terminal/Keyboard/Line.antt =====
-- An input line, from the scan codes to the reader of standard input.
use polx.Base.{
  ℕ, ◌+◌, ◌-◌, ◌≤◌, ◌<◌, ◌≡◌, refl, inl, inr, ◌||◌, Option, none, List, [], ◌∷◌, map, arith,
  Bool-cases, length, get_or, length-map, Outcome, done, panic, fault, out_of_fuel, ◌>>=◌, Ends,
  Ends-bind,
}
use polx.Terminal.Cursor.Moves.{place}
use polx.Terminal.Console.{Console}
use polx.Terminal.Console.Handler.{Input, putchar_from_keyboard}
use polx.Terminal.Console.Input.{AllPrint, type_line, Given, Fresh, type_line-Given}
use polx.Terminal.Keyboard.{Keyboard, layout, capital_layout, character, keyboard_isr}
use polx.Terminal.Keyboard.Held.{character-Prints}

-- The scan codes of keys that print.
abbrev pub AllKeys : List ℕ → Type 0
AllKeys [] = Unit
AllKeys (c ∷ s) = ((c < 128) × (32 ≤ get_or layout c 0)) × AllKeys s

-- Each key is pressed and released, then Enter is pressed: 28 is its scan code.
unfoldable pub isr_line : Keyboard → Console → List ℕ → Outcome (Keyboard × Console × Option Input)
isr_line k t [] = keyboard_isr k t 28
isr_line k t (c ∷ s) =
    keyboard_isr k t c >>= λ r. keyboard_isr r.0 r.1 (c + 128) >>= λ q. isr_line q.0 q.1 s

keyboard_isr-pressed :
    (k : Keyboard) (t : Console) (c : ℕ)
    → c < 128
    → 32 ≤ get_or layout c 0
    → keyboard_isr k t c ≡ (
        putchar_from_keyboard t (character k c) >>= λ (r : Console × Option Input).
        done (k, r.0, r.1))
unfolding keyboard_isr
keyboard_isr-pressed k t c h lo = ground arith

keyboard_isr-released :
    (k : Keyboard) (t : Console) (c : ℕ)
    → 32 ≤ get_or layout c 0
    → keyboard_isr k t (c + 128) ≡ done (k, t, none)
unfolding keyboard_isr
keyboard_isr-released k t c lo = let e : c + 128 - 128 ≡ c = omega arith in ground (arith, e)

keyboard_isr-enter :
    (k : Keyboard) (t : Console)
    → keyboard_isr k t 28
      ≡ (putchar_from_keyboard t 10 >>= λ (r : Console × Option Input). done (k, r.0, r.1))
unfolding keyboard_isr layout capital_layout
keyboard_isr-enter k t = elim (Bool-cases (k.shift_hold || k.capslock_on)) [
  | inl e ↦ rw e refl
  | inr e ↦ rw e refl
]

map-AllPrint : (k : Keyboard) (s : List ℕ) → AllKeys s → AllPrint (map (character k) s)
map-AllPrint k [] p = tt
map-AllPrint k (c ∷ s) p = (character-Prints k c p.0.0 p.0.1, map-AllPrint k s p.1)

-- the key's character, then what follows once the key is released
then_released :
    (k : Keyboard) (c : ℕ) (s : List ℕ) (m : Outcome (Console × Option Input))
    → 32 ≤ get_or layout c 0
    → ((t : Console)
        → isr_line k t s ≡ (
            type_line t (map (character k) s) >>= λ (r : Console × Option Input).
            done (k, r.0, r.1)))
    → ((m >>= λ (r : Console × Option Input). done (k, r.0, r.1))
        >>= λ (r : Keyboard × Console × Option Input).
            keyboard_isr r.0 r.1 (c + 128) >>= λ (q : Keyboard × Console × Option Input).
            isr_line q.0 q.1 s)
      ≡ ((m >>= λ (r : Console × Option Input). type_line r.0 (map (character k) s))
          >>= λ (r : Console × Option Input). done (k, r.0, r.1))
then_released k c s (done r) lo h = rw (keyboard_isr-released k r.0 c lo) (h r.0)
then_released k c s panic lo h = refl
then_released k c s fault lo h = refl
then_released k c s out_of_fuel lo h = refl

isr_line-type_line :
    (k : Keyboard) (s : List ℕ) (t : Console)
    → AllKeys s
    → isr_line k t s
      ≡ (type_line t (map (character k) s) >>= λ (r : Console × Option Input). done (k, r.0, r.1))
unfolding isr_line type_line
isr_line-type_line k [] t p = keyboard_isr-enter k t
isr_line-type_line k (c ∷ s) t p = rw (keyboard_isr-pressed k t c p.0.0 p.0.1) (
    then_released k c s (putchar_from_keyboard t (character k c)) p.0.1
      λ u. isr_line-type_line k s u p.1)

-- From scan codes to the program that reads: at a fresh prompt, pressing and releasing keys that print, and
-- then pressing Enter, hands over exactly the characters of the keys (capital ones if shift is held or
-- caps lock is on). The line must end before the screen does and, in row 0, before entry 1920.
pub isr_line-Given :
    (k : Keyboard) (s : List ℕ) (t : Console)
    → Fresh t
    → AllKeys s
    → place t.cursor + length s < 2000
    → (t.cursor.y ≡ 0 → t.cursor.x + length s < 1920)
    → Ends (λ out. Given (map (character k) s) (out.1, out.2)) (isr_line k t s)
isr_line-Given k s t f p room room_first = rw (isr_line-type_line k s t p) (
    Ends-bind (Given (map (character k) s)) _ (type_line t (map (character k) s)) _
      (type_line-Given (map (character k) s) t f (map-AllPrint k s p)
        (omega (arith, length-map s (character k)))
        (λ z. omega (arith, room_first z, length-map s (character k))))
      (λ r h. h))
