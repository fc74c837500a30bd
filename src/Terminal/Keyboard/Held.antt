-- ===== src/Terminal/Keyboard/Held.antt =====
-- What the modifier keys do.
use polx.Base.{
  ℕ, ◌+◌, ◌-◌, ◌≤◌, ◌<◌, ◌≡◌, refl, Bool, true, false, not, ◌&&◌, ◌||◌, Option, arith, ltb, leb,
  ◌==◌, if◌then◌else◌, get_or, done, ◌>>=◌, all_below, all_below_sound,
}
use polx.Terminal.Keys
use polx.Terminal.Console.{Console}
use polx.Terminal.Console.Handler.{Input, putchar_from_keyboard}
use polx.Terminal.Keyboard.{Keyboard, layout, capital_layout, character, keyboard_isr}

-- Both layouts have the keys that print nothing at the same places, and a letter of the one is the
-- capital of the letter of the other.
abbrev same_key : ℕ → Bool
same_key ch =
    let a = get_or layout ch 0 in
    let b = get_or capital_layout ch 0 in
    if leb b'a' a && leb a b'z'
    then b + 32 == a
    else if ltb a 32
    then a == b
    else leb 32 b && leb b 126 && leb a 126

layouts_agree : all_below 128 same_key ≡ true
unfolding all_below layout capital_layout
layouts_agree = refl

-- A key that prints does so with and without shift.
pub character-Prints :
    (k : Keyboard) (ch : ℕ)
    → ch < 128
    → 32 ≤ get_or layout ch 0
    → (32 ≤ character k ch) × (character k ch ≤ 126)
unfolding character
character-Prints k ch h lo =
    let s = all_below_sound 128 same_key ch layouts_agree h in ground (arith, s)

pub capital-letter :
    (ch : ℕ)
    → ch < 128
    → b'a' ≤ get_or layout ch 0
    → get_or layout ch 0 ≤ b'z'
    → get_or capital_layout ch 0 + 32 ≡ get_or layout ch 0
capital-letter ch h lo hi =
    let s = all_below_sound 128 same_key ch layouts_agree h in ground (arith, s)

-- With shift held or caps lock on a letter key types the capital letter, without them the small one; the
-- modifiers stay as they are.
pub keyboard_isr-letter :
    (k : Keyboard) (t : Console) (ch : ℕ)
    → ch < 128
    → b'a' ≤ get_or layout ch 0
    → get_or layout ch 0 ≤ b'z'
    → keyboard_isr k t ch ≡ (
        putchar_from_keyboard t
          (if k.shift_hold || k.capslock_on then get_or layout ch 0 - 32 else get_or layout ch 0)
        >>= λ (r : Console × Option Input). done (k, r.0, r.1))
unfolding keyboard_isr
keyboard_isr-letter k t ch h lo hi = let c = capital-letter ch h lo hi in ground (arith, c)

-- The scan codes of a shift key, pressed and released.
abbrev pub shift_down : ℕ → Bool
shift_down ch = ltb ch 128 && get_or layout ch 0 == Keys.shift

abbrev pub shift_up : ℕ → Bool
shift_up ch = not (ltb ch 128) && get_or layout (ch - 128) 0 == Keys.shift

-- whether shift is held after a scan code
abbrev pub shift_after : Bool → ℕ → Bool
shift_after b ch = if shift_down ch then true else if shift_up ch then false else b

-- whether caps lock is on after a scan code
abbrev pub caps_after : Bool → ℕ → Bool
caps_after b ch = if ltb ch 128 && get_or layout ch 0 == Keys.capslock then not b else b

-- Where the handler ends, shift and caps lock are as the scan code leaves them: a shift key pressed holds
-- shift, a shift key released lets it go, caps lock pressed turns it over, and no other code changes them.
pub keyboard_isr-modifiers :
    (k : Keyboard) (t : Console) (ch : ℕ) (out : Keyboard × Console × Option Input)
    → keyboard_isr k t ch ≡ done out
    → (out.0.shift_hold ≡ shift_after k.shift_hold ch)
      × (out.0.capslock_on ≡ caps_after k.capslock_on ch)
unfolding keyboard_isr
keyboard_isr-modifiers k t ch out e = ground arith
