-- ===== src/Terminal/Keyboard.antt =====
-- The keyboard's interrupt handler, src/dev/keyboard/keyboard.c. The byte that `inb` reads from the port
-- is an argument. The layouts are the source's, with the codes of its enumeration written as numbers.
pub mod Held
pub mod Line
use polx.Base.{
  ℕ, ◌-◌, Bool, true, false, not, ◌||◌, Option, none, some, List, [], ◌∷◌, ltb, ◌==◌, if◌then◌else◌,
  get_or, Outcome, done, ◌>>=◌,
}
use polx.Terminal.Keys
use polx.Terminal.Console.{Console}
use polx.Terminal.Console.Handler.{Input, putchar_from_keyboard}

pub record Keyboard : Type 0 where
  pub shift_hold : Bool
  pub ctrl_hold : Bool
  pub alt_hold : Bool
  pub capslock_on : Bool

unfoldable pub layout : List ℕ
layout =
    0 ∷ 1 ∷ 49 ∷ 50 ∷ 51 ∷ 52 ∷ 53 ∷ 54 ∷ 55 ∷ 56 ∷ 57 ∷ 48 ∷ 45 ∷ 61 ∷ 14 ∷ 19 ∷ 113 ∷ 119 ∷ 101
    ∷ 114 ∷ 116 ∷ 121 ∷ 117 ∷ 105 ∷ 111 ∷ 112 ∷ 91 ∷ 93 ∷ 10 ∷ 16 ∷ 97 ∷ 115 ∷ 100 ∷ 102 ∷ 103 ∷ 104
    ∷ 106 ∷ 107 ∷ 108 ∷ 59 ∷ 39 ∷ 96 ∷ 15 ∷ 92 ∷ 122 ∷ 120 ∷ 99 ∷ 118 ∷ 98 ∷ 110 ∷ 109 ∷ 44 ∷ 46
    ∷ 47 ∷ 15 ∷ 0 ∷ 17 ∷ 32 ∷ 18 ∷ 2 ∷ 3 ∷ 4 ∷ 5 ∷ 6 ∷ 7 ∷ 8 ∷ 9 ∷ 10 ∷ 11 ∷ 0 ∷ 0 ∷ 20 ∷ 25 ∷ 0 ∷ 0
    ∷ 23 ∷ 0 ∷ 24 ∷ 0 ∷ 21 ∷ 26 ∷ 0 ∷ 0 ∷ 22 ∷ 0 ∷ 0 ∷ 0 ∷ 12 ∷ 13 ∷ 0 ∷ 0 ∷ 0 ∷ 0 ∷ 0 ∷ 0 ∷ 0 ∷ 0
    ∷ 0 ∷ 0 ∷ 0 ∷ 0 ∷ 0 ∷ 0 ∷ 0 ∷ 0 ∷ 0 ∷ 0 ∷ 0 ∷ 0 ∷ 0 ∷ 0 ∷ 0 ∷ 0 ∷ 0 ∷ 0 ∷ 0 ∷ 0 ∷ 0 ∷ 0 ∷ 0 ∷ 0
    ∷ 0 ∷ 0 ∷ 0 ∷ 0 ∷ 0 ∷ 0 ∷ 0 ∷ []

unfoldable pub capital_layout : List ℕ
capital_layout =
    0 ∷ 1 ∷ 33 ∷ 64 ∷ 35 ∷ 36 ∷ 37 ∷ 94 ∷ 38 ∷ 42 ∷ 40 ∷ 41 ∷ 95 ∷ 43 ∷ 14 ∷ 19 ∷ 81 ∷ 87 ∷ 69 ∷ 82
    ∷ 84 ∷ 89 ∷ 85 ∷ 73 ∷ 79 ∷ 80 ∷ 123 ∷ 125 ∷ 10 ∷ 16 ∷ 65 ∷ 83 ∷ 68 ∷ 70 ∷ 71 ∷ 72 ∷ 74 ∷ 75 ∷ 76
    ∷ 58 ∷ 34 ∷ 126 ∷ 15 ∷ 124 ∷ 90 ∷ 88 ∷ 67 ∷ 86 ∷ 66 ∷ 78 ∷ 77 ∷ 60 ∷ 62 ∷ 63 ∷ 15 ∷ 0 ∷ 17 ∷ 32
    ∷ 18 ∷ 2 ∷ 3 ∷ 4 ∷ 5 ∷ 6 ∷ 7 ∷ 8 ∷ 9 ∷ 10 ∷ 11 ∷ 0 ∷ 0 ∷ 20 ∷ 25 ∷ 0 ∷ 0 ∷ 23 ∷ 0 ∷ 24 ∷ 0 ∷ 21
    ∷ 26 ∷ 0 ∷ 0 ∷ 22 ∷ 0 ∷ 0 ∷ 0 ∷ 12 ∷ 13 ∷ 0 ∷ 0 ∷ 0 ∷ 0 ∷ 0 ∷ 0 ∷ 0 ∷ 0 ∷ 0 ∷ 0 ∷ 0 ∷ 0 ∷ 0 ∷ 0
    ∷ 0 ∷ 0 ∷ 0 ∷ 0 ∷ 0 ∷ 0 ∷ 0 ∷ 0 ∷ 0 ∷ 0 ∷ 0 ∷ 0 ∷ 0 ∷ 0 ∷ 0 ∷ 0 ∷ 0 ∷ 0 ∷ 0 ∷ 0 ∷ 0 ∷ 0 ∷ 0 ∷ 0
    ∷ 0 ∷ []

-- the cases of `keyboard_isr` for a pressed modifier
unfoldable pub press : Keyboard → (key : ℕ) → Option Keyboard
press k key =
    if key == Keys.shift
    then some (record k { shift_hold = true })
    else if key == Keys.ctrl
    then some (record k { ctrl_hold = true })
    else if key == Keys.alt
    then some (record k { alt_hold = true })
    else if key == Keys.capslock
    then some (record k { capslock_on = not k.capslock_on })
    else none

-- the cases for a released one
unfoldable pub release_key : Keyboard → (key : ℕ) → Keyboard
release_key k key =
    if key == Keys.shift
    then record k { shift_hold = false }
    else if key == Keys.ctrl
    then record k { ctrl_hold = false }
    else if key == Keys.alt
    then record k { alt_hold = false }
    else k

-- the character that the key stands for
unfoldable pub character : Keyboard → (ch : ℕ) → ℕ
character k ch =
    if k.shift_hold || k.capslock_on then get_or capital_layout ch 0 else get_or layout ch 0

unfoldable pub keyboard_isr :
    Keyboard → Console → (ch : ℕ) → Outcome (Keyboard × Console × Option Input)
unfolding press release_key character
keyboard_isr k t ch =
    if ltb ch 128
    then elim (press k (get_or layout ch 0)) [
      | some j ↦ done (j, t, none)
      | none ↦ putchar_from_keyboard t (character k ch) >>= λ r. done (k, r.0, r.1)
    ]
    else done (release_key k (get_or layout (ch - 128) 0), t, none)
