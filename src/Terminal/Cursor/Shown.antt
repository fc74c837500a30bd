-- ===== src/Terminal/Cursor/Shown.antt =====
-- The hardware cursor follows: the last writes to the video ports are those for the cursor's place.
use polx.Base.{ℕ, ◌≡◌, refl, inl, inr, Bool, List, ◌==◌, Bool-cases}
use polx.Terminal.Vga.{set_cursor}
use polx.Terminal.Cursor.{
  Cursor, show, set_default, newline, newline_kbd, next_char, next_char_kbd, move_left, left_of,
  move_right, right_of, remove_char,
}

-- the operations of cursor.c
pub data Op : Type 0 where
  reset line line_kbd char char_kbd erase : Op
  left right : (max : Bool) → Op

pub apply : Op → Cursor → Cursor
apply reset c = set_default c
apply line c = (newline c).1
apply line_kbd c = (newline_kbd c).1
apply char c = (next_char c).1
apply char_kbd c = (next_char_kbd c).1
apply erase c = remove_char c
apply (left max) c = move_left c max
apply (right max) c = move_right c max

pub IsShown : Cursor → Type 0
IsShown c = (rest : List (ℕ × ℕ)) × (c.ports ≡ set_cursor c.x c.y rest)

shown : (c : Cursor) → IsShown (show c)
unfolding IsShown show
shown c = (c.ports, refl)

newline-IsShown : (c : Cursor) → IsShown (newline c).1
unfolding newline IsShown
newline-IsShown c = elim (Bool-cases (c.y == 24)) [
  | inl e ↦ rw e (c.ports, refl)
  | inr e ↦ rw e (c.ports, refl)
]

next_char-IsShown : (c : Cursor) → IsShown (next_char c).1
unfolding next_char IsShown
next_char-IsShown c = elim (Bool-cases (c.x == 79)) [
  | inl e ↦ rw e ((newline c).1.ports, refl)
  | inr e ↦ rw e (c.ports, refl)
]

-- Every operation of cursor.c on a cursor that the video hardware shows leaves one that it shows.
pub apply-IsShown : (op : Op) (c : Cursor) → IsShown c → IsShown (apply op c)
unfolding apply set_default newline_kbd next_char_kbd move_left move_right remove_char IsShown
apply-IsShown reset c h = (c.ports, refl)
apply-IsShown line c h = newline-IsShown c
apply-IsShown line_kbd c h = (c.ports, refl)
apply-IsShown char c h = next_char-IsShown c
apply-IsShown char_kbd c h = next_char-IsShown _
apply-IsShown erase c h = h
apply-IsShown (left max) c h = elim (Bool-cases (c.position_ctr == 0)) [
  | inl e ↦ rw e h
  | inr e ↦ rw e (shown (left_of c max))
]
apply-IsShown (right max) c h = elim (Bool-cases (c.position_ctr == c.chars_ctr)) [
  | inl e ↦ rw e h
  | inr e ↦ rw e (shown (right_of c max))
]
