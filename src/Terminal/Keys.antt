-- ===== src/Terminal/Keys.antt =====
-- The codes of the special keys, src/include/dev/keyboard.h (`ESC = 1, F1, F2, ...`).
use polx.Base.{ℕ}

abbrev pub f9 : ℕ
f9 = 10

abbrev pub backspace : ℕ
backspace = 14

abbrev pub shift : ℕ
shift = 15

abbrev pub ctrl : ℕ
ctrl = 16

abbrev pub alt : ℕ
alt = 17

abbrev pub capslock : ℕ
capslock = 18

abbrev pub home : ℕ
home = 20

abbrev pub end : ℕ
end = 21

abbrev pub del : ℕ
del = 22

abbrev pub arr_left : ℕ
arr_left = 23

abbrev pub arr_right : ℕ
arr_right = 24
