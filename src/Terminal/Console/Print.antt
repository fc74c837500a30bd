-- ===== src/Terminal/Console/Print.antt =====
-- Output: `terminal_putchar` and `terminal_writestring`.
use polx.Base.{ℕ, ◌≤◌, ◌≡◌, refl, ◌∙◌, inl, inr, true, ◌||◌, arith, ltb, ◌==◌, Bool-cases}
use polx.Terminal.Vga.{put_entry}
use polx.Terminal.Cursor
use polx.Terminal.Cursor.{Cursor, CursorRet, success, max_height}
use polx.Terminal.Cursor.Lines.{OnScreen, newline-OnScreen, next_char-OnScreen}
use polx.Terminal.Console.{
  Console, scroll, put, putchar, moved, end_line, clear, execute_command, command_buff_clear,
}
use polx.Terminal.Console.Scroll.{scroll_lem, clear_lem}

-- The cursor is on the screen and the command buffer is not overrun.
pub record IsValid (t : Console) : Type 0 where
  pub screen : OnScreen t.cursor
  pub command : t.command_idx ≤ 3

-- `u` differs from `t` only inside the video memory and inside the command buffer.
pub record Inside (t u : Console) : Type 0 where
  pub video : (a : ℕ) → 2000 ≤ a → u.video a ≡ t.video a
  pub command : (i : ℕ) → 3 ≤ i → u.command_buff i ≡ t.command_buff i

Inside-trans : (t u w : Console) → Inside t u → Inside u w → Inside t w
Inside-trans t u w p q = record {
  video = λ a h. q.video a h ∙ p.video a h;
  command = λ i h. q.command i h ∙ p.command i h;
}

moved-Inside :
    (t : Console) (m : CursorRet × Cursor)
    → OnScreen m.1
    → t.command_idx ≤ 3
    → IsValid (moved t m) × Inside t (moved t m)
unfolding moved
moved-Inside t (success, c) on idx =
    (record { screen = on; command = idx }, record { video = λ a h. refl; command = λ i h. refl })
moved-Inside t (max_height, c) on idx = (
  unfold scroll in record { screen = on; command = idx },
  record {
    video = λ a h. ground (arith, scroll_lem (record t { cursor = c }) a);
    command = λ i h. unfold scroll in refl;
  },
)

end_line-Inside :
    (t u : Console) → IsValid u × Inside t u → IsValid (end_line u) × Inside t (end_line u)
unfolding end_line
end_line-Inside t u (v, s) = (
  record { screen = record { col = v.screen.col; row = v.screen.row }; command = v.command },
  record { video = s.video; command = s.command },
)

command_buff_clear-Inside :
    (t u : Console)
    → OnScreen u.cursor
    → Inside t u
    → IsValid (command_buff_clear u) × Inside t (command_buff_clear u)
unfolding command_buff_clear
command_buff_clear-Inside t u on s = (
  record { screen = on; command = omega arith },
  record { video = s.video; command = λ i h. ground (arith, s.command i h) },
)

clear-Inside : (t : Console) → OnScreen (clear t).cursor × Inside t (clear t)
clear-Inside t = (
  unfold clear Cursor.set_default in record { col = omega arith; row = omega arith },
  record { video = λ a h. ground (arith, clear_lem t a); command = λ i h. unfold clear in refl },
)

execute_command-Inside :
    (t : Console)
    → OnScreen t.cursor
    → OnScreen (execute_command t).cursor × Inside t (execute_command t)
unfolding execute_command
execute_command-Inside t on = elim (Bool-cases (t.command_buff 1 == 0x1c)) [
  | inl e ↦ rw e (clear-Inside t)
  | inr e ↦ rw e (on, record { video = λ a h. refl; command = λ i h. refl })
]

put-Inside : (t : Console) (c : ℕ) → OnScreen t.cursor → Inside t (put t c)
unfolding put put_entry
put-Inside t c on = record { video = λ a h. ground arith; command = λ i h. refl }

putchar-command :
    (t : Console) (c : ℕ)
    → IsValid t
    → ((c == 0xb1) || ltb 0 t.command_idx) ≡ true
    → IsValid (putchar t c) × Inside t (putchar t c)
unfolding putchar
putchar-command t c v reading =
    let same : Inside t t = record { video = λ a h. refl; command = λ i h. refl } in
    let ran = execute_command-Inside t v.screen in
    elim (Bool-cases (t.command_idx == 3)) [
      | inl e ↦ rw (reading, e) (command_buff_clear-Inside t t v.screen same)
      | inr e ↦ elim (Bool-cases (c == 0xff)) [
        | inl f ↦ rw (reading, e, f) (command_buff_clear-Inside t (execute_command t) ran.0 ran.1)
        | inr f ↦
            rw (reading, e, f)
              (
                record { screen = v.screen; command = ground (arith, v.command) },
                record { video = λ a h. refl; command = λ i h. ground (arith, v.command) },
              )
      ]
    ]

-- `terminal_putchar` of any byte keeps the terminal valid, and writes neither outside the 2000 entries of
-- the screen nor outside the three bytes of the command buffer.
pub putchar-Inside :
    (t : Console) (c : ℕ) → IsValid t → IsValid (putchar t c) × Inside t (putchar t c)
unfolding putchar
putchar-Inside t c v = elim (Bool-cases ((c == 0xb1) || ltb 0 t.command_idx)) [
  | inl reading ↦ putchar-command t c v reading
  | inr plain ↦ elim (Bool-cases (c == b'\n')) [
    | inl e ↦
        rw (plain, e)
          (end_line-Inside t _ (
            moved-Inside t (Cursor.newline t.cursor) (newline-OnScreen t.cursor v.screen).0
              v.command))
    | inr e ↦
        (let m =
            moved-Inside (put t c) (Cursor.next_char t.cursor)
              (next_char-OnScreen t.cursor v.screen).0 (unfold put in v.command) in
          rw (plain, e)
            (end_line-Inside t _ (m.0, Inside-trans t (put t c) _ (put-Inside t c v.screen) m.1)))
  ]
]
