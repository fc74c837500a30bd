-- ===== src/Files/Write/Stored.antt =====
-- A write that the file has room for.
use polx.Base.{
  ℕ, zero, suc, ◌+◌, ◌-◌, ◌^◌, ◌≤◌, ◌<◌, ◌≡◌, refl, sym, ap, ◌∙◌, ◌≢◌, inl, inr, some, arith, ltb,
  ltb→lt, lt→not_leb, not_ltb→le, le→not_ltb, Bool-cases, add_word, sub_word, Ends, Ends-map,
}
use mathlib.Core.Path.{subst}
use polx.Terminal.Vga.{Buffer}
use polx.Files.Data.Copy.{Copied, ramfs_write-Transfer}
use polx.Files.Write.{Written, write_loop, ramfs_op, write_int}
use polx.Files.Write.Rounds.{round, write_loop-round, stored, round-ramfs}

-- a copy that goes on where another ended
Copied-append :
    (n m src dst : ℕ) (from to mid out : Buffer)
    → Copied n 0 dst (λ k. from (src + k)) to mid
    → Copied m (src + n) (dst + n) from mid out
    → Copied (n + m) src dst from to out
Copied-append n m src dst from to mid out first rest = record {
  copied = λ r lt. elim (Bool-cases (ltb r n)) [
    | inl early ↦
        rest.kept (dst + r) (inl (omega (arith, ltb→lt _ _ early)))
        ∙ first.copied r (ltb→lt _ _ early)
        ∙ ap (λ (k : ℕ). from (src + k)) (omega arith)
    | inr late ↦
        (let le = not_ltb→le _ _ late in
          let to_r : dst + r ≡ dst + n + (r - n) = omega (arith, le) in
          let from_r : src + n + (r - n) ≡ src + r = omega (arith, le) in
          ap out to_r ∙ rest.copied (r - n) (omega (arith, le, lt)) ∙ ap from from_r)
  ];
  kept = λ a away. elim away [
    | inl below ↦ rest.kept a (inl (omega (arith, below))) ∙ first.kept a (inl below)
    | inr above ↦
        rest.kept a (inr (omega (arith, above))) ∙ first.kept a (inr (omega (arith, above)))
  ];
}

-- All `left` bytes that are still to be written stand in the file, and the position is behind them.
pub record Stored (user : Buffer) (size left vaddr : ℕ) (w r : Written Buffer) : Type 0 where
  pub ret : r.ret ≡ size
  pub position : r.position ≡ w.position + left
  pub bytes : Copied left vaddr w.position user w.fs r.fs

nothing-Stored :
    (user : Buffer) (size vaddr : ℕ) (w : Written Buffer)
    → Stored user size 0 vaddr w (record w { ret = size })
nothing-Stored user size vaddr w = record {
  ret = refl;
  position = omega arith;
  bytes = record { copied = λ r lt. absurd (omega (arith, lt)); kept = λ a away. refl };
}

write_int_bounds :
    (vaddr left : ℕ)
    → 0 < left
    → left ≤ 4096
    → (0 < write_int vaddr left) × (write_int vaddr left ≤ left)
write_int_bounds vaddr left some_left small = ground arith

-- a round of `c` bytes, and then the rest
more-Stored :
    (user : Buffer) (size c left vaddr : ℕ) (w w' r : Written Buffer)
    → w'.position ≡ w.position + c
    → Copied c 0 w.position (λ k. user (vaddr + k)) w.fs w'.fs
    → Stored user size left (vaddr + c) w' r
    → Stored user size (c + left) vaddr w r
more-Stored user size c left vaddr w w' r moved first rest = record {
  ret = rest.ret;
  position = omega (arith, rest.position, moved);
  bytes =
      Copied-append c left vaddr w.position user w.fs w'.fs r.fs first
        (subst (λ (p : ℕ). Copied left (vaddr + c) p user w'.fs r.fs) moved rest.bytes);
}

-- a round writes `count` bytes, one or more, and no more than are left
record Rounded (user : Buffer) (size written vaddr left : ℕ) (w : Written Buffer) : Type 0 where
  count : ℕ
  some_bytes : 0 < count
  within : count ≤ left
  ret : (round (some (ramfs_op user)) size written vaddr w).0 ≡ count
  bytes :
      Copied count 0 w.position
        (λ k. user (vaddr + k))
        w.fs
        (round (some (ramfs_op user)) size written vaddr w).1

round-Rounded :
    (user : Buffer) (size written vaddr left : ℕ) (w : Written Buffer)
    → written + left ≡ size
    → 0 < left
    → size < 2 ^ 32
    → w.position + left ≤ 4096
    → Rounded user size written vaddr left w
round-Rounded user size written vaddr left w whole more small fits =
    let c = write_int vaddr (sub_word size written) in
    let still : sub_word size written ≡ left = omega (arith, whole, small) in
    let (c_pos, c_le) =
      write_int_bounds vaddr (sub_word size written) (omega (arith, still, more))
        (omega (arith, still, fits)) in
    let put =
      ramfs_write-Transfer 4096 w.fs w.position (λ k. user (vaddr + k)) c w.errno
        (omega (arith, fits)) (omega arith) in
    let count : (stored user size written vaddr w).count ≡ c =
      omega (arith, put.count, c_le, still, fits) in
    let (ret, bytes) = round-ramfs user size written vaddr w in
    record {
      count = c;
      some_bytes = c_pos;
      within = omega (arith, c_le, still);
      ret = ret ∙ count;
      bytes =
          subst (λ (f : Buffer). Copied c 0 w.position (λ k. user (vaddr + k)) w.fs f) (sym bytes)
            (subst
              (λ (n : ℕ).
                Copied n 0 w.position (λ k. user (vaddr + k)) w.fs
                  (stored user size written vaddr w).bytes)
              count put.bytes);
    }

write_loop-none_left :
    (fuel : ℕ) (frame : ℕ → ℕ) (user : Buffer) (size vaddr : ℕ) (w : Written Buffer)
    → Ends
        (Stored user size 0 vaddr w)
        (write_loop fuel frame (some (ramfs_op user)) size size vaddr w)
unfolding write_loop
write_loop-none_left zero frame user size vaddr w =
    rw (le→not_ltb size size (omega arith)) (nothing-Stored user size vaddr w)
write_loop-none_left (suc n) frame user size vaddr w =
    rw (le→not_ltb size size (omega arith)) (nothing-Stored user size vaddr w)

-- A write of a task's bytes into a ramfs file that has room for all of them ends, with as many rounds as there are bytes at most. It returns their number, they stand in the file in their order from the position on, nothing else of the file changes, and the position is behind them.
pub write_loop-Stored :
    (fuel : ℕ) (frame : ℕ → ℕ) (user : Buffer) (size written vaddr left : ℕ) (w : Written Buffer)
    → written + left ≡ size
    → left ≤ fuel
    → size < 2 ^ 32
    → vaddr + left < 2 ^ 32
    → w.position + left ≤ 4096
    → ((a : ℕ) → vaddr ≤ a → a < vaddr + left → frame a ≢ 0)
    → Ends
        (Stored user size left vaddr w)
        (write_loop fuel frame (some (ramfs_op user)) size written vaddr w)
write_loop-Stored fuel frame user size written vaddr zero w whole enough small low fits mapped =
    subst
      (λ (n : ℕ).
        Ends (Stored user size 0 vaddr w)
          (write_loop fuel frame (some (ramfs_op user)) size n vaddr w))
      (omega (arith, whole)) (write_loop-none_left fuel frame user size vaddr w)
write_loop-Stored zero frame user size written vaddr (suc left) w whole enough small low fits
      mapped =
    absurd (omega (arith, enough))
write_loop-Stored (suc fuel) frame user size written vaddr (suc left) w whole enough small low fits
      mapped =
    let op = some (ramfs_op user) in
    let r = round (some (ramfs_op user)) size written vaddr w in
    let one = round-Rounded user size written vaddr (suc left) w whole (omega arith) small fits in
    let c = one.count in
    let rest = suc left - c in
    let w' : Written Buffer = record w {
      fs = r.1;
      errno = r.2;
      position = add_word w.position r.0;
    } in
    let ih =
      write_loop-Stored fuel frame user size (written + c) (vaddr + c) rest w'
        (omega (arith, whole, one.within)) (omega (arith, one.some_bytes, enough)) small
        (omega (arith, one.within, low)) (omega (arith, one.ret, one.within, fits))
        (λ a ge lt. mapped a (omega (arith, ge)) (omega (arith, lt, one.within))) in
    let on_w : add_word written r.0 ≡ written + c =
      omega (arith, one.ret, one.within, whole, small) in
    let on_v : add_word vaddr r.0 ≡ vaddr + c = omega (arith, one.ret, one.within, low) in
    let goes_on =
      write_loop-round fuel frame (some (ramfs_op user)) size written vaddr w (omega (arith, whole))
        (mapped vaddr (omega arith) (omega arith))
        (lt→not_leb (2 ^ 31) r.0 (omega (arith, one.ret, one.within, fits)))
      ∙ ap (λ (n : ℕ). write_loop fuel frame (some (ramfs_op user)) size n (add_word vaddr r.0) w')
          on_w
      ∙ ap (λ (v : ℕ). write_loop fuel frame (some (ramfs_op user)) size (written + c) v w') on_v in
    subst (Ends (Stored user size (suc left) vaddr w)) (sym goes_on) (
      Ends-map (Stored user size rest (vaddr + c) w') (Stored user size (suc left) vaddr w) _
        (λ x s.
          subst (λ (n : ℕ). Stored user size n vaddr w x) (omega (arith, one.within))
            (more-Stored user size c rest vaddr w w' x (omega (arith, one.ret, one.within, fits))
              one.bytes s))
        ih)
