-- ===== src/Files/Write/Rounds.antt =====
-- The rounds of the loop of `do_write`.
use polx.Base.{
  ℕ, zero, suc, ◌+◌, ◌^◌, ◌<◌, ◌≡◌, refl, sym, ap, ◌∙◌, ◌≢◌, false, Option, some, arith, lt→ltb,
  ne→==, lt→not_leb, add_word, sub_word, out_of_fuel,
}
use polx.Terminal.Vga.{Buffer}
use polx.Files.Data.{Moved, ramfs_write}
use polx.Files.Data.Copy.{ramfs_write-Transfer}
use polx.Files.Vfs.{vfs_write, is_error}
use polx.Files.Write.{WriteOp, Written, write_int, at_place, write_loop, ramfs_op}

-- what `vfs_write` gives in a round
abbrev pub round :
    {σ : Type 0} → Option (WriteOp σ) → (size written vaddr : ℕ) → Written σ → ℕ × σ × ℕ
round op size written vaddr w =
    vfs_write (at_place op w.position vaddr (write_int vaddr (sub_word size written))) w.fs w.errno

pub write_loop-round :
    {σ : Type 0} (n : ℕ) (frame : ℕ → ℕ) (op : Option (WriteOp σ)) (size written vaddr : ℕ)
    (w : Written σ)
    → written < size
    → frame vaddr ≢ 0
    → is_error (round op size written vaddr w).0 ≡ false
    → write_loop (suc n) frame op size written vaddr w
      ≡ write_loop n frame op size
          (add_word written (round op size written vaddr w).0)
          (add_word vaddr (round op size written vaddr w).0)
          (record w {
            fs = (round op size written vaddr w).1;
            errno = (round op size written vaddr w).2;
            position = add_word w.position (round op size written vaddr w).0;
          })
unfolding write_loop
write_loop-round n frame op size written vaddr w more mapped fine =
    rw (lt→ltb _ _ more) (rw (ne→== _ _ mapped) (rw fine refl))

-- the round of a ramfs file
abbrev pub stored : (user : Buffer) (size written vaddr : ℕ) → Written Buffer → Moved
stored user size written vaddr w =
    ramfs_write 4096 w.fs w.position (λ k. user (vaddr + k))
      (write_int vaddr (sub_word size written)) w.errno

pub round-ramfs :
    (user : Buffer) (size written vaddr : ℕ) (w : Written Buffer)
    → ((round (some (ramfs_op user)) size written vaddr w).0
        ≡ (stored user size written vaddr w).count)
      × ((round (some (ramfs_op user)) size written vaddr w).1
          ≡ (stored user size written vaddr w).bytes)
unfolding vfs_write
round-ramfs user size written vaddr w = (refl, refl)

-- Where the position is at the end of a ramfs file, a write of one byte or more never ends: each round writes nothing and is followed by another, however many there are.
pub write_loop-full :
    (fuel : ℕ) (frame : ℕ → ℕ) (user : Buffer) (size written vaddr : ℕ) (w : Written Buffer)
    → written < size
    → size < 2 ^ 32
    → vaddr < 2 ^ 32
    → frame vaddr ≢ 0
    → w.position ≡ 4096
    → write_loop fuel frame (some (ramfs_op user)) size written vaddr w ≡ out_of_fuel
write_loop-full zero frame user size written vaddr w more small low mapped end =
    unfold write_loop in rw (lt→ltb _ _ more) refl
write_loop-full (suc n) frame user size written vaddr w more small low mapped end =
    let r = round (some (ramfs_op user)) size written vaddr w in
    let put =
      ramfs_write-Transfer 4096 w.fs w.position (λ k. user (vaddr + k))
        (write_int vaddr (sub_word size written)) w.errno (omega (arith, end)) (omega arith) in
    let nothing : r.0 ≡ 0 =
      omega (arith, (round-ramfs user size written vaddr w).0, put.count, end) in
    let same : add_word vaddr r.0 ≡ vaddr = omega (arith, nothing, low) in
    let fine : is_error r.0 ≡ false = lt→not_leb (2 ^ 31) r.0 (omega (arith, nothing)) in
    write_loop-round n frame (some (ramfs_op user)) size written vaddr w more mapped fine
    ∙ write_loop-full n frame user size (add_word written r.0) (add_word vaddr r.0)
        (record w { fs = r.1; errno = r.2; position = add_word w.position r.0 })
        (omega (arith, nothing, more, small)) small (omega (arith, nothing, low))
        (λ e. mapped (ap frame (sym same) ∙ e)) (omega (arith, nothing, end))
