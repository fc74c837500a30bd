-- ===== src/Files/Write.antt =====
-- `do_write` of src/kernel/vfs/write.c. `frame` is what `vmm_get_frame_from` gives for an address of the
-- task, and the operation of the node is given the address of the bytes that are mapped for it.
pub mod Rounds
pub mod Stored
use polx.Base.{
  ℕ, zero, suc, ◌+◌, ◌-◌, ◌/◌, ◌%◌, not, Option, none, some, ltb, ◌==◌, if◌then◌else◌, add_word,
  sub_word, word_max, Outcome, done, fault, out_of_fuel,
}
use polx.Terminal.Vga.{Buffer}
use polx.Files.Data.{ramfs_write}
use polx.Files.Vfs.{vfs_write, is_error}

pub record OpenFile : Type 0 where
  pub position : ℕ
  pub mode : ℕ

abbrev pub max_fds : ℕ
max_fds = 256

abbrev pub eperm : ℕ
eperm = 1

abbrev pub ebadf : ℕ
ebadf = 9

abbrev pub efault : ℕ
efault = 14

-- `node->op.write`, at a position of the file, for bytes of the task
abbrev pub WriteOp : Type 0 → Type 0
WriteOp σ = (position vaddr n : ℕ) → σ × ℕ → ℕ × (σ × ℕ)

-- the file system, `errno`, the descriptor's position, and what the call returns
pub record Written (σ : Type 0) : Type 0 where
  pub ret : ℕ
  pub fs : σ
  pub errno : ℕ
  pub position : ℕ

-- how much of `left` bytes stands on the page of `vaddr`
abbrev pub write_int : (vaddr left : ℕ) → ℕ
write_int vaddr left = if ltb 4096 (add_word (vaddr % 4096) left) then 4096 - vaddr % 4096 else left

abbrev pub at_place :
    {σ : Type 0} → Option (WriteOp σ) → (position vaddr n : ℕ) → Option (σ × ℕ → ℕ × (σ × ℕ))
at_place none position vaddr n = none
at_place (some op) position vaddr n = some (op position vaddr n)

unfoldable pub write_loop :
    {σ : Type 0}
    → (fuel : ℕ) → (frame : ℕ → ℕ) → Option (WriteOp σ)
    → (size written vaddr : ℕ) → (w : Written σ) → Outcome (Written σ)
write_loop zero frame op size written vaddr w =
    if ltb written size then out_of_fuel else done (record w { ret = written })
write_loop (suc n) frame op size written vaddr w =
    let out =
      vfs_write (at_place op w.position vaddr (write_int vaddr (sub_word size written))) w.fs
        w.errno in
    let step = record w { fs = out.1; errno = out.2; position = add_word w.position out.0 } in
    let rest = write_loop n frame op size (add_word written out.0) (add_word vaddr out.0) step in
    if not (ltb written size)
    then done (record w { ret = written })
    else if frame vaddr == 0
    then done (record w { ret = word_max; errno = efault })
    else if is_error out.0
    then done (record w { ret = word_max; fs = out.1; errno = out.2 })
    else rest

unfoldable pub do_write :
    {σ : Type 0}
    → (fuel : ℕ) → (used_fd : ℕ → Option OpenFile) → (frame : ℕ → ℕ) → Option (WriteOp σ)
    → (fd buff size : ℕ) → σ
    → (errno : ℕ) → Outcome (Written σ)
do_write fuel used_fd frame op fd buff size fs errno =
    if not (ltb fd max_fds) then fault else elim (used_fd fd) [
      | none ↦ done (record { ret = word_max; fs = fs; errno = ebadf; position = 0 })
      | some f ↦
          if f.mode / 2 % 2 == 1
          then done (record { ret = word_max; fs = fs; errno = eperm; position = f.position })
          else write_loop fuel frame op size 0 buff
              (record { ret = 0; fs = fs; errno = errno; position = f.position })
    ]

-- the operation of a ramfs file, for a task whose memory is `user`
abbrev pub ramfs_op : (user : Buffer) → WriteOp Buffer
ramfs_op user position vaddr n s =
    let m = ramfs_write 4096 s.0 position (λ k. user (vaddr + k)) n s.1 in
    (m.count, (m.bytes, m.errno))
