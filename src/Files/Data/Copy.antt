-- ===== src/Files/Data/Copy.antt =====
-- What reading and writing a file do.
use polx.Base.{
  ℕ, zero, suc, ◌+◌, ◌-◌, ◌^◌, ◌≤◌, ◌<◌, min, ◌≡◌, refl, ap, ◌∙◌, ◌⊎◌, true, false, ◌&&◌, arith,
  ℕ_discrete, ltb, leb, ◌==◌, if◌then◌else◌, update,
}
use polx.Terminal.Vga.{Buffer}
use polx.Files.Data.{copy_data, bytes_left, Moved, finish, ramfs_read, ramfs_write, tarfs_read, eio}

-- The loop copies what is left of the file, and no more than asked for.
copy_data_lem :
    (n node_size offset src dst moved : ℕ) (from to : Buffer)
    → offset ≤ node_size
    → node_size < 2 ^ 32
    → moved ≤ node_size - offset
    → let out = copy_data n node_size offset src dst moved from to in
      (out.0 ≡ moved + min n (node_size - offset - moved))
      × ((a : ℕ)
          → out.1 a
            ≡ (if leb (dst + moved) a && ltb a (dst + out.0) then from (src + (a - dst)) else to a))
unfolding copy_data
copy_data_lem zero node_size offset src dst moved from to fits small in_file =
    (omega arith, λ a. ground arith)
copy_data_lem (suc n) node_size offset src dst moved from to fits small in_file =
    elim (ℕ_discrete moved (node_size - offset)) [
      | yes e ↦
          (let over : bytes_left node_size offset moved ≡ false = ground (arith, e) in
            rw over (omega (arith, e), λ a. ground arith))
      | no ne ↦
          (let more : bytes_left node_size offset moved ≡ true = ground (arith, ne) in
            let (count, bytes) =
              copy_data_lem n node_size offset src dst (moved + 1) from
                (update to (dst + moved) (from (src + moved))) fits small (omega (arith, ne)) in
            rw more (
              omega (arith, count, ne),
              λ a. ground (arith, bytes a, count, ap from {x = src + (a - dst)} {y = src + moved}),
            ))
    ]

-- `count` bytes at `src` are now at `dst` as well, and all else is as before.
pub record Copied (count src dst : ℕ) (from to w : Buffer) : Type 0 where
  pub copied : (r : ℕ) → r < count → w (dst + r) ≡ from (src + r)
  pub kept : (a : ℕ) → (a < dst) ⊎ (dst + count ≤ a) → w a ≡ to a

-- what a call gives that asks for `size` bytes at `offset` of a file of `node_size`
pub record Transfer (node_size offset size src dst old : ℕ) (from to : Buffer) (m : Moved)
    : Type 0 where
  pub count : m.count ≡ min size (node_size - offset)
  pub bytes : Copied m.count src dst from to m.bytes
  pub errno : m.errno ≡ (if m.count == 0 then eio else old)

copy_data-Transfer :
    (node_size offset size src dst errno : ℕ) (from to : Buffer)
    → offset ≤ node_size
    → node_size < 2 ^ 32
    → Transfer node_size offset size src dst errno from to
        (finish errno (copy_data size node_size offset src dst 0 from to))
copy_data-Transfer node_size offset size src dst errno from to fits small =
    let (count, bytes) =
      copy_data_lem size node_size offset src dst 0 from to fits small (omega arith) in
    record {
      count = omega (arith, count);
      bytes = record {
        copied = λ r lt.
            ground (arith, bytes (dst + r), lt, ap from {x = src + (dst + r - dst)} {y = src + r});
        kept = λ a far. ground (arith, bytes a, far);
      };
      errno = refl;
    }

-- `ramfs_read` at an offset in the file copies what is asked for, or what is left of the file if that is
-- less, into the buffer, and touches nothing else; if that is nothing, `errno` is EIO.
pub ramfs_read-Transfer :
    (node_size : ℕ) (file : Buffer) (offset size : ℕ) (buffer : Buffer) (errno : ℕ)
    → offset ≤ node_size
    → node_size < 2 ^ 32
    → Transfer node_size offset size offset 0 errno file buffer
        (ramfs_read node_size file offset size buffer errno)
unfolding ramfs_read
ramfs_read-Transfer node_size file offset size buffer errno fits small =
    copy_data-Transfer node_size offset size offset 0 errno file buffer fits small

-- The same for `ramfs_write`, from the buffer into the file: no byte at or past the file's size is written.
pub ramfs_write-Transfer :
    (node_size : ℕ) (file : Buffer) (offset : ℕ) (buffer : Buffer) (size errno : ℕ)
    → offset ≤ node_size
    → node_size < 2 ^ 32
    → Transfer node_size offset size 0 offset errno buffer file
        (ramfs_write node_size file offset buffer size errno)
unfolding ramfs_write
ramfs_write-Transfer node_size file offset buffer size errno fits small =
    copy_data-Transfer node_size offset size 0 offset errno buffer file fits small

-- The same for `tarfs_read`, from where the archive has the file.
pub tarfs_read-Transfer :
    (node_size : ℕ) (memory : Buffer) (vaddr offset size : ℕ) (buffer : Buffer) (errno : ℕ)
    → offset ≤ node_size
    → node_size < 2 ^ 32
    → Transfer node_size offset size
        (vaddr + offset)
        0
        errno
        memory
        buffer
        (tarfs_read node_size memory vaddr offset size buffer errno)
unfolding tarfs_read
tarfs_read-Transfer node_size memory vaddr offset size buffer errno fits small =
    copy_data-Transfer node_size offset size (vaddr + offset) 0 errno memory buffer fits small

-- What `ramfs_write` wrote at an offset in the file, `ramfs_read` of the same size there gives back: as many
-- bytes, and the same.
pub ramfs_read-ramfs_write :
    (node_size : ℕ) (file : Buffer) (offset : ℕ) (buffer : Buffer) (size : ℕ) (target : Buffer)
    (e d : ℕ)
    → offset ≤ node_size
    → node_size < 2 ^ 32
    → let w = ramfs_write node_size file offset buffer size e in
      let r = ramfs_read node_size w.bytes offset size target d in
      (r.count ≡ w.count) × ((k : ℕ) → k < r.count → r.bytes k ≡ buffer k)
ramfs_read-ramfs_write node_size file offset buffer size target e d fits small =
    let w = ramfs_write node_size file offset buffer size e in
    let r = ramfs_read node_size w.bytes offset size target d in
    let put = ramfs_write-Transfer node_size file offset buffer size e fits small in
    let got = ramfs_read-Transfer node_size w.bytes offset size target d fits small in
    (
      omega (arith, put.count, got.count),
      λ k lt.
          let read : r.bytes k ≡ w.bytes (offset + k) =
            ap r.bytes {x = k} {y = 0 + k} (omega arith) ∙ got.bytes.copied k lt in
          let written : w.bytes (offset + k) ≡ buffer k =
            put.bytes.copied k (omega (arith, put.count, got.count))
            ∙ ap buffer {x = 0 + k} {y = k} (omega arith) in
          read ∙ written,
    )
