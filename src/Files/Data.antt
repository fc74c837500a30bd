-- ===== src/Files/Data.antt =====
-- The bytes of a file: `ramfs_read` and `ramfs_write` of src/kernel/vfs/ramfs.c, `tarfs_read` and
-- `_get_size` of src/kernel/vfs/tarfs.c. The frame of a ramfs file is mapped for the copy and unmapped
-- after it; the model has the bytes that stand there. `size` is `node->size`.
pub mod Copy
use polx.Base.{
  ℕ, zero, suc, ◌+◌, Bool, not, ◌==◌, if◌then◌else◌, update, add_word, sub_word, mul_word,
}
use polx.Terminal.Vga.{Buffer}

abbrev pub eio : ℕ
eio = 5

-- whether `node->size-offset-read_data > 0`
abbrev pub bytes_left : (node_size offset moved : ℕ) → Bool
bytes_left node_size offset moved = not (sub_word (sub_word node_size offset) moved == 0)

-- the loop of the three functions: at most `rounds` bytes from `src` on to `dst` on
unfoldable pub copy_data :
    (rounds node_size offset src dst moved : ℕ) → (from to : Buffer) → ℕ × Buffer
copy_data zero node_size offset src dst moved from to = (moved, to)
copy_data (suc n) node_size offset src dst moved from to =
    let rest =
      copy_data n node_size offset src dst (moved + 1) from
        (update to (dst + moved) (from (src + moved))) in
    if bytes_left node_size offset moved then rest else (moved, to)

-- what the call returns, the buffer or file after it, and `errno`
pub record Moved : Type 0 where
  pub count : ℕ
  pub bytes : Buffer
  pub errno : ℕ

abbrev pub finish : (errno : ℕ) → ℕ × Buffer → Moved
finish errno (moved, bytes) = record {
  count = moved;
  bytes = bytes;
  errno = if moved == 0 then eio else errno;
}

-- `file` is what the frame at `inode->paddr` holds.
unfoldable pub ramfs_read :
    (node_size : ℕ) → (file : Buffer) → (offset size : ℕ) → (buffer : Buffer) → (errno : ℕ) → Moved
unfolding copy_data
ramfs_read node_size file offset size buffer errno =
    finish errno (copy_data size node_size offset offset 0 0 file buffer)

unfoldable pub ramfs_write :
    (node_size : ℕ) → (file : Buffer) → (offset : ℕ) → (buffer : Buffer) → (size errno : ℕ) → Moved
unfolding copy_data
ramfs_write node_size file offset buffer size errno =
    finish errno (copy_data size node_size offset 0 offset 0 buffer file)

-- `memory` holds the archive, and the file stands at `inode->vaddr`.
unfoldable pub tarfs_read :
    (node_size : ℕ)
    → (memory : Buffer) → (vaddr offset size : ℕ) → (buffer : Buffer) → (errno : ℕ) → Moved
unfolding copy_data
tarfs_read node_size memory vaddr offset size buffer errno =
    finish errno (copy_data size node_size offset (vaddr + offset) 0 0 memory buffer)

-- the loop of `_get_size`, from the last of the digits to the first
unfoldable pub size_loop : (i : ℕ) → (s : Buffer) → (size count : ℕ) → ℕ
size_loop zero s size count = size
size_loop (suc i) s size count =
    size_loop i s (add_word size (mul_word (sub_word (s i) 48) count)) (mul_word count 8)

unfoldable pub get_size : (s : Buffer) → ℕ
unfolding size_loop
get_size s = size_loop 11 s 0 1
