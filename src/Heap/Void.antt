-- ===== src/Heap/Void.antt =====
-- The chunk that holds the memory that was never used.
use polx.Base.{ℕ, ◌+◌, ◌^◌, ◌≤◌, ◌<◌, ◌≡◌, arith, sub_word}
use polx.Heap.{Heap, chunk_size, create_chunk, cut_void, malloc_init}

-- the end of the memory that the void chunk stands for
unfoldable pub void_end : Heap → ℕ
void_end h = h.void_chunk + (h.chunks h.void_chunk).size

-- After `_malloc_init` the void chunk ends 0x2000 bytes behind 0xd0000000, the end of the heap and start of the area of `vmalloc`, wherever the kernel ends in its first 768 MiB.
pub malloc_init-void_end :
    (h : Heap) (kernel_end : ℕ)
    → 0xc0000000 ≤ kernel_end
    → kernel_end < 0xd0000000
    → void_end (malloc_init h kernel_end) ≡ 0xd0000000 + 0x2000
unfolding void_end malloc_init create_chunk
malloc_init-void_end h kernel_end lo hi = ground arith

-- the two chunks after a cut
cut_void-sizes :
    (h : Heap) (aligned tmp_size : ℕ)
    → 16 ≤ aligned
    → aligned < 2 ^ 30
    → h.void_chunk + aligned < 2 ^ 32
    → (((cut_void h aligned tmp_size).chunks h.void_chunk).size ≡ aligned)
      × ((cut_void h aligned tmp_size).void_chunk ≡ h.void_chunk + aligned)
      × (((cut_void h aligned tmp_size).chunks (h.void_chunk + aligned)).size
          ≡ chunk_size (sub_word tmp_size aligned))
unfolding cut_void create_chunk
cut_void-sizes h aligned tmp_size lo hi fits = (ground arith, ground arith, ground arith)

-- A cut from a void chunk that leaves fewer than 16 bytes makes a void chunk that ends behind the memory of the one before.
pub cut_void-overruns :
    (h : Heap) (aligned : ℕ)
    → 16 ≤ aligned
    → aligned < 2 ^ 30
    → h.void_chunk + aligned < 2 ^ 32
    → aligned ≤ (h.chunks h.void_chunk).size
    → (h.chunks h.void_chunk).size < aligned + 16
    → void_end h < void_end (cut_void h aligned (h.chunks h.void_chunk).size)
unfolding void_end
cut_void-overruns h aligned lo hi fits enough little =
    let (_, moved, size) = cut_void-sizes h aligned (h.chunks h.void_chunk).size lo hi fits in
    rw (moved, size) (ground arith)

-- A cut of more than the void chunk has, and what its field of 30 bits then says is left.
pub cut_void-wraps :
    (h : Heap) (aligned tmp_size : ℕ)
    → 16 ≤ aligned
    → tmp_size < aligned
    → aligned < 2 ^ 29
    → h.void_chunk + aligned < 2 ^ 32
    → ((cut_void h aligned tmp_size).chunks (cut_void h aligned tmp_size).void_chunk).size + aligned
      ≡ 2 ^ 30 + tmp_size
cut_void-wraps h aligned tmp_size lo short small fits =
    let (_, moved, size) = cut_void-sizes h aligned tmp_size lo (omega (arith, small)) fits in
    rw moved (rw size (ground arith))
