-- ===== src/Heap/Sizes.antt =====
-- The sizes that `kmalloc` computes.
use polx.Base.{ℕ, ◌+◌, ◌*◌, ◌/◌, ◌^◌, ◌≤◌, ◌<◌, ◌≡◌, arith}
use polx.Heap.{aligned_size}

-- A request is rounded up to the least multiple of 16 that also holds the eight bytes before the data, where nothing wraps around.
pub aligned_size-eq : (size : ℕ) → size + 24 < 2 ^ 32 → aligned_size size ≡ (size + 23) / 16 * 16
unfolding aligned_size
aligned_size-eq size small = ground arith

-- For a request of the last 15 sizes below 2^32 the rounding wraps around, and the chunk has at most 16 bytes.
pub aligned_size-wraps : (size : ℕ) → 2 ^ 32 < size + 16 → size < 2 ^ 32 → aligned_size size ≤ 16
unfolding aligned_size
aligned_size-wraps size big small = ground arith
