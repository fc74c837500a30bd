-- ===== src/Libc/Tests.antt =====
-- Runs of the C library.
use polx.Base.{◌+◌, ◌*◌, ◌^◌, ◌≡◌, refl, true, false, arith, ltb, if◌then◌else◌, done, Ends}
use polx.Klib.Strings.{Bytes}
use polx.Heap.{
  init_bin, aligned_size, find_free_chunk, take_from_sizebin, find_suitable_bin,
  take_from_sortedbin,
}
use polx.Libc.Heap.{Malloc, allocate, allocate-grown}

abbrev zeros : Bytes
zeros = λ a. 0

-- a heap with no free chunk, and 96 bytes that were never used
abbrev small_heap : Malloc
small_heap = record {
  heap = record {
    chunks = λ a. record {
      size = 96;
      is_free = true;
      prev_free = false;
      prev_size = 0;
      prev = 0;
      next = 0;
    };
    bins = λ i. init_bin (if ltb i 5 then 32 + 16 * i else 0);
    void_chunk = 0x8000;
    is_initialized = true;
  };
  heap_size = 8192;
}

nothing_free : find_free_chunk small_heap.heap (aligned_size 200) ≡ done (small_heap.heap, 0)
unfolding find_free_chunk aligned_size take_from_sizebin find_suitable_bin take_from_sortedbin
nothing_free = refl

aligned_200 : aligned_size 200 ≡ 208
unfolding aligned_size
aligned_200 = refl

allocate-grown_example :
    Ends
      (λ r. (r.0.heap.chunks r.0.heap.void_chunk).size + aligned_size 200 ≡ 2 ^ 30 + 96)
      (allocate small_heap 200 0xa000)
allocate-grown_example =
    allocate-grown small_heap small_heap.heap 200 0xa000 nothing_free refl (omega arith)
      (omega (arith, aligned_200)) (omega (arith, aligned_200)) (omega (arith, aligned_200))
      (omega (arith, aligned_200))
