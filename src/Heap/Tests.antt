-- ===== src/Heap/Tests.antt =====
-- Runs of the heap.
use polx.Base.{
  ℕ, ◌+◌, ◌*◌, ◌<◌, ◌≡◌, refl, sym, ap, ◌∙◌, true, false, some, [], ◌∷◌, arith, ltb, ◌==◌,
  if◌then◌else◌, Ptr, update, done, panic, ◌>>=◌, Ends,
}
use polx.Heap.{
  Chunk, Chunks, Bin, Heap, init_bin, create_chunk, find_suitable_bin, kfree, kmalloc, release,
  store_chunk, mark_released, push_to_sizebin, insert_in_sortedbin, link_between,
  take_from_sortedbin, aligned_size, cut_void, allocate, find_free_chunk, take_from_sizebin,
  split_chunk, erase_from_sortedbin, find_large, mark_found,
}
use polx.Heap.Void.{void_end, cut_void-overruns}
use polx.Heap.Sorted.List.{IsSortedBin}
use polx.Heap.Sorted.Insert.{Inserted, insert_in_sortedbin-Inserted}
use polx.Heap.Sorted.Take.{BestFit, take_from_sortedbin-BestFit}
use polx.Heap.Bins.{kfree-kmalloc}
use polx.Heap.Twice.{kfree-kfree}

abbrev chunk : ℕ → (prev next : Ptr) → Chunk
chunk n prev next = record {
  size = n;
  is_free = false;
  prev_free = false;
  prev_size = 0;
  prev = prev;
  next = next;
}

-- two chunks of 112 and 256 bytes in the sorted bin, and one of 128 bytes in use at 0x3000
abbrev two_chunks : Chunks
two_chunks = λ a.
    if a == 0x1000
    then chunk 112 0 0x2000
    else if a == 0x2000
    then chunk 256 0x1000 0
    else if a == 0x3000
    then chunk 128 0 0
    else chunk 64 0 0

abbrev empty_bin : ℕ → Bin
empty_bin i = init_bin (if ltb i 5 then 32 + 16 * i else 0)

abbrev two_free : Heap
two_free = record {
  chunks = two_chunks;
  bins =
      update empty_bin 5 (record { stored_size = 0; counter = 2; first = 0x1000; last = 0x2000 });
  void_chunk = 0x8000;
  is_initialized = true;
}

two_free-IsSortedBin : IsSortedBin two_free (0x1000 ∷ 0x2000 ∷ [])
two_free-IsSortedBin = record {
  chain = omega arith;
  distinct = omega arith;
  first = refl;
  last = refl;
  count = refl;
  ascending = omega arith;
}

insert_in_sortedbin-Inserted_example :
    Ends (Inserted 0x3000 (0x1000 ∷ 0x2000 ∷ [])) (insert_in_sortedbin two_free 0x3000)
insert_in_sortedbin-Inserted_example =
    insert_in_sortedbin-Inserted two_free 0x3000 (0x1000 ∷ 0x2000 ∷ []) two_free-IsSortedBin
      (omega arith) (omega arith) (omega arith)

take_from_sortedbin-BestFit_example :
    Ends (BestFit two_free 128 (0x1000 ∷ 0x2000 ∷ [])) (take_from_sortedbin two_free 128)
take_from_sortedbin-BestFit_example =
    take_from_sortedbin-BestFit two_free 128 (0x1000 ∷ 0x2000 ∷ []) two_free-IsSortedBin
      (omega arith)

cut_void-overruns_example : void_end two_free < void_end (cut_void two_free 64 64)
cut_void-overruns_example =
    cut_void-overruns two_free 64 (omega arith) (omega arith) (omega arith) (omega arith)
      (omega arith)

suits : find_suitable_bin two_free 64 ≡ some 2
unfolding find_suitable_bin
suits = refl

aligned : aligned_size 50 ≡ 64
unfolding aligned_size
aligned = refl

kfree-kmalloc_example :
    Ends (λ r. r.1 ≡ 0x4008) (kfree two_free 0x4008 >>= λ g. kmalloc 0xc0200000 g 50)
kfree-kmalloc_example =
    kfree-kmalloc 0xc0200000 two_free 2 50 0x4008 refl (omega arith) (omega arith) (omega arith)
      refl (sym aligned) (ap (find_suitable_bin two_free) aligned ∙ suits) (omega arith)

-- the heap when the chunk at 0x4000 is freed
abbrev freed : Heap
freed = mark_released (push_to_sizebin two_free 2 0x4000) 0x4000

kfree_once : kfree two_free 0x4008 ≡ done freed
unfolding kfree release store_chunk find_suitable_bin
kfree_once = refl

kfree-kfree_example : kfree freed 0x4008 ≡ panic
kfree-kfree_example = kfree-kfree two_free freed 0x4008 (omega arith) kfree_once

-- a chunk of 256 bytes is split for a request of 120 bytes, and the rest is kept in the sorted bin
kmalloc_split :
    Ends
      (λ r. (r.1 ≡ 0x2008) × ((r.0.bins 5).counter ≡ 2) × ((r.0.bins 5).last ≡ 0x2080))
      (kmalloc 0xc0200000 two_free 120)
unfolding kmalloc allocate aligned_size find_free_chunk take_from_sizebin find_suitable_bin
    take_from_sortedbin find_large erase_from_sortedbin split_chunk create_chunk kfree release
    store_chunk insert_in_sortedbin link_between mark_released mark_found
kmalloc_split = (refl, refl, refl)
