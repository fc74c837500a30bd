-- ===== src/Heap.antt =====
-- The kernel's heap, src/kernel/klib/kmalloc.c and src/kernel/klib/kfree.c. The header of a chunk is
-- a record at the chunk's address; chunks lie on multiples of 16, the size of a header, so headers
-- do not overlap. The bins are a function of the index, 5 is the sorted one.
pub mod Sizes
pub mod Sorted
pub mod Bins
pub mod Void
pub mod Twice
mod Tests
use polx.Base.{
  ℕ, zero, suc, ◌+◌, ◌-◌, ◌%◌, ◌^◌, Bool, true, false, not, ◌&&◌, Option, none, some, ltb, leb,
  ◌==◌, if◌then◌else◌, Ptr, null, update, add_word, sub_word, Outcome, done, panic, fault,
  out_of_fuel, ◌>>=◌,
}

pub record Chunk : Type 0 where
  pub size : ℕ
  pub is_free : Bool
  pub prev_free : Bool
  pub prev_size : ℕ
  pub prev : Ptr
  pub next : Ptr

abbrev pub Chunks : Type 0
Chunks = Ptr → Chunk

pub record Bin : Type 0 where
  pub stored_size : ℕ
  pub counter : ℕ
  pub first : Ptr
  pub last : Ptr

pub record Heap : Type 0 where
  pub chunks : Chunks
  pub bins : ℕ → Bin
  pub void_chunk : Ptr
  pub is_initialized : Bool

abbrev pub sizebins : ℕ
sizebins = 5

abbrev pub sortedbin_idx : ℕ
sortedbin_idx = 5

abbrev pub chunk_alignment : ℕ
chunk_alignment = 16

abbrev pub minimal_chunk_size : ℕ
minimal_chunk_size = 16

abbrev pub chunk_data_offset : ℕ
chunk_data_offset = 8

abbrev pub chunk2mem : Ptr → Ptr
chunk2mem p = add_word p chunk_data_offset

abbrev pub mem2chunk : Ptr → Ptr
mem2chunk mem = sub_word mem chunk_data_offset

-- the field has 30 bits
abbrev pub chunk_size : ℕ → ℕ
chunk_size n = (if ltb n minimal_chunk_size then minimal_chunk_size else n) % 2 ^ 30

unfoldable pub create_chunk : Chunks → (mem_addr aligned_size : ℕ) → Chunks
create_chunk h a n =
    update h a (record (h a) { size = chunk_size n; is_free = false; prev_free = false })

abbrev pub set_free : Chunks → Ptr → Bool → Chunks
set_free h a b = update h a (record (h a) { is_free = b })

abbrev pub set_next : Chunks → Ptr → Ptr → Chunks
set_next h a v = update h a (record (h a) { next = v })

abbrev pub set_prev : Chunks → Ptr → Ptr → Chunks
set_prev h a v = update h a (record (h a) { prev = v })

abbrev pub set_prev_info : Chunks → Ptr → Bool → ℕ → Chunks
set_prev_info h a b n = update h a (record (h a) { prev_free = b; prev_size = n })

abbrev pub init_bin : ℕ → Bin
init_bin n = record { stored_size = n; counter = 0; first = null; last = null }

-- the loop over the bins of one size
unfoldable pub init_bins : (rounds i size : ℕ) → (ℕ → Bin) → ℕ → Bin
init_bins zero i size bins = bins
init_bins (suc n) i size bins =
    init_bins n (i + 1) (add_word size chunk_alignment) (update bins i (init_bin size))

-- `VM_KMALLOC_START` is `kernel_end + 0x1000` with no parentheses, in both places of the source.
unfoldable pub malloc_init : Heap → (kernel_end : ℕ) → Heap
unfolding init_bins
malloc_init h kernel_end =
    let start = add_word kernel_end 0x1000 in
    let void_size = add_word (sub_word 0xd0000000 kernel_end) 0x1000 in
    record h {
      chunks = set_free (create_chunk h.chunks start void_size) start true;
      bins = update (init_bins sizebins 0 32 h.bins) sortedbin_idx (init_bin 0);
      void_chunk = start;
      is_initialized = true;
    }

abbrev pub set_bin : Heap → ℕ → Bin → Heap
set_bin h i b = record h { bins = update h.bins i b }

unfoldable pub pop_from_sizebin : Heap → (i : ℕ) → Heap × Ptr
pop_from_sizebin h i =
    let b = h.bins i in
    (
      set_bin h i (record b {
        first = if ltb 1 b.counter then (h.chunks b.first).next else null;
        counter = sub_word b.counter 1;
      }),
      b.first,
    )

unfoldable pub erase_from_sortedbin : Heap → Ptr → Heap
erase_from_sortedbin h chunk =
    let b = h.bins sortedbin_idx in
    let prev_chunk = if b.counter == 1 then null else (h.chunks chunk).prev in
    let next_chunk = if b.counter == 1 then null else (h.chunks chunk).next in
    let g = if prev_chunk == null then h.chunks else set_next h.chunks prev_chunk next_chunk in
    record h {
      chunks = if next_chunk == null then g else set_prev g next_chunk prev_chunk;
      bins = update h.bins sortedbin_idx (record b {
        first = if prev_chunk == null then next_chunk else b.first;
        last = if next_chunk == null then prev_chunk else b.last;
        counter = sub_word b.counter 1;
      });
    }

-- the loop over the bins of one size, for the bin that stores chunks of the size
find_bin : (rounds i : ℕ) → (ℕ → Bin) → (size : ℕ) → Option ℕ
find_bin zero i bins size = none
find_bin (suc n) i bins size =
    let rest = find_bin n (i + 1) bins size in if (bins i).stored_size == size then some i else rest

unfoldable pub find_suitable_bin : Heap → ℕ → Option ℕ
unfolding find_bin
find_suitable_bin h size = find_bin sizebins 0 h.bins size

unfoldable pub push_to_sizebin : Heap → (i : ℕ) → (chunk : Ptr) → Heap
push_to_sizebin h i chunk =
    let b = h.bins i in
    record h {
      chunks = set_next h.chunks chunk b.first;
      bins = update h.bins i (record b { first = chunk; counter = add_word b.counter 1 });
    }

-- `chunk` goes between `before` and `after`; NULL is the end of the list
unfoldable pub link_between : Chunks → (chunk before after : Ptr) → Chunks
link_between h chunk before after =
    let g = set_prev (set_next h chunk after) chunk before in
    let g' = if after == null then g else set_prev g after chunk in
    if before == null then g' else set_next g' before chunk

-- the search for a place inside the list, on fuel; a list that ends first leaves all as it is
unfoldable pub find_place : (fuel : ℕ) → Chunks → (chunk tmp : Ptr) → Outcome Chunks
find_place zero h chunk tmp = if tmp == null then done h else out_of_fuel
find_place (suc n) h chunk tmp =
    let after = (h tmp).next in
    let rest = find_place n h chunk after in
    if tmp == null
    then done h
    else if after == null
    then done h
    else if leb (h tmp).size (h chunk).size && leb (h chunk).size (h after).size
    then done (link_between h chunk tmp after)
    else rest

unfoldable pub insert_in_sortedbin : Heap → (chunk : Ptr) → Outcome Heap
insert_in_sortedbin h chunk =
    let b = h.bins sortedbin_idx in
    let size = (h.chunks chunk).size in
    let counted = λ (c : Chunks). λ (first last : Ptr). record h {
      chunks = c;
      bins =
          update h.bins sortedbin_idx
            (record b { first = first; last = last; counter = add_word b.counter 1 });
    } in
    let at_start = done (counted (link_between h.chunks chunk null b.first) chunk b.last) in
    let at_end =
      if b.last == null
      then fault
      else done (counted (link_between h.chunks chunk b.last null) b.first chunk) in
    let inside =
      (find_place b.counter h.chunks chunk b.first >>= λ c. done (counted c b.first b.last)) in
    if b.counter == 0
    then done (counted (link_between h.chunks chunk null null) chunk chunk)
    else if b.first == null
    then fault
    else if ltb size (h.chunks b.first).size
    then at_start
    else if b.counter == 1
    then done (counted (link_between h.chunks chunk b.first null) b.first chunk)
    else if b.last == null
    then fault
    else if leb (h.chunks b.last).size size
    then at_end
    else inside

-- the bin of the chunk's size, or the sorted one
unfoldable pub store_chunk : Heap → (chunk : Ptr) → Outcome Heap
store_chunk h chunk = elim (find_suitable_bin h (h.chunks chunk).size) [
  | none ↦ insert_in_sortedbin h chunk
  | some i ↦ done (push_to_sizebin h i chunk)
]

-- the headers of the chunk and of the one behind it
unfoldable pub mark_released : Heap → (chunk : Ptr) → Heap
mark_released h chunk =
    let size = (h.chunks chunk).size in
    let next_chunk = add_word chunk size in
    let g =
      if ltb next_chunk h.void_chunk
      then set_prev_info h.chunks next_chunk true size
      else h.chunks in
    record h { chunks = set_free g chunk true }

-- what `kfree` does when its checks are passed
unfoldable pub release : Heap → (chunk : Ptr) → Outcome Heap
release h chunk = do g ← store_chunk h chunk; done (mark_released g chunk)

unfoldable pub kfree : Heap → (ptr : Ptr) → Outcome Heap
kfree h ptr =
    if ptr == null
    then done h
    else if not h.is_initialized
    then panic
    else if (h.chunks (mem2chunk ptr)).is_free
    then panic
    else release h (mem2chunk ptr)

-- the chunk that is split stays at its address
unfoldable pub split_chunk : Heap → (chunk_to_split : Ptr) → (new_size : ℕ) → Outcome Heap
split_chunk h chunk new_size =
    let old_size = (h.chunks chunk).size in
    let rest = add_word chunk new_size in
    let c = create_chunk h.chunks chunk new_size in
    let c' = create_chunk c rest (sub_word old_size new_size) in
    if leb minimal_chunk_size (sub_word old_size new_size)
    then kfree (record h { chunks = c' }) (chunk2mem rest)
    else done h

-- the first chunk from `tmp` on that is large enough
unfoldable pub find_large : (fuel : ℕ) → Chunks → (sought_size : ℕ) → (tmp : Ptr) → Outcome Ptr
find_large zero h sought tmp = if tmp == null then done null else out_of_fuel
find_large (suc n) h sought tmp =
    let rest = find_large n h sought (h tmp).next in
    if tmp == null then done null else if leb sought (h tmp).size then done tmp else rest

unfoldable pub take_from_sizebin : Heap → (sought_size : ℕ) → Heap × Ptr
take_from_sizebin h sought = elim (find_suitable_bin h sought) [
  | none ↦ (h, null)
  | some i ↦ if ltb 0 (h.bins i).counter then pop_from_sizebin h i else (h, null)
]

unfoldable pub take_from_sortedbin : Heap → (sought_size : ℕ) → Outcome (Heap × Ptr)
take_from_sortedbin h sought =
    let b = h.bins sortedbin_idx in
    if ltb 0 b.counter
    then (find_large b.counter h.chunks sought b.first >>= λ found.
        done (if found == null then h else erase_from_sortedbin h found, found))
    else done (h, null)

-- the headers after a chunk is found
unfoldable pub mark_found : Heap → (found_chunk : Ptr) → Heap
mark_found h found =
    let adjacent = add_word found (h.chunks found).size in
    record h { chunks = set_free (set_prev_info h.chunks adjacent false 0) found false }

unfoldable pub find_free_chunk : Heap → (sought_size : ℕ) → Outcome (Heap × Ptr)
find_free_chunk h sought = do
  let popped = take_from_sizebin h sought
  (g, found) ← if popped.1 == null then take_from_sortedbin popped.0 sought else done popped
  if found == null
      then done (g, null)
      else do s ← split_chunk g found sought; done (mark_found s found, found)

unfoldable pub aligned_size : ℕ → ℕ
aligned_size size =
    let up =
      if ltb 0 (size % chunk_alignment)
      then add_word (size - size % chunk_alignment) chunk_alignment
      else size in
    if ltb up (add_word size chunk_data_offset) then add_word up chunk_alignment else up

abbrev pub void_chunk_update : Heap → (new_addr new_size : ℕ) → Heap
void_chunk_update h a n = record h {
  chunks = set_free (create_chunk h.chunks a n) a true;
  void_chunk = a;
}

-- a chunk from the start of the void chunk, whose size was `tmp_size`
unfoldable pub cut_void : Heap → (aligned tmp_size : ℕ) → Heap
cut_void h aligned tmp_size =
    void_chunk_update (record h { chunks = create_chunk h.chunks h.void_chunk aligned })
      (add_word h.void_chunk aligned) (sub_word tmp_size aligned)

-- `kmalloc` when the heap is ready
unfoldable pub allocate : Heap → (size : ℕ) → Outcome (Heap × Ptr)
allocate h size = do
  let aligned = aligned_size size
  (g, found) ← find_free_chunk h aligned
  let tmp_size = (g.chunks h.void_chunk).size
  if not (found == null)
      then done (g, chunk2mem found)
      else if leb aligned tmp_size
      then done (cut_void g aligned tmp_size, chunk2mem h.void_chunk)
      else panic

unfoldable pub kmalloc : (kernel_end : ℕ) → Heap → (size : ℕ) → Outcome (Heap × Ptr)
kmalloc kernel_end h size = allocate (if h.is_initialized then h else malloc_init h kernel_end) size
