-- ===== src/Libc/Heap.antt =====
-- The programs' heap, src/libc/stdlib/malloc.c and src/libc/stdlib/free.c. The functions on bins and
-- chunks are the text of the kernel's, and are those of `Heap`; what differs is here. What `sbrk`
-- returns is an argument, NULL where it fails.
use polx.Base.{
  ℕ, ◌+◌, ◌-◌, ◌%◌, ◌^◌, ◌≤◌, ◌<◌, ◌≡◌, refl, ap, ◌≢◌, ◌⊎◌, inl, inr, Bool, true, false, not,
  Option, none, some, arith, leb, ◌==◌, if◌then◌else◌, ne→==, lt→not_leb, Bool-cases, Ptr, null,
  update, add_word, sub_word, Outcome, done, ◌>>=◌, Ends,
}
use polx.Heap.{
  Heap, chunk2mem, mem2chunk, void_chunk_update, init_bins, init_bin, sizebins, sortedbin_idx,
  release, find_free_chunk, aligned_size, cut_void,
}
use polx.Heap.Void.{cut_void-wraps}
use polx.Heap.Twice.{IfDone, IfDone-map, IfDone-value, release-is_free}

pub record Malloc : Type 0 where
  pub heap : Heap
  pub heap_size : ℕ

-- `none` means that the program exits
unfoldable pub malloc_init : Malloc → (heap_start heap_end : Ptr) → Option Malloc
malloc_init m start end =
    let size = sub_word end start in
    let bins = update (init_bins sizebins 0 32 m.heap.bins) sortedbin_idx (init_bin 0) in
    if start == null
    then none
    else some (record {
      heap = record (void_chunk_update m.heap start size) { bins = bins; is_initialized = true };
      heap_size = size;
    })

unfoldable pub expand_size : ℕ → ℕ
expand_size n = if n % 4096 == 0 then n else add_word (n - n % 4096) 4096

-- `none` is the result -1
unfoldable pub heap_expand : Malloc → (size : ℕ) → (sbrk : Ptr) → Option Malloc
heap_expand m size sbrk =
    let h = m.heap in
    let prev_size = (h.chunks h.void_chunk).size in
    if sbrk == null
    then none
    else some (record {
      heap = void_chunk_update h h.void_chunk (add_word (expand_size size) prev_size);
      heap_size = add_word m.heap_size (expand_size size);
    })

-- `malloc` when the heap is ready
unfoldable pub allocate : Malloc → (size : ℕ) → (sbrk : Ptr) → Outcome (Malloc × Ptr)
allocate m size sbrk = do
  let aligned = aligned_size size
  (g, found) ← find_free_chunk m.heap aligned
  let tmp_size = (g.chunks m.heap.void_chunk).size
  if not (found == null)
      then done (record m { heap = g }, chunk2mem found)
      else if leb aligned tmp_size
      then done (record m { heap = cut_void g aligned tmp_size }, chunk2mem m.heap.void_chunk)
      else elim (heap_expand (record m { heap = g }) aligned sbrk) [
        | none ↦ done (record m { heap = g }, null)
        | some e ↦
            done (record e { heap = cut_void e.heap aligned tmp_size }, chunk2mem m.heap.void_chunk)
      ]

unfoldable pub malloc :
    Malloc
    → (heap_start heap_end : Ptr) → (size : ℕ) → (sbrk : Ptr) → Outcome (Option (Malloc × Ptr))
malloc m start end size sbrk =
    elim (if m.heap.is_initialized then some m else malloc_init m start end) [
      | none ↦ done none
      | some ready ↦ (allocate ready size sbrk >>= λ r. done (some r))
    ]

unfoldable pub free : Heap → (ptr : Ptr) → Outcome Heap
free h ptr =
    if ptr == null
    then done h
    else if not h.is_initialized
    then done h
    else if (h.chunks (mem2chunk ptr)).is_free
    then done h
    else release h (mem2chunk ptr)

-- Where the heap grows, what is left over is computed from the size before: the void chunk is then given the 2^30 bytes of its field less what was missing, however much memory there is.
pub allocate-grown :
    (m : Malloc) (g : Heap) (size : ℕ) (sbrk : Ptr)
    → find_free_chunk m.heap (aligned_size size) ≡ done (g, null)
    → g.void_chunk ≡ m.heap.void_chunk
    → sbrk ≢ null
    → 16 ≤ aligned_size size
    → (g.chunks m.heap.void_chunk).size < aligned_size size
    → aligned_size size < 2 ^ 29
    → m.heap.void_chunk + aligned_size size < 2 ^ 32
    → Ends
        (λ r.
          (r.0.heap.chunks r.0.heap.void_chunk).size + aligned_size size
          ≡ 2 ^ 30 + (g.chunks m.heap.void_chunk).size)
        (allocate m size sbrk)
unfolding allocate heap_expand
allocate-grown m g size sbrk nothing kept more lo short small fits = rw nothing (
    rw (lt→not_leb _ _ short) (
      rw (ne→== sbrk null more) (
        cut_void-wraps
          (void_chunk_update g g.void_chunk
            (add_word (expand_size (aligned_size size)) (g.chunks g.void_chunk).size))
          (aligned_size size) (g.chunks m.heap.void_chunk).size lo short small (rw kept fits))))

free-idle :
    (h : Heap) (p : Ptr)
    → p ≢ null
    → (h.is_initialized ≡ false) ⊎ ((h.chunks (mem2chunk p)).is_free ≡ true)
    → free h p ≡ done h
unfolding free
free-idle h p nz (inl none_yet) = rw (ne→== p null nz) (ground (arith, none_yet))
free-idle h p nz (inr is_free) = rw (ne→== p null nz) (elim (Bool-cases h.is_initialized) [
  | inl ready ↦ rw (ready, is_free) refl
  | inr none_yet ↦ ground (arith, none_yet)
])

free-busy :
    (h : Heap) (p : Ptr)
    → p ≢ null
    → h.is_initialized ≡ true
    → (h.chunks (mem2chunk p)).is_free ≡ false
    → free h p ≡ release h (mem2chunk p)
unfolding free
free-busy h p nz ready in_use =
    rw (ne→== p null nz)
      (rw in_use (ap (λ (b : Bool). if not b then done h else release h (mem2chunk p)) ready))

free-IfDone :
    (P : Heap → Type 0) (h : Heap) (p : Ptr)
    → p ≢ null
    → (free h p ≡ done h → P h)
    → IfDone P (release h (mem2chunk p))
    → IfDone P (free h p)
free-IfDone P h p nz idle is = elim (Bool-cases h.is_initialized) [
  | inl ready ↦ elim (Bool-cases (h.chunks (mem2chunk p)).is_free) [
    | inl is_free ↦ (let e = free-idle h p nz (inr is_free) in rw e (idle e))
    | inr in_use ↦ rw (free-busy h p nz ready in_use) is
  ]
  | inr none_yet ↦ (let e = free-idle h p nz (inl none_yet) in rw e (idle e))
]

-- Once a pointer is freed, freeing it again changes nothing, whatever bin its chunk went to.
pub free-free : (h g : Heap) (p : Ptr) → p ≢ null → free h p ≡ done g → free g p ≡ done g
free-free h g p nz e =
    IfDone-value (λ g. free g p ≡ done g) (free h p) g
      (free-IfDone (λ g. free g p ≡ done g) h p nz (λ is. is)
        (IfDone-map
          (λ g. (g.is_initialized ≡ h.is_initialized) × ((g.chunks (mem2chunk p)).is_free ≡ true))
          (λ g. free g p ≡ done g) (release h (mem2chunk p)) (λ g r. free-idle g p nz (inr r.1))
          (release-is_free h (mem2chunk p))))
      e
