-- ===== src/Heap/Bins.antt =====
-- The bins of chunks of one size, and a chunk that is freed and allocated again.
use polx.Base.{
  ℕ, zero, suc, ◌+◌, ◌^◌, ◌<◌, ◌≡◌, refl, sym, ap, ◌∙◌, ◌≢◌, Bool, true, false, not, some, List, [],
  ◌∷◌, arith, if◌then◌else◌, lt→ltb, ne→==, ==_self, lt→not_leb, length, Ptr, null, sub_word, done,
  panic, ◌>>=◌, Ends, Ends-bind, head, NotIn,
}
use mathlib.Core.Path.{subst}
use polx.Heap.{
  Chunks, Heap, Bin, sizebins, chunk2mem, mem2chunk, set_next, pop_from_sizebin, push_to_sizebin,
  find_bin, find_suitable_bin, store_chunk, mark_released, release, kfree, split_chunk,
  take_from_sizebin, find_free_chunk, aligned_size, allocate, malloc_init, kmalloc,
}

-- The `next` links lead through the chunks, to NULL.
abbrev pub Linked : (Ptr → Ptr) → List Ptr → Type 0
Linked next [] = Unit
Linked next (t ∷ ts) = (t ≢ null) × (next t ≡ head ts) × Linked next ts

-- Bin `i` is a stack of the chunks `ts`.
pub record IsStack (h : Heap) (i : ℕ) (ts : List Ptr) : Type 0 where
  pub linked : Linked (λ a. (h.chunks a).next) ts
  pub first : (h.bins i).first ≡ head ts
  pub count : (h.bins i).counter ≡ length ts

Linked-push :
    (h : Chunks) (c v : Ptr) (ts : List Ptr)
    → NotIn c ts
    → Linked (λ a. (h a).next) ts
    → Linked (λ a. (set_next h c v a).next) ts
Linked-push h c v [] out l = tt
Linked-push h c v (t ∷ ts) out l = (l.0, ground (arith, out.0, l.1), Linked-push h c v ts out.1 l.2)

pub push_to_sizebin-IsStack :
    (h : Heap) (i : ℕ) (c : Ptr) (ts : List Ptr)
    → IsStack h i ts
    → c ≢ null
    → NotIn c ts
    → length ts + 1 < 2 ^ 32
    → IsStack (push_to_sizebin h i c) i (c ∷ ts)
unfolding push_to_sizebin
push_to_sizebin-IsStack h i c ts is nz out small = record {
  linked = (nz, ground (arith, is.first), Linked-push h.chunks c (h.bins i).first ts out is.linked);
  first = ground arith;
  count = rw (==_self i) (omega (arith, is.count, small));
}

pub pop_from_sizebin-IsStack :
    (h : Heap) (i : ℕ) (c : Ptr) (ts : List Ptr)
    → IsStack h i (c ∷ ts)
    → length ts + 1 < 2 ^ 32
    → ((pop_from_sizebin h i).1 ≡ c) × IsStack (pop_from_sizebin h i).0 i ts
unfolding pop_from_sizebin
pop_from_sizebin-IsStack h i c [] is small = (
  is.first,
  record {
    linked = tt;
    first = ground (arith, is.count);
    count = rw (==_self i) (omega (arith, is.count, small));
  },
)
pop_from_sizebin-IsStack h i c (t ∷ ts) is small = (
  is.first,
  record {
    linked = is.linked.2;
    first = ground (arith, is.count, is.first, is.linked.1);
    count = rw (==_self i) (omega (arith, is.count, small));
  },
)

find_bin-same :
    (rounds i : ℕ) (bins bins' : ℕ → Bin) (size : ℕ)
    → ((j : ℕ) → (bins' j).stored_size ≡ (bins j).stored_size)
    → find_bin rounds i bins' size ≡ find_bin rounds i bins size
unfolding find_bin
find_bin-same zero i bins bins' size same = refl
find_bin-same (suc n) i bins bins' size same =
    rw (same i) (rw (find_bin-same n (i + 1) bins bins' size same) refl)

-- a chunk that was released into bin `i`
record Released (h : Heap) (i : ℕ) (c : Ptr) (g : Heap) : Type 0 where
  size : (g.chunks c).size ≡ (h.chunks c).size
  is_free : (g.chunks c).is_free ≡ true
  first : (g.bins i).first ≡ c
  counter : 0 < (g.bins i).counter
  stored : (j : ℕ) → (g.bins j).stored_size ≡ (h.bins j).stored_size
  is_initialized : g.is_initialized ≡ h.is_initialized

push-Released :
    (h : Heap) (i : ℕ) (c : Ptr)
    → (h.bins i).counter + 1 < 2 ^ 32
    → Released h i c (mark_released (push_to_sizebin h i c) c)
unfolding mark_released push_to_sizebin
push-Released h i c small = record {
  size = ground arith;
  is_free = ground arith;
  first = ground arith;
  counter = ground arith;
  stored = λ j. ground arith;
  is_initialized = refl;
}

module _ (h : Heap) (c : Ptr) where
  store_chunk-sized :
      (i : ℕ)
      → find_suitable_bin h (h.chunks c).size ≡ some i
      → store_chunk h c ≡ done (push_to_sizebin h i c)
  unfolding store_chunk
  store_chunk-sized i e = rw (e, store_chunk) refl

  split_chunk-whole : (n : ℕ) → (h.chunks c).size ≡ n → split_chunk h c n ≡ done h
  unfolding split_chunk
  split_chunk-whole n e = rw (lt→not_leb 16 (sub_word (h.chunks c).size n) (omega (arith, e))) refl

take_from_sizebin-popped :
    (h : Heap) (n i : ℕ)
    → find_suitable_bin h n ≡ some i
    → 0 < (h.bins i).counter
    → take_from_sizebin h n ≡ pop_from_sizebin h i
unfolding take_from_sizebin
take_from_sizebin-popped h n i e busy = rw (e, take_from_sizebin) (rw (lt→ltb _ _ busy) refl)

popped_first :
    (g : Heap) (i : ℕ) (c : Ptr)
    → (g.bins i).first ≡ c
    → pop_from_sizebin g i ≡ ((pop_from_sizebin g i).0, c)
unfolding pop_from_sizebin
popped_first g i c e = rw e refl

popped_size :
    (g : Heap) (i : ℕ) (c : Ptr) (n : ℕ)
    → (g.chunks c).size ≡ n
    → ((pop_from_sizebin g i).0.chunks c).size ≡ n
unfolding pop_from_sizebin
popped_size g i c n e = e

-- the bin of the size gives its first chunk, whole
find_free_chunk-popped :
    (g : Heap) (n i : ℕ) (c : Ptr)
    → find_suitable_bin g n ≡ some i
    → 0 < (g.bins i).counter
    → (g.bins i).first ≡ c
    → (g.chunks c).size ≡ n
    → c ≢ null
    → Ends (λ r. r.1 ≡ c) (find_free_chunk g n)
unfolding find_free_chunk
find_free_chunk-popped g n i c suits busy first size nz =
    let popped : pop_from_sizebin g i ≡ ((pop_from_sizebin g i).0, c) = popped_first g i c first in
    let whole = split_chunk-whole (pop_from_sizebin g i).0 c n (popped_size g i c n size) in
    let taken = take_from_sizebin-popped g n i suits busy ∙ popped in
    rw taken (rw (ne→== c null nz) (rw (ne→== c null nz) (rw whole refl)))

again :
    (g : Heap) (size : ℕ) (c p : Ptr)
    → Ends (λ r. r.1 ≡ c) (find_free_chunk g (aligned_size size))
    → c ≢ null
    → chunk2mem c ≡ p
    → Ends (λ r. r.1 ≡ p) (allocate g size)
unfolding allocate
again g size c p finds nz e =
    Ends-bind (λ r. r.1 ≡ c) (λ r. r.1 ≡ p) (find_free_chunk g (aligned_size size)) _ finds
      (λ r is. rw is (rw (ne→== c null nz) e))

kmalloc-ready :
    (kernel_end : ℕ) (h : Heap) (size : ℕ)
    → h.is_initialized ≡ true
    → kmalloc kernel_end h size ≡ allocate h size
unfolding kmalloc
kmalloc-ready kernel_end h size ready =
    ap (λ (b : Bool). allocate (if b then h else malloc_init h kernel_end) size) ready

kfree-ready :
    (h : Heap) (p : Ptr)
    → h.is_initialized ≡ true
    → p ≢ null
    → kfree h p ≡ (if (h.chunks (mem2chunk p)).is_free then panic else release h (mem2chunk p))
unfolding kfree
kfree-ready h p ready nz = rw (ne→== p null nz) (
    ap
      (λ (b : Bool).
        if not b
        then panic
        else if (h.chunks (mem2chunk p)).is_free
        then panic
        else release h (mem2chunk p))
      ready)

release-sized :
    (h : Heap) (i : ℕ) (c : Ptr)
    → find_suitable_bin h (h.chunks c).size ≡ some i
    → release h c ≡ done (mark_released (push_to_sizebin h i c) c)
unfolding release
release-sized h i c e = rw (store_chunk-sized h c i e) refl

-- A chunk in use that one of the bins of one size suits is freed, and the next request of its size gets it again.
pub kfree-kmalloc :
    (kernel_end : ℕ) (h : Heap) (i size : ℕ) (p : Ptr)
    → h.is_initialized ≡ true
    → p < 2 ^ 32
    → p ≢ 0
    → p ≢ 8
    → (h.chunks (mem2chunk p)).is_free ≡ false
    → (h.chunks (mem2chunk p)).size ≡ aligned_size size
    → find_suitable_bin h (aligned_size size) ≡ some i
    → (h.bins i).counter + 1 < 2 ^ 32
    → Ends (λ r. r.1 ≡ p) (kfree h p >>= λ g. kmalloc kernel_end g size)
unfolding find_suitable_bin
kfree-kmalloc kernel_end h i size p ready small nz not_8 in_use sized suits room =
    let c = mem2chunk p in
    let away : c ≢ null = λ e. absurd (omega (arith, e, small, nz, not_8)) in
    let back : chunk2mem c ≡ p = omega (arith, small) in
    let r = push-Released h i c room in
    let g = mark_released (push_to_sizebin h i c) c in
    let same : find_suitable_bin g (aligned_size size) ≡ some i =
      find_bin-same sizebins 0 h.bins g.bins (aligned_size size) r.stored ∙ suits in
    let suits_c : find_suitable_bin h (h.chunks c).size ≡ some i =
      subst (λ (n : ℕ). find_suitable_bin h n ≡ some i) (sym sized) suits in
    rw (kfree-ready h p ready nz) (
      rw in_use (
        rw (release-sized h i c suits_c) (
          rw (kmalloc-ready kernel_end g size (r.is_initialized ∙ ready)) (
            again g size c p
              (find_free_chunk-popped g (aligned_size size) i c same r.counter r.first
                (r.size ∙ sized) away)
              away back))))
