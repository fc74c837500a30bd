-- ===== src/Pmm/Frame.antt =====
-- Single frames: `pmm_get_frame` and `pmm_free_frame`.
use polx.Base.{
  Ends-map, ℕ, zero, suc, ◌+◌, ◌-◌, ◌*◌, ◌/◌, ◌^◌, ◌≤◌, ◌<◌, ◌≡◌, refl, ap, ◌∙◌, ◌≢◌, inl, inr,
  Bool, true, false, none, some, arith, ℕ_discrete, ltb, ◌==◌, if◌then◌else◌, ltb→lt, lt→ltb,
  Bool-cases, Option-cases, add_word, mul_word, done, panic, Ends,
}
use polx.Pmm.{
  Pmm, frame_size, bit_set, idx_set, idx_unset, find_free, search_frame, get_frame, free_frame,
}
use polx.Pmm.Bits.{used, IsBytes, bit_set-IsBytes, used-bit_set}
use polx.Pmm.Count.{count_free, count_free-update, count_free-pos, count_free-le}

-- The frames up to `kernel_end_idx` hold the kernel and stay taken, and `free_frames` counts the
-- free ones. A 32-bit `total_memory` has at most 2 ^ 20 frames.
pub record IsValid (p : Pmm) : Type 0 where
  pub bytes : IsBytes p.bitmap
  pub reserved : (j : ℕ) → j ≤ p.kernel_end_idx → used p.bitmap j ≡ true
  pub room : p.total_frames ≤ 2 ^ 20
  pub kernel : p.kernel_end_idx < p.total_frames
  pub start : p.last_free_idx ≤ p.total_frames
  pub counted : p.free_frames ≡ count_free p.total_frames (used p.bitmap)

-- `q` is `p` with the frame of index `i` taken (`v` is true) or given back, and nothing else changed.
pub record Changed (i : ℕ) (v : Bool) (p q : Pmm) : Type 0 where
  pub bits : (j : ℕ) → used q.bitmap j ≡ (if i == j then v else used p.bitmap j)
  pub total : q.total_frames ≡ p.total_frames
  pub kernel : q.kernel_end_idx ≡ p.kernel_end_idx
  pub valid : IsValid q

module _ {p : Pmm} (i : ℕ) (inside : i < p.total_frames) (v : IsValid p) where
  pub idx_set-Changed : used p.bitmap i ≡ false → Changed i true p (idx_set p i)
  unfolding idx_set
  idx_set-Changed free = record {
    bits = bits;
    total = refl;
    kernel = refl;
    valid = record {
      bytes = bit_set-IsBytes p.bitmap i 1 (omega arith) v.bytes;
      reserved = λ j h. ground (arith, bits j, v.reserved j h);
      room = v.room;
      kernel = v.kernel;
      start = v.start;
      counted = ground (
        arith,
        v.counted,
        v.room,
        count_free-le p.total_frames (used p.bitmap),
        count_free-update p.total_frames i (used p.bitmap) (used (bit_set p.bitmap i 1)) true bits,
      );
    };
  }
    where
      bits : (j : ℕ) → used (bit_set p.bitmap i 1) j ≡ (if i == j then true else used p.bitmap j)
      bits j = used-bit_set p.bitmap i j 1 (omega arith) v.bytes

  pub idx_unset-Changed :
      used p.bitmap i ≡ true → p.kernel_end_idx < i → Changed i false p (idx_unset p i)
  unfolding idx_unset
  idx_unset-Changed taken above = record {
    bits = bits;
    total = refl;
    kernel = refl;
    valid = record {
      bytes = bit_set-IsBytes p.bitmap i 0 (omega arith) v.bytes;
      reserved = λ j h. ground (arith, bits j, v.reserved j h);
      room = v.room;
      kernel = v.kernel;
      start = v.start;
      counted = ground (
        arith,
        v.counted,
        v.room,
        count_free-le p.total_frames (used p.bitmap),
        count_free-le p.total_frames (used (bit_set p.bitmap i 0)),
        count_free-update p.total_frames i (used p.bitmap) (used (bit_set p.bitmap i 0)) false bits,
      );
    };
  }
    where
      bits : (j : ℕ) → used (bit_set p.bitmap i 0) j ≡ (if i == j then false else used p.bitmap j)
      bits j = used-bit_set p.bitmap i j 0 (omega arith) v.bytes

-- Any search that succeeds finds the first free frame from `i` on.
record First (n i j : ℕ) (b : ℕ → ℕ) : Type 0 where
  lower : i ≤ j
  upper : j < i + n
  free : used b j ≡ false

find_free-First : (n i : ℕ) (b : ℕ → ℕ) (j : ℕ) → find_free n i b ≡ some j → First n i j b
unfolding find_free
find_free-First zero i b j h = cc
find_free-First (suc n) i b j h = ground (arith, find_free-First n (i + 1) b j)

find_free-none :
    (n i : ℕ) (b : ℕ → ℕ) (j : ℕ) → find_free n i b ≡ none → i ≤ j → j < i + n → used b j ≡ true
unfolding find_free
find_free-none zero i b j h lo hi = absurd (omega arith)
find_free-none (suc n) i b j h lo hi = ground (arith, find_free-none n (i + 1) b j, ap (used b))

-- What `pmm_get_frame` gives from `p`: the address of a free frame that is now taken.
pub record Got (p : Pmm) (out : ℕ × Pmm) : Type 0 where
  pub idx : ℕ
  pub was_free : used p.bitmap idx ≡ false
  pub addr : out.0 ≡ idx * frame_size
  pub inside : idx < p.total_frames
  pub changed : Changed idx true p out.1

search_frame-none :
    (p : Pmm)
    → find_free (p.total_frames - p.last_free_idx) p.last_free_idx p.bitmap ≡ none
    → search_frame p ≡ (0, p)
unfolding search_frame
search_frame-none p e = rw (e, search_frame)

search_frame-some :
    (p : Pmm) (i : ℕ)
    → find_free (p.total_frames - p.last_free_idx) p.last_free_idx p.bitmap ≡ some i
    → search_frame p
      ≡ (mul_word i frame_size, record (idx_set p i) { last_free_idx = add_word p.last_free_idx 1 })
unfolding search_frame
search_frame-some p i e = rw (e, search_frame)

-- `last_free_idx` may move to any index up to the end.
pub Changed-start :
    {p q : Pmm} (i : ℕ) (b : Bool) (k : ℕ)
    → k ≤ q.total_frames
    → Changed i b p q
    → Changed i b p (record q { last_free_idx = k })
Changed-start i b k h c = record {
  bits = c.bits;
  total = c.total;
  kernel = c.kernel;
  valid = record {
    bytes = c.valid.bytes;
    reserved = c.valid.reserved;
    room = c.valid.room;
    kernel = c.valid.kernel;
    start = h;
    counted = c.valid.counted;
  };
}

search_frame-Got :
    (p : Pmm) (i : ℕ)
    → IsValid p
    → First (p.total_frames - p.last_free_idx) p.last_free_idx i p.bitmap
    → Got p
        (mul_word i frame_size, record (idx_set p i) { last_free_idx = add_word p.last_free_idx 1 })
search_frame-Got p i v f =
    let inside : i < p.total_frames = omega (arith, f.lower, f.upper, v.start) in
    let c = idx_set-Changed i inside v f.free in
    record {
      idx = i;
      was_free = f.free;
      addr = omega (arith, v.room);
      inside = inside;
      changed =
          Changed-start i true (add_word p.last_free_idx 1)
            (omega (arith, f.lower, c.total, v.room)) c;
    }

free-ne-zero : {p : Pmm} (i : ℕ) → IsValid p → used p.bitmap i ≡ false → i ≢ 0
free-ne-zero {p} i v free z = ground (arith, v.reserved 0 (omega arith), ap (used p.bitmap) z)

get_frame-found :
    (fuel : ℕ) (p q : Pmm) (a : ℕ)
    → p.free_frames ≢ 0
    → search_frame p ≡ (a, q)
    → a ≢ 0
    → get_frame (suc fuel) p ≡ done (a, q)
unfolding get_frame
get_frame-found fuel p q a nz e ne = rw e (ground arith)

get_frame-again :
    (fuel : ℕ) (p : Pmm)
    → p.free_frames ≢ 0
    → search_frame p ≡ (0, p)
    → get_frame (suc fuel) p ≡ get_frame fuel (record p { last_free_idx = p.kernel_end_idx })
unfolding get_frame
get_frame-again fuel p nz e = rw e (ground arith)

-- A pass that can find a frame does.
get_frame-Got_of_free :
    (fuel : ℕ) (p : Pmm)
    → IsValid p
    → p.free_frames ≢ 0
    → (k : ℕ) → p.last_free_idx ≤ k
    → k < p.total_frames
    → used p.bitmap k ≡ false
    → Ends (Got p) (get_frame (suc fuel) p)
get_frame-Got_of_free fuel p v nz k lo hi free =
    elim (Option-cases (find_free (p.total_frames - p.last_free_idx) p.last_free_idx p.bitmap)) [
      | inl e ↦ absurd (ground (arith, find_free-none _ _ p.bitmap k e lo (omega arith)))
      | inr (i, e) ↦
          (let f = find_free-First _ _ p.bitmap i e in
            let ne = free-ne-zero i v f.free in
            rw
              (get_frame-found fuel p _ _ nz (search_frame-some p i e)
                (omega (arith, v.room, v.start, f.upper, f.lower)))
              (search_frame-Got p i v f))
    ]

restart : Pmm → Pmm
restart p = record p { last_free_idx = p.kernel_end_idx }

restart-IsValid : (p : Pmm) → IsValid p → IsValid (restart p)
unfolding restart
restart-IsValid p v = record {
  bytes = v.bytes;
  reserved = v.reserved;
  room = v.room;
  kernel = v.kernel;
  start = omega (arith, v.kernel);
  counted = v.counted;
}

Got-restart : (p : Pmm) (out : ℕ × Pmm) → Got (restart p) out → Got p out
unfolding restart
Got-restart p out g = record {
  idx = g.idx;
  was_free = g.was_free;
  addr = g.addr;
  inside = g.inside;
  changed = record {
    bits = g.changed.bits;
    total = g.changed.total;
    kernel = g.changed.kernel;
    valid = g.changed.valid;
  };
}

-- In a valid state with a free frame, `pmm_get_frame` calls itself at most once and takes a free
-- frame inside the memory: it returns that frame's address, marks the frame, leaves every other bit,
-- and keeps the state valid, its count of free frames included.
pub get_frame-Got :
    (fuel : ℕ) (p : Pmm)
    → IsValid p
    → p.free_frames ≢ 0
    → Ends (Got p) (get_frame (suc (suc fuel)) p)
unfolding restart
get_frame-Got fuel p v nz =
    let (k, hi, free) = count_free-pos p.total_frames (used p.bitmap) (λ z. nz (v.counted ∙ z)) in
    let above : p.kernel_end_idx ≤ k = elim (Bool-cases (ltb k p.kernel_end_idx)) [
      | inl e ↦ absurd (ground (arith, v.reserved k))
      | inr e ↦ ground arith
    ] in
    elim (Option-cases (find_free (p.total_frames - p.last_free_idx) p.last_free_idx p.bitmap)) [
      | inl e ↦ rw (get_frame-again (suc fuel) p nz (search_frame-none p e)) (
          Ends-map _ _ (get_frame (suc fuel) (restart p)) (Got-restart p)
            (get_frame-Got_of_free fuel (restart p) (restart-IsValid p v) nz k above hi free))
      | inr (i, e) ↦
          (let f = find_free-First _ _ p.bitmap i e in
            get_frame-Got_of_free (suc fuel) p v nz i f.lower
              (omega (arith, f.lower, f.upper, v.start)) f.free)
    ]

-- With no free frame `pmm_get_frame` panics.
get_frame-panic : (fuel : ℕ) (p : Pmm) → p.free_frames ≡ 0 → get_frame (suc fuel) p ≡ panic
unfolding get_frame
get_frame-panic fuel p z = ground arith

-- `pmm_free_frame` of a taken frame above the kernel gives that frame back: no other bit changes, the
-- next search starts there, and the state stays valid, its count of free frames included.
pub free_frame-Changed :
    (p : Pmm) (i : ℕ)
    → IsValid p
    → i < p.total_frames
    → p.kernel_end_idx < i
    → used p.bitmap i ≡ true
    → Changed i false p (free_frame p (i * frame_size))
      × ((free_frame p (i * frame_size)).last_free_idx ≡ i)
unfolding free_frame
free_frame-Changed p i v inside above taken =
    let e : i * frame_size / frame_size ≡ i = omega arith in
    let given = idx_unset-Changed i inside v taken above in
    let c = Changed-start i false i (omega (arith, given.total)) given in
    rw (e, lt→ltb i p.total_frames inside) (c, refl)

Got-free_frame :
    (p : Pmm) (out : ℕ × Pmm)
    → IsValid p
    → Got p out
    → (j : ℕ) → used (free_frame out.1 out.0).bitmap j ≡ used p.bitmap j
Got-free_frame p out v g j =
    let above : p.kernel_end_idx < g.idx = elim (Bool-cases (ltb p.kernel_end_idx g.idx)) [
      | inl h ↦ ltb→lt _ _ h
      | inr h ↦ absurd (ground (arith, v.reserved g.idx, g.was_free))
    ] in
    let back =
      free_frame-Changed out.1 g.idx g.changed.valid (omega (arith, g.changed.total, g.inside))
        (omega (arith, g.changed.kernel, above)) (ground (arith, g.changed.bits g.idx)) in
    rw g.addr (elim (ℕ_discrete g.idx j) [
      | yes e ↦ ground (arith, back.0.bits j, g.was_free, ap (used p.bitmap) e)
      | no ne ↦ ground (arith, back.0.bits j, g.changed.bits j)
    ])

-- In a valid state with a free frame, giving back the frame that `pmm_get_frame` just returned restores
-- every bit of the bitmap.
pub get_frame-free_frame :
    (p : Pmm) (a : ℕ) (q : Pmm)
    → IsValid p
    → p.free_frames ≢ 0
    → get_frame 2 p ≡ done (a, q)
    → (j : ℕ) → used (free_frame q a).bitmap j ≡ used p.bitmap j
get_frame-free_frame p a q v nz e = Got-free_frame p (a, q) v (rw e at (get_frame-Got 0 p v nz))
