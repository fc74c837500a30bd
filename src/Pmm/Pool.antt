-- ===== src/Pmm/Pool.antt =====
-- Runs of frames: `pmm_get_pool` and `pmm_free_pool`.
use polx.Base.{
  ℕ, zero, suc, ◌+◌, ◌-◌, ◌*◌, ◌/◌, ◌≤◌, ◌<◌, ◌≡◌, refl, ap, ◌∙◌, ◌≢◌, ◌⊎◌, inl, inr, true, false,
  ◌&&◌, arith, ℕ_discrete, ltb, leb, ◌==◌, if◌then◌else◌, ltb→lt, lt→ltb, leb→le, ==_iff,
  Bool-cases, add_word,
}
use polx.Pmm.{
  Pmm, Scan, frame_size, bit_get, idx_set, idx_unset, pool_step, scan_pool, mark_pool, get_pool,
  release, free_pool,
}
use polx.Pmm.Bits.{used}
use polx.Pmm.Frame.{IsValid, Changed-start, idx_set-Changed, idx_unset-Changed}

-- No run of `frames` free frames lies between `lo` and `hi`.
abbrev pub NoRun : (ℕ → ℕ) → (frames lo hi : ℕ) → Type 0
NoRun b frames lo hi =
    (s : ℕ) → lo ≤ s → s + frames ≤ hi → (j : ℕ) × (s ≤ j) × (j < s + frames) × (used b j ≡ true)

-- Where the run of free frames just before `i` begins.
data Edge (b : ℕ → ℕ) (lo i counter : ℕ) : Type 0 where
  bottom : lo + counter ≡ i → Edge b lo i counter
  after : (j : ℕ) → suc j + counter ≡ i → used b j ≡ true → Edge b lo i counter

-- what holds before the round at `i`
record Inv (b : ℕ → ℕ) (frames lo i : ℕ) (s : Scan) : Type 0 where
  low : lo + s.frame_counter ≤ i
  few : s.frame_counter < frames
  run : (j : ℕ) → i ≤ j + s.frame_counter → j < i → used b j ≡ false
  first : s.is_first ≡ (s.frame_counter == 0)
  start : s.is_first ≡ false → s.pool_start_idx + s.frame_counter ≡ i
  edge : Edge b lo i s.frame_counter
  no_run : NoRun b frames lo i

record Found (b : ℕ → ℕ) (frames lo hi : ℕ) (s : Scan) : Type 0 where
  full : s.frame_counter ≡ frames
  low : lo ≤ s.pool_start_idx
  end : s.pool_end_idx + 1 ≡ s.pool_start_idx + frames
  high : s.pool_end_idx < hi
  run : (j : ℕ) → s.pool_start_idx ≤ j → j ≤ s.pool_end_idx → used b j ≡ false

-- the run that would end with `i` begins below the edge
NoRun-Edge :
    {b : ℕ → ℕ} {frames lo : ℕ} (i c s : ℕ)
    → Edge b lo i c
    → suc c < frames
    → lo ≤ s
    → s + frames ≡ i + 1
    → (j : ℕ) × (s ≤ j) × (j < s + frames) × (used b j ≡ true)
NoRun-Edge i c s (bottom e) few h q = absurd (omega arith)
NoRun-Edge i c s (after j e u) few h q = (j, omega arith, omega arith, u)

NoRun-free :
    (b : ℕ → ℕ) (frames lo i c : ℕ)
    → suc c < frames
    → Edge b lo i c
    → NoRun b frames lo i
    → NoRun b frames lo (i + 1)
NoRun-free b frames lo i c few edge old s h k = elim (Bool-cases (leb (s + frames) i)) [
  | inl e ↦ old s h (leb→le _ _ e)
  | inr e ↦ NoRun-Edge i c s edge few h (ground arith)
]

NoRun-used :
    (b : ℕ → ℕ) (frames lo i : ℕ)
    → used b i ≡ true
    → 0 < frames
    → NoRun b frames lo i
    → NoRun b frames lo (i + 1)
NoRun-used b frames lo i u pos old s h k = elim (Bool-cases (leb (s + frames) i)) [
  | inl e ↦ old s h (leb→le _ _ e)
  | inr e ↦ (i, ground arith, ground arith, u)
]

Edge-suc : {b : ℕ → ℕ} {lo i c : ℕ} → Edge b lo i c → Edge b lo (i + 1) (c + 1)
Edge-suc (bottom e) = bottom (omega arith)
Edge-suc (after j e u) = after j (omega arith) u

run_next :
    (b : ℕ → ℕ) (i j c : ℕ)
    → ((j : ℕ) → i ≤ j + c → j < i → used b j ≡ false)
    → (bit_get b i == 0) ≡ true
    → i + 1 ≤ j + (c + 1)
    → j < i + 1
    → used b j ≡ false
run_next b i j c run free h k = elim (ℕ_discrete i j) [
  | yes e ↦ rw (← e) (ground arith)
  | no ne ↦ run j (omega arith) (omega arith)
]

-- A round either ends the search with a run, or keeps the invariant.
pool_step-cases :
    {b : ℕ → ℕ} {frames lo : ℕ} (i hi : ℕ) (s : Scan)
    → i < hi
    → Inv b frames lo i s
    → (((pool_step i frames b s).0 ≡ true) × Found b frames lo hi (pool_step i frames b s).1)
      ⊎ (((pool_step i frames b s).0 ≡ false) × Inv b frames lo (i + 1) (pool_step i frames b s).1)
unfolding pool_step
pool_step-cases {b} {frames} {lo} i hi s inside v = elim (Bool-cases (bit_get b i == 0)) [
  | inl free ↦ elim (Bool-cases (s.frame_counter + 1 == frames)) [
    | inl full ↦ inl (
        rw (free, full)
          (
            refl,
            record {
              full = (==_iff _ _).0 full;
              low = ground (arith, v.low, v.first, v.start);
              end = ground (arith, v.low, v.first, v.start);
              high = inside;
              run = λ j h k.
                  run_next b i j s.frame_counter v.run free (ground (arith, v.first, v.start))
                    (omega arith);
            },
          ))
    | inr more ↦ inr (
        rw (free, more)
          (
            refl,
            record {
              low = omega (arith, v.low);
              few = ground (arith, v.few);
              run = λ j h k. run_next b i j s.frame_counter v.run free h k;
              first = ground arith;
              start = λ e. ground (arith, v.first, v.start);
              edge = Edge-suc v.edge;
              no_run =
                  NoRun-free b frames lo i s.frame_counter (ground (arith, v.few)) v.edge v.no_run;
            },
          ))
  ]
  | inr taken ↦ inr (
      rw taken (
        refl,
        record {
          low = omega (arith, v.low);
          few = omega (arith, v.few);
          run = λ j h k. absurd (omega arith);
          first = refl;
          start = λ e. cc;
          edge = after i (omega arith) (ground arith);
          no_run = NoRun-used b frames lo i (ground arith) (omega (arith, v.few)) v.no_run;
        },
      ))
]

scan_pool-cases :
    (b : ℕ → ℕ) (frames lo n i hi : ℕ) (s : Scan)
    → i + n ≡ hi
    → Inv b frames lo i s
    → Found b frames lo hi (scan_pool n i frames b s)
      ⊎ (((scan_pool n i frames b s).frame_counter < frames) × NoRun b frames lo hi)
unfolding scan_pool
scan_pool-cases b frames lo zero i hi s e v =
    let e' : i ≡ hi = omega arith in inr (v.few, rw (← e') v.no_run)
scan_pool-cases b frames lo (suc n) i hi s e v = elim (pool_step-cases i hi s (omega arith) v) [
  | inl (stop, found) ↦ inl (rw stop found)
  | inr (go, kept) ↦
      rw go (scan_pool-cases b frames lo n (i + 1) hi (pool_step i frames b s).1 (omega arith) kept)
]

-- `q` is `p` with the frames `i`, ..., `i + n - 1` taken.
pub record Marked (i n : ℕ) (p q : Pmm) : Type 0 where
  pub bits :
      (j : ℕ) → used q.bitmap j ≡ (if leb i j && ltb j (i + n) then true else used p.bitmap j)
  pub total : q.total_frames ≡ p.total_frames
  pub kernel : q.kernel_end_idx ≡ p.kernel_end_idx
  pub valid : IsValid q

mark_pool-Marked :
    (n i : ℕ) (p : Pmm)
    → IsValid p
    → i + n ≤ p.total_frames
    → ((j : ℕ) → i ≤ j → j < i + n → used p.bitmap j ≡ false)
    → Marked i n p (mark_pool n i p)
unfolding mark_pool
mark_pool-Marked zero i p v room free = record {
  bits = λ j. ground arith;
  total = refl;
  kernel = refl;
  valid = v;
}
mark_pool-Marked (suc n) i p v room free =
    let c = idx_set-Changed i (omega arith) v (free i (omega arith) (omega arith)) in
    let rest =
      mark_pool-Marked n (i + 1) (idx_set p i) c.valid (omega (arith, c.total))
        (λ j h k. ground (arith, c.bits j, free j (omega arith) (omega arith))) in
    record {
      bits = λ j. ground (arith, rest.bits j, c.bits j);
      total = rest.total ∙ c.total;
      kernel = rest.kernel ∙ c.kernel;
      valid = rest.valid;
    }

-- What `pmm_get_pool` gives from `p`.
pub data Pool (p : Pmm) (frames : ℕ) (out : ℕ × Pmm) : Type 0 where
  found :
      (start : ℕ)
      → out.0 ≡ start * frame_size
      → p.kernel_end_idx ≤ start
      → start + frames ≤ p.total_frames
      → ((j : ℕ) → start ≤ j → j < start + frames → used p.bitmap j ≡ false)
      → Marked start frames p out.1
      → Pool p frames out
  missing : out ≡ (0, p) → NoRun p.bitmap frames p.kernel_end_idx p.total_frames → Pool p frames out

-- the local variables when the loop begins
abbrev scan_start : ℕ → Scan
scan_start junk = record {
  pool_start_idx = 0;
  pool_end_idx = junk;
  frame_counter = 0;
  is_first = true;
}

abbrev scanned : ℕ → ℕ → Pmm → Scan
scanned junk frames p =
    scan_pool (p.total_frames - p.kernel_end_idx) p.kernel_end_idx frames p.bitmap (scan_start junk)

scan_start-Inv :
    (junk frames lo : ℕ) (b : ℕ → ℕ) → 0 < frames → Inv b frames lo lo (scan_start junk)
scan_start-Inv junk frames lo b pos = record {
  low = omega arith;
  few = pos;
  run = λ j h k. absurd (omega arith);
  first = refl;
  start = λ e. cc;
  edge = bottom (omega arith);
  no_run = λ s h k. absurd (omega arith);
}

get_pool-Found :
    (junk frames : ℕ) (p : Pmm)
    → IsValid p
    → 0 < frames
    → Found p.bitmap frames p.kernel_end_idx p.total_frames (scanned junk frames p)
    → Pool p frames (get_pool junk frames p)
unfolding get_pool
get_pool-Found junk frames p v pos f =
    let s = scanned junk frames p in
    let rounds : s.pool_end_idx + 1 - s.pool_start_idx ≡ frames = omega (arith, f.end) in
    rw ((==_iff s.frame_counter frames).1 f.full, rounds)
      (found s.pool_start_idx (omega (arith, v.room, f.end, f.high, f.low)) f.low
        (omega (arith, f.end, f.high)) (λ j h k. f.run j h (omega (arith, f.end)))
        (mark_pool-Marked frames s.pool_start_idx p v (omega (arith, f.end, f.high))
          (λ j h k. f.run j h (omega (arith, f.end)))))

-- In a valid state `pmm_get_pool` of at least one frame takes a run of free frames at or above the kernel's last frame
-- and marks exactly those, or leaves everything as it is when there is no such run.
pub get_pool-Pool :
    (junk frames : ℕ) (p : Pmm) → IsValid p → 0 < frames → Pool p frames (get_pool junk frames p)
unfolding get_pool
get_pool-Pool junk frames p v pos =
    elim (scan_pool-cases p.bitmap frames p.kernel_end_idx (p.total_frames - p.kernel_end_idx)
      p.kernel_end_idx p.total_frames (scan_start junk) (omega (arith, v.kernel))
      (scan_start-Inv junk frames p.kernel_end_idx p.bitmap pos)) [
        | inl f ↦ get_pool-Found junk frames p v pos f
        | inr (few, gone) ↦ missing (ground arith) gone
      ]

-- `q` is `p` with the frames `i`, ..., `i + n - 1` given back.
pub record Freed (i n : ℕ) (p q : Pmm) : Type 0 where
  pub bits :
      (j : ℕ) → used q.bitmap j ≡ (if leb i j && ltb j (i + n) then false else used p.bitmap j)
  pub total : q.total_frames ≡ p.total_frames
  pub kernel : q.kernel_end_idx ≡ p.kernel_end_idx
  pub valid : IsValid q

release-Freed :
    (n i : ℕ) (p : Pmm)
    → IsValid p
    → p.kernel_end_idx < i
    → i + n ≤ p.total_frames
    → ((j : ℕ) → i ≤ j → j < i + n → used p.bitmap j ≡ true)
    → Freed i n p (release n i p)
unfolding release
release-Freed zero i p v above room taken = record {
  bits = λ j. ground arith;
  total = refl;
  kernel = refl;
  valid = v;
}
release-Freed (suc n) i p v above room taken =
    let inside : i < p.total_frames = omega arith in
    let given = idx_unset-Changed i inside v (taken i (omega arith) (omega arith)) above in
    let c = Changed-start i false i (omega (arith, given.total)) given in
    let next : add_word i 1 ≡ i + 1 = omega (arith, v.room) in
    let rest =
      release-Freed n (i + 1) (record (idx_unset p i) { last_free_idx = i }) c.valid
        (omega (arith, c.kernel)) (omega (arith, c.total))
        (λ j h k. ground (arith, c.bits j, taken j (omega arith) (omega arith))) in
    rw (next, lt→ltb i p.total_frames inside)
      (record {
        bits = λ j. ground (arith, rest.bits j, c.bits j);
        total = rest.total ∙ c.total;
        kernel = rest.kernel ∙ c.kernel;
        valid = rest.valid;
      })

-- In a valid state `pmm_free_pool` of a run of taken frames above the kernel and inside the memory gives
-- back exactly those.
pub free_pool-Freed :
    (n i : ℕ) (p : Pmm)
    → IsValid p
    → p.kernel_end_idx < i
    → i + n ≤ p.total_frames
    → ((j : ℕ) → i ≤ j → j < i + n → used p.bitmap j ≡ true)
    → Freed i n p (free_pool p (i * frame_size) n)
unfolding free_pool
free_pool-Freed n i p v above room taken =
    let e : i * frame_size / frame_size ≡ i = omega arith in
    rw e (release-Freed n i p v above room taken)

Pool-free_pool :
    (p : Pmm) (frames : ℕ) (out : ℕ × Pmm)
    → IsValid p
    → 0 < frames
    → Pool p frames out
    → out.0 ≢ 0
    → (j : ℕ) → used (free_pool out.1 out.0 frames).bitmap j ≡ used p.bitmap j
Pool-free_pool p frames out v pos (found start e low high free m) nz j =
    let above : p.kernel_end_idx < start = elim (Bool-cases (ltb p.kernel_end_idx start)) [
      | inl h ↦ ltb→lt _ _ h
      | inr h ↦ absurd (ground (arith, v.reserved start, free start))
    ] in
    let back =
      free_pool-Freed frames start out.1 m.valid (omega (arith, m.kernel)) (omega (arith, m.total))
        (λ j h k. ground (arith, m.bits j)) in
    rw e (elim (Bool-cases (leb start j && ltb j (start + frames))) [
      | inl h ↦ ground (arith, back.bits j, h, free j)
      | inr h ↦ ground (arith, back.bits j, m.bits j, h)
    ])
Pool-free_pool p frames out v pos (missing e gone) nz j = absurd (nz (ap (λ (o : ℕ × Pmm). o.0) e))

-- In a valid state, giving back the pool of at least one frame that `pmm_get_pool` returned, if it found
-- one, restores every bit of the bitmap.
pub get_pool-free_pool :
    (junk frames : ℕ) (p : Pmm)
    → IsValid p
    → 0 < frames
    → (get_pool junk frames p).0 ≢ 0
    → (j : ℕ)
    → used (free_pool (get_pool junk frames p).1 (get_pool junk frames p).0 frames).bitmap j
      ≡ used p.bitmap j
get_pool-free_pool junk frames p v pos =
    Pool-free_pool p frames (get_pool junk frames p) v pos (get_pool-Pool junk frames p v pos)
