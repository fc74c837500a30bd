-- ===== src/Pmm.antt =====
-- The physical memory manager, src/kernel/memory/pmm.c: one bit of a bitmap for one frame of memory.
-- The bitmap is a function from the byte's index: BITMAP_SIZE covers every index of a frame that a
-- 32-bit address can name. Addresses and counters are 32-bit words.
pub mod Bits
pub mod Count
pub mod Frame
pub mod Pool
pub mod Boot
mod Tests
use polx.Base.{
  ◌>>=◌, ℕ, zero, suc, ◌+◌, ◌-◌, ◌*◌, ◌/◌, ◌%◌, ◌^◌, bit_and, bit_or, Bool, true, false, not, ◌&&◌,
  Option, none, some, ltb, ◌==◌, if◌then◌else◌, update, add_word, sub_word, mul_word, Outcome, done,
  panic, out_of_fuel,
}

pub record Pmm : Type 0 where
  pub bitmap : ℕ → ℕ
  pub kernel_end_idx : ℕ
  pub last_free_idx : ℕ
  pub total_frames : ℕ
  pub free_frames : ℕ

abbrev pub frame_size : ℕ
frame_size = 4096

-- C's truth values
abbrev pub truth : Bool → ℕ
truth true = 1
truth false = 0

-- the byte that `__bit_set` writes back
pub byte_set : (byte bit value : ℕ) → ℕ
byte_set byte bit value =
    let mask : ℕ = 0x80 / 2 ^ bit in
    bit_or (bit_and byte (255 - mask))
      ((truth (not (mask == 0) && not (value == 0)) * 2 ^ 7) / 2 ^ bit)

pub byte_get : (byte bit : ℕ) → ℕ
byte_get byte bit = bit_and byte (0x80 / 2 ^ bit)

pub bit_set : (ℕ → ℕ) → ℕ → ℕ → ℕ → ℕ
bit_set bitmap idx value = update bitmap (idx / 8) (byte_set (bitmap (idx / 8)) (idx % 8) value)

pub bit_get : (ℕ → ℕ) → ℕ → ℕ
bit_get bitmap idx = byte_get (bitmap (idx / 8)) (idx % 8)

-- `_IDX_SET` and `_IDX_UNSET`
pub idx_set : Pmm → ℕ → Pmm
idx_set p idx = record p { bitmap = bit_set p.bitmap idx 1; free_frames = sub_word p.free_frames 1 }

pub idx_unset : Pmm → ℕ → Pmm
idx_unset p idx = record p {
  bitmap = bit_set p.bitmap idx 0;
  free_frames = add_word p.free_frames 1;
}

-- the loop of `pmm_init`, on fuel: `i` steps through the reserved addresses
reserve : (fuel i reserved_end : ℕ) → Pmm → Outcome Pmm
reserve zero i reserved_end p = out_of_fuel
reserve (suc fuel) i reserved_end p =
    let marked = idx_set p (i / frame_size) in
    let rest =
      reserve fuel (add_word i frame_size) reserved_end
        (record marked { last_free_idx = add_word p.last_free_idx 1 }) in
    if ltb i reserved_end then rest else done p

-- `pmm_init`, from what the static variables hold
pub init : (fuel total_memory reserved_start reserved_end : ℕ) → Pmm → Outcome Pmm
init fuel total_memory reserved_start reserved_end p = do
  q ← reserve fuel reserved_start reserved_end (record p {
    total_frames = total_memory / frame_size;
    free_frames = total_memory / frame_size;
    last_free_idx = 0;
  })
  done (record q { kernel_end_idx = sub_word q.last_free_idx 1 })

-- the index at which the loop of `pmm_get_frame` finds a free frame, with the rounds left
find_free : (rounds i : ℕ) → (ℕ → ℕ) → Option ℕ
find_free zero i bitmap = none
find_free (suc n) i bitmap =
    let rest = find_free n (i + 1) bitmap in if bit_get bitmap i == 0 then some i else rest

-- the loop of `pmm_get_frame`: `new_frame_addr` and the state after it
search_frame : Pmm → ℕ × Pmm
search_frame p = elim (find_free (p.total_frames - p.last_free_idx) p.last_free_idx p.bitmap) [
  | none ↦ (0, p)
  | some i ↦
      (mul_word i frame_size, record (idx_set p i) { last_free_idx = add_word p.last_free_idx 1 })
]

-- `pmm_get_frame`: fuel for its call of itself
pub get_frame : (fuel : ℕ) → Pmm → Outcome (ℕ × Pmm)
get_frame zero p = out_of_fuel
get_frame (suc fuel) p =
    let (addr, q) = search_frame p in
    let again = get_frame fuel (record q { last_free_idx = q.kernel_end_idx }) in
    if p.free_frames == 0 then panic else if addr == 0 then again else done (addr, q)

pub free_frame : Pmm → ℕ → Pmm
free_frame p addr =
    let idx = addr / frame_size in
    if ltb idx p.total_frames then record (idx_unset p idx) { last_free_idx = idx } else p

-- the local variables of `pmm_get_pool`
pub record Scan : Type 0 where
  pub pool_start_idx : ℕ
  pub pool_end_idx : ℕ
  pub frame_counter : ℕ
  pub is_first : Bool

-- one round of its first loop; the flag is the `break`
pool_step : (i frames : ℕ) → (ℕ → ℕ) → Scan → Bool × Scan
pool_step i frames bitmap s =
    if bit_get bitmap i == 0
    then (let counted = record s {
      pool_start_idx = if s.is_first then i else s.pool_start_idx;
      frame_counter = s.frame_counter + 1;
      is_first = false;
    } in
        if counted.frame_counter == frames
        then (true, record counted { pool_end_idx = i })
        else (false, counted))
    else (
      false,
      record { pool_start_idx = 0; pool_end_idx = 0; frame_counter = 0; is_first = true },
    )

scan_pool : (rounds i frames : ℕ) → (ℕ → ℕ) → Scan → Scan
scan_pool zero i frames bitmap s = s
scan_pool (suc n) i frames bitmap s =
    let (stop, s') = pool_step i frames bitmap s in
    let rest = scan_pool n (i + 1) frames bitmap s' in if stop then s' else rest

-- `for (i = pool_start_idx; i <= pool_end_idx; i++)`, with the rounds left
mark_pool : (rounds i : ℕ) → Pmm → Pmm
mark_pool zero i p = p
mark_pool (suc n) i p = mark_pool n (i + 1) (idx_set p i)

-- `junk` is the indeterminate value with which `pool_end_idx` starts
pub get_pool : (junk frames : ℕ) → Pmm → ℕ × Pmm
get_pool junk frames p =
    let s =
      scan_pool (p.total_frames - p.kernel_end_idx) p.kernel_end_idx frames p.bitmap
        (record { pool_start_idx = 0; pool_end_idx = junk; frame_counter = 0; is_first = true }) in
    if s.frame_counter == frames
    then (
      mul_word s.pool_start_idx frame_size,
      mark_pool (s.pool_end_idx + 1 - s.pool_start_idx) s.pool_start_idx p,
    )
    else (0, p)

-- the loop of `pmm_free_pool`
release : (rounds j : ℕ) → Pmm → Pmm
release zero j p = p
release (suc n) j p =
    release n (add_word j 1)
      (if ltb j p.total_frames then record (idx_unset p j) { last_free_idx = j } else p)

pub free_pool : Pmm → (start_of_pool frames : ℕ) → Pmm
free_pool p start_of_pool frames = release frames (start_of_pool / frame_size) p
