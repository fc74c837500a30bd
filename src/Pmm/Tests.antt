-- ===== src/Pmm/Tests.antt =====
-- The theorems about pmm.c at a small memory, and runs of its functions.
use polx.Base.{ℕ, zero, suc, ◌*◌, ◌≤◌, ◌≡◌, refl, ◌≢◌, true, arith, ◌==◌, if◌then◌else◌, done, Ends}
use polx.Pmm.{
  Pmm, bit_get, byte_get, idx_set, find_free, search_frame, get_frame, free_frame, get_pool,
  free_pool, scan_pool, pool_step, init,
}
use polx.Pmm.Bits.{used, IsBytes}
use polx.Pmm.Count.{count_free}
use polx.Pmm.Frame.{IsValid, Got, get_frame-Got, get_frame-free_frame}
use polx.Pmm.Pool.{Pool, get_pool-Pool, get_pool-free_pool}
use polx.Pmm.Boot.{Booted, init-Booted}

-- Sixteen frames: the kernel holds 0 and 1, and frame 3 is taken.
abbrev small : Pmm
small = record {
  bitmap = λ k. if k == 0 then 0xd0 else 0;
  kernel_end_idx = 1;
  last_free_idx = 3;
  total_frames = 16;
  free_frames = 13;
}

abbrev full : Pmm
full = record small { bitmap = λ k. 0xff; free_frames = 0 }

small-IsBytes : IsBytes small.bitmap
unfolding IsBytes
small-IsBytes k = ground arith

small_reserved : (j : ℕ) → j ≤ 1 → used small.bitmap j ≡ true
unfolding bit_get byte_get
small_reserved zero h = refl
small_reserved (suc zero) h = refl
small_reserved (suc (suc j)) h = absurd (omega arith)

small-IsValid : IsValid small
unfolding bit_get byte_get count_free
small-IsValid = record {
  bytes = small-IsBytes;
  reserved = small_reserved;
  room = omega arith;
  kernel = omega arith;
  start = omega arith;
  counted = refl;
}

small_runs :
    ((search_frame small).0 ≡ 4 * 4096)
    × ((get_pool 9 3 small).0 ≡ 4 * 4096)
    × ((get_pool 9 1 small).0 ≡ 2 * 4096)
    × ((get_pool 9 13 small).0 ≡ 0)
unfolding search_frame find_free get_pool scan_pool pool_step bit_get byte_get idx_set
small_runs = (refl, refl, refl, refl)

get_frame-Got_example : Ends (Got small) (get_frame 2 small)
get_frame-Got_example = get_frame-Got 0 small small-IsValid (omega arith)

small_frame : get_frame 2 small ≡ done (4 * 4096, (search_frame small).1)
unfolding get_frame search_frame find_free bit_get byte_get idx_set
small_frame = refl

get_frame-free_frame_example :
    used (free_frame (search_frame small).1 (4 * 4096)).bitmap 4 ≡ used small.bitmap 4
get_frame-free_frame_example =
    get_frame-free_frame small (4 * 4096) (search_frame small).1 small-IsValid (omega arith)
      small_frame 4

get_pool-Pool_example : Pool small 3 (get_pool 9 3 small)
get_pool-Pool_example = get_pool-Pool 9 3 small small-IsValid (omega arith)

get_pool-free_pool_example :
    used (free_pool (get_pool 9 3 small).1 (get_pool 9 3 small).0 3).bitmap 5 ≡ used small.bitmap 5
get_pool-free_pool_example = get_pool-free_pool 9 3 small small-IsValid (omega arith) pool_ne_zero 5
  where
    pool_ne_zero : (get_pool 9 3 small).0 ≢ 0
    pool_ne_zero = rw small_runs.1 (omega arith)

-- 64 MiB with a reserved megabyte
abbrev blank : Pmm
blank = record {
  bitmap = λ k. 0;
  kernel_end_idx = 0;
  last_free_idx = 0;
  total_frames = 0;
  free_frames = 0;
}

init-Booted_example : Ends (Booted 0x4000000 0x100001) (init 300 0x4000000 0 0x100001 blank)
init-Booted_example =
    init-Booted 300 0x4000000 0x100001 blank (λ k. refl) (omega arith) (omega arith) (omega arith)
      (omega arith)
