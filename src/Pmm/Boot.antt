-- ===== src/Pmm/Boot.antt =====
-- `pmm_init` sets up a valid state.
use polx.Base.{
  ℕ, zero, suc, ◌+◌, ◌*◌, ◌/◌, ◌^◌, ◌≤◌, ◌<◌, ◌≡◌, refl, sym, inl, inr, Bool, true, false, arith,
  ltb, ◌==◌, if◌then◌else◌, ltb→lt, Bool-cases, add_word, Ends, Ends-bind,
}
use polx.Pmm.{Pmm, frame_size, bit_set, idx_set, reserve, init}
use polx.Pmm.Bits.{used, IsBytes, bit_set-IsBytes, used-bit_set, used_of_zero}
use polx.Pmm.Count.{count_free, count_free-update, count_free-le}
use polx.Pmm.Frame.{IsValid}

-- after `k` rounds of the loop over the reserved memory
record Reserved (total k : ℕ) (p : Pmm) : Type 0 where
  bytes : IsBytes p.bitmap
  bits : (j : ℕ) → used p.bitmap j ≡ ltb j k
  last : p.last_free_idx ≡ k
  size : p.total_frames ≡ total
  counted : p.free_frames ≡ count_free total (used p.bitmap)

abbrev round : ℕ → Pmm → Pmm
round k p = record (idx_set p k) { last_free_idx = add_word p.last_free_idx 1 }

Reserved-suc :
    (total k : ℕ) (p : Pmm)
    → k < total
    → total ≤ 2 ^ 20
    → Reserved total k p
    → Reserved total (k + 1) (round k p)
unfolding idx_set
Reserved-suc total k p inside room r = record {
  bytes = bit_set-IsBytes p.bitmap k 1 (omega arith) r.bytes;
  bits = λ j. ground (arith, bits j, r.bits j);
  last = omega (arith, r.last);
  size = r.size;
  counted = ground (
    arith,
    r.counted,
    r.bits k,
    count_free-le total (used p.bitmap),
    count_free-update total k (used p.bitmap) (used (bit_set p.bitmap k 1)) true bits,
  );
}
  where
    bits : (j : ℕ) → used (bit_set p.bitmap k 1) j ≡ (if k == j then true else used p.bitmap j)
    bits j = used-bit_set p.bitmap k j 1 (omega arith) r.bytes

-- how many frames begin below `n`
abbrev pub frames_below : ℕ → ℕ
frames_below n = (n + 4095) / 4096

reserve-Reserved :
    (fuel total k n : ℕ) (p : Pmm)
    → total ≤ 2 ^ 20
    → frames_below n < total
    → k ≤ frames_below n
    → frames_below n < k + fuel
    → Reserved total k p
    → Ends (λ q. Reserved total (frames_below n) q) (reserve fuel (k * frame_size) n p)
unfolding reserve
reserve-Reserved zero total k n p room few lo enough r = absurd (omega arith)
reserve-Reserved (suc fuel) total k n p room few lo enough r =
    elim (Bool-cases (ltb (k * frame_size) n)) [
      | inl more ↦
          (let below = ltb→lt _ _ more in
            let i : k * frame_size / frame_size ≡ k = omega arith in
            let next : add_word (k * frame_size) frame_size ≡ (k + 1) * frame_size = omega arith in
            rw (more, i, next)
              (reserve-Reserved fuel total (k + 1) n (round k p) room few (omega arith)
                (omega arith) (Reserved-suc total k p (omega arith) room r)))
      | inr stop ↦ (let e : k ≡ frames_below n = ground arith in rw stop (rw e at r))
    ]

count_free-zero : (n : ℕ) (taken : ℕ → Bool) → ((j : ℕ) → taken j ≡ false) → count_free n taken ≡ n
unfolding count_free
count_free-zero zero taken h = refl
count_free-zero (suc n) taken h = ground (arith, h n, count_free-zero n taken h)

-- `q` is valid: the frames that begin below `n` are taken, and no others.
pub record Booted (total_memory n : ℕ) (q : Pmm) : Type 0 where
  pub valid : IsValid q
  pub bits : (j : ℕ) → used q.bitmap j ≡ ltb j (frames_below n)
  pub total : q.total_frames ≡ total_memory / frame_size
  pub free : q.free_frames ≡ count_free (total_memory / frame_size) (used q.bitmap)

-- `pmm_init` as the kernel calls it (`reserved_start` is 0), over the bitmap of zeros with which the
-- program starts, ends in a valid state: the frames of the reserved memory are taken, the others free.
-- Memory is below 4 GiB and the reserved part, which is not empty, leaves a frame.
pub init-Booted :
    (fuel total_memory reserved_end : ℕ) (p : Pmm)
    → ((k : ℕ) → p.bitmap k ≡ 0)
    → total_memory < 2 ^ 32
    → 0 < reserved_end
    → frames_below reserved_end < total_memory / frame_size
    → frames_below reserved_end < fuel
    → Ends (Booted total_memory reserved_end) (init fuel total_memory 0 reserved_end p)
unfolding init
init-Booted fuel total_memory reserved_end p zeros small pos few enough =
    Ends-bind (λ q. Reserved (total_memory / frame_size) (frames_below reserved_end) q)
      (Booted total_memory reserved_end) _ _
      (reserve-Reserved fuel (total_memory / frame_size) 0 reserved_end _ (omega arith) few
        (omega arith) (omega arith) start)
      (λ q r. record {
        valid = record {
          bytes = r.bytes;
          reserved = λ j h. ground (arith, r.bits j, r.last);
          room = omega (arith, r.size);
          kernel = omega (arith, r.size, r.last);
          start = omega (arith, r.size, r.last);
          counted = rw r.size r.counted;
        };
        bits = r.bits;
        total = r.size;
        free = r.counted;
      })
  where
    free : (j : ℕ) → used p.bitmap j ≡ false
    free j = used_of_zero p.bitmap j (zeros (j / 8))

    start : Reserved (total_memory / frame_size) 0 (record p {
      total_frames = total_memory / frame_size;
      free_frames = total_memory / frame_size;
      last_free_idx = 0;
    })
    start = record {
      bytes = unfold IsBytes in λ k. omega (arith, zeros k);
      bits = λ j. ground (arith, free j);
      last = refl;
      size = refl;
      counted = sym (count_free-zero (total_memory / frame_size) (used p.bitmap) free);
    }
