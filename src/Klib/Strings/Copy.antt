-- ===== src/Klib/Strings/Copy.antt =====
-- What the copying functions leave in memory.
use polx.Base.{
  ℕ, zero, suc, ◌+◌, ◌-◌, ◌%◌, ◌≤◌, ◌<◌, ◌≡◌, ap, ◌⊎◌, false, ◌&&◌, List, [], ◌∷◌, arith,
  ℕ_discrete, ltb, leb, ◌==◌, if◌then◌else◌, length, get_or, update,
}
use polx.Klib.Strings.Length.{Holds}
use polx.Klib.Strings.{
  Bytes, pad_loop, strncpy, strncpy_loop, memset, memset_loop, memcpy, memcpy_loop,
}

memset_loop_lem :
    (n : ℕ) (m : Bytes) (s c i a : ℕ)
    → memset_loop n m s c i a ≡ (if leb (s + i) a && ltb a (s + i + n) then c % 256 else m a)
unfolding memset_loop
memset_loop_lem zero m s c i a = ground arith
memset_loop_lem (suc n) m s c i a =
    ground (arith, memset_loop_lem n (update m (s + i) (c % 256)) s c (i + 1) a)

-- `memset` fills the block with the low byte of its argument, and changes nothing else.
pub memset_lem :
    (m : Bytes) (s c n a : ℕ)
    → memset m s c n a ≡ (if leb s a && ltb a (s + n) then c % 256 else m a)
unfolding memset
memset_lem m s c n a = ground (arith, memset_loop_lem n m s c 0 a)

memcpy_loop_lem :
    (n : ℕ) (m : Bytes) (dest src i a : ℕ)
    → (dest ≤ src) ⊎ (src + i + n ≤ dest)
    → memcpy_loop n m dest src i a
      ≡ (if leb (dest + i) a && ltb a (dest + i + n) then m (src + (a - dest)) else m a)
unfolding memcpy_loop
memcpy_loop_lem zero m dest src i a h = ground arith
memcpy_loop_lem (suc n) m dest src i a h = ground (
  arith,
  memcpy_loop_lem n (update m (dest + i) (m (src + i))) dest src (i + 1) a,
  ap m {x = src + (a - dest)} {y = src + i},
  h,
)

-- `memcpy` copies a block to a place that is not inside it, and below it even where they overlap; nothing
-- else changes.
pub memcpy_lem :
    (m : Bytes) (dest src count a : ℕ)
    → (dest ≤ src) ⊎ (src + count ≤ dest)
    → memcpy m dest src count a
      ≡ (if leb dest a && ltb a (dest + count) then m (src + (a - dest)) else m a)
unfolding memcpy
memcpy_lem m dest src count a h = ground (arith, memcpy_loop_lem count m dest src 0 a, h)

pad_loop_lem :
    (n : ℕ) (m : Bytes) (dst i a : ℕ)
    → pad_loop n m dst i a ≡ (if leb (dst + i) a && ltb a (dst + i + n) then 0 else m a)
unfolding pad_loop
pad_loop_lem zero m dst i a = ground arith
pad_loop_lem (suc n) m dst i a = ground (arith, pad_loop_lem n (update m (dst + i) 0) dst (i + 1) a)

-- A string is not changed by a write elsewhere.
pub Holds-update :
    (m : Bytes) (p : ℕ) (s : List ℕ) (a v : ℕ)
    → Holds m p s
    → (a < p) ⊎ (p + length s < a)
    → Holds (update m a v) p s
Holds-update m p [] a v h far = ground (arith, h, far)
Holds-update m p (c ∷ s) a v h far =
    (ground (arith, h.0, far), h.1, Holds-update m (p + 1) s a v h.2 (ground (arith, far)))

get_or-tail : (c : ℕ) (s : List ℕ) (r : ℕ) → 0 < r → get_or (c ∷ s) r 0 ≡ get_or s (r - 1) 0
get_or-tail c s zero h = absurd (omega arith)
get_or-tail c s (suc r) h = ap (λ k. get_or s k 0) (omega arith)

strncpy_loop_lem :
    (n : ℕ) (s : List ℕ) (m : Bytes) (dst src i a : ℕ)
    → Holds m (src + i) s
    → (dst + i + n ≤ src + i) ⊎ (src + i + length s < dst + i)
    → strncpy_loop n m dst src i a
      ≡ (if leb (dst + i) a && ltb a (dst + i + n) then get_or s (a - (dst + i)) 0 else m a)
unfolding strncpy_loop
strncpy_loop_lem zero s m dst src i a h far = ground arith
strncpy_loop_lem (suc n) [] m dst src i a h far = rw h (pad_loop_lem (suc n) m dst i a)
strncpy_loop_lem (suc n) (c ∷ s) m dst src i a h far =
    let q : src + i + 1 ≡ src + (i + 1) = omega arith in
    let copied : Holds (update m (dst + i) (m (src + i))) (src + (i + 1)) s =
      rw q at (Holds-update m (src + i + 1) s (dst + i) (m (src + i)) h.2 (ground (arith, far))) in
    let d : a - (dst + i) - 1 ≡ a - (dst + (i + 1)) = omega arith in
    let nonzero : (m (src + i) == 0) ≡ false = ground (arith, h.0, h.1) in
    rw (nonzero, strncpy_loop_lem n s _ dst src (i + 1) a copied (ground (arith, far)), ← d)
      (elim (ℕ_discrete a (dst + i)) [
        | yes e ↦ (let z : a - (dst + i) ≡ 0 = omega arith in rw z (ground (arith, h.0)))
        | no ne ↦ ground (arith, get_or-tail c s (a - (dst + i)))
      ])

-- `strncpy` leaves the text of the source, then zeros up to `n` bytes in all, at the destination, and
-- changes nothing else, if source and destination do not overlap.
pub strncpy_lem :
    (s : List ℕ) (m : Bytes) (dst src n a : ℕ)
    → Holds m src s
    → (dst + n ≤ src) ⊎ (src + length s < dst)
    → strncpy m dst src n a ≡ (if leb dst a && ltb a (dst + n) then get_or s (a - dst) 0 else m a)
unfolding strncpy
strncpy_lem s m dst src n a h far =
    let q : src ≡ src + 0 = omega arith in
    let d : a - (dst + 0) ≡ a - dst = omega arith in
    let r = strncpy_loop_lem n s m dst src 0 a (rw q at h) (ground (arith, far)) in
    ground (arith, rw d at r)
