-- ===== src/Pmm/Count.antt =====
-- Counting the free frames.
use polx.Base.{
  ℕ, zero, suc, ◌+◌, ◌≤◌, ◌<◌, ◌≡◌, refl, ap, ◌≢◌, inl, inr, Bool, false, not, arith, ltb, ◌==◌,
  if◌then◌else◌, Bool-cases,
}
use polx.Pmm.{truth}

-- how many of the first `n` are not taken
unfoldable pub count_free : ℕ → (ℕ → Bool) → ℕ
count_free zero taken = 0
count_free (suc n) taken = count_free n taken + truth (not (taken n))

-- what index `i` adds to the count
abbrev pub share : ℕ → ℕ → Bool → ℕ
share n i b = if ltb i n then truth (not b) else 0

pub count_free-update :
    (n i : ℕ) (taken taken' : ℕ → Bool) (v : Bool)
    → ((j : ℕ) → taken' j ≡ (if i == j then v else taken j))
    → count_free n taken' + share n i (taken i) ≡ count_free n taken + share n i v
unfolding count_free
count_free-update zero i taken taken' v h = ground arith
count_free-update (suc n) i taken taken' v h =
    ground (arith, h n, count_free-update n i taken taken' v h, ap taken)

-- A positive count has a free frame.
pub count_free-pos :
    (n : ℕ) (taken : ℕ → Bool) → count_free n taken ≢ 0 → (k : ℕ) × (k < n) × (taken k ≡ false)
unfolding count_free
count_free-pos zero taken h = absurd (h refl)
count_free-pos (suc n) taken h = elim (Bool-cases (taken n)) [
  | inl e ↦ (let (k, lt, free) = count_free-pos n taken (ground arith) in (k, omega arith, free))
  | inr e ↦ (n, omega arith, e)
]

pub count_free-le : (n : ℕ) (taken : ℕ → Bool) → count_free n taken ≤ n
unfolding count_free
count_free-le zero taken = omega arith
count_free-le (suc n) taken = ground (arith, count_free-le n taken)
