-- ===== src/Heap/Twice.antt =====
-- A chunk that is freed twice.
use polx.Base.{
  ◌≡◌, refl, ◌≢◌, inl, inr, Bool, true, false, not, ltb, leb, ◌==◌, if◌then◌else◌, ne→==, ==_self,
  Bool-cases, Option-cases, Ptr, null, Outcome, done, panic, fault, out_of_fuel, ◌>>=◌,
}
use mathlib.Core.Path.{subst}
use polx.Heap.{
  Heap, sortedbin_idx, mem2chunk, push_to_sizebin, find_suitable_bin, store_chunk,
  insert_in_sortedbin, mark_released, release, kfree, find_place,
}

-- If the run ends with a value, `P` holds of it.
abbrev pub IfDone {ℓ} : {A : Type ℓ} → (A → Type 0) → Outcome A → Type 0
IfDone P (done a) = P a
IfDone P panic = Unit
IfDone P fault = Unit
IfDone P out_of_fuel = Unit

IfDone-done {ℓ κ} :
    {A : Type ℓ} {B : Type κ} (P : B → Type 0) (m : Outcome A) (f : A → B)
    → ((a : A) → P (f a))
    → IfDone P (m >>= λ a. done (f a))
IfDone-done P (done a) f h = h a
IfDone-done P panic f h = tt
IfDone-done P fault f h = tt
IfDone-done P out_of_fuel f h = tt

pub IfDone-if {ℓ} :
    {A : Type ℓ} (P : A → Type 0) (b : Bool) (m n : Outcome A)
    → IfDone P m
    → IfDone P n
    → IfDone P (if b then m else n)
IfDone-if P true m n x y = x
IfDone-if P false m n x y = y

insert_in_sortedbin-is_initialized :
    (h : Heap) (c : Ptr)
    → IfDone (λ g. g.is_initialized ≡ h.is_initialized) (insert_in_sortedbin h c)
unfolding insert_in_sortedbin
insert_in_sortedbin-is_initialized h c =
    let P = λ (g : Heap). g.is_initialized ≡ h.is_initialized in
    let b = h.bins sortedbin_idx in
    IfDone-if P (b.counter == 0) _ _ refl (
      IfDone-if P (b.first == null) _ _ tt (
        IfDone-if P (ltb (h.chunks c).size (h.chunks b.first).size) _ _ refl (
          IfDone-if P (b.counter == 1) _ _ refl (
            IfDone-if P (b.last == null) _ _ tt (
              IfDone-if P (leb (h.chunks b.last).size (h.chunks c).size) _ _
                (IfDone-if P (b.last == null) _ _ tt refl)
                (IfDone-done P (find_place b.counter h.chunks c b.first) _ (λ k. refl)))))))

store_chunk-is_initialized :
    (h : Heap) (c : Ptr) → IfDone (λ g. g.is_initialized ≡ h.is_initialized) (store_chunk h c)
unfolding store_chunk push_to_sizebin
store_chunk-is_initialized h c = elim (Option-cases (find_suitable_bin h (h.chunks c).size)) [
  | inl e ↦ rw (e, store_chunk) (insert_in_sortedbin-is_initialized h c)
  | inr (i, e) ↦ rw (e, store_chunk) refl
]

mark_released-is_free : (h : Heap) (c : Ptr) → ((mark_released h c).chunks c).is_free ≡ true
unfolding mark_released
mark_released-is_free h c = rw (==_self c) refl

IfDone-bind {ℓ κ} :
    {A : Type ℓ} {B : Type κ} (P : A → Type 0) (Q : B → Type 0) (m : Outcome A) (f : A → B)
    → IfDone P m
    → ((a : A) → P a → Q (f a))
    → IfDone Q (m >>= λ a. done (f a))
IfDone-bind P Q (done a) f h k = k a h
IfDone-bind P Q panic f h k = tt
IfDone-bind P Q fault f h k = tt
IfDone-bind P Q out_of_fuel f h k = tt

-- Once a release succeeds, its chunk is free in a heap that is still initialised.
pub release-is_free :
    (h : Heap) (c : Ptr)
    → IfDone
        (λ g. (g.is_initialized ≡ h.is_initialized) × ((g.chunks c).is_free ≡ true))
        (release h c)
unfolding release
release-is_free h c =
    IfDone-bind (λ g. g.is_initialized ≡ h.is_initialized)
      (λ g. (g.is_initialized ≡ h.is_initialized) × ((g.chunks c).is_free ≡ true)) (store_chunk h c)
      (λ g. mark_released g c) (store_chunk-is_initialized h c)
      (λ g e. (marked g e, mark_released-is_free g c))
  where
    marked :
        (g : Heap)
        → g.is_initialized ≡ h.is_initialized
        → (mark_released g c).is_initialized ≡ h.is_initialized
    marked g e = unfold mark_released in e

kfree-free :
    (h : Heap) (p : Ptr) → p ≢ null → (h.chunks (mem2chunk p)).is_free ≡ true → kfree h p ≡ panic
unfolding kfree
kfree-free h p nz e = rw (ne→== p null nz) (elim (Bool-cases h.is_initialized) [
  | inl ready ↦ rw ready (rw e refl)
  | inr none_yet ↦ rw none_yet refl
])

kfree-IfDone :
    (P : Heap → Type 0) (h : Heap) (p : Ptr)
    → p ≢ null
    → IfDone P (release h (mem2chunk p))
    → IfDone P (kfree h p)
unfolding kfree
kfree-IfDone P h p nz is = rw (ne→== p null nz) (
    IfDone-if P (not h.is_initialized) _ _ tt
      (IfDone-if P (h.chunks (mem2chunk p)).is_free _ _ tt is))

pub IfDone-map {ℓ} :
    {A : Type ℓ} (P Q : A → Type 0) (m : Outcome A)
    → ((a : A) → P a → Q a)
    → IfDone P m
    → IfDone Q m
IfDone-map P Q (done a) f h = f a h
IfDone-map P Q panic f h = tt
IfDone-map P Q fault f h = tt
IfDone-map P Q out_of_fuel f h = tt

pub IfDone-value {ℓ} :
    {A : Type ℓ} (P : A → Type 0) (m : Outcome A) (a : A) → IfDone P m → m ≡ done a → P a
IfDone-value P m a h e = subst (IfDone P) e h

-- Once a pointer is freed, freeing it again is a panic, whatever bin its chunk went to.
pub kfree-kfree : (h g : Heap) (p : Ptr) → p ≢ null → kfree h p ≡ done g → kfree g p ≡ panic
kfree-kfree h g p nz e =
    IfDone-value (λ g. kfree g p ≡ panic) (kfree h p) g
      (kfree-IfDone (λ g. kfree g p ≡ panic) h p nz
        (IfDone-map
          (λ g. (g.is_initialized ≡ h.is_initialized) × ((g.chunks (mem2chunk p)).is_free ≡ true))
          (λ g. kfree g p ≡ panic) (release h (mem2chunk p)) (λ g r. kfree-free g p nz r.1)
          (release-is_free h (mem2chunk p))))
      e
