-- ===== src/Vmalloc/Holes.antt =====
-- The ranges that `vmalloc` gave out, in order, and the holes between them.
use polx.Base.{
  ℕ, zero, suc, ◌+◌, ◌≤◌, ◌≡◌, refl, sym, ap, ◌⊎◌, inl, inr, true, ◌&&◌, List, [], ◌∷◌, ◌++◌, arith,
  ltb, leb, leb→le, ne→==, Bool-cases, length, Ptr, null, add_word, sub_word, Ends, Ends-map, head,
  last_or, Distinct, Chain,
}
use mathlib.Core.Path.{subst}
use polx.Vmalloc.{Headers, Used, vm_vmalloc_start, vm_vmalloc_end, hole_at_end, hole_behind}

abbrev pub lo : Headers → Ptr → ℕ
lo h r = (h r).vaddr

abbrev pub hi : Headers → Ptr → ℕ
hi h r = (h r).vaddr + (h r).size

-- The ranges start at `n` or higher, each behind the one before, and end in the area.
abbrev pub Placed : Headers → ℕ → List Ptr → Type 0
Placed h n [] = Unit
Placed h n (x ∷ xs) = (n ≤ lo h x) × (hi h x ≤ vm_vmalloc_end) × Placed h (hi h x) xs

-- where the last of the ranges ends, or `n`
abbrev pub hi_or : Headers → ℕ → List Ptr → ℕ
hi_or h n [] = n
hi_or h n (x ∷ xs) = hi_or h (hi h x) xs

-- What ends at `m` ends before the ranges, or in the area.
abbrev pub EndsBefore : Headers → ℕ → List Ptr → Type 0
EndsBefore h m [] = m ≤ vm_vmalloc_end
EndsBefore h m (y ∷ ys) = m ≤ lo h y

pub record IsUsed (u : Used) (xs : List Ptr) : Type 0 where
  pub chain : Chain (λ a. (u.headers a).next) (λ a. (u.headers a).prev) null xs
  pub distinct : Distinct xs
  pub first : u.first ≡ head xs
  pub last : u.last ≡ last_or null xs
  pub placed : Placed u.headers vm_vmalloc_start xs

pub Placed-insert :
    (h : Headers) (n : ℕ) (c : Ptr) (xs ys : List Ptr)
    → hi_or h n xs ≤ lo h c
    → EndsBefore h (hi h c) ys
    → Placed h n (xs ++ ys)
    → Placed h n (xs ++ c ∷ ys)
Placed-insert h n c [] [] le fits p = (le, fits, tt)
Placed-insert h n c [] (y ∷ ys) le fits p = (le, omega (arith, fits, p.1), (fits, p.1, p.2))
Placed-insert h n c (x ∷ xs) ys le fits p = (p.0, p.1, Placed-insert h (hi h x) c xs ys le fits p.2)

-- A hole of `size` bytes at `r.0`, behind the range `r.1`, which is the last of `left`.
pub record Hole (u : Used) (size : ℕ) (n : ℕ) (p : Ptr) (xs : List Ptr) (r : ℕ × Ptr) : Type 0 where
  pub left : List Ptr
  pub right : List Ptr
  pub whole : xs ≡ left ++ right
  pub prev : r.1 ≡ last_or p left
  pub above : hi_or u.headers n left ≤ r.0
  pub below : EndsBefore u.headers (r.0 + size) right

-- there is no hole, or this is one
abbrev pub Sought : (u : Used) (size : ℕ) (n : ℕ) (p : Ptr) (xs : List Ptr) → ℕ × Ptr → Type 0
Sought u size n p xs r = (r.0 ≡ 0) ⊎ Hole u size n p xs r

hole_at_end-Sought :
    (u : Used) (size : ℕ)
    → hi u.headers u.last ≤ vm_vmalloc_end
    → Sought u size (hi u.headers u.last) u.last [] (hole_at_end u size)
hole_at_end-Sought u size le =
    let l = u.headers u.last in
    let test =
      ltb (add_word l.vaddr l.size) vm_vmalloc_end
      && leb size (sub_word (sub_word vm_vmalloc_end l.vaddr) l.size) in
    elim (Bool-cases test) [
      | inl room ↦ rw room (
          inr (record {
            left = [];
            right = [];
            whole = refl;
            prev = refl;
            above = omega (arith, le);
            below = end_fits l.vaddr l.size size le room;
          }))
      | inr full ↦ rw full (inl refl)
    ]
  where
    end_fits :
        (v s n : ℕ)
        → v + s ≤ vm_vmalloc_end
        → (ltb (add_word v s) vm_vmalloc_end && leb n (sub_word (sub_word vm_vmalloc_end v) s))
          ≡ true
        → add_word v s + n ≤ vm_vmalloc_end
    end_fits v s n le room = ground arith

at_last :
    (u : Used) (size t : ℕ)
    → u.last ≡ t
    → hi u.headers t ≤ vm_vmalloc_end
    → Sought u size (hi u.headers t) t [] (hole_at_end u size)
at_last u size t e top =
    subst (λ (l : Ptr). Sought u size (hi u.headers l) l [] (hole_at_end u size)) e
      (hole_at_end-Sought u size (subst (λ (l : Ptr). hi u.headers l ≤ vm_vmalloc_end) (sym e) top))

-- a hole behind a later range
later :
    (u : Used) (size t y : ℕ) (xs : List Ptr) (r : ℕ × Ptr)
    → Sought u size (hi u.headers y) y xs r
    → Sought u size (hi u.headers t) t (y ∷ xs) r
later u size t y xs r (inl none_found) = inl none_found
later u size t y xs r (inr hole) = inr (record {
  left = y ∷ hole.left;
  right = hole.right;
  whole = ap (λ (l : List Ptr). y ∷ l) hole.whole;
  prev = hole.prev;
  above = hole.above;
  below = hole.below;
})

pub hole_behind-Sought :
    (fuel : ℕ) (u : Used) (size t : ℕ) (xs : List Ptr) (p : Ptr)
    → Chain (λ a. (u.headers a).next) (λ a. (u.headers a).prev) p (t ∷ xs)
    → hi u.headers t ≤ vm_vmalloc_end
    → Placed u.headers (hi u.headers t) xs
    → u.last ≡ last_or t xs
    → length xs ≤ fuel
    → Ends (Sought u size (hi u.headers t) t xs) (hole_behind fuel u size t)
unfolding hole_behind
hole_behind-Sought zero u size t [] p chain top placed last enough =
    rw chain.2 (at_last u size t last top)
hole_behind-Sought (suc n) u size t [] p chain top placed last enough =
    rw chain.2 (at_last u size t last top)
hole_behind-Sought zero u size t (y ∷ xs) p chain top placed last enough =
    absurd (omega (arith, enough))
hole_behind-Sought (suc n) u size t (y ∷ xs) p chain top placed last enough =
    let h = u.headers in
    let rest =
      hole_behind-Sought n u size y xs t chain.3 placed.1 placed.2 last (omega (arith, enough)) in
    rw chain.2 (
      rw (ne→== y null chain.3.0)
        (elim (Bool-cases (leb size (sub_word (sub_word (h y).vaddr (h t).vaddr) (h t).size))) [
          | inl room ↦ rw room (
              inr (record {
                left = [];
                right = y ∷ xs;
                whole = refl;
                prev = refl;
                above = omega (arith, top);
                below = omega (arith, leb→le _ _ room, placed.0, placed.1, top);
              }))
          | inr full ↦ rw full (
              Ends-map (Sought u size (hi h y) y xs) (Sought u size (hi h t) t (y ∷ xs))
                (hole_behind n u size y) (λ r s. later u size t y xs r s) rest)
        ]))
