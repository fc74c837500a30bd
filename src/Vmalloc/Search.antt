-- ===== src/Vmalloc/Search.antt =====
-- The search for a hole, `_find_hole_in_as`.
use polx.Base.{
  ℕ, ◌+◌, ◌≤◌, ◌≡◌, refl, ap, inl, inr, true, ◌&&◌, List, [], ◌∷◌, arith, ltb, leb, if◌then◌else◌,
  Bool-cases, length, Ptr, null, sub_word, Outcome, done, Ends, Ends-map,
}
use polx.Vmalloc.{Used, vm_vmalloc_start, vm_vmalloc_end, hole_behind, find_hole_in_as}
use polx.Vmalloc.Holes.{hi, IsUsed, Sought, hole_behind-Sought}

-- `find_hole_in_as`, from the range `x` on
abbrev hole_from : (fuel : ℕ) → Used → (size x : ℕ) → Outcome (ℕ × Ptr)
hole_from fuel u size x =
    let f = u.headers x in
    if ltb vm_vmalloc_start f.vaddr && leb size (sub_word f.vaddr vm_vmalloc_start)
    then done (vm_vmalloc_start, null)
    else hole_behind fuel u size x

find_hole_in_as-from :
    (fuel : ℕ) (u : Used) (size x : ℕ)
    → u.first ≡ x
    → find_hole_in_as fuel u size ≡ hole_from fuel u size x
unfolding find_hole_in_as
find_hole_in_as-from fuel u size x e = ap (hole_from fuel u size) e

pub find_hole_in_as-Sought :
    (fuel : ℕ) (u : Used) (size x : ℕ) (xs : List Ptr)
    → IsUsed u (x ∷ xs)
    → length xs ≤ fuel
    → Ends (Sought u size vm_vmalloc_start null (x ∷ xs)) (find_hole_in_as fuel u size)
find_hole_in_as-Sought fuel u size x xs is enough =
    let h = u.headers in
    let behind =
      hole_behind-Sought fuel u size x xs null is.chain is.placed.1 is.placed.2 is.last enough in
    rw (find_hole_in_as-from fuel u size x is.first)
      (elim (Bool-cases
        (ltb vm_vmalloc_start (h x).vaddr && leb size (sub_word (h x).vaddr vm_vmalloc_start))) [
          | inl room ↦ rw room (
              inr (record {
                left = [];
                right = x ∷ xs;
                whole = refl;
                prev = refl;
                above = omega arith;
                below = start_fits (h x).vaddr (h x).size size is.placed.1 room;
              }))
          | inr full ↦ rw full (
              Ends-map (Sought u size (hi h x) x xs) (Sought u size vm_vmalloc_start null (x ∷ xs))
                (hole_behind fuel u size x) (λ r s. from_first r s) behind)
        ])
  where
    start_fits :
        (v s n : ℕ)
        → v + s ≤ vm_vmalloc_end
        → (ltb vm_vmalloc_start v && leb n (sub_word v vm_vmalloc_start)) ≡ true
        → vm_vmalloc_start + n ≤ v
    start_fits v s n le room = ground arith

    from_first :
        (r : ℕ × Ptr)
        → Sought u size (hi u.headers x) x xs r
        → Sought u size vm_vmalloc_start null (x ∷ xs) r
    from_first r (inl none_found) = inl none_found
    from_first r (inr hole) = inr (record {
      left = x ∷ hole.left;
      right = hole.right;
      whole = ap (λ (l : List Ptr). x ∷ l) hole.whole;
      prev = hole.prev;
      above = hole.above;
      below = hole.below;
    })
