-- ===== src/Vmalloc/Tests.antt =====
-- Runs with two ranges and a hole between them.
use polx.Base.{ℕ, ◌≡◌, refl, [], ◌∷◌, arith, ◌==◌, if◌then◌else◌, ◌>>=◌, Ends}
use polx.Vmalloc.{
  Header, Used, PhyType, hole_behind, find_hole_in_as, insert_region, vmalloc, vfree, remove_region,
}
use polx.Vmalloc.Holes.{IsUsed}
use polx.Vmalloc.Place.{Allocated, OrPanics, vmalloc-Allocated}

abbrev header : (vaddr size prev next : ℕ) → Header
header v n p q = record { vaddr = v; size = n; phy_type = PhyType.on_demand; prev = p; next = q }

abbrev two_ranges : Used
two_ranges = record {
  headers = λ a.
      if a == 16
      then header 0xd0000000 0x1000 0 32
      else if a == 32
      then header 0xd0004000 0x2000 16 0
      else header 0 0 0 0;
  first = 16;
  last = 32;
  used_pages = 3;
}

two_ranges-IsUsed : IsUsed two_ranges (16 ∷ 32 ∷ [])
two_ranges-IsUsed = record {
  chain = omega arith;
  distinct = omega arith;
  first = refl;
  last = refl;
  placed = omega arith;
}

vmalloc-Allocated_example :
    OrPanics
      (Allocated 48 0x2000 (16 ∷ 32 ∷ []))
      (vmalloc 2 two_ranges 5000 PhyType.on_demand 48 0 (λ i. 0))
vmalloc-Allocated_example =
    vmalloc-Allocated 2 two_ranges 5000 PhyType.on_demand 48 0 (λ i. 0) (16 ∷ 32 ∷ [])
      two_ranges-IsUsed (omega arith) (omega arith) (omega arith) (omega arith)

-- the hole is taken, and the range is given back
take_and_free :
    Ends
      (λ out. (out.0.used_pages ≡ 3) × (out.0.first ≡ 16) × (out.0.last ≡ 32))
      (vmalloc 2 two_ranges 5000 PhyType.on_demand 48 0 (λ i. 0) >>= λ r. vfree 3 r.0 r.2)
unfolding vmalloc find_hole_in_as hole_behind insert_region vfree remove_region
take_and_free = (refl, refl, refl)
