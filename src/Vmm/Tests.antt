-- ===== src/Vmm/Tests.antt =====
-- Runs on an address space with two regions.
use polx.Base.{
  ℕ, ◌-◌, ◌/◌, ◌^◌, ◌≤◌, ◌≡◌, refl, true, false, [], ◌∷◌, arith, ◌==◌, if◌then◌else◌, length, done,
  Ends,
}
use polx.Vmm.{
  Region, Regions, Aspace, is_area_free, free_before, insert_region, create_region, find_region,
  move_brk, find_free_area, search_down, page_fault_handler, Fault,
}
use polx.Vmm.Regions.{IsSpace}
use polx.Vmm.Insert.{Holds, insert_region-IsSpace}
use polx.Vmm.Area.{is_area_free-overlap, is_area_free-insert_region}
use polx.Vmm.SetBrk.{move_brk-no_next}

abbrev region : (addr size flags prev next : ℕ) → Region
region a n f p q = record { addr = a; size = n; flags = f; prev = p; next = q }

-- code at 0x1000, data at 0x5000
abbrev two_regions : Regions
two_regions = λ r.
    if r == 16
    then region 0x1000 0x2000 4 0 32
    else if r == 32
    then region 0x5000 0x1000 6 16 0
    else region 0x9000 0x1000 6 0 0

abbrev space : Aspace
space = record {
  pd = 0x100000;
  code_entry = 0x1000;
  elf_end = 0x5000;
  data_end = 0x5800;
  stack_end = 0xbfff0000;
  stack_size = 0x1000;
  page_counter = 3;
  first = 16;
  last = 32;
}

two_regions-IsSpace : IsSpace two_regions space (16 ∷ 32 ∷ [])
two_regions-IsSpace = record {
  chain = omega arith;
  distinct = omega arith;
  first = refl;
  last = refl;
  ordered = omega arith;
}

insert_region-IsSpace_example :
    Ends (Holds (16 ∷ 32 ∷ 48 ∷ [])) (insert_region 2 two_regions space 48)
insert_region-IsSpace_example =
    insert_region-IsSpace 2 two_regions space 48 (16 ∷ 32 ∷ []) [] two_regions-IsSpace (omega arith)
      (omega arith) (omega arith) tt (omega arith) (omega arith) (omega arith)

is_area_free-overlap_example : is_area_free 2 two_regions space 0x2000 0x1000 ≡ done true
is_area_free-overlap_example =
    is_area_free-overlap 2 two_regions space 0x2000 0x1000 [] 16 32 [] two_regions-IsSpace
      (omega arith) (omega arith) (omega arith) (omega arith) (omega arith)

gap_is_free : is_area_free 2 two_regions space 0x3000 0x1000 ≡ done true
unfolding is_area_free free_before
gap_is_free = refl

is_area_free-insert_region_example :
    (0x4000 ≤ 0x5000)
    × Ends
        (Holds (16 ∷ 64 ∷ 32 ∷ []))
        (insert_region 2 (create_region two_regions 64 0x3000 0x1000 4) space 64)
is_area_free-insert_region_example =
    is_area_free-insert_region 2 two_regions space 64 0x3000 0x1000 4 (16 ∷ []) (32 ∷ [])
      two_regions-IsSpace (omega arith) (omega arith) (omega arith) (omega arith) (omega arith)
      (omega arith) (omega arith) (omega arith) gap_is_free

-- behind the last region
end_is_free : is_area_free 3 two_regions space 0x8000 0x1000 ≡ done true
unfolding is_area_free
end_is_free = refl

-- the end of the program's part of memory is a limit there
end_is_limited : is_area_free 3 two_regions space 0xbffff000 0x2000 ≡ done false
unfolding is_area_free
end_is_limited = refl

move_brk-no_next_example :
    length (move_brk two_regions space 32 0x7800).unmapped ≡ (2 ^ 32 - (0x7800 - 0x5800)) / 4096
move_brk-no_next_example =
    move_brk-no_next two_regions space 32 0x7800 (omega arith) (omega arith) (omega arith) refl
      (omega arith) (omega arith)

-- the highest free place between the data and the stack
free_area : find_free_area 4 two_regions space 0x2000 ≡ done 0xbffed000
unfolding find_free_area search_down is_area_free free_before
free_area = refl

-- a write to the code is refused
fault_on_code : page_fault_handler 4 two_regions space 0x1800 true true ≡ done (space, Fault.segv)
unfolding page_fault_handler find_region
fault_on_code = refl
