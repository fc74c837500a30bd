-- ===== src/Paging/Tests.antt =====
-- Runs on two page directories.
use polx.Base.{
  ℕ, ◌+◌, ◌*◌, ◌<◌, ◌≡◌, refl, sym, ◌∙◌, ◌≢◌, true, ◌&&◌, arith, ◌==◌, if◌then◌else◌, Ends,
}
use mathlib.Core.Path.{subst}
use polx.Paging.{
  Mmu, align, is_entry_present, get_pt_idx, current, external, frame_at, load, store, get_page,
  map_in, pg_map, pg_map_to, pg_unmap, pg_get_frame_from, set_expd,
}
use polx.Paging.Access.{page_at, Leads, Shows}
use polx.Paging.Entries.{OwnTables}
use polx.Paging.Map.{pg_map-page_at, pg_map-uncleared, pg_unmap-page_at}
use polx.Paging.Window.{pg_get_frame_from_lem}

-- Two directories, at 0x1000 and 0x2000, each with a table for the first 4 MiB and with page 5; the frame at
-- 0xb000 holds odd words.
abbrev words : (frame idx : ℕ) → ℕ
words f i =
    if f == 0x1000
    then (if i == 0 then 0x7003 else if i == 1023 then 0x1003 else 0)
    else if f == 0x2000
    then (if i == 0 then 0x8003 else if i == 1023 then 0x2003 else 0)
    else if f == 0x7000
    then (if i == 5 then 0xa003 else 0)
    else if f == 0x8000
    then (if i == 5 then 0xd003 else 0)
    else if f == 0xb000
    then 2 * i + 1
    else 0

abbrev two_directories : Mmu
two_directories = record { cr3 = 0x1000; ram = words }

first-Shows : Shows two_directories current 0x1000
first-Shows = record {
  entry = record { present = refl; to = refl };
  recursive = record { present = refl; to = refl };
}

second-Leads : Leads two_directories 0x2000 1023 0x2000
second-Leads = record { present = refl; to = refl }

only_table : (i : ℕ) → i < 1022 → is_entry_present (words 0x1000 i) ≡ true → i ≡ 0
only_table i low there = ground (arith, low, there)

own-OwnTables : OwnTables two_directories
own-OwnTables = record {
  directory = λ i low there e.
      absurd (
        subst (λ k. align (words 0x1000 k) ≢ 0x1000) (sym (only_table i low there)) (omega arith)
          e);
  apart = λ i j low ne there_i there_j.
      absurd (ne (only_table i low.0 there_i ∙ sym (only_table j low.1 there_j)));
}

pg_map-page_at_example :
    Ends
      (λ u.
        (page_at u 0x1000 0x6000 ≡ 0xc000 + 3)
        × ((v : ℕ)
            → v < 0xff800000
            → get_pt_idx v ≢ get_pt_idx 0x6000
            → page_at u 0x1000 v ≡ page_at two_directories 0x1000 v))
      (pg_map two_directories 0xc000 0x6000 3 0xb000)
pg_map-page_at_example =
    pg_map-page_at two_directories 0xc000 0x6000 3 0xb000 first-Shows own-OwnTables (omega arith)
      refl (omega arith) (omega arith)

pg_map-uncleared_example :
    Ends (λ u. page_at u 0x1000 0x805000 ≡ 11) (pg_map two_directories 0xc000 0x800000 3 0xb000)
pg_map-uncleared_example =
    pg_map-uncleared two_directories 0xc000 0x800000 3 0x805000 0xb000 first-Shows (omega arith)
      refl (omega arith) (omega arith) (omega arith) refl

pg_unmap-page_at_example :
    Ends
      (λ r.
        (page_at r.0 0x1000 0x5000 ≡ 0)
        × ((v : ℕ)
            → v < 0xff800000
            → get_pt_idx v ≢ get_pt_idx 0x5000
            → page_at r.0 0x1000 v ≡ page_at two_directories 0x1000 v)
        × (align r.1 ≡ 0xfffff000))
      (pg_unmap two_directories 0x5000)
pg_unmap-page_at_example =
    pg_unmap-page_at two_directories 0x5000 first-Shows own-OwnTables (omega arith) (omega arith)

pg_get_frame_from_lem_example :
    Ends
      (λ r.
        (r.1 ≡ 0xd003)
        × ((a i : ℕ) → r.0.ram a i ≡ (if (0x1000 == a) && (external == i) then 3 else words a i)))
      (pg_get_frame_from two_directories 0x2000 0x5000)
pg_get_frame_from_lem_example =
    pg_get_frame_from_lem two_directories 0x2000 0x5000 first-Shows (omega arith) (omega arith)
      second-Leads (omega arith) (omega arith)

-- a page of the other directory is mapped
map_to_other :
    Ends
      (λ u. page_at u 0x2000 0x6000 ≡ 0xc007)
      (pg_map_to two_directories 0x2000 0xc000 0x6000 7 0xb000)
unfolding pg_map_to set_expd map_in get_page load store frame_at
map_to_other = refl

-- Through the recursive entry a mapping at 0xffc00000 is one of a whole table.
map_table : Ends (λ u. page_at u 0x1000 0x5000 ≡ 11) (pg_map two_directories 0xb000 0xffc00000 3 0)
unfolding pg_map map_in load store frame_at
map_table = refl
