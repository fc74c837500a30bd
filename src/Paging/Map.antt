-- ===== src/Paging/Map.antt =====
-- Mapping and unmapping a page of the current directory.
use polx.Base.{
  ℕ, ◌+◌, ◌%◌, ◌^◌, ◌<◌, ◌≡◌, refl, sym, ap, ◌∙◌, ◌≢◌, inl, inr, true, arith, ne→==, Bool-cases,
  done, Ends,
}
use polx.Paging.{
  Mmu, align, is_entry_present, get_pd_idx, get_pt_idx, current, write, map_in, pg_map, pg_unmap,
}
use polx.Paging.Access.{page_at, Leads, Shows, load-pd, store-pd, store-pts, get_page-page_at}
use polx.Paging.Entries.{
  OwnTables, word_kept, word_written, odd-nonzero, page_at-kept, page_at-written, other-pages,
}

-- Where the table is there, one word is written.
pub pg_map-eq :
    (m : Mmu) (paddr vaddr flags frame : ℕ)
    → Shows m current m.cr3
    → vaddr < 2 ^ 32
    → is_entry_present (m.ram m.cr3 (get_pd_idx vaddr)) ≡ true
    → pg_map m paddr vaddr flags frame
      ≡ done (
          write m
            (align (m.ram m.cr3 (get_pd_idx vaddr)))
            (get_pt_idx vaddr % 1024)
            (align paddr + flags))
unfolding pg_map map_in
pg_map-eq m paddr vaddr flags frame shows small there =
    rw (load-pd m current m.cr3 (get_pd_idx vaddr) shows) (
      rw (odd-nonzero _ there) (
        store-pts m current m.cr3 vaddr _ (get_pt_idx vaddr % 1024) (align paddr + flags) shows
          small (record { present = there; to = refl })))

-- Below the windows at 0xff800000, where the directory is recursive, its tables are frames of their own and
-- the table of the page is there, the page is mapped to its frame with its flags, if these are less than 8
-- and have the present bit; no other page below the windows changes.
pub pg_map-page_at :
    (m : Mmu) (paddr vaddr flags frame : ℕ)
    → Shows m current m.cr3
    → OwnTables m
    → vaddr < 0xff800000
    → is_entry_present (m.ram m.cr3 (get_pd_idx vaddr)) ≡ true
    → flags < 8
    → flags % 2 ≡ 1
    → Ends
        (λ u.
          (page_at u m.cr3 vaddr ≡ align paddr + flags)
          × ((v : ℕ)
              → v < 0xff800000
              → get_pt_idx v ≢ get_pt_idx vaddr
              → page_at u m.cr3 v ≡ page_at m m.cr3 v))
        (pg_map m paddr vaddr flags frame)
pg_map-page_at m paddr vaddr flags frame shows tables low there small odd =
    let present : is_entry_present (align paddr + flags) ≡ true = ground (arith, small, odd) in
    let own = tables.directory (get_pd_idx vaddr) (omega (arith, low)) there in
    rw (pg_map-eq m paddr vaddr flags frame shows (omega (arith, low)) there) (
      page_at-written m m.cr3 vaddr (align paddr + flags) there own ∙ rw present refl,
      other-pages m vaddr (align paddr + flags) tables low there,
    )

-- An entry below the windows is written, and the directory is still recursive.
Shows-write :
    (m : Mmu) (i w : ℕ) → Shows m current m.cr3 → i < 1022 → Shows (write m m.cr3 i w) current m.cr3
Shows-write m i w shows low =
    let same = word_kept m m.cr3 i w m.cr3 1023 (inr (omega (arith, low))) in
    let leads : Leads (write m m.cr3 i w) m.cr3 1023 m.cr3 = record {
      present = rw same shows.recursive.present;
      to = rw same shows.recursive.to;
    } in
    record { entry = leads; recursive = leads }

-- Where the entry of the directory is 0, the frame becomes the table.
pg_map-new :
    (m : Mmu) (paddr vaddr flags frame : ℕ)
    → Shows m current m.cr3
    → vaddr < 0xff800000
    → m.ram m.cr3 (get_pd_idx vaddr) ≡ 0
    → pg_map m paddr vaddr flags frame
      ≡ done (
          write
            (write m m.cr3 (get_pd_idx vaddr) (align frame + 3))
            (align frame)
            (get_pt_idx vaddr % 1024)
            (align paddr + flags))
unfolding pg_map map_in
pg_map-new m paddr vaddr flags frame shows low missing =
    let d = get_pd_idx vaddr in
    let e = align frame + 3 in
    let m' = write m m.cr3 d e in
    let here = word_written m m.cr3 d e in
    let leads : Leads m' m.cr3 d (align frame) = record {
      present = rw here (ground arith);
      to = rw here (omega arith);
    } in
    rw (load-pd m current m.cr3 d shows) (
      rw missing (
        rw (store-pd m current m.cr3 d e shows) (
          store-pts m' current m.cr3 vaddr (align frame) (get_pt_idx vaddr % 1024)
            (align paddr + flags) (Shows-write m d e shows (omega (arith, low)))
            (omega (arith, low)) leads)))

-- Where the entry of the directory is 0, below the windows and in a recursive directory, a frame becomes the
-- table without being cleared: another page of the table is mapped as the words that the frame held say.
pub pg_map-uncleared :
    (m : Mmu) (paddr vaddr flags v frame : ℕ)
    → Shows m current m.cr3
    → vaddr < 0xff800000
    → m.ram m.cr3 (get_pd_idx vaddr) ≡ 0
    → align frame ≢ m.cr3
    → get_pd_idx v ≡ get_pd_idx vaddr
    → get_pt_idx v ≢ get_pt_idx vaddr
    → is_entry_present (m.ram (align frame) (get_pt_idx v % 1024)) ≡ true
    → Ends
        (λ u. page_at u m.cr3 v ≡ m.ram (align frame) (get_pt_idx v % 1024))
        (pg_map m paddr vaddr flags frame)
pg_map-uncleared m paddr vaddr flags v frame shows low missing own same ne stale =
    let d = get_pd_idx vaddr in
    let t = align frame in
    let e = align frame + 3 in
    let m' = write m m.cr3 d e in
    let here : m'.ram m.cr3 (get_pd_idx v) ≡ e =
      ap (m'.ram m.cr3) same ∙ word_written m m.cr3 d e in
    let leads : align (m'.ram m.cr3 (get_pd_idx v)) ≡ t = ap align here ∙ omega arith in
    let there : is_entry_present (m'.ram m.cr3 (get_pd_idx v)) ≡ true = rw here (ground arith) in
    let kept : m'.ram t (get_pt_idx v % 1024) ≡ m.ram t (get_pt_idx v % 1024) =
      word_kept m m.cr3 d e t (get_pt_idx v % 1024) (inl (λ k. own (sym k))) in
    rw (pg_map-new m paddr vaddr flags frame shows low missing) (
      page_at-kept m' t (get_pt_idx vaddr % 1024) (align paddr + flags) m.cr3 v (inl own)
        (λ _. inr (λ k. ne (omega (arith, same, k))))
      ∙ found m' m.cr3 v t there leads (rw kept stale)
      ∙ kept)
  where
    found :
        (m : Mmu) (d v t : ℕ)
        → is_entry_present (m.ram d (get_pd_idx v)) ≡ true
        → align (m.ram d (get_pd_idx v)) ≡ t
        → is_entry_present (m.ram t (get_pt_idx v % 1024)) ≡ true
        → page_at m d v ≡ m.ram t (get_pt_idx v % 1024)
    found m d v t there to present = rw (there, to, present) refl

-- A page that is there has its table.
mapped-table :
    (m : Mmu) (d vaddr : ℕ)
    → page_at m d vaddr ≢ 0
    → is_entry_present (m.ram d (get_pd_idx vaddr)) ≡ true
mapped-table m d vaddr mapped = elim (Bool-cases (is_entry_present (m.ram d (get_pd_idx vaddr)))) [
  | inl there ↦ there
  | inr missing ↦ absurd (mapped (rw missing refl))
]

-- Below the windows at 0xff800000, where the directory is recursive and its tables are frames of their own, a
-- page that is unmapped is no longer there, and no other page below the windows changes. What is returned is
-- not its frame, but always an address of the last page of memory.
pub pg_unmap-page_at :
    (m : Mmu) (vaddr : ℕ)
    → Shows m current m.cr3
    → OwnTables m
    → vaddr < 0xff800000
    → page_at m m.cr3 vaddr ≢ 0
    → Ends
        (λ r.
          (page_at r.0 m.cr3 vaddr ≡ 0)
          × ((v : ℕ)
              → v < 0xff800000
              → get_pt_idx v ≢ get_pt_idx vaddr
              → page_at r.0 m.cr3 v ≡ page_at m m.cr3 v)
          × (align r.1 ≡ 0xfffff000))
        (pg_unmap m vaddr)
unfolding pg_unmap
pg_unmap-page_at m vaddr shows tables low mapped =
    let there = mapped-table m m.cr3 vaddr mapped in
    let own = tables.directory (get_pd_idx vaddr) (omega (arith, low)) there in
    rw (get_page-page_at m current m.cr3 vaddr shows (omega (arith, low))) (
      rw (ne→== (page_at m m.cr3 vaddr) 0 mapped) (
        rw
          (store-pts m current m.cr3 vaddr _ (get_pt_idx vaddr % 1024) 0 shows (omega (arith, low))
            (record { present = there; to = refl }))
          (
            page_at-written m m.cr3 vaddr 0 there own,
            other-pages m vaddr 0 tables low there,
            omega arith,
          )))

-- A page that is not there is left, and the result is 0.
pub pg_unmap-missing :
    (m : Mmu) (vaddr : ℕ)
    → Shows m current m.cr3
    → vaddr < 2 ^ 32
    → page_at m m.cr3 vaddr ≡ 0
    → pg_unmap m vaddr ≡ done (m, 0)
unfolding pg_unmap
pg_unmap-missing m vaddr shows small missing =
    rw (get_page-page_at m current m.cr3 vaddr shows small ∙ ap done missing) refl
