-- ===== src/Paging/Window.antt =====
-- The directory of another address space, made visible for one access.
use polx.Base.{
  ℕ, ◌%◌, ◌^◌, ◌<◌, ◌≡◌, refl, sym, ap, ◌∙◌, ◌≢◌, inl, inr, ◌&&◌, arith, ℕ_discrete, ◌==◌,
  if◌then◌else◌, ne→==, done, Ends,
}
use polx.Paging.{
  Mmu, align, or_present_rw, get_pd_idx, current, external, write, pg_unmap_from, pg_get_frame_from,
}
use polx.Paging.Access.{page_at, Leads, Shows, get_page-page_at, set_expd-eq}
use polx.Paging.Entries.{word_kept, word_written, page_at-kept}

-- the memory in which entry 1022 of the current directory shows `pd`
abbrev pub showing : Mmu → (pd : ℕ) → Mmu
showing m pd = write m m.cr3 external (or_present_rw pd)

Shows-showing : (m : Mmu) (pd : ℕ) → Shows m current m.cr3 → Shows (showing m pd) current m.cr3
Shows-showing m pd shows =
    let same = word_kept m m.cr3 external (or_present_rw pd) m.cr3 1023 (inr (omega arith)) in
    let leads : Leads (showing m pd) m.cr3 1023 m.cr3 = record {
      present = rw same shows.recursive.present;
      to = rw same shows.recursive.to;
    } in
    record { entry = leads; recursive = leads }

showing-Shows :
    (m : Mmu) (pd : ℕ)
    → pd % 4096 ≡ 0
    → pd ≢ m.cr3
    → Leads m pd 1023 pd
    → Shows (showing m pd) external pd
showing-Shows m pd aligned other recursive =
    let e = or_present_rw pd in
    let here = word_written m m.cr3 external e in
    let same = word_kept m m.cr3 external e pd 1023 (inl (λ k. other (sym k))) in
    record {
      entry = record { present = rw here (ground arith); to = rw here (omega (arith, aligned)) };
      recursive = record { present = rw same recursive.present; to = rw same recursive.to };
    }

-- Entry 1022 as a whole look leaves it.
looked :
    (m : Mmu) (pd a i : ℕ)
    → (write (showing m pd) m.cr3 external (or_present_rw (m.ram m.cr3 external))).ram a i ≡ (
        if (m.cr3 == a) && (external == i) then or_present_rw (m.ram m.cr3 external) else m.ram a i)
looked m pd a i = elim (ℕ_discrete m.cr3 a) [
  | yes e ↦ elim (ℕ_discrete external i) [
    | yes w ↦ ground (arith, e, w)
    | no nw ↦ ground (arith, e, nw)
  ]
  | no ne ↦ rw (ne→== m.cr3 a ne) refl
]

-- A look at a page of another directory gives its entry, where both directories are recursive and the current
-- one is not a table of the other. It changes one word of the memory: entry 1022 of the current directory has
-- its present and write bits set, so where it was 0 it shows frame 0 from then on.
pub pg_get_frame_from_lem :
    (m : Mmu) (pd vaddr : ℕ)
    → Shows m current m.cr3
    → pd % 4096 ≡ 0
    → pd ≢ m.cr3
    → Leads m pd 1023 pd
    → align (m.ram pd (get_pd_idx vaddr)) ≢ m.cr3
    → vaddr < 2 ^ 32
    → Ends
        (λ r.
          (r.1 ≡ page_at m pd vaddr)
          × ((a i : ℕ)
              → r.0.ram a i ≡ (
                  if (m.cr3 == a) && (external == i)
                  then or_present_rw (m.ram m.cr3 external)
                  else m.ram a i)))
        (pg_get_frame_from m pd vaddr)
unfolding pg_get_frame_from
pg_get_frame_from_lem m pd vaddr shows aligned other recursive table small =
    let apart : m.cr3 ≢ pd = λ k. other (sym k) in
    rw (set_expd-eq m pd shows) (
      rw
        (get_page-page_at (showing m pd) external pd vaddr
          (showing-Shows m pd aligned other recursive) small)
        (rw (set_expd-eq (showing m pd) (m.ram m.cr3 external) (Shows-showing m pd shows)) (
          page_at-kept m m.cr3 external (or_present_rw pd) pd vaddr (inl apart)
              (λ _. inl (λ k. table (sym k))),
          looked m pd,
        )))

-- `pg_unmap_from` of a page that is not mapped returns without showing the directory that was visible before.
pub pg_unmap_from-left :
    (m : Mmu) (pd vaddr : ℕ)
    → Shows m current m.cr3
    → pd % 4096 ≡ 0
    → pd ≢ m.cr3
    → Leads m pd 1023 pd
    → vaddr < 2 ^ 32
    → page_at (showing m pd) pd vaddr ≡ 0
    → pg_unmap_from m pd vaddr ≡ done (showing m pd, 0)
unfolding pg_unmap_from
pg_unmap_from-left m pd vaddr shows aligned other recursive small missing =
    rw (set_expd-eq m pd shows) (
      rw
        (get_page-page_at (showing m pd) external pd vaddr
            (showing-Shows m pd aligned other recursive) small
          ∙ ap done missing)
        refl)
