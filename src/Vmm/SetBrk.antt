-- ===== src/Vmm/SetBrk.antt =====
-- `vmm_set_brk` as a whole.
use polx.Base.{
  ℕ, zero, suc, ◌+◌, ◌-◌, ◌/◌, ◌^◌, ◌≤◌, ◌<◌, ◌≡◌, refl, ap, ◌∙◌, ◌≢◌, true, some, arith, ltb,
  lt→ltb, lt→not_leb, le→not_ltb, length, get_elem?, null, sub_word,
}
use polx.Vmm.{Regions, Aspace, Brk, end_of, shrink, move_brk, refused, pages_down, page_size}
use polx.Vmm.Break.{Moved}

-- The data ends at `vaddr`, and the result is where it ended.
abbrev pub Granted : Aspace → (vaddr : ℕ) → Brk → Type 0
Granted sp vaddr b = (b.result ≡ some sp.data_end) × (b.space.data_end ≡ vaddr)

-- What `vmm_set_brk` answers, where `found` is the region of the data.
pub record Answered (h : Regions) (sp : Aspace) (vaddr found : ℕ) (b : Brk) : Type 0 where
  pub moved : Moved h sp vaddr b
  pub below : vaddr < sp.elf_end → b ≡ refused h sp
  pub granted :
      sp.data_end ≢ sp.elf_end → sp.elf_end < vaddr → vaddr ≤ end_of h found → Granted sp vaddr b

shrink-unmapped :
    (h : Regions) (sp : Aspace) (reg vaddr : ℕ)
    → vaddr < 2 ^ 32
    → sp.data_end < 2 ^ 32
    → sp.elf_end < vaddr
    → 4096 ≤ sub_word sp.data_end vaddr
    → (shrink h sp reg vaddr).unmapped
      ≡ pages_down (sub_word sp.data_end vaddr / 4096) (end_of h reg)
unfolding shrink
shrink-unmapped h sp reg vaddr small low above pages =
    let room : ltb sp.elf_end (sub_word sp.data_end (sub_word sp.data_end vaddr)) ≡ true =
      lt→ltb _ _ (omega (arith, small, low, above)) in
    rw room (rw (le→not_ltb (sub_word sp.data_end vaddr) page_size pages) refl)

length-pages_down : (ctr v : ℕ) → length (pages_down ctr v) ≡ ctr
unfolding pages_down
length-pages_down zero v = refl
length-pages_down (suc n) v = ap suc (length-pages_down n (sub_word v page_size))

pages_down-first : (ctr v : ℕ) → 0 < ctr → get_elem? (pages_down ctr v) 0 ≡ some v
unfolding pages_down
pages_down-first zero v h = absurd (omega (arith, h))
pages_down-first (suc n) v h = refl

-- A break that grows past the end of the last region takes the way of one that shrinks: it unmaps as many pages as 2^32 less the growth holds.
pub move_brk-no_next :
    (h : Regions) (sp : Aspace) (reg vaddr : ℕ)
    → vaddr < 2 ^ 32
    → sp.data_end < vaddr
    → end_of h reg < vaddr
    → (h reg).next ≡ null
    → sp.elf_end < vaddr
    → vaddr + 4096 ≤ sp.data_end + 2 ^ 32
    → length (move_brk h sp reg vaddr).unmapped ≡ (2 ^ 32 - (vaddr - sp.data_end)) / 4096
unfolding move_brk
move_brk-no_next h sp reg vaddr small up past last above room =
    let size : sub_word sp.data_end vaddr ≡ 2 ^ 32 - (vaddr - sp.data_end) =
      omega (arith, small, up) in
    let pages =
      shrink-unmapped h sp reg vaddr small (omega (arith, small, up)) above
        (omega (arith, size, room, up)) in
    rw (lt→ltb _ _ up) (
      rw (lt→not_leb _ _ past) (
        rw last (
          rw pages (
            length-pages_down (sub_word sp.data_end vaddr / 4096) (end_of h reg)
            ∙ ap (λ (n : ℕ). n / 4096) size))))

-- A break that shrinks by a page or more unmaps pages from the end of the region down: the first is the page behind the region.
pub shrink-first :
    (h : Regions) (sp : Aspace) (reg vaddr : ℕ)
    → sp.data_end < 2 ^ 32
    → sp.elf_end < vaddr
    → vaddr + 4096 ≤ sp.data_end
    → get_elem? (shrink h sp reg vaddr).unmapped 0 ≡ some (end_of h reg)
shrink-first h sp reg vaddr low above less =
    let size : sub_word sp.data_end vaddr ≡ sp.data_end - vaddr = omega (arith, low, less) in
    rw
      (shrink-unmapped h sp reg vaddr (omega (arith, low, less)) low above
        (omega (arith, size, less)))
      (pages_down-first (sub_word sp.data_end vaddr / 4096) (end_of h reg)
        (omega (arith, size, less)))
