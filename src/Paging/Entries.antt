-- ===== src/Paging/Entries.antt =====
-- The pages that the write of one entry leaves as they are.
use polx.Base.{
  ℕ, ◌%◌, ◌<◌, ◌≡◌, refl, ◌≢◌, ◌⊎◌, inl, inr, true, false, arith, ℕ_discrete, ◌==◌, if◌then◌else◌,
  ne→==, ==_self, Bool-cases,
}
use polx.Paging.{Mmu, align, is_entry_present, get_pd_idx, get_pt_idx, write}
use polx.Paging.Access.{page_at}

-- The tables of the entries below the two windows are frames of their own.
pub record OwnTables (m : Mmu) : Type 0 where
  pub directory :
      (i : ℕ) → i < 1022 → is_entry_present (m.ram m.cr3 i) ≡ true → align (m.ram m.cr3 i) ≢ m.cr3
  pub apart :
      (i j : ℕ)
      → (i < 1022) × (j < 1022)
      → i ≢ j
      → is_entry_present (m.ram m.cr3 i) ≡ true
      → is_entry_present (m.ram m.cr3 j) ≡ true
      → align (m.ram m.cr3 i) ≢ align (m.ram m.cr3 j)

pub word_kept : (m : Mmu) (f i v g j : ℕ) → (f ≢ g) ⊎ (i ≢ j) → (write m f i v).ram g j ≡ m.ram g j
word_kept m f i v g j (inl ne) = rw (ne→== f g ne) refl
word_kept m f i v g j (inr ne) = elim (ℕ_discrete f g) [
  | yes e ↦ rw e (rw (==_self g) (rw (ne→== i j ne) refl))
  | no other ↦ rw (ne→== f g other) refl
]

pub word_written : (m : Mmu) (f i v : ℕ) → (write m f i v).ram f i ≡ v
word_written m f i v = rw (==_self f) (rw (==_self i) refl)

pub odd-nonzero : (e : ℕ) → is_entry_present e ≡ true → (e == 0) ≡ false
odd-nonzero e there = ground (arith, there)

-- A page stays when a word of another table, or another word of its table, is written.
pub page_at-kept :
    (m : Mmu) (f i w d v : ℕ)
    → (f ≢ d) ⊎ (i ≢ get_pd_idx v)
    → (is_entry_present (m.ram d (get_pd_idx v)) ≡ true
        → (f ≢ align (m.ram d (get_pd_idx v))) ⊎ (i ≢ get_pt_idx v % 1024))
    → page_at (write m f i w) d v ≡ page_at m d v
page_at-kept m f i w d v dir table =
    let same = word_kept m f i w d (get_pd_idx v) dir in
    elim (Bool-cases (is_entry_present (m.ram d (get_pd_idx v)))) [
      | inr missing ↦ rw (same, missing) refl
      | inl there ↦ rw (same, there, word_kept m f i w _ (get_pt_idx v % 1024) (table there)) refl
    ]

pub page_at-written :
    (m : Mmu) (d vaddr w : ℕ)
    → is_entry_present (m.ram d (get_pd_idx vaddr)) ≡ true
    → align (m.ram d (get_pd_idx vaddr)) ≢ d
    → page_at (write m (align (m.ram d (get_pd_idx vaddr))) (get_pt_idx vaddr % 1024) w) d vaddr
      ≡ (if is_entry_present w then w else 0)
page_at-written m d vaddr w there own =
    let t = align (m.ram d (get_pd_idx vaddr)) in
    let i = get_pt_idx vaddr % 1024 in
    rw (word_kept m t i w d (get_pd_idx vaddr) (inl own), there, word_written m t i w) refl

-- What the write of one entry of a table below the windows does to the pages.
pub other-pages :
    (m : Mmu) (vaddr w : ℕ)
    → OwnTables m
    → vaddr < 0xff800000
    → is_entry_present (m.ram m.cr3 (get_pd_idx vaddr)) ≡ true
    → (v : ℕ) → v < 0xff800000
    → get_pt_idx v ≢ get_pt_idx vaddr
    → page_at (write m (align (m.ram m.cr3 (get_pd_idx vaddr))) (get_pt_idx vaddr % 1024) w) m.cr3 v
      ≡ page_at m m.cr3 v
other-pages m vaddr w tables low there v low_v ne =
    page_at-kept m _ _ w m.cr3 v
      (inl (tables.directory (get_pd_idx vaddr) (omega (arith, low)) there))
      (λ there_v. elim (ℕ_discrete (get_pd_idx vaddr) (get_pd_idx v)) [
        | yes same ↦ inr (λ e. ne (omega (arith, same, e)))
        | no other ↦ inl (
            tables.apart (get_pd_idx vaddr) (get_pd_idx v)
              (omega (arith, low), omega (arith, low_v)) other there there_v)
      ])
