-- ===== src/Paging/Access.antt =====
-- What the code sees of a directory through a window.
use polx.Base.{
  ℕ, ◌+◌, ◌*◌, ◌/◌, ◌%◌, ◌^◌, ◌<◌, ◌≡◌, refl, inl, inr, true, ◌&&◌, arith, if◌then◌else◌,
  Bool-cases, done,
}
use polx.Paging.{
  Mmu, align, or_present_rw, is_entry_present, get_pd_idx, get_pt_idx, current, external, write,
  frame_at, load, store, pd_page, pts_page, set_expd, get_page,
}

-- the entry of page `vaddr` in directory `d`, or 0: what the processor finds
abbrev pub page_at : Mmu → (d vaddr : ℕ) → ℕ
page_at m d vaddr =
    let pde = m.ram d (get_pd_idx vaddr) in
    let pte = m.ram (align pde) (get_pt_idx vaddr % 1024) in
    if is_entry_present pde && is_entry_present pte then pte else 0

-- Entry `i` of directory `d` is present and leads to `f`.
pub record Leads (m : Mmu) (d i f : ℕ) : Type 0 where
  pub present : is_entry_present (m.ram d i) ≡ true
  pub to : align (m.ram d i) ≡ f

-- The window shows directory `d`, which is recursive.
pub record Shows (m : Mmu) (window d : ℕ) : Type 0 where
  pub entry : Leads m m.cr3 window d
  pub recursive : Leads m d 1023 d

frame_at-Shows :
    (m : Mmu) (window d k f : ℕ)
    → Leads m m.cr3 window d
    → k < 1024
    → Leads m d k f
    → frame_at m (window * 1024 + k) ≡ done f
unfolding frame_at
frame_at-Shows m window d k f shown small leads =
    let dir : (window * 1024 + k) / 1024 ≡ window = omega (arith, small) in
    let idx : (window * 1024 + k) % 1024 ≡ k = omega (arith, small) in
    rw (dir, idx, shown.to, shown.present, leads.present, leads.to) refl

-- The directory is the last page of its window.
pub load-pd :
    (m : Mmu) (window d i : ℕ) → Shows m window d → load m (pd_page window) i ≡ done (m.ram d i)
unfolding load
load-pd m window d i shows =
    rw (frame_at-Shows m window d 1023 d shows.entry (omega arith) shows.recursive) refl

pub store-pd :
    (m : Mmu) (window d i v : ℕ)
    → Shows m window d
    → store m (pd_page window) i v ≡ done (write m d i v)
unfolding store
store-pd m window d i v shows =
    rw (frame_at-Shows m window d 1023 d shows.entry (omega arith) shows.recursive) refl

pt-pd : (vaddr : ℕ) → get_pt_idx vaddr / 1024 ≡ get_pd_idx vaddr
pt-pd vaddr = omega arith

frame_at-pts :
    (m : Mmu) (window d vaddr t : ℕ)
    → Shows m window d
    → vaddr < 2 ^ 32
    → Leads m d (get_pd_idx vaddr) t
    → frame_at m (pts_page window (get_pt_idx vaddr)) ≡ done t
frame_at-pts m window d vaddr t shows small leads =
    rw (pt-pd vaddr)
      (frame_at-Shows m window d (get_pd_idx vaddr) t shows.entry (omega (arith, small)) leads)

pub load-pts :
    (m : Mmu) (window d vaddr t i : ℕ)
    → Shows m window d
    → vaddr < 2 ^ 32
    → Leads m d (get_pd_idx vaddr) t
    → load m (pts_page window (get_pt_idx vaddr)) i ≡ done (m.ram t i)
unfolding load
load-pts m window d vaddr t i shows small leads =
    rw (frame_at-pts m window d vaddr t shows small leads) refl

pub store-pts :
    (m : Mmu) (window d vaddr t i v : ℕ)
    → Shows m window d
    → vaddr < 2 ^ 32
    → Leads m d (get_pd_idx vaddr) t
    → store m (pts_page window (get_pt_idx vaddr)) i v ≡ done (write m t i v)
unfolding store
store-pts m window d vaddr t i v shows small leads =
    rw (frame_at-pts m window d vaddr t shows small leads) refl

-- `_get_page` and `_get_expage` find what the processor would.
pub get_page-page_at :
    (m : Mmu) (window d vaddr : ℕ)
    → Shows m window d
    → vaddr < 2 ^ 32
    → get_page window m vaddr ≡ done (page_at m d vaddr)
unfolding get_page
get_page-page_at m window d vaddr shows small =
    elim (Bool-cases (is_entry_present (m.ram d (get_pd_idx vaddr)))) [
      | inr none_there ↦ rw (load-pd m window d (get_pd_idx vaddr) shows) (rw none_there refl)
      | inl there ↦
          let leads : Leads m d (get_pd_idx vaddr) (align (m.ram d (get_pd_idx vaddr))) = record {
            present = there;
            to = refl;
          } in
          rw (load-pd m window d (get_pd_idx vaddr) shows) (
            rw there
              (rw (load-pts m window d vaddr _ (get_pt_idx vaddr % 1024) shows small leads) refl))
    ]

pub set_expd-eq :
    (m : Mmu) (pd : ℕ)
    → Shows m current m.cr3
    → set_expd m pd ≡ done (write m m.cr3 external (or_present_rw pd), m.ram m.cr3 external)
unfolding set_expd
set_expd-eq m pd shows =
    rw (load-pd m current m.cr3 external shows)
      (rw (store-pd m current m.cr3 external (or_present_rw pd) shows) refl)
