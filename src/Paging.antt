-- ===== src/Paging.antt =====
-- Page tables, src/kernel/arch/i386/paging.c, over the memory that holds them: a directory and its tables
-- are frames of words, and the code reaches them as the processor does, through the recursive entry 1023 of
-- the current directory (VM_PAGE_DIR and VM_PAGE_TABLES) and through entry 1022 (VM_EXPAGE_DIR and
-- VM_EXPAGE_TABLES), which shows another directory. An access to a page that is not mapped is a fault; the
-- translation buffer is not in the model. Flags are less than 8, so that `|` with an aligned address is a
-- sum. The frames that `pmm_get_frame` gives are arguments; what they hold is in the memory.
pub mod Access
pub mod Entries
pub mod Map
pub mod Window
mod Tests
use polx.Base.{
  ℕ, zero, suc, ◌+◌, ◌-◌, ◌*◌, ◌/◌, ◌%◌, ◌^◌, Bool, false, ◌&&◌, ◌==◌, if◌then◌else◌, update,
  Outcome, done, fault, ◌>>=◌,
}

-- the words of the memory, by the address of a frame and the index in it
pub record Mmu : Type 0 where
  pub cr3 : ℕ
  pub ram : ℕ → ℕ → ℕ

-- `& PG_ALIGN`
abbrev pub align : ℕ → ℕ
align x = x - x % 4096

-- `| PG_ALIGN`
abbrev pub or_align : ℕ → ℕ
or_align x = 0xfffff000 + x % 4096

abbrev pub is_entry_present : ℕ → Bool
is_entry_present e = e % 2 == 1

-- `| PG_PRESENT | PG_RW`
abbrev pub or_present_rw : ℕ → ℕ
or_present_rw x = x - x % 4 + 3

abbrev pub get_pd_idx : ℕ → ℕ
get_pd_idx a = a / 2 ^ 22

abbrev pub get_pt_idx : ℕ → ℕ
get_pt_idx a = a / 2 ^ 12

-- `VM_PAGE_TABLES` and `VM_EXPAGE_TABLES` by the entry of the directory that shows them; the directory is on
-- the last page of each.
abbrev pub current : ℕ
current = 1023

abbrev pub external : ℕ
external = 1022

abbrev pub write : Mmu → (frame idx value : ℕ) → Mmu
write m f i v = record m { ram = update m.ram f (update (m.ram f) i v) }

-- the frame behind a page of the current address space
unfoldable pub frame_at : Mmu → (page : ℕ) → Outcome ℕ
frame_at m page =
    let pde = m.ram m.cr3 (page / 1024) in
    let pte = m.ram (align pde) (page % 1024) in
    if is_entry_present pde && is_entry_present pte then done (align pte) else fault

unfoldable pub load : Mmu → (page idx : ℕ) → Outcome ℕ
load m page idx = frame_at m page >>= λ f. done (m.ram f idx)

unfoldable pub store : Mmu → (page idx value : ℕ) → Outcome Mmu
store m page idx value = frame_at m page >>= λ f. done (write m f idx value)

-- `pd[i]` and `pts[i]` of the window
abbrev pub pd_page : (window : ℕ) → ℕ
pd_page window = window * 1024 + 1023

abbrev pub pts_page : (window i : ℕ) → ℕ
pts_page window i = window * 1024 + i / 1024

-- `_set_expd`, and the entry that was there
unfoldable pub set_expd : Mmu → (pd : ℕ) → Outcome (Mmu × ℕ)
set_expd m pd = do
  old ← load m (pd_page current) external
  m' ← store m (pd_page current) external (or_present_rw pd)
  done (m', old)

-- `_get_page` and `_get_expage`, which differ in the window
unfoldable pub get_page : (window : ℕ) → Mmu → (vaddr : ℕ) → Outcome ℕ
get_page window m vaddr =
    let page = get_pt_idx vaddr in
    load m (pd_page window) (get_pd_idx vaddr) >>= λ table.
    if is_entry_present table
    then (load m (pts_page window page) (page % 1024) >>= λ entry.
        done (if is_entry_present entry then entry else 0))
    else done 0

-- The bodies of `pg_map` and `pg_map_to`. The macro has no parentheses, so `! _IS_ENTRY_PRESENT(e)` is
-- `(! e) & PG_PRESENT`: the test is whether the entry is 0. `frame` is what `pmm_get_frame` gives for a new
-- table.
unfoldable pub map_in :
    (window : ℕ) → Mmu → (paddr vaddr flags : ℕ) → (user : Bool) → (frame : ℕ) → Outcome Mmu
map_in window m paddr vaddr flags user frame = do
  let page = get_pt_idx vaddr
  table ← load m (pd_page window) (get_pd_idx vaddr)
  let new_entry = align frame + (if user then 7 else 3)
  m' ← if table == 0 then store m (pd_page window) (get_pd_idx vaddr) new_entry else done m
  store m' (pts_page window page) (page % 1024) (align paddr + flags)

unfoldable pub pg_map : Mmu → (paddr vaddr flags frame : ℕ) → Outcome Mmu
pg_map m paddr vaddr flags frame = map_in current m paddr vaddr flags false frame

unfoldable pub pg_map_to : Mmu → (pd paddr vaddr flags frame : ℕ) → Outcome Mmu
pg_map_to m pd paddr vaddr flags frame = do
  (shown, old_pd) ← set_expd m pd
  m' ← map_in external shown paddr vaddr flags (flags / 4 % 2 == 1) frame
  (back, _) ← set_expd m' old_pd
  done back

unfoldable pub pg_unmap : Mmu → (vaddr : ℕ) → Outcome (Mmu × ℕ)
pg_unmap m vaddr = do
  let page = get_pt_idx vaddr
  paddr ← get_page current m vaddr
  m' ← if paddr == 0 then done m else store m (pts_page current page) (page % 1024) 0
  done (m', if paddr == 0 then 0 else or_align paddr)

unfoldable pub pg_unmap_from : Mmu → (pd vaddr : ℕ) → Outcome (Mmu × ℕ)
pg_unmap_from m pd vaddr = do
  let page = get_pt_idx vaddr
  (shown, old_pd) ← set_expd m pd
  paddr ← get_page external shown vaddr
  let cleared = do
    m' ← store shown (pts_page external page) (page % 1024) 0
    (back, _) ← set_expd m' old_pd
    done (back, or_align paddr)
  if paddr == 0 then done (shown, 0) else cleared

unfoldable pub pg_get_frame_from : Mmu → (pd vaddr : ℕ) → Outcome (Mmu × ℕ)
pg_get_frame_from m pd vaddr = do
  (shown, old_pd) ← set_expd m pd
  paddr ← get_page external shown vaddr
  (back, _) ← set_expd shown old_pd
  done (back, paddr)

abbrev pub vm_tmp_map : ℕ
vm_tmp_map = 0xff7fe000

-- the words from `i` on of a page are set
unfoldable pub fill : (rounds : ℕ) → (values : ℕ → ℕ) → Mmu → (page i : ℕ) → Outcome Mmu
fill zero values m page i = done m
fill (suc n) values m page i = store m page i (values i) >>= λ m'. fill n values m' page (i + 1)

-- The new frame is mapped at VM_TMP_MAP, cleared and filled in; entries 768 to 895 are those of the kernel.
-- `f` and `g` are what the two mappings may need for a table.
unfoldable pub pg_create_directory : Mmu → (kern_pd : ℕ → ℕ) → (new_pd f g : ℕ) → Outcome (Mmu × ℕ)
pg_create_directory m kern_pd new_pd f g = do
  let page = get_pt_idx vm_tmp_map
  (free, old_tmp) ← pg_unmap m vm_tmp_map
  mapped ← pg_map free new_pd vm_tmp_map 3 f
  cleared ← fill 1024 (λ i. 0) mapped page 0
  recursive ← store cleared page 1023 (or_present_rw (align new_pd))
  cloned ←
      fill (get_pd_idx 0xe0000000 - get_pd_idx 0xc0000000) kern_pd recursive page
        (get_pd_idx 0xc0000000)
  restored ← pg_map cloned old_tmp vm_tmp_map 3 g
  done (restored, new_pd)
