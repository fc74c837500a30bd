-- ===== src/Vmalloc.antt =====
-- Ranges of the kernel's address space, src/kernel/klib/vmalloc.c and src/kernel/klib/vfree.c, and the
-- mapping of a range, src/kernel/memory/vmm_misc.c. A mapping of pages is the list of what is asked of
-- the paging code, in order; the frames come from an argument, and the header is what `kmalloc` gives.
pub mod Holes
pub mod Search
pub mod Insert
pub mod Place
mod Tests
use polx.Base.{
  ℕ, zero, suc, ◌+◌, ◌-◌, ◌/◌, ◌%◌, Bool, true, false, ◌&&◌, List, [], ◌∷◌, ◌++◌, ltb, leb, ◌==◌,
  if◌then◌else◌, Ptr, null, update, add_word, sub_word, Outcome, done, panic, out_of_fuel, ◌>>=◌,
}

pub data PhyType : Type 0 where
  mapped : PhyType
  phy_cont : PhyType
  on_demand : PhyType

pub record Header : Type 0 where
  pub vaddr : ℕ
  pub size : ℕ
  pub phy_type : PhyType
  pub prev : Ptr
  pub next : Ptr

abbrev pub Headers : Type 0
Headers = Ptr → Header

pub record Used : Type 0 where
  pub headers : Headers
  pub first : Ptr
  pub last : Ptr
  pub used_pages : ℕ

abbrev pub vm_vmalloc_start : ℕ
vm_vmalloc_start = 0xd0000000

abbrev pub vm_vmalloc_end : ℕ
vm_vmalloc_end = 0xdffff000

abbrev pub page_size : ℕ
page_size = 4096

abbrev pub set_next : Headers → Ptr → Ptr → Headers
set_next h a v = update h a (record (h a) { next = v })

abbrev pub set_prev : Headers → Ptr → Ptr → Headers
set_prev h a v = update h a (record (h a) { prev = v })

-- the hole behind the last range, or none
abbrev pub hole_at_end : Used → (size : ℕ) → ℕ × Ptr
hole_at_end u size =
    let l = u.headers u.last in
    if ltb (add_word l.vaddr l.size) vm_vmalloc_end
      && leb size (sub_word (sub_word vm_vmalloc_end l.vaddr) l.size)
    then (add_word l.vaddr l.size, u.last)
    else (0, null)

-- the hole between the range `tmp` and the next, or a later one
unfoldable pub hole_behind : (fuel : ℕ) → Used → (size tmp : ℕ) → Outcome (ℕ × Ptr)
hole_behind zero u size tmp =
    if (u.headers tmp).next == null then done (hole_at_end u size) else out_of_fuel
hole_behind (suc n) u size tmp =
    let t = u.headers tmp in
    let rest = hole_behind n u size t.next in
    if t.next == null
    then done (hole_at_end u size)
    else if leb size (sub_word (sub_word (u.headers t.next).vaddr t.vaddr) t.size)
    then done (add_word t.vaddr t.size, tmp)
    else rest

-- `_find_hole_in_as`: the address, 0 if there is none, and the range before it
unfoldable pub find_hole_in_as : (fuel : ℕ) → Used → (size : ℕ) → Outcome (ℕ × Ptr)
find_hole_in_as fuel u size =
    let f = u.headers u.first in
    if ltb vm_vmalloc_start f.vaddr && leb size (sub_word f.vaddr vm_vmalloc_start)
    then done (vm_vmalloc_start, null)
    else hole_behind fuel u size u.first

unfoldable pub insert_region : Used → (prev new : Ptr) → Used
insert_region u prev new =
    let pages = (u.headers new).size / page_size in
    let h = u.headers in
    if u.first == null
    then record {
      headers = set_next (set_prev h new null) new null;
      first = new;
      last = new;
      used_pages = pages;
    }
    else if prev == null
    then record {
      headers = set_prev (set_next (set_prev h new null) new u.first) u.first new;
      first = new;
      last = u.last;
      used_pages = add_word u.used_pages pages;
    }
    else if u.last == prev
    then record {
      headers = set_next (set_prev (set_next h new null) new prev) prev new;
      first = u.first;
      last = new;
      used_pages = add_word u.used_pages pages;
    }
    else (let g = set_next (set_prev h new prev) new (h prev).next in
        record {
          headers = set_next (set_prev g (g new).next new) prev new;
          first = u.first;
          last = u.last;
          used_pages = add_word u.used_pages pages;
        })

-- What the paging code is asked for, and what is freed: the frame that the unmapping of `vaddr` gave, if
-- it gave one, or the pool that starts with it.
pub data Request : Type 0 where
  map_page : (paddr vaddr flags : ℕ) → Request
  unmap_page : (vaddr : ℕ) → Request
  free_frame_of : (vaddr : ℕ) → Request
  free_pool_of : (vaddr frames : ℕ) → Request

-- `_SIZE_TO_FRAMES`
abbrev pub size_to_frames : ℕ → ℕ
size_to_frames s = if s % page_size == 0 then s / page_size else s / page_size + 1

map_run : (frames paddr vaddr flags : ℕ) → List Request
map_run zero paddr vaddr flags = []
map_run (suc n) paddr vaddr flags =
    map_page paddr vaddr flags
    ∷ map_run n (add_word paddr page_size) (add_word vaddr page_size) flags

map_each : (frames : ℕ) → (got : ℕ → ℕ) → (i vaddr flags : ℕ) → List Request
map_each zero got i vaddr flags = []
map_each (suc n) got i vaddr flags =
    map_page (got i) vaddr flags ∷ map_each n got (i + 1) (add_word vaddr page_size) flags

-- `got i` is the frame of the `i`-th call of `pmm_get_frame`, `pool` the result of `pmm_get_pool`; the present bit is added
unfoldable pub vmm_cont_map :
    (vaddr bytes flags : ℕ) → (cont : Bool) → (pool : ℕ) → (got : ℕ → ℕ) → List Request
unfolding map_run map_each
vmm_cont_map vaddr bytes flags cont pool got =
    if cont
    then map_run (size_to_frames bytes) pool vaddr (flags + 1)
    else map_each (size_to_frames bytes) got 0 vaddr (flags + 1)

unfoldable pub vmm_void_map : (vaddr bytes flags : ℕ) → List Request
unfolding map_each
vmm_void_map vaddr bytes flags = map_each (size_to_frames bytes) (λ i. 0) 0 vaddr flags

unmap_run : (frames vaddr : ℕ) → List Request
unmap_run zero vaddr = []
unmap_run (suc n) vaddr = unmap_page vaddr ∷ unmap_run n (add_word vaddr page_size)

free_run : (frames vaddr : ℕ) → List Request
free_run zero vaddr = []
free_run (suc n) vaddr =
    unmap_page vaddr ∷ free_frame_of vaddr ∷ free_run n (add_word vaddr page_size)

unfoldable pub vmm_cont_unmap : (vaddr bytes : ℕ) → (cont : Bool) → List Request
unfolding unmap_run free_run
vmm_cont_unmap vaddr bytes cont =
    let frames = size_to_frames bytes in
    if cont
    then unmap_page vaddr
      ∷ (unmap_run (frames - 1) (add_word vaddr page_size) ++ free_pool_of vaddr frames ∷ [])
    else free_run frames vaddr

-- the loop does not step from page to page
unfoldable pub void_unmap_loop : (frames vaddr : ℕ) → List Request
void_unmap_loop zero vaddr = []
void_unmap_loop (suc n) vaddr = unmap_page vaddr ∷ free_frame_of vaddr ∷ void_unmap_loop n vaddr

unfoldable pub vmm_void_unmap : (vaddr bytes : ℕ) → List Request
unfolding void_unmap_loop
vmm_void_unmap vaddr bytes = void_unmap_loop (size_to_frames bytes) vaddr

abbrev pub whole_pages : ℕ → ℕ
whole_pages size =
    if ltb 0 (size % page_size) then add_word (size - size % page_size) page_size else size

-- the three kinds of `phy_type`
unfoldable pub requested : PhyType → (vaddr size : ℕ) → (pool : Ptr) → (got : ℕ → ℕ) → List Request
unfolding vmm_cont_map vmm_void_map
requested mapped vaddr size pool got = vmm_cont_map vaddr size 2 false pool got
requested phy_cont vaddr size pool got = vmm_cont_map vaddr size 2 true pool got
requested on_demand vaddr size pool got = vmm_void_map vaddr size 2

-- the ranges after the call, the requests, and the address
unfoldable pub vmalloc :
    (fuel : ℕ)
    → Used
    → (size : ℕ) → PhyType
    → (header pool : Ptr) → (got : ℕ → ℕ) → Outcome (Used × List Request × ℕ)
vmalloc fuel u bytes phy_type header pool got = do
  let size = whole_pages bytes
  (vaddr, prev) ←
      if u.first == null then done (vm_vmalloc_start, null) else find_hole_in_as fuel u size
  let requests = requested phy_type vaddr size pool got
  let made =
      update u.headers header
        (record (u.headers header) { vaddr = vaddr; size = size; phy_type = phy_type })
  if vaddr == 0
      then panic
      else done (insert_region (record u { headers = made }) prev header, requests, vaddr)

unlink : Used → (region : Ptr) → Used
unlink u region =
    let r = u.headers region in
    let h = u.headers in
    let pages = sub_word u.used_pages (r.size / page_size) in
    if region == u.first
    then record {
      headers = if r.next == null then h else set_prev h r.next null;
      first = r.next;
      last = if r.next == null then null else u.last;
      used_pages = pages;
    }
    else if region == u.last
    then record {
      headers = set_next h r.prev null;
      first = u.first;
      last = r.prev;
      used_pages = pages;
    }
    else (let g = set_next h r.prev r.next in
        record {
          headers = set_prev g (g region).next (g region).prev;
          first = u.first;
          last = u.last;
          used_pages = pages;
        })

-- the range that starts at `vaddr`, and the list without it
unfoldable pub remove_region : (fuel : ℕ) → Used → (vaddr region : ℕ) → Outcome (Used × Ptr)
unfolding unlink
remove_region zero u vaddr region = if region == null then done (u, null) else out_of_fuel
remove_region (suc n) u vaddr region =
    let rest = remove_region n u vaddr (u.headers region).next in
    if region == null
    then done (u, null)
    else if (u.headers region).vaddr == vaddr
    then done (unlink u region, region)
    else rest

abbrev is_cont : PhyType → Bool
is_cont mapped = false
is_cont phy_cont = true
is_cont on_demand = false

unfoldable pub vfree : (fuel : ℕ) → Used → (ptr : ℕ) → Outcome (Used × List Request)
vfree fuel u ptr = do
  (v, region) ← remove_region fuel u ptr u.first
  let r = v.headers region
  if region == null then panic else done (v, vmm_cont_unmap r.vaddr r.size (is_cont r.phy_type))
