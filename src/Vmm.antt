-- ===== src/Vmm.antt =====
-- The regions of an address space, src/kernel/memory/vmm.c. Regions are records by address, linked in
-- the order of the memory that they stand for. The loops over them run on fuel.
pub mod Regions
pub mod Insert
pub mod Created
pub mod Area
pub mod Break
pub mod SetBrk
mod Tests
use polx.Base.{
  ℕ, zero, suc, ◌+◌, ◌-◌, ◌/◌, ◌%◌, Bool, true, false, not, ◌&&◌, ◌||◌, Option, none, some, List,
  [], ◌∷◌, ltb, leb, ◌==◌, if◌then◌else◌, Ptr, null, update, add_word, sub_word, mul_word, Outcome,
  done, panic, out_of_fuel, ◌>>=◌,
}

pub record Region : Type 0 where
  pub addr : ℕ
  pub size : ℕ
  pub flags : ℕ
  pub prev : Ptr
  pub next : Ptr

abbrev pub Regions : Type 0
Regions = Ptr → Region

pub record Aspace : Type 0 where
  pub pd : Ptr
  pub code_entry : Ptr
  pub elf_end : ℕ
  pub data_end : ℕ
  pub stack_end : ℕ
  pub stack_size : ℕ
  pub page_counter : ℕ
  pub first : Ptr
  pub last : Ptr

abbrev pub vm_user_end : ℕ
vm_user_end = 0xc0000000

abbrev pub page_size : ℕ
page_size = 4096

-- `reg->addr + reg->size`
abbrev pub end_of : Regions → Ptr → ℕ
end_of h r = add_word (h r).addr (h r).size

abbrev pub set_next : Regions → Ptr → Ptr → Regions
set_next h a v = update h a (record (h a) { next = v })

abbrev pub set_prev : Regions → Ptr → Ptr → Regions
set_prev h a v = update h a (record (h a) { prev = v })

-- the loop of `_is_area_free`
unfoldable pub free_before : (fuel : ℕ) → Regions → (addr size tmp : ℕ) → Outcome Bool
free_before zero h addr size tmp = if tmp == null then done false else out_of_fuel
free_before (suc n) h addr size tmp =
    let rest = free_before n h addr size (h tmp).next in
    if tmp == null
    then done false
    else if leb addr (h tmp).addr
    then done (leb (add_word addr size) (h tmp).addr)
    else rest

unfoldable pub is_area_free : (fuel : ℕ) → Regions → Aspace → (addr size : ℕ) → Outcome Bool
is_area_free fuel h sp addr size =
    if sp.first == null
    then done true
    else if leb (end_of h sp.last) addr
    then done (leb (add_word addr size) vm_user_end)
    else free_before fuel h addr size sp.first

-- `reg` goes between two regions; NULL is the end of the list
unfoldable pub link_between : Regions → (reg before after : Ptr) → Regions
link_between h reg before after =
    let g = set_prev (set_next h reg after) reg before in
    let g' = if after == null then g else set_prev g after reg in
    if before == null then g' else set_next g' before reg

-- the search for a gap that holds `reg`; where there is none, all stays as it is
unfoldable pub insert_between : (fuel : ℕ) → Regions → (reg tmp : Ptr) → Outcome Regions
insert_between zero h reg tmp = if (h tmp).next == null then done h else out_of_fuel
insert_between (suc n) h reg tmp =
    let after = (h tmp).next in
    let rest = insert_between n h reg after in
    if after == null
    then done h
    else if leb (end_of h tmp) (h reg).addr && leb (end_of h reg) (h after).addr
    then done (link_between h reg tmp after)
    else rest

unfoldable pub insert_region :
    (fuel : ℕ) → Regions → Aspace → (reg : Ptr) → Outcome (Regions × Aspace)
insert_region fuel h sp reg =
    let at_start : Regions × Aspace = (
      link_between h reg null sp.first,
      record sp { first = reg; last = if sp.last == null then reg else sp.last },
    ) in
    let at_end : Regions × Aspace = (link_between h reg sp.last null, record sp { last = reg }) in
    if (sp.first == null) || leb (end_of h reg) (h sp.first).addr
    then done at_start
    else if leb (end_of h sp.last) (h reg).addr
    then done at_end
    else (insert_between fuel h reg sp.first >>= λ g. done (g, sp))

-- Regions are told apart by their addresses in memory.
unfoldable pub remove_region : Regions → Aspace → (reg : Ptr) → Regions × Aspace
remove_region h sp reg =
    let r = h reg in
    let is_first = (h sp.first).addr == r.addr in
    let is_last = (h sp.last).addr == r.addr in
    let g = if is_first && not (r.next == null) then set_prev h r.next null else h in
    let sp' = if is_first then record sp { first = r.next } else sp in
    if is_last
    then (
      if (g reg).prev == null then g else set_next g (g reg).prev null,
      record sp' { last = (g reg).prev },
    )
    else if is_first
    then (g, sp')
    else (let k = set_next g (g reg).prev (g reg).next in
        (set_prev k (k reg).next (k reg).prev, sp'))

unfoldable pub find_region : (fuel : ℕ) → Regions → (tmp vaddr : ℕ) → Outcome Ptr
find_region zero h tmp vaddr = if tmp == null then done null else out_of_fuel
find_region (suc n) h tmp vaddr =
    let rest = find_region n h (h tmp).next vaddr in
    if tmp == null
    then done null
    else if leb (h tmp).addr vaddr && leb vaddr (end_of h tmp)
    then done tmp
    else rest

-- `reg` is what `kmalloc` gives
unfoldable pub create_region : Regions → (reg : Ptr) → (addr size flags : ℕ) → Regions
create_region h reg addr size flags =
    update h reg (record { addr = addr; size = size; flags = flags; prev = null; next = null })

-- the loop of `_find_free_area`
unfoldable pub search_down : (fuel : ℕ) → Regions → Aspace → (size vaddr : ℕ) → Outcome ℕ
search_down zero h sp size vaddr =
    if leb (add_word sp.data_end 0x1000) vaddr then out_of_fuel else done 0
search_down (suc n) h sp size vaddr =
    let go = λ (v : ℕ). search_down n h sp size v in
    if leb (add_word sp.data_end 0x1000) vaddr
    then (is_area_free (suc n) h sp vaddr size >>= λ free.
        if free
        then done vaddr
        else (find_region (suc n) h sp.first vaddr >>= λ reg.
            go (sub_word (if reg == null then vaddr else (h reg).addr) size)))
    else done 0

unfoldable pub find_free_area : (fuel : ℕ) → Regions → Aspace → (size : ℕ) → Outcome ℕ
find_free_area fuel h sp size =
    search_down fuel h sp size (sub_word (sub_word sp.stack_end 0x1000) size)

unfoldable pub set_stack : Aspace → (stack_end size : ℕ) → Aspace
set_stack sp stack_end size = record sp { stack_end = stack_end; stack_size = size }

-- What `vmm_set_brk` leaves: the addresses whose pages it unmapped and freed, in order, and the result, where `none` is NULL with ENOMEM.
pub record Brk : Type 0 where
  pub regions : Regions
  pub space : Aspace
  pub unmapped : List ℕ
  pub result : Option ℕ

abbrev pub round_up : ℕ → ℕ
round_up n = if n % 0x1000 == 0 then n else add_word (n - n % 0x1000) 0x1000

-- the loop that unmaps `ctr` pages from `tmp_vaddr` down
unfoldable pub pages_down : (ctr tmp_vaddr : ℕ) → List ℕ
pages_down zero v = []
pages_down (suc n) v = v ∷ pages_down n (sub_word v page_size)

-- the segment that shrinks, and whose size and end are set
unfoldable pub shrink : Regions → Aspace → (reg : Ptr) → (vaddr : ℕ) → Brk
shrink h sp reg vaddr =
    let new_size = sub_word sp.data_end vaddr in
    let ctr = new_size / page_size in
    let lower = record sp { data_end = sub_word sp.data_end new_size } in
    let old_brk = some sp.data_end in
    if ltb sp.elf_end (sub_word sp.data_end new_size)
    then (if ltb new_size page_size
        then record { regions = h; space = lower; unmapped = []; result = old_brk }
        else record {
          regions =
              update h reg
                (record (h reg) { size = sub_word (h reg).size (mul_word ctr page_size) });
          space = lower;
          unmapped = pages_down ctr (end_of h reg);
          result = old_brk;
        })
    else record { regions = h; space = sp; unmapped = []; result = none }

-- `end:`, and the failures
abbrev pub grown : Regions → Aspace → (prog_size : ℕ) → Brk
grown h sp n = record {
  regions = h;
  space = record sp { data_end = add_word sp.data_end n };
  unmapped = [];
  result = some sp.data_end;
}

abbrev pub refused : Regions → Aspace → Brk
refused h sp = record { regions = h; space = sp; unmapped = []; result = none }

-- the data segment that there is, `reg`
unfoldable pub move_brk : Regions → Aspace → (reg : Ptr) → (vaddr : ℕ) → Brk
move_brk h sp reg vaddr =
    let size = sub_word vaddr sp.data_end in
    if ltb sp.data_end vaddr
    then (if leb vaddr (end_of h reg)
        then grown h sp size
        else if (h reg).next == null
        then shrink h sp reg vaddr
        else if leb (add_word (end_of h reg) (round_up size)) (h (h reg).next).addr
        then grown (update h reg (record (h reg) { size = add_word (h reg).size (round_up size) }))
            sp size
        else refused h sp)
    else shrink h sp reg vaddr

-- `reg` is what `kmalloc` gives for the first region of the data segment
unfoldable pub set_brk : (fuel : ℕ) → Regions → Aspace → (reg : Ptr) → (vaddr : ℕ) → Outcome Brk
set_brk fuel h sp reg vaddr =
    let size = sub_word vaddr sp.data_end in
    let create =
      (is_area_free fuel h sp sp.data_end (round_up size) >>= λ free.
      if free
      then (insert_region fuel (create_region h reg sp.data_end (round_up size) 6) sp reg >>= λ r.
          done (grown r.0 r.1 size))
      else done (refused h sp)) in
    let move =
      (find_region fuel h sp.first (add_word sp.elf_end 1) >>= λ found.
      if found == null then panic else done (move_brk h sp found vaddr)) in
    if ltb vaddr sp.elf_end
    then done (refused h sp)
    else if (sp.data_end == sp.elf_end) && leb sp.data_end vaddr
    then create
    else move

-- the result is -1 or 0
unfoldable pub do_brk :
    (fuel : ℕ) → Regions → Aspace → (reg : Ptr) → (addr : ℕ) → Outcome (Brk × Bool)
do_brk fuel h sp reg addr = do
  b ← set_brk fuel h sp reg addr
  done (b, elim b.result [ none ↦ false | some old ↦ not (old == null) ])

unfoldable pub do_sbrk : (fuel : ℕ) → Regions → Aspace → (reg : Ptr) → (inc : ℕ) → Outcome Brk
do_sbrk fuel h sp reg inc =
    if inc == 0
    then done (record { regions = h; space = sp; unmapped = []; result = some sp.data_end })
    else set_brk fuel h sp reg (add_word sp.data_end inc)

-- What a page fault leads to: the signal SIGSEGV, nothing, or a new frame mapped with these flags.
pub data Fault : Type 0 where
  segv : Fault
  ignored : Fault
  mapped : (flags : ℕ) → Fault

-- `err & VMM_ERR_PR` and `err & VMM_ERR_WR` are arguments
unfoldable pub page_fault_handler :
    (fuel : ℕ)
    → Regions
    → Aspace
    → (vaddr : ℕ) → (not_present write : Bool) → Outcome (Aspace × Fault)
page_fault_handler fuel h sp vaddr not_present write = do
  reg ← find_region fuel h sp.first vaddr
  let writable = not ((h reg).flags / 2 % 2 == 0)
  if reg == null
      then done (sp, segv)
      else if write && not writable
      then done (sp, segv)
      else if not_present
      then done (
        record sp { page_counter = add_word sp.page_counter 1 },
        mapped (if (h reg).flags % 2 == 0 then (h reg).flags + 1 else (h reg).flags),
      )
      else done (sp, ignored)
