-- ===== src/Files/Open.antt =====
-- `do_open` and `do_close` of src/kernel/vfs/open.c and close.c, and the loop of `do_exit` in
-- src/kernel/cpu/exit.c that closes what a task has open. The table of a task is what is read at an index
-- of `used_fd`, also behind its 256 slots. What `kmalloc` gives for a descriptor is an argument, and so
-- are the operations of the nodes.
pub mod Close
mod Tests
use polx.Base.{
  ℕ, zero, suc, ◌+◌, ◌%◌, not, ◌&&◌, Option, none, some, List, ◌∷◌, ltb, ◌==◌, if◌then◌else◌, Ptr,
  null, update, add_word, sub_word, word_max, Outcome, done, ◌>>=◌,
}
use polx.Files.Descriptors.{Descriptors, fd_add, fd_remove}
use polx.Files.Tree.{path_to_vfs_node}
use polx.Files.Vfs.{Tree, vfs_open, vfs_close, vfs_touch, is_error, ebadf}

pub record Entry : Type 0 where
  pub position : ℕ
  pub mode : ℕ
  pub vfs_node : Ptr

-- the descriptors of one task, the list of all, and what the calls change besides
pub record Opens : Type 0 where
  pub used_fd : ℕ → Ptr
  pub fd_ctr : ℕ
  pub entries : Ptr → Entry
  pub fds : Descriptors
  pub active_fds : Ptr → ℕ
  pub tree : Tree
  pub errno : ℕ
  pub freed : List Ptr

abbrev pub max_fds : ℕ
max_fds = 256

abbrev pub enoent : ℕ
enoent = 2

abbrev pub emfile : ℕ
emfile = 24

abbrev pub Op : Type 0
Op = Option (Tree → ℕ × Tree)

-- the loop of `_find_free_fd_num`, with the rounds until `i` is MAX_FDS
unfoldable pub find_free_from : (rounds : ℕ) → (fd_table : ℕ → Ptr) → (i : ℕ) → ℕ
find_free_from zero t i = i
find_free_from (suc n) t i =
    let rest = find_free_from n t (i + 1) in if not (t i == null) && ltb i max_fds then rest else i

unfoldable pub find_free_fd_num : (fd_table : ℕ → Ptr) → Option ℕ
find_free_fd_num t = let i = find_free_from 254 t 2 in if t i == null then some i else none

-- what `vfs_open` and `vfs_close` of a node leave
abbrev pub opened : Op → Opens → (file : Ptr) → Opens
opened op s file =
    let r = vfs_open op s.tree (s.active_fds file) s.errno in
    record s { active_fds = update s.active_fds file r.active_fds; tree = r.fs; errno = r.errno }

abbrev pub closed : Op → Opens → (file : Ptr) → Opens
closed op s file =
    let r = vfs_close op s.tree (s.active_fds file) s.errno in
    record s { active_fds = update s.active_fds file r.active_fds; tree = r.fs; errno = r.errno }

-- the new descriptor, in the list of all
abbrev pub with_fd : Opens → (new_fd file : Ptr) → (flags : ℕ) → Opens
with_fd s new_fd file flags = record s {
  entries = update s.entries new_fd (record { position = 0; mode = flags; vfs_node = file });
  fds = fd_add s.fds new_fd;
}

-- `do_open` when the file is found or made
unfoldable pub open_file : Op → Opens → (new_fd file : Ptr) → (flags : ℕ) → ℕ × Opens
open_file op s new_fd file flags =
    let made = with_fd (opened op s file) new_fd file flags in
    if is_error (vfs_open op s.tree (s.active_fds file) s.errno).ret
    then (word_max, opened op s file)
    else elim (find_free_fd_num s.used_fd) [
      | none ↦ (word_max, record made { errno = emfile })
      | some n ↦
          (n, record made { used_fd = update s.used_fd n new_fd; fd_ctr = add_word s.fd_ctr 1 })
    ]

-- `touch` makes a file of the name at the end of the path.
unfoldable pub do_open :
    (fuel children : ℕ)
    → (tree_root : Ptr) → (open_op touch : Ptr → Op) → Opens
    → (new_fd : Ptr) → (path : ℕ → ℕ) → (flags : ℕ) → Outcome (ℕ × Opens)
do_open fuel children tree_root open_op touch s new_fd path flags =
    path_to_vfs_node fuel children s.tree.nodes tree_root null path >>= λ found.
    let (file, file_parent) = found in
    let (ret, tree, errno) = vfs_touch file_parent (touch file_parent) s.tree s.errno in
    let touched = record s { tree = tree; errno = errno } in
    if not (file == null)
    then done (open_file (open_op file) s new_fd file flags)
    else if (file_parent == null)
    then done (word_max, record s { errno = enoent })
    else if not (flags % 2 == 1)
    then done (word_max, record s { errno = enoent })
    else if is_error ret
    then done (word_max, touched)
    else done (open_file (open_op tree.node) touched new_fd tree.node flags)

-- `kernel` is the table of the kernel's task.
unfoldable pub do_close :
    (kernel : ℕ → Ptr) → (close_op : Ptr → Op) → Opens → (fd : ℕ) → Outcome (ℕ × Opens)
do_close kernel close_op s fd =
    let fd_ptr = s.used_fd fd in
    let file = (s.entries fd_ptr).vfs_node in
    let fewer = sub_word s.fd_ctr 1 in
    if fd_ptr == null
    then done (word_max, record s { errno = ebadf })
    else if fd_ptr == kernel fd
    then done (0, record s { fd_ctr = fewer })
    else if is_error (vfs_close (close_op file) s.tree (s.active_fds file) s.errno).ret
    then done (word_max, closed (close_op file) s file)
    else (fd_remove s.fds fd_ptr >>= λ fds. done (
      0,
      record (closed (close_op file) s file) {
        fds = fds;
        used_fd = update s.used_fd fd null;
        fd_ctr = fewer;
        freed = fd_ptr ∷ s.freed;
      },
    ))

-- the loop of `do_exit`, with the rounds until `fd` is MAX_FDS
unfoldable pub close_all :
    (rounds : ℕ) → (kernel : ℕ → Ptr) → (close_op : Ptr → Op) → Opens → (fd : ℕ) → Outcome Opens
close_all zero kernel close_op s fd = done s
close_all (suc n) kernel close_op s fd =
    let next = λ (t : Opens). close_all n kernel close_op t (fd + 1) in
    if not (ltb 0 s.fd_ctr)
    then done s
    else if s.used_fd fd == null
    then next s
    else (do_close kernel close_op s fd >>= λ r. next r.1)
