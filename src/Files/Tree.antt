-- ===== src/Files/Tree.antt =====
-- The tree of files, src/kernel/vfs/namei.c. Nodes are a store of records by address; a name is the list of
-- its bytes, without the closing 0, and a path is a function from the index to the byte.
pub mod Children
pub mod Removal
use polx.Base.{
  ℕ, zero, suc, ◌+◌, ◌-◌, Bool, true, false, ◌&&◌, ◌||◌, List, [], ◌∷◌, ◌++◌, ◌==◌, if◌then◌else◌,
  length, take, Ptr, null, update, add_word, Outcome, done, out_of_fuel, ◌>>=◌,
}
use polx.Klib.Strings.Length.{same_text}
use polx.Klib.Strings.{strlen}

pub record Node : Type 0 where
  pub name : List ℕ
  pub parent : Ptr
  pub first_child : Ptr
  pub last_child : Ptr
  pub prev_sibling : Ptr
  pub next_sibling : Ptr

abbrev pub Nodes : Type 0
Nodes = Ptr → Node

abbrev pub max_filename : ℕ
max_filename = 128

abbrev pub set_parent : Nodes → Ptr → Ptr → Nodes
set_parent h a v = update h a (record (h a) { parent = v })

abbrev pub set_first : Nodes → Ptr → Ptr → Nodes
set_first h a v = update h a (record (h a) { first_child = v })

abbrev pub set_last : Nodes → Ptr → Ptr → Nodes
set_last h a v = update h a (record (h a) { last_child = v })

abbrev pub set_prev : Nodes → Ptr → Ptr → Nodes
set_prev h a v = update h a (record (h a) { prev_sibling = v })

abbrev pub set_next : Nodes → Ptr → Ptr → Nodes
set_next h a v = update h a (record (h a) { next_sibling = v })

-- `_find_child`: the loop runs on fuel
unfoldable pub find_from : (fuel : ℕ) → Nodes → (name : List ℕ) → (tmp : Ptr) → Outcome Ptr
find_from zero h name tmp = if tmp == null then done null else out_of_fuel
find_from (suc n) h name tmp =
    let rest = find_from n h name (h tmp).next_sibling in
    if tmp == null then done null else if same_text (h tmp).name name then done tmp else rest

unfoldable pub find_child : (fuel : ℕ) → Nodes → (parent : Ptr) → (name : List ℕ) → Outcome Ptr
unfolding find_from
find_child fuel h parent name = find_from fuel h name (h parent).first_child

unfoldable pub add_child : Nodes → (parent child : Ptr) → Nodes
add_child h parent child =
    let g = set_parent h child parent in
    if (g parent).first_child == null
    then set_last (set_first (set_prev (set_next g child null) child null) parent child) parent
        child
    else (let linked = set_next g (g parent).last_child child in
        let back = set_prev linked child (linked parent).last_child in
        set_last (set_next back child null) parent child)

-- from `if (child->next_sibling == NULL)` on
unfoldable pub remove_later : Nodes → (parent child : Ptr) → Nodes
remove_later h parent child =
    if (h child).next_sibling == null
    then (let g = set_last h parent (h child).prev_sibling in
        if (g parent).last_child == null then g else set_next g (g parent).last_child null)
    else (let g = set_next h (h child).prev_sibling (h child).next_sibling in
        set_prev g (g child).next_sibling (g child).prev_sibling)

unfoldable pub remove_child : Nodes → (child : Ptr) → Nodes
unfolding remove_later
remove_child h child =
    let parent = (h child).parent in
    if (h child).prev_sibling == null
    then (let g = set_first h parent (h child).next_sibling in
        if (g parent).first_child == null
        then remove_later g parent child
        else set_prev g (g parent).first_child null)
    else remove_later h parent child

-- the loop of `_path_deconcatenator`: the name that it collects, the index, and whether the name was too
-- long. `left` is how many bytes of the path are left.
unfoldable pub piece_loop :
    (left : ℕ) → (path : ℕ → ℕ) → (prev_idx : ℕ) → (buff : List ℕ) → List ℕ × ℕ × Bool
piece_loop zero path prev_idx buff = (buff, prev_idx, false)
piece_loop (suc n) path prev_idx buff =
    let rest = piece_loop n path (prev_idx + 1) (buff ++ path prev_idx ∷ []) in
    if path prev_idx == b'/' || path prev_idx == 0
    then (buff, prev_idx + 1, false)
    else if length buff == max_filename
    then (take (max_filename - 1) buff, prev_idx, true)
    else rest

-- `_path_deconcatenator`, with the bytes that it leaves in the buffer, and the index that it returns
unfoldable pub path_piece : (path : ℕ → ℕ) → (path_len prev_idx : ℕ) → List ℕ × ℕ
unfolding piece_loop
path_piece path path_len prev_idx =
    let (buff, idx, too_long) = piece_loop (path_len - prev_idx) path prev_idx [] in
    let next = if path (idx - 1) == b'/' && path idx == 0 then idx + 1 else idx in
    (buff, if too_long then 0 else if next == path_len then 0 else next)

-- The loop of `namei_path_to_vfs_node`: the node and its parent. Every round but the last takes a piece
-- of the path, and `children` is the fuel of `_find_child`.
unfoldable pub walk :
    (fuel children : ℕ)
    → Nodes
    → (path : ℕ → ℕ) → (path_len : ℕ) → (tmp : Ptr) → (fname : List ℕ) → (prev_idx : ℕ)
    → Outcome (Ptr × Ptr)
unfolding find_child path_piece
walk zero children h path path_len tmp fname prev_idx = out_of_fuel
walk (suc n) children h path path_len tmp fname prev_idx =
    if same_text fname []
    then done (tmp, tmp)
    else (find_child children h tmp fname >>= λ child.
        let (next_name, next_idx) = path_piece path path_len prev_idx in
        let rest = walk n children h path path_len child next_name next_idx in
        if child == null
        then done (null, if prev_idx == 0 then tmp else null)
        else if prev_idx == 0
        then done (child, tmp)
        else rest)

unfoldable pub path_to_vfs_node :
    (fuel children : ℕ) → Nodes → (tree_root root : Ptr) → (path : ℕ → ℕ) → Outcome (Ptr × Ptr)
unfolding strlen walk
path_to_vfs_node fuel children h tree_root root path =
    if path 0 == b'/'
    then (strlen fuel path 0 >>= λ len.
        let path_len = add_word len 1 in
        let (fname, prev_idx) = path_piece path path_len 1 in
        walk fuel children h path path_len (if root == null then tree_root else root) fname
          prev_idx)
    else done (null, null)
