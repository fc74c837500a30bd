-- ===== src/Files/Vfs.antt =====
-- The calls of a node's operations, src/kernel/vfs/vfs.c. An operation that the node's file system does not
-- have is a NULL pointer, here `none`; one that it has is a function of the file system's state, whose
-- first result is what the C function returns. An `int` or a `long` is its 32-bit pattern.
use polx.Base.{
  ℕ, ◌^◌, ◌<◌, ◌≡◌, refl, ◌≢◌, Bool, Option, none, some, List, [], ◌∷◌, ◌++◌, arith, leb, ◌==◌,
  if◌then◌else◌, Ptr, null, add_word, sub_word, word_max, NotIn,
}
use polx.Files.Tree.{Nodes, add_child, remove_child}
use polx.Files.Tree.Children.{HasChildren, add_child-HasChildren}

abbrev pub ebadf : ℕ
ebadf = 9

abbrev pub eacces : ℕ
eacces = 13

abbrev pub einval : ℕ
einval = 22

abbrev pub is_error : ℕ → Bool
is_error ret = leb (2 ^ 31) ret

-- `ret = -1; if (op) ret = op(...)`
abbrev pub call : {σ : Type 0} → Option (σ → ℕ × σ) → σ → ℕ × σ
call none fs = (word_max, fs)
call (some op) fs = op fs

-- what a call returns, and the file system, the node's `active_fds` and `errno` after it
pub record Reply (σ : Type 0) : Type 0 where
  pub ret : ℕ
  pub fs : σ
  pub active_fds : ℕ
  pub errno : ℕ

unfoldable pub vfs_open : {σ : Type 0} → Option (σ → ℕ × σ) → σ → (active_fds errno : ℕ) → Reply σ
vfs_open op fs active_fds errno =
    let (ret, after) = call op fs in
    record {
      ret = ret;
      fs = after;
      active_fds = if is_error ret then active_fds else add_word active_fds 1;
      errno = if is_error ret then eacces else errno;
    }

unfoldable pub vfs_close : {σ : Type 0} → Option (σ → ℕ × σ) → σ → (active_fds errno : ℕ) → Reply σ
vfs_close op fs active_fds errno =
    let (ret, after) = call op fs in
    record {
      ret = ret;
      fs = after;
      active_fds = if is_error ret then active_fds else sub_word active_fds 1;
      errno = if is_error ret then ebadf else errno;
    }

-- The driver may set `errno` too: it is part of what the operation gives.
unfoldable pub vfs_read : {σ : Type 0} → Option (σ × ℕ → ℕ × (σ × ℕ)) → σ → (errno : ℕ) → ℕ × σ × ℕ
vfs_read op fs errno =
    let (ret, after) = call op (fs, errno) in
    (if ret == 0 then word_max else ret, after.0, if is_error ret then einval else after.1)

unfoldable pub vfs_write : {σ : Type 0} → Option (σ × ℕ → ℕ × (σ × ℕ)) → σ → (errno : ℕ) → ℕ × σ × ℕ
vfs_write op fs errno =
    let (ret, after) = call op (fs, errno) in
    (ret, after.0, if is_error ret then einval else after.1)

unfoldable pub vfs_readdir : {σ : Type 0} → Option (σ → ℕ × σ) → σ → (errno : ℕ) → ℕ × σ × ℕ
vfs_readdir op fs errno =
    let (ret, after) = call op fs in (ret, after, if is_error ret then eacces else errno)

-- the nodes, the node that the operation makes, and the nodes given back to `kfree`
pub record Tree : Type 0 where
  pub nodes : Nodes
  pub node : Ptr
  pub freed : List Ptr

unfoldable pub vfs_touch :
    (p_node : Ptr) → Option (Tree → ℕ × Tree) → Tree → (errno : ℕ) → ℕ × Tree × ℕ
vfs_touch p_node op t errno =
    let (ret, u) = call op t in
    (
      ret,
      if ret == 0 then record u { nodes = add_child u.nodes p_node u.node } else u,
      if is_error ret then eacces else errno,
    )

unfoldable pub vfs_mkdir :
    (p_node : Ptr) → Option (Tree → ℕ × Tree) → Tree → (errno : ℕ) → ℕ × Tree × ℕ
vfs_mkdir p_node op t errno =
    let (ret, u) = call op t in
    (
      ret,
      if ret == 0 then record u { nodes = add_child u.nodes p_node u.node } else u,
      if is_error ret then eacces else errno,
    )

unfoldable pub vfs_remove :
    (node : Ptr) → Option (Tree → ℕ × Tree) → Tree → (errno : ℕ) → ℕ × Tree × ℕ
vfs_remove node op t errno =
    let (ret, u) = call op t in
    (
      ret,
      if ret == 0
          then record u { nodes = remove_child u.nodes node; freed = node ∷ u.freed }
          else u,
      if is_error ret then eacces else errno,
    )

unfoldable pub vfs_rmdir :
    (node : Ptr) → Option (Tree → ℕ × Tree) → Tree → (errno : ℕ) → ℕ × Tree × ℕ
vfs_rmdir node op t errno =
    let (ret, u) = call op t in
    (
      ret,
      if ret == 0
          then record u { nodes = remove_child u.nodes node; freed = node ∷ u.freed }
          else u,
      if is_error ret then eacces else errno,
    )

-- Opening and then closing a node leaves its count of descriptors as it was if both calls succeed or both
-- fail; it is one higher if only the open succeeds, and one lower if only the close does.
pub vfs_close-vfs_open :
    {σ : Type 0} (opening closing : Option (σ → ℕ × σ)) (fs : σ) (active_fds errno : ℕ)
    → active_fds < 2 ^ 32
    → let o = vfs_open opening fs active_fds errno in
      let c = vfs_close closing o.fs o.active_fds o.errno in
      c.active_fds ≡ (
        if is_error o.ret
        then (if is_error c.ret then active_fds else sub_word active_fds 1)
        else if is_error c.ret
        then add_word active_fds 1
        else active_fds)
unfolding vfs_open vfs_close
vfs_close-vfs_open opening closing fs active_fds errno small = ground arith

-- Where the driver returns 0 with a new node and leaves the directory's children as they were, `vfs_touch`
-- returns 0, leaves `errno`, and the new node is the directory's last child.
pub vfs_touch-HasChildren :
    (p_node : Ptr) (op : Tree → ℕ × Tree) (t : Tree) (errno : ℕ) (cs : List Ptr)
    → (op t).0 ≡ 0
    → HasChildren (op t).1.nodes p_node cs
    → p_node ≢ (op t).1.node
    → (op t).1.node ≢ null
    → NotIn (op t).1.node cs
    → NotIn p_node cs
    → let out = vfs_touch p_node (some op) t errno in
      (out.0 ≡ 0) × (out.2 ≡ errno) × HasChildren out.1.nodes p_node (cs ++ (op t).1.node ∷ [])
unfolding vfs_touch
vfs_touch-HasChildren p_node op t errno cs zero_ret is ne nz out apart = rw zero_ret (
  refl,
  refl,
  (add_child-HasChildren (op t).1.nodes p_node (op t).1.node cs is ne nz out apart).0,
)
