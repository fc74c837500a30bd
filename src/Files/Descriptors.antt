-- ===== src/Files/Descriptors.antt =====
-- The kernel's list of open files, src/kernel/vfs/fd.c: a doubly linked list of descriptors, whose links are
-- functions of the address.
use polx.Base.{
  ◌≡◌, refl, sym, ◌∙◌, ◌≢◌, inl, inr, true, false, List, [], ◌∷◌, ◌++◌, arith, ◌==◌, if◌then◌else◌,
  Bool-cases, Ptr, null, update, Outcome, done, fault, Ends, head, last_or, NotIn, Distinct, Chain,
  NotIn-null, NotIn-append, NotIn-last_or, Chain-neighbours, Chain-kept, Chain-unlink, Distinct-cut,
}

pub record Descriptors : Type 0 where
  pub first_fd : Ptr
  pub next : Ptr → Ptr
  pub prev : Ptr → Ptr

unfoldable pub fd_add : Descriptors → (fd : Ptr) → Descriptors
fd_add s fd = if s.first_fd == null then record s { first_fd = fd } else record s {
  first_fd = fd;
  next = update s.next fd s.first_fd;
  prev = update s.prev s.first_fd fd;
}

-- The first case writes through `first_fd`, which is NULL if the list is empty.
unfoldable pub fd_remove : Descriptors → (fd : Ptr) → Outcome Descriptors
fd_remove s fd =
    if s.prev fd == null
    then (if s.first_fd == null
        then fault
        else done (record s { prev = update s.prev s.first_fd null; first_fd = s.next fd }))
    else if s.next fd == null
    then done (record s { next = update s.next (s.prev fd) null })
    else done (record s {
      next = update s.next (s.prev fd) (s.next fd);
      prev = update s.prev (s.next fd) (s.prev fd);
    })

-- The list holds the open files `fds`, the last opened first.
pub record IsOpen (s : Descriptors) (fds : List Ptr) : Type 0 where
  pub chain : Chain s.next s.prev null fds
  pub distinct : Distinct fds
  pub first : s.first_fd ≡ head fds

-- `fd_add` puts a descriptor that is not in the list before the others, if its links are NULL.
pub fd_add-IsOpen :
    (s : Descriptors) (fds : List Ptr) (fd : Ptr)
    → IsOpen s fds
    → fd ≢ null
    → NotIn fd fds
    → (s.next fd ≡ null) × (s.prev fd ≡ null)
    → IsOpen (fd_add s fd) (fd ∷ fds)
unfolding fd_add
fd_add-IsOpen s [] fd is nz out links =
    let empty : (s.first_fd == null) ≡ true = ground (arith, is.first) in
    rw empty (record { chain = (nz, links.1, links.0, tt); distinct = (tt, tt); first = refl })
fd_add-IsOpen s (x ∷ fds) fd is nz out links =
    let busy : (s.first_fd == null) ≡ false = ground (arith, is.first, is.chain.0) in
    let at : s.first_fd ≡ x = is.first in
    let ne : fd ≢ x = out.0 in
    rw busy (record {
      chain = (
        nz,
        ground (arith, at, ne, links.1),
        ground (arith, at),
        (
          is.chain.0,
          ground (arith, at),
          ground (arith, ne, is.chain.2),
          Chain-kept s.next s.prev _ _ x fds (fd ∷ x ∷ [])
              (λ a away.
                let far = away.0 in
                let apart = away.1.0 in (ground (arith, far), ground (arith, apart, at)))
              (out.1, (is.distinct.0, tt)) is.chain.3,
        ),
      );
      distinct = (out, is.distinct);
      first = refl;
    })

-- `fd_remove` of a descriptor that is not the first takes it out of the list.
pub fd_remove-IsOpen :
    (s : Descriptors) (x fd : Ptr) (xs ys : List Ptr)
    → IsOpen s (x ∷ (xs ++ fd ∷ ys))
    → Ends (λ u. IsOpen u (x ∷ (xs ++ ys))) (fd_remove s fd)
unfolding fd_remove
fd_remove-IsOpen s x fd xs ys is =
    let (nz, before, after) = Chain-neighbours s.next s.prev null fd (x ∷ xs) ys is.chain in
    let far : last_or x xs ≢ null = λ e.
      NotIn-last_or null x xs (λ k. is.chain.0 (sym k))
        (NotIn-append null xs (fd ∷ ys) (NotIn-null s.next s.prev x (xs ++ fd ∷ ys) is.chain.3)).0
        (sym e) in
    let inner : (s.prev fd == null) ≡ false = ground (arith, before, far) in
    elim (Bool-cases (s.next fd == null)) [
      | inl last ↦ rw inner (
          rw last (record {
            chain =
                Chain-unlink s.next s.prev _ _ null fd (x ∷ xs) ys
                  (λ a ne nonnull. (ground (arith, last), ground (arith, last, nonnull)))
                  (NotIn-null s.next s.prev null (x ∷ (xs ++ fd ∷ ys)) is.chain) is.distinct
                  is.chain;
            distinct = Distinct-cut fd (x ∷ xs) ys is.distinct;
            first = is.first;
          }))
      | inr middle ↦ rw inner (
          rw middle (record {
            chain =
                Chain-unlink s.next s.prev _ _ null fd (x ∷ xs) ys
                  (λ a ne nonnull. (ground arith, ground arith))
                  (NotIn-null s.next s.prev null (x ∷ (xs ++ fd ∷ ys)) is.chain) is.distinct
                  is.chain;
            distinct = Distinct-cut fd (x ∷ xs) ys is.distinct;
            first = is.first;
          }))
    ]

-- After `fd_remove` of the first descriptor, of two or more, the new first one still points back at the one
-- that is gone: its `prev` is not NULL, so the list is not well linked.
pub fd_remove-dangling :
    (s : Descriptors) (x y : Ptr) (fds : List Ptr)
    → IsOpen s (x ∷ y ∷ fds)
    → Ends (λ u. (u.first_fd ≡ y) × (u.prev y ≡ x) × ¬ IsOpen u (y ∷ fds)) (fd_remove s x)
unfolding fd_remove
fd_remove-dangling s x y fds is =
    let head_case : (s.prev x == null) ≡ true = ground (arith, is.chain.1) in
    let busy : (s.first_fd == null) ≡ false = ground (arith, is.first, is.chain.0) in
    let back : update s.prev s.first_fd null y ≡ x =
      ground (arith, is.first, is.distinct.0.0, is.chain.3.1) in
    rw (head_case, busy) (is.chain.2, back, λ u. is.chain.0 (sym back ∙ u.chain.1))
