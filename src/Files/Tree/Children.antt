-- ===== src/Files/Tree/Children.antt =====
-- The children of a directory as a list.
use polx.Base.{
  ℕ, zero, suc, ◌≤◌, ◌≡◌, refl, sym, ◌∙◌, ◌≢◌, inl, inr, true, false, List, [], ◌∷◌, ◌++◌, arith,
  ◌==◌, if◌then◌else◌, Bool-cases, length, Ptr, null, done, head, last_or, NotIn, Distinct, Chain,
  NotIn-last_or, Chain-append, last_or-append, Distinct-append,
}
use polx.Files.Tree.{Nodes, add_child, find_from, find_child}
use polx.Klib.Strings.Length.{same_text}

-- The directory has the children `cs`, in order.
pub record HasChildren (h : Nodes) (parent : Ptr) (cs : List Ptr) : Type 0 where
  pub chain : Chain (λ a. (h a).next_sibling) (λ a. (h a).prev_sibling) null cs
  pub distinct : Distinct cs
  pub first : (h parent).first_child ≡ head cs
  pub last : (h parent).last_child ≡ last_or null cs

-- the first child of a list with the name, or NULL
abbrev pub named : Nodes → List ℕ → List Ptr → Ptr
named h name [] = null
named h name (t ∷ ts) = if same_text (h t).name name then t else named h name ts

find_from-named :
    (fuel : ℕ) (h : Nodes) (name : List ℕ) (p : Ptr) (ts : List Ptr)
    → Chain (λ a. (h a).next_sibling) (λ a. (h a).prev_sibling) p ts
    → length ts ≤ fuel
    → find_from fuel h name (head ts) ≡ done (named h name ts)
unfolding find_from
find_from-named zero h name p [] c f = refl
find_from-named (suc n) h name p [] c f = refl
find_from-named zero h name p (t ∷ ts) c f = absurd (omega arith)
find_from-named (suc n) h name p (t ∷ ts) c f =
    let nonnull : (t == null) ≡ false = ground (arith, c.0) in
    rw (nonnull, c.2, find_from-named n h name t ts c.3 (omega arith))
      (elim (Bool-cases (same_text (h t).name name)) [ inl e ↦ rw e refl | inr e ↦ rw e refl ])

-- `_find_child` finds the first child with the name, or gives NULL if there is none; a round for each child
-- is enough.
pub find_child-named :
    (fuel : ℕ) (h : Nodes) (parent : Ptr) (name : List ℕ) (cs : List Ptr)
    → HasChildren h parent cs
    → length cs ≤ fuel
    → find_child fuel h parent name ≡ done (named h name cs)
unfolding find_child
find_child-named fuel h parent name cs is f =
    rw (is.first) (find_from-named fuel h name null cs is.chain f)

add_child-first :
    (h : Nodes) (parent child : Ptr)
    → parent ≢ child
    → ((h parent).first_child == null) ≡ true
    → let g = add_child h parent child in
      ((g child).next_sibling ≡ null)
      × ((g child).prev_sibling ≡ null)
      × ((g parent).first_child ≡ child)
      × ((g parent).last_child ≡ child)
      × ((g child).parent ≡ parent)
unfolding add_child
add_child-first h parent child ne empty =
    let apart : (child == parent) ≡ false = ground (arith, ne) in
    rw apart (
      rw empty (
        ground (arith, ne),
        ground (arith, ne),
        ground (arith, ne),
        ground (arith, ne),
        ground (arith, ne),
      ))

add_child-other :
    (h : Nodes) (parent child a : Ptr)
    → parent ≢ child
    → ((h parent).first_child == null) ≡ false
    → a ≢ child
    → let g = add_child h parent child in
      ((g a).next_sibling ≡ (if a == (h parent).last_child then child else (h a).next_sibling))
      × ((g a).prev_sibling ≡ (h a).prev_sibling)
unfolding add_child
add_child-other h parent child a ne busy far =
    let apart : (child == parent) ≡ false = ground (arith, ne) in
    rw apart (rw busy (ground (arith, ne, far, apart), ground (arith, ne, far, apart)))

add_child_self :
    (h : Nodes) (parent child : Ptr)
    → parent ≢ child
    → ((h parent).first_child == null) ≡ false
    → (h parent).last_child ≢ child
    → (h parent).last_child ≢ parent
    → let g = add_child h parent child in
      ((g child).next_sibling ≡ null)
      × ((g child).prev_sibling ≡ (h parent).last_child)
      × ((g parent).first_child ≡ (h parent).first_child)
      × ((g parent).last_child ≡ child)
      × ((g child).parent ≡ parent)
unfolding add_child
add_child_self h parent child ne busy far apart =
    let sep : (child == parent) ≡ false = ground (arith, ne) in
    let old : ((h parent).last_child == parent) ≡ false = ground (arith, apart) in
    rw sep (
      rw busy (
        ground (arith, ne, far, apart),
        ground (arith, ne, far, apart),
        ground (arith, ne, far, apart),
        ground (arith, ne, far, apart),
        ground (arith, ne, far, apart),
      ))

-- `namei_add_child` makes a node that is neither the directory nor a child of it the last child of the
-- directory; the other children stay as they are. The directory is not its own child.
pub add_child-HasChildren :
    (h : Nodes) (parent child : Ptr) (cs : List Ptr)
    → HasChildren h parent cs
    → parent ≢ child
    → child ≢ null
    → NotIn child cs
    → NotIn parent cs
    → HasChildren (add_child h parent child) parent (cs ++ child ∷ [])
      × ((add_child h parent child child).parent ≡ parent)
add_child-HasChildren h parent child [] is ne nz out apart =
    let empty : ((h parent).first_child == null) ≡ true = ground (arith, is.first) in
    let (next, prev, first, last, up) = add_child-first h parent child ne empty in
    (record { chain = (nz, prev, next, tt); distinct = (tt, tt); first = first; last = last }, up)
add_child-HasChildren h parent child (x ∷ cs) is ne nz out apart =
    let busy : ((h parent).first_child == null) ≡ false = ground (arith, is.first, is.chain.0) in
    let far : (h parent).last_child ≢ child =
      λ e. NotIn-last_or child x cs out.0 out.1 (sym e ∙ is.last) in
    let away : (h parent).last_child ≢ parent =
      λ e. NotIn-last_or parent x cs apart.0 apart.1 (sym e ∙ is.last) in
    let (next, prev, first, last, up) = add_child_self h parent child ne busy far away in
    (
      record {
        chain =
            Chain-append (λ a. (h a).next_sibling) (λ a. (h a).prev_sibling)
              (λ a. (add_child h parent child a).next_sibling)
              (λ a. (add_child h parent child a).prev_sibling) null child (h parent).last_child
              (x ∷ cs) (λ a other. add_child-other h parent child a ne busy other) (inr is.last) nz
              (prev ∙ is.last) next out is.distinct is.chain;
        distinct = Distinct-append child (x ∷ cs) out is.distinct;
        first = first ∙ is.first;
        last = last ∙ sym (last_or-append x child cs []);
      },
      up,
    )
