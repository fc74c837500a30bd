-- ===== src/Files/Tree/Removal.antt =====
-- `namei_remove_child` takes a child out of the list of its directory.
use polx.Base.{
  ◌≡◌, refl, sym, ◌∙◌, ◌≢◌, inl, inr, List, [], ◌∷◌, ◌++◌, arith, ◌==◌, if◌then◌else◌, ne→==,
  ==_self, Bool-cases, Ptr, null, head, last_or, NotIn, Distinct, NotIn-null, NotIn-append,
  NotIn-last_or, Chain-neighbours, Chain-unlink, NotIn-head, last_or-append, Distinct-cut,
}
use polx.Files.Tree.{Nodes, set_first, set_last, set_next, set_prev, remove_child, remove_later}
use polx.Files.Tree.Children.{HasChildren}

-- What `remove_child` leaves of the links and of the directory.
record Removed (h g : Nodes) (p c : Ptr) : Type 0 where
  next :
      (a : Ptr)
      → a ≢ c
      → a ≢ null
      → (g a).next_sibling
        ≡ (if a == (h c).prev_sibling then (h c).next_sibling else (h a).next_sibling)
  prev :
      (a : Ptr)
      → a ≢ c
      → a ≢ null
      → (g a).prev_sibling
        ≡ (if a == (h c).next_sibling then (h c).prev_sibling else (h a).prev_sibling)
  first :
      (g p).first_child
      ≡ (if (h c).prev_sibling == null then (h c).next_sibling else (h p).first_child)
  last :
      (g p).last_child
      ≡ (if (h c).next_sibling == null then (h c).prev_sibling else (h p).last_child)

first_goes :
    (h : Nodes) (p c n : Ptr)
    → n ≢ null
    → (h c).prev_sibling ≡ null
    → (h c).next_sibling ≡ n
    → (h c).parent ≡ p
    → Removed h (set_prev (set_first h p n) n null) p c
first_goes h p c n nz before after dir = record {
  next = λ a ne nn. ground (arith, before, nn);
  prev = λ a ne nn. ground (arith, before, after);
  first = ground (arith, before, after);
  last = ground (arith, nz, after);
}

last_goes :
    (h : Nodes) (p c l : Ptr)
    → l ≢ null
    → (h c).prev_sibling ≡ l
    → (h c).next_sibling ≡ null
    → Removed h (set_next (set_last h p l) l null) p c
last_goes h p c l nz before after = record {
  next = λ a ne nn. ground (arith, before, after);
  prev = λ a ne nn. ground (arith, nn, after);
  first = ground (arith, before, nz);
  last = ground (arith, before, after);
}

only_goes :
    (h : Nodes) (p c l n : Ptr)
    → (l ≡ null) × (n ≡ null)
    → (h c).prev_sibling ≡ l
    → (h c).next_sibling ≡ n
    → Removed h (set_last (set_first h p n) p l) p c
only_goes h p c l n nulls before after = record {
  next = λ a ne nn. ground (arith, before, nulls.0, nn);
  prev = λ a ne nn. ground (arith, nn, after, nulls.1);
  first = ground (arith, before, after, nulls.0);
  last = ground (arith, before, after, nulls.1);
}

middle_goes :
    (h : Nodes) (p c l n : Ptr)
    → (l ≢ null) × (n ≢ null)
    → (l ≢ c) × (n ≢ c)
    → (h c).prev_sibling ≡ l
    → (h c).next_sibling ≡ n
    → let g = set_next h l n in Removed h (set_prev g (g c).next_sibling (g c).prev_sibling) p c
middle_goes h p c l n nz apart before after = record {
  next = λ a ne nn. ground (arith, before, after, apart.0);
  prev = λ a ne nn. ground (arith, before, after, apart.0);
  first = ground (arith, before, nz.0);
  last = ground (arith, after, nz.1);
}

remove_child-Removed :
    (h : Nodes) (c : Ptr)
    → (h c).parent ≢ c
    → ((h c).prev_sibling ≢ c) × ((h c).next_sibling ≢ c)
    → Removed h (remove_child h c) (h c).parent c
unfolding remove_child remove_later
remove_child-Removed h c ne apart =
    let P = (h c).parent in
    let L = (h c).prev_sibling in
    let N = (h c).next_sibling in
    elim (Bool-cases ((h c).prev_sibling == null)) [
      | inl no_prev ↦ elim (Bool-cases ((h c).next_sibling == null)) [
        | inr next ↦ rw no_prev (
            rw (==_self (h c).parent) (
              rw next
                (first_goes h P c N (ground (arith, next)) (ground (arith, no_prev)) refl refl)))
        | inl no_next ↦ rw no_prev (
            rw (==_self (h c).parent) (
              rw no_next (
                rw (ne→== P c ne) (
                  rw no_next (
                    rw no_prev (
                      rw (==_self P) at (
                        only_goes h P c L N (ground (arith, no_prev), ground (arith, no_next)) refl
                          refl)))))))
      ]
      | inr prev ↦ elim (Bool-cases ((h c).next_sibling == null)) [
        | inl no_next ↦ rw prev (
            rw no_next (
              rw (==_self (h c).parent) (
                rw prev (last_goes h P c L (ground (arith, prev)) refl (ground (arith, no_next))))))
        | inr next ↦ rw prev (
            rw next
              (middle_goes h P c L N (ground (arith, prev), ground (arith, next)) apart refl refl))
      ]
    ]

middle-NotIn : (t : Ptr) (xs ys : List Ptr) → Distinct (xs ++ t ∷ ys) → NotIn t xs × NotIn t ys
middle-NotIn t [] ys d = (tt, d.0)
middle-NotIn t (x ∷ xs) ys d =
    let rest = middle-NotIn t xs ys d.1 in
    (((λ e. (NotIn-append x xs (t ∷ ys) d.0).1.0 (sym e)), rest.0), rest.1)

last_or-nil : (p : Ptr) (xs : List Ptr) → last_or p (xs ++ []) ≡ last_or p xs
last_or-nil p [] = refl
last_or-nil p (x ∷ xs) = last_or-nil x xs

first_left :
    (f l n c : Ptr) (xs ys : List Ptr)
    → NotIn null xs
    → l ≡ last_or null xs
    → n ≡ head ys
    → f ≡ head (xs ++ c ∷ ys)
    → (if l == null then n else f) ≡ head (xs ++ ys)
first_left f l n c [] ys nz at_l at_n at_f = rw (at_l, at_n) refl
first_left f l n c (x ∷ xs) ys nz at_l at_n at_f =
    let far : l ≢ null = λ e. NotIn-last_or null x xs nz.0 nz.1 (sym e ∙ at_l) in
    rw (ne→== l null far) at_f

last_left :
    (k l n c : Ptr) (xs ys : List Ptr)
    → NotIn null ys
    → l ≡ last_or null xs
    → n ≡ head ys
    → k ≡ last_or null (xs ++ c ∷ ys)
    → (if n == null then l else k) ≡ last_or null (xs ++ ys)
last_left k l n c xs [] nz at_l at_n at_k = rw at_n (at_l ∙ sym (last_or-nil null xs))
last_left k l n c xs (y ∷ ys) nz at_l at_n at_k =
    let far : n ≢ null = λ e. nz.0 (sym e ∙ at_n) in
    rw (ne→== n null far)
      (at_k ∙ last_or-append null c xs (y ∷ ys) ∙ sym (last_or-append null y xs ys))

-- `namei_remove_child` takes a child out of the children of its directory and keeps the order of the
-- others, when the directory is not a child of itself.
pub remove_child-HasChildren :
    (h : Nodes) (c : Ptr) (xs ys : List Ptr)
    → NotIn (h c).parent (xs ++ c ∷ ys)
    → HasChildren h (h c).parent (xs ++ c ∷ ys)
    → HasChildren (remove_child h c) (h c).parent (xs ++ ys)
remove_child-HasChildren h c xs ys out is =
    let (nz, before, after) =
      Chain-neighbours (λ a. (h a).next_sibling) (λ a. (h a).prev_sibling) null c xs ys is.chain in
    let from = middle-NotIn c xs ys is.distinct in
    let none_null = NotIn-append null xs (c ∷ ys) (NotIn-null _ _ null (xs ++ c ∷ ys) is.chain) in
    let gone = remove_child-Removed h c (NotIn-append (h c).parent xs (c ∷ ys) out).1.0 (
      (λ e. NotIn-last_or c null xs nz from.0 (sym e ∙ before)),
      (λ e. NotIn-head c ys nz from.1 (sym e ∙ after)),
    ) in
    record {
      chain =
          Chain-unlink (λ a. (h a).next_sibling) (λ a. (h a).prev_sibling) _ _ null c xs ys
            (λ a ne nn. (gone.next a ne nn, gone.prev a ne nn))
            (NotIn-null _ _ null (xs ++ c ∷ ys) is.chain) is.distinct is.chain;
      distinct = Distinct-cut c xs ys is.distinct;
      first = gone.first ∙ first_left _ _ _ c xs ys none_null.0 before after is.first;
      last = gone.last ∙ last_left _ _ _ c xs ys none_null.1.1 before after is.last;
    }
