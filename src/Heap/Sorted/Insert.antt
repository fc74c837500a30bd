-- ===== src/Heap/Sorted/Insert.antt =====
-- `_insert_in_sortedbin`.
use polx.Base.{
  ℕ, zero, suc, ◌+◌, ◌^◌, ◌≤◌, ◌<◌, ◌≡◌, refl, sym, ap, ◌∙◌, ◌≢◌, inl, inr, true, false, List, [],
  ◌∷◌, ◌++◌, arith, ltb, leb, ◌==◌, if◌then◌else◌, leb→le, ne→==, le→leb, not_leb→le, not_leb→lt,
  ltb→le, not_ltb→le, Bool-cases, length, Ptr, null, update, add_word, done, ◌>>=◌, Ends, head,
  last_or, NotIn, Chain, NotIn-null, NotIn-append, NotIn-last_or, Chain-insert, Distinct-insert,
  NotIn-head, last_or-append,
}
use mathlib.Core.List.{append-nil}
use mathlib.Core.Path.{subst}
use polx.Heap.{Chunks, Heap, sortedbin_idx, link_between, find_place, insert_in_sortedbin}
use polx.Heap.Sorted.List.{
  size_in, Above, Below, Ascending, IsSortedBin, Above-le, Ascending-insert, Ascending-kept,
}

module _ (h : Chunks) (c before after : Ptr) where
  link_between-other :
      (a : Ptr)
      → a ≢ c
      → a ≢ null
      → ((link_between h c before after a).next ≡ (if a == before then c else (h a).next))
        × ((link_between h c before after a).prev ≡ (if a == after then c else (h a).prev))
  unfolding link_between
  link_between-other a ne nz = (ground (arith, ne, nz), ground (arith, ne, nz))

  link_between_self :
      c ≢ before
      → c ≢ after
      → ((link_between h c before after c).prev ≡ before)
        × ((link_between h c before after c).next ≡ after)
  unfolding link_between
  link_between_self nb na = (ground (arith, nb, na), ground (arith, nb, na))

  link_between-size : (a : Ptr) → (link_between h c before after a).size ≡ (h a).size
  unfolding link_between
  link_between-size a = ground arith

-- The place of `c` behind `t`: the chunks up to it are as small, those behind it as large.
record Placed (fuel : ℕ) (h : Chunks) (c t : Ptr) (rest : List Ptr) : Type 0 where
  left : List Ptr
  after : Ptr
  right : List Ptr
  whole : rest ≡ left ++ after ∷ right
  found : find_place fuel h c t ≡ done (link_between h c (last_or t left) after)
  below : Below (size_in h) (h c).size left
  above : Above (size_in h) (h c).size (after ∷ right)

find_place-Placed :
    (fuel : ℕ) (h : Chunks) (c t : Ptr) (rest : List Ptr) (prev : Ptr → Ptr) (p : Ptr)
    → Chain (λ a. (h a).next) prev p (t ∷ rest)
    → Ascending (size_in h) (t ∷ rest)
    → (h t).size ≤ (h c).size
    → (h c).size < (h (last_or t rest)).size
    → length rest ≤ fuel
    → Placed fuel h c t rest
unfolding find_place
find_place-Placed fuel h c t [] prev p chain up lo hi enough = absurd (omega arith)
find_place-Placed zero h c t (u ∷ rest) prev p chain up lo hi enough = absurd (omega arith)
find_place-Placed (suc fuel) h c t (u ∷ rest) prev p chain up lo hi enough =
    let here : (t == null) ≡ false = ne→== t null chain.0 in
    let more : (u == null) ≡ false = ne→== u null chain.3.0 in
    let small : leb (h t).size (h c).size ≡ true = le→leb (h t).size (h c).size lo in
    elim (Bool-cases (leb (h c).size (h u).size)) [
      | inl large ↦
          (let le : (h c).size ≤ (h u).size = leb→le (h c).size (h u).size large in
            record {
              left = [];
              after = u;
              right = rest;
              whole = refl;
              found = rw here (rw chain.2 (rw more (rw (small, large) refl)));
              below = tt;
              above = (le, Above-le (size_in h) (h c).size (h u).size rest le up.1.0);
            })
      | inr smaller ↦
          (let le : (h u).size ≤ (h c).size = not_leb→le (h c).size (h u).size smaller in
            let r =
              find_place-Placed fuel h c u rest prev t chain.3 up.1 le hi (omega (arith, enough)) in
            record {
              left = u ∷ r.left;
              after = r.after;
              right = r.right;
              whole = ap (λ (l : List Ptr). u ∷ l) r.whole;
              found = rw here (rw chain.2 (rw more (rw (small, smaller) r.found)));
              below = (le, r.below);
              above = r.above;
            })
    ]

-- The heap when `c` is put between two chunks of the sorted bin, with its new ends.
abbrev inserted : Heap → (c before after first last : Ptr) → Heap
inserted h c before after first last = record h {
  chunks = link_between h.chunks c before after;
  bins = update h.bins sortedbin_idx (record (h.bins sortedbin_idx) {
    first = first;
    last = last;
    counter = add_word (h.bins sortedbin_idx).counter 1;
  });
}

-- `c` is one more chunk of the sorted bin, which held `xs`.
pub record Inserted (c : Ptr) (xs : List Ptr) (h : Heap) : Type 0 where
  pub left : List Ptr
  pub right : List Ptr
  pub whole : xs ≡ left ++ right
  pub held : IsSortedBin h (left ++ c ∷ right)

length-insert : (c : Ptr) (xs ys : List Ptr) → length (xs ++ c ∷ ys) ≡ length (xs ++ ys) + 1
length-insert c [] ys = omega arith
length-insert c (x ∷ xs) ys = omega (arith, length-insert c xs ys)

inserted-IsSortedBin :
    (h : Heap) (c : Ptr) (xs ys : List Ptr) (before after first last : Ptr)
    → IsSortedBin h (xs ++ ys)
    → c ≢ null
    → NotIn c (xs ++ ys)
    → length (xs ++ ys) + 1 < 2 ^ 32
    → Below (size_in h.chunks) (h.chunks c).size xs
    → Above (size_in h.chunks) (h.chunks c).size ys
    → before ≡ last_or null xs
    → after ≡ head ys
    → first ≡ head (xs ++ c ∷ ys)
    → last ≡ last_or null (xs ++ c ∷ ys)
    → IsSortedBin (inserted h c before after first last) (xs ++ c ∷ ys)
inserted-IsSortedBin h c xs ys before after first last is nz out small lo hi is_b is_a is_f is_l =
    let (nx, ny) = NotIn-append c xs ys out in
    let not_before : c ≢ before = λ e. NotIn-last_or c null xs nz nx (e ∙ is_b) in
    let not_after : c ≢ after = λ e. NotIn-head c ys nz ny (e ∙ is_a) in
    let g = link_between h.chunks c before after in
    let (back, on) = link_between_self h.chunks c before after not_before not_after in
    record {
      chain =
          Chain-insert (λ a. (h.chunks a).next) (λ a. (h.chunks a).prev) (λ a. (g a).next)
            (λ a. (g a).prev) null c xs ys
            (rw (← is_b)
              (rw (← is_a) (λ a ne n. link_between-other h.chunks c before after a ne n)))
            nz (back ∙ is_b) (on ∙ is_a) out
            (NotIn-null (λ a. (h.chunks a).next) (λ a. (h.chunks a).prev) null (xs ++ ys) is.chain)
            is.distinct is.chain;
      distinct = Distinct-insert c xs ys out is.distinct;
      first = is_f;
      last = is_l;
      count = omega (arith, is.count, length-insert c xs ys);
      ascending =
          Ascending-kept (size_in h.chunks) (size_in g) (xs ++ c ∷ ys)
            (λ a. link_between-size h.chunks c before after a)
            (Ascending-insert (size_in h.chunks) c xs ys lo hi is.ascending);
    }

inserted-Inserted :
    (h : Heap) (c : Ptr) (zs xs ys : List Ptr) (before after first last : Ptr)
    → zs ≡ xs ++ ys
    → IsSortedBin h zs
    → c ≢ null
    → NotIn c zs
    → length zs + 1 < 2 ^ 32
    → Below (size_in h.chunks) (h.chunks c).size xs
    → Above (size_in h.chunks) (h.chunks c).size ys
    → before ≡ last_or null xs
    → after ≡ head ys
    → first ≡ head (xs ++ c ∷ ys)
    → last ≡ last_or null (xs ++ c ∷ ys)
    → Inserted c zs (inserted h c before after first last)
inserted-Inserted h c zs xs ys before after first last e is nz out small lo hi is_b is_a is_f is_l =
    record {
      left = xs;
      right = ys;
      whole = e;
      held =
          inserted-IsSortedBin h c xs ys before after first last (subst (IsSortedBin h) e is) nz
            (subst (NotIn c) e out) (subst (λ (l : List Ptr). length l + 1 < 2 ^ 32) e small) lo hi
            is_b is_a is_f is_l;
    }

Above-head :
    (size : Ptr → ℕ) (n x : ℕ) (xs : List Ptr)
    → n ≤ size x
    → Ascending size (x ∷ xs)
    → Above size n (x ∷ xs)
Above-head size n x xs le up = (le, Above-le size n (size x) xs le up.0)

Below-last :
    (size : Ptr → ℕ) (n : ℕ) (x : Ptr) (xs : List Ptr)
    → Ascending size (x ∷ xs)
    → size (last_or x xs) ≤ n
    → Below size n (x ∷ xs)
Below-last size n x [] up le = (le, tt)
Below-last size n x (y ∷ xs) up le =
    let rest = Below-last size n y xs up.1 le in (omega (arith, rest.0, up.0.0), rest)

-- a bin with two chunks or more, and a chunk that does not come first
insert_later :
    (h : Heap) (c x y : Ptr) (r : List Ptr)
    → IsSortedBin h (x ∷ y ∷ r)
    → c ≢ null
    → NotIn c (x ∷ y ∷ r)
    → length (x ∷ y ∷ r) + 1 < 2 ^ 32
    → (h.chunks x).size ≤ (h.chunks c).size
    → Ends (Inserted c (x ∷ y ∷ r)) (
        if leb (h.chunks (last_or y r)).size (h.chunks c).size
        then done (inserted h c (last_or y r) null x c)
        else (find_place (h.bins sortedbin_idx).counter h.chunks c x >>= λ k.
            done (record (inserted h c null null x (last_or y r)) { chunks = k })))
insert_later h c x y r is nz out small lo =
    elim (Bool-cases (leb (h.chunks (last_or y r)).size (h.chunks c).size)) [
      | inl largest ↦ rw largest (
          inserted-Inserted h c (x ∷ y ∷ r) (x ∷ y ∷ r) [] (last_or y r) null x c
            (sym (append-nil (x ∷ y ∷ r))) is nz out small
            (Below-last (size_in h.chunks) (h.chunks c).size x (y ∷ r) is.ascending
              (leb→le _ _ largest))
            tt refl refl refl (sym (last_or-append x c (y ∷ r) [])))
      | inr inside ↦
          (let place =
              find_place-Placed (h.bins sortedbin_idx).counter h.chunks c x (y ∷ r)
                (λ a. (h.chunks a).prev) null is.chain is.ascending lo (not_leb→lt _ _ inside)
                (omega (arith, is.count)) in
            let whole : x ∷ y ∷ r ≡ x ∷ (place.left ++ place.after ∷ place.right) =
              ap (λ (l : List Ptr). x ∷ l) place.whole in
            rw inside (
              rw place.found (
                inserted-Inserted h c (x ∷ y ∷ r) (x ∷ place.left) (place.after ∷ place.right)
                  (last_or x place.left) place.after x (last_or y r) whole is nz out small
                  (lo, place.below) place.above refl refl refl
                  (ap (last_or null) whole
                    ∙ last_or-append x place.after place.left place.right
                    ∙ sym (last_or-append x c place.left (place.after ∷ place.right))))))
    ]

-- `_insert_in_sortedbin` ends, and puts a chunk that is not in the sorted bin in a place among the others where the sizes are in ascending order.
pub insert_in_sortedbin-Inserted :
    (h : Heap) (c : Ptr) (xs : List Ptr)
    → IsSortedBin h xs
    → c ≢ null
    → NotIn c xs
    → length xs + 1 < 2 ^ 32
    → Ends (Inserted c xs) (insert_in_sortedbin h c)
unfolding insert_in_sortedbin
insert_in_sortedbin-Inserted h c [] is nz out small =
    let empty : ((h.bins sortedbin_idx).counter == 0) ≡ true = ground (arith, is.count) in
    rw empty
      (inserted-Inserted h c [] [] [] null null c c refl is nz out small tt tt refl refl refl refl)
insert_in_sortedbin-Inserted h c (x ∷ []) is nz out small =
    let busy : ((h.bins sortedbin_idx).counter == 0) ≡ false = ground (arith, is.count) in
    let one : ((h.bins sortedbin_idx).counter == 1) ≡ true = ground (arith, is.count) in
    let size = (h.chunks c).size in
    rw busy (
      rw is.first (
        rw (ne→== x null is.chain.0) (elim (Bool-cases (ltb size (h.chunks x).size)) [
          | inl smaller ↦ rw smaller (
              inserted-Inserted h c (x ∷ []) [] (x ∷ []) null x c (h.bins sortedbin_idx).last refl
                is nz out small tt (ltb→le _ _ smaller, tt) refl refl refl is.last)
          | inr larger ↦ rw larger (
              rw one (
                inserted-Inserted h c (x ∷ []) (x ∷ []) [] x null x c refl is nz out small
                  (not_ltb→le _ _ larger, tt) tt refl refl refl refl))
        ])))
insert_in_sortedbin-Inserted h c (x ∷ y ∷ r) is nz out small =
    let busy : ((h.bins sortedbin_idx).counter == 0) ≡ false = ground (arith, is.count) in
    let many : ((h.bins sortedbin_idx).counter == 1) ≡ false = ground (arith, is.count) in
    let size = (h.chunks c).size in
    let not_null =
      NotIn-null (λ a. (h.chunks a).next) (λ a. (h.chunks a).prev) x (y ∷ r) is.chain.3 in
    let ended : (last_or y r == null) ≡ false =
      ne→== _ _ (λ e. NotIn-last_or null y r not_null.0 not_null.1 (sym e)) in
    rw busy (
      rw is.first (
        rw (ne→== x null is.chain.0) (elim (Bool-cases (ltb size (h.chunks x).size)) [
          | inl smaller ↦ rw smaller (
              inserted-Inserted h c (x ∷ y ∷ r) [] (x ∷ y ∷ r) null x c (h.bins sortedbin_idx).last
                refl is nz out small tt
                (Above-head (size_in h.chunks) size x (y ∷ r) (ltb→le _ _ smaller) is.ascending)
                refl refl refl is.last)
          | inr larger ↦ rw larger (
              rw many (
                rw is.last
                  (rw ended (insert_later h c x y r is nz out small (not_ltb→le _ _ larger)))))
        ])))
