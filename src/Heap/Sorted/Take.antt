-- ===== src/Heap/Sorted/Take.antt =====
-- The search of the sorted bin, and `_earse_from_sortedbin`.
use polx.Base.{
  ℕ, zero, suc, ◌+◌, ◌^◌, ◌≤◌, ◌<◌, ◌≡◌, refl, sym, ap, ◌∙◌, ◌≢◌, ◌⊎◌, inl, inr, true, false, List,
  [], ◌∷◌, ◌++◌, arith, leb, ◌==◌, if◌then◌else◌, lt→ltb, leb→le, ne→==, not_leb→lt, le→not_ltb,
  Bool-cases, length, Ptr, null, update, sub_word, done, Ends, head, last_or, NotIn, Chain,
  NotIn-null, NotIn-append, NotIn-last_or, Chain-neighbours, Chain-unlink, Distinct-cut, ∷≢[],
}
use mathlib.Core.List.{append-nil}
use mathlib.Core.Path.{subst}
use polx.Heap.{
  Chunks, Heap, sortedbin_idx, set_next, set_prev, erase_from_sortedbin, find_large,
  take_from_sortedbin,
}
use polx.Heap.Sorted.List.{size_in, Above, Ascending, IsSortedBin, Ascending-cut, Ascending-kept}

-- every size is less than `n`
abbrev pub Under : (Ptr → ℕ) → ℕ → List Ptr → Type 0
Under size n [] = Unit
Under size n (x ∷ xs) = (size x < n) × Under size n xs

-- the chunks `xs`, up to the first that is large enough, which the search returns
record Search (fuel : ℕ) (h : Chunks) (n : ℕ) (xs : List Ptr) : Type 0 where
  left : List Ptr
  right : List Ptr
  whole : xs ≡ left ++ right
  found : find_large fuel h n (head xs) ≡ done (head right)
  under : Under (size_in h) n left
  large : (right ≡ []) ⊎ (n ≤ (h (head right)).size)

find_large-Search :
    (fuel : ℕ) (h : Chunks) (n : ℕ) (xs : List Ptr) (prev : Ptr → Ptr) (p : Ptr)
    → Chain (λ a. (h a).next) prev p xs
    → length xs ≤ fuel
    → Search fuel h n xs
unfolding find_large
find_large-Search zero h n [] prev p chain enough = record {
  left = [];
  right = [];
  whole = refl;
  found = refl;
  under = tt;
  large = inl refl;
}
find_large-Search (suc fuel) h n [] prev p chain enough = record {
  left = [];
  right = [];
  whole = refl;
  found = refl;
  under = tt;
  large = inl refl;
}
find_large-Search zero h n (x ∷ xs) prev p chain enough = absurd (omega (arith, enough))
find_large-Search (suc fuel) h n (x ∷ xs) prev p chain enough =
    let here : (x == null) ≡ false = ne→== x null chain.0 in
    elim (Bool-cases (leb n (h x).size)) [
      | inl large ↦ record {
        left = [];
        right = x ∷ xs;
        whole = refl;
        found = rw (here, large) refl;
        under = tt;
        large = inr (leb→le _ _ large);
      }
      | inr small ↦
          (let rest = find_large-Search fuel h n xs prev x chain.3 (omega (arith, enough)) in
            record {
              left = x ∷ rest.left;
              right = rest.right;
              whole = ap (λ (l : List Ptr). x ∷ l) rest.whole;
              found = rw here (rw small (rw chain.2 rest.found));
              under = (not_leb→lt _ _ small, rest.under);
              large = rest.large;
            })
    ]

-- the heap when the chunk between `before` and `after` is taken out
abbrev erased : Heap → (before after : Ptr) → Heap
erased h before after =
    let b = h.bins sortedbin_idx in
    let g = if before == null then h.chunks else set_next h.chunks before after in
    record h {
      chunks = if after == null then g else set_prev g after before;
      bins = update h.bins sortedbin_idx (record b {
        first = if before == null then after else b.first;
        last = if after == null then before else b.last;
        counter = sub_word b.counter 1;
      });
    }

module _ (h : Heap) (t before after : Ptr) where
  erase-alone :
      ((h.bins sortedbin_idx).counter == 1) ≡ true
      → null ≡ before
      → null ≡ after
      → erase_from_sortedbin h t ≡ erased h before after
  unfolding erase_from_sortedbin
  erase-alone one is_b is_a = rw one (rw (← is_b) (rw (← is_a) refl))

  erase-among :
      ((h.bins sortedbin_idx).counter == 1) ≡ false
      → (h.chunks t).prev ≡ before
      → (h.chunks t).next ≡ after
      → erase_from_sortedbin h t ≡ erased h before after
  unfolding erase_from_sortedbin
  erase-among many is_b is_a = rw many (rw (is_b, is_a) refl)

erased-links :
    (h : Heap) (before after a : Ptr)
    → a ≢ null
    → (((erased h before after).chunks a).next ≡ (if a == before then after else (h.chunks a).next))
      × (((erased h before after).chunks a).prev
          ≡ (if a == after then before else (h.chunks a).prev))
erased-links h before after a nz = (ground (arith, nz), ground (arith, nz))

erased-size :
    (h : Heap) (before after a : Ptr) → ((erased h before after).chunks a).size ≡ (h.chunks a).size
erased-size h before after a = ground arith

length-cut : (t : Ptr) (xs ys : List Ptr) → length (xs ++ t ∷ ys) ≡ length (xs ++ ys) + 1
length-cut t [] ys = omega arith
length-cut t (x ∷ xs) ys = omega (arith, length-cut t xs ys)

last_or-cut :
    (p t : Ptr) (xs ys : List Ptr)
    → NotIn null (xs ++ t ∷ ys)
    → last_or p (xs ++ ys) ≡ (if head ys == null then last_or p xs else last_or p (xs ++ t ∷ ys))
last_or-cut p t [] [] out = refl
last_or-cut p t [] (y ∷ ys) out = rw (ne→== y null (λ e. out.1.0 (sym e))) refl
last_or-cut p t (x ∷ xs) ys out = last_or-cut x t xs ys out.1

head-cut :
    (t : Ptr) (xs ys : List Ptr)
    → NotIn null (xs ++ t ∷ ys)
    → head (xs ++ ys) ≡ (if last_or null xs == null then head ys else head (xs ++ t ∷ ys))
head-cut t [] ys out = refl
head-cut t (x ∷ xs) ys out =
    let (nx, _) = NotIn-append null (x ∷ xs) (t ∷ ys) out in
    let nz : last_or x xs ≢ null = λ e. NotIn-last_or null x xs nx.0 nx.1 (sym e) in
    rw (ne→== (last_or x xs) null nz) refl

erased-IsSortedBin :
    (h : Heap) (t : Ptr) (xs ys : List Ptr)
    → IsSortedBin h (xs ++ t ∷ ys)
    → length (xs ++ t ∷ ys) < 2 ^ 32
    → IsSortedBin (erased h (last_or null xs) (head ys)) (xs ++ ys)
erased-IsSortedBin h t xs ys is small =
    let next = λ (a : Ptr). (h.chunks a).next in
    let prev = λ (a : Ptr). (h.chunks a).prev in
    let g = (erased h (last_or null xs) (head ys)).chunks in
    let (nt, back, on) = Chain-neighbours next prev null t xs ys is.chain in
    let out = NotIn-null next prev null (xs ++ t ∷ ys) is.chain in
    record {
      chain =
          Chain-unlink next prev (λ a. (g a).next) (λ a. (g a).prev) null t xs ys
            (λ a ne nz. rw back (rw on (erased-links h (last_or null xs) (head ys) a nz))) out
            is.distinct is.chain;
      distinct = Distinct-cut t xs ys is.distinct;
      first = rw is.first (sym (head-cut t xs ys out));
      last = rw is.last (sym (last_or-cut null t xs ys out));
      count = omega (arith, is.count, length-cut t xs ys);
      ascending =
          Ascending-kept (size_in h.chunks) (size_in g) (xs ++ ys)
            (λ a. erased-size h (last_or null xs) (head ys) a)
            (Ascending-cut (size_in h.chunks) t xs ys is.ascending);
    }

erase-IsSortedBin :
    (h : Heap) (t : Ptr) (xs ys : List Ptr)
    → IsSortedBin h (xs ++ t ∷ ys)
    → length (xs ++ t ∷ ys) < 2 ^ 32
    → IsSortedBin (erase_from_sortedbin h t) (xs ++ ys)
erase-IsSortedBin h t [] [] is small =
    rw (erase-alone h t null null (ground (arith, is.count)) refl refl)
      (erased-IsSortedBin h t [] [] is small)
erase-IsSortedBin h t [] (y ∷ ys) is small =
    rw (erase-among h t null y (ground (arith, is.count)) is.chain.1 is.chain.2)
      (erased-IsSortedBin h t [] (y ∷ ys) is small)
erase-IsSortedBin h t (x ∷ xs) ys is small =
    let (nt, back, on) =
      Chain-neighbours (λ a. (h.chunks a).next) (λ a. (h.chunks a).prev) null t (x ∷ xs) ys
        is.chain in
    let many : ((h.bins sortedbin_idx).counter == 1) ≡ false =
      ne→== _ 1 (λ e. absurd (omega (arith, is.count, e, length-cut t xs ys))) in
    rw (erase-among h t (last_or x xs) (head ys) many back on)
      (erased-IsSortedBin h t (x ∷ xs) ys is small)

-- What taking a chunk of `n` bytes or more from the sorted bin `xs` gives: the smallest there is, or NULL where all are smaller.
pub data BestFit (h : Heap) (n : ℕ) (xs : List Ptr) : Heap × Ptr → Type 0 where
  nothing : Under (size_in h.chunks) n xs → BestFit h n xs (h, null)
  found :
      (g : Heap) (left : List Ptr) (t : Ptr) (right : List Ptr)
      → xs ≡ left ++ t ∷ right
      → t ≢ null
      → Under (size_in h.chunks) n left
      → n ≤ (h.chunks t).size
      → Above (size_in h.chunks) (h.chunks t).size right
      → IsSortedBin g (left ++ right)
      → BestFit h n xs (g, t)

Above-right :
    (size : Ptr → ℕ) (t : Ptr) (xs ys : List Ptr)
    → Ascending size (xs ++ t ∷ ys)
    → Above size (size t) ys
Above-right size t [] ys up = up.0
Above-right size t (x ∷ xs) ys up = Above-right size t xs ys up.1

-- the two ways in which the search ends
taken :
    (h : Heap) (n : ℕ) (xs left right : List Ptr)
    → IsSortedBin h xs
    → length xs < 2 ^ 32
    → xs ≡ left ++ right
    → Under (size_in h.chunks) n left
    → (right ≡ []) ⊎ (n ≤ (h.chunks (head right)).size)
    → BestFit h n xs
        (if head right == null then h else erase_from_sortedbin h (head right), head right)
taken h n xs left [] is small whole under large =
    nothing (subst (Under (size_in h.chunks) n) (sym (whole ∙ append-nil left)) under)
taken h n xs left (t ∷ right) is small whole under large =
    let held = subst (IsSortedBin h) whole is in
    let (nz, _, _) =
      Chain-neighbours (λ a. (h.chunks a).next) (λ a. (h.chunks a).prev) null t left right
        held.chain in
    let fits : n ≤ (h.chunks t).size = elim large [ inl e ↦ absurd (∷≢[] e) | inr le ↦ le ] in
    rw (ne→== t null nz) (
      found (erase_from_sortedbin h t) left t right whole nz under fits
        (Above-right (size_in h.chunks) t left right held.ascending)
        (erase-IsSortedBin h t left right held
          (subst (λ (l : List Ptr). length l < 2 ^ 32) whole small)))

-- The search of the sorted bin for a chunk of `n` bytes or more ends, and takes out the first that is large enough, which is the smallest such; it gives NULL where all chunks of the bin are smaller.
pub take_from_sortedbin-BestFit :
    (h : Heap) (n : ℕ) (xs : List Ptr)
    → IsSortedBin h xs
    → length xs < 2 ^ 32
    → Ends (BestFit h n xs) (take_from_sortedbin h n)
unfolding take_from_sortedbin
take_from_sortedbin-BestFit h n [] is small =
    rw (le→not_ltb 0 (h.bins sortedbin_idx).counter (omega (arith, is.count))) (nothing tt)
take_from_sortedbin-BestFit h n (x ∷ xs) is small =
    let r =
      find_large-Search (h.bins sortedbin_idx).counter h.chunks n (x ∷ xs) (λ a. (h.chunks a).prev)
        null is.chain (omega (arith, is.count)) in
    rw (lt→ltb 0 (h.bins sortedbin_idx).counter (omega (arith, is.count))) (
      rw is.first (rw r.found (taken h n (x ∷ xs) r.left r.right is small r.whole r.under r.large)))
