-- ===== src/Heap/Sorted/List.antt =====
-- What the sorted bin holds.
use polx.Base.{
  ℕ, ◌≤◌, ◌≡◌, List, [], ◌∷◌, ◌++◌, arith, length, Ptr, null, head, last_or, Distinct, Chain,
}
use mathlib.Core.Path.{fun_ext}
use polx.Heap.{Chunks, Heap, sortedbin_idx}

abbrev pub size_in : Chunks → Ptr → ℕ
size_in h a = (h a).size

-- every size is `n` or more
abbrev pub Above : (Ptr → ℕ) → ℕ → List Ptr → Type 0
Above size n [] = Unit
Above size n (x ∷ xs) = (n ≤ size x) × Above size n xs

-- every size is `n` or less
abbrev pub Below : (Ptr → ℕ) → ℕ → List Ptr → Type 0
Below size n [] = Unit
Below size n (x ∷ xs) = (size x ≤ n) × Below size n xs

abbrev pub Ascending : (Ptr → ℕ) → List Ptr → Type 0
Ascending size [] = Unit
Ascending size (x ∷ xs) = Above size (size x) xs × Ascending size xs

-- The sorted bin holds the chunks `xs`.
pub record IsSortedBin (h : Heap) (xs : List Ptr) : Type 0 where
  pub chain : Chain (λ a. (h.chunks a).next) (λ a. (h.chunks a).prev) null xs
  pub distinct : Distinct xs
  pub first : (h.bins sortedbin_idx).first ≡ head xs
  pub last : (h.bins sortedbin_idx).last ≡ last_or null xs
  pub count : (h.bins sortedbin_idx).counter ≡ length xs
  pub ascending : Ascending (size_in h.chunks) xs

pub Above-le :
    (size : Ptr → ℕ) (n m : ℕ) (xs : List Ptr) → n ≤ m → Above size m xs → Above size n xs
Above-le size n m [] le h = tt
Above-le size n m (x ∷ xs) le h = (omega (arith, h.0), Above-le size n m xs le h.1)

Above-cut :
    (size : Ptr → ℕ) (n : ℕ) (t : Ptr) (xs ys : List Ptr)
    → Above size n (xs ++ t ∷ ys)
    → Above size n (xs ++ ys)
Above-cut size n t [] ys h = h.1
Above-cut size n t (x ∷ xs) ys h = (h.0, Above-cut size n t xs ys h.1)

pub Ascending-cut :
    (size : Ptr → ℕ) (t : Ptr) (xs ys : List Ptr)
    → Ascending size (xs ++ t ∷ ys)
    → Ascending size (xs ++ ys)
Ascending-cut size t [] ys h = h.1
Ascending-cut size t (x ∷ xs) ys h =
    (Above-cut size (size x) t xs ys h.0, Ascending-cut size t xs ys h.1)

Above-insert :
    (size : Ptr → ℕ) (n : ℕ) (t : Ptr) (xs ys : List Ptr)
    → n ≤ size t
    → Above size n (xs ++ ys)
    → Above size n (xs ++ t ∷ ys)
Above-insert size n t [] ys le h = (le, h)
Above-insert size n t (x ∷ xs) ys le h = (h.0, Above-insert size n t xs ys le h.1)

pub Ascending-insert :
    (size : Ptr → ℕ) (t : Ptr) (xs ys : List Ptr)
    → Below size (size t) xs
    → Above size (size t) ys
    → Ascending size (xs ++ ys)
    → Ascending size (xs ++ t ∷ ys)
Ascending-insert size t [] ys lo hi h = (hi, h)
Ascending-insert size t (x ∷ xs) ys lo hi h =
    (Above-insert size (size x) t xs ys lo.0 h.0, Ascending-insert size t xs ys lo.1 hi h.1)

-- the sizes matter, not how they are kept
pub Ascending-kept :
    (size size' : Ptr → ℕ) (xs : List Ptr)
    → ((a : Ptr) → size' a ≡ size a)
    → Ascending size xs
    → Ascending size' xs
Ascending-kept size size' xs same h = rw (fun_ext same) h
