-- ===== src/Vmm/Regions.antt =====
-- The list of an address space's regions, and `_insert_region`.
use polx.Base.{
  ℕ, ◌+◌, ◌^◌, ◌≤◌, ◌<◌, ◌≡◌, ◌∙◌, ◌≢◌, List, [], ◌∷◌, ◌++◌, arith, ◌==◌, if◌then◌else◌, Ptr, null,
  head, last_or, NotIn, Distinct, Chain, NotIn-null, NotIn-append, NotIn-last_or, Chain-insert,
  Distinct-insert, NotIn-head,
}
use polx.Vmm.{Regions, Aspace, end_of, link_between}

abbrev pub lo : Regions → Ptr → ℕ
lo h r = (h r).addr

abbrev pub hi : Regions → Ptr → ℕ
hi h r = (h r).addr + (h r).size

-- The regions start at `n` or higher.
abbrev pub From : Regions → ℕ → List Ptr → Type 0
From h n [] = Unit
From h n (x ∷ xs) = (n ≤ lo h x) × From h n xs

-- The regions end at `n` or lower.
abbrev pub Before : Regions → ℕ → List Ptr → Type 0
Before h n [] = Unit
Before h n (x ∷ xs) = (hi h x ≤ n) × Before h n xs

-- Each region ends below 2^32 and before the next ones start.
abbrev pub Ordered : Regions → List Ptr → Type 0
Ordered h [] = Unit
Ordered h (x ∷ xs) = (hi h x < 2 ^ 32) × From h (hi h x) xs × Ordered h xs

-- The address space has the regions `xs`.
pub record IsSpace (h : Regions) (sp : Aspace) (xs : List Ptr) : Type 0 where
  pub chain : Chain (λ a. (h a).next) (λ a. (h a).prev) null xs
  pub distinct : Distinct xs
  pub first : sp.first ≡ head xs
  pub last : sp.last ≡ last_or null xs
  pub ordered : Ordered h xs

From-insert :
    (h : Regions) (n : ℕ) (t : Ptr) (xs ys : List Ptr)
    → n ≤ lo h t
    → From h n (xs ++ ys)
    → From h n (xs ++ t ∷ ys)
From-insert h n t [] ys le f = (le, f)
From-insert h n t (x ∷ xs) ys le f = (f.0, From-insert h n t xs ys le f.1)

Ordered-insert :
    (h : Regions) (t : Ptr) (xs ys : List Ptr)
    → Before h (lo h t) xs
    → From h (hi h t) ys
    → hi h t < 2 ^ 32
    → Ordered h (xs ++ ys)
    → Ordered h (xs ++ t ∷ ys)
Ordered-insert h t [] ys b f small o = (small, f, o)
Ordered-insert h t (x ∷ xs) ys b f small o =
    (o.0, From-insert h (hi h x) t xs ys b.0 o.1, Ordered-insert h t xs ys b.1 f small o.2)

-- What a region's memory is, not its links, decides the order.
abbrev span : Regions → Ptr → ℕ × ℕ
span h r = ((h r).addr, (h r).size)

From-kept :
    (h g : Regions) (n : ℕ) (xs : List Ptr)
    → ((a : Ptr) → lo g a ≡ lo h a)
    → From h n xs
    → From g n xs
From-kept h g n [] same f = tt
From-kept h g n (x ∷ xs) same f = (omega (arith, same x, f.0), From-kept h g n xs same f.1)

pub Ordered-kept :
    (h g : Regions) (xs : List Ptr)
    → ((a : Ptr) → lo g a ≡ lo h a)
    → ((a : Ptr) → hi g a ≡ hi h a)
    → Ordered h xs
    → Ordered g xs
Ordered-kept h g [] l e o = tt
Ordered-kept h g (x ∷ xs) l e o =
    (rw (e x) o.0, From-kept h g (hi g x) xs l (rw (e x) o.1), Ordered-kept h g xs l e o.2)

module _ (h : Regions) (c before after : Ptr) where
  link_between-other :
      (a : Ptr)
      → a ≢ c
      → a ≢ null
      → ((link_between h c before after a).next ≡ (if a == before then c else (h a).next))
        × ((link_between h c before after a).prev ≡ (if a == after then c else (h a).prev))
  unfolding link_between
  link_between-other a ne nz = (ground (arith, ne, nz), ground (arith, ne, nz))

  link_between_self :
      c ≢ before
      → c ≢ after
      → ((link_between h c before after c).prev ≡ before)
        × ((link_between h c before after c).next ≡ after)
  unfolding link_between
  link_between_self nb na = (ground (arith, nb, na), ground (arith, nb, na))

  link_between-addr : (a : Ptr) → (link_between h c before after a).addr ≡ (h a).addr
  unfolding link_between
  link_between-addr a = ground arith

  link_between-size : (a : Ptr) → (link_between h c before after a).size ≡ (h a).size
  unfolding link_between
  link_between-size a = ground arith

pub linked-IsSpace :
    (h : Regions) (sp sp' : Aspace) (c : Ptr) (xs ys : List Ptr) (before after : Ptr)
    → IsSpace h sp (xs ++ ys)
    → c ≢ null
    → NotIn c (xs ++ ys)
    → Before h (lo h c) xs
    → From h (hi h c) ys
    → hi h c < 2 ^ 32
    → before ≡ last_or null xs
    → after ≡ head ys
    → sp'.first ≡ head (xs ++ c ∷ ys)
    → sp'.last ≡ last_or null (xs ++ c ∷ ys)
    → IsSpace (link_between h c before after) sp' (xs ++ c ∷ ys)
linked-IsSpace h sp sp' c xs ys before after is nz out b f small is_b is_a is_f is_l =
    let (nx, ny) = NotIn-append c xs ys out in
    let not_before : c ≢ before = λ e. NotIn-last_or c null xs nz nx (e ∙ is_b) in
    let not_after : c ≢ after = λ e. NotIn-head c ys nz ny (e ∙ is_a) in
    let g = link_between h c before after in
    let (back, on) = link_between_self h c before after not_before not_after in
    record {
      chain =
          Chain-insert (λ a. (h a).next) (λ a. (h a).prev) (λ a. (g a).next) (λ a. (g a).prev) null
            c xs ys
            (rw (← is_b) (rw (← is_a) (λ a ne n. link_between-other h c before after a ne n))) nz
            (back ∙ is_b) (on ∙ is_a) out
            (NotIn-null (λ a. (h a).next) (λ a. (h a).prev) null (xs ++ ys) is.chain) is.distinct
            is.chain;
      distinct = Distinct-insert c xs ys out is.distinct;
      first = is_f;
      last = is_l;
      ordered =
          Ordered-kept h g (xs ++ c ∷ ys) (λ a. link_between-addr h c before after a)
            (λ a.
              omega
                (arith, link_between-addr h c before after a, link_between-size h c before after a))
            (Ordered-insert h c xs ys b f small is.ordered);
    }

pub end_of-hi : (h : Regions) (r : Ptr) → hi h r < 2 ^ 32 → end_of h r ≡ hi h r
end_of-hi h r small = omega (arith, small)

-- the last region ends no lower than one before it starts
pub lo-le-last :
    (h : Regions) (x : Ptr) (xs : List Ptr) → Ordered h (x ∷ xs) → lo h x ≤ hi h (last_or x xs)
lo-le-last h x [] o = omega arith
lo-le-last h x (y ∷ xs) o = omega (arith, lo-le-last h y xs o.2, o.1.0)

pub hi-le-last :
    (h : Regions) (x : Ptr) (xs : List Ptr) → Ordered h (x ∷ xs) → hi h x ≤ hi h (last_or x xs)
hi-le-last h x [] o = omega arith
hi-le-last h x (y ∷ xs) o = omega (arith, hi-le-last h y xs o.2, o.1.0)

pub Ordered-right : (h : Regions) (xs ys : List Ptr) → Ordered h (xs ++ ys) → Ordered h ys
Ordered-right h [] ys o = o
Ordered-right h (x ∷ xs) ys o = Ordered-right h xs ys o.2

pub Ordered-last :
    (h : Regions) (x : Ptr) (xs : List Ptr) → Ordered h (x ∷ xs) → hi h (last_or x xs) < 2 ^ 32
Ordered-last h x [] o = o.0
Ordered-last h x (y ∷ xs) o = Ordered-last h y xs o.2

pub Before-last :
    (h : Regions) (n : ℕ) (x : Ptr) (xs : List Ptr) → Before h n (x ∷ xs) → hi h (last_or x xs) ≤ n
Before-last h n x [] b = b.0
Before-last h n x (y ∷ xs) b = Before-last h n y xs b.1
