-- ===== src/Vmm/Insert.antt =====
-- `_insert_region`.
use polx.Base.{
  ℕ, zero, suc, ◌^◌, ◌≤◌, ◌<◌, ◌≡◌, refl, sym, ◌∙◌, ◌≢◌, Bool, true, false, ◌||◌, List, [], ◌∷◌,
  ◌++◌, arith, leb, ◌==◌, ne→==, le→leb, lt→not_leb, length, Ptr, null, done, Ends, last_or, NotIn,
  Chain, NotIn-null, NotIn-last_or, last_or-append,
}
use mathlib.Core.List.{append-nil}
use mathlib.Core.Path.{subst}
use polx.Vmm.{Regions, Aspace, end_of, link_between, insert_between, insert_region}
use polx.Vmm.Regions.{
  lo, hi, From, Before, Ordered, IsSpace, linked-IsSpace, lo-le-last, Ordered-right, Ordered-last,
  Before-last,
}

-- the loop finds the gap between the regions `t ∷ xs` and `y ∷ ys`
insert_between-gap :
    (fuel : ℕ) (h : Regions) (c t : Ptr) (xs : List Ptr) (y : Ptr) (ys : List Ptr) (p : Ptr)
    → Chain (λ a. (h a).next) (λ a. (h a).prev) p (t ∷ (xs ++ y ∷ ys))
    → Ordered h (t ∷ (xs ++ y ∷ ys))
    → Before h (lo h c) (t ∷ xs)
    → hi h c ≤ lo h y
    → lo h c < hi h c
    → hi h c < 2 ^ 32
    → length (t ∷ xs) ≤ fuel
    → insert_between fuel h c t ≡ done (link_between h c (last_or t xs) y)
unfolding insert_between
insert_between-gap zero h c t xs y ys p chain o b le pos small enough =
    absurd (omega (arith, enough))
insert_between-gap (suc fuel) h c t [] y ys p chain o b le pos small enough =
    let fits_lo : leb (end_of h t) (h c).addr ≡ true = le→leb _ _ (omega (arith, o.0, b.0)) in
    let fits_hi : leb (end_of h c) (h y).addr ≡ true = le→leb _ _ (omega (arith, small, le)) in
    rw chain.2 (rw (ne→== y null chain.3.0) (rw (fits_lo, fits_hi) refl))
insert_between-gap (suc fuel) h c t (x ∷ xs) y ys p chain o b le pos small enough =
    let short : leb (end_of h c) (h x).addr ≡ false =
      lt→not_leb _ _ (omega (arith, small, b.1.0, pos)) in
    rw chain.2 (
      rw (ne→== x null chain.3.0) (
        rw short (
          ground (
            arith,
            insert_between-gap fuel h c x xs y ys t chain.3 o.2 b.1 le pos small
                (omega (arith, enough)),
          ))))

not_null :
    (h : Regions) (sp : Aspace) (x : Ptr) (xs : List Ptr)
    → IsSpace h sp (x ∷ xs)
    → last_or x xs ≢ null
not_null h sp x xs is e =
    let out = NotIn-null (λ a. (h a).next) (λ a. (h a).prev) null (x ∷ xs) is.chain in
    NotIn-last_or null x xs out.0 out.1 (sym e)

-- A run of `_insert_region` leaves the regions `xs`.
abbrev pub Holds : List Ptr → Regions × Aspace → Type 0
Holds xs r = IsSpace r.0 r.1 xs

insert_first :
    (fuel : ℕ) (h : Regions) (sp : Aspace) (c y : Ptr) (ys : List Ptr)
    → IsSpace h sp (y ∷ ys)
    → c ≢ null
    → NotIn c (y ∷ ys)
    → From h (hi h c) (y ∷ ys)
    → hi h c < 2 ^ 32
    → Ends (Holds (c ∷ y ∷ ys)) (insert_region fuel h sp c)
unfolding insert_region
insert_first fuel h sp c y ys is nz out f small =
    let fits : leb (end_of h c) (h y).addr ≡ true = le→leb _ _ (omega (arith, small, f.0)) in
    let ended = ne→== (last_or y ys) null (not_null h sp y ys is) in
    rw is.first (
      rw fits (
        rw (or_true (y == null)) (
          rw is.last (
            rw ended (
              linked-IsSpace h sp _ c [] (y ∷ ys) null y is nz out tt f small refl refl refl
                refl)))))
  where
    or_true : (b : Bool) → (b || true) ≡ true
    or_true true = refl
    or_true false = refl

insert_last :
    (fuel : ℕ) (h : Regions) (sp : Aspace) (c x : Ptr) (xs : List Ptr)
    → IsSpace h sp (x ∷ xs)
    → c ≢ null
    → NotIn c (x ∷ xs)
    → Before h (lo h c) (x ∷ xs)
    → lo h c < hi h c
    → hi h c < 2 ^ 32
    → Ends (Holds (x ∷ (xs ++ c ∷ []))) (insert_region fuel h sp c)
unfolding insert_region
insert_last fuel h sp c x xs is nz out b pos small =
    let whole = append-nil (x ∷ xs) in
    let not_first : leb (end_of h c) (h x).addr ≡ false =
      lt→not_leb _ _ (omega (arith, small, b.0, pos)) in
    let behind : leb (end_of h (last_or x xs)) (h c).addr ≡ true =
      le→leb _ _ (omega (arith, Before-last h (lo h c) x xs b)) in
    rw is.first (
      rw (ne→== x null is.chain.0) (
        rw not_first (
          rw is.last (
            rw behind (
              linked-IsSpace h sp _ c (x ∷ xs) [] (last_or x xs) null
                (subst (IsSpace h sp) (sym whole) is) nz (subst (NotIn c) (sym whole) out) b tt
                small refl refl refl (sym (last_or-append x c xs [])))))))

insert_inside :
    (fuel : ℕ) (h : Regions) (sp : Aspace) (c x y : Ptr) (xs ys : List Ptr)
    → IsSpace h sp (x ∷ (xs ++ y ∷ ys))
    → c ≢ null
    → NotIn c (x ∷ (xs ++ y ∷ ys))
    → Before h (lo h c) (x ∷ xs)
    → From h (hi h c) (y ∷ ys)
    → lo h c < hi h c
    → hi h c < 2 ^ 32
    → length (x ∷ xs) ≤ fuel
    → Ends (Holds (x ∷ (xs ++ c ∷ y ∷ ys))) (insert_region fuel h sp c)
unfolding insert_region
insert_inside fuel h sp c x y xs ys is nz out b f pos small enough =
    let l = last_or x (xs ++ y ∷ ys) in
    let is_l : l ≡ last_or y ys = last_or-append x y xs ys in
    let not_first : leb (end_of h c) (h x).addr ≡ false =
      lt→not_leb _ _ (omega (arith, small, b.0, pos)) in
    let high : hi h l < 2 ^ 32 = Ordered-last h x (xs ++ y ∷ ys) is.ordered in
    let not_last : leb (end_of h l) (h c).addr ≡ false =
      lt→not_leb _ _ (omega (arith, high, pos, f.0, above is_l)) in
    let gap =
      insert_between-gap fuel h c x xs y ys null is.chain is.ordered b f.0 pos small enough in
    rw is.first (
      rw (ne→== x null is.chain.0) (
        rw not_first (
          rw is.last (
            rw not_last (
              rw gap (
                linked-IsSpace h sp _ c (x ∷ xs) (y ∷ ys) (last_or x xs) y is nz out b f small refl
                  refl refl (is_l ∙ sym (last_or-append x c xs (y ∷ ys)))))))))
  where
    above : last_or x (xs ++ y ∷ ys) ≡ last_or y ys → lo h y ≤ hi h (last_or x (xs ++ y ∷ ys))
    above e = rw e (lo-le-last h y ys (Ordered-right h (x ∷ xs) (y ∷ ys) is.ordered))

insert_only :
    (fuel : ℕ) (h : Regions) (sp : Aspace) (c : Ptr)
    → IsSpace h sp []
    → c ≢ null
    → hi h c < 2 ^ 32
    → Ends (Holds (c ∷ [])) (insert_region fuel h sp c)
unfolding insert_region
insert_only fuel h sp c is nz small =
    rw is.first (
      rw is.last (linked-IsSpace h sp _ c [] [] null null is nz tt tt tt small refl refl refl refl))

-- `_insert_region` ends, and puts a region that is not empty and lies in the gap between two parts of the list between these.
pub insert_region-IsSpace :
    (fuel : ℕ) (h : Regions) (sp : Aspace) (c : Ptr) (xs ys : List Ptr)
    → IsSpace h sp (xs ++ ys)
    → c ≢ null
    → NotIn c (xs ++ ys)
    → Before h (lo h c) xs
    → From h (hi h c) ys
    → lo h c < hi h c
    → hi h c < 2 ^ 32
    → length xs ≤ fuel
    → Ends (Holds (xs ++ c ∷ ys)) (insert_region fuel h sp c)
insert_region-IsSpace fuel h sp c [] [] is nz out b f pos small enough =
    insert_only fuel h sp c is nz small
insert_region-IsSpace fuel h sp c [] (y ∷ ys) is nz out b f pos small enough =
    insert_first fuel h sp c y ys is nz out f small
insert_region-IsSpace fuel h sp c (x ∷ xs) [] is nz out b f pos small enough =
    let whole = append-nil (x ∷ xs) in
    insert_last fuel h sp c x xs (subst (IsSpace h sp) whole is) nz (subst (NotIn c) whole out) b
      pos small
insert_region-IsSpace fuel h sp c (x ∷ xs) (y ∷ ys) is nz out b f pos small enough =
    insert_inside fuel h sp c x y xs ys is nz out b f pos small enough
