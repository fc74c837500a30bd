-- ===== src/Vmm/Area.antt =====
-- `_is_area_free`.
use polx.Base.{
  ℕ, zero, suc, ◌+◌, ◌^◌, ◌≤◌, ◌<◌, ◌≡◌, refl, sym, ap, ◌∙◌, ◌≢◌, Bool, true, false, List, [], ◌∷◌,
  ◌++◌, arith, leb, ◌==◌, leb→le, ne→==, le→leb, lt→not_leb, length, length-append, Ptr, null,
  add_word, done, Ends, head, last_or, NotIn, Chain, NotIn-append,
}
use mathlib.Core.List.{append_assoc, append-nil}
use mathlib.Core.Path.{subst}
use polx.Vmm.{
  Regions, Aspace, end_of, free_before, is_area_free, insert_region, create_region, vm_user_end,
}
use polx.Vmm.Regions.{
  lo, hi, From, Before, Ordered, IsSpace, hi-le-last, Ordered-last, Ordered-right, Before-last,
}
use polx.Vmm.Created.{created-From, created-Before, created-IsSpace, created_self}
use polx.Vmm.Insert.{insert_region-IsSpace, Holds}

-- The regions start below `n`.
abbrev pub StartBelow : Regions → ℕ → List Ptr → Type 0
StartBelow h n [] = Unit
StartBelow h n (x ∷ xs) = (lo h x < n) × StartBelow h n xs

-- No region is empty.
abbrev pub Filled : Regions → List Ptr → Type 0
Filled h [] = Unit
Filled h (x ∷ xs) = (lo h x < hi h x) × Filled h xs

free_before-next :
    (fuel : ℕ) (h : Regions) (addr size : ℕ) (xs : List Ptr) (y : Ptr) (ys : List Ptr)
    (prev : Ptr → Ptr) (p : Ptr)
    → Chain (λ a. (h a).next) prev p (xs ++ y ∷ ys)
    → StartBelow h addr xs
    → addr ≤ lo h y
    → length xs + 1 ≤ fuel
    → free_before fuel h addr size (head (xs ++ y ∷ ys)) ≡ done (leb (add_word addr size) (lo h y))
unfolding free_before
free_before-next zero h addr size xs y ys prev p chain b le enough = absurd (omega (arith, enough))
free_before-next (suc n) h addr size [] y ys prev p chain b le enough =
    rw (ne→== y null chain.0) (rw (le→leb _ _ le) refl)
free_before-next (suc n) h addr size (x ∷ xs) y ys prev p chain b le enough =
    rw (ne→== x null chain.0) (
      rw (lt→not_leb _ _ b.0) (
        rw chain.2 (
          ground (
            arith,
            free_before-next n h addr size xs y ys prev x chain.3 b.1 le (omega (arith, enough)),
          ))))

last_or-above :
    (h : Regions) (p : Ptr) (xs : List Ptr) (y : Ptr) (ys : List Ptr)
    → Ordered h (xs ++ y ∷ ys)
    → hi h y ≤ hi h (last_or p (xs ++ y ∷ ys))
last_or-above h p [] y ys o = hi-le-last h y ys o
last_or-above h p (x ∷ xs) y ys o = last_or-above h x xs y ys o.2

last-small :
    (h : Regions) (p : Ptr) (xs : List Ptr) (y : Ptr) (ys : List Ptr)
    → Ordered h (xs ++ y ∷ ys)
    → hi h (last_or p (xs ++ y ∷ ys)) < 2 ^ 32
last-small h p [] y ys o = Ordered-last h y ys o
last-small h p (x ∷ xs) y ys o = last-small h x xs y ys o.2

-- Below the end of the last region, `_is_area_free` only asks if the area ends before the next region that does not start below it.
pub is_area_free-next :
    (fuel : ℕ) (h : Regions) (sp : Aspace) (addr size : ℕ) (xs : List Ptr) (y : Ptr) (ys : List Ptr)
    → IsSpace h sp (xs ++ y ∷ ys)
    → StartBelow h addr xs
    → addr ≤ lo h y
    → lo h y < hi h y
    → length xs + 1 ≤ fuel
    → is_area_free fuel h sp addr size ≡ done (leb (add_word addr size) (lo h y))
unfolding is_area_free
is_area_free-next fuel h sp addr size xs y ys is b le pos enough =
    let l = last_or null (xs ++ y ∷ ys) in
    let inside : leb (end_of h l) addr ≡ false = lt→not_leb _ _ (
      omega
        (arith, last-small h null xs y ys is.ordered, last_or-above h null xs y ys is.ordered)) in
    let some_region : (head (xs ++ y ∷ ys) == null) ≡ false = ne→== _ _ (nonempty xs is.chain) in
    rw is.first (
      rw some_region (
        rw is.last (
          rw inside (
            free_before-next fuel h addr size xs y ys (λ a. (h a).prev) null is.chain b le
              enough))))
  where
    nonempty :
        (us : List Ptr)
        → Chain (λ a. (h a).next) (λ a. (h a).prev) null (us ++ y ∷ ys)
        → head (us ++ y ∷ ys) ≢ null
    nonempty [] c = c.0
    nonempty (u ∷ us) c = c.0

-- what starts no higher than the region `x` starts below `n`
StartBelow-Ordered :
    (h : Regions) (n : ℕ) (xs : List Ptr) (x : Ptr) (ys : List Ptr)
    → Ordered h (xs ++ x ∷ ys)
    → lo h x < n
    → StartBelow h n (xs ++ x ∷ [])
StartBelow-Ordered h n [] x ys o lt = (lt, tt)
StartBelow-Ordered h n (z ∷ xs) x ys o lt = (before xs o.1, StartBelow-Ordered h n xs x ys o.2 lt)
  where
    before : (us : List Ptr) → From h (hi h z) (us ++ x ∷ ys) → lo h z < n
    before [] f = omega (arith, f.0, lt)
    before (u ∷ us) f = before us f.1

-- An area that starts inside a region is said to be free where it ends before the next region.
pub is_area_free-overlap :
    (fuel : ℕ) (h : Regions) (sp : Aspace) (addr size : ℕ) (xs : List Ptr) (x y : Ptr)
    (ys : List Ptr)
    → IsSpace h sp (xs ++ x ∷ y ∷ ys)
    → lo h x < addr
    → addr < hi h x
    → addr + size ≤ lo h y
    → lo h y < hi h y
    → length xs + 2 ≤ fuel
    → is_area_free fuel h sp addr size ≡ done true
is_area_free-overlap fuel h sp addr size xs x y ys is after inside fits pos enough =
    let whole = append_assoc xs (x ∷ []) (y ∷ ys) in
    let high = Ordered-right h (xs ++ x ∷ []) (y ∷ ys) (subst (Ordered h) (sym whole) is.ordered) in
    let next =
      is_area_free-next fuel h sp addr size (xs ++ x ∷ []) y ys
        (subst (IsSpace h sp) (sym whole) is)
        (StartBelow-Ordered h addr xs x (y ∷ ys) is.ordered after) (omega (arith, fits)) pos
        (omega (arith, length-append xs (x ∷ []), enough)) in
    next ∙ ap done (le→leb _ _ (omega (arith, fits, high.0, pos)))

Before-StartBelow :
    (h : Regions) (n : ℕ) (xs : List Ptr) → Before h n xs → Filled h xs → StartBelow h n xs
Before-StartBelow h n [] b f = tt
Before-StartBelow h n (x ∷ xs) b f = (omega (arith, b.0, f.0), Before-StartBelow h n xs b.1 f.1)

From-Ordered :
    (h : Regions) (n y : ℕ) (ys : List Ptr) → n ≤ lo h y → Ordered h (y ∷ ys) → From h n (y ∷ ys)
From-Ordered h n y ys le o = (le, higher ys o.1)
  where
    higher : (us : List Ptr) → From h (hi h y) us → From h n us
    higher [] f = tt
    higher (u ∷ us) f = (omega (arith, f.0, le), higher us f.1)

-- Behind the last region, `_is_area_free` only asks if the area ends in the program's part of memory.
is_area_free-behind :
    (fuel : ℕ) (h : Regions) (sp : Aspace) (addr size : ℕ) (x : Ptr) (xs : List Ptr)
    → IsSpace h sp (x ∷ xs)
    → Before h addr (x ∷ xs)
    → is_area_free fuel h sp addr size ≡ done (leb (add_word addr size) vm_user_end)
unfolding is_area_free
is_area_free-behind fuel h sp addr size x xs is b =
    let behind : leb (end_of h (last_or x xs)) addr ≡ true =
      le→leb _ _ (omega (arith, Before-last h addr x xs b, Ordered-last h x xs is.ordered)) in
    rw is.first (rw (ne→== x null is.chain.0) (rw is.last (rw behind refl)))

-- An empty space is free as a whole.
is_area_free-empty :
    (fuel : ℕ) (h : Regions) (sp : Aspace) (addr size : ℕ)
    → IsSpace h sp []
    → is_area_free fuel h sp addr size ≡ done true
unfolding is_area_free
is_area_free-empty fuel h sp addr size is = rw is.first refl

-- The area ends before the regions that follow; behind the last of some, it ends in the program's part of
-- memory.
abbrev pub Fits : Regions → (end : ℕ) → (xs ys : List Ptr) → Type 0
Fits h n [] [] = Unit
Fits h n (x ∷ xs) [] = n ≤ vm_user_end
Fits h n xs (y ∷ ys) = n ≤ lo h y

done-inj : {p q : Bool} → done p ≡ done q → p ≡ q
done-inj e = cc

Filled-right : (h : Regions) (xs ys : List Ptr) → Filled h (xs ++ ys) → Filled h xs × Filled h ys
Filled-right h [] ys f = (tt, f)
Filled-right h (x ∷ xs) ys f = let r = Filled-right h xs ys f.1 in ((f.0, r.0), r.1)

free-Fits :
    (fuel : ℕ) (h : Regions) (sp : Aspace) (addr size : ℕ) (xs ys : List Ptr)
    → IsSpace h sp (xs ++ ys)
    → Before h addr xs
    → From h addr ys
    → Filled h (xs ++ ys)
    → addr + size < 2 ^ 32
    → length xs + 1 ≤ fuel
    → is_area_free fuel h sp addr size ≡ done true
    → Fits h (addr + size) xs ys
free-Fits fuel h sp addr size [] [] is b f full small enough free = tt
free-Fits fuel h sp addr size (x ∷ xs) [] is b f full small enough free =
    let whole = append-nil (x ∷ xs) in
    let told = is_area_free-behind fuel h sp addr size x xs (subst (IsSpace h sp) whole is) b in
    omega (arith, leb→le _ _ (done-inj (sym told ∙ free)), small)
free-Fits fuel h sp addr size [] (y ∷ ys) is b f full small enough free =
    let told = is_area_free-next fuel h sp addr size [] y ys is tt f.0 full.0 enough in
    omega (arith, leb→le _ _ (done-inj (sym told ∙ free)), small)
free-Fits fuel h sp addr size (x ∷ xs) (y ∷ ys) is b f full small enough free =
    let (fx, fy) = Filled-right h (x ∷ xs) (y ∷ ys) full in
    let told =
      is_area_free-next fuel h sp addr size (x ∷ xs) y ys is
        (Before-StartBelow h addr (x ∷ xs) b fx) f.0 fy.0 enough in
    omega (arith, leb→le _ _ (done-inj (sym told ∙ free)), small)

Fits-From :
    (h : Regions) (n : ℕ) (xs ys : List Ptr) → Ordered h (xs ++ ys) → Fits h n xs ys → From h n ys
Fits-From h n xs [] o fits = tt
Fits-From h n [] (y ∷ ys) o fits = From-Ordered h n y ys fits o
Fits-From h n (x ∷ xs) (y ∷ ys) o fits =
    From-Ordered h n y ys fits (Ordered-right h (x ∷ xs) (y ∷ ys) o)

-- An area that starts in no region, and that `_is_area_free` says is free, ends before the next region or,
-- behind the last region, in the program's part of memory; it becomes a region in its place in the list. It
-- may lie before, between or behind the regions, or be the first. Neither the area nor a region is empty, and
-- the area ends below 2^32.
pub is_area_free-insert_region :
    (fuel : ℕ) (h : Regions) (sp : Aspace) (c addr size flags : ℕ) (xs ys : List Ptr)
    → IsSpace h sp (xs ++ ys)
    → c ≢ null
    → NotIn c (xs ++ ys)
    → Before h addr xs
    → From h addr ys
    → Filled h (xs ++ ys)
    → 0 < size
    → addr + size < 2 ^ 32
    → length xs + 1 ≤ fuel
    → is_area_free fuel h sp addr size ≡ done true
    → Fits h (addr + size) xs ys
      × Ends (Holds (xs ++ c ∷ ys)) (insert_region fuel (create_region h c addr size flags) sp c)
is_area_free-insert_region fuel h sp c addr size flags xs ys is nz out b f full some_bytes small
      enough free =
    let g = create_region h c addr size flags in
    let (lo_c, hi_c) = created_self h c addr size flags in
    let (nx, ny) = NotIn-append c xs ys out in
    let fits = free-Fits fuel h sp addr size xs ys is b f full small enough free in
    (
      fits,
      insert_region-IsSpace fuel g sp c xs ys
          (created-IsSpace h c addr size flags sp (xs ++ ys) out is) nz out
          (subst (λ (n : ℕ). Before g n xs) (sym lo_c)
            (created-Before h c addr size flags addr xs nx b))
          (subst (λ (n : ℕ). From g n ys) (sym hi_c)
            (created-From h c addr size flags (addr + size) ys ny
              (Fits-From h (addr + size) xs ys is.ordered fits)))
          (omega (arith, lo_c, hi_c, some_bytes)) (omega (arith, hi_c, small))
          (omega (arith, enough)),
    )
