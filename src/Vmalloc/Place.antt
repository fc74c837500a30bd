-- ===== src/Vmalloc/Place.antt =====
-- `vmalloc` as a whole.
use polx.Base.{
  ℕ, ◌+◌, ◌≤◌, ◌≡◌, refl, sym, ap, ◌∙◌, ◌≢◌, inl, inr, Bool, false, List, [], ◌∷◌, ◌++◌, arith,
  ◌==◌, if◌then◌else◌, ne→==, Bool-cases, length, Ptr, null, update, update_ne, Outcome, done,
  panic, fault, out_of_fuel, ◌>>=◌, Ends, NotIn, NotIn-append, Chain-kept,
}
use mathlib.Core.Path.{subst}
use polx.Vmalloc.{
  Header, Used, vm_vmalloc_start, vm_vmalloc_end, find_hole_in_as, insert_region, whole_pages,
  PhyType, Request, vmalloc, requested,
}
use polx.Vmalloc.Holes.{lo, hi, Placed, hi_or, EndsBefore, IsUsed, Hole, Sought}
use polx.Vmalloc.Search.{find_hole_in_as-Sought}
use polx.Vmalloc.Insert.{insert_region-same, insert_region-IsUsed}

-- the header that `vmalloc` fills in
abbrev made : Used → (c vaddr size : ℕ) → PhyType → Used
made u c vaddr size kind = record u {
  headers =
      update u.headers c (record (u.headers c) { vaddr = vaddr; size = size; phy_type = kind });
}

module _ (u : Used) (c vaddr size : ℕ) (kind : PhyType) where
  made-same : (a : Ptr) → a ≢ c → (made u c vaddr size kind).headers a ≡ u.headers a
  made-same a ne = update_ne u.headers c a _ (λ e. ne (sym e))

  made_self :
      (lo (made u c vaddr size kind).headers c ≡ vaddr)
      × (((made u c vaddr size kind).headers c).size ≡ size)
  made_self = (ground arith, ground arith)

  made-Placed :
      (n : ℕ) (xs : List Ptr)
      → NotIn c xs
      → Placed u.headers n xs
      → Placed (made u c vaddr size kind).headers n xs
  made-Placed n [] out p = tt
  made-Placed n (x ∷ xs) out p =
      let e = made-same x (λ e. out.0 (sym e)) in
      (
        subst (λ (r : Header). n ≤ r.vaddr) (sym e) p.0,
        subst (λ (r : Header). r.vaddr + r.size ≤ vm_vmalloc_end) (sym e) p.1,
        subst (λ (r : Header). Placed (made u c vaddr size kind).headers (r.vaddr + r.size) xs)
            (sym e) (made-Placed (hi u.headers x) xs out.1 p.2),
      )

  made-hi_or :
      (n : ℕ) (xs : List Ptr)
      → NotIn c xs
      → hi_or (made u c vaddr size kind).headers n xs ≡ hi_or u.headers n xs
  made-hi_or n [] out = refl
  made-hi_or n (x ∷ xs) out =
      made-hi_or (hi (made u c vaddr size kind).headers x) xs out.1
      ∙ ap (λ (r : Header). hi_or u.headers (r.vaddr + r.size) xs)
          (made-same x (λ e. out.0 (sym e)))

  made-EndsBefore :
      (m : ℕ) (ys : List Ptr)
      → NotIn c ys
      → EndsBefore u.headers m ys
      → EndsBefore (made u c vaddr size kind).headers m ys
  made-EndsBefore m [] out b = b
  made-EndsBefore m (y ∷ ys) out b =
      subst (λ (r : Header). m ≤ r.vaddr) (sym (made-same y (λ e. out.0 (sym e)))) b

  made-IsUsed : (xs : List Ptr) → NotIn c xs → IsUsed u xs → IsUsed (made u c vaddr size kind) xs
  made-IsUsed xs out is =
      let g = (made u c vaddr size kind).headers in
      record {
        chain =
            Chain-kept (λ a. (u.headers a).next) (λ a. (u.headers a).prev) (λ a. (g a).next)
              (λ a. (g a).prev) null xs (c ∷ [])
              (λ a ne. (
                ap (λ (r : Header). r.next) (made-same a ne.0),
                ap (λ (r : Header). r.prev) (made-same a ne.0),
              ))
              (out, tt) is.chain;
        distinct = is.distinct;
        first = is.first;
        last = is.last;
        placed = made-Placed vm_vmalloc_start xs out is.placed;
      }

-- `c` is a new range of `size` bytes among the ranges `xs`, at the address that is returned.
pub record Allocated (c size : ℕ) (xs : List Ptr) (out : Used × List Request × ℕ) : Type 0 where
  pub left : List Ptr
  pub right : List Ptr
  pub whole : xs ≡ left ++ right
  pub held : IsUsed out.0 (left ++ c ∷ right)
  pub vaddr : lo out.0.headers c ≡ out.2
  pub size_is : (out.0.headers c).size ≡ size

-- a range that is put into a hole
allocated :
    (u : Used) (c size vaddr prev : ℕ) (kind : PhyType) (requests : List Request) (xs : List Ptr)
    → IsUsed u xs
    → c ≢ null
    → NotIn c xs
    → Hole u size vm_vmalloc_start null xs (vaddr, prev)
    → Allocated c size xs (insert_region (made u c vaddr size kind) prev c, requests, vaddr)
allocated u c size vaddr prev kind requests xs is nz out hole =
    let m = made u c vaddr size kind in
    let is' = subst (IsUsed u) hole.whole is in
    let out' = subst (NotIn c) hole.whole out in
    let (ol, or) = NotIn-append c hole.left hole.right out' in
    let (lo_c, size_c) = made_self u c vaddr size kind in
    let ends : hi m.headers c ≡ vaddr + size = omega (arith, lo_c, size_c) in
    let held =
      insert_region-IsUsed m c hole.left hole.right
        (made-IsUsed u c vaddr size kind (hole.left ++ hole.right) out' is') nz out'
        (omega
          (arith, made-hi_or u c vaddr size kind vm_vmalloc_start hole.left ol, hole.above, lo_c))
        (subst (λ (n : ℕ). EndsBefore m.headers n hole.right) (sym ends)
          (made-EndsBefore u c vaddr size kind (vaddr + size) hole.right or hole.below)) in
    let (v, s) = insert_region-same m prev c c in
    record {
      left = hole.left;
      right = hole.right;
      whole = hole.whole;
      held =
          subst (λ (p : Ptr). IsUsed (insert_region m p c) (hole.left ++ c ∷ hole.right))
            (sym hole.prev) held;
      vaddr = v ∙ lo_c;
      size_is = s ∙ size_c;
    }

-- The run ends with a value of which `P` holds, or in the kernel's panic.
abbrev pub OrPanics {ℓ} : {A : Type ℓ} → (A → Type 0) → Outcome A → Type 0
OrPanics P (done a) = P a
OrPanics P panic = Unit
OrPanics P fault = ⊥
OrPanics P out_of_fuel = ⊥

OrPanics-bind {ℓ κ} :
    {A : Type ℓ} {B : Type κ} (Mid : A → Type 0) (End : B → Type 0) (first : Outcome A)
    (next : A → Outcome B)
    → Ends Mid first
    → ((a : A) → Mid a → OrPanics End (next a))
    → OrPanics End (first >>= next)
OrPanics-bind Mid End (done a) next h k = k a h
OrPanics-bind Mid End panic next h k = absurd h
OrPanics-bind Mid End fault next h k = absurd h
OrPanics-bind Mid End out_of_fuel next h k = absurd h

-- the hole that `vmalloc` uses
abbrev hole_for : (fuel : ℕ) → Used → (size : ℕ) → Outcome (ℕ × Ptr)
hole_for fuel u size =
    if u.first == null then done (vm_vmalloc_start, null) else find_hole_in_as fuel u size

hole_for-Sought :
    (fuel : ℕ) (u : Used) (size : ℕ) (xs : List Ptr)
    → IsUsed u xs
    → length xs ≤ fuel
    → vm_vmalloc_start + size ≤ vm_vmalloc_end
    → Ends (Sought u size vm_vmalloc_start null xs) (hole_for fuel u size)
hole_for-Sought fuel u size [] is enough room =
    subst
      (λ (f : Ptr).
        Ends (Sought u size vm_vmalloc_start null [])
          (if f == null then done (vm_vmalloc_start, null) else find_hole_in_as fuel u size))
      (sym is.first)
      (inr (record {
        left = [];
        right = [];
        whole = refl;
        prev = refl;
        above = omega arith;
        below = room;
      }))
hole_for-Sought fuel u size (x ∷ xs) is enough room =
    let busy : (u.first == null) ≡ false =
      ne→== u.first null (λ e. is.chain.0 (sym is.first ∙ e)) in
    subst
      (λ (b : Bool).
        Ends (Sought u size vm_vmalloc_start null (x ∷ xs))
          (if b then done (vm_vmalloc_start, null) else find_hole_in_as fuel u size))
      (sym busy) (find_hole_in_as-Sought fuel u size x xs is (omega (arith, enough)))

-- `vmalloc` ends, and panics or gives a range of whole pages that overlaps no other and lies in its area, for a request that the area could hold.
pub vmalloc-Allocated :
    (fuel : ℕ) (u : Used) (bytes : ℕ) (kind : PhyType) (c pool : Ptr) (got : ℕ → ℕ) (xs : List Ptr)
    → IsUsed u xs
    → c ≢ null
    → NotIn c xs
    → length xs ≤ fuel
    → vm_vmalloc_start + whole_pages bytes ≤ vm_vmalloc_end
    → OrPanics (Allocated c (whole_pages bytes) xs) (vmalloc fuel u bytes kind c pool got)
unfolding vmalloc
vmalloc-Allocated fuel u bytes kind c pool got xs is nz out enough room =
    let size = whole_pages bytes in
    OrPanics-bind (Sought u size vm_vmalloc_start null xs) (Allocated c size xs)
      (hole_for fuel u size) _ (hole_for-Sought fuel u size xs is enough room)
      (λ r sought. placed r sought)
  where
    placed :
        (r : ℕ × Ptr)
        → Sought u (whole_pages bytes) vm_vmalloc_start null xs r
        → OrPanics (Allocated c (whole_pages bytes) xs) (
            if r.0 == 0
            then panic
            else done (
              insert_region (made u c r.0 (whole_pages bytes) kind) r.1 c,
              requested kind r.0 (whole_pages bytes) pool got,
              r.0,
            ))
    placed (v, p) (inl none_found) = rw none_found tt
    placed (v, p) (inr hole) = elim (Bool-cases (v == 0)) [
      | inl zero_v ↦ rw zero_v tt
      | inr some_v ↦ rw some_v (
          allocated u c (whole_pages bytes) v p kind (requested kind v (whole_pages bytes) pool got)
            xs is nz out hole)
    ]
