-- ===== src/Vmm/Created.antt =====
-- A region that `_create_region` makes, in no list yet.
use polx.Base.{
  ℕ, ◌+◌, ◌≤◌, ◌≡◌, sym, ap, ◌≢◌, List, [], ◌∷◌, arith, Ptr, null, update_ne, NotIn, Chain-kept,
}
use mathlib.Core.Path.{subst}
use polx.Vmm.{Region, Regions, Aspace, create_region}
use polx.Vmm.Regions.{lo, hi, From, Before, Ordered, IsSpace}

-- a new region that is in no list changes none
module _ (h : Regions) (c addr size flags : ℕ) where
  created-same : (a : Ptr) → a ≢ c → create_region h c addr size flags a ≡ h a
  unfolding create_region
  created-same a ne = update_ne h c a _ (λ e. ne (sym e))

  pub created-From :
      (n : ℕ) (xs : List Ptr)
      → NotIn c xs
      → From h n xs
      → From (create_region h c addr size flags) n xs
  created-From n [] out f = tt
  created-From n (x ∷ xs) out f = (
    subst (λ (r : Region). n ≤ r.addr) (sym (created-same x (λ e. out.0 (sym e)))) f.0,
    created-From n xs out.1 f.1,
  )

  pub created-Before :
      (n : ℕ) (xs : List Ptr)
      → NotIn c xs
      → Before h n xs
      → Before (create_region h c addr size flags) n xs
  created-Before n [] out b = tt
  created-Before n (x ∷ xs) out b =
      (rw (created-same x (λ e. out.0 (sym e))) b.0, created-Before n xs out.1 b.1)

  pub created-Ordered :
      (xs : List Ptr) → NotIn c xs → Ordered h xs → Ordered (create_region h c addr size flags) xs
  created-Ordered [] out o = tt
  created-Ordered (x ∷ xs) out o =
      let e = created-same x (λ e. out.0 (sym e)) in
      (rw e o.0, rw e (created-From (hi h x) xs out.1 o.1), created-Ordered xs out.1 o.2)

  pub created-IsSpace :
      (sp : Aspace) (xs : List Ptr)
      → NotIn c xs
      → IsSpace h sp xs
      → IsSpace (create_region h c addr size flags) sp xs
  created-IsSpace sp xs out is =
      let g = create_region h c addr size flags in
      record {
        chain =
            Chain-kept (λ a. (h a).next) (λ a. (h a).prev) (λ a. (g a).next) (λ a. (g a).prev) null
              xs (c ∷ [])
              (λ a ne. (
                ap (λ (r : Region). r.next) (created-same a ne.0),
                ap (λ (r : Region). r.prev) (created-same a ne.0),
              ))
              (out, tt) is.chain;
        distinct = is.distinct;
        first = is.first;
        last = is.last;
        ordered = created-Ordered xs out is.ordered;
      }

  pub created_self :
      (lo (create_region h c addr size flags) c ≡ addr)
      × (hi (create_region h c addr size flags) c ≡ addr + size)
  unfolding create_region
  created_self = (ground arith, ground arith)
