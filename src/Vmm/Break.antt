-- ===== src/Vmm/Break.antt =====
-- `vmm_set_brk`, the end of a program's data.
use polx.Base.{
  ℕ, zero, suc, ◌^◌, ◌≤◌, ◌<◌, ◌≡◌, refl, ap, ◌∙◌, ◌⊎◌, inl, inr, Bool, true, false, ◌&&◌, ◌||◌,
  none, some, List, [], ◌∷◌, arith, ltb, leb, ◌==◌, if◌then◌else◌, ne→==, Bool-cases, length, Ptr,
  null, add_word, sub_word, done, Ends, head, Chain,
}
use polx.Vmm.{
  Regions, Aspace, Brk, end_of, vm_user_end, free_before, is_area_free, insert_region,
  insert_between, link_between, shrink, move_brk, grown, round_up, page_size,
}
use polx.Vmm.Regions.{IsSpace}

-- Either the request is refused and nothing changes, or the data ends at `vaddr`, and the result is where it ended.
abbrev pub Moved : Regions → Aspace → (vaddr : ℕ) → Brk → Type 0
Moved h sp vaddr b =
    ((b.result ≡ none) × (b.space ≡ sp) × (b.regions ≡ h))
    ⊎ ((b.result ≡ some sp.data_end) × (b.space.data_end ≡ vaddr))

Moved-if :
    (h : Regions) (sp : Aspace) (vaddr : ℕ) (t : Bool) (b c : Brk)
    → Moved h sp vaddr b
    → Moved h sp vaddr c
    → Moved h sp vaddr (if t then b else c)
Moved-if h sp vaddr true b c x y = x
Moved-if h sp vaddr false b c x y = y

module _ (h : Regions) (sp : Aspace) (vaddr : ℕ) (small : vaddr < 2 ^ 32)
    (low : sp.data_end < 2 ^ 32) where
  pub grown-Moved :
      (g : Regions) (t : Aspace)
      → t.data_end ≡ sp.data_end
      → Moved h sp vaddr (grown g t (sub_word vaddr sp.data_end))
  grown-Moved g t e = inr (ap some e, omega (arith, e, small, low))

  shrink-Moved : (reg : Ptr) → Moved h sp vaddr (shrink h sp reg vaddr)
  unfolding shrink
  shrink-Moved reg =
      let down : sub_word sp.data_end (sub_word sp.data_end vaddr) ≡ vaddr =
        omega (arith, small, low) in
      Moved-if h sp vaddr (ltb sp.elf_end (sub_word sp.data_end (sub_word sp.data_end vaddr))) _ _
        (Moved-if h sp vaddr (ltb (sub_word sp.data_end vaddr) page_size) _ _ (inr (refl, down))
          (inr (refl, down)))
        (inl (refl, refl, refl))

  pub move_brk-Moved : (reg : Ptr) → Moved h sp vaddr (move_brk h sp reg vaddr)
  unfolding move_brk
  move_brk-Moved reg =
      Moved-if h sp vaddr (ltb sp.data_end vaddr) _ _
        (Moved-if h sp vaddr (leb vaddr (end_of h reg)) _ _ (grown-Moved h sp refl) (
          Moved-if h sp vaddr ((h reg).next == null) _ _ (shrink-Moved reg) (
            Moved-if h sp vaddr
              (leb (add_word (end_of h reg) (round_up (sub_word vaddr sp.data_end)))
                (h (h reg).next).addr)
              _ _ (grown-Moved _ sp refl) (inl (refl, refl, refl)))))
        (shrink-Moved reg)

free_before-ends :
    (fuel : ℕ) (h : Regions) (addr size : ℕ) (xs : List Ptr) (p : Ptr)
    → Chain (λ a. (h a).next) (λ a. (h a).prev) p xs
    → length xs ≤ fuel
    → (b : Bool) × (free_before fuel h addr size (head xs) ≡ done b)
unfolding free_before
free_before-ends zero h addr size [] p chain enough = (false, refl)
free_before-ends (suc n) h addr size [] p chain enough = (false, refl)
free_before-ends zero h addr size (x ∷ xs) p chain enough = absurd (omega (arith, enough))
free_before-ends (suc n) h addr size (x ∷ xs) p chain enough =
    let (b, e) = free_before-ends n h addr size xs x chain.3 (omega (arith, enough)) in
    elim (Bool-cases (leb addr (h x).addr)) [
      | inl below ↦ (leb (add_word addr size) (h x).addr, rw (ne→== x null chain.0) (rw below refl))
      | inr above ↦ (b, rw (ne→== x null chain.0) (rw above (rw chain.2 e)))
    ]

pub is_area_free-ends :
    (fuel : ℕ) (h : Regions) (sp : Aspace) (addr size : ℕ) (xs : List Ptr)
    → IsSpace h sp xs
    → length xs ≤ fuel
    → (b : Bool) × (is_area_free fuel h sp addr size ≡ done b)
unfolding is_area_free
is_area_free-ends fuel h sp addr size xs is enough =
    let (b, e) = free_before-ends fuel h addr size xs null is.chain enough in
    elim (Bool-cases (sp.first == null)) [
      | inl empty ↦ (true, rw empty refl)
      | inr busy ↦ elim (Bool-cases (leb (end_of h sp.last) addr)) [
        | inl behind ↦ (leb (add_word addr size) vm_user_end, rw busy (rw behind refl))
        | inr inside ↦ (b, rw busy (rw inside (ap (free_before fuel h addr size) is.first ∙ e)))
      ]
    ]

insert_between-ends :
    (fuel : ℕ) (h : Regions) (c x : Ptr) (xs : List Ptr) (p : Ptr)
    → Chain (λ a. (h a).next) (λ a. (h a).prev) p (x ∷ xs)
    → length xs ≤ fuel
    → (g : Regions) × (insert_between fuel h c x ≡ done g)
unfolding insert_between
insert_between-ends zero h c x [] p chain enough = (h, rw chain.2 refl)
insert_between-ends (suc n) h c x [] p chain enough = (h, rw chain.2 refl)
insert_between-ends zero h c x (y ∷ xs) p chain enough = absurd (omega (arith, enough))
insert_between-ends (suc n) h c x (y ∷ xs) p chain enough =
    let (g, e) = insert_between-ends n h c y xs x chain.3 (omega (arith, enough)) in
    elim (Bool-cases (leb (end_of h x) (h c).addr && leb (end_of h c) (h y).addr)) [
      | inl fits ↦ (link_between h c x y, rw chain.2 (rw (ne→== y null chain.3.0) (rw fits refl)))
      | inr full ↦ (g, rw chain.2 (rw (ne→== y null chain.3.0) (rw full e)))
    ]

-- a run of `_insert_region` ends, and moves no break
pub insert_region_last :
    (fuel : ℕ) (h : Regions) (sp : Aspace) (c : Ptr) (xs : List Ptr)
    → IsSpace h sp xs
    → length xs ≤ fuel
    → Ends (λ r. r.1.data_end ≡ sp.data_end) (insert_region fuel h sp c)
unfolding insert_region
insert_region_last fuel h sp c [] is enough = rw is.first refl
insert_region_last fuel h sp c (x ∷ xs) is enough =
    let (g, e) = insert_between-ends fuel h c x xs null is.chain (omega (arith, enough)) in
    let e' : insert_between fuel h c sp.first ≡ done g =
      ap (insert_between fuel h c) is.first ∙ e in
    elim (Bool-cases ((sp.first == null) || leb (end_of h c) (h sp.first).addr)) [
      | inl first ↦ rw first refl
      | inr later ↦ elim (Bool-cases (leb (end_of h sp.last) (h c).addr)) [
        | inl last ↦ rw later (rw last refl)
        | inr inside ↦ rw later (rw inside (rw e' refl))
      ]
    ]
