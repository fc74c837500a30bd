-- ===== src/Vmalloc/Insert.antt =====
-- A range put into the list, `_insert_region`.
use polx.Base.{
  ℕ, ◌≤◌, ◌≡◌, refl, sym, ◌∙◌, ◌≢◌, inl, inr, List, [], ◌∷◌, ◌++◌, arith, ◌==◌, if◌then◌else◌,
  ne→==, ==_self, Bool-cases, Ptr, null, head, last_or, NotIn, Distinct, Chain, NotIn-null,
  NotIn-append, NotIn-last_or, Chain-insert, Distinct-insert, last_or-append,
}
use mathlib.Core.Path.{subst}
use mathlib.Core.List.{append-nil}
use polx.Vmalloc.{Headers, Used, vm_vmalloc_start, insert_region}
use polx.Vmalloc.Holes.{lo, hi, Placed, hi_or, EndsBefore, IsUsed, Placed-insert}

-- `c` is put between `before` and `after`; the ends of the list are then `f` and `l`
record Linked (h : Headers) (v : Used) (c before after f l : Ptr) : Type 0 where
  pub first : v.first ≡ f
  pub last : v.last ≡ l
  pub other :
      (a : Ptr)
      → a ≢ c
      → a ≢ null
      → ((v.headers a).next ≡ (if a == before then c else (h a).next))
        × ((v.headers a).prev ≡ (if a == after then c else (h a).prev))
  back : (v.headers c).prev ≡ before
  on : (v.headers c).next ≡ after
  pub vaddr : (a : Ptr) → (v.headers a).vaddr ≡ (h a).vaddr
  pub size : (a : Ptr) → (v.headers a).size ≡ (h a).size

Linked-IsUsed :
    (u v : Used) (c : Ptr) (xs ys : List Ptr)
    → Linked u.headers v c
        (last_or null xs)
        (head ys)
        (head (xs ++ c ∷ ys))
        (last_or null (xs ++ c ∷ ys))
    → IsUsed u (xs ++ ys)
    → c ≢ null
    → NotIn c (xs ++ ys)
    → hi_or u.headers vm_vmalloc_start xs ≤ lo u.headers c
    → EndsBefore u.headers (hi u.headers c) ys
    → IsUsed v (xs ++ c ∷ ys)
Linked-IsUsed u v c xs ys l is nz out above below = record {
  chain =
      Chain-insert (λ a. (u.headers a).next) (λ a. (u.headers a).prev) (λ a. (v.headers a).next)
        (λ a. (v.headers a).prev) null c xs ys l.other nz l.back l.on out
        (NotIn-null (λ a. (u.headers a).next) (λ a. (u.headers a).prev) null (xs ++ ys) is.chain)
        is.distinct is.chain;
  distinct = Distinct-insert c xs ys out is.distinct;
  first = l.first;
  last = l.last;
  placed =
      Placed-kept u.headers v.headers vm_vmalloc_start (xs ++ c ∷ ys) l.vaddr l.size
        (Placed-insert u.headers vm_vmalloc_start c xs ys above below is.placed);
}
  where
    Placed-kept :
        (h g : Headers) (n : ℕ) (us : List Ptr)
        → ((a : Ptr) → (g a).vaddr ≡ (h a).vaddr)
        → ((a : Ptr) → (g a).size ≡ (h a).size)
        → Placed h n us
        → Placed g n us
    Placed-kept h g n [] e f p = tt
    Placed-kept h g n (w ∷ us) e f p =
        let same : hi g w ≡ hi h w = omega (arith, e w, f w) in
        (
          omega (arith, e w, p.0),
          omega (arith, same, p.1),
          Placed-kept h g (hi g w) us e f (subst (λ (m : ℕ). Placed h m us) (sym same) p.2),
        )

-- the four cases of `_insert_region`
module _ (u : Used) (c : Ptr) where
  insert_only-Linked : u.first ≡ null → Linked u.headers (insert_region u null c) c null null c c
  unfolding insert_region
  insert_only-Linked e = rw e (record {
    first = refl;
    last = refl;
    other = λ a ne nz. (ground (arith, ne, nz), ground (arith, ne, nz));
    back = ground arith;
    on = ground arith;
    vaddr = λ a. ground arith;
    size = λ a. ground arith;
  })

  insert_first-Linked :
      (y : Ptr)
      → u.first ≡ y
      → y ≢ null
      → c ≢ y
      → Linked u.headers (insert_region u null c) c null y c u.last
  unfolding insert_region
  insert_first-Linked y e ny nc = rw e (
      rw (ne→== y null ny) (record {
        first = refl;
        last = refl;
        other = λ a ne nz. (ground (arith, ne, nz), ground (arith, ne, nz));
        back = ground (arith, nc);
        on = ground (arith, nc);
        vaddr = λ a. ground arith;
        size = λ a. ground arith;
      }))

  insert_last-Linked :
      (x l : Ptr)
      → u.first ≡ x
      → x ≢ null
      → u.last ≡ l
      → l ≢ null
      → c ≢ l
      → Linked u.headers (insert_region u l c) c l null x c
  unfolding insert_region
  insert_last-Linked x l e nx is_l nl nc = rw e (
      rw (ne→== x null nx) (
        rw (ne→== l null nl) (
          rw is_l (
            rw (==_self l) (record {
              first = refl;
              last = refl;
              other = λ a ne nz. (ground (arith, ne, nz), ground (arith, ne, nz));
              back = ground (arith, nc);
              on = ground (arith, nc);
              vaddr = λ a. ground arith;
              size = λ a. ground arith;
            })))))

  insert_inside-Linked :
      (x l p y : Ptr)
      → u.first ≡ x
      → x ≢ null
      → u.last ≡ l
      → p ≢ null
      → l ≢ p
      → (u.headers p).next ≡ y
      → c ≢ p
      → c ≢ y
      → Linked u.headers (insert_region u p c) c p y x l
  unfolding insert_region
  insert_inside-Linked x l p y e nx is_l np other next nc ny = rw e (
      rw (ne→== x null nx) (
        rw (ne→== p null np) (
          rw is_l (
            rw (ne→== l p other) (
              rw next (
                rw (==_self c) (record {
                  first = refl;
                  last = refl;
                  other = λ a ne nz. (ground (arith, ne, nz), ground (arith, ne, nz));
                  back = ground (arith, nc, ny);
                  on = ground (arith, nc, ny);
                  vaddr = λ a. ground arith;
                  size = λ a. ground arith;
                })))))))

pub insert_region-same :
    (u : Used) (p c a : Ptr)
    → (((insert_region u p c).headers a).vaddr ≡ (u.headers a).vaddr)
      × (((insert_region u p c).headers a).size ≡ (u.headers a).size)
unfolding insert_region
insert_region-same u p c a = elim (Bool-cases (u.first == null)) [
  | inl e ↦ rw e (ground arith, ground arith)
  | inr e ↦ elim (Bool-cases (p == null)) [
    | inl f ↦ rw e (rw f (ground arith, ground arith))
    | inr f ↦ elim (Bool-cases (u.last == p)) [
      | inl g ↦ rw e (rw f (rw g (ground arith, ground arith)))
      | inr g ↦ rw e (rw f (rw g (ground arith, ground arith)))
    ]
  ]
]

-- `_insert_region` puts a range that fits behind the ranges `xs` there.
pub insert_region-IsUsed :
    (u : Used) (c : Ptr) (xs ys : List Ptr)
    → IsUsed u (xs ++ ys)
    → c ≢ null
    → NotIn c (xs ++ ys)
    → hi_or u.headers vm_vmalloc_start xs ≤ lo u.headers c
    → EndsBefore u.headers (hi u.headers c) ys
    → IsUsed (insert_region u (last_or null xs) c) (xs ++ c ∷ ys)
insert_region-IsUsed u c [] [] is nz out above below =
    Linked-IsUsed u (insert_region u null c) c [] [] (insert_only-Linked u c is.first) is nz out
      above below
insert_region-IsUsed u c [] (y ∷ ys) is nz out above below =
    Linked-IsUsed u (insert_region u null c) c [] (y ∷ ys)
      (subst (Linked u.headers (insert_region u null c) c null y c) is.last
        (insert_first-Linked u c y is.first is.chain.0 out.0))
      is nz out above below
insert_region-IsUsed u c (x ∷ xs) [] is nz out above below =
    let (nx, _) = NotIn-append c (x ∷ xs) [] out in
    let is' = subst (IsUsed u) (append-nil (x ∷ xs)) is in
    let l = last_or x xs in
    Linked-IsUsed u (insert_region u l c) c (x ∷ xs) []
      (subst (Linked u.headers (insert_region u l c) c l null x) (sym (last_or-append x c xs [])) (
        insert_last-Linked u c x l is'.first is'.chain.0 is'.last (last-null x xs is')
          (NotIn-last_or c x xs nx.0 nx.1)))
      is nz out above below
  where
    last-null : (w : Ptr) (ws : List Ptr) → IsUsed u (w ∷ ws) → last_or w ws ≢ null
    last-null w ws k e =
        let no =
          NotIn-null (λ a. (u.headers a).next) (λ a. (u.headers a).prev) null (w ∷ ws) k.chain in
        NotIn-last_or null w ws no.0 no.1 (sym e)
insert_region-IsUsed u c (x ∷ xs) (y ∷ ys) is nz out above below =
    let (nx, ny) = NotIn-append c (x ∷ xs) (y ∷ ys) out in
    let no =
      NotIn-null (λ a. (u.headers a).next) (λ a. (u.headers a).prev) null (x ∷ (xs ++ y ∷ ys))
        is.chain in
    let (nox, _) = NotIn-append null (x ∷ xs) (y ∷ ys) no in
    let p = last_or x xs in
    let l = last_or x (xs ++ y ∷ ys) in
    let is_l : l ≡ last_or null (x ∷ (xs ++ c ∷ y ∷ ys)) =
      last_or-append x y xs ys ∙ sym (last_or-append x c xs (y ∷ ys)) in
    let behind = last-next x xs null is.chain in
    Linked-IsUsed u (insert_region u p c) c (x ∷ xs) (y ∷ ys)
      (subst (Linked u.headers (insert_region u p c) c p y x) is_l (
        insert_inside-Linked u c x l p y is.first is.chain.0 is.last
          (λ e. NotIn-last_or null x xs nox.0 nox.1 (sym e))
          (λ e. last-apart x xs is.distinct (sym e)) behind (NotIn-last_or c x xs nx.0 nx.1) ny.0))
      is nz out above below
  where
    last-next :
        (w : Ptr) (ws : List Ptr) (q : Ptr)
        → Chain (λ a. (u.headers a).next) (λ a. (u.headers a).prev) q (w ∷ (ws ++ y ∷ ys))
        → (u.headers (last_or w ws)).next ≡ y
    last-next w [] q k = k.2
    last-next w (v ∷ ws) q k = last-next v ws w k.3

    last-apart :
        (w : Ptr) (ws : List Ptr)
        → Distinct (w ∷ (ws ++ y ∷ ys))
        → last_or w ws ≢ last_or w (ws ++ y ∷ ys)
    last-apart w [] d = NotIn-last_or w y ys d.0.0 d.0.1
    last-apart w (v ∷ ws) d = last-apart v ws d.1
