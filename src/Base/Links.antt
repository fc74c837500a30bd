-- ===== src/Base/Links.antt =====
-- Doubly linked lists that end in NULL, as the links of their nodes: `next` and `prev` are functions of a
-- node's address.
use mathlib.Core.Path.{◌≡◌, refl, sym, ◌∙◌}
use mathlib.Core.Logic.{◌≢◌, ◌⊎◌, inl, inr}
use mathlib.Core.List.{List, [], ◌∷◌, ◌++◌}
use native.Mathlib.Omega.{arith}
use polx.Base.Tests.{◌==◌, if◌then◌else◌}
use polx.Base.Memory.{Ptr, null}

abbrev pub head : List Ptr → Ptr
head [] = null
head (t ∷ ts) = t

-- the last node, or `p`
abbrev pub last_or : Ptr → List Ptr → Ptr
last_or p [] = p
last_or p (t ∷ ts) = last_or t ts

abbrev pub NotIn : Ptr → List Ptr → Type 0
NotIn a [] = Unit
NotIn a (t ∷ ts) = (a ≢ t) × NotIn a ts

abbrev pub Distinct : List Ptr → Type 0
Distinct [] = Unit
Distinct (t ∷ ts) = NotIn t ts × Distinct ts

-- The nodes `ts`, in order, behind `p`.
abbrev pub Chain : (next prev : Ptr → Ptr) → Ptr → List Ptr → Type 0
Chain next prev p [] = Unit
Chain next prev p (t ∷ ts) = (t ≢ null) × (prev t ≡ p) × (next t ≡ head ts) × Chain next prev t ts

pub NotIn-null :
    (next prev : Ptr → Ptr) (p : Ptr) (ts : List Ptr) → Chain next prev p ts → NotIn null ts
NotIn-null next prev p [] h = tt
NotIn-null next prev p (t ∷ ts) h = ((λ e. h.0 (sym e)), NotIn-null next prev t ts h.3)

pub NotIn-last_or : (a t : Ptr) (ts : List Ptr) → a ≢ t → NotIn a ts → a ≢ last_or t ts
NotIn-last_or a t [] ne h = ne
NotIn-last_or a t (u ∷ ts) ne h = NotIn-last_or a u ts h.0 h.1

pub NotIn-head : (a : Ptr) (ts : List Ptr) → a ≢ null → NotIn a ts → a ≢ head ts
NotIn-head a [] ne h = ne
NotIn-head a (t ∷ ts) ne h = h.0

pub ∷≢[] : {x : Ptr} {xs : List Ptr} → ◌≡◌ {A = List Ptr} (x ∷ xs) [] → ⊥
∷≢[] e = cc

pub NotIn-append : (a : Ptr) (xs ys : List Ptr) → NotIn a (xs ++ ys) → NotIn a xs × NotIn a ys
NotIn-append a [] ys h = (tt, h)
NotIn-append a (x ∷ xs) ys h = let r = NotIn-append a xs ys h.1 in ((h.0, r.0), r.1)

pub Distinct-cut : (t : Ptr) (xs ys : List Ptr) → Distinct (xs ++ t ∷ ys) → Distinct (xs ++ ys)
Distinct-cut t [] ys d = d.1
Distinct-cut t (x ∷ xs) ys d = (NotIn-cut x xs ys d.0, Distinct-cut t xs ys d.1)
  where
    NotIn-cut : (a : Ptr) (us vs : List Ptr) → NotIn a (us ++ t ∷ vs) → NotIn a (us ++ vs)
    NotIn-cut a [] vs h = h.1
    NotIn-cut a (u ∷ us) vs h = (h.0, NotIn-cut a us vs h.1)

pub last_or-append : (p t : Ptr) (xs ys : List Ptr) → last_or p (xs ++ t ∷ ys) ≡ last_or t ys
last_or-append p t [] ys = refl
last_or-append p t (x ∷ xs) ys = last_or-append x t xs ys

pub Distinct-append : (t : Ptr) (ts : List Ptr) → NotIn t ts → Distinct ts → Distinct (ts ++ t ∷ [])
Distinct-append t [] out d = (tt, tt)
Distinct-append t (x ∷ xs) out d =
    (NotIn-snoc x t xs (λ e. out.0 (sym e)) d.0, Distinct-append t xs out.1 d.1)
  where
    NotIn-snoc : (a u : Ptr) (ys : List Ptr) → a ≢ u → NotIn a ys → NotIn a (ys ++ u ∷ [])
    NotIn-snoc a u [] ne h = (ne, tt)
    NotIn-snoc a u (y ∷ ys) ne h = (h.0, NotIn-snoc a u ys ne h.1)

-- None of the nodes `us` is one of `ts`.
abbrev pub Apart : (us ts : List Ptr) → Type 0
Apart [] ts = Unit
Apart (u ∷ us) ts = NotIn u ts × Apart us ts

Apart-head : (us : List Ptr) (t : Ptr) (ts : List Ptr) → Apart us (t ∷ ts) → NotIn t us
Apart-head [] t ts h = tt
Apart-head (u ∷ us) t ts h = ((λ e. h.0.0 (sym e)), Apart-head us t ts h.1)

Apart-tail : (us : List Ptr) (t : Ptr) (ts : List Ptr) → Apart us (t ∷ ts) → Apart us ts
Apart-tail [] t ts h = tt
Apart-tail (u ∷ us) t ts h = (h.0.1, Apart-tail us t ts h.1)

-- the neighbours of a node of a chain
pub Chain-neighbours :
    (next prev : Ptr → Ptr) (p t : Ptr) (xs ys : List Ptr)
    → Chain next prev p (xs ++ t ∷ ys)
    → (t ≢ null) × (prev t ≡ last_or p xs) × (next t ≡ head ys)
Chain-neighbours next prev p t [] ys h = (h.0, h.1, h.2)
Chain-neighbours next prev p t (x ∷ xs) ys h = Chain-neighbours next prev x t xs ys h.3

module _ (next prev next' prev' : Ptr → Ptr) where
  -- Nodes whose links stay the same are still a chain.
  pub Chain-kept :
      (p : Ptr) (ts us : List Ptr)
      → ((a : Ptr) → NotIn a us → (next' a ≡ next a) × (prev' a ≡ prev a))
      → Apart us ts
      → Chain next prev p ts
      → Chain next' prev' p ts
  Chain-kept p [] us same out h = tt
  Chain-kept p (t ∷ ts) us same out h =
      let (n, b) = same t (Apart-head us t ts out) in
      (h.0, b ∙ h.1, n ∙ h.2, Chain-kept t ts us same (Apart-tail us t ts out) h.3)

  -- Only the link of the node `l` to its successor changes, to `t`.
  pub Chain-append :
      (p t l : Ptr) (ts : List Ptr)
      → ((a : Ptr) → a ≢ t → (next' a ≡ (if a == l then t else next a)) × (prev' a ≡ prev a))
      → ((ts ≡ []) ⊎ (l ≡ last_or null ts))
      → t ≢ null
      → prev' t ≡ last_or p ts
      → next' t ≡ null
      → NotIn t ts
      → Distinct ts
      → Chain next prev p ts
      → Chain next' prev' p (ts ++ t ∷ [])
  Chain-append p t l [] same last nz before after out distinct h = (nz, before, after, tt)
  Chain-append p t l (x ∷ []) same last nz before after out distinct h =
      let (n, b) = same x (λ e. out.0 (sym e)) in
      let is_last : l ≡ x = elim last [ inl e ↦ absurd (∷≢[] e) | inr e ↦ e ] in
      let step : next' x ≡ t = ground (arith, n, is_last) in
      (h.0, b ∙ h.1, step, (nz, before, after, tt))
  Chain-append p t l (x ∷ y ∷ ts) same last nz before after out distinct h =
      let (n, b) = same x (λ e. out.0 (sym e)) in
      let is_last : l ≡ last_or null (y ∷ ts) = elim last [ inl e ↦ absurd (∷≢[] e) | inr e ↦ e ] in
      let far : x ≢ l = λ e. NotIn-last_or x y ts distinct.0.0 distinct.0.1 (e ∙ is_last) in
      let step : next' x ≡ y = ground (arith, n, far, h.2) in
      (
        h.0,
        b ∙ h.1,
        step,
        Chain-append x t l (y ∷ ts) same (inr is_last) nz before after out.1 distinct.1 h.3,
      )

  -- The neighbours of `t` are linked with one another.
  pub Chain-unlink :
      (p t : Ptr) (xs ys : List Ptr)
      → ((a : Ptr)
          → a ≢ t
          → a ≢ null
          → (next' a ≡ (if a == prev t then next t else next a))
            × (prev' a ≡ (if a == next t then prev t else prev a)))
      → NotIn p (xs ++ t ∷ ys)
      → Distinct (xs ++ t ∷ ys)
      → Chain next prev p (xs ++ t ∷ ys)
      → Chain next' prev' p (xs ++ ys)
  Chain-unlink p t [] [] same out distinct h = tt
  Chain-unlink p t [] (y ∷ ys) same out distinct h =
      let (n, b) = same y (λ e. distinct.0.0 (sym e)) h.3.0 in
      let back : prev' y ≡ p = ground (arith, b, h.1, h.2) in
      let away : y ≢ p = λ e. out.1.0 (sym e) in
      let on : next' y ≡ head ys = ground (arith, n, h.1, away, h.3.2) in
      (
        h.3.0,
        back,
        on,
        Chain-kept y ys (t ∷ null ∷ p ∷ y ∷ [])
            (λ a out'.
              let (n', b') = same a out'.0 out'.1.0 in
              let not_p : a ≢ p = out'.1.1.0 in
              let not_y : a ≢ y = out'.1.1.1.0 in
              (ground (arith, n', h.1, not_p), ground (arith, b', h.2, not_y)))
            (distinct.0.1, (NotIn-null next prev y ys h.3.3, (out.1.1, (distinct.1.0, tt)))) h.3.3,
      )
  Chain-unlink p t (x ∷ []) ys same out distinct h =
      let away : x ≢ head ys = NotIn-head x ys h.0 distinct.0.1 in
      let (n, b) = same x distinct.0.0 h.0 in
      let back : prev' x ≡ p = ground (arith, b, h.3.2, away, h.1) in
      let on : next' x ≡ head ys = ground (arith, n, h.3.1, h.3.2) in
      (h.0, back, on, Chain-unlink x t [] ys same distinct.0 distinct.1 h.3)
  Chain-unlink p t (x ∷ z ∷ xs) ys same out distinct h =
      let (nt, before, after) = Chain-neighbours next prev x t (z ∷ xs) ys h.3 in
      let (nz, rest) = NotIn-append x (z ∷ xs) (t ∷ ys) distinct.0 in
      let away : x ≢ head ys = NotIn-head x ys h.0 rest.1 in
      let far : x ≢ last_or z xs = NotIn-last_or x z xs nz.0 nz.1 in
      let (n, b) = same x rest.0 h.0 in
      let back : prev' x ≡ p = ground (arith, b, after, away, h.1) in
      let on : next' x ≡ z = ground (arith, n, before, far, h.2) in
      (h.0, back, on, Chain-unlink x t (z ∷ xs) ys same distinct.0 distinct.1 h.3)

  -- The node `t` comes between the nodes `xs` and `ys`.
  pub Chain-insert :
      (p t : Ptr) (xs ys : List Ptr)
      → ((a : Ptr)
          → a ≢ t
          → a ≢ null
          → (next' a ≡ (if a == last_or p xs then t else next a))
            × (prev' a ≡ (if a == head ys then t else prev a)))
      → t ≢ null
      → prev' t ≡ last_or p xs
      → next' t ≡ head ys
      → NotIn t (xs ++ ys)
      → NotIn p (xs ++ ys)
      → Distinct (xs ++ ys)
      → Chain next prev p (xs ++ ys)
      → Chain next' prev' p (xs ++ t ∷ ys)
  Chain-insert p t [] [] same nz before after out outp distinct h = (nz, before, after, tt)
  Chain-insert p t [] (y ∷ ys) same nz before after out outp distinct h =
      let (n, b) = same y (λ e. out.0 (sym e)) h.0 in
      let away : y ≢ p = λ e. outp.0 (sym e) in
      let on : next' y ≡ head ys = ground (arith, n, away, h.2) in
      let back : prev' y ≡ t = ground (arith, b) in
      (
        nz,
        before,
        after,
        (
          h.0,
          back,
          on,
          Chain-kept y ys (t ∷ null ∷ p ∷ y ∷ [])
              (λ a out'.
                let (n', b') = same a out'.0 out'.1.0 in
                let not_p : a ≢ p = out'.1.1.0 in
                let not_y : a ≢ y = out'.1.1.1.0 in
                (ground (arith, n', not_p), ground (arith, b', not_y)))
              (out.1, (NotIn-null next prev y ys h.3, (outp.1, (distinct.0, tt)))) h.3,
        ),
      )
  Chain-insert p t (x ∷ []) ys same nz before after out outp distinct h =
      let (n, b) = same x (λ e. out.0 (sym e)) h.0 in
      let away : x ≢ head ys = NotIn-head x ys h.0 distinct.0 in
      let back : prev' x ≡ p = ground (arith, b, away, h.1) in
      let on : next' x ≡ t = ground (arith, n) in
      (h.0, back, on, Chain-insert x t [] ys same nz before after out.1 distinct.0 distinct.1 h.3)
  Chain-insert p t (x ∷ z ∷ xs) ys same nz before after out outp distinct h =
      let (n, b) = same x (λ e. out.0 (sym e)) h.0 in
      let (nz', rest) = NotIn-append x (z ∷ xs) ys distinct.0 in
      let away : x ≢ head ys = NotIn-head x ys h.0 rest in
      let far : x ≢ last_or z xs = NotIn-last_or x z xs nz'.0 nz'.1 in
      let back : prev' x ≡ p = ground (arith, b, away, h.1) in
      let on : next' x ≡ z = ground (arith, n, far, h.2) in
      (
        h.0,
        back,
        on,
        Chain-insert x t (z ∷ xs) ys same nz before after out.1 distinct.0 distinct.1 h.3,
      )

pub Distinct-insert :
    (t : Ptr) (xs ys : List Ptr)
    → NotIn t (xs ++ ys)
    → Distinct (xs ++ ys)
    → Distinct (xs ++ t ∷ ys)
Distinct-insert t [] ys out d = (out, d)
Distinct-insert t (x ∷ xs) ys out d =
    (NotIn-insert x xs ys (λ e. out.0 (sym e)) d.0, Distinct-insert t xs ys out.1 d.1)
  where
    NotIn-insert :
        (a : Ptr) (us vs : List Ptr) → a ≢ t → NotIn a (us ++ vs) → NotIn a (us ++ t ∷ vs)
    NotIn-insert a [] vs ne h = (ne, h)
    NotIn-insert a (u ∷ us) vs ne h = (h.0, NotIn-insert a us vs ne h.1)
