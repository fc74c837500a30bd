-- ===== src/Scheduler/Chains.antt =====
-- One queue as a list of tasks.
use polx.Base.{
  ◌+◌, ◌^◌, ◌<◌, ◌≡◌, refl, sym, ap, ◌∙◌, ◌≢◌, ◌⊎◌, inl, inr, true, false, List, [], ◌∷◌, ◌++◌,
  arith, ℕ_discrete, ◌==◌, if◌then◌else◌, Bool-cases, length, length-append, Ptr, null, add_word,
  sub_word, head, last_or, NotIn, Distinct, Chain, NotIn-null, NotIn-append, NotIn-last_or,
  Chain-neighbours, Chain-append, Chain-unlink, Distinct-cut, last_or-append, Distinct-append, ∷≢[],
}
use mathlib.Core.List.{append-nil}
use polx.Scheduler.{Tasks, Queue, queue_of, set_next, set_prev, append, unlink, remove}

-- The queue holds the tasks `ts`, the first to run first. `last` is only kept up while there are tasks.
pub record IsQueue (h : Tasks) (q : Queue) (ts : List Ptr) : Type 0 where
  pub chain : Chain (λ a. (h a).next) (λ a. (h a).prev) null ts
  pub distinct : Distinct ts
  pub first : q.first ≡ head ts
  pub last : (ts ≡ []) ⊎ (q.last ≡ last_or null ts)
  pub count : q.counter ≡ length ts

append-length :
    (t : Ptr) (ts : List Ptr) (q : Queue)
    → q.counter ≡ length ts
    → length ts + 1 < 2 ^ 32
    → add_word q.counter 1 ≡ length (ts ++ t ∷ [])
append-length t ts q e small = omega (arith, length-append ts (t ∷ []))

-- the links after a task is added to a queue that is not empty
append-other :
    (h : Tasks) (q : Queue) (t a : Ptr)
    → (q.first == null) ≡ false
    → a ≢ t
    → (((append h q t).0 a).next ≡ (if a == q.last then t else (h a).next))
      × (((append h q t).0 a).prev ≡ (h a).prev)
unfolding append
append-other h q t a busy ne = rw busy (ground (arith, ne), ground (arith, ne))

append_self :
    (h : Tasks) (q : Queue) (t : Ptr)
    → (q.first == null) ≡ false
    → t ≢ q.last
    → (((append h q t).0 t).next ≡ null) × (((append h q t).0 t).prev ≡ q.last)
unfolding append
append_self h q t busy ne = rw busy (ground arith, ground (arith, ne))

append-queue :
    (h : Tasks) (q : Queue) (t : Ptr)
    → (q.first == null) ≡ false
    → (append h q t).1 ≡ record { counter = add_word q.counter 1; first = q.first; last = t }
unfolding append
append-queue h q t busy = rw busy refl

-- `_add_to_queue` puts a task that is in no place of the queue behind the others.
pub append-IsQueue :
    (h : Tasks) (q : Queue) (t : Ptr) (ts : List Ptr)
    → IsQueue h q ts
    → t ≢ null
    → NotIn t ts
    → length ts + 1 < 2 ^ 32
    → IsQueue (append h q t).0 (append h q t).1 (ts ++ t ∷ [])
unfolding append
append-IsQueue h q t [] is nz out small =
    let empty : (q.first == null) ≡ true = ground (arith, is.first) in
    rw empty (record {
      chain = (nz, ground arith, ground arith, tt);
      distinct = (tt, tt);
      first = refl;
      last = inr refl;
      count = append-length t [] q is.count small;
    })
append-IsQueue h q t (x ∷ xs) is nz out small =
    let busy : (q.first == null) ≡ false = ground (arith, is.first, is.chain.0) in
    let end : q.last ≡ last_or x xs = elim is.last [ inl e ↦ absurd (∷≢[] e) | inr e ↦ e ] in
    let other : t ≢ q.last = λ e. NotIn-last_or t x xs out.0 out.1 (e ∙ end) in
    let self = append_self h q t busy other in
    rw (append-queue h q t busy) (record {
      chain =
          Chain-append (λ a. (h a).next) (λ a. (h a).prev) (λ a. ((append h q t).0 a).next)
            (λ a. ((append h q t).0 a).prev) null t q.last (x ∷ xs)
            (λ a ne. append-other h q t a busy ne) is.last nz (self.1 ∙ end) self.0 out is.distinct
            is.chain;
      distinct = Distinct-append t (x ∷ xs) out is.distinct;
      first = is.first;
      last = inr (sym (last_or-append x t xs []));
      count = append-length t (x ∷ xs) q is.count small;
    })

-- the three cases of `_remove_from_queue`
unlink-first :
    (h : Tasks) (q : Queue) (t a : Ptr)
    → (q.first == t) ≡ true
    → (h t).prev ≡ null
    → a ≢ null
    → (((unlink h q t).0 a).next ≡ (if a == (h t).prev then (h t).next else (h a).next))
      × (((unlink h q t).0 a).prev ≡ (if a == (h t).next then (h t).prev else (h a).prev))
unfolding unlink
unlink-first h q t a first none_before nz =
    rw (first, none_before) (ground (arith, nz), ground (arith, nz))

unlink-last :
    (h : Tasks) (q : Queue) (t a : Ptr)
    → (q.first == t) ≡ false
    → (q.last == t) ≡ true
    → (h t).next ≡ null
    → a ≢ null
    → (((unlink h q t).0 a).next ≡ (if a == (h t).prev then (h t).next else (h a).next))
      × (((unlink h q t).0 a).prev ≡ (if a == (h t).next then (h t).prev else (h a).prev))
unfolding unlink
unlink-last h q t a first last none_behind nz =
    rw (first, none_behind) (rw last (ground (arith, nz), ground (arith, nz)))

unlink-middle :
    (h : Tasks) (q : Queue) (t a : Ptr)
    → (q.first == t) ≡ false
    → (q.last == t) ≡ false
    → (h t).prev ≢ t
    → (((unlink h q t).0 a).next ≡ (if a == (h t).prev then (h t).next else (h a).next))
      × (((unlink h q t).0 a).prev ≡ (if a == (h t).next then (h t).prev else (h a).prev))
unfolding unlink
unlink-middle h q t a first last apart =
    rw first (rw last (ground (arith, apart), ground (arith, apart)))

Distinct-right : (xs ys : List Ptr) → Distinct (xs ++ ys) → Distinct ys
Distinct-right [] ys d = d
Distinct-right (x ∷ xs) ys d = Distinct-right xs ys d.1

last_or-before : (x t : Ptr) (xs ys : List Ptr) → Distinct (x ∷ (xs ++ t ∷ ys)) → last_or x xs ≢ t
last_or-before x t [] ys d = d.0.0
last_or-before x t (z ∷ xs) ys d = last_or-before z t xs ys d.1

-- a queue with the task in it: where the task stands decides the case
unlink-same :
    (h : Tasks) (q : Queue) (t : Ptr) (xs ys : List Ptr)
    → IsQueue h q (xs ++ t ∷ ys)
    → (a : Ptr) → a ≢ t
    → a ≢ null
    → (((unlink h q t).0 a).next ≡ (if a == (h t).prev then (h t).next else (h a).next))
      × (((unlink h q t).0 a).prev ≡ (if a == (h t).next then (h t).prev else (h a).prev))
unfolding unlink
unlink-same h q t [] ys is a ne nz = unlink-first h q t a (ground (arith, is.first)) is.chain.1 nz
unlink-same h q t (x ∷ xs) [] is a ne nz =
    let (nt, before, after) =
      Chain-neighbours (λ b. (h b).next) (λ b. (h b).prev) null t (x ∷ xs) [] is.chain in
    let (out, self) = NotIn-append x xs (t ∷ []) is.distinct.0 in
    let end : q.last ≡ t = elim is.last [
      | inl e ↦ absurd (∷≢[] e)
      | inr e ↦ e ∙ last_or-append x t xs []
    ] in
    unlink-last h q t a (ground (arith, is.first, self.0)) (ground (arith, end)) after nz
unlink-same h q t (x ∷ xs) (y ∷ ys) is a ne nz =
    let (nt, before, after) =
      Chain-neighbours (λ b. (h b).next) (λ b. (h b).prev) null t (x ∷ xs) (y ∷ ys) is.chain in
    let (out, self) = NotIn-append x xs (t ∷ y ∷ ys) is.distinct.0 in
    let tail = Distinct-right xs (t ∷ y ∷ ys) is.distinct.1 in
    let end : q.last ≡ last_or y ys = elim is.last [
      | inl e ↦ absurd (∷≢[] e)
      | inr e ↦ e ∙ last_or-append x t xs (y ∷ ys)
    ] in
    let far : t ≢ last_or y ys = NotIn-last_or t y ys tail.0.0 tail.0.1 in
    unlink-middle h q t a (ground (arith, is.first, self.0)) (ground (arith, end, far))
      (rw before (last_or-before x t xs (y ∷ ys) is.distinct))

remove-other :
    (h : Tasks) (q : Queue) (t a : Ptr)
    → a ≢ t
    → (((remove h q t).0 a).next ≡ ((unlink h q t).0 a).next)
      × (((remove h q t).0 a).prev ≡ ((unlink h q t).0 a).prev)
unfolding remove
remove-other h q t a ne = (ground (arith, ne), ground (arith, ne))

-- a removed task is in no list
pub remove_self :
    (h : Tasks) (q : Queue) (t : Ptr)
    → (((remove h q t).0 t).next ≡ null) × (((remove h q t).0 t).prev ≡ null)
unfolding remove
remove_self h q t = (ground arith, ground arith)

remove-Chain :
    (h : Tasks) (q : Queue) (t : Ptr) (xs ys : List Ptr)
    → IsQueue h q (xs ++ t ∷ ys)
    → Chain (λ a. ((remove h q t).0 a).next) (λ a. ((remove h q t).0 a).prev) null (xs ++ ys)
remove-Chain h q t xs ys is =
    Chain-unlink (λ a. (h a).next) (λ a. (h a).prev) (λ a. ((remove h q t).0 a).next)
      (λ a. ((remove h q t).0 a).prev) null t xs ys
      (λ a ne nz.
        let (n, b) = remove-other h q t a ne in
        let (n', b') = unlink-same h q t xs ys is a ne nz in (n ∙ n', b ∙ b'))
      (NotIn-null (λ a. (h a).next) (λ a. (h a).prev) null (xs ++ t ∷ ys) is.chain) is.distinct
      is.chain

-- what the queue's own record becomes
remove-queue :
    (h : Tasks) (q : Queue) (t : Ptr)
    → (remove h q t).1 ≡ record {
      counter = sub_word q.counter 1;
      first = if q.first == t then (h t).next else q.first;
      last = if q.first == t then q.last else if q.last == t then (h t).prev else q.last;
    }
unfolding remove unlink
remove-queue h q t = elim (Bool-cases (q.first == t)) [
  | inl first ↦ rw first refl
  | inr other ↦ elim (Bool-cases (q.last == t)) [
    | inl last ↦ rw other (rw last refl)
    | inr middle ↦ rw other (rw middle refl)
  ]
]

-- where the queue starts and ends without the task
record EndsAt (first last : Ptr) (ts : List Ptr) : Type 0 where
  starts : first ≡ head ts
  ends : (ts ≡ []) ⊎ (last ≡ last_or null ts)

remove-EndsAt :
    (h : Tasks) (q : Queue) (t : Ptr) (xs ys : List Ptr)
    → IsQueue h q (xs ++ t ∷ ys)
    → EndsAt
        (if q.first == t then (h t).next else q.first)
        (if q.first == t then q.last else if q.last == t then (h t).prev else q.last)
        (xs ++ ys)
remove-EndsAt h q t [] [] is =
    let first : (q.first == t) ≡ true = ground (arith, is.first) in
    rw first (record { starts = is.chain.2; ends = inl refl })
remove-EndsAt h q t [] (y ∷ ys) is =
    let first : (q.first == t) ≡ true = ground (arith, is.first) in
    rw first (record {
      starts = is.chain.2;
      ends = elim is.last [ inl e ↦ absurd (∷≢[] e) | inr e ↦ inr e ];
    })
remove-EndsAt h q t (x ∷ xs) [] is =
    let (nt, before, after) =
      Chain-neighbours (λ b. (h b).next) (λ b. (h b).prev) null t (x ∷ xs) [] is.chain in
    let (out, self) = NotIn-append x xs (t ∷ []) is.distinct.0 in
    let end : q.last ≡ t = elim is.last [
      | inl e ↦ absurd (∷≢[] e)
      | inr e ↦ e ∙ last_or-append x t xs []
    ] in
    let first : (q.first == t) ≡ false = ground (arith, is.first, self.0) in
    let last : (q.last == t) ≡ true = ground (arith, end) in
    rw (first, last) (record { starts = is.first; ends = inr (rw (append-nil xs) before) })
remove-EndsAt h q t (x ∷ xs) (y ∷ ys) is =
    let (out, self) = NotIn-append x xs (t ∷ y ∷ ys) is.distinct.0 in
    let tail = Distinct-right xs (t ∷ y ∷ ys) is.distinct.1 in
    let end : q.last ≡ last_or y ys = elim is.last [
      | inl e ↦ absurd (∷≢[] e)
      | inr e ↦ e ∙ last_or-append x t xs (y ∷ ys)
    ] in
    let far : t ≢ last_or y ys = NotIn-last_or t y ys tail.0.0 tail.0.1 in
    let first : (q.first == t) ≡ false = ground (arith, is.first, self.0) in
    let last : (q.last == t) ≡ false = ground (arith, end, far) in
    rw (first, last)
      (record { starts = is.first; ends = inr (end ∙ sym (last_or-append x y xs ys)) })

-- `_remove_from_queue` takes a task out from any place of its queue: the others stay, in their order.
pub remove-IsQueue :
    (h : Tasks) (q : Queue) (t : Ptr) (xs ys : List Ptr)
    → IsQueue h q (xs ++ t ∷ ys)
    → length (xs ++ t ∷ ys) < 2 ^ 32
    → IsQueue (remove h q t).0 (remove h q t).1 (xs ++ ys)
remove-IsQueue h q t xs ys is small =
    let at = remove-EndsAt h q t xs ys is in
    rw (remove-queue h q t) (record {
      chain = remove-Chain h q t xs ys is;
      distinct = Distinct-cut t xs ys is.distinct;
      first = at.starts;
      last = at.ends;
      count = omega (arith, is.count, length-append xs (t ∷ ys), length-append xs ys);
    })

-- The tasks whose links `_add_to_queue` may change: the new one and the last one before it.
abbrev pub touched_by_append : Queue → Ptr → List Ptr
touched_by_append q t = t ∷ (if q.first == null then null else q.last) ∷ []

pub append-kept :
    (h : Tasks) (q : Queue) (t a : Ptr)
    → NotIn a (touched_by_append q t)
    → (((append h q t).0 a).next ≡ (h a).next) × (((append h q t).0 a).prev ≡ (h a).prev)
unfolding append
append-kept h q t a out = elim (Bool-cases (q.first == null)) [
  | inl empty ↦ (let ne = out.0 in rw empty (ground (arith, ne), ground (arith, ne)))
  | inr busy ↦
      (let ne = out.0 in
        let far : a ≢ q.last = rw busy at (out.1.0) in
        rw busy (ground (arith, ne, far), ground (arith, ne, far)))
]

-- Those whose links `_remove_from_queue` may change: the task and its neighbours.
abbrev pub touched_by_remove : Tasks → Ptr → List Ptr
touched_by_remove h t = t ∷ null ∷ (h t).prev ∷ (h t).next ∷ []

pub remove-kept :
    (h : Tasks) (q : Queue) (t : Ptr) (xs ys : List Ptr)
    → IsQueue h q (xs ++ t ∷ ys)
    → (a : Ptr) → NotIn a (touched_by_remove h t)
    → (((remove h q t).0 a).next ≡ (h a).next) × (((remove h q t).0 a).prev ≡ (h a).prev)
remove-kept h q t xs ys is a out =
    let (n, b) = remove-other h q t a out.0 in
    let (n', b') = unlink-same h q t xs ys is a out.0 out.1.0 in
    let far : a ≢ (h t).prev = out.1.1.0 in
    let away : a ≢ (h t).next = out.1.1.1.0 in
    (n ∙ ground (arith, n', far), b ∙ ground (arith, b', away))

set_next-queue_of : (h : Tasks) (p v a : Ptr) → queue_of (set_next h p v a) ≡ queue_of (h a)
unfolding queue_of
set_next-queue_of h p v a = elim (ℕ_discrete p a) [
  | yes e ↦ (let same : (p == a) ≡ true = ground (arith, e) in rw same (ap (λ b. queue_of (h b)) e))
  | no ne ↦ (let other : (p == a) ≡ false = ground (arith, ne) in rw other refl)
]

set_prev-queue_of : (h : Tasks) (p v a : Ptr) → queue_of (set_prev h p v a) ≡ queue_of (h a)
unfolding queue_of
set_prev-queue_of h p v a = elim (ℕ_discrete p a) [
  | yes e ↦ (let same : (p == a) ≡ true = ground (arith, e) in rw same (ap (λ b. queue_of (h b)) e))
  | no ne ↦ (let other : (p == a) ≡ false = ground (arith, ne) in rw other refl)
]

-- Neither operation changes what the task is.
pub append-queue_of :
    (h : Tasks) (q : Queue) (t a : Ptr) → queue_of ((append h q t).0 a) ≡ queue_of (h a)
unfolding append
append-queue_of h q t a = elim (Bool-cases (q.first == null)) [
  | inl empty ↦
      rw empty (set_next-queue_of (set_prev h t null) t null a ∙ set_prev-queue_of h t null a)
  | inr busy ↦ rw busy (
      set_next-queue_of (set_next (set_prev h t q.last) q.last t) t null a
      ∙ set_next-queue_of (set_prev h t q.last) q.last t a
      ∙ set_prev-queue_of h t q.last a)
]

unlink-queue_of :
    (h : Tasks) (q : Queue) (t a : Ptr) → queue_of ((unlink h q t).0 a) ≡ queue_of (h a)
unfolding unlink
unlink-queue_of h q t a = elim (Bool-cases (q.first == t)) [
  | inl first ↦ elim (Bool-cases ((h t).next == null)) [
    | inl alone ↦ rw first (rw alone refl)
    | inr more ↦ rw first (rw more (set_prev-queue_of h (h t).next null a))
  ]
  | inr other ↦ elim (Bool-cases (q.last == t)) [
    | inl last ↦ rw other (rw last (set_next-queue_of h (h t).prev null a))
    | inr middle ↦ rw other (
        rw middle (
          set_prev-queue_of (set_next h (h t).prev (h t).next) _ _ a
          ∙ set_next-queue_of h (h t).prev (h t).next a))
  ]
]

pub remove-queue_of :
    (h : Tasks) (q : Queue) (t a : Ptr) → queue_of ((remove h q t).0 a) ≡ queue_of (h a)
unfolding remove
remove-queue_of h q t a =
    set_next-queue_of (set_prev (unlink h q t).0 t null) t null a
    ∙ set_prev-queue_of (unlink h q t).0 t null a
    ∙ unlink-queue_of h q t a
