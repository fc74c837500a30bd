-- ===== src/Scheduler/Lists.antt =====
-- The three queues together.
use polx.Base.{
  ◌+◌, ◌^◌, ◌<◌, ◌≡◌, refl, sym, ap, ◌∙◌, ◌≢◌, ◌⊎◌, inl, inr, true, false, List, [], ◌∷◌, ◌++◌,
  arith, ◌==◌, if◌then◌else◌, length, Ptr, null, head, last_or, NotIn, Apart, NotIn-null,
  Chain-neighbours, Chain-kept, ∷≢[],
}
use mathlib.Core.Path.{subst}
use polx.Scheduler.{
  Tasks, Queue, Which, os_q, user_q, sleep_q, Scheduler, queue_of, same_queue, set_queue, append,
  remove, add_to_queue, remove_from_queue,
}
use polx.Scheduler.Chains.{
  IsQueue, append-IsQueue, remove-IsQueue, append-kept, append-queue_of, remove-kept,
  remove-queue_of, touched_by_append, touched_by_remove,
}

pub Which-cases :
    (w v : Which) → ((w ≡ v) × (same_queue w v ≡ true)) ⊎ ((w ≢ v) × (same_queue w v ≡ false))
Which-cases os_q os_q = inl (refl, refl)
Which-cases os_q user_q = inr ((λ e. cc), refl)
Which-cases os_q sleep_q = inr ((λ e. cc), refl)
Which-cases user_q os_q = inr ((λ e. cc), refl)
Which-cases user_q user_q = inl (refl, refl)
Which-cases user_q sleep_q = inr ((λ e. cc), refl)
Which-cases sleep_q os_q = inr ((λ e. cc), refl)
Which-cases sleep_q user_q = inr ((λ e. cc), refl)
Which-cases sleep_q sleep_q = inl (refl, refl)

-- Every task of the list belongs to the queue `w`.
abbrev pub Placed : Tasks → Which → List Ptr → Type 0
Placed h w [] = Unit
Placed h w (t ∷ ts) = (queue_of (h t) ≡ w) × Placed h w ts

-- The queues hold the tasks `ls`, each in the queue for its state and priority.
pub record Listed (s : Scheduler) (ls : Which → List Ptr) : Type 0 where
  pub queue : (w : Which) → IsQueue s.tasks (s.queues w) (ls w)
  pub placed : (w : Which) → Placed s.tasks w (ls w)

pub NotIn-Placed :
    (h : Tasks) (t : Ptr) (w : Which) (ts : List Ptr)
    → queue_of (h t) ≢ w
    → Placed h w ts
    → NotIn t ts
NotIn-Placed h t w [] ne p = tt
NotIn-Placed h t w (u ∷ ts) ne p =
    ((λ e. ne (ap (λ (a : Ptr). queue_of (h a)) e ∙ p.0)), NotIn-Placed h t w ts ne p.1)

-- A task of one queue's list, or NULL, is in no other queue's.
NotIn-other :
    (h : Tasks) (a : Ptr) (w v : Which) (ts : List Ptr)
    → (a ≡ null) ⊎ (queue_of (h a) ≡ w)
    → w ≢ v
    → NotIn null ts
    → Placed h v ts
    → NotIn a ts
NotIn-other h a w v ts (inl e) ne no_null p = rw e no_null
NotIn-other h a w v ts (inr e) ne no_null p = NotIn-Placed h a v ts (λ k. ne (sym e ∙ k)) p

Placed-last :
    (h : Tasks) (w : Which) (t : Ptr) (ts : List Ptr)
    → queue_of (h t) ≡ w
    → Placed h w ts
    → queue_of (h (last_or t ts)) ≡ w
Placed-last h w t [] e p = e
Placed-last h w t (u ∷ ts) e p = Placed-last h w u ts p.0 p.1

Placed-last_or-null :
    (h : Tasks) (w : Which) (ts : List Ptr)
    → Placed h w ts
    → (last_or null ts ≡ null) ⊎ (queue_of (h (last_or null ts)) ≡ w)
Placed-last_or-null h w [] p = inl refl
Placed-last_or-null h w (t ∷ ts) p = inr (Placed-last h w t ts p.0 p.1)

Placed-head :
    (h : Tasks) (w : Which) (ts : List Ptr)
    → Placed h w ts
    → (head ts ≡ null) ⊎ (queue_of (h (head ts)) ≡ w)
Placed-head h w [] p = inl refl
Placed-head h w (t ∷ ts) p = inr p.0

Placed-append :
    (h : Tasks) (w : Which) (xs ys : List Ptr)
    → Placed h w xs
    → Placed h w ys
    → Placed h w (xs ++ ys)
Placed-append h w [] ys p q = q
Placed-append h w (x ∷ xs) ys p q = (p.0, Placed-append h w xs ys p.1 q)

Placed-split :
    (h : Tasks) (w : Which) (xs ys : List Ptr)
    → Placed h w (xs ++ ys)
    → Placed h w xs × Placed h w ys
Placed-split h w [] ys p = (tt, p)
Placed-split h w (x ∷ xs) ys p = let r = Placed-split h w xs ys p.1 in ((p.0, r.0), r.1)

pub Placed-kept :
    (h g : Tasks) (w : Which) (ts : List Ptr)
    → ((a : Ptr) → queue_of (g a) ≡ queue_of (h a))
    → Placed h w ts
    → Placed g w ts
Placed-kept h g w [] same p = tt
Placed-kept h g w (t ∷ ts) same p = (same t ∙ p.0, Placed-kept h g w ts same p.1)

-- A queue none of whose tasks is touched.
pub IsQueue-kept :
    (h g : Tasks) (q : Queue) (ts us : List Ptr)
    → ((a : Ptr) → NotIn a us → ((g a).next ≡ (h a).next) × ((g a).prev ≡ (h a).prev))
    → Apart us ts
    → IsQueue h q ts
    → IsQueue g q ts
IsQueue-kept h g q ts us same apart is = record {
  chain =
      Chain-kept (λ a. (h a).next) (λ a. (h a).prev) (λ a. (g a).next) (λ a. (g a).prev) null ts us
        same apart is.chain;
  distinct = is.distinct;
  first = is.first;
  last = is.last;
  count = is.count;
}

-- one list in place of another
abbrev pub set_list : (Which → List Ptr) → Which → List Ptr → Which → List Ptr
set_list ls w ts v = if same_queue w v then ts else ls v

Listed-set :
    (s : Scheduler) (h : Tasks) (q : Queue) (w : Which) (ts : List Ptr) (ls : Which → List Ptr)
    → IsQueue h q ts
    → Placed h w ts
    → ((v : Which) → w ≢ v → IsQueue h (s.queues v) (ls v) × Placed h v (ls v))
    → Listed (record s { tasks = h; queues = set_queue s.queues w q }) (set_list ls w ts)
Listed-set s h q w ts ls is placed others = record {
  queue = λ v. elim (Which-cases w v) [
    | inl same ↦ rw (same.1) is
    | inr other ↦ rw (other.1) (others v other.0).0
  ];
  placed = λ v. elim (Which-cases w v) [
    | inl same ↦ rw (same.1, ← (same.0)) placed
    | inr other ↦ rw (other.1) (others v other.0).1
  ];
}

-- the last task that `_add_to_queue` links to the new one
last_in_queue :
    (h : Tasks) (q : Queue) (w : Which) (ts : List Ptr)
    → IsQueue h q ts
    → Placed h w ts
    → let a = if q.first == null then null else q.last in (a ≡ null) ⊎ (queue_of (h a) ≡ w)
last_in_queue h q w [] is p =
    let empty : (q.first == null) ≡ true = ground (arith, is.first) in rw empty (inl refl)
last_in_queue h q w (x ∷ xs) is p =
    let busy : (q.first == null) ≡ false = ground (arith, is.first, is.chain.0) in
    let end : q.last ≡ last_or x xs = elim is.last [ inl e ↦ absurd (∷≢[] e) | inr e ↦ e ] in
    rw busy (inr (rw end (Placed-last h w x xs p.0 p.1)))

-- Where the three queues are well linked, `_add_to_queue` puts a task that is not in the queue for its state
-- and priority behind the others of that queue; the other two queues stay as they are. The queue's counter
-- must not overflow.
pub add_to_queue-Listed :
    (s : Scheduler) (t : Ptr) (ls : Which → List Ptr)
    → Listed s ls
    → t ≢ null
    → NotIn t (ls (queue_of (s.tasks t)))
    → length (ls (queue_of (s.tasks t))) + 1 < 2 ^ 32
    → Listed
        (add_to_queue s t)
        (set_list ls (queue_of (s.tasks t)) (ls (queue_of (s.tasks t)) ++ t ∷ []))
unfolding add_to_queue
add_to_queue-Listed s t ls l nz out small =
    Listed-set s (append s.tasks q t).0 (append s.tasks q t).1 w (ls w ++ t ∷ []) ls
      (append-IsQueue s.tasks q t (ls w) (l.queue w) nz out small)
      (Placed-kept s.tasks (append s.tasks q t).0 w (ls w ++ t ∷ []) (append-queue_of s.tasks q t)
        (Placed-append s.tasks w (ls w) (t ∷ []) (l.placed w) (refl, tt)))
      (λ v other. (
        IsQueue-kept s.tasks (append s.tasks q t).0 (s.queues v) (ls v) (touched_by_append q t)
            (append-kept s.tasks q t) (apart v other) (l.queue v),
        Placed-kept s.tasks (append s.tasks q t).0 v (ls v) (append-queue_of s.tasks q t)
            (l.placed v),
      ))
  where
    w : Which
    w = queue_of (s.tasks t)

    q : Queue
    q = s.queues w

    apart : (v : Which) → w ≢ v → Apart (touched_by_append q t) (ls v)
    apart v other =
        let no_null =
          NotIn-null (λ a. (s.tasks a).next) (λ a. (s.tasks a).prev) null (ls v)
            (l.queue v).chain in
        (
          NotIn-Placed s.tasks t v (ls v) other (l.placed v),
          (
            NotIn-other s.tasks _ w v (ls v)
                (last_in_queue s.tasks q w (ls w) (l.queue w) (l.placed w)) other no_null
                (l.placed v),
            tt,
          ),
        )

-- `_remove_from_queue` takes the task out of its queue, from whatever place; all else stays in order.
pub remove_from_queue-Listed :
    (s : Scheduler) (t : Ptr) (ls : Which → List Ptr) (xs ys : List Ptr)
    → Listed s ls
    → ls (queue_of (s.tasks t)) ≡ xs ++ t ∷ ys
    → length (xs ++ t ∷ ys) < 2 ^ 32
    → Listed (remove_from_queue s t) (set_list ls (queue_of (s.tasks t)) (xs ++ ys))
unfolding remove_from_queue
remove_from_queue-Listed s t ls xs ys l at small =
    Listed-set s (remove s.tasks q t).0 (remove s.tasks q t).1 w (xs ++ ys) ls
      (remove-IsQueue s.tasks q t xs ys is small)
      (Placed-kept s.tasks (remove s.tasks q t).0 w (xs ++ ys) (remove-queue_of s.tasks q t)
        (Placed-append s.tasks w xs ys parts.0 parts.1.1))
      (λ v other. (
        IsQueue-kept s.tasks (remove s.tasks q t).0 (s.queues v) (ls v)
            (touched_by_remove s.tasks t) (remove-kept s.tasks q t xs ys is) (apart v other)
            (l.queue v),
        Placed-kept s.tasks (remove s.tasks q t).0 v (ls v) (remove-queue_of s.tasks q t)
            (l.placed v),
      ))
  where
    w : Which
    w = queue_of (s.tasks t)

    q : Queue
    q = s.queues w

    is : IsQueue s.tasks q (xs ++ t ∷ ys)
    is = subst (IsQueue s.tasks q) at (l.queue w)

    parts : Placed s.tasks w xs × Placed s.tasks w (t ∷ ys)
    parts = Placed-split s.tasks w xs (t ∷ ys) (subst (Placed s.tasks w) at (l.placed w))

    apart : (v : Which) → w ≢ v → Apart (touched_by_remove s.tasks t) (ls v)
    apart v other =
        let no_null =
          NotIn-null (λ a. (s.tasks a).next) (λ a. (s.tasks a).prev) null (ls v)
            (l.queue v).chain in
        let (nt, before, after) =
          Chain-neighbours (λ a. (s.tasks a).next) (λ a. (s.tasks a).prev) null t xs ys is.chain in
        (
          NotIn-Placed s.tasks t v (ls v) other (l.placed v),
          (
            no_null,
            (
              NotIn-other s.tasks _ w v (ls v)
                  (rw before (Placed-last_or-null s.tasks w xs parts.0)) other no_null (l.placed v),
              (
                NotIn-other s.tasks _ w v (ls v) (rw after (Placed-head s.tasks w ys parts.1.1))
                    other no_null (l.placed v),
                tt,
              ),
            ),
          ),
        )
