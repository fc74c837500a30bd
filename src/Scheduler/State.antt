-- ===== src/Scheduler/State.antt =====
-- What the operations of the scheduler do to the queues.
use polx.Base.{
  ℕ, zero, suc, ◌+◌, ◌^◌, ◌≤◌, ◌<◌, ◌≡◌, refl, sym, ◌≢◌, inl, inr, true, false, not, List, [], ◌∷◌,
  ◌++◌, arith, ltb, ◌==◌, if◌then◌else◌, Bool-cases, length, Ptr, null, update, add_word, sub_word,
  done, head, NotIn, Distinct, Chain, NotIn-append, Chain-kept,
}
use mathlib.Core.Path.{subst}
use polx.Scheduler.{
  TaskState, waiting, Tasks, Which, os_q, user_q, sleep_q, Scheduler, queue_of, find_from,
  add_to_queue, remove_from_queue, get_tcb, get_next_task, set_task_state, sleep,
}
use polx.Scheduler.Lists.{
  Which-cases, Listed, Placed, set_list, NotIn-Placed, add_to_queue-Listed,
  remove_from_queue-Listed,
}

-- the first task of a list with the id, or NULL
abbrev pub first_with : Tasks → ℕ → List Ptr → Ptr
first_with h task_id [] = null
first_with h task_id (t ∷ ts) = if (h t).task_id == task_id then t else first_with h task_id ts

find_from-first_with :
    (fuel : ℕ) (h : Tasks) (task_id : ℕ) (p : Ptr) (ts : List Ptr)
    → Chain (λ a. (h a).next) (λ a. (h a).prev) p ts
    → length ts ≤ fuel
    → find_from fuel h task_id (head ts) ≡ done (first_with h task_id ts)
unfolding find_from
find_from-first_with zero h task_id p [] c f = refl
find_from-first_with (suc n) h task_id p [] c f = refl
find_from-first_with zero h task_id p (t ∷ ts) c f = absurd (omega arith)
find_from-first_with (suc n) h task_id p (t ∷ ts) c f =
    let nonnull : (t == null) ≡ false = ground (arith, c.0) in
    rw (nonnull, c.2, find_from-first_with n h task_id t ts c.3 (omega arith))
      (elim (Bool-cases ((h t).task_id == task_id)) [ inl e ↦ rw e refl | inr e ↦ rw e refl ])

first_with-append :
    (h : Tasks) (task_id : ℕ) (p : Ptr) (xs ys : List Ptr)
    → Chain (λ a. (h a).next) (λ a. (h a).prev) p xs
    → first_with h task_id (xs ++ ys) ≡ (
        if not (first_with h task_id xs == null)
        then first_with h task_id xs
        else first_with h task_id ys)
first_with-append h task_id p [] ys c = refl
first_with-append h task_id p (t ∷ xs) ys c = elim (Bool-cases ((h t).task_id == task_id)) [
  | inl e ↦ (let nonnull : (t == null) ≡ false = ground (arith, c.0) in rw e (rw nonnull refl))
  | inr e ↦ rw e (first_with-append h task_id t xs ys c.3)
]

find_in_queue :
    (fuel : ℕ) (s : Scheduler) (ls : Which → List Ptr) (task_id : ℕ) (w : Which)
    → Listed s ls
    → length (ls w) ≤ fuel
    → find_from fuel s.tasks task_id (s.queues w).first ≡ done (first_with s.tasks task_id (ls w))
find_in_queue fuel s ls task_id w l f =
    rw ((l.queue w).first)
      (find_from-first_with fuel s.tasks task_id null (ls w) (l.queue w).chain f)

-- Where the queues are well linked, `sched_get_tcb` finds the first task with the id, among the sleeping ones first, then those of the
-- system, then the others; it gives NULL if there is none. As many rounds as the longest queue are enough.
pub get_tcb-first_with :
    (fuel : ℕ) (s : Scheduler) (ls : Which → List Ptr) (task_id : ℕ)
    → Listed s ls
    → ((w : Which) → length (ls w) ≤ fuel)
    → get_tcb fuel s task_id
      ≡ done (first_with s.tasks task_id (ls sleep_q ++ (ls os_q ++ ls user_q)))
unfolding get_tcb
get_tcb-first_with fuel s ls task_id l f =
    rw
      (
        find_in_queue fuel s ls task_id sleep_q l (f sleep_q),
        find_in_queue fuel s ls task_id os_q l (f os_q),
        find_in_queue fuel s ls task_id user_q l (f user_q),
        first_with-append s.tasks task_id null (ls sleep_q) (ls os_q ++ ls user_q)
            (l.queue sleep_q).chain,
        first_with-append s.tasks task_id null (ls os_q) (ls user_q) (l.queue os_q).chain,
      )
      refl

-- Where the queues are well linked and no task was put aside, `sched_get_next_task` is the first task of the
-- system, or else the first other task, or else the kernel's, and changes nothing.
pub get_next_task-head :
    (s : Scheduler) (ls : Which → List Ptr)
    → Listed s ls
    → s.next_to_run ≡ null
    → get_next_task s ≡ (
      if ltb 0 (length (ls os_q))
          then head (ls os_q)
          else if ltb 0 (length (ls user_q))
          then head (ls user_q)
          else s.kernel_task,
      s,
    )
unfolding get_next_task
get_next_task-head s ls l none_aside =
    rw
      (
        (l.queue os_q).count,
        (l.queue user_q).count,
        none_aside,
        (l.queue os_q).first,
        (l.queue user_q).first,
      )
      (elim (Bool-cases (ltb 0 (length (ls os_q)))) [
        | inl some_os ↦ rw some_os refl
        | inr no_os ↦ elim (Bool-cases (ltb 0 (length (ls user_q)))) [
          | inl some_user ↦ rw no_os (rw some_user refl)
          | inr no_user ↦ rw no_os (rw no_user refl)
        ]
      ])

NotIn-cut : (t : Ptr) (xs ys : List Ptr) → Distinct (xs ++ t ∷ ys) → NotIn t (xs ++ ys)
NotIn-cut t [] ys d = d.0
NotIn-cut t (x ∷ xs) ys d =
    ((λ e. (NotIn-append x xs (t ∷ ys) d.0).1.0 (sym e)), NotIn-cut t xs ys d.1)

-- A task that is in no queue changes its state.
Placed-state :
    (h : Tasks) (t : Ptr) (st : TaskState) (w : Which) (ts : List Ptr)
    → NotIn t ts
    → Placed h w ts
    → Placed (update h t (record (h t) { state = st })) w ts
Placed-state h t st w [] out p = tt
Placed-state h t st w (u ∷ ts) out p =
    let other : (t == u) ≡ false = ground (arith, out.0) in
    (rw other p.0, Placed-state h t st w ts out.1 p.1)

set_task_state-Listed :
    (s : Scheduler) (t : Ptr) (st : TaskState) (ls : Which → List Ptr)
    → Listed s ls
    → ((w : Which) → NotIn t (ls w))
    → Listed (set_task_state s t st) ls
set_task_state-Listed s t st ls l out = record {
  queue = λ w.
      (let is = l.queue w in
        record {
          chain =
              Chain-kept (λ a. (s.tasks a).next) (λ a. (s.tasks a).prev) _ _ null (ls w) (t ∷ [])
                (λ a ne. let far = ne.0 in (ground (arith, far), ground (arith, far))) (out w, tt)
                is.chain;
          distinct = is.distinct;
          first = is.first;
          last = is.last;
          count = is.count;
        });
  placed = λ w. Placed-state s.tasks t st w (ls w) (out w) (l.placed w);
}

-- Out of its queue and with a new state, the task is in no queue.
taken_out-Listed :
    (s : Scheduler) (t : Ptr) (st : TaskState) (ls : Which → List Ptr) (xs ys : List Ptr)
    → Listed s ls
    → ls (queue_of (s.tasks t)) ≡ xs ++ t ∷ ys
    → length (xs ++ t ∷ ys) < 2 ^ 32
    → let ks = set_list ls (queue_of (s.tasks t)) (xs ++ ys) in
      Listed (set_task_state (remove_from_queue s t) t st) ks × ((w : Which) → NotIn t (ks w))
taken_out-Listed s t st ls xs ys l at small =
    let out : (v : Which) → NotIn t (set_list ls (queue_of (s.tasks t)) (xs ++ ys) v) = λ v.
      elim (Which-cases (queue_of (s.tasks t)) v) [
        | inl same ↦
            rw (same.1)
              (NotIn-cut t xs ys (subst Distinct at (l.queue (queue_of (s.tasks t))).distinct))
        | inr other ↦ rw (other.1) (NotIn-Placed s.tasks t v (ls v) other.0 (l.placed v))
      ] in
    (
      set_task_state-Listed (remove_from_queue s t) t st _
          (remove_from_queue-Listed s t ls xs ys l at small) out,
      out,
    )

-- From one queue to the end of another, with the counters set on the way.
pub requeued-Listed :
    (s : Scheduler) (t : Ptr) (st : TaskState) (w : Which) (run slp : ℕ) (ls : Which → List Ptr)
    (xs ys : List Ptr)
    → Listed s ls
    → t ≢ null
    → ls (queue_of (s.tasks t)) ≡ xs ++ t ∷ ys
    → length (xs ++ t ∷ ys) < 2 ^ 32
    → queue_of ((set_task_state (remove_from_queue s t) t st).tasks t) ≡ w
    → queue_of (s.tasks t) ≢ w
    → length (ls w) + 1 < 2 ^ 32
    → Listed
        (add_to_queue
          (record (set_task_state (remove_from_queue s t) t st) {
            running_tasks = run;
            sleeping_tasks = slp;
          })
          t)
        (set_list (set_list ls (queue_of (s.tasks t)) (xs ++ ys)) w (ls w ++ t ∷ []))
requeued-Listed s t st w run slp ls xs ys l nz at small to_w other room =
    let (taken, out) = taken_out-Listed s t st ls xs ys l at small in
    let kept : set_list ls (queue_of (s.tasks t)) (xs ++ ys) w ≡ ls w =
      elim (Which-cases (queue_of (s.tasks t)) w) [
        | inl same ↦ absurd (other same.0)
        | inr ne ↦ rw (ne.1) refl
      ] in
    subst
      (λ v.
        Listed
          (add_to_queue
            (record (set_task_state (remove_from_queue s t) t st) {
              running_tasks = run;
              sleeping_tasks = slp;
            })
            t)
          (set_list (set_list ls (queue_of (s.tasks t)) (xs ++ ys)) w (v ++ t ∷ [])))
      kept
      (subst
        (λ v.
          Listed
            (add_to_queue
              (record (set_task_state (remove_from_queue s t) t st) {
                running_tasks = run;
                sleeping_tasks = slp;
              })
              t)
            (set_list (set_list ls (queue_of (s.tasks t)) (xs ++ ys)) v
              (set_list ls (queue_of (s.tasks t)) (xs ++ ys) v ++ t ∷ [])))
        to_w
        (add_to_queue-Listed
          (record (set_task_state (remove_from_queue s t) t st) {
            running_tasks = run;
            sleeping_tasks = slp;
          })
          t (set_list ls (queue_of (s.tasks t)) (xs ++ ys))
          (record { queue = taken.queue; placed = taken.placed }) nz (out _)
          (rw to_w (rw kept room))))

now_asleep : (s : Scheduler) (t : Ptr) → queue_of ((set_task_state s t waiting).tasks t) ≡ sleep_q
unfolding queue_of
now_asleep s t = let same : (t == t) ≡ true = ground arith in rw same refl

-- Where the three queues are well linked, `sched_sleep_task` on a task that does not sleep moves it from any
-- place of its queue to the end of the sleeping ones; all others stay, in their order. No queue's counter may
-- overflow.
pub sleep-Listed :
    (s : Scheduler) (t : Ptr) (ls : Which → List Ptr) (xs ys : List Ptr)
    → Listed s ls
    → t ≢ null
    → queue_of (s.tasks t) ≢ sleep_q
    → ls (queue_of (s.tasks t)) ≡ xs ++ t ∷ ys
    → length (xs ++ t ∷ ys) < 2 ^ 32
    → length (ls sleep_q) + 1 < 2 ^ 32
    → Listed
        (sleep s t)
        (set_list (set_list ls (queue_of (s.tasks t)) (xs ++ ys)) sleep_q (ls sleep_q ++ t ∷ []))
unfolding sleep
sleep-Listed s t ls xs ys l nz awake at small room =
    requeued-Listed s t waiting sleep_q (sub_word s.running_tasks 1) (add_word s.sleeping_tasks 1)
      ls xs ys l nz at small (now_asleep (remove_from_queue s t) t) awake room
