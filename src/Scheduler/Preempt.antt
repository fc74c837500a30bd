-- ===== src/Scheduler/Preempt.antt =====
-- A change of state of a task, and the switch to a task of higher priority.
use polx.Base.{
  ℕ, ◌≡◌, refl, sym, ◌∙◌, ◌≢◌, inl, inr, not, ◌&&◌, List, [], arith, ℕ_discrete, ◌==◌,
  if◌then◌else◌, ne→==, ==_self, Bool-cases, Ptr, null,
}
use mathlib.Core.Path.{subst}
use polx.Scheduler.{
  TaskState, ready, running, waiting, zombie, Task, Priority, os, user, Tasks, Which, os_q, user_q,
  sleep_q, Scheduler, Queue, is_os, queue_of, set_next, set_prev, unlink, remove, remove_from_queue,
  set_task_state, switch_to, preempt,
}
use polx.Scheduler.Lists.{Listed, IsQueue-kept, Placed-kept}

-- A task's priority stays when links change.
set_next-priority : (h : Tasks) (p v a : Ptr) → (set_next h p v a).priority ≡ (h a).priority
set_next-priority h p v a = ground arith

set_prev-priority : (h : Tasks) (p v a : Ptr) → (set_prev h p v a).priority ≡ (h a).priority
set_prev-priority h p v a = ground arith

unlink-priority :
    (h : Tasks) (q : Queue) (t a : Ptr) → ((unlink h q t).0 a).priority ≡ (h a).priority
unfolding unlink
unlink-priority h q t a = elim (Bool-cases (q.first == t)) [
  | inl first ↦ elim (Bool-cases ((h t).next == null)) [
    | inl alone ↦ rw first (rw alone refl)
    | inr more ↦ rw first (rw more (set_prev-priority h (h t).next null a))
  ]
  | inr later ↦ elim (Bool-cases (q.last == t)) [
    | inl last ↦ rw later (rw last (set_next-priority h (h t).prev null a))
    | inr inside ↦ rw later (
        rw inside (
          set_prev-priority (set_next h (h t).prev (h t).next) _ _ a
          ∙ set_next-priority h (h t).prev (h t).next a))
  ]
]

pub remove-priority :
    (s : Scheduler) (t : Ptr) → ((remove_from_queue s t).tasks t).priority ≡ (s.tasks t).priority
unfolding remove_from_queue remove
remove-priority s t =
    let q = s.queues (queue_of (s.tasks t)) in
    let h = (unlink s.tasks q t).0 in
    set_next-priority (set_prev h t null) t null t
    ∙ set_prev-priority h t null t
    ∙ unlink-priority s.tasks q t t

-- the queue of an awake task
abbrev pub awake_q : Priority → Which
awake_q p = if is_os p then os_q else user_q

pub now_awake :
    (s : Scheduler) (t : Ptr) (st : TaskState)
    → st ≢ waiting
    → queue_of ((set_task_state s t st).tasks t) ≡ awake_q (s.tasks t).priority
unfolding queue_of
now_awake s t waiting ne = absurd (ne refl)
now_awake s t ready ne = rw (==_self t) refl
now_awake s t running ne = rw (==_self t) refl
now_awake s t zombie ne = rw (==_self t) refl

-- A change of state that keeps the queue of a task keeps the lists.
set_task_state-Listed :
    (s : Scheduler) (t : Ptr) (st : TaskState) (ls : Which → List Ptr)
    → queue_of ((set_task_state s t st).tasks t) ≡ queue_of (s.tasks t)
    → Listed s ls
    → Listed (set_task_state s t st) ls
set_task_state-Listed s t st ls same l =
    let h = (set_task_state s t st).tasks in
    record {
      queue = λ w.
          IsQueue-kept s.tasks h (s.queues w) (ls w) [] (λ a ne. (ground arith, ground arith)) tt
            (l.queue w);
      placed = λ w.
          Placed-kept s.tasks h w (ls w)
            (λ a. elim (ℕ_discrete t a) [
              | yes e ↦ subst (λ b. queue_of (h b) ≡ queue_of (s.tasks b)) e same
              | no ne ↦ rw (ne→== t a ne) refl
            ])
            (l.placed w);
    }

queue_of-awake : (x : Task) → queue_of x ≢ sleep_q → queue_of x ≡ awake_q x.priority
unfolding queue_of
queue_of-awake x ne = go x.state refl
  where
    go : (st : TaskState) → x.state ≡ st → queue_of x ≡ awake_q x.priority
    go waiting e = absurd (ne (rw e refl))
    go ready e = rw e refl
    go running e = rw e refl
    go zombie e = rw e refl

pub awake_q-awake : (p : Priority) → awake_q p ≢ sleep_q
awake_q-awake os e = cc
awake_q-awake user e = cc

-- From one awake state to another, the queue stays.
stays_awake :
    (s : Scheduler) (t : Ptr) (st : TaskState)
    → st ≢ waiting
    → queue_of (s.tasks t) ≢ sleep_q
    → queue_of ((set_task_state s t st).tasks t) ≡ queue_of (s.tasks t)
stays_awake s t st ne awake = now_awake s t st ne ∙ sym (queue_of-awake (s.tasks t) awake)

running-awake : (x : Task) → x.state ≡ running → queue_of x ≢ sleep_q
unfolding queue_of
running-awake x e = rw e (awake_q-awake x.priority)

-- The task that ran is made ready.
demoted-Listed :
    (s : Scheduler) (ls : Which → List Ptr) (t : Ptr)
    → queue_of (s.tasks t) ≢ sleep_q
    → (s.tasks s.actual_task).state ≡ running
    → Listed s ls
    → let u = set_task_state s s.actual_task ready in Listed u ls × (queue_of (u.tasks t) ≢ sleep_q)
demoted-Listed s ls t awake ran l =
    let a = s.actual_task in
    let same = stays_awake s a ready (λ e. cc) (running-awake (s.tasks a) ran) in
    (
      set_task_state-Listed s a ready ls same l,
      elim (ℕ_discrete a t) [
        | yes e ↦
            subst (λ b. queue_of ((set_task_state s a ready).tasks b) ≢ sleep_q) e
              (λ k. running-awake (s.tasks a) ran (sym same ∙ k))
        | no ne ↦ rw (ne→== a t ne) awake
      ],
    )

promoted-Listed :
    (s : Scheduler) (ls : Which → List Ptr) (t : Ptr)
    → queue_of (s.tasks t) ≢ sleep_q
    → Listed s ls
    → Listed (set_task_state s t running) ls
promoted-Listed s ls t awake l =
    set_task_state-Listed s t running ls (stays_awake s t running (λ e. cc) awake) l

relist :
    {s u : Scheduler} {ls : Which → List Ptr}
    → s.tasks ≡ u.tasks
    → s.queues ≡ u.queues
    → Listed s ls
    → Listed u ls
relist {s} {u} {ls} e q l = record {
  queue = λ w. rw (← e) (rw (← q) (l.queue w));
  placed = λ w. rw (← e) (l.placed w);
}

switch_to-Listed :
    (s : Scheduler) (ls : Which → List Ptr) (t : Ptr)
    → queue_of (s.tasks t) ≢ sleep_q
    → Listed s ls
    → Listed (switch_to s t) ls
unfolding switch_to
switch_to-Listed s ls t awake l = go (s.tasks s.actual_task).state refl
  where
    plain : Listed (set_task_state s t running) ls
    plain = promoted-Listed s ls t awake l

    go : (st : TaskState) → (s.tasks s.actual_task).state ≡ st → Listed (switch_to s t) ls
    go running e =
        let (u, still) = demoted-Listed s ls t awake e l in
        rw e
          (relist refl refl (promoted-Listed (set_task_state s s.actual_task ready) ls t still u))
    go ready e = rw e (relist refl refl plain)
    go waiting e = rw e (relist refl refl plain)
    go zombie e = rw e (relist refl refl plain)

pub preempt-Listed :
    (s : Scheduler) (ls : Which → List Ptr) (t : Ptr)
    → queue_of (s.tasks t) ≢ sleep_q
    → Listed s ls
    → Listed (preempt s t) ls
unfolding preempt
preempt-Listed s ls t awake l =
    elim (Bool-cases (is_os (s.tasks t).priority && not (is_os (s.tasks s.actual_task).priority))) [
      | inl higher ↦ rw higher (
          switch_to-Listed (record s { next_to_run = (s.tasks s.actual_task).next }) ls t awake
            (relist refl refl l))
      | inr lower ↦ rw lower l
    ]

-- the two counters of tasks
abbrev pub counts : Scheduler → ℕ × ℕ
counts s = (s.running_tasks, s.sleeping_tasks)

counts-switch_to : (s : Scheduler) (t : Ptr) → counts (switch_to s t) ≡ counts s
unfolding switch_to
counts-switch_to s t = go (s.tasks s.actual_task).state refl
  where
    go : (st : TaskState) → (s.tasks s.actual_task).state ≡ st → counts (switch_to s t) ≡ counts s
    go running e = rw e refl
    go ready e = rw e refl
    go waiting e = rw e refl
    go zombie e = rw e refl

pub counts-preempt : (s : Scheduler) (t : Ptr) → counts (preempt s t) ≡ counts s
unfolding preempt
counts-preempt s t =
    elim (Bool-cases (is_os (s.tasks t).priority && not (is_os (s.tasks s.actual_task).priority))) [
      | inl higher ↦
          rw higher (counts-switch_to (record s { next_to_run = (s.tasks s.actual_task).next }) t)
      | inr lower ↦ rw lower refl
    ]
