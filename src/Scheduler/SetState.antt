-- ===== src/Scheduler/SetState.antt =====
-- `sched_set_state`: `sched_sleep_task` and `sched_wake_task` from the look-up of the task on.
use polx.Base.{◌≡◌, Bool, true, false, List, [], ◌∷◌, ◌++◌, Ptr, add_word, sub_word}
use polx.Scheduler.{
  TaskState, ready, running, waiting, zombie, Which, sleep_q, Scheduler, queue_of, add_to_queue,
  remove_from_queue, set_task_state,
}
use polx.Scheduler.Lists.{Listed, set_list}
use polx.Scheduler.Preempt.{awake_q, counts}

-- the task ready in its queue, before it may run
abbrev requeued : Scheduler → Ptr → Scheduler
requeued s t =
    let out = remove_from_queue s t in
    add_to_queue
      (record (set_task_state out t ready) {
        running_tasks = add_word out.running_tasks 1;
        sleeping_tasks = sub_word out.sleeping_tasks 1;
      })
      t

abbrev pub is_waiting : TaskState → Bool
is_waiting waiting = true
is_waiting ready = false
is_waiting running = false
is_waiting zombie = false

-- What is left when task `t` is woken (`mode` is true) or put to sleep, where it stood between `xs` and `ys`.
abbrev pub After :
    (s : Scheduler) (ls : Which → List Ptr) (t : Ptr) (xs ys : List Ptr)
    → (mode asleep : Bool) → Scheduler
    → Type 0
After s ls t xs ys true false u = u ≡ s
After s ls t xs ys false true u = u ≡ s
After s ls t xs ys true true u =
    let w = awake_q (s.tasks t).priority in
    Listed u (set_list (set_list ls (queue_of (s.tasks t)) (xs ++ ys)) w (ls w ++ t ∷ []))
    × (counts u ≡ (add_word s.running_tasks 1, sub_word s.sleeping_tasks 1))
After s ls t xs ys false false u =
    Listed u
      (set_list (set_list ls (queue_of (s.tasks t)) (xs ++ ys)) sleep_q (ls sleep_q ++ t ∷ []))
    × (counts u ≡ (sub_word s.running_tasks 1, add_word s.sleeping_tasks 1))
