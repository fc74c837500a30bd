-- ===== src/Scheduler/Tests.antt =====
-- Runs of the scheduler.
use polx.Base.{ℕ, ◌≡◌, refl, inl, inr, true, List, [], ◌∷◌, arith, Ptr, null, update, done}
use polx.Scheduler.{
  Task, ready, user, Tasks, Queue, Which, os_q, user_q, sleep_q, Scheduler, init_queue, queue_of,
  add_to_queue, find_from, get_tcb, set_state,
}
use polx.Scheduler.Chains.{IsQueue}
use polx.Scheduler.Lists.{Listed, Placed, set_list, add_to_queue-Listed}

-- three user tasks at 16, 32 and 48, of which two are queued
abbrev task : ℕ → Ptr → Ptr → Task
task id next prev = record {
  task_id = id;
  state = ready;
  priority = user;
  next = next;
  prev = prev;
}

abbrev tasks : Tasks
tasks = update (update (update (λ a. task 9 0 0) 48 (task 3 0 0)) 32 (task 2 0 16)) 16 (task 1 32 0)

abbrev queues : Which → Queue
queues os_q = init_queue
queues user_q = record { counter = 2; first = 16; last = 32 }
queues sleep_q = init_queue

abbrev lists : Which → List Ptr
lists os_q = []
lists user_q = 16 ∷ 32 ∷ []
lists sleep_q = []

abbrev two_tasks : Scheduler
two_tasks = record {
  tasks = tasks;
  queues = queues;
  total_tasks = 2;
  running_tasks = 2;
  sleeping_tasks = 0;
  actual_task = 16;
  kernel_task = 8;
  next_to_run = null;
  switches = [];
}

empty-IsQueue : IsQueue tasks init_queue []
empty-IsQueue = record { chain = tt; distinct = tt; first = refl; last = inl refl; count = refl }

queues-IsQueue : (w : Which) → IsQueue tasks (queues w) (lists w)
queues-IsQueue os_q = empty-IsQueue
queues-IsQueue user_q = record {
  chain = (omega arith, refl, refl, (omega arith, refl, refl, tt));
  distinct = ((omega arith, tt), (tt, tt));
  first = refl;
  last = inr refl;
  count = refl;
}
queues-IsQueue sleep_q = empty-IsQueue

lists-Placed : (w : Which) → Placed tasks w (lists w)
unfolding queue_of
lists-Placed os_q = tt
lists-Placed user_q = (refl, (refl, tt))
lists-Placed sleep_q = tt

two_tasks-Listed : Listed two_tasks lists
two_tasks-Listed = record { queue = queues-IsQueue; placed = lists-Placed }

-- a task that is awake is woken
woken_awake : set_state 2 two_tasks 2 true ≡ done two_tasks
unfolding set_state get_tcb find_from
woken_awake = refl

add_to_queue-Listed_example :
    Listed (add_to_queue two_tasks 48) (set_list lists user_q (16 ∷ 32 ∷ 48 ∷ []))
unfolding queue_of
add_to_queue-Listed_example =
    add_to_queue-Listed two_tasks 48 lists two_tasks-Listed (omega arith)
      (omega arith, (omega arith, tt)) (omega arith)
