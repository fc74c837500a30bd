-- ===== src/Scheduler.antt =====
-- The scheduler's queues, src/kernel/cpu/scheduler.c. Tasks are a store of records by address, and a
-- switch of tasks is what `task_switch_to` is called with: the newest switch first. The counters are
-- 32-bit words.
pub mod Chains
pub mod Lists
pub mod State
pub mod Preempt
pub mod SetState
mod Tests
use polx.Base.{
  ℕ, zero, suc, Bool, true, false, not, ◌&&◌, List, ◌∷◌, ltb, ◌==◌, if◌then◌else◌, Ptr, null,
  update, add_word, sub_word, Outcome, done, fault, out_of_fuel, ◌>>=◌,
}

pub data TaskState : Type 0 where
  ready : TaskState
  running : TaskState
  waiting : TaskState
  zombie : TaskState

pub data Priority : Type 0 where
  user : Priority
  os : Priority

pub record Task : Type 0 where
  pub task_id : ℕ
  pub state : TaskState
  pub priority : Priority
  pub next : Ptr
  pub prev : Ptr

abbrev pub Tasks : Type 0
Tasks = Ptr → Task

pub record Queue : Type 0 where
  pub counter : ℕ
  pub first : Ptr
  pub last : Ptr

-- which of the static queues
pub data Which : Type 0 where
  os_q : Which
  user_q : Which
  sleep_q : Which

pub record Scheduler : Type 0 where
  pub tasks : Tasks
  pub queues : Which → Queue
  pub total_tasks : ℕ
  pub running_tasks : ℕ
  pub sleeping_tasks : ℕ
  pub actual_task : Ptr
  pub kernel_task : Ptr
  pub next_to_run : Ptr
  pub switches : List Ptr

abbrev pub is_os : Priority → Bool
is_os os = true
is_os user = false

-- `_set_queue`
unfoldable pub queue_of : Task → Which
queue_of t = elim t.state [
  | waiting ↦ sleep_q
  | ready ↦ if is_os t.priority then os_q else user_q
  | running ↦ if is_os t.priority then os_q else user_q
  | zombie ↦ if is_os t.priority then os_q else user_q
]

abbrev pub same_queue : Which → Which → Bool
same_queue os_q os_q = true
same_queue os_q user_q = false
same_queue os_q sleep_q = false
same_queue user_q os_q = false
same_queue user_q user_q = true
same_queue user_q sleep_q = false
same_queue sleep_q os_q = false
same_queue sleep_q user_q = false
same_queue sleep_q sleep_q = true

abbrev pub set_queue : (Which → Queue) → Which → Queue → Which → Queue
set_queue qs w q v = if same_queue w v then q else qs v

abbrev pub set_next : Tasks → Ptr → Ptr → Tasks
set_next h a v = update h a (record (h a) { next = v })

abbrev pub set_prev : Tasks → Ptr → Ptr → Tasks
set_prev h a v = update h a (record (h a) { prev = v })

-- `__find_in_queue`: the loop runs on fuel
unfoldable pub find_from : (fuel : ℕ) → Tasks → (task_id tmp : ℕ) → Outcome Ptr
find_from zero h task_id tmp = if tmp == null then done null else out_of_fuel
find_from (suc n) h task_id tmp =
    let rest = find_from n h task_id (h tmp).next in
    if tmp == null then done null else if (h tmp).task_id == task_id then done tmp else rest

-- `_add_to_queue`, of the queue that `_set_queue` gives
unfoldable pub append : Tasks → Queue → Ptr → Tasks × Queue
append h q t =
    let linked =
      if q.first == null then set_prev h t null else set_next (set_prev h t q.last) q.last t in
    (
      set_next linked t null,
      record {
        counter = add_word q.counter 1;
        first = if q.first == null then t else q.first;
        last = t;
      },
    )

unfoldable pub add_to_queue : Scheduler → Ptr → Scheduler
unfolding queue_of append
add_to_queue s t =
    let w = queue_of (s.tasks t) in
    let (h, q) = append s.tasks (s.queues w) t in
    record s { tasks = h; queues = set_queue s.queues w q }

-- the three cases of `_remove_from_queue`
unfoldable pub unlink : Tasks → Queue → Ptr → Tasks × Queue
unlink h q t =
    if q.first == t
    then (let first = (h t).next in
        (if first == null then h else set_prev h first null, record q { first = first }))
    else if q.last == t
    then (let last = (h t).prev in (set_next h last null, record q { last = last }))
    else (let joined = set_next h (h t).prev (h t).next in
        (set_prev joined (joined t).next (joined t).prev, q))

unfoldable pub remove : Tasks → Queue → Ptr → Tasks × Queue
unfolding unlink
remove h q t =
    let (g, r) = unlink h q t in
    (set_next (set_prev g t null) t null, record r { counter = sub_word r.counter 1 })

unfoldable pub remove_from_queue : Scheduler → Ptr → Scheduler
unfolding queue_of remove
remove_from_queue s t =
    let w = queue_of (s.tasks t) in
    let (h, q) = remove s.tasks (s.queues w) t in
    record s { tasks = h; queues = set_queue s.queues w q }

abbrev pub init_queue : Queue
init_queue = record { counter = 0; first = null; last = null }

-- `kern` is the task that `kmalloc` gives; its stack and registers are not in the model.
unfoldable pub init : Scheduler → (kern : Ptr) → Scheduler
init s kern = record s {
  tasks = update s.tasks kern (record (s.tasks kern) { task_id = 0; priority = os; next = null });
  queues = λ w. init_queue;
  total_tasks = 0;
  running_tasks = 0;
  sleeping_tasks = 0;
  kernel_task = kern;
  actual_task = kern;
  next_to_run = null;
}

unfoldable pub get_tcb : (fuel : ℕ) → Scheduler → (task_id : ℕ) → Outcome Ptr
unfolding find_from
get_tcb fuel s task_id = do
  asleep ← find_from fuel s.tasks task_id (s.queues sleep_q).first
  of_os ← find_from fuel s.tasks task_id (s.queues os_q).first
  of_user ← find_from fuel s.tasks task_id (s.queues user_q).first
  done (if not (asleep == null) then asleep else if not (of_os == null) then of_os else of_user)

unfoldable pub get_next_task : Scheduler → Ptr × Scheduler
get_next_task s =
    if ltb 0 (s.queues os_q).counter
    then (if not (s.next_to_run == null) && is_os (s.tasks s.next_to_run).priority
        then (s.next_to_run, record s { next_to_run = null })
        else ((s.queues os_q).first, s))
    else if ltb 0 (s.queues user_q).counter
    then (if not (s.next_to_run == null)
        then (s.next_to_run, record s { next_to_run = null })
        else ((s.queues user_q).first, s))
    else (s.kernel_task, s)

abbrev pub set_task_state : Scheduler → Ptr → TaskState → Scheduler
set_task_state s t st = record s { tasks = update s.tasks t (record (s.tasks t) { state = st }) }

-- `task_switch_to` of task.c, without the signal handler and the registers
unfoldable pub switch_to : Scheduler → Ptr → Scheduler
switch_to s t =
    let u : Scheduler = elim (s.tasks s.actual_task).state [
      | running ↦ set_task_state s s.actual_task ready
      | ready ↦ s
      | waiting ↦ s
      | zombie ↦ s
    ] in
    let v = set_task_state u t running in record v { actual_task = t; switches = t ∷ v.switches }

-- Switch to a task of higher priority.
unfoldable pub preempt : Scheduler → Ptr → Scheduler
unfolding switch_to
preempt s t =
    if is_os (s.tasks t).priority && not (is_os (s.tasks s.actual_task).priority)
    then switch_to (record s { next_to_run = (s.tasks s.actual_task).next }) t
    else s

unfoldable pub add_task : Scheduler → Ptr → Scheduler
unfolding add_to_queue preempt
add_task s tcb =
    let counted = record (set_task_state s tcb ready) {
      total_tasks = add_word s.total_tasks 1;
      running_tasks = add_word s.running_tasks 1;
    } in
    preempt (add_to_queue counted tcb) tcb

unfoldable pub remove_task : Scheduler → Ptr → Scheduler
unfolding remove_from_queue
remove_task s tcb =
    let fewer = record s { total_tasks = sub_word s.total_tasks 1 } in
    elim (s.tasks tcb).state [
      | zombie ↦ fewer
      | running ↦
          remove_from_queue (record fewer { running_tasks = sub_word s.running_tasks 1 }) tcb
      | ready ↦ remove_from_queue (record fewer { running_tasks = sub_word s.running_tasks 1 }) tcb
      | waiting ↦
          remove_from_queue (record fewer { sleeping_tasks = sub_word s.sleeping_tasks 1 }) tcb
    ]

-- `sched_wake_task`, once the task is known to sleep (or to be a zombie)
unfoldable pub wake : Scheduler → Ptr → Scheduler
unfolding remove_from_queue add_to_queue preempt
wake s tcb =
    let out = remove_from_queue s tcb in
    let counted = record (set_task_state out tcb ready) {
      running_tasks = add_word out.running_tasks 1;
      sleeping_tasks = sub_word out.sleeping_tasks 1;
    } in
    preempt (add_to_queue counted tcb) tcb

-- `sched_sleep_task`, once the task is known not to sleep
unfoldable pub sleep : Scheduler → Ptr → Scheduler
unfolding remove_from_queue add_to_queue
sleep s tcb =
    let out = remove_from_queue s tcb in
    let counted = record (set_task_state out tcb waiting) {
      running_tasks = sub_word out.running_tasks 1;
      sleeping_tasks = add_word out.sleeping_tasks 1;
    } in
    add_to_queue counted tcb

-- `mode` is true to wake the task. The task that `sched_get_tcb` does not find is NULL, and its state is
-- read all the same.
unfoldable pub set_state :
    (fuel : ℕ) → Scheduler → (task_id : ℕ) → (mode : Bool) → Outcome Scheduler
unfolding get_tcb wake sleep
set_state fuel s task_id mode = get_tcb fuel s task_id >>= λ tcb.
    if tcb == null
    then fault
    else done (elim (s.tasks tcb).state [
      | ready ↦ if mode then s else sleep s tcb
      | running ↦ if mode then s else sleep s tcb
      | waiting ↦ if mode then wake s tcb else s
      | zombie ↦ if mode then wake s tcb else sleep s tcb
    ])
