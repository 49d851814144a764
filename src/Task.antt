-- ===== src/Task.antt =====
-- The scheduler of src/drivers/task.c. A pointer to a task is a number: 0 is NULL, and `i + 1` is
-- `&task_pool[i]`. The tick count of the timer is an argument, `now`.
pub mod Queue
pub mod Invariant
pub mod Dequeue
pub mod Requeue
pub mod Removal
pub mod Schedule
pub mod Calls
pub mod System
mod Tests
use rpi4_bare_metal_os.Prelude.{
  ℕ, zero, suc, ◌+◌, ◌-◌, ◌*◌, ◌/◌, ◌%◌, ◌^◌, Bool, true, false, ◌&&◌, not, Option, none, some,
  List, [], ltb, leb, ◌==◌, if◌then◌else◌, update, ◌>>=◌,
}

pub data TaskState : Type 0 where
  ready running blocked dead : TaskState

-- `task_t`. A name is its bytes up to the NUL, and the stack is its words by index.
pub record Task : Type 0 where
  pub sp : ℕ
  pub stack : ℕ → ℕ
  pub state : TaskState
  pub id : ℕ
  pub name : List ℕ
  pub sleep_until : ℕ
  pub next : ℕ

pub record Scheduler : Type 0 where
  pub task_pool : ℕ → Task
  pub current_task : ℕ
  pub ready_queue_head : ℕ
  pub next_task_id : ℕ

abbrev pub max_tasks : ℕ
max_tasks = 8

-- A walk along the queue meets a task twice after this many steps: then it never ends.
abbrev pub queue_fuel : ℕ
queue_fuel = 9

abbrev pub is_ready : TaskState → Bool
is_ready ready = true
is_ready _ = false

abbrev pub is_running : TaskState → Bool
is_running running = true
is_running _ = false

abbrev pub is_blocked : TaskState → Bool
is_blocked blocked = true
is_blocked _ = false

abbrev pub is_dead : TaskState → Bool
is_dead dead = true
is_dead _ = false

-- `p->… = …`
abbrev pub put : Scheduler → ℕ → Task → Scheduler
put s p t = record s { task_pool = update s.task_pool p t }

abbrev pub set_next : Scheduler → ℕ → ℕ → Scheduler
set_next s p n = put s p (record (s.task_pool p) { next = n })

abbrev pub set_state : Scheduler → ℕ → TaskState → Scheduler
set_state s p st = put s p (record (s.task_pool p) { state = st })

-- `while (t->next) t = t->next;`
unfoldable pub last : (fuel : ℕ) → (ℕ → Task) → ℕ → Option ℕ
last zero pool t = none
last (suc fuel) pool t = elim ((pool t).next == 0) [
  | true ↦ some t
  | false ↦ last fuel pool (pool t).next
]

unfoldable pub enqueue_task : ℕ → Scheduler → Option Scheduler
enqueue_task task s =
    let s' : Scheduler = set_next s task 0 in
    if s'.ready_queue_head == 0
    then some (record s' { ready_queue_head = task })
    else do t ← last queue_fuel s'.task_pool s'.ready_queue_head; some (set_next s' t task)

-- `if (prev) prev->next = task->next; else ready_queue_head = task->next; task->next = 0;`
unfoldable pub unlink : (prev task : ℕ) → Scheduler → Scheduler
unlink prev task s =
    let next : ℕ = (s.task_pool task).next in
    let s' : Scheduler =
      if prev == 0 then record s { ready_queue_head = next } else set_next s prev next in
    set_next s' task 0

-- A blocked task whose time has come is made ready.
unfoldable pub wake : (now task : ℕ) → Scheduler → Scheduler
wake now task s =
    if is_blocked (s.task_pool task).state && leb (s.task_pool task).sleep_until now
    then set_state s task ready
    else s

unfoldable pub dequeue_loop : (fuel now prev task : ℕ) → Scheduler → Option (Scheduler × ℕ)
dequeue_loop zero now prev task s = none
dequeue_loop (suc fuel) now prev task s = elim (task == 0) [
  | true ↦ some (s, 0)
  | false ↦
      let s' : Scheduler = wake now task s in
      elim (is_ready (s'.task_pool task).state) [
        | true ↦ some (unlink prev task s', task)
        | false ↦ dequeue_loop fuel now task (s'.task_pool task).next s'
      ]
]

unfoldable pub dequeue_ready_task : ℕ → Scheduler → Option (Scheduler × ℕ)
dequeue_ready_task now s = dequeue_loop queue_fuel now 0 s.ready_queue_head s

unfoldable pub remove_loop : (fuel target prev task : ℕ) → Scheduler → Option Scheduler
remove_loop zero target prev task s = none
remove_loop (suc fuel) target prev task s = elim (task == 0) [
  | true ↦ some s
  | false ↦ elim (task == target) [
    | true ↦ some (unlink prev task s)
    | false ↦ remove_loop fuel target task (s.task_pool task).next s
  ]
]

unfoldable pub remove_from_queue : ℕ → Scheduler → Option Scheduler
remove_from_queue target s = remove_loop queue_fuel target 0 s.ready_queue_head s

-- `current_task->sp = old_sp;`
unfoldable pub save_sp : ℕ → Scheduler → Scheduler
save_sp old_sp s = put s s.current_task (record (s.task_pool s.current_task) { sp = old_sp })

-- A task that was running goes to the back of the queue.
unfoldable pub requeue : Scheduler → Option Scheduler
requeue s =
    if is_running (s.task_pool s.current_task).state
    then enqueue_task s.current_task (set_state s s.current_task ready)
    else some s

-- The task that was dequeued runs; where it is NULL, the interrupted task `prev` goes on.
unfoldable pub switch_to : (prev : ℕ) → Scheduler × ℕ → Scheduler × ℕ
switch_to prev (s, next) =
    if next == 0
    then (record (set_state s prev running) { current_task = prev }, (s.task_pool prev).sp)
    else (record (set_state s next running) { current_task = next }, (s.task_pool next).sp)

-- The answer is the stack pointer to go on with.
unfoldable pub schedule_irq : (now old_sp : ℕ) → Scheduler → Option (Scheduler × ℕ)
schedule_irq now old_sp s = if s.current_task == 0 then some (s, old_sp) else do
  queued ← requeue (save_sp old_sp s)
  dequeued ← dequeue_ready_task now queued
  some (switch_to s.current_task dequeued)
