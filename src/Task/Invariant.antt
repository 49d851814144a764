-- ===== src/Task/Invariant.antt =====
-- The invariant of the scheduler: the ready queue is a list without repetitions that holds just the
-- tasks that wait for the processor, and at most the current task runs.
use rpi4_bare_metal_os.Prelude.{ℕ, ◌≤◌, ◌<◌, ◌≡◌, ◌≢◌, Bool, true, false, List}
use rpi4_bare_metal_os.Links.{has, Distinct, Chain}
use rpi4_bare_metal_os.Task.{TaskState, ready, running, blocked, Scheduler, max_tasks}

abbrev pub next_of : Scheduler → ℕ → ℕ
next_of s p = (s.task_pool p).next

abbrev pub state_of : Scheduler → ℕ → TaskState
state_of s p = (s.task_pool p).state

-- a task that waits for the processor, or for its time
abbrev pub waits : TaskState → Bool
waits ready = true
waits blocked = true
waits _ = false

-- `&task_pool[0]` to `&task_pool[MAX_TASKS - 1]`
abbrev pub IsTask : ℕ → Type 0
IsTask p = (0 < p) × (p ≤ max_tasks)

-- The links of the queue.
pub record IsQueue (s : Scheduler) (queue : List ℕ) : Type 0 where
  pub chain : Chain (next_of s) s.ready_queue_head queue
  pub distinct : Distinct queue
  pub members : (p : ℕ) → has p queue ≡ true → IsTask p

-- Only links have changed, not those of `current_task`.
pub record Relinked (s s' : Scheduler) : Type 0 where
  pub tasks : (p : ℕ) → s'.task_pool p ≡ record (s.task_pool p) { next = next_of s' p }
  pub current : s'.current_task ≡ s.current_task
  pub ids : s'.next_task_id ≡ s.next_task_id

pub record IsScheduler (s : Scheduler) (queue : List ℕ) : Type 0 where
  pub queue_ok : IsQueue s queue
  pub waiting : (p : ℕ) → IsTask p → has p queue ≡ waits (state_of s p)
  pub current : IsTask s.current_task
  pub not_ready : state_of s s.current_task ≢ ready
  pub one_runs : (p : ℕ) → IsTask p → state_of s p ≡ running → p ≡ s.current_task
