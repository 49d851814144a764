-- ===== src/Task/Calls.antt =====
-- The calls of src/drivers/task.c: starting the scheduler, creating, killing, sleeping, exiting.
pub mod Frame
pub mod Create
pub mod Kill
pub mod Leave
use rpi4_bare_metal_os.Prelude.{
  ℕ, zero, suc, ◌+◌, ◌-◌, ◌*◌, ◌/◌, ◌%◌, ◌^◌, Bool, true, false, ◌&&◌, not, Option, none, some,
  List, [], ◌∷◌, ltb, leb, ◌==◌, if◌then◌else◌, update, ◌>>=◌,
}
use rpi4_bare_metal_os.Task.{
  TaskState, ready, running, blocked, dead, Task, Scheduler, max_tasks, is_dead, put, set_state,
  set_next, enqueue_task, remove_from_queue,
}

-- Addresses that the linker fixes: of the stack of each task, and of `task_exit_trampoline`.
pub record Layout : Type 0 where
  pub stack_addr : ℕ → ℕ
  pub task_exit_trampoline : ℕ

abbrev pub trapframe_size : ℕ
trapframe_size = 34

-- `&task->stack[1024]`, rounded down to 16 bytes, less the trapframe
abbrev pub frame_addr : ℕ → ℕ
frame_addr stack = (stack + 1024 * 8) / 16 * 16 - trapframe_size * 8

-- The index in the stack of the first word of the trapframe.
abbrev pub frame_index : ℕ → ℕ
frame_index stack = (frame_addr stack - stack) / 8

-- `for (i = 0; i < n; i++) tf[i] = 0;`
unfoldable pub clear_words : (n k : ℕ) → (ℕ → ℕ) → ℕ → ℕ
clear_words zero k words = words
clear_words (suc n) k words = clear_words n (k + 1) (update words k 0)

unfoldable pub init_task_trapframe : Layout → (p entry_point : ℕ) → Task → Task
init_task_trapframe layout p entry_point task =
    let k : ℕ = frame_index (layout.stack_addr p) in
    let zeroed : ℕ → ℕ = clear_words trapframe_size k task.stack in
    let linked : ℕ → ℕ = update zeroed (k + 30) layout.task_exit_trampoline in
    record task {
      stack = update (update linked (k + 31) entry_point) (k + 32) 5;
      sp = frame_addr (layout.stack_addr p);
    }

-- `"shell"`
abbrev pub shell_name : List ℕ
shell_name = b's' ∷ b'h' ∷ b'e' ∷ b'l' ∷ b'l' ∷ []

-- The first loop of scheduler_init.
unfoldable pub reset_tasks : (n p : ℕ) → (ℕ → Task) → ℕ → Task
reset_tasks zero p pool = pool
reset_tasks (suc n) p pool =
    reset_tasks n (p + 1)
      (update pool p (record (pool p) { state = dead; id = 0; next = 0; name = [] }))

-- The context that calls it becomes task 0, the shell.
unfoldable pub scheduler_init : Scheduler → Scheduler
scheduler_init s =
    let pool : ℕ → Task = reset_tasks max_tasks 1 s.task_pool in
    record {
      task_pool = update pool 1 (record (pool 1) {
        id = 0;
        state = running;
        sleep_until = 0;
        next = 0;
        name = shell_name;
        sp = 0;
      });
      current_task = 1;
      ready_queue_head = 0;
      next_task_id = 1;
    }

-- The first dead task of the pool, or NULL.
unfoldable pub find_dead : (n p : ℕ) → (ℕ → Task) → ℕ
find_dead zero p pool = 0
find_dead (suc n) p pool = if is_dead (pool p).state then p else find_dead n (p + 1) pool

-- No slot is free: a message is printed, and nothing else happens. `next_task_id` is 32 bits wide.
unfoldable pub task_create : Layout → (entry_point : ℕ) → List ℕ → Scheduler → Option Scheduler
task_create layout entry_point name s =
    let p : ℕ = find_dead max_tasks 1 s.task_pool in
    let task : Task = record (s.task_pool p) {
      id = s.next_task_id;
      state = ready;
      sleep_until = 0;
      next = 0;
      name = name;
    } in
    if p == 0
    then some s
    else enqueue_task p (
        put (record s { next_task_id = (s.next_task_id + 1) % 2 ^ 32 }) p
          (init_task_trapframe layout p entry_point task))

-- The first task of the pool with that number that is not dead, or NULL.
unfoldable pub find_id : (n p id : ℕ) → (ℕ → Task) → ℕ
find_id zero p id pool = 0
find_id (suc n) p id pool =
    if (pool p).id == id && not (is_dead (pool p).state) then p else find_id n (p + 1) id pool

-- What task_kill does with the task that it found: `true` is the answer 0, and `false` is -1, for no
-- task, the shell and the caller itself.
unfoldable pub kill_found : ℕ → Scheduler → Option (Scheduler × Bool)
kill_found p s =
    if p == 0
    then some (s, false)
    else (if p == 1
        then some (s, false)
        else (if p == s.current_task
            then some (s, false)
            else do s' ← remove_from_queue p s; some (set_next (set_state s' p dead) p 0, true)))

unfoldable pub task_kill : ℕ → Scheduler → Option (Scheduler × Bool)
task_kill id s = kill_found (find_id max_tasks 1 id s.task_pool) s

-- task_sleep up to its wait: the loop that follows spins until the state is no longer BLOCKED. The
-- milliseconds and their sum with 99 are 32 bits wide.
unfoldable pub task_sleep : (now ms : ℕ) → Scheduler → Option Scheduler
task_sleep now ms s =
    let p : ℕ = s.current_task in
    if p == 0
    then some s
    else enqueue_task p (
        put s p (record (s.task_pool p) {
          sleep_until = (now + (ms + 99) % 2 ^ 32 / 100) % 2 ^ 64;
          state = blocked;
        }))

-- task_exit, and the trampoline a task returns to, up to their endless wait.
unfoldable pub task_exit : Scheduler → Scheduler
task_exit s = if s.current_task == 0 then s else set_state s s.current_task dead
