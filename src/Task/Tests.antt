-- ===== src/Task/Tests.antt =====
-- The scheduler on concrete states: of scheduler_init, of a shell with two ready tasks, and of a
-- shell that sleeps.
use rpi4_bare_metal_os.Prelude.{
  ℕ, ◌+◌, ◌*◌, ◌/◌, ◌%◌, ◌^◌, ◌<◌, ◌≤◌, ◌≡◌, ◌≢◌, ◌⊎◌, refl, Bool, true, some, List, [], ◌∷◌, arith,
  if◌then◌else◌, ◌==◌,
}
use rpi4_bare_metal_os.Links.{has, Distinct, Chain}
use rpi4_bare_metal_os.Task.{
  ready, running, blocked, dead, Task, Scheduler, dequeue_ready_task, schedule_irq,
}
use rpi4_bare_metal_os.Task.Invariant.{next_of, state_of, IsTask, IsScheduler}
use rpi4_bare_metal_os.Links.Search.{first_of}
use rpi4_bare_metal_os.Task.Dequeue.{runnable, Dequeued, dequeue_ready_task-first}
use rpi4_bare_metal_os.Task.Requeue.{can_run}
use rpi4_bare_metal_os.Task.Schedule.{Switched}
use rpi4_bare_metal_os.Task.Calls.{
  Layout, trapframe_size, frame_index, init_task_trapframe, scheduler_init, task_create, task_kill,
  task_sleep,
}
use rpi4_bare_metal_os.Task.Calls.Frame.{frame_word, init_task_trapframe_lem}
use rpi4_bare_metal_os.Task.Calls.Create.{Created, scheduler_init-IsScheduler, task_create_lem}
use rpi4_bare_metal_os.Task.Calls.Kill.{KillAnswer, task_kill_lem}
use rpi4_bare_metal_os.Task.Calls.Leave.{Asleep, task_sleep_lem}
use rpi4_bare_metal_os.Task.System.{
  Step, create, Reach, start, IsSafe, Step-IsSafe, Reach-IsSafe, Reach-Switched, Reach-accounted,
}

abbrev layout : Layout
layout = record { stack_addr = λ p. 0x90000 + p * 8264; task_exit_trampoline = 0x80500 }

abbrev idle : Task
idle = record { sp = 0; stack = λ k. 0; state = dead; id = 0; name = []; sleep_until = 0; next = 0 }

abbrev bss : Scheduler
bss = record { task_pool = λ p. idle; current_task = 0; ready_queue_head = 0; next_task_id = 0 }

abbrev started : Scheduler
started = scheduler_init bss

started-IsScheduler : IsScheduler started []
started-IsScheduler = (scheduler_init-IsScheduler bss).0

-- The shell runs, tasks 2 and 3 wait.
abbrev pool : ℕ → Task
pool p =
    if p == 1
    then record idle { state = running }
    else (if p == 2
        then record idle { state = ready; id = 1; next = 3 }
        else (if p == 3 then record idle { state = blocked; id = 2; sleep_until = 40 } else idle))

abbrev busy : Scheduler
busy = record { task_pool = pool; current_task = 1; ready_queue_head = 2; next_task_id = 3 }

abbrev waiting_tasks : List ℕ
waiting_tasks = 2 ∷ 3 ∷ []

busy-IsScheduler : IsScheduler busy waiting_tasks
busy-IsScheduler = record {
  queue_ok = record {
    chain = (refl, omega arith, (refl, omega arith, refl));
    distinct = (refl, (refl, tt));
    members = λ p h. ground arith;
  };
  waiting = λ p is. ground arith;
  current = omega arith;
  not_ready = ground arith;
  one_runs = λ p is h. ground arith;
}

-- The shell sleeps until tick 50, and there is no other task.
abbrev asleep : Scheduler
asleep = record {
  task_pool = λ p. if p == 1 then record idle { state = blocked; sleep_until = 50 } else idle;
  current_task = 1;
  ready_queue_head = 1;
  next_task_id = 1;
}

asleep-IsScheduler : IsScheduler asleep (1 ∷ [])
asleep-IsScheduler = record {
  queue_ok = record {
    chain = (refl, omega arith, refl);
    distinct = (refl, tt);
    members = λ p h. ground arith;
  };
  waiting = λ p is. ground arith;
  current = omega arith;
  not_ready = ground arith;
  one_runs = λ p is h. ground arith;
}

init_task_trapframe_lem_example :
    let k = frame_index (layout.stack_addr 2) in
    let task' = init_task_trapframe layout 2 0x80600 idle in
    (task'.sp ≡ layout.stack_addr 2 + 8 * k)
    × (task'.sp % 16 ≡ 0)
    × (k + trapframe_size ≤ 1024)
    × (1024 ≤ k + trapframe_size + 1)
    × ((i : ℕ) → i < trapframe_size → task'.stack (k + i) ≡ frame_word layout 0x80600 i)
    × ((j : ℕ) → j < k → task'.stack j ≡ idle.stack j)
init_task_trapframe_lem_example = init_task_trapframe_lem layout 2 0x80600 idle refl

dequeue_ready_task-first_example :
    ((first_of (runnable 7 busy) waiting_tasks ≡ 0) × (dequeue_ready_task 7 busy ≡ some (busy, 0)))
    ⊎ ((s' : Scheduler) × (b : ℕ) × (dequeue_ready_task 7 busy ≡ some (s', b))
        × Dequeued 7 busy s' waiting_tasks b)
dequeue_ready_task-first_example = dequeue_ready_task-first 7 busy-IsScheduler.queue_ok

task_create_lem_example :
    (s' : Scheduler) × (task_create layout 0x80600 (b't' ∷ []) busy ≡ some s')
    × (((p : ℕ) × IsTask p × Created busy s' waiting_tasks p)
        ⊎ ((s' ≡ busy) × ((p : ℕ) → IsTask p → state_of busy p ≢ dead)))
task_create_lem_example = task_create_lem busy-IsScheduler layout 0x80600 (b't' ∷ []) refl

task_kill_lem_example :
    (r : Scheduler × Bool) × (task_kill 2 busy ≡ some r) × KillAnswer busy-IsScheduler 2 r
task_kill_lem_example = task_kill_lem busy-IsScheduler 2

task_sleep_lem_example :
    (s' : Scheduler) × (task_sleep 7 250 busy ≡ some s')
    × Asleep ((7 + (250 + 99) % 2 ^ 32 / 100) % 2 ^ 64) busy s' waiting_tasks
task_sleep_lem_example = task_sleep_lem busy-IsScheduler refl 7 250

started_runs : state_of started started.current_task ≡ running
unfolding scheduler_init
started_runs = refl

at_start : Reach layout started
at_start = start bss

-- The shell spawns a task.
spawned :
    (s' : Scheduler) × (task_create layout 0x80600 (b't' ∷ []) started ≡ some s')
    × (((p : ℕ) × IsTask p × Created started s' [] p)
        ⊎ ((s' ≡ started) × ((p : ℕ) → IsTask p → state_of started p ≢ dead)))
spawned = task_create_lem started-IsScheduler layout 0x80600 (b't' ∷ []) started_runs

spawn : Step layout started spawned.0
spawn = create 0x80600 (b't' ∷ []) started_runs spawned.1

Step-IsSafe_example : IsSafe spawned.0
Step-IsSafe_example = Step-IsSafe spawn (Reach-IsSafe at_start)

Reach-Switched_example :
    (queue : List ℕ) × (s' : Scheduler) × (sp : ℕ) × (schedule_irq 7 0x91000 started
      ≡ some (s', sp))
    × IsScheduler started queue
    × Switched 7 0x91000 started queue s' sp
    × (can_run 7 started s'.current_task ≡ true)
Reach-Switched_example = Reach-Switched 7 0x91000 at_start

Reach-accounted_example :
    (queue : List ℕ) × Distinct queue
    × Chain (next_of started) started.ready_queue_head queue
    × ((p : ℕ)
        → IsTask p
        → ((state_of started p ≡ dead) ⊎ (has p queue ≡ true) ⊎ (p ≡ started.current_task)))
Reach-accounted_example = Reach-accounted at_start
