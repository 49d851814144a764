-- ===== src/Task/Calls/Leave.antt =====
-- task_sleep and task_exit: the running task gives up the processor.
use rpi4_bare_metal_os.Prelude.{
  ℕ, ◌+◌, ◌/◌, ◌%◌, ◌^◌, ◌≡◌, refl, ◌≢◌, false, ◌==◌, arith, List, [], ◌∷◌, ◌++◌, some,
}
use rpi4_bare_metal_os.Links.{has}
use rpi4_bare_metal_os.Links.Extend.{has-append}
use rpi4_bare_metal_os.Task.{running, blocked, dead, Scheduler, put}
use rpi4_bare_metal_os.Task.Invariant.{next_of, state_of, IsQueue, Relinked, IsScheduler}
use rpi4_bare_metal_os.Task.Queue.{enqueue_task-snoc}
use rpi4_bare_metal_os.Task.Requeue.{IsQueue-frame_within}
use rpi4_bare_metal_os.Task.Calls.{task_sleep, task_exit}

-- The caller is blocked at the end of the queue until `until`.
pub record Asleep (until : ℕ) (s s' : Scheduler) (queue : List ℕ) : Type 0 where
  pub kept : IsScheduler s' (queue ++ s.current_task ∷ [])
  pub blocked_now : state_of s' s.current_task ≡ blocked
  pub wakes : (s'.task_pool s.current_task).sleep_until ≡ until
  pub current : s'.current_task ≡ s.current_task
  pub others :
      (q : ℕ) → q ≢ s.current_task → s'.task_pool q ≡ record (s.task_pool q) { next = next_of s' q }

module _ {s : Scheduler} {queue : List ℕ} (inv : IsScheduler s queue)
    (runs : state_of s s.current_task ≡ running) where
  not_queued : has s.current_task queue ≡ false
  not_queued = ground (arith, inv.waiting s.current_task inv.current)

  abbrev dozing : ℕ → Scheduler
  dozing until =
      put s s.current_task
        (record (s.task_pool s.current_task) { sleep_until = until; state = blocked })

  linked-Asleep :
      {s' : Scheduler} (until : ℕ)
      → IsQueue s' (queue ++ s.current_task ∷ [])
      → Relinked (dozing until) s'
      → Asleep until s s' queue
  linked-Asleep {s'} until q linked = record {
    kept = record {
      queue_ok = q;
      waiting = λ a is.
          ground
            (arith, has-append a queue (s.current_task ∷ []), linked.tasks a, inv.waiting a is);
      current = rw linked.current inv.current;
      not_ready = ground (arith, linked.current, linked.tasks s.current_task);
      one_runs = λ a is h. ground (arith, linked.tasks a, linked.current, inv.one_runs a is);
    };
    blocked_now = ground (arith, linked.tasks s.current_task);
    wakes = ground (arith, linked.tasks s.current_task);
    current = linked.current;
    others = λ a ne. ground (arith, linked.tasks a);
  }

  -- In a well-formed state, task_sleep of the running task blocks it, at the end of the queue,
  -- until the ticks of 100 ms that cover the milliseconds have passed, up to the wrap-around of
  -- the counters.
  pub task_sleep_lem :
      (now ms : ℕ)
      → (s' : Scheduler) × (task_sleep now ms s ≡ some s')
        × Asleep ((now + (ms + 99) % 2 ^ 32 / 100) % 2 ^ 64) s s' queue
  unfolding task_sleep
  task_sleep_lem now ms =
      let until : ℕ = (now + (ms + 99) % 2 ^ 32 / 100) % 2 ^ 64 in
      let there : (s.current_task == 0) ≡ false = ground (arith, inv.current) in
      let q : IsQueue (dozing until) queue =
        IsQueue-frame_within inv.queue_ok refl (λ a h. ground arith) in
      let (s', done, q', linked) = enqueue_task-snoc s.current_task q not_queued inv.current in
      (s', rw there done, linked-Asleep until q' linked)

  -- In a well-formed state, task_exit of the running task marks it dead, keeps the queue and the
  -- state well-formed, and changes no other task.
  pub task_exit-IsScheduler :
      IsScheduler (task_exit s) queue
      × (state_of (task_exit s) s.current_task ≡ dead)
      × ((task_exit s).current_task ≡ s.current_task)
      × ((q : ℕ) → q ≢ s.current_task → (task_exit s).task_pool q ≡ s.task_pool q)
  unfolding task_exit
  task_exit-IsScheduler =
      let there : (s.current_task == 0) ≡ false = ground (arith, inv.current) in
      rw there (
        record {
          queue_ok = IsQueue-frame_within inv.queue_ok refl (λ a h. ground arith);
          waiting = λ a is. ground (arith, inv.waiting a is, not_queued);
          current = inv.current;
          not_ready = ground arith;
          one_runs = λ a is h. ground (arith, inv.one_runs a is);
        },
        ground arith,
        refl,
        λ q ne. ground arith,
      )
