-- ===== src/Task/Schedule.antt =====
-- schedule_irq: round robin, what it keeps, and what goes wrong where no task can run.
use rpi4_bare_metal_os.Prelude.{
  ℕ, ◌<◌, ◌≡◌, refl, ◌∙◌, ◌≢◌, inl, inr, Bool, true, false, ◌||◌, some, List, [], ◌∷◌, ◌==◌,
  if◌then◌else◌, arith, subst, sym, ap,
}
use rpi4_bare_metal_os.Links.{has, remove, has-remove}
use rpi4_bare_metal_os.Links.Extend.{has-append}
use rpi4_bare_metal_os.Task.{
  ready, running, blocked, Scheduler, is_running, set_state, save_sp, requeue, switch_to,
  dequeue_ready_task, schedule_irq,
}
use rpi4_bare_metal_os.Task.Invariant.{state_of, waits, IsTask, IsQueue, IsScheduler}
use rpi4_bare_metal_os.Links.Search.{first_of}
use rpi4_bare_metal_os.Task.Dequeue.{runnable, Dequeued, dequeue_ready_task-first}
use rpi4_bare_metal_os.Task.Requeue.{
  candidates, can_run, Requeued, IsQueue-frame, requeue-Requeued, first_of-cong, runnable-Requeued,
}

-- The next task is the first of the candidates that can run; it alone runs, with its stack pointer,
-- and the others that wait keep their order.
pub record Switched (now old_sp : ℕ) (s : Scheduler) (queue : List ℕ) (s' : Scheduler) (sp : ℕ)
    : Type 0 where
  pub chosen : s'.current_task ≡ first_of (can_run now s) (candidates s queue)
  pub runs : state_of s' s'.current_task ≡ running
  pub kept : IsScheduler s' (remove s'.current_task (candidates s queue))
  pub resumes :
      sp ≡ (if s'.current_task == s.current_task then old_sp else (s.task_pool s'.current_task).sp)
  pub saved : (s'.task_pool s.current_task).sp ≡ old_sp
  pub gives_way :
      s.current_task ≢ s'.current_task
      → state_of s' s.current_task
        ≡ (if is_running (state_of s s.current_task) then ready else state_of s s.current_task)
  pub others : (p : ℕ) → p ≢ s'.current_task → p ≢ s.current_task → state_of s' p ≡ state_of s p

-- Who is a candidate: a task that waits, or the interrupted one if it ran.
pub has-candidates :
    {s : Scheduler} {queue : List ℕ} (p : ℕ)
    → IsScheduler s queue
    → IsTask p
    → has p (candidates s queue) ≡ (waits (state_of s p) || is_running (state_of s p))
has-candidates {s} {queue} p inv is =
    ground (arith, has-append p queue (s.current_task ∷ []), inv.waiting p is, inv.one_runs p is)

module _ {s t u : Scheduler} {queue : List ℕ} {now old_sp b : ℕ} (inv : IsScheduler s queue)
    (r : Requeued old_sp s t queue) (d : Dequeued now t u (candidates s queue) b) where
  is_task : IsTask b
  is_task = r.queue_ok.members b d.queued

  abbrev switched : Scheduler
  switched = record (set_state u b running) { current_task = b }

  switched_lem : switch_to s.current_task (u, b) ≡ (switched, (u.task_pool b).sp)
  unfolding switch_to
  switched_lem = let there : (b == 0) ≡ false = ground (arith, is_task) in rw there

  switched-IsScheduler : IsScheduler switched (remove b (candidates s queue))
  switched-IsScheduler = record {
    queue_ok = IsQueue-frame d.rest refl (λ p. ground arith);
    waiting = λ p is. ground (
      arith,
      has-remove p b (candidates s queue) r.queue_ok.distinct,
      has-candidates p inv is,
      d.tasks p,
      r.tasks p,
      inv.one_runs p is,
    );
    current = is_task;
    not_ready = ground arith;
    one_runs = λ p is h. ground (arith, d.tasks p, r.tasks p, inv.one_runs p is);
  }

  switched-Switched : Switched now old_sp s queue switched (u.task_pool b).sp
  switched-Switched = record {
    chosen =
        sym d.first
        ∙ first_of-cong (runnable now t) (can_run now s) (candidates s queue)
            (λ p. runnable-Requeued now p r);
    runs = ground arith;
    kept = switched-IsScheduler;
    resumes = ground (arith, d.tasks b, r.tasks b);
    saved = ground (arith, d.tasks s.current_task, r.tasks s.current_task);
    gives_way = λ ne. ground (arith, d.tasks s.current_task, r.tasks s.current_task);
    others = λ p ne ne'. ground (arith, d.tasks p, r.tasks p);
  }

candidates_stopped :
    (s : Scheduler) (queue : List ℕ)
    → is_running (state_of s s.current_task) ≡ false
    → candidates s queue ≡ queue
candidates_stopped s queue stopped = rw stopped

-- the calls of schedule_irq in a row
schedule_irq_steps :
    (s : Scheduler) {t : Scheduler} {r : Scheduler × ℕ} (now old_sp : ℕ)
    → 0 < s.current_task
    → requeue (save_sp old_sp s) ≡ some t
    → dequeue_ready_task now t ≡ some r
    → schedule_irq now old_sp s ≡ some (switch_to s.current_task r)
unfolding schedule_irq
schedule_irq_steps s now old_sp is queued taken =
    let there : (s.current_task == 0) ≡ false = ground arith in rw (there, queued, taken)

-- No candidate can run: the interrupted task goes on, in the state RUNNING.
pub record GoesOn (old_sp : ℕ) (s s' : Scheduler) (queue : List ℕ) : Type 0 where
  pub current : s'.current_task ≡ s.current_task
  pub runs : state_of s' s.current_task ≡ running
  pub links : IsQueue s' queue
  pub others : (p : ℕ) → p ≢ s.current_task → state_of s' p ≡ state_of s p

-- Where the first that can run is NULL, none of a list of tasks can.
pub first_of-zero :
    (test : ℕ → Bool) (xs : List ℕ) (p : ℕ)
    → ((q : ℕ) → has q xs ≡ true → q ≢ 0)
    → first_of test xs ≡ 0
    → has p xs ≡ true
    → test p ≡ false
first_of-zero test [] p tasks e h = cc
first_of-zero test (x ∷ xs) p tasks e h =
    ground (arith, tasks x, first_of-zero test xs p (λ q m. tasks q (ground arith)))

module _ {s t : Scheduler} {queue : List ℕ} {old_sp : ℕ} (now : ℕ) (inv : IsScheduler s queue)
    (r : Requeued old_sp s t queue) where
  abbrev goes_on : Scheduler
  goes_on = record (set_state t s.current_task running) { current_task = s.current_task }

  goes_on_lem : switch_to s.current_task (t, 0) ≡ (goes_on, old_sp)
  unfolding switch_to
  goes_on_lem = ground (arith, r.tasks s.current_task)

  none_runnable :
      first_of (can_run now s) (candidates s queue) ≡ 0
      → (p : ℕ) → has p (candidates s queue) ≡ true
      → can_run now s p ≡ false
  none_runnable none_can p h =
      first_of-zero (can_run now s) (candidates s queue) p
        (λ q m. omega (arith, r.queue_ok.members q m)) none_can h

  module _ (none_can : first_of (can_run now s) (candidates s queue) ≡ 0) where
    stopped : is_running (state_of s s.current_task) ≡ false
    stopped = ground (
      arith,
      has-candidates s.current_task inv inv.current,
      none_runnable none_can s.current_task,
    )

    goes_on-GoesOn : GoesOn old_sp s goes_on queue
    goes_on-GoesOn = record {
      current = refl;
      runs = ground arith;
      links =
          IsQueue-frame (subst (IsQueue t) (candidates_stopped s queue stopped) r.queue_ok) refl
            (λ p. ground arith);
      others = λ p ne. ground (arith, r.tasks p);
    }

    goes_on-broken : state_of s s.current_task ≡ blocked → ¬ IsScheduler goes_on queue
    goes_on-broken asleep after = cc (
      after.waiting s.current_task inv.current,
      inv.waiting s.current_task inv.current,
      asleep,
      goes_on-GoesOn.runs,
    )

module _ {s : Scheduler} {queue : List ℕ} (now old_sp : ℕ) (inv : IsScheduler s queue) where
  -- In a well-formed state where some candidate can run, schedule_irq returns and switches to the
  -- first one that can: the interrupted task, if it was running, is ready at the end of the queue,
  -- and the state is well-formed without the chosen one in the queue.
  pub schedule_irq-Switched :
      first_of (can_run now s) (candidates s queue) ≢ 0
      → (s' : Scheduler) × (sp : ℕ) × (schedule_irq now old_sp s ≡ some (s', sp))
        × Switched now old_sp s queue s' sp
  schedule_irq-Switched some_can =
      let (t, queued, r) = requeue-Requeued old_sp inv in
      elim (dequeue_ready_task-first now r.queue_ok) [
        | inl (none_can, _) ↦ absurd (
            some_can (
              sym (
                first_of-cong (runnable now t) (can_run now s) (candidates s queue)
                  (λ p. runnable-Requeued now p r))
              ∙ none_can))
        | inr (u, b, taken, d) ↦ (
          switched inv r d,
          (u.task_pool b).sp,
          schedule_irq_steps s now old_sp inv.current.0 queued taken
              ∙ ap some (switched_lem inv r d),
          switched-Switched inv r d,
        )
      ]

  goes_on_done :
      {t : Scheduler}
      → first_of (can_run now s) (candidates s queue) ≡ 0
      → requeue (save_sp old_sp s) ≡ some t
      → (r : Requeued old_sp s t queue)
      → schedule_irq now old_sp s ≡ some (goes_on now inv r, old_sp)
  goes_on_done {t} none_can queued r = elim (dequeue_ready_task-first now r.queue_ok) [
    | inr (u, b, taken, d) ↦
        absurd (cc (none_runnable now inv r none_can b d.queued, runnable-Requeued now b r, d.can))
    | inl (_, taken) ↦
        schedule_irq_steps s now old_sp inv.current.0 queued taken ∙ ap some (goes_on_lem now inv r)
  ]

  -- In a well-formed state where no candidate can run, schedule_irq returns to the interrupted
  -- task: it is marked as running, whatever its state was, and the queue is as before.
  pub schedule_irq-GoesOn :
      first_of (can_run now s) (candidates s queue) ≡ 0
      → (s' : Scheduler) × (schedule_irq now old_sp s ≡ some (s', old_sp))
        × GoesOn old_sp s s' queue
  schedule_irq-GoesOn none_can =
      let (t, queued, r) = requeue-Requeued old_sp inv in
      (goes_on now inv r, goes_on_done none_can queued r, goes_on-GoesOn now inv r none_can)

  -- In a well-formed state where no candidate can run and the interrupted task is blocked,
  -- schedule_irq leaves it running and in the queue at once, and the state is not well-formed.
  pub schedule_irq_keeps_queued :
      first_of (can_run now s) (candidates s queue) ≡ 0
      → state_of s s.current_task ≡ blocked
      → (s' : Scheduler) × (schedule_irq now old_sp s ≡ some (s', old_sp))
        × (state_of s' s.current_task ≡ running)
        × (has s.current_task queue ≡ true)
        × ¬ IsScheduler s' queue
  schedule_irq_keeps_queued none_can asleep =
      let (t, queued, r) = requeue-Requeued old_sp inv in
      (
        goes_on now inv r,
        goes_on_done none_can queued r,
        (goes_on-GoesOn now inv r none_can).runs,
        ground (arith, inv.waiting s.current_task inv.current),
        goes_on-broken now inv r none_can asleep,
      )
