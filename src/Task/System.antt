-- ===== src/Task/System.antt =====
-- The scheduler as a whole: what the timer interrupt and the running task may do in turn, on the core
-- that schedules. The shell never sleeps and never exits, as in src/kernel.c.
use rpi4_bare_metal_os.Prelude.{
  ℕ, ◌≡◌, sym, subst, ◌≢◌, ◌⊎◌, inl, inr, Bool, true, arith, List, [], ◌∷◌, ◌++◌, some,
}
use rpi4_bare_metal_os.Links.{has, remove, Distinct, Chain}
use rpi4_bare_metal_os.Links.Extend.{has-append}
use rpi4_bare_metal_os.Task.{ready, running, dead, Scheduler, schedule_irq}
use rpi4_bare_metal_os.Task.Invariant.{next_of, state_of, IsTask, IsScheduler}
use rpi4_bare_metal_os.Links.Search.{first_of, passes-first_of}
use rpi4_bare_metal_os.Task.Requeue.{candidates, can_run}
use rpi4_bare_metal_os.Task.Schedule.{
  Switched, schedule_irq-Switched, first_of-zero, has-candidates,
}
use rpi4_bare_metal_os.Task.Calls.{
  Layout, scheduler_init, task_create, task_kill, task_sleep, task_exit,
}
use rpi4_bare_metal_os.Task.Calls.Create.{scheduler_init-IsScheduler, task_create_lem}
use rpi4_bare_metal_os.Task.Calls.Kill.{task_kill_lem}
use rpi4_bare_metal_os.Task.Calls.Leave.{task_sleep_lem, task_exit-IsScheduler}

-- `&task_pool[0]`
abbrev pub shell : ℕ
shell = 1

-- One step: the interrupt, or a call by the task that runs.
pub data Step (layout : Layout) (s : Scheduler) : Scheduler → Type 0 where
  irq :
      {s' : Scheduler} (now old_sp sp : ℕ)
      → schedule_irq now old_sp s ≡ some (s', sp)
      → Step layout s s'
  create :
      {s' : Scheduler} (entry_point : ℕ) (name : List ℕ)
      → state_of s s.current_task ≡ running
      → task_create layout entry_point name s ≡ some s'
      → Step layout s s'
  kill :
      {s' : Scheduler} (id : ℕ) (done : Bool)
      → state_of s s.current_task ≡ running
      → task_kill id s ≡ some (s', done)
      → Step layout s s'
  sleep :
      {s' : Scheduler} (now ms : ℕ)
      → state_of s s.current_task ≡ running
      → s.current_task ≢ shell
      → task_sleep now ms s ≡ some s'
      → Step layout s s'
  exit :
      {s' : Scheduler}
      → state_of s s.current_task ≡ running
      → s.current_task ≢ shell
      → task_exit s ≡ s'
      → Step layout s s'

pub data Reach (layout : Layout) : Scheduler → Type 0 where
  start : (s : Scheduler) → Reach layout (scheduler_init s)
  later : {s t : Scheduler} → Reach layout s → Step layout s t → Reach layout t

-- The queue is in order, and the shell runs or waits for its turn.
pub record IsSafe (s : Scheduler) : Type 0 where
  pub queue : List ℕ
  pub inv : IsScheduler s queue
  pub shell_lives : (state_of s shell ≡ ready) ⊎ (state_of s shell ≡ running)

init-IsSafe : (s : Scheduler) → IsSafe (scheduler_init s)
init-IsSafe s =
    let (inv, cur, states) = scheduler_init-IsScheduler s in
    record { queue = []; inv = inv; shell_lives = inr (states shell (omega arith)) }

module _ {s : Scheduler} (safe : IsSafe s) where
  has-shell : has shell (candidates s safe.queue) ≡ true
  has-shell = ground (arith, has-candidates shell safe.inv (omega arith), safe.shell_lives)

  shell_runnable : (now : ℕ) → can_run now s shell ≡ true
  shell_runnable now = ground (arith, safe.shell_lives, safe.inv.one_runs shell (omega arith))

  -- The shell can always run, so the idle branch of schedule_irq is never taken.
  shell_can : (now : ℕ) → first_of (can_run now s) (candidates s safe.queue) ≢ 0
  shell_can now e = cc (
    first_of-zero (can_run now s) (candidates s safe.queue) shell
        (λ q h. omega (arith, members q h)) e has-shell,
    shell_runnable now,
  )
    where
      members : (q : ℕ) → has q (candidates s safe.queue) ≡ true → IsTask q
      members q h = ground (
        arith,
        has-append q safe.queue (s.current_task ∷ []),
        safe.inv.queue_ok.members q,
        safe.inv.current,
      )

  Switched-IsSafe :
      {s' : Scheduler} {now old_sp sp : ℕ} → Switched now old_sp s safe.queue s' sp → IsSafe s'
  Switched-IsSafe {s'} sw = record {
    queue = remove s'.current_task (candidates s safe.queue);
    inv = sw.kept;
    shell_lives = ground (arith, sw.runs, sw.gives_way, sw.others shell, safe.shell_lives);
  }

  irq-IsSafe :
      (now old_sp : ℕ) {s' : Scheduler} {sp : ℕ}
      → schedule_irq now old_sp s ≡ some (s', sp)
      → IsSafe s'
  irq-IsSafe now old_sp {s'} {sp} h =
      let (t, sp', done, sw) = schedule_irq-Switched now old_sp safe.inv (shell_can now) in
      subst IsSafe (cc (done, h)) (Switched-IsSafe sw)

  create-IsSafe :
      (layout : Layout) (entry_point : ℕ) (name : List ℕ) {s' : Scheduler}
      → state_of s s.current_task ≡ running
      → task_create layout entry_point name s ≡ some s'
      → IsSafe s'
  create-IsSafe layout entry_point name {s'} runs h =
      let (t, done, answer) = task_create_lem safe.inv layout entry_point name runs in
      subst IsSafe (cc (done, h)) (elim answer [
        | inr (same, full) ↦ subst IsSafe (sym same) safe
        | inl (p, is, created) ↦ record {
          queue = safe.queue ++ p ∷ [];
          inv = created.kept;
          shell_lives = ground (arith, created.was_dead, created.others shell, safe.shell_lives);
        }
      ])

  kill-IsSafe :
      (id : ℕ) {s' : Scheduler} {done : Bool} → task_kill id s ≡ some (s', done) → IsSafe s'
  kill-IsSafe id {s'} h =
      let (r, e, answer) = task_kill_lem safe.inv id in
      subst IsSafe (cc (e, h)) (elim answer [
        | inr (no_, spared) ↦ subst IsSafe (sym spared.same) safe
        | inl (yes_, (p, killed)) ↦ record {
          queue = remove p safe.queue;
          inv = killed.kept;
          shell_lives = ground (arith, killed.not_shell, killed.others shell, safe.shell_lives);
        }
      ])

  sleep-IsSafe :
      (now ms : ℕ) {s' : Scheduler}
      → state_of s s.current_task ≡ running
      → s.current_task ≢ shell
      → task_sleep now ms s ≡ some s'
      → IsSafe s'
  sleep-IsSafe now ms {s'} runs other h =
      let (t, done, asleep) = task_sleep_lem safe.inv runs now ms in
      subst IsSafe (cc (done, h)) (record {
        queue = safe.queue ++ s.current_task ∷ [];
        inv = asleep.kept;
        shell_lives = ground (arith, other, asleep.others shell, safe.shell_lives);
      })

  exit-IsSafe : state_of s s.current_task ≡ running → s.current_task ≢ shell → IsSafe (task_exit s)
  exit-IsSafe runs other =
      let (inv, is_dead, current, others) = task_exit-IsScheduler safe.inv runs in
      record {
        queue = safe.queue;
        inv = inv;
        shell_lives = ground (arith, other, others shell, safe.shell_lives);
      }

-- The interrupt, and task_create, task_kill, task_sleep and task_exit called by the running task,
-- of which the shell neither sleeps nor exits, keep the queue in order and the shell ready or
-- running.
pub Step-IsSafe : {layout : Layout} {s t : Scheduler} → Step layout s t → IsSafe s → IsSafe t
Step-IsSafe (irq now old_sp sp h) safe = irq-IsSafe safe now old_sp h
Step-IsSafe {layout} (create entry_point name runs h) safe =
    create-IsSafe safe layout entry_point name runs h
Step-IsSafe (kill id done runs h) safe = kill-IsSafe safe id h
Step-IsSafe (sleep now ms runs other h) safe = sleep-IsSafe safe now ms runs other h
Step-IsSafe (exit runs other h) safe = subst IsSafe h (exit-IsSafe safe runs other)

pub Reach-IsSafe : {layout : Layout} {s : Scheduler} → Reach layout s → IsSafe s
Reach-IsSafe (start s) = init-IsSafe s
Reach-IsSafe (later r st) = Step-IsSafe st (Reach-IsSafe r)

-- In every state that steps lead to from scheduler_init, the next interrupt returns: it switches
-- to the first task, in the order of the queue with the interrupted task last, that is ready or
-- whose time has come.
pub Reach-Switched :
    {layout : Layout} {s : Scheduler} (now old_sp : ℕ)
    → Reach layout s
    → (queue : List ℕ) × (s' : Scheduler) × (sp : ℕ) × (schedule_irq now old_sp s ≡ some (s', sp))
      × IsScheduler s queue
      × Switched now old_sp s queue s' sp
      × (can_run now s s'.current_task ≡ true)
Reach-Switched {layout} {s} now old_sp r =
    let safe = Reach-IsSafe r in
    let some_can = shell_can safe now in
    let (s', sp, done, sw) = schedule_irq-Switched now old_sp safe.inv some_can in
    (
      safe.queue,
      s',
      sp,
      done,
      safe.inv,
      sw,
      cc (sw.chosen, passes-first_of (can_run now s) (candidates s safe.queue) some_can),
    )

-- In every state that steps lead to from scheduler_init, the ready queue is a list without
-- repetitions, and each task that is not dead stands in it or is the current one.
pub Reach-accounted :
    {layout : Layout} {s : Scheduler}
    → Reach layout s
    → (queue : List ℕ) × Distinct queue
      × Chain (next_of s) s.ready_queue_head queue
      × ((p : ℕ) → IsTask p → ((state_of s p ≡ dead) ⊎ (has p queue ≡ true) ⊎ (p ≡ s.current_task)))
Reach-accounted {layout} {s} r =
    let safe = Reach-IsSafe r in
    (
      safe.queue,
      safe.inv.queue_ok.distinct,
      safe.inv.queue_ok.chain,
      λ p is. ground (arith, safe.inv.waiting p is, safe.inv.one_runs p is),
    )
