-- ===== src/Task/Calls/Create.antt =====
-- scheduler_init and task_create.
use rpi4_bare_metal_os.Prelude.{
  ℕ, zero, suc, ◌+◌, ◌%◌, ◌^◌, ◌≤◌, ◌<◌, ◌≡◌, refl, ◌≢◌, ◌⊎◌, inl, inr, true, false, ◌&&◌, ltb, leb,
  ◌==◌, if◌then◌else◌, update, arith, List, [], ◌∷◌, ◌++◌, some, Bool-cases, subst,
}
use native.Mathlib.Decide.{ℕ_discrete}
use rpi4_bare_metal_os.Links.{has}
use rpi4_bare_metal_os.Links.Extend.{has-append}
use rpi4_bare_metal_os.Task.{
  ready, running, dead, Task, Scheduler, max_tasks, is_dead, put, enqueue_task,
}
use rpi4_bare_metal_os.Task.Invariant.{next_of, state_of, IsTask, IsQueue, Relinked, IsScheduler}
use rpi4_bare_metal_os.Task.Queue.{enqueue_task-snoc}
use rpi4_bare_metal_os.Task.Requeue.{IsQueue-frame_within}
use rpi4_bare_metal_os.Task.Calls.{
  Layout, init_task_trapframe, reset_tasks, scheduler_init, find_dead, task_create,
}

reset_tasks_lem :
    (n p : ℕ) (pool : ℕ → Task) (j : ℕ)
    → (reset_tasks n p pool j).state ≡ (if leb p j && ltb j (p + n) then dead else (pool j).state)
unfolding reset_tasks
reset_tasks_lem zero p pool j = ground arith
reset_tasks_lem (suc n) p pool j = ground (
  arith,
  reset_tasks_lem n (p + 1)
      (update pool p (record (pool p) { state = dead; id = 0; next = 0; name = [] })) j,
)

-- At the start the shell runs, every other task is dead, and the queue is empty.
pub scheduler_init-IsScheduler :
    (s : Scheduler)
    → IsScheduler (scheduler_init s) []
      × ((scheduler_init s).current_task ≡ 1)
      × ((p : ℕ) → IsTask p → state_of (scheduler_init s) p ≡ (if p == 1 then running else dead))
unfolding scheduler_init
scheduler_init-IsScheduler s = (
  record {
    queue_ok = record { chain = refl; distinct = tt; members = λ p h. cc };
    waiting = λ p is. ground (arith, reset_tasks_lem max_tasks 1 s.task_pool p);
    current = omega arith;
    not_ready = ground arith;
    one_runs = λ p is h. ground (arith, reset_tasks_lem max_tasks 1 s.task_pool p);
  },
  refl,
  λ p is. ground (arith, reset_tasks_lem max_tasks 1 s.task_pool p),
)

find_dead-some :
    (n p : ℕ) (pool : ℕ → Task)
    → find_dead n p pool ≢ 0
    → (p ≤ find_dead n p pool)
      × (find_dead n p pool < p + n)
      × ((pool (find_dead n p pool)).state ≡ dead)
      × ((j : ℕ) → p ≤ j → j < find_dead n p pool → (pool j).state ≢ dead)
unfolding find_dead
find_dead-some zero p pool ne = absurd (ne refl)
find_dead-some (suc n) p pool ne = elim (Bool-cases (is_dead (pool p).state)) [
  | inl here ↦ rw here (omega arith, omega arith, ground arith, λ j lo hi. absurd (omega arith))
  | inr later ↦ rw later (
      let (lo, hi, was_dead, first) = find_dead-some n (p + 1) pool (ground arith) in
      (
        omega arith,
        omega arith,
        was_dead,
        λ j lo' hi'. elim (ℕ_discrete p j) [
          | yes same ↦ rw (← same) (ground (arith, later))
          | no above ↦ first j (omega arith) hi'
        ],
      ))
]

find_dead-none :
    (n p : ℕ) (pool : ℕ → Task)
    → 0 < p
    → find_dead n p pool ≡ 0
    → (j : ℕ) → p ≤ j
    → j < p + n
    → (pool j).state ≢ dead
unfolding find_dead
find_dead-none zero p pool pos e j lo hi = absurd (omega arith)
find_dead-none (suc n) p pool pos e j lo hi = elim (ℕ_discrete p j) [
  | yes here ↦ ground arith
  | no later ↦
      find_dead-none n (p + 1) pool (omega arith) (ground arith) j (omega arith) (omega arith)
]

-- The first dead slot `p` became a ready task at the end of the queue.
pub record Created (s s' : Scheduler) (queue : List ℕ) (p : ℕ) : Type 0 where
  pub was_dead : state_of s p ≡ dead
  pub first : (q : ℕ) → IsTask q → q < p → state_of s q ≢ dead
  pub kept : IsScheduler s' (queue ++ p ∷ [])
  pub is_ready : state_of s' p ≡ ready
  pub numbered : (s'.task_pool p).id ≡ s.next_task_id
  pub current : s'.current_task ≡ s.current_task
  pub others : (q : ℕ) → q ≢ p → s'.task_pool q ≡ record (s.task_pool q) { next = next_of s' q }

trapframe-same :
    (layout : Layout) (p entry_point : ℕ) (task : Task)
    → let task' = init_task_trapframe layout p entry_point task in
      (task'.state ≡ task.state) × (task'.id ≡ task.id) × (task'.next ≡ task.next)
unfolding init_task_trapframe
trapframe-same layout p entry_point task = (refl, refl, refl)

module _ {s : Scheduler} {queue : List ℕ} (inv : IsScheduler s queue) (layout : Layout)
    (entry_point : ℕ) (name : List ℕ) where
  abbrev new_task : ℕ → Task
  new_task p = init_task_trapframe layout p entry_point (record (s.task_pool p) {
    id = s.next_task_id;
    state = ready;
    sleep_until = 0;
    next = 0;
    name = name;
  })

  abbrev placed : ℕ → Scheduler
  placed p = put (record s { next_task_id = (s.next_task_id + 1) % 2 ^ 32 }) p (new_task p)

  new_task-same :
      (p : ℕ)
      → ((new_task p).state ≡ ready) × ((new_task p).id ≡ s.next_task_id) × ((new_task p).next ≡ 0)
  new_task-same p = trapframe-same layout p entry_point _

  module _ (p : ℕ) (is : IsTask p) (was_dead : state_of s p ≡ dead)
      (first : (j : ℕ) → 1 ≤ j → j < p → state_of s j ≢ dead) (other : p ≢ s.current_task) where
    linked-Created :
        {s' : Scheduler}
        → IsQueue s' (queue ++ p ∷ [])
        → Relinked (placed p) s'
        → Created s s' queue p
    linked-Created {s'} q linked = record {
      was_dead = was_dead;
      first = λ q is_q lt. first q is_q.0 lt;
      kept = record {
        queue_ok = q;
        waiting = λ a is'. ground (
          arith,
          has-append a queue (p ∷ []),
          linked.tasks a,
          inv.waiting a is',
          new_task-same p,
        );
        current = rw linked.current inv.current;
        not_ready = ground (arith, linked.current, linked.tasks s.current_task, inv.not_ready);
        one_runs = λ a is' h.
            ground (arith, linked.tasks a, linked.current, inv.one_runs a is', new_task-same p);
      };
      is_ready = ground (arith, linked.tasks p, new_task-same p);
      numbered = ground (arith, linked.tasks p, new_task-same p);
      current = linked.current;
      others = λ a ne. ground (arith, linked.tasks a);
    }

    placed-Created : (s' : Scheduler) × (enqueue_task p (placed p) ≡ some s') × Created s s' queue p
    placed-Created =
        let out : has p queue ≡ false = ground (arith, inv.waiting p is) in
        let q : IsQueue (placed p) queue =
          IsQueue-frame_within inv.queue_ok refl (λ a h. ground arith) in
        let (s', done, q', linked) = enqueue_task-snoc p q out is in
        (s', done, linked-Created q' linked)

  -- In a well-formed state, called by the running task, task_create returns: the first dead slot
  -- is a ready task at the end of the queue, or, where no slot is dead, nothing has changed.
  pub task_create_lem :
      state_of s s.current_task ≡ running
      → (s' : Scheduler) × (task_create layout entry_point name s ≡ some s')
        × (((p : ℕ) × IsTask p × Created s s' queue p)
            ⊎ ((s' ≡ s) × ((p : ℕ) → IsTask p → state_of s p ≢ dead)))
  unfolding task_create
  task_create_lem runs = elim (ℕ_discrete (find_dead max_tasks 1 s.task_pool) 0) [
    | yes full ↦
        let full' : (find_dead max_tasks 1 s.task_pool == 0) ≡ true = ground arith in
        (
          s,
          rw full',
          inr (
            refl,
            λ p is.
                find_dead-none max_tasks 1 s.task_pool (omega arith) full p (omega arith)
                  (omega arith),
          ),
        )
    | no slot ↦
        let slot' : (find_dead max_tasks 1 s.task_pool == 0) ≡ false = ground arith in
        let (lo, hi, was_dead, first) = find_dead-some max_tasks 1 s.task_pool slot in
        let is : IsTask (find_dead max_tasks 1 s.task_pool) = omega arith in
        let (s', done, created) =
          placed-Created (find_dead max_tasks 1 s.task_pool) is was_dead first
            (λ e. absurd (not_dead_current runs (subst (λ p. state_of s p ≡ dead) e was_dead))) in
        (s', rw slot' done, inl (find_dead max_tasks 1 s.task_pool, is, created))
  ]
    where
      not_dead_current : state_of s s.current_task ≡ running → ¬ (state_of s s.current_task ≡ dead)
      not_dead_current a b = cc
