-- ===== src/Task/Requeue.antt =====
-- The first half of schedule_irq: the interrupted task is saved, and joins the queue if it ran.
use rpi4_bare_metal_os.Prelude.{
  ℕ, ◌≡◌, refl, ◌∙◌, inl, inr, Bool, true, false, ◌||◌, ◌&&◌, some, List, [], ◌∷◌, ◌++◌, ◌==◌,
  if◌then◌else◌, arith, Bool-cases, subst, sym,
}
use rpi4_bare_metal_os.Links.{has, Chain-frame}
use rpi4_bare_metal_os.Task.{
  ready, Scheduler, is_running, set_state, enqueue_task, save_sp, requeue,
}
use rpi4_bare_metal_os.Task.Invariant.{next_of, state_of, IsQueue, IsScheduler}
use rpi4_bare_metal_os.Task.Queue.{enqueue_task-snoc}
use rpi4_bare_metal_os.Links.Search.{first_of}
use rpi4_bare_metal_os.Task.Dequeue.{runnable}

-- The queue that schedule_irq takes the next task from: the interrupted task joins it if it ran.
abbrev pub candidates : Scheduler → List ℕ → List ℕ
candidates s queue =
    if is_running (state_of s s.current_task) then queue ++ s.current_task ∷ [] else queue

-- a task of the queue can run, or the interrupted one was running
abbrev pub can_run : (now : ℕ) → Scheduler → ℕ → Bool
can_run now s p = (p == s.current_task && is_running (state_of s p)) || runnable now s p

-- `t` is `s` with the interrupted task's stack pointer saved and, if it ran, the task in the queue.
pub record Requeued (old_sp : ℕ) (s t : Scheduler) (queue : List ℕ) : Type 0 where
  pub queue_ok : IsQueue t (candidates s queue)
  pub tasks :
      (p : ℕ)
      → t.task_pool p ≡ record (s.task_pool p) {
        next = next_of t p;
        sp = if p == s.current_task then old_sp else (s.task_pool p).sp;
        state = if p == s.current_task && is_running (state_of s p) then ready else state_of s p;
      }
  pub current : t.current_task ≡ s.current_task
  pub ids : t.next_task_id ≡ s.next_task_id

-- A change that spares the links of the queue leaves the queue.
pub IsQueue-frame_within :
    {s t : Scheduler} {queue : List ℕ}
    → IsQueue s queue
    → t.ready_queue_head ≡ s.ready_queue_head
    → ((p : ℕ) → has p queue ≡ true → next_of t p ≡ next_of s p)
    → IsQueue t queue
IsQueue-frame_within {s} {t} {queue} q head same = record {
  chain = rw head (Chain-frame (next_of s) (next_of t) s.ready_queue_head queue q.chain same);
  distinct = q.distinct;
  members = q.members;
}

pub IsQueue-frame :
    {s t : Scheduler} {queue : List ℕ}
    → IsQueue s queue
    → t.ready_queue_head ≡ s.ready_queue_head
    → ((p : ℕ) → next_of t p ≡ next_of s p)
    → IsQueue t queue
IsQueue-frame q head same = IsQueue-frame_within q head (λ p h. same p)

-- the interrupted task, saved
tasks-save_sp :
    (old_sp : ℕ) (s : Scheduler) (p : ℕ)
    → (save_sp old_sp s).task_pool p
      ≡ record (s.task_pool p) { sp = if p == s.current_task then old_sp else (s.task_pool p).sp }
unfolding save_sp
tasks-save_sp old_sp s p = ground arith

save_sp-same :
    (old_sp : ℕ) (s : Scheduler)
    → ((save_sp old_sp s).ready_queue_head ≡ s.ready_queue_head)
      × ((save_sp old_sp s).current_task ≡ s.current_task)
      × ((save_sp old_sp s).next_task_id ≡ s.next_task_id)
unfolding save_sp
save_sp-same old_sp s = (refl, refl, refl)

requeue_ran :
    (s : Scheduler) (p : ℕ)
    → s.current_task ≡ p
    → is_running (state_of s p) ≡ true
    → requeue s ≡ enqueue_task p (set_state s p ready)
unfolding requeue
requeue_ran s p e =
    subst (λ p. is_running (state_of s p) ≡ true → requeue s ≡ enqueue_task p (set_state s p ready))
      e (λ ran. rw ran)

requeue_stopped :
    (s : Scheduler) → is_running (state_of s s.current_task) ≡ false → requeue s ≡ some s
unfolding requeue
requeue_stopped s stopped = rw stopped

module _ {s : Scheduler} {queue : List ℕ} (old_sp : ℕ) (inv : IsScheduler s queue) where
  abbrev saved : Scheduler
  saved = save_sp old_sp s

  candidates_ran :
      is_running (state_of s s.current_task) ≡ true
      → candidates s queue ≡ queue ++ s.current_task ∷ []
  candidates_ran ran = rw ran

  ran-Requeued :
      is_running (state_of s s.current_task) ≡ true
      → (t : Scheduler) × (requeue saved ≡ some t) × Requeued old_sp s t queue
  ran-Requeued ran =
      let p : ℕ = s.current_task in
      let same = save_sp-same old_sp s in
      let q : IsQueue (set_state saved p ready) queue =
        IsQueue-frame inv.queue_ok same.0 (λ a. ground (arith, tasks-save_sp old_sp s a)) in
      let (t, done, q', linked) =
        enqueue_task-snoc p q (ground (arith, inv.waiting p inv.current)) inv.current in
      (
        t,
        requeue_ran saved p same.1 (ground (arith, tasks-save_sp old_sp s p)) ∙ done,
        record {
          queue_ok = subst (IsQueue t) (sym (candidates_ran ran)) q';
          tasks = λ a. ground (arith, linked.tasks a, tasks-save_sp old_sp s a);
          current = linked.current ∙ same.1;
          ids = linked.ids ∙ same.2;
        },
      )

  stopped-Requeued :
      is_running (state_of s s.current_task) ≡ false
      → (t : Scheduler) × (requeue saved ≡ some t) × Requeued old_sp s t queue
  stopped-Requeued stopped =
      let same = save_sp-same old_sp s in
      (
        saved,
        requeue_stopped saved (ground (arith, same.1, tasks-save_sp old_sp s s.current_task)),
        record {
          queue_ok =
              rw stopped
                (IsQueue-frame inv.queue_ok same.0 (λ p. ground (arith, tasks-save_sp old_sp s p)));
          tasks = λ p. ground (arith, tasks-save_sp old_sp s p);
          current = same.1;
          ids = same.2;
        },
      )

  pub requeue-Requeued : (t : Scheduler) × (requeue saved ≡ some t) × Requeued old_sp s t queue
  requeue-Requeued = elim (Bool-cases (is_running (state_of s s.current_task))) [
    | inl ran ↦ ran-Requeued ran
    | inr stopped ↦ stopped-Requeued stopped
  ]

pub first_of-cong :
    (f g : ℕ → Bool) (xs : List ℕ) → ((p : ℕ) → f p ≡ g p) → first_of f xs ≡ first_of g xs
first_of-cong f g [] h = refl
first_of-cong f g (x ∷ xs) h = ground (arith, h x, first_of-cong f g xs h)

pub runnable-Requeued :
    {old_sp : ℕ} {s t : Scheduler} {queue : List ℕ} (now p : ℕ)
    → Requeued old_sp s t queue
    → runnable now t p ≡ can_run now s p
runnable-Requeued now p r = ground (arith, r.tasks p)
