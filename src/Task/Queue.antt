-- ===== src/Task/Queue.antt =====
-- enqueue_task and dequeue_ready_task on a well-formed queue.
use rpi4_bare_metal_os.Prelude.{
  ℕ, zero, suc, ◌<◌, ◌≡◌, refl, true, false, some, List, [], ◌∷◌, ◌++◌, ◌==◌, arith, length, update,
}
use rpi4_bare_metal_os.Links.{has, Chain, Chain-frame}
use rpi4_bare_metal_os.Links.Search.{length-le}
use rpi4_bare_metal_os.Links.Extend.{last_of, Chain-snoc, Distinct-snoc, has-append}
use rpi4_bare_metal_os.Task.{Task, Scheduler, max_tasks, queue_fuel, last, enqueue_task, set_next}
use rpi4_bare_metal_os.Task.Invariant.{next_of, IsTask, IsQueue, Relinked}

last-last_of :
    (fuel t x : ℕ) (pool : ℕ → Task) (xs : List ℕ)
    → Chain (λ p. (pool p).next) t (x ∷ xs)
    → length xs < fuel
    → last fuel pool t ≡ some (last_of x xs)
unfolding last
last-last_of zero t x pool xs c enough = absurd (omega arith)
last-last_of (suc fuel) t x pool [] c enough = ground arith
last-last_of (suc fuel) t x pool (y ∷ ys) c enough =
    ground (arith, last-last_of fuel (pool x).next y pool ys c.2)

pub length-queue : {s : Scheduler} {queue : List ℕ} → IsQueue s queue → length queue < queue_fuel
length-queue {queue} q = omega (arith, length-le max_tasks queue q.distinct q.members)

-- On a well-formed queue enqueue_task of a task that is not in it returns: the task is at its end,
-- and nothing but links changes.
pub enqueue_task-snoc :
    {s : Scheduler} {queue : List ℕ} (p : ℕ)
    → IsQueue s queue
    → has p queue ≡ false
    → IsTask p
    → (s' : Scheduler) × (enqueue_task p s ≡ some s') × IsQueue s' (queue ++ p ∷ []) × Relinked s s'
unfolding enqueue_task
enqueue_task-snoc {s} {queue = []} p q out is =
    let empty : (s.ready_queue_head == 0) ≡ true = ground (arith, q.chain) in
    (
      record (set_next s p 0) { ready_queue_head = p },
      rw empty,
      record { chain = ground arith; distinct = (refl, tt); members = λ a h. ground arith },
      record { tasks = λ a. ground arith; current = refl; ids = refl },
    )
enqueue_task-snoc {s} {queue = x ∷ xs} p q out is =
    let there : (s.ready_queue_head == 0) ≡ false = ground (arith, q.chain) in
    let c : Chain (next_of (set_next s p 0)) s.ready_queue_head (x ∷ xs) =
      Chain-frame (next_of s) (next_of (set_next s p 0)) s.ready_queue_head (x ∷ xs) q.chain
        (λ a h. ground arith) in
    let found =
      last-last_of queue_fuel s.ready_queue_head x (set_next s p 0).task_pool xs c
        (omega (arith, length-queue q)) in
    (
      set_next (set_next s p 0) (last_of x xs) p,
      rw (there, found),
      record {
        chain =
            Chain-frame (update (next_of (set_next s p 0)) (last_of x xs) p) _ s.ready_queue_head
              (x ∷ xs ++ p ∷ [])
              (Chain-snoc (next_of (set_next s p 0)) s.ready_queue_head x p xs c q.distinct out
                (omega arith) (ground arith))
              (λ a h. ground arith);
        distinct = Distinct-snoc p (x ∷ xs) q.distinct out;
        members = λ a h. ground (arith, has-append a (x ∷ xs) (p ∷ []), q.members a);
      },
      record { tasks = λ a. ground arith; current = refl; ids = refl },
    )
