-- ===== src/Task/Dequeue.antt =====
-- dequeue_ready_task takes the first task of the queue that can run.
use rpi4_bare_metal_os.Prelude.{
  ℕ, zero, suc, ◌<◌, ◌≡◌, refl, ◌≢◌, ◌⊎◌, inl, inr, Bool, true, false, ◌||◌, ◌&&◌, Option, some,
  List, [], ◌∷◌, leb, ◌==◌, if◌then◌else◌, arith, length, update, Bool-cases, ap,
}
use rpi4_bare_metal_os.Links.{
  has, Distinct, Chain, Chain-frame, remove, has-remove, Distinct-remove, ne_null,
}
use rpi4_bare_metal_os.Links.Search.{first_of}
use rpi4_bare_metal_os.Links.Unlink.{At, At-cons, has_of_At, has_of_Follows, Chain-unlink}
use rpi4_bare_metal_os.Task.{
  ready, Scheduler, queue_fuel, is_ready, is_blocked, unlink, wake, dequeue_loop,
  dequeue_ready_task,
}
use rpi4_bare_metal_os.Task.Invariant.{next_of, state_of, IsQueue, Relinked}
use rpi4_bare_metal_os.Task.Queue.{length-queue}

-- the node is ready, or its time has come
abbrev pub runnable : (now : ℕ) → Scheduler → ℕ → Bool
runnable now s p =
    is_ready (state_of s p) || (is_blocked (state_of s p) && leb (s.task_pool p).sleep_until now)

-- Taking a node out of the queue behind the node before it.
unlink-Chain :
    (s : Scheduler) (b before : ℕ) (xs : List ℕ)
    → Chain (next_of s) s.ready_queue_head xs
    → Distinct xs
    → At 0 b before xs
    → Chain (next_of (unlink before b s)) (unlink before b s).ready_queue_head (remove b xs)
unfolding unlink
unlink-Chain s b before [] c d at = absurd at
unlink-Chain s b before (x ∷ xs) c d (inl head) =
    let null : (before == 0) ≡ true = ground arith in
    let here : (b == x) ≡ true = ground arith in
    rw (null, here)
      (rw (← head.0) (Chain-frame (next_of s) _ (next_of s x) xs c.2 (λ a h. ground arith)))
unlink-Chain s b before (x ∷ xs) c d (inr later) =
    let found = has_of_Follows before b (x ∷ xs) later in
    let there : (before == 0) ≡ false =
      ground (arith, ne_null (next_of s) s.ready_queue_head before (x ∷ xs) c found.0) in
    rw there (
      Chain-frame (update (next_of s) before (next_of s b)) _ s.ready_queue_head (remove b (x ∷ xs))
        (Chain-unlink (next_of s) s.ready_queue_head before b (x ∷ xs) c d later)
        (λ a h. ground (arith, has-remove a b (x ∷ xs) d)))

unlink-Relinked : (s : Scheduler) (b before : ℕ) → Relinked s (unlink before b s)
unfolding unlink
unlink-Relinked s b before = record {
  tasks = λ p. ground arith;
  current = ground arith;
  ids = ground arith;
}

-- Taking a node out changes links only, and the queue is what is left.
pub unlink-IsQueue :
    {s : Scheduler} {queue : List ℕ} (b before : ℕ)
    → IsQueue s queue
    → At 0 b before queue
    → IsQueue (unlink before b s) (remove b queue) × Relinked s (unlink before b s)
unlink-IsQueue {s} {queue} b before q at = (
  record {
    chain = unlink-Chain s b before queue q.chain q.distinct at;
    distinct = Distinct-remove b queue q.distinct;
    members = λ p h. ground (arith, has-remove p b queue q.distinct, q.members p);
  },
  unlink-Relinked s b before,
)

wake-runnable :
    (now x : ℕ) (s : Scheduler)
    → runnable now s x ≡ true
    → is_ready (state_of (wake now x s) x) ≡ true
unfolding wake
wake-runnable now x s can = ground arith

wake_idle :
    (now x : ℕ) (s : Scheduler)
    → runnable now s x ≡ false
    → (wake now x s ≡ s) × (is_ready (state_of s x) ≡ false)
unfolding wake
wake_idle now x s cannot = ground arith

-- The loop found `b`, the first of `xs` that can run, behind the task `before`.
abbrev Taken :
    (now prev : ℕ) → Scheduler → List ℕ → Option (Scheduler × ℕ) → (b before : ℕ) → Type 0
Taken now prev s xs r b before =
    At prev b before xs
    × (runnable now s b ≡ true)
    × (first_of (runnable now s) xs ≡ b)
    × (r ≡ some (unlink before b (wake now b s), b))

-- It ends with such a task, or with NULL where none can run.
abbrev Dequeues : (now prev : ℕ) → Scheduler → List ℕ → Option (Scheduler × ℕ) → Type 0
Dequeues now prev s xs r =
    ((first_of (runnable now s) xs ≡ 0) × (r ≡ some (s, 0)))
    ⊎ ((b : ℕ) × (before : ℕ) × Taken now prev s xs r b before)

Dequeues-cons :
    (now prev x : ℕ) (s : Scheduler) (xs : List ℕ) (r : Option (Scheduler × ℕ))
    → runnable now s x ≡ false
    → Dequeues now x s xs r
    → Dequeues now prev s (x ∷ xs) r
Dequeues-cons now prev x s xs r cannot (inl none_can) = inl (rw cannot none_can)
Dequeues-cons now prev x s xs r cannot (inr (b, before, t)) =
    inr (b, before, (At-cons prev x b before xs t.0, t.1, rw cannot t.2, t.3))

loop_end : (fuel now prev : ℕ) (s : Scheduler) → dequeue_loop (suc fuel) now prev 0 s ≡ some (s, 0)
unfolding dequeue_loop
loop_end fuel now prev s = refl

module _ (fuel now prev x : ℕ) (s : Scheduler) (there : x ≢ 0) where
  loop_can :
      runnable now s x ≡ true
      → dequeue_loop (suc fuel) now prev x s ≡ some (unlink prev x (wake now x s), x)
  unfolding dequeue_loop
  loop_can can = ground (arith, wake-runnable now x s can)

  loop_cannot :
      runnable now s x ≡ false
      → dequeue_loop (suc fuel) now prev x s ≡ dequeue_loop fuel now x (next_of s x) s
  unfolding dequeue_loop
  loop_cannot cannot =
      let there' : (x == 0) ≡ false = ground arith in
      let (asleep, not_ready) = wake_idle now x s cannot in
      rw (there', dequeue_loop, asleep, not_ready, dequeue_loop)
        (ap (λ t. dequeue_loop fuel now x (next_of t x) t) asleep)

dequeue_loop-Dequeues :
    (fuel now prev task : ℕ) (s : Scheduler) (xs : List ℕ)
    → Chain (next_of s) task xs
    → length xs < fuel
    → Dequeues now prev s xs (dequeue_loop fuel now prev task s)
dequeue_loop-Dequeues zero now prev task s xs c enough = absurd (omega arith)
dequeue_loop-Dequeues (suc fuel) now prev task s [] c enough =
    inl (refl, rw c (loop_end fuel now prev s))
dequeue_loop-Dequeues (suc fuel) now prev task s (x ∷ xs) c enough =
    elim (Bool-cases (runnable now s x)) [
      | inl can ↦
          inr
            (x, prev, (inl (refl, refl), can, rw can, rw c.0 (loop_can fuel now prev x s c.1 can)))
      | inr cannot ↦
          rw (c.0, loop_cannot fuel now prev x s c.1 cannot)
            (Dequeues-cons now prev x s xs (dequeue_loop fuel now x (next_of s x) s) cannot
              (dequeue_loop-Dequeues fuel now x (next_of s x) s xs c.2 (omega arith)))
    ]

-- The task `b` was taken from the queue and is ready; all else is as it was, but for links.
pub record Dequeued (now : ℕ) (s s' : Scheduler) (queue : List ℕ) (b : ℕ) : Type 0 where
  pub first : first_of (runnable now s) queue ≡ b
  pub queued : has b queue ≡ true
  pub can : runnable now s b ≡ true
  pub rest : IsQueue s' (remove b queue)
  pub tasks :
      (p : ℕ)
      → s'.task_pool p ≡ record (s.task_pool p) {
        next = next_of s' p;
        state = if p == b then ready else state_of s p;
      }
  pub current : s'.current_task ≡ s.current_task
  pub ids : s'.next_task_id ≡ s.next_task_id

wake-IsQueue :
    {s : Scheduler} {queue : List ℕ} (now b : ℕ) → IsQueue s queue → IsQueue (wake now b s) queue
unfolding wake
wake-IsQueue {s} {queue} now b q = record {
  chain =
      let head : (wake now b s).ready_queue_head ≡ s.ready_queue_head = ground arith in
      rw head (
        Chain-frame (next_of s) (next_of (wake now b s)) s.ready_queue_head queue q.chain
          (λ a h. ground arith));
  distinct = q.distinct;
  members = q.members;
}

take-Dequeued :
    {s : Scheduler} {queue : List ℕ} (now b before : ℕ)
    → IsQueue s queue
    → At 0 b before queue
    → runnable now s b ≡ true
    → first_of (runnable now s) queue ≡ b
    → Dequeued now s (unlink before b (wake now b s)) queue b
unfolding wake
take-Dequeued {s} {queue} now b before q at can first = record {
  first = first;
  queued = has_of_At b before queue at;
  can = can;
  rest = (unlink-IsQueue b before (wake-IsQueue now b q) at).0;
  tasks = λ p. ground (arith, linked.tasks p);
  current = ground (arith, linked.current);
  ids = ground (arith, linked.ids);
}
  where
    linked : Relinked (wake now b s) (unlink before b (wake now b s))
    linked = unlink-Relinked (wake now b s) b before

-- On a well-formed queue dequeue_ready_task returns: it takes out the first task that is ready or
-- whose time has come, which is ready then, and changes nothing else but links; it answers NULL
-- and changes nothing where there is none.
pub dequeue_ready_task-first :
    {s : Scheduler} {queue : List ℕ} (now : ℕ)
    → IsQueue s queue
    → ((first_of (runnable now s) queue ≡ 0) × (dequeue_ready_task now s ≡ some (s, 0)))
      ⊎ ((s' : Scheduler) × (b : ℕ) × (dequeue_ready_task now s ≡ some (s', b))
          × Dequeued now s s' queue b)
unfolding dequeue_ready_task
dequeue_ready_task-first {s} {queue} now q =
    elim (dequeue_loop-Dequeues queue_fuel now 0 s.ready_queue_head s queue q.chain
      (length-queue q)) [
        | inl none_can ↦ inl none_can
        | inr (b, before, t) ↦
            inr (unlink before b (wake now b s), b, t.3, take-Dequeued now b before q t.0 t.1 t.2)
      ]
