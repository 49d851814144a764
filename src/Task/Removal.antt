-- ===== src/Task/Removal.antt =====
-- remove_from_queue of src/drivers/task.c.
use native.Mathlib.Decide.{ℕ_discrete}
use rpi4_bare_metal_os.Prelude.{
  ℕ, zero, suc, ◌<◌, ◌≡◌, refl, ◌≢◌, ◌⊎◌, inl, inr, false, ◌==◌, arith, List, [], ◌∷◌, Option, some,
  length,
}
use rpi4_bare_metal_os.Links.{has, remove, Chain}
use rpi4_bare_metal_os.Links.Unlink.{At, At-cons}
use rpi4_bare_metal_os.Task.{Scheduler, queue_fuel, unlink, remove_loop, remove_from_queue}
use rpi4_bare_metal_os.Task.Invariant.{next_of, IsQueue, Relinked}
use rpi4_bare_metal_os.Task.Queue.{length-queue}
use rpi4_bare_metal_os.Task.Dequeue.{unlink-IsQueue}

-- The loop takes `target` out behind the task before it, or finds nothing to take out.
abbrev Removes : (target prev : ℕ) → Scheduler → List ℕ → Option Scheduler → Type 0
Removes target prev s xs r =
    ((has target xs ≡ false) × (r ≡ some s))
    ⊎ ((before : ℕ) × At prev target before xs × (r ≡ some (unlink before target s)))

Removes-cons :
    (target prev x : ℕ) (s : Scheduler) (xs : List ℕ) (r : Option Scheduler)
    → x ≢ target
    → Removes target x s xs r
    → Removes target prev s (x ∷ xs) r
Removes-cons target prev x s xs r ne (inl (out, e)) = inl (ground arith, e)
Removes-cons target prev x s xs r ne (inr (before, at, e)) =
    inr (before, At-cons prev x target before xs at, e)

module _ (fuel target prev x : ℕ) (s : Scheduler) where
  remove_end : remove_loop (suc fuel) target prev 0 s ≡ some s
  unfolding remove_loop
  remove_end = refl

  remove_here : x ≢ 0 → x ≡ target → remove_loop (suc fuel) target prev x s ≡ some (unlink prev x s)
  unfolding remove_loop
  remove_here there e = ground arith

  remove_later :
      x ≢ 0
      → x ≢ target
      → remove_loop (suc fuel) target prev x s ≡ remove_loop fuel target x (next_of s x) s
  unfolding remove_loop
  remove_later there ne =
      let there' : (x == 0) ≡ false = ground arith in
      let other : (x == target) ≡ false = ground arith in
      rw (there', remove_loop, other, remove_loop)

remove_loop-Removes :
    (fuel target prev task : ℕ) (s : Scheduler) (xs : List ℕ)
    → Chain (next_of s) task xs
    → length xs < fuel
    → Removes target prev s xs (remove_loop fuel target prev task s)
remove_loop-Removes zero target prev task s xs c enough = absurd (omega arith)
remove_loop-Removes (suc fuel) target prev task s [] c enough =
    inl (refl, rw c (remove_end fuel target prev 0 s))
remove_loop-Removes (suc fuel) target prev task s (x ∷ xs) c enough = elim (ℕ_discrete x target) [
  | yes here ↦
      inr (prev, inl (here, refl), rw (c.0, remove_here fuel target prev x s c.1 here, here))
  | no other ↦
      rw (c.0, remove_later fuel target prev x s c.1 other)
        (Removes-cons target prev x s xs (remove_loop fuel target x (next_of s x) s) other
          (remove_loop-Removes fuel target x (next_of s x) s xs c.2 (omega arith)))
]

remove-out : (b : ℕ) (xs : List ℕ) → has b xs ≡ false → remove b xs ≡ xs
remove-out b [] out = refl
remove-out b (x ∷ xs) out = ground (arith, remove-out b xs)

-- Only links change, and the queue is what is left.
pub remove_from_queue_lem :
    {s : Scheduler} {queue : List ℕ} (target : ℕ)
    → IsQueue s queue
    → (s' : Scheduler) × (remove_from_queue target s ≡ some s')
      × IsQueue s' (remove target queue)
      × Relinked s s'
unfolding remove_from_queue
remove_from_queue_lem {s} {queue} target q =
    elim (remove_loop-Removes queue_fuel target 0 s.ready_queue_head s queue q.chain
      (length-queue q)) [
        | inl (out, done) ↦ (
          s,
          done,
          rw (remove-out target queue out) q,
          record { tasks = λ p. refl; current = refl; ids = refl },
        )
        | inr (before, at, done) ↦
            let (q', linked) = unlink-IsQueue target before q at in
            (unlink before target s, done, q', linked)
      ]
