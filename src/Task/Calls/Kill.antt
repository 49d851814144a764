-- ===== src/Task/Calls/Kill.antt =====
-- task_kill of src/drivers/task.c.
use native.Mathlib.Decide.{ℕ_discrete, dec_lt}
use rpi4_bare_metal_os.Prelude.{
  ℕ, zero, suc, ◌+◌, ◌≤◌, ◌<◌, ◌≡◌, refl, ◌≢◌, ◌⊎◌, inl, inr, Bool, true, false, ◌&&◌, not, ◌==◌,
  arith, List, some, Bool-cases,
}
use rpi4_bare_metal_os.Links.{remove, has-remove}
use rpi4_bare_metal_os.Task.{dead, Scheduler, max_tasks, is_dead, set_state, set_next}
use rpi4_bare_metal_os.Task.Invariant.{next_of, state_of, IsTask, IsQueue, Relinked, IsScheduler}
use rpi4_bare_metal_os.Task.Requeue.{IsQueue-frame_within}
use rpi4_bare_metal_os.Task.Calls.{find_id, kill_found, task_kill}
use rpi4_bare_metal_os.Task.Removal.{remove_from_queue_lem}

-- the task has that number and is not dead
abbrev pub names : Scheduler → (id p : ℕ) → Bool
names s id p = ((s.task_pool p).id == id) && not (is_dead (state_of s p))

find_id_lem :
    (n p id : ℕ) (s : Scheduler)
    → 0 < p
    → ((find_id n p id s.task_pool ≡ 0) × ((j : ℕ) → p ≤ j → j < p + n → names s id j ≡ false))
      ⊎ ((p ≤ find_id n p id s.task_pool)
          × (find_id n p id s.task_pool < p + n)
          × (names s id (find_id n p id s.task_pool) ≡ true)
          × ((j : ℕ) → p ≤ j → j < find_id n p id s.task_pool → names s id j ≡ false))
unfolding find_id
find_id_lem zero p id s pos = inl (refl, λ j lo hi. absurd (omega arith))
find_id_lem (suc n) p id s pos = elim (Bool-cases (names s id p)) [
  | inl here ↦ rw here (inr (omega arith, omega arith, here, λ j lo hi. absurd (omega arith)))
  | inr other ↦ rw other (elim (find_id_lem n (p + 1) id s (omega arith)) [
    | inl (e, none_names) ↦ inl (
      e,
      λ j lo hi. elim (ℕ_discrete p j) [
        | yes same ↦ rw (← same) other
        | no later ↦ none_names j (omega arith) (omega arith)
      ],
    )
    | inr (lo, hi, named, first) ↦ inr (
      omega arith,
      omega arith,
      named,
      λ j lo' hi'. elim (ℕ_discrete p j) [
        | yes same ↦ rw (← same) other
        | no later ↦ first j (omega arith) hi'
      ],
    )
  ])
]

-- Task `p`, the first live one with the number, was killed: it is dead and off the queue, and no other task has changed but for links.
pub record Killed (s s' : Scheduler) (queue : List ℕ) (id p : ℕ) : Type 0 where
  pub is_task : IsTask p
  pub named : names s id p ≡ true
  pub first : (q : ℕ) → IsTask q → q < p → names s id q ≡ false
  pub not_shell : p ≢ 1
  pub not_caller : p ≢ s.current_task
  pub is_dead : state_of s' p ≡ dead
  pub kept : IsScheduler s' (remove p queue)
  pub current : s'.current_task ≡ s.current_task
  pub others : (q : ℕ) → q ≢ p → s'.task_pool q ≡ record (s.task_pool q) { next = next_of s' q }

-- Nothing was killed: each live task with the number has one before it, or is itself, the shell or
-- the caller.
pub record Spared (s s' : Scheduler) (id : ℕ) : Type 0 where
  pub same : s' ≡ s
  pub why :
      (p : ℕ)
      → IsTask p
      → names s id p ≡ true
      → (q : ℕ) × (q ≤ p) × (names s id q ≡ true) × ((q ≡ 1) ⊎ (q ≡ s.current_task))

module _ {s : Scheduler} {queue : List ℕ} (inv : IsScheduler s queue) (id : ℕ) where
  module _ (p : ℕ) (is : IsTask p) (named : names s id p ≡ true)
      (first : (j : ℕ) → 1 ≤ j → j < p → names s id j ≡ false) (not_shell : p ≢ 1)
      (not_caller : p ≢ s.current_task) where
    linked-Killed :
        {t : Scheduler}
        → IsQueue t (remove p queue)
        → Relinked s t
        → Killed s (set_next (set_state t p dead) p 0) queue id p
    linked-Killed {t} q linked = record {
      is_task = is;
      named = named;
      first = λ q is_q lt. first q is_q.0 lt;
      not_shell = not_shell;
      not_caller = not_caller;
      is_dead = ground arith;
      kept = record {
        queue_ok =
            IsQueue-frame_within q refl
              (λ a h. ground (arith, has-remove a p queue inv.queue_ok.distinct));
        waiting = λ a is'.
            ground (
              arith,
              has-remove a p queue inv.queue_ok.distinct,
              linked.tasks a,
              inv.waiting a is',
            );
        current = rw linked.current inv.current;
        not_ready = ground (arith, linked.current, linked.tasks s.current_task, inv.not_ready);
        one_runs = λ a is' h. ground (arith, linked.tasks a, linked.current, inv.one_runs a is');
      };
      current = linked.current;
      others = λ a ne. ground (arith, linked.tasks a);
    }

  Spared-by :
      (q : ℕ)
      → names s id q ≡ true
      → ((j : ℕ) → 1 ≤ j → j < q → names s id j ≡ false)
      → (q ≡ 1) ⊎ (q ≡ s.current_task)
      → Spared s s id
  Spared-by q named first why = record {
    same = refl;
    why = λ p is h. elim (dec_lt p q) [
      | yes before ↦ absurd (cc (first p is.0 before, h))
      | no after ↦ (q, omega arith, named, why)
    ];
  }

  abbrev pub KillAnswer : Scheduler × Bool → Type 0
  KillAnswer (s', done) =
      ((done ≡ true) × ((p : ℕ) × Killed s s' queue id p)) ⊎ ((done ≡ false) × Spared s s' id)

  found-KillAnswer :
      (p : ℕ)
      → IsTask p
      → names s id p ≡ true
      → ((j : ℕ) → 1 ≤ j → j < p → names s id j ≡ false)
      → (r : Scheduler × Bool) × (kill_found p s ≡ some r) × KillAnswer r
  unfolding kill_found
  found-KillAnswer p is named first = elim (ℕ_discrete p 1) [
    | yes shell ↦ ((s, false), ground arith, inr (refl, Spared-by p named first (inl shell)))
    | no not_shell ↦ elim (ℕ_discrete p s.current_task) [
      | yes caller ↦ ((s, false), ground arith, inr (refl, Spared-by p named first (inr caller)))
      | no not_caller ↦
          let (t, done, q, linked) = remove_from_queue_lem p inv.queue_ok in
          (
            (set_next (set_state t p dead) p 0, true),
            ground (arith, done),
            inl (refl, (p, linked-Killed p is named first not_shell not_caller q linked)),
          )
    ]
  ]

  -- In a well-formed state task_kill returns: the first live task with the number is dead and out
  -- of the queue, the rest as it was, or, where there is none or it is the shell or the caller,
  -- nothing has changed and it says so.
  pub task_kill_lem : (r : Scheduler × Bool) × (task_kill id s ≡ some r) × KillAnswer r
  unfolding task_kill kill_found
  task_kill_lem = elim (find_id_lem max_tasks 1 id s (omega arith)) [
    | inl (none_found, none_names) ↦ (
      (s, false),
      rw none_found,
      inr (
        refl,
        record { same = refl; why = λ p is h. absurd (cc (none_names p is.0 (omega arith), h)) },
      ),
    )
    | inr (lo, hi, named, first) ↦
        found-KillAnswer (find_id max_tasks 1 id s.task_pool) (omega arith) named first
  ]
