-- ===== src/Kernel/Steps.antt =====
-- The commands of src/kernel.c and the scheduler: the shell is one of the tasks, and what it commands
-- are calls of the running task.
use rpi4_bare_metal_os.Prelude.{ℕ, ◌≡◌, ◌⊎◌, refl, Bool, List, some, arith, inl, inr}
use rpi4_bare_metal_os.Task.{running, Scheduler}
use rpi4_bare_metal_os.Task.Invariant.{state_of}
use rpi4_bare_metal_os.Task.Calls.{task_create, task_kill}
use rpi4_bare_metal_os.Task.Calls.Create.{task_create_lem}
use rpi4_bare_metal_os.Task.Calls.Kill.{task_kill_lem}
use rpi4_bare_metal_os.Task.System.{Reach, later, create, kill, Reach-IsSafe}
use rpi4_bare_metal_os.Kernel.Commands.{Board}

-- The code of one of the demo tasks.
abbrev pub IsDemo : Board → (entry_point : ℕ) → Type 0
IsDemo board entry_point =
    (entry_point ≡ board.task_counter)
    ⊎ ((entry_point ≡ board.task_spinner) ⊎ (entry_point ≡ board.task_memtest))

-- The calls by which a command leads from one state of the scheduler to another: demo tasks are
-- created, and tasks killed, by the task that runs.
pub data Calls (board : Board) (s : Scheduler) : Scheduler → Type 0 where
  no_call : Calls board s s
  creates :
      {t t' : Scheduler} (entry_point : ℕ) (name : List ℕ)
      → Calls board s t
      → IsDemo board entry_point
      → state_of t t.current_task ≡ running
      → task_create board.layout entry_point name t ≡ some t'
      → Calls board s t'
  kills :
      {t t' : Scheduler} (id : ℕ) (done : Bool)
      → Calls board s t
      → state_of t t.current_task ≡ running
      → task_kill id t ≡ some (t', done)
      → Calls board s t'

pub Calls-Reach :
    {board : Board} {s t : Scheduler}
    → Calls board s t
    → Reach board.layout s
    → Reach board.layout t
Calls-Reach no_call r = r
Calls-Reach (creates entry_point name calls demo runs h) r =
    later (Calls-Reach calls r) (create entry_point name runs h)
Calls-Reach (kills id done calls runs h) r = later (Calls-Reach calls r) (kill id done runs h)

-- From `s`, which the system can be in with its caller running, calls lead to `s'`, and the caller
-- still runs.
abbrev pub Moved : Board → Scheduler → Scheduler → Type 0
Moved board s s' =
    Reach board.layout s
    → state_of s s.current_task ≡ running
    → Calls board s s'
      × (s'.current_task ≡ s.current_task)
      × (state_of s' s'.current_task ≡ running)

module _ {board : Board} {s t : Scheduler} (before : Moved board s t) where
  pub created :
      (entry_point : ℕ) (name : List ℕ) (s' : Scheduler)
      → IsDemo board entry_point
      → task_create board.layout entry_point name t ≡ some s'
      → Moved board s s'
  created entry_point name s' demo h r runs =
      let (calls, current, runs') = before r runs in
      let (u, done, answer) =
        task_create_lem (Reach-IsSafe (Calls-Reach calls r)).inv board.layout entry_point name
          runs' in
      let same : u ≡ s' = cc (done, h) in
      (
        creates entry_point name calls demo runs' h,
        elim answer [
          | inl (p, is, new) ↦ ground (arith, same, current, new.current)
          | inr (kept, full) ↦ ground (arith, same, current, kept)
        ],
        elim answer [
          | inl (p, is, new) ↦
              ground (arith, runs', same, new.was_dead, new.current, new.others t.current_task)
          | inr (kept, full) ↦ ground (arith, runs', same, kept)
        ],
      )

  pub killed :
      (id : ℕ) (s' : Scheduler) (done : Bool) → task_kill id t ≡ some (s', done) → Moved board s s'
  killed id s' done h r runs =
      let (calls, current, runs') = before r runs in
      let (u, done', answer) = task_kill_lem (Reach-IsSafe (Calls-Reach calls r)).inv id in
      let same : u.0 ≡ s' = cc (done', h) in
      (
        kills id done calls runs' h,
        elim answer [
          | inl (yes_, (p, gone)) ↦ ground (arith, same, current, gone.current)
          | inr (no_, spared) ↦ ground (arith, same, current, spared.same)
        ],
        elim answer [
          | inl (yes_, (p, gone)) ↦
              ground (arith, runs', same, gone.not_caller, gone.current, gone.others t.current_task)
          | inr (no_, spared) ↦ ground (arith, runs', same, spared.same)
        ],
      )

pub stays : {board : Board} {s : Scheduler} → Moved board s s
stays r runs = (no_call, refl, runs)
