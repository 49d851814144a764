-- ===== src/Kernel/Carried.antt =====
-- What a command of src/kernel.c leaves, and the commands for tasks and memory.
use rpi4_bare_metal_os.Prelude.{
  ℕ, ◌%◌, ◌^◌, ◌≡◌, List, ◌==◌, length, refl, All, all_some, All-if, All-bind, All-then, Bool-cases,
  inl, inr,
}
use rpi4_bare_metal_os.Text.{parse_num}
use rpi4_bare_metal_os.Uart.Print.{Print, bytes}
use rpi4_bare_metal_os.Memory.Heap.{MemoryState, kmalloc}
use rpi4_bare_metal_os.Fs.{FsState}
use rpi4_bare_metal_os.Fs.Treed.{Treed, Treed-memory}
use rpi4_bare_metal_os.Memory.Pages.{page_free}
use rpi4_bare_metal_os.Task.{Scheduler}
use rpi4_bare_metal_os.Task.Calls.{task_create, task_kill}
use rpi4_bare_metal_os.Kernel.{Kernel}
use rpi4_bare_metal_os.Kernel.Args.{skip_spaces}
use rpi4_bare_metal_os.Kernel.Memory.{cmd_alloc, cmd_pgfree, parse_address}
use rpi4_bare_metal_os.Kernel.Write.{Reply}
use rpi4_bare_metal_os.Kernel.Commands.{Board, cmd_kill, cmd_spawn, cmd_memtest}
use rpi4_bare_metal_os.Kernel.Steps.{Moved, stays, created, killed}

-- What a command leaves: the scheduler by calls of the running task, the directories a tree if they
-- were one, the scheduler enabled as it was, and the hardware and its variables untouched.
pub record Carried (board : Board) (k k' : Kernel) : Type 0 where
  pub enabled : k'.scheduler_enabled ≡ k.scheduler_enabled
  pub machine : (k'.timer ≡ k.timer) × (k'.smp ≡ k.smp) × (k'.gic ≡ k.gic) × (k'.mmu ≡ k.mmu)
  pub moved : Moved board k.scheduler k'.scheduler
  pub tree : Treed k.fs → Treed k'.fs

module _ (board : Board) (k : Kernel) where
  abbrev pub Fine : Kernel × List Print → Type 0
  Fine r = Carried board k r.0

  abbrev pub FineReply : Reply → Type 0
  FineReply r = Carried board k r.kernel

  -- A command that only prints.
  pub same : Carried board k k
  same = record { enabled = refl; machine = (refl, refl, refl, refl); moved = stays; tree = λ t. t }

  pub by_scheduler :
      (s' : Scheduler) → Moved board k.scheduler s' → Carried board k (record k { scheduler = s' })
  by_scheduler s' moved = record {
    enabled = refl;
    machine = (refl, refl, refl, refl);
    moved = moved;
    tree = λ t. t;
  }

  -- The state of kmalloc is no part of the tree.
  pub by_memory : (m : MemoryState) → Carried board k (record k { fs = record k.fs { memory = m } })
  by_memory m = record {
    enabled = refl;
    machine = (refl, refl, refl, refl);
    moved = stays;
    tree = Treed-memory m;
  }

  pub by_fs : (fs' : FsState) → (Treed k.fs → Treed fs') → Carried board k (record k { fs = fs' })
  by_fs fs' tree = record {
    enabled = refl;
    machine = (refl, refl, refl, refl);
    moved = stays;
    tree = tree;
  }

  pub kill_moves : (text : List ℕ) → All Fine (cmd_kill text k)
  unfolding cmd_kill
  kill_moves text =
      let id : ℕ = parse_num (skip_spaces text) in
      All-if Fine (length (skip_spaces text) == 0) (all_some same) (
        All-if Fine (id == 0) (all_some same) (
          All-then Fine (λ r. Moved board k.scheduler r.0) (task_kill (id % 2 ^ 32) k.scheduler)
            (λ r h. killed stays (id % 2 ^ 32) r.0 r.1 h)
            (λ r moved. all_some (by_scheduler r.0 moved))))

  pub memtest_moves : All Fine (cmd_memtest board k)
  unfolding cmd_memtest
  memtest_moves =
      All-then Fine (Moved board k.scheduler)
        (task_create board.layout board.task_memtest (bytes "memtest") k.scheduler)
        (λ s h. created stays board.task_memtest (bytes "memtest") s (inr (inr refl)) h)
        (λ s moved. all_some (by_scheduler s moved))

  pub spawn_moves : All Fine (cmd_spawn board k)
  unfolding cmd_spawn
  spawn_moves =
      All-then Fine (Moved board k.scheduler)
        (task_create board.layout board.task_counter (bytes "counter") k.scheduler)
        (λ s h. created stays board.task_counter (bytes "counter") s (inl refl) h)
        (λ s moved.
          All-then Fine (Moved board k.scheduler)
            (task_create board.layout board.task_spinner (bytes "spinner") s)
            (λ t h. created moved board.task_spinner (bytes "spinner") t (inr (inl refl)) h)
            (λ t moved'. all_some (by_scheduler t moved')))

  pub alloc_moves : (text : List ℕ) → All Fine (cmd_alloc board.fuel text k)
  unfolding cmd_alloc
  alloc_moves text = All-if Fine (parse_num text == 0) (all_some same) (
      All-bind Fine (kmalloc board.fuel (parse_num text) k.fs.memory)
        (λ r. all_some (by_memory r.0)))

  pub pgfree_moves : (text : List ℕ) → Fine (cmd_pgfree text k)
  unfolding cmd_pgfree
  pgfree_moves text = elim (Bool-cases (parse_address text == 0)) [
    | inl e ↦ rw e same
    | inr e ↦ rw e (
        by_memory (record k.fs.memory { pages = page_free (parse_address text) k.fs.memory.pages }))
  ]
