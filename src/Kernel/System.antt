-- ===== src/Kernel/System.antt =====
-- The kernel as a whole, on core 0: the boot of src/kernel.c, and then the timer interrupt, the turns
-- of the shell's loop and the calls of the other tasks, in any order.
use rpi4_bare_metal_os.Prelude.{
  ◌∙◌, List, ℕ, ◌≡◌, ◌≢◌, refl, true, false, List, some, arith, ◌==◌, bit_and, All, all_some,
  All-if, All-bind, All-then, All-at,
}
use rpi4_bare_metal_os.Memory.Heap.{memory_init}
use rpi4_bare_metal_os.Fs.Tree.{IsTree}
use rpi4_bare_metal_os.Fs.Path.{fs_resolve}
use rpi4_bare_metal_os.Fs.Resolve.{Lands, fs_resolve-Lands}
use rpi4_bare_metal_os.Fs.Treed.{Treed}
use rpi4_bare_metal_os.Fs.Init.{fs_init-IsTree}
use rpi4_bare_metal_os.Shell.Editor.{shell_readline}
use rpi4_bare_metal_os.Task.{Scheduler, running, schedule_irq}
use rpi4_bare_metal_os.Task.Invariant.{state_of}
use rpi4_bare_metal_os.Task.System.{shell, Step, irq, Reach, start, later}
use rpi4_bare_metal_os.Timer.{CoreTimer, timer_handle_irq}
use rpi4_bare_metal_os.Kernel.{Kernel, irq_handler_c}
use rpi4_bare_metal_os.Kernel.Irq.{Ticked, irq_handler_c-Ticked}
use rpi4_bare_metal_os.Kernel.Write.{Reply}
use rpi4_bare_metal_os.Kernel.Commands.{Board, process_command}
use rpi4_bare_metal_os.Kernel.Main.{Machine, boot, shell_turn}
use rpi4_bare_metal_os.Kernel.Moves.{process_command-Carried}
use rpi4_bare_metal_os.Kernel.Steps.{Calls-Reach}

-- What core 0 may do next, with `freq` the frequency of the counter.
pub data KernelStep (board : Board) (k : Kernel) (c : CoreTimer) : Kernel → CoreTimer → Type 0 where
  interrupt :
      {k' : Kernel} {c' : CoreTimer} (ctl sp sp' : ℕ)
      → irq_handler_c board.freq 0 ctl sp (k, c) ≡ some ((k', c'), sp')
      → KernelStep board k c k' c'
  shell_goes :
      (input : List ℕ) (r : Reply)
      → k.scheduler.current_task ≡ shell
      → state_of k.scheduler shell ≡ running
      → shell_turn board input k ≡ some r
      → KernelStep board k c r.kernel c
  task_goes :
      (s' : Scheduler)
      → k.scheduler.current_task ≢ shell
      → Step board.layout k.scheduler s'
      → KernelStep board k c (record k { scheduler = s' }) c

pub data KernelReach (board : Board) (machine : Machine) : Kernel → CoreTimer → Type 0 where
  booted :
      (k : Kernel) (c : CoreTimer)
      → KernelReach board machine (boot machine (k, c)).0 (boot machine (k, c)).1
  goes_on :
      {k k' : Kernel} {c c' : CoreTimer}
      → KernelReach board machine k c
      → KernelStep board k c k' c'
      → KernelReach board machine k' c'

-- The scheduler is enabled, and in a state that its steps lead to; the directories are a tree.
pub record Sound (board : Board) (k : Kernel) : Type 0 where
  pub enabled : k.scheduler_enabled ≡ true
  pub reach : Reach board.layout k.scheduler
  pub tree : Treed k.fs

module _ (board : Board) (k : Kernel) (c : CoreTimer) (sound : Sound board k) where
  irq-Sound :
      (ctl sp : ℕ)
      → All
          (λ (r : (Kernel × CoreTimer) × ℕ). Sound board r.0.0)
          (irq_handler_c board.freq 0 ctl sp (k, c))
  unfolding irq_handler_c
  irq-Sound ctl sp =
      let P = λ (r : (Kernel × CoreTimer) × ℕ). Sound board r.0.0 in
      let now : ℕ = (timer_handle_irq board.freq (k.timer, c)).0.tick_count in
      All-if P (bit_and ctl 0x4 == 0) (all_some sound) (
        All-if P k.scheduler_enabled
          (All-then P (λ r. Reach board.layout r.0) (schedule_irq now sp k.scheduler)
            (λ r h. later sound.reach (irq now sp r.1 h))
            (λ r reach.
              all_some (record { enabled = sound.enabled; reach = reach; tree = sound.tree })))
          (all_some (record { enabled = sound.enabled; reach = sound.reach; tree = sound.tree })))

  turn-Sound :
      (input : List ℕ)
      → k.scheduler.current_task ≡ shell
      → state_of k.scheduler shell ≡ running
      → All (λ (r : Reply). Sound board r.kernel) (shell_turn board input k)
  unfolding shell_turn
  turn-Sound input is_shell runs =
      let P = λ (r : Reply). Sound board r.kernel in
      let runs' : state_of k.scheduler k.scheduler.current_task ≡ running = rw is_shell runs in
      All-bind P (shell_readline input k.history) (λ line.
        All-then P P (process_command board line.0 line.2 (record k { history = line.1 }))
          (λ r h.
            let c =
              process_command-Carried board (record k { history = line.1 }) line.0 line.2 r h in
            record {
              enabled = c.enabled ∙ sound.enabled;
              reach = Calls-Reach (c.moved sound.reach runs').0 sound.reach;
              tree = c.tree sound.tree;
            })
          (λ r ok. all_some ok))

  step-Sound : {k' : Kernel} {c' : CoreTimer} → KernelStep board k c k' c' → Sound board k'
  step-Sound (interrupt ctl sp sp' h) =
      All-at (λ (r : (Kernel × CoreTimer) × ℕ). Sound board r.0.0)
        (irq_handler_c board.freq 0 ctl sp (k, c)) (irq-Sound ctl sp) _ h
  step-Sound (shell_goes input r is_shell runs h) =
      All-at (λ (r' : Reply). Sound board r'.kernel) (shell_turn board input k)
        (turn-Sound input is_shell runs) r h
  step-Sound (task_goes s' other st) = record {
    enabled = sound.enabled;
    reach = later sound.reach st;
    tree = sound.tree;
  }

KernelReach-Sound :
    {board : Board} {machine : Machine} {k : Kernel} {c : CoreTimer}
    → KernelReach board machine k c
    → Sound board k
unfolding boot
KernelReach-Sound {board} {machine} (booted k c) =
    let m = memory_init machine.bitmap_writable machine.heap_writable k.fs.memory in
    record {
      enabled = refl;
      reach = start k.scheduler;
      tree = (_, (fs_init-IsTree (record k.fs { memory = m })).0);
    }
KernelReach-Sound {board} (goes_on {k} {k'} {c} {c'} r st) =
    step-Sound board k c (KernelReach-Sound r) st

-- From the boot on, whatever the interrupt, the turns of the shell and the calls of the other tasks
-- do in whatever order: when the time of core 0 is up, its interrupt returns, a tick is counted, the
-- timer is armed again, and the first task that is ready or whose time has come goes on.
pub KernelReach-Ticked :
    {board : Board} {machine : Machine} {k : Kernel} {c : CoreTimer} (ctl sp : ℕ)
    → KernelReach board machine k c
    → (bit_and ctl 0x4 == 0) ≡ false
    → (k' : Kernel) × (c' : CoreTimer) × (sp' : ℕ) × (irq_handler_c board.freq 0 ctl sp (k, c)
        ≡ some ((k', c'), sp'))
      × Ticked board.freq 0 sp k k' c' sp'
KernelReach-Ticked {board} {machine} {k} {c} ctl sp r up =
    let sound = KernelReach-Sound r in
    irq_handler_c-Ticked board.freq 0 ctl sp k c sound.reach (omega arith) up sound.enabled

-- From the boot on, whatever commands the shell carries out, the directories stay a well-formed tree:
-- every path leads to NULL or to a node that was not removed, and each directory's children are a
-- list without repetitions whose parent it is.
pub KernelReach-Treed :
    {board : Board} {machine : Machine} {k : Kernel} {c : CoreTimer} (path : List ℕ)
    → KernelReach board machine k c
    → (kids : ℕ → List ℕ) × IsTree k.fs kids × Lands k.fs (fs_resolve path k.fs)
KernelReach-Treed path r =
    let (kids, t) = (KernelReach-Sound r).tree in (kids, t, fs_resolve-Lands t path)
