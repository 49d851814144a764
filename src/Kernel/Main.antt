-- ===== src/Kernel/Main.antt =====
-- kernel_main of src/kernel.c: the boot up to the shell's loop, and a turn of that loop.
use rpi4_bare_metal_os.Prelude.{ℕ, Bool, true, Option, some, List, [], ◌∷◌, ◌++◌, ◌>>=◌}
use rpi4_bare_metal_os.Uart.Print.{Print, puts, say}
use rpi4_bare_metal_os.Memory.Heap.{memory_init}
use rpi4_bare_metal_os.Fs.Api.{fs_init, fs_get_path}
use rpi4_bare_metal_os.Task.Calls.{scheduler_init}
use rpi4_bare_metal_os.Shell.Editor.{shell_readline}
use rpi4_bare_metal_os.Timer.{CoreTimer, timer_init}
use rpi4_bare_metal_os.Gic.{gic_init, gic_enable_interrupt, gic_enable_timer_irq}
use rpi4_bare_metal_os.Smp.{smp_init}
use rpi4_bare_metal_os.Mmu.{TableAddrs, MmuState, mmu_init}
use rpi4_bare_metal_os.Kernel.{Kernel}
use rpi4_bare_metal_os.Kernel.Files.{fs_path_max}
use rpi4_bare_metal_os.Kernel.Write.{Reply}
use rpi4_bare_metal_os.Kernel.Commands.{Board, process_command}

-- Addresses that the linker fixes, and whether the memory reads back what is written to it.
pub record Machine : Type 0 where
  pub tables : TableAddrs
  pub core_stacks : ℕ
  pub secondary_entry : ℕ
  pub freq : ℕ
  pub bitmap_writable : Bool
  pub heap_writable : Bool

-- The interrupt number of the timer.
abbrev pub timer_irq : ℕ
timer_irq = 30

-- kernel_main up to its loop, without the UART and the text; the wait of smp_init is left out.
unfoldable pub boot : Machine → Kernel × CoreTimer → Kernel × CoreTimer
boot machine (k, c) =
    let (timer, c') = timer_init machine.freq 100 (k.timer, c) in
    let mmu : MmuState = mmu_init machine.tables k.mmu in
    (
      record {
        fs = fs_init (record k.fs {
          memory = memory_init machine.bitmap_writable machine.heap_writable k.fs.memory;
        });
        scheduler = scheduler_init k.scheduler;
        history = k.history;
        timer = timer;
        smp = smp_init machine.core_stacks machine.secondary_entry mmu.ttbr0 mmu.tcr mmu.mair k.smp;
        gic = gic_enable_timer_irq (gic_enable_interrupt timer_irq (gic_init k.gic));
        mmu = mmu;
        scheduler_enabled = true;
      },
      c',
    )

unfoldable pub print_prompt : Kernel → List Print
print_prompt k = say "rpi4:" ∷ puts (fs_get_path k.fs.cwd fs_path_max k.fs) ∷ say "> " ∷ []

-- One turn: the prompt, a line, and its command; `none` while the line, or the text of a write, is
-- not ended.
unfoldable pub shell_turn : Board → (input : List ℕ) → Kernel → Option Reply
shell_turn board input k = do
  r ← shell_readline input k.history
  reply ← process_command board r.0 r.2 (record k { history = r.1 })
  some (record reply { printed = print_prompt k ++ reply.printed })
