-- ===== src/Kernel.antt =====
-- The kernel of src/kernel.c: its state, and the timer interrupt.
pub mod Irq
pub mod Show
pub mod Args
pub mod Memory
pub mod Files
pub mod Write
pub mod Commands
pub mod Hex
pub mod Bounds
pub mod Typed
pub mod Steps
pub mod Carried
pub mod Moves
pub mod Ends
pub mod Process
pub mod Stored
pub mod Kill
pub mod Main
pub mod Boot
pub mod Demo
pub mod Memtest
pub mod System
mod Tests
use rpi4_bare_metal_os.Prelude.{
  ℕ, ◌+◌, ◌%◌, ◌^◌, Bool, true, false, Option, none, some, ◌==◌, if◌then◌else◌, update, ◌>>=◌,
  bit_and,
}
use rpi4_bare_metal_os.Fs.{FsState}
use rpi4_bare_metal_os.Task.{Scheduler, schedule_irq}
use rpi4_bare_metal_os.Shell.{History}
use rpi4_bare_metal_os.Timer.{Timer, CoreTimer, timer_handle_irq}
use rpi4_bare_metal_os.Smp.{CoreInfo, SmpState, smp_get_core_info}
use rpi4_bare_metal_os.Gic.{Registers}
use rpi4_bare_metal_os.Mmu.{MmuState}

-- The variables of all the files, and the registers of the interrupt controller. The state of kmalloc
-- is in `fs`.
pub record Kernel : Type 0 where
  pub fs : FsState
  pub scheduler : Scheduler
  pub history : History
  pub timer : Timer
  pub smp : SmpState
  pub gic : Registers
  pub mmu : MmuState
  pub scheduler_enabled : Bool

-- `ci->ticks++`
abbrev pub count_tick : (core : ℕ) → (ℕ → CoreInfo) → ℕ → CoreInfo
count_tick core cores =
    let ci : ℕ = smp_get_core_info core in
    update cores ci (record (cores ci) { ticks = ((cores ci).ticks + 1) % 2 ^ 64 })

-- `ctl` is what the core reads in the control register of its timer; bit 2 says that the time is up.
-- The answer is the stack pointer to go on with.
unfoldable pub irq_handler_c :
    (freq core ctl sp : ℕ) → Kernel × CoreTimer → Option ((Kernel × CoreTimer) × ℕ)
irq_handler_c freq core ctl sp (k, c) =
    let (timer, c') = timer_handle_irq freq (k.timer, c) in
    let k' : Kernel = record k {
      timer = timer;
      smp = record k.smp { cores = count_tick core k.smp.cores };
    } in
    if bit_and ctl 0x4 == 0
    then some ((k, c), sp)
    else (if k.scheduler_enabled
        then (do
          r ← schedule_irq timer.tick_count sp k.scheduler
          some ((record k' { scheduler = r.0 }, c'), r.1))
        else some ((k', c'), sp))
