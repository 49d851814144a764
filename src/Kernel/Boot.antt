-- ===== src/Kernel/Boot.antt =====
-- What kernel_main of src/kernel.c has set up when its loop starts.
use rpi4_bare_metal_os.Prelude.{ℕ, ◌^◌, ◌<◌, ◌≡◌, refl, true, [], arith}
use rpi4_bare_metal_os.Memory.Heap.{memory_init}
use rpi4_bare_metal_os.Memory.Heap.Invariant.{IsHeap}
use rpi4_bare_metal_os.Memory.Heap.Init.{memory_init-IsHeap}
use rpi4_bare_metal_os.Fs.Tree.{IsTree}
use rpi4_bare_metal_os.Fs.Init.{fs_init-IsTree}
use rpi4_bare_metal_os.Fs.Api.{fs_init}
use rpi4_bare_metal_os.Fs.{alloc_node}
use rpi4_bare_metal_os.Task.Calls.{Layout}
use rpi4_bare_metal_os.Task.System.{Reach, start}
use rpi4_bare_metal_os.Timer.{CoreTimer, ticks_of, timer_init}
use rpi4_bare_metal_os.Gic.{
  core_timer_irq_ctrl, cntp_irq_enable, gicd_ctlr, gicc_ctlr, gicc_pmr, gicd_isenabler, gic_init,
  gic_enable_interrupt, gic_enable_timer_irq,
}
use rpi4_bare_metal_os.Smp.{smp_init}
use rpi4_bare_metal_os.Smp.Stacks.{Started, smp_init-Started}
use rpi4_bare_metal_os.Mmu.{mmu_init}
use rpi4_bare_metal_os.Mmu.Walk.{translate}
use rpi4_bare_metal_os.Mmu.Identity.{IsPlaced, identity, translate-mmu_init}
use rpi4_bare_metal_os.Kernel.{Kernel}
use rpi4_bare_metal_os.Kernel.Main.{Machine, timer_irq, boot}

-- Memory, files, tables, timer, interrupts, tasks and cores, as the shell finds them.
pub record Booted (layout : Layout) (machine : Machine) (k : Kernel) (c : CoreTimer) : Type 0 where
  pub heap : IsHeap k.fs.memory [] []
  pub tree : IsTree k.fs (λ p. [])
  pub at_root : k.fs.cwd ≡ k.fs.root
  pub mapped : (va : ℕ) → va < 2 ^ 48 → translate machine.tables k.mmu va ≡ identity va
  pub armed : (c.cntp_tval ≡ ticks_of machine.freq 100) × (c.cntp_ctl ≡ 1)
  pub interval : k.timer.timer_interval ≡ ticks_of machine.freq 100
  pub controller_on : (k.gic gicd_ctlr ≡ 1) × (k.gic gicc_ctlr ≡ 1) × (k.gic gicc_pmr ≡ 0xFF)
  pub timer_enabled :
      (k.gic gicd_isenabler ≡ 2 ^ timer_irq) × (k.gic (core_timer_irq_ctrl 0) ≡ cntp_irq_enable)
  pub cores : Started machine.core_stacks k.smp
  pub shared :
      (k.smp.smp_shared_ttbr0 ≡ machine.tables.l0)
      × (k.smp.smp_shared_tcr ≡ k.mmu.tcr)
      × (k.smp.smp_shared_mair ≡ k.mmu.mair)
  pub tasks : Reach layout k.scheduler
  pub enabled : k.scheduler_enabled ≡ true

-- On a machine whose memory reads back what is written to it and whose page tables are placed in four
-- different pages, kernel_main reaches its loop with an empty heap, the root as the only directory,
-- the identity mapping, the timer armed and its interrupt enabled for core 0, stacks and tables for
-- the other cores, and the scheduler started and enabled.
pub boot-Booted :
    (layout : Layout) (machine : Machine) (k : Kernel) (c : CoreTimer)
    → machine.bitmap_writable ≡ true
    → machine.heap_writable ≡ true
    → IsPlaced machine.tables
    → Booted layout machine (boot machine (k, c)).0 (boot machine (k, c)).1
unfolding boot fs_init alloc_node timer_init gic_init gic_enable_interrupt gic_enable_timer_irq
    smp_init mmu_init
boot-Booted layout machine k c bitmap_ok heap_ok placed =
    let (heap, reserved) = memory_init-IsHeap k.fs.memory in
    let (tree, used, at_root) =
      fs_init-IsTree (record k.fs { memory = memory_init true true k.fs.memory }) in
    record {
      heap = rw (bitmap_ok, heap_ok) heap;
      tree = rw (bitmap_ok, heap_ok) tree;
      at_root = refl;
      mapped = λ va lt. translate-mmu_init machine.tables k.mmu va placed lt;
      armed = (refl, refl);
      interval = refl;
      controller_on = ground arith;
      timer_enabled = ground arith;
      cores =
          smp_init-Started machine.core_stacks machine.secondary_entry
            (mmu_init machine.tables k.mmu).ttbr0 (mmu_init machine.tables k.mmu).tcr
            (mmu_init machine.tables k.mmu).mair k.smp;
      shared = (refl, refl, refl);
      tasks = start k.scheduler;
      enabled = refl;
    }
