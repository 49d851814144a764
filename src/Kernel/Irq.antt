-- ===== src/Kernel/Irq.antt =====
-- The timer interrupt of src/kernel.c, with the timer, the counts of the cores and the scheduler.
use rpi4_bare_metal_os.Prelude.{
  ℕ, ◌+◌, ◌%◌, ◌^◌, ◌<◌, ◌≡◌, ◌≢◌, refl, true, false, some, if◌then◌else◌, ◌==◌, bit_and, arith,
  List, leb,
}
use rpi4_bare_metal_os.Task.Calls.{Layout}
use rpi4_bare_metal_os.Task.System.{Reach, Reach-Switched}
use rpi4_bare_metal_os.Task.Invariant.{IsScheduler}
use rpi4_bare_metal_os.Task.Requeue.{can_run}
use rpi4_bare_metal_os.Task.Schedule.{Switched}
use rpi4_bare_metal_os.Timer.{CoreTimer, ticks_of, timer_handle_irq}
use rpi4_bare_metal_os.Smp.{num_cores}
use rpi4_bare_metal_os.Kernel.{Kernel, count_tick, irq_handler_c}

-- What one interrupt of core `core` leaves: a tick more, the timer armed again, and the first task
-- that can run at the new tick in place of the interrupted one.
pub record Ticked (freq core sp : ℕ) (k k' : Kernel) (c' : CoreTimer) (sp' : ℕ) : Type 0 where
  pub uptime : k'.timer.tick_count ≡ (k.timer.tick_count + 1) % 2 ^ 64
  pub interval : k'.timer.timer_interval ≡ k.timer.timer_interval
  pub armed :
      c'.cntp_tval
      ≡ (if k.timer.timer_interval == 0 then ticks_of freq 100 else k.timer.timer_interval)
  pub ticks : (k'.smp.cores core).ticks ≡ ((k.smp.cores core).ticks + 1) % 2 ^ 64
  pub others : (i : ℕ) → i ≢ core → k'.smp.cores i ≡ k.smp.cores i
  pub untouched :
      (k'.fs ≡ k.fs)
      × (k'.history ≡ k.history)
      × (k'.mmu ≡ k.mmu)
      × (k'.gic ≡ k.gic)
      × (k'.scheduler_enabled ≡ k.scheduler_enabled)
  pub queue : List ℕ
  pub inv : IsScheduler k.scheduler queue
  pub switched : Switched k'.timer.tick_count sp k.scheduler queue k'.scheduler sp'
  pub runnable : can_run k'.timer.tick_count k.scheduler k'.scheduler.current_task ≡ true

-- While the scheduler is enabled, and in every state of it that steps lead to, an interrupt of a core
-- whose time is up returns: a tick is counted, for the system and for the core, the timer is armed
-- again, and the first task that is ready or whose time has come at the new tick goes on.
pub irq_handler_c-Ticked :
    {layout : Layout} (freq core ctl sp : ℕ) (k : Kernel) (c : CoreTimer)
    → Reach layout k.scheduler
    → core < num_cores
    → (bit_and ctl 0x4 == 0) ≡ false
    → k.scheduler_enabled ≡ true
    → (k' : Kernel) × (c' : CoreTimer) × (sp' : ℕ) × (irq_handler_c freq core ctl sp (k, c)
        ≡ some ((k', c'), sp'))
      × Ticked freq core sp k k' c' sp'
unfolding irq_handler_c timer_handle_irq
irq_handler_c-Ticked freq core ctl sp k c r lt up on =
    let (queue, s', sp', done, inv, sw, can) =
      Reach-Switched ((k.timer.tick_count + 1) % 2 ^ 64) sp r in
    let (timer, c') = timer_handle_irq freq (k.timer, c) in
    let k' : Kernel = record k {
      timer = timer;
      smp = record k.smp { cores = count_tick core k.smp.cores };
      scheduler = s';
    } in
    let core' : leb num_cores core ≡ false = ground arith in
    (
      k',
      c',
      sp',
      rw (up, on, done) refl,
      record {
        uptime = refl;
        interval = refl;
        armed = refl;
        ticks = ground (arith, core');
        others = λ i ne. ground (arith, core');
        untouched = (refl, refl, refl, refl, refl);
        queue = queue;
        inv = inv;
        switched = sw;
        runnable = can;
      },
    )
