-- ===== src/Smp.antt =====
-- The cores of src/drivers/smp.c, and their counts of ticks. The spin lock is assembly; only core 0
-- takes it.
pub mod Stacks
mod Tests
use rpi4_bare_metal_os.Prelude.{
  ℕ, zero, suc, ◌+◌, ◌*◌, ◌%◌, ◌^◌, Bool, ◌&&◌, not, Option, none, some, List, [], ◌∷◌, bit_and,
  leb, ◌==◌, if◌then◌else◌, update,
}
use rpi4_bare_metal_os.Timer.{Timer, CoreTimer, ticks_of, timer_init}
use rpi4_bare_metal_os.Gic.{Registers, gic_enable_timer_irq_core, gic_init_core}

abbrev pub num_cores : ℕ
num_cores = 4

pub record CoreInfo : Type 0 where
  pub online : ℕ
  pub ticks : ℕ
  pub tasks_run : ℕ

-- The index of the entry that smp_get_core_info points at.
abbrev pub smp_get_core_info : ℕ → ℕ
smp_get_core_info core_id = if leb num_cores core_id then 0 else core_id

abbrev pub core_stack_size : ℕ
core_stack_size = 16 * 1024

pub record SmpState : Type 0 where
  pub cores : ℕ → CoreInfo
  pub smp_stacks : ℕ → ℕ
  pub smp_shared_ttbr0 : ℕ
  pub smp_shared_tcr : ℕ
  pub smp_shared_mair : ℕ
  pub spin_table : ℕ → ℕ

-- `for (i = first; i < first + n; i++)`: the cores are offline.
unfoldable pub reset_cores : (n first : ℕ) → (ℕ → CoreInfo) → ℕ → CoreInfo
reset_cores zero first cores = cores
reset_cores (suc n) first cores =
    reset_cores n (first + 1) (update cores first (record { online = 0; ticks = 0; tasks_run = 0 }))

-- smp_init up to its wait for the other cores: `stacks` is the address of `core_stacks`, `entry` that
-- of `secondary_entry`, and the registers are what core 0 reads.
unfoldable pub smp_init : (stacks entry ttbr0 tcr mair : ℕ) → SmpState → SmpState
smp_init stacks entry ttbr0 tcr mair s = record {
  cores = reset_cores 3 1 (update s.cores 0 (record { online = 1; ticks = 0; tasks_run = 0 }));
  smp_stacks =
      update
        (update (update (update s.smp_stacks 0 0) 1 (stacks + core_stack_size)) 2
          (stacks + core_stack_size + core_stack_size))
        3 (stacks + 2 * core_stack_size + core_stack_size);
  smp_shared_ttbr0 = ttbr0;
  smp_shared_tcr = tcr;
  smp_shared_mair = mair;
  spin_table = update (update (update s.spin_table 0xE0 entry) 0xE8 entry) 0xF0 entry;
}

-- `cores[i].online`, as a test
abbrev pub is_online : (ℕ → CoreInfo) → ℕ → Bool
is_online cores i = not ((cores i).online == 0)

-- The wait of smp_init, over the counter and the cores as they are read in each turn: the cores that
-- are read last, or `none` if the wait goes on.
unfoldable pub smp_wait :
    (deadline : ℕ) → (turns : List (ℕ × (ℕ → CoreInfo))) → Option (ℕ → CoreInfo)
smp_wait deadline [] = none
smp_wait deadline ((now, cores) ∷ later) =
    let rest = smp_wait deadline later in
    if leb deadline now
    then some cores
    else (if is_online cores 1 && is_online cores 2 && is_online cores 3 then some cores else rest)

-- The number of the cores below `n` that are online.
unfoldable pub count_online : (n : ℕ) → (ℕ → CoreInfo) → ℕ
count_online zero cores = 0
count_online (suc n) cores =
    let rest = count_online n cores in if is_online cores n then rest + 1 else rest

-- What a secondary core does before its loop: its own timer, the registers, and its entry.
unfoldable pub secondary_core_main :
    (freq core_id : ℕ)
    → Timer × CoreTimer
    → Registers
    → (ℕ → CoreInfo)
    → (Timer × CoreTimer) × Registers × (ℕ → CoreInfo)
secondary_core_main freq core_id timers r cores = (
  timer_init freq 100 timers,
  gic_init_core (gic_enable_timer_irq_core core_id r),
  update cores core_id (record { online = 1; ticks = 0; tasks_run = 0 }),
)

-- One turn of that loop: `ctl` is what the core reads in its timer's control register.
unfoldable pub secondary_turn :
    (freq core_id ctl : ℕ) → CoreTimer → (ℕ → CoreInfo) → CoreTimer × (ℕ → CoreInfo)
secondary_turn freq core_id ctl c cores = if bit_and ctl 0x4 == 0 then (c, cores) else (
  record c { cntp_tval = ticks_of freq 100 },
  update cores core_id (record (cores core_id) { ticks = ((cores core_id).ticks + 1) % 2 ^ 64 }),
)
