-- ===== src/Smp/Stacks.antt =====
-- Where smp_init of src/drivers/smp.c puts the stacks of the secondary cores.
use rpi4_bare_metal_os.Prelude.{
  ℕ, zero, suc, ◌+◌, ◌*◌, ◌≤◌, ◌<◌, ◌≡◌, arith, if◌then◌else◌, ◌==◌, update, leb, ltb, ◌&&◌,
}
use rpi4_bare_metal_os.Smp.{CoreInfo, SmpState, core_stack_size, num_cores, reset_cores, smp_init}

-- Core 0 alone is online, and the stacks of the others, which grow down from where they start, lie
-- side by side in `core_stacks`.
pub record Started (stacks : ℕ) (s' : SmpState) : Type 0 where
  pub online : (i : ℕ) → i < num_cores → (s'.cores i).online ≡ (if i == 0 then 1 else 0)
  pub counted : (i : ℕ) → i < num_cores → ((s'.cores i).ticks ≡ 0) × ((s'.cores i).tasks_run ≡ 0)
  pub inside :
      (i : ℕ)
      → 0 < i
      → i < num_cores
      → (stacks + core_stack_size ≤ s'.smp_stacks i)
        × (s'.smp_stacks i ≤ stacks + 3 * core_stack_size)
  pub apart :
      (i j : ℕ)
      → 0 < i
      → i < j
      → j < num_cores
      → s'.smp_stacks i + core_stack_size ≤ s'.smp_stacks j

reset_cores_lem :
    (n first : ℕ) (cores : ℕ → CoreInfo) (i : ℕ)
    → reset_cores n first cores i ≡ (
        if leb first i && ltb i (first + n)
        then record { online = 0; ticks = 0; tasks_run = 0 }
        else cores i)
unfolding reset_cores
reset_cores_lem zero first cores i = ground arith
reset_cores_lem (suc n) first cores i = ground (
  arith,
  reset_cores_lem n (first + 1)
      (update cores first (record { online = 0; ticks = 0; tasks_run = 0 })) i,
)

stack_at :
    (stacks entry ttbr0 tcr mair : ℕ) (s : SmpState) (i : ℕ)
    → 0 < i
    → i < num_cores
    → (smp_init stacks entry ttbr0 tcr mair s).smp_stacks i ≡ stacks + i * core_stack_size
unfolding smp_init
stack_at stacks entry ttbr0 tcr mair s i pos lt = ground arith

-- smp_init leaves core 0 as the only core that is online and every count at zero, and it gives the
-- three other cores stacks that lie in the memory set aside for them and do not overlap.
pub smp_init-Started :
    (stacks entry ttbr0 tcr mair : ℕ) (s : SmpState)
    → Started stacks (smp_init stacks entry ttbr0 tcr mair s)
unfolding smp_init
smp_init-Started stacks entry ttbr0 tcr mair s =
    let start = update s.cores 0 (record { online = 1; ticks = 0; tasks_run = 0 }) in
    let at = stack_at stacks entry ttbr0 tcr mair s in
    record {
      online = λ i lt. ground (arith, reset_cores_lem 3 1 start i);
      counted = λ i lt. ground (arith, reset_cores_lem 3 1 start i);
      inside = λ i pos lt. omega (arith, at i pos lt);
      apart = λ i j pos less lt. omega (arith, at i pos (omega arith), at j (omega arith) lt);
    }
