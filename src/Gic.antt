-- ===== src/Gic.antt =====
-- The interrupt controller of src/drivers/gic.c. The registers are words of 32 bits by address.
pub mod Lanes
mod Tests
use rpi4_bare_metal_os.Prelude.{
  ℕ, ◌+◌, ◌-◌, ◌*◌, ◌/◌, ◌%◌, ◌^◌, Bool, false, not, ltb, leb, ◌==◌, if◌then◌else◌, update, bit_and,
  bit_or,
}

abbrev pub gic_base : ℕ
gic_base = 0xFF840000

abbrev pub gicd_base : ℕ
gicd_base = gic_base + 0x1000

abbrev pub gicd_ctlr : ℕ
gicd_ctlr = gicd_base + 0x000

abbrev pub gicd_isenabler : ℕ
gicd_isenabler = gicd_base + 0x100

abbrev pub gicd_ipriorityr : ℕ
gicd_ipriorityr = gicd_base + 0x400

abbrev pub gicd_itargetsr : ℕ
gicd_itargetsr = gicd_base + 0x800

abbrev pub gicc_base : ℕ
gicc_base = gic_base + 0x2000

abbrev pub gicc_ctlr : ℕ
gicc_ctlr = gicc_base + 0x000

abbrev pub gicc_pmr : ℕ
gicc_pmr = gicc_base + 0x004

abbrev pub gicc_iar : ℕ
gicc_iar = gicc_base + 0x00C

abbrev pub gicc_eoir : ℕ
gicc_eoir = gicc_base + 0x010

abbrev pub arm_local_base : ℕ
arm_local_base = 0xFF800000

abbrev pub core_timer_irq_ctrl : ℕ → ℕ
core_timer_irq_ctrl n = arm_local_base + 0x40 + n * 4

abbrev pub core_irq_source : ℕ → ℕ
core_irq_source n = arm_local_base + 0x60 + n * 4

abbrev pub cntp_irq_enable : ℕ
cntp_irq_enable = 1 * 2 ^ 1

abbrev pub irq_source_cntp : ℕ
irq_source_cntp = 1 * 2 ^ 1

abbrev pub Registers : Type 0
Registers = ℕ → ℕ

unfoldable pub gic_init_core : Registers → Registers
gic_init_core r = update (update (update r gicc_ctlr 0) gicc_pmr 0xFF) gicc_ctlr 1

unfoldable pub gic_init : Registers → Registers
gic_init r =
    update (update (update (update (update r gicd_ctlr 0) gicc_ctlr 0) gicc_pmr 0xFF) gicd_ctlr 1)
      gicc_ctlr 1

-- `val &= ~(0xFF << shift); val |= (byte << shift);`, 32 bits wide; `shift` is 8 * lane
unfoldable pub put_lane : (lane byte val : ℕ) → ℕ
put_lane lane byte val =
    let shift : ℕ = lane * 8 in
    bit_or (bit_and val (2 ^ 32 - 1 - 0xFF * 2 ^ shift)) (byte * 2 ^ shift)

unfoldable pub gic_enable_interrupt : (int_id : ℕ) → Registers → Registers
gic_enable_interrupt int_id r =
    let reg : ℕ = int_id / 4 in
    let lane : ℕ = int_id % 4 in
    let prio : ℕ = gicd_ipriorityr + reg * 4 in
    let tgt : ℕ = gicd_itargetsr + reg * 4 in
    let r' : Registers = update r prio (put_lane lane 0xA0 (r prio)) in
    let r'' : Registers = update r' tgt (put_lane lane 0x01 (r' tgt)) in
    update r'' (gicd_isenabler + int_id / 32 * 4) (1 * 2 ^ (int_id % 32))

unfoldable pub gic_enable_timer_irq : Registers → Registers
gic_enable_timer_irq r = update r (core_timer_irq_ctrl 0) cntp_irq_enable

unfoldable pub gic_enable_timer_irq_core : (core_id : ℕ) → Registers → Registers
gic_enable_timer_irq_core core_id r =
    if ltb core_id 4 then update r (core_timer_irq_ctrl core_id) cntp_irq_enable else r

unfoldable pub gic_timer_irq_pending : Registers → Bool
gic_timer_irq_pending r = not (bit_and (r (core_irq_source 0)) irq_source_cntp == 0)

unfoldable pub gic_timer_irq_pending_core : (core_id : ℕ) → Registers → Bool
gic_timer_irq_pending_core core_id r =
    if leb 4 core_id
    then false
    else not (bit_and (r (core_irq_source core_id)) irq_source_cntp == 0)

unfoldable pub gic_get_interrupt : Registers → ℕ
gic_get_interrupt r = bit_and (r gicc_iar) 0x3FF

unfoldable pub gic_end_interrupt : (int_id : ℕ) → Registers → Registers
gic_end_interrupt int_id r = update r gicc_eoir int_id
