-- ===== src/Gic/Tests.antt =====
-- Runs of the interrupt controller of src/drivers/gic.c.
use rpi4_bare_metal_os.Prelude.{arith}
use rpi4_bare_metal_os.Gic.{Registers, gic_enable_interrupt}
use rpi4_bare_metal_os.Gic.Lanes.{Enabled, gic_enable_interrupt-Enabled}

abbrev reset : Registers
reset addr = 0x01020304

-- the timer's interrupt, as kernel_main enables it
gic_enable_interrupt-Enabled_example : Enabled 30 reset (gic_enable_interrupt 30 reset)
gic_enable_interrupt-Enabled_example =
    gic_enable_interrupt-Enabled 30 reset (omega arith) (λ addr. omega arith)
