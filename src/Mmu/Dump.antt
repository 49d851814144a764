-- ===== src/Mmu/Dump.antt =====
-- mmu_dump_config of src/drivers/mmu.c, as what it prints of the registers.
use rpi4_bare_metal_os.Prelude.{
  ℕ, ◌-◌, ◌*◌, ◌/◌, ◌^◌, Bool, true, false, List, [], ◌∷◌, ◌==◌, if◌then◌else◌, bit_and,
}
use rpi4_bare_metal_os.Uart.Print.{Print, say, put_dec, put_hex}
use rpi4_bare_metal_os.Mmu.{MmuState}

abbrev on_off : Bool → Print
on_off true = say "ON"
on_off false = say "OFF"

-- `ips_names[ips]`, or the number where the array ends.
abbrev ips_name : ℕ → Print
ips_name ips =
    if ips == 0
    then say "32-bit (4GB)"
    else (if ips == 1
        then say "36-bit (64GB)"
        else (if ips == 2
            then say "40-bit (1TB)"
            else (if ips == 3
                then say "42-bit (4TB)"
                else (if ips == 4
                    then say "44-bit (16TB)"
                    else (if ips == 5 then say "48-bit (256TB)" else put_dec ips)))))

unfoldable pub mmu_dump_config : MmuState → List Print
mmu_dump_config s =
    say "MMU Configuration:\n"
    ∷ say "  SCTLR_EL1: "
    ∷ put_hex s.sctlr
    ∷ say "\n"
    ∷ say "    MMU:    "
    ∷ on_off (bit_and s.sctlr 1 == 1)
    ∷ say "\n    D-Cache: "
    ∷ on_off (bit_and s.sctlr (2 ^ 2) == 2 ^ 2)
    ∷ say "\n    I-Cache: "
    ∷ on_off (bit_and s.sctlr (2 ^ 12) == 2 ^ 12)
    ∷ say "\n"
    ∷ say "  TCR_EL1:   "
    ∷ put_hex s.tcr
    ∷ say "\n"
    ∷ say "    T0SZ:   "
    ∷ put_dec (bit_and s.tcr 0x3F)
    ∷ say " ("
    ∷ put_dec (64 - bit_and s.tcr 0x3F)
    ∷ say "-bit VA)\n"
    ∷ say "    IPS:    "
    ∷ ips_name (bit_and (s.tcr / 2 ^ 32) 0x7)
    ∷ say "\n"
    ∷ say "  MAIR_EL1:  "
    ∷ put_hex s.mair
    ∷ say "\n"
    ∷ say "    Attr0:  0x"
    ∷ put_hex (bit_and s.mair 0xFF)
    ∷ say " (Device)\n"
    ∷ say "    Attr1:  0x"
    ∷ put_hex (bit_and (s.mair / 2 ^ 8) 0xFF)
    ∷ say " (Normal)\n"
    ∷ say "  TTBR0_EL1: "
    ∷ put_hex s.ttbr0
    ∷ say "\n"
    ∷ say "\nMemory map:\n"
    ∷ say "  0x00000000-0x3FFFFFFF  1GB RAM    (Normal, cacheable)\n"
    ∷ say "  0xC0000000-0xFFFFFFFF  1GB Device (UART, GIC, timers)\n"
    ∷ say "\nPage tables: "
    ∷ put_dec (4 * 4)
    ∷ say " KB (4 tables x 4KB)\n"
    ∷ []
