-- ===== src/Mmu/Tests.antt =====
-- The page tables at fixed addresses.
use rpi4_bare_metal_os.Prelude.{◌≡◌, refl, arith, false}
use rpi4_bare_metal_os.Mmu.{
  TableAddrs, MmuState, block_normal, block_device, mair_value, tcr_value, mmu_init,
}
use rpi4_bare_metal_os.Mmu.Walk.{translate, mapped, device_memory}
use rpi4_bare_metal_os.Mmu.Identity.{IsPlaced, identity, translate-mmu_init}

abbrev addrs : TableAddrs
addrs = record { l0 = 0x90000; l1 = 0x91000; l2_ram = 0x92000; l2_dev = 0x93000 }

addrs-IsPlaced : IsPlaced addrs
addrs-IsPlaced = omega arith

abbrev off : MmuState
off = record {
  tables = record {
    l0_table = λ i. 0;
    l1_table = λ i. 0;
    l2_ram_table = λ i. 0;
    l2_dev_table = λ i. 0;
  };
  mair = 0;
  tcr = 0;
  ttbr0 = 0;
  ttbr1 = 0;
  sctlr = 0;
  mmu_enabled = false;
}

constants :
    (block_normal ≡ 0x705)
    × (block_device ≡ 0x601)
    × (mair_value ≡ 0xff00)
    × (tcr_value ≡ 0x200103510)
constants = (refl, refl, refl, refl)

-- The data register of the UART is device memory.
uart_mapped : identity 0xfe201000 ≡ mapped 0xfe201000 device_memory
uart_mapped = refl

translate-mmu_init_example : translate addrs (mmu_init addrs off) 0x80000 ≡ identity 0x80000
translate-mmu_init_example = translate-mmu_init addrs off 0x80000 addrs-IsPlaced (omega arith)
