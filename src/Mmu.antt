-- ===== src/Mmu.antt =====
-- The page tables and system registers that src/drivers/mmu.c sets up. A table is a map from its
-- index; the addresses of the tables are the linker's.
pub mod Walk
pub mod Identity
pub mod Dump
mod Tests
use rpi4_bare_metal_os.Prelude.{
  ℕ, zero, suc, ◌+◌, ◌-◌, ◌*◌, ◌/◌, ◌%◌, ◌^◌, Bool, true, false, bit_or, bit_and, if◌then◌else◌,
  ◌==◌, update,
}

abbrev pub pt_valid : ℕ
pt_valid = 1

abbrev pub pt_table : ℕ
pt_table = 2

abbrev pub pt_block : ℕ
pt_block = 0

abbrev pub pt_af : ℕ
pt_af = 2 ^ 10

abbrev pub pt_ish : ℕ
pt_ish = 3 * 2 ^ 8

abbrev pub pt_osh : ℕ
pt_osh = 2 * 2 ^ 8

abbrev pub pt_ap_rw_el1 : ℕ
pt_ap_rw_el1 = 0

abbrev pub mt_device : ℕ
mt_device = 0

abbrev pub mt_normal : ℕ
mt_normal = 1

abbrev pub pt_attr : ℕ → ℕ
pt_attr idx = idx * 4

abbrev pub block_device : ℕ
block_device =
    bit_or (bit_or (bit_or (bit_or (bit_or pt_valid pt_block) pt_af) (pt_attr mt_device)) pt_osh)
      pt_ap_rw_el1

abbrev pub block_normal : ℕ
block_normal =
    bit_or (bit_or (bit_or (bit_or (bit_or pt_valid pt_block) pt_af) (pt_attr mt_normal)) pt_ish)
      pt_ap_rw_el1

abbrev pub table_entry : ℕ
table_entry = bit_or pt_valid pt_table

-- The addresses of the four tables.
pub record TableAddrs : Type 0 where
  pub l0 : ℕ
  pub l1 : ℕ
  pub l2_ram : ℕ
  pub l2_dev : ℕ

pub record Tables : Type 0 where
  pub l0_table : ℕ → ℕ
  pub l1_table : ℕ → ℕ
  pub l2_ram_table : ℕ → ℕ
  pub l2_dev_table : ℕ → ℕ

-- The registers of this core that are written, and `mmu_enabled`.
pub record MmuState : Type 0 where
  pub tables : Tables
  pub mair : ℕ
  pub tcr : ℕ
  pub ttbr0 : ℕ
  pub ttbr1 : ℕ
  pub sctlr : ℕ
  pub mmu_enabled : Bool

-- `for (i = first; i < first + n; i++) table[i] = entry(i);`
unfoldable pub fill : (n first : ℕ) → (entry : ℕ → ℕ) → (ℕ → ℕ) → ℕ → ℕ
fill zero first entry table = table
fill (suc n) first entry table = fill n (first + 1) entry (update table first (entry first))

-- 2 MB
abbrev pub block_size : ℕ
block_size = 2 * 1024 * 1024

abbrev pub ram_entry : ℕ → ℕ
ram_entry i = bit_or (i * block_size) block_normal

abbrev pub dev_entry : ℕ → ℕ
dev_entry i = bit_or (0xC0000000 + i * block_size) block_device

unfoldable pub build_tables : TableAddrs → Tables → Tables
build_tables addrs t =
    let none : ℕ → ℕ = λ i. 0 in
    record {
      l0_table = update (fill 512 0 none t.l0_table) 0 (bit_or addrs.l1 table_entry);
      l1_table =
          update (update (fill 512 0 none t.l1_table) 0 (bit_or addrs.l2_ram table_entry)) 3
            (bit_or addrs.l2_dev table_entry);
      l2_ram_table = fill 512 0 ram_entry (fill 512 0 none t.l2_ram_table);
      l2_dev_table = fill 512 0 dev_entry (fill 512 0 none t.l2_dev_table);
    }

abbrev pub mair_value : ℕ
mair_value = bit_or (0x00 * 2 ^ (mt_device * 8)) (0xFF * 2 ^ (mt_normal * 8))

abbrev pub tcr_value : ℕ
tcr_value =
    bit_or
      (bit_or
        (bit_or (bit_or (bit_or (bit_or 16 (1 * 2 ^ 8)) (1 * 2 ^ 10)) (3 * 2 ^ 12)) (0 * 2 ^ 14))
        (16 * 2 ^ 16))
      (2 * 2 ^ 32)

-- The barriers and the text are left out.
unfoldable pub mmu_init : TableAddrs → MmuState → MmuState
mmu_init addrs s = record {
  tables = build_tables addrs s.tables;
  mair = mair_value;
  tcr = tcr_value;
  ttbr0 = addrs.l0;
  ttbr1 = 0;
  sctlr = bit_or (bit_or (bit_or s.sctlr (2 ^ 0)) (2 ^ 2)) (2 ^ 12);
  mmu_enabled = true;
}

unfoldable pub mmu_is_enabled : MmuState → Bool
mmu_is_enabled s = s.mmu_enabled
