-- ===== src/Mmu/Walk.antt =====
-- What the processor does with the tables: a walk with 4 KB granule from a 48-bit address, as the
-- Arm architecture describes it. No code of the repository; it is what src/drivers/mmu.c is held to.
-- Permissions, shareability and the upper half of the addresses are left out.
use rpi4_bare_metal_os.Prelude.{ℕ, ◌+◌, ◌*◌, ◌/◌, ◌%◌, ◌^◌, Bool, ◌&&◌, if◌then◌else◌, ◌==◌}
use rpi4_bare_metal_os.Mmu.{TableAddrs, Tables, MmuState}

-- Where an address leads: to a physical address with the attributes of its memory, or to a fault.
pub data Translation : Type 0 where
  mapped : (pa memory : ℕ) → Translation
  fault : Translation

-- The word at an index of the table at an address.
abbrev pub read_entry : TableAddrs → Tables → (base index : ℕ) → ℕ
read_entry addrs t base index =
    if base == addrs.l0
    then t.l0_table index
    else (if base == addrs.l1
        then t.l1_table index
        else (if base == addrs.l2_ram
            then t.l2_ram_table index
            else (if base == addrs.l2_dev then t.l2_dev_table index else 0)))

-- bits 47 to 12 of a descriptor
abbrev pub next_table : ℕ → ℕ
next_table desc = desc / 2 ^ 12 % 2 ^ 36 * 2 ^ 12

-- The attributes of Device memory that is neither gathered, reordered nor acknowledged early, and of
-- Normal memory that is cached, with write-back, inside and outside.
abbrev pub device_memory : ℕ
device_memory = 0x00

abbrev pub normal_memory : ℕ
normal_memory = 0xFF

-- The byte of MAIR that bits 4 to 2 of a block select.
abbrev pub memory_of : (mair desc : ℕ) → ℕ
memory_of mair desc = mair / 2 ^ (8 * (desc / 4 % 8)) % 256

-- A block whose access flag, bit 10, is clear faults.
abbrev pub access : (desc : ℕ) → Translation → Translation
access desc there = if desc / 2 ^ 10 % 2 == 1 then there else fault

-- A block of level 2 maps 2 MB.
abbrev pub level2 : (mair desc va : ℕ) → Translation
level2 mair desc va =
    if desc % 4 == 1
    then access desc (mapped (desc / 2 ^ 21 % 2 ^ 27 * 2 ^ 21 + va % 2 ^ 21) (memory_of mair desc))
    else fault

-- A table descriptor leads on; a block of level 1 maps 1 GB, and there is none at level 0.
abbrev pub level1 : TableAddrs → Tables → (mair desc va : ℕ) → Translation
level1 addrs t mair desc va =
    if desc % 4 == 3
    then level2 mair (read_entry addrs t (next_table desc) (va / 2 ^ 21 % 512)) va
    else (if desc % 4 == 1
        then access desc
            (mapped (desc / 2 ^ 30 % 2 ^ 18 * 2 ^ 30 + va % 2 ^ 30) (memory_of mair desc))
        else fault)

abbrev pub level0 : TableAddrs → Tables → (mair desc va : ℕ) → Translation
level0 addrs t mair desc va =
    if desc % 4 == 3
    then level1 addrs t mair (read_entry addrs t (next_table desc) (va / 2 ^ 30 % 512)) va
    else fault

-- TCR asks for 48-bit addresses (T0SZ, its low 6 bits, is 16) and the 4 KB granule (TG0, bits 15 and
-- 14, is 0). What the walk does with other values is not described here: it counts as a fault.
abbrev pub is_described : (tcr : ℕ) → Bool
is_described tcr = tcr % 2 ^ 6 == 16 && tcr / 2 ^ 14 % 4 == 0

-- With bit 0 of SCTLR clear there is no walk: each address is itself, as Device memory.
abbrev pub translate : TableAddrs → MmuState → (va : ℕ) → Translation
translate addrs s va =
    if s.sctlr % 2 == 1
    then (if is_described s.tcr
        then level0 addrs s.tables s.mair (read_entry addrs s.tables s.ttbr0 (va / 2 ^ 39 % 512)) va
        else fault)
    else mapped va device_memory
