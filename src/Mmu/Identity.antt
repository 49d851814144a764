-- ===== src/Mmu/Identity.antt =====
-- The tables of mmu_init map each address of RAM and of the devices to itself, and nothing else.
use rpi4_bare_metal_os.Prelude.{
  ℕ, zero, suc, ◌+◌, ◌*◌, ◌/◌, ◌%◌, ◌^◌, ◌≤◌, ◌<◌, ◌≡◌, ◌≢◌, refl, ap, ◌∙◌, ◌⊎◌, true, false,
  if◌then◌else◌, ◌==◌, ltb, leb, ◌&&◌, update, bit_or, arith, bit_or_low, bit_or_digit, two_to,
  Bool-cases, inl, inr,
}
use native.Mathlib.Decide.{dec_lt}
use rpi4_bare_metal_os.Mmu.{
  TableAddrs, Tables, MmuState, fill, ram_entry, dev_entry, block_size, block_normal, block_device,
  table_entry, mair_value, build_tables, mmu_init,
}
use rpi4_bare_metal_os.Mmu.Walk.{
  Translation, mapped, fault, read_entry, next_table, level0, level1, level2, translate,
  device_memory, normal_memory,
}

-- Four different pages below 2 ^ 48.
pub record IsPlaced (addrs : TableAddrs) : Type 0 where
  pub aligned :
      (addrs.l0 % 4096 ≡ 0)
      × (addrs.l1 % 4096 ≡ 0)
      × (addrs.l2_ram % 4096 ≡ 0)
      × (addrs.l2_dev % 4096 ≡ 0)
  pub small :
      (addrs.l0 < 2 ^ 48) × (addrs.l1 < 2 ^ 48) × (addrs.l2_ram < 2 ^ 48) × (addrs.l2_dev < 2 ^ 48)
  pub apart :
      (addrs.l0 ≢ addrs.l1)
      × (addrs.l0 ≢ addrs.l2_ram)
      × (addrs.l0 ≢ addrs.l2_dev)
      × (addrs.l1 ≢ addrs.l2_ram)
      × (addrs.l1 ≢ addrs.l2_dev)
      × (addrs.l2_ram ≢ addrs.l2_dev)

fill_lem :
    (n first : ℕ) (entry table : ℕ → ℕ) (j : ℕ)
    → fill n first entry table j ≡ (if leb first j && ltb j (first + n) then entry j else table j)
unfolding fill
fill_lem zero first entry table j = ground arith
fill_lem (suc n) first entry table j =
    ground (arith, fill_lem n (first + 1) entry (update table first (entry first)) j)

-- A table descriptor reads back.
descriptor :
    (addr : ℕ)
    → addr % 4096 ≡ 0
    → addr < 2 ^ 48
    → (bit_or addr table_entry % 4 ≡ 3) × (next_table (bit_or addr table_entry) ≡ addr)
descriptor addr aligned small =
    let page : addr ≡ addr / 4096 * two_to 12 = omega arith in
    let sum : bit_or addr table_entry ≡ addr + 3 =
      rw page (bit_or_low 12 (addr / 4096) 3 (omega arith)) in
    omega (arith, sum)

ram_block :
    (va : ℕ)
    → va < 2 ^ 30
    → level2 mair_value (ram_entry (va / 2 ^ 21 % 512)) va ≡ mapped va normal_memory
ram_block va lt =
    let i : ℕ = va / 2 ^ 21 % 512 in
    let sum : ram_entry i ≡ i * two_to 21 + block_normal =
      bit_or_low 21 i block_normal (omega arith) in
    rw sum (ground arith)

dev_block :
    (va : ℕ)
    → 3 * 2 ^ 30 ≤ va
    → va < 2 ^ 32
    → level2 mair_value (dev_entry (va / 2 ^ 21 % 512)) va ≡ mapped va device_memory
dev_block va lo hi =
    let i : ℕ = va / 2 ^ 21 % 512 in
    let start : 0xC0000000 + i * block_size ≡ (1536 + i) * two_to 21 = omega arith in
    let sum : dev_entry i ≡ (1536 + i) * two_to 21 + block_device =
      rw start (bit_or_low 21 (1536 + i) block_device (omega arith)) in
    rw sum (ground arith)

-- 1 GB of RAM is Normal memory, the last of the first 4 GB is Device memory.
abbrev pub identity : ℕ → Translation
identity va =
    if ltb va (2 ^ 30)
    then mapped va normal_memory
    else (if leb (3 * 2 ^ 30) va && ltb va (2 ^ 32) then mapped va device_memory else fault)

module _ (addrs : TableAddrs) (placed : IsPlaced addrs) (t : Tables) where
  abbrev built : Tables
  built = build_tables addrs t

  l0_entry :
      (i : ℕ) → i < 512 → built.l0_table i ≡ (if i == 0 then bit_or addrs.l1 table_entry else 0)
  unfolding build_tables
  l0_entry i lt = ground (arith, fill_lem 512 0 (λ i. 0) t.l0_table i)

  l1_entry :
      (i : ℕ)
      → i < 512
      → built.l1_table i ≡ (
          if i == 0
          then bit_or addrs.l2_ram table_entry
          else (if i == 3 then bit_or addrs.l2_dev table_entry else 0))
  unfolding build_tables
  l1_entry i lt = ground (arith, fill_lem 512 0 (λ i. 0) t.l1_table i)

  ram_table : (i : ℕ) → i < 512 → built.l2_ram_table i ≡ ram_entry i
  unfolding build_tables
  ram_table i lt = ground (arith, fill_lem 512 0 ram_entry (fill 512 0 (λ i. 0) t.l2_ram_table) i)

  dev_table : (i : ℕ) → i < 512 → built.l2_dev_table i ≡ dev_entry i
  unfolding build_tables
  dev_table i lt = ground (arith, fill_lem 512 0 dev_entry (fill 512 0 (λ i. 0) t.l2_dev_table) i)

  read_l0 : (i : ℕ) → read_entry addrs built addrs.l0 i ≡ built.l0_table i
  read_l0 i = ground arith

  read_l1 : (i : ℕ) → read_entry addrs built addrs.l1 i ≡ built.l1_table i
  read_l1 i = ground (arith, placed.apart)

  read_ram : (i : ℕ) → read_entry addrs built addrs.l2_ram i ≡ built.l2_ram_table i
  read_ram i = ground (arith, placed.apart)

  read_dev : (i : ℕ) → read_entry addrs built addrs.l2_dev i ≡ built.l2_dev_table i
  read_dev i = ground (arith, placed.apart)

  level1_table :
      (desc base va : ℕ)
      → (desc % 4 ≡ 3) × (next_table desc ≡ base)
      → level1 addrs built mair_value desc va
        ≡ level2 mair_value (read_entry addrs built base (va / 2 ^ 21 % 512)) va
  level1_table desc base va d =
      let table : (desc % 4 == 3) ≡ true = ground (arith, d) in
      rw table (ap (λ b. level2 mair_value (read_entry addrs built b (va / 2 ^ 21 % 512)) va) d.1)

  in_ram :
      (va : ℕ)
      → va < 2 ^ 30
      → level1 addrs built mair_value (built.l1_table (va / 2 ^ 30 % 512)) va
        ≡ mapped va normal_memory
  in_ram va lt =
      let i : ℕ = va / 2 ^ 21 % 512 in
      let first : built.l1_table (va / 2 ^ 30 % 512) ≡ bit_or addrs.l2_ram table_entry =
        let index : va / 2 ^ 30 % 512 ≡ 0 = omega arith in rw index (l1_entry 0 (omega arith)) in
      rw first (
        level1_table (bit_or addrs.l2_ram table_entry) addrs.l2_ram va
          (descriptor addrs.l2_ram placed.aligned.2 placed.small.2)
        ∙ (ap (λ d. level2 mair_value d va) (read_ram i ∙ ram_table i (omega arith))
            ∙ ram_block va lt))

  in_devices :
      (va : ℕ)
      → 3 * 2 ^ 30 ≤ va
      → va < 2 ^ 32
      → level1 addrs built mair_value (built.l1_table (va / 2 ^ 30 % 512)) va
        ≡ mapped va device_memory
  in_devices va lo hi =
      let i : ℕ = va / 2 ^ 21 % 512 in
      let fourth : built.l1_table (va / 2 ^ 30 % 512) ≡ bit_or addrs.l2_dev table_entry =
        let index : va / 2 ^ 30 % 512 ≡ 3 = omega arith in rw index (l1_entry 3 (omega arith)) in
      rw fourth (
        level1_table (bit_or addrs.l2_dev table_entry) addrs.l2_dev va
          (descriptor addrs.l2_dev placed.aligned.3 placed.small.3)
        ∙ (ap (λ d. level2 mair_value d va) (read_dev i ∙ dev_table i (omega arith))
            ∙ dev_block va lo hi))

  elsewhere :
      (va : ℕ)
      → va < 2 ^ 39
      → 2 ^ 30 ≤ va
      → (va < 3 * 2 ^ 30) ⊎ (2 ^ 32 ≤ va)
      → level1 addrs built mair_value (built.l1_table (va / 2 ^ 30 % 512)) va ≡ fault
  elsewhere va lt lo out =
      let empty : built.l1_table (va / 2 ^ 30 % 512) ≡ 0 =
        ground (arith, l1_entry (va / 2 ^ 30 % 512) (omega arith), out) in
      rw empty refl

  -- From the table of level 1 on.
  walk_l1 :
      (va : ℕ)
      → va < 2 ^ 39
      → level1 addrs built mair_value (built.l1_table (va / 2 ^ 30 % 512)) va ≡ identity va
  walk_l1 va lt = elim (dec_lt va (2 ^ 30)) [
    | yes ram ↦ let t' : ltb va (2 ^ 30) ≡ true = ground arith in rw t' (in_ram va ram)
    | no above ↦
        let t' : ltb va (2 ^ 30) ≡ false = ground arith in
        elim (Bool-cases (leb (3 * 2 ^ 30) va && ltb va (2 ^ 32))) [
          | inl dev ↦ rw (t', dev) (in_devices va (ground arith) (ground arith))
          | inr out ↦ rw (t', out) (elsewhere va lt (omega arith) (ground arith))
        ]
  ]

  walk_l0 :
      (va : ℕ)
      → va < 2 ^ 48
      → level0 addrs built mair_value (read_entry addrs built addrs.l0 (va / 2 ^ 39 % 512)) va
        ≡ identity va
  walk_l0 va lt = elim (dec_lt va (2 ^ 39)) [
    | yes low ↦
        let index : va / 2 ^ 39 % 512 ≡ 0 = omega arith in
        let entry : read_entry addrs built addrs.l0 (va / 2 ^ 39 % 512)
            ≡ bit_or addrs.l1 table_entry =
          rw index (read_l0 0 ∙ l0_entry 0 (omega arith)) in
        let (table, base) = descriptor addrs.l1 placed.aligned.1 placed.small.1 in
        let table' : (bit_or addrs.l1 table_entry % 4 == 3) ≡ true = ground arith in
        rw entry (
          rw table' (
            ap
              (λ b. level1 addrs built mair_value (read_entry addrs built b (va / 2 ^ 30 % 512)) va)
              base
            ∙ (ap (λ d. level1 addrs built mair_value d va) (read_l1 (va / 2 ^ 30 % 512))
                ∙ walk_l1 va low)))
    | no high ↦
        let entry : read_entry addrs built addrs.l0 (va / 2 ^ 39 % 512) ≡ 0 =
          read_l0 (va / 2 ^ 39 % 512)
          ∙ ground (arith, l0_entry (va / 2 ^ 39 % 512) (omega arith)) in
        rw entry (ground arith)
  ]

-- The bit that turns the translation on stays set.
enabled : (v : ℕ) → bit_or (bit_or (bit_or v (2 ^ 0)) (2 ^ 2)) (2 ^ 12) % 2 ≡ 1
enabled v = omega (
  arith,
  bit_or_digit (bit_or (bit_or v (2 ^ 0)) (2 ^ 2)) (2 ^ 12),
  bit_or_digit (bit_or v (2 ^ 0)) (2 ^ 2),
  bit_or_digit v (2 ^ 0),
)

-- For tables in four different pages, a walk from any 48-bit address through what mmu_init sets up
-- gives the address itself, below 1 GB with the attributes of cached Normal memory and from 3 GB to 4
-- GB with those of Device memory, and a fault everywhere else.
pub translate-mmu_init :
    (addrs : TableAddrs) (s : MmuState) (va : ℕ)
    → IsPlaced addrs
    → va < 2 ^ 48
    → translate addrs (mmu_init addrs s) va ≡ identity va
unfolding mmu_init
translate-mmu_init addrs s va placed lt =
    let on : ((bit_or (bit_or (bit_or s.sctlr (2 ^ 0)) (2 ^ 2)) (2 ^ 12)) % 2 == 1) ≡ true =
      ground (arith, enabled s.sctlr) in
    rw on (walk_l0 addrs placed s.tables va lt)
