-- ===== src/Gic/Lanes.antt =====
-- What gic_enable_interrupt of src/drivers/gic.c writes, byte by byte.
use native.Mathlib.Decide.{ℕ_discrete}
use rpi4_bare_metal_os.Prelude.{
  ℕ, zero, suc, ◌+◌, ◌-◌, ◌*◌, ◌/◌, ◌%◌, ◌^◌, ◌<◌, ◌≡◌, ◌≢◌, refl, ◌∙◌, arith, bit_replace,
  if◌then◌else◌, ◌==◌, false,
}
use rpi4_bare_metal_os.Gic.{
  Registers, gicd_ipriorityr, gicd_itargetsr, gicd_isenabler, put_lane, gic_enable_interrupt,
}

-- byte `j` of a word
abbrev pub lane_of : (j val : ℕ) → ℕ
lane_of j val = val / 2 ^ (8 * j) % 256

put_lane_at :
    (lane byte val : ℕ)
    → lane < 4
    → byte < 256
    → val < 2 ^ 32
    → put_lane lane byte val
      ≡ (val / 2 ^ (lane * 8 + 8) * 256 + byte) * 2 ^ (lane * 8) + val % 2 ^ (lane * 8)
unfolding put_lane
put_lane_at zero byte val lt small word =
    bit_replace 8 0 24 (val / 256) (val % 256) (val % 1) byte val (2 ^ 32 - 1 - 0xFF) (byte * 1)
      (omega arith) (omega arith) small (omega arith) (omega arith) (omega arith) (omega arith)
put_lane_at (suc zero) byte val lt small word =
    bit_replace 8 8 16 (val / 2 ^ 16) (val / 2 ^ 8 % 256) (val % 2 ^ 8) byte val
      (2 ^ 32 - 1 - 0xFF * 2 ^ 8) (byte * 2 ^ 8) (omega arith) (omega arith) small (omega arith)
      (omega arith) (omega arith) (omega arith)
put_lane_at (suc (suc zero)) byte val lt small word =
    bit_replace 8 16 8 (val / 2 ^ 24) (val / 2 ^ 16 % 256) (val % 2 ^ 16) byte val
      (2 ^ 32 - 1 - 0xFF * 2 ^ 16) (byte * 2 ^ 16) (omega arith) (omega arith) small (omega arith)
      (omega arith) (omega arith) (omega arith)
put_lane_at (suc (suc (suc zero))) byte val lt small word =
    bit_replace 8 24 0 0 (val / 2 ^ 24 % 256) (val % 2 ^ 24) byte val (2 ^ 32 - 1 - 0xFF * 2 ^ 24)
      (byte * 2 ^ 24) (omega arith) (omega arith) small (omega arith) (omega arith) (omega arith)
      (omega arith)
    ∙ omega arith
put_lane_at (suc (suc (suc (suc n)))) byte val lt small word = absurd (omega arith)

-- The four bytes of a word after one of them was replaced.
put_lane_lem :
    (lane byte val j : ℕ)
    → lane < 4
    → byte < 256
    → val < 2 ^ 32
    → j < 4
    → lane_of j (put_lane lane byte val) ≡ (if j == lane then byte else lane_of j val)
put_lane_lem lane byte val j lt small word lt' =
    rw (put_lane_at lane byte val lt small word) (lanes lane j lt lt')
  where
    lanes :
        (lane j : ℕ)
        → lane < 4
        → j < 4
        → lane_of j
            ((val / 2 ^ (lane * 8 + 8) * 256 + byte) * 2 ^ (lane * 8) + val % 2 ^ (lane * 8))
          ≡ (if j == lane then byte else lane_of j val)
    lanes zero zero lt lt' = omega (arith, small, word)
    lanes zero (suc zero) lt lt' = omega (arith, small, word)
    lanes zero (suc (suc zero)) lt lt' = omega (arith, small, word)
    lanes zero (suc (suc (suc zero))) lt lt' = omega (arith, small, word)
    lanes (suc zero) zero lt lt' = omega (arith, small, word)
    lanes (suc zero) (suc zero) lt lt' = omega (arith, small, word)
    lanes (suc zero) (suc (suc zero)) lt lt' = omega (arith, small, word)
    lanes (suc zero) (suc (suc (suc zero))) lt lt' = omega (arith, small, word)
    lanes (suc (suc zero)) zero lt lt' = omega (arith, small, word)
    lanes (suc (suc zero)) (suc zero) lt lt' = omega (arith, small, word)
    lanes (suc (suc zero)) (suc (suc zero)) lt lt' = omega (arith, small, word)
    lanes (suc (suc zero)) (suc (suc (suc zero))) lt lt' = omega (arith, small, word)
    lanes (suc (suc (suc zero))) zero lt lt' = omega (arith, small, word)
    lanes (suc (suc (suc zero))) (suc zero) lt lt' = omega (arith, small, word)
    lanes (suc (suc (suc zero))) (suc (suc zero)) lt lt' = omega (arith, small, word)
    lanes (suc (suc (suc zero))) (suc (suc (suc zero))) lt lt' = omega (arith, small, word)
    lanes lane (suc (suc (suc (suc n)))) lt lt' = absurd (omega arith)
    lanes (suc (suc (suc (suc n)))) j lt lt' = absurd (omega arith)

-- What becomes of the distributor: of each interrupt `n` the priority and the target, and the word
-- of enable bits of `id`.
pub record Enabled (id : ℕ) (r r' : Registers) : Type 0 where
  pub priority :
      (n : ℕ)
      → n < 1020
      → lane_of (n % 4) (r' (gicd_ipriorityr + n / 4 * 4))
        ≡ (if n == id then 0xA0 else lane_of (n % 4) (r (gicd_ipriorityr + n / 4 * 4)))
  pub target :
      (n : ℕ)
      → n < 1020
      → lane_of (n % 4) (r' (gicd_itargetsr + n / 4 * 4))
        ≡ (if n == id then 0x01 else lane_of (n % 4) (r (gicd_itargetsr + n / 4 * 4)))
  pub enable : r' (gicd_isenabler + id / 32 * 4) ≡ 2 ^ (id % 32)
  pub others :
      (addr : ℕ)
      → addr ≢ gicd_ipriorityr + id / 4 * 4
      → addr ≢ gicd_itargetsr + id / 4 * 4
      → addr ≢ gicd_isenabler + id / 32 * 4
      → r' addr ≡ r addr

-- A word of which one byte is written, seen from any interrupt.
written :
    (base id n byte : ℕ) (r r' : Registers)
    → byte < 256
    → r (base + id / 4 * 4) < 2 ^ 32
    → r' (base + id / 4 * 4) ≡ put_lane (id % 4) byte (r (base + id / 4 * 4))
    → (n / 4 ≢ id / 4 → r' (base + n / 4 * 4) ≡ r (base + n / 4 * 4))
    → lane_of (n % 4) (r' (base + n / 4 * 4))
      ≡ (if n == id then byte else lane_of (n % 4) (r (base + n / 4 * 4)))
written base id n byte r r' small word here elsewhere = elim (ℕ_discrete (n / 4) (id / 4)) [
  | yes same ↦
      let lanes =
        put_lane_lem (id % 4) byte (r (base + id / 4 * 4)) (n % 4) (omega arith) small word
          (omega arith) in
      let test : (n == id) ≡ (n % 4 == id % 4) = ground arith in rw (test, same, here) lanes
  | no apart ↦ let test : (n == id) ≡ false = ground arith in rw (test, elsewhere apart) refl
]

-- gic_enable_interrupt of an interrupt of the controller gives it priority 0xA0, sends it to core 0
-- and writes its enable bit; the priorities and targets of all other interrupts stay as they are,
-- and so does every other register.
pub gic_enable_interrupt-Enabled :
    (id : ℕ) (r : Registers)
    → id < 1020
    → ((addr : ℕ) → r addr < 2 ^ 32)
    → Enabled id r (gic_enable_interrupt id r)
unfolding gic_enable_interrupt
gic_enable_interrupt-Enabled id r small words =
    let r' = gic_enable_interrupt id r in
    record {
      priority = λ n lt.
          written gicd_ipriorityr id n 0xA0 r r' (omega arith)
            (words (gicd_ipriorityr + id / 4 * 4)) (ground arith) (λ apart. ground arith);
      target = λ n lt.
          written gicd_itargetsr id n 0x01 r r' (omega arith) (words (gicd_itargetsr + id / 4 * 4))
            (ground arith) (λ apart. ground arith);
      enable = ground arith;
      others = λ addr p t e. ground arith;
    }
