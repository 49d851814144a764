-- ===== src/Uart/Setup.antt =====
-- The registers that uart_init of src/drivers/uart.c writes.
use rpi4_bare_metal_os.Prelude.{
  ℕ, ◌+◌, ◌-◌, ◌*◌, ◌/◌, ◌%◌, ◌^◌, ◌<◌, ◌≡◌, refl, ◌∙◌, update, bit_and, bit_or, bit_replace, arith,
}
use rpi4_bare_metal_os.Gic.{Registers}

abbrev mmio_base : ℕ
mmio_base = 0xFE000000

abbrev uart0_ibrd : ℕ
uart0_ibrd = mmio_base + 0x00201024

abbrev uart0_fbrd : ℕ
uart0_fbrd = mmio_base + 0x00201028

abbrev uart0_lcrh : ℕ
uart0_lcrh = mmio_base + 0x0020102C

abbrev uart0_cr : ℕ
uart0_cr = mmio_base + 0x00201030

abbrev uart0_icr : ℕ
uart0_icr = mmio_base + 0x00201044

abbrev gpfsel1 : ℕ
gpfsel1 = mmio_base + 0x00200004

abbrev gppud : ℕ
gppud = mmio_base + 0x00200094

abbrev gppudclk0 : ℕ
gppudclk0 = mmio_base + 0x00200098

-- `selector &= ~(7 << k); selector |= 4 << k;`, 32 bits wide
abbrev set_alt0 : (k selector : ℕ) → ℕ
set_alt0 k selector = bit_or (bit_and selector (2 ^ 32 - 1 - 7 * 2 ^ k)) (4 * 2 ^ k)

-- The writes up to the pull-up of the pins, which is latched between the two writes to GPPUDCLK0.
unfoldable setup_pins : Registers → Registers
setup_pins r =
    let off : Registers = update r uart0_cr 0 in
    let sel : Registers = update off gpfsel1 (set_alt0 15 (set_alt0 12 (off gpfsel1))) in
    update (update (update sel gppud 0) gppudclk0 (bit_or (1 * 2 ^ 14) (1 * 2 ^ 15))) gppudclk0 0

unfoldable uart_init : Registers → Registers
uart_init r =
    let pins : Registers = setup_pins r in
    let baud : Registers =
      update (update (update pins uart0_icr 0x7FF) uart0_ibrd 26) uart0_fbrd 3 in
    let line : Registers =
      update baud uart0_lcrh (bit_or (bit_or (1 * 2 ^ 4) (1 * 2 ^ 5)) (1 * 2 ^ 6)) in
    update line uart0_cr (bit_or (bit_or (1 * 2 ^ 0) (1 * 2 ^ 8)) (1 * 2 ^ 9))

set_alt0_12 : (v : ℕ) → v < 2 ^ 32 → set_alt0 12 v ≡ (v / 2 ^ 15 * 8 + 4) * 2 ^ 12 + v % 2 ^ 12
set_alt0_12 v word =
    bit_replace 3 12 17 (v / 2 ^ 15) (v / 2 ^ 12 % 8) (v % 2 ^ 12) 4 v (2 ^ 32 - 1 - 7 * 2 ^ 12)
      (4 * 2 ^ 12) (omega arith) (omega arith) (omega arith) (omega arith) (omega arith)
      (omega arith) (omega arith)

set_alt0_15 : (v : ℕ) → v < 2 ^ 32 → set_alt0 15 v ≡ (v / 2 ^ 18 * 8 + 4) * 2 ^ 15 + v % 2 ^ 15
set_alt0_15 v word =
    bit_replace 3 15 14 (v / 2 ^ 18) (v / 2 ^ 15 % 8) (v % 2 ^ 15) 4 v (2 ^ 32 - 1 - 7 * 2 ^ 15)
      (4 * 2 ^ 15) (omega arith) (omega arith) (omega arith) (omega arith) (omega arith)
      (omega arith) (omega arith)

-- Pins 14 and 15 are set to function 4, and the other bits of their register stay; the UART is on,
-- with its transmitter and its receiver.
uart_init_lem :
    (r : Registers)
    → r gpfsel1 < 2 ^ 32
    → (uart_init r gpfsel1 ≡ (r gpfsel1 / 2 ^ 18 * 64 + (4 * 8 + 4)) * 2 ^ 12 + r gpfsel1 % 2 ^ 12)
      × (uart_init r uart0_cr ≡ 0x301)
unfolding uart_init setup_pins
uart_init_lem r word =
    let first = set_alt0_12 (r gpfsel1) word in
    (
      rw first (
          set_alt0_15 ((r gpfsel1 / 2 ^ 15 * 8 + 4) * 2 ^ 12 + r gpfsel1 % 2 ^ 12) (omega arith)
          ∙ omega arith),
      refl,
    )
