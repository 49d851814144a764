-- ===== src/Kernel/Hex.antt =====
-- The command pgfree of src/kernel.c reads the addresses that uart_put_hex of src/drivers/uart.c prints.
use native.Mathlib.Nat.{div-le_self, div-div-eq-div-mul}
use rpi4_bare_metal_os.Prelude.{
  ℕ, zero, suc, ◌*◌, ◌/◌, ◌%◌, ◌^◌, ◌<◌, ◌≡◌, refl, ◌∙◌, sym, ap, some, none, List, [], ◌∷◌, ◌++◌,
  arith, bit_or, bit_or_low,
}
use rpi4_bare_metal_os.Uart.{hex_char, hex_digits, uart_put_hex}
use rpi4_bare_metal_os.Kernel.Args.{skip_spaces}
use rpi4_bare_metal_os.Kernel.Memory.{hex_value, parse_hex, skip_prefix, parse_address}

-- A digit that is printed is read.
hex_value-char : (d : ℕ) → d < 16 → hex_value (hex_char d) ≡ some d
hex_value-char d lt = ground arith

-- `value` without its lowest `n` digits
abbrev above : (n value : ℕ) → ℕ
above n value = value / 2 ^ (4 * n)

above-suc : (n value : ℕ) → above (suc n) value ≡ above n value / 16
above-suc n value =
    let four : 4 * suc n ≡ suc (suc (suc (suc (4 * n)))) = omega arith in
    let times : 2 ^ (4 * suc n) ≡ 2 ^ (4 * n) * 16 = rw four (omega arith) in
    rw times (sym (div-div-eq-div-mul value (2 ^ (4 * n)) 16))

parse_hex-some :
    (v c d : ℕ) (cs : List ℕ)
    → hex_value c ≡ some d
    → parse_hex v (c ∷ cs) ≡ parse_hex (bit_or (v * 2 ^ 4 % 2 ^ 64) d) cs
unfolding parse_hex
parse_hex-some v c d cs e = rw (e, parse_hex) refl

parse_hex-none :
    (v c : ℕ) (cs : List ℕ) → hex_value c ≡ none → parse_hex v (c ∷ cs) ≡ v * 2 ^ 4 % 2 ^ 64
unfolding parse_hex
parse_hex-none v c cs e = rw (e, parse_hex) refl

-- The digit behind the ones that were read.
parse_digit :
    (q : ℕ) (cs : List ℕ)
    → q < 2 ^ 64
    → parse_hex (q / 16) (hex_char (q % 16) ∷ cs) ≡ parse_hex q cs
parse_digit q cs small =
    let shifted : q / 16 * 2 ^ 4 % 2 ^ 64 ≡ q / 16 * 16 = omega arith in
    let whole : bit_or (q / 16 * 2 ^ 4 % 2 ^ 64) (q % 16) ≡ q =
      rw shifted (bit_or_low 4 (q / 16) (q % 16) (omega arith) ∙ omega arith) in
    parse_hex-some (q / 16) (hex_char (q % 16)) (q % 16) cs (hex_value-char (q % 16) (omega arith))
    ∙ ap (λ v. parse_hex v cs) whole

parse_digits_of :
    (n value : ℕ) (cs : List ℕ)
    → value < 2 ^ 64
    → parse_hex (above n value) (hex_digits n value ++ cs) ≡ parse_hex value cs
unfolding hex_digits
parse_digits_of zero value cs small =
    let all : above zero value ≡ value = omega arith in rw all refl
parse_digits_of (suc n) value cs small = rw (above-suc n value) (
    parse_digit (above n value) (hex_digits n value ++ cs)
      (omega (arith, small, div-le_self value (2 ^ (4 * n))))
    ∙ parse_digits_of n value cs small)

read_all :
    (value : ℕ) (cs : List ℕ)
    → value < 2 ^ 64
    → parse_hex 0 (hex_digits 16 value ++ cs) ≡ parse_hex value cs
read_all value cs small =
    let none_above : above 16 value ≡ 0 = omega arith in
    ap (λ v. parse_hex v (hex_digits 16 value ++ cs)) (sym none_above)
    ∙ parse_digits_of 16 value cs small

-- For an address of 64 bits, pgfree reads back what uart_put_hex prints; but where a byte that is no
-- hexadecimal digit follows, as a space does, it reads sixteen times the address.
pub parse_address-put_hex :
    (addr c : ℕ) (rest : List ℕ)
    → addr < 2 ^ 64
    → hex_value c ≡ none
    → (parse_address (uart_put_hex addr) ≡ addr)
      × (parse_address (uart_put_hex addr ++ c ∷ rest) ≡ addr * 16 % 2 ^ 64)
unfolding parse_address uart_put_hex skip_spaces skip_prefix hex_digits parse_hex
parse_address-put_hex addr c rest small other =
    (read_all addr [] small, read_all addr (c ∷ rest) small ∙ parse_hex-none addr c rest other)
