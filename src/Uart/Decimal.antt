-- ===== src/Uart/Decimal.antt =====
-- uart_put_dec prints what parse_num reads.
use rpi4_bare_metal_os.Prelude.{
  ℕ, zero, suc, ◌+◌, ◌-◌, ◌*◌, ◌/◌, ◌%◌, ◌^◌, ◌≤◌, ◌<◌, ◌≡◌, refl, ◌∙◌, true, false, Option, some,
  List, [], ◌∷◌, leb, ◌==◌, length, arith,
}
use native.Mathlib.Decide.{ℕ_discrete}
use rpi4_bare_metal_os.Text.{parse_digits, parse_num}
use rpi4_bare_metal_os.Uart.{dec_digits, uart_put_dec}

-- ten to the power of `n`
abbrev ten_to : ℕ → ℕ
ten_to zero = 1
ten_to (suc n) = 10 * ten_to n

-- The digit behind a number is read.
parse_digit :
    (value : ℕ) (cs : List ℕ)
    → value < 2 ^ 64
    → parse_digits (value / 10) ((b'0' + value % 10) ∷ cs) ≡ parse_digits value cs
unfolding parse_digits
parse_digit value cs small =
    let lo : leb b'0' (b'0' + value % 10) ≡ true = ground arith in
    let hi : leb (b'0' + value % 10) b'9' ≡ true = ground arith in
    let same : (value / 10 * 10 + (b'0' + value % 10 - b'0')) % 2 ^ 64 ≡ value = omega arith in
    rw (lo, hi, same) refl

-- `out` are the digits of `value` before those of `buffer`, and they fit the room.
abbrev Printed : (room value : ℕ) → (buffer : List ℕ) → Option (List ℕ) → Type 0
Printed room value buffer r =
    (out : List ℕ) × (r ≡ some out)
    × (parse_digits 0 out ≡ parse_digits value buffer)
    × (length out ≤ room + length buffer)

dec_digits-Printed :
    (room value : ℕ) (buffer : List ℕ)
    → value < 2 ^ 64
    → value < ten_to room
    → Printed room value buffer (dec_digits room value buffer)
unfolding dec_digits
dec_digits-Printed zero value buffer small fits =
    let none_left : value ≡ 0 = omega arith in rw none_left (buffer, refl, refl, omega arith)
dec_digits-Printed (suc room) value buffer small fits = elim (ℕ_discrete value 0) [
  | yes none_left ↦ rw none_left (buffer, refl, refl, omega arith)
  | no more ↦
      let there : (value == 0) ≡ false = ground arith in
      let (out, done, value_out, short) =
        dec_digits-Printed room (value / 10) ((b'0' + value % 10) ∷ buffer) (omega arith)
          (omega arith) in
      rw (there, dec_digits) (out, done, value_out ∙ parse_digit value buffer small, omega arith)
]

-- For a number of 64 bits, uart_put_dec does not overrun its 20 bytes, and parse_num reads back
-- what it prints.
pub parse_num-put_dec :
    (value : ℕ)
    → value < 2 ^ 64
    → (out : List ℕ) × (uart_put_dec value ≡ some out) × (parse_num out ≡ value) × (length out ≤ 20)
unfolding uart_put_dec parse_num parse_digits
parse_num-put_dec value small = elim (ℕ_discrete value 0) [
  | yes null ↦ rw null (b'0' ∷ [], refl, refl, omega arith)
  | no more ↦
      let there : (value == 0) ≡ false = ground arith in
      let (out, done, value_out, short) = dec_digits-Printed 20 value [] small (omega arith) in
      rw there (out, done, value_out, omega arith)
]
