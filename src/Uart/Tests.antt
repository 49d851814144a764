-- ===== src/Uart/Tests.antt =====
-- Output of numbers.
use rpi4_bare_metal_os.Prelude.{ℕ, ◌≤◌, ◌≡◌, refl, some, List, [], ◌∷◌, arith, length}
use rpi4_bare_metal_os.Text.{parse_num}
use rpi4_bare_metal_os.Uart.{
  dec_digits, hex_digits, uart_put_dec, uart_put_hex, uart_gets, gets_loop,
}
use rpi4_bare_metal_os.Uart.Decimal.{parse_num-put_dec}

put_dec_305 : uart_put_dec 305 ≡ some (b'3' ∷ b'0' ∷ b'5' ∷ [])
unfolding uart_put_dec dec_digits
put_dec_305 = refl

put_hex_start : uart_put_hex 0xab ≡ b'0' ∷ b'x' ∷ hex_digits 16 0xab
unfolding uart_put_hex
put_hex_start = refl

hex_digits_ab : hex_digits 3 0xab ≡ b'0' ∷ b'A' ∷ b'B' ∷ []
unfolding hex_digits
hex_digits_ab = refl

-- Backspace takes back one byte.
gets_backspace : uart_gets 16 (b'l' ∷ b'a' ∷ 0x7f ∷ b's' ∷ 0x0d ∷ []) ≡ some (b'l' ∷ b's' ∷ [], [])
unfolding uart_gets gets_loop
gets_backspace = refl

parse_num-put_dec_example :
    (out : List ℕ) × (uart_put_dec 305 ≡ some out) × (parse_num out ≡ 305) × (length out ≤ 20)
parse_num-put_dec_example = parse_num-put_dec 305 (omega arith)
