-- ===== src/Uart.antt =====
-- The text output of src/drivers/uart.c, as the bytes that are sent, and its line input.
pub mod Decimal
pub mod Print
pub mod Setup
pub mod Line
mod Tests
use rpi4_bare_metal_os.Prelude.{
  ℕ, zero, suc, ◌+◌, ◌-◌, ◌*◌, ◌/◌, ◌%◌, ◌^◌, Bool, true, false, ◌&&◌, ◌||◌, Option, none, some,
  List, [], ◌∷◌, ◌++◌, ltb, leb, ◌==◌, if◌then◌else◌, length, take,
}

-- A newline is sent as two bytes.
unfoldable pub uart_puts : List ℕ → List ℕ
uart_puts [] = []
uart_puts (c ∷ cs) = let rest = uart_puts cs in if c == 0x0a then 0x0d ∷ c ∷ rest else c ∷ rest

abbrev pub hex_char : ℕ → ℕ
hex_char d = if ltb d 10 then b'0' + d else b'A' + (d - 10)

-- `for (i = 60; i >= 0; i -= 4)`: the lowest `n` digits
unfoldable pub hex_digits : (n : ℕ) → (value : ℕ) → List ℕ
hex_digits zero value = []
hex_digits (suc n) value = hex_char (value / 2 ^ (4 * n) % 16) ∷ hex_digits n value

unfoldable pub uart_put_hex : ℕ → List ℕ
uart_put_hex value = b'0' ∷ b'x' ∷ hex_digits 16 value

-- The array from its end on, which is the order that it is sent in; `none` where 20 bytes do not do.
unfoldable pub dec_digits : (room value : ℕ) → (buffer : List ℕ) → Option (List ℕ)
dec_digits zero value buffer = if value == 0 then some buffer else none
dec_digits (suc room) value buffer = elim (value == 0) [
  | true ↦ some buffer
  | false ↦ dec_digits room (value / 10) ((b'0' + value % 10) ∷ buffer)
]

unfoldable pub uart_put_dec : ℕ → Option (List ℕ)
uart_put_dec value = if value == 0 then some (b'0' ∷ []) else dec_digits 20 value []

-- The loop of uart_gets: the line, and the input that is left; `none` while it is not ended.
unfoldable pub gets_loop : (max_len : ℕ) → (line input : List ℕ) → Option (List ℕ × List ℕ)
gets_loop max_len line [] = none
gets_loop max_len line (c ∷ cs) = elim (c == 0x0d || c == 0x0a) [
  | true ↦ some (line, cs)
  | false ↦ elim (c == 0x03) [
    | true ↦ some ([], cs)
    | false ↦
        gets_loop max_len
          (if c == 0x7f || c == 0x08
            then take (length line - 1) line
            else (if c == 0x15
                then []
                else (if leb 32 c && ltb c 127 && ltb (length line + 1) max_len
                    then line ++ c ∷ []
                    else line)))
          cs
  ]
]

unfoldable pub uart_gets : (max_len : ℕ) → (input : List ℕ) → Option (List ℕ × List ℕ)
uart_gets max_len input = gets_loop max_len [] input
