-- ===== src/Uart/Print.antt =====
-- Text as the kernel prints it: literals, and the calls of the output functions of
-- src/drivers/uart.c in the order in which a command makes them.
use Prim.Native.Char.{code}
use Prim.Native.String.{String}
use rpi4_bare_metal_os.Prelude.{ℕ, Option, some, List, [], ◌∷◌, ◌++◌, ◌>>=◌}
use rpi4_bare_metal_os.Uart.{uart_puts, uart_put_hex, uart_put_dec}

-- A literal of the source; it is ASCII.
abbrev pub bytes : String → List ℕ
bytes String.[] = []
bytes (String.◌∷◌ c rest) = code c ∷ bytes rest

-- One call: `uart_puts(s)`, `uart_putc(c)`, `uart_put_dec(n)` or `uart_put_hex(n)`
pub data Print : Type 0 where
  puts : List ℕ → Print
  putc : ℕ → Print
  put_dec : ℕ → Print
  put_hex : ℕ → Print

-- A call with a literal.
abbrev pub say : String → Print
say text = puts (bytes text)

-- The bytes that one call sends.
unfoldable pub send : Print → Option (List ℕ)
send (puts s) = some (uart_puts s)
send (putc c) = some (c ∷ [])
send (put_dec n) = uart_put_dec n
send (put_hex n) = some (uart_put_hex n)

-- The bytes that all of them send.
unfoldable pub send_all : List Print → Option (List ℕ)
send_all [] = some []
send_all (p ∷ ps) = do first ← send p; rest ← send_all ps; some (first ++ rest)
