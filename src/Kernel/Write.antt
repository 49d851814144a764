-- ===== src/Kernel/Write.antt =====
-- The command `write` of src/kernel.c, over the bytes that are typed.
use rpi4_bare_metal_os.Prelude.{
  ℕ, zero, suc, ◌-◌, not, ◌&&◌, ◌||◌, true, false, Option, none, some, List, [], ◌∷◌, ◌++◌, ltb,
  leb, ◌==◌, if◌then◌else◌, length, take, ◌>>=◌,
}
use rpi4_bare_metal_os.Text.{put_bytes}
use rpi4_bare_metal_os.Uart.Print.{Print, puts, putc, put_dec, say}
use rpi4_bare_metal_os.Fs.{fs_max_data, is_dir}
use rpi4_bare_metal_os.Fs.Path.{fs_resolve}
use rpi4_bare_metal_os.Fs.Api.{fs_write}
use rpi4_bare_metal_os.Kernel.{Kernel}

-- The size of the buffer for a line.
abbrev pub write_line_max : ℕ
write_line_max = 256

-- How the loop over the bytes of a line is left, with the input behind: at Enter, at Ctrl+D on an
-- empty line, at Ctrl+C, or not yet.
pub data LineEnd : Type 0 where
  entered : (line rest : List ℕ) → LineEnd
  finished : (rest : List ℕ) → LineEnd
  line_aborted : (rest : List ℕ) → LineEnd
  line_waits : LineEnd

-- One more call of the output functions before the others.
abbrev pub first_print {ℓ} : {A : Type ℓ} → Print → A × List Print → A × List Print
first_print p (a, ps) = (a, p ∷ ps)

unfoldable pub write_line : (line input : List ℕ) → LineEnd × List Print
write_line line [] = (line_waits, [])
write_line line (c ∷ cs) = elim (c == 0x04) [
  | true ↦ elim (length line == 0) [
    | true ↦ (finished cs, say "\n" ∷ [])
    | false ↦ write_line line cs
  ]
  | false ↦ elim (c == 0x0d || c == 0x0a) [
    | true ↦ (entered line cs, say "\n" ∷ [])
    | false ↦ elim ((c == 0x7f || c == 0x08) && ltb 0 (length line)) [
      | true ↦ first_print (say "\u{8} \u{8}") (write_line (take (length line - 1) line) cs)
      | false ↦ elim (c == 0x03) [
        | true ↦ (line_aborted cs, say "^C\n" ∷ say "write: aborted\n" ∷ [])
        | false ↦ elim (leb 32 c && ltb c 127 && ltb (length line) (write_line_max - 1)) [
          | true ↦ first_print (putc c) (write_line (line ++ c ∷ []) cs)
          | false ↦ write_line line cs
        ]
      ]
    ]
  ]
]

-- A line and its newline, as far as there is room.
unfoldable pub append_line : (content line : List ℕ) → List ℕ
append_line content line =
    let longer : List ℕ = put_bytes (fs_max_data - 2) content line in
    if ltb (length longer) (fs_max_data - 2) then longer ++ 0x0a ∷ [] else longer

-- How the loop over the lines is left.
pub data WriteEnd : Type 0 where
  typed : (content rest : List ℕ) → WriteEnd
  aborted : (rest : List ℕ) → WriteEnd
  waits : WriteEnd
  out_of_fuel : WriteEnd

-- What was printed before.
abbrev pub after_prints {ℓ} : {A : Type ℓ} → List Print → A × List Print → A × List Print
after_prints ps (a, later) = (a, ps ++ later)

-- A turn takes at least one byte.
unfoldable pub write_loop : (fuel : ℕ) → (content input : List ℕ) → WriteEnd × List Print
write_loop zero content input = (out_of_fuel, [])
write_loop (suc fuel) content input = elim (ltb (length content) (fs_max_data - 2)) [
  | false ↦ (typed content input, [])
  | true ↦
      let (end, ps) = write_line [] input in
      first_print (say "> ") (elim end [
        | entered line rest ↦ after_prints ps (write_loop fuel (append_line content line) rest)
        | finished rest ↦ (typed content rest, ps)
        | line_aborted rest ↦ (aborted rest, ps)
        | line_waits ↦ (waits, ps)
      ])
]

unfoldable pub read_text : (input : List ℕ) → WriteEnd × List Print
read_text input = write_loop (suc (length input)) [] input

-- What the caller goes on with: the state, what was printed, and the input that is left.
pub record Reply : Type 0 where
  pub kernel : Kernel
  pub printed : List Print
  pub input : List ℕ

-- The text is stored; the answer of fs_write is not looked at. `fuel` is for kmalloc.
unfoldable pub store_text :
    (fuel : ℕ) → (path content : List ℕ) → Kernel → Option (Kernel × List Print)
store_text fuel path content k =
    if ltb 0 (length content)
    then (do
      r ← fs_write fuel path content k.fs
      some (
        record k { fs = r.0 },
        say "Wrote " ∷ put_dec (length content) ∷ say " bytes to " ∷ puts path ∷ say "\n" ∷ [],
      ))
    else some (k, say "write: nothing written\n" ∷ [])

-- What follows the dialogue.
unfoldable pub finish_text :
    (fuel : ℕ) → (path : List ℕ) → Kernel → WriteEnd × List Print → Option Reply
finish_text fuel path k (typed content rest, ps) = do
  r ← store_text fuel path content k
  some (record { kernel = r.0; printed = ps ++ r.1; input = rest })
finish_text fuel path k (aborted rest, ps) =
    some (record { kernel = k; printed = ps; input = rest })
finish_text fuel path k (waits, ps) = none
finish_text fuel path k (out_of_fuel, ps) = none

-- The dialogue once the path is not a directory; `none` where the text is not ended.
abbrev pub write_text : (fuel : ℕ) → (path input : List ℕ) → Kernel → Option Reply
write_text fuel path input k = finish_text fuel path k (read_text input)

unfoldable pub cmd_write_interactive : (fuel : ℕ) → (path input : List ℕ) → Kernel → Option Reply
cmd_write_interactive fuel path input k =
    if length path == 0
    then some (record { kernel = k; printed = say "Usage: write <filename>\n" ∷ []; input = input })
    else (do
      file ← fs_resolve path k.fs
      if not (file == 0) && is_dir (k.fs.node_pool file).kind
          then some
              (record { kernel = k; printed = say "write: is a directory\n" ∷ []; input = input })
          else (do
            r ← write_text fuel path input k
            some (record r {
              printed = say "Enter text (Ctrl+D on empty line to finish):\n" ∷ r.printed;
            })))
