-- ===== src/Kernel/Typed.antt =====
-- What the command write of src/kernel.c makes of lines that are typed.
use rpi4_bare_metal_os.Prelude.{
  ℕ, zero, suc, ◌+◌, ◌-◌, ◌≤◌, ◌<◌, ◌≡◌, refl, ◌∙◌, sym, ap, Bool, ◌&&◌, ◌||◌, true, false, List,
  [], ◌∷◌, ◌++◌, ltb, leb, ◌==◌, length, length-append, append_none, append_assoc, append_cons,
  arith,
}
use rpi4_bare_metal_os.Text.{put_bytes}
use rpi4_bare_metal_os.Fs.{fs_max_data}
use rpi4_bare_metal_os.Kernel.Write.{
  write_line_max, entered, finished, write_line, append_line, typed, write_loop, read_text,
}
use rpi4_bare_metal_os.Kernel.Bounds.{write_loop-entered, write_loop-finished}

-- Printable bytes, as many as a line takes.
unfoldable pub is_printable : List ℕ → Bool
is_printable [] = true
is_printable (c ∷ cs) = leb 32 c && ltb c 127 && is_printable cs

abbrev pub IsLine : List ℕ → Type 0
IsLine line = (is_printable line ≡ true) × (length line < write_line_max)

abbrev pub AreLines : List (List ℕ) → Type 0
AreLines [] = zero ≤ zero
AreLines (line ∷ lines) = IsLine line × AreLines lines

-- The lines as they are typed, each with Enter.
abbrev pub keys : List (List ℕ) → List ℕ
keys [] = []
keys (line ∷ lines) = line ++ 0x0d ∷ keys lines

-- The lines as they are stored, each with a newline.
abbrev pub text_of : List (List ℕ) → List ℕ
text_of [] = []
text_of (line ∷ lines) = line ++ 0x0a ∷ text_of lines

-- Printable bytes that fit are taken one by one.
write_line-keys :
    (line more rest : List ℕ)
    → is_printable more ≡ true
    → length line + length more < write_line_max
    → (write_line line (more ++ 0x0d ∷ rest)).0 ≡ entered (line ++ more) rest
unfolding write_line is_printable
write_line-keys line [] rest ok fits = ap (λ l. entered l rest) (sym (append_none line))
write_line-keys line (c ∷ cs) rest ok fits =
    let low : leb 32 c ≡ true = ground arith in
    let high : ltb c 127 ≡ true = ground arith in
    let room : ltb (length line) (write_line_max - 1) ≡ true = ground arith in
    let no_d : (c == 0x04) ≡ false = ground arith in
    let no_enter : (c == 0x0d || c == 0x0a) ≡ false = ground arith in
    let no_erase : (c == 0x7f || c == 0x08) ≡ false = ground arith in
    let no_c : (c == 0x03) ≡ false = ground arith in
    let more : is_printable cs ≡ true = ground arith in
    rw (no_d, no_enter, no_erase, no_c, low, high, room, write_line)
      (write_line-keys (line ++ c ∷ []) cs rest more (omega (arith, length-append line (c ∷ [])))
        ∙ ap (λ l. entered l rest) (append_cons line c cs))

put_bytes-room :
    (limit : ℕ) (buf bytes : List ℕ)
    → length buf + length bytes ≤ limit
    → put_bytes limit buf bytes ≡ buf ++ bytes
unfolding put_bytes
put_bytes-room limit buf [] fits = sym (append_none buf)
put_bytes-room limit buf (c ∷ cs) fits =
    let room : ltb (length buf) limit ≡ true = ground arith in
    rw room (
      put_bytes-room limit (buf ++ c ∷ []) cs (omega (arith, length-append buf (c ∷ [])))
      ∙ append_cons buf c cs)

append_line-room :
    (content line : List ℕ)
    → length content + length line < fs_max_data - 2
    → append_line content line ≡ (content ++ line) ++ 0x0a ∷ []
unfolding append_line
append_line-room content line fits =
    let all = put_bytes-room (fs_max_data - 2) content line (omega arith) in
    let room : ltb (length (content ++ line)) (fs_max_data - 2) ≡ true =
      ground (arith, length-append content line) in
    rw (all, room) refl

-- The lines are read one after the other, and Ctrl+D ends them.
write_loop-keys :
    (fuel : ℕ) (content : List ℕ) (lines : List (List ℕ)) (rest : List ℕ)
    → AreLines lines
    → length (keys lines) < fuel
    → length content + length (text_of lines) < fs_max_data - 2
    → (write_loop fuel content (keys lines ++ 0x04 ∷ rest)).0
      ≡ typed (content ++ text_of lines) rest
unfolding write_line
write_loop-keys zero content lines rest ok enough fits = absurd (omega arith)
write_loop-keys (suc fuel) content [] rest ok enough fits =
    let ended : (write_line [] (0x04 ∷ rest)).0 ≡ finished rest = refl in
    write_loop-finished fuel content (0x04 ∷ rest) (ground arith) rest ended
    ∙ ap (λ t. typed t rest) (sym (append_none content))
write_loop-keys (suc fuel) content (line ∷ lines) rest ok enough fits =
    let input : List ℕ = line ++ 0x0d ∷ (keys lines ++ 0x04 ∷ rest) in
    let shape : (line ++ 0x0d ∷ keys lines) ++ 0x04 ∷ rest ≡ input =
      append_assoc line (0x0d ∷ keys lines) (0x04 ∷ rest) in
    let ended : (write_line [] input).0 ≡ entered line (keys lines ++ 0x04 ∷ rest) =
      write_line-keys [] line (keys lines ++ 0x04 ∷ rest) ok.0.0 (ground (arith, ok.0.1)) in
    let text_size = length-append line (0x0a ∷ text_of lines) in
    let keys_size = length-append line (0x0d ∷ keys lines) in
    let longer : List ℕ = (content ++ line) ++ 0x0a ∷ [] in
    let appended : append_line content line ≡ longer =
      append_line-room content line (omega (arith, fits, text_size)) in
    let total : length longer + length (text_of lines) < fs_max_data - 2 = omega (
      arith,
      fits,
      text_size,
      length-append content line,
      length-append (content ++ line) (0x0a ∷ []),
    ) in
    let text : longer ++ text_of lines ≡ content ++ (line ++ 0x0a ∷ text_of lines) =
      append_cons (content ++ line) 0x0a (text_of lines)
      ∙ append_assoc content line (0x0a ∷ text_of lines) in
    rw shape (
      write_loop-entered fuel content input (ground arith) line (keys lines ++ 0x04 ∷ rest) ended
      ∙ rw appended (
          write_loop-keys fuel longer lines rest ok.1 (omega (arith, enough, keys_size)) total
          ∙ ap (λ t. typed t rest) text))

-- Lines of at most 255 printable bytes that together have at most 4093 bytes with their newlines, each
-- typed with Enter and followed by Ctrl+D, are the text that write stores; the input goes on behind.
pub read_text-keys :
    (lines : List (List ℕ)) (rest : List ℕ)
    → AreLines lines
    → length (text_of lines) < fs_max_data - 2
    → (read_text (keys lines ++ 0x04 ∷ rest)).0 ≡ typed (text_of lines) rest
unfolding read_text
read_text-keys lines rest ok fits =
    write_loop-keys (suc (length (keys lines ++ 0x04 ∷ rest))) [] lines rest ok
      (omega (arith, length-append (keys lines) (0x04 ∷ rest))) (omega (arith, fits))
