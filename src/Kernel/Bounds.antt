-- ===== src/Kernel/Bounds.antt =====
-- The buffers of the command write of src/kernel.c, and that its loops end.
use rpi4_bare_metal_os.Prelude.{
  ℕ, zero, suc, ◌-◌, ◌≤◌, ◌<◌, ◌≡◌, ◌&&◌, ◌||◌, true, List, [], ◌∷◌, ◌++◌, ltb, leb, ◌==◌, length,
  length-append, length-take, take, Bool-cases, inl, inr, arith, refl, ◌⊎◌,
}
use rpi4_bare_metal_os.Text.{put_bytes, length-put_bytes}
use rpi4_bare_metal_os.Fs.{fs_max_data}
use rpi4_bare_metal_os.Kernel.Write.{
  write_line_max, LineEnd, entered, finished, line_aborted, line_waits, write_line, append_line,
  WriteEnd, typed, aborted, waits, write_loop, read_text,
}

-- The end of a line that was read from `n` bytes: it and its NUL fit the buffer, and less is left.
pub data LineFits (n : ℕ) : LineEnd → Type 0 where
  fits_entered :
      {line rest : List ℕ}
      → length line < write_line_max
      → length rest < n
      → LineFits n (entered line rest)
  fits_finished : {rest : List ℕ} → length rest < n → LineFits n (finished rest)
  fits_aborted : {rest : List ℕ} → length rest < n → LineFits n (line_aborted rest)
  fits_waits : LineFits n line_waits

LineFits-more : {n : ℕ} {e : LineEnd} → LineFits n e → LineFits (suc n) e
LineFits-more (fits_entered l r) = fits_entered l (omega arith)
LineFits-more (fits_finished r) = fits_finished (omega arith)
LineFits-more (fits_aborted r) = fits_aborted (omega arith)
LineFits-more fits_waits = fits_waits

write_line-LineFits :
    (line input : List ℕ)
    → length line < write_line_max
    → LineFits (length input) (write_line line input).0
unfolding write_line
write_line-LineFits line [] le = fits_waits
write_line-LineFits line (c ∷ cs) le =
    let same = LineFits-more (write_line-LineFits line cs le) in
    elim (Bool-cases (c == 0x04)) [
      | inl e ↦ elim (Bool-cases (length line == 0)) [
        | inl e' ↦ rw (e, e', write_line) (fits_finished (omega arith))
        | inr e' ↦ rw (e, e', write_line) same
      ]
      | inr e ↦ elim (Bool-cases (c == 0x0d || c == 0x0a)) [
        | inl e' ↦ rw (e, e', write_line) (fits_entered le (omega arith))
        | inr e' ↦ elim (Bool-cases ((c == 0x7f || c == 0x08) && ltb 0 (length line))) [
          | inl f ↦
              rw (e, e', f, write_line)
                (LineFits-more (
                  write_line-LineFits (take (length line - 1) line) cs
                    (omega (arith, length-take (length line - 1) line))))
          | inr f ↦ elim (Bool-cases (c == 0x03)) [
            | inl g ↦ rw (e, e', f, g, write_line) (fits_aborted (omega arith))
            | inr g ↦
                elim (Bool-cases
                  (leb 32 c && ltb c 127 && ltb (length line) (write_line_max - 1))) [
                    | inl h ↦
                        rw (e, e', f, g, h, write_line)
                          (LineFits-more (
                            write_line-LineFits (line ++ c ∷ []) cs
                              (ground (arith, length-append line (c ∷ [])))))
                    | inr h ↦ rw (e, e', f, g, h, write_line) same
                  ]
          ]
        ]
      ]
    ]

-- The end of a text that was read from `n` bytes: it and its NUL fit the buffer.
pub data TextFits (n : ℕ) : WriteEnd → Type 0 where
  fits_typed :
      {content rest : List ℕ}
      → length content < fs_max_data
      → length rest ≤ n
      → TextFits n (typed content rest)
  fits_stopped : {rest : List ℕ} → length rest ≤ n → TextFits n (aborted rest)
  fits_unfinished : TextFits n waits

TextFits-more : {n m : ℕ} {e : WriteEnd} → n ≤ m → TextFits n e → TextFits m e
TextFits-more le (fits_typed l r) = fits_typed l (omega arith)
TextFits-more le (fits_stopped r) = fits_stopped (omega arith)
TextFits-more le fits_unfinished = fits_unfinished

length-append_line :
    (content line : List ℕ)
    → length content ≤ fs_max_data - 2
    → length (append_line content line) ≤ fs_max_data - 2
unfolding append_line
length-append_line content line le =
    let longer = put_bytes (fs_max_data - 2) content line in
    ground
      (arith, length-put_bytes (fs_max_data - 2) content line, length-append longer (0x0a ∷ []))

-- One turn of the loop, by how its line ends.
module _ (fuel : ℕ) (content input : List ℕ)
    (room : ltb (length content) (fs_max_data - 2) ≡ true) where
  pub write_loop-entered :
      (line rest : List ℕ)
      → (write_line [] input).0 ≡ entered line rest
      → (write_loop (suc fuel) content input).0
        ≡ (write_loop fuel (append_line content line) rest).0
  unfolding write_loop
  write_loop-entered line rest e = rw (room, write_loop, e) refl

  pub write_loop-finished :
      (rest : List ℕ)
      → (write_line [] input).0 ≡ finished rest
      → (write_loop (suc fuel) content input).0 ≡ typed content rest
  unfolding write_loop
  write_loop-finished rest e = rw (room, write_loop, e) refl

  write_loop-aborted :
      (rest : List ℕ)
      → (write_line [] input).0 ≡ line_aborted rest
      → (write_loop (suc fuel) content input).0 ≡ aborted rest
  unfolding write_loop
  write_loop-aborted rest e = rw (room, write_loop, e) refl

  write_loop-waits :
      (write_line [] input).0 ≡ line_waits → (write_loop (suc fuel) content input).0 ≡ waits
  unfolding write_loop
  write_loop-waits e = rw (room, write_loop, e) refl

LineFits-cases :
    (n : ℕ) (e : LineEnd)
    → LineFits n e
    → ((line : List ℕ) × (rest : List ℕ) × (e ≡ entered line rest) × (length rest < n))
      ⊎ ((rest : List ℕ) × (e ≡ finished rest) × (length rest < n))
      ⊎ ((rest : List ℕ) × (e ≡ line_aborted rest) × (length rest < n))
      ⊎ (e ≡ line_waits)
LineFits-cases n (entered line rest) (fits_entered l r) = inl (line, rest, refl, r)
LineFits-cases n (finished rest) (fits_finished r) = inr (inl (rest, refl, r))
LineFits-cases n (line_aborted rest) (fits_aborted r) = inr (inr (inl (rest, refl, r)))
LineFits-cases n line_waits fits_waits = inr (inr (inr refl))

write_loop-TextFits :
    (fuel : ℕ) (content input : List ℕ)
    → length input < fuel
    → length content ≤ fs_max_data - 2
    → TextFits (length input) (write_loop fuel content input).0
unfolding write_loop
write_loop-TextFits zero content input enough le = absurd (omega arith)
write_loop-TextFits (suc fuel) content input enough le =
    elim (Bool-cases (ltb (length content) (fs_max_data - 2))) [
      | inr full ↦ rw (full, write_loop) (fits_typed (omega arith) (omega arith))
      | inl room ↦
          elim (LineFits-cases (length input) (write_line [] input).0
            (write_line-LineFits [] input (omega arith))) [
              | inl (line, rest, e, less) ↦
                  rw (write_loop-entered fuel content input room line rest e) (
                    TextFits-more (omega arith) (
                      write_loop-TextFits fuel (append_line content line) rest (omega arith)
                        (length-append_line content line le)))
              | inr (inl (rest, e, less)) ↦
                  rw (write_loop-finished fuel content input room rest e)
                    (fits_typed (omega arith) (omega arith))
              | inr (inr (inl (rest, e, less))) ↦
                  rw (write_loop-aborted fuel content input room rest e)
                    (fits_stopped (omega arith))
              | inr (inr (inr e)) ↦ rw (write_loop-waits fuel content input room e) fits_unfinished
            ]
    ]

-- Whatever is typed, the dialogue of write ends within its fuel, or waits for more; each line and its
-- NUL fit their 256 bytes, and the text and its NUL the 4096 bytes of theirs.
pub read_text-TextFits :
    (input : List ℕ)
    → TextFits (length input) (read_text input).0
      × ((line rest : List ℕ)
          → length line < write_line_max
          → LineFits (length rest) (write_line line rest).0)
unfolding read_text
read_text-TextFits input = (
  write_loop-TextFits (suc (length input)) [] input (omega arith) (omega arith),
  write_line-LineFits,
)
