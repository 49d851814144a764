-- ===== src/Uart/Line.antt =====
-- The line that uart_gets of src/drivers/uart.c leaves in its buffer.
use rpi4_bare_metal_os.Prelude.{
  ℕ, ◌+◌, ◌-◌, ◌<◌, ◌≡◌, refl, ◌&&◌, ◌||◌, List, [], ◌∷◌, ◌++◌, leb, ltb, ◌==◌, if◌then◌else◌,
  length, take, arith, inl, inr, Bool-cases, All, all_none, all_some, length-take,
}
use rpi4_bare_metal_os.Uart.{gets_loop, uart_gets}

length-snoc : (xs : List ℕ) (x : ℕ) → length (xs ++ x ∷ []) ≡ length xs + 1
length-snoc [] x = refl
length-snoc (y ∷ xs) x = omega (arith, length-snoc xs x)

-- the line after a key that does not end it
abbrev edited : (max_len : ℕ) (line : List ℕ) (c : ℕ) → List ℕ
edited max_len line c =
    if c == 0x7f || c == 0x08
    then take (length line - 1) line
    else (if c == 0x15
        then []
        else (if leb 32 c && ltb c 127 && ltb (length line + 1) max_len
            then line ++ c ∷ []
            else line))

-- Such a key leaves room for the NUL.
key_fits :
    (max_len : ℕ) (line : List ℕ) (c : ℕ)
    → length line < max_len
    → length (edited max_len line c) < max_len
key_fits max_len line c lt = ground (arith, length-take (length line - 1) line, length-snoc line c)

gets_loop_fits :
    (max_len : ℕ) (line input : List ℕ)
    → length line < max_len
    → All (λ (r : List ℕ × List ℕ). length r.0 < max_len) (gets_loop max_len line input)
unfolding gets_loop
gets_loop_fits max_len line [] lt = all_none
gets_loop_fits max_len line (c ∷ cs) lt = elim (Bool-cases (c == 0x0d || c == 0x0a)) [
  | inl enter ↦ rw (enter, gets_loop) (all_some lt)
  | inr other ↦ elim (Bool-cases (c == 0x03)) [
    | inl break ↦ rw (other, break, gets_loop) (all_some (omega (arith, lt)))
    | inr key ↦
        rw (other, key, gets_loop)
          (gets_loop_fits max_len (edited max_len line c) cs (key_fits max_len line c lt))
  ]
]

-- The line and its NUL fit the buffer.
uart_gets_fits :
    (max_len : ℕ) (input : List ℕ)
    → 0 < max_len
    → All (λ (r : List ℕ × List ℕ). length r.0 < max_len) (uart_gets max_len input)
unfolding uart_gets
uart_gets_fits max_len input pos = gets_loop_fits max_len [] input pos
