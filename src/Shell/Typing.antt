-- ===== src/Shell/Typing.antt =====
-- What is typed is what is entered.
use rpi4_bare_metal_os.Prelude.{
  append_cons, append_none, ℕ, ◌+◌, ◌-◌, ◌≤◌, ◌<◌, ◌≡◌, refl, ◌∙◌, ap, Bool, true, ◌&&◌, some, List,
  [], ◌∷◌, ◌++◌, ltb, leb, length, length-append, arith,
}
use rpi4_bare_metal_os.Shell.{History, line_max, history_add}
use rpi4_bare_metal_os.Shell.Editor.{
  Editor, editing, plain_key, key_in, read_loop, shell_readline, fresh_line,
}

-- every byte prints
abbrev pub prints : List ℕ → Bool
prints [] = true
prints (c ∷ cs) = leb 32 c && ltb c 127 && prints cs

-- A byte that prints goes to the end of the line, where there is room.
plain_key_typed :
    (c : ℕ) (e : Editor)
    → 32 ≤ c
    → c < 127
    → length e.line < line_max - 1
    → plain_key c e ≡ editing (record e { line = e.line ++ c ∷ [] })
unfolding plain_key
plain_key_typed c e lo hi room = ground arith

abbrev at_line : List ℕ → Editor
at_line line = record fresh_line { line = line }

read_loop_step :
    (c : ℕ) (cs line : List ℕ) (h : History)
    → 32 ≤ c
    → c < 127
    → length line < line_max - 1
    → read_loop (c ∷ cs) h (at_line line) ≡ read_loop cs h (at_line (line ++ c ∷ []))
unfolding read_loop key_in
read_loop_step c cs line h lo hi room =
    rw (plain_key_typed c (at_line line) lo hi room, read_loop) refl

read_loop_typed :
    (typed line rest : List ℕ) (h : History)
    → prints typed ≡ true
    → length line + length typed < line_max
    → read_loop (typed ++ 0x0d ∷ rest) h (at_line line)
      ≡ some (line ++ typed, history_add (line ++ typed) h, rest)
unfolding read_loop key_in plain_key
read_loop_typed [] line rest h is room = rw (append_none line) refl
read_loop_typed (c ∷ cs) line rest h is room =
    read_loop_step c (cs ++ 0x0d ∷ rest) line h (ground arith) (ground arith) (omega arith)
    ∙ (read_loop_typed cs (line ++ c ∷ []) rest h (ground arith)
          (omega (arith, length-append line (c ∷ [])))
        ∙ ap (λ l. some (l, history_add l h, rest)) (append_cons line c cs))

-- Bytes that print, fewer than LINE_MAX, and Enter: shell_readline returns them as the line, adds
-- the line to the history, and leaves the rest of the input.
pub shell_readline_typed :
    (typed rest : List ℕ) (h : History)
    → prints typed ≡ true
    → length typed < line_max
    → shell_readline (typed ++ 0x0d ∷ rest) h ≡ some (typed, history_add typed h, rest)
unfolding shell_readline
shell_readline_typed typed rest h is room = read_loop_typed typed [] rest h is (omega arith)
