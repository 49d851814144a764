-- ===== src/Shell/Editor.antt =====
-- The line editor of src/kernel.c, one byte of input at a time. A line is the first `pos` bytes of
-- the buffer: what stands behind them is never read. Echo is left out.
use rpi4_bare_metal_os.Prelude.{
  ℕ, zero, suc, ◌+◌, ◌-◌, ◌&&◌, ◌||◌, Option, none, some, List, [], ◌∷◌, ◌++◌, ltb, leb, ◌==◌,
  if◌then◌else◌, length, take,
}
use rpi4_bare_metal_os.Text.{put_bytes}
use rpi4_bare_metal_os.Shell.{History, line_max, history_add, history_get}

abbrev pub commands : List (List ℕ)
commands =
    (b'h' ∷ b'e' ∷ b'l' ∷ b'p' ∷ [])
    ∷ (b't' ∷ b'i' ∷ b'm' ∷ b'e' ∷ [])
    ∷ (b'i' ∷ b'n' ∷ b'f' ∷ b'o' ∷ [])
    ∷ (b'c' ∷ b'l' ∷ b'e' ∷ b'a' ∷ b'r' ∷ [])
    ∷ (b'p' ∷ b's' ∷ [])
    ∷ (b's' ∷ b'p' ∷ b'a' ∷ b'w' ∷ b'n' ∷ [])
    ∷ (b'm' ∷ b'e' ∷ b'm' ∷ b't' ∷ b'e' ∷ b's' ∷ b't' ∷ [])
    ∷ (b'm' ∷ b'e' ∷ b'm' ∷ [])
    ∷ (b'a' ∷ b'l' ∷ b'l' ∷ b'o' ∷ b'c' ∷ [])
    ∷ (b'p' ∷ b'g' ∷ b'a' ∷ b'l' ∷ b'l' ∷ b'o' ∷ b'c' ∷ [])
    ∷ (b'p' ∷ b'g' ∷ b'f' ∷ b'r' ∷ b'e' ∷ b'e' ∷ [])
    ∷ (b'k' ∷ b'i' ∷ b'l' ∷ b'l' ∷ [])
    ∷ (b't' ∷ b'o' ∷ b'p' ∷ [])
    ∷ (b'h' ∷ b'i' ∷ b's' ∷ b't' ∷ b'o' ∷ b'r' ∷ b'y' ∷ [])
    ∷ (b'm' ∷ b'm' ∷ b'u' ∷ [])
    ∷ (b'l' ∷ b's' ∷ [])
    ∷ (b'c' ∷ b'd' ∷ [])
    ∷ (b'p' ∷ b'w' ∷ b'd' ∷ [])
    ∷ (b'm' ∷ b'k' ∷ b'd' ∷ b'i' ∷ b'r' ∷ [])
    ∷ (b'r' ∷ b'm' ∷ b'd' ∷ b'i' ∷ b'r' ∷ [])
    ∷ (b't' ∷ b'o' ∷ b'u' ∷ b'c' ∷ b'h' ∷ [])
    ∷ (b'c' ∷ b'a' ∷ b't' ∷ [])
    ∷ (b'w' ∷ b'r' ∷ b'i' ∷ b't' ∷ b'e' ∷ [])
    ∷ (b'r' ∷ b'm' ∷ [])
    ∷ (b'c' ∷ b'p' ∷ b'u' ∷ b's' ∷ [])
    ∷ []

-- The bytes of `word` behind the line, where the line is the start of the word.
unfoldable pub completion : (line word : List ℕ) → Option (List ℕ)
completion [] word = some word
completion (x ∷ xs) [] = none
completion (x ∷ xs) (y ∷ ys) = let rest = completion xs ys in if x == y then rest else none

unfoldable pub completions : (line : List ℕ) → List (List ℕ) → List (List ℕ)
completions line [] = []
completions line (w ∷ ws) =
    let rest = completions line ws in
    elim (completion line w) [ none ↦ rest | some more ↦ more ∷ rest ]

-- A single match is written out, and a space behind it; several matches are only shown.
unfoldable pub complete_with : (line : List ℕ) → List (List ℕ) → List ℕ
complete_with line (more ∷ []) =
    let full : List ℕ = put_bytes (line_max - 2) line more in
    if ltb (length full) (line_max - 1) then full ++ b' ' ∷ [] else full
complete_with line _ = line

unfoldable pub tab_complete : List ℕ → List ℕ
tab_complete line =
    if length line == 0 then line else complete_with line (completions line commands)

-- Where in an escape sequence the editor is.
pub data Mode : Type 0 where
  plain escape csi : Mode

-- `hist_idx` is `none` for -1.
pub record Editor : Type 0 where
  pub line : List ℕ
  pub hist_idx : Option ℕ
  pub saved : List ℕ
  pub mode : Mode

unfoldable pub up_to : (new_idx : ℕ) → Editor → Option (List ℕ) → Editor
up_to new_idx e none = e
up_to new_idx e (some h) = record e {
  line = h;
  hist_idx = some new_idx;
  saved = elim e.hist_idx [ none ↦ e.line | some _ ↦ e.saved ];
}

unfoldable pub up : History → Editor → Editor
up h e =
    let new_idx : ℕ = elim e.hist_idx [ none ↦ 0 | some i ↦ i + 1 ] in
    up_to new_idx e (history_get new_idx h)

unfoldable pub down_from : Option ℕ → History → Editor → Editor
down_from none h e = e
down_from (some zero) h e = record e { line = e.saved; hist_idx = none }
down_from (some (suc i)) h e = record e {
  line = elim (history_get i h) [ none ↦ [] | some old ↦ old ];
  hist_idx = some i;
}

unfoldable pub down : History → Editor → Editor
down h e = down_from e.hist_idx h e

-- Enter and Ctrl+C end the line; all else goes on.
pub data Key : Type 0 where
  editing : Editor → Key
  entered : (line : List ℕ) → Key
  cancelled : Key

unfoldable pub plain_key : (c : ℕ) → Editor → Key
plain_key c e =
    if c == 0x0d || c == 0x0a
    then entered e.line
    else (if c == 0x7f || c == 0x08
        then editing (record e { line = take (length e.line - 1) e.line })
        else (if c == 0x03
            then cancelled
            else (if c == 0x15
                then editing (record e { line = [] })
                else (if c == 0x01
                    then editing (record e { line = [] })
                    else (if c == 0x05
                        then editing e
                        else (if c == 0x0c
                            then editing e
                            else (if c == 0x09
                                then editing (record e { line = tab_complete e.line })
                                else (if c == 0x1b
                                    then editing (record e { mode = escape })
                                    else (if leb 32 c
                                          && ltb c 127
                                          && ltb (length e.line) (line_max - 1)
                                        then editing (record e { line = e.line ++ c ∷ [] })
                                        else editing e)))))))))

unfoldable pub csi_key : (c : ℕ) → History → Editor → Editor
csi_key c h e =
    let e' : Editor = record e { mode = plain } in
    if c == b'A' then up h e' else (if c == b'B' then down h e' else e')

unfoldable pub key_in : Mode → (c : ℕ) → History → Editor → Key
key_in plain c h e = plain_key c e
key_in escape c h e = editing (record e { mode = if c == b'[' then csi else plain })
key_in csi c h e = editing (csi_key c h e)

abbrev pub fresh_line : Editor
fresh_line = record { line = []; hist_idx = none; saved = []; mode = plain }

-- The line, the history, and the input that is left; `none` while the line is not ended.
unfoldable pub read_loop : (input : List ℕ) → History → Editor → Option (List ℕ × History × List ℕ)
read_loop [] h e = none
read_loop (c ∷ cs) h e = elim (key_in e.mode c h e) [
  | editing e' ↦ read_loop cs h e'
  | entered line ↦ some (line, history_add line h, cs)
  | cancelled ↦ some ([], h, cs)
]

unfoldable pub shell_readline : (input : List ℕ) → History → Option (List ℕ × History × List ℕ)
shell_readline input h = read_loop input h fresh_line
