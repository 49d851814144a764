-- ===== src/Shell/Bounds.antt =====
-- No line overruns its buffer of LINE_MAX bytes.
use rpi4_bare_metal_os.Prelude.{
  ℕ, zero, suc, ◌+◌, ◌-◌, ◌%◌, ◌<◌, ◌≡◌, refl, inl, inr, Bool, true, false, ◌&&◌, ◌||◌, Option,
  none, some, List, [], ◌∷◌, ◌++◌, ltb, leb, ◌==◌, if◌then◌else◌, length, length-append, take,
  length-take, arith, Bool-cases, subst,
}
use rpi4_bare_metal_os.Text.{put_bytes, length-put_bytes}
use rpi4_bare_metal_os.Shell.{History, line_max, history_add, history_get}
use rpi4_bare_metal_os.Shell.Editor.{
  completions, commands, complete_with, tab_complete, Mode, plain, escape, csi, Editor, up_to, up,
  down_from, down, Key, editing, entered, cancelled, plain_key, csi_key, key_in, read_loop,
  shell_readline, fresh_line,
}

-- a line and its NUL fit the buffer
abbrev pub Fits : List ℕ → Type 0
Fits line = length line < line_max

abbrev pub AllFit : History → Type 0
AllFit h = (i : ℕ) → Fits (h.slots i)

record EditorFits (e : Editor) : Type 0 where
  line : Fits e.line
  saved : Fits e.saved

history_add-AllFit : (cmd : List ℕ) (h : History) → Fits cmd → AllFit h → AllFit (history_add cmd h)
unfolding history_add
history_add-AllFit cmd h fits all i = ground (arith, all i)

history_get-Fits :
    (i : ℕ) (h : History) {line : List ℕ} → AllFit h → history_get i h ≡ some line → Fits line
unfolding history_get
history_get-Fits i h all e = ground (arith, all ((h.write + 31 - i) % 16))

complete_with-Fits : (line : List ℕ) (ws : List (List ℕ)) → Fits line → Fits (complete_with line ws)
unfolding complete_with
complete_with-Fits line [] fits = fits
complete_with-Fits line (w ∷ []) fits = ground (
  arith,
  length-put_bytes (line_max - 2) line w,
  length-append (put_bytes (line_max - 2) line w) (b' ' ∷ []),
)
complete_with-Fits line (w ∷ v ∷ ws) fits = fits

tab_complete-Fits : (line : List ℕ) → Fits line → Fits (tab_complete line)
unfolding tab_complete
tab_complete-Fits line fits =
    ground (arith, complete_with-Fits line (completions line commands) fits)

up_to-EditorFits :
    (i : ℕ) {e : Editor} (o : Option (List ℕ))
    → EditorFits e
    → ((line : List ℕ) → o ≡ some line → Fits line)
    → EditorFits (up_to i e o)
unfolding up_to
up_to-EditorFits i none ok old = ok
up_to-EditorFits i {e} (some line) ok old = record {
  line = old line refl;
  saved = saved_fits e.hist_idx;
}
  where
    saved_fits : (idx : Option ℕ) → Fits (elim idx [ none ↦ e.line | some _ ↦ e.saved ])
    saved_fits none = ok.line
    saved_fits (some i) = ok.saved

or_empty-Fits :
    (o : Option (List ℕ))
    → ((line : List ℕ) → o ≡ some line → Fits line)
    → Fits (elim o [ none ↦ [] | some old ↦ old ])
or_empty-Fits none old = omega arith
or_empty-Fits (some line) old = old line refl

down_from-EditorFits :
    (idx : Option ℕ) (h : History) {e : Editor}
    → AllFit h
    → EditorFits e
    → EditorFits (down_from idx h e)
unfolding down_from
down_from-EditorFits none h all ok = ok
down_from-EditorFits (some zero) h all ok = record { line = ok.saved; saved = ok.saved }
down_from-EditorFits (some (suc i)) h {e} all ok = record {
  line = or_empty-Fits (history_get i h) (λ line. history_get-Fits i h all);
  saved = ok.saved;
}

csi_key-EditorFits :
    (c : ℕ) (h : History) {e : Editor} → AllFit h → EditorFits e → EditorFits (csi_key c h e)
unfolding csi_key up down
csi_key-EditorFits c h {e} all ok = elim (Bool-cases (c == b'A')) [
  | inl is_up ↦ rw is_up (
      up_to-EditorFits (next_index e.hist_idx) (history_get (next_index e.hist_idx) h) again
        (λ line. history_get-Fits (next_index e.hist_idx) h all))
  | inr not_up ↦ elim (Bool-cases (c == b'B')) [
    | inl is_down ↦ rw (not_up, is_down) (down_from-EditorFits e.hist_idx h all again)
    | inr other ↦ rw (not_up, other) again
  ]
]
  where
    next_index : Option ℕ → ℕ
    next_index o = elim o [ none ↦ 0 | some i ↦ i + 1 ]

    again : EditorFits (record e { mode = plain })
    again = record { line = ok.line; saved = ok.saved }

-- What a key leads to fits.
data KeyFits : Key → Type 0 where
  goes_on : {e : Editor} → EditorFits e → KeyFits (editing e)
  ends : {line : List ℕ} → Fits line → KeyFits (entered line)
  drops : KeyFits cancelled

if-KeyFits :
    (b : Bool) (k l : Key) → (b ≡ true → KeyFits k) → KeyFits l → KeyFits (if b then k else l)
if-KeyFits true k l first second = first refl
if-KeyFits false k l first second = second

plain_key-KeyFits : (c : ℕ) (e : Editor) → EditorFits e → KeyFits (plain_key c e)
unfolding plain_key
plain_key-KeyFits c e ok =
    if-KeyFits (c == 0x0d || c == 0x0a) _ _ (λ enter. ends ok.line)
      (if-KeyFits (c == 0x7f || c == 0x08) _ _
        (λ back. with_line (take (length e.line - 1) e.line) fewer)
        (if-KeyFits (c == 0x03) _ _ (λ ctrl_c. drops)
          (if-KeyFits (c == 0x15) _ _ (λ ctrl_u. with_line [] (omega arith))
            (if-KeyFits (c == 0x01) _ _ (λ ctrl_a. with_line [] (omega arith))
              (if-KeyFits (c == 0x05) _ _ (λ ctrl_e. goes_on ok)
                (if-KeyFits (c == 0x0c) _ _ (λ ctrl_l. goes_on ok)
                  (if-KeyFits (c == 0x09) _ _
                    (λ tab. with_line (tab_complete e.line) (tab_complete-Fits e.line ok.line))
                    (if-KeyFits (c == 0x1b) _ _
                      (λ esc. goes_on (record { line = ok.line; saved = ok.saved }))
                      (if-KeyFits (leb 32 c && ltb c 127 && ltb (length e.line) (line_max - 1)) _ _
                        (λ typed.
                          with_line (e.line ++ c ∷ [])
                            (ground (arith, length-append e.line (c ∷ []))))
                        (goes_on ok))))))))))
  where
    fewer : Fits (take (length e.line - 1) e.line)
    fewer = omega (arith, ok.line, length-take (length e.line - 1) e.line)

    with_line : (line : List ℕ) → Fits line → KeyFits (editing (record e { line = line }))
    with_line line fits = goes_on (record { line = fits; saved = ok.saved })

key_in-KeyFits :
    (mode : Mode) (c : ℕ) (h : History) (e : Editor)
    → AllFit h
    → EditorFits e
    → KeyFits (key_in mode c h e)
unfolding key_in
key_in-KeyFits plain c h e all ok = plain_key-KeyFits c e ok
key_in-KeyFits escape c h e all ok = goes_on (record { line = ok.line; saved = ok.saved })
key_in-KeyFits csi c h e all ok = goes_on (csi_key-EditorFits c h all ok)

-- The line that was read and every line of the history fit.
abbrev ReadFits : Option (List ℕ × History × List ℕ) → Type 0
ReadFits r =
    (line : List ℕ) (h' : History) (rest : List ℕ)
    → r ≡ some (line, h', rest)
    → Fits line × AllFit h'

key-ReadFits :
    (k : Key) (cs : List ℕ) (h : History)
    → KeyFits k
    → AllFit h
    → ((e : Editor) → EditorFits e → ReadFits (read_loop cs h e))
    → ReadFits (elim k [
      | editing e ↦ read_loop cs h e
      | entered line ↦ some (line, history_add line h, cs)
      | cancelled ↦ some ([], h, cs)
    ])
key-ReadFits (editing e) cs h (goes_on fits) all later = later e fits
key-ReadFits (entered line) cs h (ends fits) all later = λ line' h' rest eq.
    let same : history_add line h ≡ h' = cc eq in
    (subst Fits (cc eq) fits, subst AllFit same (history_add-AllFit line h fits all))
key-ReadFits cancelled cs h drops all later = λ line' h' rest eq.
    let empty : [] ≡ line' = cc eq in
    let same : h ≡ h' = cc eq in (subst Fits empty (omega arith), subst AllFit same all)

read_loop-ReadFits :
    (input : List ℕ) (h : History) (e : Editor)
    → AllFit h
    → EditorFits e
    → ReadFits (read_loop input h e)
unfolding read_loop
read_loop-ReadFits [] h e all ok = λ line h' rest eq. cc
read_loop-ReadFits (c ∷ cs) h e all ok =
    key-ReadFits (key_in e.mode c h e) cs h (key_in-KeyFits e.mode c h e all ok) all
      (λ e' fits. read_loop-ReadFits cs h e' all fits)

-- If every line of the history fits a buffer of LINE_MAX bytes with its NUL, then so do the line that
-- shell_readline returns and every line of the history after it, whatever the input.
pub shell_readline-Fits :
    (h : History) (input : List ℕ) {line rest : List ℕ} {h' : History}
    → AllFit h
    → shell_readline input h ≡ some (line, h', rest)
    → Fits line × AllFit h'
unfolding shell_readline
shell_readline-Fits h input {line} {rest} {h'} all eq =
    read_loop-ReadFits input h fresh_line all (record { line = omega arith; saved = omega arith })
      line h' rest eq
