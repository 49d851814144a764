-- ===== src/Shell/Tests.antt =====
-- The shell's input on a few lines.
use rpi4_bare_metal_os.Prelude.{ℕ, ◌≡◌, ◌≢◌, ◌⊎◌, refl, some, List, [], ◌∷◌, ◌++◌, arith}
use rpi4_bare_metal_os.Shell.{History, history_add, history_get}
use rpi4_bare_metal_os.Shell.Ring.{IsHistory, Pushed, history_add-Pushed}
use rpi4_bare_metal_os.Shell.Editor.{
  shell_readline, read_loop, key_in, plain_key, tab_complete, completions, completion,
  complete_with,
}
use rpi4_bare_metal_os.Text.{put_bytes}
use rpi4_bare_metal_os.Shell.Bounds.{Fits, AllFit, shell_readline-Fits}
use rpi4_bare_metal_os.Shell.Typing.{shell_readline_typed}

abbrev no_history : History
no_history = record { slots = λ i. []; count = 0; write = 0 }

no_history-IsHistory : IsHistory no_history
no_history-IsHistory = record { write = omega arith; count = omega arith }

abbrev ls : List ℕ
ls = b'l' ∷ b's' ∷ []

-- One match: the word is completed, and a space follows.
tab_completes : tab_complete (b'h' ∷ b'e' ∷ []) ≡ b'h' ∷ b'e' ∷ b'l' ∷ b'p' ∷ b' ' ∷ []
unfolding tab_complete completions completion complete_with put_bytes
tab_completes = refl

-- After Ctrl+A, Enter gives an empty line.
home_loses_line :
    shell_readline (b'l' ∷ b's' ∷ 0x01 ∷ 0x0d ∷ []) no_history ≡ some ([], no_history, [])
unfolding shell_readline read_loop key_in plain_key history_add
home_loses_line = refl

history_add-Pushed_example :
    IsHistory (history_add ls no_history)
    × (((history_add ls no_history ≡ no_history)
          × ((ls ≡ []) ⊎ (history_get 0 no_history ≡ some ls)))
        ⊎ ((ls ≢ [])
            × (history_get 0 no_history ≢ some ls)
            × Pushed ls no_history (history_add ls no_history)))
history_add-Pushed_example = history_add-Pushed ls no_history-IsHistory

shell_readline_typed_example :
    shell_readline (ls ++ 0x0d ∷ []) no_history ≡ some (ls, history_add ls no_history, [])
shell_readline_typed_example = shell_readline_typed ls [] no_history refl (omega arith)

ls_read : shell_readline (ls ++ 0x0d ∷ []) no_history ≡ some (ls, history_add ls no_history, [])
ls_read = shell_readline_typed ls [] no_history refl (omega arith)

shell_readline-Fits_example : Fits ls × AllFit (history_add ls no_history)
shell_readline-Fits_example =
    shell_readline-Fits no_history (ls ++ 0x0d ∷ []) (λ i. omega arith) ls_read
