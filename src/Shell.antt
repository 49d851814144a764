-- ===== src/Shell.antt =====
-- The shell of src/kernel.c: its command history.
pub mod Ring
pub mod Editor
pub mod Bounds
pub mod Typing
mod Tests
use rpi4_bare_metal_os.Prelude.{
  ℕ, zero, suc, ◌+◌, ◌-◌, ◌*◌, ◌%◌, ◌≡◌, Bool, true, false, ◌&&◌, Option, none, some, List, [], ◌∷◌,
  ltb, leb, ◌==◌, if◌then◌else◌, update, length,
}
use rpi4_bare_metal_os.Text.{str_eq}

abbrev pub history_size : ℕ
history_size = 16

abbrev pub line_max : ℕ
line_max = 128

-- `history`, `history_count` and `history_write`
pub record History : Type 0 where
  pub slots : ℕ → List ℕ
  pub count : ℕ
  pub write : ℕ

-- The command stored last is the same.
abbrev pub repeats : List ℕ → History → Bool
repeats cmd h = ltb 0 h.count && str_eq (h.slots ((h.write + history_size - 1) % history_size)) cmd

unfoldable pub history_add : List ℕ → History → History
history_add cmd h =
    if length cmd == 0
    then h
    else (if repeats cmd h then h else record {
      slots = update h.slots h.write cmd;
      write = (h.write + 1) % history_size;
      count = if ltb h.count history_size then h.count + 1 else h.count;
    })

-- Command `index`, counted from the last one; NULL is `none`.
unfoldable pub history_get : ℕ → History → Option (List ℕ)
history_get index h =
    if leb h.count index
    then none
    else some (h.slots ((h.write + history_size * 2 - 1 - index) % history_size))
