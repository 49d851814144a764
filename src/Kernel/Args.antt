-- ===== src/Kernel/Args.antt =====
-- The arguments of the commands of src/kernel.c, and what a command gives back.
use rpi4_bare_metal_os.Prelude.{ℕ, zero, suc, Option, List, [], ◌∷◌, ◌==◌, if◌then◌else◌}
use rpi4_bare_metal_os.Uart.Print.{Print}
use rpi4_bare_metal_os.Kernel.{Kernel}

-- A command that prints, or that changes the state and prints; the input is not read.
abbrev pub Done : Type 0
Done = Option (Kernel × List Print)

-- `while (*p == ' ') p++;`
unfoldable pub skip_spaces : List ℕ → List ℕ
skip_spaces [] = []
skip_spaces (c ∷ cs) = let rest = skip_spaces cs in if c == b' ' then rest else c ∷ cs

-- `cmd + n`
unfoldable pub drop : ℕ → List ℕ → List ℕ
drop zero cs = cs
drop (suc n) [] = []
drop (suc n) (c ∷ cs) = drop n cs

abbrev pub skip_arg : (cmd : List ℕ) → (cmdlen : ℕ) → List ℕ
skip_arg cmd cmdlen = skip_spaces (drop cmdlen cmd)
