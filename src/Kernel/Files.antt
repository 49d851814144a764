-- ===== src/Kernel/Files.antt =====
-- The commands of src/kernel.c for files. What src/drivers/fs.c prints itself is left out.
use rpi4_bare_metal_os.Prelude.{
  ℕ, zero, suc, ◌-◌, not, ◌&&◌, Option, none, some, List, [], ◌∷◌, ltb, ◌==◌, if◌then◌else◌, length,
  ◌>>=◌,
}
use rpi4_bare_metal_os.Uart.Print.{Print, puts, say}
use rpi4_bare_metal_os.Fs.{FsState, is_dir}
use rpi4_bare_metal_os.Fs.Path.{fs_resolve}
use rpi4_bare_metal_os.Fs.Api.{fs_set_cwd, fs_read, fs_get_path}
use rpi4_bare_metal_os.Kernel.{Kernel}
use rpi4_bare_metal_os.Kernel.Args.{Done}

abbrev pub fs_path_max : ℕ
fs_path_max = 128

unfoldable pub cmd_pwd : Kernel → List Print
cmd_pwd k = puts (fs_get_path k.fs.cwd fs_path_max k.fs) ∷ say "\n" ∷ []

-- Without a path, the root.
unfoldable pub cmd_cd : List ℕ → Kernel → Done
cmd_cd arg k =
    if length arg == 0 then some (record k { fs = fs_set_cwd k.fs.root k.fs }, []) else (do
      dir ← fs_resolve arg k.fs
      some (
          if dir == 0
          then (k, say "cd: not found: " ∷ puts arg ∷ say "\n" ∷ [])
          else (if is_dir (k.fs.node_pool dir).kind
              then (record k { fs = fs_set_cwd dir k.fs }, [])
              else (k, say "cd: not a directory: " ∷ puts arg ∷ say "\n" ∷ []))))

-- A command with one path that changes the filesystem.
abbrev pub with_path :
    {A : Type 0}
    → (usage : Print) → (List ℕ → FsState → Option (FsState × A))
    → List ℕ
    → Kernel
    → Done
with_path usage call arg k =
    if length arg == 0
    then some (k, usage ∷ [])
    else (do r ← call arg k.fs; some (record k { fs = r.0 }, []))

-- `data[size - 1]`, where `size` is not 0
unfoldable pub byte_at : ℕ → List ℕ → ℕ
byte_at n [] = 0
byte_at zero (c ∷ cs) = c
byte_at (suc n) (c ∷ cs) = byte_at n cs

unfoldable pub cmd_cat : List ℕ → Kernel → Option (List Print)
cmd_cat arg k = if length arg == 0 then some (say "Usage: cat <filename>\n" ∷ []) else (do
  data_ ← fs_read arg k.fs
  node ← fs_resolve arg k.fs
  some (elim data_ [
    | none ↦
        if not (node == 0) && is_dir (k.fs.node_pool node).kind
        then say "cat: is a directory\n" ∷ []
        else (if node == 0
            then say "cat: not found: " ∷ puts arg ∷ say "\n" ∷ []
            else say "(empty)\n" ∷ [])
    | some r ↦
        puts r.0 ∷ (if ltb 0 r.1 && not (byte_at (r.1 - 1) r.0 == 0x0a) then say "\n" ∷ [] else [])
  ]))
