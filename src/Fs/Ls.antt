-- ===== src/Fs/Ls.antt =====
-- fs_ls of src/drivers/fs.c, as what it prints.
use rpi4_bare_metal_os.Prelude.{
  ℕ, zero, suc, Option, none, some, true, false, List, [], ◌∷◌, ◌++◌, ◌==◌, if◌then◌else◌, length,
  ◌>>=◌,
}
use rpi4_bare_metal_os.Uart.Print.{Print, puts, say, put_dec}
use rpi4_bare_metal_os.Fs.{FsNode, FsState, is_dir, sibling_fuel}
use rpi4_bare_metal_os.Fs.Path.{fs_resolve}

-- `name  (size bytes)`
abbrev size_line : FsNode → List Print
size_line n = puts n.name ∷ say "  (" ∷ put_dec n.size ∷ say " bytes)\n" ∷ []

abbrev pub child_line : FsNode → List Print
child_line n = say "  " ∷ (if is_dir n.kind then puts n.name ∷ say "/\n" ∷ [] else size_line n)

unfoldable pub ls_loop : (fuel child : ℕ) → FsState → Option (List Print)
ls_loop zero child fs = none
ls_loop (suc fuel) child fs = elim (child == 0) [
  | true ↦ some []
  | false ↦ do
    later ← ls_loop fuel (fs.node_pool child).next_sibling fs
    some (child_line (fs.node_pool child) ++ later)
]

-- A found node, or NULL.
unfoldable pub ls_node : (dir : ℕ) → FsState → Option (List Print)
ls_node dir fs =
    let n : FsNode = fs.node_pool dir in
    if dir == 0
    then some (say "ls: not found\n" ∷ [])
    else (if is_dir n.kind
        then (if n.children == 0
            then some (say "(empty)\n" ∷ [])
            else ls_loop sibling_fuel n.children fs)
        else some (size_line n))

-- Without a path, or with an empty one, the current directory.
unfoldable pub fs_ls : (path : List ℕ) → FsState → Option (List Print)
fs_ls path fs =
    if length path == 0 then ls_node fs.cwd fs else do dir ← fs_resolve path fs; ls_node dir fs
