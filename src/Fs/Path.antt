-- ===== src/Fs/Path.antt =====
-- Path resolution in src/drivers/fs.c.
use rpi4_bare_metal_os.Prelude.{
  ℕ, zero, suc, ◌+◌, ◌-◌, true, false, ◌&&◌, ◌||◌, not, Option, none, some, List, [], ◌∷◌, ltb,
  ◌==◌, if◌then◌else◌, length, take, ◌>>=◌,
}
use rpi4_bare_metal_os.Text.{str_eq}
use rpi4_bare_metal_os.Fs.{FsState, fs_name_max, is_dir, find_child}

-- `while (**path == '/') (*path)++;`
unfoldable pub skip_slashes : List ℕ → List ℕ
skip_slashes [] = []
skip_slashes (c ∷ cs) = let rest = skip_slashes cs in if c == b'/' then rest else c ∷ cs

-- The bytes up to the next slash, at most `room`, and what follows them.
unfoldable pub take_component : (room : ℕ) → List ℕ → List ℕ × List ℕ
take_component zero cs = ([], cs)
take_component (suc room) [] = ([], [])
take_component (suc room) (c ∷ cs) =
    let (comp, rest) = take_component room cs in
    if c == b'/' then ([], c ∷ cs) else (c ∷ comp, rest)

-- The next component, and the rest of the path.
unfoldable pub next_component : List ℕ → List ℕ × List ℕ
next_component path = take_component (fs_name_max - 1) (skip_slashes path)

abbrev pub dot : List ℕ
dot = b'.' ∷ []

abbrev pub dot_dot : List ℕ
dot_dot = b'.' ∷ b'.' ∷ []

-- One component on from `cur`: `.` and `..` go on at once, and a name is looked up.
unfoldable pub enter : (cur : ℕ) → List ℕ → FsState → Option ℕ
enter cur comp fs =
    if str_eq comp dot
    then some cur
    else (if str_eq comp dot_dot
        then some (if (fs.node_pool cur).parent == 0 then cur else (fs.node_pool cur).parent)
        else find_child cur comp fs)

-- The loop of fs_resolve.
unfoldable pub resolve_loop : (fuel cur : ℕ) → (path : List ℕ) → FsState → Option ℕ
resolve_loop zero cur path fs = none
resolve_loop (suc fuel) cur path fs = elim (length (next_component path).0 == 0) [
  | true ↦ some cur
  | false ↦ do
    next ← enter cur (next_component path).0 fs
    elim (next == 0) [ true ↦ some 0 | false ↦ resolve_loop fuel next (next_component path).1 fs ]
]

-- A path that starts with a slash starts at the root.
abbrev pub start_of : List ℕ → FsState → ℕ × List ℕ
start_of [] fs = (fs.cwd, [])
start_of (c ∷ cs) fs = if c == b'/' then (fs.root, cs) else (fs.cwd, c ∷ cs)

-- The node at a path, or NULL.
unfoldable pub fs_resolve : List ℕ → FsState → Option ℕ
fs_resolve path fs =
    let (cur, rest) = start_of path fs in resolve_loop (length path + 1) cur rest fs

-- The part of a path from its last slash on.
unfoldable pub last_slash : List ℕ → Option (List ℕ)
last_slash [] = none
last_slash (c ∷ cs) = elim (last_slash cs) [
  | some later ↦ some later
  | none ↦ elim (c == b'/') [ true ↦ some (c ∷ cs) | false ↦ none ]
]

-- In resolve_parent a component other than `.` and `..` must be a directory.
unfoldable pub enter_dir : (cur : ℕ) → List ℕ → FsState → Option ℕ
enter_dir cur comp fs = do
  next ← enter cur comp fs
  some (
      if str_eq comp dot || str_eq comp dot_dot || is_dir (fs.node_pool next).kind then next else 0)

-- `while (remaining < last_slash)`: the slash has not been reached while more bytes remain than
-- stand from it on.
unfoldable pub parent_loop : (fuel slash_left cur : ℕ) → (remaining : List ℕ) → FsState → Option ℕ
parent_loop zero slash_left cur remaining fs = none
parent_loop (suc fuel) slash_left cur remaining fs =
    elim (ltb slash_left (length remaining) && not (length (next_component remaining).0 == 0)) [
      | false ↦ some cur
      | true ↦ do
        next ← enter_dir cur (next_component remaining).0 fs
        elim (next == 0) [
          | true ↦ some 0
          | false ↦ parent_loop fuel slash_left next (next_component remaining).1 fs
        ]
    ]

abbrev pub after_slash : List ℕ → List ℕ
after_slash [] = []
after_slash (c ∷ cs) = cs

-- resolve_parent from the directory to start at on, by where the last slash stands.
unfoldable pub resolve_from :
    (fuel cur : ℕ) → (rest : List ℕ) → (slash : Option (List ℕ)) → FsState → Option (ℕ × List ℕ)
resolve_from fuel cur rest none fs = some (cur, take (fs_name_max - 1) rest)
resolve_from fuel cur rest (some slash) fs = do
  parent ← parent_loop fuel (length slash) cur rest fs
  some (parent, take (fs_name_max - 1) (after_slash slash))

-- The directory that holds the last component of a path, or NULL, and that component.
unfoldable pub resolve_parent : List ℕ → FsState → Option (ℕ × List ℕ)
resolve_parent path fs =
    let (cur, rest) = start_of path fs in
    resolve_from (length path + 1) cur rest (last_slash rest) fs
