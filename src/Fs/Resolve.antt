-- ===== src/Fs/Resolve.antt =====
-- Path resolution ends within its fuel, at a node of the tree.
use rpi4_bare_metal_os.Prelude.{
  ℕ, zero, suc, ◌+◌, ◌-◌, ◌≤◌, ◌<◌, ◌≡◌, refl, ◌≢◌, ◌⊎◌, inl, inr, true, false, Option, some, List,
  [], ◌∷◌, ◌==◌, if◌then◌else◌, length, arith, Bool-cases,
}
use native.Mathlib.Decide.{ℕ_discrete}
use rpi4_bare_metal_os.Links.Search.{first_of, has-first_of}
use rpi4_bare_metal_os.Text.{str_eq}
use rpi4_bare_metal_os.Fs.{FsState, fs_name_max, is_dir, find_child}
use rpi4_bare_metal_os.Fs.Find.{named, find_child-first}
use rpi4_bare_metal_os.Fs.Tree.{IsNode, IsTree, length-kids}
use rpi4_bare_metal_os.Fs.Path.{
  skip_slashes, take_component, next_component, dot, dot_dot, enter, resolve_loop, fs_resolve,
}

length-skip_slashes : (cs : List ℕ) → length (skip_slashes cs) ≤ length cs
unfolding skip_slashes
length-skip_slashes [] = omega arith
length-skip_slashes (c ∷ cs) = ground (arith, length-skip_slashes cs)

length-take_component :
    (room : ℕ) (cs : List ℕ)
    → length (take_component room cs).0 + length (take_component room cs).1 ≡ length cs
unfolding take_component
length-take_component zero cs = omega arith
length-take_component (suc room) [] = omega arith
length-take_component (suc room) (c ∷ cs) = ground (arith, length-take_component room cs)

-- A component is taken off the path.
pub length-next_component :
    (path : List ℕ) → length (next_component path).0 + length (next_component path).1 ≤ length path
unfolding next_component
length-next_component path =
    omega
      (arith, length-take_component (fs_name_max - 1) (skip_slashes path), length-skip_slashes path)

-- One step of the loop of fs_resolve.
go_on :
    (fuel next : ℕ) (rest : List ℕ) (fs : FsState)
    → next ≢ 0
    → elim (next == 0) [ true ↦ some 0 | false ↦ resolve_loop fuel next rest fs ]
      ≡ resolve_loop fuel next rest fs
go_on fuel next rest fs there = let there' : (next == 0) ≡ false = ground arith in rw there' refl

resolve_step :
    (fuel cur next : ℕ) (path : List ℕ) (fs : FsState)
    → length (next_component path).0 ≢ 0
    → enter cur (next_component path).0 fs ≡ some next
    → next ≢ 0
    → resolve_loop (suc fuel) cur path fs ≡ resolve_loop fuel next (next_component path).1 fs
unfolding resolve_loop
resolve_step fuel cur next path fs more entered there =
    let more' : (length (next_component path).0 == 0) ≡ false = ground arith in
    rw (more', resolve_loop, entered) (go_on fuel next (next_component path).1 fs there)

-- a node that was not removed
abbrev pub IsLinked : FsState → ℕ → Type 0
IsLinked fs p = IsNode fs p × ((fs.node_pool p).parent ≢ 0)

-- NULL, or a node of the tree that was not removed
abbrev pub Lands : FsState → Option ℕ → Type 0
Lands fs r = (node : ℕ) × (r ≡ some node) × ((node ≡ 0) ⊎ IsLinked fs node)

module _ {fs : FsState} {kids : ℕ → List ℕ} (t : IsTree fs kids) where
  pub root_linked : (fs.node_pool fs.root).parent ≢ 0
  root_linked = ground (arith, t.root)

  child_or_null :
      (cur : ℕ) (name : List ℕ)
      → IsNode fs cur
      → (first_of (named name fs) (kids cur) ≡ 0)
        ⊎ IsLinked fs (first_of (named name fs) (kids cur))
  child_or_null cur name is = elim (ℕ_discrete (first_of (named name fs) (kids cur)) 0) [
    | yes null ↦ inl null
    | no found ↦
        let listed =
          t.below cur (first_of (named name fs) (kids cur)) is
            (has-first_of (named name fs) (kids cur) found) in
        inr (listed.0, ground (arith, listed))
  ]

  find_child-file :
      (cur : ℕ) (name : List ℕ)
      → is_dir (fs.node_pool cur).kind ≡ false
      → find_child cur name fs ≡ some 0
  unfolding find_child
  find_child-file cur name file = ground arith

  find_child-Lands : (cur : ℕ) (name : List ℕ) → IsNode fs cur → Lands fs (find_child cur name fs)
  find_child-Lands cur name is = elim (Bool-cases (is_dir (fs.node_pool cur).kind)) [
    | inr file ↦ (0, find_child-file cur name file, inl refl)
    | inl directory ↦ (
      first_of (named name fs) (kids cur),
      find_child-first fs cur (kids cur) name (omega arith) directory (t.chain cur is)
          (length-kids cur t is),
      child_or_null cur name is,
    )
  ]

  pub enter-Lands : (cur : ℕ) (comp : List ℕ) → IsLinked fs cur → Lands fs (enter cur comp fs)
  unfolding enter
  enter-Lands cur comp is = elim (Bool-cases (str_eq comp dot)) [
    | inl here ↦ rw here (cur, refl, inr is)
    | inr moves ↦ elim (Bool-cases (str_eq comp dot_dot)) [
      | inl up ↦
          rw (moves, up)
            (
              (if (fs.node_pool cur).parent == 0 then cur else (fs.node_pool cur).parent),
              refl,
              inr (ground (arith, is, t.parent cur is.0, t.up cur is.0)),
            )
      | inr down ↦ rw (moves, down) (find_child-Lands cur comp is.0)
    ]
  ]

  resolve_loop-Lands :
      (fuel cur : ℕ) (path : List ℕ)
      → IsLinked fs cur
      → length path < fuel
      → Lands fs (resolve_loop fuel cur path fs)
  unfolding resolve_loop
  resolve_loop-Lands zero cur path is enough = absurd (omega arith)
  resolve_loop-Lands (suc fuel) cur path is enough =
      elim (ℕ_discrete (length (next_component path).0) 0) [
        | yes at_end ↦
            let at_end' : (length (next_component path).0 == 0) ≡ true = ground arith in
            rw (at_end', resolve_loop) (cur, refl, inr is)
        | no more ↦
            let more' : (length (next_component path).0 == 0) ≡ false = ground arith in
            let (next, entered, lands) = enter-Lands cur (next_component path).0 is in
            elim lands [
              | inl null ↦ rw (more', resolve_loop, entered, null) (0, refl, inl refl)
              | inr is' ↦
                  rw (resolve_step fuel cur next path fs more entered (omega (arith, is'.0))) (
                    resolve_loop-Lands fuel next (next_component path).1 is'
                      (omega (arith, length-next_component path)))
            ]
      ]

  -- In a well-formed tree fs_resolve of any path ends within its fuel, with NULL or a node of the
  -- tree that was not removed.
  pub fs_resolve-Lands : (path : List ℕ) → Lands fs (fs_resolve path fs)
  unfolding fs_resolve
  fs_resolve-Lands [] = resolve_loop-Lands 1 fs.cwd [] (t.cwd.0, t.cwd.2) (omega arith)
  fs_resolve-Lands (c ∷ cs) = elim (Bool-cases (c == b'/')) [
    | inl absolute ↦
        rw absolute (
          resolve_loop-Lands (length (c ∷ cs) + 1) fs.root cs (t.root.0, root_linked) (omega arith))
    | inr relative ↦
        rw relative (
          resolve_loop-Lands (length (c ∷ cs) + 1) fs.cwd (c ∷ cs) (t.cwd.0, t.cwd.2) (omega arith))
  ]
