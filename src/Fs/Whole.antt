-- ===== src/Fs/Whole.antt =====
-- fs_mkdir from its path on, and resolve_parent.
use rpi4_bare_metal_os.Prelude.{
  ℕ, zero, suc, ◌+◌, ◌-◌, ◌<◌, ◌≡◌, ◌≢◌, refl, ◌⊎◌, inl, inr, true, false, ◌&&◌, ◌||◌, not, Option,
  none, some, List, [], ◌∷◌, ◌==◌, if◌then◌else◌, ltb, length, take, length-take, arith, Bool-cases,
}
use native.Mathlib.Decide.{ℕ_discrete}
use rpi4_bare_metal_os.Text.{str_eq}
use rpi4_bare_metal_os.Fs.{NodeType, fs_dir, FsState, fs_max_nodes, fs_name_max, is_dir, find_child}
use rpi4_bare_metal_os.Fs.Tree.{IsTree}
use rpi4_bare_metal_os.Fs.Path.{
  next_component, dot, dot_dot, enter_dir, parent_loop, last_slash, after_slash, resolve_from,
  resolve_parent,
}
use rpi4_bare_metal_os.Fs.Resolve.{IsLinked, root_linked, Lands, length-next_component, enter-Lands}
use rpi4_bare_metal_os.Fs.Find.{named}
use rpi4_bare_metal_os.Fs.Make.{Made}
use rpi4_bare_metal_os.Links.Search.{first_of}
use rpi4_bare_metal_os.Fs.Mkdir.{mkdir_in-MkdirAnswer}
use rpi4_bare_metal_os.Fs.Api.{mkdir_in, fs_mkdir}

parent_step :
    (fuel slash_left cur next : ℕ) (path : List ℕ) (fs : FsState)
    → (ltb slash_left (length path) && not (length (next_component path).0 == 0)) ≡ true
    → enter_dir cur (next_component path).0 fs ≡ some next
    → parent_loop (suc fuel) slash_left cur path fs ≡ elim (next == 0) [
      | true ↦ some 0
      | false ↦ parent_loop fuel slash_left next (next_component path).1 fs
    ]
unfolding parent_loop
parent_step fuel slash_left cur next path fs more entered = rw (more, parent_loop, entered) refl

parent_end :
    (fuel slash_left cur : ℕ) (path : List ℕ) (fs : FsState)
    → (ltb slash_left (length path) && not (length (next_component path).0 == 0)) ≡ false
    → parent_loop (suc fuel) slash_left cur path fs ≡ some cur
unfolding parent_loop
parent_end fuel slash_left cur path fs at_end = rw (at_end, parent_loop) refl

module _ {fs : FsState} {kids : ℕ → List ℕ} (t : IsTree fs kids) where
  enter_dir-Lands : (cur : ℕ) (comp : List ℕ) → IsLinked fs cur → Lands fs (enter_dir cur comp fs)
  unfolding enter_dir
  enter_dir-Lands cur comp is =
      let (next, entered, lands) = enter-Lands t cur comp is in
      rw entered (
        (if str_eq comp dot || str_eq comp dot_dot || is_dir (fs.node_pool next).kind
            then next
            else 0),
        refl,
        ground (arith, lands),
      )

  parent_loop-Lands :
      (fuel slash_left cur : ℕ) (path : List ℕ)
      → IsLinked fs cur
      → length path < fuel
      → Lands fs (parent_loop fuel slash_left cur path fs)
  parent_loop-Lands zero slash_left cur path is enough = absurd (omega arith)
  parent_loop-Lands (suc fuel) slash_left cur path is enough =
      elim (Bool-cases
        (ltb slash_left (length path) && not (length (next_component path).0 == 0))) [
          | inr at_end ↦ rw (parent_end fuel slash_left cur path fs at_end) (cur, refl, inr is)
          | inl more ↦
              let (next, entered, lands) = enter_dir-Lands cur (next_component path).0 is in
              rw (parent_step fuel slash_left cur next path fs more entered) (elim lands [
                | inl null ↦
                    let null' : (next == 0) ≡ true = ground arith in rw null' (0, refl, inl refl)
                | inr is' ↦
                    let there : (next == 0) ≡ false = ground (arith, is'.0) in
                    rw there (
                      parent_loop-Lands fuel slash_left next (next_component path).1 is'
                        (ground (arith, length-next_component path)))
              ])
        ]

  -- NULL or a node of the tree, and a name that fits
  abbrev pub ParentAnswer : Option (ℕ × List ℕ) → Type 0
  ParentAnswer r =
      (parent : ℕ) × (name : List ℕ) × (r ≡ some (parent, name))
      × ((parent ≡ 0) ⊎ IsLinked fs parent)
      × (length name < fs_name_max)

  resolve_from-ParentAnswer :
      (fuel cur : ℕ) (rest : List ℕ) (slash : Option (List ℕ))
      → IsLinked fs cur
      → length rest < fuel
      → ParentAnswer (resolve_from fuel cur rest slash fs)
  unfolding resolve_from
  resolve_from-ParentAnswer fuel cur rest none is enough = (
    cur,
    take (fs_name_max - 1) rest,
    refl,
    inr is,
    omega (arith, length-take (fs_name_max - 1) rest),
  )
  resolve_from-ParentAnswer fuel cur rest (some slash) is enough =
      let (parent, found, lands) = parent_loop-Lands fuel (length slash) cur rest is enough in
      rw found (
        parent,
        take (fs_name_max - 1) (after_slash slash),
        refl,
        lands,
        omega (arith, length-take (fs_name_max - 1) (after_slash slash)),
      )

  pub resolve_parent-ParentAnswer : (path : List ℕ) → ParentAnswer (resolve_parent path fs)
  unfolding resolve_parent
  resolve_parent-ParentAnswer [] =
      resolve_from-ParentAnswer 1 fs.cwd [] (last_slash []) (t.cwd.0, t.cwd.2) (omega arith)
  resolve_parent-ParentAnswer (c ∷ cs) = elim (Bool-cases (c == b'/')) [
    | inl absolute ↦ rw absolute (
        resolve_from-ParentAnswer (length (c ∷ cs) + 1) fs.root cs (last_slash cs)
          (t.root.0, root_linked t) (omega arith))
    | inr relative ↦ rw relative (
        resolve_from-ParentAnswer (length (c ∷ cs) + 1) fs.cwd (c ∷ cs) (last_slash (c ∷ cs))
          (t.cwd.0, t.cwd.2) (omega arith))
  ]

  -- No node can be made there: the parent is NULL or a file, the name is empty, or the pool is full.
  abbrev pub Unfit : (parent : ℕ) → List ℕ → Type 0
  Unfit parent name =
      (parent ≡ 0)
      ⊎ ((is_dir (fs.node_pool parent).kind ≡ false)
          ⊎ ((length name ≡ 0) ⊎ (fs.nodes_used ≡ fs_max_nodes)))

  -- A new node of that kind and name in a directory of the tree.
  abbrev pub MadeIn : (parent : ℕ) → List ℕ → NodeType → FsState → (node : ℕ) → Type 0
  MadeIn parent name kind fs' node =
      IsLinked fs parent
      × (is_dir (fs.node_pool parent).kind ≡ true)
      × Made parent name kind fs fs' kids node

  -- How the call ends once the parent and the name are known: nothing is made, for a reason, or a
  -- directory is, and it is found.
  abbrev pub MkdirEnds : (parent : ℕ) → List ℕ → Option (FsState × ℕ) → Type 0
  MkdirEnds parent name r =
      ((r ≡ some (fs, 0)) × (Unfit parent name ⊎ (first_of (named name fs) (kids parent) ≢ 0)))
      ⊎ ((fs' : FsState) × (node : ℕ) × (r ≡ some (fs', node))
          × MadeIn parent name fs_dir fs' node
          × (find_child parent name fs' ≡ some node))

  abbrev pub MkdirKeeps : (path : List ℕ) → Option (FsState × ℕ) → Type 0
  MkdirKeeps path r =
      (parent : ℕ) × (name : List ℕ) × (resolve_parent path fs ≡ some (parent, name))
      × MkdirEnds parent name r

  mkdir_in-MkdirEnds :
      (parent : ℕ) (name : List ℕ)
      → (parent ≡ 0) ⊎ IsLinked fs parent
      → length name < fs_name_max
      → MkdirEnds parent name (mkdir_in parent name fs)
  unfolding mkdir_in
  mkdir_in-MkdirEnds parent name (inl null) short =
      let null' : (parent == 0) ≡ true = ground arith in rw null' (inl (refl, inl (inl null)))
  mkdir_in-MkdirEnds parent name (inr is) short =
      let there : (parent == 0) ≡ false = ground (arith, is.0) in
      elim (Bool-cases (is_dir (fs.node_pool parent).kind)) [
        | inr file ↦ inl (rw (there, file) refl, inl (inr (inl file)))
        | inl directory ↦ elim (ℕ_discrete (length name) 0) [
          | yes empty ↦
              let empty' : (length name == 0) ≡ true = ground arith in
              rw (there, directory, empty') (inl (refl, inl (inr (inr (inl empty)))))
          | no some_name ↦
              elim (mkdir_in-MkdirAnswer parent name t is.0 directory is.1 (omega arith) short) [
                | inl (old, same) ↦ inl (same, inr old)
                | inr (inl (full, same)) ↦ inl (same, inl (inr (inr (inr full))))
                | inr (inr (fs', node, done, made, found)) ↦
                    inr (fs', node, done, (is, directory, made), found)
              ]
        ]
      ]

  pub fs_mkdir-MkdirKeeps : (path : List ℕ) → MkdirKeeps path (fs_mkdir path fs)
  unfolding fs_mkdir
  fs_mkdir-MkdirKeeps path =
      let (parent, name, resolved, lands, short) = resolve_parent-ParentAnswer path in
      (parent, name, resolved, rw resolved (mkdir_in-MkdirEnds parent name lands short))
