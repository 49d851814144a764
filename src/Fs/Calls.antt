-- ===== src/Fs/Calls.antt =====
-- fs_set_cwd, fs_rm, fs_rmdir and fs_touch from their path on.
use rpi4_bare_metal_os.Prelude.{
  ℕ, ◌≡◌, refl, ◌⊎◌, inl, inr, Bool, true, false, Option, some, List, ◌==◌, length, arith,
  Bool-cases,
}
use rpi4_bare_metal_os.Fs.{fs_file, FsState, is_dir}
use rpi4_bare_metal_os.Fs.Tree.{IsTree, IsTree-frame}
use rpi4_bare_metal_os.Fs.Path.{fs_resolve, resolve_parent}
use rpi4_bare_metal_os.Fs.Resolve.{IsLinked, fs_resolve-Lands}
use rpi4_bare_metal_os.Fs.Make.{make_node-Made}
use rpi4_bare_metal_os.Fs.Rm.{Gone, rm_node-Gone, rmdir_node-Gone}
use rpi4_bare_metal_os.Fs.Whole.{Unfit, MadeIn, resolve_parent-ParentAnswer}
use rpi4_bare_metal_os.Fs.Api.{fs_set_cwd, rm_node, fs_rm, rmdir_node, fs_rmdir, touch_in, fs_touch}

module _ {fs : FsState} {kids : ℕ → List ℕ} (t : IsTree fs kids) where
  -- The current directory moves to any node that a path leads to, if it is a directory.
  pub fs_set_cwd-IsTree : (dir : ℕ) → (dir ≡ 0) ⊎ IsLinked fs dir → IsTree (fs_set_cwd dir fs) kids
  unfolding fs_set_cwd
  fs_set_cwd-IsTree dir (inl null) = let null' : (dir == 0) ≡ true = ground arith in rw null' t
  fs_set_cwd-IsTree dir (inr is) = elim (Bool-cases (is_dir (fs.node_pool dir).kind)) [
    | inr file ↦ let there : (dir == 0) ≡ false = ground (arith, is.0) in rw (there, file) t
    | inl directory ↦
        let there : (dir == 0) ≡ false = ground (arith, is.0) in
        rw (there, directory)
          (IsTree-frame (record fs { cwd = dir }) t (refl, refl) (λ p. (refl, refl, refl, refl))
            (is.0, directory, is.1))
  ]

  -- The call changes nothing and fails, or it removes the node that the path leads to.
  abbrev pub Removes : (path : List ℕ) → (kind : Bool) → Option (FsState × Bool) → Type 0
  Removes path kind r =
      (r ≡ some (fs, false))
      ⊎ ((node : ℕ) × (fs' : FsState) × (fs_resolve path fs ≡ some node)
          × (r ≡ some (fs', true))
          × (is_dir (fs.node_pool node).kind ≡ kind)
          × Gone node fs fs' kids)

  -- In a well-formed tree fs_rm of any path ends: it fails and changes nothing, or the path leads to
  -- a file, which is then nowhere listed and holds nothing, with the tree kept and the contents of
  -- all other nodes as before.
  pub fs_rm-Removes : (path : List ℕ) → Removes path false (fs_rm path fs)
  unfolding fs_rm rm_node
  fs_rm-Removes path =
      let (node, found, lands) = fs_resolve-Lands t path in
      elim lands [
        | inl null ↦ let null' : (node == 0) ≡ true = ground arith in rw (found, null') (inl refl)
        | inr is ↦
            let there : (node == 0) ≡ false = ground (arith, is.0) in
            elim (Bool-cases (is_dir (fs.node_pool node).kind)) [
              | inl directory ↦ rw (found, there, directory) (inl refl)
              | inr file ↦
                  let (fs', done, gone) = rm_node-Gone node t is.0 file is.1 in
                  inr (node, fs', found, rw found done, file, gone)
            ]
      ]

  -- In a well-formed tree fs_rmdir of any path ends: it fails and changes nothing, or the path leads
  -- to a directory, which is then nowhere listed, with the tree kept and the contents of all other
  -- nodes as before.
  pub fs_rmdir-Removes : (path : List ℕ) → Removes path true (fs_rmdir path fs)
  unfolding fs_rmdir rmdir_node
  fs_rmdir-Removes path =
      let (node, found, lands) = fs_resolve-Lands t path in
      elim lands [
        | inl null ↦ let null' : (node == 0) ≡ true = ground arith in rw (found, null') (inl refl)
        | inr is ↦
            let there : (node == 0) ≡ false = ground (arith, is.0) in
            elim (Bool-cases (is_dir (fs.node_pool node).kind)) [
              | inr file ↦ rw (found, there, file) (inl refl)
              | inl directory ↦ elim (Bool-cases (node == fs.root)) [
                | inl root ↦ rw (found, there, directory, root) (inl refl)
                | inr other ↦ elim (Bool-cases ((fs.node_pool node).children == 0)) [
                  | inr full ↦ rw (found, there, directory, other, full) (inl refl)
                  | inl childless ↦
                      let (fs', done, gone, cwd) =
                        rmdir_node-Gone node t is.0 directory (ground arith) (ground arith) is.1 in
                      inr (node, fs', found, rw found done, directory, gone)
                ]
              ]
            ]
      ]

  -- How fs_touch ends where the path leads nowhere, once the parent and the name are known.
  abbrev pub TouchEnds : (parent : ℕ) → List ℕ → FsState × ℕ → Type 0
  TouchEnds parent name r =
      ((r ≡ (fs, 0)) × Unfit t parent name)
      ⊎ ((fs' : FsState) × (node : ℕ) × (r ≡ (fs', node)) × MadeIn t parent name fs_file fs' node)

  -- How fs_touch ends: a node was there, or nothing is made, for a reason, or a file is.
  abbrev pub Touches : (path : List ℕ) → Option (FsState × ℕ) → Type 0
  Touches path r =
      ((node : ℕ) × (fs_resolve path fs ≡ some node) × IsLinked fs node × (r ≡ some (fs, node)))
      ⊎ ((fs_resolve path fs ≡ some 0)
          × ((parent : ℕ) × (name : List ℕ) × (made : FsState × ℕ) × (resolve_parent path fs
                ≡ some (parent, name))
              × (r ≡ some made)
              × TouchEnds parent name made))

  touch_in-TouchEnds :
      (parent : ℕ) (name : List ℕ)
      → (parent ≡ 0) ⊎ IsLinked fs parent
      → TouchEnds parent name (touch_in parent name fs)
  unfolding touch_in
  touch_in-TouchEnds parent name (inl null) =
      let null' : (parent == 0) ≡ true = ground arith in rw null' (inl (refl, inl null))
  touch_in-TouchEnds parent name (inr is) =
      let there : (parent == 0) ≡ false = ground (arith, is.0) in
      elim (Bool-cases (is_dir (fs.node_pool parent).kind)) [
        | inr file ↦ inl (rw (there, file) refl, inr (inl file))
        | inl directory ↦ elim (Bool-cases (length name == 0)) [
          | inl empty ↦
              rw (there, directory, empty) (inl (refl, inr (inr (inl (ground (arith, empty))))))
          | inr some_name ↦ elim (make_node-Made parent name fs_file t is.0 directory is.1) [
            | inl (fs', node, done, made) ↦
                inr (fs', node, rw (there, directory, some_name) done, (is, directory, made))
            | inr (full, none_made) ↦
                inl (rw (there, directory, some_name) none_made, inr (inr (inr full)))
          ]
        ]
      ]

  -- In a well-formed tree fs_touch of any path ends: it answers the node that is there; or NULL, with
  -- nothing changed, where the parent that the path names is NULL or a file, the name is empty, or the
  -- pool is full; or that parent is a directory of the tree and gets a new file of that name as a
  -- child, with the tree kept.
  pub fs_touch-Touches : (path : List ℕ) → Touches path (fs_touch path fs)
  unfolding fs_touch
  fs_touch-Touches path =
      let (node, found, lands) = fs_resolve-Lands t path in
      elim lands [
        | inr is ↦
            let there : (node == 0) ≡ false = ground (arith, is.0) in
            inl (node, found, is, rw (found, there) refl)
        | inl null ↦
            let (parent, name, resolved, parent_lands, short) =
              resolve_parent-ParentAnswer t path in
            let found' : fs_resolve path fs ≡ some 0 = cc (found, null) in
            inr (
              found',
              (
                parent,
                name,
                touch_in parent name fs,
                resolved,
                rw found' (rw resolved refl),
                touch_in-TouchEnds parent name parent_lands,
              ),
            )
      ]
