-- ===== src/Fs/Mkdir.antt =====
-- fs_mkdir once its parent directory is found.
use rpi4_bare_metal_os.Prelude.{
  ℕ, ◌-◌, ◌<◌, ◌≡◌, refl, ◌∙◌, ap, ◌≢◌, ◌⊎◌, inl, inr, true, false, some, List, ◌==◌, length,
  take-all, arith,
}
use native.Mathlib.Decide.{ℕ_discrete}
use rpi4_bare_metal_os.Links.Search.{first_of}
use rpi4_bare_metal_os.Text.{str_eq_iff}
use rpi4_bare_metal_os.Fs.{fs_dir, FsState, fs_max_nodes, fs_name_max, is_dir, find_child}
use rpi4_bare_metal_os.Fs.Find.{named, find_child-first}
use rpi4_bare_metal_os.Fs.Tree.{IsNode, IsTree, length-kids}
use rpi4_bare_metal_os.Fs.Make.{Made, with_kid, make_node-Made}
use rpi4_bare_metal_os.Fs.Api.{mkdir_in}

find_in_tree :
    {fs : FsState} {kids : ℕ → List ℕ} (dir : ℕ) (name : List ℕ)
    → IsTree fs kids
    → IsNode fs dir
    → is_dir (fs.node_pool dir).kind ≡ true
    → find_child dir name fs ≡ some (first_of (named name fs) (kids dir))
find_in_tree {fs} {kids} dir name t is directory =
    find_child-first fs dir (kids dir) name (omega arith) directory (t.chain dir is)
      (length-kids dir t is)

-- A name that was not cut is found at once: the new node stands first.
Made-find_child :
    {fs fs' : FsState} {kids : ℕ → List ℕ} {new : ℕ} (dir : ℕ) (name : List ℕ)
    → Made dir name fs_dir fs fs' kids new
    → IsNode fs' dir
    → is_dir (fs.node_pool dir).kind ≡ true
    → length name < fs_name_max
    → find_child dir name fs' ≡ some new
Made-find_child {fs} {fs'} {kids} {new} dir name made is directory short =
    find_in_tree dir name made.tree is (ground (arith, made.directory)) ∙ ap some first_is_new
  where
    whole : (fs'.node_pool new).name ≡ name
    whole = ap (λ n. n.name) made.node ∙ take-all (fs_name_max - 1) name (omega arith)

    same : named name fs' new ≡ true
    same = (str_eq_iff (fs'.node_pool new).name name).1 whole

    first_is_new : first_of (named name fs') (with_kid dir new kids dir) ≡ new
    first_is_new = let here : (dir == dir) ≡ true = ground arith in rw (here, same) refl

-- How fs_mkdir ends in a directory: the name is taken, the pool is full, or the directory is made
-- and is found under its name.
abbrev pub MkdirAnswer : (parent : ℕ) → List ℕ → FsState → (ℕ → List ℕ) → Type 0
MkdirAnswer parent name fs kids =
    ((first_of (named name fs) (kids parent) ≢ 0) × (mkdir_in parent name fs ≡ some (fs, 0)))
    ⊎ (((fs.nodes_used ≡ fs_max_nodes) × (mkdir_in parent name fs ≡ some (fs, 0)))
        ⊎ ((fs' : FsState) × (node : ℕ) × (mkdir_in parent name fs ≡ some (fs', node))
            × Made parent name fs_dir fs fs' kids node
            × (find_child parent name fs' ≡ some node)))

pub mkdir_in-MkdirAnswer :
    {fs : FsState} {kids : ℕ → List ℕ} (parent : ℕ) (name : List ℕ)
    → IsTree fs kids
    → IsNode fs parent
    → is_dir (fs.node_pool parent).kind ≡ true
    → (fs.node_pool parent).parent ≢ 0
    → 0 < length name
    → length name < fs_name_max
    → MkdirAnswer parent name fs kids
unfolding mkdir_in
mkdir_in-MkdirAnswer {fs} {kids} parent name t is directory linked some_name short =
    let there : (parent == 0) ≡ false = ground arith in
    let named' : (length name == 0) ≡ false = ground arith in
    let looked = find_in_tree parent name t is directory in
    elim (ℕ_discrete (first_of (named name fs) (kids parent)) 0) [
      | no old ↦
          let old' : (first_of (named name fs) (kids parent) == 0) ≡ false = ground arith in
          inl (old, rw (there, directory, named', looked, old') refl)
      | yes new ↦ elim (make_node-Made parent name fs_dir t is directory linked) [
        | inr (full, none_made) ↦
            inr (inl (full, rw (there, directory, named', looked, new, none_made) refl))
        | inl (fs', node, done, made) ↦ inr (
            inr (
              fs',
              node,
              rw (there, directory, named', looked, new, done) refl,
              made,
              Made-find_child parent name made (omega (arith, made.count, made.fresh, is)) directory
                  short,
            ))
      ]
    ]
