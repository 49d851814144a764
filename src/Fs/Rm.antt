-- ===== src/Fs/Rm.antt =====
-- fs_rm and fs_rmdir once their node is found.
use rpi4_bare_metal_os.Prelude.{
  ℕ, ◌≡◌, refl, ◌≢◌, true, false, some, List, [], ◌==◌, if◌then◌else◌, arith,
}
use rpi4_bare_metal_os.Links.{has}
use rpi4_bare_metal_os.Fs.{FsState, is_dir, free_data, free_node}
use rpi4_bare_metal_os.Fs.Find.{sibling_of}
use rpi4_bare_metal_os.Fs.Tree.{IsNode, IsTree, IsTree-frame, kids-file, kids-childless}
use rpi4_bare_metal_os.Fs.Remove.{without, Cut, remove_child-Cut}
use rpi4_bare_metal_os.Fs.Api.{rm_node, rmdir_node}

-- The node is nowhere listed and empty; the tree is kept, and no other node's contents change.
pub record Gone (node : ℕ) (fs fs' : FsState) (kids : ℕ → List ℕ) : Type 0 where
  pub tree : IsTree fs' (without (fs.node_pool node).parent node kids)
  pub unlisted :
      (p : ℕ) → IsNode fs p → has node (without (fs.node_pool node).parent node kids p) ≡ false
  pub empty :
      ((fs'.node_pool node).name ≡ [])
      × ((fs'.node_pool node).size ≡ 0)
      × ((fs'.node_pool node).buffer ≡ 0)
  pub content :
      (p : ℕ)
      → p ≢ node
      → ((fs'.node_pool p).name ≡ (fs.node_pool p).name)
        × ((fs'.node_pool p).buffer ≡ (fs.node_pool p).buffer)
        × ((fs'.node_pool p).size ≡ (fs.node_pool p).size)

free_node-links :
    (node : ℕ) (fs : FsState) (p : ℕ)
    → let fs' = free_node node fs in
      ((fs'.node_pool p).kind ≡ (fs.node_pool p).kind)
      × ((fs'.node_pool p).parent ≡ (fs.node_pool p).parent)
      × ((fs'.node_pool p).children ≡ (fs.node_pool p).children)
      × (sibling_of fs' p ≡ sibling_of fs p)
unfolding free_node free_data
free_node-links node fs p = ground arith

free_node-same :
    (node : ℕ) (fs : FsState)
    → let fs' = free_node node fs in
      (fs'.nodes_used ≡ fs.nodes_used) × (fs'.root ≡ fs.root) × (fs'.cwd ≡ fs.cwd)
unfolding free_node free_data
free_node-same node fs = ground arith

free_node-content :
    (node : ℕ) (fs : FsState) (p : ℕ)
    → p ≢ node
    → ((free_node node fs).node_pool p ≡ fs.node_pool p)
unfolding free_node free_data
free_node-content node fs p ne = ground arith

free_node-empty :
    (node : ℕ) (fs : FsState)
    → let n = (free_node node fs).node_pool node in (n.name ≡ []) × (n.size ≡ 0) × (n.buffer ≡ 0)
unfolding free_node free_data
free_node-empty node fs = ground arith

Cut-Gone :
    {fs fs' : FsState} {kids : ℕ → List ℕ} (node : ℕ)
    → Cut (fs.node_pool node).parent node fs fs' kids
    → Gone node fs (free_node node fs') kids
Cut-Gone {fs} {fs'} {kids} node c = record {
  tree =
      IsTree-frame (free_node node fs') c.tree (omega (arith, free_node-same node fs'))
        (free_node-links node fs')
        (ground (arith, free_node-same node fs', free_node-links node fs' fs'.cwd, c.tree.cwd));
  unlisted = c.unlisted;
  empty = free_node-empty node fs';
  content = λ p ne. ground (arith, free_node-content node fs' p ne, c.content p);
}

-- fs_rm of a file that stands in a directory of a well-formed tree answers 0: the file is nowhere
-- listed any more and holds nothing, the tree is kept, and no other node's contents change.
pub rm_node-Gone :
    {fs : FsState} {kids : ℕ → List ℕ} (node : ℕ)
    → IsTree fs kids
    → IsNode fs node
    → is_dir (fs.node_pool node).kind ≡ false
    → (fs.node_pool node).parent ≢ 0
    → (fs' : FsState) × (rm_node node fs ≡ some (fs', true)) × Gone node fs fs' kids
unfolding rm_node
rm_node-Gone {fs} {kids} node t is file linked =
    let there : (node == 0) ≡ false = ground arith in
    let not_root : (node == fs.root) ≡ false = ground (arith, t.root, file) in
    let (fs', done, c) =
      remove_child-Cut (fs.node_pool node).parent node t (t.parent node is linked)
        (ground (arith, t.attached node is, t.root, file, linked)) (kids-file node t is file)
        (ground (arith, t.cwd, file)) in
    (free_node node fs', rw (there, file, not_root, done) refl, Cut-Gone node c)

-- The current directory moves up when it is removed itself.
abbrev move_cwd : ℕ → FsState → FsState
move_cwd node fs = record fs { cwd = if node == fs.cwd then (fs.node_pool node).parent else fs.cwd }

move_cwd-IsTree :
    {fs : FsState} {kids : ℕ → List ℕ} (node : ℕ)
    → IsTree fs kids
    → IsNode fs node
    → node ≢ fs.root
    → (fs.node_pool node).parent ≢ 0
    → IsTree (move_cwd node fs) kids
move_cwd-IsTree {fs} {kids} node t is other linked =
    IsTree-frame (move_cwd node fs) t (refl, refl) (λ p. (refl, refl, refl, refl))
      (ground (
        arith,
        t.cwd,
        t.up node is linked,
        t.parent node is linked,
        t.below (fs.node_pool node).parent node (t.parent node is linked),
        t.attached node is other linked,
      ))

-- fs_rmdir of an empty directory other than the root that stands in a directory of a well-formed
-- tree answers 0: it is nowhere listed any more, the tree is kept, no other node's contents change,
-- and the current directory is as before, or the parent where it was the one removed.
pub rmdir_node-Gone :
    {fs : FsState} {kids : ℕ → List ℕ} (node : ℕ)
    → IsTree fs kids
    → IsNode fs node
    → is_dir (fs.node_pool node).kind ≡ true
    → node ≢ fs.root
    → (fs.node_pool node).children ≡ 0
    → (fs.node_pool node).parent ≢ 0
    → (fs' : FsState) × (rmdir_node node fs ≡ some (fs', true))
      × Gone node fs fs' kids
      × (fs'.cwd ≡ (if node == fs.cwd then (fs.node_pool node).parent else fs.cwd))
unfolding rmdir_node
rmdir_node-Gone {fs} {kids} node t is directory other childless linked =
    let there : (node == 0) ≡ false = ground arith in
    let not_root : (node == fs.root) ≡ false = ground arith in
    let apart =
      (t.below (fs.node_pool node).parent node (t.parent node is linked)
        (t.attached node is other linked)).3 in
    let (fs', done, c) =
      remove_child-Cut (fs.node_pool node).parent node (move_cwd-IsTree node t is other linked)
        (t.parent node is linked) (t.attached node is other linked)
        (kids-childless node t is childless) (ground (arith, apart)) in
    let g = Cut-Gone {fs = move_cwd node fs} node c in
    (
      free_node node fs',
      rw (there, directory, not_root, childless, done) refl,
      record { tree = g.tree; unlisted = g.unlisted; empty = g.empty; content = g.content },
      ground (arith, free_node-same node fs', c.same),
    )
