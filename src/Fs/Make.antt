-- ===== src/Fs/Make.antt =====
-- A new node in a directory: what fs_mkdir and fs_touch do once the directory is found.
use rpi4_bare_metal_os.Prelude.{
  ℕ, ◌+◌, ◌-◌, ◌≤◌, ◌<◌, ◌≡◌, refl, ◌≢◌, ◌⊎◌, inl, inr, true, false, List, [], ◌∷◌, ◌==◌, leb,
  if◌then◌else◌, take, arith, ap,
}
use mathlib.Core.Path.{fun_ext}
use native.Mathlib.Decide.{ℕ_discrete, dec_lt}
use rpi4_bare_metal_os.Links.{Chain, Chain-frame}
use rpi4_bare_metal_os.Fs.{
  is_dir, NodeType, FsState, fs_max_nodes, fs_name_max, put_node, alloc_node, add_child,
}
use rpi4_bare_metal_os.Fs.Find.{sibling_of}
use rpi4_bare_metal_os.Fs.Tree.{IsNode, IsTree}
use rpi4_bare_metal_os.Fs.Api.{make_node}

abbrev pub with_kid : (dir new : ℕ) → (ℕ → List ℕ) → ℕ → List ℕ
with_kid dir new kids p = if p == dir then new ∷ kids dir else if p == new then [] else kids p

-- The new node stands first in the directory; all other nodes are as before.
pub record Made (dir : ℕ) (name : List ℕ) (kind : NodeType) (fs fs' : FsState) (kids : ℕ → List ℕ)
    (new : ℕ) : Type 0 where
  pub fresh : new ≡ fs.nodes_used + 1
  pub count : fs'.nodes_used ≡ new
  pub tree : IsTree fs' (with_kid dir new kids)
  pub node : fs'.node_pool new ≡ record {
    name = take (fs_name_max - 1) name;
    kind = kind;
    parent = dir;
    children = 0;
    next_sibling = (fs.node_pool dir).children;
    buffer = 0;
    size = 0;
  }
  pub directory : fs'.node_pool dir ≡ record (fs.node_pool dir) { children = new }
  pub others : (p : ℕ) → p ≢ dir → p ≢ new → fs'.node_pool p ≡ fs.node_pool p
  pub same : (fs'.root ≡ fs.root) × (fs'.cwd ≡ fs.cwd)

module _ {fs : FsState} {kids : ℕ → List ℕ} (t : IsTree fs kids) (dir : ℕ) (name : List ℕ)
    (kind : NodeType) (is : IsNode fs dir) (directory : is_dir (fs.node_pool dir).kind ≡ true)
    (linked : (fs.node_pool dir).parent ≢ 0) where
  abbrev new : ℕ
  new = fs.nodes_used + 1

  abbrev pub made : FsState
  made =
      record (put_node
        (put_node fs new (record {
          name = take (fs_name_max - 1) name;
          kind = kind;
          parent = dir;
          children = 0;
          next_sibling = (fs.node_pool dir).children;
          buffer = 0;
          size = 0;
        }))
        dir (record (fs.node_pool dir) { children = new })) { nodes_used = new }

  frame : (q : ℕ) → IsNode fs q → Chain (sibling_of made) (fs.node_pool q).children (kids q)
  frame q is_q =
      Chain-frame (sibling_of fs) (sibling_of made) (fs.node_pool q).children (kids q)
        (t.chain q is_q) (λ a h. ground (arith, t.below q a is_q h))

  made-Chain :
      (p : ℕ)
      → IsNode made p
      → Chain (sibling_of made) (made.node_pool p).children (with_kid dir new kids p)
  made-Chain p is_p = elim (ℕ_discrete p dir) [
    | yes here ↦
        let there : (dir == new) ≡ false = ground arith in rw here (ground (arith, frame dir is))
    | no other ↦ elim (ℕ_discrete p new) [
      | yes fresh ↦ ground arith
      | no old ↦ ground (arith, frame p)
    ]
  ]

  made-IsTree : fs.nodes_used < fs_max_nodes → IsTree made (with_kid dir new kids)
  made-IsTree room = record {
    used = omega arith;
    chain = made-Chain;
    distinct = λ p is_p. ground (arith, t.distinct p, t.distinct dir is, t.below dir new is);
    below = λ p q is_p h. ground (arith, t.below p q, t.below dir q is, t.root);
    root = ground (arith, t.root);
    cwd = ground (arith, t.cwd);
    parent = λ q is_q ne. ground (arith, t.parent q, t.parent dir);
    up = λ q is_q ne. ground (arith, t.up q, t.up dir, t.parent q, t.parent dir);
    attached = λ q is_q ne linked'. ground (arith, t.attached q, t.parent q, t.root);
  }

  abbrev allocated : FsState
  allocated =
      record (put_node fs new (record {
        name = take (fs_name_max - 1) name;
        kind = kind;
        parent = 0;
        children = 0;
        next_sibling = 0;
        buffer = 0;
        size = 0;
      })) { nodes_used = new }

  alloc_node-allocated : fs.nodes_used < fs_max_nodes → alloc_node name kind fs ≡ (allocated, new)
  unfolding alloc_node
  alloc_node-allocated room =
      let free : leb fs_max_nodes fs.nodes_used ≡ false = ground arith in rw free refl

  add_child-made : add_child dir new allocated ≡ made
  unfolding add_child
  add_child-made = ap (λ pool. record allocated { node_pool = pool }) (fun_ext (λ p. ground arith))

  make_node-made : fs.nodes_used < fs_max_nodes → make_node dir name kind fs ≡ (made, new)
  unfolding make_node
  make_node-made room =
      let there : (new == 0) ≡ false = ground arith in
      rw (alloc_node-allocated room, there) (ap (λ f. (f, new)) add_child-made)

  pub made-Made : fs.nodes_used < fs_max_nodes → Made dir name kind fs made kids new
  made-Made room = record {
    fresh = refl;
    count = refl;
    tree = made-IsTree room;
    node = ground arith;
    directory = ground arith;
    others = λ p ne ne'. ground arith;
    same = (refl, refl);
  }

make_node-full :
    (dir : ℕ) (name : List ℕ) (kind : NodeType) (fs : FsState)
    → fs_max_nodes ≤ fs.nodes_used
    → make_node dir name kind fs ≡ (fs, 0)
unfolding make_node alloc_node
make_node-full dir name kind fs full =
    let none_free : leb fs_max_nodes fs.nodes_used ≡ true = ground arith in rw none_free refl

-- In a directory of a well-formed tree that was not removed, make_node with a slot left puts a new node before the
-- children and keeps the tree well-formed; without one it answers NULL and changes nothing.
pub make_node-Made :
    {fs : FsState} {kids : ℕ → List ℕ} (dir : ℕ) (name : List ℕ) (kind : NodeType)
    → IsTree fs kids
    → IsNode fs dir
    → is_dir (fs.node_pool dir).kind ≡ true
    → (fs.node_pool dir).parent ≢ 0
    → ((fs' : FsState) × (node : ℕ) × (make_node dir name kind fs ≡ (fs', node))
        × Made dir name kind fs fs' kids node)
      ⊎ ((fs.nodes_used ≡ fs_max_nodes) × (make_node dir name kind fs ≡ (fs, 0)))
make_node-Made {fs} {kids} dir name kind t is directory linked =
    elim (dec_lt fs.nodes_used fs_max_nodes) [
      | yes room ↦ inl (
        made t dir name kind is directory linked,
        fs.nodes_used + 1,
        make_node-made t dir name kind is directory linked room,
        made-Made t dir name kind is directory linked room,
      )
      | no full ↦ inr (omega (arith, t.used), make_node-full dir name kind fs (omega arith))
    ]
