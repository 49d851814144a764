-- ===== src/Fs/Remove.antt =====
-- Removing a node from its directory: what fs_rm and fs_rmdir do once the node is found.
use rpi4_bare_metal_os.Prelude.{
  ℕ, ◌≡◌, sym, subst, ap, ◌≢◌, true, false, some, List, [], ◌==◌, if◌then◌else◌, arith,
}
use native.Mathlib.Decide.{ℕ_discrete}
use rpi4_bare_metal_os.Links.{has, remove, Chain, Chain-frame, has-remove, Distinct-remove}
use rpi4_bare_metal_os.Links.Unlink.{At, before_of_At}
use rpi4_bare_metal_os.Fs.{FsState, sibling_fuel, cut_child, remove_child}
use rpi4_bare_metal_os.Fs.Find.{sibling_of}
use rpi4_bare_metal_os.Fs.Tree.{IsNode, IsTree, length-kids}
use rpi4_bare_metal_os.Fs.Siblings.{remove_loop-Cuts, cut-Chain}

-- Without `child` among the children of `dir`.
abbrev pub without : (dir child : ℕ) → (ℕ → List ℕ) → ℕ → List ℕ
without dir child kids p = if p == dir then remove child (kids dir) else kids p

module _ {fs : FsState} {kids : ℕ → List ℕ} (t : IsTree fs kids) (dir child before : ℕ)
    (is : IsNode fs dir) (mine : has child (kids dir) ≡ true) (at : At 0 child before (kids dir))
    (leaf : kids child ≡ []) (not_cwd : child ≢ fs.cwd) where
  abbrev cut : FsState
  cut = cut_child dir before child fs

  pub cut_content :
      (p : ℕ)
      → ((cut.node_pool p).name ≡ (fs.node_pool p).name)
        × ((cut.node_pool p).buffer ≡ (fs.node_pool p).buffer)
        × ((cut.node_pool p).size ≡ (fs.node_pool p).size)
  unfolding cut_child
  cut_content p = ground arith

  cut_same : (cut.root ≡ fs.root) × (cut.cwd ≡ fs.cwd) × (cut.nodes_used ≡ fs.nodes_used)
  unfolding cut_child
  cut_same = ground arith

  cut_parent :
      (p : ℕ) → (cut.node_pool p).parent ≡ (if p == child then 0 else (fs.node_pool p).parent)
  unfolding cut_child
  cut_parent p = ground arith

  cut_kind : (p : ℕ) → (cut.node_pool p).kind ≡ (fs.node_pool p).kind
  unfolding cut_child
  cut_kind p = ground arith

  cut_children : (p : ℕ) → p ≢ dir → (cut.node_pool p).children ≡ (fs.node_pool p).children
  unfolding cut_child
  cut_children p ne = ground arith

  cut_siblings : (p : ℕ) → p ≢ child → p ≢ before → sibling_of cut p ≡ sibling_of fs p
  unfolding cut_child
  cut_siblings p ne ne' = ground arith

  apart : dir ≢ child
  apart e = (t.below dir child is mine).3 (sym e)

  cut_tree-Chain :
      (p : ℕ)
      → IsNode fs p
      → Chain (sibling_of cut) (cut.node_pool p).children (without dir child kids p)
  cut_tree-Chain p is_p = elim (ℕ_discrete p dir) [
    | yes here ↦
        let self : (dir == dir) ≡ true = ground arith in
        rw (here, self)
          (cut-Chain fs dir child before (kids dir) (t.chain dir is) (t.distinct dir is) apart at)
    | no other ↦
        let other' : (p == dir) ≡ false = ground arith in
        rw (other', cut_children p other)
          (Chain-frame (sibling_of fs) (sibling_of cut) (fs.node_pool p).children (kids p)
            (t.chain p is_p)
            (λ a h.
              cut_siblings a (λ e. ground (arith, t.below p a is_p h, t.below dir child is mine))
                (λ e. ground (
                  arith,
                  t.below p a is_p h,
                  before_of_At child before (kids dir) at,
                  t.below dir before is,
                ))))
  ]

  -- Nothing hangs below the child.
  parent_other :
      (q : ℕ) → IsNode fs q → (fs.node_pool q).parent ≢ 0 → (fs.node_pool q).parent ≢ child
  parent_other q is_q linked e = elim (ℕ_discrete q fs.root) [
    | yes root ↦ (t.below dir child is mine).2 (ground (arith, t.root))
    | no other ↦
        let listed : has q (kids child) ≡ true =
          subst (λ p. has q (kids p) ≡ true) e (t.attached q is_q other linked) in
        absurd (cc (listed, ap (has q) leaf))
  ]

  cut-up :
      (q : ℕ)
      → IsNode cut q
      → (cut.node_pool q).parent ≢ 0
      → (cut.node_pool (cut.node_pool q).parent).parent ≢ 0
  cut-up q is_q ne =
      ground
        (arith, cut_same, cut_parent q, cut_parent (fs.node_pool q).parent, t.up q, parent_other q)

  pub cut-IsTree : IsTree cut (without dir child kids)
  cut-IsTree = record {
    used = omega (arith, cut_same, t.used);
    chain = λ p is_p. cut_tree-Chain p (omega (arith, cut_same, is_p));
    distinct = λ p is_p.
        ground
          (arith, t.distinct p, cut_same, Distinct-remove child (kids dir) (t.distinct dir is));
    below = λ p q is_p h. ground (
      arith,
      cut_same,
      cut_kind p,
      cut_parent q,
      t.below p q,
      t.below dir q is,
      t.below dir child is mine,
      has-remove q child (kids dir) (t.distinct dir is),
    );
    root =
        ground (
          arith,
          cut_same,
          cut_kind fs.root,
          cut_parent fs.root,
          t.root,
          t.below dir child is mine,
        );
    cwd = ground (arith, cut_same, cut_kind fs.cwd, cut_parent fs.cwd, t.cwd);
    parent = λ q is_q ne. ground (arith, cut_same, cut_parent q, t.parent q);
    up = cut-up;
    attached = λ q is_q ne linked. ground (
      arith,
      cut_same,
      cut_parent q,
      t.attached q,
      has-remove q child (kids dir) (t.distinct dir is),
    );
  }

  unlisted : (p : ℕ) → IsNode fs p → has child (without dir child kids p) ≡ false
  unlisted p is_p = ground (
    arith,
    has-remove child child (kids dir) (t.distinct dir is),
    t.below p child is_p,
    t.below dir child is mine,
  )

-- `child` is out of `dir`.
pub record Cut (dir child : ℕ) (fs fs' : FsState) (kids : ℕ → List ℕ) : Type 0 where
  pub tree : IsTree fs' (without dir child kids)
  pub unlisted : (p : ℕ) → IsNode fs p → has child (without dir child kids p) ≡ false
  pub same : (fs'.root ≡ fs.root) × (fs'.cwd ≡ fs.cwd) × (fs'.nodes_used ≡ fs.nodes_used)
  pub kinds : (p : ℕ) → (fs'.node_pool p).kind ≡ (fs.node_pool p).kind
  pub content :
      (p : ℕ)
      → ((fs'.node_pool p).name ≡ (fs.node_pool p).name)
        × ((fs'.node_pool p).buffer ≡ (fs.node_pool p).buffer)
        × ((fs'.node_pool p).size ≡ (fs.node_pool p).size)

-- remove_child of a node without children that its directory lists, other than the current directory, takes it out, and changes the contents of no node.
pub remove_child-Cut :
    {fs : FsState} {kids : ℕ → List ℕ} (dir child : ℕ)
    → IsTree fs kids
    → IsNode fs dir
    → has child (kids dir) ≡ true
    → kids child ≡ []
    → child ≢ fs.cwd
    → (fs' : FsState) × (remove_child dir child fs ≡ some fs') × Cut dir child fs fs' kids
unfolding remove_child
remove_child-Cut {fs} {kids} dir child t is mine leaf not_cwd =
    let (before, at, done) =
      remove_loop-Cuts sibling_fuel dir child 0 (fs.node_pool dir).children fs (kids dir)
        (t.chain dir is) mine (length-kids dir t is) in
    (
      cut t dir child before is mine at leaf not_cwd,
      done,
      record {
        tree = cut-IsTree t dir child before is mine at leaf not_cwd;
        unlisted = unlisted t dir child before is mine at leaf not_cwd;
        same = cut_same t dir child before is mine at leaf not_cwd;
        kinds = cut_kind t dir child before is mine at leaf not_cwd;
        content = cut_content t dir child before is mine at leaf not_cwd;
      },
    )
