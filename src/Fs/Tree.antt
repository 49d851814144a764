-- ===== src/Fs/Tree.antt =====
-- The invariant of the filesystem: each directory's children are a list, and a node knows the
-- directory that it is in.
use rpi4_bare_metal_os.Prelude.{
  ℕ, ◌≤◌, ◌<◌, ◌≡◌, ◌≢◌, ◌⊎◌, inl, inr, refl, subst, true, false, List, [], ◌∷◌, length, arith,
}
use rpi4_bare_metal_os.Links.{has, Distinct, Chain, Chain-frame}
use rpi4_bare_metal_os.Links.Search.{length-le}
use rpi4_bare_metal_os.Fs.{FsState, fs_max_nodes, is_dir, sibling_fuel}
use rpi4_bare_metal_os.Fs.Find.{sibling_of}

-- a slot of the pool that has been given out
abbrev pub IsNode : FsState → ℕ → Type 0
IsNode fs p = (0 < p) × (p ≤ fs.nodes_used)

-- `kids p` are the children of `p`, from the newest on. A node that was
-- removed has no parent, and nothing below it.
pub record IsTree (fs : FsState) (kids : ℕ → List ℕ) : Type 0 where
  pub used : fs.nodes_used ≤ fs_max_nodes
  pub chain : (p : ℕ) → IsNode fs p → Chain (sibling_of fs) (fs.node_pool p).children (kids p)
  pub distinct : (p : ℕ) → IsNode fs p → Distinct (kids p)
  pub below :
      (p q : ℕ)
      → IsNode fs p
      → has q (kids p) ≡ true
      → IsNode fs q
        × ((fs.node_pool q).parent ≡ p)
        × (q ≢ fs.root)
        × (q ≢ p)
        × (is_dir (fs.node_pool p).kind ≡ true)
  pub root :
      IsNode fs fs.root
      × (is_dir (fs.node_pool fs.root).kind ≡ true)
      × ((fs.node_pool fs.root).parent ≡ fs.root)
  pub cwd :
      IsNode fs fs.cwd
      × (is_dir (fs.node_pool fs.cwd).kind ≡ true)
      × ((fs.node_pool fs.cwd).parent ≢ 0)
  pub parent :
      (q : ℕ) → IsNode fs q → (fs.node_pool q).parent ≢ 0 → IsNode fs (fs.node_pool q).parent
  pub up :
      (q : ℕ)
      → IsNode fs q
      → (fs.node_pool q).parent ≢ 0
      → (fs.node_pool (fs.node_pool q).parent).parent ≢ 0
  pub attached :
      (q : ℕ)
      → IsNode fs q
      → q ≢ fs.root
      → (fs.node_pool q).parent ≢ 0
      → has q (kids (fs.node_pool q).parent) ≡ true

-- So the walks along siblings end within their fuel.
pub length-kids :
    {fs : FsState} {kids : ℕ → List ℕ} (p : ℕ)
    → IsTree fs kids
    → IsNode fs p
    → length (kids p) < sibling_fuel
length-kids {fs} {kids} p t is = omega (
  arith,
  t.used,
  length-le fs.nodes_used (kids p) (t.distinct p is) (λ q h. (t.below p q is h).0),
)

-- Fields that the tree does not depend on, and the current directory, may change.
pub IsTree-frame :
    {fs : FsState} {kids : ℕ → List ℕ} (fs' : FsState)
    → IsTree fs kids
    → (fs'.nodes_used ≡ fs.nodes_used) × (fs'.root ≡ fs.root)
    → ((p : ℕ)
        → ((fs'.node_pool p).kind ≡ (fs.node_pool p).kind)
          × ((fs'.node_pool p).parent ≡ (fs.node_pool p).parent)
          × ((fs'.node_pool p).children ≡ (fs.node_pool p).children)
          × (sibling_of fs' p ≡ sibling_of fs p))
    → IsNode fs' fs'.cwd
      × (is_dir (fs'.node_pool fs'.cwd).kind ≡ true)
      × ((fs'.node_pool fs'.cwd).parent ≢ 0)
    → IsTree fs' kids
IsTree-frame {fs} {kids} fs' t same links cwd = record {
  used = omega (arith, same, t.used);
  chain = λ p is. rw (links p).2 (
      Chain-frame (sibling_of fs) (sibling_of fs') (fs.node_pool p).children (kids p)
        (t.chain p (omega (arith, same, is))) (λ a h. (links a).3));
  distinct = λ p is. t.distinct p (omega (arith, same, is));
  below = λ p q is h. ground (arith, same, links p, links q, t.below p q);
  root = ground (arith, same, links fs.root, t.root);
  cwd = cwd;
  parent = λ q is ne. ground (arith, same, links q, t.parent q);
  up = λ q is ne. ground (arith, same, links q, links (fs.node_pool q).parent, t.up q);
  attached = λ q is ne linked. ground (arith, same, links q, t.attached q);
}

some_member : (xs : List ℕ) → (xs ≡ []) ⊎ ((q : ℕ) × (has q xs ≡ true))
some_member [] = inl refl
some_member (x ∷ xs) = inr (x, ground arith)

-- A file has no children, and neither has a directory whose list is empty.
pub kids-file :
    {fs : FsState} {kids : ℕ → List ℕ} (p : ℕ)
    → IsTree fs kids
    → IsNode fs p
    → is_dir (fs.node_pool p).kind ≡ false
    → kids p ≡ []
kids-file {fs} {kids} p t is file = elim (some_member (kids p)) [
  | inl none_there ↦ none_there
  | inr (q, h) ↦ absurd (cc ((t.below p q is h).4, file))
]

Chain-null : (next : ℕ → ℕ) (xs : List ℕ) → Chain next 0 xs → xs ≡ []
Chain-null next [] c = refl
Chain-null next (x ∷ xs) c = absurd (omega (arith, c.0, c.1))

pub kids-childless :
    {fs : FsState} {kids : ℕ → List ℕ} (p : ℕ)
    → IsTree fs kids
    → IsNode fs p
    → (fs.node_pool p).children ≡ 0
    → kids p ≡ []
kids-childless {fs} {kids} p t is childless =
    Chain-null (sibling_of fs) (kids p)
      (subst (λ c. Chain (sibling_of fs) c (kids p)) childless (t.chain p is))
