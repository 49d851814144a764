-- ===== src/Fs/Siblings.antt =====
-- The walk of remove_child along the siblings, in src/drivers/fs.c.
use rpi4_bare_metal_os.Prelude.{
  ℕ, zero, suc, ◌<◌, ◌≡◌, refl, ◌≢◌, inl, inr, true, false, Option, some, List, [], ◌∷◌, ◌==◌,
  length, update, arith,
}
use native.Mathlib.Decide.{ℕ_discrete}
use rpi4_bare_metal_os.Links.{has, remove, Distinct, Chain, Chain-frame, ne_null, has-remove}
use rpi4_bare_metal_os.Links.Unlink.{At, At-cons, has_of_Follows, Chain-unlink}
use rpi4_bare_metal_os.Fs.{FsState, cut_child, remove_loop}
use rpi4_bare_metal_os.Fs.Find.{sibling_of}

-- The loop cuts the child out behind the sibling `before`.
abbrev pub Cuts : (dir child prev : ℕ) → FsState → List ℕ → Option FsState → Type 0
Cuts dir child prev fs xs r =
    (before : ℕ) × At prev child before xs × (r ≡ some (cut_child dir before child fs))

Cuts-cons :
    (dir child prev x : ℕ) (fs : FsState) (xs : List ℕ) (r : Option FsState)
    → Cuts dir child x fs xs r
    → Cuts dir child prev fs (x ∷ xs) r
Cuts-cons dir child prev x fs xs r (before, at, e) = (before, At-cons prev x child before xs at, e)

module _ (fuel dir child prev x : ℕ) (fs : FsState) (there : x ≢ 0) where
  remove_here :
      x ≡ child → remove_loop (suc fuel) dir child prev x fs ≡ some (cut_child dir prev child fs)
  unfolding remove_loop
  remove_here here = ground arith

  remove_later :
      x ≢ child
      → remove_loop (suc fuel) dir child prev x fs
        ≡ remove_loop fuel dir child x (sibling_of fs x) fs
  unfolding remove_loop
  remove_later other =
      let there' : (x == 0) ≡ false = ground arith in
      let other' : (x == child) ≡ false = ground arith in
      rw (there', remove_loop, other', remove_loop) refl

pub remove_loop-Cuts :
    (fuel dir child prev node : ℕ) (fs : FsState) (xs : List ℕ)
    → Chain (sibling_of fs) node xs
    → has child xs ≡ true
    → length xs < fuel
    → Cuts dir child prev fs xs (remove_loop fuel dir child prev node fs)
remove_loop-Cuts zero dir child prev node fs xs c h enough = absurd (omega arith)
remove_loop-Cuts (suc fuel) dir child prev node fs [] c h enough = cc
remove_loop-Cuts (suc fuel) dir child prev node fs (x ∷ xs) c h enough = elim (ℕ_discrete x child) [
  | yes here ↦ rw c.0 (prev, inl (here, refl), remove_here fuel dir child prev x fs c.1 here)
  | no other ↦
      rw (c.0, remove_later fuel dir child prev x fs c.1 other)
        (Cuts-cons dir child prev x fs xs (remove_loop fuel dir child x (sibling_of fs x) fs) (
          remove_loop-Cuts fuel dir child x (sibling_of fs x) fs xs c.2 (ground arith)
            (omega arith)))
]

pub cut-Chain :
    (fs : FsState) (dir child before : ℕ) (xs : List ℕ)
    → Chain (sibling_of fs) (fs.node_pool dir).children xs
    → Distinct xs
    → dir ≢ child
    → At 0 child before xs
    → Chain
        (sibling_of (cut_child dir before child fs))
        ((cut_child dir before child fs).node_pool dir).children
        (remove child xs)
unfolding cut_child
cut-Chain fs dir child before [] c d ne at = absurd at
cut-Chain fs dir child before (x ∷ xs) c d ne (inl head) =
    let null : (before == 0) ≡ true = ground arith in
    let here : (child == x) ≡ true = ground arith in
    let other : (child == dir) ≡ false = ground arith in
    let self : (dir == dir) ≡ true = ground arith in
    rw (null, here, other, self)
      (rw (← head.0) (Chain-frame (sibling_of fs) _ (sibling_of fs x) xs c.2 (λ a h. ground arith)))
cut-Chain fs dir child before (x ∷ xs) c d ne (inr later) =
    let found = has_of_Follows before child (x ∷ xs) later in
    let there : (before == 0) ≡ false =
      ground
        (arith, ne_null (sibling_of fs) (fs.node_pool dir).children before (x ∷ xs) c found.0) in
    let first : (fs.node_pool dir).children
        ≡ ((cut_child dir before child fs).node_pool dir).children =
      ground arith in
    rw (← first) (
      Chain-frame (update (sibling_of fs) before (sibling_of fs child)) _
        (fs.node_pool dir).children (remove child (x ∷ xs))
        (Chain-unlink (sibling_of fs) (fs.node_pool dir).children before child (x ∷ xs) c d later)
        (λ a h. ground (arith, has-remove a child (x ∷ xs) d)))
