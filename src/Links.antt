-- ===== src/Links.antt =====
-- Singly linked lists through a `next` field, as the kernel keeps them for free blocks, ready tasks
-- and directory entries. A pointer is a number, 0 is NULL, and `next` gives the field of each node.
pub mod Unlink
pub mod Search
pub mod Extend
use rpi4_bare_metal_os.Prelude.{
  ℕ, zero, suc, ◌+◌, ◌≡◌, refl, ◌≢◌, Bool, true, false, ◌&&◌, ◌||◌, not, List, [], ◌∷◌, arith, ◌==◌,
  if◌then◌else◌, update, length,
}

abbrev pub has : ℕ → List ℕ → Bool
has a [] = false
has a (x ∷ xs) = (a == x) || has a xs

-- Without the first occurrence of a node.
abbrev pub remove : ℕ → List ℕ → List ℕ
remove a [] = []
remove a (x ∷ xs) = if a == x then xs else x ∷ remove a xs

abbrev pub Distinct : List ℕ → Type 0
Distinct [] = Unit
Distinct (x ∷ xs) = (has x xs ≡ false) × Distinct xs

-- From `p` the links lead through the nodes `xs`, none of them NULL, to NULL.
abbrev pub Chain : (ℕ → ℕ) → ℕ → List ℕ → Type 0
Chain next p [] = p ≡ 0
Chain next p (x ∷ xs) = (p ≡ x) × (x ≢ 0) × Chain next (next x) xs

pub ne_null : (next : ℕ → ℕ) (p a : ℕ) (xs : List ℕ) → Chain next p xs → has a xs ≡ true → a ≢ 0
ne_null next p a [] c h = cc
ne_null next p a (x ∷ xs) c h = ground (arith, ne_null next (next x) a xs c.2)

-- A chain survives a change of links outside its nodes.
pub Chain-frame :
    (next next' : ℕ → ℕ) (p : ℕ) (xs : List ℕ)
    → Chain next p xs
    → ((a : ℕ) → has a xs ≡ true → next' a ≡ next a)
    → Chain next' p xs
Chain-frame next next' p [] c same = c
Chain-frame next next' p (x ∷ xs) c same = (
  c.0,
  c.1,
  rw (same x (ground arith))
      (Chain-frame next next' (next x) xs c.2 (λ a h. same a (ground arith))),
)

pub Chain-update :
    (next : ℕ → ℕ) (p : ℕ) (xs : List ℕ) (a v : ℕ)
    → Chain next p xs
    → has a xs ≡ false
    → Chain (update next a v) p xs
Chain-update next p xs a v c out = Chain-frame next (update next a v) p xs c (λ b h. ground arith)

pub has-remove :
    (q b : ℕ) (xs : List ℕ) → Distinct xs → has q (remove b xs) ≡ (has q xs && not (q == b))
has-remove q b [] d = refl
has-remove q b (x ∷ xs) d = ground (arith, has-remove q b xs d.1)

pub Distinct-remove : (b : ℕ) (xs : List ℕ) → Distinct xs → Distinct (remove b xs)
Distinct-remove b [] d = tt
Distinct-remove b (x ∷ xs) d = ground (arith, has-remove x b xs d.1, Distinct-remove b xs d.1)

pub length-remove :
    (b : ℕ) (xs : List ℕ) → length xs ≡ length (remove b xs) + (if has b xs then 1 else 0)
length-remove b [] = refl
length-remove b (x ∷ xs) = ground (arith, length-remove b xs)
