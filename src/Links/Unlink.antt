-- ===== src/Links/Unlink.antt =====
-- Taking a node out of a chain: the link that leads to it is made to lead past it.
use rpi4_bare_metal_os.Prelude.{ℕ, ◌≡◌, sym, ◌⊎◌, inl, inr, true, List, [], ◌∷◌, arith, update}
use rpi4_bare_metal_os.Links.{has, remove, Distinct, Chain, Chain-update}

-- `b` comes directly behind `prev`
abbrev pub Follows : (prev b : ℕ) → List ℕ → Type 0
Follows prev b [] = ⊥
Follows prev b (x ∷ []) = ⊥
Follows prev b (x ∷ y ∷ ys) = ((x ≡ prev) × (y ≡ b)) ⊎ Follows prev b (y ∷ ys)

pub has_of_Follows :
    (prev b : ℕ) (xs : List ℕ) → Follows prev b xs → (has prev xs ≡ true) × (has b xs ≡ true)
has_of_Follows prev b [] f = absurd f
has_of_Follows prev b (x ∷ []) f = absurd f
has_of_Follows prev b (x ∷ y ∷ ys) (inl here) = ground arith
has_of_Follows prev b (x ∷ y ∷ ys) (inr later) =
    ground (arith, has_of_Follows prev b (y ∷ ys) later)

pub Chain-unlink :
    (next : ℕ → ℕ) (p prev b : ℕ) (xs : List ℕ)
    → Chain next p xs
    → Distinct xs
    → Follows prev b xs
    → Chain (update next prev (next b)) p (remove b xs)
Chain-unlink next p prev b [] c d f = absurd f
Chain-unlink next p prev b (x ∷ []) c d f = absurd f
Chain-unlink next p prev b (x ∷ y ∷ ys) c d (inl here) =
    ground (arith, Chain-update next (next b) ys prev (next b))
Chain-unlink next p prev b (x ∷ y ∷ ys) c d (inr later) = ground (
  arith,
  has_of_Follows prev b (y ∷ ys) later,
  Chain-unlink next (next x) prev b (y ∷ ys) c.2 d.1 later,
)

-- `b` heads the rest of the list, behind `prev`, or comes later in it, behind `before`.
abbrev pub At : (prev b before : ℕ) → List ℕ → Type 0
At prev b before [] = ⊥
At prev b before (x ∷ xs) = ((x ≡ b) × (before ≡ prev)) ⊎ Follows before b (x ∷ xs)

pub has_of_At : (b before : ℕ) (xs : List ℕ) → At 0 b before xs → has b xs ≡ true
has_of_At b before [] at = absurd at
has_of_At b before (x ∷ xs) (inl head) = ground arith
has_of_At b before (x ∷ xs) (inr later) = (has_of_Follows before b (x ∷ xs) later).1

pub before_of_At :
    (b before : ℕ) (xs : List ℕ) → At 0 b before xs → (before ≡ 0) ⊎ (has before xs ≡ true)
before_of_At b before [] at = absurd at
before_of_At b before (x ∷ xs) (inl head) = inl head.1
before_of_At b before (x ∷ xs) (inr later) = inr (has_of_Follows before b (x ∷ xs) later).0

pub At-cons : (prev x b before : ℕ) (xs : List ℕ) → At x b before xs → At prev b before (x ∷ xs)
At-cons prev x b before [] at = absurd at
At-cons prev x b before (y ∷ ys) (inl head) = inr (inl (sym head.1, head.0))
At-cons prev x b before (y ∷ ys) (inr later) = inr (inr later)
