-- ===== src/Links/Extend.antt =====
-- Adding a node at the end of a chain, and at its front.
use rpi4_bare_metal_os.Prelude.{
  ℕ, ◌≡◌, refl, ◌≢◌, true, false, ◌||◌, List, [], ◌∷◌, ◌++◌, arith, update,
}
use rpi4_bare_metal_os.Links.{has, Distinct, Chain}

abbrev pub last_of : ℕ → List ℕ → ℕ
last_of x [] = x
last_of x (y ∷ ys) = last_of y ys

pub has-last_of : (x : ℕ) (xs : List ℕ) → has (last_of x xs) (x ∷ xs) ≡ true
has-last_of x [] = ground arith
has-last_of x (y ∷ ys) = ground (arith, has-last_of y ys)

pub has-append : (q : ℕ) (xs ys : List ℕ) → has q (xs ++ ys) ≡ (has q xs || has q ys)
has-append q [] ys = refl
has-append q (x ∷ xs) ys = ground (arith, has-append q xs ys)

pub Distinct-snoc : (a : ℕ) (xs : List ℕ) → Distinct xs → has a xs ≡ false → Distinct (xs ++ a ∷ [])
Distinct-snoc a [] d out = (refl, tt)
Distinct-snoc a (x ∷ xs) d out = ground (arith, Distinct-snoc a xs d.1, has-append x xs (a ∷ []))

-- The last link is made to lead to `a`, which leads nowhere.
pub Chain-snoc :
    (next : ℕ → ℕ) (p x a : ℕ) (xs : List ℕ)
    → Chain next p (x ∷ xs)
    → Distinct (x ∷ xs)
    → has a (x ∷ xs) ≡ false
    → a ≢ 0
    → next a ≡ 0
    → Chain (update next (last_of x xs) a) p (x ∷ xs ++ a ∷ [])
Chain-snoc next p x a [] c d out there end = ground arith
Chain-snoc next p x a (y ∷ ys) c d out there end =
    ground
      (arith, has-last_of y ys, Chain-snoc next (next x) y a ys c.2 d.1 (ground arith) there end)
