-- ===== src/Links/Search.antt =====
-- Searching a list from its head on.
use rpi4_bare_metal_os.Prelude.{
  ℕ, zero, suc, ◌≤◌, ◌<◌, length, ◌≡◌, ◌≢◌, refl, Bool, true, List, [], ◌∷◌, if◌then◌else◌, arith,
  Bool-cases, inl, inr,
}
use rpi4_bare_metal_os.Links.{has, remove, Distinct, length-remove, has-remove, Distinct-remove}

-- The first of the list that passes the test, or 0.
abbrev pub first_of : (ℕ → Bool) → List ℕ → ℕ
first_of test [] = 0
first_of test (x ∷ xs) = if test x then x else first_of test xs

pub has-first_of :
    (test : ℕ → Bool) (xs : List ℕ) → first_of test xs ≢ 0 → has (first_of test xs) xs ≡ true
has-first_of test [] ne = absurd (ne refl)
has-first_of test (x ∷ xs) ne = ground (arith, has-first_of test xs)

pub passes-first_of :
    (test : ℕ → Bool) (xs : List ℕ) → first_of test xs ≢ 0 → test (first_of test xs) ≡ true
passes-first_of test [] ne = absurd (ne refl)
passes-first_of test (x ∷ xs) ne = elim (Bool-cases (test x)) [
  | inl can ↦ rw can can
  | inr cannot ↦ rw cannot (passes-first_of test xs (λ e. ne (rw cannot e)))
]

-- Distinct numbers from 1 to `n` are at most `n` many.
pub length-le :
    (n : ℕ) (xs : List ℕ)
    → Distinct xs
    → ((p : ℕ) → has p xs ≡ true → (0 < p) × (p ≤ n))
    → length xs ≤ n
length-le zero [] d m = omega arith
length-le zero (x ∷ xs) d m = absurd (omega (arith, m x (ground arith)))
length-le (suc n) xs d m = ground (
  arith,
  length-remove (suc n) xs,
  length-le n (remove (suc n) xs) (Distinct-remove (suc n) xs d)
      (λ p h. ground (arith, has-remove p (suc n) xs d, m p)),
)
