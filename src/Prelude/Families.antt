-- ===== src/Prelude/Families.antt =====
-- Families `ℕ → A`: C arrays and memory regions by index or address, and counts over a prefix.
use Prim.Native.Nat.{ℕ, zero, suc, ◌+◌, ◌≤◌, ◌<◌}
use mathlib.Core.Path.{◌≡◌, refl}
use mathlib.Core.Logic.{◌≢◌}
use mathlib.Core.Bool.{Bool}
use native.Mathlib.Omega.{arith}
use native.Mathlib.Decide.{ℕ_discrete}
use rpi4_bare_metal_os.Prelude.Tests.{if◌then◌else◌, ◌==◌}

-- a write at one index
abbrev pub update {ℓ} : {A : Type ℓ} (words : ℕ → A) (at : ℕ) (value : A) → ℕ → A
update words at value j = if at == j then value else words j

-- how many indices below `n` pass the test
unfoldable pub count : ℕ → (ℕ → Bool) → ℕ
count zero p = 0
count (suc n) p = count n p + (if p n then 1 else 0)

pub count-le : (n : ℕ) (p : ℕ → Bool) → count n p ≤ n
unfolding count
count-le zero p = omega arith
count-le (suc n) p = ground (arith, count-le n p)

pub count-cong : (n : ℕ) (p q : ℕ → Bool) → ((i : ℕ) → i < n → p i ≡ q i) → count n p ≡ count n q
unfolding count
count-cong zero p q h = refl
count-cong (suc n) p q h =
    ground (arith, count-cong n p q (λ i lt. h i (omega arith)), h n (omega arith))

-- the weight of a test
abbrev pub weight : Bool → ℕ
weight b = if b then 1 else 0

-- A change at one index below `n` moves the count by the change of that index.
pub count-change :
    (n : ℕ) (p q : ℕ → Bool) (k : ℕ)
    → ((i : ℕ) → i ≢ k → p i ≡ q i)
    → k < n
    → count n q + weight (p k) ≡ count n p + weight (q k)
unfolding count
count-change zero p q k h lt = absurd (omega arith)
count-change (suc n) p q k h lt = elim (ℕ_discrete n k) [
  | yes e ↦ ground (arith, count-cong n p q (λ i lt. h i (omega arith)))
  | no ne ↦ ground (arith, h n ne, count-change n p q k h (omega arith))
]
