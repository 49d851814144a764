-- ===== src/Prelude/Maybe.antt =====
-- Chains of steps that may fail, or run out of fuel.
use mathlib.Core.Path.{◌≡◌, refl, subst}
use mathlib.Core.Bool.{Bool, true, false}
use mathlib.Core.Option.{Option, none, some}
use rpi4_bare_metal_os.Prelude.Tests.{if◌then◌else◌}

infixl 5 ◌>>=◌
abbrev pub ◌>>=◌ {ℓ κ} : {A : Type ℓ} {B : Type κ} → Option A → (A → Option B) → Option B
none >>= f = none
some a >>= f = f a

-- What holds of the answer, where there is one.
module _ {ℓ κ} {A : Type ℓ} (P : A → Type κ) where
  pub data All : Option A → Type (ℓ ⊔ κ) where
    all_none : All none
    all_some : {a : A} → P a → All (some a)

  pub All-if : (c : Bool) {x y : Option A} → All x → All y → All (if c then x else y)
  All-if true there other = there
  All-if false there other = other

  pub All-bind {μ} :
      {B : Type μ} (o : Option B) {f : B → Option A} → ((b : B) → All (f b)) → All (o >>= f)
  All-bind none all = all_none
  All-bind (some b) all = all b

  pub All-then {μ ν} :
      {B : Type μ} (Q : B → Type ν) (o : Option B) {f : B → Option A}
      → ((b : B) → o ≡ some b → Q b)
      → ((b : B) → Q b → All (f b))
      → All (o >>= f)
  All-then Q none holds all = all_none
  All-then Q (some b) holds all = all b (holds b refl)

  pub All-of : (o : Option A) → ((a : A) → o ≡ some a → P a) → All o
  All-of none holds = all_none
  All-of (some a) holds = all_some (holds a refl)

  pub All-some : {a : A} → All (some a) → P a
  All-some (all_some holds) = holds

  pub All-at : (o : Option A) → All o → (a : A) → o ≡ some a → P a
  All-at o all a e = All-some (subst All e all)
