-- ===== src/Prelude/Bits.antt =====
-- The laws of `bit_and` and `bit_or` that the drivers' masks need: one digit at a time, and in two
-- parts, above and below a position.
use Prim.Native.Nat.{
  ℕ, zero, suc, ◌+◌, ◌-◌, ◌*◌, ◌/◌, ◌%◌, ◌≤◌, ◌<◌, min, max, bit_and, bit_or, digits,
  bit_and-bitwise, bit_or-bitwise,
}
use mathlib.Core.Path.{◌≡◌, refl, ◌∙◌}
use native.Mathlib.Omega.{arith}

-- The count of digits to go does not matter once it is large enough.
module _ (z : ℕ → ℕ) (f : ℕ → ℕ → ℕ) where
  digits-enough : (n k a b : ℕ) → a ≤ n → a ≤ k → digits z f n a b ≡ digits z f k a b
  digits-enough zero zero a b lo hi = refl
  digits-enough zero (suc k) a b lo hi = let e : a ≡ 0 = omega arith in rw e refl
  digits-enough (suc n) zero a b lo hi = let e : a ≡ 0 = omega arith in rw e refl
  digits-enough (suc n) (suc k) zero b lo hi = refl
  digits-enough (suc n) (suc k) (suc a) b lo hi =
      omega (arith, digits-enough n k (suc a / 2) (b / 2) (omega arith) (omega arith))

  digits-step :
      (a b : ℕ)
      → digits z f (suc a) (suc a) b
        ≡ digits z f (suc a / 2) (suc a / 2) (b / 2) * 2 + f (suc a % 2) (b % 2)
  digits-step a b =
      omega (arith, digits-enough a (suc a / 2) (suc a / 2) (b / 2) (omega arith) (omega arith))

bit_or-zero : (b : ℕ) → bit_or 0 b ≡ b
bit_or-zero b = bit_or-bitwise 0 b

bit_and-zero : (b : ℕ) → bit_and 0 b ≡ 0
bit_and-zero b = bit_and-bitwise 0 b

pub bit_or_digit : (a b : ℕ) → bit_or a b ≡ bit_or (a / 2) (b / 2) * 2 + max (a % 2) (b % 2)
bit_or_digit zero b = omega (arith, bit_or-zero b, bit_or-zero (b / 2))
bit_or_digit (suc a) b = omega (
  arith,
  bit_or-bitwise (suc a) b,
  bit_or-bitwise (suc a / 2) (b / 2),
  digits-step (λ b. b) max a b,
)

pub bit_and_digit : (a b : ℕ) → bit_and a b ≡ bit_and (a / 2) (b / 2) * 2 + min (a % 2) (b % 2)
bit_and_digit zero b = omega (arith, bit_and-zero b, bit_and-zero (b / 2))
bit_and_digit (suc a) b = omega (
  arith,
  bit_and-bitwise (suc a) b,
  bit_and-bitwise (suc a / 2) (b / 2),
  digits-step (λ b. zero) min a b,
)

-- `2 ^ k` by doubling
abbrev pub two_to : ℕ → ℕ
two_to zero = 1
two_to (suc k) = two_to k + two_to k

pub two_to-pos : (k : ℕ) → 0 < two_to k
two_to-pos zero = omega arith
two_to-pos (suc k) = omega (arith, two_to-pos k)

-- A number in two parts, halved.
half_above : (p a r : ℕ) → (a * (p + p) + r) / 2 ≡ a * p + r / 2
half_above p a r = omega arith

odd_above : (p a r : ℕ) → (a * (p + p) + r) % 2 ≡ r % 2
odd_above p a r = omega arith

-- The two parts do not meet.
pub bit_or_parts :
    (k a r b q : ℕ)
    → r < two_to k
    → q < two_to k
    → bit_or (a * two_to k + r) (b * two_to k + q) ≡ bit_or a b * two_to k + bit_or r q
bit_or_parts zero a r b q lo lo' =
    let e : r ≡ 0 = omega arith in
    let e' : q ≡ 0 = omega arith in
    let a' : a * 1 + 0 ≡ a = omega arith in
    let b' : b * 1 + 0 ≡ b = omega arith in rw (e, e', a', b') (omega arith)
bit_or_parts (suc k) a r b q lo lo' =
    let p = two_to k in
    let ih : bit_or ((a * (p + p) + r) / 2) ((b * (p + p) + q) / 2)
        ≡ bit_or a b * p + bit_or (r / 2) (q / 2) =
      rw (half_above p a r, half_above p b q)
        (bit_or_parts k a (r / 2) b (q / 2) (omega arith) (omega arith)) in
    omega (
      arith,
      ih,
      bit_or_digit (a * (p + p) + r) (b * (p + p) + q),
      bit_or_digit r q,
      odd_above p a r,
      odd_above p b q,
    )

pub bit_and_parts :
    (k a r b q : ℕ)
    → r < two_to k
    → q < two_to k
    → bit_and (a * two_to k + r) (b * two_to k + q) ≡ bit_and a b * two_to k + bit_and r q
bit_and_parts zero a r b q lo lo' =
    let e : r ≡ 0 = omega arith in
    let e' : q ≡ 0 = omega arith in
    let a' : a * 1 + 0 ≡ a = omega arith in
    let b' : b * 1 + 0 ≡ b = omega arith in rw (e, e', a', b') (omega arith)
bit_and_parts (suc k) a r b q lo lo' =
    let p = two_to k in
    let ih : bit_and ((a * (p + p) + r) / 2) ((b * (p + p) + q) / 2)
        ≡ bit_and a b * p + bit_and (r / 2) (q / 2) =
      rw (half_above p a r, half_above p b q)
        (bit_and_parts k a (r / 2) b (q / 2) (omega arith) (omega arith)) in
    omega (
      arith,
      ih,
      bit_and_digit (a * (p + p) + r) (b * (p + p) + q),
      bit_and_digit r q,
      odd_above p a r,
      odd_above p b q,
    )

-- Ones keep the digits that they cover.
pub bit_and_ones : (k r : ℕ) → r < two_to k → bit_and r (two_to k - 1) ≡ r
bit_and_ones zero r lo = let e : r ≡ 0 = omega arith in rw e refl
bit_and_ones (suc k) r lo =
    let p = two_to k in
    let half : (p + p - 1) / 2 ≡ p - 1 = omega arith in
    let odd : (p + p - 1) % 2 ≡ 1 = omega (arith, two_to-pos k) in
    let digit : bit_and r (p + p - 1) ≡ bit_and (r / 2) (p - 1) * 2 + min (r % 2) 1 =
      rw (half, odd) at (bit_and_digit r (p + p - 1)) in
    omega (arith, digit, bit_and_ones k (r / 2) (omega arith))

-- Zeros keep none.
bit_and_none_fuel : (n a : ℕ) → a ≤ n → bit_and a 0 ≡ 0
bit_and_none_fuel zero a le = let e : a ≡ 0 = omega arith in rw e refl
bit_and_none_fuel (suc n) zero le = refl
bit_and_none_fuel (suc n) (suc a) le =
    omega (arith, bit_and_digit (suc a) 0, bit_and_none_fuel n (suc a / 2) (omega arith))

pub bit_and_none : (a : ℕ) → bit_and a 0 ≡ 0
bit_and_none a = bit_and_none_fuel a a (omega arith)

bit_or_none_fuel : (n a : ℕ) → a ≤ n → bit_or a 0 ≡ a
bit_or_none_fuel zero a le = let e : a ≡ 0 = omega arith in rw e refl
bit_or_none_fuel (suc n) zero le = refl
bit_or_none_fuel (suc n) (suc a) le =
    omega (arith, bit_or_digit (suc a) 0, bit_or_none_fuel n (suc a / 2) (omega arith))

pub bit_or_none : (a : ℕ) → bit_or a 0 ≡ a
bit_or_none a = bit_or_none_fuel a a (omega arith)

-- Low digits added to a multiple.
pub bit_or_low : (k a q : ℕ) → q < two_to k → bit_or (a * two_to k) q ≡ a * two_to k + q
bit_or_low k a q lo =
    let a' : a * two_to k + 0 ≡ a * two_to k = omega arith in
    let q' : 0 * two_to k + q ≡ q = omega arith in
    let parts : bit_or (a * two_to k) q ≡ bit_or a 0 * two_to k + bit_or 0 q =
      rw (a', q') at (bit_or_parts k a 0 0 q (two_to-pos k) lo) in
    parts ∙ rw (bit_or_none a, bit_or-zero q) refl

-- A field of `w` bits between `k` low digits and `h` high ones is replaced: `v` is the word, `mask` the
-- ones around the field, and `x` the new value `f` at its place.
pub bit_replace :
    (w k h a b c f v mask x : ℕ)
    → c < two_to k
    → b < two_to w
    → f < two_to w
    → a < two_to h
    → v ≡ (a * two_to w + b) * two_to k + c
    → mask ≡ ((two_to h - 1) * two_to w + 0) * two_to k + (two_to k - 1)
    → x ≡ f * two_to k + 0
    → bit_or (bit_and v mask) x ≡ (a * two_to w + f) * two_to k + c
bit_replace w k h a b c f v mask x lo mid small hi ev em ex =
    let pos = two_to-pos k in
    let outer : bit_and v mask
        ≡ bit_and (a * two_to w + b) ((two_to h - 1) * two_to w + 0) * two_to k
          + bit_and c (two_to k - 1) =
      rw (ev, em)
        (bit_and_parts k (a * two_to w + b) c ((two_to h - 1) * two_to w + 0) (two_to k - 1) lo
          (omega (arith, pos))) in
    let inner : bit_and (a * two_to w + b) ((two_to h - 1) * two_to w + 0)
        ≡ bit_and a (two_to h - 1) * two_to w + bit_and b 0 =
      bit_and_parts w a b (two_to h - 1) 0 mid (omega (arith, two_to-pos w)) in
    let kept : bit_and v mask ≡ (a * two_to w + 0) * two_to k + c =
      outer ∙ rw (inner, bit_and_ones h a hi, bit_and_none b, bit_and_ones k c lo) refl in
    let new : bit_or (bit_and v mask) x ≡ bit_or (a * two_to w + 0) f * two_to k + bit_or c 0 =
      rw (kept, ex) (bit_or_parts k (a * two_to w + 0) c f 0 lo pos) in
    let none_ : a * two_to w + 0 ≡ a * two_to w = omega arith in
    let low : bit_or (a * two_to w + 0) f ≡ a * two_to w + f = rw none_ (bit_or_low w a f small) in
    new ∙ rw (low, bit_or_none c) refl
