-- ===== src/Memory/Heap/Walk.antt =====
-- The walk of kmalloc along the free list finds the first block that is large enough.
use rpi4_bare_metal_os.Prelude.{
  ℕ, zero, suc, ◌≤◌, ◌<◌, ◌≡◌, refl, inl, inr, true, false, List, [], ◌∷◌, arith, ◌==◌, length, leb,
  Bool-cases,
}
use rpi4_bare_metal_os.Links.{Chain}
use rpi4_bare_metal_os.Links.Unlink.{At}
use rpi4_bare_metal_os.Memory.Heap.{MemoryState, Walked, fit, no_fit, out_of_fuel, walk, claim}

abbrev pub next_of : MemoryState → ℕ → ℕ
next_of m p = (m.headers p).next

-- A block of the list that is large enough was claimed.
pub record Fits (m : MemoryState) (size prev : ℕ) (xs : List ℕ) (m' : MemoryState) (b : ℕ)
    : Type 0 where
  pub before : ℕ
  pub place : At prev b before xs
  pub room : size ≤ (m.headers b).size
  pub claimed : m' ≡ claim before b m

module _ (m : MemoryState) (size : ℕ) where
  -- every block of the list is too small
  abbrev pub TooSmall : List ℕ → Type 0
  TooSmall [] = Unit
  TooSmall (x ∷ xs) = ((m.headers x).size < size) × TooSmall xs

  abbrev pub Found : (prev : ℕ) → List ℕ → Walked → Type 0
  Found prev xs (fit m' b) = Fits m size prev xs m' b
  Found prev xs no_fit = TooSmall xs
  Found prev xs out_of_fuel = ⊥

  Found-cons :
      (prev x : ℕ) (xs : List ℕ) (r : Walked)
      → (m.headers x).size < size
      → Found x xs r
      → Found prev (x ∷ xs) r
  Found-cons prev x [] (fit m' b) small f = absurd f.place
  Found-cons prev x (y ∷ ys) (fit m' b) small f = record {
    before = f.before;
    place = inr (ground (arith, f.place));
    room = f.room;
    claimed = f.claimed;
  }
  Found-cons prev x xs no_fit small f = (small, f)
  Found-cons prev x xs out_of_fuel small f = f

  pub walk-Found :
      (fuel prev blk : ℕ) (xs : List ℕ)
      → Chain (next_of m) blk xs
      → length xs < fuel
      → Found prev xs (walk fuel size prev blk m)
  unfolding walk
  walk-Found zero prev blk xs c enough = absurd (omega arith)
  walk-Found (suc fuel) prev blk [] c enough =
      let null : (blk == 0) ≡ true = ground arith in rw (null, walk) tt
  walk-Found (suc fuel) prev blk (x ∷ xs) c enough =
      let there : (blk == 0) ≡ false = ground arith in
      elim (Bool-cases (leb size (m.headers blk).size)) [
        | inl large ↦
            rw (there, walk, large, walk)
              (record {
                before = prev;
                place = inl (ground arith);
                room = ground arith;
                claimed = refl;
              })
        | inr small ↦
            rw (there, walk, small, walk, c.0)
              (Found-cons prev x xs (walk fuel size x (m.headers x).next m) (ground arith)
                (walk-Found fuel x (m.headers x).next xs c.2 (omega arith)))
      ]
