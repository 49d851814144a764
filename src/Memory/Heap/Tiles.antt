-- ===== src/Memory/Heap/Tiles.antt =====
-- The blocks that kmalloc has carved lie end to end from `heap_start` to `heap_brk`.
use native.Mathlib.Decide.{ℕ_discrete}
use rpi4_bare_metal_os.Prelude.{
  ℕ, ◌+◌, ◌≤◌, ◌≡◌, ◌≢◌, ◌⊎◌, inl, inr, true, List, [], ◌∷◌, ◌++◌, arith,
}
use rpi4_bare_metal_os.Links.{has}
use rpi4_bare_metal_os.Memory.Heap.{Header, header_size}

-- where the block at `p` ends
abbrev pub block_end : (ℕ → Header) → ℕ → ℕ
block_end h p = p + header_size + (h p).size

-- The blocks `bs` fill the range from `start` to `end` without a gap.
abbrev pub Tiles : (ℕ → Header) → (end start : ℕ) → List ℕ → Type 0
Tiles h end start [] = start ≡ end
Tiles h end start (b ∷ bs) = (b ≡ start) × Tiles h end (block_end h b) bs

module _ (h : ℕ → Header) (end : ℕ) where
  start-le : (start : ℕ) (bs : List ℕ) → Tiles h end start bs → start ≤ end
  start-le start [] t = omega arith
  start-le start (b ∷ bs) t = omega (arith, start-le (block_end h b) bs t.1)

  pub Tiles-bounds :
      (start p : ℕ) (bs : List ℕ)
      → Tiles h end start bs
      → has p bs ≡ true
      → (start ≤ p) × (block_end h p ≤ end)
  Tiles-bounds start p [] t m = cc
  Tiles-bounds start p (b ∷ bs) t m = elim (ℕ_discrete p b) [
    | yes here ↦ rw here (omega arith, start-le (block_end h b) bs t.1)
    | no later ↦
        let (lo, hi) = Tiles-bounds (block_end h b) p bs t.1 (ground arith) in (omega arith, hi)
  ]

  -- Two blocks do not overlap.
  pub Tiles-apart :
      (start p q : ℕ) (bs : List ℕ)
      → Tiles h end start bs
      → has p bs ≡ true
      → has q bs ≡ true
      → p ≢ q
      → (block_end h p ≤ q) ⊎ (block_end h q ≤ p)
  Tiles-apart start p q [] t m n ne = cc
  Tiles-apart start p q (b ∷ bs) t m n ne = elim (ℕ_discrete p b) [
    | yes here ↦ inl (rw here (Tiles-bounds (block_end h b) q bs t.1 (ground arith)).0)
    | no not_p ↦ elim (ℕ_discrete q b) [
      | yes there ↦ inr (rw there (Tiles-bounds (block_end h b) p bs t.1 (ground arith)).0)
      | no not_q ↦ Tiles-apart (block_end h b) p q bs t.1 (ground arith) (ground arith) ne
    ]
  ]

pub Tiles-frame :
    (h g : ℕ → Header) (end start : ℕ) (bs : List ℕ)
    → Tiles h end start bs
    → ((p : ℕ) → has p bs ≡ true → (g p).size ≡ (h p).size)
    → Tiles g end start bs
Tiles-frame h g end start [] t same = t
Tiles-frame h g end start (b ∷ bs) t same = (
  t.0,
  rw (same b (ground arith))
      (Tiles-frame h g end (block_end h b) bs t.1 (λ p m. same p (ground arith))),
)

-- A block carved at the end of the range extends the tiling.
pub Tiles-snoc :
    (h : ℕ → Header) (end start : ℕ) (bs : List ℕ)
    → Tiles h end start bs
    → Tiles h (block_end h end) start (bs ++ end ∷ [])
Tiles-snoc h end start [] t = omega arith
Tiles-snoc h end start (b ∷ bs) t = (t.0, Tiles-snoc h end (block_end h b) bs t.1)
