-- ===== src/Memory/Heap/Held.antt =====
-- What clients hold of kmalloc's memory, in the heap and in pages of its own: later calls leave it
-- alone.
use rpi4_bare_metal_os.Prelude.{
  ℕ, zero, ◌∙◌, ◌+◌, ◌*◌, ◌≤◌, ◌<◌, ◌≡◌, refl, ap, sym, subst, ◌⊎◌, inl, inr, true, false, List,
  arith, length,
}
use native.Mathlib.Decide.{dec_lt}
use rpi4_bare_metal_os.Links.{has}
use rpi4_bare_metal_os.Memory.Bitmap.{bitmap_test}
use rpi4_bare_metal_os.Memory.Pages.{page_size}
use rpi4_bare_metal_os.Memory.Heap.{MemoryState, header_size, heap_pages}
use rpi4_bare_metal_os.Memory.Heap.Tiles.{Tiles-bounds}
use rpi4_bare_metal_os.Memory.Heap.Invariant.{IsHeap, Given, live}
use rpi4_bare_metal_os.Memory.Heap.Whole.{Paged}

-- `ptr` was given out with room for `n` bytes: its block is live, or its pages are used.
pub data Holds (m : MemoryState) (blocks free : List ℕ) (ptr n : ℕ) : Type 0 where
  in_heap :
      (b : ℕ)
      → ptr ≡ b + header_size
      → live blocks free b ≡ true
      → n ≤ (m.headers b).size
      → Holds m blocks free ptr n
  in_pages :
      (i k : ℕ)
      → ptr ≡ (m.pages.first_free_page + i) * page_size + header_size
      → heap_pages ≤ i
      → header_size + n ≤ k * page_size
      → ((j : ℕ) → i ≤ j → j < i + k → bitmap_test m.pages.bitmap j ≡ true)
      → Holds m blocks free ptr n

-- the bytes of two pointers do not meet
abbrev pub Apart : (p n q k : ℕ) → Type 0
Apart p n q k = (p + n ≤ q) ⊎ (q + k ≤ p)

-- A pointer for `size` bytes that meets nothing held before, all of which is still held.
pub record Fresh (size : ℕ) (m m' : MemoryState) (blocks free : List ℕ) (ptr : ℕ) : Type 0 where
  pub blocks' : List ℕ
  pub free' : List ℕ
  pub heap : IsHeap m' blocks' free'
  pub shorter : length free' ≤ length free
  pub holds : Holds m' blocks' free' ptr size
  pub kept : (q n : ℕ) → Holds m blocks free q n → Holds m' blocks' free' q n
  pub apart : (q n : ℕ) → Holds m blocks free q n → Apart q n ptr size

-- Two windows without a common page.
windows-Apart :
    (base i c p n q k size : ℕ)
    → ((j : ℕ) → i ≤ j → j < i + c → p ≤ j → j < p + n → true ≡ false)
    → q ≡ (base + i) * page_size + header_size
    → header_size + k ≤ c * page_size
    → header_size + size ≤ n * page_size
    → Apart q k ((base + p) * page_size + header_size) size
windows-Apart base i c p n q k size none_both e room room' =
    let both : (j : ℕ) → i ≤ j → j < i + c → p ≤ j → j < p + n → 1 ≤ zero =
      λ j lo hi lo' hi'. absurd (cc (none_both j lo hi lo' hi')) in
    elim (dec_lt i p) [
      | yes lower ↦ inl (grind (arith, both p, e, room, room'))
      | no upper ↦ inr (grind (arith, both i, e, room, room'))
    ]

has_of_live : (blocks free : List ℕ) (p : ℕ) → live blocks free p ≡ true → has p blocks ≡ true
has_of_live blocks free p l = ground (arith, l)

module _ {m m' : MemoryState} {blocks free : List ℕ} (inv : IsHeap m blocks free) {size b : ℕ}
    (g : Given size m m' blocks free b) where
  given_kept : (q n : ℕ) → Holds m blocks free q n → Holds m' g.blocks' g.free' q n
  given_kept q n (in_heap p e l r) = in_heap p e (ground (arith, g.held p)) (rw (g.same p l) r)
  given_kept q n (in_pages i k e h r t) =
      in_pages i k (rw g.pages e) h r (λ j lo hi. rw g.pages (t j lo hi))

  given_live : live g.blocks' g.free' b ≡ true
  given_live = ground (arith, g.held b)

  given-Apart : (q n : ℕ) → Holds m blocks free q n → Apart q n (b + header_size) size
  given-Apart q n (in_heap p e l r) =
      let size_same : (m'.headers p).size ≡ (m.headers p).size = ap (λ h. h.size) (g.same p l) in
      elim (g.apart p l) [
        | inl below ↦ inl (omega (arith, below, e, r, size_same))
        | inr above ↦ inr (omega (arith, above, e, g.room))
      ]
  given-Apart q n (in_pages i k e h r t) = inr (
      omega (
        arith,
        Tiles-bounds m'.headers m'.heap_brk m'.heap_start b g.blocks' g.heap.tiles
            (has_of_live g.blocks' g.free' b given_live),
        g.heap.within,
        g.heap.limit,
        g.heap.first,
        g.room,
        e,
        h,
        ap (λ s. s.first_free_page) g.pages,
      ))

  pub given-Fresh : Fresh size m m' blocks free (b + header_size)
  given-Fresh = record {
    blocks' = g.blocks';
    free' = g.free';
    heap = g.heap;
    shorter = g.shorter;
    holds = in_heap b refl given_live g.room;
    kept = given_kept;
    apart = given-Apart;
  }

module _ {m m' : MemoryState} {blocks free : List ℕ} (inv : IsHeap m blocks free) {size n p : ℕ}
    (g : Paged size n m m' blocks free p) where
  block_below : (b : ℕ) → live blocks free b ≡ true → b + header_size + (m.headers b).size ≤ p
  block_below b l = omega (
    arith,
    Tiles-bounds m.headers m.heap_brk m.heap_start b blocks inv.tiles (has_of_live blocks free b l),
    inv.within,
    g.behind,
  )

  paged_kept : (q k : ℕ) → Holds m blocks free q k → Holds m' blocks free q k
  paged_kept q k (in_heap b e l r) =
      in_heap b e l (rw (g.same b (omega (arith, block_below b l))) r)
  paged_kept q k (in_pages i c e h r t) =
      in_pages i c (omega (arith, e, g.got.window.first)) h r
        (λ j lo hi. ground (arith, g.got.window.tests j, t j lo hi))

  paged-Apart : (q k : ℕ) → Holds m blocks free q k → Apart q k (p + header_size) size
  paged-Apart q k (in_heap b e l r) = inl (omega (arith, block_below b l, e, r))
  paged-Apart q k (in_pages i c e h r t) =
      subst (λ a. Apart q k (a + header_size) size) (sym g.got.address)
        (windows-Apart m.pages.first_free_page i c g.page n q k size
          (λ j lo hi lo' hi'. sym (t j lo hi) ∙ g.got.free j lo' hi') e r g.room)

  pub paged-Fresh : Fresh size m m' blocks free (p + header_size)
  paged-Fresh = record {
    blocks' = blocks;
    free' = free;
    heap = g.heap;
    shorter = omega arith;
    holds =
        in_pages g.page n
          (ap (λ a. a + header_size) (omega (arith, g.got.address, g.got.window.first)))
          (omega (arith, g.behind, g.got.address, inv.limit, inv.first)) g.room
          (λ j lo hi. ground (arith, g.got.window.tests j));
    kept = paged_kept;
    apart = paged-Apart;
  }
