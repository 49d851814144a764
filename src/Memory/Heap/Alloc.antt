-- ===== src/Memory/Heap/Alloc.antt =====
-- kmalloc as a whole.
use rpi4_bare_metal_os.Prelude.{
  ℕ, ◌+◌, ◌/◌, ◌%◌, ◌^◌, ◌≤◌, ◌<◌, ◌≡◌, refl, ◌⊎◌, inl, inr, true, false, some, List, arith, ◌==◌,
  ltb, length, Bool-cases,
}
use rpi4_bare_metal_os.Memory.Pages.{page_size}
use rpi4_bare_metal_os.Memory.Heap.{
  MemoryState, header_size, align16, kmalloc, kmalloc_pages, kmalloc_fresh, after_walk, page_count,
  Walked, fit, no_fit, out_of_fuel, walk,
}
use rpi4_bare_metal_os.Memory.Heap.Walk.{Found, TooSmall, walk-Found}
use rpi4_bare_metal_os.Memory.Heap.Invariant.{IsHeap, Given}
use rpi4_bare_metal_os.Memory.Heap.Reuse.{claim-Given}
use rpi4_bare_metal_os.Memory.Heap.Grow.{carve-Given}
use rpi4_bare_metal_os.Memory.Heap.Whole.{PageAnswer, kmalloc_pages-PageAnswer}

-- a block of the heap
abbrev pub SmallAnswer :
    (size : ℕ) → MemoryState → (blocks free : List ℕ) → MemoryState × ℕ → Type 0
SmallAnswer size m blocks free r =
    (b : ℕ) × (r.1 ≡ b + header_size) × Given size m r.0 blocks free b

-- No free block is large enough and the heap has no room; whole pages are asked for.
pub record Overflowed (size : ℕ) (m : MemoryState) (blocks free : List ℕ) (r : MemoryState × ℕ)
    : Type 0 where
  pub too_small : TooSmall m size free
  pub no_room : m.heap_end < m.heap_brk + (size + header_size)
  pub answer : PageAnswer size (page_count (size + header_size)) m blocks free r

fresh-answer :
    {m : MemoryState} {blocks free : List ℕ} (size : ℕ)
    → IsHeap m blocks free
    → size ≤ page_size / 2
    → TooSmall m size free
    → SmallAnswer size m blocks free (kmalloc_fresh size (size + header_size) m)
      ⊎ Overflowed size m blocks free (kmalloc_fresh size (size + header_size) m)
unfolding kmalloc_fresh
fresh-answer {m} size inv small too_small =
    elim (Bool-cases (ltb m.heap_end (m.heap_brk + (size + header_size)))) [
      | inl over ↦ rw over (
          inr (record {
            too_small = too_small;
            no_room = ground arith;
            answer = kmalloc_pages-PageAnswer size (size + header_size) inv refl (omega arith);
          }))
      | inr room ↦ rw room (inl (m.heap_brk, refl, carve-Given inv size (ground arith)))
    ]

walk-answer :
    {m : MemoryState} {blocks free : List ℕ} (size : ℕ) (w : Walked)
    → IsHeap m blocks free
    → size ≤ page_size / 2
    → Found m size 0 free w
    → (r : MemoryState × ℕ) × (after_walk size (size + header_size) m w ≡ some r)
      × (SmallAnswer size m blocks free r ⊎ Overflowed size m blocks free r)
unfolding after_walk
walk-answer {m} {blocks} {free} size (fit m' b) inv small f = (
  (m', b + header_size),
  refl,
  inl (b, refl, rw f.claimed (claim-Given inv f.before b f.place f.room)),
)
walk-answer {m} size no_fit inv small f =
    (kmalloc_fresh size (size + header_size) m, refl, fresh-answer size inv small f)
walk-answer size out_of_fuel inv small f = absurd f

align16_bounds :
    (size : ℕ) → size ≤ page_size / 2 → (size ≤ align16 size) × (align16 size ≤ page_size / 2)
align16_bounds size small = omega arith

-- In a well-formed heap, with more fuel than the free list is long, a request of 1 byte to half a
-- page returns: with a block that is large enough, that nobody held and that overlaps no held
-- block, all of which stay as they are; or, only where no free block is large enough and the heap
-- is full, with pages of its own or NULL. The heap stays well-formed.
pub kmalloc_small :
    {m : MemoryState} {blocks free : List ℕ} (fuel size : ℕ)
    → IsHeap m blocks free
    → 0 < size
    → size ≤ page_size / 2
    → length free < fuel
    → (r : MemoryState × ℕ) × (kmalloc fuel size m ≡ some r)
      × (SmallAnswer (align16 size) m blocks free r ⊎ Overflowed (align16 size) m blocks free r)
unfolding kmalloc
kmalloc_small {m} {blocks} {free} fuel size inv pos small enough =
    let some_bytes : (size == 0) ≡ false = ground arith in
    let in_heap : ltb (page_size / 2) (align16 size) ≡ false =
      ground (arith, align16_bounds size small) in
    let total : (align16 size + header_size) % 2 ^ 64 ≡ align16 size + header_size =
      omega (arith, align16_bounds size small) in
    rw (some_bytes, in_heap, total)
      (walk-answer (align16 size) (walk fuel (align16 size) 0 m.free_list m) inv
        (align16_bounds size small).1
        (walk-Found m (align16 size) fuel 0 m.free_list free inv.chain enough))

-- In a well-formed heap, a request of more than half a page and less than 2 ^ 43 bytes gets pages
-- of its own behind the heap, enough for it and its header, or NULL with nothing changed where no
-- window of that many pages is free.
pub kmalloc_large :
    {m : MemoryState} {blocks free : List ℕ} (fuel size : ℕ)
    → IsHeap m blocks free
    → page_size / 2 < size
    → size < 2 ^ 43
    → (r : MemoryState × ℕ) × (kmalloc fuel size m ≡ some r)
      × (size ≤ align16 size)
      × PageAnswer (align16 size) (page_count (align16 size + header_size)) m blocks free r
unfolding kmalloc
kmalloc_large {m} {blocks} {free} fuel size inv large small =
    let some_bytes : (size == 0) ≡ false = ground arith in
    let too_big : ltb (page_size / 2) (align16 size) ≡ true = ground arith in
    let total : (align16 size + header_size) % 2 ^ 64 ≡ align16 size + header_size = omega arith in
    rw (some_bytes, too_big, total)
      (
        kmalloc_pages (align16 size) (align16 size + header_size) m,
        refl,
        omega arith,
        kmalloc_pages-PageAnswer (align16 size) (align16 size + header_size) inv refl (omega arith),
      )
