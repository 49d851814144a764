-- ===== src/Memory/Heap/Overflow.antt =====
-- Requests that are too large for the arithmetic of kmalloc are granted with too few bytes.
use rpi4_bare_metal_os.Prelude.{
  ℕ, suc, ◌+◌, ◌-◌, ◌*◌, ◌/◌, ◌%◌, ◌^◌, ◌≤◌, ◌<◌, ◌≡◌, ◌≢◌, refl, inl, inr, true, false, some, List,
  [], arith, ◌==◌, ltb, ap, ap₂, ◌∙◌,
}
use rpi4_bare_metal_os.Memory.Heap.Grow.{carve}
use rpi4_bare_metal_os.Memory.Pages.{page_size, page_alloc_n}
use rpi4_bare_metal_os.Memory.Pages.Alloc.{Got, page_alloc_n-first_fit}
use rpi4_bare_metal_os.Memory.Heap.{
  MemoryState, header_size, kmalloc, kmalloc_pages, walk, after_walk, kmalloc_fresh, page_count,
  align16,
}
use rpi4_bare_metal_os.Memory.Heap.Invariant.{IsHeap}
use rpi4_bare_metal_os.Memory.Bitmap.{managed_pages}
use rpi4_bare_metal_os.Memory.Pages.Search.{IsFree}

-- the window at page `i`, of `n` pages, stands behind the pointer that is returned
abbrev pub Behind : MemoryState → MemoryState × ℕ → (n i : ℕ) → Type 0
Behind m r n i =
    let p : ℕ = (m.pages.first_free_page + i) * page_size in
    (r.1 ≡ p + header_size) × Got n m.pages r.0.pages p i

-- 2 ^ 32 pages are as good as none.
page_count-wraps :
    (n total : ℕ)
    → 0 < n
    → n < 2 ^ 20
    → 2 ^ 44 + n * page_size < total + page_size
    → total ≤ 2 ^ 44 + n * page_size
    → page_count total ≡ n
unfolding page_count
page_count-wraps n total pos small lo hi = omega arith

-- In a well-formed heap with a free window of `n` pages, a request that with its header needs 2 ^ 32 + n
-- pages is granted: the pointer is not NULL, and `n` pages stand behind it.
pub kmalloc_truncates :
    {m : MemoryState} {blocks free : List ℕ} (fuel size n j : ℕ)
    → IsHeap m blocks free
    → 0 < n
    → j + n ≤ managed_pages
    → IsFree m.pages.bitmap j n
    → 2 ^ 44 + n * page_size < size + header_size + page_size
    → size + header_size ≤ 2 ^ 44 + n * page_size
    → (r : MemoryState × ℕ) × (i : ℕ) × (kmalloc fuel size m ≡ some r) × (r.1 ≢ 0) × Behind m r n i
unfolding kmalloc kmalloc_pages
kmalloc_truncates {m} fuel size n j inv pos fits window lo hi =
    let some_bytes : (size == 0) ≡ false = ground arith in
    let too_big : ltb (page_size / 2) (align16 size) ≡ true = ground arith in
    let total : (align16 size + header_size) % 2 ^ 64 ≡ align16 size + header_size = omega arith in
    let wraps : page_count ((align16 size + header_size) % 2 ^ 64) ≡ n =
      page_count-wraps n ((align16 size + header_size) % 2 ^ 64) pos (omega arith) (omega arith)
        (omega arith) in
    elim (page_alloc_n-first_fit n pos inv.counted) [
      | inr refused ↦ absurd (refused.none_free j fits window)
      | inl (i, got) ↦
          let there : ((page_alloc_n n m.pages).1 == 0) ≡ false =
            ground (arith, got.address, inv.first) in
          rw (some_bytes, too_big, wraps, there)
            (
              _,
              i,
              refl,
              (λ e. absurd (omega (arith, e))),
              (ap (λ p. p + header_size) got.address, rw got.address at got),
            )
    ]

kmalloc-zero_size :
    (m : MemoryState) (fuel size : ℕ)
    → 2 ^ 64 - 15 ≤ size
    → size < 2 ^ 64
    → m.free_list ≡ 0
    → kmalloc (suc fuel) size m ≡ some (kmalloc_fresh 0 header_size m)
unfolding kmalloc walk after_walk
kmalloc-zero_size m fuel size large small empty =
    let some_bytes : (size == 0) ≡ false = ground arith in
    let zero_size : align16 size ≡ 0 = omega arith in
    let total : (align16 size + header_size) % 2 ^ 64 ≡ header_size = omega arith in
    let none_free : (m.free_list == 0) ≡ true = ground arith in
    rw (some_bytes, zero_size, none_free, after_walk)
      (ap some (ap₂ (λ a t. kmalloc_fresh a t m) zero_size total))

-- In a well-formed heap with an empty free list and room for a header, each of the last 15 sizes
-- of 64 bits is granted a block of size 0.
pub kmalloc_wraps :
    {m : MemoryState} {blocks : List ℕ} (fuel size : ℕ)
    → IsHeap m blocks []
    → 2 ^ 64 - 15 ≤ size
    → size < 2 ^ 64
    → m.heap_brk + header_size ≤ m.heap_end
    → (m' : MemoryState) × (kmalloc (suc fuel) size m ≡ some (m', m.heap_brk + header_size))
      × ((m'.headers m.heap_brk).size ≡ 0)
unfolding kmalloc_fresh
kmalloc_wraps {m} fuel size inv large small room =
    let fits : ltb m.heap_end (m.heap_brk + header_size) ≡ false = ground arith in
    (carve 0 m, kmalloc-zero_size m fuel size large small inv.chain ∙ rw fits, ground arith)
