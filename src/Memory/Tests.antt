-- ===== src/Memory/Tests.antt =====
-- The allocators on concrete states: of memory_init, and of a heap with one block.
use rpi4_bare_metal_os.Prelude.{
  ℕ, ◌+◌, ◌^◌, ◌≡◌, ◌≢◌, ◌⊎◌, refl, true, false, some, [], ◌∷◌, arith, inl, inr,
}
use rpi4_bare_metal_os.Memory.Bitmap.{bitmap_set, bitmap_test}
use rpi4_bare_metal_os.Memory.Pages.{
  blocked, search_window, mark, mark_all, give, page_alloc_n, page_free,
}
use rpi4_bare_metal_os.Memory.Pages.Search.{IsFree}
use rpi4_bare_metal_os.Memory.Pages.Count.{IsCounted}
use rpi4_bare_metal_os.Memory.Pages.Alloc.{
  Got, Answer, SamePages, page_alloc_n-first_fit, page_free-beyond,
}
use rpi4_bare_metal_os.Memory.Heap.{
  Header, MemoryState, header_size, align16, memory_init, kmalloc, kfree,
}
use rpi4_bare_metal_os.Memory.Heap.Invariant.{IsHeap, live, Given}
use rpi4_bare_metal_os.Memory.Heap.Grow.{carve, carve-Given}
use rpi4_bare_metal_os.Memory.Heap.Whole.{Paged, paged, paged-Paged}
use rpi4_bare_metal_os.Memory.Heap.Alloc.{SmallAnswer, Overflowed, kmalloc_small}
use rpi4_bare_metal_os.Memory.Heap.Answered.{Answered, kmalloc-Answered}
use rpi4_bare_metal_os.Memory.Heap.Free.{kfree-IsHeap, kmalloc-kfree}
use rpi4_bare_metal_os.Memory.Heap.Return.{kfree-Paged}
use rpi4_bare_metal_os.Memory.Heap.Init.{memory_init-IsHeap}
use rpi4_bare_metal_os.Memory.Heap.Overflow.{Behind, kmalloc_truncates}

abbrev cleared : Header
cleared = record { size = 0; magic = 0; next = 0; is_page_alloc = 0 }

-- the static variables before memory_init
abbrev bss : MemoryState
bss = record {
  pages = record { bitmap = λ i. 0; first_free_page = 0; used_pages = 0 };
  headers = λ a. cleared;
  heap_start = 0;
  heap_end = 0;
  heap_brk = 0;
  free_list = 0;
}

abbrev started : MemoryState
started = memory_init true true bss

started-IsHeap : IsHeap started [] []
started-IsHeap = (memory_init-IsHeap bss).0

started_pages : started.pages.first_free_page ≡ 257
unfolding memory_init mark_all mark
started_pages = refl

started_brk : (started.heap_brk ≡ 0x101000) × (started.heap_end ≡ 0x141000)
unfolding memory_init
started_brk = (refl, refl)

-- The first pages that page_alloc_n gives out lie right behind the heap.
first_pages : (page_alloc_n 2 started.pages).1 ≡ 0x141000
unfolding page_alloc_n give search_window blocked bitmap_test memory_init mark_all mark bitmap_set
first_pages = refl

page_alloc_n-first_fit_example : Answer 2 started.pages (page_alloc_n 2 started.pages)
page_alloc_n-first_fit_example = page_alloc_n-first_fit 2 (omega arith) started-IsHeap.counted

page_free-beyond_example :
    ((page_free 0x9000000 started.pages).bitmap ≡ started.pages.bitmap)
    × ¬ IsCounted (page_free 0x9000000 started.pages)
page_free-beyond_example =
    page_free-beyond 0x9000000 started-IsHeap.counted (omega (arith, started_pages))

kmalloc_small_example :
    (r : MemoryState × ℕ) × (kmalloc 1 100 started ≡ some r)
    × (SmallAnswer (align16 100) started [] [] r ⊎ Overflowed (align16 100) started [] [] r)
kmalloc_small_example = kmalloc_small 1 100 started-IsHeap (omega arith) (omega arith) (omega arith)

kmalloc-Answered_example :
    (r : MemoryState × ℕ) × (kmalloc 1 5000 started ≡ some r) × Answered 5000 started [] [] r
kmalloc-Answered_example =
    kmalloc-Answered 1 5000 started-IsHeap (omega arith) (omega arith) (omega arith)

-- one block of 112 bytes
abbrev one_block : MemoryState
one_block = carve 112 started

one_block-Given : Given 112 started one_block [] [] started.heap_brk
one_block-Given = carve-Given started-IsHeap 112 (omega (arith, started_brk))

abbrev block : ℕ
block = started.heap_brk

block_held : live one_block-Given.blocks' one_block-Given.free' block ≡ true
block_held = ground (arith, one_block-Given.held block)

kfree-IsHeap_example :
    IsHeap
      (kfree (block + header_size) one_block)
      one_block-Given.blocks'
      (block ∷ one_block-Given.free')
    × ((p : ℕ)
        → p ≢ block
        → (kfree (block + header_size) one_block).headers p ≡ one_block.headers p)
kfree-IsHeap_example = kfree-IsHeap one_block-Given.heap block block_held

kmalloc-kfree_example :
    (m' : MemoryState) × (kmalloc 1 100 (kfree (block + header_size) one_block)
      ≡ some (m', block + header_size))
    × (m'.free_list ≡ one_block.free_list)
kmalloc-kfree_example =
    kmalloc-kfree one_block-Given.heap block block_held 1 100 (omega arith) (omega arith)
      (omega (arith, one_block-Given.room)) (omega arith)

some_pages :
    (i : ℕ) × Got 2 started.pages
      (page_alloc_n 2 started.pages).0
      (page_alloc_n 2 started.pages).1
      i
some_pages = elim (page_alloc_n-first_fit 2 (omega arith) started-IsHeap.counted) [
  | inl got ↦ got
  | inr refused ↦ absurd (omega (arith, first_pages, refused.null))
]

two_pages :
    Paged 5008 2 started
      (paged started-IsHeap 5008 2 (omega arith) (omega arith) some_pages.1)
      []
      []
      (page_alloc_n 2 started.pages).1
two_pages = paged-Paged started-IsHeap 5008 2 (omega arith) (omega arith) some_pages.1

kfree-Paged_example :
    let m' = paged started-IsHeap 5008 2 (omega arith) (omega arith) some_pages.1 in
    let ptr : ℕ = (page_alloc_n 2 started.pages).1 + header_size in
    IsHeap (kfree ptr m') [] [] × SamePages started.pages (kfree ptr m').pages
kfree-Paged_example = kfree-Paged started-IsHeap two_pages

first_free : bitmap_test started.pages.bitmap 64 ≡ false
unfolding bitmap_test memory_init mark_all mark bitmap_set
first_free = refl

one-IsFree : IsFree started.pages.bitmap 64 1
one-IsFree p lo hi = let here : p ≡ 64 = omega arith in rw here first_free

-- 16 TB are asked for, and one page is granted.
kmalloc_truncates_example :
    (r : MemoryState × ℕ) × (i : ℕ) × (kmalloc 1 (2 ^ 44) started ≡ some r)
    × (r.1 ≢ 0)
    × Behind started r 1 i
kmalloc_truncates_example =
    kmalloc_truncates 1 (2 ^ 44) 1 64 started-IsHeap (omega arith) (omega arith) one-IsFree
      (omega arith) (omega arith)
