-- ===== src/Memory/Heap/Init.antt =====
-- memory_init sets up an empty heap, and requests that are too large for the arithmetic of kmalloc.
use rpi4_bare_metal_os.Prelude.{
  ℕ, zero, suc, ◌/◌, ◌%◌, ◌^◌, ◌<◌, ◌≡◌, refl, sym, Bool, true, false, [], arith, count,
}
use rpi4_bare_metal_os.Memory.Bitmap.{bitmap_test, managed_pages}
use rpi4_bare_metal_os.Memory.Pages.{PageState, page_size, mark_all}
use rpi4_bare_metal_os.Memory.Pages.Count.{
  IsCounted, used_in_bitmap, Window, mark_all-Window, mark_all-used_pages,
}
use rpi4_bare_metal_os.Memory.Heap.{MemoryState, heap_pages, pages_start, memory_init}
use rpi4_bare_metal_os.Memory.Heap.Invariant.{IsHeap}

abbrev blank : PageState
blank = record { bitmap = λ i. 0; first_free_page = pages_start / page_size; used_pages = 0 }

blank_free : (p : ℕ) → p < managed_pages → bitmap_test blank.bitmap p ≡ false
unfolding bitmap_test
blank_free p lt = let none_set : 0 / 2 ^ (p % 8) ≡ 0 = omega arith in rw none_set (ground arith)

count-none : (n : ℕ) (p : ℕ → Bool) → ((i : ℕ) → i < n → p i ≡ false) → count n p ≡ 0
unfolding count
count-none zero p h = refl
count-none (suc n) p h =
    ground (arith, count-none n p (λ i lt. h i (omega arith)), h n (omega arith))

blank-IsCounted : IsCounted blank
unfolding used_in_bitmap
blank-IsCounted = record {
  bytes = λ i. omega arith;
  counted = sym (count-none managed_pages (bitmap_test blank.bitmap) blank_free);
}

reserve : Window true heap_pages 0 blank (mark_all heap_pages 0 blank)
reserve =
    mark_all-Window heap_pages 0 blank-IsCounted (omega arith)
      (λ p lo hi. blank_free p (omega arith))

-- Where the memory reads back what is written, memory_init leaves an empty heap whose 64 pages are
-- the only used ones.
pub memory_init-IsHeap :
    (m : MemoryState)
    → IsHeap (memory_init true true m) [] []
      × ((memory_init true true m).pages.used_pages ≡ heap_pages)
unfolding memory_init
memory_init-IsHeap m = (
  record {
    counted = reserve.inv;
    first = reserve.first;
    start = refl;
    limit = refl;
    within = omega arith;
    reserved = λ p lt. ground (arith, reserve.tests p);
    tiles = refl;
    chain = refl;
    distinct = tt;
    carved = λ p h. cc;
    magic = λ p h. cc;
    small = λ p h. cc;
  },
  omega (
    arith,
    mark_all-used_pages heap_pages 0 blank-IsCounted (omega arith)
        (λ p lo hi. blank_free p (omega arith)),
  ),
)
