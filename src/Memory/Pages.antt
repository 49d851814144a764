-- ===== src/Memory/Pages.antt =====
-- The page allocator of src/drivers/memory.c: first fit over the bitmap, with a count of used pages.
pub mod Search
pub mod Count
pub mod Alloc
use rpi4_bare_metal_os.Prelude.{
  ℕ, zero, suc, ◌+◌, ◌-◌, ◌*◌, ◌/◌, ◌%◌, ◌^◌, Bool, true, false, Option, none, some, ltb, leb, ◌==◌,
  if◌then◌else◌,
}
use rpi4_bare_metal_os.Memory.Bitmap.{Bitmap, managed_pages, bitmap_set, bitmap_clear, bitmap_test}

abbrev pub page_size : ℕ
page_size = 4096

-- The static variables of the allocator; `total_pages` is the constant `managed_pages`.
pub record PageState : Type 0 where
  pub bitmap : Bitmap
  pub first_free_page : ℕ
  pub used_pages : ℕ

-- The inner loop of `page_alloc_n`: at the first used page of the window, the `i` to go on with.
unfoldable pub blocked : Bitmap → (i count : ℕ) → Option ℕ
blocked bm i zero = none
blocked bm i (suc count) = elim (bitmap_test bm i) [
  | true ↦ some (i + 1)
  | false ↦ blocked bm (i + 1) count
]

-- How the search for a window ends.
pub data Outcome : Type 0 where
  found : ℕ → Outcome
  full : Outcome
  out_of_fuel : Outcome

-- The outer loop: from `i` on, the first window of `count` free pages.
unfoldable pub search_window : ℕ → Bitmap → (count i : ℕ) → Outcome
search_window zero bm count i = out_of_fuel
search_window (suc fuel) bm count i = elim (leb (i + count) managed_pages) [
  | true ↦ elim (blocked bm i count) [
    | none ↦ found i
    | some next ↦ search_window fuel bm count next
  ]
  | false ↦ full
]

-- `bitmap_set(page); used_pages++;`
unfoldable pub mark : PageState → ℕ → PageState
mark s page = record s {
  bitmap = bitmap_set s.bitmap page;
  used_pages = (s.used_pages + 1) % 2 ^ 64;
}

unfoldable pub mark_all : (count page : ℕ) → PageState → PageState
mark_all zero page s = s
mark_all (suc count) page s = mark_all count (page + 1) (mark s page)

-- What follows the search: the window is marked and its address returned, or NULL, which is 0.
unfoldable pub give : ℕ → PageState → Outcome → PageState × ℕ
give count s (found i) = (mark_all count i s, (s.first_free_page + i) * page_size)
give count s full = (s, 0)
give count s out_of_fuel = (s, 0)

unfoldable pub page_alloc_n : ℕ → PageState → PageState × ℕ
page_alloc_n count s =
    if count == 0 then (s, 0) else give count s (search_window (managed_pages + 1) s.bitmap count 0)

unfoldable pub page_alloc : PageState → PageState × ℕ
page_alloc = page_alloc_n 1

-- `if (bitmap_test(page)) { bitmap_clear(page); used_pages--; }`
unfoldable pub release : PageState → ℕ → PageState
release s page =
    if bitmap_test s.bitmap page
    then record s {
      bitmap = bitmap_clear s.bitmap page;
      used_pages = (s.used_pages + 2 ^ 64 - 1) % 2 ^ 64;
    }
    else s

unfoldable pub release_all : (count page : ℕ) → PageState → PageState
release_all zero page s = s
release_all (suc count) page s = release_all count (page + 1) (release s page)

unfoldable pub page_free_n : (addr count : ℕ) → PageState → PageState
page_free_n addr count s =
    if ltb (addr / page_size) s.first_free_page
    then s
    else release_all count (addr / page_size - s.first_free_page) s

unfoldable pub page_free : ℕ → PageState → PageState
page_free addr = page_free_n addr 1

-- `total_pages - used_pages`, 64 bits wide
unfoldable pub memory_get_free_pages : PageState → ℕ
memory_get_free_pages s = (managed_pages + 2 ^ 64 - s.used_pages) % 2 ^ 64
