-- ===== src/Memory/Heap/Invariant.antt =====
-- The invariant of the heap: which blocks there are, and which of them are free.
use rpi4_bare_metal_os.Prelude.{
  ℕ, ◌+◌, ◌*◌, ◌/◌, ◌≤◌, ◌<◌, ◌≡◌, ◌≢◌, ◌⊎◌, Bool, true, false, ◌&&◌, ◌||◌, not, List, ◌==◌,
  if◌then◌else◌, length,
}
use rpi4_bare_metal_os.Links.{has, Chain, Distinct}
use rpi4_bare_metal_os.Memory.Bitmap.{bitmap_test}
use rpi4_bare_metal_os.Memory.Pages.{page_size}
use rpi4_bare_metal_os.Memory.Pages.Count.{IsCounted}
use rpi4_bare_metal_os.Memory.Heap.{MemoryState, block_magic, heap_pages, pages_start}
use rpi4_bare_metal_os.Memory.Heap.Walk.{next_of}
use rpi4_bare_metal_os.Memory.Heap.Tiles.{Tiles, block_end, Tiles-apart}

-- The carved blocks are `blocks`, and those of `free` are on the free list.
pub record IsHeap (m : MemoryState) (blocks free : List ℕ) : Type 0 where
  pub counted : IsCounted m.pages
  pub first : m.pages.first_free_page ≡ pages_start / page_size
  pub start : m.heap_start ≡ pages_start
  pub limit : m.heap_end ≡ pages_start + heap_pages * page_size
  pub within : m.heap_brk ≤ m.heap_end
  pub reserved : (p : ℕ) → p < heap_pages → bitmap_test m.pages.bitmap p ≡ true
  pub tiles : Tiles m.headers m.heap_brk m.heap_start blocks
  pub chain : Chain (next_of m) m.free_list free
  pub distinct : Distinct free
  pub carved : (p : ℕ) → has p free ≡ true → has p blocks ≡ true
  pub magic :
      (p : ℕ) → has p blocks ≡ true → (m.headers p).magic ≡ (if has p free then 0 else block_magic)
  pub small : (p : ℕ) → has p blocks ≡ true → (m.headers p).is_page_alloc ≡ 0

-- a block that a client holds
abbrev pub live : (blocks free : List ℕ) → ℕ → Bool
live blocks free p = has p blocks && not (has p free)

-- What kmalloc gives out from the heap: a block that nobody holds, large enough; the blocks held
-- by others stay as they are, and none of them overlaps it.
pub record Given (size : ℕ) (m m' : MemoryState) (blocks free : List ℕ) (b : ℕ) : Type 0 where
  pub blocks' : List ℕ
  pub free' : List ℕ
  pub heap : IsHeap m' blocks' free'
  pub shorter : length free' ≤ length free
  pub pages : m'.pages ≡ m.pages
  pub room : size ≤ (m'.headers b).size
  pub held : (p : ℕ) → live blocks' free' p ≡ ((p == b) || live blocks free p)
  pub fresh : live blocks free b ≡ false
  pub same : (p : ℕ) → live blocks free p ≡ true → m'.headers p ≡ m.headers p
  pub apart :
      (p : ℕ)
      → live blocks free p ≡ true
      → (block_end m'.headers p ≤ b) ⊎ (block_end m'.headers b ≤ p)

-- Disjointness follows from the tiling.
pub apart_of :
    {m : MemoryState} {blocks free : List ℕ} (b p : ℕ)
    → IsHeap m blocks free
    → has b blocks ≡ true
    → has p blocks ≡ true
    → p ≢ b
    → (block_end m.headers p ≤ b) ⊎ (block_end m.headers b ≤ p)
apart_of {m} {blocks} b p inv mb mp ne =
    Tiles-apart m.headers m.heap_brk m.heap_start p b blocks inv.tiles mp mb ne
