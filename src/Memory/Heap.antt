-- ===== src/Memory/Heap.antt =====
-- kmalloc, kfree and memory_init of src/drivers/memory.c. Block headers stand in memory, so they are
-- read and written through a map from addresses; what clients store behind a header is left out.
pub mod Tiles
pub mod Walk
pub mod Invariant
pub mod Reuse
pub mod Grow
pub mod Whole
pub mod Alloc
pub mod Free
pub mod Return
pub mod Init
pub mod Overflow
pub mod Held
pub mod Answered
use rpi4_bare_metal_os.Prelude.{
  ℕ, zero, suc, ◌+◌, ◌-◌, ◌*◌, ◌/◌, ◌%◌, ◌^◌, Bool, true, false, Option, none, some, ltb, leb, ◌==◌,
  if◌then◌else◌, update,
}
use rpi4_bare_metal_os.Memory.Bitmap.{managed_pages}
use rpi4_bare_metal_os.Memory.Pages.{PageState, page_size, mark_all, page_alloc_n, page_free_n}

-- `block_header_t`; `next` is an address, 0 where the list ends.
pub record Header : Type 0 where
  pub size : ℕ
  pub magic : ℕ
  pub next : ℕ
  pub is_page_alloc : ℕ

pub record MemoryState : Type 0 where
  pub pages : PageState
  pub headers : ℕ → Header
  pub heap_start : ℕ
  pub heap_end : ℕ
  pub heap_brk : ℕ
  pub free_list : ℕ

abbrev pub block_magic : ℕ
block_magic = 0xdeadbeef

-- `sizeof(block_header_t)`: three 8-byte fields, an `int`, and padding
abbrev pub header_size : ℕ
header_size = 32

abbrev pub bitmap_addr : ℕ
bitmap_addr = 0x100000

abbrev pub heap_pages : ℕ
heap_pages = 64

-- `(size + 15) & ~15UL`
abbrev pub align16 : ℕ → ℕ
align16 size = (size + 15) % 2 ^ 64 / 16 * 16

-- `(BITMAP_ADDR + BITMAP_SIZE + PAGE_SIZE - 1) & ~(PAGE_SIZE - 1)`
abbrev pub pages_start : ℕ
pages_start = (bitmap_addr + managed_pages / 8 + page_size - 1) / page_size * page_size

-- Whether the two words written as a test of the memory read back is the machine's answer.
unfoldable pub memory_init : (bitmap_writable heap_writable : Bool) → MemoryState → MemoryState
memory_init bitmap_writable heap_writable m =
    if bitmap_writable
    then (if heap_writable
        then record m {
          pages = mark_all heap_pages 0 (record {
            bitmap = λ i. 0;
            first_free_page = pages_start / page_size;
            used_pages = 0;
          });
          heap_start = pages_start;
          heap_end = pages_start + heap_pages * page_size;
          heap_brk = pages_start;
          free_list = 0;
        }
        else record m {
          pages = record {
            bitmap = update m.pages.bitmap 0 0;
            first_free_page = pages_start / page_size;
            used_pages = m.pages.used_pages;
          };
        })
    else record m {
      pages = record {
        bitmap = m.pages.bitmap;
        first_free_page = pages_start / page_size;
        used_pages = m.pages.used_pages;
      };
    }

-- `hdr->… = …` at an address
abbrev pub write_header : MemoryState → ℕ → Header → MemoryState
write_header m p h = record m { headers = update m.headers p h }

-- A block of whole pages: `pages` is an `unsigned int`.
unfoldable pub page_count : ℕ → ℕ
page_count total = (total + page_size - 1) % 2 ^ 64 / page_size % 2 ^ 32

unfoldable pub kmalloc_pages : (size total : ℕ) → MemoryState → MemoryState × ℕ
kmalloc_pages size total m =
    let (ps, p) = page_alloc_n (page_count total) m.pages in
    if p == 0 then (record m { pages = ps }, 0) else (
      write_header (record m { pages = ps }) p
          (record { size = size; magic = block_magic; next = 0; is_page_alloc = page_count total }),
      p + header_size,
    )

-- `if (prev) prev->next = next; else free_list = next;`
unfoldable pub relink : (prev next : ℕ) → MemoryState → MemoryState
relink prev next m =
    if prev == 0
    then record m { free_list = next }
    else write_header m prev (record (m.headers prev) { next = next })

-- A block that fits leaves the free list and is live.
unfoldable pub claim : (prev blk : ℕ) → MemoryState → MemoryState
unfolding relink
claim prev blk m =
    let m' = relink prev (m.headers blk).next m in
    write_header m' blk (record (m'.headers blk) { next = 0; magic = block_magic })

-- How the walk along the free list ends.
pub data Walked : Type 0 where
  fit : MemoryState → ℕ → Walked
  no_fit : Walked
  out_of_fuel : Walked

unfoldable pub walk : (fuel size prev blk : ℕ) → MemoryState → Walked
unfolding claim
walk zero size prev blk m = out_of_fuel
walk (suc fuel) size prev blk m = elim (blk == 0) [
  | true ↦ no_fit
  | false ↦ elim (leb size (m.headers blk).size) [
    | true ↦ fit (claim prev blk m) blk
    | false ↦ walk fuel size blk (m.headers blk).next m
  ]
]

-- No block of the free list fits: the heap grows, or whole pages are taken.
unfoldable pub kmalloc_fresh : (size total : ℕ) → MemoryState → MemoryState × ℕ
kmalloc_fresh size total m =
    if ltb m.heap_end (m.heap_brk + total) then kmalloc_pages size total m else (
      write_header (record m { heap_brk = m.heap_brk + total }) m.heap_brk
          (record { size = size; magic = block_magic; next = 0; is_page_alloc = 0 }),
      m.heap_brk + header_size,
    )

unfoldable pub after_walk : (size total : ℕ) → MemoryState → Walked → Option (MemoryState × ℕ)
after_walk size total m (fit m' blk) = some (m', blk + header_size)
after_walk size total m no_fit = some (kmalloc_fresh size total m)
after_walk size total m out_of_fuel = none

-- `fuel` bounds the walk along the free list; `none` means that it ran out.
unfoldable pub kmalloc : (fuel size : ℕ) → MemoryState → Option (MemoryState × ℕ)
kmalloc fuel size m =
    if size == 0
    then some (m, 0)
    else let aligned : ℕ = align16 size in
      let total : ℕ = (aligned + header_size) % 2 ^ 64 in
      if ltb (page_size / 2) aligned
      then some (kmalloc_pages aligned total m)
      else after_walk aligned total m (walk fuel aligned 0 m.free_list m)

-- The header that stands before a pointer.
abbrev pub header_of : ℕ → ℕ
header_of ptr = (ptr + 2 ^ 64 - header_size) % 2 ^ 64

unfoldable pub kfree : ℕ → MemoryState → MemoryState
kfree ptr m =
    let hdr : ℕ = header_of ptr in
    let h : Header = m.headers hdr in
    if ptr == 0
    then m
    else (if h.magic == block_magic
        then (if ltb 0 h.is_page_alloc
            then record m {
              pages = page_free_n hdr h.is_page_alloc m.pages;
              headers = update m.headers hdr (record h { magic = 0 });
            }
            else record m {
              headers = update m.headers hdr (record h { magic = 0; next = m.free_list });
              free_list = hdr;
            })
        else m)
