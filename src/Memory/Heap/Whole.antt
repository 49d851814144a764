-- ===== src/Memory/Heap/Whole.antt =====
-- kmalloc takes whole pages: for large blocks, and when the heap is full.
use rpi4_bare_metal_os.Prelude.{
  ℕ, ◌+◌, ◌-◌, ◌*◌, ◌^◌, ◌≤◌, ◌<◌, ◌≡◌, refl, ◌≢◌, ◌⊎◌, inl, inr, true, false, List, arith, ◌==◌,
  ap,
}
use native.Mathlib.Decide.{dec_lt}
use rpi4_bare_metal_os.Links.{has, Chain-frame}
use rpi4_bare_metal_os.Memory.Pages.{page_size, page_alloc_n, PageState}
use rpi4_bare_metal_os.Memory.Pages.Alloc.{Got, Refused, page_alloc_n-first_fit}
use rpi4_bare_metal_os.Memory.Heap.{
  MemoryState, block_magic, header_size, heap_pages, write_header, page_count, kmalloc_pages,
}
use rpi4_bare_metal_os.Memory.Heap.Walk.{next_of}
use rpi4_bare_metal_os.Memory.Heap.Tiles.{Tiles-frame, Tiles-bounds}
use rpi4_bare_metal_os.Memory.Heap.Invariant.{IsHeap}

-- A block in `n` pages of its own, behind the heap: its header is at `p`.
pub record Paged (size n : ℕ) (m m' : MemoryState) (blocks free : List ℕ) (p : ℕ) : Type 0 where
  pub heap : IsHeap m' blocks free
  pub page : ℕ
  pub got : Got n m.pages m'.pages p page
  pub header :
      m'.headers p ≡ record { size = size; magic = block_magic; next = 0; is_page_alloc = n }
  pub same : (q : ℕ) → q ≢ p → m'.headers q ≡ m.headers q
  pub behind : m.heap_end ≤ p
  pub room : header_size + size ≤ n * page_size

-- NULL: no window of pages is free, and nothing has changed.
pub record Exhausted (n : ℕ) (m m' : MemoryState) (ptr : ℕ) : Type 0 where
  pub null : ptr ≡ 0
  pub same : m' ≡ m
  pub refused : Refused n m.pages m.pages 0

abbrev pub PageAnswer :
    (size n : ℕ) → MemoryState → (blocks free : List ℕ) → MemoryState × ℕ → Type 0
PageAnswer size n m blocks free r =
    ((p : ℕ) × (r.1 ≡ p + header_size) × Paged size n m r.0 blocks free p) ⊎ Exhausted n m r.0 r.1

-- Below 2 ^ 44 bytes the number of pages is exact.
pub page_count-room :
    (total : ℕ)
    → 0 < total
    → total < 2 ^ 44 - 4096
    → (0 < page_count total) × (total ≤ page_count total * page_size)
unfolding page_count
page_count-room total pos small = omega arith

module _ {m : MemoryState} {blocks free : List ℕ} (inv : IsHeap m blocks free) (size n : ℕ)
    (pos : 0 < n) (room : header_size + size ≤ n * page_size) where
  -- The pages of the heap are used, so a free window lies behind them.
  behind_heap : {ps : PageState} {p i : ℕ} → Got n m.pages ps p i → heap_pages ≤ i
  behind_heap {i} got = elim (dec_lt i heap_pages) [
    | yes in_heap ↦ absurd (cc (got.free i (omega arith) (omega arith), inv.reserved i in_heap))
    | no out ↦ omega arith
  ]

  module _ {ps : PageState} {p i : ℕ} (got : Got n m.pages ps p i) where
    end-le : m.heap_end ≤ p
    end-le = omega (arith, behind_heap got, got.address, inv.limit, inv.first)

    not_block : (q : ℕ) → has q blocks ≡ true → q ≢ p
    not_block q h e = absurd (
        omega (
          arith,
          Tiles-bounds m.headers m.heap_brk m.heap_start q blocks inv.tiles h,
          end-le,
          inv.within,
        ))

    abbrev pub paged : MemoryState
    paged =
        write_header (record m { pages = ps }) p
          (record { size = size; magic = block_magic; next = 0; is_page_alloc = n })

    paged-IsHeap : IsHeap paged blocks free
    paged-IsHeap = record {
      counted = got.window.inv;
      first = ground (arith, got.window.first, inv.first);
      start = inv.start;
      limit = inv.limit;
      within = inv.within;
      reserved = λ q lt. ground (arith, got.window.tests q, inv.reserved q lt);
      tiles =
          Tiles-frame m.headers paged.headers m.heap_brk m.heap_start blocks inv.tiles
            (λ q h. ground (arith, not_block q h));
      chain =
          Chain-frame (next_of m) (next_of paged) m.free_list free inv.chain
            (λ q h. ground (arith, inv.carved q h, not_block q));
      distinct = inv.distinct;
      carved = inv.carved;
      magic = λ q h. ground (arith, inv.magic q h, not_block q h);
      small = λ q h. ground (arith, inv.small q h, not_block q h);
    }

    pub paged-Paged : Paged size n m paged blocks free p
    paged-Paged = record {
      heap = paged-IsHeap;
      page = i;
      got = got;
      header = ground arith;
      same = λ q ne. ground arith;
      behind = end-le;
      room = room;
    }

pub kmalloc_pages-PageAnswer :
    {m : MemoryState} {blocks free : List ℕ} (size total : ℕ)
    → IsHeap m blocks free
    → total ≡ size + header_size
    → total < 2 ^ 44 - 4096
    → PageAnswer size (page_count total) m blocks free (kmalloc_pages size total m)
unfolding kmalloc_pages
kmalloc_pages-PageAnswer {m} {blocks} {free} size total inv e small =
    elim (page_alloc_n-first_fit (page_count total) enough.0 inv.counted) [
      | inl (i, got) ↦
          let there : ((page_alloc_n (page_count total) m.pages).1 == 0) ≡ false =
            ground (arith, got.address, inv.first) in
          rw there (
            inl (
              (page_alloc_n (page_count total) m.pages).1,
              refl,
              paged-Paged inv size (page_count total) enough.0 (omega (arith, enough.1)) got,
            ))
      | inr refused ↦
          let null : ((page_alloc_n (page_count total) m.pages).1 == 0) ≡ true =
            ground (arith, refused.null) in
          rw null (
            inr (record {
              null = refl;
              same = ap (λ ps. record m { pages = ps }) refused.same;
              refused = record { null = refl; same = refl; none_free = refused.none_free };
            }))
    ]
  where
    enough : (0 < page_count total) × (total ≤ page_count total * page_size)
    enough = page_count-room total (omega arith) small
