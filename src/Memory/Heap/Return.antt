-- ===== src/Memory/Heap/Return.antt =====
-- kfree of a block that has pages of its own.
use rpi4_bare_metal_os.Prelude.{ℕ, ◌+◌, ◌≡◌, refl, ◌≢◌, true, false, List, arith, ◌==◌, ltb, update}
use rpi4_bare_metal_os.Links.{has, Chain-frame}
use rpi4_bare_metal_os.Memory.Pages.{page_free_n}
use rpi4_bare_metal_os.Memory.Pages.Alloc.{SamePages, freed-SamePages}
use rpi4_bare_metal_os.Memory.Heap.{MemoryState, block_magic, header_size, header_of, kfree}
use rpi4_bare_metal_os.Memory.Heap.Walk.{next_of}
use rpi4_bare_metal_os.Memory.Heap.Tiles.{Tiles-frame, Tiles-bounds}
use rpi4_bare_metal_os.Memory.Heap.Invariant.{IsHeap}
use rpi4_bare_metal_os.Memory.Heap.Whole.{Paged}

module _ {m m' : MemoryState} {blocks free : List ℕ} {size n p : ℕ} (inv : IsHeap m blocks free)
    (given : Paged size n m m' blocks free p) where
  abbrev returned : MemoryState
  returned = record m' {
    pages = page_free_n p n m'.pages;
    headers = update m'.headers p (record (m'.headers p) { magic = 0 });
  }

  kfree-returned : kfree (p + header_size) m' ≡ returned
  unfolding kfree
  kfree-returned =
      let back : header_of (p + header_size) ≡ p =
        omega (arith, given.got.address, given.got.fits, inv.first) in
      let there : (p + header_size == 0) ≡ false = ground arith in
      let pages_owned : (m'.headers p).is_page_alloc ≡ n = ground (arith, given.header) in
      let good : ((m'.headers p).magic == block_magic) ≡ true = ground (arith, given.header) in
      let some_pages : ltb 0 n ≡ true = ground (arith, given.room) in
      rw (back, there, good, pages_owned, some_pages) refl

  back_to : SamePages m.pages (page_free_n p n m'.pages)
  back_to = (freed-SamePages inv.counted given.got).1

  not_block : (q : ℕ) → has q blocks ≡ true → q ≢ p
  not_block q h e = absurd (
      omega (
        arith,
        Tiles-bounds m.headers m.heap_brk m.heap_start q blocks inv.tiles h,
        given.behind,
        inv.within,
      ))

  returned-IsHeap : IsHeap returned blocks free
  returned-IsHeap = record {
    counted = (freed-SamePages inv.counted given.got).0;
    first = ground (arith, back_to.1, inv.first);
    start = given.heap.start;
    limit = given.heap.limit;
    within = given.heap.within;
    reserved = λ q lt. ground (arith, back_to.2 q, inv.reserved q lt);
    tiles =
        Tiles-frame m'.headers returned.headers m'.heap_brk m'.heap_start blocks given.heap.tiles
          (λ q h. ground (arith, not_block q h));
    chain =
        Chain-frame (next_of m') (next_of returned) m'.free_list free given.heap.chain
          (λ q h. ground (arith, inv.carved q h, not_block q));
    distinct = inv.distinct;
    carved = inv.carved;
    magic = λ q h. ground (arith, given.heap.magic q h, not_block q h);
    small = λ q h. ground (arith, given.heap.small q h, not_block q h);
  }

  -- kfree of a block that kmalloc gave pages of its own, straight after, gives the pages back:
  -- every page and the count are as they were before, and the heap is well-formed with the same
  -- blocks.
  pub kfree-Paged :
      IsHeap (kfree (p + header_size) m') blocks free
      × SamePages m.pages (kfree (p + header_size) m').pages
  kfree-Paged = rw kfree-returned (returned-IsHeap, back_to)
