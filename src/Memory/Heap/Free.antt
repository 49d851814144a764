-- ===== src/Memory/Heap/Free.antt =====
-- kfree, alone and together with kmalloc.
use rpi4_bare_metal_os.Prelude.{
  ℕ, zero, suc, ◌+◌, ◌/◌, ◌≤◌, ◌<◌, ◌≡◌, refl, ◌≢◌, true, false, some, List, ◌∷◌, arith, ◌==◌, ltb,
  update, subst, sym,
}
use rpi4_bare_metal_os.Links.{Chain, Chain-frame}
use native.Mathlib.Decide.{ℕ_discrete}
use rpi4_bare_metal_os.Memory.Pages.{page_size}
use rpi4_bare_metal_os.Memory.Heap.{
  MemoryState, block_magic, header_size, header_of, kfree, fit, kmalloc, walk, after_walk, claim,
  align16,
}
use rpi4_bare_metal_os.Memory.Heap.Walk.{next_of}
use rpi4_bare_metal_os.Memory.Heap.Tiles.{Tiles-frame, Tiles-bounds, block_end}
use rpi4_bare_metal_os.Memory.Heap.Invariant.{IsHeap, live}

kfree-bad_magic :
    (ptr : ℕ) (m : MemoryState) → (m.headers (header_of ptr)).magic ≢ block_magic → kfree ptr m ≡ m
unfolding kfree
kfree-bad_magic ptr m bad = ground arith

magic-kfree :
    (ptr : ℕ) (m : MemoryState)
    → ptr ≢ 0
    → ((kfree ptr m).headers (header_of ptr)).magic ≢ block_magic
unfolding kfree
magic-kfree ptr m there = ground arith

kfree-null : (m : MemoryState) → kfree 0 m ≡ m
unfolding kfree
kfree-null m = refl

-- kfree of a pointer twice in a row is kfree once, whatever the pointer: the magic number is cleared
-- the first time.
pub kfree-kfree : (ptr : ℕ) (m : MemoryState) → kfree ptr (kfree ptr m) ≡ kfree ptr m
kfree-kfree ptr m = elim (ℕ_discrete ptr 0) [
  | yes null ↦ rw (null, kfree-null m) (kfree-null m)
  | no there ↦ kfree-bad_magic ptr (kfree ptr m) (magic-kfree ptr m there)
]

walk_first :
    (fuel size blk : ℕ) (m : MemoryState)
    → blk ≢ 0
    → size ≤ (m.headers blk).size
    → walk (suc fuel) size 0 blk m ≡ fit (claim 0 blk m) blk
unfolding walk
walk_first fuel size blk m there fits = ground arith

module _ {m : MemoryState} {blocks free : List ℕ} (inv : IsHeap m blocks free) (b : ℕ)
    (held : live blocks free b ≡ true) where
  bounds : (m.heap_start ≤ b) × (block_end m.headers b ≤ m.heap_brk)
  bounds = Tiles-bounds m.headers m.heap_brk m.heap_start b blocks inv.tiles (ground arith)

  abbrev freed : MemoryState
  freed = record m {
    headers = update m.headers b (record (m.headers b) { magic = 0; next = m.free_list });
    free_list = b;
  }

  kfree-freed : kfree (b + header_size) m ≡ freed
  unfolding kfree
  kfree-freed =
      let back : header_of (b + header_size) ≡ b = omega (arith, bounds, inv.within, inv.limit) in
      let there : (b + header_size == 0) ≡ false = ground arith in
      rw (back, there) (ground (arith, inv.magic b, inv.small b))

  freed-Chain : Chain (next_of freed) (next_of freed b) free
  freed-Chain =
      let first : next_of freed b ≡ m.free_list = ground arith in
      subst (λ q. Chain (next_of freed) q free) (sym first)
        (Chain-frame (next_of m) (next_of freed) m.free_list free inv.chain (λ a h. ground arith))

  freed-IsHeap : IsHeap freed blocks (b ∷ free)
  freed-IsHeap = record {
    counted = inv.counted;
    first = inv.first;
    start = inv.start;
    limit = inv.limit;
    within = inv.within;
    reserved = inv.reserved;
    tiles =
        Tiles-frame m.headers freed.headers m.heap_brk m.heap_start blocks inv.tiles
          (λ p h. ground arith);
    chain = (refl, omega (arith, bounds, inv.start), freed-Chain);
    distinct = (ground arith, inv.distinct);
    carved = λ p h. ground (arith, inv.carved p);
    magic = λ p h. ground (arith, inv.magic p h);
    small = λ p h. ground (arith, inv.small p h);
  }

  -- In a well-formed heap, kfree of a held block puts it at the head of the free list, changes no
  -- other header, and the heap is well-formed.
  pub kfree-IsHeap :
      IsHeap (kfree (b + header_size) m) blocks (b ∷ free)
      × ((p : ℕ) → p ≢ b → (kfree (b + header_size) m).headers p ≡ m.headers p)
  kfree-IsHeap = rw kfree-freed (freed-IsHeap, λ p ne. ground arith)

  -- A held block of a well-formed heap is freed, and a request of 1 byte to half a page that,
  -- rounded up, fits it comes next: kmalloc returns the same block, and the free list is as
  -- before.
  pub kmalloc-kfree :
      (fuel size : ℕ)
      → 0 < size
      → size ≤ page_size / 2
      → align16 size ≤ (m.headers b).size
      → 0 < fuel
      → (m' : MemoryState) × (kmalloc fuel size (kfree (b + header_size) m)
          ≡ some (m', b + header_size))
        × (m'.free_list ≡ m.free_list)
  unfolding kmalloc after_walk claim
  kmalloc-kfree zero size pos small fits enough = absurd (omega arith)
  kmalloc-kfree (suc fuel) size pos small fits enough =
      let some_bytes : (size == 0) ≡ false = ground arith in
      let in_heap : ltb (page_size / 2) (align16 size) ≡ false = ground arith in
      let found : walk (suc fuel) (align16 size) 0 b freed ≡ fit (claim 0 b freed) b =
        walk_first fuel (align16 size) b freed (omega (arith, bounds, inv.start)) (ground arith) in
      (claim 0 b freed, rw (some_bytes, in_heap, kfree-freed, found), ground arith)
