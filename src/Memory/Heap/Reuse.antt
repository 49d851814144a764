-- ===== src/Memory/Heap/Reuse.antt =====
-- kmalloc takes a block off the free list.
use rpi4_bare_metal_os.Prelude.{
  ℕ, ◌≤◌, ◌≡◌, inl, inr, true, false, List, [], ◌∷◌, arith, ◌==◌, if◌then◌else◌, update,
}
use rpi4_bare_metal_os.Links.{
  ne_null, has, remove, Chain, Distinct, Chain-frame, has-remove, Distinct-remove, length-remove,
}
use rpi4_bare_metal_os.Links.Unlink.{At, has_of_At, before_of_At, has_of_Follows, Chain-unlink}
use rpi4_bare_metal_os.Memory.Heap.{MemoryState, block_magic, claim}
use rpi4_bare_metal_os.Memory.Heap.Walk.{next_of}
use rpi4_bare_metal_os.Memory.Heap.Tiles.{Tiles-frame}
use rpi4_bare_metal_os.Memory.Heap.Invariant.{IsHeap, Given, apart_of}

-- Off the list go the claimed block and nothing else.
claim-Chain :
    (m : MemoryState) (b before : ℕ) (xs : List ℕ)
    → Chain (next_of m) m.free_list xs
    → Distinct xs
    → At 0 b before xs
    → Chain (next_of (claim before b m)) (claim before b m).free_list (remove b xs)
unfolding claim
claim-Chain m b before [] c d at = absurd at
claim-Chain m b before (x ∷ xs) c d (inl head) =
    let null : (before == 0) ≡ true = ground arith in
    let here : (b == x) ≡ true = ground arith in
    rw (null, here)
      (rw (← head.0) (Chain-frame (next_of m) _ (next_of m x) xs c.2 (λ a h. ground arith)))
claim-Chain m b before (x ∷ xs) c d (inr later) =
    let found = has_of_Follows before b (x ∷ xs) later in
    let there : (before == 0) ≡ false =
      ground (arith, ne_null (next_of m) m.free_list before (x ∷ xs) c found.0) in
    rw there (
      Chain-frame (update (next_of m) before (next_of m b)) _ m.free_list (remove b (x ∷ xs))
        (Chain-unlink (next_of m) m.free_list before b (x ∷ xs) c d later)
        (λ a h. ground (arith, has-remove a b (x ∷ xs) d)))

module _ {m : MemoryState} {blocks free : List ℕ} (inv : IsHeap m blocks free) (before b : ℕ)
    (place : At 0 b before free) where
  abbrev claimed : MemoryState
  claimed = claim before b m

  claim-header :
      (p : ℕ)
      → ((claimed.headers p).size ≡ (m.headers p).size)
        × ((claimed.headers p).is_page_alloc ≡ (m.headers p).is_page_alloc)
        × ((claimed.headers p).magic ≡ (if p == b then block_magic else (m.headers p).magic))
  unfolding claim
  claim-header p = ground arith

  claim-same : (p : ℕ) → has p free ≡ false → claimed.headers p ≡ m.headers p
  unfolding claim
  claim-same p out = ground (arith, has_of_At b before free place, before_of_At b before free place)

  claim-fields :
      (claimed.pages ≡ m.pages)
      × (claimed.heap_start ≡ m.heap_start)
      × (claimed.heap_end ≡ m.heap_end)
      × (claimed.heap_brk ≡ m.heap_brk)
  unfolding claim
  claim-fields = ground arith

  claim-IsHeap : IsHeap claimed blocks (remove b free)
  claim-IsHeap = record {
    counted = rw claim-fields.0 inv.counted;
    first = rw claim-fields.0 inv.first;
    start = rw claim-fields.1 inv.start;
    limit = rw claim-fields.2 inv.limit;
    within = rw (claim-fields.2, claim-fields.3) inv.within;
    reserved = rw claim-fields.0 inv.reserved;
    tiles =
        rw (claim-fields.1, claim-fields.3)
          (Tiles-frame m.headers claimed.headers m.heap_brk m.heap_start blocks inv.tiles
            (λ p h. (claim-header p).0));
    chain = claim-Chain m b before free inv.chain inv.distinct place;
    distinct = Distinct-remove b free inv.distinct;
    carved = λ p h. ground (arith, has-remove p b free inv.distinct, inv.carved p);
    magic = λ p h. ground (
      arith,
      has-remove p b free inv.distinct,
      inv.magic p h,
      claim-header p,
      has_of_At b before free place,
    );
    small = λ p h. ground (arith, claim-header p, inv.small p h);
  }

  pub claim-Given : {size : ℕ} → size ≤ (m.headers b).size → Given size m claimed blocks free b
  claim-Given fits = record {
    blocks' = blocks;
    free' = remove b free;
    heap = claim-IsHeap;
    shorter = ground (arith, length-remove b free);
    pages = claim-fields.0;
    room = ground (arith, claim-header b);
    held = λ p.
        ground
          (arith, has-remove p b free inv.distinct, inv.carved b, has_of_At b before free place);
    fresh = ground (arith, has_of_At b before free place);
    same = λ p h. claim-same p (ground arith);
    apart = λ p h.
        apart_of b p claim-IsHeap (inv.carved b (has_of_At b before free place)) (ground arith)
          (ground (arith, has_of_At b before free place));
  }
