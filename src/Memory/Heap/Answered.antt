-- ===== src/Memory/Heap/Answered.antt =====
-- What kmalloc answers to a client that holds other memory already.
use rpi4_bare_metal_os.Prelude.{
  ℕ, ◌^◌, ◌/◌, ◌+◌, ◌≤◌, ◌<◌, ◌≡◌, ◌⊎◌, inl, inr, List, arith, length, some,
}
use native.Mathlib.Decide.{dec_lt}
use rpi4_bare_metal_os.Memory.Pages.{page_size}
use rpi4_bare_metal_os.Memory.Heap.{MemoryState, header_size, align16, page_count, kmalloc}
use rpi4_bare_metal_os.Memory.Heap.Invariant.{IsHeap}
use rpi4_bare_metal_os.Memory.Heap.Whole.{PageAnswer}
use rpi4_bare_metal_os.Memory.Heap.Alloc.{SmallAnswer, Overflowed, kmalloc_small, kmalloc_large}
use rpi4_bare_metal_os.Memory.Heap.Held.{
  Holds, Apart, Fresh, in_heap, in_pages, given-Fresh, paged-Fresh,
}

Holds-weaken :
    {m : MemoryState} {blocks free : List ℕ} {ptr n k : ℕ}
    → k ≤ n
    → Holds m blocks free ptr n
    → Holds m blocks free ptr k
Holds-weaken le (in_heap b e l r) = in_heap b e l (omega arith)
Holds-weaken le (in_pages i c e h r t) = in_pages i c e h (omega arith) t

Fresh-weaken :
    {size want : ℕ} {m m' : MemoryState} {blocks free : List ℕ} {ptr : ℕ}
    → want ≤ size
    → Fresh size m m' blocks free ptr
    → Fresh want m m' blocks free ptr
Fresh-weaken le f = record {
  blocks' = f.blocks';
  free' = f.free';
  heap = f.heap;
  shorter = f.shorter;
  kept = f.kept;
  holds = Holds-weaken le f.holds;
  apart =
      λ q n h. elim (f.apart q n h) [ inl below ↦ inl below | inr above ↦ inr (omega (arith, le)) ];
}

-- The bytes at `ptr` are held, and meet nothing that was held before.
abbrev pub IsNew :
    (size : ℕ) (m m' : MemoryState) (blocks free blocks' free' : List ℕ) (ptr : ℕ) → Type 0
IsNew size m m' blocks free blocks' free' ptr =
    Holds m' blocks' free' ptr size × ((q n : ℕ) → Holds m blocks free q n → Apart q n ptr size)

-- What kmalloc answers: a new pointer, or NULL and nothing has changed.
pub record Answered (size : ℕ) (m : MemoryState) (blocks free : List ℕ) (r : MemoryState × ℕ)
    : Type 0 where
  pub blocks' : List ℕ
  pub free' : List ℕ
  pub heap : IsHeap r.0 blocks' free'
  pub shorter : length free' ≤ length free
  pub kept : (q n : ℕ) → Holds m blocks free q n → Holds r.0 blocks' free' q n
  pub answer : IsNew size m r.0 blocks free blocks' free' r.1 ⊎ ((r.1 ≡ 0) × (r.0 ≡ m))

module _ {m : MemoryState} {blocks free : List ℕ} (inv : IsHeap m blocks free) (size want : ℕ)
    (le : want ≤ size) where
  Fresh-Answered :
      (m' : MemoryState) (ptr : ℕ)
      → Fresh size m m' blocks free ptr
      → Answered want m blocks free (m', ptr)
  Fresh-Answered m' ptr fresh =
      let f = Fresh-weaken le fresh in
      record {
        blocks' = f.blocks';
        free' = f.free';
        heap = f.heap;
        shorter = f.shorter;
        kept = f.kept;
        answer = inl (f.holds, f.apart);
      }

  page-Answered :
      (n : ℕ) (r : MemoryState × ℕ)
      → PageAnswer size n m blocks free r
      → Answered want m blocks free r
  page-Answered n r (inl (p, e, g)) =
      rw e (Fresh-Answered r.0 (p + header_size) (paged-Fresh inv g))
  page-Answered n r (inr x) = record {
    blocks' = blocks;
    free' = free;
    heap = rw x.same inv;
    shorter = omega arith;
    kept = λ q k h. rw x.same h;
    answer = inr (x.null, x.same);
  }

  small-Answered :
      (r : MemoryState × ℕ)
      → SmallAnswer size m blocks free r ⊎ Overflowed size m blocks free r
      → Answered want m blocks free r
  small-Answered r (inl (b, e, g)) = rw e (Fresh-Answered r.0 (b + header_size) (given-Fresh inv g))
  small-Answered r (inr o) = page-Answered (page_count (size + header_size)) r o.answer

-- In a well-formed heap, with more fuel than the free list is long, a request of 1 byte or more, below
-- 2 ^ 43, returns. The heap stays well-formed, and everything that clients held is still held, whether
-- in the heap or in pages of its own. The `size` bytes at the pointer are held too, and no byte held
-- before is among them; or the pointer is NULL, and nothing has changed.
pub kmalloc-Answered :
    {m : MemoryState} {blocks free : List ℕ} (fuel size : ℕ)
    → IsHeap m blocks free
    → 0 < size
    → size < 2 ^ 43
    → length free < fuel
    → (r : MemoryState × ℕ) × (kmalloc fuel size m ≡ some r) × Answered size m blocks free r
kmalloc-Answered fuel size inv pos small enough = elim (dec_lt (page_size / 2) size) [
  | yes large ↦
      let (r, e, le, a) = kmalloc_large fuel size inv large small in
      (r, e, page-Answered inv (align16 size) size le (page_count (align16 size + header_size)) r a)
  | no in_heap_ ↦
      let (r, e, a) = kmalloc_small fuel size inv pos (omega arith) enough in
      (r, e, small-Answered inv (align16 size) size (omega arith) r a)
]
