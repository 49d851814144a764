-- ===== src/Memory/Heap/Grow.antt =====
-- kmalloc carves a new block at the end of the heap.
use rpi4_bare_metal_os.Prelude.{
  ℕ, ◌+◌, ◌≤◌, ◌≡◌, inl, inr, false, List, [], ◌∷◌, ◌++◌, arith, Bool-cases, subst, refl,
}
use rpi4_bare_metal_os.Links.{has, Chain-frame}
use rpi4_bare_metal_os.Links.Extend.{has-append}
use rpi4_bare_metal_os.Memory.Heap.{MemoryState, block_magic, header_size, write_header}
use rpi4_bare_metal_os.Memory.Heap.Walk.{next_of}
use rpi4_bare_metal_os.Memory.Heap.Tiles.{Tiles, Tiles-frame, Tiles-snoc, Tiles-bounds, block_end}
use rpi4_bare_metal_os.Memory.Heap.Invariant.{IsHeap, Given, apart_of}

-- `hdr = heap_brk; heap_brk += total;` and the new header
abbrev pub carve : (size : ℕ) → MemoryState → MemoryState
carve size m =
    write_header (record m { heap_brk = m.heap_brk + (size + header_size) }) m.heap_brk
      (record { size = size; magic = block_magic; next = 0; is_page_alloc = 0 })

module _ {m : MemoryState} {blocks free : List ℕ} (inv : IsHeap m blocks free) where
  -- No block starts at the end of the heap.
  brk_new : has m.heap_brk blocks ≡ false
  brk_new = elim (Bool-cases (has m.heap_brk blocks)) [
    | inr out ↦ out
    | inl old ↦ absurd (
        omega (
          arith,
          (Tiles-bounds m.headers m.heap_brk m.heap_start m.heap_brk blocks inv.tiles old).1,
        ))
  ]

  brk_not_free : has m.heap_brk free ≡ false
  brk_not_free = ground (arith, inv.carved m.heap_brk, brk_new)

  module _ (size : ℕ) (room : m.heap_brk + (size + header_size) ≤ m.heap_end) where
    end_new : block_end (carve size m).headers m.heap_brk ≡ m.heap_brk + (size + header_size)
    end_new = ground arith

    carve-IsHeap : IsHeap (carve size m) (blocks ++ m.heap_brk ∷ []) free
    carve-IsHeap = record {
      counted = inv.counted;
      first = inv.first;
      start = inv.start;
      limit = inv.limit;
      within = room;
      reserved = inv.reserved;
      tiles =
          subst (λ e. Tiles (carve size m).headers e m.heap_start (blocks ++ m.heap_brk ∷ []))
            end_new
            (Tiles-snoc (carve size m).headers m.heap_brk m.heap_start blocks (
              Tiles-frame m.headers (carve size m).headers m.heap_brk m.heap_start blocks inv.tiles
                (λ p h. ground (arith, brk_new))));
      chain =
          Chain-frame (next_of m) (next_of (carve size m)) m.free_list free inv.chain
            (λ a h. ground (arith, brk_not_free));
      distinct = inv.distinct;
      carved = λ p h. ground (arith, inv.carved p h, has-append p blocks (m.heap_brk ∷ []));
      magic =
          λ p h. ground (arith, inv.magic p, has-append p blocks (m.heap_brk ∷ []), brk_not_free);
      small = λ p h. ground (arith, inv.small p, has-append p blocks (m.heap_brk ∷ []));
    }

    pub carve-Given : Given size m (carve size m) blocks free m.heap_brk
    carve-Given = record {
      blocks' = blocks ++ m.heap_brk ∷ [];
      free' = free;
      heap = carve-IsHeap;
      shorter = omega arith;
      pages = refl;
      room = ground arith;
      held = λ p. ground (arith, has-append p blocks (m.heap_brk ∷ []), brk_not_free);
      fresh = ground (arith, brk_new);
      same = λ p h. ground (arith, brk_new);
      apart = λ p h.
          apart_of m.heap_brk p carve-IsHeap
            (ground (arith, has-append m.heap_brk blocks (m.heap_brk ∷ [])))
            (ground (arith, has-append p blocks (m.heap_brk ∷ []))) (ground (arith, brk_new));
    }
