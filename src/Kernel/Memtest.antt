-- ===== src/Kernel/Memtest.antt =====
-- What task_memtest of src/kernel.c reads back from the buffers that it filled.
use rpi4_bare_metal_os.Prelude.{
  ℕ, zero, suc, ◌+◌, ◌≤◌, ◌<◌, ◌≡◌, ◌⊎◌, ◌&&◌, ◌||◌, inl, inr, refl, arith, length, ltb, leb, none,
  some, List, [], ◌∷◌, ◌==◌, if◌then◌else◌, false, Bool, update, Bool-cases,
}
use rpi4_bare_metal_os.Uart.Print.{Print, putc, say}
use rpi4_bare_metal_os.Memory.Heap.{MemoryState, kmalloc}
use rpi4_bare_metal_os.Memory.Heap.Invariant.{IsHeap}
use rpi4_bare_metal_os.Memory.Heap.Held.{Holds}
use rpi4_bare_metal_os.Memory.Heap.Answered.{IsNew, Answered, kmalloc-Answered}
use rpi4_bare_metal_os.Kernel.Demo.{Bytes, MemtestState, fill_bytes, memtest_start}

-- `a` is one of the `n` addresses from `p` on
abbrev within : (p n a : ℕ) → Bool
within p n a = leb p a && ltb a (p + n)

pub fill_bytes_lem :
    (byte n p : ℕ) (bytes : Bytes) (a : ℕ)
    → fill_bytes byte n p bytes a ≡ (if within p n a then byte else bytes a)
unfolding fill_bytes
fill_bytes_lem byte zero p bytes a = ground arith
fill_bytes_lem byte (suc n) p bytes a =
    ground (arith, fill_bytes_lem byte n (p + 1) (update bytes p byte) a)

-- the bytes of the three buffers
abbrev filled : (a b c : ℕ) → Bytes → Bytes
filled a b c bytes = fill_bytes b'C' 1024 c (fill_bytes b'B' 256 b (fill_bytes b'A' 64 a bytes))

abbrev abc : List Print
abc =
    say "[memtest] Allocating buffers...\n"
    ∷ say "[memtest] Verifying: "
    ∷ putc b'A'
    ∷ putc b'B'
    ∷ putc b'C'
    ∷ say " (expect ABC)\n"
    ∷ []

-- The buffers are held, and ABC was printed; what others held they still hold, with the bytes in it.
pub record Verified (m : MemoryState) (blocks free : List ℕ) (bytes : Bytes) (r : MemtestState)
    : Type 0 where
  pub buf1 : ℕ
  pub buf2 : ℕ
  pub buf3 : ℕ
  pub buffers : r.buffers ≡ some (buf1, buf2, buf3)
  pub prints : r.prints ≡ abc
  pub blocks' : List ℕ
  pub free' : List ℕ
  pub heap : IsHeap r.memory blocks' free'
  pub held1 : Holds r.memory blocks' free' buf1 64
  pub held2 : Holds r.memory blocks' free' buf2 256
  pub held3 : Holds r.memory blocks' free' buf3 1024
  pub kept : (q n : ℕ) → Holds m blocks free q n → Holds r.memory blocks' free' q n
  pub same : (q n a : ℕ) → Holds m blocks free q n → q ≤ a → a < q + n → r.bytes a ≡ bytes a

module _ {m m1 m2 m3 : MemoryState} {blocks free : List ℕ} {a b c : ℕ} (bytes : Bytes)
    (f1 : Answered 64 m blocks free (m1, a)) (f2 : Answered 256 m1 f1.blocks' f1.free' (m2, b))
    (f3 : Answered 1024 m2 f2.blocks' f2.free' (m3, c)) where
  -- What is held after the first buffer is held after the third.
  held_on : (q n : ℕ) → Holds m1 f1.blocks' f1.free' q n → Holds m3 f3.blocks' f3.free' q n
  held_on q n h = f3.kept q n (f2.kept q n h)

  filled_lem :
      (x : ℕ)
      → filled a b c bytes x ≡ (
          if within c 1024 x
          then b'C'
          else (if within b 256 x then b'B' else (if within a 64 x then b'A' else bytes x)))
  filled_lem x = ground (
    arith,
    fill_bytes_lem b'C' 1024 c (fill_bytes b'B' 256 b (fill_bytes b'A' 64 a bytes)) x,
    fill_bytes_lem b'B' 256 b (fill_bytes b'A' 64 a bytes) x,
    fill_bytes_lem b'A' 64 a bytes x,
  )

  module _ (n1 : IsNew 64 m m1 blocks free f1.blocks' f1.free' a)
      (n2 : IsNew 256 m1 m2 f1.blocks' f1.free' f2.blocks' f2.free' b)
      (n3 : IsNew 1024 m2 m3 f2.blocks' f2.free' f3.blocks' f3.free' c) where
    reads :
        (filled a b c bytes a ≡ b'A')
        × (filled a b c bytes b ≡ b'B')
        × (filled a b c bytes c ≡ b'C')
    reads = (
      ground (arith, filled_lem a, n2.1 a 64 n1.0, n3.1 a 64 (f2.kept a 64 n1.0)),
      ground (arith, filled_lem b, n3.1 b 256 n2.0),
      ground (arith, filled_lem c),
    )

    others :
        (q n x : ℕ) → Holds m blocks free q n → q ≤ x → x < q + n → filled a b c bytes x ≡ bytes x
    others q n x h lo hi = ground (
      arith,
      filled_lem x,
      n1.1 q n h,
      n2.1 q n (f1.kept q n h),
      n3.1 q n (f2.kept q n (f1.kept q n h)),
    )

    verified : Verified m blocks free bytes (record {
      memory = m3;
      bytes = filled a b c bytes;
      buffers = some (a, b, c);
      prints =
          say "[memtest] Allocating buffers...\n"
          ∷ say "[memtest] Verifying: "
          ∷ putc (filled a b c bytes a)
          ∷ putc (filled a b c bytes b)
          ∷ putc (filled a b c bytes c)
          ∷ say " (expect ABC)\n"
          ∷ [];
    })
    verified = record {
      buf1 = a;
      buf2 = b;
      buf3 = c;
      buffers = refl;
      prints = rw (reads.0, reads.1, reads.2) refl;
      blocks' = f3.blocks';
      free' = f3.free';
      heap = f3.heap;
      held1 = held_on a 64 n1.0;
      held2 = f3.kept b 256 n2.0;
      held3 = n3.0;
      kept = λ q n h. held_on q n (f1.kept q n h);
      same = λ q n x h lo hi. others q n x h lo hi;
    }

-- One of the three requests is answered with NULL.
abbrev pub SomeNull : (fuel : ℕ) → MemoryState → Type 0
SomeNull fuel m =
    (r1 : MemoryState × ℕ) × (r2 : MemoryState × ℕ) × (r3 : MemoryState × ℕ) × (kmalloc fuel 64 m
      ≡ some r1)
    × (kmalloc fuel 256 r1.0 ≡ some r2)
    × (kmalloc fuel 1024 r2.0 ≡ some r3)
    × ((r1.1 ≡ 0) ⊎ ((r2.1 ≡ 0) ⊎ (r3.1 ≡ 0)))

-- kmalloc answered NULL: no byte was written, and what others held they still hold.
pub record Failed (fuel : ℕ) (m : MemoryState) (blocks free : List ℕ) (bytes : Bytes)
    (r : MemtestState) : Type 0 where
  pub refused : SomeNull fuel m
  pub buffers : r.buffers ≡ none
  pub same : r.bytes ≡ bytes
  pub blocks' : List ℕ
  pub free' : List ℕ
  pub heap : IsHeap r.memory blocks' free'
  pub kept : (q n : ℕ) → Holds m blocks free q n → Holds r.memory blocks' free' q n

-- A pointer that is not NULL is new.
not_null :
    {size : ℕ} {m : MemoryState} {blocks free : List ℕ} {r : MemoryState × ℕ}
    → (f : Answered size m blocks free r) → (r.1 == 0) ≡ false
    → IsNew size m r.0 blocks free f.blocks' f.free' r.1
not_null f ne = elim f.answer [ inl new ↦ new | inr (null, same) ↦ absurd (ground (arith, null)) ]

-- From a well-formed heap, with more fuel than its free list is long, task_memtest reaches its sleep or
-- ends. It holds three buffers and has printed ABC, or it holds none where kmalloc answered NULL. In
-- both cases the heap is well-formed, and what others hold they still hold; in the first no byte of it
-- has changed, and in the second no byte at all.
pub memtest_start-Verified :
    {m : MemoryState} {blocks free : List ℕ} (fuel : ℕ) (bytes : Bytes)
    → IsHeap m blocks free
    → length free < fuel
    → (r : MemtestState) × (memtest_start fuel m bytes ≡ some r)
      × (Verified m blocks free bytes r ⊎ Failed fuel m blocks free bytes r)
unfolding memtest_start
memtest_start-Verified {m} {blocks} {free} fuel bytes inv enough =
    let (r1, e1, f1) = kmalloc-Answered fuel 64 inv (omega arith) (omega arith) enough in
    let (r2, e2, f2) =
      kmalloc-Answered fuel 256 f1.heap (omega arith) (omega arith) (omega (arith, f1.shorter)) in
    let (r3, e3, f3) =
      kmalloc-Answered fuel 1024 f2.heap (omega arith) (omega arith)
        (omega (arith, f1.shorter, f2.shorter)) in
    rw (e1, e2, e3)
      (elim (Bool-cases (r1.1 == 0 || r2.1 == 0 || r3.1 == 0)) [
        | inl null ↦ rw null (
          _,
          refl,
          inr (record {
            refused = (r1, r2, r3, e1, e2, e3, ground (arith, null));
            buffers = refl;
            same = refl;
            blocks' = f3.blocks';
            free' = f3.free';
            heap = f3.heap;
            kept = λ q n h. f3.kept q n (f2.kept q n (f1.kept q n h));
          }),
        )
        | inr all ↦ rw all (
          _,
          refl,
          inl (
              verified bytes f1 f2 f3 (not_null f1 (ground (arith, all)))
                (not_null f2 (ground (arith, all))) (not_null f3 (ground (arith, all)))),
        )
      ])
