-- ===== src/Kernel/Demo.antt =====
-- The demo tasks of src/kernel.c. The memory that the buffers lie in is a byte by address.
use rpi4_bare_metal_os.Prelude.{
  ℕ, zero, suc, ◌+◌, ◌%◌, ◌||◌, Option, none, some, List, [], ◌∷◌, ◌==◌, if◌then◌else◌, update,
  ◌>>=◌,
}
use rpi4_bare_metal_os.Uart.Print.{Print, putc, put_dec, say}
use rpi4_bare_metal_os.Memory.Pages.{page_alloc, page_free, memory_get_free_pages}
use rpi4_bare_metal_os.Memory.Heap.{MemoryState, kmalloc, kfree}

-- What a task does in turn: output, and `task_sleep` for so many milliseconds.
pub data Action : Type 0 where
  print : List Print → Action
  sleep : ℕ → Action

-- The loop of task_counter, with `n` rounds to go.
unfoldable pub count_from : (n i : ℕ) → List Action
count_from zero i = print (say "[counter] finished\n" ∷ []) ∷ []
count_from (suc n) i =
    print (say "[counter] " ∷ put_dec i ∷ say "/5\n" ∷ []) ∷ sleep 1000 ∷ count_from n (i + 1)

unfoldable pub task_counter : List Action
task_counter = count_from 5 1

-- `spin[i]`
abbrev spin : ℕ → ℕ
spin i = if i == 0 then b'|' else (if i == 1 then b'/' else (if i == 2 then b'-' else b'\\'))

-- The loop of task_spinner, with `n` rounds to go.
unfoldable pub spin_from : (n i : ℕ) → List Action
spin_from zero i = print (say "[spinner] finished\n" ∷ []) ∷ []
spin_from (suc n) i =
    print (say "[spinner] " ∷ putc (spin (i % 4)) ∷ say "\n" ∷ []) ∷ sleep 500 ∷ spin_from n (i + 1)

unfoldable pub task_spinner : List Action
task_spinner = spin_from 20 0

abbrev pub Bytes : Type 0
Bytes = ℕ → ℕ

-- `for (i = 0; i < n; i++) p[i] = byte;`
unfoldable pub fill_bytes : (byte n p : ℕ) → Bytes → Bytes
fill_bytes byte zero p bytes = bytes
fill_bytes byte (suc n) p bytes = fill_bytes byte n (p + 1) (update bytes p byte)

-- Where task_memtest stands when it sleeps, with its three buffers, or when it ends without them.
pub record MemtestState : Type 0 where
  pub memory : MemoryState
  pub bytes : Bytes
  pub buffers : Option (ℕ × ℕ × ℕ)
  pub prints : List Print

-- `[memtest] Done. Free: … pages`
abbrev report : MemoryState → List Print
report m =
    say "[memtest] Done. Free: " ∷ put_dec (memory_get_free_pages m.pages) ∷ say " pages\n" ∷ []

-- Up to the sleep; without all the buffers, to the end.
unfoldable pub memtest_start : (fuel : ℕ) → MemoryState → Bytes → Option MemtestState
memtest_start fuel m bytes = do
  a ← kmalloc fuel 64 m
  b ← kmalloc fuel 256 a.0
  c ← kmalloc fuel 1024 b.0
  some (
      if a.1 == 0 || b.1 == 0 || c.1 == 0
      then record {
        memory = c.0;
        bytes = bytes;
        buffers = none;
        prints =
            say "[memtest] Allocating buffers...\n"
            ∷ say "[memtest] Allocation failed!\n"
            ∷ report c.0;
      }
      else (let bytes' : Bytes =
            fill_bytes b'C' 1024 c.1 (fill_bytes b'B' 256 b.1 (fill_bytes b'A' 64 a.1 bytes)) in
          record {
            memory = c.0;
            bytes = bytes';
            buffers = some (a.1, b.1, c.1);
            prints =
                say "[memtest] Allocating buffers...\n"
                ∷ say "[memtest] Verifying: "
                ∷ putc (bytes' a.1)
                ∷ putc (bytes' b.1)
                ∷ putc (bytes' c.1)
                ∷ say " (expect ABC)\n"
                ∷ [];
          }))

-- After the sleep: the buffers are freed and a page is written.
unfoldable pub memtest_end : (ℕ × ℕ × ℕ) → MemoryState → Bytes → (MemoryState × Bytes) × List Print
memtest_end (a, b, c) m bytes =
    let m' : MemoryState = kfree c (kfree b (kfree a m)) in
    let (pages, page) = page_alloc m'.pages in
    let m'' : MemoryState = record m' { pages = pages } in
    let freed : MemoryState = record m' { pages = page_free page pages } in
    if page == 0
    then ((m'', bytes), report m'')
    else ((freed, fill_bytes b'X' 4096 page bytes), say "[memtest] Page write OK\n" ∷ report freed)
