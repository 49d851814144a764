-- ===== src/Fs/Write.antt =====
-- fs_write once its file is found: what it leaves, and what fs_read finds.
use rpi4_bare_metal_os.Prelude.{
  ℕ, ◌+◌, ◌/◌, ◌≤◌, ◌<◌, ◌≡◌, refl, ◌∙◌, ◌≢◌, ◌⊎◌, inl, inr, true, false, Option, none, some, List,
  ◌==◌, min, update, take, if◌then◌else◌, length, arith, Bool-cases,
}
use native.Mathlib.Decide.{dec_lt, ℕ_discrete}
use rpi4_bare_metal_os.Memory.Pages.{page_size}
use rpi4_bare_metal_os.Memory.Heap.{MemoryState, kmalloc}
use rpi4_bare_metal_os.Memory.Heap.Invariant.{IsHeap}
use rpi4_bare_metal_os.Memory.Heap.Alloc.{kmalloc_small, kmalloc_large}
use rpi4_bare_metal_os.Fs.{FsState, fs_max_data, is_dir, put_node, free_data}
use rpi4_bare_metal_os.Fs.Find.{sibling_of}
use rpi4_bare_metal_os.Fs.Tree.{IsNode, IsTree, IsTree-frame}
use rpi4_bare_metal_os.Fs.Api.{store, drop_content, write_node, read_node}

-- The bytes of a file with these contents, and how many they are; no buffer without a byte.
abbrev pub stored : List ℕ → Option (List ℕ × ℕ)
stored content =
    let len : ℕ = min (length content) fs_max_data in
    if len == 0 then none else some (take len content, len)

-- A state that differs in the buffer and the size of one file, in the memory and in the contents.
pub record Filled (file : ℕ) (fs fs' : FsState) : Type 0 where
  pub same : (fs'.nodes_used ≡ fs.nodes_used) × (fs'.root ≡ fs.root) × (fs'.cwd ≡ fs.cwd)
  pub links :
      (p : ℕ)
      → ((fs'.node_pool p).kind ≡ (fs.node_pool p).kind)
        × ((fs'.node_pool p).parent ≡ (fs.node_pool p).parent)
        × ((fs'.node_pool p).children ≡ (fs.node_pool p).children)
        × (sibling_of fs' p ≡ sibling_of fs p)
        × ((fs'.node_pool p).name ≡ (fs.node_pool p).name)
  pub others : (p : ℕ) → p ≢ file → fs'.node_pool p ≡ fs.node_pool p

pub Filled-IsTree :
    {fs fs' : FsState} {kids : ℕ → List ℕ} (file : ℕ)
    → IsTree fs kids
    → Filled file fs fs'
    → IsTree fs' kids
Filled-IsTree {fs} {fs'} file t f =
    IsTree-frame fs' t (f.same.0, f.same.1) (λ p. ground (arith, f.links p))
      (ground (arith, f.same, f.links fs.cwd, t.cwd))

pub drop_content-Filled :
    (file : ℕ) (fs : FsState)
    → Filled file fs (drop_content file fs) × (((drop_content file fs).node_pool file).buffer ≡ 0)
unfolding drop_content free_data
drop_content-Filled file fs = elim (Bool-cases ((fs.node_pool file).buffer == 0)) [
  | inl none_there ↦ rw none_there (
    record {
      same = (refl, refl, refl);
      links = λ p. (refl, refl, refl, refl, refl);
      others = λ p ne. refl;
    },
    ground arith,
  )
  | inr there ↦ rw there (
    record { same = (refl, refl, refl); links = λ p. ground arith; others = λ p ne. ground arith },
    ground arith,
  )
]

kmalloc_returns :
    {m : MemoryState} {blocks free : List ℕ} (fuel size : ℕ)
    → IsHeap m blocks free
    → 0 < size
    → size ≤ fs_max_data + 1
    → length free < fuel
    → (r : MemoryState × ℕ) × (kmalloc fuel size m ≡ some r)
kmalloc_returns fuel size heap pos small enough = elim (dec_lt (page_size / 2) size) [
  | yes large ↦
      let (r, done, size_ok, answer) = kmalloc_large fuel size heap large (omega arith) in (r, done)
  | no fits ↦
      let (r, done, answer) = kmalloc_small fuel size heap pos (omega arith) enough in (r, done)
]

-- There are bytes to store, and kmalloc has no buffer for them and a NUL.
abbrev pub NoMemory : (fuel : ℕ) → List ℕ → MemoryState → Type 0
NoMemory fuel content m =
    (min (length content) fs_max_data ≢ 0)
    × ((m' : MemoryState) × (kmalloc fuel (min (length content) fs_max_data + 1) m ≡ some (m', 0)))

-- How a write ends: with the contents, or without any where kmalloc answers NULL.
abbrev pub Writes : (fuel file : ℕ) → List ℕ → FsState → Option (FsState × ℕ) → Type 0
Writes fuel file content fs r =
    (fs' : FsState) × (node : ℕ) × (r ≡ some (fs', node))
    × Filled file fs fs'
    × (((node ≡ file) × (read_node file fs' ≡ stored content))
        ⊎ ((node ≡ 0) × (read_node file fs' ≡ none) × NoMemory fuel content fs.memory))

pub Filled-refl : (file : ℕ) (fs : FsState) → Filled file fs fs
Filled-refl file fs = record {
  same = (refl, refl, refl);
  links = λ p. (refl, refl, refl, refl, refl);
  others = λ p ne. refl;
}

-- The state with the contents in the block at `ptr`.
abbrev pub filled : (file : ℕ) → (content : List ℕ) → FsState → MemoryState → (ptr : ℕ) → FsState
filled file content fs m ptr =
    record (put_node fs file
      (record (fs.node_pool file) { buffer = ptr; size = min (length content) fs_max_data })) {
        memory = m;
        contents = update fs.contents ptr (take (min (length content) fs_max_data) content);
      }

pub filled-Filled :
    (file : ℕ) (content : List ℕ) (fs : FsState) (m : MemoryState) (ptr : ℕ)
    → Filled file fs (filled file content fs m ptr)
filled-Filled file content fs m ptr = record {
  same = (refl, refl, refl);
  links = λ p. ground arith;
  others = λ p ne. ground arith;
}

module _ (fuel file : ℕ) (content : List ℕ) (fs : FsState) (there : file ≢ 0)
    (kind : is_dir (fs.node_pool file).kind ≡ false) (bare : (fs.node_pool file).buffer ≡ 0) where
  read_bare : (fs' : FsState) → fs'.node_pool file ≡ fs.node_pool file → read_node file fs' ≡ none
  unfolding read_node
  read_bare fs' same = ground arith

  store_failed :
      (m : MemoryState)
      → (min (length content) fs_max_data == 0) ≡ false
      → kmalloc fuel (min (length content) fs_max_data + 1) fs.memory ≡ some (m, 0)
      → Writes fuel file content fs (store fuel file content fs)
  unfolding store
  store_failed m some_bytes done =
      rw (some_bytes, done)
        (
          record fs { memory = m },
          0,
          refl,
          record {
            same = (refl, refl, refl);
            links = λ p. (refl, refl, refl, refl, refl);
            others = λ p ne. refl;
          },
          inr (
            refl,
            read_bare (record fs { memory = m }) refl,
            (ground (arith, some_bytes), (m, refl)),
          ),
        )

  read_filled :
      (m : MemoryState) (ptr : ℕ)
      → ptr ≢ 0
      → read_node file (filled file content fs m ptr)
        ≡ some (take (min (length content) fs_max_data) content, min (length content) fs_max_data)
  unfolding read_node
  read_filled m ptr got =
      let here : (file == file) ≡ true = ground arith in
      let here' : (ptr == ptr) ≡ true = ground arith in
      let there' : (file == 0) ≡ false = ground arith in
      let got' : (ptr == 0) ≡ false = ground arith in rw (here, there', kind, got', here') refl

  store_done :
      (m : MemoryState) (ptr : ℕ)
      → (min (length content) fs_max_data == 0) ≡ false
      → kmalloc fuel (min (length content) fs_max_data + 1) fs.memory ≡ some (m, ptr)
      → ptr ≢ 0
      → Writes fuel file content fs (store fuel file content fs)
  unfolding store
  store_done m ptr some_bytes done got =
      let got' : (ptr == 0) ≡ false = ground arith in
      rw (some_bytes, done, got')
        (
          filled file content fs m ptr,
          file,
          refl,
          filled-Filled file content fs m ptr,
          inl (refl, read_filled m ptr got),
        )

  store-Writes :
      {blocks free : List ℕ}
      → IsHeap fs.memory blocks free
      → length free < fuel
      → Writes fuel file content fs (store fuel file content fs)
  unfolding store
  store-Writes heap enough = elim (Bool-cases (min (length content) fs_max_data == 0)) [
    | inl empty ↦ rw empty (fs, file, refl, Filled-refl file fs, inl (refl, read_bare fs refl))
    | inr some_bytes ↦
        let ((m, ptr), done) =
          kmalloc_returns fuel (min (length content) fs_max_data + 1) heap (omega arith)
            (omega arith) enough in
        elim (ℕ_discrete ptr 0) [
          | yes null ↦ store_failed m some_bytes (cc (done, null))
          | no got ↦ store_done m ptr some_bytes done got
        ]
  ]

pub Filled-trans :
    {fs fs' fs'' : FsState} (file : ℕ)
    → Filled file fs fs'
    → Filled file fs' fs''
    → Filled file fs fs''
Filled-trans file f g = record {
  same = (g.same.0 ∙ f.same.0, g.same.1 ∙ f.same.1, g.same.2 ∙ f.same.2);
  links = λ p. ground (arith, f.links p, g.links p);
  others = λ p ne. g.others p ne ∙ f.others p ne;
}

-- For a file of a well-formed tree, once what it held is freed and if the heap is then well-formed and
-- the fuel exceeds its free list, fs_write ends, and fs_read then finds the first 4096 bytes of the
-- contents, or nothing for no bytes; or there are bytes to store but kmalloc answers NULL for them and
-- a NUL, the answer is NULL, and the file is empty.
-- The tree is kept, and of the nodes
-- only this one changes, in its buffer and its size.
pub write_node-Writes :
    {fs : FsState} {kids : ℕ → List ℕ} {blocks free : List ℕ} (fuel file : ℕ) (content : List ℕ)
    → IsTree fs kids
    → IsNode fs file
    → is_dir (fs.node_pool file).kind ≡ false
    → IsHeap (drop_content file fs).memory blocks free
    → length free < fuel
    → (fs' : FsState) × (node : ℕ) × (write_node fuel file content fs ≡ some (fs', node))
      × Filled file fs fs'
      × IsTree fs' kids
      × (((node ≡ file) × (read_node file fs' ≡ stored content))
          ⊎ ((node ≡ 0)
              × (read_node file fs' ≡ none)
              × NoMemory fuel content (drop_content file fs).memory))
unfolding write_node
write_node-Writes {fs} fuel file content t is kind heap enough =
    let there : (file == 0) ≡ false = ground arith in
    let (dropped, bare) = drop_content-Filled file fs in
    let (fs', node, done, f, answer) =
      store-Writes fuel file content (drop_content file fs) (omega arith)
        (ground (arith, dropped.links file)) bare heap enough in
    let whole = Filled-trans file dropped f in
    (fs', node, rw (there, kind) done, whole, Filled-IsTree file t whole, answer)
