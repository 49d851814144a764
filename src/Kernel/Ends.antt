-- ===== src/Kernel/Ends.antt =====
-- What the commands of src/kernel.c call returns.
use rpi4_bare_metal_os.Prelude.{
  ℕ, zero, suc, ◌+◌, ◌/◌, ◌^◌, ◌%◌, ◌<◌, ◌≡◌, refl, inl, inr, ◌⊎◌, Bool, true, false, Option, some,
  List, [], ◌∷◌, ◌==◌, ltb, length, arith, Bool-cases, ◌>>=◌,
}
use rpi4_bare_metal_os.Links.{Chain}
use rpi4_bare_metal_os.Memory.Pages.{page_size}
use rpi4_bare_metal_os.Memory.Heap.{
  MemoryState, header_size, align16, walk, Walked, fit, no_fit, out_of_fuel, after_walk, kmalloc,
}
use rpi4_bare_metal_os.Memory.Heap.Walk.{Found, walk-Found}
use rpi4_bare_metal_os.Memory.Heap.Invariant.{IsHeap}
use rpi4_bare_metal_os.Fs.{FsState, is_dir, sibling_fuel}
use rpi4_bare_metal_os.Fs.Find.{sibling_of}
use rpi4_bare_metal_os.Fs.Tree.{IsTree, length-kids}
use rpi4_bare_metal_os.Fs.Resolve.{IsLinked, fs_resolve-Lands}
use rpi4_bare_metal_os.Fs.Api.{fs_mkdir, fs_touch}
use rpi4_bare_metal_os.Fs.Ls.{ls_loop, ls_node, fs_ls}
use rpi4_bare_metal_os.Fs.Whole.{fs_mkdir-MkdirKeeps}
use rpi4_bare_metal_os.Fs.Calls.{Removes, fs_touch-Touches}

-- There is an answer.
abbrev pub Ends : {A : Type 0} → Option A → Type 0
Ends {A} o = (a : A) × (o ≡ some a)

pub bind-Ends :
    {A B : Type 0} (o : Option A) (f : A → Option B)
    → Ends o
    → ((a : A) → Ends (f a))
    → Ends (o >>= f)
bind-Ends o f (a, e) each = rw e (each a)

after_walk-Ends :
    (m : MemoryState) (size total : ℕ) (w : Walked) (xs : List ℕ)
    → Found m size 0 xs w
    → Ends (after_walk size total m w)
unfolding after_walk
after_walk-Ends m size total (fit m' blk) xs f = (_, refl)
after_walk-Ends m size total no_fit xs f = (_, refl)
after_walk-Ends m size total out_of_fuel xs f = absurd f

-- For any size.
pub kmalloc-Ends :
    {m : MemoryState} {blocks free : List ℕ} (fuel size : ℕ)
    → IsHeap m blocks free
    → length free < fuel
    → Ends (kmalloc fuel size m)
unfolding kmalloc
kmalloc-Ends {m} {blocks} {free} fuel size inv enough = elim (Bool-cases (size == 0)) [
  | inl none_asked ↦ rw none_asked (_, refl)
  | inr some_asked ↦ elim (Bool-cases (ltb (page_size / 2) (align16 size))) [
    | inl large ↦ rw (some_asked, large) (_, refl)
    | inr small ↦
        rw (some_asked, small)
          (after_walk-Ends m (align16 size) ((align16 size + header_size) % 2 ^ 64)
            (walk fuel (align16 size) 0 m.free_list m) free
            (walk-Found m (align16 size) fuel 0 m.free_list free inv.chain enough))
  ]
]

module _ (fs : FsState) where
  ls_loop-Ends :
      (fuel child : ℕ) (xs : List ℕ)
      → Chain (sibling_of fs) child xs
      → length xs < fuel
      → Ends (ls_loop fuel child fs)
  unfolding ls_loop
  ls_loop-Ends zero child xs c enough = absurd (omega arith)
  ls_loop-Ends (suc fuel) child [] c enough =
      let null : (child == 0) ≡ true = ground arith in rw (null, ls_loop) (_, refl)
  ls_loop-Ends (suc fuel) child (x ∷ xs) c enough =
      let there : (child == 0) ≡ false = ground arith in
      let next : Chain (sibling_of fs) (fs.node_pool child).next_sibling xs = rw c.0 c.2 in
      let (later, e) = ls_loop-Ends fuel (fs.node_pool child).next_sibling xs next (omega arith) in
      rw (there, ls_loop, e) (_, refl)

module _ {fs : FsState} {kids : ℕ → List ℕ} (t : IsTree fs kids) where
  ls_node-Ends : (dir : ℕ) → (dir ≡ 0) ⊎ IsLinked fs dir → Ends (ls_node dir fs)
  unfolding ls_node
  ls_node-Ends dir (inl null) = let null' : (dir == 0) ≡ true = ground arith in rw null' (_, refl)
  ls_node-Ends dir (inr is) =
      let there : (dir == 0) ≡ false = ground (arith, is.0) in
      elim (Bool-cases (is_dir (fs.node_pool dir).kind)) [
        | inr file ↦ rw (there, file) (_, refl)
        | inl directory ↦ elim (Bool-cases ((fs.node_pool dir).children == 0)) [
          | inl empty ↦ rw (there, directory, empty) (_, refl)
          | inr filled ↦
              rw (there, directory, filled)
                (ls_loop-Ends fs sibling_fuel (fs.node_pool dir).children (kids dir)
                  (t.chain dir is.0) (length-kids dir t is.0))
        ]
      ]

  pub fs_ls-Ends : (path : List ℕ) → Ends (fs_ls path fs)
  unfolding fs_ls
  fs_ls-Ends path = elim (Bool-cases (length path == 0)) [
    | inl here ↦ rw here (ls_node-Ends fs.cwd (inr (t.cwd.0, t.cwd.2)))
    | inr named ↦
        let (node, found, lands) = fs_resolve-Lands t path in
        rw (named, found) (ls_node-Ends node lands)
  ]

  pub Removes-Ends :
      (path : List ℕ) (kind : Bool) (r : Option (FsState × Bool)) → Removes t path kind r → Ends r
  Removes-Ends path kind r (inl done) = (_, done)
  Removes-Ends path kind r (inr (node, fs', found, done, is, gone)) = (_, done)

  pub fs_mkdir-Ends : (path : List ℕ) → Ends (fs_mkdir path fs)
  fs_mkdir-Ends path =
      let (parent, name, resolved, answer) = fs_mkdir-MkdirKeeps t path in
      elim answer [ inl (done, why) ↦ (_, done) | inr (fs', node, done, made, found) ↦ (_, done) ]

  pub fs_touch-Ends : (path : List ℕ) → Ends (fs_touch path fs)
  fs_touch-Ends path = elim (fs_touch-Touches t path) [
    | inl (node, found, is, done) ↦ (_, done)
    | inr (found, (parent, name, made, resolved, done, answer)) ↦ (_, done)
  ]
