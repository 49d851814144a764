-- ===== src/Fs/Treed.antt =====
-- Every call of src/drivers/fs.c that changes the directories, and the tree.
use rpi4_bare_metal_os.Prelude.{
  ℕ, ◌+◌, ◌≡◌, refl, sym, ap, subst, inl, inr, Bool, some, List, ◌==◌, min, Bool-cases, All,
  all_some, All-if, All-bind, All-then, All-at, All-of, if◌then◌else◌, length, ◌||◌,
}
use rpi4_bare_metal_os.Memory.Heap.{MemoryState, kmalloc}
use rpi4_bare_metal_os.Fs.{FsState, fs_max_data, is_dir}
use rpi4_bare_metal_os.Fs.Tree.{IsTree, IsTree-frame}
use rpi4_bare_metal_os.Fs.Path.{fs_resolve}
use rpi4_bare_metal_os.Fs.Resolve.{fs_resolve-Lands}
use rpi4_bare_metal_os.Fs.Whole.{fs_mkdir-MkdirKeeps}
use rpi4_bare_metal_os.Fs.Calls.{
  fs_set_cwd-IsTree, fs_rm-Removes, fs_rmdir-Removes, fs_touch-Touches,
}
use rpi4_bare_metal_os.Fs.Write.{
  Filled, Filled-IsTree, Filled-refl, Filled-trans, filled, filled-Filled, drop_content-Filled,
}
use rpi4_bare_metal_os.Fs.Api.{
  fs_set_cwd, fs_mkdir, fs_rm, fs_rmdir, fs_touch, fs_write, write_node, store, drop_content,
}

-- The directories are a tree.
abbrev pub Treed : FsState → Type 0
Treed fs = (kids : ℕ → List ℕ) × IsTree fs kids

-- The memory is no part of it.
pub Treed-memory : {fs : FsState} (m : MemoryState) → Treed fs → Treed (record fs { memory = m })
Treed-memory {fs} m (kids, t) = (
  kids,
  IsTree-frame (record fs { memory = m }) t (refl, refl) (λ p. (refl, refl, refl, refl)) t.cwd,
)

module _ {fs : FsState} where
  pub fs_mkdir-Treed :
      (path : List ℕ) (r : FsState × ℕ) → fs_mkdir path fs ≡ some r → Treed fs → Treed r.0
  fs_mkdir-Treed path r h (kids, t) =
      let (parent, name, resolved, answer) = fs_mkdir-MkdirKeeps t path in
      elim answer [
        | inl (done, why) ↦ let same : fs ≡ r.0 = cc (done, h) in subst Treed same (kids, t)
        | inr (fs', node, done, (is, directory, made), found) ↦
            let same : fs' ≡ r.0 = cc (done, h) in subst Treed same (_, made.tree)
      ]

  pub fs_rm-Treed :
      (path : List ℕ) (r : FsState × Bool) → fs_rm path fs ≡ some r → Treed fs → Treed r.0
  fs_rm-Treed path r h (kids, t) = elim (fs_rm-Removes t path) [
    | inl done ↦ let same : fs ≡ r.0 = cc (done, h) in subst Treed same (kids, t)
    | inr (node, fs', found, done, kind, gone) ↦
        let same : fs' ≡ r.0 = cc (done, h) in subst Treed same (_, gone.tree)
  ]

  pub fs_rmdir-Treed :
      (path : List ℕ) (r : FsState × Bool) → fs_rmdir path fs ≡ some r → Treed fs → Treed r.0
  fs_rmdir-Treed path r h (kids, t) = elim (fs_rmdir-Removes t path) [
    | inl done ↦ let same : fs ≡ r.0 = cc (done, h) in subst Treed same (kids, t)
    | inr (node, fs', found, done, kind, gone) ↦
        let same : fs' ≡ r.0 = cc (done, h) in subst Treed same (_, gone.tree)
  ]

  pub fs_touch-Treed :
      (path : List ℕ) (r : FsState × ℕ) → fs_touch path fs ≡ some r → Treed fs → Treed r.0
  fs_touch-Treed path r h (kids, t) = elim (fs_touch-Touches t path) [
    | inl (node, found, is, done) ↦ let same : fs ≡ r.0 = cc (done, h) in subst Treed same (kids, t)
    | inr (found, (parent, name, made, resolved, done, answer)) ↦
        let same : made.0 ≡ r.0 = cc (done, h) in
        subst Treed same (elim answer [
          | inl (none_made, why) ↦ subst Treed (ap (λ s. s.0) (sym none_made)) (kids, t)
          | inr (fs', node, new, (is, directory, there)) ↦
              subst Treed (ap (λ s. s.0) (sym new)) (_, there.tree)
        ])
  ]

  -- The current directory, at the root or where a path leads.
  pub fs_set_cwd-Treed :
      (path : List ℕ) (dir : ℕ)
      → fs_resolve path fs ≡ some dir
      → Treed fs
      → Treed (fs_set_cwd dir fs)
  fs_set_cwd-Treed path dir h (kids, t) =
      let (node, found, lands) = fs_resolve-Lands t path in
      let same : node ≡ dir = cc (found, h) in
      subst (λ d. Treed (fs_set_cwd d fs)) same (kids, fs_set_cwd-IsTree t node lands)

-- What fs_write does to the file that it found or made.
module _ (fuel file : ℕ) (content : List ℕ) where
  stored-Filled :
      (fs : FsState) (r : MemoryState × ℕ)
      → All
          (λ (q : FsState × ℕ). Filled file fs q.0)
          (some (
            if r.1 == 0
            then (record fs { memory = r.0 }, 0)
            else (filled file content fs r.0 r.1, file)))
  stored-Filled fs r = elim (Bool-cases (r.1 == 0)) [
    | inl null ↦ rw null (
        all_some (record {
          same = (refl, refl, refl);
          links = λ p. (refl, refl, refl, refl, refl);
          others = λ p ne. refl;
        }))
    | inr got ↦ rw got (all_some (filled-Filled file content fs r.0 r.1))
  ]

  store-Filled :
      (fs : FsState) → All (λ (r : FsState × ℕ). Filled file fs r.0) (store fuel file content fs)
  unfolding store
  store-Filled fs =
      let P = λ (r : FsState × ℕ). Filled file fs r.0 in
      let len : ℕ = min (length content) fs_max_data in
      All-if P (len == 0) (all_some (Filled-refl file fs))
        (All-bind P (kmalloc fuel (len + 1) fs.memory) (stored-Filled fs))

  write_node-Filled :
      (fs : FsState)
      → All (λ (r : FsState × ℕ). Filled file fs r.0) (write_node fuel file content fs)
  unfolding write_node
  write_node-Filled fs =
      let P = λ (r : FsState × ℕ). Filled file fs r.0 in
      All-if P (file == 0 || is_dir (fs.node_pool file).kind) (all_some (Filled-refl file fs)) (
        All-of P (store fuel file content (drop_content file fs)) (λ r h.
          Filled-trans file (drop_content-Filled file fs).0 (
            All-at (λ (r' : FsState × ℕ). Filled file (drop_content file fs) r'.0)
              (store fuel file content (drop_content file fs)) (store-Filled (drop_content file fs))
              r h)))

pub fs_write-Treed :
    {fs : FsState} (fuel : ℕ) (path content : List ℕ) (r : FsState × ℕ)
    → fs_write fuel path content fs ≡ some r
    → Treed fs
    → Treed r.0
unfolding fs_write
fs_write-Treed {fs} fuel path content r h (kids, t) =
    All-at P (fs_write fuel path content fs) written r h
  where
    P : FsState × ℕ → Type 0
    P r' = Treed r'.0

    touched :
        (existing : ℕ) → All P (if existing == 0 then fs_touch path fs else some (fs, existing))
    touched existing =
        All-if P (existing == 0)
          (All-of P (fs_touch path fs) (λ r' h'. fs_touch-Treed path r' h' (kids, t)))
          (all_some (kids, t))

    written : All P (fs_write fuel path content fs)
    written = All-bind P (fs_resolve path fs) (λ existing.
        All-then P P (if existing == 0 then fs_touch path fs else some (fs, existing))
          (All-at P (if existing == 0 then fs_touch path fs else some (fs, existing))
            (touched existing))
          (λ r' tree. All-of P (write_node fuel r'.1 content r'.0) (λ r'' h''. (
            tree.0,
            Filled-IsTree r'.1 tree.1 (
                All-at (λ (q : FsState × ℕ). Filled r'.1 r'.0 q.0)
                  (write_node fuel r'.1 content r'.0) (write_node-Filled fuel r'.1 content r'.0) r''
                  h''),
          ))))
