-- ===== src/Fs/Find.antt =====
-- find_child on a directory whose children are a list.
use rpi4_bare_metal_os.Prelude.{
  ℕ, zero, suc, ◌<◌, ◌≡◌, ◌≢◌, inl, inr, refl, Bool, true, false, some, List, [], ◌∷◌, ◌==◌, length,
  arith, Bool-cases,
}
use rpi4_bare_metal_os.Links.{Chain}
use rpi4_bare_metal_os.Links.Search.{first_of}
use rpi4_bare_metal_os.Text.{str_eq}
use rpi4_bare_metal_os.Fs.{FsState, is_dir, sibling_fuel, find_loop, find_child}

abbrev pub sibling_of : FsState → ℕ → ℕ
sibling_of fs p = (fs.node_pool p).next_sibling

abbrev pub named : List ℕ → FsState → ℕ → Bool
named name fs p = str_eq (fs.node_pool p).name name

find_loop-first :
    (fuel : ℕ) (name : List ℕ) (node : ℕ) (fs : FsState) (kids : List ℕ)
    → Chain (sibling_of fs) node kids
    → length kids < fuel
    → find_loop fuel name node fs ≡ some (first_of (named name fs) kids)
unfolding find_loop
find_loop-first zero name node fs kids c enough = absurd (omega arith)
find_loop-first (suc fuel) name node fs [] c enough = rw c refl
find_loop-first (suc fuel) name node fs (x ∷ xs) c enough =
    let there : (node == 0) ≡ false = ground arith in
    elim (Bool-cases (named name fs x)) [
      | inl same ↦ ground arith
      | inr other ↦ ground (arith, find_loop-first fuel name (sibling_of fs x) fs xs)
    ]

-- find_child of a directory with at most 64 children answers the first child of that name, or NULL
-- where none has it; it ends within its fuel.
pub find_child-first :
    (fs : FsState) (dir : ℕ) (kids : List ℕ) (name : List ℕ)
    → dir ≢ 0
    → is_dir (fs.node_pool dir).kind ≡ true
    → Chain (sibling_of fs) (fs.node_pool dir).children kids
    → length kids < sibling_fuel
    → find_child dir name fs ≡ some (first_of (named name fs) kids)
unfolding find_child
find_child-first fs dir kids name there dir_ok c enough =
    let there' : (dir == 0) ≡ false = ground arith in
    rw (there', dir_ok)
      (find_loop-first sibling_fuel name (fs.node_pool dir).children fs kids c enough)
