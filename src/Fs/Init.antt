-- ===== src/Fs/Init.antt =====
-- fs_init makes a tree of the root alone.
use rpi4_bare_metal_os.Prelude.{◌≡◌, refl, [], arith}
use rpi4_bare_metal_os.Fs.{FsState, alloc_node}
use rpi4_bare_metal_os.Fs.Tree.{IsTree}
use rpi4_bare_metal_os.Fs.Api.{fs_init}

-- After fs_init the filesystem is a tree of one node, the root, which is the current directory.
pub fs_init-IsTree :
    (fs : FsState)
    → IsTree (fs_init fs) (λ p. [])
      × ((fs_init fs).nodes_used ≡ 1)
      × ((fs_init fs).cwd ≡ (fs_init fs).root)
unfolding fs_init alloc_node
fs_init-IsTree fs = (
  record {
    used = omega arith;
    chain = λ p is. ground arith;
    distinct = λ p is. tt;
    below = λ p q is h. cc;
    root = ground arith;
    cwd = ground arith;
    parent = λ q is ne. ground arith;
    up = λ q is ne. ground arith;
    attached = λ q is ne linked. ground arith;
  },
  refl,
  refl,
)
