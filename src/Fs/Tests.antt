-- ===== src/Fs/Tests.antt =====
-- The filesystem after fs_init.
use rpi4_bare_metal_os.Prelude.{
  ◌≢◌, ◌⊎◌, none, false, ℕ, ◌<◌, ◌≡◌, refl, true, some, List, [], ◌∷◌, arith, length, ◌+◌,
}
use rpi4_bare_metal_os.Fs.{NodeType, fs_dir, fs_file, FsState, is_dir, alloc_node}
use rpi4_bare_metal_os.Fs.Api.{fs_init, fs_get_path}
use rpi4_bare_metal_os.Memory.Heap.{memory_init}
use rpi4_bare_metal_os.Memory.Heap.Invariant.{IsHeap}
use rpi4_bare_metal_os.Memory.Heap.Init.{memory_init-IsHeap}
use rpi4_bare_metal_os.Fs.{free_data}
use rpi4_bare_metal_os.Fs.Api.{fs_rm, fs_rmdir, fs_touch, drop_content, write_node, read_node}
use rpi4_bare_metal_os.Fs.Calls.{
  Removes, Touches, fs_rm-Removes, fs_rmdir-Removes, fs_touch-Touches,
}
use rpi4_bare_metal_os.Fs.Write.{NoMemory, Filled, stored, write_node-Writes}
use rpi4_bare_metal_os.Fs.Print.{length-fs_get_path}
use rpi4_bare_metal_os.Fs.Tree.{IsNode, IsTree}
use rpi4_bare_metal_os.Fs.Init.{fs_init-IsTree}
use rpi4_bare_metal_os.Fs.Make.{Made, with_kid, made, made-Made}
use rpi4_bare_metal_os.Fs.Resolve.{Lands, fs_resolve-Lands}
use rpi4_bare_metal_os.Fs.Path.{fs_resolve}

-- the static variables before fs_init
abbrev bss : FsState
bss = record {
  node_pool = λ p. record {
    name = [];
    kind = fs_file;
    parent = 0;
    children = 0;
    next_sibling = 0;
    buffer = 0;
    size = 0;
  };
  nodes_used = 0;
  root = 0;
  cwd = 0;
  memory = record {
    pages = record { bitmap = λ i. 0; first_free_page = 0; used_pages = 0 };
    headers = λ a. record { size = 0; magic = 0; next = 0; is_page_alloc = 0 };
    heap_start = 0;
    heap_end = 0;
    heap_brk = 0;
    free_list = 0;
  };
  contents = λ p. [];
}

abbrev mounted : FsState
mounted = fs_init (record bss { memory = memory_init true true bss.memory })

abbrev no_kids : ℕ → List ℕ
no_kids p = []

abbrev bin : List ℕ
bin = b'b' ∷ b'i' ∷ b'n' ∷ []

mounted-IsTree : IsTree mounted no_kids
mounted-IsTree = (fs_init-IsTree (record bss { memory = memory_init true true bss.memory })).0

root-IsNode : IsNode mounted 1
root-IsNode =
    omega (arith, (fs_init-IsTree (record bss { memory = memory_init true true bss.memory })).1)

root_dir : is_dir (mounted.node_pool 1).kind ≡ true
unfolding fs_init alloc_node
root_dir = refl

root_linked_ : (mounted.node_pool 1).parent ≢ 0
unfolding fs_init alloc_node
root_linked_ = omega arith

root_is : mounted.root ≡ 1
unfolding fs_init alloc_node
root_is = refl

length-fs_get_path_example : length (fs_get_path 1 128 mounted) < 128
length-fs_get_path_example = length-fs_get_path 1 128 mounted (omega arith)

-- The root with one node.
abbrev with_node : NodeType → FsState
with_node kind = made mounted-IsTree 1 bin kind root-IsNode root_dir root_linked_

abbrev node : ℕ
node = mounted.nodes_used + 1

with_node-Made : (kind : NodeType) → Made 1 bin kind mounted (with_node kind) no_kids node
with_node-Made kind =
    made-Made mounted-IsTree 1 bin kind root-IsNode root_dir root_linked_
      (omega (arith, (fs_init-IsTree (record bss { memory = memory_init true true bss.memory })).1))

abbrev listed : ℕ → List ℕ
listed = with_kid 1 node no_kids

fs_resolve-Lands_example : Lands mounted (fs_resolve (b'/' ∷ bin) mounted)
fs_resolve-Lands_example = fs_resolve-Lands mounted-IsTree (b'/' ∷ bin)

fs_rm-Removes_example :
    Removes
      (with_node-Made fs_file).tree
      (b'/' ∷ bin)
      false
      (fs_rm (b'/' ∷ bin) (with_node fs_file))
fs_rm-Removes_example = fs_rm-Removes (with_node-Made fs_file).tree (b'/' ∷ bin)

fs_rmdir-Removes_example :
    Removes
      (with_node-Made fs_dir).tree
      (b'/' ∷ bin)
      true
      (fs_rmdir (b'/' ∷ bin) (with_node fs_dir))
fs_rmdir-Removes_example = fs_rmdir-Removes (with_node-Made fs_dir).tree (b'/' ∷ bin)

fs_touch-Touches_example : Touches mounted-IsTree bin (fs_touch bin mounted)
fs_touch-Touches_example = fs_touch-Touches mounted-IsTree bin

heap-IsHeap : IsHeap (drop_content node (with_node fs_file)).memory [] []
unfolding drop_content free_data fs_init alloc_node
heap-IsHeap = (memory_init-IsHeap bss.memory).0

write_node-Writes_example :
    (fs' : FsState) × (node' : ℕ) × (write_node 5 node bin (with_node fs_file) ≡ some (fs', node'))
    × Filled node (with_node fs_file) fs'
    × IsTree fs' listed
    × (((node' ≡ node) × (read_node node fs' ≡ stored bin))
        ⊎ ((node' ≡ 0)
            × (read_node node fs' ≡ none)
            × NoMemory 5 bin (drop_content node (with_node fs_file)).memory))
write_node-Writes_example =
    write_node-Writes 5 node bin (with_node-Made fs_file).tree (omega arith)
      (ground (arith, (with_node-Made fs_file).node)) heap-IsHeap (omega arith)
