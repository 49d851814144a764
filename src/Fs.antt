-- ===== src/Fs.antt =====
-- The filesystem in memory, src/drivers/fs.c. A pointer to a node is a number: 0 is NULL, and
-- `i + 1` is `&node_pool[i]`. Messages are left out.
pub mod Path
pub mod Api
pub mod Find
pub mod Print
pub mod Tree
pub mod Make
pub mod Mkdir
pub mod Init
pub mod Siblings
pub mod Remove
pub mod Rm
pub mod Resolve
pub mod Whole
pub mod Calls
pub mod Write
pub mod Treed
pub mod Ls
mod Tests
use rpi4_bare_metal_os.Prelude.{
  ℕ, zero, suc, ◌+◌, ◌-◌, ◌*◌, ◌/◌, ◌%◌, ◌^◌, min, Bool, true, false, ◌&&◌, ◌||◌, not, Option, none,
  some, List, [], ◌∷◌, ◌++◌, ltb, leb, ◌==◌, if◌then◌else◌, update, length, take, ◌>>=◌,
}
use rpi4_bare_metal_os.Text.{str_eq}
use rpi4_bare_metal_os.Memory.Heap.{MemoryState, kmalloc, kfree}

pub data NodeType : Type 0 where
  fs_file fs_dir : NodeType

-- `fs_node_t`; `buffer` is its field `data`, an address or 0.
pub record FsNode : Type 0 where
  pub name : List ℕ
  pub kind : NodeType
  pub parent : ℕ
  pub children : ℕ
  pub next_sibling : ℕ
  pub buffer : ℕ
  pub size : ℕ

-- `contents` is what stands at the address of a buffer.
pub record FsState : Type 0 where
  pub node_pool : ℕ → FsNode
  pub nodes_used : ℕ
  pub root : ℕ
  pub cwd : ℕ
  pub memory : MemoryState
  pub contents : ℕ → List ℕ

abbrev pub fs_name_max : ℕ
fs_name_max = 32

abbrev pub fs_max_nodes : ℕ
fs_max_nodes = 64

abbrev pub fs_max_data : ℕ
fs_max_data = 4096

-- A walk along siblings meets a node twice after this many steps.
abbrev pub sibling_fuel : ℕ
sibling_fuel = 65

abbrev pub is_dir : NodeType → Bool
is_dir fs_dir = true
is_dir fs_file = false

-- `node->… = …`
abbrev pub put_node : FsState → ℕ → FsNode → FsState
put_node fs p n = record fs { node_pool = update fs.node_pool p n }

unfoldable pub alloc_node : List ℕ → NodeType → FsState → FsState × ℕ
alloc_node name kind fs = if leb fs_max_nodes fs.nodes_used then (fs, 0) else (
  record (put_node fs (fs.nodes_used + 1) (record {
    name = take (fs_name_max - 1) name;
    kind = kind;
    parent = 0;
    children = 0;
    next_sibling = 0;
    buffer = 0;
    size = 0;
  })) { nodes_used = fs.nodes_used + 1 },
  fs.nodes_used + 1,
)

-- `if (node->data) { kfree(node->data); node->data = 0; }`
unfoldable pub free_data : ℕ → FsState → FsState
free_data node fs =
    if (fs.node_pool node).buffer == 0
    then fs
    else record (put_node fs node (record (fs.node_pool node) { buffer = 0 })) {
      memory = kfree (fs.node_pool node).buffer fs.memory;
    }

unfoldable pub free_node : ℕ → FsState → FsState
free_node node fs =
    let fs' : FsState = free_data node fs in
    put_node fs' node (record (fs'.node_pool node) { size = 0; name = [] })

unfoldable pub add_child : (dir child : ℕ) → FsState → FsState
add_child dir child fs =
    let fs' : FsState =
      put_node fs child (record (fs.node_pool child) {
        parent = dir;
        next_sibling = (fs.node_pool dir).children;
      }) in
    put_node fs' dir (record (fs'.node_pool dir) { children = child })

-- `*pp = child->next_sibling;` where `pp` is a field of `dir`, or of the sibling `prev`
unfoldable pub cut_child : (dir prev child : ℕ) → FsState → FsState
cut_child dir prev child fs =
    let next : ℕ = (fs.node_pool child).next_sibling in
    let fs' : FsState =
      if prev == 0
      then put_node fs dir (record (fs.node_pool dir) { children = next })
      else put_node fs prev (record (fs.node_pool prev) { next_sibling = next }) in
    put_node fs' child (record (fs'.node_pool child) { next_sibling = 0; parent = 0 })

unfoldable pub remove_loop : (fuel dir child prev node : ℕ) → FsState → Option FsState
remove_loop zero dir child prev node fs = none
remove_loop (suc fuel) dir child prev node fs = elim (node == 0) [
  | true ↦ some fs
  | false ↦ elim (node == child) [
    | true ↦ some (cut_child dir prev child fs)
    | false ↦ remove_loop fuel dir child node (fs.node_pool node).next_sibling fs
  ]
]

unfoldable pub remove_child : (dir child : ℕ) → FsState → Option FsState
remove_child dir child fs = remove_loop sibling_fuel dir child 0 (fs.node_pool dir).children fs

unfoldable pub find_loop : (fuel : ℕ) → (name : List ℕ) → (node : ℕ) → FsState → Option ℕ
find_loop zero name node fs = none
find_loop (suc fuel) name node fs = elim (node == 0) [
  | true ↦ some 0
  | false ↦ elim (str_eq (fs.node_pool node).name name) [
    | true ↦ some node
    | false ↦ find_loop fuel name (fs.node_pool node).next_sibling fs
  ]
]

-- The child of that name, or NULL.
unfoldable pub find_child : (dir : ℕ) → List ℕ → FsState → Option ℕ
find_child dir name fs =
    if dir == 0 || not (is_dir (fs.node_pool dir).kind)
    then some 0
    else find_loop sibling_fuel name (fs.node_pool dir).children fs
