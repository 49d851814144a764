-- ===== src/Fs/Api.antt =====
-- The calls of src/drivers/fs.c. Where the code answers 0 or -1, the answer is `true` or `false`.
use rpi4_bare_metal_os.Prelude.{
  ℕ, zero, suc, ◌+◌, ◌-◌, min, Bool, true, false, ◌&&◌, ◌||◌, not, Option, none, some, List, [],
  ◌∷◌, ◌++◌, ltb, leb, ◌==◌, if◌then◌else◌, update, length, take, ◌>>=◌,
}
use rpi4_bare_metal_os.Text.{put_bytes}
use rpi4_bare_metal_os.Memory.Heap.{kmalloc}
use rpi4_bare_metal_os.Fs.{
  NodeType, fs_file, fs_dir, FsNode, FsState, fs_max_nodes, fs_max_data, is_dir, put_node,
  alloc_node, free_data, free_node, add_child, remove_child, find_child,
}
use rpi4_bare_metal_os.Fs.Path.{fs_resolve, resolve_parent}

abbrev pub empty_node : FsNode → FsNode
empty_node n = record {
  name = [];
  kind = fs_dir;
  parent = 0;
  children = 0;
  next_sibling = 0;
  buffer = 0;
  size = 0;
}

-- Node 1 becomes the root, its own parent.
unfoldable pub fs_init : FsState → FsState
fs_init fs =
    let (fs', root) = alloc_node (b'/' ∷ []) fs_dir (record fs {
      node_pool = λ p.
          if ltb 0 p && leb p fs_max_nodes then empty_node (fs.node_pool p) else fs.node_pool p;
      nodes_used = 0;
    }) in
    record (put_node fs' root (record (fs'.node_pool root) { parent = root })) {
      root = root;
      cwd = root;
    }

unfoldable pub fs_set_cwd : ℕ → FsState → FsState
fs_set_cwd dir fs =
    if not (dir == 0) && is_dir (fs.node_pool dir).kind then record fs { cwd = dir } else fs

-- A node of that name and kind in the directory; NULL where no slot is left.
unfoldable pub make_node : (parent : ℕ) → List ℕ → NodeType → FsState → FsState × ℕ
make_node parent name kind fs =
    let (fs', node) = alloc_node name kind fs in
    if node == 0 then (fs', 0) else (add_child parent node fs', node)

-- fs_mkdir once its parent is found
unfoldable pub mkdir_in : (parent : ℕ) → List ℕ → FsState → Option (FsState × ℕ)
mkdir_in parent name fs =
    if parent == 0 || not (is_dir (fs.node_pool parent).kind)
    then some (fs, 0)
    else (if length name == 0 then some (fs, 0) else do
      old ← find_child parent name fs
      some (if old == 0 then make_node parent name fs_dir fs else (fs, 0)))

unfoldable pub fs_mkdir : List ℕ → FsState → Option (FsState × ℕ)
fs_mkdir path fs = do r ← resolve_parent path fs; mkdir_in r.0 r.1 fs

-- fs_rmdir once its node is found
unfoldable pub rmdir_node : ℕ → FsState → Option (FsState × Bool)
rmdir_node node fs =
    let n : FsNode = fs.node_pool node in
    if node == 0 || not (is_dir n.kind) || node == fs.root || not (n.children == 0)
    then some (fs, false)
    else do
      fs' ←
          remove_child n.parent node
            (record fs { cwd = if node == fs.cwd then n.parent else fs.cwd })
      some (free_node node fs', true)

unfoldable pub fs_rmdir : List ℕ → FsState → Option (FsState × Bool)
fs_rmdir path fs = do node ← fs_resolve path fs; rmdir_node node fs

-- fs_touch once its parent is found
unfoldable pub touch_in : (parent : ℕ) → List ℕ → FsState → FsState × ℕ
touch_in parent name fs =
    if parent == 0 || not (is_dir (fs.node_pool parent).kind) || length name == 0
    then (fs, 0)
    else make_node parent name fs_file fs

unfoldable pub fs_touch : List ℕ → FsState → Option (FsState × ℕ)
fs_touch path fs = do
  existing ← fs_resolve path fs
  if existing == 0
      then (do r ← resolve_parent path fs; some (touch_in r.0 r.1 fs))
      else some (fs, existing)

-- The new contents of a file: at most FS_MAX_DATA bytes, in a buffer of their own. `fuel` is for the
-- walk of kmalloc along its free list.
unfoldable pub store : (fuel file : ℕ) → List ℕ → FsState → Option (FsState × ℕ)
store fuel file content fs =
    let len : ℕ = min (length content) fs_max_data in
    if len == 0 then some (fs, file) else do
      r ← kmalloc fuel (len + 1) fs.memory
      some (
          if r.1 == 0 then (record fs { memory = r.0 }, 0) else (
            record (put_node fs file (record (fs.node_pool file) { buffer = r.1; size = len })) {
              memory = r.0;
              contents = update fs.contents r.1 (take len content);
            },
            file,
          ))

-- The size is reset only together with the buffer.
unfoldable pub drop_content : ℕ → FsState → FsState
drop_content file fs =
    if (fs.node_pool file).buffer == 0
    then fs
    else let fs' : FsState = free_data file fs in
      put_node fs' file (record (fs'.node_pool file) { size = 0 })

-- fs_write once the file is found or made
unfoldable pub write_node : (fuel file : ℕ) → List ℕ → FsState → Option (FsState × ℕ)
write_node fuel file content fs =
    if file == 0 || is_dir (fs.node_pool file).kind
    then some (fs, 0)
    else store fuel file content (drop_content file fs)

unfoldable pub fs_write : (fuel : ℕ) → (path content : List ℕ) → FsState → Option (FsState × ℕ)
fs_write fuel path content fs = do
  existing ← fs_resolve path fs
  r ← (if existing == 0 then fs_touch path fs else some (fs, existing))
  write_node fuel r.1 content r.0

-- What the pointer that fs_read returns points at, with the size: no pointer is `none`.
unfoldable pub read_node : ℕ → FsState → Option (List ℕ × ℕ)
read_node file fs =
    let n : FsNode = fs.node_pool file in
    if file == 0 || is_dir n.kind || n.buffer == 0
    then none
    else some (fs.contents n.buffer, n.size)

unfoldable pub fs_read : List ℕ → FsState → Option (Option (List ℕ × ℕ))
fs_read path fs = do file ← fs_resolve path fs; some (read_node file fs)

-- fs_rm once its node is found
unfoldable pub rm_node : ℕ → FsState → Option (FsState × Bool)
rm_node node fs =
    if node == 0 || is_dir (fs.node_pool node).kind || node == fs.root
    then some (fs, false)
    else do fs' ← remove_child (fs.node_pool node).parent node fs; some (free_node node fs', true)

unfoldable pub fs_rm : List ℕ → FsState → Option (FsState × Bool)
fs_rm path fs = do node ← fs_resolve path fs; rm_node node fs

-- The names from the root down to `node`, at most 16 of them, before those of `parts`.
unfoldable pub path_parts : (depth node : ℕ) → FsState → List (List ℕ) → List (List ℕ)
path_parts zero node fs parts = parts
path_parts (suc depth) node fs parts =
    let later = path_parts depth (fs.node_pool node).parent fs ((fs.node_pool node).name ∷ parts) in
    if node == 0 || node == fs.root then parts else later

unfoldable pub put_parts : (limit : ℕ) → (buf : List ℕ) → List (List ℕ) → List ℕ
put_parts limit buf [] = buf
put_parts limit buf (p ∷ []) = put_bytes limit buf p
put_parts limit buf (p ∷ q ∷ rest) =
    let b : List ℕ = put_bytes limit buf p in
    put_parts limit (if ltb (length b) limit then b ++ b'/' ∷ [] else b) (q ∷ rest)

-- The path of a node, as it stands in a buffer of `bufsize` bytes.
unfoldable pub fs_get_path : (node bufsize : ℕ) → FsState → List ℕ
fs_get_path node bufsize fs =
    if node == 0 || ltb bufsize 2
    then []
    else put_parts (bufsize - 2) (b'/' ∷ []) (path_parts 16 node fs [])
