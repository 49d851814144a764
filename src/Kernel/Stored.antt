-- ===== src/Kernel/Stored.antt =====
-- The command write of src/kernel.c as a whole: the lines that are typed stand in the file.
use rpi4_bare_metal_os.Prelude.{
  ℕ, ◌-◌, ◌≤◌, ◌<◌, ◌≡◌, ◌≢◌, refl, ◌⊎◌, inl, inr, true, false, not, ◌&&◌, none, some, List, ◌∷◌,
  ◌++◌, ◌==◌, ltb, min, length, take-all, ◌∙◌, arith,
}
use rpi4_bare_metal_os.Uart.Print.{Print}
use rpi4_bare_metal_os.Memory.Heap.Invariant.{IsHeap}
use rpi4_bare_metal_os.Fs.{FsState, fs_max_data, is_dir}
use rpi4_bare_metal_os.Fs.Tree.{IsTree}
use rpi4_bare_metal_os.Fs.Path.{fs_resolve}
use rpi4_bare_metal_os.Fs.Resolve.{fs_resolve-Lands}
use rpi4_bare_metal_os.Fs.Api.{drop_content, read_node, write_node, fs_write}
use rpi4_bare_metal_os.Fs.Write.{NoMemory, Filled, stored, write_node-Writes}
use rpi4_bare_metal_os.Kernel.{Kernel}
use rpi4_bare_metal_os.Kernel.Write.{
  Reply, WriteEnd, typed, read_text, store_text, finish_text, cmd_write_interactive,
}
use rpi4_bare_metal_os.Kernel.Typed.{AreLines, keys, text_of, read_text-keys}

-- A text that is not empty goes to fs_write.
store_text-writes :
    (fuel : ℕ) (path content : List ℕ) (k : Kernel) (fs' : FsState) (node : ℕ)
    → 0 < length content
    → fs_write fuel path content k.fs ≡ some (fs', node)
    → (out : List Print) × (store_text fuel path content k ≡ some (record k { fs = fs' }, out))
unfolding store_text
store_text-writes fuel path content k fs' node pos done =
    let some_text : ltb 0 (length content) ≡ true = ground arith in rw (some_text, done) (_, refl)

-- The state and the input that are left behind a text that was typed.
abbrev pub Left : (k : Kernel) → FsState → (rest : List ℕ) → Reply → Type 0
Left k fs' rest r = (r.kernel ≡ record k { fs = fs' }) × (r.input ≡ rest)

finish_text-writes :
    (fuel : ℕ) (path content rest : List ℕ) (k : Kernel) (fs' : FsState) (node : ℕ)
    (end : WriteEnd × List Print)
    → 0 < length content
    → fs_write fuel path content k.fs ≡ some (fs', node)
    → end.0 ≡ typed content rest
    → (r : Reply) × (finish_text fuel path k end ≡ some r) × Left k fs' rest r
unfolding finish_text
finish_text-writes fuel path content rest k fs' node (end, ps) pos done e =
    let (out, stored_) = store_text-writes fuel path content k fs' node pos done in
    rw e (rw stored_ (_, refl, (refl, refl)))

-- What is typed goes to fs_write, whose answer is not looked at.
cmd_write_interactive-writes :
    (fuel file : ℕ) (path : List ℕ) (lines : List (List ℕ)) (rest : List ℕ) (k : Kernel)
    (fs' : FsState) (node : ℕ)
    → 0 < length path
    → fs_resolve path k.fs ≡ some file
    → (not (file == 0) && is_dir (k.fs.node_pool file).kind) ≡ false
    → AreLines lines
    → 0 < length (text_of lines)
    → length (text_of lines) < fs_max_data - 2
    → fs_write fuel path (text_of lines) k.fs ≡ some (fs', node)
    → (r : Reply) × (cmd_write_interactive fuel path (keys lines ++ 0x04 ∷ rest) k ≡ some r)
      × Left k fs' rest r
unfolding cmd_write_interactive
cmd_write_interactive-writes fuel file path lines rest k fs' node named found open_ ok pos fits
      done =
    let (r, end, left) =
      finish_text-writes fuel path (text_of lines) rest k fs' node
        (read_text (keys lines ++ 0x04 ∷ rest)) pos done (read_text-keys lines rest ok fits) in
    let named' : (length path == 0) ≡ false = ground arith in
    rw (named', found, open_, end) (_, refl, left)

stored-text :
    (content : List ℕ)
    → 0 < length content
    → length content ≤ fs_max_data
    → stored content ≡ some (content, length content)
stored-text content pos fits =
    let all : min (length content) fs_max_data ≡ length content = omega arith in
    let some_text : (length content == 0) ≡ false = ground arith in
    rw (all, some_text, take-all (length content) content (omega arith)) refl

fs_write-existing :
    (fuel file : ℕ) (path content : List ℕ) (fs : FsState)
    → fs_resolve path fs ≡ some file
    → file ≢ 0
    → fs_write fuel path content fs ≡ write_node fuel file content fs
unfolding fs_write
fs_write-existing fuel file path content fs found there =
    let there' : (file == 0) ≡ false = ground arith in rw (found, there') refl

-- How the command leaves the file: with the text in it, or empty where kmalloc answers NULL.
abbrev pub TextStored : (fuel file : ℕ) → List ℕ → (fs fs' : FsState) → Type 0
TextStored fuel file text fs fs' =
    (read_node file fs' ≡ some (text, length text))
    ⊎ ((read_node file fs' ≡ none) × NoMemory fuel text (drop_content file fs).memory)

-- In a well-formed tree, the path of write leads to a file. Lines of at most 255 printable bytes that
-- together have 1 to 4093 bytes with their newlines are typed, each with Enter, and followed by Ctrl+D.
-- If the heap is well-formed once what the file held is freed, and the fuel exceeds its free list, the
-- command answers, and the input goes on behind Ctrl+D. fs_read then finds just the lines, each with a
-- newline, in the file, or the file is empty where kmalloc answers NULL. The tree is kept, and no other node and
-- nothing of the kernel outside its files and its memory has changed.
pub cmd_write_interactive-keys :
    (fuel file : ℕ) (path : List ℕ) (lines : List (List ℕ)) (rest : List ℕ) (k : Kernel)
    {kids : ℕ → List ℕ} {blocks free : List ℕ}
    → IsTree k.fs kids
    → 0 < length path
    → fs_resolve path k.fs ≡ some file
    → file ≢ 0
    → is_dir (k.fs.node_pool file).kind ≡ false
    → AreLines lines
    → 0 < length (text_of lines)
    → length (text_of lines) < fs_max_data - 2
    → IsHeap (drop_content file k.fs).memory blocks free
    → length free < fuel
    → (r : Reply) × (fs' : FsState) × (cmd_write_interactive fuel path (keys lines ++ 0x04 ∷ rest) k
        ≡ some r)
      × (r.kernel ≡ record k { fs = fs' })
      × (r.input ≡ rest)
      × IsTree fs' kids
      × Filled file k.fs fs'
      × TextStored fuel file (text_of lines) k.fs fs'
cmd_write_interactive-keys fuel file path lines rest k t named found there kind ok pos fits heap
      enough =
    let (node', found', lands) = fs_resolve-Lands t path in
    let same : node' ≡ file = cc (found, found') in
    let is : (0 < file) × (file ≤ k.fs.nodes_used) = ground (arith, lands, same) in
    let (fs', node, done, filled, tree, answer) =
      write_node-Writes fuel file (text_of lines) t is kind heap enough in
    let (r, answers, left) =
      cmd_write_interactive-writes fuel file path lines rest k fs' node named found
        (ground (arith, kind)) ok pos fits
        (fs_write-existing fuel file path (text_of lines) k.fs found there ∙ done) in
    (
      r,
      fs',
      answers,
      left.0,
      left.1,
      tree,
      filled,
      elim answer [
        | inl (same_node, read) ↦ inl (read ∙ stored-text (text_of lines) pos (omega (arith, fits)))
        | inr (null, read, no_memory) ↦ inr (read, no_memory)
      ],
    )
