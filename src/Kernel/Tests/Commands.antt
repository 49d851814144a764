-- ===== src/Kernel/Tests/Commands.antt =====
-- Commands of src/kernel.c on a kernel whose root has one file.
use rpi4_bare_metal_os.Prelude.{
  ℕ, ◌+◌, ◌≡◌, ◌≢◌, refl, true, false, some, List, [], ◌∷◌, ◌++◌, arith,
}
use rpi4_bare_metal_os.Text.{str_eq}
use rpi4_bare_metal_os.Uart.Print.{bytes}
use rpi4_bare_metal_os.Memory.Heap.{memory_init}
use rpi4_bare_metal_os.Memory.Heap.Invariant.{IsHeap}
use rpi4_bare_metal_os.Memory.Heap.Init.{memory_init-IsHeap}
use rpi4_bare_metal_os.Fs.{fs_file, FsState, is_dir, alloc_node, free_data, find_child, find_loop}
use rpi4_bare_metal_os.Fs.Tree.{IsNode, IsTree}
use rpi4_bare_metal_os.Fs.Init.{fs_init-IsTree}
use rpi4_bare_metal_os.Fs.Make.{with_kid, made, made-Made}
use rpi4_bare_metal_os.Fs.Path.{
  fs_resolve, resolve_loop, next_component, skip_slashes, take_component, enter,
}
use rpi4_bare_metal_os.Fs.Api.{fs_init, drop_content}
use rpi4_bare_metal_os.Fs.Write.{Filled}
use rpi4_bare_metal_os.Fs.Treed.{Treed}
use rpi4_bare_metal_os.Task.Calls.{scheduler_init}
use rpi4_bare_metal_os.Kernel.{Kernel}
use rpi4_bare_metal_os.Kernel.Write.{Reply, cmd_write_interactive}
use rpi4_bare_metal_os.Kernel.Typed.{AreLines, keys, is_printable}
use rpi4_bare_metal_os.Kernel.Steps.{Calls}
use rpi4_bare_metal_os.Kernel.Stored.{TextStored, cmd_write_interactive-keys}
use rpi4_bare_metal_os.Kernel.Tests.{bss}

abbrev with_memory : FsState
with_memory = record bss.fs { memory = memory_init true true bss.fs.memory }

abbrev mounted : FsState
mounted = fs_init with_memory

mounted-IsTree : IsTree mounted (λ p. [])
mounted-IsTree = (fs_init-IsTree with_memory).0

root-IsNode : IsNode mounted 1
root-IsNode = omega (arith, (fs_init-IsTree with_memory).1)

root_dir : is_dir (mounted.node_pool 1).kind ≡ true
unfolding fs_init alloc_node
root_dir = refl

root_kept : (mounted.node_pool 1).parent ≢ 0
unfolding fs_init alloc_node
root_kept = omega arith

-- The shell runs, and the root has a file.
abbrev with_file : Kernel
with_file = record bss {
  scheduler = scheduler_init bss.scheduler;
  fs = made mounted-IsTree 1 (bytes "log") fs_file root-IsNode root_dir root_kept;
}

abbrev listed : ℕ → List ℕ
listed = with_kid 1 (mounted.nodes_used + 1) (λ p. [])

with_file-IsTree : IsTree with_file.fs listed
with_file-IsTree =
    (made-Made mounted-IsTree 1 (bytes "log") fs_file root-IsNode root_dir root_kept
      (omega (arith, (fs_init-IsTree with_memory).1))).tree

abbrev lines : List (List ℕ)
lines = bytes "first" ∷ bytes "" ∷ bytes "third" ∷ []

lines-AreLines : AreLines lines
unfolding is_printable
lines-AreLines = ((refl, omega arith), ((refl, omega arith), ((refl, omega arith), omega arith)))

log_found : fs_resolve (bytes "log") with_file.fs ≡ some 2
unfolding fs_resolve resolve_loop next_component skip_slashes take_component enter find_child
    find_loop fs_init alloc_node str_eq
log_found = refl

log_file : is_dir (with_file.fs.node_pool 2).kind ≡ false
unfolding fs_init alloc_node
log_file = refl

dropped-IsHeap : IsHeap (drop_content 2 with_file.fs).memory [] []
unfolding drop_content free_data fs_init alloc_node
dropped-IsHeap = (memory_init-IsHeap bss.fs.memory).0

cmd_write_interactive-keys_example :
    (r : Reply) × (fs' : FsState) × (cmd_write_interactive 5
        (bytes "log")
        (keys lines ++ 0x04 ∷ bytes "ls")
        with_file
      ≡ some r)
    × (r.kernel ≡ record with_file { fs = fs' })
    × (r.input ≡ bytes "ls")
    × IsTree fs' listed
    × Filled 2 with_file.fs fs'
    × TextStored 5 2 (bytes "first\n\nthird\n") with_file.fs fs'
cmd_write_interactive-keys_example =
    cmd_write_interactive-keys 5 2 (bytes "log") lines (bytes "ls") with_file with_file-IsTree
      (omega arith) log_found (omega arith) log_file lines-AreLines (omega arith) (omega arith)
      dropped-IsHeap (omega arith)
