-- ===== src/Task/Calls/Frame.antt =====
-- The trapframe that a new task starts from.
use rpi4_bare_metal_os.Prelude.{
  ℕ, zero, suc, ◌+◌, ◌*◌, ◌%◌, ◌≤◌, ◌<◌, ◌≡◌, ◌&&◌, ltb, leb, ◌==◌, if◌then◌else◌, update, arith,
}
use rpi4_bare_metal_os.Task.{Task}
use rpi4_bare_metal_os.Task.Calls.{
  Layout, trapframe_size, frame_index, clear_words, init_task_trapframe,
}

clear_words_lem :
    (n k : ℕ) (words : ℕ → ℕ) (j : ℕ)
    → clear_words n k words j ≡ (if leb k j && ltb j (k + n) then 0 else words j)
unfolding clear_words
clear_words_lem zero k words j = ground arith
clear_words_lem (suc n) k words j = ground (arith, clear_words_lem n (k + 1) (update words k 0) j)

-- the frame that vectors.S restores: return to the trampoline, start at the entry point with
-- interrupts on, every other register 0
abbrev pub frame_word : Layout → (entry_point i : ℕ) → ℕ
frame_word layout entry_point i =
    if i == 30
    then layout.task_exit_trampoline
    else (if i == 31 then entry_point else (if i == 32 then 5 else 0))

-- For a stack that is aligned to 8 bytes, the trapframe is aligned to 16, lies within the stack's
-- 1024 words and reaches to the last one or the last but one, `sp` points at it, its words are
-- those of a first return to the entry point, and the words below it are as they were.
pub init_task_trapframe_lem :
    (layout : Layout) (p entry_point : ℕ) (task : Task)
    → layout.stack_addr p % 8 ≡ 0
    → let k = frame_index (layout.stack_addr p) in
      let task' = init_task_trapframe layout p entry_point task in
      (task'.sp ≡ layout.stack_addr p + 8 * k)
      × (task'.sp % 16 ≡ 0)
      × (k + trapframe_size ≤ 1024)
      × (1024 ≤ k + trapframe_size + 1)
      × ((i : ℕ) → i < trapframe_size → task'.stack (k + i) ≡ frame_word layout entry_point i)
      × ((j : ℕ) → j < k → task'.stack j ≡ task.stack j)
unfolding init_task_trapframe
init_task_trapframe_lem layout p entry_point task aligned = (
  omega arith,
  omega arith,
  omega arith,
  omega arith,
  λ i lt. ground (
    arith,
    clear_words_lem trapframe_size (frame_index (layout.stack_addr p)) task.stack
        (frame_index (layout.stack_addr p) + i),
  ),
  λ j lt.
      ground
        (arith, clear_words_lem trapframe_size (frame_index (layout.stack_addr p)) task.stack j),
)
