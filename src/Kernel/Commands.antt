-- ===== src/Kernel/Commands.antt =====
-- The command processor of src/kernel.c.
use rpi4_bare_metal_os.Prelude.{
  ℕ, ◌%◌, ◌^◌, Option, some, List, [], ◌∷◌, ◌++◌, ◌==◌, if◌then◌else◌, length, ◌>>=◌,
}
use rpi4_bare_metal_os.Uart.Print.{Print, puts, put_dec, say, bytes}
use rpi4_bare_metal_os.Text.{str_eq, str_neq, parse_num}
use rpi4_bare_metal_os.Task.{max_tasks}
use rpi4_bare_metal_os.Task.Calls.{Layout, task_create, find_id, task_kill}
use rpi4_bare_metal_os.Fs.Api.{fs_mkdir, fs_rmdir, fs_touch, fs_rm}
use rpi4_bare_metal_os.Fs.Ls.{fs_ls}
use rpi4_bare_metal_os.Mmu.Dump.{mmu_dump_config}
use rpi4_bare_metal_os.Kernel.{Kernel}
use rpi4_bare_metal_os.Kernel.Args.{Done, skip_spaces, drop, skip_arg}
use rpi4_bare_metal_os.Kernel.Show.{
  cmd_help, cmd_ps, cmd_top, cmd_history_show, show_cpus, show_time, show_info, show_mem,
}
use rpi4_bare_metal_os.Kernel.Memory.{cmd_alloc, cmd_pgalloc, cmd_pgfree}
use rpi4_bare_metal_os.Kernel.Files.{cmd_pwd, cmd_cd, with_path, cmd_cat}
use rpi4_bare_metal_os.Kernel.Write.{Reply, cmd_write_interactive}

-- What the commands need besides the state: where the code lies, what registers read, the fuel of
-- kmalloc's walk, and the states in which the monitor draws a picture.
pub record Board : Type 0 where
  pub layout : Layout
  pub task_counter : ℕ
  pub task_spinner : ℕ
  pub task_memtest : ℕ
  pub freq : ℕ
  pub core : ℕ
  pub fuel : ℕ
  pub frames : List Kernel

-- `kill`. The slot is looked up before the task is killed, for its name.
unfoldable pub cmd_kill : List ℕ → Kernel → Done
cmd_kill text k =
    let arg : List ℕ = skip_spaces text in
    let id : ℕ = parse_num arg in
    let named : ℕ = find_id max_tasks 1 (id % 2 ^ 32) k.scheduler.task_pool in
    if length arg == 0
    then some (k, say "Usage: kill <task_id>\n" ∷ [])
    else (if id == 0 then some (k, say "Cannot kill the shell (task 0)\n" ∷ []) else (do
      r ← task_kill (id % 2 ^ 32) k.scheduler
      some (
        record k { scheduler = r.0 },
        if r.1
            then say "Killed task "
                ∷ put_dec id
                ∷ (if named == 0
                    then []
                    else say " (" ∷ puts (r.0.task_pool named).name ∷ say ")" ∷ [])
              ++ say "\n" ∷ []
            else say "Task " ∷ put_dec id ∷ say " not found or cannot be killed\n" ∷ [],
      )))

unfoldable pub cmd_spawn : Board → Kernel → Done
cmd_spawn board k = do
  s ← task_create board.layout board.task_counter (bytes "counter") k.scheduler
  s' ← task_create board.layout board.task_spinner (bytes "spinner") s
  some (record k { scheduler = s' }, say "Spawning 'counter' and 'spinner'...\n" ∷ [])

unfoldable pub cmd_memtest : Board → Kernel → Done
cmd_memtest board k = do
  s ← task_create board.layout board.task_memtest (bytes "memtest") k.scheduler
  some (record k { scheduler = s }, say "Spawning 'memtest'...\n" ∷ [])

-- A line, as the tests of process_command tell it apart.
pub data Command : Type 0 where
  help : Command
  clear : Command
  ps : Command
  top : Command
  history : Command
  mmu : Command
  cpus : Command
  time : Command
  info : Command
  spawn : Command
  memtest : Command
  mem : Command
  pgalloc : Command
  pwd : Command
  alloc : List ℕ → Command
  pgfree : List ℕ → Command
  kill : List ℕ → Command
  ls : List ℕ → Command
  cd : List ℕ → Command
  mkdir : List ℕ → Command
  rmdir : List ℕ → Command
  touch : List ℕ → Command
  cat : List ℕ → Command
  write : List ℕ → Command
  rm : List ℕ → Command
  unknown : List ℕ → Command

-- `str_eq(cmd, word)`, or `str_neq(cmd, word, length of word) == 0`
pub data Test : Type 0 where
  exact : (word : List ℕ) → Command → Test
  prefix : (word : List ℕ) → (List ℕ → Command) → Test

-- The tests in their order. A bare `ls` or `cd` acts as one with an empty path.
abbrev pub tests : List Test
tests =
    exact (bytes "help") help
    ∷ exact (bytes "clear") clear
    ∷ exact (bytes "ps") ps
    ∷ exact (bytes "top") top
    ∷ exact (bytes "history") history
    ∷ exact (bytes "mmu") mmu
    ∷ exact (bytes "cpus") cpus
    ∷ exact (bytes "time") time
    ∷ exact (bytes "info") info
    ∷ exact (bytes "spawn") spawn
    ∷ exact (bytes "memtest") memtest
    ∷ exact (bytes "mem") mem
    ∷ prefix (bytes "alloc ") (λ cmd. alloc (drop 6 cmd))
    ∷ exact (bytes "pgalloc") pgalloc
    ∷ prefix (bytes "pgfree ") (λ cmd. pgfree (drop 7 cmd))
    ∷ prefix (bytes "kill ") (λ cmd. kill (drop 5 cmd))
    ∷ exact (bytes "ls") (ls [])
    ∷ prefix (bytes "ls ") (λ cmd. ls (skip_arg cmd 2))
    ∷ exact (bytes "pwd") pwd
    ∷ exact (bytes "cd") (cd [])
    ∷ prefix (bytes "cd ") (λ cmd. cd (skip_arg cmd 2))
    ∷ prefix (bytes "mkdir ") (λ cmd. mkdir (skip_arg cmd 5))
    ∷ prefix (bytes "rmdir ") (λ cmd. rmdir (skip_arg cmd 5))
    ∷ prefix (bytes "touch ") (λ cmd. touch (skip_arg cmd 5))
    ∷ prefix (bytes "cat ") (λ cmd. cat (skip_arg cmd 3))
    ∷ prefix (bytes "write ") (λ cmd. write (skip_arg cmd 5))
    ∷ prefix (bytes "rm ") (λ cmd. rm (skip_arg cmd 2))
    ∷ []

-- The first test that the line passes.
unfoldable pub find_command : List Test → (cmd : List ℕ) → Command
find_command [] cmd = unknown cmd
find_command (exact word command ∷ rest) cmd =
    let later = find_command rest cmd in if str_eq cmd word then command else later
find_command (prefix word command ∷ rest) cmd =
    let later = find_command rest cmd in
    if str_neq cmd word (length word) then later else command cmd

-- A command that only prints.
abbrev pub shown : Kernel → List ℕ → List Print → Option Reply
shown k input out = some (record { kernel = k; printed = out; input = input })

-- A command that does not read the input.
abbrev pub reply : List ℕ → Done → Option Reply
reply input done = do r ← done; some (record { kernel = r.0; printed = r.1; input = input })

-- The body behind each test. The key that ends the monitor is taken from the input.
unfoldable pub run : Board → Command → (input : List ℕ) → Kernel → Option Reply
run board help input k = shown k input cmd_help
run board clear input k = shown k input (say "\u{1b}[2J\u{1b}[H" ∷ [])
run board ps input k = shown k input (cmd_ps k)
run board top input k = shown k (drop 1 input) (cmd_top board.frames)
run board history input k = shown k input (cmd_history_show k.history)
run board mmu input k = shown k input (mmu_dump_config k.mmu)
run board cpus input k = shown k input (show_cpus board.core k)
run board time input k = shown k input (show_time k)
run board info input k = shown k input (show_info board.freq k)
run board spawn input k = reply input (cmd_spawn board k)
run board memtest input k = reply input (cmd_memtest board k)
run board mem input k = shown k input (show_mem k)
run board pgalloc input k = reply input (some (cmd_pgalloc k))
run board pwd input k = shown k input (cmd_pwd k)
run board (alloc text) input k = reply input (cmd_alloc board.fuel text k)
run board (pgfree text) input k = reply input (some (cmd_pgfree text k))
run board (kill text) input k = reply input (cmd_kill text k)
run board (ls path) input k = do out ← fs_ls path k.fs; shown k input out
run board (cd path) input k = reply input (cmd_cd path k)
run board (mkdir path) input k =
    reply input (with_path (say "Usage: mkdir <dirname>\n") fs_mkdir path k)
run board (rmdir path) input k =
    reply input (with_path (say "Usage: rmdir <dirname>\n") fs_rmdir path k)
run board (touch path) input k =
    reply input (with_path (say "Usage: touch <filename>\n") fs_touch path k)
run board (cat path) input k = do out ← cmd_cat path k; shown k input out
run board (write path) input k = cmd_write_interactive board.fuel path input k
run board (rm path) input k = reply input (with_path (say "Usage: rm <filename>\n") fs_rm path k)
run board (unknown cmd) input k =
    shown k input (say "Unknown: " ∷ puts cmd ∷ say "  (try 'help')\n" ∷ [])

unfoldable pub process_command : Board → (cmd input : List ℕ) → Kernel → Option Reply
process_command board cmd input k =
    let line : List ℕ = skip_spaces cmd in
    if length line == 0 then shown k input [] else run board (find_command tests line) input k
