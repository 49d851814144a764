-- ===== src/Kernel/Show.antt =====
-- The commands of src/kernel.c that only print.
use rpi4_bare_metal_os.Prelude.{
  ℕ, zero, suc, ◌+◌, ◌-◌, ◌*◌, ◌/◌, ◌%◌, ◌^◌, Bool, true, not, ◌&&◌, none, some, List, [], ◌∷◌,
  ◌++◌, ltb, ◌==◌, if◌then◌else◌, length,
}
use rpi4_bare_metal_os.Uart.Print.{Print, puts, putc, put_dec, say, bytes}
use rpi4_bare_metal_os.Memory.Bitmap.{managed_pages}
use rpi4_bare_metal_os.Memory.Pages.{PageState, page_size, memory_get_free_pages}
use rpi4_bare_metal_os.Task.{
  TaskState, ready, running, blocked, dead, Task, Scheduler, max_tasks, is_dead, is_blocked,
}
use rpi4_bare_metal_os.Shell.{History, history_get}
use rpi4_bare_metal_os.Smp.{CoreInfo, num_cores, is_online, count_online}
use rpi4_bare_metal_os.Kernel.{Kernel}

abbrev pub state_name : TaskState → List ℕ
state_name ready = bytes "READY"
state_name running = bytes "RUNNING"
state_name blocked = bytes "BLOCKED"
state_name dead = bytes "DEAD"

unfoldable pub cmd_help : List Print
cmd_help =
    say "Available commands:\n"
    ∷ say "  help          Show this help message\n"
    ∷ say "  time          Show current tick count\n"
    ∷ say "  info          Show system information\n"
    ∷ say "  clear         Clear screen\n"
    ∷ say "  ps            List all tasks\n"
    ∷ say "  spawn         Launch demo tasks (counter + spinner)\n"
    ∷ say "  kill ID       Terminate a task by ID\n"
    ∷ say "  top           Live task monitor (any key to exit)\n"
    ∷ say "  memtest       Launch memory test task\n"
    ∷ say "  mem           Show memory statistics\n"
    ∷ say "  alloc N       Allocate N bytes\n"
    ∷ say "  pgalloc       Allocate a 4KB page\n"
    ∷ say "  pgfree A      Free page at hex address A\n"
    ∷ say "  mmu           Show MMU/cache configuration\n"
    ∷ say "  cpus          Show per-core status\n"
    ∷ say "  history       Show command history\n"
    ∷ say "\nFilesystem:\n"
    ∷ say "  ls [path]     List directory contents\n"
    ∷ say "  cd [path]     Change directory (cd .. to go up)\n"
    ∷ say "  pwd           Print working directory\n"
    ∷ say "  mkdir PATH    Create directory\n"
    ∷ say "  rmdir PATH    Remove empty directory\n"
    ∷ say "  touch PATH    Create empty file\n"
    ∷ say "  cat PATH      Show file contents\n"
    ∷ say "  write PATH    Write text to file (interactive)\n"
    ∷ say "  rm PATH       Remove file\n"
    ∷ say "\nShell features:\n"
    ∷ say "  Up/Down       Browse command history\n"
    ∷ say "  Tab           Auto-complete commands\n"
    ∷ say "  Ctrl+C        Cancel current input\n"
    ∷ say "  Ctrl+U        Clear current line\n"
    ∷ say "  Ctrl+L        Clear screen\n"
    ∷ []

-- `for (j = len; j < width; j++) uart_putc(' ');`
unfoldable pub pad : (width : ℕ) → List Print
pad zero = []
pad (suc n) = putc b' ' ∷ pad n

-- A slot that the loops of cmd_ps and cmd_top pass over: dead, and not the shell's.
abbrev pub passed_over : ℕ → Task → Bool
passed_over p task =
    if is_dead task.state && length task.name == 0 then true else is_dead task.state && not (p == 1)

-- The number, the name and the state of a task, in columns.
abbrev pub task_columns : Task → List Print
task_columns task =
    put_dec task.id
      ∷ (if ltb task.id 10 then say "   " else say "  ")
      ∷ puts task.name
      ∷ pad (16 - length task.name)
    ++ puts (state_name task.state) ∷ []

unfoldable pub ps_rows : (n p : ℕ) → Scheduler → List Print
ps_rows zero p s = []
ps_rows (suc n) p s =
    let later = ps_rows n (p + 1) s in
    if passed_over p (s.task_pool p)
    then later
    else task_columns (s.task_pool p)
      ++ (if p == s.current_task then say " <-- current" ∷ [] else [])
      ++ say "\n" ∷ later

unfoldable pub cmd_ps : Kernel → List Print
cmd_ps k =
    say "ID  NAME            STATE\n"
    ∷ say "--  ----            -----\n"
    ∷ ps_rows max_tasks 1 k.scheduler

-- How long a blocked task still sleeps, where that is not over.
abbrev pub time_left : (now : ℕ) → Task → List Print
time_left now task =
    let remaining : ℕ = (task.sleep_until + 2 ^ 64 - now) % 2 ^ 64 in
    if is_blocked task.state && ltb 0 remaining && ltb remaining (2 ^ 63)
    then put_dec remaining ∷ say " left" ∷ []
    else []

unfoldable pub top_rows : (n p now : ℕ) → Scheduler → List Print
top_rows zero p now s = []
top_rows (suc n) p now s =
    let task : Task = s.task_pool p in
    let later = top_rows n (p + 1) now s in
    if passed_over p task
    then later
    else task_columns task
      ++ pad (12 - length (state_name task.state))
      ++ time_left now task
      ++ (if p == s.current_task then say " *" ∷ [] else [])
      ++ say "\n" ∷ later

-- How many rows there are.
unfoldable pub active : (n p : ℕ) → Scheduler → ℕ
active zero p s = 0
active (suc n) p s =
    let later = active n (p + 1) s in if passed_over p (s.task_pool p) then later else later + 1

-- One picture of the monitor.
unfoldable pub top_frame : Kernel → List Print
top_frame k =
    say "\u{1b}[3;1H"
      ∷ say "\u{1b}[J"
      ∷ say "ID  NAME            STATE       TICKS\n"
      ∷ say "--  ----            -----       -----\n"
      ∷ top_rows max_tasks 1 k.timer.tick_count k.scheduler
    ++ say "\nUptime: "
      ∷ put_dec (k.timer.tick_count / 10)
      ∷ say "s  Tasks: "
      ∷ put_dec (active max_tasks 1 k.scheduler)
      ∷ say "/"
      ∷ put_dec max_tasks
      ∷ say "  Free mem: "
      ∷ put_dec (memory_get_free_pages k.fs.memory.pages)
      ∷ say " pages\n"
      ∷ []

unfoldable pub top_frames : List Kernel → List Print
top_frames [] = []
top_frames (k ∷ ks) = top_frame k ++ top_frames ks

-- The monitor until a key is pressed: `frames` are the states in which a picture is drawn.
unfoldable pub cmd_top : (frames : List Kernel) → List Print
cmd_top frames =
    say "Live task monitor (press any key to exit)\n\n" ∷ top_frames frames
    ++ say "\u{1b}[2J\u{1b}[H" ∷ []

-- `for (i = n - 1; i >= 0; i--)`: the commands from the oldest one on
unfoldable pub history_rows : (n : ℕ) → History → List Print
history_rows zero h = []
history_rows (suc n) h =
    let later = history_rows n h in
    elim (history_get n h) [
      | none ↦ later
      | some cmd ↦ put_dec (h.count - n) ∷ say "  " ∷ puts cmd ∷ say "\n" ∷ later
    ]

unfoldable pub cmd_history_show : History → List Print
cmd_history_show h =
    if h.count == 0 then say "No command history\n" ∷ [] else history_rows h.count h

-- `for (i = first; i < first + n; i++)`, on core `core`
unfoldable pub cpu_rows : (n i core : ℕ) → (ℕ → CoreInfo) → List Print
cpu_rows zero i core cores = []
cpu_rows (suc n) i core cores =
    say "  "
      ∷ put_dec i
      ∷ say "    "
      ∷ (if is_online cores i then say "online   " else say "offline  ")
      ∷ put_dec (cores i).ticks
      ∷ (if i == core then say "  <-- you" ∷ [] else [])
    ++ say "\n" ∷ cpu_rows n (i + 1) core cores

unfoldable pub show_cpus : (core : ℕ) → Kernel → List Print
show_cpus core k =
    say "CORE  STATUS   TICKS\n"
    ∷ say "----  ------   -----\n"
    ∷ cpu_rows num_cores 0 core k.smp.cores

unfoldable pub show_time : Kernel → List Print
show_time k =
    say "Uptime: "
    ∷ put_dec (k.timer.tick_count / 10)
    ∷ say " seconds ("
    ∷ put_dec k.timer.tick_count
    ∷ say " ticks)\n"
    ∷ []

-- So many pages in megabytes.
abbrev megabytes : ℕ → ℕ
megabytes pages = pages * page_size / (1024 * 1024)

unfoldable pub show_info : (freq : ℕ) → Kernel → List Print
show_info freq k =
    say "Raspberry Pi 4 Bare Metal OS\n"
    ∷ say "CPU: ARM Cortex-A72 (ARMv8-A) x "
    ∷ put_dec (count_online num_cores k.smp.cores)
    ∷ say " cores\n"
    ∷ say "Timer: "
    ∷ put_dec freq
    ∷ say " Hz\n"
    ∷ say "Scheduler: preemptive round-robin (100ms quantum)\n"
    ∷ say "Max tasks: "
    ∷ put_dec max_tasks
    ∷ say "\n"
    ∷ say "Memory: "
    ∷ put_dec (megabytes (memory_get_free_pages k.fs.memory.pages))
    ∷ say " MB free / "
    ∷ put_dec (megabytes managed_pages)
    ∷ say " MB total\n"
    ∷ []

unfoldable pub show_mem : Kernel → List Print
show_mem k =
    let pages : PageState = k.fs.memory.pages in
    say "Total: "
    ∷ put_dec managed_pages
    ∷ say " pages ("
    ∷ put_dec (megabytes managed_pages)
    ∷ say " MB)  Used: "
    ∷ put_dec pages.used_pages
    ∷ say "  Free: "
    ∷ put_dec (memory_get_free_pages pages)
    ∷ say "\n"
    ∷ []
