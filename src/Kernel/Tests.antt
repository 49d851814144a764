-- ===== src/Kernel/Tests.antt =====
-- The kernel of src/kernel.c on a concrete machine, from the boot on.
mod Commands
use rpi4_bare_metal_os.Prelude.{
  ℕ, ◌+◌, ◌*◌, ◌%◌, ◌^◌, ◌<◌, ◌≡◌, ◌⊎◌, refl, true, false, some, List, [], ◌∷◌, ◌++◌, arith, length,
}
use rpi4_bare_metal_os.Text.{parse_num, str_eq}
use rpi4_bare_metal_os.Uart.{uart_put_hex}
use rpi4_bare_metal_os.Uart.Print.{Print, bytes}
use rpi4_bare_metal_os.Fs.{fs_file}
use rpi4_bare_metal_os.Task.{dead, running}
use rpi4_bare_metal_os.Task.Calls.{Layout, scheduler_init}
use rpi4_bare_metal_os.Task.Calls.Create.{scheduler_init-IsScheduler}
use rpi4_bare_metal_os.Task.Invariant.{state_of}
use rpi4_bare_metal_os.Task.System.{Reach, start}
use rpi4_bare_metal_os.Timer.{CoreTimer}
use rpi4_bare_metal_os.Kernel.{Kernel, irq_handler_c}
use rpi4_bare_metal_os.Kernel.Args.{skip_spaces}
use rpi4_bare_metal_os.Kernel.Show.{show_time}
use rpi4_bare_metal_os.Kernel.Memory.{parse_address}
use rpi4_bare_metal_os.Kernel.Write.{Reply, typed, write_line_max, write_line, read_text}
use rpi4_bare_metal_os.Kernel.Commands.{Board, cmd_kill, process_command, find_command, run}
use rpi4_bare_metal_os.Kernel.Main.{Machine, boot}
use rpi4_bare_metal_os.Kernel.Hex.{parse_address-put_hex}
use rpi4_bare_metal_os.Kernel.Bounds.{TextFits, LineFits, read_text-TextFits}
use rpi4_bare_metal_os.Kernel.Irq.{Ticked}
use rpi4_bare_metal_os.Kernel.Kill.{KillDone, cmd_kill-KillDone}
use rpi4_bare_metal_os.Kernel.Boot.{Booted, boot-Booted}
use rpi4_bare_metal_os.Kernel.System.{booted, KernelReach-Ticked, KernelReach-Treed}
use rpi4_bare_metal_os.Fs.Treed.{Treed}
use rpi4_bare_metal_os.Memory.Heap.{MemoryState, memory_init}
use rpi4_bare_metal_os.Memory.Heap.Invariant.{IsHeap}
use rpi4_bare_metal_os.Memory.Heap.Init.{memory_init-IsHeap}
use rpi4_bare_metal_os.Kernel.Demo.{MemtestState, memtest_start}
use rpi4_bare_metal_os.Kernel.Memtest.{Verified, Failed, memtest_start-Verified}
use rpi4_bare_metal_os.Fs.Tree.{IsTree}
use rpi4_bare_metal_os.Fs.Resolve.{Lands}
use rpi4_bare_metal_os.Fs.Path.{fs_resolve}

-- What stands in memory before the boot.
abbrev pub bss : Kernel
bss = record {
  fs = record {
    node_pool = λ p. record {
      name = [];
      kind = fs_file;
      parent = 0;
      children = 0;
      next_sibling = 0;
      buffer = 0;
      size = 0;
    };
    nodes_used = 0;
    root = 0;
    cwd = 0;
    memory = record {
      pages = record { bitmap = λ i. 0; first_free_page = 0; used_pages = 0 };
      headers = λ a. record { size = 0; magic = 0; next = 0; is_page_alloc = 0 };
      heap_start = 0;
      heap_end = 0;
      heap_brk = 0;
      free_list = 0;
    };
    contents = λ p. [];
  };
  scheduler = record {
    task_pool = λ p. record {
      sp = 0;
      stack = λ k. 0;
      state = dead;
      id = 0;
      name = [];
      sleep_until = 0;
      next = 0;
    };
    current_task = 0;
    ready_queue_head = 0;
    next_task_id = 0;
  };
  history = record { slots = λ i. []; count = 0; write = 0 };
  timer = record { tick_count = 0; timer_interval = 0 };
  smp = record {
    cores = λ i. record { online = 0; ticks = 0; tasks_run = 0 };
    smp_stacks = λ i. 0;
    smp_shared_ttbr0 = 0;
    smp_shared_tcr = 0;
    smp_shared_mair = 0;
    spin_table = λ a. 0;
  };
  gic = λ a. 0;
  mmu = record {
    tables = record {
      l0_table = λ i. 0;
      l1_table = λ i. 0;
      l2_ram_table = λ i. 0;
      l2_dev_table = λ i. 0;
    };
    mair = 0;
    tcr = 0;
    ttbr0 = 0;
    ttbr1 = 0;
    sctlr = 0;
    mmu_enabled = false;
  };
  scheduler_enabled = false;
}

abbrev core0 : CoreTimer
core0 = record { cntp_tval = 0; cntp_ctl = 0 }

abbrev machine : Machine
machine = record {
  tables = record { l0 = 0x90000; l1 = 0x91000; l2_ram = 0x92000; l2_dev = 0x93000 };
  core_stacks = 0xa0000;
  secondary_entry = 0x80400;
  freq = 62500000;
  bitmap_writable = true;
  heap_writable = true;
}

abbrev pub layout : Layout
layout = record { stack_addr = λ p. 0x98000 + p * 8264; task_exit_trampoline = 0x80500 }

abbrev pub board : Board
board = record {
  layout = layout;
  task_counter = 0x81000;
  task_spinner = 0x81100;
  task_memtest = 0x81200;
  freq = 62500000;
  core = 0;
  fuel = 10;
  frames = [];
}

boot-Booted_example :
    Booted layout machine (boot machine (bss, core0)).0 (boot machine (bss, core0)).1
boot-Booted_example = boot-Booted layout machine bss core0 refl refl (omega arith)

abbrev booted_kernel : Kernel
booted_kernel = (boot machine (bss, core0)).0

KernelReach-Ticked_example :
    (k' : Kernel) × (c' : CoreTimer) × (sp' : ℕ) × (irq_handler_c 62500000 0 5 0x99000
        (booted_kernel, (boot machine (bss, core0)).1)
      ≡ some ((k', c'), sp'))
    × Ticked 62500000 0 0x99000 booted_kernel k' c' sp'
KernelReach-Ticked_example =
    KernelReach-Ticked {board = board} {machine = machine} 5 0x99000 (booted bss core0) refl

KernelReach-Treed_example :
    (kids : ℕ → List ℕ) × IsTree booted_kernel.fs kids
    × Lands booted_kernel.fs (fs_resolve (bytes "/tmp") booted_kernel.fs)
KernelReach-Treed_example =
    KernelReach-Treed {board = board} {machine = machine} (bytes "/tmp") (booted bss core0)

-- The shell alone.
abbrev idle : Kernel
idle = record bss { scheduler = scheduler_init bss.scheduler }

idle_runs : state_of idle.scheduler idle.scheduler.current_task ≡ running
unfolding scheduler_init
idle_runs = refl

abbrev time_reply : Reply
time_reply = record { kernel = idle; printed = show_time idle; input = [] }

time_done : process_command board (bytes "time") [] idle ≡ some time_reply
unfolding process_command skip_spaces find_command str_eq run
time_done = refl

cmd_kill-KillDone_example :
    (k' : Kernel) × (out : List Print) × (cmd_kill (bytes "4294967297") idle ≡ some (k', out))
    × KillDone idle [] (parse_num (skip_spaces (bytes "4294967297"))) k'
cmd_kill-KillDone_example =
    cmd_kill-KillDone (bytes "4294967297") [] idle (scheduler_init-IsScheduler bss.scheduler).0

parse_address-put_hex_example :
    (parse_address (uart_put_hex 0x141000) ≡ 0x141000)
    × (parse_address (uart_put_hex 0x141000 ++ b' ' ∷ []) ≡ 0x141000 * 16 % 2 ^ 64)
parse_address-put_hex_example = parse_address-put_hex 0x141000 b' ' [] (omega arith) refl

read_text-TextFits_example :
    TextFits 4 (read_text (bytes "ab\r\u{4}")).0
    × ((line rest : List ℕ)
        → length line < write_line_max
        → LineFits (length rest) (write_line line rest).0)
read_text-TextFits_example = read_text-TextFits (bytes "ab\r\u{4}")

-- the heap before task_memtest runs
abbrev empty_heap : MemoryState
empty_heap = memory_init true true bss.fs.memory

empty_heap-IsHeap : IsHeap empty_heap [] []
empty_heap-IsHeap = (memory_init-IsHeap bss.fs.memory).0

memtest_start-Verified_example :
    (r : MemtestState) × (memtest_start 1 empty_heap (λ a. 0) ≡ some r)
    × (Verified empty_heap [] [] (λ a. 0) r ⊎ Failed 1 empty_heap [] [] (λ a. 0) r)
memtest_start-Verified_example = memtest_start-Verified 1 (λ a. 0) empty_heap-IsHeap (omega arith)
