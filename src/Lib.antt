-- ===== src/Lib.antt =====
-- A bare-metal operating system for the Raspberry Pi 4: memory, page tables, timer and interrupts,
-- cores, scheduler, filesystem and shell.
--
-- The kernel gives out memory in whole pages and in small blocks (src/drivers/memory.c), maps the
-- address space onto itself (src/drivers/mmu.c), and shares core 0 between at most eight tasks by a
-- timer interrupt (src/drivers/task.c, src/drivers/timer.c, src/drivers/gic.c); the other cores only
-- count their ticks (src/drivers/smp.c). The shell of src/kernel.c is task 0: it reads lines from the
-- serial port (src/drivers/uart.c), carries out commands, and keeps files in memory (src/drivers/fs.c),
-- whose contents are in blocks of kmalloc.
--
-- * Memory models src/drivers/memory.c. Memory.Bitmap is the bitmap, a map from byte indices to
--   bytes. Memory.Pages is the page allocator (`page_alloc_n`, `page_free_n`), whose state is
--   PageState. Memory.Heap is the allocator of blocks (`memory_init`, `kmalloc`, `kfree`), whose
--   state is MemoryState: it holds the PageState and the block headers by address, and asks the
--   page allocator for large blocks and when its 64 pages are full.
-- * Task models src/drivers/task.c: the ready queue and `schedule_irq`. Task.Calls has
--   `scheduler_init`, `task_create`, `task_kill`, `task_sleep` and `task_exit`. A pointer to a task
--   is a number: 0 is NULL, and i + 1 is `&task_pool[i]`. Task.System puts the interrupt and the
--   calls together as a step relation.
-- * Fs models src/drivers/fs.c: the pool of nodes in Fs, path resolution (`next_component`,
--   `resolve_parent`, `fs_resolve`) in Fs.Path, and the calls in Fs.Api. A pointer to a node is a
--   number as for tasks. The state FsState holds the MemoryState of kmalloc. Fs.Tree is the
--   invariant of the directories.
-- * Shell models the history ring (`history_add`, `history_get`), and Shell.Editor the line editor of
--   src/kernel.c (`tab_complete`, `shell_readline`) as a state machine over the bytes received.
-- * Uart models the text output and the line input of src/drivers/uart.c, and Text the string helpers.
--   The registers that `uart_init` writes are in Uart.Setup.
--   What a command prints is a list of calls of the output functions, in Uart.Print.
-- * Mmu models src/drivers/mmu.c: the tables and registers of `mmu_init`, and `mmu_dump_config` in
--   Mmu.Dump. Mmu.Walk is the specification, how the hardware translates an address.
-- * Timer, Gic and Smp model src/drivers/timer.c, src/drivers/gic.c and src/drivers/smp.c: the shared
--   variables, and the registers as fields or as a map from addresses.
-- * Kernel models src/kernel.c: the state of all parts in one record, and `irq_handler_c`.
--   Kernel.Commands is `process_command`: the tests of the line, as data, give a Command, which `run`
--   carries out; the bodies are in Kernel.Show, Kernel.Memory, Kernel.Files and Kernel.Write.
--   Kernel.Main is `kernel_main`, as the state that the boot leaves and the turns of the shell's loop.
--   Kernel.Demo has the demo tasks; their output and sleeps, and the memory of `task_memtest`.
--   Kernel.Process and Kernel.Stored are about the commands as a whole, `write` apart from the others.
--   Kernel.System puts boot, interrupts, shell and tasks together as a step relation.
-- * Links is the theory of a list that is linked through the nodes of a store, which the free list
--   of the heap, the ready queue and the directories share. Prelude has the shared names and lemmas.
--
-- Numbers are natural numbers with the wrap-around of the C types written out where it can occur.
-- A C string is the list of its bytes up to the NUL. Loops run on fuel, and `none` means that it ran
-- out. The search for pages has fuel for each page and one more step; the walk along the ready queue
-- has nine steps, one more than there are tasks, and along the children of a directory 65, one more
-- than there are nodes; the walk along the free list takes its fuel as an argument, which must exceed
-- the length of the list. Where a theorem below says that an operation answers, the fuel suffices.
--
-- The loop of `write` has a step for each byte of input and one more. Where a loop waits for a register
-- to change, what is read from it in turn is an argument.
--
-- Not modelled: the flags of the UART and the delays of `uart_init`, echo, the messages of the
-- filesystem's calls and of task_create, the polling of `top` between two pictures, what clients other
-- than `task_memtest` store in their blocks, the assembly files and the spin lock, names of tasks that
-- overflow their array, and more than one core that schedules: the secondary cores of
-- src/drivers/smp.c do not call
-- the scheduler. The frequency and the readings of the counter, and whether memory reads back what is
-- written to it, are arguments. An interrupt comes between two turns of the shell, not within one.
pub mod Fs
pub mod Gic
pub mod Kernel
pub mod Links
pub mod Memory
pub mod Mmu
pub mod Prelude
pub mod Shell
pub mod Smp
pub mod Task
pub mod Text
pub mod Timer
pub mod Uart
