-- ===== src/Kernel/Process.antt =====
-- process_command of src/kernel.c: every command but `write` answers, and leaves the scheduler to calls
-- of the running task and the directories a tree. For `write` see Kernel.Stored.
use rpi4_bare_metal_os.Prelude.{Bool, true, false}
use rpi4_bare_metal_os.Uart.Print.{Print}
use rpi4_bare_metal_os.Kernel.{Kernel}
use rpi4_bare_metal_os.Kernel.Commands.{Command, write}
use rpi4_bare_metal_os.Kernel.Steps.{Calls}
use rpi4_bare_metal_os.Fs.Treed.{Treed}
use rpi4_bare_metal_os.Kernel.Ends.{Ends}

-- `write` waits for the end of its text.
abbrev pub is_write : Command → Bool
is_write (write path) = true
is_write command = false
