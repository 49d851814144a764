-- ===== src/Kernel/Moves.antt =====
-- What each command of src/kernel.c does to the scheduler and to the directories.
use rpi4_bare_metal_os.Prelude.{
  ℕ, ◌≡◌, List, [], ◌∷◌, Option, some, ◌==◌, length, not, ltb, ◌>>=◌, All, all_some, All-if,
  All-bind, All-then, All-at, if◌then◌else◌, ◌&&◌, all_none, Bool-cases, inl, inr,
}
use rpi4_bare_metal_os.Uart.Print.{Print, puts, say}
use rpi4_bare_metal_os.Fs.{FsState, is_dir}
use rpi4_bare_metal_os.Fs.Path.{fs_resolve}
use rpi4_bare_metal_os.Fs.Api.{fs_write, fs_set_cwd, fs_mkdir, fs_rmdir, fs_touch, fs_rm}
use rpi4_bare_metal_os.Fs.Resolve.{root_linked}
use rpi4_bare_metal_os.Fs.Calls.{fs_set_cwd-IsTree}
use rpi4_bare_metal_os.Fs.Treed.{
  Treed, fs_set_cwd-Treed, fs_mkdir-Treed, fs_rmdir-Treed, fs_touch-Treed, fs_rm-Treed,
  fs_write-Treed,
}
use rpi4_bare_metal_os.Memory.Pages.{page_alloc}
use rpi4_bare_metal_os.Fs.Ls.{fs_ls}
use rpi4_bare_metal_os.Kernel.{Kernel}
use rpi4_bare_metal_os.Kernel.Args.{Done, skip_spaces}
use rpi4_bare_metal_os.Kernel.Memory.{cmd_alloc, cmd_pgalloc}
use rpi4_bare_metal_os.Kernel.Files.{cmd_cd, with_path, cmd_cat}
use rpi4_bare_metal_os.Kernel.Write.{
  Reply, cmd_write_interactive, store_text, write_text, finish_text, WriteEnd, typed, aborted,
  waits, out_of_fuel, read_text,
}
use rpi4_bare_metal_os.Kernel.Commands.{
  Board, cmd_kill, cmd_spawn, cmd_memtest, Command, help, clear, ps, top, history, mmu, cpus, time,
  info, spawn, memtest, mem, pgalloc, pwd, alloc, pgfree, kill, ls, cd, mkdir, rmdir, touch, cat,
  write, rm, unknown, find_command, tests, shown, reply, run, process_command,
}
use rpi4_bare_metal_os.Kernel.Carried.{
  Carried, Fine, FineReply, same, by_fs, by_memory, kill_moves, memtest_moves, spawn_moves,
  alloc_moves, pgfree_moves,
}

module _ (board : Board) (k : Kernel) where
  cd_moves : (arg : List ℕ) → All (Fine board k) (cmd_cd arg k)
  unfolding cmd_cd
  cd_moves arg =
      All-if (Fine board k) (length arg == 0)
        (all_some (
          by_fs board k (fs_set_cwd k.fs.root k.fs)
            (λ t. (t.0, fs_set_cwd-IsTree t.1 k.fs.root (inr (t.1.root.0, root_linked t.1))))))
        (All-then (Fine board k) (λ dir. fs_resolve arg k.fs ≡ some dir) (fs_resolve arg k.fs)
          (λ dir found. found) chosen)
    where
      chosen :
          (dir : ℕ)
          → fs_resolve arg k.fs ≡ some dir
          → All (Fine board k) (
              some (
                if dir == 0
                then (k, say "cd: not found: " ∷ puts arg ∷ say "\n" ∷ [])
                else (if is_dir (k.fs.node_pool dir).kind
                    then (record k { fs = fs_set_cwd dir k.fs }, [])
                    else (k, say "cd: not a directory: " ∷ puts arg ∷ say "\n" ∷ []))))
      chosen dir found = elim (Bool-cases (dir == 0)) [
        | inl e ↦ rw e (all_some (same board k))
        | inr e ↦ elim (Bool-cases (is_dir (k.fs.node_pool dir).kind)) [
          | inl e' ↦
              rw (e, e')
                (all_some (by_fs board k (fs_set_cwd dir k.fs) (fs_set_cwd-Treed arg dir found)))
          | inr e' ↦ rw (e, e') (all_some (same board k))
        ]
      ]

  path_moves :
      {A : Type 0} (usage : Print) (call : List ℕ → FsState → Option (FsState × A)) (arg : List ℕ)
      → ((r : FsState × A) → call arg k.fs ≡ some r → Treed k.fs → Treed r.0)
      → All (Fine board k) (with_path usage call arg k)
  path_moves usage call arg keeps =
      All-if (Fine board k) (length arg == 0) (all_some (same board k)) (
        All-then (Fine board k) (λ r. Treed k.fs → Treed r.0) (call arg k.fs) keeps
          (λ r tree. all_some (by_fs board k r.0 tree)))

  reply_moves :
      (input : List ℕ) (done : Done)
      → All (Fine board k) done
      → All (FineReply board k) (reply input done)
  reply_moves input done fine =
      All-then (FineReply board k) (Fine board k) done (All-at (Fine board k) done fine)
        (λ r moved. all_some moved)

  shown_moves :
      (input : List ℕ) (out : Option (List Print))
      → All (FineReply board k) (do ps' ← out; shown k input ps')
  shown_moves input out = All-bind (FineReply board k) out (λ ps'. all_some (same board k))

  store_moves : (path content : List ℕ) → All (Fine board k) (store_text board.fuel path content k)
  unfolding store_text
  store_moves path content =
      All-if (Fine board k) (ltb 0 (length content))
        (All-then (Fine board k) (λ r. Treed k.fs → Treed r.0)
          (fs_write board.fuel path content k.fs) (fs_write-Treed board.fuel path content)
          (λ r tree. all_some (by_fs board k r.0 tree)))
        (all_some (same board k))

  text_moves :
      (path : List ℕ) (r : WriteEnd × List Print)
      → All (FineReply board k) (finish_text board.fuel path k r)
  unfolding finish_text
  text_moves path (typed content rest, out) =
      All-then (FineReply board k) (Fine board k) (store_text board.fuel path content k)
        (All-at (Fine board k) (store_text board.fuel path content k) (store_moves path content))
        (λ r moved. all_some moved)
  text_moves path (aborted rest, out) = all_some (same board k)
  text_moves path (waits, out) = all_none
  text_moves path (out_of_fuel, out) = all_none

  write_moves :
      (path input : List ℕ)
      → All (FineReply board k) (cmd_write_interactive board.fuel path input k)
  unfolding cmd_write_interactive
  write_moves path input = All-if (FineReply board k) (length path == 0) (all_some (same board k)) (
      All-bind (FineReply board k) (fs_resolve path k.fs) (λ file.
        All-if (FineReply board k) (not (file == 0) && is_dir (k.fs.node_pool file).kind)
          (all_some (same board k))
          (All-then (FineReply board k) (FineReply board k) (write_text board.fuel path input k)
            (All-at (FineReply board k) (write_text board.fuel path input k)
              (text_moves path (read_text input)))
            (λ r moved. all_some moved))))

  run_moves :
      (command : Command) (input : List ℕ) → All (FineReply board k) (run board command input k)
  unfolding run cmd_pgalloc
  run_moves help input = all_some (same board k)
  run_moves clear input = all_some (same board k)
  run_moves ps input = all_some (same board k)
  run_moves top input = all_some (same board k)
  run_moves history input = all_some (same board k)
  run_moves mmu input = all_some (same board k)
  run_moves cpus input = all_some (same board k)
  run_moves time input = all_some (same board k)
  run_moves info input = all_some (same board k)
  run_moves spawn input = reply_moves input (cmd_spawn board k) (spawn_moves board k)
  run_moves memtest input = reply_moves input (cmd_memtest board k) (memtest_moves board k)
  run_moves mem input = all_some (same board k)
  run_moves pgalloc input =
      all_some (by_memory board k (record k.fs.memory { pages = (page_alloc k.fs.memory.pages).0 }))
  run_moves pwd input = all_some (same board k)
  run_moves (alloc text) input =
      reply_moves input (cmd_alloc board.fuel text k) (alloc_moves board k text)
  run_moves (pgfree text) input = all_some (pgfree_moves board k text)
  run_moves (kill text) input = reply_moves input (cmd_kill text k) (kill_moves board k text)
  run_moves (ls path) input = shown_moves input (fs_ls path k.fs)
  run_moves (cd path) input = reply_moves input (cmd_cd path k) (cd_moves path)
  run_moves (mkdir path) input =
      let usage : Print = say "Usage: mkdir <dirname>\n" in
      reply_moves input (with_path usage fs_mkdir path k)
        (path_moves usage fs_mkdir path (fs_mkdir-Treed path))
  run_moves (rmdir path) input =
      let usage : Print = say "Usage: rmdir <dirname>\n" in
      reply_moves input (with_path usage fs_rmdir path k)
        (path_moves usage fs_rmdir path (fs_rmdir-Treed path))
  run_moves (touch path) input =
      let usage : Print = say "Usage: touch <filename>\n" in
      reply_moves input (with_path usage fs_touch path k)
        (path_moves usage fs_touch path (fs_touch-Treed path))
  run_moves (cat path) input = shown_moves input (cmd_cat path k)
  run_moves (write path) input = write_moves path input
  run_moves (rm path) input =
      let usage : Print = say "Usage: rm <filename>\n" in
      reply_moves input (with_path usage fs_rm path k)
        (path_moves usage fs_rm path (fs_rm-Treed path))
  run_moves (unknown cmd) input = all_some (same board k)

  process_command_moves :
      (cmd input : List ℕ) → All (FineReply board k) (process_command board cmd input k)
  unfolding process_command
  process_command_moves cmd input =
      All-if (FineReply board k) (length (skip_spaces cmd) == 0) (all_some (same board k))
        (run_moves (find_command tests (skip_spaces cmd)) input)

-- Whatever a command leaves, where it answers.
pub process_command-Carried :
    (board : Board) (k : Kernel) (cmd input : List ℕ) (r : Reply)
    → process_command board cmd input k ≡ some r
    → Carried board k r.kernel
process_command-Carried board k cmd input r done =
    All-at (FineReply board k) (process_command board cmd input k)
      (process_command_moves board k cmd input) r done
