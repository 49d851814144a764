-- ===== src/Kernel/Kill.antt =====
-- The command kill of src/kernel.c on every branch.
use rpi4_bare_metal_os.Prelude.{
  ℕ, ◌%◌, ◌^◌, ◌≡◌, ◌≢◌, inl, inr, refl, true, List, some, ◌==◌, length, arith, Bool-cases, [], ◌∷◌,
}
use rpi4_bare_metal_os.Text.{parse_num, parse_digits}
use rpi4_bare_metal_os.Uart.Print.{Print}
use rpi4_bare_metal_os.Task.{Scheduler}
use rpi4_bare_metal_os.Task.Invariant.{IsScheduler}
use rpi4_bare_metal_os.Task.Calls.Kill.{Killed, Spared, task_kill_lem}
use rpi4_bare_metal_os.Kernel.{Kernel}
use rpi4_bare_metal_os.Kernel.Args.{skip_spaces}
use rpi4_bare_metal_os.Kernel.Commands.{cmd_kill}

-- With no number, or 0, nothing changes. Otherwise task_kill is called with the lowest 32 bits of the
-- number: the first live task of that number is dead and off the queue, unless it is the shell or
-- the caller; all else of the kernel stays as it is.
pub data KillDone (k : Kernel) (queue : List ℕ) (n : ℕ) : Kernel → Type 0 where
  refused : n ≡ 0 → KillDone k queue n k
  dies :
      (s' : Scheduler) (p : ℕ)
      → n ≢ 0
      → Killed k.scheduler s' queue (n % 2 ^ 32) p
      → KillDone k queue n (record k { scheduler = s' })
  spares :
      (s' : Scheduler)
      → n ≢ 0
      → Spared k.scheduler s' (n % 2 ^ 32)
      → KillDone k queue n (record k { scheduler = s' })

parse_num-empty : (s : List ℕ) → (length s == 0) ≡ true → parse_num s ≡ 0
unfolding parse_num parse_digits
parse_num-empty [] e = refl
parse_num-empty (c ∷ cs) e = ground arith

-- kill returns for every argument and every scheduler in order, and leaves the kernel as it is, or
-- with the task dead whose number is the lowest 32 bits of the argument.
pub cmd_kill-KillDone :
    (text queue : List ℕ) (k : Kernel)
    → IsScheduler k.scheduler queue
    → (k' : Kernel) × (out : List Print) × (cmd_kill text k ≡ some (k', out))
      × KillDone k queue (parse_num (skip_spaces text)) k'
unfolding cmd_kill
cmd_kill-KillDone text queue k inv =
    let arg : List ℕ = skip_spaces text in
    elim (Bool-cases (length arg == 0)) [
      | inl e ↦ rw e (k, _, refl, refused (parse_num-empty arg e))
      | inr e ↦ elim (Bool-cases (parse_num arg == 0)) [
        | inl e' ↦ rw (e, e') (k, _, refl, refused (ground arith))
        | inr e' ↦
            let (r, done, answer) = task_kill_lem inv (parse_num arg % 2 ^ 32) in
            rw (e, e', done)
              (
                record k { scheduler = r.0 },
                _,
                refl,
                elim answer [
                  | inl (yes_, (p, gone)) ↦ dies r.0 p (ground arith) gone
                  | inr (no_, spared) ↦ spares r.0 (ground arith) spared
                ],
              )
      ]
    ]
