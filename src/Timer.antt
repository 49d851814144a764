-- ===== src/Timer.antt =====
-- The timer of src/drivers/timer.c. The frequency of the counter, and what is read from it, are
-- arguments.
pub mod Delay
mod Tests
use rpi4_bare_metal_os.Prelude.{
  ℕ, ◌+◌, ◌-◌, ◌*◌, ◌/◌, ◌%◌, ◌^◌, true, false, Option, none, some, List, [], ◌∷◌, ltb, ◌==◌,
  if◌then◌else◌,
}

-- The variables that all cores share.
pub record Timer : Type 0 where
  pub tick_count : ℕ
  pub timer_interval : ℕ

-- The registers of one core: the ticks to the next interrupt, and the control register.
pub record CoreTimer : Type 0 where
  pub cntp_tval : ℕ
  pub cntp_ctl : ℕ

-- The ticks of the counter in so many milliseconds, 64 bits wide.
abbrev pub ticks_of : (freq ms : ℕ) → ℕ
ticks_of freq ms = freq / 1000 * ms % 2 ^ 64

unfoldable pub timer_init : (freq interval_ms : ℕ) → Timer × CoreTimer → Timer × CoreTimer
timer_init freq interval_ms (t, c) =
    let interval : ℕ = ticks_of freq interval_ms in
    (record t { timer_interval = interval }, record { cntp_tval = interval; cntp_ctl = 1 })

unfoldable pub timer_handle_irq : (freq : ℕ) → Timer × CoreTimer → Timer × CoreTimer
timer_handle_irq freq (t, c) =
    let interval : ℕ = if t.timer_interval == 0 then ticks_of freq 100 else t.timer_interval in
    (record t { tick_count = (t.tick_count + 1) % 2 ^ 64 }, record c { cntp_tval = interval })

-- The wait for `ticks` from `start` on, over what the counter reads in turn: what is read last, or
-- `none` if the time is not up by then.
unfoldable pub delay_loop : (start ticks : ℕ) → (readings : List ℕ) → Option ℕ
delay_loop start ticks [] = none
delay_loop start ticks (now ∷ later) = elim (ltb ((now + 2 ^ 64 - start) % 2 ^ 64) ticks) [
  | true ↦ delay_loop start ticks later
  | false ↦ some now
]

-- The first reading is the start.
unfoldable pub timer_delay_ms : (freq ms : ℕ) → (readings : List ℕ) → Option ℕ
timer_delay_ms freq ms [] = none
timer_delay_ms freq ms (start ∷ later) = delay_loop start (ticks_of freq ms) later
