-- ===== src/Timer/Delay.antt =====
-- timer_delay_ms of src/drivers/timer.c waits long enough, and no longer than the counter needs.
use rpi4_bare_metal_os.Prelude.{
  ℕ, ◌+◌, ◌-◌, ◌*◌, ◌/◌, ◌%◌, ◌^◌, ◌≤◌, ◌<◌, ◌≡◌, refl, some, List, [], ◌∷◌, ltb, Bool-cases,
  length, inl, inr, arith,
}
use rpi4_bare_metal_os.Timer.{ticks_of, delay_loop, timer_delay_ms}

-- The counter goes on between two readings, and does not wrap.
pub data Rising : (from : ℕ) → List ℕ → Type 0 where
  over : (from : ℕ) → Rising from []
  goes_on :
      {from now : ℕ} {later : List ℕ}
      → from < now
      → now < 2 ^ 64
      → Rising now later
      → Rising from (now ∷ later)

-- At the reading that ends the wait the time is up, and at none before.
pub delay_loop-ends :
    (start ticks from : ℕ) (readings : List ℕ)
    → start ≤ from
    → Rising from readings
    → start + ticks ≤ from + length readings
    → from < start + ticks
    → (now : ℕ) × (delay_loop start ticks readings ≡ some now) × (start + ticks ≤ now)
unfolding delay_loop
delay_loop-ends start ticks from [] le r enough short = absurd (omega arith)
delay_loop-ends start ticks from (now ∷ later) le (goes_on up small r) enough short =
    let passed : (now + 2 ^ 64 - start) % 2 ^ 64 ≡ now - start = omega arith in
    elim (Bool-cases (ltb (now - start) ticks)) [
      | inl more ↦
          rw (passed, more, delay_loop)
            (delay_loop-ends start ticks now later (omega arith) r (omega arith) (ground arith))
      | inr up ↦ rw (passed, up, delay_loop) (now, refl, ground arith)
    ]

-- With a counter that advances between any two readings and does not wrap, timer_delay_ms returns
-- within as many readings as there are ticks in the milliseconds, and not before these have passed.
pub timer_delay_ms-ends :
    (freq ms start : ℕ) (readings : List ℕ)
    → Rising start readings
    → 0 < freq / 1000 * ms
    → freq / 1000 * ms < 2 ^ 64
    → freq / 1000 * ms ≤ length readings
    → (now : ℕ) × (timer_delay_ms freq ms (start ∷ readings) ≡ some now)
      × (start + freq / 1000 * ms ≤ now)
unfolding timer_delay_ms
timer_delay_ms-ends freq ms start readings r pos fits enough =
    let ticks : ticks_of freq ms ≡ freq / 1000 * ms = omega arith in
    rw ticks (
      delay_loop-ends start (freq / 1000 * ms) start readings (omega arith) r (omega arith)
        (omega arith))
