-- ===== src/Timer/Tests.antt =====
-- Runs of the timer of src/drivers/timer.c.
use rpi4_bare_metal_os.Prelude.{ℕ, ◌≡◌, ◌≤◌, ◌+◌, ◌*◌, ◌/◌, List, [], ◌∷◌, some, arith}
use rpi4_bare_metal_os.Timer.{timer_delay_ms}
use rpi4_bare_metal_os.Timer.Delay.{Rising, over, goes_on, timer_delay_ms-ends}

abbrev readings : List ℕ
readings = 11 ∷ 12 ∷ 15 ∷ []

readings-Rising : Rising 10 readings
readings-Rising =
    goes_on (omega arith) (omega arith)
      (goes_on (omega arith) (omega arith) (goes_on (omega arith) (omega arith) (over 15)))

timer_delay_ms-ends_example :
    (now : ℕ) × (timer_delay_ms 1000 3 (10 ∷ readings) ≡ some now) × (10 + 1000 / 1000 * 3 ≤ now)
timer_delay_ms-ends_example =
    timer_delay_ms-ends 1000 3 10 readings readings-Rising (omega arith) (omega arith) (omega arith)
