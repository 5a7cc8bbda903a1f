-- ===== src/Timer.antt =====
-- The millisecond clock, src/timer.rs. Between two reads of `TICKS` the interrupt handler may have run any
-- number of times: the reads that a wait loop makes are a sequence, and the wait is on fuel.
mod Wait
mod Tests
use my_kernel.Prelude.{
  ℕ, zero, suc, ◌+◌, ◌-◌, ◌/◌, ◌%◌, ◌^◌, Option, none, some, ltb, if◌then◌else◌, List, [], ◌∷◌,
}

abbrev pub pit_base_hz : ℕ
pit_base_hz = 1193182

abbrev pub timer_hz : ℕ
timer_hz = 1000

abbrev pub pit_divisor : ℕ
pit_divisor = pit_base_hz / timer_hz % 2 ^ 16

-- The writes of `init`: port and byte.
unfoldable pub init : List (ℕ × ℕ)
init = (0x43, 0x34) ∷ (0x40, pit_divisor % 2 ^ 8) ∷ (0x40, pit_divisor / 2 ^ 8 % 2 ^ 8) ∷ []

unfoldable pub saturating_add : ℕ → ℕ → ℕ
saturating_add a b = if ltb (a + b) (2 ^ 64) then a + b else 2 ^ 64 - 1

-- The loop of `sleep_ms`: `uptime_ms n` is what the `n`-th read answers, and the result is the number of the read
-- that ended the loop.
unfoldable pub wait : (fuel : ℕ) → (uptime_ms : ℕ → ℕ) → (finish n : ℕ) → Option ℕ
wait zero uptime_ms finish n = none
wait (suc fuel) uptime_ms finish n =
    let later = wait fuel uptime_ms finish (n + 1) in
    if ltb (uptime_ms n) finish then later else some n

unfoldable pub sleep_ms : (fuel : ℕ) → (uptime_ms : ℕ → ℕ) → (ms : ℕ) → Option ℕ
unfolding wait saturating_add
sleep_ms fuel uptime_ms ms = wait fuel uptime_ms (saturating_add (uptime_ms 0) ms) 1
