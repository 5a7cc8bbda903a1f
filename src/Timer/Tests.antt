-- ===== src/Timer/Tests.antt =====
-- A wait of src/timer.rs, on a clock that moves on with every read.
use my_kernel.Prelude.{ℕ, ◌+◌, ◌≡◌, refl, arith, some}
use my_kernel.Timer.{sleep_ms}
use my_kernel.Timer.Wait.{Ticks, Waited, sleep_ms-Waited}

abbrev clock : ℕ → ℕ
clock n = 100 + n

sleep_five : sleep_ms 20 clock 5 ≡ some 5
unfolding sleep_ms
sleep_five = refl

clock-Ticks : Ticks clock 1
clock-Ticks = record { forward = λ n. omega arith; moves = λ n. omega arith }

sleep_ms-Waited_example : Waited clock (clock 0 + 5) 1 (sleep_ms 20 clock 5)
sleep_ms-Waited_example = sleep_ms-Waited clock 1 5 20 clock-Ticks (omega arith) (omega arith)
