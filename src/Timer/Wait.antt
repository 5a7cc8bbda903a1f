-- ===== src/Timer/Wait.antt =====
-- `sleep_ms` of src/timer.rs waits long enough, and ends.
use my_kernel.Prelude.{
  ℕ, zero, suc, ◌+◌, ◌^◌, ◌≤◌, ◌<◌, ◌≡◌, refl, ap, ◌*◌, arith, Option, some, ltb, ltb→lt,
  Bool-cases, inl, inr, lt→ltb,
}
use my_kernel.Timer.{wait, sleep_ms, saturating_add}

-- The clock never goes back, and moves on at least once in `gap` reads.
pub record Ticks (uptime_ms : ℕ → ℕ) (gap : ℕ) : Type 0 where
  pub forward : (n : ℕ) → uptime_ms n ≤ uptime_ms (n + 1)
  pub moves : (n : ℕ) → uptime_ms n < uptime_ms (n + gap)

-- The loop ended at a read `n` that shows at least `finish`, and not before.
pub record Waited (uptime_ms : ℕ → ℕ) (finish start : ℕ) (r : Option ℕ) : Type 0 where
  pub last : ℕ
  pub result : r ≡ some last
  pub reached : finish ≤ uptime_ms last
  pub from_start : start ≤ last
  pub needed : (n : ℕ) → start ≤ n → n < last → uptime_ms n < finish

-- A clock that shows `finish` in `k` reads and not now shows it in `k - 1` reads after the next.
one_later :
    (uptime_ms : ℕ → ℕ) (finish fuel n k : ℕ)
    → k < suc fuel
    → finish ≤ uptime_ms (n + k)
    → uptime_ms n < finish
    → (j : ℕ) × (j < fuel) × (finish ≤ uptime_ms (n + 1 + j))
one_later uptime_ms finish fuel n zero lt late early =
    let same : n + 0 ≡ n = omega arith in absurd (omega (arith, ap uptime_ms same))
one_later uptime_ms finish fuel n (suc k) lt late early =
    let same : n + suc k ≡ n + 1 + k = omega arith in
    (k, omega arith, omega (arith, ap uptime_ms same))

mul_suc : (m g : ℕ) → suc m * g ≡ g + m * g
mul_suc m g = omega arith

wait-Waited :
    (uptime_ms : ℕ → ℕ) (finish fuel n : ℕ)
    → (k : ℕ) → k < fuel
    → finish ≤ uptime_ms (n + k)
    → Waited uptime_ms finish n (wait fuel uptime_ms finish n)
unfolding wait
wait-Waited uptime_ms finish zero n k lt late = absurd (omega arith)
wait-Waited uptime_ms finish (suc fuel) n k lt late = elim (Bool-cases (ltb (uptime_ms n) finish)) [
  | inl early ↦
      let not_yet : uptime_ms n < finish = ltb→lt _ _ early in
      let later : (j : ℕ) × (j < fuel) × (finish ≤ uptime_ms (n + 1 + j)) =
        one_later uptime_ms finish fuel n k lt late not_yet in
      let rest = wait-Waited uptime_ms finish fuel (n + 1) later.0 later.1 later.2 in
      rw early (record {
        last = rest.last;
        result = rest.result;
        reached = rest.reached;
        from_start = omega (arith, rest.from_start);
        needed = λ j from before. elim (Bool-cases (ltb n j)) [
          | inl past ↦ rest.needed j (omega (arith, ltb→lt _ _ past)) before
          | inr at ↦ let same : j ≡ n = ground arith in rw same not_yet
        ];
      })
  | inr done ↦ rw done (record {
    last = n;
    result = refl;
    reached = ground arith;
    from_start = omega arith;
    needed = λ j from before. absurd (omega arith);
  })
]

-- In `gap * ms` reads the clock moves on by `ms`.
moves_by :
    (uptime_ms : ℕ → ℕ) (gap : ℕ)
    → Ticks uptime_ms gap
    → (ms n : ℕ) → uptime_ms n + ms ≤ uptime_ms (n + ms * gap)
moves_by uptime_ms gap t zero n =
    let same : n + zero * gap ≡ n = omega arith in rw same (omega arith)
moves_by uptime_ms gap t (suc ms) n =
    let next : n + suc ms * gap ≡ n + gap + ms * gap = omega (arith, mul_suc ms gap) in
    rw next (omega (arith, moves_by uptime_ms gap t ms (n + gap), t.moves n))

-- If the clock never goes back and moves on at least once in `gap` reads, `sleep_ms` ends within
-- `ms * gap + 1` reads, at the first read that is at least `ms` after the start, provided that the end time does
-- not overflow.
pub sleep_ms-Waited :
    (uptime_ms : ℕ → ℕ) (gap ms fuel : ℕ)
    → Ticks uptime_ms gap
    → uptime_ms 0 + ms < 2 ^ 64
    → ms * gap < fuel
    → Waited uptime_ms (uptime_ms 0 + ms) 1 (sleep_ms fuel uptime_ms ms)
unfolding sleep_ms saturating_add
sleep_ms-Waited uptime_ms gap ms fuel t fits enough =
    let late : uptime_ms 0 + ms ≤ uptime_ms (1 + ms * gap) =
      omega (arith, t.forward 0, moves_by uptime_ms gap t ms 1) in
    rw (lt→ltb _ _ fits) (wait-Waited uptime_ms (uptime_ms 0 + ms) fuel 1 (ms * gap) enough late)
