-- ===== src/Word/Zeros.antt =====
-- What `leading_zeros` and `trailing_zeros` count, at every word.
use native.Mathlib.Nat.{pow-suc, mul_comm, mul_assoc, mul-mod_left}
use my_kernel.Prelude.{
  ℕ, zero, suc, ◌-◌, ◌*◌, ◌/◌, ◌%◌, ◌^◌, ◌≤◌, ◌<◌, ◌≡◌, ◌≢◌, ◌∙◌, ap, arith, ◌==◌, sym, Bool-cases,
  inl, inr, ==→eq,
}
use my_kernel.Word.{bit_length, leading_zeros, low_zeros, trailing_zeros, top_bit}

pub bit_length-le : (fuel n : ℕ) → bit_length fuel n ≤ fuel
unfolding bit_length
bit_length-le zero n = omega arith
bit_length-le (suc fuel) n = ground (arith, bit_length-le fuel (n / 2))

pub lt-bit_length : (fuel n : ℕ) → n < 2 ^ fuel → n < 2 ^ bit_length fuel n
unfolding bit_length
lt-bit_length zero n fits = fits
lt-bit_length (suc fuel) n fits =
    ground (arith, pow-suc 2 fuel, pow-suc 2 (bit_length fuel (n / 2)), lt-bit_length fuel (n / 2))

pub bit_length-tight : (fuel n : ℕ) → n < 2 ^ fuel → n ≢ 0 → 2 ^ bit_length fuel n ≤ 2 * n
unfolding bit_length
bit_length-tight zero n fits pos = absurd (omega arith)
bit_length-tight (suc zero) n fits pos = ground arith
bit_length-tight (suc (suc fuel)) n fits pos = ground (
  arith,
  pow-suc 2 (suc fuel),
  pow-suc 2 (bit_length (suc fuel) (n / 2)),
  bit_length-tight (suc fuel) (n / 2),
)

bit_length-pos : (fuel n : ℕ) → n < 2 ^ fuel → n ≢ 0 → 0 < bit_length fuel n
unfolding bit_length
bit_length-pos zero n fits pos = absurd (omega arith)
bit_length-pos (suc fuel) n fits pos = ground arith

-- `top_bit n` is the binary logarithm of a positive word.
pub top_bit_bounds :
    (n : ℕ) → n < 2 ^ 64 → n ≢ 0 → (2 ^ top_bit n ≤ n) × (n < 2 * 2 ^ top_bit n) × (top_bit n < 64)
unfolding top_bit leading_zeros
top_bit_bounds n fits pos =
    let digits : bit_length 64 n ≡ suc (63 - (64 - bit_length 64 n)) =
      omega (arith, bit_length-pos 64 n fits pos, bit_length-le 64 n) in
    let doubled : 2 ^ bit_length 64 n ≡ 2 * 2 ^ (63 - (64 - bit_length 64 n)) =
      ap (λ (t : ℕ). 2 ^ t) digits
      ∙ pow-suc 2 (63 - (64 - bit_length 64 n))
      ∙ mul_comm (2 ^ (63 - (64 - bit_length 64 n))) 2 in
    omega (arith, doubled, lt-bit_length 64 n fits, bit_length-tight 64 n fits pos)

-- What is left of `n` without its low zeros.
low_zeros_quotient : (fuel n : ℕ) → (q : ℕ) × (n ≡ q * 2 ^ low_zeros fuel n)
unfolding low_zeros
low_zeros_quotient zero n = (n, omega arith)
low_zeros_quotient (suc fuel) n =
    let (q, half) = low_zeros_quotient fuel (n / 2) in
    let twice : q * 2 ^ suc (low_zeros fuel (n / 2)) ≡ q * 2 ^ low_zeros fuel (n / 2) * 2 =
      ap (λ (t : ℕ). q * t) (pow-suc 2 (low_zeros fuel (n / 2))) ∙ sym (mul_assoc q _ 2) in
    elim (Bool-cases (n % 2 == 0)) [
      | inl even ↦ (q, rw even (omega (arith, twice, half, ==→eq (n % 2) 0 even)))
      | inr odd ↦ (n, rw odd (omega arith))
    ]

-- `2 ^ n.trailing_zeros()` divides `n`.
pub trailing_zeros-divides : (n : ℕ) → n % 2 ^ trailing_zeros n ≡ 0
unfolding trailing_zeros
trailing_zeros-divides n =
    let (q, e) = low_zeros_quotient 64 n in
    ap (λ (t : ℕ). t % 2 ^ low_zeros 64 n) e ∙ mul-mod_left q (2 ^ low_zeros 64 n)
