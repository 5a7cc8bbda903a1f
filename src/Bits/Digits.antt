-- ===== src/Bits/Digits.antt =====
-- The recursion on binary digits behind `&`, `|` and `^`, as one equation for the lowest digit.
use Prim.Native.Nat.{digits, bitwise, differ, bit_and-bitwise, bit_or-bitwise, bit_xor-bitwise}
use native.Mathlib.Nat.{le_refl}
use my_kernel.Prelude.{ℕ, zero, suc, ◌+◌, ◌*◌, ◌/◌, ◌%◌, ◌≤◌, min, max, ◌≡◌, refl, arith}
use my_kernel.Prelude.{bit_and, bit_or, bit_xor}

module _ (tail : ℕ → ℕ) (op : ℕ → ℕ → ℕ) where
  -- More fuel than digits changes nothing.
  fuel_irrelevant : (j k a b : ℕ) → a ≤ j → a ≤ k → digits tail op j a b ≡ digits tail op k a b
  fuel_irrelevant zero zero a b le_j le_k = refl
  fuel_irrelevant zero (suc k) zero b le_j le_k = refl
  fuel_irrelevant zero (suc k) (suc a) b le_j le_k = absurd (omega arith)
  fuel_irrelevant (suc j) zero zero b le_j le_k = refl
  fuel_irrelevant (suc j) zero (suc a) b le_j le_k = absurd (omega arith)
  fuel_irrelevant (suc j) (suc k) zero b le_j le_k = refl
  fuel_irrelevant (suc j) (suc k) (suc a) b le_j le_k =
      rw (fuel_irrelevant j k (suc a / 2) (b / 2) (omega arith) (omega arith))

  lowest_digit :
      (a b : ℕ)
      → bitwise tail op (suc a) b ≡ bitwise tail op (suc a / 2) (b / 2) * 2 + op (suc a % 2) (b % 2)
  lowest_digit a b =
      omega (arith, fuel_irrelevant a (suc a / 2) (suc a / 2) (b / 2) (omega arith) (le_refl _))

pub and_step : (a b : ℕ) → bit_and a b ≡ bit_and (a / 2) (b / 2) * 2 + min (a % 2) (b % 2)
and_step zero b = simp bit_and-bitwise (omega arith)
and_step (suc a) b = simp bit_and-bitwise (lowest_digit (λ y. 0) min a b)

pub or_step : (a b : ℕ) → bit_or a b ≡ bit_or (a / 2) (b / 2) * 2 + max (a % 2) (b % 2)
or_step zero b = simp bit_or-bitwise (omega arith)
or_step (suc a) b = simp bit_or-bitwise (lowest_digit (λ y. y) max a b)

pub xor_step : (a b : ℕ) → bit_xor a b ≡ bit_xor (a / 2) (b / 2) * 2 + differ (a % 2) (b % 2)
xor_step zero b = simp bit_xor-bitwise (omega arith)
xor_step (suc a) b = simp bit_xor-bitwise (lowest_digit (λ y. y) differ a b)
