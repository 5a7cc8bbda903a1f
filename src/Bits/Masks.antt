-- ===== src/Bits/Masks.antt =====
-- Masks: `x & (2^k - 1)` is a remainder, and a mask of `d` ones above `k` zeros takes the digits there.
use my_kernel.Bits.Digits.{and_step}
use native.Mathlib.Nat.{div-add-mod, div-div-eq-div-mul, mod-one, div-one}
use my_kernel.Prelude.{
  ℕ, zero, suc, ◌+◌, ◌-◌, ◌*◌, ◌/◌, ◌%◌, ◌^◌, min, ◌≡◌, ◌∙◌, ap, arith, bit_and, two-pow-suc,
  two-pow-pos, sym,
}
use my_kernel.Bits.{and_zero_below}

-- The remainder by `2 * t` from the lowest digit and the remainder of the half by `t`.
pub mod_double : (a t : ℕ) → a % (2 * t) ≡ (a / 2 % t) * 2 + a % 2
mod_double a t =
    let q : t * (a / 2 / t) ≡ t * (a / (2 * t)) =
      ap (λ (n : ℕ). t * n) (div-div-eq-div-mul a 2 t) in
    let s : 2 * t * (a / (2 * t)) ≡ 2 * (t * (a / (2 * t))) = omega arith in
    omega (arith, div-add-mod a (2 * t), div-add-mod (a / 2) t, q, s)

pub bit_and-ones : (k a : ℕ) → bit_and a (2 ^ k - 1) ≡ a % 2 ^ k
bit_and-ones zero a = and_zero_below a a (omega arith) ∙ sym (mod-one a)
bit_and-ones (suc k) a =
    let half : (2 ^ suc k - 1) / 2 ≡ 2 ^ k - 1 = omega (arith, two-pow-suc k, two-pow-pos k) in
    let step = ap (λ (m : ℕ). bit_and (a / 2) m * 2 + min (a % 2) ((2 ^ suc k - 1) % 2)) half in
    let modulus : a % 2 ^ suc k ≡ a % (2 * 2 ^ k) = ap (λ (n : ℕ). a % n) (two-pow-suc k) in
    omega (
      arith,
      and_step a (2 ^ suc k - 1),
      step,
      bit_and-ones k (a / 2),
      mod_double a (2 ^ k),
      modulus,
      two-pow-suc k,
      two-pow-pos k,
    )

pub bit_and-high : (k d a : ℕ) → bit_and a (2 ^ k * (2 ^ d - 1)) ≡ 2 ^ k * (a / 2 ^ k % 2 ^ d)
bit_and-high zero d a =
    let mask : 2 ^ zero * (2 ^ d - 1) ≡ 2 ^ d - 1 = omega arith in
    ap (bit_and a) mask
    ∙ bit_and-ones d a
    ∙ ap (λ (n : ℕ). n % 2 ^ d) (sym (div-one a))
    ∙ omega arith
bit_and-high (suc k) d a =
    let ones : ℕ = 2 ^ d - 1 in
    let mask : 2 ^ suc k * ones ≡ 2 * (2 ^ k * ones) =
      ap (λ (n : ℕ). n * ones) (two-pow-suc k) ∙ omega arith in
    let half : 2 ^ suc k * ones / 2 ≡ 2 ^ k * ones = omega (arith, mask) in
    let step = ap (bit_and (a / 2)) half in
    let quotient : a / 2 / 2 ^ k ≡ a / 2 ^ suc k =
      div-div-eq-div-mul a 2 (2 ^ k) ∙ ap (λ (n : ℕ). a / n) (sym (two-pow-suc k)) in
    let digits = ap (λ (n : ℕ). 2 ^ k * (n % 2 ^ d)) quotient in
    let result : 2 ^ suc k * (a / 2 ^ suc k % 2 ^ d) ≡ 2 * (2 ^ k * (a / 2 ^ suc k % 2 ^ d)) =
      ap (λ (n : ℕ). n * (a / 2 ^ suc k % 2 ^ d)) (two-pow-suc k) ∙ omega arith in
    omega
      (arith, and_step a (2 ^ suc k * ones), step, bit_and-high k d (a / 2), digits, result, mask)
