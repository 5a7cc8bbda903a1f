-- ===== src/Prelude/Powers.antt =====
-- Powers of two at a variable exponent.
use Prim.Native.Nat.{ℕ, suc, ◌+◌, ◌*◌, ◌/◌, ◌%◌, ◌^◌, ◌<◌}
use mathlib.Core.Path.{◌≡◌, ◌∙◌, ap}
use native.Mathlib.Nat.{pow-suc, one-le-pow, mul_comm, div-add-mod, mul-mod_right, add-mod_right}
use native.Mathlib.Numerals.{add-one}
use native.Mathlib.Omega.{arith}

pub two-pow-add-one : (k : ℕ) → 2 ^ (k + 1) ≡ 2 * 2 ^ k
two-pow-add-one k = ap (λ (t : ℕ). 2 ^ t) (add-one k) ∙ pow-suc 2 k ∙ mul_comm (2 ^ k) 2

pub two-pow-suc : (k : ℕ) → 2 ^ suc k ≡ 2 * 2 ^ k
two-pow-suc k = pow-suc 2 k ∙ mul_comm (2 ^ k) 2

pub two-pow-pos : (k : ℕ) → 0 < 2 ^ k
two-pow-pos k = one-le-pow k 2 (omega arith)

-- A multiple of `2 * t` is a multiple of `t`, and so is the middle between two of them.
pub half_aligned : (p t : ℕ) → p % (2 * t) ≡ 0 → (p % t ≡ 0) × ((p + t) % t ≡ 0)
half_aligned p t h =
    let q : ℕ = p / (2 * t) in
    let e : p ≡ t * (2 * q) = omega (arith, div-add-mod p (2 * t)) in
    let low : p % t ≡ 0 = ap (λ (n : ℕ). n % t) e ∙ mul-mod_right t (2 * q) in
    (low, add-mod_right p t ∙ low)
