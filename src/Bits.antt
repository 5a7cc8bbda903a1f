-- ===== src/Bits.antt =====
-- Single bits of the native numbers: what `&`, `|`, `^` and shifts by a variable do to each bit.
-- The bitmaps of the allocators and the masks of the interrupt controller rest on these laws.
mod Digits
pub mod Masks
pub mod Sets
pub mod Bytes
use Digits.{and_step, or_step, xor_step}
use Prim.Native.Nat.{differ, bit_or-bitwise}
use native.Mathlib.Nat.{pow-suc, one-le-pow, div-div-eq-div-mul}
use my_kernel.Prelude.{
  ℕ, zero, suc, ◌+◌, ◌-◌, ◌*◌, ◌/◌, ◌%◌, ◌^◌, ◌≤◌, ◌<◌, min, max, ◌≡◌, refl, ◌∙◌, ap, ◌≢◌, arith,
  bit_and, bit_or, bit_xor, ◌==◌, if◌then◌else◌,
}

-- Bit `k` of `n`, by halving.
pub bit_at : ℕ → ℕ → ℕ
bit_at n zero = n % 2
bit_at n (suc k) = bit_at (n / 2) k

pub bit_at-lt : (n k : ℕ) → bit_at n k < 2
unfolding bit_at
bit_at-lt n zero = omega arith
bit_at-lt n (suc k) = bit_at-lt (n / 2) k

-- The code's way to read a bit: `(n >> k) & 1`.
pub bit_at-eq-shift : (k n : ℕ) → bit_at n k ≡ n / 2 ^ k % 2
unfolding bit_at
bit_at-eq-shift zero n = omega arith
bit_at-eq-shift (suc k) n =
    bit_at-eq-shift k (n / 2)
    ∙ ap (λ (t : ℕ). t % 2)
        (div-div-eq-div-mul n 2 (2 ^ k) ∙ ap (λ (t : ℕ). n / t) (omega (arith, pow-suc 2 k)))

pub bit_at-and : (k a b : ℕ) → bit_at (bit_and a b) k ≡ min (bit_at a k) (bit_at b k)
unfolding bit_at
bit_at-and zero a b = omega (arith, and_step a b)
bit_at-and (suc k) a b =
    ap (λ (t : ℕ). bit_at t k) (omega (arith, and_step a b)) ∙ bit_at-and k (a / 2) (b / 2)

pub bit_at-or : (k a b : ℕ) → bit_at (bit_or a b) k ≡ max (bit_at a k) (bit_at b k)
unfolding bit_at
bit_at-or zero a b = omega (arith, or_step a b)
bit_at-or (suc k) a b =
    ap (λ (t : ℕ). bit_at t k) (omega (arith, or_step a b)) ∙ bit_at-or k (a / 2) (b / 2)

differ-lt : (a b : ℕ) → a < 2 → b < 2 → differ a b ≡ (a + b) % 2
differ-lt zero zero p q = refl
differ-lt zero (suc zero) p q = refl
differ-lt (suc zero) zero p q = refl
differ-lt (suc zero) (suc zero) p q = refl
differ-lt (suc (suc a)) b p q = absurd (omega arith)
differ-lt zero (suc (suc b)) p q = absurd (omega arith)
differ-lt (suc zero) (suc (suc b)) p q = absurd (omega arith)

pub bit_at-xor : (k a b : ℕ) → bit_at (bit_xor a b) k ≡ (bit_at a k + bit_at b k) % 2
unfolding bit_at
bit_at-xor zero a b =
    omega (arith, xor_step a b, differ-lt (a % 2) (b % 2) (omega arith) (omega arith))
bit_at-xor (suc k) a b =
    ap (λ (t : ℕ). bit_at t k)
      (omega (arith, xor_step a b, differ-lt (a % 2) (b % 2) (omega arith) (omega arith)))
    ∙ bit_at-xor k (a / 2) (b / 2)

pub bit_at-zero : (k : ℕ) → bit_at 0 k ≡ 0
unfolding bit_at
bit_at-zero zero = refl
bit_at-zero (suc k) = bit_at-zero k

half-two-pow : (k : ℕ) → 2 ^ suc k / 2 ≡ 2 ^ k
half-two-pow k = omega (arith, pow-suc 2 k)

-- `1 << k` has bit `k` and no other.
pub bit_at-two-pow : (k j : ℕ) → bit_at (2 ^ k) j ≡ (if j == k then 1 else 0)
unfolding bit_at
bit_at-two-pow zero zero = refl
bit_at-two-pow zero (suc j) = ground (arith, bit_at-zero j)
bit_at-two-pow (suc k) zero = ground (arith, pow-suc 2 k)
bit_at-two-pow (suc k) (suc j) = rw half-two-pow (ground (arith, bit_at-two-pow k j))

-- The code's way to flip bit `k`: `w ^ (1 << k)`.
pub flip_bit : ℕ → ℕ → ℕ
flip_bit w k = bit_xor w (2 ^ k)

pub bit_at-flip_bit :
    (w k j : ℕ) → bit_at (flip_bit w k) j ≡ (if j == k then 1 - bit_at w j else bit_at w j)
unfolding flip_bit
bit_at-flip_bit w k j = ground (arith, bit_at-xor j w (2 ^ k), bit_at-two-pow k j, bit_at-lt w j)

and_zero_below : (fuel a : ℕ) → a ≤ fuel → bit_and a 0 ≡ 0
and_zero_below zero zero h = refl
and_zero_below zero (suc a) h = absurd (omega arith)
and_zero_below (suc fuel) zero h = refl
and_zero_below (suc fuel) (suc a) h =
    omega (arith, and_step (suc a) 0, and_zero_below fuel (suc a / 2) (omega arith))

xor_zero_below : (fuel a : ℕ) → a ≤ fuel → bit_xor a 0 ≡ a
xor_zero_below zero zero h = refl
xor_zero_below zero (suc a) h = absurd (omega arith)
xor_zero_below (suc fuel) zero h = refl
xor_zero_below (suc fuel) (suc a) h = omega (
  arith,
  xor_step (suc a) 0,
  differ-lt (suc a % 2) 0 (omega arith) (omega arith),
  xor_zero_below fuel (suc a / 2) (omega arith),
)

-- `n & 1` is the lowest bit.
pub bit_and-one : (a : ℕ) → bit_and a 1 ≡ a % 2
bit_and-one a = omega (arith, and_step a 1, and_zero_below (a / 2) (a / 2) (omega arith))

-- `(q << k) ^ (1 << k)` changes `q` to its neighbour.
pub xor_neighbour :
    (k q : ℕ)
    → bit_xor (q * 2 ^ k) (2 ^ k) ≡ (if q % 2 == 0 then (q + 1) * 2 ^ k else (q - 1) * 2 ^ k)
xor_neighbour zero q = ground (
  arith,
  xor_step q 1,
  differ-lt (q % 2) 1 (omega arith) (omega arith),
  xor_zero_below (q / 2) (q / 2) (omega arith),
)
xor_neighbour (suc k) q =
    let double : (n : ℕ) → n * 2 ^ suc k ≡ 2 * (n * 2 ^ k) =
      λ n. omega (arith, ap (λ (t : ℕ). n * t) (pow-suc 2 k)) in
    ground (
      arith,
      xor_step (q * 2 ^ suc k) (2 ^ suc k),
      pow-suc 2 k,
      double q,
      double (q + 1),
      double (q - 1),
      xor_neighbour k q,
    )

-- `1 | b` sets the lowest bit.
pub bit_or-one : (b : ℕ) → bit_or 1 b ≡ b / 2 * 2 + 1
bit_or-one b =
    let rest : bit_or 0 (b / 2) ≡ b / 2 = simp bit_or-bitwise refl in
    omega (arith, or_step 1 b, rest)

-- The operations digit by digit.
pub and_halves : (a b : ℕ) → bit_and a b ≡ bit_and (a / 2) (b / 2) * 2 + min (a % 2) (b % 2)
and_halves a b = and_step a b

pub or_halves : (a b : ℕ) → bit_or a b ≡ bit_or (a / 2) (b / 2) * 2 + max (a % 2) (b % 2)
or_halves a b = or_step a b

or_zero_below : (fuel a : ℕ) → a ≤ fuel → bit_or a 0 ≡ a
or_zero_below zero a h = let none : a ≡ 0 = omega arith in rw none refl
or_zero_below (suc fuel) a h = omega (arith, or_step a 0, or_zero_below fuel (a / 2) (omega arith))

pub bit_or-zero : (a : ℕ) → bit_or a 0 ≡ a
bit_or-zero a = or_zero_below a a (omega arith)

pub zero-bit_or : (a : ℕ) → bit_or 0 a ≡ a
zero-bit_or a = simp bit_or-bitwise refl
