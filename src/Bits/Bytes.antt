-- ===== src/Bits/Bytes.antt =====
-- Bits of shifted numbers, and of bytes with one bit set or cleared.
use native.Mathlib.Nat.{pow-le-pow_right, div-eq_of_lt}
use Prim.Native.Nat.{bit_and-bitwise}
use my_kernel.Bits.Digits.{and_step, or_step}
use my_kernel.Prelude.{
  ℕ, zero, suc, ◌+◌, ◌-◌, ◌*◌, ◌/◌, ◌%◌, ◌^◌, ◌<◌, ◌≤◌, ◌≡◌, refl, ap, ◌∙◌, arith, ◌==◌,
  if◌then◌else◌, bit_and, bit_or, bit_xor, two-pow-suc,
}
use my_kernel.Bits.{bit_at, bit_at-eq-shift, bit_at-xor, bit_at-two-pow}

pub bit_at-past : (n j k : ℕ) → n < 2 ^ j → j ≤ k → bit_at n k ≡ 0
bit_at-past n j k small le =
    bit_at-eq-shift k n
    ∙ ap (λ (t : ℕ). t % 2)
        (div-eq_of_lt (omega (arith, pow-le-pow_right {n = 2} (omega arith) le)))

pub bit_at-shift_low : (j k n : ℕ) → k < j → bit_at (n * 2 ^ j) k ≡ 0
unfolding bit_at
bit_at-shift_low zero k n lt = absurd (omega arith)
bit_at-shift_low (suc j) zero n lt = omega (arith, ap (λ (t : ℕ). n * t) (two-pow-suc j))
bit_at-shift_low (suc j) (suc k) n lt =
    let half : n * 2 ^ suc j / 2 ≡ n * 2 ^ j =
      omega (arith, ap (λ (t : ℕ). n * t) (two-pow-suc j)) in
    ap (λ t. bit_at t k) half ∙ bit_at-shift_low j k n (omega arith)

pub bit_at-shift_high : (j k n : ℕ) → bit_at (n * 2 ^ j) (j + k) ≡ bit_at n k
unfolding bit_at
bit_at-shift_high zero k n =
    let same : n * 2 ^ zero ≡ n = omega arith in
    let at : zero + k ≡ k = omega arith in ap (λ t. bit_at t (zero + k)) same ∙ ap (bit_at n) at
bit_at-shift_high (suc j) k n =
    let half : n * 2 ^ suc j / 2 ≡ n * 2 ^ j =
      omega (arith, ap (λ (t : ℕ). n * t) (two-pow-suc j)) in
    let at : suc j + k ≡ suc (j + k) = omega arith in
    ap (bit_at (n * 2 ^ suc j)) at ∙ ap (λ t. bit_at t (j + k)) half ∙ bit_at-shift_high j k n

pub bit_or-lt : (k a b : ℕ) → a < 2 ^ k → b < 2 ^ k → bit_or a b < 2 ^ k
bit_or-lt zero zero zero p q = omega (arith, or_step 0 0)
bit_or-lt zero zero (suc b) p q = absurd (omega arith)
bit_or-lt zero (suc a) b p q = absurd (omega arith)
bit_or-lt (suc k) a b p q = omega (
  arith,
  or_step a b,
  two-pow-suc k,
  bit_or-lt k (a / 2) (b / 2) (omega (arith, two-pow-suc k)) (omega (arith, two-pow-suc k)),
)

pub bit_and-lt : (k a b : ℕ) → a < 2 ^ k → bit_and a b < 2 ^ k
bit_and-lt zero zero b p = simp bit_and-bitwise (omega arith)
bit_and-lt zero (suc a) b p = absurd (omega arith)
bit_and-lt (suc k) a b p = omega (
  arith,
  and_step a b,
  two-pow-suc k,
  bit_and-lt k (a / 2) (b / 2) (omega (arith, two-pow-suc k)),
)

-- The bits of the byte 255.
pub ones : (j : ℕ) → j < 8 → bit_at 255 j ≡ 1
unfolding bit_at
ones zero lt = refl
ones (suc zero) lt = refl
ones (suc (suc zero)) lt = refl
ones (suc (suc (suc zero))) lt = refl
ones (suc (suc (suc (suc zero)))) lt = refl
ones (suc (suc (suc (suc (suc zero))))) lt = refl
ones (suc (suc (suc (suc (suc (suc zero)))))) lt = refl
ones (suc (suc (suc (suc (suc (suc (suc zero))))))) lt = refl
ones (suc (suc (suc (suc (suc (suc (suc (suc j)))))))) lt = absurd (omega arith)

complement : (s : ℕ) → s < 8 → 255 - 2 ^ s ≡ bit_xor 255 (2 ^ s)
complement zero lt = refl
complement (suc zero) lt = refl
complement (suc (suc zero)) lt = refl
complement (suc (suc (suc zero))) lt = refl
complement (suc (suc (suc (suc zero)))) lt = refl
complement (suc (suc (suc (suc (suc zero))))) lt = refl
complement (suc (suc (suc (suc (suc (suc zero)))))) lt = refl
complement (suc (suc (suc (suc (suc (suc (suc zero))))))) lt = refl
complement (suc (suc (suc (suc (suc (suc (suc (suc s)))))))) lt = absurd (omega arith)

-- A byte with every bit but bit `s`.
pub bit_at-complement :
    (s j : ℕ) → s < 8 → j < 8 → bit_at (255 - 2 ^ s) j ≡ (if j == s then 0 else 1)
bit_at-complement s j hs hj =
    ap (λ t. bit_at t j) (complement s hs)
    ∙ ground (arith, bit_at-xor j 255 (2 ^ s), ones j hj, bit_at-two-pow s j)
