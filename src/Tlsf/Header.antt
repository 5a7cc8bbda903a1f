-- ===== src/Tlsf/Header.antt =====
-- What the methods of `BlockHeader` in abalone/src/tlsf.rs do to the field `size`: the bits 0 and 1 are flags, the
-- others the payload's size.
use my_kernel.Prelude.{
  ℕ, ◌+◌, ◌-◌, ◌*◌, ◌/◌, ◌%◌, ◌^◌, ◌<◌, ◌≡◌, sym, ap, ◌∙◌, arith, Bool, true, false, ◌==◌, bit_and,
  bit_or,
}
use my_kernel.Bits.Masks.{bit_and-ones, bit_and-high}
use my_kernel.Bits.{bit_and-one, and_halves, or_halves, bit_or-zero, zero-bit_or}
use my_kernel.Tlsf.{size_bits, is_free, prev_free, set_size, set_free, set_prev_free}

pub size_bits_lem : (a : ℕ) → size_bits a ≡ 4 * (a / 4 % 2 ^ 62)
unfolding size_bits
size_bits_lem a = bit_and-high 2 62 a

pub is_free_lem : (a : ℕ) → is_free a ≡ (a % 2 == 1)
unfolding is_free
is_free_lem a = ground (arith, bit_and-one a)

and_bit_one : (a : ℕ) → bit_and a 2 ≡ a / 2 % 2 * 2
and_bit_one a = omega (arith, and_halves a 2, bit_and-one (a / 2))

pub prev_free_lem : (a : ℕ) → prev_free a ≡ (a / 2 % 2 == 1)
unfolding prev_free
prev_free_lem a = ground (arith, and_bit_one a)

pub set_size_lem : (a s : ℕ) → s % 4 ≡ 0 → set_size a s ≡ a % 4 + s
unfolding set_size
set_size_lem a s h =
    let flags : bit_and a 3 ≡ a % 4 = bit_and-ones 2 a in
    let none : a % 4 / 2 / 2 ≡ 0 = omega arith in
    let rest : bit_or (a % 4 / 2 / 2) (s / 2 / 2) ≡ s / 2 / 2 =
      ap (λ n. bit_or n (s / 2 / 2)) none ∙ zero-bit_or (s / 2 / 2) in
    ap (λ n. bit_or n s) flags
    ∙ omega (arith, or_halves (a % 4) s, or_halves (a % 4 / 2) (s / 2), rest)

pub set_free-true : (a : ℕ) → set_free a true ≡ a / 2 * 2 + 1
unfolding set_free
set_free-true a = omega (arith, or_halves a 1, bit_or-zero (a / 2))

pub set_free-false : (a : ℕ) → set_free a false ≡ a / 2 % 2 ^ 63 * 2
unfolding set_free
set_free-false a = omega (arith, bit_and-high 1 63 a)

pub set_prev_free-true : (a : ℕ) → set_prev_free a true ≡ a / 4 * 4 + 2 + a % 2
unfolding set_prev_free
set_prev_free-true a = omega (arith, or_halves a 2, or_halves (a / 2) 1, bit_or-zero (a / 2 / 2))

pub set_prev_free-false : (a : ℕ) → set_prev_free a false ≡ a / 4 % 2 ^ 62 * 4 + a % 2
unfolding set_prev_free
set_prev_free-false a =
    omega (
      arith,
      and_halves a (2 ^ 64 - 3),
      and_halves (a / 2) (2 ^ 63 - 2),
      bit_and-ones 62 (a / 2 / 2),
    )

-- The flags leave the size alone, and a new size is what was written.
pub size_bits-set_free : (a : ℕ) (f : Bool) → size_bits (set_free a f) ≡ size_bits a
size_bits-set_free a true =
    omega (arith, size_bits_lem a, size_bits_lem (set_free a true), set_free-true a)
size_bits-set_free a false =
    omega (arith, size_bits_lem a, size_bits_lem (set_free a false), set_free-false a)

pub size_bits-set_prev_free : (a : ℕ) (f : Bool) → size_bits (set_prev_free a f) ≡ size_bits a
size_bits-set_prev_free a true =
    omega (arith, size_bits_lem a, size_bits_lem (set_prev_free a true), set_prev_free-true a)
size_bits-set_prev_free a false =
    omega (arith, size_bits_lem a, size_bits_lem (set_prev_free a false), set_prev_free-false a)

pub size_bits-set_size : (a s : ℕ) → s % 4 ≡ 0 → s < 2 ^ 64 → size_bits (set_size a s) ≡ s
size_bits-set_size a s h fits = omega (arith, size_bits_lem (set_size a s), set_size_lem a s h)

pub size_bits-aligned : (a : ℕ) → size_bits a % 4 ≡ 0
size_bits-aligned a = omega (arith, size_bits_lem a)

pub size_bits-lt : (a : ℕ) → size_bits a < 2 ^ 64
size_bits-lt a = omega (arith, size_bits_lem a)

-- The mark of a free block is left alone by the other writes.
pub is_free-set_prev_free : (a : ℕ) (f : Bool) → is_free (set_prev_free a f) ≡ is_free a
is_free-set_prev_free a true =
    is_free_lem (set_prev_free a true) ∙ ground (arith, set_prev_free-true a) ∙ sym (is_free_lem a)
is_free-set_prev_free a false =
    is_free_lem (set_prev_free a false)
    ∙ ground (arith, set_prev_free-false a)
    ∙ sym (is_free_lem a)

pub is_free-set_size : (a s : ℕ) → s % 4 ≡ 0 → is_free (set_size a s) ≡ is_free a
is_free-set_size a s h =
    is_free_lem (set_size a s) ∙ ground (arith, set_size_lem a s h, h) ∙ sym (is_free_lem a)
