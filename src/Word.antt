-- ===== src/Word.antt =====
-- 64-bit machine words: wrapping arithmetic, and the counts of leading and trailing zero bits that the
-- allocators take from `usize`.
pub mod Zeros
use my_kernel.Prelude.{
  ◌<◌, ◌≢◌, arith, ℕ, zero, suc, ◌+◌, ◌-◌, ◌*◌, ◌/◌, ◌%◌, ◌^◌, ◌==◌, if◌then◌else◌,
}

abbrev pub word_mod : ℕ
word_mod = 2 ^ 64

abbrev pub add64 : ℕ → ℕ → ℕ
add64 a b = (a + b) % 2 ^ 64

-- `-` on ℕ stops at 0, so the modulus is added first.
abbrev pub sub64 : ℕ → ℕ → ℕ
sub64 a b = (a + 2 ^ 64 - b) % 2 ^ 64

-- The number of binary digits of a number below `2 ^ fuel`.
unfoldable pub bit_length : ℕ → ℕ → ℕ
bit_length zero n = 0
bit_length (suc fuel) n = if n == 0 then 0 else suc (bit_length fuel (n / 2))

-- `n.leading_zeros()` of a `usize`
unfoldable pub leading_zeros : ℕ → ℕ
leading_zeros n = 64 - bit_length 64 n

-- The low zero bits of `n`, at most `fuel`.
unfoldable pub low_zeros : ℕ → ℕ → ℕ
low_zeros zero n = 0
low_zeros (suc fuel) n = if n % 2 == 0 then suc (low_zeros fuel (n / 2)) else 0

-- `n.trailing_zeros()` of a `usize`
unfoldable pub trailing_zeros : ℕ → ℕ
trailing_zeros n = low_zeros 64 n

-- `usize::BITS - 1 - n.leading_zeros()`, the index of the highest set bit of `n`
unfoldable pub top_bit : ℕ → ℕ
top_bit n = 64 - 1 - leading_zeros n

-- Subtraction of one number tells words apart.
pub sub64-ne : (a b c : ℕ) → a < 2 ^ 64 → b < 2 ^ 64 → c < 2 ^ 64 → a ≢ b → sub64 a c ≢ sub64 b c
sub64-ne a b c ha hb hc ne e = ne (omega arith)
