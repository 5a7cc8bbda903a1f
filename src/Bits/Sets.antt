-- ===== src/Bits/Sets.antt =====
-- 32-bit numbers as sets of bits: setting, clearing, shifting, the lowest set bit, and the test for zero.
-- The bitmaps of the allocator for small blocks are such sets.
use native.Mathlib.Nat.{div-div-eq-div-mul}
use my_kernel.Prelude.{
  ℕ, zero, suc, ◌+◌, ◌-◌, ◌/◌, ◌%◌, ◌^◌, ◌<◌, ◌≤◌, ◌≡◌, ◌≢◌, inl, inr, sym, ap, ◌∙◌, arith,
  Bool-cases, ltb, ◌==◌, ==→eq, ==→ne, two-pow-suc, two-pow-pos, bit_and, bit_or, bit_xor,
  if◌then◌else◌, false,
}
use my_kernel.Word.{low_zeros}
use my_kernel.Bits.{bit_at, bit_at-lt, bit_at-and, bit_at-or, bit_at-xor, bit_at-two-pow}

pub bit_at-set : (n k j : ℕ) → bit_at (bit_or n (2 ^ k)) j ≡ (if j == k then 1 else bit_at n j)
bit_at-set n k j = ground (arith, bit_at-or j n (2 ^ k), bit_at-two-pow k j, bit_at-lt n j)

bit_at-ones : (w j : ℕ) → j < w → bit_at (2 ^ w - 1) j ≡ 1
unfolding bit_at
bit_at-ones zero j h = absurd (omega arith)
bit_at-ones (suc w) zero h = omega (arith, two-pow-suc w, two-pow-pos w)
bit_at-ones (suc w) (suc j) h =
    let half : (2 ^ suc w - 1) / 2 ≡ 2 ^ w - 1 = omega (arith, two-pow-suc w, two-pow-pos w) in
    ap (λ n. bit_at n j) half ∙ bit_at-ones w j (omega arith)

-- No bit above the lowest 32.
abbrev pub Narrow : ℕ → Type 0
Narrow n = (j : ℕ) → 32 ≤ j → bit_at n j ≡ 0

pub bit_at-clear :
    (n k j : ℕ)
    → Narrow n
    → bit_at (bit_and n (bit_xor (2 ^ 32 - 1) (2 ^ k))) j ≡ (if j == k then 0 else bit_at n j)
bit_at-clear n k j narrow = elim (Bool-cases (ltb j 32)) [
  | inl low ↦
      let ones : bit_at (2 ^ 32 - 1) j ≡ 1 = bit_at-ones 32 j (ground (arith, low)) in
      ground (
        arith,
        bit_at-and j n (bit_xor (2 ^ 32 - 1) (2 ^ k)),
        bit_at-xor j (2 ^ 32 - 1) (2 ^ k),
        bit_at-two-pow k j,
        bit_at-lt n j,
        ones,
      )
  | inr high ↦
      ground (arith, bit_at-and j n (bit_xor (2 ^ 32 - 1) (2 ^ k)), narrow j (ground (arith, high)))
]

zero_below : (fuel n : ℕ) → n ≤ fuel → ((j : ℕ) → bit_at n j ≡ 0) → n ≡ 0
unfolding bit_at
zero_below zero n h none = omega arith
zero_below (suc fuel) n h none =
    let even : n % 2 ≡ 0 = none 0 in
    elim (Bool-cases (n == 0)) [
      | inl zero_n ↦ ==→eq n 0 zero_n
      | inr pos ↦
          let smaller : n / 2 ≤ fuel = omega (arith, ==→ne n 0 pos) in
          omega (arith, zero_below fuel (n / 2) smaller (λ j. none (suc j)))
    ]

-- A number without bits is zero.
pub bits-zero : (n : ℕ) → ((j : ℕ) → bit_at n j ≡ 0) → n ≡ 0
bits-zero n none = zero_below n n (omega arith) none

some_bit_below : (fuel n : ℕ) → n ≤ fuel → n ≢ 0 → (j : ℕ) × (bit_at n j ≡ 1)
unfolding bit_at
some_bit_below zero n h pos = absurd (pos (omega arith))
some_bit_below (suc fuel) n h pos = elim (Bool-cases (n % 2 == 1)) [
  | inl odd ↦ (0, ==→eq (n % 2) 1 odd)
  | inr even ↦
      let rest : n / 2 ≢ 0 = λ e. pos (omega (arith, e, ==→ne (n % 2) 1 even)) in
      let (j, b) = some_bit_below fuel (n / 2) (omega (arith, pos)) rest in (suc j, b)
]

-- A number that is not zero has a bit.
pub some_bit : (n : ℕ) → n ≢ 0 → (j : ℕ) × (bit_at n j ≡ 1)
some_bit n pos = some_bit_below n n (omega arith) pos

clear_below_suc :
    (m n : ℕ)
    → n % 2 ≡ 0
    → ((i : ℕ) → i < m → bit_at (n / 2) i ≡ 0)
    → (i : ℕ) → i < suc m
    → bit_at n i ≡ 0
unfolding bit_at
clear_below_suc m n even below zero small = even
clear_below_suc m n even below (suc i) small = below i (omega arith)

-- `trailing_zeros` is the index of the lowest set bit.
pub lowest_bit :
    (fuel n j : ℕ)
    → j < fuel
    → bit_at n j ≡ 1
    → (bit_at n (low_zeros fuel n) ≡ 1)
      × (low_zeros fuel n ≤ j)
      × ((i : ℕ) → i < low_zeros fuel n → bit_at n i ≡ 0)
unfolding bit_at low_zeros
lowest_bit zero n j h set = absurd (omega arith)
lowest_bit (suc fuel) n zero h set =
    let odd : (n % 2 == 0) ≡ false = ground (arith, set) in
    rw odd (set, omega arith, λ i small. absurd (omega (arith, small)))
lowest_bit (suc fuel) n (suc j) h set = elim (Bool-cases (n % 2 == 0)) [
  | inl even ↦
      let (here, le, below) = lowest_bit fuel (n / 2) j (omega arith) set in
      rw even (here, omega (arith, le), clear_below_suc _ n (==→eq (n % 2) 0 even) below)
  | inr odd ↦ rw odd (ground (arith, odd), omega arith, λ i small. absurd (omega (arith, small)))
]

-- The bits of `n >> s`.
pub bit_at-shift : (s n j : ℕ) → bit_at (n / 2 ^ s) j ≡ bit_at n (s + j)
unfolding bit_at
bit_at-shift zero n j =
    ap (λ m. bit_at m j) {x = n / 1} {y = n} (omega arith)
    ∙ ap (bit_at n) {x = j} {y = 0 + j} (omega arith)
bit_at-shift (suc s) n j =
    let halves : n / 2 ^ suc s ≡ n / 2 / 2 ^ s =
      ap (λ m. n / m) (two-pow-suc s) ∙ sym (div-div-eq-div-mul n 2 (2 ^ s)) in
    ap (λ m. bit_at m j) halves
    ∙ bit_at-shift s (n / 2) j
    ∙ ap (bit_at n) {x = suc (s + j)} {y = suc s + j} (omega arith)

pub bit_lt : (n j : ℕ) → Narrow n → bit_at n j ≡ 1 → j < 32
bit_lt n j narrow set = elim (Bool-cases (ltb j 32)) [
  | inl low ↦ ground (arith, low)
  | inr high ↦ absurd (omega (arith, set, narrow j (ground (arith, high))))
]

-- The lowest set bit of a 32-bit number that is not zero.
pub lowest_of_Narrow :
    (n : ℕ)
    → Narrow n
    → n ≢ 0
    → (bit_at n (low_zeros 32 n) ≡ 1)
      × (low_zeros 32 n < 32)
      × ((i : ℕ) → i < low_zeros 32 n → bit_at n i ≡ 0)
lowest_of_Narrow n narrow pos =
    let (j, set) = some_bit n pos in
    let (here, le, below) = lowest_bit 32 n j (bit_lt n j narrow set) set in
    (here, bit_lt n (low_zeros 32 n) narrow here, below)

pub shift-Narrow : (n s : ℕ) → Narrow n → Narrow (n / 2 ^ s)
shift-Narrow n s narrow j high = bit_at-shift s n j ∙ narrow (s + j) (omega arith)
