-- ===== src/Tlsf/Mapping.antt =====
-- The size classes of abalone/src/tlsf.rs: `mapping`, and the sizes of a class.
use native.Mathlib.Nat.{
  pow-le-pow_right, div-add-mod, mod-lt, le-div_iff_mul-le, div-lt_iff_lt-mul, mul-le-mul_right,
  mul_comm,
}
use my_kernel.Prelude.{
  ℕ, suc, ◌+◌, ◌-◌, ◌*◌, ◌/◌, ◌%◌, ◌^◌, ◌<◌, ◌≤◌, ◌≡◌, inl, inr, refl, ap, ◌∙◌, arith, false,
  Bool-cases, ltb, bit_and, two-pow-suc, two-pow-pos,
}
use my_kernel.Bits.Masks.{bit_and-ones}
use my_kernel.Word.{sub64, leading_zeros, top_bit}
use my_kernel.Word.Zeros.{top_bit_bounds}
use my_kernel.Tlsf.{fl_index_count, mapping, sl_count}

-- The smallest size of a class.
abbrev pub smallest : (fl sl : ℕ) → ℕ
smallest fl sl = (32 + sl) * 2 ^ (fl - 5)

-- The class of a size.
abbrev pub class_fl : (size : ℕ) → ℕ
class_fl size = top_bit size

abbrev pub class_sl : (size : ℕ) → ℕ
class_sl size = size / 2 ^ (top_bit size - 5) % 32

-- A class of sizes from 32 on.
pub record InClass (size fl sl : ℕ) : Type 0 where
  pub maps : mapping size ≡ (fl, sl)
  pub high : 5 ≤ fl
  pub fits : fl < 64
  pub second : sl < sl_count
  pub from : smallest fl sl ≤ size
  pub below : size < smallest fl sl + 2 ^ (fl - 5)

thirty_two : (d : ℕ) → 2 ^ (suc (suc (suc (suc (suc d))))) ≡ 32 * 2 ^ d
thirty_two d = omega (
  arith,
  two-pow-suc d,
  two-pow-suc (suc d),
  two-pow-suc (suc (suc d)),
  two-pow-suc (suc (suc (suc d))),
  two-pow-suc (suc (suc (suc (suc d)))),
)

module _ (size : ℕ) (lo : 32 ≤ size) (hi : size < 2 ^ 64) where
  abbrev fl : ℕ
  fl = top_bit size

  abbrev g : ℕ
  g = 2 ^ (fl - 5)

  abbrev sl : ℕ
  sl = size / g % 32

  bounds : (2 ^ fl ≤ size) × (size < 2 * 2 ^ fl) × (fl < 64)
  bounds = top_bit_bounds size hi (λ e. omega (arith, e))

  pub fl-ge : 5 ≤ fl
  fl-ge = elim (Bool-cases (ltb fl 5)) [
    | inl low ↦
        let below : fl ≤ 4 = ground (arith, low) in
        absurd (omega (arith, bounds, pow-le-pow_right {n = 2} (omega arith) below))
    | inr high ↦ ground (arith, high)
  ]

  pub whole : 2 ^ fl ≡ 32 * g
  whole =
      let e : fl ≡ suc (suc (suc (suc (suc (fl - 5))))) = omega (arith, fl-ge) in
      ap (λ (n : ℕ). 2 ^ n) e ∙ thirty_two (fl - 5)

  pub parts : (g * (size / g) + size % g ≡ size) × (size % g < g)
  parts = (div-add-mod size g, mod-lt size (two-pow-pos (fl - 5)))

  quotient : (32 ≤ size / g) × (size / g < 64)
  quotient =
      let low = le-div_iff_mul-le {k = g} {x = 32} {y = size} (two-pow-pos (fl - 5)) in
      let high = div-lt_iff_lt-mul {k = g} {x = size} {y = 64} (two-pow-pos (fl - 5)) in
      (low.1 (omega (arith, whole, bounds)), high.1 (omega (arith, whole, bounds)))

  pub start : smallest fl sl ≡ g * (size / g)
  start =
      let e : 32 + sl ≡ size / g = omega (arith, quotient) in
      ap (λ (n : ℕ). n * g) e ∙ mul_comm (size / g) g

  first_level : sub64 63 (leading_zeros size) ≡ fl
  unfolding top_bit leading_zeros
  first_level = omega (arith, fl-ge)

  second_level : bit_and (size / g) 31 ≡ sl
  second_level = bit_and-ones 5 (size / g)

  pub class_of : InClass size fl sl
  unfolding mapping
  class_of = record {
    maps =
        let high : ltb fl 5 ≡ false = ground (arith, fl-ge) in
        rw (first_level, high, second_level) refl;
    high = fl-ge;
    fits = bounds.2;
    second = omega arith;
    from = omega (arith, start, parts);
    below = omega (arith, start, parts);
  }

-- A block below 1 GiB has a class with a list.
pub class_lt : (size : ℕ) → 32 ≤ size → size < 2 ^ 30 → top_bit size < fl_index_count
class_lt size lo hi = elim (Bool-cases (ltb (top_bit size) 30)) [
  | inl low ↦ ground (arith, low)
  | inr high ↦
      let up : 2 ^ 30 ≤ 2 ^ top_bit size =
        pow-le-pow_right {n = 2} (omega arith) {i = 30} (ground (arith, high)) in
      absurd (omega (arith, up, top_bit_bounds size (omega arith) (λ e. omega (arith, e))))
]

pub class_large : {size fl sl : ℕ} → InClass size fl sl → 32 ≤ size
class_large {fl = fl} {sl = sl} c =
    let share : 32 * 2 ^ (fl - 5) ≤ (32 + sl) * 2 ^ (fl - 5) =
      mul-le-mul_right (2 ^ (fl - 5)) (omega arith) in
    omega (arith, share, c.from, two-pow-pos (fl - 5))
