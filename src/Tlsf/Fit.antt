-- ===== src/Tlsf/Fit.antt =====
-- Good fit in abalone/src/tlsf.rs: the rounding of `mapping_search`, and the order of the size classes.
use native.Mathlib.Nat.{pow-le-pow_right, mul-le-mul_right}
use my_kernel.Prelude.{
  ℕ, ◌+◌, ◌-◌, ◌*◌, ◌/◌, ◌%◌, ◌^◌, ◌<◌, ◌≤◌, ◌≡◌, ◌⊎◌, inl, inr, sym, ap, arith, true, Bool-cases,
  ltb, leb, ◌==◌, ==→eq, two-pow-pos, two-pow-suc, suc,
}
use my_kernel.Word.{add64, leading_zeros, top_bit}
use my_kernel.Word.Zeros.{top_bit_bounds}
use my_kernel.Tlsf.{mapping, mapping_search, sl_count}
use my_kernel.Tlsf.Mapping.{smallest, InClass, class_of, whole, start, parts}

-- The class (fl, sl) is (fl₀, sl₀) or a higher one.
abbrev pub AtLeast : (fl₀ sl₀ fl sl : ℕ) → Type 0
AtLeast fl₀ sl₀ fl sl = (fl₀ < fl) ⊎ ((fl₀ ≡ fl) × (sl₀ ≤ sl))

pub smallest-le :
    (fl₀ sl₀ fl sl : ℕ)
    → 5 ≤ fl₀
    → sl₀ < sl_count
    → AtLeast fl₀ sl₀ fl sl
    → smallest fl₀ sl₀ ≤ smallest fl sl
smallest-le fl₀ sl₀ fl sl high small (inl above) =
    let up : 2 ^ suc (fl₀ - 5) ≤ 2 ^ (fl - 5) =
      pow-le-pow_right {n = 2} (omega arith) (omega arith) in
    let first : (32 + sl₀) * 2 ^ (fl₀ - 5) ≤ 64 * 2 ^ (fl₀ - 5) =
      mul-le-mul_right (2 ^ (fl₀ - 5)) (omega arith) in
    let last : 32 * 2 ^ (fl - 5) ≤ (32 + sl) * 2 ^ (fl - 5) =
      mul-le-mul_right (2 ^ (fl - 5)) (omega arith) in
    omega (arith, two-pow-suc (fl₀ - 5))
smallest-le fl₀ sl₀ fl sl high small (inr (same, le)) =
    rw (← same) (mul-le-mul_right (2 ^ (fl₀ - 5)) (omega arith))

-- Larger blocks have no lower class.
pub class-monotone :
    {a b fl sl fl' sl' : ℕ} → InClass a fl sl → InClass b fl' sl' → a ≤ b → AtLeast fl sl fl' sl'
class-monotone {fl = fl} {sl = sl} {fl' = fl'} {sl' = sl'} c d le = elim (Bool-cases (ltb fl fl')) [
  | inl above ↦ inl (ground (arith, above))
  | inr not_above ↦ elim (Bool-cases (fl == fl')) [
    | inl level ↦ elim (Bool-cases (ltb sl' sl)) [
      | inr higher ↦ inr (==→eq fl fl' level, ground (arith, higher))
      | inl lower ↦
          let unit : 2 ^ (fl' - 5) ≡ 2 ^ (fl - 5) =
            ap (λ (n : ℕ). 2 ^ (n - 5)) (sym (==→eq fl fl' level)) in
          let whole_units : (32 + sl' + 1) * 2 ^ (fl - 5) ≤ (32 + sl) * 2 ^ (fl - 5) =
            mul-le-mul_right (2 ^ (fl - 5)) (ground (arith, lower)) in
          absurd
            (omega (arith, le, c.from, d.below, unit, ap (λ m. (32 + sl') * m) unit, whole_units))
    ]
    | inr other ↦
        let up : 2 ^ suc (fl' - 5) ≤ 2 ^ (fl - 5) =
          pow-le-pow_right {n = 2} (omega arith) (ground (arith, not_above, other, d.high)) in
        let first : (32 + sl' + 1) * 2 ^ (fl' - 5) ≤ 64 * 2 ^ (fl' - 5) =
          mul-le-mul_right (2 ^ (fl' - 5)) (omega (arith, d.second)) in
        let last : 32 * 2 ^ (fl - 5) ≤ (32 + sl) * 2 ^ (fl - 5) =
          mul-le-mul_right (2 ^ (fl - 5)) (omega arith) in
        absurd (omega (arith, le, c.from, d.below, up, first, last, two-pow-suc (fl' - 5)))
  ]
]

-- What the search adds before it maps.
abbrev pub searched : (size : ℕ) → ℕ
searched size = size + (2 ^ (top_bit size - 5) - 1)

abbrev pub searched_fl : (size : ℕ) → ℕ
searched_fl size = top_bit (searched size)

abbrev pub searched_sl : (size : ℕ) → ℕ
searched_sl size = searched size / 2 ^ (searched_fl size - 5) % 32

module _ (size : ℕ) (lo : 32 ≤ size) (hi : searched size < 2 ^ 64) where
  pub mapping_search_lem : mapping_search size ≡ mapping (searched size)
  unfolding mapping_search top_bit
  mapping_search_lem =
      let at_least : leb (2 ^ 5) size ≡ true = ground arith in
      let exact : add64 size (2 ^ (64 - 1 - leading_zeros size - 5) - 1)
          ≡ size + (2 ^ (64 - 1 - leading_zeros size - 5) - 1) =
        omega arith in
      rw at_least (ap mapping exact)

  size_lt : size < 2 ^ 64
  size_lt = omega arith

  searched_lo : 32 ≤ searched size
  searched_lo = omega arith

  pub searched_class : InClass (searched size) (searched_fl size) (searched_sl size)
  searched_class = class_of (searched size) searched_lo hi

  -- The smallest size of the class is no smaller than what is looked for.
  pub le-smallest : size ≤ smallest (searched_fl size) (searched_sl size)
  le-smallest =
      let f : ℕ = top_bit size in
      let near = top_bit_bounds size size_lt (λ e. omega (arith, e)) in
      let far = top_bit_bounds (searched size) hi (λ e. omega (arith, e)) in
      elim (Bool-cases (f == (searched_fl size))) [
        | inl same ↦
            let unit : 2 ^ (f - 5) ≡ 2 ^ ((searched_fl size) - 5) =
              ap (λ (n : ℕ). 2 ^ (n - 5)) (==→eq f (searched_fl size) same) in
            omega (
              arith,
              unit,
              start (searched size) searched_lo hi,
              parts (searched size) searched_lo hi,
            )
        | inr other ↦ elim (Bool-cases (ltb f (searched_fl size))) [
          | inl above ↦
              let up : 2 ^ suc f ≤ 2 ^ (searched_fl size) =
                pow-le-pow_right {n = 2} (omega arith) (ground (arith, above)) in
              let units : 32 * 2 ^ ((searched_fl size) - 5)
                  ≤ smallest (searched_fl size) (searched_sl size) =
                mul-le-mul_right (2 ^ ((searched_fl size) - 5)) (omega arith) in
              omega (arith, units, up, two-pow-suc f, whole (searched size) searched_lo hi)
          | inr below ↦
              let down : 2 ^ suc (searched_fl size) ≤ 2 ^ f =
                pow-le-pow_right {n = 2} (omega arith) (ground (arith, other, below)) in
              absurd (omega (arith, down, two-pow-suc (searched_fl size), two-pow-pos f))
        ]
      ]

  -- The good fit: a block of that class or of a higher one has room for `size`.
  pub good_fit :
      (block fl sl : ℕ)
      → InClass block fl sl
      → AtLeast (searched_fl size) (searched_sl size) fl sl
      → size ≤ block
  good_fit block fl sl c above =
      let le =
        smallest-le (searched_fl size) (searched_sl size) fl sl searched_class.high
          searched_class.second above in
      omega (arith, le, le-smallest, c.from)
