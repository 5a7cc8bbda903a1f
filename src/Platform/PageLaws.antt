-- ===== src/Platform/PageLaws.antt =====
-- Alignment to a page size: what `is_aligned`, `align_down` and `align_up` of src/os_constants.rs compute.
use native.Mathlib.Nat.{mod-lt, mul-mod_right, div-add-mod, mod-eq_of_lt, div-lt_iff_lt-mul}
use my_kernel.Prelude.{
  ℕ, ◌+◌, ◌-◌, ◌*◌, ◌/◌, ◌%◌, ◌^◌, ◌≤◌, ◌<◌, ◌≡◌, ◌↔◌, inl, inr, Bool-cases, ltb→lt, refl, ◌∙◌, ap,
  arith, bit_and, true, Option, none, some, ltb, lt→ltb, le→ltb_false, eq→==, ==→eq, two-pow-pos,
}
use my_kernel.Bits.Masks.{bit_and-ones, bit_and-high}
use my_kernel.Platform.Pages.{
  PageSize, kib4, kib16, kib64, mib2, gib1, bytes, shift, mask, not64, is_aligned, align_down,
  align_up, checked_add,
}

-- `bytes`, `shift` and `mask` agree: the size is 2 to the shift, and the mask is one less.
pub bytes-shift : (s : PageSize) → bytes s ≡ 2 ^ shift s
unfolding bytes shift
bytes-shift kib4 = refl
bytes-shift kib16 = refl
bytes-shift kib64 = refl
bytes-shift mib2 = refl
bytes-shift gib1 = refl

bit_and-mask : (s : PageSize) (a : ℕ) → bit_and a (mask s) ≡ a % bytes s
unfolding mask
bit_and-mask s a = rw (bytes-shift s) (bit_and-ones (shift s) a)

pub bytes-pos : (s : PageSize) → 0 < bytes s
bytes-pos s = omega (arith, bytes-shift s, two-pow-pos (shift s))

clear_low :
    (k d a : ℕ)
    → 2 ^ k * 2 ^ d ≡ 2 ^ 64
    → 0 < 2 ^ k
    → a < 2 ^ 64
    → bit_and a (2 ^ 64 - 1 - (2 ^ k - 1)) ≡ a - a % 2 ^ k
clear_low k d a whole pos small =
    let up : 2 ^ d ≡ 2 ^ d - 1 + 1 = omega (arith, two-pow-pos d) in
    let ones : 2 ^ k * 2 ^ d ≡ 2 ^ k * (2 ^ d - 1) + 2 ^ k =
      ap (λ (n : ℕ). 2 ^ k * n) up ∙ omega arith in
    let m : 2 ^ 64 - 1 - (2 ^ k - 1) ≡ 2 ^ k * (2 ^ d - 1) = omega (arith, whole, ones) in
    let q : a / 2 ^ k < 2 ^ d = (div-lt_iff_lt-mul pos).1 (omega (arith, whole)) in
    let r = ap (λ (t : ℕ). 2 ^ k * t) (mod-eq_of_lt q) in
    ap (bit_and a) m ∙ omega (arith, bit_and-high k d a, r, div-add-mod a (2 ^ k))

bit_and-not64 : (s : PageSize) (a : ℕ) → a < 2 ^ 64 → bit_and a (not64 (mask s)) ≡ a - a % bytes s
unfolding mask bytes
bit_and-not64 kib4 a h = clear_low 12 52 a refl (omega arith) h
bit_and-not64 kib16 a h = clear_low 14 50 a refl (omega arith) h
bit_and-not64 kib64 a h = clear_low 16 48 a refl (omega arith) h
bit_and-not64 mib2 a h = clear_low 21 43 a refl (omega arith) h
bit_and-not64 gib1 a h = clear_low 30 34 a refl (omega arith) h

-- `is_aligned` holds exactly for the multiples of the page size.
pub is_aligned_iff : (s : PageSize) (addr : ℕ) → (is_aligned s addr ≡ true) ↔ (addr % bytes s ≡ 0)
unfolding is_aligned
is_aligned_iff s addr =
    (λ h. omega (arith, bit_and-mask s addr, ==→eq _ _ h), λ h. eq→== _ _ (bit_and-mask s addr ∙ h))

-- `a` is the highest multiple of the page size that is at most `addr`.
pub record RoundsDown (s : PageSize) (addr a : ℕ) : Type 0 where
  pub aligned : is_aligned s a ≡ true
  pub below : a ≤ addr
  pub near : addr < a + bytes s

-- `a` is the lowest multiple of the page size that is at least `addr`.
pub record RoundsUp (s : PageSize) (addr a : ℕ) : Type 0 where
  pub aligned : is_aligned s a ≡ true
  pub above : addr ≤ a
  pub near : a < addr + bytes s

multiple : (a n : ℕ) → (a - a % n) % n ≡ 0
multiple a n =
    let e : a - a % n ≡ n * (a / n) = omega (arith, div-add-mod a n) in
    ap (λ (t : ℕ). t % n) e ∙ mul-mod_right n (a / n)

-- `align_down` rounds every 64-bit address down to the page size.
pub align_down-RoundsDown :
    (s : PageSize) (addr : ℕ) → addr < 2 ^ 64 → RoundsDown s addr (align_down s addr)
unfolding align_down
align_down-RoundsDown s addr h = rw (bit_and-not64 s addr h) (record {
  aligned = (is_aligned_iff s _).1 (multiple addr (bytes s));
  below = omega arith;
  near = omega (arith, mod-lt addr (bytes-pos s), div-add-mod addr (bytes s));
})

align_up-fits :
    (s : PageSize) (addr : ℕ)
    → addr + mask s < 2 ^ 64
    → align_up s addr ≡ some (align_down s (addr + mask s))
unfolding align_up align_down checked_add
align_up-fits s addr h = rw (align_up, lt→ltb _ _ h) refl

align_up-overflow : (s : PageSize) (addr : ℕ) → 2 ^ 64 ≤ addr + mask s → align_up s addr ≡ none
unfolding align_up checked_add
align_up-overflow s addr h = rw (align_up, le→ltb_false _ _ h) refl

-- What `align_up` promises: a rounded address, or `None` for overflow.
pub AlignsUp : PageSize → ℕ → Option ℕ → Type 0
AlignsUp s addr none = 2 ^ 64 ≤ addr + mask s
AlignsUp s addr (some a) = (addr + mask s < 2 ^ 64) × RoundsUp s addr a

-- `align_up` rounds every 64-bit address up to the page size, and returns `None` exactly when adding the
-- mask overflows 64 bits.
pub align_up-AlignsUp :
    (s : PageSize) (addr : ℕ) → addr < 2 ^ 64 → AlignsUp s addr (align_up s addr)
unfolding AlignsUp mask
align_up-AlignsUp s addr h = elim (Bool-cases (ltb (addr + mask s) (2 ^ 64))) [
  | inl is_lt ↦
      let fits : addr + mask s < 2 ^ 64 = ltb→lt _ _ is_lt in
      let d = align_down-RoundsDown s (addr + mask s) fits in
      rw (align_up-fits s addr fits) (
        fits,
        record {
          aligned = d.aligned;
          above = omega (arith, d.near, bytes-pos s);
          near = omega (arith, d.below, bytes-pos s);
        },
      )
  | inr not_lt ↦
      let over : 2 ^ 64 ≤ addr + mask s = ground arith in rw (align_up-overflow s addr over) over
]
