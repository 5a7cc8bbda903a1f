-- ===== src/Tlsf/Bitmaps.antt =====
-- The two levels of bitmaps in abalone/src/tlsf.rs: setting the bits of a list that gets a block, and clearing those of
-- a list that has lost its last.
use my_kernel.Prelude.{
  ℕ, ◌^◌, ◌≤◌, ◌<◌, ◌≡◌, refl, sym, ap, ◌∙◌, inl, inr, arith, false, ◌==◌, if◌then◌else◌, update,
  Bool-cases, ==→eq, ne→==, bit_or, bit_and,
}
use my_kernel.Bits.{bit_at, bit_at-zero}
use my_kernel.Bits.Sets.{Narrow, bit_at-set, bit_at-clear}
use my_kernel.Tlsf.{Tlsf, fl_index_count, sl_count, clear_bits, not_bit}
use my_kernel.Tlsf.Inv.{Agrees, put, put-same, put-Other, class-cases}

pub Agrees-marks :
    {fl_bitmap : ℕ} {sl_bitmap : ℕ → ℕ} {m n : ℕ → ℕ → ℕ}
    → ((fl sl : ℕ) → m fl sl ≡ n fl sl)
    → Agrees fl_bitmap sl_bitmap m
    → Agrees fl_bitmap sl_bitmap n
Agrees-marks same g = record {
  second = λ fl sl p q. g.second fl sl p q ∙ same fl sl;
  narrow = g.narrow;
  first = g.first;
  top = g.top;
}

module _ {fl_bitmap : ℕ} {sl_bitmap : ℕ → ℕ} {m : ℕ → ℕ → ℕ} (g : Agrees fl_bitmap sl_bitmap m)
    (fl sl : ℕ) (small : fl < fl_index_count) (second_small : sl < sl_count) where
  abbrev second' : ℕ → ℕ
  second' = update sl_bitmap fl (bit_or (sl_bitmap fl) (2 ^ sl))

  abbrev level_bits : (fl' sl' : ℕ) → ℕ
  level_bits fl' sl' = bit_at (sl_bitmap fl') sl'

  set_bits : (fl' sl' : ℕ) → bit_at (second' fl') sl' ≡ put level_bits fl sl 1 fl' sl'
  set_bits fl' sl' = elim (Bool-cases (fl' == fl)) [
    | inl same ↦ rw same (bit_at-set (sl_bitmap fl) sl sl')
    | inr other ↦ rw other refl
  ]

  set_marks :
      (fl' sl' : ℕ)
      → fl' < fl_index_count
      → sl' < sl_count
      → bit_at (second' fl') sl' ≡ put m fl sl 1 fl' sl'
  set_marks fl' sl' p q = set_bits fl' sl' ∙ elim (class-cases fl sl fl' sl') [
    | inl (e₁, e₂) ↦ rw (e₁, e₂) (put-same level_bits fl sl 1 ∙ sym (put-same m fl sl 1))
    | inr other ↦
        put-Other level_bits fl sl 1 fl' sl' other
        ∙ g.second fl' sl' p q
        ∙ sym (put-Other m fl sl 1 fl' sl' other)
  ]

  set_nonzero : (bit_or (sl_bitmap fl) (2 ^ sl) == 0) ≡ false
  set_nonzero =
      let set : bit_at (bit_or (sl_bitmap fl) (2 ^ sl)) sl ≡ 1 =
        ground (arith, bit_at-set (sl_bitmap fl) sl sl) in
      ne→== (bit_or (sl_bitmap fl) (2 ^ sl)) 0
        (λ e. omega (arith, set, ap (λ n. bit_at n sl) e, bit_at-zero sl))

  set_first :
      (fl' : ℕ)
      → fl' < fl_index_count
      → bit_at (bit_or fl_bitmap (2 ^ fl)) fl' ≡ (if second' fl' == 0 then 0 else 1)
  set_first fl' p = bit_at-set fl_bitmap fl fl' ∙ elim (Bool-cases (fl' == fl)) [
    | inl same ↦ rw same (ap (λ c. if c then 0 else 1) (sym set_nonzero))
    | inr other ↦ rw other (g.first fl' p)
  ]

  set-Narrow : (fl' : ℕ) → fl' < fl_index_count → Narrow (second' fl')
  set-Narrow fl' p j high = elim (Bool-cases (fl' == fl)) [
    | inl same ↦
        rw same
          (ground (arith, bit_at-set (sl_bitmap fl) sl j, g.narrow fl small j high, second_small))
    | inr other ↦ rw other (g.narrow fl' p j high)
  ]

  pub set-Agrees : Agrees (bit_or fl_bitmap (2 ^ fl)) second' (put m fl sl 1)
  set-Agrees = record {
    second = set_marks;
    narrow = set-Narrow;
    first = set_first;
    top = λ fl' high. ground (arith, bit_at-set fl_bitmap fl fl', g.top fl' high);
  }

module _ (t : Tlsf) {m : ℕ → ℕ → ℕ} (g : Agrees t.fl_bitmap t.sl_bitmap m) (fl sl : ℕ)
    (small : fl < fl_index_count) (second_small : sl < sl_count) (head : ℕ)
    (was : m fl sl ≡ 1) where
  abbrev t' : Tlsf
  t' = clear_bits t fl sl head

  abbrev kept_bits : (fl' sl' : ℕ) → ℕ
  kept_bits fl' sl' = bit_at (t.sl_bitmap fl') sl'

  abbrev mark : ℕ
  mark = if head == 0 then 0 else 1

  was_set : kept_bits fl sl ≡ 1
  was_set = g.second fl sl small second_small ∙ was

  clear_bit : (fl' sl' : ℕ) → bit_at (t'.sl_bitmap fl') sl' ≡ put kept_bits fl sl mark fl' sl'
  unfolding clear_bits
  clear_bit fl' sl' = elim (Bool-cases (head == 0)) [
    | inl empty ↦ elim (Bool-cases (fl' == fl)) [
      | inl same ↦ rw (empty, same) (bit_at-clear (t.sl_bitmap fl) sl sl' (g.narrow fl small))
      | inr other ↦ rw (empty, other) refl
    ]
    | inr more ↦ rw more (elim (class-cases fl sl fl' sl') [
      | inl (e₁, e₂) ↦ rw (e₁, e₂) (was_set ∙ sym (put-same kept_bits fl sl 1))
      | inr other ↦ sym (put-Other kept_bits fl sl 1 fl' sl' other)
    ])
  ]

  clear_marks :
      (fl' sl' : ℕ)
      → fl' < fl_index_count
      → sl' < sl_count
      → bit_at (t'.sl_bitmap fl') sl' ≡ put m fl sl mark fl' sl'
  clear_marks fl' sl' p q = clear_bit fl' sl' ∙ elim (class-cases fl sl fl' sl') [
    | inl (e₁, e₂) ↦ rw (e₁, e₂) (put-same kept_bits fl sl mark ∙ sym (put-same m fl sl mark))
    | inr other ↦
        put-Other kept_bits fl sl mark fl' sl' other
        ∙ g.second fl' sl' p q
        ∙ sym (put-Other m fl sl mark fl' sl' other)
  ]

  clear-Narrow : (fl' : ℕ) → fl' < fl_index_count → Narrow (t'.sl_bitmap fl')
  clear-Narrow fl' p j high = clear_bit fl' j ∙ elim (class-cases fl sl fl' j) [
    | inl (e₁, e₂) ↦ absurd (omega (arith, e₂, second_small, high))
    | inr other ↦ put-Other kept_bits fl sl mark fl' j other ∙ g.narrow fl' p j high
  ]

  first-Narrow : Narrow t.fl_bitmap
  first-Narrow j high = g.top j (omega arith)

  nonzero : (t.sl_bitmap fl == 0) ≡ false
  nonzero =
      ne→== (t.sl_bitmap fl) 0
        (λ e. omega (arith, was_set, ap (λ n. bit_at n sl) e, bit_at-zero sl))

  clear_first :
      (fl' : ℕ)
      → fl' < fl_index_count
      → bit_at t'.fl_bitmap fl' ≡ (if t'.sl_bitmap fl' == 0 then 0 else 1)
  unfolding clear_bits
  clear_first fl' p = elim (Bool-cases (head == 0)) [
    | inr more ↦ rw more (g.first fl' p)
    | inl empty ↦ elim (Bool-cases (bit_and (t.sl_bitmap fl) (not_bit sl) == 0)) [
      | inl none ↦ elim (Bool-cases (fl' == fl)) [
        | inl same ↦
            rw (empty, none, same)
              (bit_at-clear t.fl_bitmap fl fl' first-Narrow ∙ rw (same, none) refl)
        | inr other ↦
            rw (empty, none, other)
              (bit_at-clear t.fl_bitmap fl fl' first-Narrow ∙ rw other (g.first fl' p))
      ]
      | inr some_left ↦ elim (Bool-cases (fl' == fl)) [
        | inl same ↦
            rw (empty, some_left, same, some_left)
              (ap (bit_at t.fl_bitmap) (==→eq fl' fl same) ∙ g.first fl small ∙ rw nonzero refl)
        | inr other ↦ rw (empty, some_left, other) (g.first fl' p)
      ]
    ]
  ]

  clear_top : (fl' : ℕ) → fl_index_count ≤ fl' → bit_at t'.fl_bitmap fl' ≡ 0
  unfolding clear_bits
  clear_top fl' high = elim (Bool-cases (head == 0)) [
    | inr more ↦ rw more (g.top fl' high)
    | inl empty ↦ elim (Bool-cases (bit_and (t.sl_bitmap fl) (not_bit sl) == 0)) [
      | inl none ↦
          rw (empty, none)
            (ground (arith, bit_at-clear t.fl_bitmap fl fl' first-Narrow, g.top fl' high))
      | inr some_left ↦ rw (empty, some_left) (g.top fl' high)
    ]
  ]

  pub clear-Agrees : Agrees t'.fl_bitmap t'.sl_bitmap (put m fl sl mark)
  clear-Agrees = record {
    second = clear_marks;
    narrow = clear-Narrow;
    first = clear_first;
    top = clear_top;
  }
