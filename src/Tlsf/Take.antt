-- ===== src/Tlsf/Take.antt =====
-- What `alloc` of abalone/src/tlsf.rs does with a block that it has found: it is taken from its list, cut where that
-- pays, and handed out.
use native.Mathlib.Nat.{pow-le-pow_right, mul-le-mul_right}
use my_kernel.Prelude.{
  ℕ, ◌+◌, ◌-◌, ◌*◌, ◌/◌, ◌%◌, ◌^◌, ◌≤◌, ◌<◌, ◌≡◌, ◌≢◌, ◌⊎◌, inl, inr, refl, ap, ◌∙◌, arith, max,
  bit_and, Bool, true, false, ◌==◌, leb, ltb, Bool-cases, ==→eq, some,
}
use my_kernel.Prelude.Panic.{ok}
use my_kernel.Word.{add64, sub64, top_bit}
use my_kernel.Word.Zeros.{top_bit_bounds}
use my_kernel.Bits.Masks.{bit_and-high}
use my_kernel.Tlsf.{
  Tlsf, header_size, is_free, set_prev_free, block_size, next_phys, rounded, hand_out, take_block,
  write_size,
}
use my_kernel.Tlsf.Header.{size_bits-aligned, size_bits-set_prev_free, is_free-set_prev_free}
use my_kernel.Tlsf.Mapping.{InClass}
use my_kernel.Tlsf.Fit.{searched, searched_fl, searched_sl, good_fit}
use my_kernel.Links.Chain.{remove}
use my_kernel.Tlsf.Inv.{Lists, put, InLists, IsValid, IsValid-frame, SameHeader}
use my_kernel.Tlsf.Find.{FirstFrom}
use my_kernel.Tlsf.Remove.{
  removed, remove_free-ok, removed-IsValid, removed-InLists, removed_size, removed_mark,
  removed-keeps,
}
use my_kernel.Tlsf.Split.{Cut, split-Cut}

-- The largest size that is looked for without leaving the table of lists.
abbrev pub largest : ℕ
largest = 2 ^ 30 - 2 ^ 24

rounded_lem : (n : ℕ) → n ≤ largest → rounded n ≡ 8 * ((max n 32 + 7) / 8)
unfolding rounded
rounded_lem n h =
    ap (λ m. bit_and m (2 ^ 64 - 1 - 7)) {x = add64 (max n 32) 7} {y = max n 32 + 7} (omega arith)
    ∙ bit_and-high 3 61 (max n 32 + 7)
    ∙ omega arith

pub rounded_bounds :
    (n : ℕ)
    → n ≤ largest
    → (n ≤ rounded n) × (32 ≤ rounded n) × (rounded n ≤ largest) × (rounded n % 4 ≡ 0)
rounded_bounds n h = omega (arith, rounded_lem n h)

pub searched_lt : (size : ℕ) → 32 ≤ size → size ≤ largest → searched size < 2 ^ 30
searched_lt size lo hi = elim (Bool-cases (ltb (top_bit size) 30)) [
  | inl low ↦
      let unit : 2 ^ (top_bit size - 5) ≤ 2 ^ 24 =
        pow-le-pow_right {n = 2} (omega arith) {i = top_bit size - 5} {j = 24}
          (ground (arith, low)) in
      omega arith
  | inr high ↦
      let up : 2 ^ 30 ≤ 2 ^ top_bit size =
        pow-le-pow_right {n = 2} (omega arith) {i = 30} (ground (arith, high)) in
      absurd (omega (arith, up, top_bit_bounds size (omega arith) (λ e. omega (arith, e))))
]

-- A listed block is below 1 GiB.
listed_lt : (size fl sl : ℕ) → fl < 30 → sl < 32 → InClass size fl sl → size < 2 ^ 30
listed_lt size fl sl p q c =
    let unit : 2 ^ (fl - 5) ≤ 2 ^ 24 =
      pow-le-pow_right {n = 2} (omega arith) {i = fl - 5} {j = 24} (omega arith) in
    let share : (32 + sl) * 2 ^ (fl - 5) ≤ 63 * 2 ^ (fl - 5) =
      mul-le-mul_right (2 ^ (fl - 5)) (omega arith) in
    omega (arith, c.below, share, unit)

-- `block` has been taken out of the free blocks `F` and handed out with at least `n` bytes: the other blocks are still
-- free with their sizes, and what was cut off the block is free too.
pub record Handed (t : Tlsf) (F : Lists) (n block : ℕ) (t' : Tlsf) : Type 0 where
  pub lists : Lists
  pub valid : IsValid t' lists
  pub was_free : InLists F block
  pub room : n ≤ block_size t' block
  pub inside : block_size t' block ≤ block_size t block
  pub used : is_free (t'.sizes block) ≡ false
  pub rest :
      (x : ℕ)
      → InLists lists x
      → ((x ≡ block + header_size + block_size t' block)
          × (x + header_size + block_size t' x ≡ block + header_size + block_size t block))
        ⊎ (InLists F x × (x ≢ block) × (block_size t' x ≡ block_size t x))
  pub kept :
      (x : ℕ) → InLists F x → x ≢ block → InLists lists x × (block_size t' x ≡ block_size t x)
  pub cut_off :
      (block_size t' block ≡ block_size t block)
      ⊎ InLists lists (block + header_size + block_size t' block)

-- The block behind is told whether this one is free.
abbrev pub told : Tlsf → (block : ℕ) → Bool → Tlsf
told t block f = write_size t (next_phys t block) (set_prev_free (t.sizes (next_phys t block)) f)

pub told_header :
    (t : Tlsf) (block : ℕ) (f : Bool) (x : ℕ) → SameHeader ((told t block f).sizes x) (t.sizes x)
told_header t block f x = elim (Bool-cases (x == next_phys t block)) [
  | inl same ↦
      rw (same, ==→eq x (next_phys t block) same)
        (
          size_bits-set_prev_free (t.sizes (next_phys t block)) f,
          is_free-set_prev_free (t.sizes (next_phys t block)) f,
        )
  | inr other ↦ rw other (refl, refl)
]

module _ {t : Tlsf} {F : Lists} (v : IsValid t F) (n : ℕ) (small : n ≤ largest) (block : ℕ)
    (first : FirstFrom F (searched_fl (rounded n)) (searched_sl (rounded n)) block) where
  abbrev size : ℕ
  size = rounded n

  bounds : (n ≤ size) × (32 ≤ size) × (size ≤ largest) × (size % 4 ≡ 0)
  bounds = rounded_bounds n small

  was_free : InLists F block
  was_free = record {
    fl = first.fl;
    sl = first.sl;
    fl_lt = first.fl_lt;
    sl_lt = first.sl_lt;
    here = first.here;
  }

  class : InClass (block_size t block) first.fl first.sl
  class = (v.listed.classes first.fl first.sl block first.fl_lt first.sl_lt first.here).0

  enough : size ≤ block_size t block
  enough =
      good_fit size (bounds.1) (omega (arith, searched_lt size (bounds.1) (bounds.2)))
        (block_size t block) first.fl first.sl class first.high

  below : block_size t block < 2 ^ 30
  below = listed_lt (block_size t block) first.fl first.sl first.fl_lt first.sl_lt class

  abbrev t₁ : Tlsf
  t₁ = removed t block first.fl first.sl

  abbrev F₁ : Lists
  F₁ = put F first.fl first.sl (remove block (F first.fl first.sl))

  v₁ : IsValid t₁ F₁
  v₁ =
      removed-IsValid v.listed block first.fl first.sl first.fl_lt first.sl_lt first.here
        (λ x y lx ly ne. v.apart x y lx ly ne)

  size_t₁ : (x : ℕ) → block_size t₁ x ≡ block_size t x
  size_t₁ = removed_size v.listed block first.fl first.sl first.fl_lt first.sl_lt first.here

  mark_t₁ : is_free (t₁.sizes block) ≡ false
  mark_t₁ = removed_mark v.listed block first.fl first.sl first.fl_lt first.sl_lt first.here

  still : (x : ℕ) → InLists F₁ x → (x ≢ block) × InLists F x
  still = removed-InLists v.listed block first.fl first.sl first.fl_lt first.sl_lt first.here

  gone_keeps : (x : ℕ) → x ≢ block → InLists F x → InLists F₁ x
  gone_keeps = removed-keeps v.listed block first.fl first.sl first.fl_lt first.sl_lt first.here

  abbrev remainder : ℕ
  remainder = block_size t block - size

  remainder_lem : sub64 (block_size t₁ block) size ≡ remainder
  remainder_lem = omega (arith, size_t₁ block, enough, below)

  cut : 64 ≤ remainder → Cut t₁ F₁ block size remainder
  cut room =
      split-Cut v₁ block size remainder (omega (arith, size_t₁ block, enough))
        (omega (arith, below, enough)) room (bounds.3)
        (omega (arith, size_bits-aligned (t.sizes block), bounds, enough))
        (λ x l.
          rw (size_t₁ x, size_t₁ block) (v.apart x block ((still x l).1) was_free ((still x l).0)))
        (λ x l. (still x l).0)

  take_whole :
      leb 64 remainder ≡ false
      → take_block size t (some block) ≡ ok (some (block + header_size), told t₁ block false)
  unfolding take_block hand_out
  take_whole no_cut =
      rw (remove_free-ok t block first.fl first.sl class.maps first.fl_lt, remainder_lem, no_cut)
        refl

  take-Cut :
      (c : Cut t₁ F₁ block size remainder)
      → leb 64 remainder ≡ true
      → take_block size t (some block) ≡ ok (some (block + header_size), told c.after block false)
  unfolding take_block hand_out
  take-Cut c cuts =
      rw
        (
          remove_free-ok t block first.fl first.sl class.maps first.fl_lt,
          remainder_lem,
          cuts,
          c.done,
        )
        refl

  whole-Handed : Handed t F n block (told t₁ block false)
  whole-Handed = record {
    lists = F₁;
    valid = IsValid-frame _ t₁.prev_phys (λ x l. told_header t₁ block false x) v₁;
    was_free = was_free;
    room = omega (arith, (told_header t₁ block false block).0, size_t₁ block, bounds, enough);
    inside = omega (arith, (told_header t₁ block false block).0, size_t₁ block);
    used = (told_header t₁ block false block).1 ∙ mark_t₁;
    rest = λ x l.
        let (ne, old) = still x l in inr (old, ne, (told_header t₁ block false x).0 ∙ size_t₁ x);
    kept = λ x l ne. (gone_keeps x ne l, (told_header t₁ block false x).0 ∙ size_t₁ x);
    cut_off = inl ((told_header t₁ block false block).0 ∙ size_t₁ block);
  }

  Cut-Handed :
      (c : Cut t₁ F₁ block size remainder)
      → 64 ≤ remainder
      → Handed t F n block (told c.after block false)
  Cut-Handed c room = record {
    lists = c.lists;
    valid = IsValid-frame _ c.after.prev_phys (λ x l. told_header c.after block false x) c.valid;
    was_free = was_free;
    room = omega (arith, (told_header c.after block false block).0, c.cut_size, bounds);
    inside = omega (arith, (told_header c.after block false block).0, c.cut_size, enough);
    used = (told_header c.after block false block).1 ∙ c.mark ∙ mark_t₁;
    rest = λ x l. elim (c.free x l) [
      | inl (e, behind) ↦ inl (
        omega (arith, e, (told_header c.after block false block).0, c.cut_size),
        omega (arith, e, behind, room, (told_header c.after block false x).0),
      )
      | inr (old, same) ↦ inr (
        (still x old).1,
        (still x old).0,
        (told_header c.after block false x).0 ∙ same ∙ size_t₁ x,
      )
    ];
    kept = λ x l ne.
        let (there, same) = c.keeps x (gone_keeps x ne l) in
        (there, (told_header c.after block false x).0 ∙ same ∙ size_t₁ x);
    cut_off = inr (rw ((told_header c.after block false block).0, c.cut_size) c.behind);
  }

  pub takes :
      (t' : Tlsf) × (take_block size t (some block) ≡ ok (some (block + header_size), t'))
      × Handed t F n block t'
  takes = elim (Bool-cases (leb 64 remainder)) [
    | inl cuts ↦
        let room : 64 ≤ remainder = ground (arith, cuts) in
        (told (cut room).after block false, take-Cut (cut room) cuts, Cut-Handed (cut room) room)
    | inr no_cut ↦ (told t₁ block false, take_whole no_cut, whole-Handed)
  ]
