-- ===== src/Tlsf/Inv.antt =====
-- The representation invariant of abalone/src/tlsf.rs: what the free lists and the two levels of bitmaps stand for.
use my_kernel.Prelude.{
  ℕ, ◌+◌, ◌≤◌, ◌<◌, ◌≡◌, ◌≢◌, ◌⊎◌, inl, inr, refl, sym, ap, ◌∙◌, List, [], ◌∷◌, true, ◌==◌,
  if◌then◌else◌, update, Bool-cases, ==→eq, ==→ne, eq→==, ne→==,
}
use my_kernel.Bits.{bit_at}
use my_kernel.Bits.Sets.{Narrow}
use my_kernel.Links.Chain.{occ, Chain}
use my_kernel.Tlsf.{Tlsf, size_bits, fl_index_count, sl_count, is_free, block_size, header_size}
use my_kernel.Tlsf.Mapping.{InClass}

-- The free blocks of each class.
abbrev pub Lists : Type 0
Lists = (fl sl : ℕ) → List ℕ

-- One class's entry of a table replaced.
abbrev pub put : {A : Type 0} → (ℕ → ℕ → A) → (fl sl : ℕ) → A → ℕ → ℕ → A
put F fl sl x = update F fl (update (F fl) sl x)

pub put-same : {A : Type 0} (F : ℕ → ℕ → A) (fl sl : ℕ) (x : A) → put F fl sl x fl sl ≡ x
put-same F fl sl x = rw (eq→== fl fl refl, eq→== sl sl refl) refl

-- Another class.
abbrev pub Other : (fl sl fl' sl' : ℕ) → Type 0
Other fl sl fl' sl' = (fl' ≢ fl) ⊎ (sl' ≢ sl)

pub put-Other :
    {A : Type 0} (F : ℕ → ℕ → A) (fl sl : ℕ) (x : A) (fl' sl' : ℕ)
    → Other fl sl fl' sl'
    → put F fl sl x fl' sl' ≡ F fl' sl'
put-Other F fl sl x fl' sl' (inl ne) = rw (ne→== fl' fl ne) refl
put-Other F fl sl x fl' sl' (inr ne) = elim (Bool-cases (fl' == fl)) [
  | inl same ↦ rw (same, ne→== sl' sl ne) (ap (λ f. F f sl') (sym (==→eq fl' fl same)))
  | inr other ↦ rw other refl
]

pub class-cases : (fl sl fl' sl' : ℕ) → ((fl' ≡ fl) × (sl' ≡ sl)) ⊎ Other fl sl fl' sl'
class-cases fl sl fl' sl' = elim (Bool-cases (fl' == fl)) [
  | inr other ↦ inr (inl (==→ne fl' fl other))
  | inl first ↦ elim (Bool-cases (sl' == sl)) [
    | inr other ↦ inr (inr (==→ne sl' sl other))
    | inl second ↦ inl (==→eq fl' fl first, ==→eq sl' sl second)
  ]
]

abbrev pub marks : List ℕ → ℕ
marks [] = 0
marks (x ∷ xs) = 1

-- The bitmaps agree with a table of marks: a bit of the second level is its list's mark, and a bit of the first level
-- says whether its second level has a bit.
pub record Agrees (fl_bitmap : ℕ) (sl_bitmap : ℕ → ℕ) (m : ℕ → ℕ → ℕ) : Type 0 where
  pub second :
      (fl sl : ℕ) → fl < fl_index_count → sl < sl_count → bit_at (sl_bitmap fl) sl ≡ m fl sl
  pub narrow : (fl : ℕ) → fl < fl_index_count → Narrow (sl_bitmap fl)
  pub first :
      (fl : ℕ) → fl < fl_index_count → bit_at fl_bitmap fl ≡ (if sl_bitmap fl == 0 then 0 else 1)
  pub top : (fl : ℕ) → fl_index_count ≤ fl → bit_at fl_bitmap fl ≡ 0

-- The lists are chains of free blocks of their class, and the bitmaps say which have a block.
pub record IsListed (t : Tlsf) (F : Lists) : Type 0 where
  pub chains :
      (fl sl : ℕ)
      → fl < fl_index_count
      → sl < sl_count
      → Chain t.links 0 (t.free_lists fl sl) (F fl sl)
  pub bitmaps : Agrees t.fl_bitmap t.sl_bitmap (λ fl sl. marks (F fl sl))
  pub classes :
      (fl sl x : ℕ)
      → fl < fl_index_count
      → sl < sl_count
      → 0 < occ x (F fl sl)
      → InClass (block_size t x) fl sl × (is_free (t.sizes x) ≡ true)
  pub once : (fl sl x : ℕ) → fl < fl_index_count → sl < sl_count → occ x (F fl sl) ≤ 1

-- A block stands in some list.
pub record InLists (F : Lists) (x : ℕ) : Type 0 where
  pub fl : ℕ
  pub sl : ℕ
  pub fl_lt : fl < fl_index_count
  pub sl_lt : sl < sl_count
  pub here : 0 < occ x (F fl sl)

-- The extents of two blocks, headers included, have no byte in common.
abbrev pub Apart : (x n y m : ℕ) → Type 0
Apart x n y m = (x + header_size + n ≤ y) ⊎ (y + header_size + m ≤ x)

-- Also the free blocks do not overlap.
pub record IsValid (t : Tlsf) (F : Lists) : Type 0 where
  pub listed : IsListed t F
  pub apart :
      (x y : ℕ) → InLists F x → InLists F y → x ≢ y → Apart x (block_size t x) y (block_size t y)

-- The class of a block is one only.
pub class_unique :
    {size fl sl fl' sl' : ℕ} → InClass size fl sl → InClass size fl' sl' → (fl ≡ fl') × (sl ≡ sl')
class_unique {size = size} {fl = fl} {sl = sl} {fl' = fl'} {sl' = sl'} c d =
    let e : (fl, sl) ≡ (fl', sl') = sym c.maps ∙ d.maps in
    (ap (λ (p : ℕ × ℕ). p.0) e, ap (λ (p : ℕ × ℕ). p.1) e)

-- A block of one list stands in no other.
pub in_one_list :
    {t : Tlsf} {F : Lists}
    → IsListed t F
    → (fl sl fl' sl' x : ℕ) → fl < fl_index_count
    → sl < sl_count
    → fl' < fl_index_count
    → sl' < sl_count
    → 0 < occ x (F fl sl)
    → 0 < occ x (F fl' sl')
    → (fl ≡ fl') × (sl ≡ sl')
in_one_list v fl sl fl' sl' x p q p' q' h h' =
    class_unique ((v.classes fl sl x p q h).0) ((v.classes fl' sl' x p' q' h').0)

-- Size and mark of a header, as the lists read them.
abbrev pub SameHeader : (a b : ℕ) → Type 0
SameHeader a b = (size_bits a ≡ size_bits b) × (is_free a ≡ is_free b)

module _ {t : Tlsf} {F : Lists} (sizes prev_phys : ℕ → ℕ)
    (kept : (x : ℕ) → InLists F x → SameHeader (sizes x) (t.sizes x)) where
  -- A change that keeps size and mark of every listed block, and touches neither links nor heads nor bitmaps.
  pub IsListed-frame : IsListed t F → IsListed (record t { sizes = sizes; prev_phys = prev_phys }) F
  IsListed-frame v = record {
    chains = v.chains;
    bitmaps = v.bitmaps;
    classes = λ fl sl x p q h.
        let (size, mark) = kept x (record { fl = fl; sl = sl; fl_lt = p; sl_lt = q; here = h }) in
        let (class, free) = v.classes fl sl x p q h in (rw size class, mark ∙ free);
    once = v.once;
  }

  pub IsValid-frame : IsValid t F → IsValid (record t { sizes = sizes; prev_phys = prev_phys }) F
  IsValid-frame v = record {
    listed = IsListed-frame v.listed;
    apart = λ x y hx hy ne. rw ((kept x hx).0, (kept y hy).0) (v.apart x y hx hy ne);
  }
