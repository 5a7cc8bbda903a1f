-- ===== src/Buddy/Region.antt =====
-- `new`, `set_base` and `add_region` of abalone/src/buddy.rs: the pages of a region become free, cut into
-- aligned blocks.
use native.Mathlib.Nat.{pow-le-pow_right, le_trans, zero-mod}
use my_kernel.Prelude.{
  ℕ, zero, suc, ◌+◌, ◌-◌, ◌*◌, ◌/◌, ◌%◌, ◌^◌, ◌≤◌, ◌<◌, ◌≡◌, ◌≢◌, ◌⊎◌, refl, arith, [], ◌∷◌, ltb,
  leb, ◌&&◌, ◌==◌, if◌then◌else◌, update, Bool-cases, inl, inr, ==→ne, eq→==, true, false, sym, ap,
  ◌∙◌, two-pow-pos, two-pow-suc, half_aligned,
}
use my_kernel.Prelude.Panic.{Outcome, ok}
use my_kernel.Word.{trailing_zeros, top_bit, add64, sub64}
use my_kernel.Word.Zeros.{top_bit_bounds, trailing_zeros-divides}
use my_kernel.Bits.{bit_at-zero}
use my_kernel.Links.{Links}
use my_kernel.Buddy.{
  BuddyAllocator, AllocStats, no_stats, count_region, buddy_max_order, max_pages, page_size,
  region_order, add_blocks, add_region, new, set_base,
}
use my_kernel.Buddy.Cover.{Lists, in_block, cover, cover-update, covered-cons, in_pair}
use my_kernel.Buddy.Inv.{IsValid, IsValid-counts}
use my_kernel.Buddy.Free.{free_block-ok, freed-IsValid}
use my_kernel.Buddy.Alloc.{SameFrame}

-- A multiple of `2 ^ (k + d)` is a multiple of `2 ^ k`.
aligned_below : (d k j p : ℕ) → j ≡ k + d → p % 2 ^ j ≡ 0 → p % 2 ^ k ≡ 0
aligned_below zero k j p e h =
    let same : j ≡ k = omega arith in ap (λ (t : ℕ). p % 2 ^ t) (sym same) ∙ h
aligned_below (suc d) k j p e h =
    let up : j ≡ suc (k + d) = omega arith in
    let double : 2 ^ j ≡ 2 * 2 ^ (k + d) = ap (λ (t : ℕ). 2 ^ t) up ∙ two-pow-suc (k + d) in
    aligned_below d k (k + d) p refl (half_aligned p (2 ^ (k + d)) (rw double at h)).0

region_order_bounds :
    (offset remaining : ℕ)
    → (region_order offset remaining < buddy_max_order)
      × (region_order offset remaining ≤ top_bit remaining)
      × ((offset ≡ 0) ⊎ (region_order offset remaining ≤ trailing_zeros offset))
unfolding region_order
region_order_bounds offset remaining = (omega arith, omega arith, ground arith)

-- The block that `add_region` frees next is aligned and fits the pages that remain.
region_order_lem :
    (offset remaining : ℕ)
    → remaining < 2 ^ 64
    → remaining ≢ 0
    → (region_order offset remaining < buddy_max_order)
      × (offset % 2 ^ region_order offset remaining ≡ 0)
      × (2 ^ region_order offset remaining ≤ remaining)
region_order_lem offset remaining fits pos =
    let (lt, top, tz) = region_order_bounds offset remaining in
    let k : ℕ = region_order offset remaining in
    (
      lt,
      elim tz [
        | inl at_base ↦ ap (λ (t : ℕ). t % 2 ^ k) at_base ∙ zero-mod (2 ^ k)
        | inr le ↦
            aligned_below (trailing_zeros offset - k) k (trailing_zeros offset) offset (omega arith)
              (trailing_zeros-divides offset)
      ],
      le_trans (pow-le-pow_right {n = 2} (omega arith) top) (top_bit_bounds remaining fits pos).0,
    )

-- 1 if page `x` lies in the `count` pages from `offset`, else 0.
abbrev pub in_pages : (offset count x : ℕ) → ℕ
in_pages offset count x = if leb offset x && ltb x (offset + count) then 1 else 0

-- The pages from `offset` on that `add_region` is given: in the index space and not free yet.
pub record NewPages (F : Lists) (offset count : ℕ) : Type 0 where
  pub inside : offset + count ≤ max_pages
  pub apart : (x : ℕ) → cover F x + in_pages offset count x ≤ 1

-- What the loop of `add_region` makes of its pages.
record AddsPages (b : BuddyAllocator) (F : Lists) (offset count : ℕ) (r : Outcome BuddyAllocator)
    : Type 0 where
  after : BuddyAllocator
  lists : Lists
  result : r ≡ ok after
  valid : IsValid after lists
  added : (x : ℕ) → cover lists x ≡ cover F x + in_pages offset count x
  same : SameFrame b after

add_blocks-AddsPages :
    (fuel offset remaining : ℕ) {b : BuddyAllocator} {F : Lists}
    → IsValid b F
    → remaining ≤ fuel
    → NewPages F offset remaining
    → AddsPages b F offset remaining (add_blocks fuel b offset remaining)
unfolding add_blocks
add_blocks-AddsPages zero offset remaining {b} {F} v enough n = record {
  after = b;
  lists = F;
  result = rw (eq→== remaining 0 (omega arith));
  valid = v;
  added = λ x. ground arith;
  same = record { base = refl; total = refl; stats = refl };
}
add_blocks-AddsPages (suc fuel) offset remaining {b} {F} v enough n =
    elim (Bool-cases (remaining == 0)) [
      | inl finished ↦ record {
        after = b;
        lists = F;
        result = rw finished;
        valid = v;
        added = λ x. ground arith;
        same = record { base = refl; total = refl; stats = refl };
      }
      | inr more ↦
          let k : ℕ = region_order offset remaining in
          let (hk, aligned, fits) =
            region_order_lem offset remaining (omega (arith, n.inside)) (==→ne _ _ more) in
          let inside : offset + 2 ^ k ≤ max_pages = omega (arith, n.inside) in
          let ready : (x : ℕ) → cover F x + in_block k offset x ≤ 1 =
            λ x. ground (arith, n.apart x) in
          let v' = freed-IsValid v offset k hk aligned inside ready in
          let more_free : (x : ℕ)
              → cover (update F k (offset ∷ F k)) x ≡ cover F x + in_block k offset x =
            λ x.
              omega (arith, cover-update k F (offset ∷ F k) x hk, covered-cons k offset (F k) x) in
          let n' : NewPages (update F k (offset ∷ F k)) (offset + 2 ^ k) (remaining - 2 ^ k) =
            record {
              inside = omega (arith, n.inside);
              apart = λ x. ground (arith, n.apart x, more_free x);
            } in
          let rest =
            add_blocks-AddsPages fuel (offset + 2 ^ k) (remaining - 2 ^ k) v'
              (omega (arith, two-pow-pos k)) n' in
          record {
            after = rest.after;
            lists = rest.lists;
            result =
                rw (more, free_block-ok b offset k (omega (arith, two-pow-pos k)) hk) rest.result;
            valid = rest.valid;
            added = λ x. ground (arith, rest.added x, more_free x);
            same = record {
              base = rest.same.base;
              total = rest.same.total;
              stats = rest.same.stats;
            };
          }
    ]

-- `add_region` returned: the region's pages are free and no other page changed, the invariant holds, and
-- the page count and the byte counts follow.
pub record RegionAdded (b : BuddyAllocator) (F : Lists) (offset count : ℕ)
    (r : Outcome BuddyAllocator) : Type 0 where
  pub after : BuddyAllocator
  pub lists : Lists
  pub result : r ≡ ok after
  pub valid : IsValid after lists
  pub added : (x : ℕ) → cover lists x ≡ cover F x + in_pages offset count x
  pub base : after.base ≡ b.base
  pub total : after.total_pages ≡ add64 b.total_pages count
  pub total_bytes : after.stats.total_bytes ≡ add64 b.total_pages count * page_size % 2 ^ 64
  pub used_bytes : after.stats.used_bytes ≡ b.stats.used_bytes
  pub free_bytes : after.stats.free_bytes ≡ sub64 (after.stats.total_bytes) b.stats.used_bytes

module _ {b : BuddyAllocator} {F : Lists} (v : IsValid b F) (virt_base count : ℕ)
    (above : b.base ≤ virt_base) (n : NewPages F ((virt_base - b.base) / page_size) count) where
  abbrev offset : ℕ
  offset = (virt_base - b.base) / page_size

  region_added :
      AddsPages b F offset count (add_blocks count b offset count)
      → RegionAdded b F offset count (add_region b virt_base count)
  unfolding add_region
  region_added loop =
      let set_up : (b.base == 0) ≡ false = ground (arith, v.base_pos) in
      let reached : leb b.base virt_base ≡ true = ground arith in
      record {
        after = count_region loop.after count;
        lists = loop.lists;
        result = rw (set_up, reached, loop.result);
        valid = IsValid-counts _ _ loop.valid;
        added = loop.added;
        base = loop.same.base;
        total = ap (λ t. add64 t count) loop.same.total;
        total_bytes = ap (λ t. add64 t count * page_size % 2 ^ 64) loop.same.total;
        used_bytes = ap (λ (s : AllocStats). s.used_bytes) loop.same.stats;
        free_bytes = rw (loop.same.stats, loop.same.total);
      }

  -- For a region above the base whose pages lie in the index space and are not free yet, `add_region` does
  -- not panic: it frees exactly the region's pages and keeps the invariant.
  pub add_region-RegionAdded : RegionAdded b F offset count (add_region b virt_base count)
  add_region-RegionAdded = region_added (add_blocks-AddsPages count offset count v (omega arith) n)

-- No free blocks.
abbrev pub no_lists : Lists
no_lists k = []

cover-empty : (x : ℕ) → cover no_lists x ≡ 0
unfolding cover
cover-empty x = refl

in_pair-nil : (k i : ℕ) → 0 ≡ in_pair k i [] % 2
unfolding in_pair
in_pair-nil k i = refl

-- The allocator that `set_base` leaves of a new one.
abbrev pub based : Links → ℕ → BuddyAllocator
based memory base = record {
  base = base;
  total_pages = 0;
  free_lists = λ k. 0;
  bitmaps = λ k i. 0;
  stats = no_stats;
  links = memory;
}

pub based-IsValid :
    (memory : Links) (base : ℕ)
    → 0 < base
    → base + max_pages * page_size ≤ 2 ^ 64
    → IsValid (based memory base) no_lists
based-IsValid memory base pos fits = record {
  base_pos = pos;
  base_fits = fits;
  chains = λ k hk. refl;
  bits = λ k i hk. rw (bit_at-zero (i % 64)) (in_pair-nil k i);
  placed = λ k p hk h. absurd (omega arith);
  once = λ x. omega (arith, cover-empty x);
}

-- After `new` and `set_base` the allocator is valid and has no free block, for every page-aligned base that
-- is not 0 and from which the index space fits the address space, whatever the memory holds.
pub set_base-new :
    (memory : Links) (base : ℕ)
    → 0 < base
    → base % page_size ≡ 0
    → base + max_pages * page_size ≤ 2 ^ 64
    → (set_base (new memory) base ≡ ok (based memory base))
      × IsValid (based memory base) no_lists
      × ((x : ℕ) → cover no_lists x ≡ 0)
unfolding set_base new
set_base-new memory base pos aligned fits =
    (rw (eq→== (base % page_size) 0 aligned), based-IsValid memory base pos fits, cover-empty)
