-- ===== src/Heap/Regions.antt =====
-- The second pass of `init` in src/memory/heap.rs: the pages of the usable regions, counted.
use my_kernel.Prelude.{
  ℕ, ◌^◌, ◌+◌, ◌-◌, ◌*◌, ◌/◌, ◌≤◌, ◌<◌, ◌≡◌, refl, ap, ◌∙◌, inl, inr, arith, true, min, max, ltb,
  leb, Bool-cases, List, [], ◌∷◌, All, if◌then◌else◌,
}
use my_kernel.Prelude.Panic.{Outcome, ok, ◌>>=◌}
use my_kernel.Word.{add64}
use my_kernel.Buddy.{BuddyAllocator, max_pages, page_size}
use my_kernel.Buddy.Cover.{Lists, cover}
use my_kernel.Buddy.Inv.{IsValid}
use my_kernel.Buddy.Region.{in_pages, add_region-RegionAdded}
use my_kernel.Limine.{Align, MemoryRegion, aligned_base, aligned_end}
use my_kernel.Heap.{is_usable, give, give_below, give_above, give_regions}

-- An operation that added certain pages to the free ones.
pub record Added (b : BuddyAllocator) (F : Lists) (pages : ℕ → ℕ) (r : Outcome BuddyAllocator)
    : Type 0 where
  pub after : BuddyAllocator
  pub lists : Lists
  pub result : r ≡ ok after
  pub valid : IsValid after lists
  pub added : (y : ℕ) → cover lists y ≡ cover F y + pages y
  pub base : after.base ≡ b.base

nothing : (b : BuddyAllocator) (F : Lists) → IsValid b F → Added b F (λ y. 0) (ok b)
nothing b F v = record {
  after = b;
  lists = F;
  result = refl;
  valid = v;
  added = λ y. omega arith;
  base = refl;
}

-- One operation after the other.
both :
    {b : BuddyAllocator} {F : Lists} {p q : ℕ → ℕ} {r : Outcome BuddyAllocator}
    (f : BuddyAllocator → Outcome BuddyAllocator) (one : Added b F p r)
    → Added one.after one.lists q (f one.after)
    → Added b F (λ y. p y + q y) (r >>= f)
both f one two = record {
  after = two.after;
  lists = two.lists;
  result = rw one.result two.result;
  valid = two.valid;
  added = λ y. omega (arith, two.added y, one.added y);
  base = two.base ∙ one.base;
}

-- The same operation and the same pages, written otherwise.
same_pages :
    {b : BuddyAllocator} {F : Lists} {p q : ℕ → ℕ} {r s : Outcome BuddyAllocator}
    → ((y : ℕ) → q y ≡ p y)
    → s ≡ r
    → Added b F p r
    → Added b F q s
same_pages same op one = record {
  after = one.after;
  lists = one.lists;
  result = op ∙ one.result;
  valid = one.valid;
  added = λ y. omega (arith, one.added y, same y);
  base = one.base;
}

module _ (hhdm : ℕ) where
  -- The pages between two physical addresses, as the allocator with that base counts them.
  abbrev pub piece : (base from to y : ℕ) → ℕ
  piece base from to y = in_pages ((add64 hhdm from - base) / page_size) ((to - from) / 4096) y

  -- The address range lies in the window, above the base, and in the index space.
  pub record IsPlaced (base from to : ℕ) : Type 0 where
    pub above : base ≤ hhdm + from
    pub inside : hhdm + to ≤ base + max_pages * page_size
    pub fits : base + max_pages * page_size ≤ 2 ^ 64

  give-Added :
      (b : BuddyAllocator) (F : Lists) (from to : ℕ)
      → from ≤ to
      → IsValid b F
      → IsPlaced b.base from to
      → ((y : ℕ) → cover F y + piece b.base from to y ≤ 1)
      → Added b F (piece b.base from to) (give hhdm from to b)
  unfolding give
  give-Added b F from to order v placed apart = elim (Bool-cases (ltb 0 ((to - from) / 4096))) [
    | inr empty ↦ record {
      after = b;
      lists = F;
      result = rw empty refl;
      valid = v;
      added = λ y. ground (arith, empty);
      base = refl;
    }
    | inl some_page ↦
        let strict : from < to = ground (arith, some_page) in
        let above : b.base ≤ add64 hhdm from =
          omega (arith, placed.above, placed.inside, placed.fits, strict) in
        let inside : (add64 hhdm from - b.base) / page_size + (to - from) / 4096 ≤ max_pages =
          omega (arith, placed.above, placed.inside, placed.fits, strict) in
        let one =
          add_region-RegionAdded v (add64 hhdm from) ((to - from) / 4096) above
            (record { inside = inside; apart = apart }) in
        record {
          after = one.after;
          lists = one.lists;
          result = rw some_page one.result;
          valid = one.valid;
          added = one.added;
          base = one.base;
        }
  ]

  module _ (ks ke : ℕ) where
    -- The pages of a region from `from` to `to` below the kernel, and above it.
    abbrev pub below_pages : (base from to y : ℕ) → ℕ
    below_pages base from to y = if ltb from ks then piece base from (min to ks) y else 0

    abbrev pub above_pages : (base from to y : ℕ) → ℕ
    above_pages base from to y = if ltb ke to then piece base (max from ke) to y else 0

    give_below-Added :
        (b : BuddyAllocator) (F : Lists) (from to : ℕ)
        → from < to
        → IsValid b F
        → IsPlaced b.base from to
        → ((y : ℕ) → cover F y + below_pages b.base from to y ≤ 1)
        → Added b F (below_pages b.base from to) (give_below hhdm ks from to b)
    unfolding give_below
    give_below-Added b F from to order v placed apart = elim (Bool-cases (ltb from ks)) [
      | inr behind ↦ same_pages (λ y. rw behind refl) (rw behind refl) (nothing b F v)
      | inl part ↦
          same_pages (λ y. rw part refl) (rw part refl)
            (give-Added b F from (min to ks) (ground (arith, order, part)) v
              (record {
                above = placed.above;
                inside = omega (arith, placed.inside);
                fits = placed.fits;
              })
              (λ y. rw part at (apart y)))
    ]

    give_above-Added :
        (b : BuddyAllocator) (F : Lists) (from to : ℕ)
        → from < to
        → IsValid b F
        → IsPlaced b.base from to
        → ((y : ℕ) → cover F y + above_pages b.base from to y ≤ 1)
        → Added b F (above_pages b.base from to) (give_above hhdm ke from to b)
    unfolding give_above
    give_above-Added b F from to order v placed apart = elim (Bool-cases (ltb ke to)) [
      | inr behind ↦ same_pages (λ y. rw behind refl) (rw behind refl) (nothing b F v)
      | inl part ↦
          same_pages (λ y. rw part refl) (rw part refl)
            (give-Added b F (max from ke) to (ground (arith, order, part)) v
              (record {
                above = omega (arith, placed.above);
                inside = placed.inside;
                fits = placed.fits;
              })
              (λ y. rw part at (apart y)))
    ]

    abbrev pub range_pages : (base from to y : ℕ) → ℕ
    range_pages base from to y = below_pages base from to y + above_pages base from to y

    give_range-Added :
        (b : BuddyAllocator) (F : Lists) (from to : ℕ)
        → from < to
        → IsValid b F
        → IsPlaced b.base from to
        → ((y : ℕ) → cover F y + range_pages b.base from to y ≤ 1)
        → Added b F
            (range_pages b.base from to)
            (give_below hhdm ks from to b >>= give_above hhdm ke from to)
    give_range-Added b F from to strict v placed apart =
        let one = give_below-Added b F from to strict v placed (λ y. omega (arith, apart y)) in
        let same = λ (y : ℕ). ap (λ c. above_pages c from to y) one.base in
        let two =
          give_above-Added one.after one.lists from to strict one.valid (rw one.base placed)
            (λ y. omega (arith, apart y, one.added y, same y)) in
        same_pages (λ y. omega (arith, same y)) refl (both (give_above hhdm ke from to) one two)

  module _ (a : Align) where
    -- A usable region with a page is placed.
    abbrev pub Placed : (base : ℕ) → MemoryRegion → Type 0
    Placed base r =
        is_usable r.region_type ≡ true
        → aligned_base a r < aligned_end a r
        → IsPlaced base (aligned_base a r) (aligned_end a r)

  module _ (a : Align) (ks ke : ℕ) where
    -- How often the second pass gives a page of the region.
    unfoldable pub region_pages : (base : ℕ) → MemoryRegion → (y : ℕ) → ℕ
    region_pages base r y =
        let from = aligned_base a r in
        let to = aligned_end a r in
        if is_usable r.region_type
        then (if leb to from then 0 else range_pages ks ke base from to y)
        else 0

    unfoldable pub usable_pages : (base : ℕ) → List MemoryRegion → (y : ℕ) → ℕ
    usable_pages base [] y = 0
    usable_pages base (r ∷ rs) y = region_pages base r y + usable_pages base rs y

    pub give_regions-Added :
        (b : BuddyAllocator) (F : Lists) (rs : List MemoryRegion)
        → IsValid b F
        → All (Placed a b.base) rs
        → ((y : ℕ) → cover F y + usable_pages b.base rs y ≤ 1)
        → Added b F (usable_pages b.base rs) (give_regions hhdm a ks ke rs b)
    unfolding give_regions usable_pages region_pages
    give_regions-Added b F [] v placed apart = nothing b F v
    give_regions-Added b F (r ∷ rs) v (here, later) apart =
        let from = aligned_base a r in
        let to = aligned_end a r in
        let rest : Added b F (usable_pages b.base rs) (give_regions hhdm a ks ke rs b) =
          give_regions-Added b F rs v later (λ y. omega (arith, apart y)) in
        elim (Bool-cases (is_usable r.region_type)) [
          | inr other ↦ same_pages (λ y. rw other (omega arith)) (rw other refl) rest
          | inl good ↦ elim (Bool-cases (leb to from)) [
            | inl empty ↦
                same_pages (λ y. rw (good, empty) (omega arith)) (rw (good, empty) refl) rest
            | inr pages ↦
                let strict : from < to = ground (arith, pages) in
                let placed : IsPlaced b.base from to = here good strict in
                let each : (y : ℕ)
                    → cover F y + (range_pages ks ke b.base from to y + usable_pages b.base rs y)
                      ≤ 1 =
                  λ y. rw (good, pages) at (apart y) in
                let part =
                  give_range-Added ks ke b F from to strict v placed (λ y. omega (arith, each y)) in
                let last =
                  give_regions-Added part.after part.lists rs part.valid (rw part.base later)
                    (λ y. rw part.base (omega (arith, each y, part.added y))) in
                same_pages
                  (λ y. rw (good, pages) (omega (arith, ap (λ c. usable_pages c rs y) part.base)))
                  (rw (good, pages) refl) (both (give_regions hhdm a ks ke rs) part last)
          ]
        ]
