-- ===== src/Limine/Release.antt =====
-- What `release` of src/limine_data.rs gives to the buddy allocator.
use my_kernel.Prelude.{
  ℕ, ◌^◌, ◌+◌, ◌-◌, ◌*◌, ◌/◌, ◌%◌, ◌≤◌, ◌<◌, ◌≡◌, refl, ap, ◌∙◌, inl, inr, arith, true, false, ltb,
  Bool-cases, List, [], ◌∷◌, All, if◌then◌else◌, Bool, ◌&&◌, not, leb,
}
use my_kernel.Prelude.Panic.{Outcome, ok}
use my_kernel.Word.{add64}
use my_kernel.Buddy.{BuddyAllocator, max_pages, page_size}
use my_kernel.Buddy.Cover.{Lists, cover}
use my_kernel.Buddy.Inv.{IsValid}
use my_kernel.Buddy.Region.{in_pages, add_region-RegionAdded}
use my_kernel.Limine.{
  IsAlign, is_reclaimable, region_end, aligned_end, Align, MemoryRegion, aligned_base, page_count,
  skips, release_regions,
}

-- Certain pages were added to the free ones.
pub record Released (b : BuddyAllocator) (F : Lists) (pages : ℕ → ℕ) (r : Outcome BuddyAllocator)
    : Type 0 where
  pub after : BuddyAllocator
  pub lists : Lists
  pub result : r ≡ ok after
  pub valid : IsValid after lists
  pub added : (y : ℕ) → cover lists y ≡ cover F y + pages y
  pub base : after.base ≡ b.base

module _ (a : Align) (hhdm sp : ℕ) where
  -- The first page of a region in the window at `hhdm`, as the allocator with that base counts pages.
  abbrev pub first_page : (base : ℕ) → MemoryRegion → ℕ
  first_page base r = (add64 hhdm (aligned_base a r) - base) / page_size

  -- How often the regions that are not passed over hold a page, as the source counts.
  unfoldable counted_pages : (base : ℕ) → List MemoryRegion → (page : ℕ) → ℕ
  counted_pages base [] y = 0
  counted_pages base (r ∷ rs) y =
      let rest = counted_pages base rs y in
      if skips a sp r then rest else in_pages (first_page base r) (page_count a r) y + rest

  -- A region that is given lies above the base and in the index space.
  abbrev IsCounted : (base : ℕ) → MemoryRegion → Type 0
  IsCounted base r =
      skips a sp r ≡ false
      → (base ≤ add64 hhdm (aligned_base a r)) × (first_page base r + page_count a r ≤ max_pages)

  release-counted :
      (b : BuddyAllocator) (F : Lists) (rs : List MemoryRegion)
      → IsValid b F
      → All (IsCounted b.base) rs
      → ((y : ℕ) → cover F y + counted_pages b.base rs y ≤ 1)
      → Released b F (counted_pages b.base rs) (release_regions a hhdm sp rs b)
  unfolding release_regions counted_pages
  release-counted b F [] v placed apart = record {
    after = b;
    lists = F;
    result = refl;
    valid = v;
    added = λ y. omega arith;
    base = refl;
  }
  release-counted b F (r ∷ rs) v (here, later) apart = elim (Bool-cases (skips a sp r)) [
    | inl skipped ↦
        let rest = release-counted b F rs v later (λ y. rw skipped at (apart y)) in
        record {
          after = rest.after;
          lists = rest.lists;
          result = rw skipped rest.result;
          valid = rest.valid;
          added = λ y. rw skipped (rest.added y);
          base = rest.base;
        }
    | inr taken ↦
        let (above, inside) = here taken in
        let each : (y : ℕ)
            → cover F y
                + (in_pages (first_page b.base r) (page_count a r) y + counted_pages b.base rs y)
              ≤ 1 =
          λ y. rw taken at (apart y) in
        let one =
          add_region-RegionAdded v (add64 hhdm (aligned_base a r)) (page_count a r) above
            (record { inside = inside; apart = λ y. omega (arith, each y) }) in
        let rest =
          release-counted one.after one.lists rs one.valid (rw one.base later)
            (λ y. rw one.base (omega (arith, each y, one.added y))) in
        record {
          after = rest.after;
          lists = rest.lists;
          result = rw (taken, one.result) rest.result;
          valid = rest.valid;
          added = λ y.
              rw taken
                (omega (arith, rest.added y, one.added y, ap (λ c. counted_pages c rs y) one.base));
          base = rest.base ∙ one.base;
        }
  ]

-- The whole pages of a region, by their numbers.
abbrev pub from_page : MemoryRegion → ℕ
from_page r = (r.base + 4095) / 4096

abbrev pub to_page : MemoryRegion → ℕ
to_page r = (r.base + r.length) / 4096

-- Reclaimable, above 1 MiB, and without the stack's page.
abbrev pub is_given : (sp : ℕ) → MemoryRegion → Bool
is_given sp r =
    is_reclaimable r.region_type
    && leb 0x100 (from_page r)
    && not (leb (from_page r) (sp / 4096) && ltb (sp / 4096) (to_page r))

-- Page `y` from `base` lies wholly in the region, which is seen at `hhdm` and beyond.
abbrev pub holds : (hhdm base : ℕ) → MemoryRegion → (y : ℕ) → Bool
holds hhdm base r y =
    leb (hhdm + r.base) (base + y * 4096) && leb (base + y * 4096 + 4096) (hhdm + r.base + r.length)

-- How many of the regions that are given hold a page.
abbrev pub given_pages : (hhdm sp base : ℕ) → List MemoryRegion → (y : ℕ) → ℕ
given_pages hhdm sp base [] y = 0
given_pages hhdm sp base (r ∷ rs) y =
    (if is_given sp r && holds hhdm base r y then 1 else 0) + given_pages hhdm sp base rs y

-- A region's addresses are words, and if it is given, it is seen from the base on and in the index space.
pub record IsPlaced (hhdm sp base : ℕ) (r : MemoryRegion) : Type 0 where
  pub fits : r.base + r.length < 2 ^ 64
  pub up_fits : r.base + 4095 < 2 ^ 64
  pub above : is_given sp r ≡ true → base ≤ hhdm + from_page r * 4096
  pub inside : is_given sp r ≡ true → hhdm + to_page r * 4096 ≤ base + max_pages * page_size

module _ (a : Align) (x : IsAlign a) (hhdm sp base : ℕ) (hhdm_aligned : hhdm % 4096 ≡ 0)
    (aligned : base % 4096 ≡ 0) (base_fits : base + max_pages * page_size ≤ 2 ^ 64) where
  aligned_lem :
      (r : MemoryRegion)
      → IsPlaced hhdm sp base r
      → (aligned_base a r ≡ from_page r * 4096) × (aligned_end a r ≡ to_page r * 4096)
  unfolding aligned_base aligned_end region_end
  aligned_lem r h = (
    x.up r.base h.up_fits ∙ omega arith,
    x.down (add64 r.base r.length) (omega arith) ∙ omega (arith, h.fits),
  )

  skips_lem :
      (r : MemoryRegion)
      → IsPlaced hhdm sp base r
      → skips a sp r ≡ not (is_given sp r && ltb (from_page r) (to_page r))
  unfolding skips page_count
  skips_lem r h = let (from, to) = aligned_lem r h in rw (from, to) (ground arith)

  IsPlaced-IsCounted : (r : MemoryRegion) → IsPlaced hhdm sp base r → IsCounted a hhdm sp base r
  unfolding page_count
  IsPlaced-IsCounted r h taken =
      let (from, to) = aligned_lem r h in
      let good : is_given sp r && ltb (from_page r) (to_page r) ≡ true =
        ground (arith, skips_lem r h, taken) in
      let given : is_given sp r ≡ true = ground (arith, good) in
      (ground (arith, from, h.above given), ground (arith, from, to, h.above given, h.inside given))

  counted-given :
      (r : MemoryRegion) (y : ℕ)
      → IsPlaced hhdm sp base r
      → (if skips a sp r then 0 else in_pages (first_page a hhdm sp base r) (page_count a r) y)
        ≡ (if is_given sp r && holds hhdm base r y then 1 else 0)
  unfolding page_count
  counted-given r y h =
      let (from, to) = aligned_lem r h in
      let skipped = skips_lem r h in
      elim (Bool-cases (is_given sp r)) [
        | inr not_given ↦ rw (skipped, not_given) refl
        | inl given ↦ elim (Bool-cases (ltb (from_page r) (to_page r))) [
          | inr none ↦ rw (skipped, given, none) (ground (arith, none, aligned, hhdm_aligned))
          | inl some_page ↦
              let start : (add64 hhdm (from_page r * 4096) - base) / 4096
                  ≡ (hhdm + from_page r * 4096 - base) / 4096 =
                ground (arith, h.inside given, some_page) in
              let count : (to_page r * 4096 - from_page r * 4096) / 4096 ≡ to_page r - from_page r =
                omega arith in
              rw (skipped, given, some_page, from, to, start, count)
                (ground (arith, some_page, aligned, hhdm_aligned, h.above given, h.inside given))
        ]
      ]

  All-IsCounted :
      (rs : List MemoryRegion) → All (IsPlaced hhdm sp base) rs → All (IsCounted a hhdm sp base) rs
  All-IsCounted [] h = tt
  All-IsCounted (r ∷ rs) (here, later) = (IsPlaced-IsCounted r here, All-IsCounted rs later)

  counted-given_sum :
      (rs : List MemoryRegion) (y : ℕ)
      → All (IsPlaced hhdm sp base) rs
      → counted_pages a hhdm sp base rs y ≡ given_pages hhdm sp base rs y
  unfolding counted_pages
  counted-given_sum [] y h = refl
  counted-given_sum (r ∷ rs) y (here, later) =
      let rest = counted-given_sum rs y later in
      let one = counted-given r y here in
      elim (Bool-cases (skips a sp r)) [
        | inl skipped ↦ rw skipped (omega (arith, rest, rw skipped at one))
        | inr taken ↦ rw taken (omega (arith, rest, rw taken at one))
      ]

-- On a valid allocator whose base is a page's address, as is that of the window at `hhdm`, and for regions of 64-bit
-- addresses, of which those that are given are seen in the window from the base on and in the index space, are not free
-- yet and do not overlap, `release` does not panic and keeps the invariant. It frees exactly the whole pages in regions
-- that are reclaimable, have their first whole page at or above 1 MiB, and do not hold the stack's page.
pub release-Released :
    (a : Align)
    → IsAlign a
    → (hhdm sp : ℕ) (b : BuddyAllocator) (F : Lists) (rs : List MemoryRegion) → IsValid b F
    → hhdm % 4096 ≡ 0
    → b.base % 4096 ≡ 0
    → All (IsPlaced hhdm sp b.base) rs
    → ((y : ℕ) → cover F y + given_pages hhdm sp b.base rs y ≤ 1)
    → Released b F (given_pages hhdm sp b.base rs) (release_regions a hhdm sp rs b)
release-Released a x hhdm sp b F rs v hhdm_aligned aligned placed apart =
    let same : (y : ℕ) → counted_pages a hhdm sp b.base rs y ≡ given_pages hhdm sp b.base rs y =
      λ y. counted-given_sum a x hhdm sp b.base hhdm_aligned aligned v.base_fits rs y placed in
    let r =
      release-counted a hhdm sp b F rs v
        (All-IsCounted a x hhdm sp b.base hhdm_aligned aligned v.base_fits rs placed)
        (λ y. omega (arith, apart y, same y)) in
    record {
      after = r.after;
      lists = r.lists;
      result = r.result;
      valid = r.valid;
      added = λ y. omega (arith, r.added y, same y);
      base = r.base;
    }
