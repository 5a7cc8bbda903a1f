-- ===== src/Heap/OffKernel.antt =====
-- Where the pages lie that the second pass of `init` in src/memory/heap.rs gives.
use my_kernel.Prelude.{
  ℕ, ◌^◌, ◌⊎◌, ◌+◌, ◌-◌, ◌*◌, ◌/◌, ◌%◌, ◌≤◌, ◌<◌, ◌≡◌, refl, inl, inr, arith, true, false, min, max,
  ltb, leb, Bool, ltb→lt, List, [], ◌∷◌, All, Bool-cases, if◌then◌else◌,
}
use my_kernel.Word.{add64}
use my_kernel.Limine.{Align, IsAlign, MemoryRegion, aligned_base, aligned_end, region_end}
use my_kernel.Prelude.Panic.{Outcome, ok}
use my_kernel.Buddy.{BuddyAllocator}
use my_kernel.Buddy.Cover.{Lists, cover}
use my_kernel.Buddy.Inv.{IsValid}
use my_kernel.Heap.{is_usable, give_regions}
use my_kernel.Heap.Regions.{
  IsPlaced, Placed, piece, below_pages, above_pages, range_pages, region_pages, usable_pages,
  give_regions-Added,
}

-- A page of the window at `hhdm`, by its number behind the base: it is a page of the usable region, and not one of the
-- kernel, which lies from `ks` to `ke`.
pub record OffKernel (hhdm base ks ke : ℕ) (r : MemoryRegion) (y : ℕ) : Type 0 where
  pub usable : is_usable r.region_type ≡ true
  pub from : hhdm + r.base ≤ base + y * 4096
  pub to : base + y * 4096 + 4096 ≤ hhdm + (r.base + r.length)
  pub off_kernel : (base + y * 4096 + 4096 ≤ hhdm + ks) ⊎ (hhdm + ke ≤ base + y * 4096)

-- The predicate holds for one of the regions.
abbrev pub AnyRegion : (MemoryRegion → Type 0) → List MemoryRegion → Type 0
AnyRegion P [] = ⊥
AnyRegion P (r ∷ rs) = P r ⊎ AnyRegion P rs

-- A region that does not reach the end of the words.
abbrev pub Short : MemoryRegion → Type 0
Short r = (r.base + 4095 < 2 ^ 64) × (r.base + r.length < 2 ^ 64)

module _ (hhdm base : ℕ) (aligned : hhdm % 4096 ≡ 0) (base_aligned : base % 4096 ≡ 0) where
  piece-Inside :
      (from to y : ℕ)
      → from % 4096 ≡ 0
      → to % 4096 ≡ 0
      → base ≤ hhdm + from
      → hhdm + to ≤ 2 ^ 64
      → 0 < piece hhdm base from to y
      → (hhdm + from ≤ base + y * 4096) × (base + y * 4096 + 4096 ≤ hhdm + to)
  piece-Inside from to y fa ta above fits some_page =
      let strict : from < to = elim (Bool-cases (ltb from to)) [
        | inl less ↦ ltb→lt from to less
        | inr not_less ↦ ground (arith, some_page, not_less)
      ] in
      let exact : add64 hhdm from ≡ hhdm + from = omega arith in
      let from_page : (add64 hhdm from - base) / 4096 ≤ y = ground (arith, some_page) in
      let to_page : y < (add64 hhdm from - base) / 4096 + (to - from) / 4096 =
        ground (arith, some_page) in
      (omega (arith, exact, from_page), omega (arith, exact, from_page, to_page))

  -- A conditional count that is not 0.
  if_some : (b : Bool) (n : ℕ) → 0 < (if b then n else 0) → (b ≡ true) × (0 < n)
  if_some true n h = (refl, h)
  if_some false n h = absurd (omega (arith, h))

  none_of : (n : ℕ) → ltb 0 n ≡ false → n ≡ 0
  none_of n h = ground (arith, h)

  range-Inside :
      (ks ke from to y : ℕ)
      → ks % 4096 ≡ 0
      → ke % 4096 ≡ 0
      → from % 4096 ≡ 0
      → to % 4096 ≡ 0
      → IsPlaced hhdm base from to
      → 0 < range_pages hhdm ks ke base from to y
      → (hhdm + from ≤ base + y * 4096)
        × (base + y * 4096 + 4096 ≤ hhdm + to)
        × ((base + y * 4096 + 4096 ≤ hhdm + ks) ⊎ (hhdm + ke ≤ base + y * 4096))
  range-Inside ks ke from to y kks kke fa ta placed some_page =
      elim (Bool-cases (ltb 0 (below_pages hhdm ks ke base from to y))) [
        | inl below ↦
            let (part, here) =
              if_some (ltb from ks) (piece hhdm base from (min to ks) y) (ltb→lt 0 _ below) in
            let (lo, hi) =
              piece-Inside from (min to ks) y fa (omega arith) placed.above
                (omega (arith, placed.inside, placed.fits)) here in
            (lo, omega (arith, hi), inl (omega (arith, hi)))
        | inr no_below ↦
            let some_above : 0 < above_pages hhdm ks ke base from to y =
              omega (arith, some_page, none_of _ no_below) in
            let (part, here) =
              if_some (ltb ke to) (piece hhdm base (max from ke) to y) some_above in
            let (lo, hi) =
              piece-Inside (max from ke) to y (omega arith) ta (omega (arith, placed.above))
                (omega (arith, placed.inside, placed.fits)) here in
            (omega (arith, lo), hi, inr (omega (arith, lo)))
      ]

  region_pages-OffKernel :
      (a : Align) (ks ke : ℕ) (r : MemoryRegion) (y : ℕ)
      → IsAlign a
      → ks < 2 ^ 64
      → ke + 4095 < 2 ^ 64
      → Short r
      → Placed hhdm a base r
      → 0 < region_pages hhdm a (a.align_down ks 4096) (a.align_up ke 4096) base r y
      → OffKernel hhdm base ks ke r y
  unfolding region_pages aligned_base aligned_end region_end
  region_pages-OffKernel a ks ke r y x ks_lt ke_lt (up_fits, fits) placed some_page =
      let down = x.down (add64 r.base r.length) (omega arith) in
      let up = x.up r.base up_fits in
      let (good, inner) = if_some (is_usable r.region_type) _ some_page in
      elim (Bool-cases (leb (aligned_end a r) (aligned_base a r))) [
        | inl empty ↦ absurd (omega (arith, rw empty at inner))
        | inr pages ↦
            let (lo, hi, off) =
              range-Inside (a.align_down ks 4096) (a.align_up ke 4096) (aligned_base a r)
                (aligned_end a r) y (omega (arith, x.down ks ks_lt)) (omega (arith, x.up ke ke_lt))
                (omega (arith, up)) (omega (arith, down)) (placed good (ground (arith, pages)))
                (rw pages at inner) in
            record {
              usable = good;
              from = omega (arith, lo, up);
              to = omega (arith, hi, down);
              off_kernel = elim off [
                | inl below ↦ inl (omega (arith, below, x.down ks ks_lt))
                | inr above ↦ inr (omega (arith, above, x.up ke ke_lt))
              ];
            }
      ]

  usable_pages-AnyRegion :
      (a : Align) (ks ke : ℕ) (rs : List MemoryRegion) (y : ℕ)
      → IsAlign a
      → ks < 2 ^ 64
      → ke + 4095 < 2 ^ 64
      → All Short rs
      → All (Placed hhdm a base) rs
      → 0 < usable_pages hhdm a (a.align_down ks 4096) (a.align_up ke 4096) base rs y
      → AnyRegion (λ r. OffKernel hhdm base ks ke r y) rs
  unfolding usable_pages
  usable_pages-AnyRegion a ks ke [] y x ks_lt ke_lt short placed some_page =
      omega (arith, some_page)
  usable_pages-AnyRegion a ks ke (r ∷ rs) y x ks_lt ke_lt (short, shorts) (here, later) some_page =
      let rest = usable_pages hhdm a (a.align_down ks 4096) (a.align_up ke 4096) base rs y in
      elim (Bool-cases (ltb 0 rest)) [
        | inl more ↦
            inr
              (usable_pages-AnyRegion a ks ke rs y x ks_lt ke_lt shorts later (ltb→lt 0 rest more))
        | inr none ↦ inl (
            region_pages-OffKernel a ks ke r y x ks_lt ke_lt short here
              (omega (arith, some_page, none_of rest none)))
      ]

-- The second pass ended, and each page that became free is a usable region's and not the kernel's.
pub record Spares (b : BuddyAllocator) (F : Lists) (hhdm ks ke : ℕ) (rs : List MemoryRegion)
    (r : Outcome BuddyAllocator) : Type 0 where
  pub after : BuddyAllocator
  pub lists : Lists
  pub result : r ≡ ok after
  pub valid : IsValid after lists
  pub old : (y : ℕ) → cover F y ≤ cover lists y
  pub new :
      (y : ℕ) → cover F y < cover lists y → AnyRegion (λ q. OffKernel hhdm b.base ks ke q y) rs

-- On a valid allocator with page-aligned addresses, a kernel's range and regions that do not wrap, and regions that reach
-- no further than the index space and whose pages are not free and do not overlap, the second pass does not panic and
-- keeps the allocator valid; each page that becomes free lies in a usable region and off the kernel's range.
pub give_regions-Spares :
    (hhdm ks ke : ℕ) (a : Align) (b : BuddyAllocator) (F : Lists) (rs : List MemoryRegion)
    → IsAlign a
    → IsValid b F
    → hhdm % 4096 ≡ 0
    → b.base % 4096 ≡ 0
    → ks < 2 ^ 64
    → ke + 4095 < 2 ^ 64
    → All Short rs
    → All (Placed hhdm a b.base) rs
    → ((y : ℕ)
        → cover F y + usable_pages hhdm a (a.align_down ks 4096) (a.align_up ke 4096) b.base rs y
          ≤ 1)
    → Spares b F hhdm ks ke rs
        (give_regions hhdm a (a.align_down ks 4096) (a.align_up ke 4096) rs b)
give_regions-Spares hhdm ks ke a b F rs x v aligned base_aligned ks_lt ke_lt short placed apart =
    let given =
      give_regions-Added hhdm a (a.align_down ks 4096) (a.align_up ke 4096) b F rs v placed apart in
    record {
      after = given.after;
      lists = given.lists;
      result = given.result;
      valid = given.valid;
      old = λ y. omega (arith, given.added y);
      new = λ y more.
          usable_pages-AnyRegion hhdm b.base aligned base_aligned a ks ke rs y x ks_lt ke_lt short
            placed (omega (arith, more, given.added y));
    }
