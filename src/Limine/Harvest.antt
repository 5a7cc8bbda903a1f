-- ===== src/Limine/Harvest.antt =====
-- The memory map as `harvest` of src/limine_data.rs copies it.
use my_kernel.Prelude.{ℕ, ◌+◌, ◌≤◌, ◌<◌, ◌≡◌, min, List, length, get_elem?, some}
use my_kernel.Prelude.Panic.{Outcome, ok}
use my_kernel.Limine.{MemmapEntry, MemmapTypes, MemoryRegion, max_regions, region_of}

module _ (k : MemmapTypes) where
  -- The loop ended without a panic: the first entries of the map are kept in order behind the regions that are there, as
  -- many as fit, and the array's other places are as they were.
  pub record Harvested (es : List MemmapEntry) (regions : ℕ → MemoryRegion) (count : ℕ)
      (r : Outcome ((ℕ → MemoryRegion) × ℕ)) : Type 0 where
    pub after : ℕ → MemoryRegion
    pub total : ℕ
    pub result : r ≡ ok (after, total)
    pub counted : total ≡ min max_regions (count + length es)
    pub before : (i : ℕ) → i < count → after i ≡ regions i
    pub beyond : (i : ℕ) → total ≤ i → after i ≡ regions i
    pub copied :
        (j : ℕ) (e : MemmapEntry)
        → count + j < max_regions
        → get_elem? es j ≡ some e
        → after (count + j) ≡ region_of k e
