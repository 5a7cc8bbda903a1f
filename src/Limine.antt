-- ===== src/Limine.antt =====
-- src/limine_data.rs: the memory map as the boot protocol gives it, and the regions that are given to the buddy
-- allocator when the boot loader's memory is no longer needed. The crate `bitwise` rounds addresses.
pub mod Release
pub mod Inside
pub mod Harvest
mod Tests
use my_kernel.Prelude.{
  ℕ, ◌+◌, ◌-◌, ◌*◌, ◌/◌, ◌<◌, ◌^◌, ◌≡◌, Bool, true, false, not, ◌&&◌, ◌||◌, List, [], ◌∷◌, ltb, leb,
  ◌==◌, if◌then◌else◌, update, bit_and,
}
use my_kernel.Prelude.Panic.{Outcome, ok, panic, assert, ◌>>=◌}
use my_kernel.Word.{add64, sub64}
use my_kernel.Buddy.{BuddyAllocator, add_region}

-- `bitwise::align`
pub record Align : Type 0 where
  pub align_up : (x alignment : ℕ) → ℕ
  pub align_down : (x alignment : ℕ) → ℕ

-- Rounding to pages, where it does not leave the words.
pub record IsAlign (a : Align) : Type 0 where
  pub up : (x : ℕ) → x + 4095 < 2 ^ 64 → a.align_up x 4096 ≡ (x + 4095) / 4096 * 4096
  pub down : (x : ℕ) → x < 2 ^ 64 → a.align_down x 4096 ≡ x / 4096 * 4096

pub data MemoryRegionType : Type 0 where
  usable bootloader_reclaimable acpi_reclaimable acpi_nvs executable_and_modules framebuffer
        bad_memory reserved :
      MemoryRegionType

pub record MemoryRegion : Type 0 where
  pub base : ℕ
  pub length : ℕ
  pub region_type : MemoryRegionType

unfoldable pub is_immediately_usable : MemoryRegionType → Bool
is_immediately_usable usable = true
is_immediately_usable t = false

unfoldable pub is_reclaimable : MemoryRegionType → Bool
is_reclaimable bootloader_reclaimable = true
is_reclaimable acpi_reclaimable = true
is_reclaimable t = false

-- `MemoryRegion::end`
unfoldable pub region_end : MemoryRegion → ℕ
region_end r = add64 r.base r.length

module _ (a : Align) where
  unfoldable pub aligned_base : MemoryRegion → ℕ
  aligned_base r = a.align_up r.base 4096

  unfoldable pub aligned_end : MemoryRegion → ℕ
  unfolding region_end
  aligned_end r = a.align_down (region_end r) 4096

  unfoldable pub has_pages : MemoryRegion → Bool
  unfolding aligned_base aligned_end
  has_pages r = ltb (aligned_base r) (aligned_end r)

  unfoldable pub page_count : MemoryRegion → ℕ
  unfolding aligned_base aligned_end
  page_count r = (aligned_end r - aligned_base r) / 4096

  -- Whether `release` passes over a region: it is not reclaimable, has no page, lies below 1 MiB, or holds the stack.
  unfoldable pub skips : (sp_phys_page : ℕ) → MemoryRegion → Bool
  unfolding aligned_base aligned_end page_count is_reclaimable
  skips sp_phys_page r =
      not (is_reclaimable r.region_type)
      || leb (aligned_end r) (aligned_base r)
      || ltb (aligned_base r) 0x100000
      || (leb (aligned_base r) sp_phys_page && ltb sp_phys_page (aligned_end r))
      || page_count r == 0

  -- The loop of `release`.
  unfoldable pub release_regions :
      (hhdm_offset sp_phys_page : ℕ) → List MemoryRegion → BuddyAllocator → Outcome BuddyAllocator
  unfolding skips aligned_base page_count
  release_regions hhdm_offset sp_phys_page [] buddy = ok buddy
  release_regions hhdm_offset sp_phys_page (r ∷ rs) buddy =
      let rest = release_regions hhdm_offset sp_phys_page rs in
      if skips sp_phys_page r
      then rest buddy
      else (add_region buddy (add64 hhdm_offset (aligned_base r)) (page_count r) >>= rest)

  unfoldable pub release :
      (hhdm_offset current_sp : ℕ) → List MemoryRegion → BuddyAllocator → Outcome BuddyAllocator
  unfolding release_regions
  release hhdm_offset current_sp =
      release_regions hhdm_offset (bit_and (sub64 current_sp hhdm_offset) (2 ^ 64 - 1 - 0xFFF))

-- One entry of the boot loader's memory map, and the constants that tell its types.
pub record MemmapEntry : Type 0 where
  pub entry_base : ℕ
  pub entry_length : ℕ
  pub type_ : ℕ

pub record MemmapTypes : Type 0 where
  pub memmap_usable : ℕ
  pub memmap_bootloader_reclaimable : ℕ
  pub memmap_acpi_reclaimable : ℕ
  pub memmap_acpi_nvs : ℕ
  pub memmap_executable_and_modules : ℕ
  pub memmap_framebuffer : ℕ
  pub memmap_bad_memory : ℕ

abbrev pub max_regions : ℕ
max_regions = 512

unfoldable pub region_type_of : MemmapTypes → ℕ → MemoryRegionType
region_type_of k t =
    if t == k.memmap_usable
    then usable
    else (if t == k.memmap_bootloader_reclaimable
        then bootloader_reclaimable
        else (if t == k.memmap_acpi_reclaimable
            then acpi_reclaimable
            else (if t == k.memmap_acpi_nvs
                then acpi_nvs
                else (if t == k.memmap_executable_and_modules
                    then executable_and_modules
                    else (if t == k.memmap_framebuffer
                        then framebuffer
                        else (if t == k.memmap_bad_memory then bad_memory else reserved))))))

unfoldable pub region_of : MemmapTypes → MemmapEntry → MemoryRegion
unfolding region_type_of
region_of k e = record {
  base = e.entry_base;
  length = e.entry_length;
  region_type = region_type_of k e.type_;
}

-- The loop of `harvest` over the memory map; the write to `regions` panics past the array's end.
unfoldable pub harvest_regions :
    MemmapTypes
    → List MemmapEntry
    → (regions : ℕ → MemoryRegion) (region_count : ℕ) → Outcome ((ℕ → MemoryRegion) × ℕ)
unfolding region_of
harvest_regions k [] regions region_count = ok (regions, region_count)
harvest_regions k (e ∷ es) regions region_count =
    let rest =
      harvest_regions k es (update regions region_count (region_of k e)) (region_count + 1) in
    let write = assert (ltb region_count max_regions) >>= λ u. rest in
    if leb max_regions region_count then ok (regions, region_count) else write
