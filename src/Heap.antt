-- ===== src/Heap.antt =====
-- src/memory/heap.rs: `init` gives the usable memory but for the kernel's own to the buddy allocator, and a block of
-- 4 MiB of it to the allocator of small blocks.
pub mod Regions
pub mod Init
pub mod OffKernel
mod Tests
use my_kernel.Prelude.{
  ℕ, ◌+◌, ◌-◌, ◌*◌, ◌/◌, ◌^◌, min, max, Bool, true, false, Option, none, some, List, [], ◌∷◌, ltb,
  leb, if◌then◌else◌,
}
use my_kernel.Prelude.Panic.{Outcome, ok, panic, ◌>>=◌}
use my_kernel.Word.{add64}
use my_kernel.Buddy.{BuddyAllocator, set_base, add_region, alloc_pages}
use my_kernel.Limine.{
  Align, MemoryRegion, MemoryRegionType, usable, is_immediately_usable, aligned_base, aligned_end,
}
use my_kernel.Tlsf.{Tlsf}
use my_kernel.Tlsf.Global.{add_pool}

-- `expect`
abbrev pub expect : {A : Type 0} → Option A → Outcome A
expect none = panic
expect (some a) = ok a

-- `region_type == MemoryRegionType::Usable`
unfoldable pub is_usable : MemoryRegionType → Bool
is_usable usable = true
is_usable t = false

-- The first pass.
unfoldable pub min_virt : Align → (hhdm_offset : ℕ) → List MemoryRegion → Option ℕ
min_virt a hhdm_offset [] = none
min_virt a hhdm_offset (r ∷ rs) =
    let rest = min_virt a hhdm_offset rs in
    let virt = add64 hhdm_offset (aligned_base a r) in
    if is_immediately_usable r.region_type
    then some (elim rest [ none ↦ virt | some least ↦ min virt least ])
    else rest

module _ (hhdm_offset : ℕ) where
  -- The pages between two physical addresses.
  unfoldable pub give : (from to : ℕ) → BuddyAllocator → Outcome BuddyAllocator
  give from to buddy =
      let page_count = (to - from) / 4096 in
      if ltb 0 page_count then add_region buddy (add64 hhdm_offset from) page_count else ok buddy

  -- The two cases of the second pass: what a region has below the kernel, and what it has above.
  unfoldable pub give_below :
      (kernel_phys_start base end : ℕ) → BuddyAllocator → Outcome BuddyAllocator
  give_below kernel_phys_start base end buddy =
      if ltb base kernel_phys_start then give base (min end kernel_phys_start) buddy else ok buddy

  unfoldable pub give_above :
      (kernel_phys_end base end : ℕ) → BuddyAllocator → Outcome BuddyAllocator
  give_above kernel_phys_end base end buddy =
      if ltb kernel_phys_end end then give (max base kernel_phys_end) end buddy else ok buddy

  unfoldable pub give_regions :
      Align
      → (kernel_phys_start kernel_phys_end : ℕ) → List MemoryRegion
      → BuddyAllocator
      → Outcome BuddyAllocator
  give_regions a kernel_phys_start kernel_phys_end [] buddy = ok buddy
  give_regions a kernel_phys_start kernel_phys_end (r ∷ rs) buddy =
      let rest = give_regions a kernel_phys_start kernel_phys_end rs in
      let base = aligned_base a r in
      let end = aligned_end a r in
      if is_usable r.region_type
      then (if leb end base
          then rest buddy
          else give_below kernel_phys_start base end buddy
            >>= give_above kernel_phys_end base end
            >>= rest)
      else rest buddy

-- The statics BUDDY and HEAP afterwards.
unfoldable pub init :
    Align
    → (kernel_phys_start kernel_phys_end hhdm_offset : ℕ) → List MemoryRegion
    → BuddyAllocator
    → Tlsf
    → Outcome (BuddyAllocator × Tlsf)
init a kernel_phys_start kernel_phys_end hhdm_offset regions buddy heap =
    let first = a.align_down kernel_phys_start 4096 in
    let last = a.align_up kernel_phys_end 4096 in
    expect (min_virt a hhdm_offset regions) >>= λ base. set_base buddy base >>= λ b₁.
    give_regions hhdm_offset a first last regions b₁ >>= λ b₂. alloc_pages b₂ 10 >>= λ (found, b₃).
    expect found >>= λ mem. add_pool heap mem (4096 * 2 ^ 10) >>= λ t. ok (b₃, t)
