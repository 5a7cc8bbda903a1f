-- ===== src/Paging/Pml4.antt =====
-- mantle/src/pml4.rs: the page tables that the kernel installs at start. A missing frame is a panic here.
use my_kernel.Prelude.{ℕ, zero, suc, ◌+◌, ◌-◌, ◌*◌, ◌/◌, Option, none, some, if◌then◌else◌, bit_or}
use my_kernel.Prelude.Panic.{Outcome, ok, panic, ◌>>=◌}
use my_kernel.Word.{add64, sub64}
use my_kernel.Paging.{Paging, page_bytes}
use my_kernel.Paging.Frames.{FrameSource}
use my_kernel.Paging.Walker.{Mem, entry, set_entry}
use my_kernel.Paging.Lookup.{with_table}
use my_kernel.Paging.Protection.{kernel_rwx_boot}

abbrev pub huge_bytes : ℕ
huge_bytes = 0x200000

module _ (p : Paging) {hhdm : ℕ} (source : FrameSource hhdm) where
  abbrev pub expected_frame : Option ℕ → source.State → Mem p source → Outcome (ℕ × Mem p source)
  expected_frame none rest m = panic
  expected_frame (some virt) rest m =
      let phys = sub64 virt hhdm in ok (phys, with_table p source m phys rest)

  unfoldable pub alloc_zero_frame : Mem p source → Outcome (ℕ × Mem p source)
  alloc_zero_frame m = let (frame, rest) = source.alloc m.frames in expected_frame frame rest m

  unfoldable pub descend_or_create :
      (table vaddr level : ℕ) → Mem p source → Outcome (ℕ × Mem p source)
  unfolding entry alloc_zero_frame set_entry
  descend_or_create table vaddr level m =
      let created = alloc_zero_frame m >>= λ r.
      let (child, m') = r in
      ok (
        child,
        set_entry p source m' table vaddr level
            (p.pte_encode child page_bytes (bit_or p.present p.writable)),
      ) in
      if p.pte_is_present (entry p source m table vaddr level)
      then ok (p.pte_phys_addr (entry p source m table vaddr level) page_bytes, m)
      else created

  -- The two tables above a huge page.
  unfoldable pub descend_two : (pml4 virt : ℕ) → Mem p source → Outcome (ℕ × Mem p source)
  unfolding descend_or_create
  descend_two pml4 virt m = descend_or_create pml4 virt 4 m >>= λ r.
      let (pdpt, m₁) = r in descend_or_create pdpt virt 3 m₁

  -- The three tables above a page of 4 KiB.
  unfoldable pub descend_three : (pml4 virt : ℕ) → Mem p source → Outcome (ℕ × Mem p source)
  unfolding descend_or_create
  descend_three pml4 virt m = descend_or_create pml4 virt 4 m >>= λ r.
      let (pdpt, m₁) = r in
      descend_or_create pdpt virt 3 m₁ >>= λ r'. let (pd, m₂) = r' in descend_or_create pd virt 2 m₂

  -- PRESENT | WRITABLE | NO_EXECUTE | HUGE_PAGE | GLOBAL
  unfoldable pub hhdm_flags : ℕ
  hhdm_flags =
      bit_or (bit_or (bit_or (bit_or p.present p.writable) p.no_execute) p.huge_page) p.global

  unfoldable pub map_huge_page : (pml4 virt phys : ℕ) → Mem p source → Outcome (Mem p source)
  unfolding descend_two set_entry hhdm_flags
  map_huge_page pml4 virt phys m = descend_two pml4 virt m >>= λ r.
      let (pd, m₁) = r in
      ok (set_entry p source m₁ pd virt 2 (p.pte_encode phys huge_bytes hhdm_flags))

  -- The loop of `map_hhdm_2m`.
  unfoldable pub map_huge_pages : (pages i pml4 : ℕ) → Mem p source → Outcome (Mem p source)
  unfolding map_huge_page
  map_huge_pages zero i pml4 m = ok m
  map_huge_pages (suc pages) i pml4 m =
      let rest = map_huge_pages pages (i + 1) pml4 in
      map_huge_page pml4 (add64 hhdm (i * huge_bytes)) (i * huge_bytes) m >>= rest

  unfoldable pub map_hhdm_2m : (pml4 phys_mem_size : ℕ) → Mem p source → Outcome (Mem p source)
  unfolding map_huge_pages
  map_hhdm_2m pml4 phys_mem_size =
      map_huge_pages (add64 phys_mem_size (huge_bytes - 1) / huge_bytes) 0 pml4

  unfoldable pub map_small_page : (pml4 virt phys prot : ℕ) → Mem p source → Outcome (Mem p source)
  unfolding descend_three set_entry
  map_small_page pml4 virt phys prot m = descend_three pml4 virt m >>= λ r.
      let (pt, m₁) = r in
      ok (set_entry p source m₁ pt virt 1 (p.pte_encode phys page_bytes (bit_or p.present prot)))

  -- `map_range_4k`, from page number `i`.
  unfoldable pub map_range_4k :
      (pages i pml4 virt_start phys_start prot : ℕ) → Mem p source → Outcome (Mem p source)
  unfolding map_small_page
  map_range_4k zero i pml4 virt_start phys_start prot m = ok m
  map_range_4k (suc pages) i pml4 virt_start phys_start prot m =
      let rest = map_range_4k pages (i + 1) pml4 virt_start phys_start prot in
      map_small_page pml4 (add64 virt_start (i * page_bytes)) (add64 phys_start (i * page_bytes))
        prot m
      >>= rest

  unfoldable pub install_kernel_pml4 :
      (kernel_virt_start kernel_virt_end kernel_phys_start phys_mem_size : ℕ)
      → Mem p source
      → Outcome (Mem p source)
  unfolding alloc_zero_frame map_hhdm_2m map_range_4k kernel_rwx_boot
  install_kernel_pml4 kernel_virt_start kernel_virt_end kernel_phys_start phys_mem_size m =
      let kernel_pages =
        add64 (sub64 kernel_virt_end kernel_virt_start) (page_bytes - 1) / page_bytes in
      alloc_zero_frame m >>= λ r.
      let (pml4, m₁) = r in
      map_hhdm_2m pml4 phys_mem_size m₁ >>= λ m₂.
      map_range_4k kernel_pages 0 pml4 kernel_virt_start kernel_phys_start (kernel_rwx_boot p) m₂
      >>= λ m₃. ok (record m₃ { cr3 = pml4 })
