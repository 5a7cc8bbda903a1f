-- ===== src/Limine/Inside.antt =====
-- Where the pages lie that `release` of src/limine_data.rs gives of a region.
use my_kernel.Prelude.{
  ℕ, ◌^◌, ◌⊎◌, ◌+◌, ◌*◌, ◌%◌, ◌≤◌, ◌<◌, ◌≡◌, inl, inr, arith, true, false, true-ne-false, ltb,
  Bool-cases,
}
use my_kernel.Word.{add64}
use my_kernel.Limine.{
  IsAlign, is_reclaimable, region_end, aligned_end, Align, MemoryRegion, aligned_base, page_count,
  skips,
}

module _ (a : Align) (sp : ℕ) where
  -- What is given of a region: whole pages inside it, none of them below 1 MiB or the stack's.
  pub record IsInside (r : MemoryRegion) : Type 0 where
    pub whole : aligned_base a r % 4096 ≡ 0
    pub from : r.base ≤ aligned_base a r
    pub to : aligned_base a r + page_count a r * 4096 ≤ r.base + r.length
    pub some_page : 0 < page_count a r
    pub above_low : 0x100000 ≤ aligned_base a r
    pub off_stack : (sp < aligned_base a r) ⊎ (aligned_base a r + page_count a r * 4096 ≤ sp)
    pub reclaimable : is_reclaimable r.region_type ≡ true

  -- A region that does not wrap and that `release` does not pass over is reclaimable, and what is given of it is at least
  -- one page and starts at a page's address, and it lies inside the region, above 1 MiB, and off the stack's page.
  pub skips-IsInside :
      IsAlign a
      → (r : MemoryRegion) → r.base + r.length < 2 ^ 64
      → r.base + 4095 < 2 ^ 64
      → skips a sp r ≡ false
      → IsInside r
  unfolding skips aligned_base aligned_end page_count region_end
  skips-IsInside x r fits up_fits taken =
      let down = x.down (add64 r.base r.length) (omega arith) in
      let up = x.up r.base up_fits in
      let reclaimable : is_reclaimable r.region_type ≡ true =
        elim (Bool-cases (is_reclaimable r.region_type)) [
          | inl good ↦ good
          | inr bad ↦ absurd (true-ne-false (rw bad at taken))
        ] in
      record {
        whole = omega (arith, up);
        from = omega (arith, up);
        to = ground (arith, up, down, taken);
        some_page = ground (arith, up, down, taken);
        above_low = ground (arith, up, down, taken);
        off_stack = elim (Bool-cases (ltb sp (aligned_base a r))) [
          | inl below ↦ inl (ground (arith, below))
          | inr not_below ↦ inr (ground (arith, up, down, taken, not_below))
        ];
        reclaimable = reclaimable;
      }
