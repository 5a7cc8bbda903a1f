-- ===== src/Paging/Install.antt =====
-- `map_hhdm_2m`, `map_range_4k` and `install_kernel_pml4` of mantle/src/pml4.rs: the address space at start.
use my_kernel.Prelude.{
  ℕ, zero, suc, ◌+◌, ◌*◌, ◌%◌, ◌^◌, ◌≤◌, ◌≡◌, ap, ◌∙◌, arith, true, false, ◌==◌, bit_or,
}
use my_kernel.Word.{add64}
use my_kernel.Paging.{Paging, IsX86, IsFrame, IsFlags, page_bytes}
use my_kernel.Paging.Frames.{FrameSource}
use my_kernel.Paging.Walker.{Mem}
use my_kernel.Paging.Lookup.{huge_at, prefix}
use my_kernel.Paging.Tree.{Tags, IsTree}
use my_kernel.Paging.Map.{leaf-in_page}
use my_kernel.Paging.Place.{Placed, map_small_page-Places, map_huge_page-Places, hhdm_leaf-in_page}
use my_kernel.Paging.Pml4.{huge_bytes, hhdm_flags, map_huge_pages, map_range_4k}
use my_kernel.Paging.Window.{in_window, Windows, done, no_pages, then_window}

module _ (p : Paging) (x : IsX86 p) {hhdm : ℕ} (source : FrameSource hhdm) (top : ℕ) where
  -- No address of the window is in a huge page.
  abbrev pub IsClear : (l first count : ℕ) → Mem p source → Type 0
  IsClear l first count m =
      (w : ℕ) → in_window l first count w ≡ true → huge_at p source m 4 top w ≡ false

  -- Mapping the first page of a window leaves the others clear.
  IsClear-after :
      (l first count e v : ℕ) (m m₁ : Mem p source)
      → prefix l v ≡ first
      → Placed p x source top l e v m m₁
      → IsClear l first (suc count) m
      → IsClear l (first + 1) count m₁
  IsClear-after l first count e v m m₁ is_first one clear w inside =
      let apart : (prefix l w == prefix l v) ≡ false = ground (arith, inside, is_first) in
      let before : in_window l first (suc count) w ≡ true = ground (arith, inside) in
      one.walks _ _ w ∙ rw apart (clear w before)

  pub map_huge_pages-Windows :
      (n i : ℕ) (g : Tags) (m : Mem p source)
      → IsTree p source top g m
      → hhdm % huge_bytes ≡ 0
      → prefix 1 hhdm + (i + n) ≤ 2 ^ 27
      → hhdm + (i + n) * huge_bytes ≤ 2 ^ 64
      → (i + n) * huge_bytes ≤ 2 ^ 52
      → IsClear 1 (prefix 1 hhdm + i) n m
      → Windows p x source top 1
          (prefix 1 hhdm + i)
          (i * huge_bytes)
          n
          m
          (map_huge_pages p source n i top m)
  unfolding map_huge_pages prefix
  map_huge_pages-Windows zero i g m tree aligned low fits phys_fits clear =
      done m (no_pages p x source top 1 _ _ m g tree)
  map_huge_pages-Windows (suc n) i g m tree aligned low fits phys_fits clear =
      let first = prefix 1 hhdm + i in
      let phys = i * huge_bytes in
      let v = add64 hhdm phys in
      let is_first : prefix 1 v ≡ first = omega arith in
      let frame : IsFrame huge_bytes phys = record { aligned = omega arith; fits = omega arith } in
      let here : in_window 1 first (suc n) v ≡ true = ground arith in
      then_window p x source top 1 first phys (p.pte_encode phys huge_bytes (hhdm_flags p source)) v
        is_first (hhdm_leaf-in_page p x source top phys frame) m n
        (map_huge_pages p source n (i + 1) top) _
        (map_huge_page-Places p x source top g m tree v phys (clear v here) frame)
        (λ m₁ one.
          let e : phys + huge_bytes ≡ (i + 1) * huge_bytes = omega arith in
          let e' : first + 1 ≡ prefix 1 hhdm + (i + 1) = omega arith in
          let clear' = IsClear-after 1 first n _ v m m₁ is_first one clear in
          rw (e, e')
            (map_huge_pages-Windows n (i + 1) one.tags m₁ one.tree aligned (omega arith)
              (omega arith) (omega arith) (rw e' at clear')))

  module _ (virt phys prot : ℕ) (virt_aligned : virt % page_bytes ≡ 0)
      (phys_aligned : phys % page_bytes ≡ 0) (flags : IsFlags prot) where
    pub map_range_4k-Windows :
        (n i : ℕ) (g : Tags) (m : Mem p source)
        → IsTree p source top g m
        → prefix 0 virt + (i + n) ≤ 2 ^ 36
        → virt + (i + n) * page_bytes ≤ 2 ^ 64
        → phys + (i + n) * page_bytes ≤ 2 ^ 52
        → IsClear 0 (prefix 0 virt + i) n m
        → Windows p x source top 0
            (prefix 0 virt + i)
            (phys + i * page_bytes)
            n
            m
            (map_range_4k p source n i top virt phys prot m)
    unfolding map_range_4k prefix
    map_range_4k-Windows zero i g m tree low fits phys_fits clear =
        done m (no_pages p x source top 0 _ _ m g tree)
    map_range_4k-Windows (suc n) i g m tree low fits phys_fits clear =
        let first = prefix 0 virt + i in
        let f = add64 phys (i * page_bytes) in
        let f_is : f ≡ phys + i * page_bytes = omega arith in
        let v = add64 virt (i * page_bytes) in
        let is_first : prefix 0 v ≡ first = omega arith in
        let frame : IsFrame page_bytes f = record { aligned = omega arith; fits = omega arith } in
        let here : in_window 0 first (suc n) v ≡ true = ground arith in
        then_window p x source top 0 first (phys + i * page_bytes)
          (p.pte_encode f page_bytes (bit_or p.present prot)) v is_first
          (λ w. leaf-in_page p x source f prot frame flags w ∙ ap (λ k. k + w % page_bytes) f_is) m
          n (map_range_4k p source n (i + 1) top virt phys prot) _
          (map_small_page-Places p x source top g m tree v f (clear v here) prot frame flags)
          (λ m₁ one.
            let e : phys + i * page_bytes + page_bytes ≡ phys + (i + 1) * page_bytes =
              omega arith in
            let e' : first + 1 ≡ prefix 0 virt + (i + 1) = omega arith in
            let clear' = IsClear-after 0 first n _ v m m₁ is_first one clear in
            rw (e, e')
              (map_range_4k-Windows n (i + 1) one.tags m₁ one.tree (omega arith) (omega arith)
                (omega arith) (rw e' at clear')))
