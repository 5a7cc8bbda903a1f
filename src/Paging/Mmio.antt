-- ===== src/Paging/Mmio.antt =====
-- `map_mmio` of mantle/src/walker.rs: the pages of a window, one after the other.
use my_kernel.Prelude.{
  ℕ, zero, suc, ◌-◌, ◌+◌, ◌*◌, ◌/◌, ◌%◌, ◌^◌, ◌≤◌, ◌<◌, ◌≡◌, inl, inr, refl, sym, ap, ◌∙◌, arith,
  false, Bool-cases, Option, none, if◌then◌else◌,
}
use my_kernel.Word.{add64}
use my_kernel.Paging.{Paging, IsX86, IsFlags, page_bytes}
use my_kernel.Paging.Frames.{FrameSource, Calls, Calls-weaken, Calls-trans}
use my_kernel.Paging.Walker.{
  Mem, M, ◌>>=◌, Result, ok, err, out_of_frames, map, map_pages, map_mmio, translate,
}
use my_kernel.Paging.Lookup.{prefix}
use my_kernel.Paging.Window.{windowed, windowed-zero, windowed-suc}
use my_kernel.Paging.Map.{
  IsPaged, is_huge, same_page, Mapped, Maps, mapped, no_frame, refused, map-Maps,
}

module _ (p : Paging) (x : IsX86 p) {hhdm : ℕ} (source : FrameSource hhdm) where
  -- The first `count` pages of a window are mapped, and every other address is translated as before.
  pub record Windowed (m : Mem p source) (first phys count : ℕ) (m' : Mem p source) : Type 0 where
    pub paged : IsPaged p source m'
    pub translation :
        (w : ℕ) → translate p source m' w ≡ windowed 0 first phys count w (translate p source m w)

  -- All pages of a window are mapped, or those up to the one for which an allocation failed.
  pub data MapsWindow (m : Mem p source) (first phys pages : ℕ)
      : Result (Unit {0}) × Mem p source → Type 0 where
    done :
        (m' : Mem p source)
        → Windowed m first phys pages m'
        → MapsWindow m first phys pages (ok tt, m')
    cut_short :
        (m' : Mem p source) (count : ℕ)
        → count < pages
        → Windowed m first phys count m'
        → (s : source.State) → Calls source (3 * pages) m.frames s
        → source.alloc s ≡ (none, m'.frames)
        → MapsWindow m first phys pages (err out_of_frames, m')

  -- One page and then a window after it.
  module _ (m : Mem p source) (v frame first phys : ℕ) (is_first : prefix 0 v ≡ first)
      (is_phys : frame ≡ phys) where
    after_page :
        (m₁ m' : Mem p source) (count : ℕ) (old : Option ℕ)
        → Mapped p source m v frame old m₁
        → Windowed m₁ (first + 1) (phys + page_bytes) count m'
        → Windowed m first phys (suc count) m'
    after_page m₁ m' count old one rest = record {
      paged = rest.paged;
      translation = λ w.
          rest.translation w
          ∙ rw (one.translation w, is_first, is_phys)
              (windowed-suc 0 first phys count w (translate p source m w));
    }

    longer :
        (m₁ : Mem p source) (pages : ℕ) (old : Option ℕ)
        → Mapped p source m v frame old m₁
        → (r : Result (Unit {0}) × Mem p source)
        → MapsWindow m₁ (first + 1) (phys + page_bytes) pages r
        → MapsWindow m first phys (suc pages) r
    longer m₁ pages old one _ (done m' rest) = done m' (after_page m₁ m' pages old one rest)
    longer m₁ pages old one _ (cut_short m' count less rest s few given) =
        cut_short m' (suc count) (omega arith) (after_page m₁ m' count old one rest) s
          (Calls-trans source 3 (3 * pages) (3 * suc pages) m.frames m₁.frames s (omega arith)
            one.called few)
          given

    then_window :
        (pages : ℕ) (rest : M p source (Unit {0})) (r : Result (Option ℕ) × Mem p source)
        → v % page_bytes ≡ 0
        → frame % page_bytes ≡ 0
        → Maps p source m v frame r
        → ((old : Option ℕ) (m₁ : Mem p source)
            → Mapped p source m v frame old m₁
            → MapsWindow m₁ (first + 1) (phys + page_bytes) pages (rest m₁))
        → MapsWindow m first phys (suc pages) (◌>>=◌ p source (λ _. r) (λ old. rest) m)
    then_window pages rest _ v_ok frame_ok (mapped v_al f_al old m₁ one) go =
        longer m₁ pages old one (rest m₁) (go old m₁ one)
    then_window pages rest _ v_ok frame_ok (no_frame v_al f_al m' kept s few given) go =
        let none_mapped : Windowed m first phys 0 m' = record {
          paged = kept.paged;
          translation =
              λ w. kept.translation w ∙ sym (windowed-zero 0 first phys w (translate p source m w));
        } in
        cut_short m' 0 (omega arith) none_mapped s
          (Calls-weaken source 3 (3 * suc pages) m.frames s (omega arith) few) given
    then_window pages rest _ v_ok frame_ok (refused (inl bad)) go = absurd (bad v_ok)
    then_window pages rest _ v_ok frame_ok (refused (inr bad)) go = absurd (bad frame_ok)

  module _ (virt phys prot : ℕ) (virt_aligned : virt % page_bytes ≡ 0)
      (phys_aligned : phys % page_bytes ≡ 0) (flags : IsFlags prot) where
    -- Page number `i` of the window.
    abbrev page : (i : ℕ) → ℕ
    page i = add64 virt (i * page_bytes)

    abbrev frame : (i : ℕ) → ℕ
    frame i = add64 phys (i * page_bytes)

    page-prefix :
        (i : ℕ)
        → prefix 0 virt + i < 2 ^ 36
        → virt + i * page_bytes < 2 ^ 64
        → prefix 0 (page i) ≡ prefix 0 virt + i
    unfolding prefix
    page-prefix i low fits = omega arith

    map_pages-MapsWindow :
        (n i : ℕ) (m : Mem p source)
        → IsPaged p source m
        → prefix 0 virt + (i + n) ≤ 2 ^ 36
        → virt + (i + n) * page_bytes ≤ 2 ^ 64
        → phys + (i + n) * page_bytes ≤ 2 ^ 52
        → ((k : ℕ) → k < n → is_huge p source m (page (i + k)) ≡ false)
        → MapsWindow m
            (prefix 0 virt + i)
            (phys + i * page_bytes)
            n
            (map_pages p source n i virt phys prot m)
    unfolding map_pages
    map_pages-MapsWindow zero i m paged low fits phys_fits clear =
        done m (record { paged = paged; translation = λ w. sym (windowed-zero 0 _ _ w _) })
    map_pages-MapsWindow (suc n) i m paged low fits phys_fits clear =
        let v_fits : page i % page_bytes ≡ 0 = omega arith in
        let frame_is : frame i ≡ phys + i * page_bytes = omega arith in
        let pages_is : page (i + 0) ≡ page i = ap page (omega arith) in
        then_window m (page i) (frame i) (prefix 0 virt + i) (phys + i * page_bytes)
          (page-prefix i (omega arith) (omega arith)) frame_is n
          (map_pages p source n (i + 1) virt phys prot) (map p source (page i) (frame i) prot m)
          v_fits (omega arith)
          (map-Maps p x source m paged (page i) (frame i) prot
            (ap (is_huge p source m) (sym pages_is) ∙ clear 0 (omega arith)) (omega arith) flags)
          (λ old m₁ one.
            let e : phys + i * page_bytes + page_bytes ≡ phys + (i + 1) * page_bytes =
              omega arith in
            let clear' : (k : ℕ) → k < n → is_huge p source m₁ (page (i + 1 + k)) ≡ false =
              λ k less.
                let again : i + 1 + k ≡ i + (k + 1) = omega arith in
                one.huge (page (i + 1 + k))
                ∙ still_clear k
                    (ap (λ j. is_huge p source m (page j)) again ∙ clear (k + 1) (omega arith)) in
            let e' : prefix 0 virt + i + 1 ≡ prefix 0 virt + (i + 1) = omega arith in
            rw (e, e')
              (map_pages-MapsWindow n (i + 1) m₁ one.paged (omega arith) (omega arith) (omega arith)
                clear'))
      where
        still_clear :
            (k : ℕ)
            → is_huge p source m (page (i + 1 + k)) ≡ false
            → (if same_page (page (i + 1 + k)) (page i)
                then false
                else is_huge p source m (page (i + 1 + k)))
              ≡ false
        still_clear k h = elim (Bool-cases (same_page (page (i + 1 + k)) (page i))) [
          | inl here ↦ rw here refl
          | inr other ↦ rw other h
        ]

  -- `map_mmio` from page-aligned addresses, with flags that are an entry's, on a window that lies within the 48 bits of
  -- an address and the words, has frames below 2^52, and is in no huge page: either every page of the window is mapped,
  -- in order, to the frames from the physical start, or one of the first 3 * n + 1 calls of alloc failed, n being the
  -- number of pages, and exactly the pages before the failing one are; every other address is translated as before.
  pub map_mmio-MapsWindow :
      (m : Mem p source)
      → IsPaged p source m
      → (virt phys size prot : ℕ) → virt % page_bytes ≡ 0
      → phys % page_bytes ≡ 0
      → IsFlags prot
      → prefix 0 virt * page_bytes + size ≤ 2 ^ 48
      → virt + size ≤ 2 ^ 64
      → size + page_bytes < 2 ^ 64
      → phys + size ≤ 2 ^ 52
      → ((k : ℕ) → k * page_bytes < size → is_huge p source m (add64 virt (k * page_bytes)) ≡ false)
      → MapsWindow m
          (prefix 0 virt)
          phys
          ((size + (page_bytes - 1)) / page_bytes)
          (map_mmio p source virt phys size prot m)
  unfolding map_mmio
  map_mmio-MapsWindow m paged virt phys size prot v_ok p_ok flags low fits small phys_fits clear =
      let pages : add64 size (page_bytes - 1) / page_bytes
          ≡ (size + (page_bytes - 1)) / page_bytes =
        omega arith in
      let n = (size + (page_bytes - 1)) / page_bytes in
      let no_first : prefix 0 virt + 0 ≡ prefix 0 virt = omega arith in
      let no_phys : phys + 0 * page_bytes ≡ phys = omega arith in
      let whole =
        map_pages-MapsWindow virt phys prot v_ok p_ok flags n 0 m paged (omega arith) (omega arith)
          (omega arith)
          (λ k less.
            let at_zero : 0 + k ≡ k = omega arith in
            ap (λ j. is_huge p source m (add64 virt (j * page_bytes))) at_zero
            ∙ clear k (omega arith)) in
      rw pages (rw (no_first, no_phys) at whole)
