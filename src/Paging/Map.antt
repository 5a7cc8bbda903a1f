-- ===== src/Paging/Map.antt =====
-- `map` of mantle/src/walker.rs: what it returns and what every address is translated to afterwards.
use my_kernel.Prelude.{
  bit_and, ◌-◌, ℕ, ◌+◌, ◌*◌, ◌/◌, ◌%◌, ◌^◌, ◌<◌, ◌≡◌, ◌≢◌, ◌⊎◌, inl, inr, refl, sym, ap, ◌∙◌, arith,
  Bool, true, false, true-ne-false, ◌==◌, ==→eq, eq→==, Bool-cases, Option, none, some, ◌∷◌,
  if◌then◌else◌, bit_or,
}
use my_kernel.Bits.{bit_or-one}
use my_kernel.Bits.Masks.{bit_and-ones}
use my_kernel.Paging.{Paging, IsX86, IsFrame, IsFlags, page_bytes, small}
use my_kernel.Paging.Frames.{FrameSource, Calls}
use my_kernel.Paging.Walker.{
  Mem, invlpg, set_entry, ◌>>=◌, entry, pml4_phys, in_page, Result, ok, err, out_of_frames,
  misaligned, old_frame, write_leaf, map, descend, translate,
}
use my_kernel.Paging.Lookup.{walk, lookup, huge_at, prefix, translate-lookup}
use my_kernel.Paging.Tree.{Tags, IsTree, Grown}
use my_kernel.Paging.Walk.{Keeps-refl, AtLevel, Walked, arrived, starved, descend-Walked}
use my_kernel.Paging.Leaf.{with_leaf, leaf-IsTree, leaf-result, invlpg-IsTree, invlpg-walk}

abbrev pub same_page : (w v : ℕ) → Bool
same_page w v = prefix 0 w == prefix 0 v

module _ (p : Paging) {hhdm : ℕ} (source : FrameSource hhdm) where
  -- The tables form a tree.
  pub record IsPaged (m : Mem p source) : Type 0 where
    pub tags : Tags
    pub tree : IsTree p source (pml4_phys p source m) tags m

  -- The walk for the address ends in a huge page.
  abbrev pub is_huge : Mem p source → (vaddr : ℕ) → Bool
  is_huge m v = huge_at p source m 4 (pml4_phys p source m) v

  -- One page has been mapped and nothing else has changed.
  pub record Mapped (m : Mem p source) (v phys : ℕ) (old : Option ℕ) (m' : Mem p source)
      : Type 0 where
    pub paged : IsPaged m'
    pub called : Calls source 3 m.frames m'.frames
    pub previous : old ≡ translate p source m v
    pub translation :
        (w : ℕ)
        → translate p source m' w
          ≡ (if same_page w v then some (phys + w % page_bytes) else translate p source m w)
    pub huge : (w : ℕ) → is_huge m' w ≡ (if same_page w v then false else is_huge m w)
    pub flushed : m'.invalidated ≡ v ∷ m.invalidated

  -- Tables may have been created, but every address is translated as before.
  pub record Kept (m m' : Mem p source) : Type 0 where
    pub paged : IsPaged m'
    pub translation : (w : ℕ) → translate p source m' w ≡ translate p source m w
    pub huge : (w : ℕ) → is_huge m' w ≡ is_huge m w
    pub flushed : m'.invalidated ≡ m.invalidated

  -- The three outcomes of `map`.
  pub data Maps (m : Mem p source) (v phys : ℕ) : Result (Option ℕ) × Mem p source → Type 0 where
    mapped :
        v % page_bytes ≡ 0
        → phys % page_bytes ≡ 0
        → (old : Option ℕ) (m' : Mem p source) → Mapped m v phys old m'
        → Maps m v phys (ok old, m')
    no_frame :
        v % page_bytes ≡ 0
        → phys % page_bytes ≡ 0
        → (m' : Mem p source) → Kept m m'
        → (s : source.State) → Calls source 3 m.frames s
        → source.alloc s ≡ (none, m'.frames)
        → Maps m v phys (err out_of_frames, m')
    refused : (v % page_bytes ≢ 0) ⊎ (phys % page_bytes ≢ 0) → Maps m v phys (err misaligned, m)

module _ (p : Paging) (x : IsX86 p) {hhdm : ℕ} (source : FrameSource hhdm) where
  -- The root stays when CR3 does.
  pub pml4_phys-same :
      (m m' : Mem p source) → m'.cr3 ≡ m.cr3 → pml4_phys p source m' ≡ pml4_phys p source m
  unfolding pml4_phys
  pml4_phys-same m m' e = ap (λ r. bit_and r (2 ^ 64 - 1 - 0xFFF)) e

  pub IsPaged-below :
      (m m' : Mem p source)
      → m'.cr3 ≡ m.cr3
      → (g : Tags) → IsTree p source (pml4_phys p source m) g m'
      → IsPaged p source m'
  IsPaged-below m m' e g tree = record { tags = g; tree = rw (pml4_phys-same m m' e) tree }

  pub translate-below :
      (m m' : Mem p source) (w : ℕ)
      → m'.cr3 ≡ m.cr3
      → translate p source m' w ≡ lookup p source m' 4 (pml4_phys p source m) w
  translate-below m m' w e =
      translate-lookup p source m' w ∙ ap (λ t. lookup p source m' 4 t w) (pml4_phys-same m m' e)

  pub is_huge-below :
      (m m' : Mem p source) (w : ℕ)
      → m'.cr3 ≡ m.cr3
      → is_huge p source m' w ≡ huge_at p source m' 4 (pml4_phys p source m) w
  is_huge-below m m' w e = ap (λ t. huge_at p source m' 4 t w) (pml4_phys-same m m' e)

  pub Grown-Kept :
      (g g' : Tags) (m m' : Mem p source)
      → Grown p source (pml4_phys p source m) g g' m m'
      → Kept p source m m'
  Grown-Kept g g' m m' grown = record {
    paged = IsPaged-below m m' grown.cr3 g' grown.tree;
    translation = λ w.
        translate-below m m' w grown.cr3 ∙ grown.same _ _ w ∙ sym (translate-lookup p source m w);
    huge = λ w. is_huge-below m m' w grown.cr3 ∙ grown.same _ _ w;
    flushed = grown.invalidated;
  }

  module _ (phys prot : ℕ) (frame : IsFrame page_bytes phys) (flags : IsFlags prot) where
    abbrev pub leaf : ℕ
    leaf = p.pte_encode phys page_bytes (bit_or p.present prot)

    leaf_lem : leaf ≡ p.pte_encode phys page_bytes (prot / 2 * 2 + 1)
    leaf_lem =
        ap (λ f. p.pte_encode phys page_bytes (bit_or f prot)) x.present_is
        ∙ ap (p.pte_encode phys page_bytes) (bit_or-one prot)

    pub leaf-present : p.pte_is_present leaf ≡ true
    leaf-present =
        ap p.pte_is_present leaf_lem
        ∙ x.present_encode phys page_bytes (prot / 2 * 2 + 1) (small _ refl) frame
            (omega (arith, flags))
        ∙ eq→== _ _ (omega arith)

    leaf-address : p.pte_phys_addr leaf page_bytes ≡ phys
    leaf-address =
        ap (λ e. p.pte_phys_addr e page_bytes) leaf_lem
        ∙ x.phys_addr_encode phys page_bytes (prot / 2 * 2 + 1) (small _ refl) frame
            (omega (arith, flags))

    pub leaf-in_page : (w : ℕ) → in_page p source leaf page_bytes w ≡ phys + w % page_bytes
    leaf-in_page w = omega (arith, leaf-address, bit_and-ones 12 w, frame.fits)

    -- The frame that the leaf held before is what the address was translated to.
    old_frame-translate :
        (m : Mem p source) (t v : ℕ)
        → v % page_bytes ≡ 0
        → old_frame p source (entry p source m t v 1) ≡ lookup p source m 1 t v
    unfolding old_frame walk
    old_frame-translate m t v aligned =
        let e = entry p source m t v 1 in
        let first : in_page p source e page_bytes v ≡ p.pte_phys_addr e page_bytes =
          omega (arith, bit_and-ones 12 v, x.phys_addr_word e page_bytes) in
        elim (Bool-cases (p.pte_is_present e)) [
          | inl present ↦ rw present (ap some (sym first))
          | inr absent ↦ rw absent refl
        ]

    module _ (g : Tags) (m : Mem p source) (v : ℕ) (aligned : v % page_bytes ≡ 0) where
      abbrev top : ℕ
      top = pml4_phys p source m

      wrote :
          (t : ℕ) (m' : Mem p source)
          → AtLevel p x source top g m v 1 t m'
          → Maps p source m v phys (write_leaf p source t v phys prot m')
      unfolding write_leaf set_entry
      wrote t m' a =
          let m'' = invlpg p source (with_leaf p x source top 0 (omega arith) leaf refl m' t v) v in
          mapped aligned frame.aligned _ m'' (record {
            paged = IsPaged-below m m'' a.grown.cr3 a.after (
                invlpg-IsTree p x source top a.after _ v (
                  leaf-IsTree p x source top 0 (omega arith) leaf refl a.after m' a.grown.tree t v
                    a.at));
            called = a.called;
            previous =
                old_frame-translate m' t v aligned
                ∙ sym (a.path _ _ m' (Keeps-refl p x source 1 a.after m') v refl)
                ∙ a.grown.same _ _ v
                ∙ sym (translate-lookup p source m v);
            translation = λ w.
                translate-below m m'' w a.grown.cr3
                ∙ invlpg-walk p x source _ _ _ v 4 top w
                ∙ leaf-result p x source top 0 (omega arith) leaf refl _ _ g m v t m' a w
                ∙ rw (leaf-present, leaf-in_page w, translate-lookup p source m w) refl;
            huge = λ w.
                is_huge-below m m'' w a.grown.cr3
                ∙ invlpg-walk p x source _ _ _ v 4 top w
                ∙ leaf-result p x source top 0 (omega arith) leaf refl _ _ g m v t m' a w
                ∙ rw leaf-present refl;
            flushed = ap (λ l. v ∷ l) a.grown.invalidated;
          })

      Walked-Maps :
          (r : Result ℕ × Mem p source)
          → Walked p x source (pml4_phys p source m) g m v 1 r
          → Maps p source m v phys
              (◌>>=◌ p source (λ _. r) (λ t. write_leaf p source t v phys prot) m)
      Walked-Maps _ (arrived t m' a) = wrote t m' a
      Walked-Maps _ (starved m' g' grown s few given) =
          no_frame aligned frame.aligned m' (Grown-Kept g g' m m' grown) s few given

  -- On tables that form a tree, for an address in no huge page, a physical address below 2^52 and flags that are an
  -- entry's, `map` refuses exactly the misaligned addresses, with nothing changed. It fails for want of a frame only when
  -- one of the first four calls of alloc from the given state fails, and then every address is translated as before.
  -- Otherwise it returns what the address was translated to, translates the addresses of its page to those of the frame
  -- and all others as before, keeps the tables a tree, and drops the page from the TLB.
  pub map-Maps :
      (m : Mem p source)
      → IsPaged p source m
      → (v phys prot : ℕ) → is_huge p source m v ≡ false
      → phys < 2 ^ 52
      → IsFlags prot
      → Maps p source m v phys (map p source v phys prot m)
  unfolding map
  map-Maps m paged v phys prot clear fits flags =
      let va = bit_and-ones 12 v in
      let pa = bit_and-ones 12 phys in
      let nonzero : (n : ℕ) → (n == 0) ≡ false → n ≢ 0 =
        λ n off e. true-ne-false (sym (eq→== n 0 e) ∙ off) in
      elim (Bool-cases (v % page_bytes == 0)) [
        | inr bad ↦ rw (va, bad) (refused (inl (nonzero (v % page_bytes) bad)))
        | inl v_good ↦ elim (Bool-cases (phys % page_bytes == 0)) [
          | inr bad ↦ rw (va, pa, v_good, bad) (refused (inr (nonzero (phys % page_bytes) bad)))
          | inl phys_good ↦
              let frame : IsFrame page_bytes phys = record {
                aligned = ==→eq _ _ phys_good;
                fits = fits;
              } in
              rw (va, pa, v_good, phys_good)
                (Walked-Maps phys prot frame flags paged.tags m v (==→eq _ _ v_good)
                  (descend p source v m)
                  (descend-Walked p x source paged.tags m v paged.tree clear))
        ]
      ]
