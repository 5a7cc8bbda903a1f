-- ===== src/Paging/Create.antt =====
-- `descend_or_create` of mantle/src/walker.rs: the walk's next table, created where it is missing.
use my_kernel.Prelude.{
  ℕ, zero, suc, ◌≤◌, ◌<◌, ◌≡◌, ◌⊎◌, inl, inr, refl, sym, ap, ◌∙◌, arith, true, false, true-ne-false,
  Bool-cases, some, if◌then◌else◌, ◌==◌, ◌&&◌, ==→eq, eq→==, ne→==, update,
}
use my_kernel.Word.{sub64, sub64-ne}
use my_kernel.Paging.{Paging, IsX86, IsFrame, page_bytes, small}
use my_kernel.Paging.Frames.{FrameSource, Calls-once}
use my_kernel.Paging.Walker.{Mem, entry, set_entry, pml4_phys, table_flags}
use my_kernel.Paging.Lookup.{
  walk, Points, prefix, stops, stops-pos, with_table, entry-with_table, entry-set_entry,
  walk-Points, walk-absent,
}
use my_kernel.Paging.Tree.{Tags, IsAt, IsTree, Reached, walk_frame, set_entry-cases}

module _ (p : Paging) (x : IsX86 p) {hhdm : ℕ} (source : FrameSource hhdm) where
  -- The entry that points to a new table.
  abbrev pub pointer : ℕ → ℕ
  pointer c = p.pte_encode c page_bytes (table_flags p source)

  table_flags_lem : table_flags p source ≡ 3
  unfolding table_flags
  table_flags_lem = rw (x.present_is, x.writable_is) refl

  pointer_lem : (c : ℕ) → pointer c ≡ p.pte_encode c page_bytes 3
  pointer_lem c = ap (p.pte_encode c page_bytes) table_flags_lem

  pointer-present : (c : ℕ) → IsFrame page_bytes c → p.pte_is_present (pointer c) ≡ true
  pointer-present c f =
      ap p.pte_is_present (pointer_lem c) ∙ x.present_encode c page_bytes 3 (small _ refl) f refl

  pointer-address : (c : ℕ) → IsFrame page_bytes c → p.pte_phys_addr (pointer c) page_bytes ≡ c
  pointer-address c f =
      ap (λ e. p.pte_phys_addr e page_bytes) (pointer_lem c)
      ∙ x.phys_addr_encode c page_bytes 3 (small _ refl) f refl

  pointer-goes :
      (l c : ℕ) → 1 ≤ l → l < 4 → IsFrame page_bytes c → stops p (suc l) (pointer c) ≡ false
  pointer-goes l c lo hi f =
      let huge : p.pte_is_huge (pointer c) ≡ false =
        ap p.pte_is_huge (pointer_lem c) ∙ x.huge_encode c page_bytes 3 (small _ refl) f refl in
      ground (arith, huge)

  module _ (top : ℕ) (g : Tags) (m : Mem p source) (tree : IsTree p source top g m) (l t v : ℕ)
      (lo : 1 ≤ l) (hi : l < 4) (at : IsAt g (suc l) t v)
      (absent : p.pte_is_present (entry p source m t v (suc l)) ≡ false) where
    -- The frame was no table before.
    module _ (virt : ℕ) (rest : source.State)
        (given : source.alloc m.frames ≡ (some virt, rest)) where
      abbrev pub c : ℕ
      c = sub64 virt hhdm

      abbrev pub m₁ : Mem p source
      m₁ = with_table p source m c rest

      abbrev pub m₂ : Mem p source
      m₂ = set_entry p source m₁ t v (suc l) (pointer c)

      c-unused : g.level c ≡ 0
      c-unused = tree.fresh virt (source.alloc_free m.frames rest virt given)

      c-IsFrame : IsFrame page_bytes c
      c-IsFrame = source.free_frame m.frames virt (source.alloc_free m.frames rest virt given)

      abbrev g' : Tags
      g' = record { level = update g.level c l; prefix_of = update g.prefix_of c (prefix l v) }

      c-other : (k s w : ℕ) → IsAt g (suc k) s w → (s == c) ≡ false
      c-other k s w a = ne→== s c (λ e. omega (arith, a.at_level, c-unused, ap g.level e))

      entry_after :
          (s w k : ℕ)
          → entry p source m₂ s w k ≡ (
              if s == t && p.vaddr_pt_index w k == p.vaddr_pt_index v (suc l)
              then pointer c
              else (if s == c then 0 else entry p source m s w k))
      entry_after s w k =
          entry-set_entry p source m₁ t v (suc l) (pointer c) s w k
          ∙ rw (entry-with_table p source m c rest s w k) refl

      -- A table's entry is the new pointer or is as before.
      entry_cases :
          (k s w : ℕ)
          → IsAt g (suc k) s w
          → (entry p source m₂ s w (suc k) ≡ entry p source m s w (suc k))
            ⊎ ((s ≡ t)
                × (k ≡ l)
                × (prefix l w ≡ prefix l v)
                × (entry p source m₂ s w (suc k) ≡ pointer c)
                × (p.pte_is_present (entry p source m s w (suc k)) ≡ false))
      entry_cases k s w a =
          let unseen : entry p source m₁ s w (suc k) ≡ entry p source m s w (suc k) =
            entry-with_table p source m c rest s w (suc k) ∙ rw (c-other k s w a) refl in
          let t_unseen : entry p source m₁ t v (suc l) ≡ entry p source m t v (suc l) =
            entry-with_table p source m c rest t v (suc l) ∙ rw (c-other l t v at) refl in
          elim (set_entry-cases p source x g m₁ l t v (pointer c) hi at k s w a) [
            | inl e ↦ inl (e ∙ unseen)
            | inr (st, kl, prefixes, e, old) ↦
                inr
                  (st, kl, prefixes, e, ap p.pte_is_present (sym unseen ∙ old ∙ t_unseen) ∙ absent)
          ]

      -- The new table is empty.
      c_empty : (k w : ℕ) → (c == t) ≡ false → p.pte_is_present (entry p source m₂ c w k) ≡ false
      c_empty k w off =
          let here = eq→== c c refl in
          ap p.pte_is_present (entry_after c w k ∙ rw (off, here) refl) ∙ x.absent_zero

      t-other : (c == t) ≡ false
      t-other = ne→== c t (λ e. omega (arith, at.at_level, c-unused, ap g.level e))

      empty_walk :
          {A : Type 0} (at_page : (level e : ℕ) → A) (gone : A) (k w : ℕ)
          → 1 ≤ k
          → walk p source at_page gone m₂ k c w ≡ gone
      empty_walk at_page gone zero w lo = absurd (omega arith)
      empty_walk at_page gone (suc k) w lo =
          walk-absent p source at_page gone m₂ k c w (c_empty (suc k) w t-other)

      grows-IsAt : (k s w : ℕ) → 1 ≤ k → IsAt g k s w → IsAt g' k s w
      grows-IsAt k s w pos a =
          let off = ne→== s c (λ e. omega (arith, a.at_level, c-unused, ap g.level e)) in
          record { at_level = rw off a.at_level; at_prefix = rw off a.at_prefix }

      IsAt-c : (w : ℕ) → prefix l w ≡ prefix l v → IsAt g' l c w
      IsAt-c w e =
          let here = eq→== c c refl in
          record { at_level = rw here refl; at_prefix = rw here (sym e) }

      Points-c :
          (k s w : ℕ)
          → k ≡ l
          → entry p source m₂ s w (suc k) ≡ pointer c
          → Points p source m₂ (suc k) s w c
      Points-c k s w kl e = record {
        present = ap p.pte_is_present e ∙ pointer-present c c-IsFrame;
        goes = ap (stops p (suc k)) e ∙ pointer-goes k c (omega arith) (omega arith) c-IsFrame;
        address = ap (λ n. p.pte_phys_addr n page_bytes) e ∙ pointer-address c c-IsFrame;
      }

      child_after :
          (k s w : ℕ)
          → IsAt g' (suc k) s w
          → p.pte_is_present (entry p source m₂ s w (suc k)) ≡ true
          → stops p (suc k) (entry p source m₂ s w (suc k)) ≡ false
          → IsAt g' k (p.pte_phys_addr (entry p source m₂ s w (suc k)) page_bytes) w
      child_after k s w a present goes = elim (Bool-cases (s == c)) [
        | inl new ↦
            let empty =
              ap (λ n. p.pte_is_present (entry p source m₂ n w (suc k))) (==→eq s c new) in
            absurd (true-ne-false (sym present ∙ empty ∙ c_empty (suc k) w t-other))
        | inr old ↦
            let before : IsAt g (suc k) s w = record {
              at_level = rw old at a.at_level;
              at_prefix = rw old at a.at_prefix;
            } in
            elim (entry_cases k s w before) [
              | inl e ↦
                  let pos : 1 ≤ k = stops-pos p k (entry p source m₂ s w (suc k)) goes in
                  let present' = sym (ap p.pte_is_present e) ∙ present in
                  let goes' = sym (ap (stops p (suc k)) e) ∙ goes in
                  rw e (grows-IsAt k _ w pos (tree.child k s w before present' goes'))
              | inr (st, kl, prefixes, e, none_before) ↦
                  let points = Points-c k s w kl e in rw (points.address, kl) (IsAt-c w prefixes)
            ]
      ]

      fresh_after : (u : ℕ) → source.IsFree rest u → g'.level (sub64 u hhdm) ≡ 0
      fresh_after u free =
          let was_free = source.alloc_kept m.frames rest (some virt) given u free in
          let virt_free = source.alloc_free m.frames rest virt given in
          let differ = source.alloc_taken m.frames rest virt given u free in
          let apart =
            sub64-ne u virt hhdm (source.free_word _ u was_free) (source.free_word _ virt virt_free)
              source.hhdm_word differ in
          rw (ne→== (sub64 u hhdm) c apart) (tree.fresh u was_free)

      IsTree-after : IsTree p source top g' m₂
      unfolding pml4_phys set_entry
      IsTree-after = record {
        root = λ w. grows-IsAt 4 _ w (omega arith) (tree.root w);
        child = child_after;
        fresh = fresh_after;
      }

      -- No walk gives anything new.
      same_after :
          {A : Type 0} (at_page : (level e : ℕ) → A) (gone : A) (w : ℕ)
          → walk p source at_page gone m₂ 4 top w ≡ walk p source at_page gone m 4 top w
      same_after at_page gone w =
          walk_frame p source top at_page gone g m m₂ w tree
            (λ k s a. elim (entry_cases k s w a) [
              | inl e ↦ inl e
              | inr (st, kl, prefixes, e, none_before) ↦
                  let to_c = walk-Points p source at_page gone m₂ k s w c (Points-c k s w kl e) in
                  let empty = empty_walk at_page gone k w (omega arith) in
                  inr (to_c ∙ empty ∙ sym (walk-absent p source at_page gone m k s w none_before))
            ])
            4 top (tree.root w)

      kept_after :
          (k s w : ℕ)
          → IsAt g (suc k) s w
          → p.pte_is_present (entry p source m s w (suc k)) ≡ true
          → entry p source m₂ s w (suc k) ≡ entry p source m s w (suc k)
      kept_after k s w a present = elim (entry_cases k s w a) [
        | inl e ↦ e
        | inr (st, kl, prefixes, e, none_before) ↦
            absurd (true-ne-false (sym present ∙ none_before))
      ]

      pub created : Reached p source top g m l t v c m₂
      unfolding pml4_phys set_entry
      created = record {
        after = g';
        grown = record {
          tree = IsTree-after;
          grows = λ k s w a. grows-IsAt (suc k) s w (omega arith) a;
          kept = kept_after;
          same = same_after;
          cr3 = refl;
          invalidated = refl;
        };
        called = Calls-once source m.frames rest (some virt) given;
        at_child = IsAt-c v refl;
        points = Points-c l t v refl (
            entry_after t v (suc l)
            ∙ rw (eq→== t t refl, eq→== _ _ (λ i. p.vaddr_pt_index v (suc l))) refl);
        clear = empty_walk _ _ l v lo;
      }
