-- ===== src/Paging/Unmap.antt =====
-- `unmap` of mantle/src/walker.rs.
use my_kernel.Prelude.{
  ℕ, suc, ◌≤◌, ◌<◌, ◌≡◌, ◌⊎◌, inl, inr, refl, ap, ◌∙◌, arith, false, ==→eq, Bool-cases, Option,
  none, some, ◌∷◌, if◌then◌else◌,
}
use my_kernel.Paging.{Paging, IsX86}
use my_kernel.Paging.Frames.{FrameSource}
use my_kernel.Paging.Walker.{
  invlpg, Mem, entry, pml4_phys, walk_existing, set_entry, unmap, translate,
}
use my_kernel.Paging.Lookup.{prefix, lookup, stops, walk-absent, translate-lookup, huge_at-step}
use my_kernel.Paging.Tree.{Tags, IsTree, Grown-refl}
use my_kernel.Paging.Walk.{prefix-above, prefix-entry, Keeps-refl, AtLevel, extend, at_root}
use my_kernel.Paging.Leaf.{invlpg-IsTree, invlpg-walk, with_leaf, leaf-IsTree, leaf-result}
use my_kernel.Paging.Map.{IsPaged-below, translate-below, IsPaged, is_huge, same_page}

module _ (p : Paging) (x : IsX86 p) {hhdm : ℕ} (source : FrameSource hhdm) where
  -- The page is mapped to nothing and nothing else has changed; if it was mapped, it was dropped from the TLB.
  pub record Unmapped (m : Mem p source) (v : ℕ) (m' : Mem p source) : Type 0 where
    pub paged : IsPaged p source m'
    pub translation :
        (w : ℕ) → translate p source m' w ≡ (if same_page w v then none else translate p source m w)
    pub flushed : (translate p source m v ≡ none) ⊎ (m'.invalidated ≡ v ∷ m.invalidated)

  -- The entry that `unmap` writes.
  abbrev emptied_at : Mem p source → (t v : ℕ) → Mem p source
  emptied_at m t v =
      invlpg p source (with_leaf p x source (pml4_phys p source m) 0 (omega arith) 0 refl m t v) v

  -- What `walk_existing` finds below a table that the walk has come to.
  data Exists (g : Tags) (m : Mem p source) (v l : ℕ) : Option ℕ → Type 1 where
    missing :
        ((w : ℕ) → prefix 0 w ≡ prefix 0 v → lookup p source m 4 (pml4_phys p source m) w ≡ none)
        → Exists g m v l none
    there :
        (c : ℕ) → AtLevel p x source (pml4_phys p source m) g m v l c m → Exists g m v l (some c)

  module _ (g : Tags) (m : Mem p source) (v : ℕ) where
    existing :
        (l t : ℕ)
        → 1 ≤ l
        → l < 4
        → AtLevel p x source (pml4_phys p source m) g m v (suc l) t m
        → (stops p (suc l) (entry p source m t v (suc l)) ≡ false
            → p.pte_is_huge (entry p source m t v (suc l)) ≡ false)
        → Exists g m v l (walk_existing p source m t v (suc l))
    unfolding walk_existing
    existing l t lo hi a small =
        elim (Bool-cases (p.pte_is_present (entry p source m t v (suc l)))) [
          | inr absent ↦
              let gone : (w : ℕ)
                  → prefix 0 w ≡ prefix 0 v
                  → lookup p source m 4 (pml4_phys p source m) w ≡ none =
                λ w same.
                  let below = prefix-above p x l w v (omega arith) same in
                  a.path _ _ m (Keeps-refl p x source (suc l) a.after m) w
                    (prefix-above p x (suc l) w v (omega arith) same)
                  ∙ walk-absent p source _ _ m l t w
                      (ap p.pte_is_present (prefix-entry p x source m t w v l below hi) ∙ absent) in
              rw absent (missing gone)
          | inl present ↦
              let (goes, clear) = huge_at-step p source m l t v lo a.clear present in
              rw (present, small goes)
                (there _ (
                  extend p x source (pml4_phys p source m) g m v l t _ m m lo hi a (record {
                    after = a.after;
                    grown = Grown-refl p source (pml4_phys p source m) a.after m a.grown.tree;
                    called = inl refl;
                    at_child = a.grown.tree.child l t v a.at present goes;
                    points = record { present = present; goes = goes; address = refl };
                    clear = clear;
                  })))
        ]

    -- On the way down, `unmap` stops where there is no table.
    descended :
        (l : ℕ) (f : ℕ → Mem p source) (r : Option ℕ)
        → IsTree p source (pml4_phys p source m) g m
        → Exists g m v l r
        → ((c : ℕ) → AtLevel p x source (pml4_phys p source m) g m v l c m → Unmapped m v (f c))
        → Unmapped m v (elim r [ none ↦ m | some c ↦ f c ])
    descended l f _ tree (there c a) go = go c a
    descended l f _ tree (missing gone) go = record {
      paged = record { tags = g; tree = tree };
      translation = λ w. elim (Bool-cases (same_page w v)) [
        | inl here ↦ translate-lookup p source m w ∙ gone w (==→eq _ _ here) ∙ rw here refl
        | inr other ↦ rw other refl
      ];
      flushed = inl (translate-lookup p source m v ∙ gone v refl);
    }

    -- The entry that is written is absent.
    emptied :
        (t : ℕ)
        → AtLevel p x source (pml4_phys p source m) g m v 1 t m
        → Unmapped m v (emptied_at m t v)
    unfolding set_entry
    emptied t a =
        let top = pml4_phys p source m in
        let m' = emptied_at m t v in
        record {
          paged = IsPaged-below p x source m m' refl a.after (
              invlpg-IsTree p x source top a.after _ v (
                leaf-IsTree p x source top 0 (omega arith) 0 refl a.after m a.grown.tree t v a.at));
          translation = λ w.
              translate-below p x source m m' w refl
              ∙ invlpg-walk p x source _ _ _ v 4 top w
              ∙ leaf-result p x source top 0 (omega arith) 0 refl _ _ g m v t m a w
              ∙ rw (x.absent_zero, translate-lookup p source m w) refl;
          flushed = inr refl;
        }

  -- Unmapping an address outside the huge pages leaves its page translated to nothing and every other address
  -- translated as before; the page is dropped from the TLB if the address was translated at all. The bit that
  -- marks a huge page is reserved in the topmost table, and taken to be clear there.
  pub unmap-Unmapped :
      (m : Mem p source)
      → IsPaged p source m
      → (v : ℕ) → is_huge p source m v ≡ false
      → p.pte_is_huge (entry p source m (pml4_phys p source m) v 4) ≡ false
      → Unmapped m v (unmap p source m v)
  unfolding unmap
  unmap-Unmapped m paged v clear top =
      let g = paged.tags in
      descended g m v 3 _ _ paged.tree
        (existing g m v 3 _ (omega arith) (omega arith)
          (at_root p x source (pml4_phys p source m) g m v paged.tree clear) (λ h. top))
        (λ c a.
          descended g m v 2 _ _ paged.tree
            (existing g m v 2 c (omega arith) (omega arith) a (λ h. h))
            (λ c' b.
              descended g m v 1 _ _ paged.tree
                (existing g m v 1 c' (omega arith) (omega arith) b (λ h. h)) (emptied g m v)))
