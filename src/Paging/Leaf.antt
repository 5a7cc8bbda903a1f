-- ===== src/Paging/Leaf.antt =====
-- The write of the entry that ends a walk: a page of 4 KiB or a huge page, or an absent entry.
use my_kernel.Prelude.{
  ℕ, zero, suc, not, ◌<◌, ◌≡◌, ◌⊎◌, inl, inr, refl, sym, ap, ◌∙◌, arith, true, true-ne-false, ◌==◌,
  ==→eq, eq→==, Bool-cases, if◌then◌else◌,
}
use my_kernel.Paging.{Paging, IsX86, page_bytes}
use my_kernel.Paging.Frames.{FrameSource}
use my_kernel.Paging.Walker.{Mem, entry, set_entry, invlpg}
use my_kernel.Paging.Lookup.{walk, stops, prefix, entry-set_entry}
use my_kernel.Paging.Tree.{Tags, IsAt, IsTree, set_entry-cases, walk_frame}
use my_kernel.Paging.Walk.{prefix-up, Keeps, AtLevel}

module _ (p : Paging) (x : IsX86 p) {hhdm : ℕ} (source : FrameSource hhdm) where
  -- Dropping translations from the TLB changes no table.
  pub invlpg-walk :
      {A : Type 0} (at_page : (level e : ℕ) → A) (gone : A) (m : Mem p source) (v l t w : ℕ)
      → walk p source at_page gone (invlpg p source m v) l t w ≡ walk p source at_page gone m l t w
  unfolding walk entry
  invlpg-walk at_page gone m v zero t w = refl
  invlpg-walk at_page gone m v (suc l) t w =
      let e = entry p source m t w (suc l) in
      ap
        (λ deeper.
          if not (p.pte_is_present e)
          then gone
          else (if stops p (suc l) e then at_page (suc l) e else deeper))
        (invlpg-walk at_page gone m v l (p.pte_phys_addr e page_bytes) w)

module _ (p : Paging) (x : IsX86 p) {hhdm : ℕ} (source : FrameSource hhdm) (top : ℕ) where
  pub invlpg-IsTree :
      (g : Tags) (m : Mem p source) (v : ℕ)
      → IsTree p source top g m
      → IsTree p source top g (invlpg p source m v)
  unfolding entry
  invlpg-IsTree g m v tree = record { root = tree.root; child = tree.child; fresh = tree.fresh }

  module _ (l : ℕ) (hi : l < 4) (e : ℕ) (ends : stops p (suc l) e ≡ true) where
    -- The memory after the write.
    abbrev pub with_leaf : Mem p source → (t v : ℕ) → Mem p source
    with_leaf m t v = set_entry p source m t v (suc l) e

    leaf-cases :
        (g : Tags) (m : Mem p source) (t v : ℕ)
        → IsAt g (suc l) t v
        → (k s w : ℕ) → IsAt g (suc k) s w
        → (entry p source (with_leaf m t v) s w (suc k) ≡ entry p source m s w (suc k))
          ⊎ ((k ≡ l)
              × (prefix l w ≡ prefix l v)
              × (entry p source (with_leaf m t v) s w (suc k) ≡ e))
    leaf-cases g m t v at k s w a = elim (set_entry-cases p source x g m l t v e hi at k s w a) [
      | inl same ↦ inl same
      | inr (st, kl, prefixes, written, old) ↦ inr (kl, prefixes, written)
    ]

    pub leaf-IsTree :
        (g : Tags) (m : Mem p source)
        → IsTree p source top g m
        → (t v : ℕ) → IsAt g (suc l) t v
        → IsTree p source top g (with_leaf m t v)
    unfolding set_entry
    leaf-IsTree g m tree t v at = record {
      root = tree.root;
      child = λ k s w a present goes. elim (leaf-cases g m t v at k s w a) [
        | inl same ↦ rw same (
            tree.child k s w a (sym (ap p.pte_is_present same) ∙ present)
              (sym (ap (stops p (suc k)) same) ∙ goes))
        | inr (kl, page, written) ↦
            let stop : stops p (suc k) (entry p source (with_leaf m t v) s w (suc k)) ≡ true =
              ap (stops p (suc k)) written ∙ ap (λ n. stops p (suc n) e) kl ∙ ends in
            absurd (true-ne-false (sym stop ∙ goes))
      ];
      fresh = tree.fresh;
    }

    leaf-Keeps :
        (g : Tags) (m : Mem p source) (t v : ℕ)
        → IsAt g (suc l) t v
        → Keeps p x source (suc l) g m (with_leaf m t v)
    leaf-Keeps g m t v at = record {
      kept = λ k s w lo a present. elim (leaf-cases g m t v at k s w a) [
        | inl same ↦ same
        | inr (low, page, written) ↦ absurd (omega (arith, low))
      ];
    }

    module _ {A : Type 0} (at_page : (level e : ℕ) → A) (gone : A) where
      -- The result of a walk that has come to the table of the leaf.
      leaf-walk :
          (m : Mem p source) (t v w : ℕ)
          → prefix l w ≡ prefix l v
          → walk p source at_page gone (with_leaf m t v) (suc l) t w
            ≡ (if p.pte_is_present e then at_page (suc l) e else gone)
      unfolding walk
      leaf-walk m t v w same =
          let (index, above) = prefix-up p x l w v hi same in
          let written : entry p source (with_leaf m t v) t w (suc l) ≡ e =
            entry-set_entry p source m t v (suc l) e t w (suc l)
            ∙ rw (eq→== t t refl, eq→== _ _ index) refl in
          elim (Bool-cases (p.pte_is_present e)) [
            | inl present ↦ rw (written, present, ends) refl
            | inr absent ↦ rw (written, absent) refl
          ]

      -- The walk for an address on another page is as before.
      leaf-other :
          (g : Tags) (m : Mem p source)
          → IsTree p source top g m
          → (t v : ℕ) → IsAt g (suc l) t v
          → (w : ℕ) → ¬ (prefix l w ≡ prefix l v)
          → walk p source at_page gone (with_leaf m t v) 4 top w
            ≡ walk p source at_page gone m 4 top w
      leaf-other g m tree t v at w apart =
          walk_frame p source top at_page gone g m (with_leaf m t v) w tree
            (λ k s a. elim (leaf-cases g m t v at k s w a) [
              | inl same ↦ inl same
              | inr (low, page, written) ↦ absurd (apart page)
            ])
            4 top (tree.root w)

      -- Every walk after the write of a leaf that the walk for its address had come to.
      pub leaf-result :
          (g : Tags) (m : Mem p source) (v t : ℕ) (m' : Mem p source)
          → AtLevel p x source top g m v (suc l) t m'
          → (w : ℕ)
          → walk p source at_page gone (with_leaf m' t v) 4 top w ≡ (
              if prefix l w == prefix l v
              then (if p.pte_is_present e then at_page (suc l) e else gone)
              else walk p source at_page gone m 4 top w)
      leaf-result g m v t m' a w = elim (Bool-cases (prefix l w == prefix l v)) [
        | inl here ↦
            let same = ==→eq (prefix l w) (prefix l v) here in
            let (index, above) = prefix-up p x l w v hi same in
            a.path at_page gone (with_leaf m' t v) (leaf-Keeps a.after m' t v a.at) w above
            ∙ leaf-walk m' t v w same
            ∙ rw here refl
        | inr other ↦
            leaf-other a.after m' a.grown.tree t v a.at w
              (λ same. true-ne-false (sym (eq→== _ _ same) ∙ other))
            ∙ a.grown.same at_page gone w
            ∙ rw other refl
      ]
