-- ===== src/Paging/Tree.antt =====
-- The tables form a tree: each belongs to one level and one prefix of addresses. What a walk depends on.
use my_kernel.Prelude.{
  ℕ, zero, suc, ◌<◌, ◌≡◌, ◌⊎◌, inl, inr, refl, sym, ap, ◌∙◌, arith, true, false, Bool-cases, none,
  ◌==◌, ==→eq,
}
use my_kernel.Word.{sub64}
use my_kernel.Paging.{Paging, IsX86, page_bytes, read}
use my_kernel.Paging.Frames.{FrameSource, Calls}
use my_kernel.Paging.Walker.{Mem, entry, set_entry, Result, ok, err, out_of_frames}
use my_kernel.Paging.Lookup.{walk, entry-set_entry, huge_at, Points, prefix, prefix_step, stops}

-- For each table its level, 0 for a frame that is no table, and the prefix of the addresses it serves.
pub record Tags : Type 0 where
  pub level : ℕ → ℕ
  pub prefix_of : ℕ → ℕ

-- The table serves the address at the level.
pub record IsAt (g : Tags) (l t v : ℕ) : Type 0 where
  pub at_level : g.level t ≡ l
  pub at_prefix : g.prefix_of t ≡ prefix l v

module _ (p : Paging) {hhdm : ℕ} (source : FrameSource hhdm) where
  -- After a write of one entry, a table's entry is the one written or is as before.
  pub set_entry-cases :
      IsX86 p
      → (g : Tags) (m : Mem p source) (l t v e : ℕ) → l < 4
      → IsAt g (suc l) t v
      → (k s w : ℕ) → IsAt g (suc k) s w
      → (entry p source (set_entry p source m t v (suc l) e) s w (suc k)
          ≡ entry p source m s w (suc k))
        ⊎ ((s ≡ t)
            × (k ≡ l)
            × (prefix l w ≡ prefix l v)
            × (entry p source (set_entry p source m t v (suc l) e) s w (suc k) ≡ e)
            × (entry p source m s w (suc k) ≡ entry p source m t v (suc l)))
  unfolding entry
  set_entry-cases x g m l t v e hi at k s w a =
      let after = entry-set_entry p source m t v (suc l) e s w (suc k) in
      elim (Bool-cases (s == t)) [
        | inr other ↦ inl (after ∙ rw other refl)
        | inl here ↦ elim (Bool-cases (p.vaddr_pt_index w (suc k) == p.vaddr_pt_index v (suc l))) [
          | inr miss ↦ inl (after ∙ rw (here, miss) refl)
          | inl hit ↦
              let st : s ≡ t = ==→eq s t here in
              let index = ==→eq (p.vaddr_pt_index w (suc k)) (p.vaddr_pt_index v (suc l)) hit in
              let kl : k ≡ l = omega (arith, a.at_level, at.at_level, ap g.level st) in
              let same_level : prefix (suc k) w ≡ prefix (suc l) v =
                sym a.at_prefix ∙ ap g.prefix_of st ∙ at.at_prefix in
              let prefixes : prefix l w ≡ prefix l v =
                ap (λ n. prefix n w) (sym kl)
                ∙ omega (
                  arith,
                  prefix_step p x k w (omega arith),
                  prefix_step p x l v hi,
                  same_level,
                  index,
                ) in
              let old : entry p source m s w (suc k) ≡ entry p source m t v (suc l) =
                ap (λ n. read (m.tables n) (p.vaddr_pt_index w (suc k))) st
                ∙ ap (read (m.tables t)) index in
              inr (st, kl, prefixes, after ∙ rw (here, hit) refl, old)
        ]
      ]

-- The tables below the root at `top`.
module _ (p : Paging) {hhdm : ℕ} (source : FrameSource hhdm) (top : ℕ) where
  -- The root serves all addresses at level 4; an entry that points to a table points to the one of the next level
  -- that serves the entry's addresses; and no free frame is a table.
  pub record IsTree (g : Tags) (m : Mem p source) : Type 0 where
    pub root : (v : ℕ) → IsAt g 4 top v
    pub child :
        (l t v : ℕ)
        → IsAt g (suc l) t v
        → p.pte_is_present (entry p source m t v (suc l)) ≡ true
        → stops p (suc l) (entry p source m t v (suc l)) ≡ false
        → IsAt g l (p.pte_phys_addr (entry p source m t v (suc l)) page_bytes) v
    pub fresh : (v : ℕ) → source.IsFree m.frames v → g.level (sub64 v hhdm) ≡ 0

  -- Two memories in which every table that serves an address has the same entry for it, or the same result of the
  -- walk from there, agree on the walk for the address.
  module _ {A : Type 0} (at_page : (level e : ℕ) → A) (gone : A) where
    pub walk_frame :
        (g : Tags) (m m' : Mem p source) (v : ℕ)
        → IsTree g m
        → ((l t : ℕ)
            → IsAt g (suc l) t v
            → (entry p source m' t v (suc l) ≡ entry p source m t v (suc l))
              ⊎ (walk p source at_page gone m' (suc l) t v
                  ≡ walk p source at_page gone m (suc l) t v))
        → (l t : ℕ) → IsAt g l t v
        → walk p source at_page gone m' l t v ≡ walk p source at_page gone m l t v
    unfolding walk
    walk_frame g m m' v tree same zero t at = refl
    walk_frame g m m' v tree same (suc l) t at = elim (same l t at) [
      | inr agree ↦ agree
      | inl e ↦ elim (Bool-cases (p.pte_is_present (entry p source m t v (suc l)))) [
        | inr absent ↦ rw (e, absent) refl
        | inl present ↦ elim (Bool-cases (stops p (suc l) (entry p source m t v (suc l)))) [
          | inl stop ↦ rw (e, present, stop) refl
          | inr go ↦
              let deeper =
                walk_frame g m m' v tree same l
                  (p.pte_phys_addr (entry p source m t v (suc l)) page_bytes)
                  (tree.child l t v at present go) in
              rw (e, present, go) deeper
        ]
      ]
    ]

  -- What creating tables leaves: the tree has grown, and nothing that was mapped has changed.
  pub record Grown (g g' : Tags) (m m' : Mem p source) : Type 1 where
    pub tree : IsTree g' m'
    pub grows : (l t v : ℕ) → IsAt g (suc l) t v → IsAt g' (suc l) t v
    pub kept :
        (l t v : ℕ)
        → IsAt g (suc l) t v
        → p.pte_is_present (entry p source m t v (suc l)) ≡ true
        → entry p source m' t v (suc l) ≡ entry p source m t v (suc l)
    pub same :
        {A : Type 0} (at_page : (level e : ℕ) → A) (gone : A) (v : ℕ)
        → walk p source at_page gone m' 4 top v ≡ walk p source at_page gone m 4 top v
    pub cr3 : m'.cr3 ≡ m.cr3
    pub invalidated : m'.invalidated ≡ m.invalidated

  -- The table `c` of the next level that the walk for an address goes to.
  pub record Reached (g : Tags) (m : Mem p source) (l t v c : ℕ) (m' : Mem p source) : Type 1 where
    pub after : Tags
    pub grown : Grown g after m m'
    pub called : Calls source 1 m.frames m'.frames
    pub at_child : IsAt after l c v
    pub points : Points p source m' (suc l) t v c
    pub clear : huge_at p source m' l c v ≡ false

  -- What descending one level returns.
  pub data Descends (g : Tags) (m : Mem p source) (l t v : ℕ)
      : Result ℕ × Mem p source → Type 1 where
    reached : (c : ℕ) (m' : Mem p source) → Reached g m l t v c m' → Descends g m l t v (ok c, m')
    no_frame :
        (m' : Mem p source)
        → Grown g g m m'
        → source.alloc m.frames ≡ (none, m'.frames)
        → Descends g m l t v (err out_of_frames, m')

  pub Grown-refl : (g : Tags) (m : Mem p source) → IsTree g m → Grown g g m m
  Grown-refl g m tree = record {
    tree = tree;
    grows = λ l t v at. at;
    kept = λ l t v at present. refl;
    same = λ at_page gone v. refl;
    cr3 = refl;
    invalidated = refl;
  }

  pub Grown-trans :
      (g g₁ g₂ : Tags) (m m₁ m₂ : Mem p source)
      → Grown g g₁ m m₁
      → Grown g₁ g₂ m₁ m₂
      → Grown g g₂ m m₂
  Grown-trans g g₁ g₂ m m₁ m₂ a b = record {
    tree = b.tree;
    grows = λ l t v at. b.grows l t v (a.grows l t v at);
    kept = λ l t v at present.
        let e = a.kept l t v at present in
        b.kept l t v (a.grows l t v at) (ap p.pte_is_present e ∙ present) ∙ e;
    same = λ at_page gone v. b.same at_page gone v ∙ a.same at_page gone v;
    cr3 = b.cr3 ∙ a.cr3;
    invalidated = b.invalidated ∙ a.invalidated;
  }
