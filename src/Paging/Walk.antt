-- ===== src/Paging/Walk.antt =====
-- The way from the root to the last table in `map` of mantle/src/walker.rs: three levels, one after the other.
use my_kernel.Prelude.{ℕ, zero, suc, ◌≤◌, ◌<◌, ◌≡◌, refl, ap, ◌∙◌, arith, true, false, none, ◌-◌}
use my_kernel.Paging.{Paging, IsX86, page_bytes, read}
use my_kernel.Paging.Frames.{FrameSource, Calls, Calls-weaken, Calls-trans}
use my_kernel.Paging.Walker.{
  Mem, entry, pml4_phys, Result, ok, err, out_of_frames, descend_or_create, descend, M, ◌>>=◌,
}
use my_kernel.Paging.Lookup.{
  prefix_step, index-lt, walk, huge_at, Points, prefix, stops, walk-Points,
}
use my_kernel.Paging.Tree.{
  Tags, IsAt, IsTree, Grown, Reached, Descends, reached, no_frame, Grown-refl, Grown-trans,
}
use my_kernel.Paging.Descend.{descend_or_create-Descends}

-- Addresses that a table serves alike have one entry in it and share the table above.
pub prefix-up :
    (p : Paging)
    → IsX86 p
    → (l w v : ℕ) → l < 4
    → prefix l w ≡ prefix l v
    → (p.vaddr_pt_index w (suc l) ≡ p.vaddr_pt_index v (suc l))
      × (prefix (suc l) w ≡ prefix (suc l) v)
prefix-up p x l w v h same =
    let step_w = prefix_step p x l w h in
    let step_v = prefix_step p x l v h in
    let lt_w = index-lt p x l w h in let lt_v = index-lt p x l v h in (omega arith, omega arith)

-- Addresses on one page are served alike by all tables.
pub prefix-above :
    (p : Paging) → IsX86 p → (l w v : ℕ) → l ≤ 4 → prefix 0 w ≡ prefix 0 v → prefix l w ≡ prefix l v
prefix-above p x zero w v h same = same
prefix-above p x (suc l) w v h same =
    (prefix-up p x l w v (omega arith) (prefix-above p x l w v (omega arith) same)).1

module _ (p : Paging) (x : IsX86 p) {hhdm : ℕ} (source : FrameSource hhdm) where
  pub prefix-entry :
      (m : Mem p source) (t w v l : ℕ)
      → prefix l w ≡ prefix l v
      → l < 4
      → entry p source m t w (suc l) ≡ entry p source m t v (suc l)
  unfolding entry
  prefix-entry m t w v l same h = ap (read (m.tables t)) ((prefix-up p x l w v h same).0)

  prefix-Points :
      (m : Mem p source) (t w v l c : ℕ)
      → prefix l w ≡ prefix l v
      → l < 4
      → Points p source m (suc l) t v c
      → Points p source m (suc l) t w c
  prefix-Points m t w v l c same h points =
      let e = prefix-entry m t w v l same h in
      record {
        present = ap p.pte_is_present e ∙ points.present;
        goes = ap (stops p (suc l)) e ∙ points.goes;
        address = ap (λ n. p.pte_phys_addr n page_bytes) e ∙ points.address;
      }

  -- The second memory has the first's present entries above the level.
  pub record Keeps (level : ℕ) (g : Tags) (m m' : Mem p source) : Type 0 where
    pub kept :
        (l t v : ℕ)
        → level ≤ l
        → IsAt g (suc l) t v
        → p.pte_is_present (entry p source m t v (suc l)) ≡ true
        → entry p source m' t v (suc l) ≡ entry p source m t v (suc l)

  pub Keeps-refl : (level : ℕ) (g : Tags) (m : Mem p source) → Keeps level g m m
  Keeps-refl level g m = record { kept = λ l t v lo at present. refl }

  Grown-Keeps :
      (top level : ℕ) (g g' : Tags) (m m' m'' : Mem p source)
      → Grown p source top g g' m m'
      → Keeps level g' m' m''
      → Keeps (suc level) g m m''
  Grown-Keeps top level g g' m m' m'' a b = record {
    kept = λ l t v lo at present.
        let e = a.kept l t v at present in
        b.kept l t v (omega arith) (a.grows l t v at) (ap p.pte_is_present e ∙ present) ∙ e;
  }

module _ (p : Paging) (x : IsX86 p) {hhdm : ℕ} (source : FrameSource hhdm) (top : ℕ) where
  -- The walk for an address has come to the table `t` of a level, and so it does whatever happens to the leaves.
  pub record AtLevel (g : Tags) (m : Mem p source) (v l t : ℕ) (m' : Mem p source) : Type 1 where
    pub after : Tags
    pub grown : Grown p source top g after m m'
    pub called : Calls source (4 - l) m.frames m'.frames
    pub at : IsAt after l t v
    pub clear : huge_at p source m' l t v ≡ false
    pub path :
        {A : Type 0} (at_page : (level e : ℕ) → A) (gone : A) (m'' : Mem p source)
        → Keeps p x source l after m' m''
        → (w : ℕ) → prefix l w ≡ prefix l v
        → walk p source at_page gone m'' 4 top w ≡ walk p source at_page gone m'' l t w

  -- What the walk returns: the table of the level, or an error when an allocation failed.
  pub data Walked (g : Tags) (m : Mem p source) (v l : ℕ) : Result ℕ × Mem p source → Type 1 where
    arrived : (t : ℕ) (m' : Mem p source) → AtLevel g m v l t m' → Walked g m v l (ok t, m')
    starved :
        (m' : Mem p source) (g' : Tags)
        → Grown p source top g g' m m'
        → (s : source.State) → Calls source 3 m.frames s
        → source.alloc s ≡ (none, m'.frames)
        → Walked g m v l (err out_of_frames, m')

  -- One level further.
  pub extend :
      (g : Tags) (m : Mem p source) (v l t c : ℕ) (m₁ m₂ : Mem p source)
      → 1 ≤ l
      → l < 4
      → (a : AtLevel g m v (suc l) t m₁) → Reached p source top a.after m₁ l t v c m₂
      → AtLevel g m v l c m₂
  extend g m v l t c m₁ m₂ lo hi a r = record {
    after = r.after;
    grown = Grown-trans p source top g a.after r.after m m₁ m₂ a.grown r.grown;
    called =
        Calls-trans source (4 - suc l) 1 (4 - l) m.frames m₁.frames m₂.frames (omega (arith, hi))
          a.called r.called;
    at = r.at_child;
    clear = r.clear;
    path = λ at_page gone m'' keeps w same.
        let e = keeps.kept l t v (omega arith) (r.grown.grows l t v a.at) r.points.present in
        let points : Points p source m'' (suc l) t v c = record {
          present = ap p.pte_is_present e ∙ r.points.present;
          goes = ap (stops p (suc l)) e ∙ r.points.goes;
          address = ap (λ n. p.pte_phys_addr n page_bytes) e ∙ r.points.address;
        } in
        let (index, above) = prefix-up p x l w v hi same in
        a.path at_page gone m''
          (Grown-Keeps p x source top l a.after r.after m₁ m₂ m'' r.grown keeps) w above
        ∙ walk-Points p source at_page gone m'' l t w c
            (prefix-Points p x source m'' t w v l c same hi points);
  }

  -- A walk goes on by descending one level.
  step :
      (g : Tags) (m : Mem p source) (v l t : ℕ) (m' : Mem p source)
      → 1 ≤ l
      → l < 4
      → AtLevel g m v (suc l) t m'
      → Walked g m v l (descend_or_create p source t v (suc l) m')
  step g m v l t m' lo hi a =
      beyond (descend_or_create p source t v (suc l) m')
        (descend_or_create-Descends p x source top a.after m' a.grown.tree l t v lo hi a.at a.clear)
    where
      beyond :
          (r : Result ℕ × Mem p source)
          → Descends p source top a.after m' l t v r
          → Walked g m v l r
      beyond _ (reached c' m'' r) = arrived c' m'' (extend g m v l t c' m' m'' lo hi a r)
      beyond _ (no_frame m'' grown given) =
          starved m'' a.after (Grown-trans p source top g a.after a.after m m' m'' a.grown grown)
            m'.frames (Calls-weaken source (4 - suc l) 3 m.frames m'.frames (omega arith) a.called)
            given

  -- A walk to one level, then a walk from there.
  bind-Walked :
      (g : Tags) (m : Mem p source) (v l k : ℕ) (f : ℕ → M p source ℕ) (r : Result ℕ × Mem p source)
      → Walked g m v l r
      → ((t : ℕ) (m' : Mem p source) → AtLevel g m v l t m' → Walked g m v k (f t m'))
      → Walked g m v k (◌>>=◌ p source (λ _. r) f m)
  bind-Walked g m v l k f _ (arrived t m' a) go = go t m' a
  bind-Walked g m v l k f _ (starved m' g' grown s few given) go = starved m' g' grown s few given

  pub at_root :
      (g : Tags) (m : Mem p source) (v : ℕ)
      → IsTree p source top g m
      → huge_at p source m 4 top v ≡ false
      → AtLevel g m v 4 top m
  at_root g m v tree clear = record {
    after = g;
    grown = Grown-refl p source top g m tree;
    called = refl;
    at = tree.root v;
    clear = clear;
    path = λ at_page gone m'' keeps w same. refl;
  }

  -- The two levels above a huge page.
  pub walk_two :
      (g : Tags) (m : Mem p source) (v : ℕ)
      → IsTree p source top g m
      → huge_at p source m 4 top v ≡ false
      → Walked g m v 2 (
          ◌>>=◌ p source
            (descend_or_create p source top v 4)
            (λ pdpt. descend_or_create p source pdpt v 3)
            m)
  walk_two g m v tree clear =
      bind-Walked g m v 3 2 _ _
        (step g m v 3 _ m (omega arith) (omega arith) (at_root g m v tree clear))
        (λ t m' a. step g m v 2 t m' (omega arith) (omega arith) a)

  -- The three levels of `map` and of the first tables.
  pub walk_three :
      (g : Tags) (m : Mem p source) (v : ℕ)
      → IsTree p source top g m
      → huge_at p source m 4 top v ≡ false
      → Walked g m v 1 (
          ◌>>=◌ p source
            (descend_or_create p source top v 4)
            (λ pdpt.
              ◌>>=◌ p source
                (descend_or_create p source pdpt v 3)
                (λ pd. descend_or_create p source pd v 2))
            m)
  walk_three g m v tree clear =
      bind-Walked g m v 3 1 _ _
        (step g m v 3 _ m (omega arith) (omega arith) (at_root g m v tree clear))
        (λ t m' a.
          bind-Walked g m v 2 1 _ _ (step g m v 2 t m' (omega arith) (omega arith) a)
            (λ t' m'' b. step g m v 1 t' m'' (omega arith) (omega arith) b))

pub descend-Walked :
    (p : Paging) (x : IsX86 p) {hhdm : ℕ} (source : FrameSource hhdm) (g : Tags) (m : Mem p source)
    (v : ℕ)
    → IsTree p source (pml4_phys p source m) g m
    → huge_at p source m 4 (pml4_phys p source m) v ≡ false
    → Walked p x source (pml4_phys p source m) g m v 1 (descend p source v m)
unfolding descend
descend-Walked p x source g m v tree clear =
    walk_three p x source (pml4_phys p source m) g m v tree clear
