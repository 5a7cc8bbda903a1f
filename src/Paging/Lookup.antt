-- ===== src/Paging/Lookup.antt =====
-- The walk of mantle/src/walker.rs as one recursion over the levels, and what it depends on.
use my_kernel.Prelude.{
  ℕ, zero, suc, ◌+◌, ◌*◌, ◌/◌, ◌%◌, ◌^◌, ◌≤◌, ◌<◌, ◌≡◌, inl, inr, refl, sym, ap, ◌∙◌, arith, Bool,
  true, ==→eq, ne→==, true-ne-false, false, not, ◌&&◌, Bool-cases, Option, none, some, ◌==◌,
  if◌then◌else◌, update,
}
use my_kernel.Paging.{Paging, IsX86, page_bytes, read, write, zeroed}
use my_kernel.Paging.Frames.{FrameSource}
use my_kernel.Paging.Walker.{Mem, entry, set_entry, pml4_phys, in_page, translate}

-- The size of the page that an entry of a level maps.
abbrev pub span : ℕ → ℕ
span level = if level == 1 then page_bytes else (if level == 2 then 0x200000 else 0x40000000)

-- The bits of an address above those that a table of the level is indexed by, of 48 bits.
unfoldable pub prefix : (level vaddr : ℕ) → ℕ
prefix zero v = v / 2 ^ 12 % 2 ^ 36
prefix (suc zero) v = v / 2 ^ 21 % 2 ^ 27
prefix (suc (suc zero)) v = v / 2 ^ 30 % 2 ^ 18
prefix (suc (suc (suc zero))) v = v / 2 ^ 39 % 2 ^ 9
prefix (suc (suc (suc (suc l)))) v = 0

-- The prefix grows by the index of each level.
pub prefix_step :
    (p : Paging)
    → IsX86 p
    → (l v : ℕ) → l < 4
    → prefix l v ≡ prefix (suc l) v * 512 + p.vaddr_pt_index v (suc l)
unfolding prefix
prefix_step p x zero v h = omega (arith, x.index_1 v)
prefix_step p x (suc zero) v h = omega (arith, x.index_2 v)
prefix_step p x (suc (suc zero)) v h = omega (arith, x.index_3 v)
prefix_step p x (suc (suc (suc zero))) v h = omega (arith, x.index_4 v)
prefix_step p x (suc (suc (suc (suc l)))) v h = absurd (omega arith)

pub index-lt : (p : Paging) → IsX86 p → (l v : ℕ) → l < 4 → p.vaddr_pt_index v (suc l) < 512
index-lt p x zero v h = omega (arith, x.index_1 v)
index-lt p x (suc zero) v h = omega (arith, x.index_2 v)
index-lt p x (suc (suc zero)) v h = omega (arith, x.index_3 v)
index-lt p x (suc (suc (suc zero))) v h = omega (arith, x.index_4 v)
index-lt p x (suc (suc (suc (suc l)))) v h = absurd (omega arith)

-- Whether a present entry of the level maps a page, rather than pointing to a table.
abbrev pub stops : Paging → (level e : ℕ) → Bool
stops p level e = if level == 1 then true else (if level == 4 then false else p.pte_is_huge e)

pub stops-pos : (p : Paging) (l e : ℕ) → stops p (suc l) e ≡ false → 1 ≤ l
stops-pos p zero e h = absurd (true-ne-false h)
stops-pos p (suc l) e h = omega arith

module _ (p : Paging) {hhdm : ℕ} (source : FrameSource hhdm) where
  -- The walk for an address from a table of a level: what it makes of the entry of the page, or `gone`.
  unfoldable pub walk :
      {A : Type 0}
      → (at_page : (level e : ℕ) → A) (gone : A) → Mem p source
      → (level table vaddr : ℕ) → A
  walk at_page gone m zero t v = gone
  walk at_page gone m (suc l) t v =
      let e = entry p source m t v (suc l) in
      let deeper = walk at_page gone m l (p.pte_phys_addr e page_bytes) v in
      if not (p.pte_is_present e)
      then gone
      else (if stops p (suc l) e then at_page (suc l) e else deeper)

  -- The address that the walk gives.
  abbrev pub lookup : Mem p source → (level table vaddr : ℕ) → Option ℕ
  lookup m level t v = walk (λ l e. some (in_page p source e (span l) v)) none m level t v

  -- Whether the walk ends in a huge page.
  abbrev pub huge_at : Mem p source → (level table vaddr : ℕ) → Bool
  huge_at m level t v = walk (λ l e. not (l == 1)) false m level t v

  -- `translate` is the walk from the root.
  pub translate-lookup :
      (m : Mem p source) (v : ℕ) → translate p source m v ≡ lookup m 4 (pml4_phys p source m) v
  unfolding translate walk
  translate-lookup m v = refl

  pub entry-set_entry :
      (m : Mem p source) (t v l e t' v' l' : ℕ)
      → entry p source (set_entry p source m t v l e) t' v' l' ≡ (
          if t' == t && p.vaddr_pt_index v' l' == p.vaddr_pt_index v l
          then e
          else entry p source m t' v' l')
  unfolding entry set_entry read write
  entry-set_entry m t v l e t' v' l' = elim (Bool-cases (t' == t)) [
    | inl same ↦
        let here = ap (λ n. m.tables n (p.vaddr_pt_index v' l')) (==→eq t' t same) in
        rw same (ground (arith, here))
    | inr other ↦ rw other refl
  ]

  -- The table at an address that the allocator gave, zeroed, with the allocator's state after it.
  abbrev pub with_table : Mem p source → (table : ℕ) → source.State → Mem p source
  with_table m table rest = record m {
    frames = rest;
    tables = update m.tables table (zeroed (m.tables table));
  }

  pub entry-with_table :
      (m : Mem p source) (c : ℕ) (rest : source.State) (t v l : ℕ)
      → entry p source (with_table m c rest) t v l ≡ (if t == c then 0 else entry p source m t v l)
  unfolding entry read zeroed
  entry-with_table m c rest t v l = ground arith

  -- The entry for an address points to the table `c`.
  pub record Points (m : Mem p source) (level t v c : ℕ) : Type 0 where
    pub present : p.pte_is_present (entry p source m t v level) ≡ true
    pub goes : stops p level (entry p source m t v level) ≡ false
    pub address : p.pte_phys_addr (entry p source m t v level) page_bytes ≡ c

  module _ {A : Type 0} (at_page : (level e : ℕ) → A) (gone : A) (m : Mem p source)
      (l t v : ℕ) where
    pub walk-Points :
        (c : ℕ)
        → Points m (suc l) t v c
        → walk at_page gone m (suc l) t v ≡ walk at_page gone m l c v
    unfolding walk
    walk-Points c points = rw (points.present, points.goes, points.address) refl

    pub walk-absent :
        p.pte_is_present (entry p source m t v (suc l)) ≡ false
        → walk at_page gone m (suc l) t v ≡ gone
    unfolding walk
    walk-absent absent = rw absent refl

  -- A walk that ends in no huge page goes on at a present entry.
  pub huge_at-step :
      (m : Mem p source) (l t v : ℕ)
      → 1 ≤ l
      → huge_at m (suc l) t v ≡ false
      → p.pte_is_present (entry p source m t v (suc l)) ≡ true
      → (stops p (suc l) (entry p source m t v (suc l)) ≡ false)
        × (huge_at m l (p.pte_phys_addr (entry p source m t v (suc l)) page_bytes) v ≡ false)
  unfolding walk
  huge_at-step m l t v lo clear present =
      elim (Bool-cases (stops p (suc l) (entry p source m t v (suc l)))) [
        | inl stop ↦
            let positive = ne→== (suc l) 1 (λ e. omega arith) in
            let huge : huge_at m (suc l) t v ≡ true = rw (walk, present, stop, positive) refl in
            absurd (true-ne-false (sym huge ∙ clear))
        | inr go ↦
            let deeper : huge_at m (suc l) t v
                ≡ huge_at m l (p.pte_phys_addr (entry p source m t v (suc l)) page_bytes) v =
              rw (walk, present, go) refl in
            (go, sym deeper ∙ clear)
      ]
