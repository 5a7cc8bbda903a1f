-- ===== src/Paging/Descend.antt =====
-- The way from the root to the last table in `map` of mantle/src/walker.rs.
use my_kernel.Prelude.{
  ℕ, suc, ◌≤◌, ◌<◌, ◌≡◌, inl, inr, refl, ap, false, Bool-cases, Option, Option-cases, none, some,
}
use my_kernel.Word.{sub64}
use my_kernel.Paging.{Paging, IsX86, page_bytes}
use my_kernel.Paging.Frames.{FrameSource}
use my_kernel.Paging.Walker.{
  Mem, entry, set_entry, pml4_phys, Result, ok, err, out_of_frames, create, descend_or_create,
  alloc_table_frame, table_frame, table_flags, >>=-ok, >>=-err,
}
use my_kernel.Paging.Lookup.{huge_at, with_table, huge_at-step}
use my_kernel.Paging.Tree.{
  Tags, IsAt, IsTree, Grown, Descends, reached, no_frame, Grown-refl, walk_frame,
}
use my_kernel.Paging.Create.{created, pointer}

module _ (p : Paging) (x : IsX86 p) {hhdm : ℕ} (source : FrameSource hhdm) (top : ℕ) where
  -- An allocation that fails changes no table.
  unchanged :
      (g : Tags) (m : Mem p source) (rest : source.State) (r : Option ℕ)
      → IsTree p source top g m
      → source.alloc m.frames ≡ (r, rest)
      → Grown p source top g g m (record m { frames = rest })
  unfolding entry pml4_phys
  unchanged g m rest r tree given =
      let m' : Mem p source = record m { frames = rest } in
      record {
        tree = record {
          root = tree.root;
          child = tree.child;
          fresh = λ u free. tree.fresh u (source.alloc_kept m.frames rest r given u free);
        };
        grows = λ l t v at. at;
        kept = λ l t v at present. refl;
        same = λ at_page gone v.
            walk_frame p source top at_page gone g m m' v tree (λ l t at. inl refl) 4 top
              (tree.root v);
        cr3 = refl;
        invalidated = refl;
      }

  module _ (g : Tags) (m : Mem p source) (tree : IsTree p source top g m) (l t v : ℕ) (lo : 1 ≤ l)
      (hi : l < 4) (at : IsAt g (suc l) t v) where
    -- The write of the new table's entry.
    abbrev written : ℕ → Mem p source → Result ℕ × Mem p source
    written c m' =
        (ok c, set_entry p source m' t v (suc l) (p.pte_encode c page_bytes (table_flags p source)))

    create-none :
        (source.alloc m.frames).0 ≡ none
        → create p source t v (suc l) m
          ≡ (err out_of_frames, record m { frames = (source.alloc m.frames).1 })
    unfolding create alloc_table_frame
    create-none gone =
        let rest = (source.alloc m.frames).1 in
        >>=-err p source (alloc_table_frame p source) written m _ out_of_frames
          (ap (λ f. table_frame p source f rest m) gone)

    create-some :
        (virt : ℕ)
        → (source.alloc m.frames).0 ≡ some virt
        → create p source t v (suc l) m ≡ (
          ok (sub64 virt hhdm),
          set_entry p source
              (with_table p source m (sub64 virt hhdm) ((source.alloc m.frames).1))
              t
              v
              (suc l)
              (pointer p x source (sub64 virt hhdm)),
        )
    unfolding create alloc_table_frame
    create-some virt got =
        let rest = (source.alloc m.frames).1 in
        >>=-ok p source (alloc_table_frame p source) written m _ _
          (ap (λ f. table_frame p source f rest m) got)

    create-Descends :
        p.pte_is_present (entry p source m t v (suc l)) ≡ false
        → Descends p source top g m l t v (create p source t v (suc l) m)
    create-Descends absent = elim (Option-cases ((source.alloc m.frames).0)) [
      | inl gone ↦
          let given = ap (λ r. (r, (source.alloc m.frames).1)) gone in
          rw (create-none gone)
            (no_frame _ (unchanged g m ((source.alloc m.frames).1) none tree given) given)
      | inr (virt, got) ↦
          let given = ap (λ r. (r, (source.alloc m.frames).1)) got in
          rw (create-some virt got) (
            reached _ _ (
              created p x source top g m tree l t v lo hi at absent virt ((source.alloc m.frames).1)
                given))
    ]

    -- Descending a level from the table of an address whose walk ends in no huge page reaches the next table,
    -- created if it was missing, or fails for want of a frame; what is mapped stays the same.
    pub descend_or_create-Descends :
        huge_at p source m (suc l) t v ≡ false
        → Descends p source top g m l t v (descend_or_create p source t v (suc l) m)
    unfolding descend_or_create
    descend_or_create-Descends clear =
        elim (Bool-cases (p.pte_is_present (entry p source m t v (suc l)))) [
          | inr absent ↦ rw absent (create-Descends absent)
          | inl present ↦
              let (go, rest) = huge_at-step p source m l t v lo clear present in
              rw present (
                reached _ _ (record {
                  after = g;
                  grown = Grown-refl p source top g m tree;
                  called = inl refl;
                  at_child = tree.child l t v at present go;
                  points = record { present = present; goes = go; address = refl };
                  clear = rest;
                }))
        ]
