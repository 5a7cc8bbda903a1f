-- ===== src/Paging/Expect.antt =====
-- The descent of mantle/src/pml4.rs is the one of walker.rs, with a panic in place of an error.
use my_kernel.Prelude.{ℕ, ◌≡◌, refl, sym, ap, ◌∙◌, inl, inr, Bool-cases, Option, none, some, bit_or}
use my_kernel.Prelude.Panic.{Outcome, panic, ◌>>=◌}
use my_kernel.Prelude.Panic
use my_kernel.Paging.{Paging, page_bytes}
use my_kernel.Paging.Frames.{FrameSource}
use my_kernel.Paging.Walker.{
  Mem, M, entry, set_entry, Result, ok, err, create, alloc_table_frame, table_frame, table_flags,
}
use my_kernel.Paging.Walker
use my_kernel.Paging.Pml4.{
  descend_or_create, descend_two, descend_three, alloc_zero_frame, expected_frame,
}

module _ (p : Paging) {hhdm : ℕ} (source : FrameSource hhdm) where
  -- `.expect()` on a result.
  abbrev pub expect : {A : Type 0} → Result A × Mem p source → Outcome (A × Mem p source)
  expect r = elim r.0 [ ok a ↦ Panic.ok (a, r.1) | err e ↦ panic ]

  pub expect-bind :
      {A B : Type 0} (r : Result A × Mem p source) (f : A → M p source B) (m : Mem p source)
      → expect (Walker.◌>>=◌ p source (λ _. r) f m) ≡ (expect r >>= λ a. expect (f a.0 a.1))
  expect-bind (ok a, m') f m = refl
  expect-bind (err e, m') f m = refl

  pub expect-descend :
      (t v l : ℕ) (m : Mem p source)
      → descend_or_create p source t v l m ≡ expect (Walker.descend_or_create p source t v l m)
  unfolding descend_or_create Walker.descend_or_create alloc_zero_frame alloc_table_frame create
      table_flags
  expect-descend t v l m = elim (Bool-cases (p.pte_is_present (entry p source m t v l))) [
    | inl present ↦ rw present refl
    | inr absent ↦ rw absent (framed ((source.alloc m.frames).0))
  ]
    where
      framed :
          (frame : Option ℕ)
          → (expected_frame p source frame ((source.alloc m.frames).1) m >>= λ r. Panic.ok (
            r.0,
            set_entry p source r.1 t v l
                (p.pte_encode r.0 page_bytes (bit_or p.present p.writable)),
          ))
            ≡ expect (
                Walker.◌>>=◌ p source
                  (λ m₁. table_frame p source frame ((source.alloc m.frames).1) m₁)
                  (λ c m₁. (
                    ok c,
                    set_entry p source m₁ t v l
                        (p.pte_encode c page_bytes (bit_or p.present p.writable)),
                  ))
                  m)
      framed none = refl
      framed (some virt) = refl

  pub expect-two :
      (top v : ℕ) (m : Mem p source)
      → descend_two p source top v m
        ≡ expect (
            Walker.◌>>=◌ p source
              (Walker.descend_or_create p source top v 4)
              (λ pdpt. Walker.descend_or_create p source pdpt v 3)
              m)
  unfolding descend_two
  expect-two top v m =
      ap (λ r. r >>= λ a. descend_or_create p source a.0 v 3 a.1) (expect-descend top v 4 m)
      ∙ ap
          (λ (f : ℕ → Mem p source → Outcome (ℕ × Mem p source)).
            expect (Walker.descend_or_create p source top v 4 m) >>= λ a. f a.0 a.1)
          (λ i c m'. expect-descend c v 3 m' i)
      ∙ sym (
          expect-bind (Walker.descend_or_create p source top v 4 m)
            (λ pdpt. Walker.descend_or_create p source pdpt v 3) m)

  pub expect-three :
      (top v : ℕ) (m : Mem p source)
      → descend_three p source top v m
        ≡ expect (
            Walker.◌>>=◌ p source
              (Walker.descend_or_create p source top v 4)
              (λ pdpt.
                Walker.◌>>=◌ p source
                  (Walker.descend_or_create p source pdpt v 3)
                  (λ pd. Walker.descend_or_create p source pd v 2))
              m)
  unfolding descend_three
  expect-three top v m =
      ap
        (λ r. r >>= λ a.
          descend_or_create p source a.0 v 3 a.1 >>= λ b. descend_or_create p source b.0 v 2 b.1)
        (expect-descend top v 4 m)
      ∙ ap
          (λ (f : ℕ → Mem p source → Outcome (ℕ × Mem p source)).
            expect (Walker.descend_or_create p source top v 4 m) >>= λ a. f a.0 a.1)
          (λ i c m'. below c m' i)
      ∙ sym (
          expect-bind (Walker.descend_or_create p source top v 4 m)
            (λ pdpt.
              Walker.◌>>=◌ p source (Walker.descend_or_create p source pdpt v 3)
                (λ pd. Walker.descend_or_create p source pd v 2))
            m)
    where
      below :
          (c : ℕ) (m' : Mem p source)
          → (descend_or_create p source c v 3 m' >>= λ b. descend_or_create p source b.0 v 2 b.1)
            ≡ expect (
                Walker.◌>>=◌ p source
                  (Walker.descend_or_create p source c v 3)
                  (λ pd. Walker.descend_or_create p source pd v 2)
                  m')
      below c m' =
          ap (λ r. r >>= λ b. descend_or_create p source b.0 v 2 b.1) (expect-descend c v 3 m')
          ∙ ap
              (λ (f : ℕ → Mem p source → Outcome (ℕ × Mem p source)).
                expect (Walker.descend_or_create p source c v 3 m') >>= λ b. f b.0 b.1)
              (λ i d m''. expect-descend d v 2 m'' i)
          ∙ sym (
              expect-bind (Walker.descend_or_create p source c v 3 m')
                (λ pd. Walker.descend_or_create p source pd v 2) m')
