-- ===== src/Tlsf/Dealloc.antt =====
-- `dealloc` of abalone/src/tlsf.rs as a whole: the two merges and the listing of the block.
use my_kernel.Prelude.{
  ℕ, ◌+◌, ◌^◌, ◌≤◌, ◌<◌, ◌≡◌, ◌≢◌, ◌⊎◌, inl, inr, refl, sym, ap, ◌∙◌, arith, true, Bool-cases, ◌∷◌,
  ltb,
}
use my_kernel.Prelude.Panic.{ok}
use my_kernel.Word.{sub64}
use my_kernel.Links.Chain.{occ}
use my_kernel.Tlsf.{
  Tlsf, header_size, is_free, prev_free, set_prev_free, block_size, next_phys, write_size,
}
use my_kernel.Tlsf.Global.{merge_prev, merge_next, give_back, dealloc}
use my_kernel.Tlsf.Mapping.{InClass, class_of, class_lt, class_fl, class_sl}
use my_kernel.Tlsf.Inv.{Lists, put, InLists, IsValid, IsValid-frame}
use my_kernel.Tlsf.Insert.{
  inserted, insert_free-ok, inserted-IsValid, inserted-InLists, inserted-here, inserted-keeps,
  inserted_size,
}
use my_kernel.Tlsf.Merge.{Loose, joined, removes, joined_header}
use my_kernel.Tlsf.Take.{told_header}
use my_kernel.Tlsf.Join.{
  Merged, Within, unmerged, front, Merged-front, back, Merged-back, then-Merged,
}

-- A block in use that `dealloc` may be called on: its pool is at most 1 GiB, its header says truly which neighbours
-- are free, and where the one in front begins.
pub record Returnable (t : Tlsf) (F : Lists) (start block : ℕ) : Type 0 where
  pub loose : Loose t F start block
  pub inside : (x : ℕ) → InLists F x → (start ≤ x) × (next_phys t x ≤ start + 2 ^ 30)
  pub addresses : start + 2 ^ 30 ≤ 2 ^ 64
  pub before :
      prev_free (t.sizes block) ≡ true
      → InLists F (t.prev_phys block) × (next_phys t (t.prev_phys block) ≡ block)
  pub behind : is_free (t.sizes (next_phys t block)) ≡ true → InLists F (next_phys t block)

-- What `dealloc` leaves: the block is part of a listed one, and the other free blocks are as before but for those that
-- this one has swallowed.
pub record Returned (t : Tlsf) (F : Lists) (block : ℕ) (t' : Tlsf) : Type 0 where
  pub merged : ℕ
  pub lists : Lists
  pub valid : IsValid t' lists
  pub listed : InLists lists merged
  pub from : merged ≤ block
  pub to : next_phys t block ≤ next_phys t' merged
  pub kept :
      (x : ℕ) → InLists lists x → (x ≡ merged) ⊎ (InLists F x × (block_size t' x ≡ block_size t x))
  pub none_lost : (x : ℕ) → InLists F x → InLists lists x ⊎ Within t merged (next_phys t' merged) x

module _ {t : Tlsf} {F : Lists} (v : IsValid t F) (start block : ℕ)
    (r : Returnable t F start block) where
  -- The address behind the block.
  abbrev stop : ℕ
  stop = next_phys t block

  -- After the first merge the block behind is as it was.
  record First (m : ℕ) (t₁ : Tlsf) : Type 0 where
    done : merge_prev t block ≡ ok (m, t₁)
    merge : Merged t F start block t₁ m (next_phys t block)
    mark : is_free (t₁.sizes (next_phys t block)) ≡ is_free (t.sizes (next_phys t block))

  -- The block behind is not swallowed by the first merge.
  behind_stays :
      {m : ℕ} {t₁ : Tlsf} (a : Merged t F start block t₁ m (next_phys t block))
      → InLists F (next_phys t block)
      → InLists a.lists (next_phys t block)
  behind_stays a l = elim (a.none_lost (next_phys t block) l) [
    | inl there ↦ there
    | inr (lo, hi) ↦ absurd (omega (arith, hi))
  ]

  First-merge : (m : ℕ) × (t₁ : Tlsf) × First m t₁
  unfolding merge_prev
  First-merge = elim (Bool-cases (prev_free (t.sizes block))) [
    | inl free ↦
        let p : ℕ = t.prev_phys block in
        let (l, meets) = r.before free in
        let n = front v start r.inside block p r.loose l meets in
        let away : stop ≢ p = λ e. omega (arith, e, meets) in
        (
          p,
          joined v n,
          record {
            done = rw (free, removes v n) refl;
            merge = Merged-front v start r.inside block p r.loose l meets;
            mark = ap is_free (joined_header v n stop away away);
          },
        )
    | inr used ↦ (block, t, record { done = rw used refl; merge = unmerged v r.loose; mark = refl })
  ]

  -- After the second merge both neighbours are part of the merged block where they were free.
  record Second (m : ℕ) (t₁ t₂ : Tlsf) (end : ℕ) : Type 0 where
    done : merge_next m t₁ ≡ ok t₂
    merge : Merged t F start block t₂ m end
    le : next_phys t block ≤ end

  Second-merge : (m : ℕ) (t₁ : Tlsf) → First m t₁ → (t₂ : Tlsf) × (end : ℕ) × Second m t₁ t₂ end
  unfolding merge_next
  Second-merge m t₁ f =
      let a = f.merge in
      elim (Bool-cases (is_free (t₁.sizes (next_phys t₁ m)))) [
        | inl free ↦
            let was_free : is_free (t.sizes stop) ≡ true =
              sym f.mark ∙ ap (λ x. is_free (t₁.sizes x)) (sym a.to) ∙ free in
            let l : InLists a.lists (next_phys t₁ m) =
              rw a.to (behind_stays a (r.behind was_free)) in
            let inside' : (x : ℕ)
                → InLists a.lists x
                → (start ≤ x) × (next_phys t₁ x ≤ start + 2 ^ 30) =
              λ x lx.
                let (old, same) = a.kept x lx in
                let (lo, hi) = r.inside x old in (lo, omega (arith, hi, same)) in
            let n = back a.valid start inside' m (next_phys t₁ m) a.loose l refl in
            (
              joined a.valid n,
              next_phys t₁ (next_phys t₁ m),
              record {
                done = rw (free, removes a.valid n) refl;
                merge =
                    then-Merged a
                      (Merged-back a.valid start inside' m (next_phys t₁ m) a.loose l refl)
                      (omega (arith, a.to));
                le = omega (arith, a.to);
              },
            )
        | inr used ↦ (t₁, stop, record { done = rw used refl; merge = a; le = omega arith })
      ]

  -- The last step lists the merged block.
  module _ (m : ℕ) (t₂ : Tlsf) (end : ℕ) (a : Merged t F start block t₂ m end)
      (le : next_phys t block ≤ end) where
    abbrev size : ℕ
    size = block_size t₂ m

    below : size < 2 ^ 30
    below = omega (arith, a.loose.hi, a.loose.lo)

    class : InClass size (class_fl size) (class_sl size)
    class = class_of size a.loose.large (omega (arith, below))

    small : class_fl size < 30
    small = class_lt size a.loose.large below

    out : (fl sl : ℕ) → fl < 30 → sl < 32 → occ m (a.lists fl sl) ≡ 0
    out fl sl p q = elim (Bool-cases (ltb 0 (occ m (a.lists fl sl)))) [
      | inl there ↦
          let l : InLists a.lists m = record {
            fl = fl;
            sl = sl;
            fl_lt = p;
            sl_lt = q;
            here = ground (arith, there);
          } in
          absurd (a.loose.own m l refl)
      | inr none ↦ ground (arith, none)
    ]

    abbrev t₃ : Tlsf
    t₃ = inserted t₂ m (class_fl size) (class_sl size)

    abbrev t₄ : Tlsf
    t₄ = write_size t₃ (next_phys t₃ m) (set_prev_free (t₃.sizes (next_phys t₃ m)) true)

    gives : give_back m t₂ ≡ ok t₄
    unfolding give_back
    gives = rw (insert_free-ok t₂ m (class_fl size) (class_sl size) class.maps small) refl

    size' : (x : ℕ) → block_size t₄ x ≡ block_size t₂ x
    size' x =
        (told_header t₃ m true x).0
        ∙ inserted_size a.valid.listed m _ _ small class a.loose.nz out x

    back_in : Returned t F block t₄
    back_in = record {
      merged = m;
      lists =
          put a.lists (class_fl size) (class_sl size) (m ∷ a.lists (class_fl size) (class_sl size));
      valid =
          IsValid-frame _ t₃.prev_phys (λ x l. told_header t₃ m true x)
            (inserted-IsValid a.valid.listed m _ _ small class a.loose.nz out
              (λ x y lx ly ne. a.valid.apart x y lx ly ne) a.loose.around);
      listed = inserted-here a.valid.listed m _ _ small class a.loose.nz out;
      from = a.from;
      to = omega (arith, size' m, a.to, le);
      kept = λ x l. elim (inserted-InLists a.valid.listed m _ _ small class a.loose.nz out x l) [
        | inl e ↦ inl e
        | inr (ne, old) ↦ let (oldest, same) = a.kept x old in inr (oldest, size' x ∙ same)
      ];
      none_lost = λ x l. elim (a.none_lost x l) [
        | inl there ↦ inl (inserted-keeps a.valid.listed m _ _ small class a.loose.nz out x there)
        | inr (lo, hi) ↦ inr (lo, omega (arith, hi, a.to, size' m))
      ];
    }

-- On valid free lists and a block in use whose header tells its neighbours truly, `dealloc` of its payload does not
-- panic. The free lists stay valid, the block is part of a listed one, and each other free block is kept as it was or
-- lies within that one.
pub dealloc-Returned :
    (t : Tlsf) (F : Lists) (start block : ℕ)
    → IsValid t F
    → Returnable t F start block
    → (t' : Tlsf) × (dealloc t (block + header_size) ≡ ok t') × Returned t F block t'
unfolding dealloc
dealloc-Returned t F start block v r =
    let (m, t₁, f) = First-merge v start block r in
    let (t₂, end, s) = Second-merge v start block r m t₁ f in
    let header : sub64 (block + header_size) header_size ≡ block =
      omega (arith, r.addresses, r.loose.hi) in
    (
      t₄ v start block r m t₂ end s.merge s.le,
      rw (header, f.done, s.done) (gives v start block r m t₂ end s.merge s.le),
      back_in v start block r m t₂ end s.merge s.le,
    )
