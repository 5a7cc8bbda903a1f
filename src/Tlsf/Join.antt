-- ===== src/Tlsf/Join.antt =====
-- The two merges of `dealloc` of abalone/src/tlsf.rs, each alone and one after the other.
use my_kernel.Prelude.{
  ℕ, ◌+◌, ◌^◌, ◌≤◌, ◌≡◌, ◌≢◌, ◌⊎◌, inl, inr, refl, ◌∙◌, arith, ◌==◌, Bool-cases, ==→eq, ==→ne,
}
use my_kernel.Links.Chain.{listed-ne-null}
use my_kernel.Tlsf.{Tlsf, block_size, next_phys}
use my_kernel.Tlsf.Mapping.{class_large}
use my_kernel.Tlsf.Inv.{Lists, IsListed, InLists, IsValid}
use my_kernel.Tlsf.Merge.{
  Loose, Neighbours, F₁, joined, joined_end, joined-listed, joined-IsValid, joined-Loose,
  joined-keeps,
}

pub listed_nonzero : {t : Tlsf} {F : Lists} → IsListed t F → (x : ℕ) → InLists F x → x ≢ 0
listed_nonzero {t = t} {F = F} v x l =
    listed-ne-null t.links 0 (t.free_lists l.fl l.sl) (F l.fl l.sl) x
      (v.chains l.fl l.sl l.fl_lt l.sl_lt) l.here

pub listed_large :
    {t : Tlsf} {F : Lists} → IsListed t F → (x : ℕ) → InLists F x → 32 ≤ block_size t x
listed_large v x l = class_large ((v.classes l.fl l.sl x l.fl_lt l.sl_lt l.here).0)

-- A free block is swallowed by a merged one.
abbrev pub Within : Tlsf → (merged stop x : ℕ) → Type 0
Within t merged stop x = (merged ≤ x) × (next_phys t x ≤ stop)

-- The allocator `after` has `merged` in place of `block`, up to the address `stop`, and free blocks `lists`: those of
-- `F` but for swallowed ones.
pub record Merged (t : Tlsf) (F : Lists) (start block : ℕ) (after : Tlsf) (merged stop : ℕ)
    : Type 0 where
  pub lists : Lists
  pub valid : IsValid after lists
  pub loose : Loose after lists start merged
  pub from : merged ≤ block
  pub to : next_phys after merged ≡ stop
  pub kept : (x : ℕ) → InLists lists x → InLists F x × (block_size after x ≡ block_size t x)
  pub none_lost : (x : ℕ) → InLists F x → InLists lists x ⊎ Within t merged stop x

pub unmerged :
    {t : Tlsf} {F : Lists} {start block : ℕ}
    → IsValid t F
    → Loose t F start block
    → Merged t F start block t block (next_phys t block)
unmerged {F = F} v loose = record {
  lists = F;
  valid = v;
  loose = loose;
  from = omega arith;
  to = refl;
  kept = λ x l. (l, refl);
  none_lost = λ x l. inl l;
}

module _ {t : Tlsf} {F : Lists} (v : IsValid t F) (start : ℕ)
    (inside : (x : ℕ) → InLists F x → (start ≤ x) × (next_phys t x ≤ start + 2 ^ 30)) (block p : ℕ)
    (loose : Loose t F start block) (l : InLists F p) where
  -- A free block that ends where `block` begins.
  abbrev pub front : next_phys t p ≡ block → Neighbours t F start p p block
  front meets = record {
    listed = l;
    beside = meets;
    nz = listed_nonzero v.listed p l;
    large = listed_large v.listed p l;
    lo = (inside p l).0;
    hi = loose.hi;
    around = λ x lx ne. (ne, v.apart x p lx l ne, loose.around x lx);
  }

  pub Merged-front :
      (meets : next_phys t p ≡ block)
      → Merged t F start block (joined v (front meets)) p (next_phys t block)
  Merged-front meets =
      let n = front meets in
      record {
        lists = F₁ v n;
        valid = joined-IsValid v n;
        loose = joined-Loose v n;
        from = omega (arith, meets);
        to = joined_end v n;
        kept = λ x lx. let (ne, old, same) = joined-listed v n x lx in (old, same);
        none_lost = λ x lx. elim (Bool-cases (x == p)) [
          | inl same ↦ inr (rw (==→eq x p same) (omega arith, omega (arith, meets)))
          | inr other ↦ inl (joined-keeps v n x (==→ne x p other) lx)
        ];
      }

  -- A free block that begins where `block` ends.
  abbrev pub back : next_phys t block ≡ p → Neighbours t F start p block p
  back meets = record {
    listed = l;
    beside = meets;
    nz = loose.nz;
    large = loose.large;
    lo = loose.lo;
    hi = (inside p l).1;
    around = λ x lx ne. (loose.own x lx, loose.around x lx, v.apart x p lx l ne);
  }

  pub Merged-back :
      (meets : next_phys t block ≡ p)
      → Merged t F start block (joined v (back meets)) block (next_phys t p)
  Merged-back meets =
      let n = back meets in
      record {
        lists = F₁ v n;
        valid = joined-IsValid v n;
        loose = joined-Loose v n;
        from = omega arith;
        to = joined_end v n;
        kept = λ x lx. let (ne, old, same) = joined-listed v n x lx in (old, same);
        none_lost = λ x lx. elim (Bool-cases (x == p)) [
          | inl same ↦ inr (rw (==→eq x p same) (omega (arith, meets), omega arith))
          | inr other ↦ inl (joined-keeps v n x (==→ne x p other) lx)
        ];
      }

-- One merge after the other.
pub then-Merged :
    {t : Tlsf} {F : Lists} {start block : ℕ} {t₁ : Tlsf} {m : ℕ} {t₂ : Tlsf} {stop : ℕ}
    (a : Merged t F start block t₁ m (next_phys t block))
    → Merged t₁ a.lists start m t₂ m stop
    → next_phys t block ≤ stop
    → Merged t F start block t₂ m stop
then-Merged a b le = record {
  lists = b.lists;
  valid = b.valid;
  loose = b.loose;
  from = a.from;
  to = b.to;
  kept = λ x lx.
      let (mid, same₂) = b.kept x lx in let (old, same₁) = a.kept x mid in (old, same₂ ∙ same₁);
  none_lost = λ x lx. elim (a.none_lost x lx) [
    | inr (lo, hi) ↦ inr (lo, omega (arith, hi, le))
    | inl mid ↦ elim (b.none_lost x mid) [
      | inl last ↦ inl last
      | inr (lo, hi) ↦ inr (lo, omega (arith, hi, (a.kept x mid).1))
    ]
  ];
}
