-- ===== src/Tlsf/Pool.antt =====
-- `new` and `add_pool` of abalone/src/tlsf.rs.
use my_kernel.Prelude.{
  ℕ, ◌+◌, ◌-◌, ◌^◌, ◌%◌, ◌<◌, ◌≡◌, ◌≢◌, inl, inr, refl, ap, ◌∙◌, arith, [], ◌∷◌, false, Bool-cases,
  eq→==, ne→==, ltb, lt→ltb, update,
}
use my_kernel.Prelude.Panic.{ok}
use my_kernel.Bits.{bit_at-zero}
use my_kernel.Links.{Links}
use my_kernel.Links.Chain.{occ, Chain-frame}
use my_kernel.Tlsf.{
  Tlsf, new, header_size, size_bits, is_free, set_prev_free, block_size, next_phys, fl_index_count,
  sl_count,
}
use my_kernel.Tlsf.Global.{add_pool, write_header}
use my_kernel.Tlsf.Header.{is_free_lem, size_bits_lem, size_bits-set_prev_free}
use my_kernel.Tlsf.Mapping.{InClass, class_of, class_lt, class_fl, class_sl}
use my_kernel.Tlsf.Inv.{
  Lists, put, put-same, put-Other, class-cases, InLists, IsValid, IsValid-frame, Apart,
}
use my_kernel.Tlsf.Insert.{inserted, insert_free-ok, inserted-IsValid, inserted-here, inserted_size}

abbrev pub no_blocks : Lists
no_blocks fl sl = []

pub new-IsValid :
    (sizes prev_phys : ℕ → ℕ) (links : Links) → IsValid (new sizes prev_phys links) no_blocks
unfolding new
new-IsValid sizes prev_phys links = record {
  listed = record {
    chains = λ fl sl p q. refl;
    bitmaps = record {
      second = λ fl sl p q. bit_at-zero sl;
      narrow = λ fl p j high. bit_at-zero j;
      first = λ fl p. bit_at-zero fl;
      top = λ fl high. bit_at-zero fl;
    };
    classes = λ fl sl x p q h. absurd (omega (arith, h));
    once = λ fl sl x p q. omega arith;
  };
  apart = λ x y lx ly ne. absurd (omega (arith, lx.here));
}

-- The headers of the pool are written.
abbrev pub with_headers : Tlsf → (mem size : ℕ) → Tlsf
with_headers t mem size =
    let t₁ = write_header (write_header t (mem + (size - 32)) 0) mem (size - 64) in
    record t₁ {
      sizes = update t₁.sizes mem (set_prev_free (t₁.sizes mem) false);
      prev_phys = update t₁.prev_phys (mem + (size - 32)) mem;
    }

abbrev pub with_pool : Tlsf → (mem size : ℕ) → Tlsf
with_pool t mem size =
    inserted (with_headers t mem size) mem (class_fl (size - 64)) (class_sl (size - 64))

abbrev pub pool_lists : Lists → (mem size : ℕ) → Lists
pool_lists F mem size =
    put F (class_fl (size - 64)) (class_sl (size - 64))
      (mem ∷ F (class_fl (size - 64)) (class_sl (size - 64)))

-- What `add_pool` leaves: the pool but for two headers is one free block, and the header at its end is in use.
pub record Pooled (t : Tlsf) (F : Lists) (mem size : ℕ) (t' : Tlsf) : Type 0 where
  pub valid : IsValid t' (pool_lists F mem size)
  pub listed : InLists (pool_lists F mem size) mem
  pub payload : block_size t' mem ≡ size - 64
  pub sentinel_used : is_free (t'.sizes (next_phys t' mem)) ≡ false
  pub sentinel_prev : t'.prev_phys (next_phys t' mem) ≡ mem

module _ {t : Tlsf} {F : Lists} (v : IsValid t F) (mem size : ℕ) (nz : mem ≢ 0) (large : 96 < size)
    (fits : size - 64 < 2 ^ 30) (words : size % 4 ≡ 0)
    (around : (x : ℕ) → InLists F x → Apart x (block_size t x) mem (size - header_size)) where
  abbrev sentinel : ℕ
  sentinel = mem + (size - 32)

  abbrev t₂ : Tlsf
  t₂ = with_headers t mem size

  away : (x : ℕ) → InLists F x → (x ≢ mem) × (x ≢ sentinel)
  away x l = (
    λ e. elim (around x l) [ inl le ↦ omega (arith, e, le) | inr le ↦ omega (arith, e, le) ],
    λ e. elim (around x l) [ inl le ↦ omega (arith, e, le) | inr le ↦ omega (arith, e, le) ],
  )

  same : (x : ℕ) → InLists F x → t₂.sizes x ≡ t.sizes x
  same x l = rw (ne→== x mem ((away x l).0), ne→== x sentinel ((away x l).1)) refl

  same_links :
      (x : ℕ)
      → InLists F x
      → (t₂.links.prev x ≡ t.links.prev x) × (t₂.links.next x ≡ t.links.next x)
  same_links x l = rw (ne→== x mem ((away x l).0), ne→== x sentinel ((away x l).1)) (refl, refl)

  written : IsValid (record t { links = t₂.links }) F
  written = record {
    listed = record {
      chains = λ fl sl p q.
          Chain-frame t.links t₂.links 0 (t.free_lists fl sl) (F fl sl)
            (λ x h. same_links x (record { fl = fl; sl = sl; fl_lt = p; sl_lt = q; here = h }))
            (v.listed.chains fl sl p q);
      bitmaps = v.listed.bitmaps;
      classes = v.listed.classes;
      once = v.listed.once;
    };
    apart = v.apart;
  }

  v₂ : IsValid t₂ F
  v₂ =
      IsValid-frame t₂.sizes t₂.prev_phys (λ x l. (ap size_bits (same x l), ap is_free (same x l)))
        written

  payload₂ : block_size t₂ mem ≡ size - 64
  payload₂ =
      rw (eq→== mem mem refl)
        (size_bits-set_prev_free (size - 64) false ∙ omega (arith, size_bits_lem (size - 64)))

  class : InClass (size - 64) (class_fl (size - 64)) (class_sl (size - 64))
  class = class_of (size - 64) (omega arith) (omega arith)

  class₂ : InClass (block_size t₂ mem) (class_fl (size - 64)) (class_sl (size - 64))
  class₂ = rw payload₂ class

  small : class_fl (size - 64) < fl_index_count
  small = class_lt (size - 64) (omega arith) fits

  out : (fl sl : ℕ) → fl < fl_index_count → sl < sl_count → occ mem (F fl sl) ≡ 0
  out fl sl p q = elim (Bool-cases (ltb 0 (occ mem (F fl sl)))) [
    | inl there ↦
        let l : InLists F mem = record {
          fl = fl;
          sl = sl;
          fl_lt = p;
          sl_lt = q;
          here = ground (arith, there);
        } in
        absurd ((away mem l).0 refl)
    | inr none ↦ ground (arith, none)
  ]

  abbrev t₃ : Tlsf
  t₃ = with_pool t mem size

  payload₃ : block_size t₃ mem ≡ size - 64
  payload₃ = inserted_size v₂.listed mem _ _ small class₂ nz out mem ∙ payload₂

  end : next_phys t₃ mem ≡ sentinel
  end = omega (arith, payload₃)

  at_sentinel : is_free (t₃.sizes sentinel) ≡ false
  at_sentinel =
      rw (ne→== sentinel mem (λ e. omega (arith, e)), eq→== sentinel sentinel refl) (is_free_lem 0)

  pooled : Pooled t F mem size t₃
  pooled = record {
    valid =
        inserted-IsValid v₂.listed mem _ _ small class₂ nz out
          (λ x y lx ly ne. v₂.apart x y lx ly ne)
          (λ x l.
            rw (ap size_bits (same x l), payload₂)
              (elim (around x l) [ inl le ↦ inl le | inr le ↦ inr (omega (arith, le)) ]));
    listed = inserted-here v₂.listed mem _ _ small class₂ nz out;
    payload = payload₃;
    sentinel_used = ap (λ a. is_free (t₃.sizes a)) end ∙ at_sentinel;
    sentinel_prev = ap t₃.prev_phys end ∙ rw (eq→== sentinel sentinel refl) refl;
  }

  adds : add_pool t mem size ≡ ok t₃
  unfolding add_pool
  adds = rw (lt→ltb 96 size large, insert_free-ok t₂ mem _ _ class₂.maps small) refl

-- `add_pool` of a region that is not at 0, has more than 96 and at most 1 GiB and 63 bytes, in whole words, and overlaps no
-- free block, ends without a panic: the region becomes one free block of the valid lists, in front of a header in use
-- that points back.
pub add_pool-Pooled :
    (t : Tlsf) (F : Lists) (mem size : ℕ)
    → IsValid t F
    → mem ≢ 0
    → 96 < size
    → size - 64 < 2 ^ 30
    → size % 4 ≡ 0
    → ((x : ℕ) → InLists F x → Apart x (block_size t x) mem (size - header_size))
    → (add_pool t mem size ≡ ok (with_pool t mem size)) × Pooled t F mem size (with_pool t mem size)
add_pool-Pooled t F mem size v nz large fits words around =
    (adds v mem size nz large fits words around, pooled v mem size nz large fits words around)

-- The only block of the first pool.
pub only_block : (fl sl mem x : ℕ) → InLists (put no_blocks fl sl (mem ∷ [])) x → x ≡ mem
only_block fl sl mem x l = elim (class-cases fl sl l.fl l.sl) [
  | inl (e₁, e₂) ↦
      let e : put no_blocks fl sl (mem ∷ []) l.fl l.sl ≡ mem ∷ [] =
        rw (e₁, e₂) (put-same no_blocks fl sl (mem ∷ [])) in
      let h : 0 < occ x (mem ∷ []) = omega (arith, l.here, ap (occ x) e) in ground (arith, h)
  | inr other ↦
      absurd
        (omega (arith, l.here, ap (occ x) (put-Other no_blocks fl sl (mem ∷ []) l.fl l.sl other)))
]
