-- ===== src/Tlsf/Split.antt =====
-- Cutting a block in `alloc` of abalone/src/tlsf.rs: what is behind the size asked for becomes a free block.
use my_kernel.Prelude.{
  ℕ, ◌+◌, ◌-◌, ◌%◌, ◌^◌, ◌≤◌, ◌<◌, ◌≡◌, ◌≢◌, ◌⊎◌, inl, inr, refl, ap, ◌∙◌, arith, ◌∷◌, true, false,
  ◌==◌, Bool-cases, eq→==, ne→==, ltb, update,
}
use my_kernel.Prelude.Panic.{ok}
use my_kernel.Links.Chain.{occ}
use my_kernel.Tlsf.{
  Tlsf, fl_index_count, sl_count, header_size, size_bits, is_free, set_size, set_prev_free,
  block_size, next_phys, split, write_prev_phys,
}
use my_kernel.Tlsf.Header.{size_bits-set_size, size_bits-set_prev_free, is_free-set_size}
use my_kernel.Tlsf.Mapping.{InClass, class_of, class_fl, class_sl, class_lt}
use my_kernel.Tlsf.Inv.{Lists, put, InLists, IsValid, IsValid-frame, Apart}
use my_kernel.Tlsf.Insert.{
  inserted, insert_free-ok, inserted-IsValid, inserted-InLists, inserted_size, inserted-keeps,
  inserted-here,
}

-- What the cut leaves: the block has `size` bytes, the free blocks are those from before and the one behind it.
pub record Cut (t : Tlsf) (F : Lists) (block size remainder : ℕ) : Type 0 where
  pub after : Tlsf
  pub lists : Lists
  pub done : split t block size remainder ≡ ok after
  pub valid : IsValid after lists
  pub cut_size : block_size after block ≡ size
  pub mark : is_free (after.sizes block) ≡ is_free (t.sizes block)
  pub free :
      (x : ℕ)
      → InLists lists x
      → ((x ≡ block + header_size + size) × (block_size after x ≡ remainder - header_size))
        ⊎ (InLists F x × (block_size after x ≡ block_size t x))
  pub keeps : (x : ℕ) → InLists F x → InLists lists x × (block_size after x ≡ block_size t x)
  pub behind : InLists lists (block + header_size + size)

module _ {t : Tlsf} {F : Lists} (v : IsValid t F) (block size remainder : ℕ)
    (whole : block_size t block ≡ size + remainder) (fits : size + remainder < 2 ^ 30)
    (room : 64 ≤ remainder) (words : size % 4 ≡ 0) (words' : remainder % 4 ≡ 0)
    (around : (x : ℕ) → InLists F x → Apart x (block_size t x) block (block_size t block))
    (own : (x : ℕ) → InLists F x → x ≢ block) where
  abbrev next : ℕ
  next = block + 32 + size

  abbrev sizes₁ : ℕ → ℕ
  sizes₁ = update t.sizes block (set_size (t.sizes block) size)

  abbrev sizes₂ : ℕ → ℕ
  sizes₂ = update sizes₁ next (set_size (sizes₁ next) (remainder - 32))

  abbrev sizes₃ : ℕ → ℕ
  sizes₃ = update sizes₂ next (set_prev_free (sizes₂ next) false)

  -- The allocator before the new block is listed.
  abbrev t₁ : Tlsf
  t₁ = record t { sizes = sizes₃; prev_phys = update t.prev_phys next block }

  next_ne : (next == block) ≡ false
  next_ne = ne→== next block (λ e. omega (arith, e))

  next-eq : (next == next) ≡ true
  next-eq = eq→== next next refl

  block-eq : (block == block) ≡ true
  block-eq = eq→== block block refl

  cut_bits : size_bits (sizes₁ block) ≡ size
  cut_bits = rw block-eq (size_bits-set_size (t.sizes block) size words (omega arith))

  next_header : t₁.sizes next ≡ set_prev_free (set_size (t.sizes next) (remainder - 32)) false
  next_header = rw (next-eq, next_ne) refl

  next_bits : block_size t₁ next ≡ remainder - 32
  next_bits =
      ap size_bits next_header
      ∙ size_bits-set_prev_free (set_size (t.sizes next) (remainder - 32)) false
      ∙ size_bits-set_size (t.sizes next) (remainder - 32) (omega arith) (omega arith)

  block_header : t₁.sizes block ≡ set_size (t.sizes block) size
  block_header = rw (ne→== block next (λ e. omega (arith, e)), block-eq) refl

  -- The listed blocks' headers are elsewhere.
  away : (x : ℕ) → InLists F x → x ≢ next
  away x l e = elim (around x l) [
    | inl before ↦ omega (arith, before, e)
    | inr behind ↦ omega (arith, behind, e, whole, room)
  ]

  same : (x : ℕ) → InLists F x → t₁.sizes x ≡ t.sizes x
  same x l = rw (ne→== x next (away x l), ne→== x block (own x l)) refl

  v₁ : IsValid t₁ F
  v₁ =
      IsValid-frame sizes₃ (update t.prev_phys next block)
        (λ x l. (ap size_bits (same x l), ap is_free (same x l))) v

  class : InClass (remainder - 32) (class_fl (remainder - 32)) (class_sl (remainder - 32))
  class = class_of (remainder - 32) (omega arith) (omega arith)

  class_t₁ : InClass (block_size t₁ next) (class_fl (remainder - 32)) (class_sl (remainder - 32))
  class_t₁ = rw next_bits class

  class_small : class_fl (remainder - 32) < fl_index_count
  class_small = class_lt (remainder - 32) (omega arith) (omega arith)

  out : (fl' sl' : ℕ) → fl' < fl_index_count → sl' < sl_count → occ next (F fl' sl') ≡ 0
  out fl' sl' p q = elim (Bool-cases (ltb 0 (occ next (F fl' sl')))) [
    | inl there ↦
        let l : InLists F next = record {
          fl = fl';
          sl = sl';
          fl_lt = p;
          sl_lt = q;
          here = ground (arith, there);
        } in
        absurd (away next l refl)
    | inr none ↦ ground (arith, none)
  ]

  around_next : (x : ℕ) → InLists F x → Apart x (block_size t₁ x) next (block_size t₁ next)
  around_next x l =
      rw (ap size_bits (same x l), next_bits)
        (elim (around x l) [
          | inl before ↦ inl (omega arith)
          | inr behind ↦ inr (omega (arith, behind, whole, room))
        ])

  -- The allocator with the new block listed.
  abbrev t₂ : Tlsf
  t₂ = inserted t₁ next (class_fl (remainder - 32)) (class_sl (remainder - 32))

  abbrev F₂ : Lists
  F₂ =
      put F (class_fl (remainder - 32)) (class_sl (remainder - 32))
        (next ∷ F (class_fl (remainder - 32)) (class_sl (remainder - 32)))

  v₂ : IsValid t₂ F₂
  v₂ =
      inserted-IsValid v₁.listed next _ _ class_small class_t₁ (λ e. omega (arith, e)) out
        (λ x y lx ly ne. v₁.apart x y lx ly ne) around_next

  done : split t block size remainder ≡ ok (write_prev_phys t₂ (next_phys t₂ next) next)
  unfolding split
  done = rw (cut_bits, insert_free-ok t₁ next _ _ class_t₁.maps class_small) refl

  kept_size : (x : ℕ) → block_size t₂ x ≡ block_size t₁ x
  kept_size = inserted_size v₁.listed next _ _ class_small class_t₁ (λ e. omega (arith, e)) out

  kept_header : t₂.sizes block ≡ t₁.sizes block
  kept_header = rw (ne→== block next (λ e. omega (arith, e))) refl

  pub split-Cut : Cut t F block size remainder
  split-Cut = record {
    after = write_prev_phys t₂ (next_phys t₂ next) next;
    lists = F₂;
    done = done;
    valid = IsValid-frame t₂.sizes _ (λ x l. (refl, refl)) v₂;
    cut_size =
        kept_size block
        ∙ ap size_bits block_header
        ∙ size_bits-set_size (t.sizes block) size words (omega arith);
    mark =
        ap is_free kept_header
        ∙ ap is_free block_header
        ∙ is_free-set_size (t.sizes block) size words;
    free = λ x l.
        elim (inserted-InLists v₁.listed next _ _ class_small class_t₁ (λ e. omega (arith, e)) out x
          l) [
            | inl e ↦ inl (e, ap (block_size t₂) e ∙ kept_size next ∙ next_bits)
            | inr (ne, old) ↦ inr (old, kept_size x ∙ ap size_bits (same x old))
          ];
    keeps = λ x l. (
      inserted-keeps v₁.listed next _ _ class_small class_t₁ (λ e. omega (arith, e)) out x l,
      kept_size x ∙ ap size_bits (same x l),
    );
    behind = inserted-here v₁.listed next _ _ class_small class_t₁ (λ e. omega (arith, e)) out;
  }
