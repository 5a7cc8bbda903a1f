-- ===== src/Tlsf/Merge.antt =====
-- Merging in `dealloc` of abalone/src/tlsf.rs: a free block is taken from its list and joined with the block in front of
-- it or behind it.
use my_kernel.Prelude.{ℕ, ◌+◌, ◌^◌, ◌≤◌, ◌≡◌, ◌≢◌, inl, inr, refl, ap, ◌∙◌, arith, eq→==, ne→==}
use my_kernel.Prelude.Panic.{ok}
use my_kernel.Word.{add64}
use my_kernel.Links.Chain.{remove}
use my_kernel.Tlsf.{Tlsf, size_bits, is_free, block_size, next_phys, remove_free}
use my_kernel.Tlsf.Global.{join}
use my_kernel.Tlsf.Header.{size_bits-aligned, size_bits-set_size}
use my_kernel.Tlsf.Inv.{Lists, put, InLists, IsValid, IsValid-frame, Apart}
use my_kernel.Tlsf.Remove.{
  removed, remove_free-ok, removed-IsValid, removed-InLists, removed-keeps, removed_size,
}

-- A block in use, in a pool that starts at `start` and is at most 1 GiB: it stands in no list, and no free block
-- overlaps it.
pub record Loose (t : Tlsf) (F : Lists) (start block : ℕ) : Type 0 where
  pub nz : block ≢ 0
  pub large : 32 ≤ block_size t block
  pub lo : start ≤ block
  pub hi : next_phys t block ≤ start + 2 ^ 30
  pub own : (x : ℕ) → InLists F x → x ≢ block
  pub around : (x : ℕ) → InLists F x → Apart x (block_size t x) block (block_size t block)

-- The free block `p` and a block in use are neighbours: `w` is the lower of the two, `u` the upper.
pub record Neighbours (t : Tlsf) (F : Lists) (start p w u : ℕ) : Type 0 where
  pub listed : InLists F p
  pub beside : next_phys t w ≡ u
  pub nz : w ≢ 0
  pub large : 32 ≤ block_size t w
  pub lo : start ≤ w
  pub hi : next_phys t u ≤ start + 2 ^ 30
  pub around :
      (x : ℕ)
      → InLists F x
      → x ≢ p
      → (x ≢ w)
        × Apart x (block_size t x) w (block_size t w)
        × Apart x (block_size t x) u (block_size t u)

module _ {t : Tlsf} {F : Lists} (v : IsValid t F) {start p w u : ℕ}
    (n : Neighbours t F start p w u) where
  abbrev l : InLists F p
  l = n.listed

  abbrev t₁ : Tlsf
  t₁ = removed t p l.fl l.sl

  abbrev pub F₁ : Lists
  F₁ = put F l.fl l.sl (remove p (F l.fl l.sl))

  abbrev pub joined : Tlsf
  joined = join t₁ w u

  size_t₁ : (x : ℕ) → block_size t₁ x ≡ block_size t x
  size_t₁ = removed_size v.listed p l.fl l.sl l.fl_lt l.sl_lt l.here

  still : (x : ℕ) → InLists F₁ x → (x ≢ p) × InLists F x
  still = removed-InLists v.listed p l.fl l.sl l.fl_lt l.sl_lt l.here

  abbrev both : ℕ
  both = add64 (add64 (block_size t₁ w) 32) (block_size t₁ u)

  both_lem : both ≡ block_size t w + 32 + block_size t u
  both_lem = omega (arith, size_t₁ w, size_t₁ u, n.beside, n.hi, n.lo)

  pub joined_size : block_size joined w ≡ block_size t w + 32 + block_size t u
  joined_size = rw (eq→== w w refl) (
      size_bits-set_size (t₁.sizes w) both
        (omega (arith, both_lem, size_bits-aligned (t.sizes w), size_bits-aligned (t.sizes u)))
        (omega (arith, both_lem, n.beside, n.hi, n.lo))
      ∙ both_lem)

  pub joined_end : next_phys joined w ≡ next_phys t u
  joined_end = omega (arith, joined_size, n.beside)

  other : (x : ℕ) → x ≢ w → joined.sizes x ≡ t₁.sizes x
  other x ne = rw (ne→== x w ne) refl

  pub joined-listed :
      (x : ℕ) → InLists F₁ x → (x ≢ p) × InLists F x × (block_size joined x ≡ block_size t x)
  joined-listed x lx =
      let (ne, old) = still x lx in
      (ne, old, ap size_bits (other x ((n.around x old ne).0)) ∙ size_t₁ x)

  pub joined-IsValid : IsValid joined F₁
  joined-IsValid =
      IsValid-frame joined.sizes t₁.prev_phys
        (λ x lx.
          let (ne, old) = still x lx in
          let same = other x ((n.around x old ne).0) in (ap size_bits same, ap is_free same))
        (removed-IsValid v.listed p l.fl l.sl l.fl_lt l.sl_lt l.here
          (λ x y lx ly ne. v.apart x y lx ly ne))

  pub joined-Loose : Loose joined F₁ start w
  joined-Loose = record {
    nz = n.nz;
    large = omega (arith, joined_size, n.large);
    lo = n.lo;
    hi = omega (arith, joined_end, n.hi);
    own = λ x lx. let (ne, old) = still x lx in (n.around x old ne).0;
    around = λ x lx.
        let (ne, old, same) = joined-listed x lx in
        let (own, lower, upper) = n.around x old ne in
        elim lower [
          | inl before ↦ inl (omega (arith, before, same))
          | inr after ↦ elim upper [
            | inl between ↦ absurd (omega (arith, after, between, n.beside))
            | inr behind ↦ inr (omega (arith, behind, joined_end))
          ]
        ];
  }

  pub removes : remove_free t p ≡ ok t₁
  removes =
      remove_free-ok t p l.fl l.sl ((v.listed.classes l.fl l.sl p l.fl_lt l.sl_lt l.here).0).maps
        l.fl_lt

  -- A block that is not part of the merge keeps its header and its place.
  pub joined-keeps : (x : ℕ) → x ≢ p → InLists F x → InLists F₁ x
  joined-keeps = removed-keeps v.listed p l.fl l.sl l.fl_lt l.sl_lt l.here

  pub joined_header : (x : ℕ) → x ≢ p → x ≢ w → joined.sizes x ≡ t.sizes x
  joined_header x ne_p ne_w = other x ne_w ∙ rw (ne→== x p ne_p) refl
