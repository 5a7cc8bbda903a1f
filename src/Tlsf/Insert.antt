-- ===== src/Tlsf/Insert.antt =====
-- `insert_free` of abalone/src/tlsf.rs, which puts a block in front of the list of its class.
use my_kernel.Prelude.{
  ℕ, ◌^◌, ◌≤◌, ◌<◌, ◌≡◌, ◌≢◌, ◌⊎◌, inl, inr, refl, sym, ap, ◌∙◌, arith, ◌∷◌, true, ◌==◌, update,
  Bool-cases, ==→eq, ==→ne, eq→==, ne→==, bit_or, lt→ltb,
}
use my_kernel.Prelude.Panic.{ok}
use my_kernel.Links.{push_front}
use my_kernel.Links.Chain.{occ, Chain, Chain-frame, head_listed, listed-ne-null, occ_self}
use my_kernel.Links.Push.{push_front-Chain, push_front-other}
use my_kernel.Tlsf.{
  Tlsf, fl_index_count, sl_count, is_free, set_free, block_size, mapping, insert_free,
}
use my_kernel.Tlsf.Header.{is_free_lem, set_free-true, size_bits-set_free}
use my_kernel.Tlsf.Mapping.{InClass}
use my_kernel.Tlsf.Bitmaps.{Agrees-marks, set-Agrees}
use my_kernel.Tlsf.Inv.{
  Lists, put, put-same, put-Other, Other, class-cases, marks, IsListed, InLists, IsValid, Apart,
  in_one_list,
}

-- The allocator after a block has been put into the list of a class.
abbrev pub inserted : Tlsf → (block fl sl : ℕ) → Tlsf
inserted t block fl sl = record t {
  links = push_front t.links (t.free_lists fl sl) block;
  free_lists = put t.free_lists fl sl block;
  fl_bitmap = bit_or t.fl_bitmap (2 ^ fl);
  sl_bitmap = update t.sl_bitmap fl (bit_or (t.sl_bitmap fl) (2 ^ sl));
  sizes = update t.sizes block (set_free (t.sizes block) true);
}

pub insert_free-ok :
    (t : Tlsf) (block fl sl : ℕ)
    → mapping (block_size t block) ≡ (fl, sl)
    → fl < fl_index_count
    → insert_free t block ≡ ok (inserted t block fl sl)
unfolding insert_free
insert_free-ok t block fl sl e small = rw (e, lt→ltb fl fl_index_count small) refl

flip_Apart : (x n y m : ℕ) → Apart x n y m → Apart y m x n
flip_Apart x n y m (inl le) = inr le
flip_Apart x n y m (inr le) = inl le

module _ {t : Tlsf} {F : Lists} (v : IsListed t F) (block fl sl : ℕ) (small : fl < fl_index_count)
    (class : InClass (block_size t block) fl sl) (nz : block ≢ 0)
    (out : (fl' sl' : ℕ) → fl' < fl_index_count → sl' < sl_count → occ block (F fl' sl') ≡ 0) where
  abbrev F' : Lists
  F' = put F fl sl (block ∷ F fl sl)

  abbrev t' : Tlsf
  t' = inserted t block fl sl

  here : Chain t.links 0 (t.free_lists fl sl) (F fl sl)
  here = v.chains fl sl small class.second

  head-ne-block : t.free_lists fl sl ≢ block
  head-ne-block e = elim (head_listed t.links 0 (t.free_lists fl sl) (F fl sl) here) [
    | inl null ↦ nz (sym e ∙ null)
    | inr there ↦ ground (arith, out fl sl small class.second, there, ap (λ y. occ y (F fl sl)) e)
  ]

  -- A block of another list is neither the new one nor the old head.
  untouched :
      (fl' sl' x : ℕ)
      → fl' < fl_index_count
      → sl' < sl_count
      → Other fl sl fl' sl'
      → 0 < occ x (F fl' sl')
      → (x ≢ block) × (x ≢ t.free_lists fl sl)
  untouched fl' sl' x p q other h = (
    λ e. ground (arith, out fl' sl' p q, h, ap (λ y. occ y (F fl' sl')) e),
    λ e. elim (head_listed t.links 0 (t.free_lists fl sl) (F fl sl) here) [
      | inl null ↦ listed-ne-null t.links 0 _ (F fl' sl') x (v.chains fl' sl' p q) h (e ∙ null)
      | inr there ↦
          let (e₁, e₂) = in_one_list v fl' sl' fl sl x p q small class.second h (rw e there) in
          elim other [ inl ne ↦ ne e₁ | inr ne ↦ ne e₂ ]
    ],
  )

  chains' :
      (fl' sl' : ℕ)
      → fl' < fl_index_count
      → sl' < sl_count
      → Chain t'.links 0 (t'.free_lists fl' sl') (F' fl' sl')
  chains' fl' sl' p q = elim (class-cases fl sl fl' sl') [
    | inl (e₁, e₂) ↦
        rw (e₁, e₂, put-same t.free_lists fl sl block, put-same F fl sl (block ∷ F fl sl))
          (push_front-Chain t.links (t.free_lists fl sl) block (F fl sl) here nz head-ne-block
            (out fl sl small class.second) (λ x. v.once fl sl x small class.second))
    | inr other ↦
        rw
          (
            put-Other t.free_lists fl sl block fl' sl' other,
            put-Other F fl sl (block ∷ F fl sl) fl' sl' other,
          )
          (Chain-frame t.links t'.links 0 (t.free_lists fl' sl') (F fl' sl')
            (λ x h.
              let (ne, ne_head) = untouched fl' sl' x p q other h in
              push_front-other t.links (t.free_lists fl sl) block x ne ne_head)
            (v.chains fl' sl' p q))
  ]

  marks' : (fl' sl' : ℕ) → put (λ i j. marks (F i j)) fl sl 1 fl' sl' ≡ marks (F' fl' sl')
  marks' fl' sl' = elim (class-cases fl sl fl' sl') [
    | inl (e₁, e₂) ↦
        rw (e₁, e₂)
          (put-same (λ i j. marks (F i j)) fl sl 1
            ∙ ap marks (sym (put-same F fl sl (block ∷ F fl sl))))
    | inr other ↦
        put-Other (λ i j. marks (F i j)) fl sl 1 fl' sl' other
        ∙ ap marks (sym (put-Other F fl sl (block ∷ F fl sl) fl' sl' other))
  ]

  marks_free : is_free (set_free (t.sizes block) true) ≡ true
  marks_free =
      is_free_lem (set_free (t.sizes block) true) ∙ ground (arith, set_free-true (t.sizes block))

  -- The new block's mark is set and its size is as before; other blocks are left alone.
  pub inserted_size : (x : ℕ) → block_size t' x ≡ block_size t x
  inserted_size x = elim (Bool-cases (x == block)) [
    | inl same ↦ rw (same, ==→eq x block same) (size_bits-set_free (t.sizes block) true)
    | inr other ↦ rw other refl
  ]

  listed' :
      (fl' sl' x : ℕ)
      → fl' < fl_index_count
      → sl' < sl_count
      → 0 < occ x (F' fl' sl')
      → ((x ≡ block) × (fl' ≡ fl) × (sl' ≡ sl)) ⊎ ((x ≢ block) × (0 < occ x (F fl' sl')))
  listed' fl' sl' x p q h = elim (class-cases fl sl fl' sl') [
    | inl (e₁, e₂) ↦
        let e : F' fl' sl' ≡ block ∷ F fl sl = rw (e₁, e₂) (put-same F fl sl (block ∷ F fl sl)) in
        let h' : 0 < occ x (block ∷ F fl sl) = omega (arith, h, ap (occ x) e) in
        elim (Bool-cases (x == block)) [
          | inl same ↦ inl (==→eq x block same, e₁, e₂)
          | inr other ↦
              let here' : 0 < occ x (F fl sl) = ground (arith, h', other) in
              inr (==→ne x block other, rw (e₁, e₂) here')
        ]
    | inr other ↦
        let e = put-Other F fl sl (block ∷ F fl sl) fl' sl' other in
        let h' : 0 < occ x (F fl' sl') = omega (arith, h, ap (occ x) e) in
        inr ((untouched fl' sl' x p q other h').0, h')
  ]

  once' : (fl' sl' x : ℕ) → fl' < fl_index_count → sl' < sl_count → occ x (F' fl' sl') ≤ 1
  once' fl' sl' x p q = elim (class-cases fl sl fl' sl') [
    | inl (e₁, e₂) ↦
        rw (e₁, e₂, put-same F fl sl (block ∷ F fl sl))
          (ground (
            arith,
            out fl sl small class.second,
            v.once fl sl x small class.second,
            ap (λ y. occ y (F fl sl)) {x = x} {y = block},
          ))
    | inr other ↦ rw (put-Other F fl sl (block ∷ F fl sl) fl' sl' other) (v.once fl' sl' x p q)
  ]

  other_mark : (x : ℕ) → x ≢ block → t'.sizes x ≡ t.sizes x
  other_mark x ne = rw (ne→== x block ne) refl

  classes' :
      (fl' sl' x : ℕ)
      → fl' < fl_index_count
      → sl' < sl_count
      → 0 < occ x (F' fl' sl')
      → InClass (block_size t' x) fl' sl' × (is_free (t'.sizes x) ≡ true)
  classes' fl' sl' x p q h = elim (listed' fl' sl' x p q h) [
    | inl (e, e₁, e₂) ↦
        let marked : is_free (t'.sizes x) ≡ true = rw (eq→== x block e) marks_free in
        (rw (inserted_size x, e, e₁, e₂) class, marked)
    | inr (ne, h') ↦
        let (c, free) = v.classes fl' sl' x p q h' in
        (rw (inserted_size x) c, ap is_free (other_mark x ne) ∙ free)
  ]

  pub inserted-IsListed : IsListed t' F'
  inserted-IsListed = record {
    chains = chains';
    bitmaps = Agrees-marks marks' (set-Agrees v.bitmaps fl sl small class.second);
    classes = classes';
    once = once';
  }

  -- A listed block is the new one or was listed.
  pub inserted-InLists : (x : ℕ) → InLists F' x → (x ≡ block) ⊎ ((x ≢ block) × InLists F x)
  inserted-InLists x l = elim (listed' l.fl l.sl x l.fl_lt l.sl_lt l.here) [
    | inl (e, e₁, e₂) ↦ inl e
    | inr (ne, h) ↦
        inr (ne, record { fl = l.fl; sl = l.sl; fl_lt = l.fl_lt; sl_lt = l.sl_lt; here = h })
  ]

  -- The block is listed, and so is what was.
  pub inserted-here : InLists F' block
  inserted-here = record {
    fl = fl;
    sl = sl;
    fl_lt = small;
    sl_lt = class.second;
    here =
        omega
          (arith, ap (occ block) (put-same F fl sl (block ∷ F fl sl)), occ_self block (F fl sl));
  }

  pub inserted-keeps : (x : ℕ) → InLists F x → InLists F' x
  inserted-keeps x l = record {
    fl = l.fl;
    sl = l.sl;
    fl_lt = l.fl_lt;
    sl_lt = l.sl_lt;
    here = elim (class-cases fl sl l.fl l.sl) [
      | inl (e₁, e₂) ↦
          let before : 0 < occ x (F fl sl) =
            omega (arith, l.here, ap (λ i. occ x (F i l.sl)) e₁, ap (λ j. occ x (F fl j)) e₂) in
          rw (e₁, e₂, put-same F fl sl (block ∷ F fl sl)) (ground (arith, before))
      | inr other ↦ rw (put-Other F fl sl (block ∷ F fl sl) l.fl l.sl other) l.here
    ];
  }

  pub inserted-IsValid :
      ((x y : ℕ) → InLists F x → InLists F y → x ≢ y → Apart x (block_size t x) y (block_size t y))
      → ((x : ℕ) → InLists F x → Apart x (block_size t x) block (block_size t block))
      → IsValid t' F'
  inserted-IsValid apart around = record {
    listed = inserted-IsListed;
    apart = λ x y lx ly ne.
        rw (inserted_size x, inserted_size y)
          (elim (inserted-InLists x lx) [
            | inl ex ↦ elim (inserted-InLists y ly) [
              | inl ey ↦ absurd (ne (ex ∙ sym ey))
              | inr (ney, hy) ↦ rw ex (flip_Apart _ _ _ _ (around y hy))
            ]
            | inr (nex, hx) ↦ elim (inserted-InLists y ly) [
              | inl ey ↦ rw ey (around x hx)
              | inr (ney, hy) ↦ apart x y hx hy ne
            ]
          ]);
  }
