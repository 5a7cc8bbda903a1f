-- ===== src/Tlsf/Remove.antt =====
-- `remove_free` of abalone/src/tlsf.rs, which takes a block out of the list of its class.
use my_kernel.Prelude.{
  ℕ, ◌≤◌, ◌<◌, ◌≡◌, ◌≢◌, inl, inr, refl, sym, ap, ◌∙◌, arith, List, [], ◌∷◌, true, false, ◌==◌,
  if◌then◌else◌, update, Bool-cases, ==→eq, eq→==, ne→==, ltb, lt→ltb,
}
use my_kernel.Prelude.Panic.{ok}
use my_kernel.Links.{Links, unlink, unlink_head}
use my_kernel.Links.Chain.{
  occ, remove, Chain, Chain-frame, next_listed, prev_listed, listed-ne-null, occ-remove,
  occ-remove_self, occ-remove_other,
}
use my_kernel.Links.Unlink.{unlink-Chain, unlink-other}
use my_kernel.Tlsf.{
  Tlsf, fl_index_count, sl_count, is_free, set_free, block_size, mapping, remove_free, clear_bits,
}
use my_kernel.Tlsf.Header.{is_free_lem, set_free-false, size_bits-set_free}
use my_kernel.Tlsf.Mapping.{InClass}
use my_kernel.Tlsf.Bitmaps.{Agrees-marks, clear-Agrees}
use my_kernel.Tlsf.Inv.{
  Lists, put, put-same, put-Other, Other, class-cases, marks, IsListed, InLists, IsValid, Apart,
  in_one_list,
}

-- The allocator after a block has been taken from the list of a class.
abbrev pub removed : Tlsf → (block fl sl : ℕ) → Tlsf
removed t block fl sl =
    let head = unlink_head t.links (t.free_lists fl sl) block in
    record (clear_bits t fl sl head) {
      links = unlink t.links block;
      free_lists = put t.free_lists fl sl head;
      sizes = update t.sizes block (set_free (t.sizes block) false);
    }

pub remove_free-ok :
    (t : Tlsf) (block fl sl : ℕ)
    → mapping (block_size t block) ≡ (fl, sl)
    → fl < fl_index_count
    → remove_free t block ≡ ok (removed t block fl sl)
unfolding remove_free
remove_free-ok t block fl sl e small = rw (e, lt→ltb fl fl_index_count small) refl

module _ {t : Tlsf} {F : Lists} (v : IsListed t F) (block fl sl : ℕ) (small : fl < fl_index_count)
    (second_small : sl < sl_count) (here : 0 < occ block (F fl sl)) where
  abbrev F' : Lists
  F' = put F fl sl (remove block (F fl sl))

  abbrev t' : Tlsf
  t' = removed t block fl sl

  abbrev head : ℕ
  head = unlink_head t.links (t.free_lists fl sl) block

  chain : Chain t.links 0 (t.free_lists fl sl) (F fl sl)
  chain = v.chains fl sl small second_small

  -- A block of another list is neither the removed one nor a neighbour of it.
  untouched :
      (fl' sl' x : ℕ)
      → fl' < fl_index_count
      → sl' < sl_count
      → Other fl sl fl' sl'
      → 0 < occ x (F fl' sl')
      → (x ≢ block) × (x ≢ t.links.next block) × (x ≢ t.links.prev block)
  untouched fl' sl' x p q other h =
      let apart : (y : ℕ) → 0 < occ y (F fl sl) → x ≢ y = λ y hy e.
        let (e₁, e₂) = in_one_list v fl' sl' fl sl x p q small second_small h (rw e hy) in
        elim other [ inl ne ↦ ne e₁ | inr ne ↦ ne e₂ ] in
      let not_null : x ≢ 0 =
        listed-ne-null t.links 0 (t.free_lists fl' sl') (F fl' sl') x (v.chains fl' sl' p q) h in
      (
        apart block here,
        λ e. elim (next_listed t.links 0 (t.free_lists fl sl) (F fl sl) block chain here) [
          | inl null ↦ not_null (e ∙ null)
          | inr there ↦ apart _ there e
        ],
        λ e. elim (prev_listed t.links 0 (t.free_lists fl sl) (F fl sl) block chain here) [
          | inl null ↦ not_null (e ∙ null)
          | inr there ↦ apart _ there e
        ],
      )

  null_out : occ 0 (F fl sl) ≡ 0
  null_out = elim (Bool-cases (ltb 0 (occ 0 (F fl sl)))) [
    | inl there ↦ absurd (
        listed-ne-null t.links 0 (t.free_lists fl sl) (F fl sl) 0 chain (ground (arith, there))
          refl)
    | inr out ↦ ground (arith, out)
  ]

  new-Chain : Chain (unlink t.links block) 0 head (remove block (F fl sl))
  new-Chain =
      unlink-Chain t.links block (t.free_lists fl sl) (F fl sl) chain here
        (λ x. v.once fl sl x small second_small) null_out

  chains' :
      (fl' sl' : ℕ)
      → fl' < fl_index_count
      → sl' < sl_count
      → Chain t'.links 0 (t'.free_lists fl' sl') (F' fl' sl')
  chains' fl' sl' p q = elim (class-cases fl sl fl' sl') [
    | inl (e₁, e₂) ↦
        rw (e₁, e₂, put-same t.free_lists fl sl head, put-same F fl sl (remove block (F fl sl)))
          new-Chain
    | inr other ↦
        rw
          (
            put-Other t.free_lists fl sl head fl' sl' other,
            put-Other F fl sl (remove block (F fl sl)) fl' sl' other,
          )
          (Chain-frame t.links t'.links 0 (t.free_lists fl' sl') (F fl' sl')
            (λ x h.
              let (ne, ne_next, ne_prev) = untouched fl' sl' x p q other h in
              unlink-other t.links block x ne_next ne_prev)
            (v.chains fl' sl' p q))
  ]

  -- The mark of the list.
  marks_head :
      (h : ℕ) (l : Links) (xs : List ℕ) → Chain l 0 h xs → marks xs ≡ (if h == 0 then 0 else 1)
  marks_head h l [] c = rw (eq→== h 0 c) refl
  marks_head h l (x ∷ xs) (e, nz, back, rest) = rw (ne→== h 0 (λ n. nz (sym e ∙ n))) refl

  new_marks : marks (remove block (F fl sl)) ≡ (if head == 0 then 0 else 1)
  new_marks = marks_head head (unlink t.links block) (remove block (F fl sl)) new-Chain

  marks_listed : (xs : List ℕ) → 0 < occ block xs → marks xs ≡ 1
  marks_listed [] h = absurd (omega arith)
  marks_listed (x ∷ xs) h = refl

  marks' :
      (fl' sl' : ℕ)
      → put (λ i j. marks (F i j)) fl sl (if head == 0 then 0 else 1) fl' sl' ≡ marks (F' fl' sl')
  marks' fl' sl' = elim (class-cases fl sl fl' sl') [
    | inl (e₁, e₂) ↦
        rw (e₁, e₂)
          (put-same (λ i j. marks (F i j)) fl sl (if head == 0 then 0 else 1)
            ∙ sym new_marks
            ∙ ap marks (sym (put-same F fl sl (remove block (F fl sl)))))
    | inr other ↦
        put-Other (λ i j. marks (F i j)) fl sl (if head == 0 then 0 else 1) fl' sl' other
        ∙ ap marks (sym (put-Other F fl sl (remove block (F fl sl)) fl' sl' other))
  ]

  pub removed_size : (x : ℕ) → block_size t' x ≡ block_size t x
  removed_size x = elim (Bool-cases (x == block)) [
    | inl same ↦ rw (same, ==→eq x block same) (size_bits-set_free (t.sizes block) false)
    | inr other ↦ rw other refl
  ]

  pub removed_mark : is_free (t'.sizes block) ≡ false
  removed_mark = rw (eq→== block block refl) (
      is_free_lem (set_free (t.sizes block) false) ∙ ground (arith, set_free-false (t.sizes block)))

  -- What is still listed was listed, and is another block.
  still_listed :
      (fl' sl' x : ℕ)
      → fl' < fl_index_count
      → sl' < sl_count
      → 0 < occ x (F' fl' sl')
      → (x ≢ block) × (0 < occ x (F fl' sl'))
  still_listed fl' sl' x p q h = elim (class-cases fl sl fl' sl') [
    | inl (e₁, e₂) ↦
        let e : F' fl' sl' ≡ remove block (F fl sl) =
          rw (e₁, e₂) (put-same F fl sl (remove block (F fl sl))) in
        let h' : 0 < occ x (remove block (F fl sl)) = omega (arith, h, ap (occ x) e) in
        let before : 0 < occ x (F fl sl) = omega (arith, h', occ-remove x block (F fl sl)) in
        (
          λ ex. omega (
            arith,
            h',
            ap (λ y. occ y (remove block (F fl sl))) ex,
            occ-remove_self block (F fl sl) here,
            v.once fl sl block small second_small,
          ),
          rw (e₁, e₂) before,
        )
    | inr other ↦
        let e = put-Other F fl sl (remove block (F fl sl)) fl' sl' other in
        let h' : 0 < occ x (F fl' sl') = omega (arith, h, ap (occ x) e) in
        ((untouched fl' sl' x p q other h').0, h')
  ]

  once' : (fl' sl' x : ℕ) → fl' < fl_index_count → sl' < sl_count → occ x (F' fl' sl') ≤ 1
  once' fl' sl' x p q = elim (class-cases fl sl fl' sl') [
    | inl (e₁, e₂) ↦
        rw (e₁, e₂, put-same F fl sl (remove block (F fl sl)))
          (omega (arith, occ-remove x block (F fl sl), v.once fl sl x small second_small))
    | inr other ↦
        rw (put-Other F fl sl (remove block (F fl sl)) fl' sl' other) (v.once fl' sl' x p q)
  ]

  classes' :
      (fl' sl' x : ℕ)
      → fl' < fl_index_count
      → sl' < sl_count
      → 0 < occ x (F' fl' sl')
      → InClass (block_size t' x) fl' sl' × (is_free (t'.sizes x) ≡ true)
  classes' fl' sl' x p q h =
      let (ne, h') = still_listed fl' sl' x p q h in
      let (c, free) = v.classes fl' sl' x p q h' in
      (rw (removed_size x) c, rw (ne→== x block ne) free)

  pub removed-IsListed : IsListed t' F'
  removed-IsListed = record {
    chains = chains';
    bitmaps =
        Agrees-marks marks'
          (clear-Agrees t v.bitmaps fl sl small second_small head (marks_listed (F fl sl) here));
    classes = classes';
    once = once';
  }

  pub removed-InLists : (x : ℕ) → InLists F' x → (x ≢ block) × InLists F x
  removed-InLists x l =
      let (ne, h) = still_listed l.fl l.sl x l.fl_lt l.sl_lt l.here in
      (ne, record { fl = l.fl; sl = l.sl; fl_lt = l.fl_lt; sl_lt = l.sl_lt; here = h })

  -- The other blocks are still listed.
  pub removed-keeps : (x : ℕ) → x ≢ block → InLists F x → InLists F' x
  removed-keeps x ne l = record {
    fl = l.fl;
    sl = l.sl;
    fl_lt = l.fl_lt;
    sl_lt = l.sl_lt;
    here = elim (class-cases fl sl l.fl l.sl) [
      | inl (e₁, e₂) ↦
          let before : 0 < occ x (F fl sl) =
            omega (arith, l.here, ap (λ i. occ x (F i l.sl)) e₁, ap (λ j. occ x (F fl j)) e₂) in
          rw (e₁, e₂, put-same F fl sl (remove block (F fl sl)))
            (omega (arith, before, occ-remove_other x block (F fl sl) ne))
      | inr other ↦ rw (put-Other F fl sl (remove block (F fl sl)) l.fl l.sl other) l.here
    ];
  }

  pub removed-IsValid :
      ((x y : ℕ) → InLists F x → InLists F y → x ≢ y → Apart x (block_size t x) y (block_size t y))
      → IsValid t' F'
  removed-IsValid apart = record {
    listed = removed-IsListed;
    apart = λ x y lx ly ne.
        rw (removed_size x, removed_size y)
          (apart x y ((removed-InLists x lx).1) ((removed-InLists y ly).1) ne);
  }
