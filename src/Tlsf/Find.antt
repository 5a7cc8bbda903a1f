-- ===== src/Tlsf/Find.antt =====
-- The search of `find_free` in abalone/src/tlsf.rs through the two levels of bitmaps.
use my_kernel.Prelude.{
  ℕ, ◌+◌, ◌-◌, ◌/◌, ◌^◌, ◌≤◌, ◌<◌, ◌≡◌, ◌≢◌, ◌⊎◌, inl, inr, refl, sym, ap, ◌∙◌, arith, List, [],
  ◌∷◌, ◌==◌, Option, none, some, if◌then◌else◌, Bool-cases, ==→eq, ==→ne, ltb, lt→ltb,
}
use my_kernel.Prelude.Panic.{Outcome, ok}
use my_kernel.Bits.{bit_at, bit_at-zero}
use my_kernel.Bits.Sets.{bit_at-shift, shift-Narrow, bit_lt, lowest_of_Narrow}
use my_kernel.Links.{Links}
use my_kernel.Links.Chain.{occ, Chain}
use my_kernel.Tlsf.{
  Tlsf, fl_index_count, sl_count, find_free, find_above, list_head, trailing_zeros32,
}
use my_kernel.Tlsf.Mapping.{class_lt}
use my_kernel.Tlsf.Fit.{
  searched, searched_fl, searched_sl, searched_class, mapping_search_lem, AtLeast,
}
use my_kernel.Tlsf.Inv.{Lists, marks, IsListed}

-- No block stands in a class from (fl₀, sl₀) on that is below (fl, sl).
abbrev pub IsFirst : Lists → (fl₀ sl₀ fl sl : ℕ) → Type 0
IsFirst F fl₀ sl₀ fl sl =
    (fl' sl' : ℕ)
    → fl' < fl_index_count
    → sl' < sl_count
    → AtLeast fl₀ sl₀ fl' sl'
    → marks (F fl' sl') ≡ 1
    → AtLeast fl sl fl' sl'

-- The head of the lowest list with a block, from (fl₀, sl₀) on.
pub record FirstFrom (F : Lists) (fl₀ sl₀ block : ℕ) : Type 0 where
  pub fl : ℕ
  pub sl : ℕ
  pub fl_lt : fl < fl_index_count
  pub sl_lt : sl < sl_count
  pub here : 0 < occ block (F fl sl)
  pub high : AtLeast fl₀ sl₀ fl sl
  pub lowest : IsFirst F fl₀ sl₀ fl sl

-- No block stands in a class from (fl₀, sl₀) on.
abbrev pub NoneFrom : Lists → (fl₀ sl₀ : ℕ) → Type 0
NoneFrom F fl₀ sl₀ =
    (fl sl : ℕ) → fl < fl_index_count → sl < sl_count → AtLeast fl₀ sl₀ fl sl → F fl sl ≡ []

-- What the search finds.
abbrev pub Finds : Tlsf → Lists → (fl₀ sl₀ : ℕ) → Outcome (Option ℕ) → Type 0
Finds t F fl₀ sl₀ o =
    ((o ≡ ok none) × NoneFrom F fl₀ sl₀)
    ⊎ ((block : ℕ) × (o ≡ ok (some block)) × FirstFrom F fl₀ sl₀ block)

marked_head : (l : Links) (h : ℕ) (xs : List ℕ) → Chain l 0 h xs → marks xs ≡ 1 → 0 < occ h xs
marked_head l h [] c m = absurd (omega (arith, m))
marked_head l h (x ∷ xs) (e, nz, back, rest) m = ground (arith, e)

unmarked : (xs : List ℕ) → marks xs ≡ 0 → xs ≡ []
unmarked [] m = refl
unmarked (x ∷ xs) m = absurd (omega (arith, m))

module _ {t : Tlsf} {F : Lists} (v : IsListed t F) (fl₀ sl₀ : ℕ) (fl₀_lt : fl₀ < fl_index_count)
    (sl₀_lt : sl₀ < sl_count) where
  list_head_lem :
      (fl sl : ℕ)
      → fl < fl_index_count
      → sl < sl_count
      → list_head t fl sl ≡ ok (some (t.free_lists fl sl))
  unfolding list_head
  list_head_lem fl sl p q = rw (lt→ltb fl fl_index_count p, lt→ltb sl sl_count q) refl

  found :
      (fl sl : ℕ)
      → fl < fl_index_count
      → sl < sl_count
      → bit_at (t.sl_bitmap fl) sl ≡ 1
      → AtLeast fl₀ sl₀ fl sl
      → IsFirst F fl₀ sl₀ fl sl
      → Finds t F fl₀ sl₀ (list_head t fl sl)
  found fl sl p q set high lowest = inr (
    t.free_lists fl sl,
    list_head_lem fl sl p q,
    record {
      fl = fl;
      sl = sl;
      fl_lt = p;
      sl_lt = q;
      here =
          marked_head t.links (t.free_lists fl sl) (F fl sl) (v.chains fl sl p q)
            (sym (v.bitmaps.second fl sl p q) ∙ set);
      high = high;
      lowest = lowest;
    },
  )

  -- The second level's bits from `sl₀` on.
  abbrev sl_map : ℕ
  sl_map = t.sl_bitmap fl₀ / 2 ^ sl₀

  sl_map_bit : (sl : ℕ) → sl < sl_count → sl₀ ≤ sl → bit_at sl_map (sl - sl₀) ≡ marks (F fl₀ sl)
  sl_map_bit sl q le =
      bit_at-shift sl₀ (t.sl_bitmap fl₀) (sl - sl₀)
      ∙ ap (bit_at (t.sl_bitmap fl₀)) {x = sl₀ + (sl - sl₀)} {y = sl} (omega arith)
      ∙ v.bitmaps.second fl₀ sl fl₀_lt q

  IsFirst-same : (k : ℕ) → ((i : ℕ) → i < k → bit_at sl_map i ≡ 0) → IsFirst F fl₀ sl₀ fl₀ (sl₀ + k)
  IsFirst-same k below fl' sl' p q (inl above) m = inl above
  IsFirst-same k below fl' sl' p q (inr (same, le)) m = elim (Bool-cases (ltb (sl' - sl₀) k)) [
    | inl lower ↦
        let empty : bit_at sl_map (sl' - sl₀) ≡ 0 = below (sl' - sl₀) (ground (arith, lower)) in
        let here : marks (F fl₀ sl') ≡ 1 = ap (λ i. marks (F i sl')) same ∙ m in
        absurd (omega (arith, empty, here, sl_map_bit sl' q le))
    | inr higher ↦ inr (same, ground (arith, higher, le))
  ]

  found_same : sl_map ≢ 0 → Finds t F fl₀ sl₀ (list_head t fl₀ (sl₀ + trailing_zeros32 sl_map))
  found_same pos =
      let (set, k_lt, below) =
        lowest_of_Narrow sl_map (shift-Narrow (t.sl_bitmap fl₀) sl₀ (v.bitmaps.narrow fl₀ fl₀_lt))
          pos in
      let here : bit_at (t.sl_bitmap fl₀) (sl₀ + trailing_zeros32 sl_map) ≡ 1 =
        sym (bit_at-shift sl₀ (t.sl_bitmap fl₀) (trailing_zeros32 sl_map)) ∙ set in
      let small : sl₀ + trailing_zeros32 sl_map < 32 =
        bit_lt (t.sl_bitmap fl₀) _ (v.bitmaps.narrow fl₀ fl₀_lt) here in
      let at_least : sl₀ ≤ sl₀ + trailing_zeros32 sl_map = omega arith in
      found fl₀ (sl₀ + trailing_zeros32 sl_map) fl₀_lt small here (inr (refl, at_least))
        (IsFirst-same (trailing_zeros32 sl_map) below)

  -- The first level's bits above `fl₀`.
  abbrev fl_map : ℕ
  fl_map = t.fl_bitmap / 2 ^ (fl₀ + 1)

  fl_map_bit : (fl : ℕ) → fl₀ < fl → bit_at fl_map (fl - (fl₀ + 1)) ≡ bit_at t.fl_bitmap fl
  fl_map_bit fl above =
      bit_at-shift (fl₀ + 1) t.fl_bitmap (fl - (fl₀ + 1))
      ∙ ap (bit_at t.fl_bitmap) {x = fl₀ + 1 + (fl - (fl₀ + 1))} {y = fl} (omega arith)

  -- A second level is zero exactly where the first level has no bit.
  level_empty : (fl : ℕ) → fl < fl_index_count → bit_at t.fl_bitmap fl ≡ 0 → t.sl_bitmap fl ≡ 0
  level_empty fl p none_set = ground (arith, v.bitmaps.first fl p, none_set)

  level_used : (fl : ℕ) → fl < fl_index_count → bit_at t.fl_bitmap fl ≡ 1 → t.sl_bitmap fl ≢ 0
  level_used fl p set e = ground (arith, v.bitmaps.first fl p, set, e)

  marks_empty :
      (fl sl : ℕ) → fl < fl_index_count → sl < sl_count → t.sl_bitmap fl ≡ 0 → marks (F fl sl) ≡ 0
  marks_empty fl sl p q e =
      sym (v.bitmaps.second fl sl p q) ∙ ap (λ n. bit_at n sl) e ∙ bit_at-zero sl

  -- With no bit from `sl₀` on in its own second level, the search goes on above.
  module _ (own : sl_map ≡ 0) where
    own_empty : (sl : ℕ) → sl < sl_count → sl₀ ≤ sl → marks (F fl₀ sl) ≡ 0
    own_empty sl q le =
        sym (sl_map_bit sl q le) ∙ ap (λ n. bit_at n (sl - sl₀)) own ∙ bit_at-zero (sl - sl₀)

    found_none : fl_map ≡ 0 → NoneFrom F fl₀ sl₀
    found_none e fl sl p q (inr (same, le)) =
        unmarked (F fl sl) (ap (λ i. marks (F i sl)) (sym same) ∙ own_empty sl q le)
    found_none e fl sl p q (inl above) =
        let clear : bit_at t.fl_bitmap fl ≡ 0 =
          sym (fl_map_bit fl above)
          ∙ ap (λ n. bit_at n (fl - (fl₀ + 1))) e
          ∙ bit_at-zero (fl - (fl₀ + 1)) in
        unmarked (F fl sl) (marks_empty fl sl p q (level_empty fl p clear))

    IsFirst-above :
        (k j : ℕ)
        → ((i : ℕ) → i < k → bit_at fl_map i ≡ 0)
        → ((i : ℕ) → i < j → bit_at (t.sl_bitmap (fl₀ + (1 + k))) i ≡ 0)
        → IsFirst F fl₀ sl₀ (fl₀ + (1 + k)) j
    IsFirst-above k j below lower fl' sl' p q (inr (same, le)) m =
        absurd (omega (arith, m, ap (λ i. marks (F i sl')) same, own_empty sl' q le))
    IsFirst-above k j below lower fl' sl' p q (inl above) m =
        elim (Bool-cases (ltb (fl' - (fl₀ + 1)) k)) [
          | inl less ↦
              let clear : bit_at t.fl_bitmap fl' ≡ 0 =
                sym (fl_map_bit fl' above) ∙ below (fl' - (fl₀ + 1)) (ground (arith, less)) in
              absurd (omega (arith, m, marks_empty fl' sl' p q (level_empty fl' p clear)))
          | inr more ↦ elim (Bool-cases (fl' == fl₀ + (1 + k))) [
            | inr other ↦ inl (ground (arith, more, other, above))
            | inl level ↦ elim (Bool-cases (ltb sl' j)) [
              | inr higher ↦ inr (sym (==→eq fl' _ level), ground (arith, higher))
              | inl less ↦
                  let clear : bit_at (t.sl_bitmap fl') sl' ≡ 0 =
                    ap (λ i. bit_at (t.sl_bitmap i) sl') (==→eq fl' _ level)
                    ∙ lower sl' (ground (arith, less)) in
                  absurd (omega (arith, m, clear, v.bitmaps.second fl' sl' p q))
            ]
          ]
        ]

    found_level :
        (k : ℕ)
        → bit_at fl_map k ≡ 1
        → ((i : ℕ) → i < k → bit_at fl_map i ≡ 0)
        → Finds t F fl₀ sl₀
            (list_head t (fl₀ + (1 + k)) (trailing_zeros32 (t.sl_bitmap (fl₀ + (1 + k)))))
    found_level k set below =
        let here : bit_at t.fl_bitmap (fl₀ + (1 + k)) ≡ 1 =
          ap (bit_at t.fl_bitmap) {x = fl₀ + (1 + k)} {y = fl₀ + 1 + k} (omega arith)
          ∙ sym (bit_at-shift (fl₀ + 1) t.fl_bitmap k)
          ∙ set in
        let small : fl₀ + (1 + k) < 30 = elim (Bool-cases (ltb (fl₀ + (1 + k)) 30)) [
          | inl low ↦ ground (arith, low)
          | inr high ↦
              absurd (omega (arith, here, v.bitmaps.top (fl₀ + (1 + k)) (ground (arith, high))))
        ] in
        let (set₂, j_lt, lower) =
          lowest_of_Narrow (t.sl_bitmap (fl₀ + (1 + k))) (v.bitmaps.narrow _ small)
            (level_used _ small here) in
        found (fl₀ + (1 + k)) _ small j_lt set₂ (inl (omega arith)) (IsFirst-above k _ below lower)

    found_above : Finds t F fl₀ sl₀ (find_above t fl₀)
    unfolding find_above
    found_above = elim (Bool-cases (fl_map == 0)) [
      | inl empty ↦ rw empty (inl (refl, found_none (==→eq fl_map 0 empty)))
      | inr more ↦
          let (set, k_lt, below) =
            lowest_of_Narrow fl_map
              (shift-Narrow t.fl_bitmap (fl₀ + 1) (λ j high. v.bitmaps.top j (omega arith)))
              (==→ne fl_map 0 more) in
          rw more (found_level (trailing_zeros32 fl_map) set below)
    ]

  finds :
      Finds t F fl₀ sl₀
        (if sl_map == 0 then find_above t fl₀ else list_head t fl₀ (sl₀ + trailing_zeros32 sl_map))
  finds = elim (Bool-cases (sl_map == 0)) [
    | inl own ↦ rw own (found_above (==→eq sl_map 0 own))
    | inr more ↦ rw more (found_same (==→ne sl_map 0 more))
  ]

module _ {t : Tlsf} {F : Lists} (v : IsListed t F) (size : ℕ) (lo : 32 ≤ size)
    (hi : searched size < 2 ^ 30) where
  searched_fl_lt : searched_fl size < fl_index_count
  searched_fl_lt = class_lt (searched size) (omega arith) hi

  -- No panic, and the head of the lowest list with a large enough block.
  pub find_free-Finds : Finds t F (searched_fl size) (searched_sl size) (find_free t size)
  unfolding find_free
  find_free-Finds =
      let c = searched_class size lo (omega arith) in
      rw
        (
          mapping_search_lem size lo (omega arith) ∙ c.maps,
          lt→ltb (searched_fl size) fl_index_count searched_fl_lt,
        )
        (finds v (searched_fl size) (searched_sl size) searched_fl_lt c.second)
