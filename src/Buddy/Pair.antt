-- ===== src/Buddy/Pair.antt =====
-- Buddies in abalone/src/buddy.rs: the other half of a block's pair, which `page_idx ^ (1 << ord)` names.
use native.Mathlib.Nat.{div-div-eq-div-mul, div-add-mod', mul-mod_left, add_comm}
use my_kernel.Prelude.{
  ℕ, ◌+◌, ◌-◌, ◌*◌, ◌/◌, ◌%◌, ◌^◌, ◌<◌, min, ◌≡◌, ◌≢◌, ◌⊎◌, inl, inr, arith, List, [], ◌∷◌, ◌==◌,
  Bool-cases, bit_xor, two-pow-add-one, ap, ◌∙◌, sym,
}
use my_kernel.Bits.{xor_neighbour}
use my_kernel.Links.Chain.{occ}
use my_kernel.Buddy.Cover.{in_pair, in_block, in_block-halves}

-- A pair with a block in the list has that block's page.
pub listed_of_in_pair :
    (k i : ℕ) (ps : List ℕ) → 0 < in_pair k i ps → (r : ℕ) × (0 < occ r ps) × (i ≡ r / 2 ^ (k + 1))
unfolding in_pair
listed_of_in_pair k i [] h = absurd (omega arith)
listed_of_in_pair k i (p ∷ ps) h = elim (Bool-cases (i == p / 2 ^ (k + 1))) [
  | inl same ↦ (p, ground arith, ground arith)
  | inr other ↦ let (r, m, e) = listed_of_in_pair k i ps (ground arith) in (r, ground arith, e)
]

-- Two aligned blocks of one pair: the lower is aligned to the pair, and `^` leads from one to the other.
pub record Buddies (k page r : ℕ) : Type 0 where
  pub adjacent : (r ≡ page + 2 ^ k) ⊎ (page ≡ r + 2 ^ k)
  pub aligned : min page r % 2 ^ (k + 1) ≡ 0
  pub other : bit_xor page (2 ^ k) ≡ r

module _ (k page r : ℕ) where
  abbrev q : ℕ
  q = page / 2 ^ k

  abbrev s : ℕ
  s = r / 2 ^ k

  lower : (n m : ℕ) → n % 2 ≡ 0 → m ≡ n * 2 ^ k → m % 2 ^ (k + 1) ≡ 0
  lower n m even e =
      let halved : n ≡ n / 2 * 2 = omega arith in
      let whole : m ≡ n / 2 * 2 ^ (k + 1) =
        omega (
          arith,
          ap (λ (t : ℕ). n / 2 * t) (two-pow-add-one k),
          ap (λ (t : ℕ). t * 2 ^ k) halved,
        ) in
      ap (λ (t : ℕ). t % 2 ^ (k + 1)) whole ∙ mul-mod_left (n / 2) (2 ^ (k + 1))

  pub Buddies-of_pair :
      page % 2 ^ k ≡ 0
      → r % 2 ^ k ≡ 0
      → page / 2 ^ (k + 1) ≡ r / 2 ^ (k + 1)
      → page ≢ r
      → Buddies k page r
  Buddies-of_pair page_aligned r_aligned pair ne =
      let page_is : page ≡ q * 2 ^ k = omega (arith, div-add-mod' page (2 ^ k)) in
      let r_is : r ≡ s * 2 ^ k = omega (arith, div-add-mod' r (2 ^ k)) in
      let widen : (n : ℕ) → n / 2 ^ k / 2 ≡ n / 2 ^ (k + 1) = λ n.
        div-div-eq-div-mul n (2 ^ k) 2 ∙ ap (λ (t : ℕ). n / t) (omega (arith, two-pow-add-one k)) in
      let differ : q ≢ s = λ e. ne (page_is ∙ ap (λ (t : ℕ). t * 2 ^ k) e ∙ sym r_is) in
      let halves : q / 2 ≡ s / 2 = widen page ∙ pair ∙ sym (widen r) in
      let flipped = ap (λ (t : ℕ). bit_xor t (2 ^ k)) page_is ∙ xor_neighbour k q in
      elim (Bool-cases (q % 2 == 0)) [
        | inl even ↦
            let up : s ≡ q + 1 = ground arith in
            let r_next : r ≡ page + 2 ^ k =
              omega (arith, page_is, r_is, ap (λ (t : ℕ). t * 2 ^ k) up) in
            record {
              adjacent = inl r_next;
              aligned =
                  ap (λ (t : ℕ). t % 2 ^ (k + 1)) (omega arith)
                  ∙ lower q page (ground arith) page_is;
              other = ground (arith, flipped, r_is, ap (λ (t : ℕ). t * 2 ^ k) up);
            }
        | inr odd ↦
            let down : q ≡ s + 1 = ground arith in
            let page_next : page ≡ r + 2 ^ k =
              omega (arith, page_is, r_is, ap (λ (t : ℕ). t * 2 ^ k) down) in
            record {
              adjacent = inr page_next;
              aligned =
                  ap (λ (t : ℕ). t % 2 ^ (k + 1)) (omega arith) ∙ lower s r (ground arith) r_is;
              other = ground (arith, flipped, r_is, ap (λ (t : ℕ). (t - 1) * 2 ^ k) down);
            }
      ]

-- The block of the next order at the lower of two buddies is both of them.
pub in_block-pair :
    (k page r x : ℕ)
    → Buddies k page r
    → in_block (k + 1) (min page r) x ≡ in_block k page x + in_block k r x
in_block-pair k page r x bud = elim bud.adjacent [
  | inl e ↦
      let low : min page r ≡ page = omega arith in
      ap (λ t. in_block (k + 1) t x) low
      ∙ in_block-halves k page x
      ∙ ap (λ t. in_block k page x + in_block k t x) (sym e)
  | inr e ↦
      let low : min page r ≡ r = omega arith in
      ap (λ t. in_block (k + 1) t x) low
      ∙ in_block-halves k r x
      ∙ ap (λ t. in_block k r x + in_block k t x) (sym e)
      ∙ add_comm (in_block k r x) (in_block k page x)
]
