-- ===== src/Buddy/Cover.antt =====
-- How often the free lists of abalone/src/buddy.rs cover a page. `Lists` gives, for each order, the page
-- indices of the free blocks; a page that no list covers is in use, and none may be covered twice.
use my_kernel.Prelude.{
  ℕ, zero, suc, ◌+◌, ◌/◌, ◌^◌, ◌≤◌, ◌<◌, ◌≡◌, ◌≢◌, refl, arith, List, [], ◌∷◌, ◌&&◌, ltb, leb, ◌==◌,
  if◌then◌else◌, update, two-pow-add-one, two-pow-pos,
}
use my_kernel.Buddy.{buddy_max_order}
use my_kernel.Links.Chain.{occ, remove}

abbrev pub Lists : Type 0
Lists = ℕ → List ℕ

-- 1 if page `x` lies in the block of order `k` at page `p`, else 0.
abbrev pub in_block : (k p x : ℕ) → ℕ
in_block k p x = if leb p x && ltb x (p + 2 ^ k) then 1 else 0

-- How many blocks of a list of order `k` contain page `x`.
unfoldable pub covered : ℕ → List ℕ → ℕ → ℕ
covered k [] x = 0
covered k (p ∷ ps) x = in_block k p x + covered k ps x

-- How many blocks of the lists of the orders below `n` contain page `x`.
cover_below : ℕ → Lists → ℕ → ℕ
cover_below zero F x = 0
cover_below (suc n) F x = covered n (F n) x + cover_below n F x

unfoldable pub cover : Lists → ℕ → ℕ
unfolding cover_below covered
cover F x = cover_below buddy_max_order F x

-- How many blocks of a list of order `k` belong to the buddy pair `i`.
unfoldable pub in_pair : (k i : ℕ) → List ℕ → ℕ
in_pair k i [] = 0
in_pair k i (p ∷ ps) = (if i == p / 2 ^ (k + 1) then 1 else 0) + in_pair k i ps

pub covered-cons :
    (k p : ℕ) (ps : List ℕ) (x : ℕ) → covered k (p ∷ ps) x ≡ in_block k p x + covered k ps x
unfolding covered
covered-cons k p ps x = refl

pub in_pair-cons :
    (k i p : ℕ) (ps : List ℕ)
    → in_pair k i (p ∷ ps) ≡ (if i == p / 2 ^ (k + 1) then 1 else 0) + in_pair k i ps
unfolding in_pair
in_pair-cons k i p ps = refl

pub occ-le-covered : (k p : ℕ) (ps : List ℕ) → occ p ps ≤ covered k ps p
unfolding covered
occ-le-covered k p [] = omega arith
occ-le-covered k p (q ∷ qs) = ground (arith, two-pow-pos k, occ-le-covered k p qs)

pub covered-remove :
    (k q : ℕ) (ps : List ℕ) (x : ℕ)
    → 0 < occ q ps
    → covered k (remove q ps) x + in_block k q x ≡ covered k ps x
unfolding covered
covered-remove k q [] x h = absurd (omega arith)
covered-remove k q (p ∷ ps) x h = ground (arith, covered-remove k q ps x)

pub in_pair-remove :
    (k i q : ℕ) (ps : List ℕ)
    → 0 < occ q ps
    → in_pair k i (remove q ps) + (if i == q / 2 ^ (k + 1) then 1 else 0) ≡ in_pair k i ps
unfolding in_pair
in_pair-remove k i q [] h = absurd (omega arith)
in_pair-remove k i q (p ∷ ps) h = ground (arith, in_pair-remove k i q ps)

-- A block is its two halves.
pub in_block-halves : (k p x : ℕ) → in_block (k + 1) p x ≡ in_block k p x + in_block k (p + 2 ^ k) x
in_block-halves k p x = ground (arith, two-pow-add-one k)

cover_below-update_above :
    (n k : ℕ) (F : Lists) (ps : List ℕ) (x : ℕ)
    → n ≤ k
    → cover_below n (update F k ps) x ≡ cover_below n F x
unfolding cover_below
cover_below-update_above zero k F ps x h = refl
cover_below-update_above (suc n) k F ps x h = ground (arith, cover_below-update_above n k F ps x)

cover_below-update :
    (n k : ℕ) (F : Lists) (ps : List ℕ) (x : ℕ)
    → k < n
    → cover_below n (update F k ps) x + covered k (F k) x ≡ cover_below n F x + covered k ps x
unfolding cover_below
cover_below-update zero k F ps x h = absurd (omega arith)
cover_below-update (suc n) k F ps x h =
    ground (arith, cover_below-update n k F ps x, cover_below-update_above n k F ps x)

-- Replacing one list changes the cover by that list's part.
pub cover-update :
    (k : ℕ) (F : Lists) (ps : List ℕ) (x : ℕ)
    → k < buddy_max_order
    → cover (update F k ps) x + covered k (F k) x ≡ cover F x + covered k ps x
unfolding cover
cover-update k F ps x h = cover_below-update buddy_max_order k F ps x h

covered-le-below : (n k : ℕ) (F : Lists) (x : ℕ) → k < n → covered k (F k) x ≤ cover_below n F x
unfolding cover_below
covered-le-below zero k F x h = absurd (omega arith)
covered-le-below (suc n) k F x h = ground (arith, covered-le-below n k F x)

two-le-below :
    (n k j : ℕ) (F : Lists) (x : ℕ)
    → k < n
    → j < n
    → k ≢ j
    → covered k (F k) x + covered j (F j) x ≤ cover_below n F x
unfolding cover_below
two-le-below zero k j F x hk hj ne = absurd (omega arith)
two-le-below (suc n) k j F x hk hj ne =
    ground (arith, two-le-below n k j F x, covered-le-below n k F x, covered-le-below n j F x)

pub covered-le-cover :
    (k : ℕ) (F : Lists) (x : ℕ) → k < buddy_max_order → covered k (F k) x ≤ cover F x
unfolding cover
covered-le-cover k F x h = covered-le-below buddy_max_order k F x h

pub two_covered-le-cover :
    (k j : ℕ) (F : Lists) (x : ℕ)
    → k < buddy_max_order
    → j < buddy_max_order
    → k ≢ j
    → covered k (F k) x + covered j (F j) x ≤ cover F x
unfolding cover
two_covered-le-cover k j F x hk hj ne = two-le-below buddy_max_order k j F x hk hj ne
