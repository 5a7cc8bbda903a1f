-- ===== src/Buddy/Alloc.antt =====
-- `alloc_pages` of abalone/src/buddy.rs: which block it returns, and what stays free.
use my_kernel.Prelude.{
  ℕ, zero, suc, ◌+◌, ◌-◌, ◌*◌, ◌%◌, ◌^◌, ◌≤◌, ◌<◌, ◌≡◌, ◌≢◌, ◌⊎◌, inl, inr, refl, arith, List, [],
  ◌∷◌, ◌==◌, update, Bool-cases, ==→ne, lt→ltb, ap, ◌∙◌, Option, none, some, two-pow-pos,
  two-pow-add-one, half_aligned,
}
use my_kernel.Prelude.Panic.{Outcome, ok}
use my_kernel.Links.Chain.{occ, Chain}
use my_kernel.Buddy.{
  BuddyAllocator, buddy_max_order, max_pages, page_size, addr_of, find_order, split, count_alloc,
  alloc_pages,
}
use my_kernel.Buddy.Cover.{Lists, in_block, cover, in_block-halves, cover-update, covered-cons}
use my_kernel.Buddy.Inv.{IsValid, addrs, IsValid-counts}
use my_kernel.Buddy.Free.{free_block-ok, freed-IsValid}
use my_kernel.Buddy.Take.{dropped, without, take_first-ok, dropped-IsValid, cover-without}

-- What the loops leave alone.
pub record SameFrame (b c : BuddyAllocator) : Type 0 where
  pub base : c.base ≡ b.base
  pub total : c.total_pages ≡ b.total_pages
  pub stats : c.stats ≡ b.stats

-- After splitting, the block of order `order` at `page` is all that left the block of order `top`.
record Splits (b : BuddyAllocator) (F : Lists) (order top page : ℕ) (r : Outcome BuddyAllocator)
    : Type 0 where
  after : BuddyAllocator
  lists : Lists
  result : r ≡ ok after
  valid : IsValid after lists
  kept : (x : ℕ) → cover lists x + in_block order page x ≡ cover F x + in_block top page x
  same : SameFrame b after
  aligned : page % 2 ^ order ≡ 0
  inside : page + 2 ^ order ≤ max_pages

split-Splits :
    (levels order top page : ℕ) {b : BuddyAllocator} {F : Lists}
    → IsValid b F
    → top ≡ order + levels
    → top < buddy_max_order
    → page % 2 ^ top ≡ 0
    → page + 2 ^ top ≤ max_pages
    → ((x : ℕ) → cover F x + in_block top page x ≤ 1)
    → Splits b F order top page (split levels order page b)
unfolding split
split-Splits zero order top page {b} {F} v e hk aligned inside apart = record {
  after = b;
  lists = F;
  result = refl;
  valid = v;
  kept = λ x. ap (λ k. cover F x + in_block k page x) (omega arith);
  same = record { base = refl; total = refl; stats = refl };
  aligned = rw two-pow-top at aligned;
  inside = rw two-pow-top at inside;
}
  where
    two-pow-top : 2 ^ top ≡ 2 ^ order
    two-pow-top = ap (λ (t : ℕ). 2 ^ t) (omega arith)
split-Splits (suc levels) order top page {b} {F} v e hk aligned inside apart =
    let k : ℕ = order + levels in
    let upper : ℕ = page + 2 ^ k in
    let up : top ≡ k + 1 = omega arith in
    let double : 2 ^ top ≡ 2 * 2 ^ k = ap (λ (t : ℕ). 2 ^ t) up ∙ two-pow-add-one k in
    let halves : (x : ℕ) → in_block top page x ≡ in_block k page x + in_block k upper x =
      λ x. ap (λ t. in_block t page x) up ∙ in_block-halves k page x in
    let half : (page % 2 ^ k ≡ 0) × (upper % 2 ^ k ≡ 0) =
      half_aligned page (2 ^ k) (rw double at aligned) in
    let hk' : k < buddy_max_order = omega arith in
    let ready : (x : ℕ) → cover F x + in_block k upper x ≤ 1 =
      λ x. omega (arith, halves x, apart x) in
    let v' = freed-IsValid v upper k hk' half.1 (omega (arith, double)) ready in
    let more : (x : ℕ) → cover (update F k (upper ∷ F k)) x ≡ cover F x + in_block k upper x =
      λ x. omega (arith, cover-update k F (upper ∷ F k) x hk', covered-cons k upper (F k) x) in
    let rest =
      split-Splits levels order k page v' refl hk' half.0 (omega (arith, double))
        (λ x. omega (arith, more x, halves x, apart x)) in
    record {
      after = rest.after;
      lists = rest.lists;
      result = rw (free_block-ok b upper k (omega (arith, double, two-pow-pos k)) hk') rest.result;
      valid = rest.valid;
      kept = λ x. omega (arith, rest.kept x, more x, halves x);
      same = record { base = rest.same.base; total = rest.same.total; stats = rest.same.stats };
      aligned = rest.aligned;
      inside = rest.inside;
    }

-- `find_order` gives the least order with a non-null head, if there is one.
find_order_lem :
    (heads : ℕ → ℕ) (count k : ℕ)
    → ((find_order heads count k ≡ none) × ((j : ℕ) → k ≤ j → j < k + count → heads j ≡ 0))
      ⊎ ((f : ℕ) × (find_order heads count k ≡ some f)
          × (k ≤ f)
          × (f < k + count)
          × (heads f ≢ 0)
          × ((j : ℕ) → k ≤ j → j < f → heads j ≡ 0))
unfolding find_order
find_order_lem heads zero k = inl (refl, λ j lo hi. absurd (omega arith))
find_order_lem heads (suc count) k = elim (Bool-cases (heads k == 0)) [
  | inl empty ↦ elim (find_order_lem heads count (k + 1)) [
    | inl (e, all) ↦ inl (rw empty e, λ j lo hi. ground (arith, all j))
    | inr (f, e, lo, hi, ne, least) ↦
        inr (f, rw empty e, omega arith, omega arith, ne, λ j lo' hi'. ground (arith, least j))
  ]
  | inr first ↦
      inr (k, rw first, omega arith, omega arith, ==→ne _ _ first, λ j lo hi. absurd (omega arith))
]

-- A null head means no free block of that order, any other head a first one.
list_of_head :
    (b : BuddyAllocator) (k : ℕ) (ps : List ℕ)
    → Chain b.links 0 (b.free_lists k) (addrs b ps)
    → ((ps ≡ []) × (b.free_lists k ≡ 0))
      ⊎ ((p : ℕ) × (qs : List ℕ) × (ps ≡ p ∷ qs) × (b.free_lists k ≢ 0))
list_of_head b k [] c = inl (refl, c)
list_of_head b k (p ∷ qs) c = inr (p, qs, refl, ground arith)

-- `alloc_pages` returned the address of a free, aligned block of `2 ^ order` pages. Its pages are
-- exactly those that are not free any more, the lists of the smaller orders were empty where a larger
-- block was split, and the statistics count the allocation.
pub record Allocated (b : BuddyAllocator) (F : Lists) (order a : ℕ) (after : BuddyAllocator)
    : Type 0 where
  pub page : ℕ
  pub lists : Lists
  pub valid : IsValid after lists
  pub address : a ≡ addr_of b.base page
  pub aligned : page % 2 ^ order ≡ 0
  pub inside : page + 2 ^ order ≤ max_pages
  pub taken : (x : ℕ) → cover lists x + in_block order page x ≡ cover F x
  pub source : ℕ
  pub source_order : (order ≤ source) × (source < buddy_max_order) × (0 < occ page (F source))
  pub best_fit : (j : ℕ) → order ≤ j → j < source → F j ≡ []
  pub base : after.base ≡ b.base
  pub total : after.total_pages ≡ b.total_pages
  pub counted : after.stats ≡ count_alloc b.stats (2 ^ order * page_size)

-- Every outcome of `alloc_pages`: a block, or `None` with nothing changed where no list of an order that
-- fits has a block.
pub data AllocResult (b : BuddyAllocator) (F : Lists) (order : ℕ)
    : Outcome (Option ℕ × BuddyAllocator) → Type 0 where
  block :
      {a : ℕ} {c : BuddyAllocator}
      → Allocated b F order a c
      → AllocResult b F order (ok (some a, c))
  exhausted :
      ((k : ℕ) → order ≤ k → k < buddy_max_order → F k ≡ []) → AllocResult b F order (ok (none, b))

module _ {b : BuddyAllocator} {F : Lists} (v : IsValid b F) where
  head_cases :
      (k : ℕ)
      → k < buddy_max_order
      → ((F k ≡ []) × (b.free_lists k ≡ 0))
        ⊎ ((p : ℕ) × (qs : List ℕ) × (F k ≡ p ∷ qs) × (b.free_lists k ≢ 0))
  head_cases k hk = list_of_head b k (F k) (v.chains k hk)

  empty_of_null : (k : ℕ) → k < buddy_max_order → b.free_lists k ≡ 0 → F k ≡ []
  empty_of_null k hk null = elim (head_cases k hk) [
    | inl (e, z) ↦ e
    | inr (p, qs, e, ne) ↦ absurd (ne null)
  ]

  -- A block from the list of order `f`, split down to `order`.
  alloc_from :
      (order f p : ℕ) (qs : List ℕ)
      → order ≤ f
      → f < buddy_max_order
      → F f ≡ p ∷ qs
      → find_order b.free_lists (buddy_max_order - order) order ≡ some f
      → ((j : ℕ) → order ≤ j → j < f → F j ≡ [])
      → 0 < occ p (F f)
      → Splits (dropped b p f) (without F p f) order f p (split (f - order) order p (dropped b p f))
      → AllocResult b F order (alloc_pages b order)
  unfolding alloc_pages
  alloc_from order f p qs lo hf e found least listed halved =
      rw
        (
          lt→ltb order buddy_max_order (omega arith),
          found,
          take_first-ok v f p qs hf e,
          halved.result,
        )
        (block (record {
          page = p;
          lists = halved.lists;
          valid = IsValid-counts _ _ halved.valid;
          address = ap (λ t. addr_of t p) halved.same.base;
          aligned = halved.aligned;
          inside = halved.inside;
          taken = λ x. omega (arith, halved.kept x, cover-without v p f hf listed x);
          source = f;
          source_order = (lo, hf, listed);
          best_fit = least;
          base = halved.same.base;
          total = halved.same.total;
          counted = ap (λ s. count_alloc s (2 ^ order * page_size)) halved.same.stats;
        }))

  alloc_found :
      (order f : ℕ)
      → order ≤ f
      → f < buddy_max_order
      → find_order b.free_lists (buddy_max_order - order) order ≡ some f
      → b.free_lists f ≢ 0
      → ((j : ℕ) → order ≤ j → j < f → F j ≡ [])
      → AllocResult b F order (alloc_pages b order)
  alloc_found order f lo hf found ne least = elim (head_cases f hf) [
    | inl (e, z) ↦ absurd (ne z)
    | inr (p, qs, e, ne') ↦
        let listed : 0 < occ p (F f) = rw e (ground arith) in
        let place = v.placed f p hf listed in
        alloc_from order f p qs lo hf e found least listed (
          split-Splits (f - order) order f p (dropped-IsValid v p f hf listed) (omega arith) hf
            place.0 place.1 (λ x. omega (arith, cover-without v p f hf listed x, v.once x)))
  ]

  -- On a valid allocator and an order below the maximum, `alloc_pages` does not panic: it returns a free
  -- block of that order and keeps the invariant, or `None` where no block fits.
  pub alloc_pages-AllocResult :
      (order : ℕ) → order < buddy_max_order → AllocResult b F order (alloc_pages b order)
  unfolding alloc_pages
  alloc_pages-AllocResult order h =
      elim (find_order_lem b.free_lists (buddy_max_order - order) order) [
        | inl (e, all) ↦
            rw (lt→ltb order buddy_max_order h, e)
              (exhausted (λ k lo hi. empty_of_null k hi (all k lo (omega arith))))
        | inr (f, e, lo, hi, ne, least) ↦
            alloc_found order f lo (omega arith) e ne
              (λ j lo' hi'. empty_of_null j (omega arith) (least j lo' hi'))
      ]
