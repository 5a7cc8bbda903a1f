-- ===== src/Buddy/Coalesce.antt =====
-- The merging loop of `dealloc_pages` in abalone/src/buddy.rs: a block in use and the free buddies that it takes in.
use my_kernel.Prelude.{
  ℕ, zero, suc, ◌+◌, ◌-◌, ◌/◌, ◌%◌, ◌^◌, ◌≤◌, ◌<◌, min, ◌≡◌, ◌≢◌, inl, inr, refl, arith, ◌⊎◌, sym,
  ◌∙◌, false, ◌==◌, Bool-cases, ==→eq, lt→ltb, two-pow-pos, two-pow-add-one,
}
use my_kernel.Prelude.Panic.{Outcome, ok}
use my_kernel.Bits.{bit_at, bit_at-eq-shift, bit_and-one}
use my_kernel.Links.Chain.{occ, remove, occ-remove, occ-remove_self}
use my_kernel.Buddy.{
  BuddyAllocator, Bitmap, buddy_max_order, bitmap_words, max_pages, test, coalesce,
}
use my_kernel.Buddy.Cover.{Lists, in_block, cover, in_pair-remove, occ-le-covered, covered-le-cover}
use my_kernel.Buddy.Inv.{IsValid}
use my_kernel.Buddy.Free.{pair_in_bitmap}
use my_kernel.Buddy.Take.{without, take_buddy-ok, dropped-IsValid, cover-without}
use my_kernel.Buddy.Pair.{listed_of_in_pair, Buddies, Buddies-of_pair, in_block-pair}
use my_kernel.Buddy.Alloc.{SameFrame}

pub page_lt_of : (r k : ℕ) → r + 2 ^ k ≤ max_pages → r < max_pages
page_lt_of r k h = omega (arith, two-pow-pos k)

test-bit_at :
    (words : Bitmap) (bit : ℕ)
    → bit / 64 < bitmap_words
    → test words bit ≡ ok (bit_at (words (bit / 64)) (bit % 64) == 1)
unfolding test
test-bit_at words bit h = rw (
  lt→ltb (bit / 64) bitmap_words h,
  bit_and-one (words (bit / 64) / 2 ^ (bit % 64)),
  bit_at-eq-shift (bit % 64) (words (bit / 64)),
)

-- A block in use of order `k` at `page`: aligned, in the index space, and covered by no free block.
pub record InUse (F : Lists) (k page : ℕ) : Type 0 where
  pub aligned : page % 2 ^ k ≡ 0
  pub inside : page + 2 ^ k ≤ max_pages
  pub apart : (x : ℕ) → cover F x + in_block k page x ≤ 1

-- After the merging loop the block at `page` of order `ord` and the free buddies that it merged are one
-- block in use.
pub record Merges (b : BuddyAllocator) (F : Lists) (ord page : ℕ)
    (r : Outcome (ℕ × ℕ × BuddyAllocator)) : Type 0 where
  pub at_page : ℕ
  pub at_order : ℕ
  pub after : BuddyAllocator
  pub lists : Lists
  pub result : r ≡ ok (at_page, at_order, after)
  pub in_order : at_order < buddy_max_order
  pub valid : IsValid after lists
  pub in_use : InUse lists at_order at_page
  pub holds : (x : ℕ) → in_block ord page x ≤ in_block at_order at_page x
  pub alone :
      (at_order ≡ buddy_max_order - 1)
      ⊎ ((r : ℕ)
          → 0 < occ r (lists at_order)
          → at_page / 2 ^ (at_order + 1) ≢ r / 2 ^ (at_order + 1))
  pub kept : (x : ℕ) → cover lists x + in_block at_order at_page x ≡ cover F x + in_block ord page x
  pub same : SameFrame b after

module _ {b : BuddyAllocator} {F : Lists} (v : IsValid b F) (ord page : ℕ)
    (hk : ord < buddy_max_order) (u : InUse F ord page) where
  abbrev pair : ℕ
  pair = page / 2 ^ (ord + 1)

  pub page_lt : page < max_pages
  page_lt = page_lt_of page ord u.inside

  -- A set bit of the pair means that the buddy is free.
  buddy_free :
      bit_at (b.bitmaps ord (pair / 64)) (pair % 64) ≡ 1
      → (r : ℕ) × (0 < occ r (F ord)) × (pair ≡ r / 2 ^ (ord + 1)) × Buddies ord page r
  buddy_free set =
      let (r, m, e) = listed_of_in_pair ord pair (F ord) (ground (arith, v.bits ord pair hk)) in
      let ne : page ≢ r = ground (
        arith,
        u.apart page,
        two-pow-pos ord,
        occ-le-covered ord r (F ord),
        covered-le-cover ord F r hk,
      ) in
      (r, m, e, Buddies-of_pair ord page r u.aligned (v.placed ord r hk m).0 e ne)

  -- A clear bit of the pair means that no block of it is free.
  no_buddy :
      (bit_at (b.bitmaps ord (pair / 64)) (pair % 64) == 1) ≡ false
      → (r : ℕ) → 0 < occ r (F ord)
      → pair ≢ r / 2 ^ (ord + 1)
  no_buddy clear r m e =
      let counted = in_pair-remove ord pair r (F ord) m in
      let (r', m', e') =
        listed_of_in_pair ord pair (remove r (F ord))
          (ground (arith, clear, v.bits ord pair hk, counted, e)) in
      let here : 0 < occ r' (F ord) = omega (arith, m', occ-remove r' r (F ord)) in
      let outside : (q : ℕ) → 0 < occ q (F ord) → page ≢ q = λ q there. ground (
        arith,
        u.apart page,
        two-pow-pos ord,
        there,
        occ-le-covered ord q (F ord),
        covered-le-cover ord F q hk,
      ) in
      let first = Buddies-of_pair ord page r u.aligned (v.placed ord r hk m).0 e (outside r m) in
      let second =
        Buddies-of_pair ord page r' u.aligned (v.placed ord r' hk here).0 e' (outside r' here) in
      let twice : 0 < occ r (remove r (F ord)) = rw (sym second.other ∙ first.other) at m' in
      omega (
        arith,
        twice,
        occ-remove_self r (F ord) m,
        occ-le-covered ord r (F ord),
        covered-le-cover ord F r hk,
        v.once r,
      )

  -- The pair as one block in use, once the buddy is taken out.
  merged-InUse :
      (r : ℕ)
      → ord + 1 < buddy_max_order
      → 0 < occ r (F ord)
      → Buddies ord page r
      → InUse (without F r ord) (ord + 1) (min page r)
        × ((x : ℕ)
            → cover (without F r ord) x + in_block (ord + 1) (min page r) x
              ≡ cover F x + in_block ord page x)
  merged-InUse r hk' m bud =
      let kept : (x : ℕ)
          → cover (without F r ord) x + in_block (ord + 1) (min page r) x
            ≡ cover F x + in_block ord page x =
        λ x. omega (arith, in_block-pair ord page r x bud, cover-without v r ord hk m x) in
      (
        record {
          aligned = bud.aligned;
          inside =
              omega (arith, bud.adjacent, u.inside, (v.placed ord r hk m).1, two-pow-add-one ord);
          apart = λ x. omega (arith, kept x, u.apart x);
        },
        kept,
      )

-- The loop of `dealloc_pages` ends without a panic, in at most the rounds that its test allows.
pub coalesce-Merges :
    (rounds ord page : ℕ) {b : BuddyAllocator} {F : Lists}
    → IsValid b F
    → ord + rounds ≡ buddy_max_order - 1
    → InUse F ord page
    → Merges b F ord page (coalesce rounds page ord b)
unfolding coalesce
coalesce-Merges zero ord page {b} {F} v e u = record {
  at_page = page;
  at_order = ord;
  after = b;
  lists = F;
  result = refl;
  in_order = omega arith;
  valid = v;
  in_use = u;
  holds = λ x. omega arith;
  alone = inl (omega arith);
  kept = λ x. refl;
  same = record { base = refl; total = refl; stats = refl };
}
coalesce-Merges (suc rounds) ord page {b} {F} v e u =
    let hk : ord < buddy_max_order = omega arith in
    let bit : ℕ = page / 2 ^ (ord + 1) in
    let tested =
      test-bit_at (b.bitmaps ord) bit (pair_in_bitmap page ord (page_lt v ord page hk u)) in
    elim (Bool-cases (bit_at (b.bitmaps ord (bit / 64)) (bit % 64) == 1)) [
      | inl set ↦
          let (r, m, pair_of, bud) = buddy_free v ord page hk u (==→eq _ _ set) in
          let (u', kept) = merged-InUse v ord page hk u r (omega arith) m bud in
          let rest =
            coalesce-Merges rounds (ord + 1) (min page r) (dropped-IsValid v r ord hk m)
              (omega arith) u' in
          let taken =
            take_buddy-ok b ord r bit (page_lt_of r ord (v.placed ord r hk m).1) pair_of in
          record {
            at_page = rest.at_page;
            at_order = rest.at_order;
            after = rest.after;
            lists = rest.lists;
            result = rw (tested, set, bud.other, taken) rest.result;
            in_order = rest.in_order;
            valid = rest.valid;
            in_use = rest.in_use;
            holds = λ x. omega (arith, rest.holds x, in_block-pair ord page r x bud);
            alone = rest.alone;
            kept = λ x. omega (arith, rest.kept x, kept x);
            same = record {
              base = rest.same.base;
              total = rest.same.total;
              stats = rest.same.stats;
            };
          }
      | inr clear ↦ record {
        at_page = page;
        at_order = ord;
        after = b;
        lists = F;
        result = rw (tested, clear);
        in_order = hk;
        valid = v;
        in_use = u;
        holds = λ x. omega arith;
        alone = inr (no_buddy v ord page hk u clear);
        kept = λ x. refl;
        same = record { base = refl; total = refl; stats = refl };
      }
    ]
