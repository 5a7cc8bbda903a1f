-- ===== src/Buddy/Take.antt =====
-- Taking a free block out of its list, as `alloc_pages` does with the first block of a list and
-- `dealloc_pages` with a buddy (abalone/src/buddy.rs): one block fewer, and the invariant kept.
use my_kernel.Prelude.{
  ℕ, ◌+◌, ◌*◌, ◌/◌, ◌%◌, ◌^◌, ◌≤◌, ◌<◌, ◌≡◌, ◌≢◌, ◌⊎◌, inl, inr, refl, arith, List, [], ◌∷◌, map,
  ◌==◌, update, Bool-cases, lt→ltb, true, false, ap,
}
use my_kernel.Prelude.Panic.{ok}
use my_kernel.Word.{sub64}
use my_kernel.Bits.{bit_at, flip_bit, bit_at-lt}
use my_kernel.Links.{unlink, unlink_head}
use my_kernel.Links.Chain.{
  occ, remove, Chain, Chain-frame, next_listed, prev_listed, listed-ne-null, occ-remove,
}
use my_kernel.Links.Unlink.{unlink-Chain, unlink-other}
use my_kernel.Buddy.{
  BuddyAllocator, buddy_max_order, max_pages, page_size, addr_of, take_first, take_buddy,
}
use my_kernel.Buddy.Cover.{
  Lists, in_block, cover, in_pair, covered-remove, in_pair-remove, cover-update,
}
use my_kernel.Buddy.Inv.{
  IsValid, addrs, toggled_bit, occ-addrs, occ-addrs_le_one, addrs_apart, free_page_lt,
}
use my_kernel.Buddy.Free.{pair_in_bitmap}

-- The allocator without the free block of order `k` at page `q`.
abbrev pub dropped : BuddyAllocator → (q k : ℕ) → BuddyAllocator
dropped b q k =
    let bit = q / 2 ^ (k + 1) in
    let words = b.bitmaps k in
    record b {
      links = unlink b.links (addr_of b.base q);
      free_lists = update b.free_lists k (unlink_head b.links (b.free_lists k) (addr_of b.base q));
      bitmaps =
          update b.bitmaps k (update words (bit / 64) (flip_bit (words (bit / 64)) (bit % 64)));
    }

-- The lists without it.
abbrev pub without : Lists → (q k : ℕ) → Lists
without F q k = update F k (remove q (F k))

pub take_buddy-ok :
    (b : BuddyAllocator) (k q bit : ℕ)
    → q < max_pages
    → bit ≡ q / 2 ^ (k + 1)
    → take_buddy b k q bit ≡ ok (dropped b q k)
unfolding take_buddy
take_buddy-ok b k q bit hq e = rw (e, lt→ltb _ _ (pair_in_bitmap q k hq))

addrs-remove :
    (base q : ℕ) (ps : List ℕ)
    → base + max_pages * page_size ≤ 2 ^ 64
    → q < max_pages
    → ((r : ℕ) → 0 < occ r ps → r < max_pages)
    → map (addr_of base) (remove q ps) ≡ remove (addr_of base q) (map (addr_of base) ps)
addrs-remove base q [] fits hq all = refl
addrs-remove base q (p ∷ ps) fits hq all = elim (Bool-cases (q == p)) [
  | inl same ↦
      let e : (addr_of base q == addr_of base p) ≡ true = ground (arith, all p) in rw (same, e)
  | inr other ↦
      let e : (addr_of base q == addr_of base p) ≡ false = ground (arith, all p) in
      rw (other, e)
        (ap (λ l. addr_of base p ∷ l)
          (addrs-remove base q ps fits hq (λ r hr. all r (ground arith))))
]

module _ {b : BuddyAllocator} {F : Lists} (v : IsValid b F) (q k : ℕ) (hk : k < buddy_max_order)
    (free : 0 < occ q (F k)) where
  abbrev block : ℕ
  block = addr_of b.base q

  page_lt : q < max_pages
  page_lt = free_page_lt v k q hk free

  listed : 0 < occ block (addrs b (F k))
  listed = omega (arith, occ-addrs v k q hk page_lt)

  -- A neighbour of the block is in no other list.
  neighbour_ne :
      (j y z : ℕ)
      → j < buddy_max_order
      → k ≢ j
      → 0 < occ y (addrs b (F j))
      → (z ≡ 0) ⊎ (0 < occ z (addrs b (F k)))
      → y ≢ z
  neighbour_ne j y z hj ne h near = ground (
    arith,
    listed-ne-null b.links 0 (b.free_lists j) (addrs b (F j)) y (v.chains j hj) h,
    addrs_apart v k j z hk hj ne,
  )

  dropped-chains :
      (j : ℕ)
      → j < buddy_max_order
      → Chain (dropped b q k).links 0 ((dropped b q k).free_lists j) (addrs b (without F q k j))
  dropped-chains j hj = elim (Bool-cases (j == k)) [
    | inl same ↦
        rw
          (same, addrs-remove b.base q (F k) v.base_fits page_lt (λ r hr. free_page_lt v k r hk hr))
          (unlink-Chain b.links block (b.free_lists k) (addrs b (F k)) (v.chains k hk) listed
            (λ y. occ-addrs_le_one v k y hk)
            (ground
              (arith, listed-ne-null b.links 0 (b.free_lists k) (addrs b (F k)) 0 (v.chains k hk))))
    | inr other ↦ rw other (
        Chain-frame b.links (unlink b.links block) 0 (b.free_lists j) (addrs b (F j))
          (λ y h.
            unlink-other b.links block y
              (neighbour_ne j y (b.links.next block) hj (ground arith) h (
                next_listed b.links 0 (b.free_lists k) (addrs b (F k)) block (v.chains k hk)
                  listed))
              (neighbour_ne j y (b.links.prev block) hj (ground arith) h (
                prev_listed b.links 0 (b.free_lists k) (addrs b (F k)) block (v.chains k hk)
                  listed)))
          (v.chains j hj))
  ]

  dropped-bits :
      (j i : ℕ)
      → j < buddy_max_order
      → bit_at ((dropped b q k).bitmaps j (i / 64)) (i % 64) ≡ in_pair j i (without F q k j) % 2
  dropped-bits j i hj = ground (
    arith,
    toggled_bit (b.bitmaps k) (q / 2 ^ (k + 1)) i,
    v.bits j i hj,
    v.bits k i hk,
    bit_at-lt (b.bitmaps k (i / 64)) (i % 64),
    in_pair-remove k i q (F k),
  )

  -- The other pages are covered as before.
  pub cover-without : (x : ℕ) → cover (without F q k) x + in_block k q x ≡ cover F x
  cover-without x =
      omega (arith, cover-update k F (remove q (F k)) x hk, covered-remove k q (F k) x free)

  -- Taking a free block out keeps the invariant.
  pub dropped-IsValid : IsValid (dropped b q k) (without F q k)
  dropped-IsValid = record {
    base_pos = v.base_pos;
    base_fits = v.base_fits;
    chains = dropped-chains;
    bits = dropped-bits;
    placed = λ j r hj h. ground (arith, v.placed j r hj, occ-remove r q (F k));
    once = λ x. omega (arith, cover-without x, v.once x);
  }

-- With a first block in the list of `k`, `take_first` takes that block.
pub take_first-ok :
    {b : BuddyAllocator} {F : Lists} (v : IsValid b F) (k p : ℕ) (ps : List ℕ)
    → k < buddy_max_order
    → F k ≡ p ∷ ps
    → take_first b k ≡ ok (p, dropped b p k)
unfolding take_first unlink unlink_head
take_first-ok {b} {F} v k p ps hk e =
    let c : Chain b.links 0 (b.free_lists k) (addrs b (p ∷ ps)) = rw e at (v.chains k hk) in
    let hp : p < max_pages = free_page_lt v k p hk (rw e (ground arith)) in
    let index : sub64 (addr_of b.base p) b.base / page_size ≡ p = omega (arith, v.base_fits) in
    rw (c.0, index, lt→ltb _ _ (pair_in_bitmap p k hp), c.2)
