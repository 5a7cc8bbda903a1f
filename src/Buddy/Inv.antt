-- ===== src/Buddy/Inv.antt =====
-- The representation invariant of abalone/src/buddy.rs: what the pointers and bitmaps stand for.
use my_kernel.Prelude.{
  ℕ, ◌+◌, ◌-◌, ◌*◌, ◌/◌, ◌%◌, ◌^◌, ◌≤◌, ◌<◌, ◌≡◌, ◌≢◌, inl, inr, refl, arith, List, [], ◌∷◌, map,
  ltb, ◌==◌, if◌then◌else◌, update, Bool-cases, ==→eq,
}
use my_kernel.Bits.{bit_at, flip_bit, bit_at-flip_bit}
use my_kernel.Links.Chain.{occ, Chain}
use my_kernel.Buddy.{
  BuddyAllocator, AllocStats, buddy_max_order, max_pages, page_size, addr_of, Bitmap,
}
use my_kernel.Buddy.Cover.{
  Lists, cover, in_pair, occ-le-covered, covered-le-cover, two_covered-le-cover,
}

abbrev pub addrs : BuddyAllocator → List ℕ → List ℕ
addrs b ps = map (addr_of b.base) ps

-- `F` gives the free blocks of each order. The lists are chains through the memory, bit `i` of a bitmap
-- is the parity of the free blocks of pair `i`, blocks are aligned and lie in the index space, and no
-- page is covered twice.
pub record IsValid (b : BuddyAllocator) (F : Lists) : Type 0 where
  pub base_pos : 0 < b.base
  pub base_fits : b.base + max_pages * page_size ≤ 2 ^ 64
  pub chains : (k : ℕ) → k < buddy_max_order → Chain b.links 0 (b.free_lists k) (addrs b (F k))
  pub bits :
      (k i : ℕ)
      → k < buddy_max_order
      → bit_at (b.bitmaps k (i / 64)) (i % 64) ≡ in_pair k i (F k) % 2
  pub placed :
      (k p : ℕ) → k < buddy_max_order → 0 < occ p (F k) → (p % 2 ^ k ≡ 0) × (p + 2 ^ k ≤ max_pages)
  pub once : (x : ℕ) → cover F x ≤ 1

-- A toggled bitmap differs in one bit.
pub toggled_bit :
    (words : Bitmap) (c i : ℕ)
    → bit_at (update words (c / 64) (flip_bit (words (c / 64)) (c % 64)) (i / 64)) (i % 64)
      ≡ (if i == c then 1 - bit_at (words (i / 64)) (i % 64) else bit_at (words (i / 64)) (i % 64))
toggled_bit words c i = ground (arith, bit_at-flip_bit (words (c / 64)) (c % 64) (i % 64))

module _ (base : ℕ) (base_fits : base + max_pages * page_size ≤ 2 ^ 64) where
  pub addr_exact : (p : ℕ) → p < max_pages → addr_of base p ≡ base + p * page_size
  addr_exact p h = omega arith

  occ-addr :
      (p : ℕ) (ps : List ℕ)
      → p < max_pages
      → ((q : ℕ) → 0 < occ q ps → q < max_pages)
      → occ (addr_of base p) (map (addr_of base) ps) ≡ occ p ps
  occ-addr p [] h all = refl
  occ-addr p (q ∷ qs) h all = ground (arith, all q, occ-addr p qs h (λ r hr. all r (ground arith)))

listed_addr :
    (base y : ℕ) (ps : List ℕ)
    → 0 < occ y (map (addr_of base) ps)
    → (p : ℕ) × (y ≡ addr_of base p) × (0 < occ p ps)
listed_addr base y [] h = absurd (omega arith)
listed_addr base y (p ∷ ps) h = elim (Bool-cases (y == addr_of base p)) [
  | inl same ↦ (p, ==→eq y (addr_of base p) same, ground arith)
  | inr other ↦ let (q, e, m) = listed_addr base y ps (ground arith) in (q, e, ground arith)
]

module _ {b : BuddyAllocator} {F : Lists} (v : IsValid b F) where
  pub free_page_lt : (k p : ℕ) → k < buddy_max_order → 0 < occ p (F k) → p < max_pages
  free_page_lt k p hk h = ground (arith, v.placed k p hk h)

  pub occ-addrs :
      (k p : ℕ)
      → k < buddy_max_order
      → p < max_pages
      → occ (addr_of b.base p) (addrs b (F k)) ≡ occ p (F k)
  occ-addrs k p hk hp = occ-addr b.base v.base_fits p (F k) hp (λ q. free_page_lt k q hk)

  -- A page that no free block covers is no node of a list.
  pub occ_of_uncovered :
      (k p : ℕ)
      → k < buddy_max_order
      → p < max_pages
      → cover F p ≡ 0
      → occ (addr_of b.base p) (addrs b (F k)) ≡ 0
  occ_of_uncovered k p hk hp out =
      omega (arith, occ-addrs k p hk hp, occ-le-covered k p (F k), covered-le-cover k F p hk)

  -- No block is listed twice, in one list or in two.
  pub occ-addrs_le_one : (k y : ℕ) → k < buddy_max_order → occ y (addrs b (F k)) ≤ 1
  occ-addrs_le_one k y hk = elim (Bool-cases (ltb 0 (occ y (addrs b (F k))))) [
    | inl here ↦
        let (p, e, m) = listed_addr b.base y (F k) (ground arith) in
        rw e (
          omega (
            arith,
            occ-addrs k p hk (free_page_lt k p hk m),
            occ-le-covered k p (F k),
            covered-le-cover k F p hk,
            v.once p,
          ))
    | inr out ↦ ground arith
  ]

  pub addrs_apart :
      (k j y : ℕ)
      → k < buddy_max_order
      → j < buddy_max_order
      → k ≢ j
      → 0 < occ y (addrs b (F k))
      → occ y (addrs b (F j)) ≡ 0
  addrs_apart k j y hk hj ne h =
      let (p, e, m) = listed_addr b.base y (F k) h in
      rw e (
        omega (
          arith,
          occ-addrs j p hj (free_page_lt k p hk m),
          occ-le-covered j p (F j),
          occ-le-covered k p (F k),
          two_covered-le-cover k j F p hk hj ne,
          v.once p,
        ))

-- The invariant does not read the page count and the statistics.
pub IsValid-counts :
    {b : BuddyAllocator} {F : Lists} (total : ℕ) (s : AllocStats)
    → IsValid b F
    → IsValid (record b { total_pages = total; stats = s }) F
IsValid-counts total s v = record {
  base_pos = v.base_pos;
  base_fits = v.base_fits;
  chains = v.chains;
  bits = v.bits;
  placed = v.placed;
  once = v.once;
}
