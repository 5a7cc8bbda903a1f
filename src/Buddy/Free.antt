-- ===== src/Buddy/Free.antt =====
-- `free_block` of abalone/src/buddy.rs, which adds one block to the free blocks.
use native.Mathlib.Nat.{div-lt_iff_lt-mul}
use my_kernel.Prelude.{
  ℕ, ◌+◌, ◌/◌, ◌%◌, ◌^◌, ◌≤◌, ◌<◌, ◌≡◌, ◌≢◌, inl, inr, arith, ◌∷◌, ◌==◌, update, Bool-cases, lt→ltb,
  two-pow-pos, two-pow-add-one,
}
use my_kernel.Prelude.Panic.{ok}
use my_kernel.Bits.{bit_at, flip_bit, bit_at-lt}
use my_kernel.Links.{push_front}
use my_kernel.Links.Chain.{occ, Chain, Chain-frame, head_listed, listed-ne-null}
use my_kernel.Links.Push.{push_front-Chain, push_front-other}
use my_kernel.Buddy.{BuddyAllocator, buddy_max_order, bitmap_words, max_pages, addr_of, free_block}
use my_kernel.Buddy.Cover.{
  Lists, in_block, cover, in_pair, covered-cons, in_pair-cons, cover-update,
}
use my_kernel.Buddy.Inv.{
  IsValid, addrs, toggled_bit, occ_of_uncovered, occ-addrs_le_one, addrs_apart,
}

-- The allocator with the block of order `k` at page `p` free.
abbrev pub freed : BuddyAllocator → (p k : ℕ) → BuddyAllocator
freed b p k =
    let bit = p / 2 ^ (k + 1) in
    let words = b.bitmaps k in
    record b {
      links = push_front b.links (b.free_lists k) (addr_of b.base p);
      free_lists = update b.free_lists k (addr_of b.base p);
      bitmaps =
          update b.bitmaps k (update words (bit / 64) (flip_bit (words (bit / 64)) (bit % 64)));
    }

-- The index of a page's pair lies within the bitmap.
pub pair_in_bitmap : (p k : ℕ) → p < max_pages → p / 2 ^ (k + 1) / 64 < bitmap_words
pair_in_bitmap p k h =
    let half : p / 2 ^ (k + 1) < 65536 =
      (div-lt_iff_lt-mul (two-pow-pos (k + 1))).1
        (omega (arith, two-pow-add-one k, two-pow-pos k)) in
    omega arith

pub free_block-ok :
    (b : BuddyAllocator) (p k : ℕ)
    → p < max_pages
    → k < buddy_max_order
    → free_block b p k ≡ ok (freed b p k)
unfolding free_block
free_block-ok b p k hp hk = rw (lt→ltb k buddy_max_order hk, lt→ltb _ _ (pair_in_bitmap p k hp))

module _ {b : BuddyAllocator} {F : Lists} (v : IsValid b F) (p k : ℕ) (hk : k < buddy_max_order)
    (aligned : p % 2 ^ k ≡ 0) (inside : p + 2 ^ k ≤ max_pages)
    (apart : (x : ℕ) → cover F x + in_block k p x ≤ 1) where
  abbrev node : ℕ
  node = addr_of b.base p

  page_lt : p < max_pages
  page_lt = omega (arith, two-pow-pos k)

  uncovered : cover F p ≡ 0
  uncovered = ground (arith, apart p, two-pow-pos k)

  node_new : (j : ℕ) → j < buddy_max_order → occ node (addrs b (F j)) ≡ 0
  node_new j hj = occ_of_uncovered v j p hj page_lt uncovered

  node_pos : node ≢ 0
  node_pos = omega (arith, v.base_pos, v.base_fits, page_lt)

  head_ne : b.free_lists k ≢ node
  head_ne = ground (
    arith,
    head_listed b.links 0 (b.free_lists k) (addrs b (F k)) (v.chains k hk),
    node_new k hk,
    node_pos,
  )

  freed-chains :
      (j : ℕ)
      → j < buddy_max_order
      → Chain (freed b p k).links 0 ((freed b p k).free_lists j) (addrs b (update F k (p ∷ F k) j))
  freed-chains j hj = elim (Bool-cases (j == k)) [
    | inl same ↦ rw same (
        push_front-Chain b.links (b.free_lists k) node (addrs b (F k)) (v.chains k hk) node_pos
          head_ne (node_new k hk) (λ y. occ-addrs_le_one v k y hk))
    | inr other ↦ rw other (
        Chain-frame b.links (push_front b.links (b.free_lists k) node) 0 (b.free_lists j)
          (addrs b (F j))
          (λ y h. push_front-other b.links (b.free_lists k) node y (ground (arith, node_new j hj)) (
            ground (
              arith,
              head_listed b.links 0 (b.free_lists k) (addrs b (F k)) (v.chains k hk),
              listed-ne-null b.links 0 (b.free_lists j) (addrs b (F j)) y (v.chains j hj) h,
              addrs_apart v k j (b.free_lists k) hk hj,
            )))
          (v.chains j hj))
  ]

  freed-bits :
      (j i : ℕ)
      → j < buddy_max_order
      → bit_at ((freed b p k).bitmaps j (i / 64)) (i % 64)
        ≡ in_pair j i (update F k (p ∷ F k) j) % 2
  freed-bits j i hj = ground (
    arith,
    toggled_bit (b.bitmaps k) (p / 2 ^ (k + 1)) i,
    v.bits j i hj,
    v.bits k i hk,
    bit_at-lt (b.bitmaps k (i / 64)) (i % 64),
    in_pair-cons k i p (F k),
  )

  -- Freeing an uncovered, aligned block keeps the invariant, with the block in front of its list.
  pub freed-IsValid : IsValid (freed b p k) (update F k (p ∷ F k))
  freed-IsValid = record {
    base_pos = v.base_pos;
    base_fits = v.base_fits;
    chains = freed-chains;
    bits = freed-bits;
    placed = λ j q hj h. ground (arith, v.placed j q hj);
    once = λ x. omega (arith, cover-update k F (p ∷ F k) x hk, covered-cons k p (F k) x, apart x);
  }
