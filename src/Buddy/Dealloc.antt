-- ===== src/Buddy/Dealloc.antt =====
-- `dealloc_pages` of abalone/src/buddy.rs: the block becomes free again, merged with its free buddies.
use my_kernel.Prelude.{
  ℕ, ◌+◌, ◌-◌, ◌*◌, ◌/◌, ◌%◌, ◌^◌, ◌≤◌, ◌<◌, ◌≡◌, ◌≢◌, inl, inr, refl, arith, ◌∷◌, ◌⊎◌, leb, ◌==◌,
  update, lt→ltb, eq→==, true, ap,
}
use my_kernel.Prelude.Panic.{Outcome, ok}
use my_kernel.Links.Chain.{occ, occ_self}
use my_kernel.Buddy.{
  BuddyAllocator, buddy_max_order, page_size, addr_of, coalesce, count_dealloc, dealloc_pages,
}
use my_kernel.Buddy.Cover.{Lists, in_block, cover, cover-update, covered-cons}
use my_kernel.Buddy.Inv.{IsValid, IsValid-counts}
use my_kernel.Buddy.Free.{freed, free_block-ok, freed-IsValid}
use my_kernel.Buddy.Coalesce.{InUse, Merges, coalesce-Merges, page_lt_of, page_lt}

-- `dealloc_pages` returned: the block's pages are free again and no other page changed, the invariant
-- holds, and the statistics count the deallocation. The freed block was merged as far as possible: it is listed as part
-- of a free block that is of the highest order, or whose pair holds no other free block of its order.
pub record Deallocated (b : BuddyAllocator) (F : Lists) (order page : ℕ)
    (r : Outcome BuddyAllocator) : Type 0 where
  pub after : BuddyAllocator
  pub lists : Lists
  pub result : r ≡ ok after
  pub valid : IsValid after lists
  pub returned : (x : ℕ) → cover lists x ≡ cover F x + in_block order page x
  pub merged_page : ℕ
  pub merged_order : ℕ
  pub in_order : merged_order < buddy_max_order
  pub listed : 0 < occ merged_page (lists merged_order)
  pub holds : (x : ℕ) → in_block order page x ≤ in_block merged_order merged_page x
  pub alone :
      (merged_order ≡ buddy_max_order - 1)
      ⊎ ((r : ℕ)
          → 0 < occ r (lists merged_order)
          → r ≢ merged_page
          → merged_page / 2 ^ (merged_order + 1) ≢ r / 2 ^ (merged_order + 1))
  pub base : after.base ≡ b.base
  pub total : after.total_pages ≡ b.total_pages
  pub counted : after.stats ≡ count_dealloc b.stats (2 ^ order * page_size)

module _ {b : BuddyAllocator} {F : Lists} (v : IsValid b F) (order page : ℕ)
    (hk : order < buddy_max_order) (u : InUse F order page) where
  dealloc_merged :
      Merges b F order page (coalesce (buddy_max_order - 1 - order) page order b)
      → Deallocated b F order page (dealloc_pages b (addr_of b.base page) order)
  unfolding dealloc_pages
  dealloc_merged m =
      let place : leb b.base (addr_of b.base page) ≡ true =
        ground (arith, v.base_fits, page_lt v order page hk u) in
      let whole : ((addr_of b.base page - b.base) % page_size == 0) ≡ true =
        eq→== _ _ (omega (arith, v.base_fits, page_lt v order page hk u)) in
      let index : (addr_of b.base page - b.base) / page_size ≡ page =
        omega (arith, v.base_fits, page_lt v order page hk u) in
      let block = m.in_use in
      let here : (m.at_order == m.at_order) ≡ true = eq→== m.at_order m.at_order refl in
      let rest_listed : (r : ℕ)
          → r ≢ m.at_page
          → 0 < occ r (m.at_page ∷ m.lists m.at_order)
          → 0 < occ r (m.lists m.at_order) =
        λ r ne l. ground arith in
      let freeing =
        free_block-ok m.after m.at_page m.at_order (page_lt_of m.at_page m.at_order block.inside)
          m.in_order in
      record {
        after = record (freed m.after m.at_page m.at_order) {
          stats = count_dealloc m.after.stats (2 ^ order * page_size);
        };
        lists = update m.lists m.at_order (m.at_page ∷ m.lists m.at_order);
        result = rw (place, whole, lt→ltb order buddy_max_order hk, index, m.result, freeing);
        valid = IsValid-counts _ _ (
            freed-IsValid m.valid m.at_page m.at_order m.in_order block.aligned block.inside
              block.apart);
        returned = λ x. omega (
          arith,
          m.kept x,
          cover-update m.at_order m.lists (m.at_page ∷ m.lists m.at_order) x m.in_order,
          covered-cons m.at_order m.at_page (m.lists m.at_order) x,
        );
        merged_page = m.at_page;
        merged_order = m.at_order;
        in_order = m.in_order;
        listed = rw here (occ_self m.at_page (m.lists m.at_order));
        holds = m.holds;
        alone = elim m.alone [
          | inl top ↦ inl top
          | inr none ↦ inr (λ r l ne. none r (rest_listed r ne (rw here at l)))
        ];
        base = m.same.base;
        total = m.same.total;
        counted = ap (λ s. count_dealloc s (2 ^ order * page_size)) m.same.stats;
      }

  -- On a valid allocator and for the address of a block in use, `dealloc_pages` does not panic: it frees exactly the
  -- block's pages, merges the block until it is of the highest order or its buddy is not free, keeps the invariant, and
  -- counts the deallocation.
  pub dealloc_pages-Deallocated :
      Deallocated b F order page (dealloc_pages b (addr_of b.base page) order)
  dealloc_pages-Deallocated = dealloc_merged (coalesce-Merges _ order page v (omega arith) u)
