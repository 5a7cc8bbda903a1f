-- ===== src/Heap/Init.antt =====
-- `init` of src/memory/heap.rs: the base of the buddy allocator, the pages that it gets, and the first pool of the
-- allocator of small blocks.
use my_kernel.Prelude.{
  ℕ, ◌^◌, ◌⊎◌, ◌+◌, ◌*◌, ◌%◌, ◌≤◌, ◌<◌, ◌≡◌, refl, sym, ◌∙◌, inl, inr, arith, true, min,
  true-ne-false, Bool-cases, List, [], ◌∷◌, All, Option, none, some,
}
use my_kernel.Prelude.Panic.{Outcome, ok, panic, ◌>>=◌}
use my_kernel.Word.{add64}
use my_kernel.Links.{Links}
use my_kernel.Buddy.{
  BuddyAllocator, max_pages, page_size, buddy_max_order, new, set_base, alloc_pages,
}
use my_kernel.Buddy.Cover.{Lists, cover, in_block}
use my_kernel.Buddy.Inv.{IsValid, addr_exact}
use my_kernel.Buddy.Region.{set_base-new, based, no_lists}
use my_kernel.Buddy.Alloc.{AllocResult, block, exhausted, alloc_pages-AllocResult}
use my_kernel.Limine.{
  usable, MemoryRegionType, Align, MemoryRegion, is_immediately_usable, aligned_base, aligned_end,
}
use my_kernel.Tlsf.{Tlsf}
use my_kernel.Tlsf.Global.{add_pool}
use my_kernel.Tlsf
use my_kernel.Tlsf.Pool.{no_blocks, new-IsValid, add_pool-Pooled, with_pool, Pooled}
use my_kernel.Heap.{is_usable, min_virt, init, expect, give_regions}
use my_kernel.Heap.Regions.{Placed, usable_pages, give_regions-Added}

-- No greater than the value, if there is one.
abbrev pub AtMost : (base : ℕ) → Option ℕ → Type 0
AtMost base none = Unit
AtMost base (some least) = base ≤ least

usable_immediately : (t : MemoryRegionType) → is_usable t ≡ true → is_immediately_usable t ≡ true
unfolding is_usable is_immediately_usable
usable_immediately usable e = refl
usable_immediately t e = e

module _ (a : Align) (hhdm : ℕ) where
  -- The first page of a usable region is at or behind the base.
  abbrev pub AtOrBehind : (base : ℕ) → MemoryRegion → Type 0
  AtOrBehind base r =
      is_immediately_usable r.region_type ≡ true → base ≤ add64 hhdm (aligned_base a r)

  AtMost-split :
      (base virt : ℕ) (rest : Option ℕ)
      → base ≤ elim rest [ none ↦ virt | some least ↦ min virt least ]
      → (base ≤ virt) × AtMost base rest
  AtMost-split base virt none le = (le, tt)
  AtMost-split base virt (some least) le = (omega arith, omega arith)

  -- The base of the first pass is at or below every usable region.
  pub min_virt-AtOrBehind :
      (base : ℕ) (rs : List MemoryRegion)
      → AtMost base (min_virt a hhdm rs)
      → All (AtOrBehind base) rs
  unfolding min_virt
  min_virt-AtOrBehind base [] le = tt
  min_virt-AtOrBehind base (r ∷ rs) le = elim (Bool-cases (is_immediately_usable r.region_type)) [
    | inl good ↦
        let (first, rest) =
          AtMost-split base (add64 hhdm (aligned_base a r)) (min_virt a hhdm rs) (rw good at le) in
        (λ g. first, min_virt-AtOrBehind base rs rest)
    | inr other ↦
        (λ g. absurd (true-ne-false (sym g ∙ other)), min_virt-AtOrBehind base rs (rw other at le))
  ]

  -- A usable region with a page ends in the allocator's index space.
  abbrev pub InReach : (base : ℕ) → MemoryRegion → Type 0
  InReach base r =
      is_usable r.region_type ≡ true → hhdm + aligned_end a r ≤ base + max_pages * page_size

  All-Placed :
      (base : ℕ) (rs : List MemoryRegion)
      → base + max_pages * page_size ≤ 2 ^ 64
      → All (AtOrBehind base) rs
      → All (InReach base) rs
      → All (Placed hhdm a base) rs
  All-Placed base [] fits behind reach = tt
  All-Placed base (r ∷ rs) fits (one, behind) (end, reach) = (
    λ good pages. record {
      above = omega (arith, one (usable_immediately r.region_type good));
      inside = end good;
      fits = fits;
    },
    All-Placed base rs fits behind reach,
  )

-- What `init` leaves: a valid buddy allocator that has the usable pages but for the block of the heap, and free lists
-- whose only block is the heap's pool.
pub record Initialised (base : ℕ) (pages : ℕ → ℕ) (heap : Tlsf)
    (r : Outcome (BuddyAllocator × Tlsf)) : Type 0 where
  pub buddy : BuddyAllocator
  pub lists : Lists
  pub page : ℕ
  pub result : r ≡ ok (buddy, with_pool heap (base + page * page_size) (4096 * 2 ^ 10))
  pub valid : IsValid buddy lists
  pub inside : page + 2 ^ 10 ≤ max_pages
  pub pages_left : (y : ℕ) → cover lists y + in_block 10 page y ≡ pages y
  pub pooled :
      Pooled heap no_blocks
        (base + page * page_size)
        (4096 * 2 ^ 10)
        (with_pool heap (base + page * page_size) (4096 * 2 ^ 10))

-- The second pass gave a valid allocator, with exactly `pages` free, that has no block of 4 MiB.
pub record NoBlock (given : Outcome BuddyAllocator) (pages : ℕ → ℕ)
    (r : Outcome (BuddyAllocator × Tlsf)) : Type 0 where
  pub buddy : BuddyAllocator
  pub lists : Lists
  pub result : r ≡ panic
  pub passed : given ≡ ok buddy
  pub valid : IsValid buddy lists
  pub none_found : alloc_pages buddy 10 ≡ ok (none, buddy)
  pub free : (y : ℕ) → cover lists y ≡ pages y
  pub none_left : (k : ℕ) → 10 ≤ k → k < buddy_max_order → lists k ≡ []

-- The allocator of pages with its base set and the regions given, as `init` leaves it behind the second pass.
abbrev pub second_pass :
    Align
    → (ks ke hhdm : ℕ) → List MemoryRegion
    → (memory : Links) (base : ℕ) → Outcome BuddyAllocator
second_pass a ks ke hhdm rs memory base =
    set_base (new memory) base
    >>= give_regions hhdm a (a.align_down ks 4096) (a.align_up ke 4096) rs

-- The part of `init` behind the second pass.
abbrev start_heap : Tlsf → Outcome (Option ℕ × BuddyAllocator) → Outcome (BuddyAllocator × Tlsf)
start_heap heap r = r >>= λ (found, b₃).
    expect found >>= λ mem. add_pool heap mem (4096 * 2 ^ 10) >>= λ t. ok (b₃, t)

module _ (sizes prev_phys : ℕ → ℕ) (links : Links) where
  abbrev heap : Tlsf
  heap = Tlsf.new sizes prev_phys links

  started :
      (given : Outcome BuddyAllocator) (pages : ℕ → ℕ) (base : ℕ) (b : BuddyAllocator) (F : Lists)
      (r : Outcome (Option ℕ × BuddyAllocator))
      → given ≡ ok b
      → IsValid b F
      → alloc_pages b 10 ≡ r
      → b.base ≡ base
      → 0 < base
      → base + max_pages * page_size ≤ 2 ^ 64
      → ((y : ℕ) → cover F y ≡ pages y)
      → AllocResult b F 10 r
      → NoBlock given pages (start_heap heap r) ⊎ Initialised base pages heap (start_heap heap r)
  started given pages base b F _ passed v none_found same pos fits free (exhausted none_left) =
      inl (record {
        buddy = b;
        lists = F;
        result = refl;
        passed = passed;
        valid = v;
        none_found = none_found;
        free = free;
        none_left = none_left;
      })
  started given pages base b F _ passed v found same pos fits free (block {a} {c} m) =
      let at : a ≡ base + m.page * page_size =
        m.address ∙ rw same (addr_exact base fits m.page (omega (arith, m.inside))) in
      let (adds, pooled) =
        add_pool-Pooled heap no_blocks (base + m.page * page_size) (4096 * 2 ^ 10)
          (new-IsValid sizes prev_phys links) (λ e. omega (arith, e)) (omega arith) (omega arith)
          refl (λ x l. absurd (omega (arith, l.here))) in
      inr (record {
        buddy = c;
        lists = m.lists;
        page = m.page;
        result = rw (at, adds) refl;
        valid = m.valid;
        inside = m.inside;
        pages_left = λ y. m.taken y ∙ free y;
        pooled = pooled;
      })

  -- `init` on new allocators, when the lowest usable address is a page's, not 0, and leaves room for the index space, and
  -- the usable regions reach no further than that and do not overlap. It panics only if the second pass
  -- left a valid allocator without a free block of 4 MiB. Otherwise the buddy allocator is valid and has the pages of the second pass but for the
  -- heap's block, and that block is the only pool of the heap, whose lists are valid.
  pub init-Initialised :
      (a : Align) (ks ke hhdm : ℕ) (rs : List MemoryRegion) (memory : Links) (base : ℕ)
      → min_virt a hhdm rs ≡ some base
      → 0 < base
      → base % page_size ≡ 0
      → base + max_pages * page_size ≤ 2 ^ 64
      → All (InReach a hhdm base) rs
      → ((y : ℕ) → usable_pages hhdm a (a.align_down ks 4096) (a.align_up ke 4096) base rs y ≤ 1)
      → NoBlock
          (second_pass a ks ke hhdm rs memory base)
          (usable_pages hhdm a (a.align_down ks 4096) (a.align_up ke 4096) base rs)
          (init a ks ke hhdm rs (new memory) heap)
        ⊎ Initialised base
            (usable_pages hhdm a (a.align_down ks 4096) (a.align_up ke 4096) base rs)
            heap
            (init a ks ke hhdm rs (new memory) heap)
  unfolding init
  init-Initialised a ks ke hhdm rs memory base first pos aligned fits reach apart =
      let (set, v, empty) = set_base-new memory base pos aligned fits in
      let behind : All (AtOrBehind a hhdm base) rs =
        min_virt-AtOrBehind a hhdm base rs (rw first (omega arith)) in
      let given =
        give_regions-Added hhdm a (a.align_down ks 4096) (a.align_up ke 4096) (based memory base)
          no_lists rs v (All-Placed a hhdm base rs fits behind reach)
          (λ y. omega (arith, apart y, empty y)) in
      rw (first, set, given.result)
        (started (ok given.after)
          (usable_pages hhdm a (a.align_down ks 4096) (a.align_up ke 4096) base rs) base given.after
          given.lists (alloc_pages given.after 10) refl given.valid refl given.base pos fits
          (λ y. omega (arith, given.added y, empty y))
          (alloc_pages-AllocResult given.valid 10 (omega arith)))
