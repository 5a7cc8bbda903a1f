-- ===== src/Paging/Supply.antt =====
-- The buddy allocator of abalone/src/buddy.rs as the page tables' source of frames, in the window at `hhdm`.
use my_kernel.Prelude.{
  ℕ, ◌+◌, ◌-◌, ◌*◌, ◌/◌, ◌%◌, ◌^◌, ◌≤◌, ◌<◌, ◌≡◌, ◌≢◌, sym, ap, ◌∙◌, arith, true, false,
  true-ne-false, Option, none, some,
}
use my_kernel.Prelude.Panic.{Outcome}
use my_kernel.Buddy.{BuddyAllocator, buddy_max_order, max_pages, alloc_pages}
use my_kernel.Buddy.Cover.{Lists, cover, in_block}
use my_kernel.Buddy.Inv.{IsValid, addr_exact}
use my_kernel.Buddy.Alloc.{AllocResult, block, exhausted, alloc_pages-AllocResult}
use my_kernel.Paging.{page_bytes}
use my_kernel.Paging.Frames.{FrameSource}

-- The first page lies in the window, at a physical address that leaves room for the index space.
pub record IsWindow (hhdm base : ℕ) : Type 0 where
  pub word : hhdm < 2 ^ 64
  pub above : hhdm ≤ base
  pub aligned : (base - hhdm) % page_bytes ≡ 0
  pub fits : base - hhdm + max_pages * page_bytes ≤ 2 ^ 52

-- A valid allocator on the base.
pub record Serving (base : ℕ) : Type 0 where
  pub allocator : BuddyAllocator
  pub lists : Lists
  pub valid : IsValid allocator lists
  pub based : allocator.base ≡ base

pub zero_order : 0 < buddy_max_order
zero_order = omega arith

module _ (base : ℕ) where
  abbrev served :
      (s : Serving base) (r : Outcome (Option ℕ × BuddyAllocator))
      → AllocResult s.allocator s.lists 0 r
      → Option ℕ × Serving base
  served s _ (block {a} {c} m) =
      (some a, record { allocator = c; lists = m.lists; valid = m.valid; based = m.base ∙ s.based })
  served s _ (exhausted none_left) = (none, s)

  -- `alloc_pages(0)` with the invariant.
  abbrev pub serve : Serving base → Option ℕ × Serving base
  serve s = served s (alloc_pages s.allocator 0) (alloc_pages-AllocResult s.valid 0 zero_order)

  -- A page of the index space that a free block covers, by its address.
  abbrev pub IsFreePage : Serving base → (v : ℕ) → Type 0
  IsFreePage s v =
      (base ≤ v)
      × ((v - base) % page_bytes ≡ 0)
      × ((v - base) / page_bytes < max_pages)
      × (0 < cover s.lists ((v - base) / page_bytes))

  -- The page that was served.
  pub record Served (s s' : Serving base) (v : ℕ) : Type 0 where
    pub page : ℕ
    pub inside : page < max_pages
    pub address : v ≡ base + page * page_bytes
    pub taken : (y : ℕ) → cover s'.lists y + in_block 0 page y ≡ cover s.lists y

  served-page :
      (s : Serving base) (r : Outcome (Option ℕ × BuddyAllocator))
      (a : AllocResult s.allocator s.lists 0 r)
      → (v : ℕ) (s' : Serving base) → served s r a ≡ (some v, s')
      → Served s s' v
  served-page s _ (exhausted none_left) v s' e =
      absurd (true-ne-false (ap (λ r. elim r.0 [ none ↦ true | some n ↦ false ]) e))
  served-page s _ (block {a} m) v s' e =
      let same : a ≡ v = ap (λ o. elim o [ none ↦ 0 | some n ↦ n ]) (ap (λ r. r.0) e) in
      let fits = s.valid.base_fits in
      record {
        page = m.page;
        inside = omega (arith, m.inside);
        address =
            sym same
            ∙ m.address
            ∙ addr_exact s.allocator.base fits m.page (omega (arith, m.inside))
            ∙ ap (λ b. b + m.page * page_bytes) s.based;
        taken = λ y.
            ap (λ (t : Serving base). cover t.lists y + in_block 0 m.page y) (sym (ap (λ r. r.1) e))
            ∙ m.taken y;
      }

  kept :
      (s : Serving base) (r : Outcome (Option ℕ × BuddyAllocator))
      (a : AllocResult s.allocator s.lists 0 r)
      → (y : ℕ) → cover (served s r a).1.lists y ≤ cover s.lists y
  kept s _ (exhausted none_left) y = omega arith
  kept s _ (block m) y = omega (arith, m.taken y)

  serve-Served : (s s' : Serving base) (v : ℕ) → serve s ≡ (some v, s') → Served s s' v
  serve-Served s s' v e = served-page s _ (alloc_pages-AllocResult s.valid 0 zero_order) v s' e

  -- The page that was served was free.
  pub serve-IsFreePage : (s s' : Serving base) (v : ℕ) → serve s ≡ (some v, s') → IsFreePage s v
  serve-IsFreePage s s' v e =
      let given = serve-Served s s' v e in
      let page : (v - base) / page_bytes ≡ given.page = omega (arith, given.address) in
      let mine : in_block 0 given.page given.page ≡ 1 = ground arith in
      let free : 0 < cover s.lists given.page = omega (arith, given.taken given.page, mine) in
      (
        omega (arith, given.address),
        omega (arith, given.address),
        omega (arith, page, given.inside),
        rw page free,
      )

  -- And it is no longer.
  pub serve-apart :
      (s s' : Serving base) (v : ℕ) → serve s ≡ (some v, s') → (u : ℕ) → IsFreePage s' u → u ≢ v
  serve-apart s s' v e u (above, aligned, inside, free) same =
      let given = serve-Served s s' v e in
      let page : (u - base) / page_bytes ≡ given.page = omega (arith, given.address, same) in
      let mine : in_block 0 given.page given.page ≡ 1 = ground arith in
      let still : 0 < cover s'.lists given.page = rw page at free in
      omega (arith, given.taken given.page, mine, still, s.valid.once given.page)

  -- No page becomes free.
  pub serve-kept :
      (s s' : Serving base) (r : Option ℕ)
      → serve s ≡ (r, s')
      → (u : ℕ) → IsFreePage s' u
      → IsFreePage s u
  serve-kept s s' r e u (above, aligned, inside, free) =
      let less =
        kept s (alloc_pages s.allocator 0) (alloc_pages-AllocResult s.valid 0 zero_order) in
      let same =
        ap (λ (t : Option ℕ × Serving base). cover t.1.lists ((u - base) / page_bytes)) e in
      (above, aligned, inside, omega (arith, less ((u - base) / page_bytes), same))

  module _ (hhdm : ℕ) (window : IsWindow hhdm base) where
    -- The allocator in the window is a source of frames.
    abbrev pub frames : FrameSource hhdm
    frames = record {
      hhdm_word = window.word;
      State = Serving base;
      alloc = serve;
      IsFree = IsFreePage;
      alloc_free = serve-IsFreePage;
      alloc_taken = serve-apart;
      alloc_kept = serve-kept;
      free_word = λ s v (above, aligned, inside, free).
          omega (arith, window.above, window.fits, s.valid.base_fits, s.based);
      free_frame = λ s v (above, aligned, inside, free). record {
        aligned =
            omega (arith, window.above, window.fits, window.aligned, s.valid.base_fits, s.based);
        fits = omega (arith, window.above, window.fits, s.valid.base_fits, s.based);
      };
    }
