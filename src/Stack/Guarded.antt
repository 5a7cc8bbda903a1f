-- ===== src/Stack/Guarded.antt =====
-- `alloc_kernel_stack` of src/memory/stack.rs: the block's size, its place, and its guard page.
use native.Mathlib.Nat.{pow-le-pow_right}
use my_kernel.Prelude.{
  ℕ, zero, suc, ◌+◌, ◌-◌, ◌*◌, ◌/◌, ◌%◌, ◌^◌, ◌≤◌, ◌<◌, ◌≡◌, ◌⊎◌, inl, inr, refl, ap, ◌∙◌, arith,
  true, false, ==→eq, ==→ne, [], ◌==◌, ltb, Bool-cases, ltb→lt, Option, two-pow-suc, two-pow-pos,
  eq→==,
}
use my_kernel.Prelude.Panic.{Outcome, ok, panic, ◌>>=◌}
use my_kernel.Word.{bit_length, low_zeros, trailing_zeros}
use my_kernel.Word.Zeros.{lt-bit_length, bit_length-tight}
use my_kernel.Buddy.{BuddyAllocator, buddy_max_order, max_pages, page_size}
use my_kernel.Buddy.Cover.{Lists, cover, in_block}
use my_kernel.Buddy.Inv.{IsValid, addr_exact}
use my_kernel.Buddy.Alloc.{AllocResult, block, exhausted, alloc_pages-AllocResult}
use my_kernel.Paging.{Paging, IsX86}
use my_kernel.Paging.Frames.{FrameSource}
use my_kernel.Paging.Walker.{Mem, unmap, entry, pml4_phys}
use my_kernel.Paging.Map.{IsPaged, is_huge}
use my_kernel.Paging.Unmap.{Unmapped, unmap-Unmapped}
use my_kernel.Heap.{expect}
use my_kernel.Stack.{KernelStack, next_power_of_two, total_order, alloc_kernel_stack}

low_zeros-two-pow : (fuel k : ℕ) → k < fuel → low_zeros fuel (2 ^ k) ≡ k
unfolding low_zeros
low_zeros-two-pow zero k h = absurd (omega arith)
low_zeros-two-pow (suc fuel) zero h = refl
low_zeros-two-pow (suc fuel) (suc k) h =
    let even : (2 ^ suc k % 2 == 0) ≡ true = eq→== _ 0 (omega (arith, two-pow-suc k)) in
    let half : 2 ^ suc k / 2 ≡ 2 ^ k = omega (arith, two-pow-suc k) in
    rw (even, half) (ap suc (low_zeros-two-pow fuel k (omega arith)))

zero_length : bit_length 64 0 ≡ 0
unfolding bit_length
zero_length = refl

least_length : (n j : ℕ) → n < 2 ^ 64 → n < 2 ^ j → bit_length 64 n ≤ j
least_length n j fits below = elim (Bool-cases (n == 0)) [
  | inl null ↦ omega (arith, ap (bit_length 64) (==→eq n 0 null), zero_length)
  | inr pos ↦ elim (Bool-cases (ltb j (bit_length 64 n))) [
    | inr le ↦ ground (arith, le)
    | inl lower ↦
        let up : 2 ^ suc j ≤ 2 ^ bit_length 64 n =
          pow-le-pow_right {n = 2} (omega arith) (ltb→lt j (bit_length 64 n) lower) in
        absurd (omega (arith, up, two-pow-suc j, bit_length-tight 64 n fits (==→ne n 0 pos)))
  ]
]

order_length : (n : ℕ) → n < 2 ^ 16 → total_order n ≡ bit_length 64 n
unfolding total_order next_power_of_two trailing_zeros
order_length n small =
    let before : n + 1 - 1 ≡ n = omega arith in
    rw before (
      low_zeros-two-pow 64 (bit_length 64 n) (omega (arith, least_length n 16 (omega arith) small)))

-- The order is the smallest whose block has more than `min_pages` pages.
pub total_order_lem :
    (n : ℕ)
    → n < 2 ^ 16
    → (n < 2 ^ total_order n) × (total_order n < 17) × ((j : ℕ) → n < 2 ^ j → total_order n ≤ j)
total_order_lem n small = rw (order_length n small) (
  lt-bit_length 64 n (omega arith),
  omega (arith, least_length n 16 (omega arith) small),
  λ j below. least_length n j (omega arith) below,
)

module _ (p : Paging) (x : IsX86 p) {hhdm : ℕ} (source : FrameSource hhdm) where
  -- The stack lies in a block that was free; `min_pages` pages of it are above the guard page, which is mapped to
  -- nothing, and every other address is mapped as before.
  pub record Guarded (b : BuddyAllocator) (F : Lists) (min_pages : ℕ) (m : Mem p source)
      (stack : KernelStack) (after : BuddyAllocator) (m' : Mem p source) : Type 0 where
    pub page : ℕ
    pub lists : Lists
    pub valid : IsValid after lists
    pub inside : page + 2 ^ total_order min_pages ≤ max_pages
    pub taken : (y : ℕ) → cover lists y + in_block (total_order min_pages) page y ≡ cover F y
    pub guard : stack.guard_virt ≡ b.base + page * page_size
    pub top : stack.top ≡ b.base + (page + 2 ^ total_order min_pages) * page_size
    pub room : stack.guard_virt + page_size + min_pages * page_size ≤ stack.top
    pub least : (j : ℕ) → min_pages < 2 ^ j → total_order min_pages ≤ j
    pub unmapped : Unmapped p x source m stack.guard_virt m'

  -- What `alloc_kernel_stack` does: it panics only when no free block is large enough.
  abbrev pub Stacks :
      BuddyAllocator
      → Lists
      → (min_pages : ℕ) → Mem p source
      → Outcome (KernelStack × BuddyAllocator × Mem p source)
      → Type 0
  Stacks b F min_pages m r =
      ((r ≡ panic) × ((k : ℕ) → total_order min_pages ≤ k → k < buddy_max_order → F k ≡ []))
      ⊎ ((stack : KernelStack) × (after : BuddyAllocator) × (m' : Mem p source) × (r
            ≡ ok (stack, after, m'))
          × Guarded b F min_pages m stack after m')

  stack_of :
      (b : BuddyAllocator) (F : Lists) (n : ℕ) (m : Mem p source)
      (r : Outcome (Option ℕ × BuddyAllocator))
      → IsValid b F
      → n < 2 ^ 16
      → IsPaged p source m
      → ((v : ℕ)
          → (is_huge p source m v ≡ false)
            × (p.pte_is_huge (entry p source m (pml4_phys p source m) v 4) ≡ false))
      → AllocResult b F (total_order n) r
      → Stacks b F n m (
          r >>= λ (found, b'). expect found >>= λ base_virt. ok (
            record { top = base_virt + 2 ^ total_order n * 0x1000; guard_virt = base_virt },
            b',
            unmap p source m base_virt,
          ))
  stack_of b F n m _ v small paged small_pages (exhausted none_left) = inl (refl, none_left)
  stack_of b F n m _ v small paged small_pages (block {a} {c} k) =
      let at : a ≡ b.base + k.page * page_size =
        k.address
        ∙ addr_exact b.base v.base_fits k.page
            (omega (arith, k.inside, two-pow-pos (total_order n))) in
      let (more, order_lt, least) = total_order_lem n small in
      inr (
        record { top = a + 2 ^ total_order n * 0x1000; guard_virt = a },
        c,
        unmap p source m a,
        refl,
        record {
          page = k.page;
          lists = k.lists;
          valid = k.valid;
          inside = k.inside;
          taken = k.taken;
          guard = at;
          top = omega (arith, at);
          room = omega (arith, more);
          least = least;
          unmapped = unmap-Unmapped p x source m paged a ((small_pages a).0) ((small_pages a).1);
        },
      )

  -- On a valid allocator, for fewer than 2^16 pages and page tables without huge pages, `alloc_kernel_stack` panics only
  -- when no free block is large enough. Otherwise the stack is a block that was free, of the least order with more than
  -- `min_pages` pages, of which `min_pages` lie above the guard page; the guard page is mapped to nothing, and every
  -- other address as before.
  pub alloc_kernel_stack-Stacks :
      (b : BuddyAllocator) (F : Lists) (min_pages : ℕ) (m : Mem p source)
      → IsValid b F
      → min_pages < 2 ^ 16
      → IsPaged p source m
      → ((v : ℕ)
          → (is_huge p source m v ≡ false)
            × (p.pte_is_huge (entry p source m (pml4_phys p source m) v 4) ≡ false))
      → Stacks b F min_pages m (alloc_kernel_stack p source min_pages b m)
  unfolding alloc_kernel_stack
  alloc_kernel_stack-Stacks b F n m v small paged small_pages =
      stack_of b F n m _ v small paged small_pages
        (alloc_pages-AllocResult v (total_order n) (omega (arith, (total_order_lem n small).1)))
