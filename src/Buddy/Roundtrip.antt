-- ===== src/Buddy/Roundtrip.antt =====
-- Sequences of calls on abalone/src/buddy.rs: blocks handed out do not overlap, and a block that is given
-- back restores the free pages.
use native.Mathlib.Nat.{pow-le-pow_right}
use my_kernel.Prelude.{ℕ, ◌+◌, ◌*◌, ◌^◌, ◌≤◌, ◌<◌, ◌≡◌, arith, some, ap, ◌∙◌}
use my_kernel.Prelude.Panic.{ok}
use my_kernel.Buddy.{
  BuddyAllocator, AllocStats, buddy_max_order, page_size, addr_of, count_alloc, count_dealloc,
  alloc_pages, dealloc_pages,
}
use my_kernel.Buddy.Cover.{Lists, in_block, cover}
use my_kernel.Buddy.Inv.{IsValid}
use my_kernel.Buddy.Alloc.{Allocated, AllocResult, block, alloc_pages-AllocResult}
use my_kernel.Buddy.Coalesce.{InUse}
use my_kernel.Buddy.Dealloc.{dealloc_pages-Deallocated}

block_of :
    {b : BuddyAllocator} {F : Lists} {order a : ℕ} {c : BuddyAllocator}
    → AllocResult b F order (ok (some a, c))
    → Allocated b F order a c
block_of (block m) = m

-- What a successful call of `alloc_pages` tells.
pub allocated :
    {b : BuddyAllocator} {F : Lists} {a : ℕ} {c : BuddyAllocator} (order : ℕ)
    → IsValid b F
    → order < buddy_max_order
    → alloc_pages b order ≡ ok (some a, c)
    → Allocated b F order a c
allocated order v h e = block_of (rw e at (alloc_pages-AllocResult v order h))

-- A block handed out is in use.
pub Allocated-InUse :
    {b : BuddyAllocator} {F : Lists} {order a : ℕ} {c : BuddyAllocator}
    → IsValid b F
    → (m : Allocated b F order a c) → InUse m.lists order m.page
Allocated-InUse v m = record {
  aligned = m.aligned;
  inside = m.inside;
  apart = λ x. omega (arith, m.taken x, v.once x);
}

-- Two blocks with no common page, by their addresses.
pub record Apart (base order₁ a₁ order₂ a₂ : ℕ) : Type 0 where
  pub page₁ : ℕ
  pub page₂ : ℕ
  pub address₁ : a₁ ≡ addr_of base page₁
  pub address₂ : a₂ ≡ addr_of base page₂
  pub no_common : (x : ℕ) → in_block order₁ page₁ x + in_block order₂ page₂ x ≤ 1

-- Two successful allocations in a row, of any orders, give blocks with no common page.
pub alloc-alloc-Apart :
    {b c d : BuddyAllocator} {F : Lists} {a₁ a₂ : ℕ} (order₁ order₂ : ℕ)
    → IsValid b F
    → order₁ < buddy_max_order
    → order₂ < buddy_max_order
    → alloc_pages b order₁ ≡ ok (some a₁, c)
    → alloc_pages c order₂ ≡ ok (some a₂, d)
    → Apart b.base order₁ a₁ order₂ a₂
alloc-alloc-Apart order₁ order₂ v h₁ h₂ e₁ e₂ =
    let m₁ = allocated order₁ v h₁ e₁ in
    let m₂ = allocated order₂ m₁.valid h₂ e₂ in
    record {
      page₁ = m₁.page;
      page₂ = m₂.page;
      address₁ = m₁.address;
      address₂ = m₂.address ∙ ap (λ t. addr_of t m₂.page) m₁.base;
      no_common = λ x. omega (arith, m₁.taken x, m₂.taken x, v.once x);
    }

used-restored :
    (s : AllocStats) (bytes : ℕ)
    → s.used_bytes < 2 ^ 64
    → s.free_bytes < 2 ^ 64
    → bytes < 2 ^ 64
    → ((count_dealloc (count_alloc s bytes) bytes).used_bytes ≡ s.used_bytes)
      × ((count_dealloc (count_alloc s bytes) bytes).free_bytes ≡ s.free_bytes)
unfolding count_alloc count_dealloc
used-restored s bytes hu hf h = omega arith

-- What is left after a block has been allocated and given back.
pub record Restored (b : BuddyAllocator) (F : Lists) (c : BuddyAllocator) (a order : ℕ)
    : Type 0 where
  pub after : BuddyAllocator
  pub lists : Lists
  pub result : dealloc_pages c a order ≡ ok after
  pub valid : IsValid after lists
  pub pages : (x : ℕ) → cover lists x ≡ cover F x
  pub used : after.stats.used_bytes ≡ b.stats.used_bytes
  pub free : after.stats.free_bytes ≡ b.stats.free_bytes

-- Giving back what `alloc_pages` returned does not panic, makes the same pages free as before, and restores
-- the counts of used and free bytes.
pub dealloc-alloc :
    {b c : BuddyAllocator} {F : Lists} {a : ℕ} (order : ℕ)
    → IsValid b F
    → order < buddy_max_order
    → b.stats.used_bytes < 2 ^ 64
    → b.stats.free_bytes < 2 ^ 64
    → alloc_pages b order ≡ ok (some a, c)
    → Restored b F c a order
dealloc-alloc {b} {c} order v h hu hf e =
    let m = allocated order v h e in
    let back = dealloc_pages-Deallocated m.valid order m.page h (Allocated-InUse v m) in
    let bytes : 2 ^ order * page_size < 2 ^ 64 =
      omega (arith, pow-le-pow_right {n = 2} (omega arith) {i = order} {j = 16} (omega arith)) in
    let counts = used-restored b.stats (2 ^ order * page_size) hu hf bytes in
    let stats : back.after.stats
        ≡ count_dealloc (count_alloc b.stats (2 ^ order * page_size)) (2 ^ order * page_size) =
      back.counted ∙ ap (λ s. count_dealloc s (2 ^ order * page_size)) m.counted in
    record {
      after = back.after;
      lists = back.lists;
      result = rw (m.address, ← m.base) back.result;
      valid = back.valid;
      pages = λ x. omega (arith, back.returned x, m.taken x);
      used = ap (λ (s : AllocStats). s.used_bytes) stats ∙ counts.0;
      free = ap (λ (s : AllocStats). s.free_bytes) stats ∙ counts.1;
    }
