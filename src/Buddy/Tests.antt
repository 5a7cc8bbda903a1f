-- ===== src/Buddy/Tests.antt =====
-- Runs of the buddy allocator on a four-page block at 1 MiB, as the unit tests of abalone/src/buddy.rs
-- make them, and the theorems at that state.
use my_kernel.Prelude.{ℕ, ◌+◌, ◌≡◌, refl, arith, some, [], ◌∷◌, update}
use my_kernel.Prelude.Panic.{ok}
use my_kernel.Links.{Links, push_front, unlink, unlink_head}
use my_kernel.Buddy.{
  BuddyAllocator, no_stats, addr_of, new, set_base, add_region, alloc_pages, dealloc_pages,
  count_alloc,
}
use my_kernel.Buddy.Cover.{Lists, cover, in_block, cover-update, covered-cons}
use my_kernel.Buddy.Inv.{IsValid, IsValid-counts}
use my_kernel.Buddy.Free.{freed, freed-IsValid}
use my_kernel.Buddy.Take.{dropped}
use my_kernel.Buddy.Alloc.{AllocResult, alloc_pages-AllocResult}
use my_kernel.Buddy.Dealloc.{Deallocated, dealloc_pages-Deallocated}
use my_kernel.Buddy.Region.{
  RegionAdded, add_region-RegionAdded, no_lists, based, based-IsValid, set_base-new,
}
use my_kernel.Buddy.Statistics.{
  free_pages, free_pages-block, free_pages-none, IsCounted, take, onward, Steps-IsCounted,
}
use my_kernel.Buddy.Statistics
use my_kernel.Buddy.Roundtrip.{Restored, Apart, alloc-alloc-Apart, dealloc-alloc}

abbrev memory : Links
memory = record { prev = λ p. 7; next = λ p. 7 }

abbrev base : ℕ
base = 0x100000

abbrev start : BuddyAllocator
start = based memory base

start-IsValid : IsValid start no_lists
start-IsValid = based-IsValid memory base (omega arith) (omega arith)

set_base-new_example :
    (set_base (new memory) base ≡ ok start)
    × IsValid start no_lists
    × ((x : ℕ) → cover no_lists x ≡ 0)
set_base-new_example = set_base-new memory base (omega arith) refl (omega arith)

no_cover : (x : ℕ) → cover no_lists x ≡ 0
no_cover = (set_base-new memory base (omega arith) refl (omega arith)).2

-- One free block of order 2 at page 0.
abbrev four : BuddyAllocator
four = freed start 0 2

abbrev four_lists : Lists
four_lists = update no_lists 2 (0 ∷ no_lists 2)

four-IsValid : IsValid four four_lists
four-IsValid =
    freed-IsValid start-IsValid 0 2 (omega arith) refl (omega arith)
      (λ x. ground (arith, no_cover x))

-- The first page of it in use.
abbrev one_used : BuddyAllocator
one_used = record (freed (freed (dropped four 0 2) 2 1) 1 0) { stats = count_alloc no_stats 4096 }

alloc_first : alloc_pages four 0 ≡ ok (some base, one_used)
unfolding alloc_pages push_front unlink unlink_head count_alloc
alloc_first = refl

alloc_pages-AllocResult_example : AllocResult four four_lists 0 (alloc_pages four 0)
alloc_pages-AllocResult_example = alloc_pages-AllocResult four-IsValid 0 (omega arith)

add_region-RegionAdded_example : RegionAdded start no_lists 0 4 (add_region start base 4)
add_region-RegionAdded_example =
    add_region-RegionAdded start-IsValid base 4 (omega arith)
      (record { inside = omega arith; apart = λ x. ground (arith, no_cover x) })

dealloc_pages-Deallocated_example :
    Deallocated start no_lists 1 2 (dealloc_pages start (addr_of base 2) 1)
dealloc_pages-Deallocated_example =
    dealloc_pages-Deallocated start-IsValid 1 2 (omega arith)
      (record { aligned = refl; inside = omega arith; apart = λ x. ground (arith, no_cover x) })

dealloc-alloc_example : Restored four four_lists one_used base 0
dealloc-alloc_example =
    dealloc-alloc 0 four-IsValid (omega arith) (omega arith) (omega arith) alloc_first

-- The second page in use as well: the list of order 0 had it.
abbrev two_used : BuddyAllocator
two_used = record (dropped one_used 1 0) { stats = count_alloc one_used.stats 4096 }

alloc_second : alloc_pages one_used 0 ≡ ok (some (base + 4096), two_used)
unfolding alloc_pages push_front unlink unlink_head count_alloc
alloc_second = refl

alloc-alloc-Apart_example : Apart base 0 base 0 (base + 4096)
alloc-alloc-Apart_example =
    alloc-alloc-Apart 0 0 four-IsValid (omega arith) (omega arith) alloc_first alloc_second

-- The four pages, counted.
abbrev counted_four : BuddyAllocator
counted_four = record four { stats = record no_stats { total_bytes = 16384; free_bytes = 16384 } }

abbrev counted_one : BuddyAllocator
counted_one = record one_used { stats = count_alloc counted_four.stats 4096 }

alloc_counted : alloc_pages counted_four 0 ≡ ok (some base, counted_one)
unfolding alloc_pages push_front unlink unlink_head count_alloc
alloc_counted = refl

four_free : free_pages four_lists ≡ 4
four_free =
    let block : (x : ℕ) → cover no_lists x + in_block 2 0 x ≡ cover four_lists x = λ x. omega (
      arith,
      cover-update 2 no_lists (0 ∷ no_lists 2) x (omega arith),
      covered-cons 2 0 (no_lists 2) x,
    ) in
    omega (
      arith,
      free_pages-block four_lists no_lists 2 0 (omega arith) block,
      free_pages-none no_lists no_cover,
    )

four-IsCounted : IsCounted base counted_four []
four-IsCounted = record {
  lists = four_lists;
  valid = IsValid-counts _ _ four-IsValid;
  based = refl;
  blocks = tt;
  apart = λ x. omega (arith, four-IsValid.once x);
  free = omega (arith, four_free);
  used = refl;
  whole = refl;
  small = omega arith;
}

Steps-IsCounted_example : IsCounted base counted_one (record { order = 0; address = base } ∷ [])
Steps-IsCounted_example =
    Steps-IsCounted (onward Statistics.start (take 0 (omega arith) alloc_counted)) four-IsCounted
