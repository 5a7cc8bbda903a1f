-- ===== src/Buddy.antt =====
-- The binary buddy allocator, abalone/src/buddy.rs: its state, `set_base`, `add_region`,
-- `alloc_pages`, `dealloc_pages` and `free_block`. `links` is the memory of the free blocks: the
-- `FreeBlock` pair of pointers at the start of each. The array `free_lists` and the arrays of bitmap
-- words are functions of the index, with the bounds check of each access written out.
pub mod Cover
pub mod Inv
pub mod Free
pub mod Take
pub mod Pair
pub mod Alloc
pub mod Coalesce
pub mod Dealloc
pub mod Region
pub mod Roundtrip
pub mod Statistics
mod Tests
use Prim.Native.Nat.{min}
use my_kernel.Prelude.{
  ℕ, zero, suc, ◌+◌, ◌-◌, ◌*◌, ◌/◌, ◌%◌, ◌^◌, Bool, not, Option, none, some, bit_and, bit_xor, ltb,
  leb, ◌==◌, if◌then◌else◌, update,
}
use my_kernel.Prelude.Panic.{Outcome, ok, panic, ◌>>=◌, ◌>>◌, assert}
use my_kernel.Bits.{flip_bit}
use my_kernel.Word.{add64, sub64, trailing_zeros, top_bit}
use my_kernel.Links.{Links, push_front, unlink, unlink_head, set_prev}

abbrev pub page_size : ℕ
page_size = 4096

abbrev pub buddy_max_order : ℕ
buddy_max_order = 17

-- The length of `Bitmap::words`.
abbrev pub bitmap_words : ℕ
bitmap_words = 2 ^ (buddy_max_order - 1) / 64 + 1

abbrev pub max_pages : ℕ
max_pages = 2 ^ buddy_max_order

pub record AllocStats : Type 0 where
  pub total_bytes : ℕ
  pub used_bytes : ℕ
  pub free_bytes : ℕ
  pub alloc_count : ℕ
  pub dealloc_count : ℕ
  pub peak_bytes : ℕ

abbrev pub no_stats : AllocStats
no_stats = record {
  total_bytes = 0;
  used_bytes = 0;
  free_bytes = 0;
  alloc_count = 0;
  dealloc_count = 0;
  peak_bytes = 0;
}

-- `Bitmap::words`
abbrev pub Bitmap : Type 0
Bitmap = ℕ → ℕ

-- `Bitmap::toggle`; an index past the words panics.
unfoldable pub toggle : Bitmap → ℕ → Outcome Bitmap
toggle words bit =
    if ltb (bit / 64) bitmap_words
    then ok (update words (bit / 64) (flip_bit (words (bit / 64)) (bit % 64)))
    else panic

-- `Bitmap::test`
unfoldable pub test : Bitmap → ℕ → Outcome Bool
test words bit =
    if ltb (bit / 64) bitmap_words
    then ok (bit_and (words (bit / 64) / 2 ^ (bit % 64)) 1 == 1)
    else panic

pub record BuddyAllocator : Type 0 where
  pub base : ℕ
  pub total_pages : ℕ
  pub free_lists : ℕ → ℕ
  pub bitmaps : ℕ → Bitmap
  pub stats : AllocStats
  pub links : Links

-- `BuddyAllocator::new`, over memory that holds anything
unfoldable pub new : Links → BuddyAllocator
new memory = record {
  base = 0;
  total_pages = 0;
  free_lists = λ k. 0;
  bitmaps = λ k i. 0;
  stats = no_stats;
  links = memory;
}

unfoldable pub set_base : BuddyAllocator → ℕ → Outcome BuddyAllocator
set_base b virt_base = do
  assert (b.total_pages == 0)
  assert (virt_base % page_size == 0)
  ok (record b { base = virt_base })

-- The address of a page by its index.
abbrev pub addr_of : ℕ → ℕ → ℕ
addr_of base page = add64 base (page * page_size)

unfoldable pub free_block : BuddyAllocator → ℕ → ℕ → Outcome BuddyAllocator
unfolding toggle push_front
free_block b page_idx order = do
  assert (ltb order buddy_max_order)
  let node = addr_of b.base page_idx
  words ← toggle (b.bitmaps order) (page_idx / 2 ^ (order + 1))
  ok (record b {
    links = push_front b.links (b.free_lists order) node;
    free_lists = update b.free_lists order node;
    bitmaps = update b.bitmaps order words;
  })

-- The order of the next block that `add_region` frees: by the alignment of the offset, and by what
-- fits the pages that remain.
unfoldable pub region_order : (offset_pages remaining : ℕ) → ℕ
region_order offset_pages remaining =
    let align_order =
      min (if offset_pages == 0 then buddy_max_order - 1 else trailing_zeros offset_pages)
        (buddy_max_order - 1) in
    let size_order = min (top_bit remaining) (buddy_max_order - 1) in min align_order size_order

-- The `while` loop of `add_region`. Each round frees at least one page, so as many rounds as pages
-- suffice.
unfoldable pub add_blocks :
    (fuel : ℕ) → BuddyAllocator → (offset_pages remaining : ℕ) → Outcome BuddyAllocator
unfolding free_block region_order
add_blocks zero b offset_pages remaining = if remaining == 0 then ok b else panic
add_blocks (suc fuel) b offset_pages remaining = if remaining == 0 then ok b else do
  let order = region_order offset_pages remaining
  b' ← free_block b offset_pages order
  add_blocks fuel b' (offset_pages + 2 ^ order) (remaining - 2 ^ order)

-- The counters at the end of `add_region`.
unfoldable pub count_region : BuddyAllocator → ℕ → BuddyAllocator
count_region b page_count =
    let total = add64 b.total_pages page_count in
    let bytes = total * page_size % 2 ^ 64 in
    record b {
      total_pages = total;
      stats = record (b.stats) { total_bytes = bytes; free_bytes = sub64 bytes b.stats.used_bytes };
    }

unfoldable pub add_region : BuddyAllocator → (virt_base page_count : ℕ) → Outcome BuddyAllocator
unfolding add_blocks count_region
add_region b virt_base page_count = do
  assert (not (b.base == 0))
  assert (leb b.base virt_base)
  b' ← add_blocks page_count b ((virt_base - b.base) / page_size) page_count
  ok (count_region b' page_count)

-- `(order..BUDDY_MAX_ORDER).find(|&k| !free_lists[k].is_null())`, over the `count` orders from `k`
unfoldable pub find_order : (ℕ → ℕ) → (count k : ℕ) → Option ℕ
find_order heads zero k = none
find_order heads (suc count) k = if heads k == 0 then find_order heads count (k + 1) else some k

-- Takes the first block of the list of `order`, and toggles its pair's bit.
unfoldable pub take_first : BuddyAllocator → ℕ → Outcome (ℕ × BuddyAllocator)
unfolding toggle
take_first b order = do
  let block = b.free_lists order
  let after = b.links.next block
  let page_idx = sub64 block b.base / page_size
  words ← toggle (b.bitmaps order) (page_idx / 2 ^ (order + 1))
  ok (
    page_idx,
    record b {
      links = if after == 0 then b.links else set_prev b.links after 0;
      free_lists = update b.free_lists order after;
      bitmaps = update b.bitmaps order words;
    },
  )

-- The splitting loop of `alloc_pages`: `current_order` is `order + levels`, and the upper half of
-- the block is freed at each level.
unfoldable pub split : (levels order current_page : ℕ) → BuddyAllocator → Outcome BuddyAllocator
unfolding free_block
split zero order current_page b = ok b
split (suc levels) order current_page b = do
  b' ← free_block b (current_page + 2 ^ (order + levels)) (order + levels)
  split levels order current_page b'

-- The statistics after an allocation of `bytes`, modulo 2^64 as without overflow checks; a build with them panics if
-- more is allocated than `free_bytes` counts (see Buddy/Statistics).
unfoldable pub count_alloc : AllocStats → ℕ → AllocStats
count_alloc s bytes =
    let used = add64 s.used_bytes bytes in
    record s {
      used_bytes = used;
      free_bytes = sub64 s.free_bytes bytes;
      alloc_count = add64 s.alloc_count 1;
      peak_bytes = if ltb s.peak_bytes used then used else s.peak_bytes;
    }

-- `Some` address or `None`, and the allocator afterwards.
unfoldable pub alloc_pages : BuddyAllocator → ℕ → Outcome (Option ℕ × BuddyAllocator)
unfolding find_order take_first split count_alloc
alloc_pages b order = do
  assert (ltb order buddy_max_order)
  elim (find_order b.free_lists (buddy_max_order - order) order) [
    | none ↦ ok (none, b)
    | some found_order ↦ do
      (page_idx, b₁) ← take_first b found_order
      b₂ ← split (found_order - order) order page_idx b₁
      ok (
        some (addr_of b₂.base page_idx),
        record b₂ { stats = count_alloc b₂.stats (2 ^ order * page_size) },
      )
  ]

-- Unlinks the buddy at `buddy_idx` from the list of `ord`, and clears the pair's bit.
unfoldable pub take_buddy : BuddyAllocator → (ord buddy_idx pair_bit : ℕ) → Outcome BuddyAllocator
unfolding toggle unlink unlink_head
take_buddy b ord buddy_idx pair_bit = do
  let buddy = addr_of b.base buddy_idx
  words ← toggle (b.bitmaps ord) pair_bit
  ok (record b {
    links = unlink b.links buddy;
    free_lists = update b.free_lists ord (unlink_head b.links (b.free_lists ord) buddy);
    bitmaps = update b.bitmaps ord words;
  })

-- The merging loop of `dealloc_pages`. `rounds` is `BUDDY_MAX_ORDER - 1 - ord`, the rounds left until
-- the loop's test fails.
unfoldable pub coalesce :
    (rounds page_idx ord : ℕ) → BuddyAllocator → Outcome (ℕ × ℕ × BuddyAllocator)
unfolding test take_buddy
coalesce zero page_idx ord b = ok (page_idx, ord, b)
coalesce (suc rounds) page_idx ord b = do
  let buddy_idx = bit_xor page_idx (2 ^ ord)
  let pair_bit = page_idx / 2 ^ (ord + 1)
  paired ← test (b.bitmaps ord) pair_bit
  let merged = (do
    b' ← take_buddy b ord buddy_idx pair_bit
    coalesce rounds (min page_idx buddy_idx) (ord + 1) b')
  if paired then merged else ok (page_idx, ord, b)

-- The statistics after a deallocation of `bytes`, modulo 2^64 as without overflow checks; a build with them panics if
-- more is freed than `used_bytes` counts (see Buddy/Statistics).
unfoldable pub count_dealloc : AllocStats → ℕ → AllocStats
count_dealloc s bytes = record s {
  used_bytes = sub64 s.used_bytes bytes;
  free_bytes = add64 s.free_bytes bytes;
  dealloc_count = add64 s.dealloc_count 1;
}

unfoldable pub dealloc_pages : BuddyAllocator → (ptr order : ℕ) → Outcome BuddyAllocator
unfolding coalesce free_block count_dealloc
dealloc_pages b ptr order = do
  assert (leb b.base ptr)
  assert ((ptr - b.base) % page_size == 0)
  assert (ltb order buddy_max_order)
  (page_idx, ord, b₁) ← coalesce (buddy_max_order - 1 - order) ((ptr - b.base) / page_size) order b
  b₂ ← free_block b₁ page_idx ord
  ok (record b₂ { stats = count_dealloc b₂.stats (2 ^ order * page_size) })
