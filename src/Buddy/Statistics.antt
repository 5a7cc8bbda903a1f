-- ===== src/Buddy/Statistics.antt =====
-- The byte counts that abalone/src/buddy.rs keeps, over any sequence of its calls.
use my_kernel.Prelude.{
  ℕ, zero, suc, ◌+◌, ◌-◌, ◌*◌, ◌/◌, ◌%◌, ◌^◌, ◌≤◌, ◌<◌, min, ◌≡◌, refl, sym, ap, ◌∙◌, arith, List,
  [], ◌∷◌, ◌++◌, All, some, leb, ltb, ◌&&◌, if◌then◌else◌, two-pow-pos,
}
use my_kernel.Prelude.Panic.{ok, panic}
use my_kernel.Buddy.{
  BuddyAllocator, AllocStats, buddy_max_order, max_pages, page_size, addr_of, alloc_pages,
  dealloc_pages, count_alloc, count_dealloc,
}
use my_kernel.Buddy.Cover.{Lists, in_block, cover}
use my_kernel.Buddy.Inv.{IsValid, addr_exact}
use my_kernel.Buddy.Dealloc.{dealloc_pages-Deallocated}
use my_kernel.Buddy.Roundtrip.{allocated}

-- The sum of a function over the numbers below `n`.
sum : (n : ℕ) → (ℕ → ℕ) → ℕ
sum zero f = 0
sum (suc n) f = f n + sum n f

sum-plus : (n : ℕ) (f g h : ℕ → ℕ) → ((x : ℕ) → f x + g x ≡ h x) → sum n f + sum n g ≡ sum n h
unfolding sum
sum-plus zero f g h e = omega arith
sum-plus (suc n) f g h e = omega (arith, e n, sum-plus n f g h e)

sum-range :
    (n p c : ℕ) → sum n (λ x. if leb p x && ltb x (p + c) then 1 else 0) ≡ min n (p + c) - min n p
unfolding sum
sum-range zero p c = omega arith
sum-range (suc n) p c = ground (arith, sum-range n p c)

sum-block : (n order page : ℕ) → page + 2 ^ order ≤ n → sum n (in_block order page) ≡ 2 ^ order
sum-block n order page inside = sum-range n page (2 ^ order) ∙ omega (arith, inside)

-- How many pages are free.
pub free_pages : Lists → ℕ
unfolding sum
free_pages F = sum max_pages (cover F)

sum-none : (n : ℕ) (f : ℕ → ℕ) → ((x : ℕ) → f x ≡ 0) → sum n f ≡ 0
unfolding sum
sum-none zero f e = refl
sum-none (suc n) f e = omega (arith, e n, sum-none n f e)

pub free_pages-none : (F : Lists) → ((x : ℕ) → cover F x ≡ 0) → free_pages F ≡ 0
unfolding free_pages
free_pages-none F e = sum-none max_pages (cover F) e

-- Fewer by a block's pages.
pub free_pages-block :
    (F F' : Lists) (order page : ℕ)
    → page + 2 ^ order ≤ max_pages
    → ((x : ℕ) → cover F' x + in_block order page x ≡ cover F x)
    → free_pages F' + 2 ^ order ≡ free_pages F
unfolding free_pages
free_pages-block F F' order page inside taken =
    ap (λ (k : ℕ). sum max_pages (cover F') + k) (sym (sum-block max_pages order page inside))
    ∙ sum-plus max_pages (cover F') (in_block order page) (cover F) taken

-- A block that was handed out and not given back.
pub record Held : Type 0 where
  pub order : ℕ
  pub address : ℕ

abbrev pub page_of : (base : ℕ) → Held → ℕ
page_of base o = (o.address - base) / page_size

-- The pages of the blocks, and how often a page is in them.
abbrev pub held_pages : List Held → ℕ
held_pages [] = 0
held_pages (o ∷ os) = 2 ^ o.order + held_pages os

abbrev pub held : (base : ℕ) → List Held → (x : ℕ) → ℕ
held base [] x = 0
held base (o ∷ os) x = in_block o.order (page_of base o) x + held base os x

pub record IsBlock (base : ℕ) (o : Held) : Type 0 where
  pub known_order : o.order < buddy_max_order
  pub aligned : page_of base o % 2 ^ o.order ≡ 0
  pub inside : page_of base o + 2 ^ o.order ≤ max_pages
  pub address : o.address ≡ addr_of base (page_of base o)

-- The counts are exact: free and used bytes are those of the free pages and of the blocks handed out.
pub record IsCounted (base : ℕ) (b : BuddyAllocator) (out : List Held) : Type 0 where
  pub lists : Lists
  pub valid : IsValid b lists
  pub based : b.base ≡ base
  pub blocks : All (IsBlock base) out
  pub apart : (x : ℕ) → cover lists x + held base out x ≤ 1
  pub free : b.stats.free_bytes ≡ free_pages lists * page_size
  pub used : b.stats.used_bytes ≡ held_pages out * page_size
  pub whole : b.stats.used_bytes + b.stats.free_bytes ≡ b.stats.total_bytes
  pub small : b.stats.total_bytes < 2 ^ 64

-- A successful allocation, or the return of one of the blocks handed out.
pub data Step : BuddyAllocator × List Held → BuddyAllocator × List Held → Type 0 where
  take :
      {b c : BuddyAllocator} {out : List Held} {a : ℕ} (order : ℕ)
      → order < buddy_max_order
      → alloc_pages b order ≡ ok (some a, c)
      → Step (b, out) (c, record { order = order; address = a } ∷ out)
  give :
      {b c : BuddyAllocator} (before : List Held) (o : Held) (behind : List Held)
      → dealloc_pages b o.address o.order ≡ ok c
      → Step (b, before ++ o ∷ behind) (c, before ++ behind)

pub data Steps (s : BuddyAllocator × List Held) : BuddyAllocator × List Held → Type 0 where
  start : Steps s s
  onward : {t u : BuddyAllocator × List Held} → Steps s t → Step t u → Steps s u

module _ (base : ℕ) (o : Held) (behind : List Held) where
  held-middle :
      (before : List Held) (x : ℕ)
      → held base (before ++ o ∷ behind) x
        ≡ in_block o.order (page_of base o) x + held base (before ++ behind) x
  held-middle [] x = refl
  held-middle (q ∷ qs) x = omega (arith, held-middle qs x)

  held_pages-middle :
      (before : List Held)
      → held_pages (before ++ o ∷ behind) ≡ 2 ^ o.order + held_pages (before ++ behind)
  held_pages-middle [] = refl
  held_pages-middle (q ∷ qs) = omega (arith, held_pages-middle qs)

  All-middle :
      (before : List Held)
      → All (IsBlock base) (before ++ o ∷ behind)
      → IsBlock base o × All (IsBlock base) (before ++ behind)
  All-middle [] (here, rest) = (here, rest)
  All-middle (q ∷ qs) (first, rest) =
      let (here, others) = All-middle qs rest in (here, (first, others))

take_fits :
    (s : AllocStats) (free bytes : ℕ)
    → s.free_bytes ≡ free + bytes
    → s.used_bytes + s.free_bytes ≡ s.total_bytes
    → s.total_bytes < 2 ^ 64
    → ((count_alloc s bytes).used_bytes ≡ s.used_bytes + bytes)
      × ((count_alloc s bytes).free_bytes ≡ free)
      × ((count_alloc s bytes).total_bytes ≡ s.total_bytes)
unfolding count_alloc
take_fits s free bytes e whole small = omega (arith, e, whole, small)

give_fits :
    (s : AllocStats) (used bytes : ℕ)
    → s.used_bytes ≡ used + bytes
    → s.used_bytes + s.free_bytes ≡ s.total_bytes
    → s.total_bytes < 2 ^ 64
    → ((count_dealloc s bytes).used_bytes ≡ used)
      × ((count_dealloc s bytes).free_bytes ≡ s.free_bytes + bytes)
      × ((count_dealloc s bytes).total_bytes ≡ s.total_bytes)
unfolding count_dealloc
give_fits s used bytes e whole small = omega (arith, e, whole, small)

take-IsCounted :
    {base a : ℕ} {b c : BuddyAllocator} {out : List Held} (order : ℕ)
    → order < buddy_max_order
    → alloc_pages b order ≡ ok (some a, c)
    → IsCounted base b out
    → IsCounted base c (record { order = order; address = a } ∷ out)
take-IsCounted {base} {a} {b} {c} {out} order h e counted =
    let m = allocated order counted.valid h e in
    let o : Held = record { order = order; address = a } in
    let low : m.page < max_pages = omega (arith, m.inside, two-pow-pos order) in
    let exact : a ≡ b.base + m.page * page_size =
      m.address ∙ addr_exact b.base counted.valid.base_fits m.page low in
    let page : page_of base o ≡ m.page = omega (arith, exact, counted.based) in
    let bytes = 2 ^ order * page_size in
    let fewer = free_pages-block counted.lists m.lists order m.page m.inside m.taken in
    let (used, free, total) =
      take_fits b.stats (free_pages m.lists * page_size) bytes (omega (arith, counted.free, fewer))
        counted.whole counted.small in
    record {
      lists = m.lists;
      valid = m.valid;
      based = m.base ∙ counted.based;
      blocks = (
        record {
          known_order = h;
          aligned = rw page m.aligned;
          inside = rw page m.inside;
          address = rw page (m.address ∙ ap (λ t. addr_of t m.page) counted.based);
        },
        counted.blocks,
      );
      apart = λ x. rw page (omega (arith, m.taken x, counted.apart x));
      free = ap (λ (s : AllocStats). s.free_bytes) m.counted ∙ free;
      used = ap (λ (s : AllocStats). s.used_bytes) m.counted ∙ used ∙ omega (arith, counted.used);
      whole = rw m.counted (omega (arith, used, free, total, counted.whole, counted.free, fewer));
      small = rw m.counted (omega (arith, total, counted.small));
    }

give-IsCounted :
    {base : ℕ} {b c : BuddyAllocator} (before : List Held) (o : Held) (behind : List Held)
    → dealloc_pages b o.address o.order ≡ ok c
    → IsCounted base b (before ++ o ∷ behind)
    → IsCounted base c (before ++ behind)
give-IsCounted {base} {b} {c} before o behind e counted =
    let (one, others) = All-middle base o behind before counted.blocks in
    let page = page_of base o in
    let alone : (x : ℕ)
        → cover counted.lists x + (in_block o.order page x + held base (before ++ behind) x) ≤ 1 =
      λ x. omega (arith, counted.apart x, held-middle base o behind before x) in
    let back = dealloc_pages-Deallocated counted.valid o.order page one.known_order (record {
      aligned = one.aligned;
      inside = one.inside;
      apart = λ x. omega (arith, alone x);
    }) in
    let call : dealloc_pages b (addr_of b.base page) o.order ≡ ok c =
      ap (λ t. dealloc_pages b t o.order) (ap (λ t. addr_of t page) counted.based ∙ sym one.address)
      ∙ e in
    let same : back.after ≡ c =
      ap (λ r. elim r [ ok x ↦ x | panic ↦ c ]) (sym back.result ∙ call) in
    let bytes = 2 ^ o.order * page_size in
    let more =
      free_pages-block back.lists counted.lists o.order page one.inside
        (λ x. sym (back.returned x)) in
    let (used, free, total) =
      give_fits b.stats (held_pages (before ++ behind) * page_size) bytes
        (omega (arith, counted.used, held_pages-middle base o behind before)) counted.whole
        counted.small in
    rw (← same) (record {
      lists = back.lists;
      valid = back.valid;
      based = back.base ∙ counted.based;
      blocks = others;
      apart = λ x. omega (arith, back.returned x, alone x);
      free =
          ap (λ (s : AllocStats). s.free_bytes) back.counted
          ∙ free
          ∙ omega (arith, counted.free, more);
      used = ap (λ (s : AllocStats). s.used_bytes) back.counted ∙ used;
      whole = rw back.counted (
          omega (
            arith,
            used,
            free,
            total,
            counted.whole,
            counted.used,
            held_pages-middle base o behind before,
          ));
      small = rw back.counted (omega (arith, total, counted.small));
    })

-- From a valid allocator whose counts are exact, with the blocks that are handed out, in base and order, apart from each
-- other and from the free ones, and less than 2^64 bytes in all: after any sequence of successful allocations and of
-- returns of blocks handed out the counts are exact again. `free_bytes` is what the free pages have, `used_bytes` what
-- the blocks handed out have, and their sum is `total_bytes`, so that no count goes below 0 or past 2^64.
pub Steps-IsCounted :
    {base : ℕ} {s t : BuddyAllocator × List Held}
    → Steps s t
    → IsCounted base s.0 s.1
    → IsCounted base t.0 t.1
Steps-IsCounted start counted = counted
Steps-IsCounted (onward rest (take order h e)) counted =
    take-IsCounted order h e (Steps-IsCounted rest counted)
Steps-IsCounted (onward rest (give before o behind e)) counted =
    give-IsCounted before o behind e (Steps-IsCounted rest counted)
