-- ===== src/Paging/Tests.antt =====
-- Entries of the processor's format, a small stock of frames, and the theorems on the page tables at them.
use my_kernel.Prelude.{
  ℕ, ◌-◌, ◌+◌, ◌*◌, ◌/◌, ◌%◌, ◌^◌, ◌≤◌, ◌<◌, ◌≡◌, refl, sym, ap, ◌∙◌, arith, false, ◌==◌, ◌&&◌, All,
  leb, ◌||◌, true-ne-false, Bool-cases, inl, inr, Option, none, some, [], ◌∷◌, if◌then◌else◌,
  update,
}
use my_kernel.Paging.{
  zeroed, write, Paging, IsX86, IsFrame, IsFlags, IsPageSize, small, large, giant, Memory, read,
}
use my_kernel.Paging.Frames.{FrameSource}
use my_kernel.Paging.Walker.{Mem, Result, entry, pml4_phys, map, unmap, map_mmio, translate}
use my_kernel.Paging.Lookup.{walk, prefix}
use my_kernel.Paging.Map.{is_huge, IsPaged, Maps, mapped, no_frame, refused, map-Maps}
use my_kernel.Paging.Unmap.{Unmapped, unmap-Unmapped}
use my_kernel.Paging.Protection.{
  kernel_ro, kernel_rw, kernel_rx, kernel_rwx_boot, kernel_rwx, mmio_uc, mmio_wc, IsProtection,
  is_writable, is_executable, protections-IsProtection,
}
use my_kernel.Prelude.Panic.{◌>>=◌}
use my_kernel.Prelude.Panic
use my_kernel.Links.{Links}
use my_kernel.Buddy.{BuddyAllocator}
use my_kernel.Buddy.Cover.{Lists}
use my_kernel.Buddy.Inv.{IsValid}
use my_kernel.Buddy.Free.{freed, freed-IsValid}
use my_kernel.Buddy.Region.{based, based-IsValid, no_lists, set_base-new}
use my_kernel.Stack.{alloc_kernel_stack}
use my_kernel.Stack.Guarded.{Stacks, alloc_kernel_stack-Stacks}
use my_kernel.Paging.Pml4.{install_kernel_pml4}
use my_kernel.Paging.Mmio.{MapsWindow, map_mmio-MapsWindow}

abbrev x86 : Paging
x86 = record {
  pte_encode = λ phys size flags. phys + flags;
  pte_is_present = λ e. e % 2 == 1;
  pte_is_huge = λ e. e / 2 ^ 7 % 2 == 1;
  pte_phys_addr = λ e size. e % 2 ^ 52 / size * size % 2 ^ 64;
  vaddr_pt_index = λ v level. v / 2 ^ (3 + 9 * level) % 512;
  present = 0x1;
  writable = 0x2;
  write_through = 0x8;
  cache_disable = 0x10;
  huge_page = 0x80;
  pat = 0x80;
  global = 0x100;
  no_execute = 2 ^ 63;
}

x86-address :
    (phys size flags : ℕ)
    → IsPageSize size
    → IsFrame size phys
    → IsFlags flags
    → (phys + flags) % 2 ^ 52 / size * size % 2 ^ 64 ≡ phys
x86-address phys size flags (small _ e) f h = rw e (omega (arith, rw e at f.aligned, f.fits))
x86-address phys size flags (large _ e) f h = rw e (omega (arith, rw e at f.aligned, f.fits))
x86-address phys size flags (giant _ e) f h = rw e (omega (arith, rw e at f.aligned, f.fits))

page_aligned : (phys size : ℕ) → IsPageSize size → IsFrame size phys → phys % 4096 ≡ 0
page_aligned phys size (small _ e) f = omega (arith, rw e at f.aligned)
page_aligned phys size (large _ e) f = omega (arith, rw e at f.aligned)
page_aligned phys size (giant _ e) f = omega (arith, rw e at f.aligned)

x86-IsX86 : IsX86 x86
x86-IsX86 = record {
  absent_zero = refl;
  phys_addr_encode = x86-address;
  present_encode =
      λ phys size flags s f h. ap (λ n. n == 1) (omega (arith, page_aligned phys size s f));
  huge_encode =
      λ phys size flags s f h. ap (λ n. n == 1) (omega (arith, page_aligned phys size s f));
  phys_addr_word = λ e size. omega arith;
  index_4 = λ v. refl;
  index_3 = λ v. refl;
  index_2 = λ v. refl;
  index_1 = λ v. refl;
  present_is = refl;
  writable_is = refl;
  write_through_is = refl;
  cache_disable_is = refl;
  huge_page_is = refl;
  pat_is = refl;
  global_is = refl;
  no_execute_is = refl;
}

-- A stock of the frames 1 to `n`, the last first.
abbrev take_frame : ℕ → Option ℕ × ℕ
take_frame n = if n == 0 || leb (2 ^ 20) n then (none, n) else (some (n * 4096), n - 1)

take_frame-left : (s : ℕ) → (take_frame s).1 ≤ s
take_frame-left s = ground arith

take_frame-given :
    (s v : ℕ)
    → (take_frame s).0 ≡ some v
    → (v ≡ s * 4096) × (1 ≤ s) × (s < 2 ^ 20) × ((take_frame s).1 ≡ s - 1)
take_frame-given s v h = (grind arith, grind arith, grind arith, grind arith)

abbrev stock : FrameSource 0
stock = record {
  hhdm_word = omega arith;
  State = ℕ;
  alloc = take_frame;
  IsFree = λ n v. (v % 4096 ≡ 0) × (1 ≤ v / 4096) × (v / 4096 ≤ n) × (v < 2 ^ 52);
  alloc_free = λ s s' v e.
      let (at, lo, hi, left) = take_frame-given s v (ap (λ r. r.0) e) in
      (omega arith, omega arith, omega arith, omega arith);
  alloc_taken = λ s s' v e u (a, b, c, d) same.
      let (at, lo, hi, left) = take_frame-given s v (ap (λ r. r.0) e) in
      absurd (omega (arith, ap (λ r. r.1) e));
  alloc_kept =
      λ s s' r e u (a, b, c, d). (a, b, omega (arith, take_frame-left s, ap (λ r. r.1) e), d);
  free_word = λ s v (a, b, c, d). omega arith;
  free_frame = λ s v (a, b, c, d). record { aligned = omega arith; fits = omega arith };
}

-- Frame 256 holds the topmost table, and three frames are left.
abbrev empty_memory : Memory ℕ
empty_memory = record {
  tables = λ t i. 0;
  cr3 = 0x100000;
  frames = 3;
  invalidated = [];
  ia32_pat = none;
}

empty-IsPaged : IsPaged x86 stock empty_memory
unfolding pml4_phys entry read prefix
empty-IsPaged = record {
  tags = record { level = update (λ t. 0) 0x100000 4; prefix_of = λ t. 0 };
  tree = record {
    root = λ v. record { at_level = refl; at_prefix = refl };
    child = λ l t v at present goes. absurd (true-ne-false (sym present));
    fresh = λ v free. ground (arith, free.2);
  };
}

abbrev buffer_flags : ℕ
buffer_flags = 2 ^ 63 + 2

map-Maps_example :
    Maps x86 stock empty_memory 0x400000 0x9000
      (map x86 stock 0x400000 0x9000 buffer_flags empty_memory)
unfolding walk entry
map-Maps_example =
    map-Maps x86 x86-IsX86 stock empty_memory empty-IsPaged 0x400000 0x9000 buffer_flags refl
      (omega arith) refl

abbrev mapped_memory : Memory ℕ
mapped_memory = (map x86 stock 0x400000 0x9000 buffer_flags empty_memory).1

Maps-IsPaged :
    (m : Mem x86 stock) (v phys : ℕ)
    → IsPaged x86 stock m
    → (r : Result (Option ℕ) × Mem x86 stock) → Maps x86 stock m v phys r
    → IsPaged x86 stock r.1
Maps-IsPaged m v phys paged _ (mapped v_al f_al old m' done) = done.paged
Maps-IsPaged m v phys paged _ (no_frame v_al f_al m' kept s few given) = kept.paged
Maps-IsPaged m v phys paged _ (refused bad) = paged

mapped-IsPaged : IsPaged x86 stock mapped_memory
mapped-IsPaged = Maps-IsPaged empty_memory 0x400000 0x9000 empty-IsPaged _ map-Maps_example

translated : translate x86 stock mapped_memory 0x400123 ≡ some 0x9123
unfolding translate map entry pml4_phys
translated = refl

unmap-Unmapped_example :
    Unmapped x86 x86-IsX86 stock mapped_memory 0x400000 (unmap x86 stock mapped_memory 0x400000)
unfolding walk entry map pml4_phys
unmap-Unmapped_example =
    unmap-Unmapped x86 x86-IsX86 stock mapped_memory mapped-IsPaged 0x400000 refl refl

map_mmio-MapsWindow_example :
    MapsWindow x86 x86-IsX86 stock empty_memory
      (prefix 0 0x400000)
      0x9000
      2
      (map_mmio x86 stock 0x400000 0x9000 5000 buffer_flags empty_memory)
unfolding walk entry prefix
map_mmio-MapsWindow_example =
    map_mmio-MapsWindow x86 x86-IsX86 stock empty_memory empty-IsPaged 0x400000 0x9000 5000
      buffer_flags refl refl refl (omega arith) (omega arith) (omega arith) (omega arith)
      (λ k less. refl)

protections-IsProtection_example :
    All
      (IsProtection 6)
      (kernel_ro x86 ∷ kernel_rw x86 ∷ kernel_rx x86 ∷ kernel_rwx_boot x86 ∷ kernel_rwx x86 ∷ [])
    × IsProtection 0 (mmio_uc x86)
    × IsProtection 1 (mmio_wc x86)
    × All
        (λ flags. (is_writable flags && is_executable flags) ≡ false)
        (kernel_ro x86 ∷ kernel_rw x86 ∷ kernel_rx x86 ∷ mmio_uc x86 ∷ mmio_wc x86 ∷ [])
protections-IsProtection_example = protections-IsProtection x86 x86-IsX86

-- Six frames suffice for the tables of 4 MiB of memory and of an image of two pages.
abbrev six_frames : Memory ℕ
six_frames = record empty_memory { frames = 6 }

abbrev image_start : ℕ
image_start = 0xFFFFFFFF80000000

-- The tables at start do map the image and the memory.
abbrev seen : Memory ℕ → Option ℕ × Option ℕ
seen m = (translate x86 stock m (image_start + 0x1234), translate x86 stock m 0x3FFFFF)

booted :
    (install_kernel_pml4 x86 stock image_start (image_start + 0x1800) 0x200000 0x400000 six_frames
      >>= λ m. Panic.ok (seen m))
    ≡ Panic.ok (some 0x201234, some 0x3FFFFF)
unfolding install_kernel_pml4 translate zeroed
booted = refl

-- No page of the empty tables is huge, and mapping keeps it so.
Maps-small :
    (m : Mem x86 stock) (v phys : ℕ)
    → ((w : ℕ) → is_huge x86 stock m w ≡ false)
    → (r : Result (Option ℕ) × Mem x86 stock) → Maps x86 stock m v phys r
    → (w : ℕ) → is_huge x86 stock r.1 w ≡ false
Maps-small m v phys none_huge _ (mapped v_al f_al old m' done) w =
    ground (arith, done.huge w, none_huge w)
Maps-small m v phys none_huge _ (no_frame v_al f_al m' kept s few given) w =
    kept.huge w ∙ none_huge w
Maps-small m v phys none_huge _ (refused bad) w = none_huge w

empty_small : (w : ℕ) → is_huge x86 stock empty_memory w ≡ false
unfolding pml4_phys entry read walk
empty_small w = refl

mapped_small : (w : ℕ) → is_huge x86 stock mapped_memory w ≡ false
mapped_small = Maps-small empty_memory 0x400000 0x9000 empty_small _ map-Maps_example

root_small :
    (w : ℕ)
    → x86.pte_is_huge (entry x86 stock mapped_memory (pml4_phys x86 stock mapped_memory) w 4)
      ≡ false
unfolding entry read write map pml4_phys
root_small w = elim (Bool-cases (w / 549755813888 % 512 == 0)) [
  | inl root ↦ rw root refl
  | inr other ↦ rw other refl
]

abbrev no_links : Links
no_links = record { prev = λ x. 0; next = λ x. 0 }

-- Sixteen free pages from 0x400000 on, the first of which is mapped.
abbrev sixteen : BuddyAllocator
sixteen = freed (based no_links 0x400000) 0 4

abbrev sixteen_lists : Lists
sixteen_lists = update no_lists 4 (0 ∷ no_lists 4)

sixteen-IsValid : IsValid sixteen sixteen_lists
sixteen-IsValid =
    freed-IsValid (based-IsValid no_links 0x400000 (omega arith) (omega arith)) 0 4 (omega arith)
      refl (omega arith)
      (λ y. ground (arith, (set_base-new no_links 0x400000 (omega arith) refl (omega arith)).2 y))

alloc_kernel_stack-Stacks_example :
    Stacks x86 x86-IsX86 stock sixteen sixteen_lists 8 mapped_memory
      (alloc_kernel_stack x86 stock 8 sixteen mapped_memory)
alloc_kernel_stack-Stacks_example =
    alloc_kernel_stack-Stacks x86 x86-IsX86 stock sixteen sixteen_lists 8 mapped_memory
      sixteen-IsValid (omega arith) mapped-IsPaged (λ w. (mapped_small w, root_small w))
