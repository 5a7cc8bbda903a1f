-- ===== src/Heap/Tests.antt =====
-- One usable region of 8 MiB that holds the kernel, and the theorems at it.
use my_kernel.Prelude.{
  ℕ, ◌+◌, ◌*◌, ◌/◌, ◌≤◌, ◌≡◌, ◌⊎◌, refl, arith, List, [], ◌∷◌, some, All, sym, true-ne-false,
}
use my_kernel.Links.{Links}
use my_kernel.Buddy
use my_kernel.Limine.{Align, IsAlign, MemoryRegion, bootloader_reclaimable, usable}
use my_kernel.Tlsf
use my_kernel.Heap.{min_virt, init, give_regions}
use my_kernel.Heap.Regions.{Placed, region_pages, usable_pages}
use my_kernel.Heap.Init.{second_pass, NoBlock, Initialised, init-Initialised}
use my_kernel.Heap.OffKernel.{Spares, give_regions-Spares}
use my_kernel.Buddy.Cover.{cover}
use my_kernel.Buddy.Inv.{IsValid}
use my_kernel.Buddy.Region.{based, no_lists, set_base-new}
use my_kernel.Buddy.{set_base}
use my_kernel.Prelude.Panic.{ok}

abbrev align : Align
align = record { align_up = λ x n. (x + 4095) / 4096 * 4096; align_down = λ x n. x / 4096 * 4096 }

align-IsAlign : IsAlign align
align-IsAlign = record { up = λ x h. refl; down = λ x h. refl }

abbrev no_links : Links
no_links = record { prev = λ p. 0; next = λ p. 0 }

abbrev memory_region : MemoryRegion
memory_region = record { base = 0x100000; length = 0x800000; region_type = usable }

abbrev regions : List MemoryRegion
regions =
    record { base = 0x1000; length = 0x2000; region_type = bootloader_reclaimable }
    ∷ memory_region
    ∷ []

abbrev hhdm : ℕ
hhdm = 0x100000000

abbrev base : ℕ
base = 0x100100000

test_min_virt : min_virt align hhdm regions ≡ some base
unfolding min_virt my_kernel.Limine.aligned_base my_kernel.Limine.is_immediately_usable
test_min_virt = refl

test_usable_pages : (y : ℕ) → usable_pages hhdm align 0x200000 0x301000 base regions y ≤ 1
unfolding usable_pages region_pages my_kernel.Limine.aligned_base my_kernel.Limine.aligned_end
    my_kernel.Limine.region_end my_kernel.Heap.is_usable
test_usable_pages y = ground arith

init-Initialised_example :
    NoBlock
      (second_pass align 0x200100 0x300100 hhdm regions no_links base)
      (usable_pages hhdm align 0x200000 0x301000 base regions)
      (init align 0x200100 0x300100 hhdm regions
        (my_kernel.Buddy.new no_links)
        (my_kernel.Tlsf.new (λ x. 0) (λ x. 0) no_links))
    ⊎ Initialised base
        (usable_pages hhdm align 0x200000 0x301000 base regions)
        (my_kernel.Tlsf.new (λ x. 0) (λ x. 0) no_links)
        (init align 0x200100 0x300100 hhdm regions
          (my_kernel.Buddy.new no_links)
          (my_kernel.Tlsf.new (λ x. 0) (λ x. 0) no_links))
unfolding my_kernel.Limine.aligned_end my_kernel.Limine.region_end my_kernel.Heap.is_usable
init-Initialised_example =
    init-Initialised (λ x. 0) (λ x. 0) no_links align 0x200100 0x300100 hhdm regions no_links base
      test_min_virt (omega arith) refl (omega arith)
      ((λ good. omega arith), ((λ good. omega arith), tt)) test_usable_pages

regions-Placed : All (Placed hhdm align base) regions
unfolding my_kernel.Limine.aligned_end my_kernel.Limine.aligned_base my_kernel.Limine.region_end
    my_kernel.Heap.is_usable
regions-Placed = (
  (λ good pages. absurd (true-ne-false (sym good))),
  ((λ good pages. record { above = omega arith; inside = omega arith; fits = omega arith }), tt),
)

fresh_set :
    (set_base (my_kernel.Buddy.new no_links) base ≡ ok (based no_links base))
    × IsValid (based no_links base) no_lists
    × ((x : ℕ) → cover no_lists x ≡ 0)
fresh_set = set_base-new no_links base (omega arith) refl (omega arith)

give_regions-Spares_example :
    Spares
      (based no_links base)
      no_lists
      hhdm
      0x200100
      0x300100
      regions
      (give_regions hhdm align 0x200000 0x301000 regions (based no_links base))
give_regions-Spares_example =
    give_regions-Spares hhdm 0x200100 0x300100 align (based no_links base) no_lists regions
      align-IsAlign (fresh_set.1) refl refl (omega arith) (omega arith)
      ((omega arith, omega arith), ((omega arith, omega arith), tt)) regions-Placed
      (λ y. omega (arith, fresh_set.2 y, test_usable_pages y))
