-- ===== src/Limine/Tests.antt =====
-- A memory map of two regions, of which one is given, and the theorem at it.
use my_kernel.Prelude.{ℕ, ◌+◌, ◌*◌, ◌/◌, ◌≡◌, refl, arith, List, [], ◌∷◌}
use my_kernel.Links.{Links}
use my_kernel.Buddy.Cover.{cover}
use my_kernel.Buddy.Region.{no_lists, based, based-IsValid, set_base-new}
use my_kernel.Limine.{
  MemmapEntry, MemmapTypes, reserved, Align, IsAlign, MemoryRegion, bootloader_reclaimable, usable,
  aligned_base, page_count, skips, release_regions,
}
use my_kernel.Limine.Inside.{IsInside, skips-IsInside}
use my_kernel.Limine.Release.{Released, release-Released, given_pages}

abbrev align : Align
align = record { align_up = λ x n. (x + 4095) / 4096 * 4096; align_down = λ x n. x / 4096 * 4096 }

align-IsAlign : IsAlign align
align-IsAlign = record { up = λ x h. refl; down = λ x h. refl }

abbrev links : Links
links = record { prev = λ p. 7; next = λ p. 7 }

abbrev start : ℕ
start = 0x100000

no_cover : (x : ℕ) → cover no_lists x ≡ 0
no_cover = (set_base-new links start (omega arith) refl (omega arith)).2

-- Two pages and a tail of the boot loader, and memory that the kernel has already.
abbrev regions : List MemoryRegion
regions =
    record { base = 0x102000; length = 0x2800; region_type = bootloader_reclaimable }
    ∷ record { base = 0x110000; length = 0x4000; region_type = usable }
    ∷ []

tail_dropped :
    page_count align (record { base = 0x102001; length = 0x2800; region_type = usable }) ≡ 1
unfolding page_count
tail_dropped = refl

release-Released_example :
    Released
      (based links start)
      no_lists
      (given_pages 0 0x200000 start regions)
      (release_regions align 0 0x200000 regions (based links start))
unfolding my_kernel.Limine.is_reclaimable
release-Released_example =
    release-Released align align-IsAlign 0 0x200000 (based links start) no_lists regions
      (based-IsValid links start (omega arith) (omega arith)) refl refl
      (
        record {
          fits = omega arith;
          up_fits = omega arith;
          above = λ given. omega arith;
          inside = λ given. omega arith;
        },
        (
          record {
            fits = omega arith;
            up_fits = omega arith;
            above = λ given. omega arith;
            inside = λ given. omega arith;
          },
          tt,
        ),
      )
      (λ y. ground (arith, no_cover y))

skips-IsInside_example :
    IsInside align 0x200000
      (record { base = 0x102001; length = 0x2800; region_type = bootloader_reclaimable })
unfolding skips aligned_base page_count
skips-IsInside_example =
    skips-IsInside align 0x200000 align-IsAlign
      (record { base = 0x102001; length = 0x2800; region_type = bootloader_reclaimable })
      (omega arith) (omega arith) refl

abbrev limine : MemmapTypes
limine = record {
  memmap_usable = 0;
  memmap_bootloader_reclaimable = 5;
  memmap_acpi_reclaimable = 2;
  memmap_acpi_nvs = 3;
  memmap_executable_and_modules = 6;
  memmap_framebuffer = 7;
  memmap_bad_memory = 4;
}

abbrev entries : List MemmapEntry
entries =
    record { entry_base = 0x1000; entry_length = 0x9F000; type_ = 0 }
    ∷ record { entry_base = 0x102000; entry_length = 0x2800; type_ = 5 }
    ∷ []

abbrev no_regions : ℕ → MemoryRegion
no_regions i = record { base = 0; length = 0; region_type = reserved }
