-- ===== src/Platform/Tests.antt =====
-- The theorems on src/os_constants.rs at concrete values.
use my_kernel.Prelude.{◌≡◌, refl, arith, false, some}
use my_kernel.Platform.Arch.{Cfg, target_mips64, little}
use my_kernel.Platform.Pages.{kib4, mib2, align_up, align_down}
use my_kernel.Platform.PageLaws.{AlignsUp, RoundsDown, align_up-AlignsUp, align_down-RoundsDown}
use my_kernel.Platform.Regions.{acpi_reclaimable}
use my_kernel.Platform.Laws.{
  Detected, current-Detected, BuiltTwice, Classified, RegionUse, MemoryRegionKind-Classified,
}

align_up_run : align_up kib4 0x1001 ≡ some 0x2000
unfolding align_up
align_up_run = refl

align_up-AlignsUp_example : AlignsUp kib4 0x1001 (align_up kib4 0x1001)
align_up-AlignsUp_example = align_up-AlignsUp kib4 0x1001 (omega arith)

RoundsDown-mib2 : RoundsDown mib2 0x3FFFFF (align_down mib2 0x3FFFFF)
RoundsDown-mib2 = align_down-RoundsDown mib2 0x3FFFFF (omega arith)

abbrev mips64_little : Cfg
mips64_little = record { target_arch = target_mips64; target_endian = little; vfp2 = false }

built : BuiltTwice target_mips64
unfolding BuiltTwice
built = tt

mips64-Detected : Detected mips64_little
mips64-Detected = current-Detected mips64_little built

acpi-Classified : (u : RegionUse) × Classified acpi_reclaimable u
acpi-Classified = MemoryRegionKind-Classified acpi_reclaimable
