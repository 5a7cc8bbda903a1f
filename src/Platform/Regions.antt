-- ===== src/Platform/Regions.antt =====
-- Memory region kinds and protection flags: the module `memory` of src/os_constants.rs.
use my_kernel.Prelude.{Bool, true, false, not, ◌&&◌}

pub data MemoryRegionKind : Type 0 where
  usable bootloader_reclaimable acpi_reclaimable acpi_nvs kernel_and_modules : MemoryRegionKind
  framebuffer mmio persistent bad_memory reserved : MemoryRegionKind

unfoldable pub is_immediately_usable : MemoryRegionKind → Bool
is_immediately_usable usable = true
is_immediately_usable _ = false

unfoldable pub is_reclaimable : MemoryRegionKind → Bool
is_reclaimable bootloader_reclaimable = true
is_reclaimable acpi_reclaimable = true
is_reclaimable _ = false

unfoldable pub is_reserved : MemoryRegionKind → Bool
unfolding is_immediately_usable is_reclaimable
is_reserved k = not (is_immediately_usable k) && not (is_reclaimable k)

pub record MemoryProtection : Type 0 where
  pub read : Bool
  pub write : Bool
  pub execute : Bool

abbrev pub read_only : MemoryProtection
read_only = record { read = true; write = false; execute = false }

abbrev pub read_write : MemoryProtection
read_write = record { read = true; write = true; execute = false }

abbrev pub read_execute : MemoryProtection
read_execute = record { read = true; write = false; execute = true }

abbrev pub kernel_code : MemoryProtection
kernel_code = read_execute

abbrev pub kernel_data : MemoryProtection
kernel_data = read_write

abbrev pub no_access : MemoryProtection
no_access = record { read = false; write = false; execute = false }

unfoldable pub is_wx_safe : MemoryProtection → Bool
is_wx_safe p = not (p.write && p.execute)
