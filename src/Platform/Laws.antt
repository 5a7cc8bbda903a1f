-- ===== src/Platform/Laws.antt =====
-- Architectures, regions, privilege levels and displays of src/os_constants.rs: facts about every value of
-- an enumeration.
use my_kernel.Prelude.{
  ℕ, ◌*◌, ◌≤◌, ◌≡◌, ◌≢◌, ◌⊎◌, inl, inr, refl, arith, Bool, true, false, none, some, if◌then◌else◌,
}
use my_kernel.Platform.Arch.{
  Architecture, mips, mips_el, mips64, mips64_el, power_pc64, power_pc64_le, Endianness, little,
  big, TargetArch, target_mips, target_mips64, target_powerpc64, Cfg, current, current_of, native,
  endianness, is_bi_endian, RegisterWidth, bits8, bits16, bits32, bits64, bits128, bits,
  register_bytes, CpuPrivilegeLevel, kernel, hypervisor, secure_monitor, user, x86_ring, aarch64_el,
  is_privileged, is_big,
}
use my_kernel.Platform.Regions.{
  MemoryRegionKind, usable, bootloader_reclaimable, acpi_reclaimable, acpi_nvs, kernel_and_modules,
  framebuffer, mmio, persistent, bad_memory, reserved, is_immediately_usable, is_reclaimable,
  is_reserved,
}
use my_kernel.Platform.Display.{
  PixelFormat, rgb32, bgr32, argb32, bgra32, rgb24, bgr24, rgb565, indexed8, grey8, unknown,
  Rotation, degrees0, degrees90, degrees180, degrees270, bpp, bytes_per_pixel, has_alpha, flipped,
  transposes_dimensions,
}

-- The targets that `current` tells apart by their byte order.
unfoldable pub BuiltTwice : TargetArch → Type 0
BuiltTwice target_mips = Unit
BuiltTwice target_mips64 = Unit
BuiltTwice target_powerpc64 = Unit
BuiltTwice _ = ⊥

-- What `current` promises of the architecture it names.
pub Detected : Cfg → Type 0
Detected c =
    (a : Architecture) × (current c ≡ some a) × (endianness a ≡ native c) × (is_bi_endian a ≡ true)

Detected-order :
    (t : TargetArch) (e : Endianness) (v : Bool)
    → BuiltTwice t
    → Detected (record { target_arch = t; target_endian = e; vfp2 = v })
unfolding BuiltTwice Detected current current_of endianness native is_bi_endian is_big
Detected-order target_mips little v built = (mips_el, refl, refl, refl)
Detected-order target_mips big v built = (mips, refl, refl, refl)
Detected-order target_mips64 little v built = (mips64_el, refl, refl, refl)
Detected-order target_mips64 big v built = (mips64, refl, refl, refl)
Detected-order target_powerpc64 little v built = (power_pc64_le, refl, refl, refl)
Detected-order target_powerpc64 big v built = (power_pc64, refl, refl, refl)
Detected-order _ e v built = absurd built

-- For a MIPS or 64-bit PowerPC target, `current` names a bi-endian architecture whose byte order is the
-- target's.
pub current-Detected : (c : Cfg) → BuiltTwice c.target_arch → Detected c
current-Detected c built = Detected-order c.target_arch c.target_endian c.vfp2 built

-- The three ways a memory region may be used.
pub data RegionUse : Type 0 where
  at_boot after_reclaim never : RegionUse

-- Exactly one of the three tests of a region kind holds, and which.
pub Classified : MemoryRegionKind → RegionUse → Type 0
Classified k at_boot =
    (is_immediately_usable k ≡ true) × (is_reclaimable k ≡ false) × (is_reserved k ≡ false)
Classified k after_reclaim =
    (is_immediately_usable k ≡ false) × (is_reclaimable k ≡ true) × (is_reserved k ≡ false)
Classified k never =
    (is_immediately_usable k ≡ false) × (is_reclaimable k ≡ false) × (is_reserved k ≡ true)

-- The tests `is_immediately_usable`, `is_reclaimable` and `is_reserved` split the region kinds: each kind
-- passes exactly one.
pub MemoryRegionKind-Classified : (k : MemoryRegionKind) → (u : RegionUse) × Classified k u
unfolding Classified is_immediately_usable is_reclaimable is_reserved
MemoryRegionKind-Classified usable = (at_boot, (refl, refl, refl))
MemoryRegionKind-Classified bootloader_reclaimable = (after_reclaim, (refl, refl, refl))
MemoryRegionKind-Classified acpi_reclaimable = (after_reclaim, (refl, refl, refl))
MemoryRegionKind-Classified acpi_nvs = (never, (refl, refl, refl))
MemoryRegionKind-Classified kernel_and_modules = (never, (refl, refl, refl))
MemoryRegionKind-Classified framebuffer = (never, (refl, refl, refl))
MemoryRegionKind-Classified mmio = (never, (refl, refl, refl))
MemoryRegionKind-Classified persistent = (never, (refl, refl, refl))
MemoryRegionKind-Classified bad_memory = (never, (refl, refl, refl))
MemoryRegionKind-Classified reserved = (never, (refl, refl, refl))

-- Turning the display over twice restores it, never leaves it as it is, and keeps the dimensions' order.
pub flipped-flipped :
    (r : Rotation)
    → (flipped (flipped r) ≡ r)
      × (flipped r ≢ r)
      × (transposes_dimensions (flipped r) ≡ transposes_dimensions r)
unfolding flipped transposes_dimensions
flipped-flipped degrees0 = (refl, λ h. ground arith, refl)
flipped-flipped degrees90 = (refl, λ h. ground arith, refl)
flipped-flipped degrees180 = (refl, λ h. ground arith, refl)
flipped-flipped degrees270 = (refl, λ h. ground arith, refl)

-- A pixel takes whole bytes: exactly its bits, and a format with alpha takes four of them.
pub bytes_per_pixel-bpp :
    (f : PixelFormat)
    → (bytes_per_pixel f * 8 ≡ bpp f) × (has_alpha f ≡ true → bytes_per_pixel f ≡ 4)
unfolding bytes_per_pixel bpp has_alpha
bytes_per_pixel-bpp argb32 = (refl, λ h. refl)
bytes_per_pixel-bpp bgra32 = (refl, λ h. refl)
bytes_per_pixel-bpp rgb32 = (refl, λ h. ground arith)
bytes_per_pixel-bpp bgr32 = (refl, λ h. ground arith)
bytes_per_pixel-bpp rgb24 = (refl, λ h. ground arith)
bytes_per_pixel-bpp bgr24 = (refl, λ h. ground arith)
bytes_per_pixel-bpp rgb565 = (refl, λ h. ground arith)
bytes_per_pixel-bpp indexed8 = (refl, λ h. ground arith)
bytes_per_pixel-bpp grey8 = (refl, λ h. ground arith)
bytes_per_pixel-bpp unknown = (refl, λ h. ground arith)

-- Levels with an AArch64 exception level of 1 and above are the privileged ones, and where x86 has a ring,
-- ring 0 is exactly what the privileged levels have.
pub is_privileged-levels :
    (l : CpuPrivilegeLevel)
    → ((el : ℕ) × (aarch64_el l ≡ some el)
        × ((is_privileged l ≡ true) → 1 ≤ el)
        × ((is_privileged l ≡ false) → el ≡ 0))
      × ((x86_ring l ≡ none) ⊎ (x86_ring l ≡ (if is_privileged l then some 0 else some 3)))
unfolding aarch64_el x86_ring is_privileged
is_privileged-levels kernel = ((1, refl, λ h. omega arith, λ h. ground arith), inr refl)
is_privileged-levels hypervisor = ((2, refl, λ h. omega arith, λ h. ground arith), inr refl)
is_privileged-levels secure_monitor = ((3, refl, λ h. omega arith, λ h. ground arith), inl refl)
is_privileged-levels user = ((0, refl, λ h. ground arith, λ h. refl), inr refl)

-- The registers' bytes hold exactly their bits.
pub register_bytes-bits : (w : RegisterWidth) → register_bytes w * 8 ≡ bits w
unfolding register_bytes bits
register_bytes-bits bits8 = refl
register_bytes-bits bits16 = refl
register_bytes-bits bits32 = refl
register_bytes-bits bits64 = refl
register_bytes-bits bits128 = refl
