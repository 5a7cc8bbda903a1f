-- ===== src/Platform/Display.antt =====
-- Pixel formats and rotations: the module `display` of src/os_constants.rs.
use my_kernel.Prelude.{ℕ, ◌+◌, ◌/◌, Bool, true, false}

pub data PixelFormat : Type 0 where
  rgb32 bgr32 argb32 bgra32 rgb24 bgr24 rgb565 indexed8 grey8 unknown : PixelFormat

unfoldable pub bpp : PixelFormat → ℕ
bpp rgb32 = 32
bpp bgr32 = 32
bpp argb32 = 32
bpp bgra32 = 32
bpp rgb24 = 24
bpp bgr24 = 24
bpp rgb565 = 16
bpp indexed8 = 8
bpp grey8 = 8
bpp unknown = 0

unfoldable pub bytes_per_pixel : PixelFormat → ℕ
unfolding bpp
bytes_per_pixel f = (bpp f + 7) / 8

unfoldable pub has_alpha : PixelFormat → Bool
has_alpha argb32 = true
has_alpha bgra32 = true
has_alpha _ = false

pub data Rotation : Type 0 where
  degrees0 degrees90 degrees180 degrees270 : Rotation

unfoldable pub flipped : Rotation → Rotation
flipped degrees0 = degrees180
flipped degrees90 = degrees270
flipped degrees180 = degrees0
flipped degrees270 = degrees90

unfoldable pub transposes_dimensions : Rotation → Bool
transposes_dimensions degrees90 = true
transposes_dimensions degrees270 = true
transposes_dimensions _ = false
