-- ===== src/Framebuffer/Tests.antt =====
-- The writer of src/writers/framebuffer.rs on a picture of 640 by 480 pixels.
use my_kernel.Prelude.{◌*◌, ◌≡◌, refl, arith, [], ◌∷◌, All, some}
use my_kernel.Framebuffer.{FbWriter, zeroed, draw_char, write_str, init_from_info}
use my_kernel.Framebuffer.Bounds.{Inside, draw_char-Inside}
use my_kernel.Framebuffer.Cursor.{Ready, write_str-Ready, init_from_info-Ready}

abbrev vga : FbWriter
vga = record {
  width = 640;
  height = 480;
  pitch = 2560;
  bpp = 4;
  r_shl = 16;
  g_shl = 8;
  b_shl = 0;
  col = 0;
  row = 0;
  cols = 80;
  rows = 30;
}

vga-Ready : Ready vga
vga-Ready = record {
  laid_out = record {
    width_u32 = omega arith;
    height_u32 = omega arith;
    four_bytes = refl;
    grid_width = omega arith;
    grid_height = omega arith;
    line_fits = omega arith;
    picture_fits = omega arith;
  };
  some_cols = omega arith;
  row_on = omega arith;
  col_on = omega arith;
}

draw_char-Inside_example : All (Inside vga) (draw_char vga 0x41 79 29)
draw_char-Inside_example =
    draw_char-Inside vga vga-Ready.laid_out 0x41 79 29 (omega arith) (omega arith)

write_str-Ready_example : Ready ((write_str vga (0x4F ∷ 0x0A ∷ 0x4B ∷ [])).0)
write_str-Ready_example = write_str-Ready vga (0x4F ∷ 0x0A ∷ 0x4B ∷ []) vga-Ready

init_from_info-Ready_example :
    (w : FbWriter) × (init_from_info 32 640 480 2560 ≡ some (w, zeroed 0 (480 * 2560) ∷ []))
    × Ready w
init_from_info-Ready_example =
    init_from_info-Ready 640 480 2560 (omega arith) (omega arith) (omega arith) (omega arith)
      (omega arith) (omega arith)
