-- ===== src/Framebuffer/Cursor.antt =====
-- The cursor of src/writers/framebuffer.rs: whatever is written, it stays on the grid that `init_from_info` lays
-- out.
use my_kernel.Prelude.{
  ℕ, ◌+◌, ◌*◌, ◌/◌, ◌^◌, ◌≤◌, ◌<◌, ◌≡◌, refl, arith, List, [], ◌∷◌, Bool-cases, inl, inr, leb, ◌==◌,
  some,
}
use my_kernel.Framebuffer.{
  FbWriter, zeroed, char_w, char_h, mul32, sub32, newline, write_byte, write_str, shown,
  init_from_info,
}
use my_kernel.Framebuffer.Bounds.{IsLaidOut}

-- The layout does not depend on the cursor.
moved : (w : FbWriter) (col row : ℕ) → IsLaidOut w → IsLaidOut (record w { col = col; row = row })
moved w col row l = record {
  width_u32 = l.width_u32;
  height_u32 = l.height_u32;
  four_bytes = l.four_bytes;
  grid_width = l.grid_width;
  grid_height = l.grid_height;
  line_fits = l.line_fits;
  picture_fits = l.picture_fits;
}

-- The writer draws inside the picture, its grid is not empty, and the cursor is on it, at most at the line's end.
pub record Ready (w : FbWriter) : Type 0 where
  pub laid_out : IsLaidOut w
  pub some_cols : 0 < w.cols
  pub row_on : w.row < w.rows
  pub col_on : w.col ≤ w.cols

newline-Ready : (w : FbWriter) → Ready w → Ready ((newline w).0) × ((newline w).0.col ≡ 0)
unfolding newline
newline-Ready w r = elim (Bool-cases (leb w.rows (w.row + 1))) [
  | inl last ↦
      rw (newline, last)
        (
          record {
            laid_out = moved w 0 (sub32 w.rows 1) r.laid_out;
            some_cols = r.some_cols;
            row_on = omega (arith, r.row_on, r.laid_out.grid_height, r.laid_out.height_u32);
            col_on = omega arith;
          },
          refl,
        )
  | inr more ↦
      rw (newline, more)
        (
          record {
            laid_out = moved w 0 (w.row + 1) r.laid_out;
            some_cols = r.some_cols;
            row_on = ground arith;
            col_on = omega arith;
          },
          refl,
        )
]

-- The writer from which `write_byte` draws, with its cursor before the line's end.
drawn-Ready :
    (w : FbWriter) (byte : ℕ) → Ready w → w.col < w.cols → Ready (record w { col = w.col + 1 })
drawn-Ready w byte r room = record {
  laid_out = moved w (w.col + 1) w.row r.laid_out;
  some_cols = r.some_cols;
  row_on = r.row_on;
  col_on = omega arith;
}

write_byte-Ready : (w : FbWriter) (byte : ℕ) → Ready w → Ready ((write_byte w byte).0)
unfolding write_byte
write_byte-Ready w byte r = elim (Bool-cases (byte == 0x0A)) [
  | inl nl ↦ rw (write_byte, nl) ((newline-Ready w r).0)
  | inr other ↦ elim (Bool-cases (leb w.cols w.col)) [
    | inl full ↦
        let (r₁, at_start) = newline-Ready w r in
        rw (write_byte, other, full)
          (drawn-Ready ((newline w).0) byte r₁ (omega (arith, at_start, r₁.some_cols)))
    | inr room ↦ rw (write_byte, other, room) (drawn-Ready w byte r (ground arith))
  ]
]

-- Whatever text is written, a writer that is ready stays so: its grid still lies inside the picture and is not empty,
-- and its cursor is on the grid or at a line's end.
pub write_str-Ready : (w : FbWriter) (text : List ℕ) → Ready w → Ready ((write_str w text).0)
unfolding write_str
write_str-Ready w [] r = r
write_str-Ready w (byte ∷ text) r =
    write_str-Ready ((write_byte w (shown byte)).0) text (write_byte-Ready w (shown byte) r)

-- A framebuffer that has room for a character and whose offsets fit 32 bits, at 32 bits per pixel, gives a ready
-- writer.
pub init_from_info-Ready :
    (width height pitch : ℕ)
    → width < 2 ^ 32
    → height < 2 ^ 32
    → width * 4 ≤ pitch
    → height * pitch < 2 ^ 32
    → char_w ≤ width
    → char_h ≤ height
    → (w : FbWriter) × (init_from_info 32 width height pitch
        ≡ some (w, zeroed 0 (height * pitch) ∷ []))
      × Ready w
unfolding init_from_info
init_from_info-Ready width height pitch hw hh line whole wide high =
    let clear : mul32 height pitch ≡ height * pitch = omega (arith, whole) in
    (
      record {
        width = width;
        height = height;
        pitch = pitch;
        bpp = 4;
        r_shl = 16;
        g_shl = 8;
        b_shl = 0;
        col = 0;
        row = 0;
        cols = width / char_w;
        rows = height / char_h;
      },
      rw clear refl,
      record {
        laid_out = record {
          width_u32 = hw;
          height_u32 = hh;
          four_bytes = refl;
          grid_width = omega arith;
          grid_height = omega arith;
          line_fits = line;
          picture_fits = whole;
        };
        some_cols = omega arith;
        row_on = omega arith;
        col_on = omega arith;
      },
    )
