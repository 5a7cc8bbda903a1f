-- ===== src/Framebuffer.antt =====
-- The framebuffer text writer, src/writers/framebuffer.rs: its cursor, the pixels that a character draws, and
-- the memory operations of scrolling. Video memory is written only, so the model is the sequence of writes,
-- as offsets from `addr`; arithmetic on offsets is that of `u32`.
pub mod Font
mod Bounds
mod Cursor
mod Tests
use my_kernel.Prelude.{
  ℕ, zero, suc, ◌+◌, ◌-◌, ◌*◌, ◌/◌, ◌%◌, ◌^◌, Bool, not, ◌&&◌, ◌||◌, Option, none, some, List, [],
  ◌∷◌, ◌++◌, get_elem?, ltb, leb, ◌==◌, if◌then◌else◌, bit_and, bit_or,
}
use my_kernel.Framebuffer.Font.{font8x8}

abbrev pub char_w : ℕ
char_w = 8

abbrev pub char_h : ℕ
char_h = 16

abbrev pub mul32 : ℕ → ℕ → ℕ
mul32 a b = a * b % 2 ^ 32

abbrev pub add32 : ℕ → ℕ → ℕ
add32 a b = (a + b) % 2 ^ 32

abbrev pub sub32 : ℕ → ℕ → ℕ
sub32 a b = (a + 2 ^ 32 - b) % 2 ^ 32

pub record FbWriter : Type 0 where
  pub width : ℕ
  pub height : ℕ
  pub pitch : ℕ
  pub bpp : ℕ
  pub r_shl : ℕ
  pub g_shl : ℕ
  pub b_shl : ℕ
  pub col : ℕ
  pub row : ℕ
  pub cols : ℕ
  pub rows : ℕ

-- A write to video memory, at an offset.
pub data Write : Type 0 where
  pixel : (offset color : ℕ) → Write
  zeroed : (offset bytes : ℕ) → Write
  copied : (source target bytes : ℕ) → Write

unfoldable pub make_pixel : FbWriter → (r g b : ℕ) → ℕ
make_pixel w r g b =
    bit_or (bit_or (r * 2 ^ w.r_shl % 2 ^ 32) (g * 2 ^ w.g_shl % 2 ^ 32)) (b * 2 ^ w.b_shl % 2 ^ 32)

unfoldable pub put_pixel : FbWriter → (x y color : ℕ) → Write
put_pixel w x y color = pixel (add32 (mul32 y w.pitch) (mul32 x w.bpp)) color

-- The inner loop of `draw_char`, over the `count` columns from `gx` of a row of the glyph.
unfoldable pub draw_row : FbWriter → (count gx byte x0 py fg bg : ℕ) → List Write
draw_row w zero gx byte x0 py fg bg = []
draw_row w (suc count) gx byte x0 py fg bg =
    let color = if bit_and (byte / 2 ^ gx) 1 == 0 then bg else fg in
    put_pixel w (x0 + gx) py color
    ∷ put_pixel w (x0 + gx) (py + 1) color
    ∷ draw_row w count (gx + 1) byte x0 py fg bg

-- The outer loop, over the rows of the glyph from `gy`.
unfoldable pub draw_glyph : FbWriter → List ℕ → (gy x0 y0 fg bg : ℕ) → List Write
draw_glyph w [] gy x0 y0 fg bg = []
draw_glyph w (byte ∷ glyph) gy x0 y0 fg bg =
    draw_row w 8 0 byte x0 (y0 + gy * 2) fg bg ++ draw_glyph w glyph (gy + 1) x0 y0 fg bg

-- `FONT8X8[(c & 0x7F) as usize]`; the table has 128 rows.
unfoldable pub glyph_of : ℕ → List ℕ
glyph_of c = elim (get_elem? font8x8 (bit_and c 0x7F)) [ none ↦ [] | some glyph ↦ glyph ]

unfoldable pub draw_char : FbWriter → (c col row : ℕ) → List Write
draw_char w c col row =
    draw_glyph w (glyph_of c) 0 (mul32 col char_w) (mul32 row char_h) (make_pixel w 255 255 0)
      (make_pixel w 0 0 0)

unfoldable pub clear_row : FbWriter → (row : ℕ) → Write
clear_row w row = zeroed (mul32 (mul32 row char_h) w.pitch) (mul32 char_h w.pitch)

-- The loop of `scroll_up`, over the `count` rows from `row`.
unfoldable pub copy_rows : FbWriter → (count row : ℕ) → List Write
copy_rows w zero row = []
copy_rows w (suc count) row =
    copied (mul32 (mul32 row char_h) w.pitch) (mul32 (mul32 (row - 1) char_h) w.pitch)
      (mul32 char_h w.pitch)
    ∷ copy_rows w count (row + 1)

-- The loop runs over `1..rows`, which is empty for at most one row.
unfoldable pub scroll_up : FbWriter → List Write
scroll_up w = copy_rows w (w.rows - 1) 1 ++ (clear_row w (sub32 w.rows 1) ∷ [])

-- `write_byte` of a newline.
unfoldable pub newline : FbWriter → FbWriter × List Write
newline w =
    if leb w.rows (w.row + 1)
    then (record w { col = 0; row = sub32 w.rows 1 }, scroll_up w)
    else (record w { col = 0; row = w.row + 1 }, [])

unfoldable pub write_byte : FbWriter → (byte : ℕ) → FbWriter × List Write
write_byte w byte =
    if byte == 0x0A
    then newline w
    else (let (w₁, scrolled) = if leb w.cols w.col then newline w else (w, []) in
        (record w₁ { col = w₁.col + 1 }, scrolled ++ draw_char w₁ byte w₁.col w₁.row))

-- The byte that `write_str` writes for a byte of the text.
unfoldable pub shown : ℕ → ℕ
shown byte = if (leb 0x20 byte && leb byte 0x7E) || byte == 0x0A then byte else 0x3F

unfoldable pub write_str : FbWriter → List ℕ → FbWriter × List Write
write_str w [] = (w, [])
write_str w (byte ∷ bytes) =
    let (w₁, writes) = write_byte w (shown byte) in
    let (w₂, rest) = write_str w₁ bytes in (w₂, writes ++ rest)

-- `init_from_info`: the writer for a framebuffer of 32 bits per pixel, and the clearing of the screen.
unfoldable pub init_from_info :
    (bits_per_pixel width height pitch : ℕ) → Option (FbWriter × List Write)
init_from_info bits_per_pixel width height pitch =
    if bits_per_pixel == 32
    then some (
      record {
        width = width;
        height = height;
        pitch = pitch;
        bpp = 4;
        r_shl = 16;
        g_shl = 8;
        b_shl = 0;
        col = 0;
        row = 0;
        cols = width / char_w;
        rows = height / char_h;
      },
      zeroed 0 (mul32 height pitch) ∷ [],
    )
    else none
