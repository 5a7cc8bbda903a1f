-- ===== src/Framebuffer/Bounds.antt =====
-- Every pixel that src/writers/framebuffer.rs draws lies inside the framebuffer.
use native.Mathlib.Nat.{mul-le-mul_right}
use my_kernel.Prelude.{
  ℕ, zero, suc, ◌+◌, ◌*◌, ◌/◌, ◌^◌, ◌≤◌, ◌<◌, ◌≡◌, refl, ap, ◌∙◌, sym, arith, List, [], ◌∷◌, ◌++◌,
  All, length, some, get_elem?, bit_and, Bool, true, ◌==◌, ◌&&◌, if◌then◌else◌, Option-cases, inl,
  inr,
}
use my_kernel.Framebuffer.{
  FbWriter, Write, pixel, char_w, char_h, mul32, add32, put_pixel, draw_row, draw_glyph, draw_char,
  glyph_of,
}
use my_kernel.Framebuffer.Font.{font8x8}

-- The cursor's grid lies in the picture, a line of the picture in the pitch, and the offsets in 32 bits.
pub record IsLaidOut (w : FbWriter) : Type 0 where
  pub width_u32 : w.width < 2 ^ 32
  pub height_u32 : w.height < 2 ^ 32
  pub four_bytes : w.bpp ≡ 4
  pub grid_width : w.cols * char_w ≤ w.width
  pub grid_height : w.rows * char_h ≤ w.height
  pub line_fits : w.width * 4 ≤ w.pitch
  pub picture_fits : w.height * w.pitch < 2 ^ 32

-- A pixel's four bytes lie in the framebuffer, in the line and column of a pixel of the picture.
pub Inside : FbWriter → Write → Type 0
Inside w (pixel offset color) =
    (x : ℕ) × (y : ℕ) × (x < w.width)
    × (y < w.height)
    × (offset ≡ y * w.pitch + x * 4)
    × (offset + 4 ≤ w.height * w.pitch)
Inside w _ = ⊥

put_pixel-Inside :
    (w : FbWriter)
    → IsLaidOut w
    → (x y color : ℕ) → x < w.width
    → y < w.height
    → Inside w (put_pixel w x y color)
unfolding Inside put_pixel
put_pixel-Inside w l x y color hx hy =
    let hy_succ : y + 1 ≤ w.height = omega arith in
    let whole : (y + 1) * w.pitch ≤ w.height * w.pitch = mul-le-mul_right w.pitch hy_succ in
    let line : (y + 1) * w.pitch ≡ y * w.pitch + w.pitch = omega arith in
    let column : x * w.bpp ≡ x * 4 = ap (λ (n : ℕ). x * n) l.four_bytes in
    let small : y * w.pitch + x * 4 + 4 ≤ w.height * w.pitch =
      omega (arith, whole, line, l.line_fits) in
    let e : add32 (mul32 y w.pitch) (mul32 x w.bpp) ≡ y * w.pitch + x * 4 =
      omega (arith, column, small, l.picture_fits) in
    (x, y, hx, hy, e, omega (arith, e, small))

All-append : (P : Write → Type 0) (xs ys : List Write) → All P xs → All P ys → All P (xs ++ ys)
All-append P [] ys p q = q
All-append P (x ∷ xs) ys p q = (p.0, All-append P xs ys p.1 q)

draw_row-Inside :
    (w : FbWriter)
    → IsLaidOut w
    → (count gx byte x0 py fg bg : ℕ) → x0 + gx + count ≤ w.width
    → py + 1 < w.height
    → All (Inside w) (draw_row w count gx byte x0 py fg bg)
unfolding draw_row
draw_row-Inside w l zero gx byte x0 py fg bg hx hy = tt
draw_row-Inside w l (suc count) gx byte x0 py fg bg hx hy =
    let color : ℕ = if bit_and (byte / 2 ^ gx) 1 == 0 then bg else fg in
    (
      put_pixel-Inside w l (x0 + gx) py color (omega arith) (omega arith),
      (
        put_pixel-Inside w l (x0 + gx) (py + 1) color (omega arith) hy,
        draw_row-Inside w l count (gx + 1) byte x0 py fg bg (omega arith) hy,
      ),
    )

draw_glyph-Inside :
    (w : FbWriter)
    → IsLaidOut w
    → (glyph : List ℕ) (gy x0 y0 fg bg : ℕ) → x0 + 8 ≤ w.width
    → y0 + (gy + length glyph) * 2 ≤ w.height
    → All (Inside w) (draw_glyph w glyph gy x0 y0 fg bg)
unfolding draw_glyph
draw_glyph-Inside w l [] gy x0 y0 fg bg hx hy = tt
draw_glyph-Inside w l (byte ∷ glyph) gy x0 y0 fg bg hx hy =
    All-append (Inside w) (draw_row w 8 0 byte x0 (y0 + gy * 2) fg bg)
      (draw_glyph w glyph (gy + 1) x0 y0 fg bg)
      (draw_row-Inside w l 8 0 byte x0 (y0 + gy * 2) fg bg (omega arith) (omega arith))
      (draw_glyph-Inside w l glyph (gy + 1) x0 y0 fg bg hx (omega arith))

-- Whether every glyph has eight rows.
all_eight : List (List ℕ) → Bool
all_eight [] = true
all_eight (g ∷ gs) = (length g == 8) && all_eight gs

all_eight-length :
    (gs : List (List ℕ)) (i : ℕ) (g : List ℕ)
    → all_eight gs ≡ true
    → get_elem? gs i ≡ some g
    → length g ≡ 8
unfolding all_eight
all_eight-length [] i g h e = absurd (grind (arith, e))
all_eight-length (x ∷ gs) zero g h e =
    let same : x ≡ g = grind (arith, e) in
    let eight : length x ≡ 8 = ground (arith, h) in ap length (sym same) ∙ eight
all_eight-length (x ∷ gs) (suc i) g h e =
    let rest : all_eight gs ≡ true = ground (arith, h) in all_eight-length gs i g rest e

font_eight : all_eight font8x8 ≡ true
unfolding all_eight
font_eight = refl

glyph_of-length : (c : ℕ) → length (glyph_of c) ≤ 8
unfolding glyph_of
glyph_of-length c = elim (Option-cases (get_elem? font8x8 (bit_and c 0x7F))) [
  | inl absent ↦ rw (glyph_of, absent) (omega arith)
  | inr (g, found) ↦
      rw (glyph_of, found)
        (omega (arith, all_eight-length font8x8 (bit_and c 0x7F) g font_eight found))
]

-- A character drawn at a place of the cursor's grid writes only inside the framebuffer: every write is a pixel
-- of the picture at its own line and column, no offset wraps, and none reaches past the last line.
pub draw_char-Inside :
    (w : FbWriter)
    → IsLaidOut w
    → (c col row : ℕ) → col < w.cols
    → row < w.rows
    → All (Inside w) (draw_char w c col row)
unfolding draw_char
draw_char-Inside w l c col row hc hr =
    let x_fits : col * char_w + 8 ≤ w.width = omega (arith, l.grid_width) in
    let y_fits : row * char_h + 16 ≤ w.height = omega (arith, l.grid_height) in
    let x_same : mul32 col char_w ≡ col * char_w = omega (arith, x_fits, l.width_u32) in
    let y_same : mul32 row char_h ≡ row * char_h = omega (arith, y_fits, l.height_u32) in
    draw_glyph-Inside w l (glyph_of c) 0 (mul32 col char_w) (mul32 row char_h) _ _
      (omega (arith, x_same, x_fits)) (omega (arith, y_same, y_fits, glyph_of-length c))
