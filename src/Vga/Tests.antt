-- ===== src/Vga/Tests.antt =====
-- Runs of the VGA writer of src/writers/vga_buffer.rs.
use my_kernel.Prelude.{◌≤◌, ◌≡◌, refl, arith, ◌∷◌, []}
use my_kernel.Vga.{Writer, new_line, write_string, buffer_width, color_code, yellow, black}
use my_kernel.Vga.Scroll.{Scrolled, new_line-Scrolled}
use my_kernel.Vga.Text.{write_string-on_screen}

-- A writer over a screen whose cells show their row, as `WRITER` is coloured: yellow on black.
abbrev rows : Writer
rows = record {
  column_position = 0;
  color = 14;
  buffer = λ i j. record { ascii_character = i; color = 7 };
}

yellow_on_black : color_code yellow black ≡ 14
unfolding color_code
yellow_on_black = refl

new_line-Scrolled_example : Scrolled rows (new_line rows)
new_line-Scrolled_example = new_line-Scrolled rows

write_string-on_screen_example :
    (write_string rows (0x4F ∷ 0x0A ∷ 0x4B ∷ [])).column_position ≤ buffer_width
write_string-on_screen_example = write_string-on_screen rows (0x4F ∷ 0x0A ∷ 0x4B ∷ []) (omega arith)
