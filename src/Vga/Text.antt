-- ===== src/Vga/Text.antt =====
-- Text output of src/writers/vga_buffer.rs: where a byte is shown, and what keeps the column on the screen.
use my_kernel.Prelude.{
  ℕ, ◌+◌, ◌-◌, ◌≤◌, ◌<◌, ◌≡◌, ◌≢◌, false, arith, List, [], ◌∷◌, false, Bool-cases, inl, inr, leb,
  length, get_elem?, some, ◌==◌,
}
use my_kernel.Vga.{
  ScreenChar, Writer, put_byte, write_byte, write_string, shown, buffer_width, buffer_height,
}
use my_kernel.Vga.Scroll.{new_line-Scrolled}

write_byte-on_screen :
    (w : Writer) (byte : ℕ)
    → w.column_position ≤ buffer_width
    → (write_byte w byte).column_position ≤ buffer_width
unfolding write_byte put_byte
write_byte-on_screen w byte h = elim (Bool-cases (byte == 0x0A)) [
  | inl nl ↦ rw nl (omega (arith, (new_line-Scrolled w).column))
  | inr other ↦ elim (Bool-cases (leb buffer_width w.column_position)) [
    | inl full ↦ rw (other, full) (omega (arith, (new_line-Scrolled w).column))
    | inr room ↦ rw (other, room) (ground arith)
  ]
]

-- Whatever text is written, the column stays within the line.
pub write_string-on_screen :
    (w : Writer) (text : List ℕ)
    → w.column_position ≤ buffer_width
    → (write_string w text).column_position ≤ buffer_width
unfolding write_string
write_string-on_screen w [] h = h
write_string-on_screen w (byte ∷ text) h =
    write_string-on_screen (write_byte w (shown byte)) text (write_byte-on_screen w (shown byte) h)

-- The character cell of a byte in the writer's colour.
abbrev pub cell : Writer → ℕ → ScreenChar
cell w byte = record { ascii_character = byte; color = w.color }

-- The last line after a text: its cells from the old column on hold the text, and no other cell of it or of another
-- line changed.
pub record Laid (w w' : Writer) (text : List ℕ) : Type 0 where
  pub column : w'.column_position ≡ w.column_position + length text
  pub color : w'.color ≡ w.color
  pub text_at :
      (k byte : ℕ)
      → get_elem? text k ≡ some byte
      → w'.buffer (buffer_height - 1) (w.column_position + k) ≡ cell w (shown byte)
  pub before :
      (j : ℕ)
      → j < w.column_position
      → w'.buffer (buffer_height - 1) j ≡ w.buffer (buffer_height - 1) j
  pub after :
      (j : ℕ)
      → w.column_position + length text ≤ j
      → w'.buffer (buffer_height - 1) j ≡ w.buffer (buffer_height - 1) j
  pub above : (i j : ℕ) → i ≢ buffer_height - 1 → w'.buffer i j ≡ w.buffer i j
