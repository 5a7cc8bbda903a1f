-- ===== src/Vga.antt =====
-- The VGA text writer, src/writers/vga_buffer.rs. The buffer's cells are a function of row and column; the
-- guards of `write_byte` and the loops' ranges keep every index below the array's bounds.
mod Scroll
mod Text
mod Tests
use my_kernel.Prelude.{
  ℕ, zero, suc, ◌+◌, ◌-◌, ◌*◌, ◌%◌, ◌^◌, Bool, ◌&&◌, ◌||◌, List, [], ◌∷◌, ltb, leb, ◌==◌,
  if◌then◌else◌, bit_or,
}

pub data Color : Type 0 where
  black blue green cyan red magenta brown light_gray dark_gray light_blue light_green : Color
  light_cyan light_red pink yellow white : Color

-- `color as u8`
unfoldable pub code : Color → ℕ
code black = 0
code blue = 1
code green = 2
code cyan = 3
code red = 4
code magenta = 5
code brown = 6
code light_gray = 7
code dark_gray = 8
code light_blue = 9
code light_green = 10
code light_cyan = 11
code light_red = 12
code pink = 13
code yellow = 14
code white = 15

-- `ColorCode::new`; `<<` on a `u8` drops the bits past the eighth.
unfoldable pub color_code : (foreground background : Color) → ℕ
unfolding code
color_code foreground background = bit_or (code background * 2 ^ 4 % 2 ^ 8) (code foreground)

pub record ScreenChar : Type 0 where
  pub ascii_character : ℕ
  pub color : ℕ

abbrev pub buffer_height : ℕ
buffer_height = 25

abbrev pub buffer_width : ℕ
buffer_width = 80

-- `Buffer::chars`
abbrev pub Buffer : Type 0
Buffer = (row col : ℕ) → ScreenChar

pub record Writer : Type 0 where
  pub column_position : ℕ
  pub color : ℕ
  pub buffer : Buffer

-- A write of one cell.
abbrev pub put : Buffer → (row col : ℕ) → ScreenChar → Buffer
put b row col c i j = if i == row && j == col then c else b i j

-- The inner loop of `new_line`, over the `count` columns from `col`.
unfoldable pub copy_cells : (count col row : ℕ) → Buffer → Buffer
copy_cells zero col row b = b
copy_cells (suc count) col row b = copy_cells count (col + 1) row (put b (row - 1) col (b row col))

-- The outer loop of `new_line`, over the `count` rows from `row`.
unfoldable pub copy_rows : (count row : ℕ) → Buffer → Buffer
copy_rows zero row b = b
copy_rows (suc count) row b = copy_rows count (row + 1) (copy_cells buffer_width 0 row b)

-- The loop of `clear_row`.
unfoldable pub blank_cells : (count col row : ℕ) → ScreenChar → Buffer → Buffer
blank_cells zero col row c b = b
blank_cells (suc count) col row c b = blank_cells count (col + 1) row c (put b row col c)

abbrev pub blank : ℕ → ScreenChar
blank color = record { ascii_character = 0x20; color = color }

unfoldable pub clear_row : Writer → (row : ℕ) → Writer
clear_row w row = record w { buffer = blank_cells buffer_width 0 row (blank w.color) w.buffer }

unfoldable pub new_line : Writer → Writer
new_line w =
    let scrolled = record w { buffer = copy_rows (buffer_height - 1) 1 w.buffer } in
    record (clear_row scrolled (buffer_height - 1)) { column_position = 0 }

-- `write_byte` of a byte that is not a newline, where the column is on the screen.
unfoldable pub put_byte : Writer → (byte : ℕ) → Writer
put_byte w byte = record w {
  buffer =
      put w.buffer (buffer_height - 1) w.column_position
        (record { ascii_character = byte; color = w.color });
  column_position = w.column_position + 1;
}

unfoldable pub write_byte : Writer → (byte : ℕ) → Writer
write_byte w byte =
    if byte == 0x0A
    then new_line w
    else put_byte (if leb buffer_width w.column_position then new_line w else w) byte

-- The byte that `write_string` writes for a byte of the text.
unfoldable pub shown : ℕ → ℕ
shown byte = if (leb 0x20 byte && leb byte 0x7E) || byte == 0x0A then byte else 0xFE

unfoldable pub write_string : Writer → List ℕ → Writer
write_string w [] = w
write_string w (byte ∷ bytes) = write_string (write_byte w (shown byte)) bytes
