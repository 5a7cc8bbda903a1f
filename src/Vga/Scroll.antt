-- ===== src/Vga/Scroll.antt =====
-- Scrolling of src/writers/vga_buffer.rs: the two nested loops of `new_line` move every line up by one.
use my_kernel.Prelude.{
  ℕ, zero, suc, ◌+◌, ◌-◌, ◌<◌, ◌≡◌, refl, ap, ◌∙◌, sym, arith, true, Bool-cases, inl, inr, ltb, leb,
  ltb→lt, lt→ltb, eq→==, ne→==, ==→eq, ◌==◌, ◌&&◌, if◌then◌else◌,
}
use my_kernel.Vga.{
  Buffer, ScreenChar, Writer, put, copy_cells, copy_rows, blank_cells, blank, clear_row, new_line,
  buffer_width, buffer_height,
}

copy_cells-cells :
    (count col row : ℕ) (b : Buffer) (i j : ℕ)
    → 0 < row
    → copy_cells count col row b i j
      ≡ (if i == row - 1 && (leb col j && ltb j (col + count)) then b row j else b i j)
unfolding copy_cells
copy_cells-cells zero col row b i j pos = ground arith
copy_cells-cells (suc count) col row b i j pos =
    let rest = copy_cells-cells count (col + 1) row (put b (row - 1) col (b row col)) i j pos in
    elim (Bool-cases (j == col)) [
      | inl at ↦
          let here : j ≡ col = ==→eq j col at in
          let cell : b row col ≡ b row j = ap (b row) (sym here) in ground (arith, rest, cell)
      | inr off ↦ ground (arith, rest)
    ]

from_zero : (j : ℕ) → leb 0 j ≡ true
from_zero j = ground arith

copied_row :
    (row : ℕ) (b : Buffer) (i j : ℕ)
    → 0 < row
    → j < buffer_width
    → copy_cells buffer_width 0 row b i j ≡ (if i == row - 1 then b row j else b i j)
copied_row row b i j pos lt =
    let cells = copy_cells-cells buffer_width 0 row b i j pos in
    let inside = lt→ltb j buffer_width lt in
    elim (Bool-cases (i == row - 1)) [
      | inl at ↦ cells ∙ rw (at, from_zero j, inside) refl
      | inr off ↦ cells ∙ rw off refl
    ]

-- After the loop over `count` rows from `row`, the rows from `row - 1` hold what was one row below.
copy_rows-cells :
    (count row : ℕ) (b : Buffer) (i j : ℕ)
    → 0 < row
    → j < buffer_width
    → copy_rows count row b i j
      ≡ (if leb row (i + 1) && ltb (i + 1) (row + count) then b (i + 1) j else b i j)
unfolding copy_rows
copy_rows-cells zero row b i j pos lt = ground arith
copy_rows-cells (suc count) row b i j pos lt =
    let b' : Buffer = copy_cells buffer_width 0 row b in
    let rest = copy_rows-cells count (row + 1) b' i j (omega arith) lt in
    let here = copied_row row b i j pos lt in
    let below = copied_row row b (i + 1) j pos lt in
    elim (Bool-cases (i + 1 == row)) [
      | inl at ↦
          let e : i + 1 ≡ row = ==→eq _ _ at in
          let cell : b row j ≡ b (i + 1) j = ap (λ r. b r j) (sym e) in
          ground (arith, rest, here, cell)
      | inr off ↦ ground (arith, rest, here, below)
    ]

blank_cells-cells :
    (count col row : ℕ) (c : ScreenChar) (b : Buffer) (i j : ℕ)
    → blank_cells count col row c b i j
      ≡ (if i == row && (leb col j && ltb j (col + count)) then c else b i j)
unfolding blank_cells
blank_cells-cells zero col row c b i j = ground arith
blank_cells-cells (suc count) col row c b i j =
    ground (arith, blank_cells-cells count (col + 1) row c (put b row col c) i j)

blanked_row :
    (row : ℕ) (c : ScreenChar) (b : Buffer) (i j : ℕ)
    → j < buffer_width
    → blank_cells buffer_width 0 row c b i j ≡ (if i == row then c else b i j)
blanked_row row c b i j lt =
    let cells = blank_cells-cells buffer_width 0 row c b i j in
    let inside = lt→ltb j buffer_width lt in
    elim (Bool-cases (i == row)) [
      | inl at ↦ cells ∙ rw (at, from_zero j, inside) refl
      | inr off ↦ cells ∙ rw off refl
    ]

-- The line after a new line: every row holds what the row below it held, the last row is blank in the writer's
-- colour, and the column is the first.
pub record Scrolled (w w' : Writer) : Type 0 where
  pub column : w'.column_position ≡ 0
  pub color : w'.color ≡ w.color
  pub cells :
      (i j : ℕ)
      → i < buffer_height
      → j < buffer_width
      → w'.buffer i j ≡ (if ltb i (buffer_height - 1) then w.buffer (i + 1) j else blank w.color)

-- `new_line` scrolls the screen by one line.
pub new_line-Scrolled : (w : Writer) → Scrolled w (new_line w)
unfolding new_line clear_row
new_line-Scrolled w = record {
  column = refl;
  color = refl;
  cells = λ i j hi hj.
      let scrolled : Buffer = copy_rows (buffer_height - 1) 1 w.buffer in
      let cleared = blanked_row (buffer_height - 1) (blank w.color) scrolled i j hj in
      let moved = copy_rows-cells (buffer_height - 1) 1 w.buffer i j (omega arith) hj in
      elim (Bool-cases (ltb i (buffer_height - 1))) [
        | inl above ↦
            let not_last = ne→== i (buffer_height - 1) (λ e. omega (arith, ltb→lt _ _ above)) in
            let in_range = lt→ltb (i + 1) 25 (omega (arith, ltb→lt _ _ above)) in
            let from_first : leb 1 (i + 1) ≡ true = ground arith in
            cleared ∙ rw (not_last, above) (moved ∙ rw (from_first, in_range) refl)
        | inr last ↦
            let at = eq→== i (buffer_height - 1) (ground arith) in cleared ∙ rw (at, last) refl
      ];
}
