-- ===== src/Command/Table.antt =====
-- cmd/nz/output.go: the tables that the program prints.
pub mod Laws
use nz.Base.{ℕ, suc, ◌+◌, ◌-◌, String, List, [], ◌∷◌, ◌++◌, map, if◌then◌else◌, leb}
use nz.Command.Text.{◌⧺◌, joined, repeated, reset, blue}

unfoldable pub rule : List ℕ → String → String → String → String → String
unfolding joined repeated
rule widths left mid right fill =
    left ⧺ joined mid (map (λ w. repeated fill (w + 2)) widths) ⧺ right

abbrev pub larger : ℕ → ℕ → ℕ
larger a b = if leb a b then b else a

-- `width` is runewidth.StringWidth.
module _ (width : String → ℕ) where
  -- A row has no more cells than the header; more would be a panic.
  unfoldable pub widened : List ℕ → List String → List ℕ
  widened widths [] = widths
  widened [] (cell ∷ cells) = []
  widened (w ∷ widths) (cell ∷ cells) = larger w (width cell) ∷ widened widths cells

  unfoldable pub widen_all : List ℕ → List (List String) → List ℕ
  unfolding widened
  widen_all widths [] = widths
  widen_all widths (row ∷ rows) = widen_all (widened widths row) rows

  unfoldable pub column_widths : List String → List (List String) → List ℕ
  unfolding widen_all
  column_widths header rows = widen_all (map width header) rows

  -- The padding of a cell; it is 0 for a cell that is wider than its column.
  unfoldable pub padding : ℕ → String → ℕ
  padding w cell = w - width cell

  unfoldable pub padded_cell : (ℕ → String → String) → ℕ → ℕ → String → String
  unfolding padding repeated
  padded_cell color i w cell =
      " " ⧺ color i cell ⧺ cell ⧺ repeated " " (padding w cell) ⧺ reset ⧺ " "

  -- The parts of a row from its column `i` on. A row has no more cells than there are widths.
  unfoldable pub parts : (ℕ → String → String) → ℕ → List String → List ℕ → List String
  unfolding padded_cell
  parts color i [] widths = []
  parts color i (cell ∷ cells) [] = []
  parts color i (cell ∷ cells) (w ∷ widths) =
      padded_cell color i w cell ∷ parts color (suc i) cells widths

  unfoldable pub colored_row : List String → List ℕ → (ℕ → String → String) → String
  unfolding parts joined
  colored_row cells widths color = "│" ⧺ joined "│" (parts color 0 cells widths) ⧺ "│"

  -- The lines of the rows from row `i` on.
  unfoldable pub row_lines :
      (ℕ → ℕ → String → String) → List ℕ → ℕ → List (List String) → List String
  unfolding colored_row
  row_lines color widths i [] = []
  row_lines color widths i (row ∷ rows) =
      colored_row row widths (color i) ∷ row_lines color widths (suc i) rows

  -- What printTable prints, line by line.
  unfoldable pub print_table :
      List String → List (List String) → (ℕ → ℕ → String → String) → List String
  unfolding column_widths rule colored_row row_lines
  print_table header rows color =
      let widths = column_widths header rows in
      rule widths "┌" "┬" "┐" "─"
      ∷ colored_row header widths (λ i cell. blue)
      ∷ rule widths "├" "┼" "┤" "─"
      ∷ (row_lines color widths 0 rows ++ rule widths "└" "┴" "┘" "─" ∷ [])
