-- ===== src/Command/Table/Laws.antt =====
-- cmd/nz/output.go: the columns of a table.
use nz.Base.{
  ℕ, suc, ◌+◌, ◌≤◌, ◌≡◌, refl, ap, String, List, [], ◌∷◌, map, arith, length, All, All-imp,
}
use nz.Command.Table.{widened, widen_all, column_widths, padding}

module _ (width : String → ℕ) where
  -- The cells from the first column on, each with its padding, take the widths of their columns.
  abbrev pub Aligned : List ℕ → List String → Type 0
  Aligned widths [] = Unit
  Aligned [] (cell ∷ cells) = ⊥
  Aligned (w ∷ widths) (cell ∷ cells) =
      (width cell + padding width w cell ≡ w) × Aligned widths cells

  abbrev Fits : List ℕ → List String → Type 0
  Fits widths [] = Unit
  Fits [] (cell ∷ cells) = ⊥
  Fits (w ∷ widths) (cell ∷ cells) = (width cell ≤ w) × Fits widths cells

  Fits-Aligned : (widths : List ℕ) (cells : List String) → Fits widths cells → Aligned widths cells
  unfolding padding
  Fits-Aligned widths [] h = tt
  Fits-Aligned [] (cell ∷ cells) h = h
  Fits-Aligned (w ∷ widths) (cell ∷ cells) (p, h) = (omega arith, Fits-Aligned widths cells h)

  map-Fits : (cells : List String) → Fits (map width cells) cells
  map-Fits [] = tt
  map-Fits (cell ∷ cells) = (omega arith, map-Fits cells)

  length-widened :
      (widths : List ℕ) (row : List String)
      → length row ≤ length widths
      → length (widened width widths row) ≡ length widths
  unfolding widened
  length-widened widths [] h = refl
  length-widened [] (cell ∷ cells) h = absurd (omega arith)
  length-widened (w ∷ widths) (cell ∷ cells) h =
      omega (arith, length-widened widths cells (omega arith))

  widened-Fits :
      (widths : List ℕ) (row : List String)
      → length row ≤ length widths
      → Fits (widened width widths row) row
  unfolding widened
  widened-Fits widths [] h = tt
  widened-Fits [] (cell ∷ cells) h = absurd (omega arith)
  widened-Fits (w ∷ widths) (cell ∷ cells) h =
      (ground arith, widened-Fits widths cells (omega arith))

  Fits-widened :
      (widths : List ℕ) (row cells : List String)
      → length row ≤ length widths
      → Fits widths cells
      → Fits (widened width widths row) cells
  unfolding widened
  Fits-widened widths [] cells h k = k
  Fits-widened [] (cell ∷ row) cells h k = absurd (omega arith)
  Fits-widened (w ∷ widths) (cell ∷ row) [] h k = tt
  Fits-widened (w ∷ widths) (cell ∷ row) (c ∷ cells) h (p, k) =
      (ground arith, Fits-widened widths row cells (omega arith) k)

  -- Rows that are no longer than the widths are no longer than the wider ones.
  Short : List ℕ → List String → Type 0
  Short widths row = length row ≤ length widths

  Short-widened :
      (widths : List ℕ) (row : List String) (rows : List (List String))
      → Short widths row
      → All (Short widths) rows
      → All (Short (widened width widths row)) rows
  unfolding Short
  Short-widened widths row rows p h =
      All-imp (Short widths) (Short (widened width widths row)) rows
        (λ other short. omega (arith, length-widened widths row p)) h

  Fits-widen_all :
      (rows : List (List String)) (widths : List ℕ) (cells : List String)
      → All (Short widths) rows
      → Fits widths cells
      → Fits (widen_all width widths rows) cells
  unfolding widen_all Short
  Fits-widen_all [] widths cells h k = k
  Fits-widen_all (row ∷ rows) widths cells (p, h) k =
      Fits-widen_all rows (widened width widths row) cells (Short-widened widths row rows p h)
        (Fits-widened widths row cells p k)

  widen_all-Fits :
      (rows : List (List String)) (widths : List ℕ)
      → All (Short widths) rows
      → All (Fits (widen_all width widths rows)) rows
  unfolding widen_all Short
  widen_all-Fits [] widths h = tt
  widen_all-Fits (row ∷ rows) widths (p, h) = (
    Fits-widen_all rows (widened width widths row) row (Short-widened widths row rows p h)
        (widened-Fits widths row p),
    widen_all-Fits rows (widened width widths row) (Short-widened widths row rows p h),
  )

  length-map : (cells : List String) → length (map width cells) ≡ length cells
  length-map [] = refl
  length-map (cell ∷ cells) = ap suc (length-map cells)

  -- If no row has more cells than the header, then in the header and in every row each cell with its
  -- padding is as wide as its column.
  pub column_widths-Aligned :
      (header : List String) (rows : List (List String))
      → All (λ row. length row ≤ length header) rows
      → All (Aligned (column_widths width header rows)) (header ∷ rows)
  unfolding column_widths Short
  column_widths-Aligned header rows h =
      let short : All (Short (map width header)) rows =
        All-imp (λ row. length row ≤ length header) (Short (map width header)) rows
          (λ row p. omega (arith, length-map header)) h in
      let widths = widen_all width (map width header) rows in
      All-imp (Fits widths) (Aligned widths) (header ∷ rows) (Fits-Aligned widths) (
        Fits-widen_all rows (map width header) header short (map-Fits header),
        widen_all-Fits rows (map width header) short,
      )
