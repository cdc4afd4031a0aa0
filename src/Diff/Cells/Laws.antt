-- ===== src/Diff/Cells/Laws.antt =====
-- What the cells of a row say.
use hifld_next.Common.{
  String, Bool, eq_iff, if◌then◌else◌, Option, none, some, List, [], ◌∷◌, lookup, insert,
  lookup-insert, map, includes, ◌≡◌, refl, arith,
}
use hifld_next.Js.{Js}
use hifld_next.Diff.Model.{CatalogFeature, DiffCells, DiffColumn, CellStatus, added, removed}
use hifld_next.Diff.Cells.{cell_status, cell_of, build_cells_onto, build_cells}

-- The status as the other side sees it.
abbrev pub mirror : CellStatus → CellStatus
mirror added = removed
mirror removed = added
mirror s = s

-- To swap the sides of a cell swaps added with removed in its status and changes nothing else.
pub cell_status_swap :
    (left right : String) (left_present right_present : Bool)
    → cell_status right left right_present left_present
      ≡ mirror (cell_status left right left_present right_present)
unfolding cell_status
cell_status_swap left right left_present right_present =
    ground (arith, eq_iff left right, eq_iff right left)

module _ {js : Js} (left right : Option (CatalogFeature js)) where
  abbrev pub column_key : DiffColumn → String
  column_key c = c.key

  lookup-build_cells_onto :
      (cells : DiffCells) (columns : List DiffColumn) (k : String)
      → lookup k (build_cells_onto cells left right columns) ≡ (
          if includes (map column_key columns) k
          then some (cell_of left right k)
          else lookup k cells)
  unfolding build_cells_onto
  lookup-build_cells_onto cells [] k = refl
  lookup-build_cells_onto cells (c ∷ cs) k = ground (
    arith,
    lookup-build_cells_onto (insert c.key (cell_of left right c.key) cells) cs k,
    lookup-insert c.key k (cell_of left right c.key) cells,
    eq_iff c.key k,
  )

  -- The cells of a row have an entry for each column, made from the values of that column, and no
  -- other entry.
  pub lookup-build_cells :
      (columns : List DiffColumn) (k : String)
      → lookup k (build_cells left right columns)
        ≡ (if includes (map column_key columns) k then some (cell_of left right k) else none)
  unfolding build_cells
  lookup-build_cells columns k = lookup-build_cells_onto [] columns k
