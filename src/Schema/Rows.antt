-- ===== src/Schema/Rows.antt =====
-- `materializeRows` of schema.go.
use pgmem.Engine.{RowSet}
use pgmem.Common.{Option, none, some, List, [], ◌∷◌, nat_Key}
use pgmem.Common.Dict.{insert}
use pgmem.Common.Text.{Text, text_Key}
use pgmem.Errors.{GoError, Fallible, ok, err}
use pgmem.Values.{Value, Row, clone_driver_value}

-- One row of `materializeRows`; a repeated label keeps its last value.
fill_row : Row → List Text → List Value → Row
unfolding insert clone_driver_value
fill_row row (column ∷ columns) (value ∷ values) =
    fill_row (insert column (clone_driver_value value) row) columns values
fill_row row columns values = row

add_row : Row → Fallible (List Row) → Fallible (List Row)
add_row row (ok rows) = ok (row ∷ rows)
add_row row (err e) = err e

scan_rows : List Text → List (Fallible (List Value)) → Option GoError → Fallible (List Row)
unfolding fill_row add_row
scan_rows columns [] none = ok []
scan_rows columns [] (some e) = err e
scan_rows columns (err e ∷ scans) last = err e
scan_rows columns (ok values ∷ scans) last =
    add_row (fill_row [] columns values) (scan_rows columns scans last)

-- `materializeRows`
unfoldable pub materialize_rows : RowSet → Fallible (List Row)
unfolding scan_rows
materialize_rows rows = elim rows.columns [
  | err e ↦ err e
  | ok columns ↦ scan_rows columns rows.scans rows.rows_err
]
