-- ===== src/Driver/Statement.antt =====
-- `sqlStatement` and `sqlRows` of driver.go: prepared statements, and the rows of a query.
pub mod Drain
use pgmem.Engine.{ExecAnswer, RowSet, Effect, Engine}
use pgmem.Driver.{SqlStatement, named_value_arguments, reported}
use pgmem.Common.{ℕ, Option, none, some, List, [], ◌∷◌, nat_Key}
use pgmem.Common.Text.{Text, text_Key}
use pgmem.Errors.{eof, GoError, sentinel, execution_error, Fallible, ok, err}
use pgmem.Values.{Value, clone_arguments}

module _ {W : Type 0} (engine : Engine W) where
  reply : {A : Type 0} → Text → W × Fallible A → W × Fallible A
  reply statement (w, ok a) = (w, ok a)
  reply statement (w, err e) = (w, err (execution_error statement e))

  -- `execContext`; `Exec` passes the values, and `ExecContext` those of `namedValueArguments`
  pub statement_exec : SqlStatement → List Value → Effect W ExecAnswer
  unfolding reply
  statement_exec s arguments w = reply s.statement (engine.exec_prepared s.prepared arguments w)

  pub statement_exec_context : SqlStatement → List (Text × Value) → Effect W ExecAnswer
  unfolding statement_exec named_value_arguments
  statement_exec_context s arguments w = statement_exec s (named_value_arguments arguments) w

  -- `newSQLRows`: where Columns fails, the rows are closed
  new_sql_rows : Text → W × Fallible RowSet → W × Fallible RowSet
  new_sql_rows statement (w, err e) = (w, err e)
  new_sql_rows statement (w, ok rows) = elim rows.columns [
    | ok columns ↦ (w, ok rows)
    | err e ↦ ((engine.close_rows rows.handle w).0, err (execution_error statement e))
  ]

  -- `queryContext`
  pub statement_query : SqlStatement → List Value → Effect W RowSet
  unfolding new_sql_rows reply
  statement_query s arguments w =
      new_sql_rows s.statement (reply s.statement (engine.query_prepared s.prepared arguments w))

  pub statement_query_context : SqlStatement → List (Text × Value) → Effect W RowSet
  unfolding statement_query named_value_arguments
  statement_query_context s arguments w = statement_query s (named_value_arguments arguments) w

  -- `Close` of a statement
  pub statement_close : SqlStatement → W → W × Option GoError
  statement_close s w = engine.close_prepared s.prepared w

  -- `Close` of rows
  unfoldable pub rows_close : Text → RowSet → W → W × Option GoError
  rows_close statement rows w =
      let (w', e) = engine.close_rows rows.handle w in (w', reported statement e)

end_of_rows : Text → Option GoError → GoError
end_of_rows statement none = sentinel eof
end_of_rows statement (some e) = execution_error statement e

scanned : Text → Fallible (List Value) → Fallible (List Value)
unfolding clone_arguments
scanned statement (ok values) = ok (clone_arguments values)
scanned statement (err e) = err (execution_error statement e)

-- `Next`: the row that it fills in, or an error, io.EOF at the end; and the rows that are left.
pub rows_next : Text → RowSet → RowSet × Fallible (List Value)
unfolding end_of_rows scanned
rows_next statement rows = elim rows.scans [
  | [] ↦ (rows, err (end_of_rows statement rows.rows_err))
  | scan ∷ rest ↦ (record rows { scans = rest }, scanned statement scan)
]
