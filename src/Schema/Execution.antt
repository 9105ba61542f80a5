-- ===== src/Schema/Execution.antt =====
-- Statement execution of schema.go: `ExecContext`, `QueryContext`, `ManyContext`, `OneContext` and
-- their helpers. The engine is a parameter.
pub mod Atomic
pub mod Script
pub mod Single
use pgmem.Schema.Rows.{materialize_rows}
use pgmem.Schema.Translate.{Schema, ExecutableStatement, translate_statements}
use pgmem.Engine.{Executor, pool, in_tx, ExecAnswer, RowSet, Effect}
use pgmem.Intercept.{Answer, run_interceptors}
use pgmem.Schema.Command.{statement_command}
use pgmem.Common.{
  ℕ, Bool, true, false, ◌&&◌, not, Option, none, some, List, [], ◌∷◌, ◌++◌, nat_Key, length,
}
use pgmem.Common.Text.{Text, codes, text_Key, decimal}
use pgmem.Common.Signed.{pos}
use pgmem.Errors.{
  no_rows, too_many_rows, unsupported, GoError, sentinel, wrap, pg_error, execution_error, Outcome,
  returned, panicked, Fallible, ok, err,
}
use pgmem.Values.{Value, Row, Result, empty_result}

abbrev pub parameters_error : Text → GoError
parameters_error statement =
    pg_error (codes "0A000") (codes "parameters in multi-statement scripts are not supported")
      statement (sentinel unsupported)

rows_or_nil : Option (List Row) → List Row
rows_or_nil none = []
rows_or_nil (some rows) = rows

exactly_one : List Row → Fallible Row
exactly_one [] = err (sentinel no_rows)
exactly_one (row ∷ []) = ok row
exactly_one (row ∷ next ∷ rows) =
    err (wrap [] (sentinel too_many_rows) (codes ": got " ++ decimal (length (row ∷ next ∷ rows))))

module _ {W : Type 0} (s : Schema W) where
  executed : ExecutableStatement → W × Fallible ExecAnswer → W × Fallible Result
  unfolding execution_error statement_command
  executed statement (w, err e) = (w, err (execution_error statement.source e))
  executed statement (w, ok answer) = elim answer.rows_affected [
    | err e ↦ (w, err (execution_error statement.source e))
    | ok count ↦ (
      w,
      ok (record {
        rows = none;
        row_count = count;
        command = statement_command s.pg statement.source;
      }),
    )
  ]

  -- `execOne`
  pub exec_one : Executor → ExecutableStatement → List Value → Effect W Result
  unfolding executed
  exec_one x statement arguments w =
      executed statement (s.engine.exec x statement.translated arguments w)

  materialized : ExecutableStatement → Fallible (List Row) → Fallible Result
  unfolding execution_error statement_command
  materialized statement (err e) = err (execution_error statement.source e)
  materialized statement (ok rows) = ok (record {
    rows = some rows;
    row_count = pos (length rows);
    command = statement_command s.pg statement.source;
  })

  queried : ExecutableStatement → W × Fallible RowSet → W × Fallible Result
  unfolding materialized materialize_rows execution_error
  queried statement (w, err e) = (w, err (execution_error statement.source e))
  queried statement (w, ok rows) =
      ((s.engine.close_rows rows.handle w).0, materialized statement (materialize_rows rows))

  -- `queryOne`; the rows are closed on every path
  pub query_one : Executor → ExecutableStatement → List Value → Effect W Result
  unfolding queried
  query_one x statement arguments w =
      queried statement (s.engine.query x statement.translated arguments w)

  committed : ℕ → Text → Result → W × Option GoError → W × Fallible Result
  committed t script result (w, none) = (w, ok result)
  committed t script result (w, some e) =
      ((s.engine.rollback t w).0, err (execution_error script e))

  -- The end of a script's transaction: a rollback unless it commits.
  settle : ℕ → Text → W × Fallible Result → W × Fallible Result
  unfolding committed
  settle t script (w, err e) = ((s.engine.rollback t w).0, err e)
  settle t script (w, ok result) = committed t script result (s.engine.commit t w)

  after_one : (Result → Effect W Result) → W × Fallible Result → W × Fallible Result
  after_one rest (w, err e) = (w, err e)
  after_one rest (w, ok result) = rest result w

  -- The loop of `ExecContext`, with the result of the statement before.
  pub exec_all : ℕ → List ExecutableStatement → Result → Effect W Result
  unfolding after_one exec_one
  exec_all t [] last w = (w, ok last)
  exec_all t (statement ∷ statements) last w =
      after_one (exec_all t statements) (exec_one (in_tx t) statement [] w)

  -- The loop of `QueryContext`: every statement but the last is executed, and the last one queried.
  pub query_last : ℕ → List ExecutableStatement → Result → Effect W Result
  unfolding after_one exec_one query_one
  query_last t [] last w = (w, ok last)
  query_last t (statement ∷ []) last w = query_one (in_tx t) statement [] w
  query_last t (statement ∷ next ∷ statements) last w =
      after_one (query_last t (next ∷ statements)) (exec_one (in_tx t) statement [] w)

  in_transaction : Text → (ℕ → Effect W Result) → W × Fallible ℕ → W × Fallible Result
  unfolding settle execution_error
  in_transaction script body (w, err e) = (w, err (execution_error script e))
  in_transaction script body (w, ok t) = settle t script (body t w)

  -- What `ExecContext` and `QueryContext` do with the statements of a script: `one` runs a single one,
  -- and `body` several in a transaction.
  pub run_script :
      (ExecutableStatement → List Value → Effect W Result)
      → (ℕ → List ExecutableStatement → Effect W Result)
      → Text
      → List Value
      → W × Fallible (List ExecutableStatement)
      → W × Fallible Result
  unfolding in_transaction
  run_script one body script arguments (w, err e) = (w, err e)
  run_script one body script arguments (w, ok (statement ∷ [])) = one statement arguments w
  run_script one body script [] (w, ok statements) =
      in_transaction script (λ t. body t statements) (s.engine.begin_pool w)
  run_script one body script (a ∷ arguments) (w, ok statements) = (w, err (parameters_error script))

  intercepted : (W → W × Fallible Result) → W × Outcome Answer → W × Outcome (Fallible Result)
  intercepted rest (w, panicked p) = (w, panicked p)
  intercepted rest (w, returned (result, handled, some e)) = (w, returned (err e))
  intercepted rest (w, returned (result, true, none)) = (w, returned (ok result))
  intercepted rest (w, returned (result, false, none)) =
      let (w', answer) = rest w in (w', returned answer)

  abbrev usable : W → Bool
  usable w = s.attached && not (s.engine.is_closed w)

  -- `runInterceptors` of this schema
  unfoldable pub interceptors_first : Text → List Value → W → W × Outcome Answer
  unfolding run_interceptors
  interceptors_first statement arguments w =
      run_interceptors s.pg statement arguments (s.engine.ctx_err w) (not (usable w))
        (s.interceptors w) w

  -- `ExecContext`
  unfoldable pub exec_context : Text → List Value → W → W × Outcome (Fallible Result)
  unfolding intercepted interceptors_first run_script translate_statements exec_all exec_one
  exec_context statement arguments w =
      intercepted
        (λ w'.
          run_script (exec_one pool) (λ t statements. exec_all t statements empty_result) statement
            arguments (translate_statements s statement w'))
        (interceptors_first statement arguments w)

  -- `QueryContext`
  unfoldable pub query_context : Text → List Value → W → W × Outcome (Fallible Result)
  unfolding intercepted interceptors_first run_script translate_statements query_last query_one
  query_context statement arguments w =
      intercepted
        (λ w'.
          run_script (query_one pool) (λ t statements. query_last t statements empty_result)
            statement arguments (translate_statements s statement w'))
        (interceptors_first statement arguments w)

  -- `NoneContext`
  none_result : W × Outcome (Fallible Result) → W × Outcome (Option GoError)
  none_result (w, panicked p) = (w, panicked p)
  none_result (w, returned (ok r)) = (w, returned none)
  none_result (w, returned (err e)) = (w, returned (some e))

  pub none_context : Text → List Value → W → W × Outcome (Option GoError)
  unfolding exec_context none_result
  none_context statement arguments w = none_result (exec_context statement arguments w)

  many_rows : W × Outcome (Fallible Result) → W × Outcome (Fallible (List Row))
  unfolding rows_or_nil
  many_rows (w, panicked p) = (w, panicked p)
  many_rows (w, returned (ok r)) = (w, returned (ok (rows_or_nil r.rows)))
  many_rows (w, returned (err e)) = (w, returned (err e))

  -- `ManyContext`; a nil slice and an empty one are the same list here
  unfoldable pub many_context : Text → List Value → W → W × Outcome (Fallible (List Row))
  unfolding query_context many_rows
  many_context statement arguments w = many_rows (query_context statement arguments w)

  one_row : W × Outcome (Fallible (List Row)) → W × Outcome (Fallible Row)
  unfolding exactly_one
  one_row (w, panicked p) = (w, panicked p)
  one_row (w, returned (err e)) = (w, returned (err e))
  one_row (w, returned (ok rows)) = (w, returned (exactly_one rows))

  -- `OneContext`
  pub one_context : Text → List Value → W → W × Outcome (Fallible Row)
  unfolding many_context one_row
  one_context statement arguments w = one_row (many_context statement arguments w)
