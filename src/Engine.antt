-- ===== src/Engine.antt =====
-- The embedded engine behind database/sql, with a context: parameters of the model. `W` is the state
-- of the world; handles of connections, transactions and statements are numbers.
use pgmem.Common.{ℕ, Bool, Option, List, nat_Key}
use pgmem.Common.Text.{Text, text_Key}
use pgmem.Common.Signed.{ℤ}
use pgmem.Errors.{GoError, Fallible}
use pgmem.Values.{Value}

-- What a statement is run on: the pool, a transaction, or a connection.
pub data Executor : Type 0 where
  pool : Executor
  in_tx : ℕ → Executor
  on_conn : ℕ → Executor

-- sql.Result, by the answer of RowsAffected
pub record ExecAnswer : Type 0 where
  pub rows_affected : Fallible ℤ

-- *sql.Rows, by its handle: the answers of Columns, of Scan at each row, and of Err at the end.
pub record RowSet : Type 0 where
  pub handle : ℕ
  pub columns : Fallible (List Text)
  pub scans : List (Fallible (List Value))
  pub rows_err : Option GoError

-- An operation that reports an error or a value, in a world that it changes.
abbrev pub Effect : Type 0 → Type 0 → Type 0
Effect W A = W → W × Fallible A

pub record Engine (W : Type 0) : Type 0 where
  -- ctx.Err, and `isClosed` of the database
  pub ctx_err : W → Option GoError
  pub is_closed : W → Bool
  pub conn : Effect W ℕ
  pub begin_tx : ℕ → ℕ → Bool → Effect W ℕ
  pub begin_pool : Effect W ℕ
  pub commit : ℕ → W → W × Option GoError
  pub rollback : ℕ → W → W × Option GoError
  pub close_conn : ℕ → W → W × Option GoError
  pub exec : Executor → Text → List Value → Effect W ExecAnswer
  pub query : Executor → Text → List Value → Effect W RowSet
  pub prepare : Executor → Text → Effect W ℕ
  pub ping : Executor → W → W × Option GoError
  pub close_rows : ℕ → W → W × Option GoError
  pub exec_prepared : ℕ → List Value → Effect W ExecAnswer
  pub query_prepared : ℕ → List Value → Effect W RowSet
  pub close_prepared : ℕ → W → W × Option GoError
