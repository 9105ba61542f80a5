-- ===== src/Errors.antt =====
-- errors.go, and `executionError` and `sqlState` of database.go: Go's error values as a data type,
-- with the walk of errors.Is and errors.As along their causes.
pub mod Chain
use pgmem.Common.{Bool, true, false, Option, none, some, [], ◌++◌, if◌then◌else◌}
use pgmem.Common.Text.{Text, codes, text_eq, contains, to_lower}

-- The values that the code compares errors with: its own, and those of database/sql and io.
pub data Sentinel : Type 0 where
  closed no_rows too_many_rows invalid_schema : Sentinel
  unsupported relation_not_found schema_changed : Sentinel
  tx_done bad_conn sql_no_rows eof : Sentinel

-- The result codes of the embedded engine that `sqlState` names, and any other.
pub data SqliteCode : Type 0 where
  constraint_primary_key constraint_unique constraint_not_null : SqliteCode
  constraint_foreign_key constraint_check busy locked other_code : SqliteCode

-- `plain` is errors.New, and every error of other code that the program only reads the text of;
-- `wrap before e after` is fmt.Errorf with %w at the place of `e`; `pg_error` and `bare_error` are
-- an `*Error` with and without a cause.
pub data GoError : Type 0 where
  sentinel : Sentinel → GoError
  plain : Text → GoError
  wrap : Text → GoError → Text → GoError
  sqlite : SqliteCode → Text → GoError
  pg_error : Text → Text → Text → GoError → GoError
  bare_error : Text → Text → Text → GoError

-- The struct `Error`.
pub record Error : Type 0 where
  pub code : Text
  pub message : Text
  pub statement : Text
  pub cause : Option GoError

-- An `*Error` as a value of the interface error.
unfoldable pub of_error : Error → GoError
of_error e = elim e.cause [
  | none ↦ bare_error e.code e.message e.statement
  | some c ↦ pg_error e.code e.message e.statement c
]

abbrev pub sentinel_message : Sentinel → Text
sentinel_message closed = codes "pgmem: database is closed"
sentinel_message no_rows = codes "pgmem: expected one row, got none"
sentinel_message too_many_rows = codes "pgmem: expected one row, got many"
sentinel_message invalid_schema = codes "pgmem: invalid schema"
sentinel_message unsupported = codes "pgmem: unsupported PostgreSQL feature"
sentinel_message relation_not_found = codes "pgmem: relation does not exist"
sentinel_message schema_changed = codes "pgmem: schema changed since backup"
sentinel_message tx_done = codes "sql: transaction has already been committed or rolled back"
sentinel_message bad_conn = codes "driver: bad connection"
sentinel_message sql_no_rows = codes "sql: no rows in result set"
sentinel_message eof = codes "EOF"

-- `Error.Error` of a pointer that is not nil
format_error : Text → Text → Text
unfolding text_eq
format_error code message =
    if text_eq code [] then message else message ++ codes " (SQLSTATE " ++ code ++ codes ")"

-- `Error.Error`
unfoldable pub error_text : Option Error → Text
unfolding format_error
error_text none = codes "<nil>"
error_text (some e) = format_error e.code e.message

-- `Error.Unwrap`
unfoldable pub unwrap_error : Option Error → Option GoError
unwrap_error none = none
unwrap_error (some e) = e.cause

-- `Error.SQLState`
unfoldable pub error_sql_state : Option Error → Text
error_sql_state none = []
error_sql_state (some e) = e.code

-- the method Error of any error value
unfoldable pub message : GoError → Text
unfolding format_error
message (sentinel s) = sentinel_message s
message (plain t) = t
message (wrap before e after) = before ++ message e ++ after
message (sqlite c t) = t
message (pg_error code text statement cause) = format_error code text
message (bare_error code text statement) = format_error code text

-- Two of these values are one variable.
abbrev pub same_sentinel : Sentinel → Sentinel → Bool
same_sentinel closed closed = true
same_sentinel no_rows no_rows = true
same_sentinel too_many_rows too_many_rows = true
same_sentinel invalid_schema invalid_schema = true
same_sentinel unsupported unsupported = true
same_sentinel relation_not_found relation_not_found = true
same_sentinel schema_changed schema_changed = true
same_sentinel tx_done tx_done = true
same_sentinel bad_conn bad_conn = true
same_sentinel sql_no_rows sql_no_rows = true
same_sentinel eof eof = true
same_sentinel _ _ = false

-- errors.Is, for a target among the sentinels
unfoldable pub errors_is : GoError → Sentinel → Bool
errors_is (sentinel s) target = same_sentinel s target
errors_is (plain t) target = false
errors_is (wrap before e after) target = errors_is e target
errors_is (sqlite c t) target = false
errors_is (pg_error code text statement cause) target = errors_is cause target
errors_is (bare_error code text statement) target = false

-- errors.As for the engine's error type
unfoldable pub errors_as_sqlite : GoError → Option SqliteCode
errors_as_sqlite (sqlite c t) = some c
errors_as_sqlite (wrap before e after) = errors_as_sqlite e
errors_as_sqlite (pg_error code text statement cause) = errors_as_sqlite cause
errors_as_sqlite _ = none

-- the first switch of `sqlState`
unfoldable pub code_sql_state : SqliteCode → Option Text
code_sql_state constraint_primary_key = some (codes "23505")
code_sql_state constraint_unique = some (codes "23505")
code_sql_state constraint_not_null = some (codes "23502")
code_sql_state constraint_foreign_key = some (codes "23503")
code_sql_state constraint_check = some (codes "23514")
code_sql_state busy = some (codes "40001")
code_sql_state locked = some (codes "40001")
code_sql_state other_code = none

-- the second switch of `sqlState`, over the text in lower case
unfoldable pub text_sql_state : Text → Text
text_sql_state text =
    if contains (codes "pgmem function") text
    then codes "38000"
    else if contains (codes "no such table") text
    then codes "42P01"
    else if contains (codes "no such column") text
    then codes "42703"
    else if contains (codes "syntax error") text
    then codes "42601"
    else codes "XX000"

engine_sql_state : Option SqliteCode → Option Text
unfolding code_sql_state
engine_sql_state none = none
engine_sql_state (some c) = code_sql_state c

unfoldable pub sql_state : GoError → Text
unfolding engine_sql_state
sql_state cause = elim (engine_sql_state (errors_as_sqlite cause)) [
  | some state ↦ state
  | none ↦ text_sql_state (to_lower (message cause))
]

-- `executionError`
unfoldable pub execution_error : Text → GoError → GoError
unfolding of_error
execution_error statement cause = of_error (record {
  code = sql_state cause;
  message = message cause;
  statement = statement;
  cause = some cause;
})

-- What recover() returns: an error value, or another value, by its %v text.
pub data PanicValue : Type 0 where
  error_panic : GoError → PanicValue
  other_panic : Text → PanicValue

-- A call returns or panics.
pub data Outcome {ℓ} (A : Type ℓ) : Type ℓ where
  returned : A → Outcome A
  panicked : PanicValue → Outcome A

-- A pair of a value and an error, of which the code returns one.
pub data Fallible {ℓ} (A : Type ℓ) : Type ℓ where
  ok : A → Fallible A
  err : GoError → Fallible A
