-- ===== src/Lib.antt =====
-- pgmem is an in-process PostgreSQL emulator for tests: it translates PostgreSQL to the SQL of an
-- embedded engine, runs it through database/sql, and adds named schemas, query interceptors,
-- registered scalar functions and an adapter for database/sql.
--
-- A statement goes from a `Schema` (schema.go) through the interceptors (intercept.go), the translator
-- and the rewriting of registered functions (function.go) to the engine; the engine calls back into
-- the function dispatcher. The adapter (driver.go) runs the translation of its schema and passes the
-- text to the pool or to its transaction. Errors of the engine get a SQLSTATE (errors.go,
-- database.go).
--
-- Files:
-- - Common: text as bytes, dictionaries, Boolean tests, integers. strings.ToLower, ToUpper,
--   EqualFold, TrimSpace and Fields are those of ASCII text.
-- - Errors: errors.go, and executionError and sqlState of database.go.
-- - Quote: quoteIdentifier of database.go, quoteStringLiteral of backup.go.
-- - Values: Result and Row of schema.go, cloneDriverValue, cloneArguments, cloneResult. A value is its
--   contents, so a copy is equal to what it copies; aliasing of byte slices and maps is not modelled.
--   Floats are bit patterns.
-- - Intercept: intercept.go. Ids are uint64 and wrap at 2^64. sync.Once is a flag.
-- - Tree: the parse trees of pg_query_go as far as the program looks at them.
-- - Translator: translator.go. The names of types and of operators are Strings. Of the tables only
--   those that are named by RangeVars are rewritten, and spoken of; the tables of a DROP are Strings.
-- - Functions.Registry, Functions.Rewrite, Functions.Dispatch, Functions.Normal: function.go.
-- - Schema.Command, Schema.Translate, Schema.Rows, Schema.Execution: schema.go.
-- - Table: table.go. Table.Plain spells out the statements that it builds.
-- - Database: the end of NewContext, CreateSchema, Schema, SchemaNames and Close of database.go.
-- - Backup: backup.go. Backup.Program is code that changes the world and restoreSequence and returns a
--   value or an error; Backup.Storage has the operations that it uses, Backup.Documented what is
--   documented of them for logical databases, where only a connection of the database's own pool
--   reaches the live ones. Backup.Create is BackupContext,
--   Backup.Holder restoredSchemaHolder, Backup.Restore RestoreContext. Each call holds the
--   database's locks, so that it is one step; the pointer of a Backup to its database is the
--   argument of restore_context.
-- - Engine: what the program calls of database/sql, as operations on a world that the caller chooses.
-- - Driver, Driver.Statement: driver.go, and Driver.Pins the calls that database/sql makes of it.
--   `Session` is an sqlConnection with the finished flags of its transactions; its lock makes each
--   call one step, and `passes` stands for all other changes of the world between calls.
-- - Examples: a small engine, databases in memory, and the theorems at work on them.
--
-- The engine, the PostgreSQL parser and deparser, the translator of a schema, the callbacks and the
-- context are parameters; `Pins` (Driver.Pins), `Transactional` (Schema.Execution.Atomic) and
-- `Documented` (Backup.Documented) say what of the documentation of database/sql, SQLite and the
-- package os a theorem needs. A callback returns an outcome, which may be a panic. The model has no
-- fuel: its loops go over lists and trees. restoreSequence is a uint64 and wraps around. `drain`, a
-- reader of rows, is given how often it may call Next.
--
-- Not modelled: options.go; of database.go the options and the opening of the pool in NewContext; in
-- function.go the registration with the engine and the random dispatch id; in driver.go the
-- constructors of connectors.
pub mod Common
pub mod Errors
pub mod Quote
pub mod Values
pub mod Schema
pub mod Intercept
pub mod Tree
pub mod Functions
pub mod Engine
pub mod Driver
pub mod Table
pub mod Database
pub mod Backup
pub mod Translator
pub mod Examples
