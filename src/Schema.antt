-- ===== src/Schema.antt =====
-- schema.go.
pub mod Command
pub mod Translate
pub mod Rows
pub mod Execution
