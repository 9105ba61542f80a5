-- ===== src/Functions.antt =====
-- function.go.
pub mod Registry
pub mod Normal
pub mod Dispatch
pub mod Rewrite
