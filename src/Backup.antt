-- ===== src/Backup.antt =====
-- backup.go. Images of databases are bytes; the pool, its connections and the file system are
-- parameters.
pub mod Program
pub mod Storage
pub mod Create
pub mod Holder
pub mod Restore
pub mod Documented
