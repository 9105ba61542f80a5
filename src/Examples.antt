-- ===== src/Examples.antt =====
-- Small worlds, registries and trees, and the theorems at work on them.
mod World
mod Translator
mod Disk
mod DiskLaws
mod Documents
mod Backup
mod Errors
mod Intercept
mod Functions
mod Driver
mod Database
mod Schema
mod Table
