-- ===== src/Write.antt =====
-- src/write.rs: what a save does to files that are there, the options of a file, and the columns as
-- macros describe them.
pub mod Directory
pub mod Scan
pub mod Partition
pub mod Index
pub mod Columns
pub mod Save
pub mod Consolidation
