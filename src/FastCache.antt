-- ===== src/FastCache.antt =====
-- src/fast_cache.rs: Stata-style wildcards, variable lists, and the one-entry cache of a frame that
-- `describe` fills for the next `read`.
pub mod Glob
pub mod Matching
pub mod Varlist
pub mod Selection
pub mod Failure
pub mod Cache
pub mod History
