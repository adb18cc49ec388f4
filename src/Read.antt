-- ===== src/Read.antt =====
-- src/read.rs: the read path, its batches, windows, samples and sorts.
pub mod Cells
pub mod Values
pub mod TopK
pub mod BatchSize
pub mod SplitMix
pub mod Sample
pub mod Sampler
pub mod Selection
pub mod Batches
pub mod Formats
