-- ===== src/Tests.antt =====
-- Runs of the definitions on concrete inputs.
pub mod Varlists
pub mod Reads
pub mod Types
pub mod Files
pub mod Conditions
pub mod Metadata
pub mod Saves
pub mod WholeSaves
