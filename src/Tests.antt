-- ===== src/Tests.antt =====
-- Runs of the theorems, and of the definitions, at concrete inputs.
pub mod Chunks
pub mod Codecs
pub mod Format
pub mod Groups
pub mod Heaps
pub mod SymTables
