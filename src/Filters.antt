-- ===== src/Filters.antt =====
-- The filters of crates/oxih5-format/src/filters.rs and the pipelines that run them.
pub mod Shuffle
pub mod Fletcher
pub mod Nbit
pub mod Codecs
pub mod Pipeline
