-- ===== src/Zsl.antt =====
-- sdsearch-core/src/zsl: the readers of the index format, and in `Writer` its writers.
pub mod Bytes
pub mod Fields
pub mod Postings
pub mod Terms
pub mod Deletes
pub mod Stored
pub mod Writer
