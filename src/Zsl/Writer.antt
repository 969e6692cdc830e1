-- ===== src/Zsl/Writer.antt =====
-- sdsearch-core/src/zsl/writer: the writers, each the inverse of a reader.
pub mod Fnm
pub mod Postings
pub mod Deletes
pub mod Stored
pub mod Terms
