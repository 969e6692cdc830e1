-- ===== src/Search.antt =====
-- sdsearch-core/src/search.rs: the terms that a leaf of a query stands for, and the scores of a leaf.
pub mod Terms
pub mod Paging
pub mod Phrase
pub mod Restrict
pub mod Scores
