-- ===== src/Lib.antt =====
-- The index format of php-sdsearch, read and written, and the evaluation of its queries.
--
-- The crate `sdsearch-core` keeps a full-text index in segments. A segment is a set of files: field
-- infos (.fnm), stored fields (.fdt, indexed by .fdx), a term dictionary that points into postings
-- (.frq, .prx), norms, and deletions (.del). `zsl/*.rs` reads these files and `zsl/writer/*.rs`
-- writes them. All of them are made of a few primitives: varints (`serialize.rs`), big-endian
-- integers and strings (`zsl/bytes.rs`). This library models the primitives and, file by file, the
-- reader together with the writer. A query is built from the parameters of a search (`query.rs`) and
-- evaluated on whatever implements the trait `IndexReader` (`index.rs`) to a map from documents to
-- scores: the leaves are scored in `search.rs` with the formulas of `score.rs`, on tokens of
-- `analysis.rs`.
--
-- What models what (paths that start with zsl/ are below sdsearch-core/src):
-- - Serialize: sdsearch-core/src/serialize.rs, `write_vint` and `read_vint`.
-- - Zsl/Bytes: sdsearch-core/src/zsl/bytes.rs, all functions under their own names.
-- - Zsl/Fields, Zsl/Writer/Fnm: zsl/fields.rs and zsl/writer/fnm.rs.
-- - Zsl/Postings, Zsl/Writer/Postings: zsl/postings.rs and zsl/writer/postings.rs. The closure of
--   `for_each_posting` is a function on a state of its own.
-- - Zsl/Stored, Zsl/Writer/Stored: zsl/stored.rs and zsl/writer/stored.rs, without
--   `read_stored_fields`. The sinks of `StoredStreamWriter` are buffers.
-- - Zsl/Deletes, Zsl/Writer/Deletes: zsl/deletes.rs and zsl/writer/deletes.rs. A `BTreeSet` of ids
--   is the list of its elements.
-- - Zsl/Writer/Terms: zsl/writer/terms.rs, `TermDictStreamWriter` and `write_term_dict`; the fields
--   of the writer are grouped in three records. Zsl/Terms: `decode_entry`, `decode_all`,
--   `iter_terms` and the cursor of zsl/terms.rs.
-- - Distance: sdsearch-core/src/distance.rs.
-- - Maps, Strings, Floats: the standard library. A `HashMap` is the list of its entries and a `HashSet`
--   that of its members, in the order of some iteration. Floating-point numbers are a parameter, a
--   record of the operations that are used. The theorem on pages assumes that floats that are not
--   less than some bound, and so are numbers, compare by a rank; else no law of theirs is assumed, so that what is said of a score holds with all its
--   roundings.
-- - Analysis: sdsearch-core/src/analysis.rs. The regular expressions and the tables of Unicode are
--   the parameter Text.
-- - Score: sdsearch-core/src/score.rs. Index: the trait of sdsearch-core/src/index.rs.
-- - Search/Terms, Search/Scores: the terms and the scores of the leaves, sdsearch-core/src/search.rs.
--   Search/Paging: `finalize_paged` of the same file. `select_nth_unstable_by` is a parameter,
--   of which Search/Paging/Selection says what the standard library promises: it leaves the elements
--   in front, and those behind, in no specified order.
-- - Query, Query/Boolean: `eval` and `eval_boolean` of sdsearch-core/src/query.rs. Query/Meaning says
--   what a query means for one document at a time; Query/Refines compares the two.
-- - Query/Filters: `range_allow_list`, `match_all_allow_list` and `allow_list` of the same file.
-- - Query/Tree: `BoolNode` and `map_bool_node`; the depth is kept as the levels that are left.
-- - Query/Build: `QueryParams`, `text_subquery` and `build_query`. A `Vec` of clauses that grows is a
--   list; the dictionary of synonyms is a function.
-- - Prelude: lists and numbers, with tables that decide statements about bytes; Prelude/Utf8 is
--   `String::from_utf8_lossy`.
-- - Io: `std::io::Result`, and readers: `data: &[u8]` and `pos: &mut usize` are a list of bytes and a
--   position that is returned. Io/Reads, Io/Advances and Io/Moves hold the rules by which the
--   theorems on readers follow their code: what a reader finds where a writer left some bytes, that
--   it stays in its buffer, and that two readers move alike.
-- - Examples: runs of the code, and the theorems at concrete inputs.
--
-- Conventions. Numbers are natural numbers, and arithmetic of a machine type is written with its
-- wrap-around (`add64`, `sub32`), as a release build computes it. An `i32` or `i64` is its bit
-- pattern. A string is the list of its code points. Errors keep their kind, and the offset where
-- input was cut. A buffer holds less than 2^63 bytes (`isize::MAX`), as any slice in Rust; this is the
-- premise IsBuffer of the theorems that read what was written.
--
-- Loops: `write_vint` recurs on the order of the numbers, `read_vint` on the bytes that are left, the
-- others on their counters or lists. Only `decode_all` takes fuel, the length of the file, which is
-- enough since an entry is never empty.
--
-- Not modelled: the memory that `with_capacity` reserves; the panic of a slice that starts past the
-- end, in `fuzzy_terms`; the sparse index of the term dictionary
-- (`open`) with the scans from it; the compound file, the segments file, norms, locks and the
-- publication of a commit; inversion and merging; sorting a search by a field, and the entry points
-- above it; relevance feedback, synonyms and hybrid search; the readers of segments, the in-memory
-- index, and the PHP extension.
pub mod Analysis
pub mod Distance
pub mod Examples
pub mod Floats
pub mod Index
pub mod Io
pub mod Maps
pub mod Prelude
pub mod Query
pub mod Score
pub mod Search
pub mod Serialize
pub mod Strings
pub mod Zsl
