-- ===== src/Zsl/Deletes.antt =====
-- sdsearch-core/src/zsl/deletes.rs: the reader of the deleted documents (.del), a dense bit vector.
pub mod RoundTrip
use php_sdsearch.Prelude.{ℕ, ◌/◌, ◌%◌, ◌^◌, List, [], drop, get_elem?, Bool, false, not, none, some}
use php_sdsearch.Prelude.{bit_and, ◌==◌, if◌then◌else◌}
use php_sdsearch.Io.{Reader, Result, invalid_data, ok, fail, ◌>>=◌, value}
use php_sdsearch.Zsl.Bytes.{read_i32_be}

pub record DeletedDocs : Type 0 where
  pub bits : List ℕ

-- -1, as an `i32`.
abbrev pub sparse_marker : ℕ
sparse_marker = 0xffff_ffff

-- `del.get(pos..).unwrap_or(&[])`
abbrev rest_of : Reader DeletedDocs
rest_of del pos = ok (record { bits = drop pos del }, pos)

-- What follows the document count: the sparse layout is refused.
unfoldable pub read_dense : ℕ → Reader DeletedDocs
read_dense doc_count =
    if doc_count == sparse_marker then fail invalid_data else (do _b ← read_i32_be; rest_of)

-- `DeletedDocs::read`
unfoldable pub read : List ℕ → Result DeletedDocs
unfolding read_dense
read del = value ((read_i32_be >>= read_dense) del 0)

-- `DeletedDocs::none`
unfoldable pub no_deletes : DeletedDocs
no_deletes = record { bits = [] }

-- `b & (1 << k) != 0`
unfoldable pub has_bit : ℕ → ℕ → Bool
has_bit b k = not (bit_and b (2 ^ k) == 0)

unfoldable pub is_deleted : DeletedDocs → ℕ → Bool
is_deleted d doc_id = elim (get_elem? d.bits (doc_id / 8)) [
  | none ↦ false
  | some b ↦ has_bit b (doc_id % 8)
]
