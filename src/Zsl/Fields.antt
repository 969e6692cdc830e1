-- ===== src/Zsl/Fields.antt =====
-- sdsearch-core/src/zsl/fields.rs: the reader of the field infos (.fnm).
pub mod RoundTrip
use php_sdsearch.Prelude.{ℕ, List, Bool, not, ◌==◌, bit_and}
use php_sdsearch.Io.{Reader, Result, pure, ◌>>=◌, repeat, value}
use php_sdsearch.Serialize.{read_vint}
use php_sdsearch.Zsl.Bytes.{read_modified_utf8, read_byte}

pub record FieldInfo : Type 0 where
  pub name : List ℕ
  pub is_indexed : Bool

abbrev pub field_info : List ℕ → ℕ → FieldInfo
field_info name flags = record { name = name; is_indexed = not (bit_and flags 0x01 == 0) }

unfoldable pub read_field_info : Reader FieldInfo
read_field_info = do name ← read_modified_utf8; flags ← read_byte; pure (field_info name flags)

unfoldable pub read_field_infos : List ℕ → Result (List FieldInfo)
unfolding read_field_info
read_field_infos fnm = value ((read_vint >>= λ count. repeat count read_field_info) fnm 0)
