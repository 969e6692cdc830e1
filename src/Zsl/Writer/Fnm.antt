-- ===== src/Zsl/Writer/Fnm.antt =====
-- sdsearch-core/src/zsl/writer/fnm.rs: the field infos (.fnm).
use php_sdsearch.Prelude.{ℕ, List, [], ◌∷◌, ◌++◌, length, Bool, if◌then◌else◌}
use php_sdsearch.Io.Writes.{write_each}
use php_sdsearch.Serialize.{write_vint}
use php_sdsearch.Zsl.Bytes.{write_modified_utf8}

-- writer/invert.rs
pub record FieldMeta : Type 0 where
  pub name : List ℕ
  pub indexed : Bool

-- `u8::from(bool)`
abbrev pub u8_from : Bool → ℕ
u8_from b = if b then 1 else 0

unfoldable pub write_field : List ℕ → FieldMeta → List ℕ
write_field out f = write_modified_utf8 out f.name ++ (u8_from f.indexed ∷ [])

unfoldable pub write_fnm : List FieldMeta → List ℕ
unfolding write_field
write_fnm fields = write_each write_field (write_vint [] (length fields)) fields
