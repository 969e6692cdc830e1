-- ===== src/Zsl/Writer/Stored.antt =====
-- sdsearch-core/src/zsl/writer/stored.rs: the stored fields (.fdt, indexed by .fdx). The sinks are
-- buffers, to which writing does not fail.
use php_sdsearch.Prelude.{ℕ, List, [], ◌∷◌, ◌++◌, length, Bool, add64}
use php_sdsearch.Io.Writes.{write_each}
use php_sdsearch.Serialize.{write_vint}
use php_sdsearch.Zsl.Bytes.{be_bytes, write_modified_utf8}
use php_sdsearch.Zsl.Writer.Fnm.{u8_from}

-- writer/invert.rs
pub record StoredField : Type 0 where
  pub field_num : ℕ
  pub value : List ℕ
  pub tokenized : Bool

pub record StoredStreamWriter : Type 0 where
  pub fdt : List ℕ
  pub fdx : List ℕ
  pub fdt_len : ℕ

-- `StoredStreamWriter::new` over empty sinks.
unfoldable pub new : StoredStreamWriter
new = record { fdt = []; fdx = []; fdt_len = 0 }

unfoldable pub write_stored_field : List ℕ → StoredField → List ℕ
write_stored_field block sf =
    write_modified_utf8 (write_vint block sf.field_num ++ (u8_from sf.tokenized ∷ [])) sf.value

unfoldable pub write_block : List StoredField → List ℕ
unfolding write_stored_field
write_block fields = write_each write_stored_field (write_vint [] (length fields)) fields

unfoldable pub add_doc : StoredStreamWriter → List StoredField → StoredStreamWriter
unfolding write_block
add_doc w fields = record {
  fdt = w.fdt ++ write_block fields;
  fdx = w.fdx ++ be_bytes 8 w.fdt_len;
  fdt_len = add64 w.fdt_len (length (write_block fields));
}

unfoldable pub add_docs : StoredStreamWriter → List (List StoredField) → StoredStreamWriter
unfolding add_doc
add_docs w [] = w
add_docs w (fields ∷ docs) = add_docs (add_doc w fields) docs

unfoldable pub write_stored : List (List StoredField) → List ℕ × List ℕ
unfolding add_docs new
write_stored docs_stored = let w = add_docs new docs_stored in (w.fdt, w.fdx)
