-- ===== src/Zsl/Fields/RoundTrip.antt =====
-- The field infos that `write_fnm` writes are those that `read_field_infos` reads.
use php_sdsearch.Prelude.{ℕ, ◌≡◌, refl, ap, ◌∙◌, List, [], ◌∷◌, ◌++◌, map}
use php_sdsearch.Prelude.{length, append_assoc, All, All-imp, Bool, true, false}
use php_sdsearch.Io.{ok, IsBuffer, ◌>>=◌, repeat, value}
use php_sdsearch.Io.Reads.{Reads, Reads-bind, Reads-map, Reads-repeat, Reads-whole, concat_map}
use php_sdsearch.Io.Writes.{write_each-append, Appends}
use php_sdsearch.Serialize.{IsU64, write_vint, read_vint}
use php_sdsearch.Serialize.RoundTrip.{Reads-vint}
use php_sdsearch.Zsl.Bytes.{write_modified_utf8, read_modified_utf8, read_byte}
use php_sdsearch.Zsl.Bytes.Integers.{Reads-byte}
use php_sdsearch.Zsl.Bytes.Strings.{IsString, Reads-string, write_modified_utf8-append}
use php_sdsearch.Zsl.Fields.{FieldInfo, field_info, read_field_info, read_field_infos}
use php_sdsearch.Zsl.Writer.Fnm.{FieldMeta, u8_from, write_field, write_fnm}

abbrev pub NamesAreStrings : List FieldMeta → Type 0
NamesAreStrings fields = All (λ (f : FieldMeta). IsString f.name) fields

abbrev pub info_of : FieldMeta → FieldInfo
info_of f = record { name = f.name; is_indexed = f.indexed }

flag_lem :
    (name : List ℕ) (b : Bool)
    → field_info name (u8_from b) ≡ record { name = name; is_indexed = b }
flag_lem name true = refl
flag_lem name false = refl

Appends-field : (f : FieldMeta) → IsString f.name → Appends write_field f
unfolding write_field
Appends-field f h buf =
    ap (λ b. b ++ (u8_from f.indexed ∷ [])) (write_modified_utf8-append buf f.name h.1)
    ∙ append_assoc buf (write_modified_utf8 [] f.name) (u8_from f.indexed ∷ [])

Reads-field :
    (f : FieldMeta) → IsString f.name → Reads read_field_info (write_field [] f) (info_of f)
unfolding read_field_info write_field
Reads-field f h =
    Reads-bind read_modified_utf8 _ (write_modified_utf8 [] f.name) (u8_from f.indexed ∷ []) f.name
      (info_of f) (Reads-string f.name h)
      (Reads-map read_byte (field_info f.name) (u8_from f.indexed ∷ []) (u8_from f.indexed)
        (info_of f) (Reads-byte (u8_from f.indexed)) (flag_lem f.name f.indexed))

module _ (fields : List FieldMeta) (strings : NamesAreStrings fields)
    (few : IsU64 (length fields)) where
  fnm_bytes : write_fnm fields ≡ write_vint [] (length fields) ++ concat_map (write_field []) fields
  unfolding write_fnm
  fnm_bytes =
      write_each-append write_field (write_vint [] (length fields)) fields
        (All-imp (λ (f : FieldMeta). IsString f.name) _ Appends-field fields strings)

  -- The reader of `.fnm` returns the fields that `write_fnm` was given, in their order, with their
  -- names and their `indexed` flags; the names are strings, there are less than 2^64 fields, and
  -- the file is less than 2^63 bytes.
  pub read_field_infos-write_fnm :
      IsBuffer (write_fnm fields) → read_field_infos (write_fnm fields) ≡ ok (map info_of fields)
  unfolding read_field_infos
  read_field_infos-write_fnm fits = ap value (
      Reads-whole (read_vint >>= λ count. repeat count read_field_info) (write_fnm fields)
        (map info_of fields)
        (rw fnm_bytes (
          Reads-bind read_vint _ (write_vint [] (length fields)) _ (length fields) _
            (Reads-vint (length fields) few)
            (Reads-repeat read_field_info (write_field []) info_of fields
              (All-imp (λ (f : FieldMeta). IsString f.name) _ Reads-field fields strings))))
        fits)
