-- ===== src/Zsl/Stored.antt =====
-- sdsearch-core/src/zsl/stored.rs: the reader of the stored fields (.fdt, indexed by .fdx).
pub mod RoundTrip
pub mod Lookup
use php_sdsearch.Prelude.{
  ℕ, zero, suc, ◌+◌, List, [], length, Bool, true, false, not, Option, none, some,
}
use php_sdsearch.Prelude.{bit_and, ltb, ◌==◌, if◌then◌else◌, mul64, add64}
use php_sdsearch.Prelude.Utf8.{from_utf8_lossy}
use php_sdsearch.Io.{Reader, Result, ok, err, pure, ◌>>=◌, repeat, value}
use php_sdsearch.Serialize.{read_vint}
use php_sdsearch.Zsl.Bytes.{
  read_byte, read_slice, read_u64_be, read_modified_utf8, skip_modified_utf8,
}

pub record StoredRaw : Type 0 where
  pub field_num : ℕ
  pub value : List ℕ
  pub tokenized : Bool
  pub is_binary : Bool

-- `flags & 0x01 != 0`, `flags & 0x02 != 0`
abbrev pub tokenized_flag : ℕ → Bool
tokenized_flag flags = not (bit_and flags 0x01 == 0)

abbrev pub binary_flag : ℕ → Bool
binary_flag flags = not (bit_and flags 0x02 == 0)

-- A value of raw bytes, behind their number.
unfoldable pub read_binary : Reader (List ℕ)
read_binary = do len ← read_vint; bytes ← read_slice len; pure (from_utf8_lossy bytes)

unfoldable pub read_value : ℕ → Reader (List ℕ)
read_value flags = if binary_flag flags then read_binary else read_modified_utf8

abbrev pub stored_raw : ℕ → ℕ → List ℕ → StoredRaw
stored_raw field_num flags value = record {
  field_num = field_num;
  value = value;
  tokenized = tokenized_flag flags;
  is_binary = binary_flag flags;
}

-- One round of the loop of `read_stored_raw`.
unfoldable pub read_raw_field : Reader StoredRaw
read_raw_field = do
  field_num ← read_vint
  flags ← read_byte
  value ← read_value flags
  pure (stored_raw field_num flags value)

-- The part of both readers that finds the document's block: `none` if `.fdx` does not reach it.
unfoldable pub find_block : List ℕ → ℕ → Option (Result ℕ)
find_block fdx doc_id =
    let idx_pos = mul64 doc_id 8 in
    if ltb (length fdx) (add64 idx_pos 8) then none else some (value (read_u64_be fdx idx_pos))

unfoldable pub read_block : Reader (List StoredRaw)
read_block = do stored_count ← read_vint; repeat stored_count read_raw_field

abbrev raw_from : List ℕ → Option (Result ℕ) → Result (List StoredRaw)
raw_from fdt none = ok []
raw_from fdt (some (err e)) = err e
raw_from fdt (some (ok fdt_off)) = value (read_block fdt fdt_off)

unfoldable pub read_stored_raw : List ℕ → List ℕ → ℕ → Result (List StoredRaw)
read_stored_raw fdx fdt doc_id = raw_from fdt (find_block fdx doc_id)

-- `read_stored_field`: the loop returns at the first entry of the field, and steps over the others.
unfoldable pub skip_value : ℕ → Reader (Unit {0})
skip_value flags =
    if binary_flag flags
    then (do len ← read_vint; _b ← read_slice len; pure tt)
    else skip_modified_utf8

-- One entry, and `rest` for those behind it.
unfoldable pub choose_field : ℕ → Reader (Option (List ℕ)) → ℕ → ℕ → Reader (Option (List ℕ))
choose_field field_num rest num flags =
    if num == field_num
    then (do value ← read_value flags; pure (some value))
    else (do _u ← skip_value flags; rest)

unfoldable pub find_field : ℕ → ℕ → Reader (Option (List ℕ))
unfolding choose_field
find_field zero field_num = pure none
find_field (suc n) field_num = do
  num ← read_vint
  flags ← read_byte
  choose_field field_num (find_field n field_num) num flags

unfoldable pub find_in_block : ℕ → Reader (Option (List ℕ))
find_in_block field_num = do stored_count ← read_vint; find_field stored_count field_num

abbrev field_from : List ℕ → ℕ → Option (Result ℕ) → Result (Option (List ℕ))
field_from fdt field_num none = ok none
field_from fdt field_num (some (err e)) = err e
field_from fdt field_num (some (ok fdt_off)) = value (find_in_block field_num fdt fdt_off)

unfoldable pub read_stored_field : List ℕ → List ℕ → ℕ → ℕ → Result (Option (List ℕ))
read_stored_field fdx fdt doc_id field_num = field_from fdt field_num (find_block fdx doc_id)
