-- ===== src/Zsl/Stored/RoundTrip.antt =====
-- The stored fields that `write_stored` writes are those that `read_stored_raw` reads.
use php_sdsearch.Prelude.{ℕ, ◌+◌, ◌*◌, ◌^◌, ◌≤◌, ◌<◌, ◌≡◌, refl, sym, ap, ◌∙◌, arith}
use php_sdsearch.Prelude.{
  List, [], ◌∷◌, ◌++◌, map, length, length-append, append-nil, append_assoc, All, All-imp,
}
use php_sdsearch.Prelude.{Bool, true, false, some, none, ltb, add64, mul64}
use mathlib.Core.Path.{ap₂}
use php_sdsearch.Io.{ok, IsBuffer, value}
use php_sdsearch.Io.Reads.{Reads, Reads-bind, Reads-map, Reads-repeat, concat_map}
use php_sdsearch.Io.Writes.{write_each-append, Appends}
use php_sdsearch.Serialize.{IsU64, write_vint, read_vint}
use php_sdsearch.Serialize.RoundTrip.{Reads-vint, write_vint-append}
use php_sdsearch.Zsl.Bytes.{be_bytes, write_modified_utf8, read_modified_utf8, read_byte}
use php_sdsearch.Zsl.Bytes.Integers.{Reads-byte, Reads-u64, length-be_bytes}
use php_sdsearch.Zsl.Bytes.Strings.{IsString, Reads-string, write_modified_utf8-append}
use php_sdsearch.Zsl.Stored.{
  StoredRaw, stored_raw, read_value, read_raw_field, find_block, read_block, read_stored_raw,
  raw_from,
}
use php_sdsearch.Zsl.Writer.Fnm.{u8_from}
use php_sdsearch.Zsl.Writer.Stored.{
  StoredField, StoredStreamWriter, new, write_stored_field, write_block, add_doc, add_docs,
  write_stored,
}

-- Field numbers are machine numbers, values are strings.
abbrev pub IsStored : StoredField → Type 0
IsStored sf = IsU64 sf.field_num × IsString sf.value

abbrev pub raw_of : StoredField → StoredRaw
raw_of sf = record {
  field_num = sf.field_num;
  value = sf.value;
  tokenized = sf.tokenized;
  is_binary = false;
}

-- The bytes of a field.
field_bytes : StoredField → List ℕ
field_bytes sf =
    write_vint [] sf.field_num ++ ((u8_from sf.tokenized ∷ []) ++ write_modified_utf8 [] sf.value)

write_stored_field-append :
    (block : List ℕ) (sf : StoredField)
    → IsStored sf
    → write_stored_field block sf ≡ block ++ field_bytes sf
unfolding write_stored_field field_bytes
write_stored_field-append block sf (num, text) =
    write_modified_utf8-append (write_vint block sf.field_num ++ flag) sf.value text.1
    ∙ ap (λ b. (b ++ flag) ++ string) (write_vint-append block sf.field_num num)
    ∙ append_assoc (block ++ write_vint [] sf.field_num) flag string
    ∙ append_assoc block (write_vint [] sf.field_num) (flag ++ string)
  where
    flag : List ℕ
    flag = u8_from sf.tokenized ∷ []

    string : List ℕ
    string = write_modified_utf8 [] sf.value

Appends-stored : (sf : StoredField) → IsStored sf → Appends write_stored_field sf
Appends-stored sf h buf =
    write_stored_field-append buf sf h
    ∙ ap (λ b. buf ++ b) (sym (write_stored_field-append [] sf h))

stored_raw_lem :
    (sf : StoredField) (b : Bool)
    → stored_raw sf.field_num (u8_from b) sf.value
      ≡ record { field_num = sf.field_num; value = sf.value; tokenized = b; is_binary = false }
stored_raw_lem sf true = refl
stored_raw_lem sf false = refl

read_value_text : (b : Bool) → read_value (u8_from b) ≡ read_modified_utf8
unfolding read_value
read_value_text true = refl
read_value_text false = refl

Reads-stored :
    (sf : StoredField) → IsStored sf → Reads read_raw_field (write_stored_field [] sf) (raw_of sf)
unfolding read_raw_field field_bytes
Reads-stored sf h = rw (write_stored_field-append [] sf h) (
    Reads-bind read_vint _ (write_vint [] sf.field_num) _ sf.field_num (raw_of sf)
      (Reads-vint sf.field_num h.0)
      (Reads-bind read_byte _ (u8_from sf.tokenized ∷ []) (write_modified_utf8 [] sf.value)
        (u8_from sf.tokenized) (raw_of sf) (Reads-byte (u8_from sf.tokenized))
        (rw (read_value_text sf.tokenized) (
          Reads-map read_modified_utf8 (stored_raw sf.field_num (u8_from sf.tokenized))
            (write_modified_utf8 [] sf.value) sf.value (raw_of sf) (Reads-string sf.value h.1)
            (stored_raw_lem sf sf.tokenized)))))

pub Reads-block :
    (fields : List StoredField)
    → All IsStored fields
    → IsU64 (length fields)
    → Reads read_block (write_block fields) (map raw_of fields)
unfolding read_block write_block
Reads-block fields good few =
    rw
      (write_each-append write_stored_field (write_vint [] (length fields)) fields
        (All-imp IsStored _ Appends-stored fields good))
      (Reads-bind read_vint _ (write_vint [] (length fields)) _ (length fields) _
        (Reads-vint (length fields) few)
        (Reads-repeat read_raw_field (write_stored_field []) raw_of fields
          (All-imp IsStored _ Reads-stored fields good)))

-- What `.fdx` holds for documents whose blocks start at `offset`.
fdx_bytes : ℕ → List (List StoredField) → List ℕ
fdx_bytes offset [] = []
fdx_bytes offset (fields ∷ docs) =
    be_bytes 8 offset ++ fdx_bytes (offset + length (write_block fields)) docs

blocks : List (List StoredField) → List ℕ
blocks docs = concat_map write_block docs

length-fdx_bytes :
    (offset : ℕ) (docs : List (List StoredField)) → length (fdx_bytes offset docs) ≡ 8 * length docs
unfolding fdx_bytes
length-fdx_bytes offset [] = refl
length-fdx_bytes offset (fields ∷ docs) = omega (
  arith,
  length-append (be_bytes 8 offset) (fdx_bytes (offset + length (write_block fields)) docs),
  length-be_bytes 8 offset,
  length-fdx_bytes (offset + length (write_block fields)) docs,
)

fdx_bytes-append :
    (offset : ℕ) (before docs : List (List StoredField))
    → fdx_bytes offset (before ++ docs)
      ≡ fdx_bytes offset before ++ fdx_bytes (offset + length (blocks before)) docs
unfolding fdx_bytes blocks
fdx_bytes-append offset [] docs = ap (λ o. fdx_bytes o docs) (omega arith)
fdx_bytes-append offset (fields ∷ before) docs =
    ap (λ b. be_bytes 8 offset ++ b)
      (fdx_bytes-append (offset + length (write_block fields)) before docs
        ∙ ap
            (λ (o : ℕ). fdx_bytes (offset + length (write_block fields)) before ++ fdx_bytes o docs)
            (omega (arith, length-append (write_block fields) (concat_map write_block before))))
    ∙ sym (append_assoc (be_bytes 8 offset) _ _)

blocks-append :
    (before docs : List (List StoredField)) → blocks (before ++ docs) ≡ blocks before ++ blocks docs
unfolding blocks
blocks-append [] docs = refl
blocks-append (fields ∷ before) docs =
    ap (λ b. write_block fields ++ b) (blocks-append before docs)
    ∙ sym (
        append_assoc (write_block fields) (concat_map write_block before)
          (concat_map write_block docs))

record Holds (w : StoredStreamWriter) (fdt fdx : List ℕ) : Type 0 where
  fdt_is : w.fdt ≡ fdt
  fdx_is : w.fdx ≡ fdx

add_docs_lem :
    (w : StoredStreamWriter) (docs : List (List StoredField))
    → w.fdt_len ≡ length w.fdt
    → IsBuffer (w.fdt ++ blocks docs)
    → Holds (add_docs w docs) (w.fdt ++ blocks docs) (w.fdx ++ fdx_bytes (length w.fdt) docs)
unfolding add_docs blocks fdx_bytes
add_docs_lem w [] e fits = record {
  fdt_is = sym (append-nil w.fdt);
  fdx_is = sym (append-nil w.fdx);
}
add_docs_lem w (fields ∷ docs) e fits =
    let step = add_docs_lem (add_doc w fields) docs counted still_fits in
    record {
      fdt_is = step.fdt_is ∙ append_assoc w.fdt block (concat_map write_block docs);
      fdx_is =
          step.fdx_is
          ∙ append_assoc w.fdx (be_bytes 8 w.fdt_len) (fdx_bytes (length (w.fdt ++ block)) docs)
          ∙ ap₂ (λ (a b : ℕ). w.fdx ++ (be_bytes 8 a ++ fdx_bytes b docs)) e
              (length-append w.fdt block);
    }
  where
    block : List ℕ
    block = write_block fields

    counted : add64 w.fdt_len (length block) ≡ length (w.fdt ++ block)
    counted = omega (
      arith,
      length-append w.fdt block,
      length-append w.fdt (block ++ concat_map write_block docs),
      length-append block (concat_map write_block docs),
    )

    still_fits : IsBuffer ((w.fdt ++ block) ++ concat_map write_block docs)
    still_fits = rw (← append_assoc w.fdt block (concat_map write_block docs)) at fits

written_lem :
    (docs : List (List StoredField))
    → IsBuffer (blocks docs)
    → write_stored docs ≡ (blocks docs, fdx_bytes 0 docs)
unfolding write_stored
written_lem docs fits =
    let held = add_docs_lem new docs refl fits in ap₂ (λ a b. (a, b)) held.fdt_is held.fdx_is

find_block_at :
    (offset : ℕ) (front back : List ℕ) (doc_id : ℕ)
    → length front ≡ 8 * doc_id
    → IsU64 offset
    → IsBuffer (front ++ (be_bytes 8 offset ++ back))
    → find_block (front ++ (be_bytes 8 offset ++ back)) doc_id ≡ some (ok offset)
unfolding find_block
find_block_at offset front back doc_id e small fits =
    let at_front : mul64 doc_id 8 ≡ length front = omega (arith, longer) in
    let inside : ltb (length (front ++ (be_bytes 8 offset ++ back))) (add64 (length front) 8)
        ≡ false =
      ground (arith, longer, length-append (be_bytes 8 offset) back, length-be_bytes 8 offset) in
    rw (at_front, inside) (ap (λ x. some (value x)) ((Reads-u64 offset small).at front back fits))
  where
    longer :
        length (front ++ (be_bytes 8 offset ++ back))
        ≡ length front + length (be_bytes 8 offset ++ back)
    longer = length-append front (be_bytes 8 offset ++ back)

find_block_past :
    (fdx : List ℕ) (doc_id : ℕ)
    → length fdx ≤ 8 * doc_id
    → 8 * doc_id + 8 < 2 ^ 64
    → find_block fdx doc_id ≡ none
unfolding find_block
find_block_past fdx doc_id h small = ground arith

-- The data file does not depend on the count of its bytes.
fdt_lem :
    (w : StoredStreamWriter) (docs : List (List StoredField))
    → (add_docs w docs).fdt ≡ w.fdt ++ blocks docs
unfolding add_docs blocks
fdt_lem w [] = sym (append-nil w.fdt)
fdt_lem w (fields ∷ docs) =
    fdt_lem (add_doc w fields) docs
    ∙ append_assoc w.fdt (write_block fields) (concat_map write_block docs)

write_stored-fdt : (docs : List (List StoredField)) → (write_stored docs).0 ≡ blocks docs
unfolding write_stored
write_stored-fdt docs = fdt_lem new docs

blocks_split :
    (before after : List (List StoredField)) (fields : List StoredField)
    → blocks (before ++ (fields ∷ after)) ≡ blocks before ++ (write_block fields ++ blocks after)
unfolding blocks
blocks_split before after fields = blocks-append before (fields ∷ after)

fdx_split :
    (before after : List (List StoredField)) (fields : List StoredField)
    → fdx_bytes 0 (before ++ (fields ∷ after))
      ≡ fdx_bytes 0 before
        ++ (be_bytes 8 (length (blocks before))
            ++ fdx_bytes (length (blocks before) + length (write_block fields)) after)
unfolding fdx_bytes
fdx_split before after fields =
    fdx_bytes-append 0 before (fields ∷ after)
    ∙ ap
        (λ (o : ℕ).
          fdx_bytes 0 before ++ (be_bytes 8 o ++ fdx_bytes (o + length (write_block fields)) after))
        (omega arith)

-- The document behind `before` is found at the end of the blocks of `before`.
raw_at :
    (before after : List (List StoredField)) (fields : List StoredField)
    → All IsStored fields
    → IsU64 (length fields)
    → IsBuffer (blocks (before ++ (fields ∷ after)))
    → IsBuffer (fdx_bytes 0 (before ++ (fields ∷ after)))
    → read_stored_raw
        (fdx_bytes 0 (before ++ (fields ∷ after)))
        (blocks (before ++ (fields ∷ after)))
        (length before)
      ≡ ok (map raw_of fields)
unfolding read_stored_raw
raw_at before after fields good few fits fits_x =
    ap (raw_from (blocks (before ++ (fields ∷ after)))) found
    ∙ rw (blocks_split before after fields)
        (ap value ((Reads-block fields good few).at (blocks before) (blocks after) fits'))
  where
    start : ℕ
    start = length (blocks before)

    fits' : IsBuffer (blocks before ++ (write_block fields ++ blocks after))
    fits' = rw (blocks_split before after fields) at fits

    small : IsU64 start
    small = omega (arith, fits', length-append (blocks before) (write_block fields ++ blocks after))

    found : find_block (fdx_bytes 0 (before ++ (fields ∷ after))) (length before) ≡ some (ok start)
    found = rw (fdx_split before after fields) (
        find_block_at start (fdx_bytes 0 before)
          (fdx_bytes (start + length (write_block fields)) after) (length before)
          (length-fdx_bytes 0 before) small (rw (fdx_split before after fields) at fits_x))

-- What `write_stored` wrote for a list of documents, `read_stored_raw` reads for each of them: at
-- the index of a document it returns that document's fields, in order, with their numbers, values
-- and `tokenized` flags, and none of them binary. The document has less than 2^64 fields, their
-- numbers are u64 and their values strings, and both files are less than 2^63 bytes.
pub read_stored_raw-write_stored :
    (before after : List (List StoredField)) (fields : List StoredField)
    → All IsStored fields
    → IsU64 (length fields)
    → IsBuffer (write_stored (before ++ (fields ∷ after))).0
    → IsBuffer (write_stored (before ++ (fields ∷ after))).1
    → read_stored_raw
        (write_stored (before ++ (fields ∷ after))).1
        (write_stored (before ++ (fields ∷ after))).0
        (length before)
      ≡ ok (map raw_of fields)
read_stored_raw-write_stored before after fields good few fits fits_x =
    let data_fits : IsBuffer (blocks (before ++ (fields ∷ after))) =
      rw (write_stored-fdt (before ++ (fields ∷ after))) at fits in
    let written = written_lem (before ++ (fields ∷ after)) data_fits in
    rw written (raw_at before after fields good few data_fits (rw written at fits_x))

-- Past the last document of what `write_stored` wrote, `read_stored_raw` returns no fields, and no
-- error; the byte behind the document's place in the index has a u64 offset, and `.fdt` is less
-- than 2^63 bytes.
pub read_stored_raw_past :
    (docs : List (List StoredField)) (doc_id : ℕ)
    → length docs ≤ doc_id
    → 8 * doc_id + 8 < 2 ^ 64
    → IsBuffer (write_stored docs).0
    → read_stored_raw (write_stored docs).1 (write_stored docs).0 doc_id ≡ ok []
unfolding read_stored_raw
read_stored_raw_past docs doc_id past small fits =
    let written = written_lem docs (rw (write_stored-fdt docs) at fits) in
    rw (
      written,
      find_block_past (fdx_bytes 0 docs) doc_id (omega (arith, length-fdx_bytes 0 docs)) small,
    )
