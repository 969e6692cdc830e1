-- ===== src/Examples/Files.antt =====
-- The files of a segment at concrete inputs.
use php_sdsearch.Prelude.{ℕ, ◌≡◌, refl, arith, List, [], ◌∷◌, ◌++◌, map}
use php_sdsearch.Prelude.{true, false, ltb, ◌&&◌}
use php_sdsearch.Prelude.Utf8.{from_utf8_lossy}
use php_sdsearch.Io.{ok, repeat, ◌>>=◌}
use php_sdsearch.Serialize.{write_vint, read_vint}
use php_sdsearch.Zsl.Bytes.{
  be_bytes, from_be_bytes, write_u32_be, write_i32_be, read_byte, read_slice, read_u64_be,
  read_char_after, read_char, read_modified_utf8, write_chars, write_char, encode_utf8,
  write_modified_utf8,
}
use php_sdsearch.Zsl.Fields.{read_field_infos}
use php_sdsearch.Zsl.Fields.RoundTrip.{info_of, read_field_infos-write_fnm}
use php_sdsearch.Zsl.Writer.Fnm.{FieldMeta, write_fnm}
use php_sdsearch.Zsl.Postings.{
  Posting, read_posting, read_doc, read_freq, read_deltas, read_freqs, read_positions,
  read_all_positions,
}
use php_sdsearch.Zsl.Postings.RoundTrip.{
  info_for, doc_and_freq, read_freqs-write_term_postings, read_all_positions-write_term_postings,
}
use php_sdsearch.Zsl.Postings.Lookup.{positions_of, read_positions-read_all_positions}
use php_sdsearch.Zsl.Writer.Postings.{write_positions, write_freq, write_term_postings}
use php_sdsearch.Zsl.Deletes.{DeletedDocs, read, is_deleted}
use php_sdsearch.Zsl.Deletes.RoundTrip.{contains, is_deleted-write_del_file}
use php_sdsearch.Zsl.Writer.Deletes.{or_at, mark_all, write_del_file}
use php_sdsearch.Zsl.Stored.{
  StoredRaw, read_raw_field, read_value, read_binary, find_block, read_block, read_stored_raw,
  read_stored_field,
}
use php_sdsearch.Zsl.Stored.RoundTrip.{raw_of, read_stored_raw-write_stored, read_stored_raw_past}
use php_sdsearch.Zsl.Stored.Lookup.{first_value, read_stored_field-read_stored_raw}
use php_sdsearch.Zsl.Writer.Stored.{StoredField, write_stored_field, write_stored}

-- Document 0 with positions 1 and 4, document 3 with position 2.
abbrev two_docs : List Posting
two_docs = (0, 1 ∷ 4 ∷ []) ∷ (3, 2 ∷ []) ∷ []

frq_bytes_example : (write_term_postings [] [] two_docs).frq ≡ 0 ∷ 2 ∷ 7 ∷ []
unfolding write_term_postings write_freq write_positions write_vint
frq_bytes_example = refl

read_freqs-write_term_postings_example :
    read_freqs
      ((write_term_postings (7 ∷ []) [] two_docs).frq ++ (9 ∷ []))
      (info_for (write_term_postings (7 ∷ []) [] two_docs) two_docs)
    ≡ ok (map doc_and_freq two_docs)
unfolding write_term_postings write_freq write_positions write_vint
read_freqs-write_term_postings_example =
    read_freqs-write_term_postings (7 ∷ []) [] (9 ∷ []) two_docs (omega arith) (omega arith)

read_all_positions-write_term_postings_example :
    read_all_positions
      ((write_term_postings (7 ∷ []) [] two_docs).frq ++ (9 ∷ []))
      ((write_term_postings (7 ∷ []) [] two_docs).prx ++ [])
      (info_for (write_term_postings (7 ∷ []) [] two_docs) two_docs)
    ≡ ok two_docs
unfolding write_term_postings write_freq write_positions write_vint
read_all_positions-write_term_postings_example =
    read_all_positions-write_term_postings (7 ∷ []) [] (9 ∷ []) [] two_docs (omega arith)
      (omega arith) (omega arith)

read_positions-read_all_positions_example :
    read_positions
      (0 ∷ 2 ∷ 7 ∷ [])
      (1 ∷ 3 ∷ 2 ∷ [])
      (record { doc_freq = 2; freq_pointer = 0; prox_pointer = 0 })
      3
    ≡ ok (positions_of 3 two_docs)
unfolding read_all_positions read_vint read_posting read_doc read_freq read_deltas ◌>>=◌
read_positions-read_all_positions_example =
    read_positions-read_all_positions (0 ∷ 2 ∷ 7 ∷ []) (1 ∷ 3 ∷ 2 ∷ [])
      (record { doc_freq = 2; freq_pointer = 0; prox_pointer = 0 }) 3 two_docs refl

-- Three of ten documents are deleted; 12 is past the end.
abbrev deleted_ids : List ℕ
deleted_ids = 1 ∷ 4 ∷ 9 ∷ 12 ∷ []

is_deleted-write_del_file_example :
    (d : DeletedDocs) × (read (write_del_file 10 deleted_ids) ≡ ok d)
    × ((i : ℕ) → is_deleted d i ≡ (ltb i 10 && contains deleted_ids i))
unfolding write_del_file write_i32_be write_u32_be be_bytes mark_all or_at
is_deleted-write_del_file_example =
    is_deleted-write_del_file 10 deleted_ids (omega arith) (omega arith)

abbrev title_and_date : List FieldMeta
title_and_date =
    record { name = 116 ∷ []; indexed = true } ∷ record { name = 100 ∷ []; indexed = false } ∷ []

read_field_infos-write_fnm_example :
    read_field_infos (write_fnm title_and_date) ≡ ok (map info_of title_and_date)
unfolding write_fnm write_modified_utf8 write_chars write_char write_vint encode_utf8
read_field_infos-write_fnm_example =
    read_field_infos-write_fnm title_and_date (omega arith) (omega arith) (omega arith)

-- One document without stored fields, and one with two.
abbrev two_stored : List StoredField
two_stored =
    record { field_num = 0; value = 104 ∷ 105 ∷ []; tokenized = true }
    ∷ record { field_num = 1; value = 233 ∷ []; tokenized = false }
    ∷ []

read_stored_raw-write_stored_example :
    read_stored_raw
      (write_stored (([] ∷ []) ++ (two_stored ∷ []))).1
      (write_stored (([] ∷ []) ++ (two_stored ∷ []))).0
      1
    ≡ ok (map raw_of two_stored)
unfolding write_stored write_stored_field write_modified_utf8 write_chars write_char write_vint
    encode_utf8 be_bytes
read_stored_raw-write_stored_example =
    read_stored_raw-write_stored ([] ∷ []) [] two_stored (omega arith) (omega arith) (omega arith)
      (omega arith)

read_stored_raw_past_example :
    read_stored_raw (write_stored (two_stored ∷ [])).1 (write_stored (two_stored ∷ [])).0 1 ≡ ok []
unfolding write_stored write_stored_field write_modified_utf8 write_chars write_char write_vint
    encode_utf8
read_stored_raw_past_example =
    read_stored_raw_past (two_stored ∷ []) 1 (omega arith) (omega arith) (omega arith)

-- One document: field 0 is `hi`, tokenized; field 1 holds the byte 65.
abbrev hi_and_A : List StoredRaw
hi_and_A =
    record { field_num = 0; value = 104 ∷ 105 ∷ []; tokenized = true; is_binary = false }
    ∷ record { field_num = 1; value = 65 ∷ []; tokenized = false; is_binary = true }
    ∷ []

read_stored_field-read_stored_raw_example :
    read_stored_field
      (0 ∷ 0 ∷ 0 ∷ 0 ∷ 0 ∷ 0 ∷ 0 ∷ 0 ∷ [])
      (2 ∷ 0 ∷ 1 ∷ 2 ∷ 104 ∷ 105 ∷ 1 ∷ 2 ∷ 1 ∷ 65 ∷ [])
      0
      1
    ≡ ok (first_value 1 hi_and_A)
unfolding read_stored_raw read_raw_field read_value read_binary find_block read_block read_vint
    ◌>>=◌ repeat read_modified_utf8 read_char read_char_after read_byte read_slice read_u64_be
    from_be_bytes from_utf8_lossy first_value
read_stored_field-read_stored_raw_example =
    read_stored_field-read_stored_raw (0 ∷ 0 ∷ 0 ∷ 0 ∷ 0 ∷ 0 ∷ 0 ∷ 0 ∷ [])
      (2 ∷ 0 ∷ 1 ∷ 2 ∷ 104 ∷ 105 ∷ 1 ∷ 2 ∷ 1 ∷ 65 ∷ []) 0 1 hi_and_A refl
