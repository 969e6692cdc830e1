-- ===== src/Examples/Dictionary.antt =====
-- The term dictionary at concrete inputs.
use php_sdsearch.Prelude.{◌≡◌, arith, List, [], ◌∷◌}
use php_sdsearch.Prelude.{◌++◌, get_elem?, some}
use php_sdsearch.Io.{ok}
use php_sdsearch.Zsl.Postings.{read_all_positions}
use php_sdsearch.Serialize.{write_vint}
use php_sdsearch.Zsl.Bytes.{
  be_bytes, encode_utf8, write_char, write_chars, write_i32_be, write_i64_be, write_modified_utf8,
  write_u32_be,
}
use php_sdsearch.Zsl.Terms.{Entry, name_of, decode_from, decode_all}
use php_sdsearch.Zsl.Terms.Fuel.{decode_from_fuel}
use php_sdsearch.Zsl.Terms.Lookup.{term_found}
use php_sdsearch.Zsl.Terms.RoundTrip.{entries_of, decode_all-write_term_dict}
use php_sdsearch.Zsl.Writer.Terms.{TermPostings, finish, new_writer, write_term_dict}
use php_sdsearch.Zsl.Writer.Terms.Streaming.{
  stream_terms, with_postings, stream_terms-write_term_dict,
}

-- `ab`, `ac` and `b` in one field; `ac` has no documents.
abbrev three_terms : List TermPostings
three_terms =
    record { field_num = 0; text = 97 ∷ 98 ∷ []; docs = (0, 1 ∷ 4 ∷ []) ∷ (3, 2 ∷ []) ∷ [] }
    ∷ record { field_num = 0; text = 97 ∷ 99 ∷ []; docs = [] }
    ∷ record { field_num = 0; text = 98 ∷ []; docs = (3, 1 ∷ []) ∷ [] }
    ∷ []

stream_terms-write_term_dict_example :
    finish (stream_terms new_writer three_terms) ≡ write_term_dict (with_postings three_terms)
stream_terms-write_term_dict_example = stream_terms-write_term_dict three_terms (omega arith)

decode_all-write_term_dict_example :
    decode_all (write_term_dict three_terms).tis ((116 ∷ []) ∷ [])
    ≡ entries_of ((116 ∷ []) ∷ []) 0 0 three_terms
unfolding write_term_dict write_i32_be write_u32_be write_i64_be be_bytes write_vint
    write_modified_utf8 write_chars write_char encode_utf8
decode_all-write_term_dict_example =
    decode_all-write_term_dict three_terms ((116 ∷ []) ∷ []) (omega arith) (omega arith)

-- `b` behind the other two.
abbrev last_term : TermPostings
last_term = record { field_num = 0; text = 98 ∷ []; docs = (3, 1 ∷ []) ∷ [] }

abbrev first_terms : List TermPostings
first_terms =
    record { field_num = 0; text = 97 ∷ 98 ∷ []; docs = (0, 1 ∷ 4 ∷ []) ∷ (3, 2 ∷ []) ∷ [] }
    ∷ record { field_num = 0; text = 97 ∷ 99 ∷ []; docs = [] }
    ∷ []

term_found_example :
    (e : Entry) × (get_elem?
        (decode_all (write_term_dict (first_terms ++ (last_term ∷ []))).tis ((116 ∷ []) ∷ []))
        2
      ≡ some e)
    × (e.field ≡ name_of ((116 ∷ []) ∷ []) 0)
    × (e.text ≡ 98 ∷ [])
    × (read_all_positions
          (write_term_dict (first_terms ++ (last_term ∷ []))).frq
          (write_term_dict (first_terms ++ (last_term ∷ []))).prx
          e.info
        ≡ ok ((3, 1 ∷ []) ∷ []))
unfolding write_term_dict write_i32_be write_u32_be write_i64_be be_bytes write_vint
    write_modified_utf8 write_chars write_char encode_utf8
term_found_example =
    term_found first_terms [] last_term ((116 ∷ []) ∷ []) (omega arith) (omega arith) (omega arith)
      (omega arith) (omega arith)

-- One entry and a cut one.
decode_from_fuel_example :
    decode_from (0 ∷ 1 ∷ 97 ∷ 0 ∷ 1 ∷ 0 ∷ 0 ∷ 1 ∷ []) [] 8 0 [] 0 0
    ≡ decode_from (0 ∷ 1 ∷ 97 ∷ 0 ∷ 1 ∷ 0 ∷ 0 ∷ 1 ∷ []) [] 20 0 [] 0 0
decode_from_fuel_example =
    decode_from_fuel (0 ∷ 1 ∷ 97 ∷ 0 ∷ 1 ∷ 0 ∷ 0 ∷ 1 ∷ []) [] 8 20 0 [] 0 0 (omega arith)
      (omega arith)
