-- ===== src/Zsl/Terms/RoundTrip.antt =====
-- The terms that the dictionary's writer was given are those that `decode_all` decodes.
use php_sdsearch.Prelude.{
  ℕ, zero, suc, ◌+◌, ◌%◌, ◌≤◌, ◌<◌, ◌≡◌, refl, sym, ap, ◌∙◌, arith, List, [], ◌∷◌, ◌++◌,
}
use php_sdsearch.Prelude.{
  length, append-nil, append_assoc, length-append, All, Bool-cases, inl, inr,
}
use php_sdsearch.Prelude.{Option, none, some, ltb, ◌==◌, true, add64}
use php_sdsearch.Io.{ok, IsBuffer}
use php_sdsearch.Serialize.{IsU64}
use php_sdsearch.Zsl.Bytes.{be_bytes, write_i32_be, write_u32_be, write_i64_be}
use php_sdsearch.Zsl.Bytes.Strings.{IsString}
use php_sdsearch.Zsl.Terms.{Entry, push_entry, decode_entry, decode_from, decode_all}
use php_sdsearch.Zsl.Terms.Fuel.{decode_from_end}
use php_sdsearch.Zsl.Terms.Entries.{
  entry_of, text_of, freq_of, prox_of, IsPrev, Reads-entry, dump_entry_some,
}
use php_sdsearch.Zsl.Writer.Postings.{write_term_postings}
use php_sdsearch.Zsl.Writer.Terms.{
  TermPostings, PrevTerm, Dictionary, TermDictStreamWriter, index_interval, doc_freq, dump_entry,
  dump_tis_entry, append_entry, add_term, add_terms, new_writer, write_header, at_four, finish,
  write_term_dict,
}

-- The pointers behind a term's postings.
abbrev pub frq_after : ℕ → TermPostings → ℕ
frq_after fl t = add64 fl (length (write_term_postings [] [] t.docs).frq)

abbrev pub prx_after : ℕ → TermPostings → ℕ
prx_after pl t = add64 pl (length (write_term_postings [] [] t.docs).prx)

abbrev prev_of : TermPostings → ℕ → ℕ → PrevTerm
prev_of t fl pl = record { text = t.text; field_num = t.field_num; freq_ptr = fl; prox_ptr = pl }

-- The entries of the terms: names, texts, and where their postings start in `.frq` and `.prx`.
unfoldable pub entries_of : List (List ℕ) → ℕ → ℕ → List TermPostings → List Entry
entries_of field_names fl pl [] = []
entries_of field_names fl pl (t ∷ terms) =
    entry_of field_names t.field_num t.text (doc_freq t) fl pl
    ∷ entries_of field_names (frq_after fl t) (prx_after pl t) terms

-- The bytes of the entries.
tis_bytes : Option PrevTerm → ℕ → ℕ → List TermPostings → List ℕ
tis_bytes prev fl pl [] = []
tis_bytes prev fl pl (t ∷ terms) =
    dump_entry [] prev t.field_num t.text (doc_freq t) fl pl
    ++ tis_bytes (some (prev_of t fl pl)) (frq_after fl t) (prx_after pl t) terms

abbrev pub IsDictTerm : TermPostings → Type 0
IsDictTerm t = IsU64 t.field_num × IsString t.text

-- Writing.

dump_tis_entry_lem :
    (d : Dictionary) (t : PrevTerm) (df : ℕ)
    → ((dump_tis_entry d t df).tis
        ≡ d.tis ++ dump_entry [] d.prev t.field_num t.text df t.freq_ptr t.prox_ptr)
      × ((dump_tis_entry d t df).prev ≡ some t)
unfolding dump_tis_entry
dump_tis_entry_lem d t df =
    elim (Bool-cases ((append_entry d t df).term_count % index_interval == 0)) [
      | inl e ↦ (rw e refl, rw e refl)
      | inr e ↦ (rw e refl, rw e refl)
    ]

-- What `add_term` leaves for the next term.
add_term_leaves :
    (w : TermDictStreamWriter) (t : TermPostings)
    → ((add_term w t).dict.tis
        ≡ w.dict.tis
          ++ dump_entry [] w.dict.prev t.field_num t.text (doc_freq t) w.frq_len w.prx_len)
      × ((add_term w t).dict.prev ≡ some (prev_of t w.frq_len w.prx_len))
      × ((add_term w t).frq_len ≡ frq_after w.frq_len t)
      × ((add_term w t).prx_len ≡ prx_after w.prx_len t)
unfolding add_term
add_term_leaves w t =
    let (tis, prev) = dump_tis_entry_lem w.dict (prev_of t w.frq_len w.prx_len) (doc_freq t) in
    (tis, prev, refl, refl)

add_terms_tis :
    (w : TermDictStreamWriter) (terms : List TermPostings)
    → (add_terms w terms).dict.tis ≡ w.dict.tis ++ tis_bytes w.dict.prev w.frq_len w.prx_len terms
unfolding add_terms tis_bytes
add_terms_tis w [] = sym (append-nil w.dict.tis)
add_terms_tis w (t ∷ terms) =
    let (tis, prev, frq, prx) = add_term_leaves w t in
    add_terms_tis (add_term w t) terms
    ∙ rw (tis, prev, frq, prx)
        (append_assoc w.dict.tis
          (dump_entry [] w.dict.prev t.field_num t.text (doc_freq t) w.frq_len w.prx_len)
          (tis_bytes (some (prev_of t w.frq_len w.prx_len)) (frq_after w.frq_len t)
            (prx_after w.prx_len t) terms))

-- Reading.

module _ (tis : List ℕ) (field_names : List (List ℕ)) (fits : IsBuffer tis) where
  decode_from_step :
      (n pos : ℕ) (prev : List ℕ) (fp pp : ℕ) (e : Entry) (pos' : ℕ)
      → pos < length tis
      → decode_entry prev fp pp field_names tis pos ≡ ok (e, pos')
      → decode_from tis field_names (suc n) pos prev fp pp
        ≡ e ∷ decode_from tis field_names n pos' e.text e.info.freq_pointer e.info.prox_pointer
  unfolding decode_from
  decode_from_step n pos prev fp pp e pos' inside h =
      let test : ltb pos (length tis) ≡ true = ground arith in
      rw test (
        ap
          (λ x. push_entry x λ (e : Entry) (pos' : ℕ).
            decode_from tis field_names n pos' e.text e.info.freq_pointer e.info.prox_pointer)
          h)

  module _ (front : List ℕ) (prev : Option PrevTerm) (fl pl : ℕ) (t : TermPostings)
      (terms : List TermPostings) (e : tis ≡ front ++ tis_bytes prev fl pl (t ∷ terms))
      (good : IsDictTerm t) (hp : IsPrev prev) (hf : IsU64 fl) (hx : IsU64 pl) where
    abbrev bytes : List ℕ
    bytes = dump_entry [] prev t.field_num t.text (doc_freq t) fl pl

    abbrev rest : List ℕ
    rest = tis_bytes (some (prev_of t fl pl)) (frq_after fl t) (prx_after pl t) terms

    parts : (1 ≤ length bytes) × (length tis ≡ length front + (length bytes + length rest))
    unfolding tis_bytes
    parts = (
      dump_entry_some prev t.field_num t.text (doc_freq t) fl pl hp good.0 good.1 (omega arith) hf
          hx,
      ap length e
          ∙ length-append front (bytes ++ rest)
          ∙ ap (λ (k : ℕ). length front + k) (length-append bytes rest),
    )

    entry_read :
        (pos : ℕ)
        → pos ≡ length front
        → decode_entry (text_of prev) (freq_of prev) (prox_of prev) field_names tis pos
          ≡ ok (entry_of field_names t.field_num t.text (doc_freq t) fl pl, pos + length bytes)
    unfolding tis_bytes
    entry_read pos at_front =
        rw (e, at_front)
          ((Reads-entry prev t.field_num t.text (doc_freq t) fl pl hp good.0 good.1 (omega arith) hf
              hx field_names).at
            front rest (rw e at fits))

  -- The loop at the end of `front`, with an entry to read for each term.
  decode_from_lem :
      (n pos : ℕ) (front : List ℕ) (prev : Option PrevTerm) (fl pl : ℕ) (terms : List TermPostings)
      → tis ≡ front ++ tis_bytes prev fl pl terms
      → pos ≡ length front
      → length tis ≤ pos + n
      → All IsDictTerm terms
      → IsPrev prev
      → IsU64 fl
      → IsU64 pl
      → decode_from tis field_names n pos (text_of prev) (freq_of prev) (prox_of prev)
        ≡ entries_of field_names fl pl terms
  unfolding tis_bytes entries_of
  decode_from_lem n pos front prev fl pl [] e at_front enough good hp hf hx =
      decode_from_end tis field_names n pos (text_of prev) (freq_of prev) (prox_of prev)
        (omega (arith, ap length e, length-append front []))
  decode_from_lem zero pos front prev fl pl (t ∷ terms) e at_front enough good hp hf hx =
      absurd (omega (arith, parts front prev fl pl t terms e good.0 hp hf hx))
  decode_from_lem (suc n) pos front prev fl pl (t ∷ terms) e at_front enough good hp hf hx =
      let (some_byte, whole) = parts front prev fl pl t terms e good.0 hp hf hx in
      let entry = bytes front prev fl pl t terms e good.0 hp hf hx in
      decode_from_step n pos (text_of prev) (freq_of prev) (prox_of prev)
        (entry_of field_names t.field_num t.text (doc_freq t) fl pl) (pos + length entry)
        (omega arith) (entry_read front prev fl pl t terms e good.0 hp hf hx pos at_front)
      ∙ ap (λ es. entry_of field_names t.field_num t.text (doc_freq t) fl pl ∷ es)
          (decode_from_lem n (pos + length entry) (front ++ entry) (some (prev_of t fl pl))
            (frq_after fl t) (prx_after pl t) terms (e ∙ sym (append_assoc front entry _))
            (omega (arith, length-append front entry)) (omega arith) good.1 (hf, hx) (omega arith)
            (omega arith))

-- The head of `.tis` with the number of terms in its place.
head_with : ℕ → List ℕ
head_with count = at_four (write_header []) count

at_four_lem :
    (xs : List ℕ) (count : ℕ) → at_four (write_header [] ++ xs) count ≡ head_with count ++ xs
unfolding head_with write_header write_i32_be write_u32_be write_i64_be be_bytes
at_four_lem xs count = refl

length-head_with : (count : ℕ) → length (head_with count) ≡ 24
unfolding head_with write_header write_i32_be write_u32_be write_i64_be be_bytes
length-head_with count = refl

tis_lem :
    (terms : List TermPostings)
    → (count : ℕ) × ((write_term_dict terms).tis ≡ head_with count ++ tis_bytes none 0 0 terms)
unfolding write_term_dict finish
tis_lem terms =
    let w = add_terms new_writer terms in
    (
      w.dict.term_count,
      ap (λ file. at_four file w.dict.term_count) written ∙ at_four_lem _ w.dict.term_count,
    )
  where
    written : (add_terms new_writer terms).dict.tis ≡ write_header [] ++ tis_bytes none 0 0 terms
    written = unfold new_writer in add_terms_tis new_writer terms

-- `decode_all` on the `.tis` that `write_term_dict` wrote returns an entry for each term, in order,
-- with the name of its field, its text, the number of its documents, and the places where its
-- postings start in `.frq` and `.prx`. Field numbers are u64, texts are strings, and the file is
-- less than 2^63 bytes.
pub decode_all-write_term_dict :
    (terms : List TermPostings) (field_names : List (List ℕ))
    → All IsDictTerm terms
    → IsBuffer (write_term_dict terms).tis
    → decode_all (write_term_dict terms).tis field_names ≡ entries_of field_names 0 0 terms
unfolding decode_all
decode_all-write_term_dict terms field_names good fits =
    let (count, written) = tis_lem terms in
    decode_from_lem (write_term_dict terms).tis field_names fits
      (length (write_term_dict terms).tis) 24 (head_with count) none 0 0 terms written
      (omega (arith, length-head_with count)) (omega arith) good (omega arith) (omega arith)
      (omega arith)
