-- ===== src/Zsl/Terms/Lookup.antt =====
-- From a decoded entry to the documents of its term.
use php_sdsearch.Prelude.{ℕ, ◌+◌, ◌^◌, ◌<◌, ◌≡◌, refl, sym, ap, ◌∙◌, arith, List, [], ◌∷◌, ◌++◌}
use php_sdsearch.Prelude.{length, append_assoc, append-nil, length-append, All, get_elem?, some}
use mathlib.Core.Path.{subst}
use php_sdsearch.Io.{ok, IsBuffer}
use php_sdsearch.Io.Reads.{concat_map}
use php_sdsearch.Zsl.Postings.{TermInfo, read_all_positions}
use php_sdsearch.Zsl.Postings.Encoding.{frq_bytes, prx_bytes}
use php_sdsearch.Zsl.Postings.RoundTrip.{
  info_for, written_lem, read_all_positions-write_term_postings,
}
use php_sdsearch.Zsl.Terms.{Entry, decode_all, name_of}
use php_sdsearch.Zsl.Terms.Entries.{entry_of}
use php_sdsearch.Zsl.Terms.RoundTrip.{
  entries_of, frq_after, prx_after, IsDictTerm, decode_all-write_term_dict,
}
use php_sdsearch.Zsl.Writer.Postings.{Written, write_term_postings}
use php_sdsearch.Zsl.Writer.Terms.{
  TermPostings, TermDictStreamWriter, doc_freq, add_term, add_terms, new_writer, DictFiles, finish,
  write_term_dict,
}
use php_sdsearch.Zsl.Writer.Terms.Streaming.{IsTerm}

abbrev frq_of : TermPostings → List ℕ
frq_of t = (write_term_postings [] [] t.docs).frq

abbrev prx_of : TermPostings → List ℕ
prx_of t = (write_term_postings [] [] t.docs).prx

-- `.frq` and `.prx` hold the postings of the terms one behind the other.
add_terms_postings :
    (w : TermDictStreamWriter) (terms : List TermPostings)
    → ((add_terms w terms).frq ≡ w.frq ++ concat_map frq_of terms)
      × ((add_terms w terms).prx ≡ w.prx ++ concat_map prx_of terms)
unfolding add_terms add_term
add_terms_postings w [] = (sym (append-nil w.frq), sym (append-nil w.prx))
add_terms_postings w (t ∷ terms) =
    let (frq, prx) = add_terms_postings (add_term w t) terms in
    (
      frq ∙ append_assoc w.frq (frq_of t) (concat_map frq_of terms),
      prx ∙ append_assoc w.prx (prx_of t) (concat_map prx_of terms),
    )

-- The pointers that the entries have behind `before`.
frq_end : ℕ → List TermPostings → ℕ
frq_end fl [] = fl
frq_end fl (t ∷ before) = frq_end (frq_after fl t) before

prx_end : ℕ → List TermPostings → ℕ
prx_end pl [] = pl
prx_end pl (t ∷ before) = prx_end (prx_after pl t) before

frq_end_lem :
    (fl : ℕ) (before : List TermPostings)
    → fl + length (concat_map frq_of before) < 2 ^ 64
    → frq_end fl before ≡ fl + length (concat_map frq_of before)
unfolding frq_end
frq_end_lem fl [] h = omega arith
frq_end_lem fl (t ∷ before) h = omega (
  arith,
  length-append (frq_of t) (concat_map frq_of before),
  frq_end_lem (frq_after fl t) before
      (omega (arith, length-append (frq_of t) (concat_map frq_of before))),
)

prx_end_lem :
    (pl : ℕ) (before : List TermPostings)
    → pl + length (concat_map prx_of before) < 2 ^ 64
    → prx_end pl before ≡ pl + length (concat_map prx_of before)
unfolding prx_end
prx_end_lem pl [] h = omega arith
prx_end_lem pl (t ∷ before) h = omega (
  arith,
  length-append (prx_of t) (concat_map prx_of before),
  prx_end_lem (prx_after pl t) before
      (omega (arith, length-append (prx_of t) (concat_map prx_of before))),
)

entries_of-append :
    (field_names : List (List ℕ)) (fl pl : ℕ) (before after : List TermPostings) (t : TermPostings)
    → get_elem? (entries_of field_names fl pl (before ++ (t ∷ after))) (length before)
      ≡ some (
          entry_of field_names t.field_num t.text
            (doc_freq t)
            (frq_end fl before)
            (prx_end pl before))
unfolding entries_of frq_end prx_end
entries_of-append field_names fl pl [] after t = refl
entries_of-append field_names fl pl (b ∷ before) after t =
    entries_of-append field_names (frq_after fl b) (prx_after pl b) before after t

concat_map-append :
    (enc : TermPostings → List ℕ) (before after : List TermPostings)
    → concat_map enc (before ++ after) ≡ concat_map enc before ++ concat_map enc after
concat_map-append enc [] after = refl
concat_map-append enc (t ∷ before) after =
    ap (λ b. enc t ++ b) (concat_map-append enc before after)
    ∙ sym (append_assoc (enc t) (concat_map enc before) (concat_map enc after))

abbrev info_at : ℕ → ℕ → ℕ → TermInfo
info_at df fp pp = record { doc_freq = df; freq_pointer = fp; prox_pointer = pp }

info_eq :
    {df df' fp fp' pp pp' : ℕ}
    → df ≡ df'
    → fp ≡ fp'
    → pp ≡ pp'
    → info_at df fp pp ≡ info_at df' fp' pp'
info_eq e1 e2 e3 = cc

shorter : (xs ys zs : List ℕ) → IsBuffer ((xs ++ ys) ++ zs) → 0 + length xs < 2 ^ 64
shorter xs ys zs h = omega (arith, length-append (xs ++ ys) zs, length-append xs ys)

module _ (before after : List TermPostings) (t : TermPostings) (good : IsTerm t) where
  abbrev dict_files : DictFiles
  dict_files = write_term_dict (before ++ (t ∷ after))

  abbrev written : Written
  written = write_term_postings (concat_map frq_of before) (concat_map prx_of before) t.docs

  abbrev at_term : Written
  at_term = record {
    frq = concat_map frq_of before ++ frq_bytes 0 t.docs;
    prx = concat_map prx_of before ++ prx_bytes t.docs;
    freq_pointer = length (concat_map frq_of before);
    prox_pointer = length (concat_map prx_of before);
  }

  frq_split : dict_files.frq ≡ at_term.frq ++ concat_map frq_of after
  unfolding write_term_dict finish new_writer
  frq_split =
      (add_terms_postings new_writer (before ++ (t ∷ after))).0
      ∙ concat_map-append frq_of before (t ∷ after)
      ∙ ap (λ (w : Written). concat_map frq_of before ++ (w.frq ++ concat_map frq_of after))
          (written_lem [] [] t.docs good.0)
      ∙ sym (append_assoc (concat_map frq_of before) (frq_bytes 0 t.docs) (concat_map frq_of after))

  prx_split : dict_files.prx ≡ at_term.prx ++ concat_map prx_of after
  unfolding write_term_dict finish new_writer
  prx_split =
      (add_terms_postings new_writer (before ++ (t ∷ after))).1
      ∙ concat_map-append prx_of before (t ∷ after)
      ∙ ap (λ (w : Written). concat_map prx_of before ++ (w.prx ++ concat_map prx_of after))
          (written_lem [] [] t.docs good.0)
      ∙ sym (append_assoc (concat_map prx_of before) (prx_bytes t.docs) (concat_map prx_of after))

  -- The postings of the term at the pointers of its entry.
  found_at :
      IsBuffer (at_term.frq ++ concat_map frq_of after)
      → IsBuffer (at_term.prx ++ concat_map prx_of after)
      → read_all_positions
          (at_term.frq ++ concat_map frq_of after)
          (at_term.prx ++ concat_map prx_of after)
          (info_for at_term t.docs)
        ≡ ok t.docs
  found_at =
      subst
        (λ (w : Written).
          IsBuffer (w.frq ++ concat_map frq_of after)
          → IsBuffer (w.prx ++ concat_map prx_of after)
          → read_all_positions (w.frq ++ concat_map frq_of after) (w.prx ++ concat_map prx_of after)
              (info_for w t.docs)
            ≡ ok t.docs)
        (written_lem (concat_map frq_of before) (concat_map prx_of before) t.docs good.0)
        (read_all_positions-write_term_postings (concat_map frq_of before)
          (concat_map prx_of before) (concat_map frq_of after) (concat_map prx_of after) t.docs
          good.0)

  postings_found :
      IsBuffer dict_files.frq
      → IsBuffer dict_files.prx
      → read_all_positions dict_files.frq dict_files.prx
          (info_at (doc_freq t) (frq_end 0 before) (prx_end 0 before))
        ≡ ok t.docs
  postings_found ff fp =
      let ff' : IsBuffer (at_term.frq ++ concat_map frq_of after) = rw frq_split at ff in
      let fp' : IsBuffer (at_term.prx ++ concat_map prx_of after) = rw prx_split at fp in
      let small : doc_freq t ≡ length t.docs = omega (arith, good.1) in
      let fe : frq_end 0 before ≡ length (concat_map frq_of before) = omega (
        arith,
        frq_end_lem 0 before
            (shorter (concat_map frq_of before) (frq_bytes 0 t.docs) (concat_map frq_of after) ff'),
      ) in
      let pe : prx_end 0 before ≡ length (concat_map prx_of before) = omega (
        arith,
        prx_end_lem 0 before
            (shorter (concat_map prx_of before) (prx_bytes t.docs) (concat_map prx_of after) fp'),
      ) in
      rw (frq_split, prx_split, info_eq small fe pe) (found_at ff' fp')

-- Write a dictionary of any terms: the entry that `decode_all` decodes for a term, at the term's
-- place in the list, has the name of its field and its text, and its pointers lead
-- `read_all_positions` to the documents and positions that the term was written with. Field numbers
-- are u64, texts are strings, and all three files are less than 2^63 bytes; in this term, the ids do
-- not fall and are below 2^63, each document has at least one position and less than 2^32, the
-- positions are u32, and there are less than 2^32 documents.
pub term_found :
    (before after : List TermPostings) (t : TermPostings) (field_names : List (List ℕ))
    → IsTerm t
    → All IsDictTerm (before ++ (t ∷ after))
    → IsBuffer (write_term_dict (before ++ (t ∷ after))).tis
    → IsBuffer (write_term_dict (before ++ (t ∷ after))).frq
    → IsBuffer (write_term_dict (before ++ (t ∷ after))).prx
    → (e : Entry) × (get_elem?
          (decode_all (write_term_dict (before ++ (t ∷ after))).tis field_names)
          (length before)
        ≡ some e)
      × (e.field ≡ name_of field_names t.field_num)
      × (e.text ≡ t.text)
      × (read_all_positions
            (write_term_dict (before ++ (t ∷ after))).frq
            (write_term_dict (before ++ (t ∷ after))).prx
            e.info
          ≡ ok t.docs)
term_found before after t field_names good terms ft ff fp = (
  entry_of field_names t.field_num t.text (doc_freq t) (frq_end 0 before) (prx_end 0 before),
  ap (λ es. get_elem? es (length before))
        (decode_all-write_term_dict (before ++ (t ∷ after)) field_names terms ft)
      ∙ entries_of-append field_names 0 0 before after t,
  refl,
  refl,
  postings_found before after t good ff fp,
)
