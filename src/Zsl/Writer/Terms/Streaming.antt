-- ===== src/Zsl/Writer/Terms/Streaming.antt =====
-- Two ways to write a term: `add_term`, and `begin_term`, `add_posting` for each document, `end_term`.
use php_sdsearch.Prelude.{ℕ, ◌≤◌, ◌≡◌, refl, sym, ap, ◌∙◌, arith, List, [], ◌∷◌, ◌++◌}
use php_sdsearch.Prelude.{
  length, append-nil, append_assoc, length-append, All, add64, add32, to_u32,
}
use php_sdsearch.Prelude.{Bool-cases, inl, inr, true, false, ◌==◌, if◌then◌else◌}
use php_sdsearch.Serialize.{IsU64}
use php_sdsearch.Zsl.Bytes.Integers.{IsU32}
use php_sdsearch.Zsl.Postings.{Posting}
use php_sdsearch.Zsl.Postings.Encoding.{
  ArePostings, freq_bytes, frq_bytes, prx_bytes, write_freq-append, write_docs_lem,
}
use php_sdsearch.Zsl.Writer.Postings.{write_positions}
use php_sdsearch.Zsl.Writer.Terms.{
  TermPostings, Dictionary, CurrentTerm, TermDictStreamWriter, dump_tis_entry, add_term, begin_term,
  add_posting, end_term, finish, add_terms, new_writer, write_term_dict,
}

-- The calls for one term, and for a list of terms.
unfoldable pub add_postings : TermDictStreamWriter → List Posting → TermDictStreamWriter
add_postings w [] = w
add_postings w ((doc_id, positions) ∷ docs) = add_postings (add_posting w doc_id positions) docs

unfoldable pub stream_term : TermDictStreamWriter → TermPostings → TermDictStreamWriter
unfolding add_postings
stream_term w t = end_term (add_postings (begin_term w t.field_num t.text) t.docs)

unfoldable pub stream_terms : TermDictStreamWriter → List TermPostings → TermDictStreamWriter
unfolding stream_term
stream_terms w [] = w
stream_terms w (t ∷ terms) = stream_terms (stream_term w t) terms

-- The terms that have postings.
unfoldable pub with_postings : List TermPostings → List TermPostings
with_postings [] = []
with_postings (t ∷ terms) =
    let rest = with_postings terms in if length t.docs == 0 then rest else t ∷ rest

abbrev pub IsTerm : TermPostings → Type 0
IsTerm t = ArePostings 0 t.docs × IsU32 (length t.docs)

abbrev last_doc : ℕ → List Posting → ℕ
last_doc prev [] = prev
last_doc prev ((d, ps) ∷ docs) = last_doc d docs

-- Within a term.
module _ (dict : Dictionary) (field : ℕ) (text : List ℕ) (freq_ptr prox_ptr : ℕ) where
  abbrev in_term : List ℕ → List ℕ → ℕ → ℕ → ℕ → ℕ → TermDictStreamWriter
  in_term frq prx frq_len prx_len df prev = record {
    dict = dict;
    frq = frq;
    prx = prx;
    frq_len = frq_len;
    prx_len = prx_len;
    cur = record {
      field = field;
      text = text;
      freq_ptr = freq_ptr;
      prox_ptr = prox_ptr;
      doc_freq = df;
      prev_doc = prev;
      frq_scratch = [];
      prx_scratch = [];
    };
  }

  add_posting_lem :
      (frq prx : List ℕ) (fl pl df prev d : ℕ) (ps : List ℕ)
      → IsU32 (length ps)
      → add_posting (in_term frq prx fl pl df prev) d ps
        ≡ in_term
            (frq ++ freq_bytes prev d (length ps))
            (prx ++ write_positions [] 0 ps)
            (add64 fl (length (freq_bytes prev d (length ps))))
            (add64 pl (length (write_positions [] 0 ps)))
            (add32 df 1)
            d
  unfolding add_posting
  add_posting_lem frq prx fl pl df prev d ps h = rw (write_freq-append [] prev d (length ps) h)

  in_term_eq :
      {frq frq' prx prx' : List ℕ} {fl fl' pl pl' df df' : ℕ} (prev : ℕ)
      → frq ≡ frq'
      → prx ≡ prx'
      → fl ≡ fl'
      → pl ≡ pl'
      → df ≡ df'
      → in_term frq prx fl pl df prev ≡ in_term frq' prx' fl' pl' df' prev
  in_term_eq prev e1 e2 e3 e4 e5 = cc

  len_lem :
      (n : ℕ) (xs ys : List ℕ)
      → add64 (add64 n (length xs)) (length ys) ≡ add64 n (length (xs ++ ys))
  len_lem n xs ys = omega (arith, length-append xs ys)

  add_postings_lem :
      (frq prx : List ℕ) (fl pl df prev : ℕ) (docs : List Posting)
      → ArePostings prev docs
      → IsU64 fl
      → IsU64 pl
      → IsU32 df
      → add_postings (in_term frq prx fl pl df prev) docs
        ≡ in_term
            (frq ++ frq_bytes prev docs)
            (prx ++ prx_bytes docs)
            (add64 fl (length (frq_bytes prev docs)))
            (add64 pl (length (prx_bytes docs)))
            (add32 df (length docs))
            (last_doc prev docs)
  unfolding add_postings frq_bytes prx_bytes
  add_postings_lem frq prx fl pl df prev [] h hf hp hd =
      in_term_eq prev (sym (append-nil frq)) (sym (append-nil prx)) (omega arith) (omega arith)
        (omega arith)
  add_postings_lem frq prx fl pl df prev ((d, ps) ∷ docs) h hf hp hd =
      ap (λ w. add_postings w docs) (add_posting_lem frq prx fl pl df prev d ps h.3)
      ∙ add_postings_lem (frq ++ fb) (prx ++ pb) (add64 fl (length fb)) (add64 pl (length pb))
          (add32 df 1) d docs h.5 (omega arith) (omega arith) (omega arith)
      ∙ in_term_eq (last_doc d docs) (append_assoc frq fb (frq_bytes d docs))
          (append_assoc prx pb (prx_bytes docs)) (len_lem fl fb (frq_bytes d docs))
          (len_lem pl pb (prx_bytes docs)) (omega arith)
    where
      fb : List ℕ
      fb = freq_bytes prev d (length ps)

      pb : List ℕ
      pb = write_positions [] 0 ps

-- Between terms: both scratch buffers are empty.
abbrev Clean : CurrentTerm → Type 0
Clean c = (c.frq_scratch ≡ []) × (c.prx_scratch ≡ [])

-- The current term is no part of what is written.
abbrev set_cur : TermDictStreamWriter → CurrentTerm → TermDictStreamWriter
set_cur w c = record {
  dict = w.dict;
  frq = w.frq;
  prx = w.prx;
  frq_len = w.frq_len;
  prx_len = w.prx_len;
  cur = c;
}

abbrev end_cur : TermDictStreamWriter → TermPostings → ℕ → List ℕ → CurrentTerm
end_cur w t df text = record {
  field = t.field_num;
  text = text;
  freq_ptr = w.frq_len;
  prox_ptr = w.prx_len;
  doc_freq = df;
  prev_doc = last_doc 0 t.docs;
  frq_scratch = [];
  prx_scratch = [];
}

module _ (w : TermDictStreamWriter) (c : CurrentTerm) (t : TermPostings) (clean : Clean c) where
  begin_lem :
      begin_term (set_cur w c) t.field_num t.text
      ≡ in_term w.dict t.field_num t.text w.frq_len w.prx_len w.frq w.prx w.frq_len w.prx_len 0 0
  unfolding begin_term
  begin_lem = rw (clean.0, clean.1) refl

  module _ (good : IsTerm t) (hf : IsU64 w.frq_len) (hp : IsU64 w.prx_len) where
    postings_lem :
        add_postings (begin_term (set_cur w c) t.field_num t.text) t.docs
        ≡ in_term w.dict t.field_num t.text w.frq_len w.prx_len
            (w.frq ++ frq_bytes 0 t.docs)
            (w.prx ++ prx_bytes t.docs)
            (add64 w.frq_len (length (frq_bytes 0 t.docs)))
            (add64 w.prx_len (length (prx_bytes t.docs)))
            (to_u32 (length t.docs))
            (last_doc 0 t.docs)
    postings_lem =
        ap (λ v. add_postings v t.docs) begin_lem
        ∙ add_postings_lem w.dict t.field_num t.text w.frq_len w.prx_len w.frq w.prx w.frq_len
            w.prx_len 0 0 t.docs good.0 hf hp (omega arith)
        ∙ in_term_eq w.dict t.field_num t.text w.frq_len w.prx_len (last_doc 0 t.docs) refl refl
            refl refl (omega arith)

    add_term_lem : add_term w t ≡ record {
      dict =
          dump_tis_entry w.dict
            (record {
              text = t.text;
              field_num = t.field_num;
              freq_ptr = w.frq_len;
              prox_ptr = w.prx_len;
            })
            (to_u32 (length t.docs));
      frq = w.frq ++ frq_bytes 0 t.docs;
      prx = w.prx ++ prx_bytes t.docs;
      frq_len = add64 w.frq_len (length (frq_bytes 0 t.docs));
      prx_len = add64 w.prx_len (length (prx_bytes t.docs));
      cur = w.cur;
    }
    unfolding add_term
    add_term_lem = rw (write_docs_lem [] [] 0 t.docs good.0) refl

    stream_term_some :
        1 ≤ length t.docs → stream_term (set_cur w c) t ≡ set_cur (add_term w t) (end_cur w t 0 [])
    unfolding stream_term end_term
    stream_term_some some_docs =
        ap end_term postings_lem
        ∙ rw counted (sym (ap (λ v. set_cur v (end_cur w t 0 [])) add_term_lem))
      where
        counted : (to_u32 (length t.docs) == 0) ≡ false
        counted = ground (arith, good.1)

  no_docs_left : (docs : List Posting) → (length docs == 0) ≡ true → docs ≡ []
  no_docs_left [] h = refl
  no_docs_left (d ∷ docs) h = absurd (ground arith)

  stream_term_none :
      (length t.docs == 0) ≡ true → stream_term (set_cur w c) t ≡ set_cur w (end_cur w t 0 t.text)
  unfolding stream_term add_postings end_term
  stream_term_none h = rw (no_docs_left t.docs h) (ap end_term begin_lem)

frq_len_fits : (w : TermDictStreamWriter) (t : TermPostings) → IsU64 (add_term w t).frq_len
unfolding add_term
frq_len_fits w t = omega arith

prx_len_fits : (w : TermDictStreamWriter) (t : TermPostings) → IsU64 (add_term w t).prx_len
unfolding add_term
prx_len_fits w t = omega arith

stream_terms_lem :
    (w : TermDictStreamWriter) (c : CurrentTerm) (terms : List TermPostings)
    → Clean c
    → All IsTerm terms
    → IsU64 w.frq_len
    → IsU64 w.prx_len
    → (c' : CurrentTerm) × (stream_terms (set_cur w c) terms
        ≡ set_cur (add_terms w (with_postings terms)) c')
unfolding stream_terms with_postings add_terms
stream_terms_lem w c [] clean good hf hp = (c, refl)
stream_terms_lem w c (t ∷ terms) clean good hf hp = elim (Bool-cases (length t.docs == 0)) [
  | inl e ↦
      let (c', same) = stream_terms_lem w (end_cur w t 0 t.text) terms (refl, refl) good.1 hf hp in
      (c', rw e (ap (λ v. stream_terms v terms) (stream_term_none w c t clean e) ∙ same))
  | inr e ↦
      let (c', same) =
        stream_terms_lem (add_term w t) (end_cur w t 0 []) terms (refl, refl) good.1
          (frq_len_fits w t) (prx_len_fits w t) in
      (
        c',
        rw e (
            ap (λ v. stream_terms v terms)
              (stream_term_some w c t clean good.0 hf hp (ground arith))
            ∙ same),
      )
]

-- Writing the terms posting by posting gives the same four files as `write_term_dict` gives for the
-- terms that have postings. In each term, the ids do not fall and are below 2^63, each document has
-- at least one position and less than 2^32, the positions are u32, and there are less than 2^32
-- documents.
pub stream_terms-write_term_dict :
    (terms : List TermPostings)
    → All IsTerm terms
    → finish (stream_terms new_writer terms) ≡ write_term_dict (with_postings terms)
unfolding write_term_dict finish new_writer
stream_terms-write_term_dict terms good =
    let (c', same) =
      stream_terms_lem new_writer new_writer.cur terms (refl, refl) good (omega arith)
        (omega arith) in
    ap finish same
