-- ===== src/Zsl/Writer/Terms.antt =====
-- sdsearch-core/src/zsl/writer/terms.rs: the writer of the term dictionary (.tis, .tii) with its
-- postings (.frq, .prx). The sinks are buffers, to which writing does not fail. The fields of
-- `TermDictStreamWriter` are grouped into the dictionary's, the current term's, and the rest.
pub mod Streaming
use php_sdsearch.Prelude.{
  ℕ, zero, suc, ◌+◌, ◌-◌, ◌*◌, ◌/◌, ◌%◌, ◌<◌, List, [], ◌∷◌, ◌++◌, length, take, drop,
}
use php_sdsearch.Prelude.{
  Bool, Option, none, some, ltb, ◌==◌, if◌then◌else◌, add64, sub64, mul64, add32, to_u32,
}
use php_sdsearch.Serialize.{write_vint}
use php_sdsearch.Zsl.Bytes.{be_bytes, encode_utf8, write_i32_be, write_i64_be, write_modified_utf8}
use php_sdsearch.Zsl.Postings.{Posting}
use php_sdsearch.Zsl.Writer.Postings.{Written, write_positions, write_freq, write_term_postings}

-- writer/invert.rs
pub record TermPostings : Type 0 where
  pub field_num : ℕ
  pub text : List ℕ
  pub docs : List Posting

abbrev pub doc_freq : TermPostings → ℕ
doc_freq t = to_u32 (length t.docs)

abbrev pub index_interval : ℕ
index_interval = 128

-- The bit patterns of MARKER, SKIP_INTERVAL and MAX_SKIP_LEVELS.
abbrev pub marker : ℕ
marker = 0xfffffffd

abbrev pub skip_interval : ℕ
skip_interval = 0x7fffffff

abbrev pub max_skip_levels : ℕ
max_skip_levels = 0

pub record DictFiles : Type 0 where
  pub tis : List ℕ
  pub tii : List ℕ
  pub frq : List ℕ
  pub prx : List ℕ

pub record PrevTerm : Type 0 where
  pub text : List ℕ
  pub field_num : ℕ
  pub freq_ptr : ℕ
  pub prox_ptr : ℕ

pub record Dictionary : Type 0 where
  pub tis : List ℕ
  pub tii : List ℕ
  pub tis_len : ℕ
  pub prev : Option PrevTerm
  pub idx_prev : Option PrevTerm
  pub last_index_position : ℕ
  pub term_count : ℕ

-- The fields `cur_*` and the two scratch buffers.
pub record CurrentTerm : Type 0 where
  pub field : ℕ
  pub text : List ℕ
  pub freq_ptr : ℕ
  pub prox_ptr : ℕ
  pub doc_freq : ℕ
  pub prev_doc : ℕ
  pub frq_scratch : List ℕ
  pub prx_scratch : List ℕ

pub record TermDictStreamWriter : Type 0 where
  pub dict : Dictionary
  pub frq : List ℕ
  pub prx : List ℕ
  pub frq_len : ℕ
  pub prx_len : ℕ
  pub cur : CurrentTerm

-- `c.len_utf8()`
abbrev pub len_utf8 : ℕ → ℕ
len_utf8 c = length (encode_utf8 c)

unfoldable pub common_prefix : List ℕ → List ℕ → ℕ × ℕ
common_prefix [] b = (0, 0)
common_prefix (ca ∷ a) [] = (0, 0)
common_prefix (ca ∷ a) (cb ∷ b) =
    let (chars, bytes) = common_prefix a b in
    if ca == cb then (chars + 1, len_utf8 ca + bytes) else (0, 0)

-- `&text[bytes..]`, where a character starts at that byte.
unfoldable pub slice_from : List ℕ → ℕ → List ℕ
slice_from [] bytes = []
slice_from (c ∷ text) bytes =
    let rest = slice_from text (bytes - len_utf8 c) in if bytes == 0 then c ∷ text else rest

-- The prefix that an entry shares with the one before it.
unfoldable pub shared_prefix : Option PrevTerm → ℕ → List ℕ → ℕ × ℕ
unfolding common_prefix
shared_prefix none field_num text = (0, 0)
shared_prefix (some p) field_num text =
    if p.field_num == field_num then common_prefix p.text text else (0, 0)

unfoldable pub write_pointers : List ℕ → Option PrevTerm → ℕ → ℕ → List ℕ
write_pointers out none freq_ptr prox_ptr = write_vint (write_vint out freq_ptr) prox_ptr
write_pointers out (some p) freq_ptr prox_ptr =
    write_vint (write_vint out (sub64 freq_ptr p.freq_ptr)) (sub64 prox_ptr p.prox_ptr)

unfoldable pub dump_entry : List ℕ → Option PrevTerm → ℕ → List ℕ → ℕ → ℕ → ℕ → List ℕ
unfolding shared_prefix slice_from write_pointers
dump_entry out prev field_num text df freq_ptr prox_ptr =
    let (prefix_chars, prefix_bytes) = shared_prefix prev field_num text in
    let suffix = write_modified_utf8 (write_vint out prefix_chars) (slice_from text prefix_bytes) in
    write_pointers (write_vint (write_vint suffix field_num) df) prev freq_ptr prox_ptr

unfoldable pub write_header : List ℕ → List ℕ
write_header out =
    write_i32_be
      (write_i32_be (write_i32_be (write_i64_be (write_i32_be out marker) 0) index_interval)
        skip_interval)
      max_skip_levels

-- The first entry of `.tii`.
unfoldable pub synthetic : List ℕ
synthetic =
    write_vint
      (write_vint
        (write_vint
          (write_vint
            (write_i32_be (write_modified_utf8 (write_vint [] 0) []) 0xffffffff ++ (0x0f ∷ [])) 0)
          0)
        0)
      24

abbrev no_term : CurrentTerm
no_term = record {
  field = 0;
  text = [];
  freq_ptr = 0;
  prox_ptr = 0;
  doc_freq = 0;
  prev_doc = 0;
  frq_scratch = [];
  prx_scratch = [];
}

-- `TermDictStreamWriter::new` over empty sinks.
unfoldable pub new_dict : Dictionary
unfolding write_header synthetic
new_dict = record {
  tis = write_header [];
  tii = write_header [] ++ synthetic;
  tis_len = length (write_header []);
  prev = none;
  idx_prev = none;
  last_index_position = 24;
  term_count = 0;
}

unfoldable pub new_writer : TermDictStreamWriter
unfolding new_dict
new_writer = record { dict = new_dict; frq = []; prx = []; frq_len = 0; prx_len = 0; cur = no_term }

-- The part of `dump_tis_entry` under its `if`.
unfoldable pub sample_entry : Dictionary → PrevTerm → ℕ → Dictionary
unfolding dump_entry
sample_entry d t df = record {
  tis = d.tis;
  tii =
      d.tii
      ++ write_vint (dump_entry [] d.idx_prev t.field_num t.text df t.freq_ptr t.prox_ptr)
          (sub64 d.tis_len d.last_index_position);
  tis_len = d.tis_len;
  prev = d.prev;
  idx_prev = some t;
  last_index_position = d.tis_len;
  term_count = d.term_count;
}

-- The part before it.
unfoldable pub append_entry : Dictionary → PrevTerm → ℕ → Dictionary
unfolding dump_entry
append_entry d t df =
    let tis_entry = dump_entry [] d.prev t.field_num t.text df t.freq_ptr t.prox_ptr in
    record {
      tis = d.tis ++ tis_entry;
      tii = d.tii;
      tis_len = add64 d.tis_len (length tis_entry);
      prev = some t;
      idx_prev = d.idx_prev;
      last_index_position = d.last_index_position;
      term_count = add64 d.term_count 1;
    }

-- `dump_tis_entry`; the term's field, text and pointers are one record.
unfoldable pub dump_tis_entry : Dictionary → PrevTerm → ℕ → Dictionary
unfolding append_entry sample_entry
dump_tis_entry d t df =
    let d' = append_entry d t df in
    if d'.term_count % index_interval == 0 then sample_entry d' t df else d'

unfoldable pub add_term : TermDictStreamWriter → TermPostings → TermDictStreamWriter
unfolding dump_tis_entry write_term_postings
add_term w term =
    let buf = write_term_postings [] [] term.docs in
    record {
      dict =
          dump_tis_entry w.dict
            (record {
              text = term.text;
              field_num = term.field_num;
              freq_ptr = w.frq_len;
              prox_ptr = w.prx_len;
            })
            (doc_freq term);
      frq = w.frq ++ buf.frq;
      prx = w.prx ++ buf.prx;
      frq_len = add64 w.frq_len (length buf.frq);
      prx_len = add64 w.prx_len (length buf.prx);
      cur = w.cur;
    }

unfoldable pub begin_term : TermDictStreamWriter → ℕ → List ℕ → TermDictStreamWriter
begin_term w field_num text = record {
  dict = w.dict;
  frq = w.frq;
  prx = w.prx;
  frq_len = w.frq_len;
  prx_len = w.prx_len;
  cur = record {
    field = field_num;
    text = text;
    freq_ptr = w.frq_len;
    prox_ptr = w.prx_len;
    doc_freq = 0;
    prev_doc = 0;
    frq_scratch = w.cur.frq_scratch;
    prx_scratch = w.cur.prx_scratch;
  };
}

-- `write_freq` and `write_positions` are the same lines as in `write_term_postings`.
unfoldable pub add_posting : TermDictStreamWriter → ℕ → List ℕ → TermDictStreamWriter
unfolding write_freq write_positions
add_posting w new_doc_id positions =
    let frq_scratch = write_freq w.cur.frq_scratch w.cur.prev_doc new_doc_id (length positions) in
    let prx_scratch = write_positions w.cur.prx_scratch 0 positions in
    record {
      dict = w.dict;
      frq = w.frq ++ frq_scratch;
      prx = w.prx ++ prx_scratch;
      frq_len = add64 w.frq_len (length frq_scratch);
      prx_len = add64 w.prx_len (length prx_scratch);
      cur = record {
        field = w.cur.field;
        text = w.cur.text;
        freq_ptr = w.cur.freq_ptr;
        prox_ptr = w.cur.prox_ptr;
        doc_freq = add32 w.cur.doc_freq 1;
        prev_doc = new_doc_id;
        frq_scratch = [];
        prx_scratch = [];
      };
    }

-- What `end_term` does to the current term: `mem::take` of the text, and the count is reset.
abbrev closed : CurrentTerm → CurrentTerm
closed c = record {
  field = c.field;
  text = [];
  freq_ptr = c.freq_ptr;
  prox_ptr = c.prox_ptr;
  doc_freq = 0;
  prev_doc = c.prev_doc;
  frq_scratch = c.frq_scratch;
  prx_scratch = c.prx_scratch;
}

unfoldable pub end_term : TermDictStreamWriter → TermDictStreamWriter
unfolding dump_tis_entry
end_term w = if w.cur.doc_freq == 0 then w else record {
  dict =
      dump_tis_entry w.dict
        (record {
          text = w.cur.text;
          field_num = w.cur.field;
          freq_ptr = w.cur.freq_ptr;
          prox_ptr = w.cur.prox_ptr;
        })
        w.cur.doc_freq;
  frq = w.frq;
  prx = w.prx;
  frq_len = w.frq_len;
  prx_len = w.prx_len;
  cur = closed w.cur;
}

-- `seek(Start(4))` and eight bytes.
abbrev pub at_four : List ℕ → ℕ → List ℕ
at_four file v = take 4 file ++ (be_bytes 8 v ++ drop 12 file)

-- The count of samples that goes to the head of `.tii`.
abbrev pub tii_count : ℕ → ℕ
tii_count term_count = (term_count - term_count % index_interval) / index_interval + 1

-- `backpatch_term_counts`, `finish`, and what the sinks then hold.
unfoldable pub finish : TermDictStreamWriter → DictFiles
finish w = record {
  tis = at_four w.dict.tis w.dict.term_count;
  tii = at_four w.dict.tii (tii_count w.dict.term_count);
  frq = w.frq;
  prx = w.prx;
}

unfoldable pub add_terms : TermDictStreamWriter → List TermPostings → TermDictStreamWriter
unfolding add_term
add_terms w [] = w
add_terms w (t ∷ terms) = add_terms (add_term w t) terms

unfoldable pub write_term_dict : List TermPostings → DictFiles
unfolding add_terms finish new_writer
write_term_dict terms = finish (add_terms new_writer terms)
