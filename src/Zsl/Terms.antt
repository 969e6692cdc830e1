-- ===== src/Zsl/Terms.antt =====
-- sdsearch-core/src/zsl/terms.rs: the reader of the term dictionary. An entry is decoded behind the
-- text and the pointers of the one before it; `decode_all` decodes the whole `.tis`.
pub mod Entries
pub mod Fuel
pub mod RoundTrip
pub mod Lookup
use php_sdsearch.Prelude.{ℕ, zero, suc, ◌+◌, List, [], ◌∷◌, ◌++◌, length, take, get_elem?, map}
use php_sdsearch.Prelude.{Option, none, some, ltb, ◌==◌, if◌then◌else◌, add64, to_u32, Bool}
use php_sdsearch.Io.{Reader, Result, ok, err, pure, ◌>>=◌}
use php_sdsearch.Serialize.{read_vint}
use php_sdsearch.Zsl.Bytes.{read_modified_utf8}
use php_sdsearch.Zsl.Postings.{TermInfo}

-- What `decode_entry` returns. Its pointers are those that it leaves for the next entry.
pub record Entry : Type 0 where
  pub field : List ℕ
  pub text : List ℕ
  pub info : TermInfo

-- `field_names.get(field_num).cloned().unwrap_or_default()`
abbrev or_default : Option (List ℕ) → List ℕ
or_default none = []
or_default (some name) = name

abbrev pub name_of : List (List ℕ) → ℕ → List ℕ
name_of field_names field_num = or_default (get_elem? field_names field_num)

-- `decode_entry` behind the number of shared characters.
unfoldable pub decode_after : List ℕ → ℕ → ℕ → List (List ℕ) → ℕ → Reader Entry
decode_after prev_text freq_ptr prox_ptr field_names shared = do
  suffix ← read_modified_utf8
  field_num ← read_vint
  doc_freq ← read_vint
  freq_delta ← read_vint
  prox_delta ← read_vint
  pure (record {
    field = name_of field_names field_num;
    text = take shared prev_text ++ suffix;
    info = record {
      doc_freq = to_u32 doc_freq;
      freq_pointer = add64 freq_ptr freq_delta;
      prox_pointer = add64 prox_ptr prox_delta;
    };
  })

unfoldable pub decode_entry : List ℕ → ℕ → ℕ → List (List ℕ) → Reader Entry
unfolding decode_after
decode_entry prev_text freq_ptr prox_ptr field_names =
    read_vint >>= decode_after prev_text freq_ptr prox_ptr field_names

-- The `match` on an entry: an error ends the loop.
abbrev pub push_entry : Result (Entry × ℕ) → (Entry → ℕ → List Entry) → List Entry
push_entry (ok (e, pos)) more = e ∷ more e pos
push_entry (err x) more = []

-- The loop of `decode_all`; its first argument is fuel.
module _ (tis : List ℕ) (field_names : List (List ℕ)) where
  unfoldable pub decode_from : ℕ → ℕ → List ℕ → ℕ → ℕ → List Entry
  decode_from zero pos prev fp pp = []
  decode_from (suc n) pos prev fp pp =
      let more = λ (e : Entry) (pos' : ℕ).
        decode_from n pos' e.text e.info.freq_pointer e.info.prox_pointer in
      if ltb pos (length tis)
      then push_entry (decode_entry prev fp pp field_names tis pos) more
      else []

-- `decode_all`. Each round reads a byte at least, so the length of the file is fuel enough.
unfoldable pub decode_all : List ℕ → List (List ℕ) → List Entry
unfolding decode_from
decode_all tis field_names = decode_from tis field_names (length tis) 24 [] 0 0

unfoldable pub iter_terms : List ℕ → List (List ℕ) → List (List ℕ × List ℕ)
unfolding decode_all
iter_terms tis field_names = map (λ (e : Entry). (e.field, e.text)) (decode_all tis field_names)

-- `TermCursor`
pub record TermCursor : Type 0 where
  pub terms : List Entry
  pub i : ℕ

unfoldable pub cursor : List ℕ → List (List ℕ) → TermCursor
unfolding decode_all
cursor tis field_names = record { terms = decode_all tis field_names; i = 0 }

abbrev pair_of : Option Entry → Option (List ℕ × List ℕ)
pair_of none = none
pair_of (some e) = some (e.field, e.text)

abbrev info_of_entry : Option Entry → Option TermInfo
info_of_entry none = none
info_of_entry (some e) = some e.info

unfoldable pub peek : TermCursor → Option (List ℕ × List ℕ)
peek c = pair_of (get_elem? c.terms c.i)

unfoldable pub peek_info : TermCursor → Option TermInfo
peek_info c = info_of_entry (get_elem? c.terms c.i)

unfoldable pub advance : TermCursor → TermCursor
advance c = record { terms = c.terms; i = if ltb c.i (length c.terms) then c.i + 1 else c.i }
