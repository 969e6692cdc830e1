-- ===== src/Zsl/Writer/Postings.antt =====
-- sdsearch-core/src/zsl/writer/postings.rs: the postings of one term (.frq and .prx).
use php_sdsearch.Prelude.{ℕ, List, [], ◌∷◌, length, ltb, if◌then◌else◌}
use php_sdsearch.Prelude.{add64, sub64, mul64, sub32}
use php_sdsearch.Serialize.{write_vint}
use php_sdsearch.Zsl.Postings.{Posting}

-- The loop over the positions of a document.
unfoldable pub write_positions : List ℕ → ℕ → List ℕ → List ℕ
write_positions prx prev_pos [] = prx
write_positions prx prev_pos (pos ∷ positions) =
    write_positions (write_vint prx (sub32 pos prev_pos)) pos positions

-- What goes to `.frq` for a document; `n` is the number of positions.
unfoldable pub write_freq : List ℕ → ℕ → ℕ → ℕ → List ℕ
write_freq frq prev_doc doc_id n =
    let doc_delta = mul64 (sub64 doc_id prev_doc) 2 in
    if ltb 1 n then write_vint (write_vint frq doc_delta) n else write_vint frq (add64 doc_delta 1)

-- The loop over the documents.
unfoldable pub write_docs : List ℕ → List ℕ → ℕ → List Posting → List ℕ × List ℕ
unfolding write_freq write_positions
write_docs frq prx prev_doc [] = (frq, prx)
write_docs frq prx prev_doc ((doc_id, positions) ∷ docs) =
    write_docs (write_freq frq prev_doc doc_id (length positions)) (write_positions prx 0 positions)
      doc_id docs

pub record Written : Type 0 where
  pub frq : List ℕ
  pub prx : List ℕ
  pub freq_pointer : ℕ
  pub prox_pointer : ℕ

unfoldable pub write_term_postings : List ℕ → List ℕ → List Posting → Written
unfolding write_docs
write_term_postings frq prx docs =
    let (frq', prx') = write_docs frq prx 0 docs in
    record { frq = frq'; prx = prx'; freq_pointer = length frq; prox_pointer = length prx }
