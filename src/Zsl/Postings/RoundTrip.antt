-- ===== src/Zsl/Postings/RoundTrip.antt =====
-- What `write_term_postings` leaves in .frq and .prx is what the readers return.
use php_sdsearch.Prelude.{ℕ, suc, ◌+◌, ◌^◌, ◌≤◌, ◌<◌, ◌≡◌, refl, sym, ap, ◌∙◌, arith}
use php_sdsearch.Prelude.{List, [], ◌∷◌, ◌++◌, map, length, length-append, append-nil, append_assoc}
use mathlib.Core.Path.{subst}
use php_sdsearch.Prelude.{All}
use php_sdsearch.Zsl.Bytes.Integers.{IsU32}
use php_sdsearch.Io.{ok, IsBuffer, value}
use php_sdsearch.Io.Reads.{Reads, Reads-pure, Reads-bind, Reads-map}
use php_sdsearch.Zsl.Postings.{
  Posting, TermInfo, Round, read_doc, read_docs, read_freqs, read_posting, with_doc, with_positions,
  each_posting, for_each_posting, push_posting, when_ok, read_all_positions,
}
use php_sdsearch.Zsl.Postings.Encoding.{
  ArePostings, freq_bytes, frq_bytes, prx_bytes, Reads-doc, Reads-deltas, write_docs_lem,
}
use php_sdsearch.Zsl.Writer.Postings.{Written, write_positions, write_term_postings}

-- The `TermInfo` of a term with these postings.
abbrev pub info_for : Written → List Posting → TermInfo
info_for w docs = record {
  doc_freq = length docs;
  freq_pointer = w.freq_pointer;
  prox_pointer = w.prox_pointer;
}

abbrev pub doc_and_freq : Posting → ℕ × ℕ
doc_and_freq (d, ps) = (d, length ps)

Reads-docs :
    (prev : ℕ) (docs : List Posting)
    → ArePostings prev docs
    → Reads (read_docs (length docs) prev) (frq_bytes prev docs) (map doc_and_freq docs)
unfolding read_docs frq_bytes
Reads-docs prev [] h = Reads-pure []
Reads-docs prev ((d, ps) ∷ docs) h =
    Reads-bind (read_doc prev) _ (freq_bytes prev d (length ps)) (frq_bytes d docs) (d, length ps) _
      (Reads-doc prev d (length ps) h.0 h.1 h.2 h.3)
      (Reads-map (read_docs (length docs) d) (λ rest. (d, length ps) ∷ rest) (frq_bytes d docs)
        (map doc_and_freq docs) _ (Reads-docs d docs h.5) refl)

-- One round over both files, at the bytes of its document.
read_posting_at :
    (prev d : ℕ) (ps front fback pfront pback : List ℕ)
    → (prev ≤ d) × (d < 2 ^ 63) × (1 ≤ length ps) × IsU32 (length ps) × All IsU32 ps
    → IsBuffer (front ++ (freq_bytes prev d (length ps) ++ fback))
    → IsBuffer (pfront ++ (write_positions [] 0 ps ++ pback))
    → read_posting prev
        (front ++ (freq_bytes prev d (length ps) ++ fback))
        (pfront ++ (write_positions [] 0 ps ++ pback))
        (length front)
        (length pfront)
      ≡ ok (record {
        doc = d;
        positions = ps;
        fpos = length front + length (freq_bytes prev d (length ps));
        ppos = length pfront + length (write_positions [] 0 ps);
      })
unfolding read_posting
read_posting_at prev d ps front fback pfront pback (h0, h1, h2, h3, h4) f p =
    ap (with_doc (pfront ++ (write_positions [] 0 ps ++ pback)) (length pfront))
      ((Reads-doc prev d (length ps) h0 h1 h2 h3).at front fback f)
    ∙ ap (with_positions d (length front + length (freq_bytes prev d (length ps))))
        ((Reads-deltas 0 ps (omega arith) h4).at pfront pback p)

module _ {ℓ} {S : Type ℓ} (f : S → ℕ → List ℕ → S) where
  -- The calls of the closure, one for each document, in order.
  abbrev call_each : S → List Posting → S
  call_each s [] = s
  call_each s ((d, ps) ∷ docs) = call_each (f s d ps) docs

  each_posting_step :
      (n prev : ℕ) (frq prx : List ℕ) (fpos ppos : ℕ) (s : S) (r : Round)
      → read_posting prev frq prx fpos ppos ≡ ok r
      → each_posting f (suc n) prev frq prx fpos ppos s
        ≡ each_posting f n r.doc frq prx r.fpos r.ppos (f s r.doc r.positions)
  unfolding each_posting
  each_posting_step n prev frq prx fpos ppos s r e = rw (e, each_posting)

  each_posting_at :
      (docs : List Posting) (prev : ℕ) (front fback pfront pback : List ℕ) (s : S)
      → ArePostings prev docs
      → IsBuffer (front ++ (frq_bytes prev docs ++ fback))
      → IsBuffer (pfront ++ (prx_bytes docs ++ pback))
      → each_posting f
          (length docs)
          prev
          (front ++ (frq_bytes prev docs ++ fback))
          (pfront ++ (prx_bytes docs ++ pback))
          (length front)
          (length pfront)
          s
        ≡ (ok tt, call_each s docs)
  unfolding frq_bytes prx_bytes
  each_posting_at [] prev front fback pfront pback s h a b = unfold each_posting in refl
  each_posting_at ((d, ps) ∷ docs) prev front fback pfront pback s (h0, h1, h2, h3, h4, h5) a b =
      let a' : IsBuffer (front ++ (fb ++ (frq_bytes d docs ++ fback))) =
        rw (append_assoc fb (frq_bytes d docs) fback) at a in
      let b' : IsBuffer (pfront ++ (pb ++ (prx_bytes docs ++ pback))) =
        rw (append_assoc pb (prx_bytes docs) pback) at b in
      rw (append_assoc fb (frq_bytes d docs) fback, append_assoc pb (prx_bytes docs) pback)
        (each_posting_step (length docs) prev _ _ _ _ s _ (
            read_posting_at prev d ps front (frq_bytes d docs ++ fback) pfront
              (prx_bytes docs ++ pback) (h0, h1, h2, h3, h4) a' b')
          ∙ rw
              (
                ← append_assoc front fb (frq_bytes d docs ++ fback),
                ← append_assoc pfront pb (prx_bytes docs ++ pback),
                ← length-append front fb,
                ← length-append pfront pb,
              )
              (each_posting_at docs d (front ++ fb) fback (pfront ++ pb) pback (f s d ps) h5
                (rw (← append_assoc front fb (frq_bytes d docs ++ fback)) at a')
                (rw (← append_assoc pfront pb (prx_bytes docs ++ pback)) at b')))
    where
      fb : List ℕ
      fb = freq_bytes prev d (length ps)

      pb : List ℕ
      pb = write_positions [] 0 ps

pub written_lem :
    (frq prx : List ℕ) (docs : List Posting)
    → ArePostings 0 docs
    → write_term_postings frq prx docs ≡ record {
      frq = frq ++ frq_bytes 0 docs;
      prx = prx ++ prx_bytes docs;
      freq_pointer = length frq;
      prox_pointer = length prx;
    }
unfolding write_term_postings
written_lem frq prx docs h = rw (write_docs_lem frq prx 0 docs h)

-- Pushing each posting on a list keeps them all, in order.
call_each-push : (docs out : List Posting) → call_each push_posting out docs ≡ out ++ docs
call_each-push [] out = sym (append-nil out)
call_each-push ((d, ps) ∷ docs) out =
    call_each-push docs (out ++ ((d, ps) ∷ [])) ∙ append_assoc out ((d, ps) ∷ []) docs

module _ (frq prx fback : List ℕ) (docs : List Posting) (good : ArePostings 0 docs) where
  -- `read_freqs` returns each document of the term with the number of its positions, in order,
  -- wherever the postings stand in `.frq` and whatever is written behind them. The ids do not fall
  -- and are below 2^63, each document has at least one position and less than 2^32, the positions
  -- are u32, and the file is less than 2^63 bytes.
  pub read_freqs-write_term_postings :
      IsBuffer ((write_term_postings frq prx docs).frq ++ fback)
      → read_freqs
          ((write_term_postings frq prx docs).frq ++ fback)
          (info_for (write_term_postings frq prx docs) docs)
        ≡ ok (map doc_and_freq docs)
  unfolding read_freqs
  read_freqs-write_term_postings =
      subst
        (λ (w : Written).
          IsBuffer (w.frq ++ fback)
          → value (read_docs (length docs) 0 (w.frq ++ fback) w.freq_pointer)
            ≡ ok (map doc_and_freq docs))
        (sym (written_lem frq prx docs good))
        (λ fits. rw (append_assoc frq (frq_bytes 0 docs) fback) (
          ap value (
            (Reads-docs 0 docs good).at frq fback
              (rw (append_assoc frq (frq_bytes 0 docs) fback) at fits))))

module _ (frq prx fback pback : List ℕ) (docs : List Posting) (good : ArePostings 0 docs) where
  all_at :
      IsBuffer (frq ++ (frq_bytes 0 docs ++ fback))
      → IsBuffer (prx ++ (prx_bytes docs ++ pback))
      → when_ok (
          for_each_posting push_posting
            (frq ++ (frq_bytes 0 docs ++ fback))
            (prx ++ (prx_bytes docs ++ pback))
            (record {
              doc_freq = length docs;
              freq_pointer = length frq;
              prox_pointer = length prx;
            })
            [])
        ≡ ok docs
  unfolding for_each_posting
  all_at a b =
      ap when_ok (each_posting_at push_posting docs 0 frq fback prx pback [] good a b)
      ∙ ap ok (call_each-push docs [])

  -- `read_all_positions` returns the postings of the term, documents and positions in order,
  -- wherever they stand in `.frq` and `.prx` and whatever is written behind them. The ids do not
  -- fall and are below 2^63, each document has at least one position and less than 2^32, the
  -- positions are u32, and both files are less than 2^63 bytes. The positions of a document need
  -- not rise.
  pub read_all_positions-write_term_postings :
      IsBuffer ((write_term_postings frq prx docs).frq ++ fback)
      → IsBuffer ((write_term_postings frq prx docs).prx ++ pback)
      → read_all_positions
          ((write_term_postings frq prx docs).frq ++ fback)
          ((write_term_postings frq prx docs).prx ++ pback)
          (info_for (write_term_postings frq prx docs) docs)
        ≡ ok docs
  unfolding read_all_positions
  read_all_positions-write_term_postings =
      subst
        (λ (w : Written).
          IsBuffer (w.frq ++ fback)
          → IsBuffer (w.prx ++ pback)
          → when_ok
              (for_each_posting push_posting (w.frq ++ fback) (w.prx ++ pback) (info_for w docs) [])
            ≡ ok docs)
        (sym (written_lem frq prx docs good))
        (λ a b.
          rw (append_assoc frq (frq_bytes 0 docs) fback, append_assoc prx (prx_bytes docs) pback)
            (all_at (rw (append_assoc frq (frq_bytes 0 docs) fback) at a)
              (rw (append_assoc prx (prx_bytes docs) pback) at b)))
