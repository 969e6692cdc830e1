-- ===== src/Zsl/Postings/Lookup.antt =====
-- `read_positions`, which stops at its document, against `read_all_positions`, which reads them all.
use php_sdsearch.Prelude.{ℕ, zero, suc, ◌≡◌, refl, ◌∙◌, List, [], ◌∷◌, ◌++◌, append-nil}
use php_sdsearch.Prelude.{append_assoc, ◌==◌, Bool, true, false, if◌then◌else◌}
use php_sdsearch.Io.{Result, Error, ok, err}
use php_sdsearch.Zsl.Postings.{
  Posting, TermInfo, Round, read_posting, find_positions, read_positions, each_posting,
  push_posting, when_ok, read_all_positions,
}

-- The positions of the first posting of a document, or none.
unfoldable pub positions_of : ℕ → List Posting → List ℕ
positions_of doc_id [] = []
positions_of doc_id ((d, ps) ∷ docs) = if d == doc_id then ps else positions_of doc_id docs

err-ne-ok {ℓ} : {T : Type ℓ} {y : Error} {all : List Posting} → err y ≡ ok all → T
err-ne-ok h = absurd (cc h)

found_if : (b : Bool) (ps qs : List ℕ) → (if b then ok ps else ok qs) ≡ ok (if b then ps else qs)
found_if true ps qs = refl
found_if false ps qs = refl

no_more : (out all : List Posting) → ok out ≡ ok all → all ≡ out ++ []
no_more out all h = cc (h, append-nil out)

module _ (doc_id : ℕ) (frq prx : List ℕ) where
  -- What is left to be read holds the same postings for both loops.
  abbrev Agree : ℕ → ℕ → ℕ → ℕ → List Posting → List Posting → Type 0
  Agree n prev fpos ppos out all =
      (docs : List Posting) × (all ≡ out ++ docs)
      × (find_positions n doc_id prev frq prx fpos ppos ≡ ok (positions_of doc_id docs))

  -- One round, given what the rest of the loop does.
  Agree-round :
      (n prev fpos ppos : ℕ) (out all : List Posting) (x : Result Round)
      → read_posting prev frq prx fpos ppos ≡ x
      → ((r : Round)
          → when_ok (
              each_posting push_posting n r.doc frq prx r.fpos r.ppos
                (push_posting out r.doc r.positions))
            ≡ ok all
          → Agree n r.doc r.fpos r.ppos (push_posting out r.doc r.positions) all)
      → when_ok (each_posting push_posting (suc n) prev frq prx fpos ppos out) ≡ ok all
      → Agree (suc n) prev fpos ppos out all
  unfolding each_posting find_positions positions_of
  Agree-round n prev fpos ppos out all (err y) e rest h = err-ne-ok (rw (e, each_posting) at h)
  Agree-round n prev fpos ppos out all (ok r) e rest h =
      let (docs, split, found) = rest r (rw (e, each_posting) at h) in
      (
        (r.doc, r.positions) ∷ docs,
        split ∙ append_assoc out ((r.doc, r.positions) ∷ []) docs,
        rw (e, find_positions)
            (rw found (found_if (r.doc == doc_id) r.positions (positions_of doc_id docs))),
      )

  agree :
      (n prev fpos ppos : ℕ) (out all : List Posting)
      → when_ok (each_posting push_posting n prev frq prx fpos ppos out) ≡ ok all
      → Agree n prev fpos ppos out all
  agree zero prev fpos ppos out all h =
      ([], unfold each_posting in no_more out all h, unfold find_positions positions_of in refl)
  agree (suc n) prev fpos ppos out all h =
      Agree-round n prev fpos ppos out all (read_posting prev frq prx fpos ppos) refl
        (λ r. agree n r.doc r.fpos r.ppos (push_posting out r.doc r.positions) all) h

-- On any bytes: where all postings of a term can be read, `read_positions` returns the positions of
-- the first posting of the document that it is asked for, and no positions if there is none.
pub read_positions-read_all_positions :
    (frq prx : List ℕ) (info : TermInfo) (doc_id : ℕ) (docs : List Posting)
    → read_all_positions frq prx info ≡ ok docs
    → read_positions frq prx info doc_id ≡ ok (positions_of doc_id docs)
unfolding read_positions read_all_positions
read_positions-read_all_positions frq prx info doc_id docs h =
    let (docs', same, found) =
      agree doc_id frq prx info.doc_freq 0 info.freq_pointer info.prox_pointer [] docs h in
    rw same found
