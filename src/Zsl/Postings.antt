-- ===== src/Zsl/Postings.antt =====
-- sdsearch-core/src/zsl/postings.rs: the readers of .frq (documents and frequencies) and .prx
-- (positions).
pub mod Encoding
pub mod RoundTrip
pub mod Lookup
use php_sdsearch.Prelude.{ℕ, zero, suc, ◌/◌, List, [], ◌∷◌, ◌++◌, ◌==◌, bit_and, if◌then◌else◌}
use php_sdsearch.Prelude.{add64, add32, to_u32}
use php_sdsearch.Io.{Reader, Result, ok, err, pure, ◌>>=◌, value}
use php_sdsearch.Serialize.{read_vint}

-- zsl/terms.rs
pub record TermInfo : Type 0 where
  pub doc_freq : ℕ
  pub freq_pointer : ℕ
  pub prox_pointer : ℕ

-- `let freq = if v & 1 == 1 { 1 } else { read_vint(..)? as u32 }`
unfoldable pub read_freq : ℕ → Reader ℕ
read_freq v = if bit_and v 1 == 1 then pure 1 else (do n ← read_vint; pure (to_u32 n))

-- One document of `.frq`: its id and its frequency.
unfoldable pub read_doc : ℕ → Reader (ℕ × ℕ)
read_doc prev = do v ← read_vint; freq ← read_freq v; pure (add64 prev (v / 2), freq)

unfoldable pub read_docs : ℕ → ℕ → Reader (List (ℕ × ℕ))
read_docs zero prev = pure []
read_docs (suc n) prev = do d ← read_doc prev; rest ← read_docs n d.0; pure (d ∷ rest)

unfoldable pub read_freqs : List ℕ → TermInfo → Result (List (ℕ × ℕ))
read_freqs frq info = value (read_docs info.doc_freq 0 frq info.freq_pointer)

-- The positions of one document, from their deltas.
unfoldable pub read_deltas : ℕ → ℕ → Reader (List ℕ)
read_deltas zero prev_pos = pure []
read_deltas (suc freq) prev_pos = do
  delta ← read_vint
  let pos = add32 prev_pos (to_u32 delta)
  rest ← read_deltas freq pos
  pure (pos ∷ rest)

-- One round of the loops over `.frq` and `.prx`: the document with its positions, and where both
-- files are read on.
abbrev pub Round : Type 0
Round = record { doc : ℕ; positions : List ℕ; fpos : ℕ; ppos : ℕ }

abbrev with_positions : ℕ → ℕ → Result (List ℕ × ℕ) → Result Round
with_positions d fpos (ok (positions, ppos)) =
    ok (record { doc = d; positions = positions; fpos = fpos; ppos = ppos })
with_positions d fpos (err e) = err e

abbrev with_doc : List ℕ → ℕ → Result ((ℕ × ℕ) × ℕ) → Result Round
with_doc prx ppos (ok ((d, freq), fpos)) = with_positions d fpos (read_deltas freq 0 prx ppos)
with_doc prx ppos (err e) = err e

unfoldable pub read_posting : ℕ → List ℕ → List ℕ → ℕ → ℕ → Result Round
read_posting prev frq prx fpos ppos = with_doc prx ppos (read_doc prev frq fpos)

-- `read_positions`: the loop returns at the document that is wanted.
unfoldable pub find_positions : ℕ → ℕ → ℕ → List ℕ → List ℕ → ℕ → ℕ → Result (List ℕ)
find_positions zero doc_id prev frq prx fpos ppos = ok []
find_positions (suc n) doc_id prev frq prx fpos ppos = elim (read_posting prev frq prx fpos ppos) [
  | err e ↦ err e
  | ok r ↦
      let more = find_positions n doc_id r.doc frq prx r.fpos r.ppos in
      if r.doc == doc_id then ok r.positions else more
]

unfoldable pub read_positions : List ℕ → List ℕ → TermInfo → ℕ → Result (List ℕ)
unfolding find_positions
read_positions frq prx info doc_id =
    find_positions info.doc_freq doc_id 0 frq prx info.freq_pointer info.prox_pointer

-- `for_each_posting`: the closure `f` is a function of the state that it captures, which comes back
-- beside the result, as it was when an error ended the loop.
module _ {ℓ} {S : Type ℓ} (f : S → ℕ → List ℕ → S) where
  unfoldable pub each_posting : ℕ → ℕ → List ℕ → List ℕ → ℕ → ℕ → S → Result (Unit {0}) × S
  each_posting zero prev frq prx fpos ppos s = (ok tt, s)
  each_posting (suc n) prev frq prx fpos ppos s = elim (read_posting prev frq prx fpos ppos) [
    | err e ↦ (err e, s)
    | ok r ↦ each_posting n r.doc frq prx r.fpos r.ppos (f s r.doc r.positions)
  ]

  unfoldable pub for_each_posting : List ℕ → List ℕ → TermInfo → S → Result (Unit {0}) × S
  unfolding each_posting
  for_each_posting frq prx info s =
      each_posting info.doc_freq 0 frq prx info.freq_pointer info.prox_pointer s

-- A document with its positions.
abbrev pub Posting : Type 0
Posting = ℕ × List ℕ

abbrev pub push_posting : List Posting → ℕ → List ℕ → List Posting
push_posting out d pos = out ++ ((d, pos) ∷ [])

abbrev pub when_ok {ℓ} : {S : Type ℓ} → Result (Unit {0}) × S → Result S
when_ok (ok u, s) = ok s
when_ok (err e, s) = err e

unfoldable pub read_all_positions : List ℕ → List ℕ → TermInfo → Result (List Posting)
unfolding for_each_posting
read_all_positions frq prx info = when_ok (for_each_posting push_posting frq prx info [])
