-- ===== src/Zsl/Postings/Encoding.antt =====
-- The bytes of postings, and what the readers of one document make of them.
use php_sdsearch.Prelude.{ℕ, ◌/◌, ◌%◌, ◌^◌, ◌≤◌, ◌<◌, ◌≡◌, refl, sym, ap, ◌∙◌}
use php_sdsearch.Prelude.{arith, List, [], ◌∷◌, ◌++◌, length, append-nil, append_assoc, All, ltb}
use php_sdsearch.Prelude.{bit_and-mask, if◌then◌else◌, add64, sub64, mul64, add32, sub32, to_u32}
use mathlib.Core.Path.{subst, ap₂}
use php_sdsearch.Prelude.{Bool-cases, inl, inr}
use php_sdsearch.Io.{pure, ◌>>=◌}
use php_sdsearch.Io.Reads.{Reads, Reads-pure, Reads-bind, Reads-map}
use php_sdsearch.Serialize.{IsU64, write_vint, read_vint}
use php_sdsearch.Serialize.RoundTrip.{Reads-vint, write_vint-append}
use php_sdsearch.Zsl.Bytes.Integers.{IsU32}
use php_sdsearch.Zsl.Postings.{Posting, read_freq, read_doc, read_deltas}
use php_sdsearch.Zsl.Writer.Postings.{write_positions, write_freq, write_docs}

-- What a term's postings have to be, behind document `prev`: ids that do not fall, below 2^63, each
-- with at least one position.
abbrev pub ArePostings : ℕ → List Posting → Type 0
ArePostings prev [] = Unit
ArePostings prev ((d, ps) ∷ docs) =
    (prev ≤ d)
    × (d < 2 ^ 63)
    × (1 ≤ length ps)
    × IsU32 (length ps)
    × All IsU32 ps
    × ArePostings d docs

-- Positions.

write_positions-append :
    (prx : List ℕ) (prev : ℕ) (ps : List ℕ)
    → write_positions prx prev ps ≡ prx ++ write_positions [] prev ps
unfolding write_positions
write_positions-append prx prev [] = sym (append-nil prx)
write_positions-append prx prev (p ∷ ps) =
    ap (λ b. write_positions b p ps) (write_vint-append prx (sub32 p prev) (omega arith))
    ∙ write_positions-append (prx ++ delta) p ps
    ∙ append_assoc prx delta (write_positions [] p ps)
    ∙ ap (λ b. prx ++ b) (sym (write_positions-append delta p ps))
  where
    delta : List ℕ
    delta = write_vint [] (sub32 p prev)

write_positions_cons :
    (prev p : ℕ) (ps : List ℕ)
    → write_positions [] prev (p ∷ ps) ≡ write_vint [] (sub32 p prev) ++ write_positions [] p ps
unfolding write_positions
write_positions_cons prev p ps = write_positions-append (write_vint [] (sub32 p prev)) p ps

-- The u32 deltas wrap around on both sides, so the positions need not rise.
delta_back : (prev p : ℕ) → IsU32 prev → IsU32 p → add32 prev (to_u32 (sub32 p prev)) ≡ p
delta_back prev p h k = omega arith

pub Reads-deltas :
    (prev : ℕ) (ps : List ℕ)
    → IsU32 prev
    → All IsU32 ps
    → Reads (read_deltas (length ps) prev) (write_positions [] prev ps) ps
unfolding read_deltas
Reads-deltas prev [] h k = unfold write_positions in Reads-pure []
Reads-deltas prev (p ∷ ps) h k = rw (write_positions_cons prev p ps) (
    Reads-bind read_vint _ (write_vint [] (sub32 p prev)) (write_positions [] p ps) (sub32 p prev)
      (p ∷ ps) (Reads-vint (sub32 p prev) (omega arith))
      (rw (delta_back prev p h k.0) (
        Reads-map (read_deltas (length ps) p) (λ rest. p ∷ rest) (write_positions [] p ps) ps
          (p ∷ ps) (Reads-deltas p ps k.0 k.1) refl)))

-- Documents.

pub two_vints :
    (buf : List ℕ) (v n : ℕ)
    → IsU64 v
    → IsU64 n
    → write_vint (write_vint buf v) n ≡ buf ++ (write_vint [] v ++ write_vint [] n)
two_vints buf v n h k =
    write_vint-append (write_vint buf v) n k
    ∙ ap (λ b. b ++ write_vint [] n) (write_vint-append buf v h)
    ∙ append_assoc buf (write_vint [] v) (write_vint [] n)

-- The bytes of one document in `.frq`.
unfoldable pub freq_bytes : ℕ → ℕ → ℕ → List ℕ
freq_bytes prev d n =
    if ltb 1 n
    then write_vint [] (mul64 (sub64 d prev) 2) ++ write_vint [] n
    else write_vint [] (add64 (mul64 (sub64 d prev) 2) 1)

pub write_freq-append :
    (frq : List ℕ) (prev d n : ℕ) → IsU32 n → write_freq frq prev d n ≡ frq ++ freq_bytes prev d n
unfolding write_freq freq_bytes
write_freq-append frq prev d n h = elim (Bool-cases (ltb 1 n)) [
  | inl e ↦ rw e (two_vints frq (mul64 (sub64 d prev) 2) n (omega arith) (omega arith))
  | inr e ↦ rw e (write_vint-append frq (add64 (mul64 (sub64 d prev) 2) 1) (omega arith))
]

read_freq_odd : (v : ℕ) → v % 2 ≡ 1 → read_freq v ≡ pure 1
unfolding read_freq
read_freq_odd v h = ground (arith, bit_and-mask 1 v)

read_freq_even : (v : ℕ) → v % 2 ≡ 0 → read_freq v ≡ (do n ← read_vint; pure (to_u32 n))
unfolding read_freq
read_freq_even v h = ground (arith, bit_and-mask 1 v)

Reads-freq_odd : (v : ℕ) → v % 2 ≡ 1 → Reads (read_freq v) [] 1
Reads-freq_odd v h = rw (read_freq_odd v h) (Reads-pure 1)

Reads-freq_even : (v n : ℕ) → v % 2 ≡ 0 → IsU32 n → Reads (read_freq v) (write_vint [] n) n
Reads-freq_even v n h k =
    rw (read_freq_even v h)
      (Reads-map read_vint to_u32 (write_vint [] n) n n (Reads-vint n (omega arith)) (omega arith))

-- A document whose first number is `v`.
Reads-doc_at :
    (prev v d n : ℕ) (bytes : List ℕ)
    → IsU64 v
    → add64 prev (v / 2) ≡ d
    → Reads (read_freq v) bytes n
    → Reads (read_doc prev) (write_vint [] v ++ bytes) (d, n)
unfolding read_doc
Reads-doc_at prev v d n bytes h e k =
    Reads-bind read_vint _ (write_vint [] v) bytes v (d, n) (Reads-vint v h)
      (Reads-map (read_freq v) (λ freq. (add64 prev (v / 2), freq)) bytes n (d, n) k
        (ap (λ (t : ℕ). (t, n)) e))

pub Reads-doc :
    (prev d n : ℕ)
    → prev ≤ d
    → d < 2 ^ 63
    → 1 ≤ n
    → IsU32 n
    → Reads (read_doc prev) (freq_bytes prev d n) (d, n)
unfolding freq_bytes
Reads-doc prev d n h k one m = elim (Bool-cases (ltb 1 n)) [
  | inl e ↦ rw e (
      Reads-doc_at prev (mul64 (sub64 d prev) 2) d n (write_vint [] n) (omega arith) (omega arith)
        (Reads-freq_even (mul64 (sub64 d prev) 2) n (omega arith) m))
  | inr e ↦
      let single : n ≡ 1 = ground arith in
      rw (e, single)
        (subst (λ b. Reads (read_doc prev) b (d, 1))
          (append-nil (write_vint [] (add64 (mul64 (sub64 d prev) 2) 1)))
          (Reads-doc_at prev (add64 (mul64 (sub64 d prev) 2) 1) d 1 [] (omega arith) (omega arith)
            (Reads-freq_odd (add64 (mul64 (sub64 d prev) 2) 1) (omega arith))))
]

-- Both files of a term, behind document `prev`.
unfoldable pub frq_bytes : ℕ → List Posting → List ℕ
frq_bytes prev [] = []
frq_bytes prev ((d, ps) ∷ docs) = freq_bytes prev d (length ps) ++ frq_bytes d docs

unfoldable pub prx_bytes : List Posting → List ℕ
prx_bytes [] = []
prx_bytes ((d, ps) ∷ docs) = write_positions [] 0 ps ++ prx_bytes docs

pub write_docs_lem :
    (frq prx : List ℕ) (prev : ℕ) (docs : List Posting)
    → ArePostings prev docs
    → write_docs frq prx prev docs ≡ (frq ++ frq_bytes prev docs, prx ++ prx_bytes docs)
unfolding write_docs frq_bytes prx_bytes
write_docs_lem frq prx prev [] h = ap₂ (λ a b. (a, b)) (sym (append-nil frq)) (sym (append-nil prx))
write_docs_lem frq prx prev ((d, ps) ∷ docs) h =
    rw
      (
        write_freq-append frq prev d (length ps) h.3,
        write_positions-append prx 0 ps,
        ← append_assoc frq (freq_bytes prev d (length ps)) (frq_bytes d docs),
        ← append_assoc prx (write_positions [] 0 ps) (prx_bytes docs),
      )
      (write_docs_lem (frq ++ freq_bytes prev d (length ps)) (prx ++ write_positions [] 0 ps) d docs
        h.5)
