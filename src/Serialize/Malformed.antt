-- ===== src/Serialize/Malformed.antt =====
-- `read_vint` on cut input, and on numbers of more than 64 bits.
use php_sdsearch.Prelude.{ℕ, ◌+◌, ◌*◌, ◌%◌, ◌^◌, ◌≤◌, ◌<◌, ◌≡◌, ◌≢◌, refl, ap, ◌∙◌, sym, arith}
use php_sdsearch.Prelude.{List, [], ◌∷◌, ◌++◌, length, All, bit_and, bit_or, append-nil}
use php_sdsearch.Prelude.{bit_and-mask, and_0x80, drop-length-append, length-append}
use php_sdsearch.Io.{Result, ok, err, unexpected_eof, IsBuffer, invalid_data, other}
use php_sdsearch.Serialize.{IsU64, write_vint, read_vint_loop, read_vint}
use php_sdsearch.Serialize.RoundTrip.{Reads-vint}
use php_sdsearch.Serialize.Bounds.{read_vint_loop_takes}

-- More bytes behind the ones that decided the outcome do not change it.
loop-append_ok :
    (bytes more : List ℕ) (pos result shift : ℕ) (x : ℕ × ℕ)
    → read_vint_loop bytes pos result shift ≡ ok x
    → read_vint_loop (bytes ++ more) pos result shift ≡ ok x
unfolding read_vint_loop
loop-append_ok [] more pos result shift x h = cc
loop-append_ok (b ∷ bytes) more pos result shift x h = ground (
  arith,
  loop-append_ok bytes more (pos + 1) (bit_or result (bit_and b 0x7f * 2 ^ shift % 2 ^ 64))
      (shift + 7) x,
)

loop-append_overlong :
    (bytes more : List ℕ) (pos result shift : ℕ)
    → read_vint_loop bytes pos result shift ≡ err invalid_data
    → read_vint_loop (bytes ++ more) pos result shift ≡ err invalid_data
unfolding read_vint_loop
loop-append_overlong [] more pos result shift h = cc
loop-append_overlong (b ∷ bytes) more pos result shift h = ground (
  arith,
  loop-append_overlong bytes more (pos + 1) (bit_or result (bit_and b 0x7f * 2 ^ shift % 2 ^ 64))
      (shift + 7),
)

-- The input ends exactly where the error says.
loop_eof :
    (bytes : List ℕ) (pos result shift e : ℕ)
    → read_vint_loop bytes pos result shift ≡ err (unexpected_eof e)
    → e ≡ pos + length bytes
unfolding read_vint_loop
loop_eof [] pos result shift e h = ground arith
loop_eof (b ∷ bytes) pos result shift e h = ground (
  arith,
  loop_eof bytes (pos + 1) (bit_or result (bit_and b 0x7f * 2 ^ shift % 2 ^ 64)) (shift + 7) e,
)

loop-ne-other :
    (bytes : List ℕ) (pos result shift : ℕ) → read_vint_loop bytes pos result shift ≢ err other
unfolding read_vint_loop
loop-ne-other [] pos result shift h = cc
loop-ne-other (b ∷ bytes) pos result shift h = ground (
  arith,
  loop-ne-other bytes (pos + 1) (bit_or result (bit_and b 0x7f * 2 ^ shift % 2 ^ 64)) (shift + 7),
)

-- Where a number was cut before its last byte, the loop asks for one byte more.
cut_short :
    (bytes : List ℕ) (b : ℕ) (more : List ℕ) (pos result shift v : ℕ)
    → read_vint_loop (bytes ++ (b ∷ more)) pos result shift
      ≡ ok (v, pos + length (bytes ++ (b ∷ more)))
    → (x : Result (ℕ × ℕ)) → read_vint_loop bytes pos result shift ≡ x
    → x ≡ err (unexpected_eof (pos + length bytes))
cut_short bytes b more pos result shift v h (ok (u, p)) e = absurd (
    omega (
      arith,
      ap end_of (sym (loop-append_ok bytes (b ∷ more) pos result shift (u, p) e) ∙ h),
      length-append bytes (b ∷ more),
      read_vint_loop_takes bytes pos result shift u p e,
    ))
  where
    end_of : Result (ℕ × ℕ) → ℕ
    end_of (ok (a, q)) = q
    end_of (err y) = 0
cut_short bytes b more pos result shift v h (err (unexpected_eof n)) e =
    ap (λ k. err (unexpected_eof k)) (loop_eof bytes pos result shift n e)
cut_short bytes b more pos result shift v h (err invalid_data) e =
    cc (loop-append_overlong bytes (b ∷ more) pos result shift e)
cut_short bytes b more pos result shift v h (err other) e =
    absurd (loop-ne-other bytes pos result shift e)

-- If a buffer ends inside the encoding of a u64 (which would fit the buffer), `read_vint` at its start returns `UnexpectedEof`
-- with the length of the buffer.
pub read_vint_truncated :
    (buf front : List ℕ) (v b : ℕ) (more : List ℕ)
    → IsU64 v
    → IsBuffer (buf ++ write_vint [] v)
    → write_vint [] v ≡ front ++ (b ∷ more)
    → read_vint (buf ++ front) (length buf) ≡ err (unexpected_eof (length (buf ++ front)))
unfolding read_vint
read_vint_truncated buf front v b more h small e =
    rw (drop-length-append buf front, length-append buf front)
      (cut_short front b more (length buf) 0 0 v whole (read_vint_loop front (length buf) 0 0) refl)
  where
    whole :
        read_vint_loop (front ++ (b ∷ more)) (length buf) 0 0
        ≡ ok (v, length buf + length (front ++ (b ∷ more)))
    whole =
        rw (drop-length-append, append-nil, e) at ((Reads-vint v h).at buf [] (rw append-nil small))

-- A run of bytes that all ask for another one.
abbrev pub Continues : ℕ → Type 0
Continues b = (128 ≤ b) × (b < 256)

abbrev next_result : ℕ → ℕ → ℕ → ℕ
next_result result b shift = bit_or result (bit_and b 0x7f * 2 ^ shift % 2 ^ 64)

-- The number that a run of bytes stands for so far.
run_result : List ℕ → ℕ → ℕ → ℕ
run_result [] result shift = result
run_result (b ∷ bytes) result shift = run_result bytes (next_result result b shift) (shift + 7)

loop_run :
    (bytes rest : List ℕ) (pos result shift : ℕ)
    → All Continues bytes
    → shift + 7 * length bytes ≤ 63
    → read_vint_loop (bytes ++ rest) pos result shift
      ≡ read_vint_loop rest
          (pos + length bytes)
          (run_result bytes result shift)
          (shift + 7 * length bytes)
unfolding read_vint_loop run_result
loop_run [] rest pos result shift h few = ground arith
loop_run (b ∷ bytes) rest pos result shift h few =
    ground
      (arith, and_0x80 b, loop_run bytes rest (pos + 1) (next_result result b shift) (shift + 7))

-- The tenth byte keeps its lowest bit.
loop_tenth :
    (g pos result : ℕ)
    → g < 128
    → read_vint_loop (g ∷ []) pos result 63 ≡ ok (bit_or result (g % 2 * 2 ^ 63), pos + 1)
unfolding read_vint_loop
loop_tenth g pos result h = ground (arith, bit_and-mask 7 g, and_0x80 g)

run_tenth :
    (bytes : List ℕ) (g : ℕ)
    → All Continues bytes
    → length bytes ≡ 9
    → g < 128
    → read_vint_loop (bytes ++ (g ∷ [])) 0 0 0
      ≡ ok (bit_or (run_result bytes 0 0) (g % 2 * 2 ^ 63), 10)
run_tenth bytes g h nine small =
    loop_run bytes (g ∷ []) 0 0 0 h (omega arith)
    ∙ ap (λ (n : ℕ). read_vint_loop (g ∷ []) (0 + n) (run_result bytes 0 0) (0 + 7 * n)) nine
    ∙ loop_tenth g 9 (run_result bytes 0 0) small

-- After nine bytes that continue, a tenth byte below 128 is accepted whatever it holds, and only
-- its lowest bit counts: numbers of up to 70 bits are read modulo 2^64, with no error.
pub read_vint-mod_two :
    (bytes : List ℕ) (g : ℕ)
    → All Continues bytes
    → length bytes ≡ 9
    → g < 128
    → (v : ℕ) × (read_vint (bytes ++ (g ∷ [])) 0 ≡ ok (v, 10))
      × (read_vint (bytes ++ (g % 2 ∷ [])) 0 ≡ ok (v, 10))
unfolding read_vint
read_vint-mod_two bytes g h nine small = (
  bit_or (run_result bytes 0 0) (g % 2 * 2 ^ 63),
  run_tenth bytes g h nine small,
  run_tenth bytes (g % 2) h nine (omega arith)
      ∙ ap (λ (t : ℕ). ok (bit_or (run_result bytes 0 0) (t * 2 ^ 63), 10)) (omega arith),
)
