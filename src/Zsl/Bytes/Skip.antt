-- ===== src/Zsl/Bytes/Skip.antt =====
-- `skip_modified_utf8` moves as `read_modified_utf8` does.
use php_sdsearch.Prelude.{ℕ, zero, suc, ◌≡◌, List, [], ◌∷◌, inl, inr, ◌==◌}
use php_sdsearch.Prelude.{Bool-cases, bit_and}
use php_sdsearch.Io.{repeat}
use php_sdsearch.Io.Moves.{Moves, Moves-pure, Moves-step, Moves-bind, Moves-map, outcome}
use php_sdsearch.Serialize.{read_vint}
use php_sdsearch.Zsl.Bytes.{read_byte, read_char_after, read_char, read_modified_utf8}
use php_sdsearch.Zsl.Bytes.{continuation, skip_bytes, skip_char, skip_chars, skip_modified_utf8}

-- The bytes behind a lead byte.
Moves-after : (b0 : ℕ) → Moves (skip_bytes (continuation b0)) (read_char_after b0)
unfolding continuation read_char_after skip_bytes
Moves-after b0 = elim (Bool-cases (bit_and b0 0x80 == 0)) [
  | inl one ↦ rw one (Moves-pure tt b0)
  | inr multi ↦ rw multi (elim (Bool-cases (bit_and b0 0xe0 == 0xc0)) [
    | inl two ↦ rw two (Moves-step read_byte _ _ λ b1. Moves-pure tt _)
    | inr longer ↦ rw longer (elim (Bool-cases (bit_and b0 0xf0 == 0xe0)) [
      | inl three ↦
          rw three (Moves-step read_byte _ _ λ b1. Moves-step read_byte _ _ λ b2. Moves-pure tt _)
      | inr four ↦ rw four (
          Moves-step read_byte _ _
            λ b1. Moves-step read_byte _ _ λ b2. Moves-step read_byte _ _ λ b3. Moves-pure tt _)
    ])
  ])
]

Moves-char : Moves skip_char read_char
unfolding skip_char read_char
Moves-char = Moves-step read_byte _ _ Moves-after

Moves-chars : (count : ℕ) → Moves (skip_chars count) (repeat count read_char)
unfolding skip_chars repeat
Moves-chars zero = Moves-pure tt []
Moves-chars (suc count) =
    Moves-bind skip_char read_char _ _ Moves-char
      λ u c. Moves-map (skip_chars count) (repeat count read_char) (λ s. c ∷ s) (Moves-chars count)

-- On every buffer and from every position, `skip_modified_utf8` and `read_modified_utf8` stop at
-- the same position, or fail with the same error.
pub skip_modified_utf8-read_modified_utf8 :
    (data' : List ℕ) (pos : ℕ)
    → outcome (skip_modified_utf8 data' pos) ≡ outcome (read_modified_utf8 data' pos)
unfolding skip_modified_utf8 read_modified_utf8
skip_modified_utf8-read_modified_utf8 = (Moves-step read_vint skip_chars _ Moves-chars).at
