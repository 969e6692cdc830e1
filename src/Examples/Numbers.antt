-- ===== src/Examples/Numbers.antt =====
-- serialize.rs and zsl/bytes.rs at concrete inputs.
use php_sdsearch.Prelude.{ℕ, ◌+◌, ◌≤◌, ◌<◌, ◌≡◌, refl, arith, List, [], ◌∷◌, ◌++◌, length, All}
use php_sdsearch.Io.{ok, err, unexpected_eof, invalid_data}
use php_sdsearch.Io.Moves.{outcome}
use php_sdsearch.Serialize.{IsByte, IsU64, write_vint, read_vint}
use php_sdsearch.Serialize.RoundTrip.{read_vint-write_vint}
use php_sdsearch.Serialize.Bounds.{read_vint_bounds}
use php_sdsearch.Serialize.Malformed.{read_vint_truncated, read_vint-mod_two}
use php_sdsearch.Serialize.Encoding.{write_vint_shape}
use php_sdsearch.Zsl.Bytes.{
  be_bytes, write_u32_be, read_u32_be, write_i64_be, read_u64_be, write_chars, write_char,
  encode_utf8, write_modified_utf8, read_modified_utf8, skip_modified_utf8,
}
use php_sdsearch.Zsl.Bytes.Strings.{read_modified_utf8-write_modified_utf8}
use php_sdsearch.Zsl.Bytes.Integers.{read_be-write_be}
use php_sdsearch.Zsl.Bytes.Skip.{skip_modified_utf8-read_modified_utf8}

-- 300 takes two bytes.
write_vint_300 : write_vint [] 300 ≡ 172 ∷ 2 ∷ []
unfolding write_vint
write_vint_300 = refl

-- Ten bytes that all continue.
read_vint_overlong :
    read_vint (255 ∷ 255 ∷ 255 ∷ 255 ∷ 255 ∷ 255 ∷ 255 ∷ 255 ∷ 255 ∷ 255 ∷ 1 ∷ []) 0
    ≡ err invalid_data
unfolding read_vint
read_vint_overlong = refl

-- 300 behind one byte and in front of another.
read_vint-write_vint_example :
    read_vint (write_vint (7 ∷ []) 300 ++ (9 ∷ [])) 1 ≡ ok (300, length (write_vint (7 ∷ []) 300))
unfolding write_vint
read_vint-write_vint_example =
    read_vint-write_vint (7 ∷ []) (9 ∷ []) 300 (omega arith) (omega arith)

read_vint_bounds_example :
    IsU64 300 × (1 < 3) × (3 ≤ 1 + 10) × (3 ≤ length {A = ℕ} (7 ∷ 172 ∷ 2 ∷ 9 ∷ []))
unfolding read_vint
read_vint_bounds_example = read_vint_bounds (7 ∷ 172 ∷ 2 ∷ 9 ∷ []) 1 300 3 (omega arith) refl

-- 300 without its second byte.
read_vint_truncated_example :
    read_vint ((7 ∷ []) ++ (172 ∷ [])) (length {A = ℕ} (7 ∷ []))
    ≡ err (unexpected_eof (length {A = ℕ} ((7 ∷ []) ++ (172 ∷ []))))
unfolding write_vint
read_vint_truncated_example =
    read_vint_truncated (7 ∷ []) (172 ∷ []) 300 2 [] (omega arith) (omega arith) refl

abbrev nine_bytes : List ℕ
nine_bytes = 129 ∷ 128 ∷ 128 ∷ 128 ∷ 128 ∷ 128 ∷ 128 ∷ 128 ∷ 128 ∷ []

-- 2 in the tenth byte is bit 64, which is dropped.
read_vint-mod_two_example :
    (v : ℕ) × (read_vint (nine_bytes ++ (2 ∷ [])) 0 ≡ ok (v, 10))
    × (read_vint (nine_bytes ++ (0 ∷ [])) 0 ≡ ok (v, 10))
read_vint-mod_two_example = read_vint-mod_two nine_bytes 2 (omega arith) refl (omega arith)

write_vint_shape_example :
    (bytes : List ℕ) × (write_vint (7 ∷ []) 300 ≡ (7 ∷ []) ++ bytes)
    × All IsByte bytes
    × (1 ≤ length bytes)
    × (length bytes ≤ 10)
write_vint_shape_example = write_vint_shape (7 ∷ []) 300 (omega arith)

-- U+0000, `é`, `€` and a musical clef: two, two, three and four bytes.
abbrev four_chars : List ℕ
four_chars = 0 ∷ 233 ∷ 8364 ∷ 119070 ∷ []

four_chars_bytes :
    write_modified_utf8 [] four_chars
    ≡ 4 ∷ 192 ∷ 128 ∷ 195 ∷ 169 ∷ 226 ∷ 130 ∷ 172 ∷ 240 ∷ 157 ∷ 132 ∷ 158 ∷ []
unfolding write_modified_utf8 write_chars write_char write_vint encode_utf8
four_chars_bytes = refl

read_modified_utf8-write_modified_utf8_example :
    read_modified_utf8 (write_modified_utf8 (7 ∷ []) four_chars ++ (9 ∷ [])) 1
    ≡ ok (four_chars, length (write_modified_utf8 (7 ∷ []) four_chars))
unfolding write_modified_utf8 write_chars write_char write_vint encode_utf8
read_modified_utf8-write_modified_utf8_example =
    read_modified_utf8-write_modified_utf8 (7 ∷ []) (9 ∷ []) four_chars (omega arith) (omega arith)

-- A string that is cut inside its second character.
skip_modified_utf8-read_modified_utf8_example :
    outcome (skip_modified_utf8 (2 ∷ 65 ∷ 195 ∷ []) 0)
    ≡ outcome (read_modified_utf8 (2 ∷ 65 ∷ 195 ∷ []) 0)
skip_modified_utf8-read_modified_utf8_example =
    skip_modified_utf8-read_modified_utf8 (2 ∷ 65 ∷ 195 ∷ []) 0

read_be-write_be_example :
    (read_u32_be (write_u32_be (7 ∷ []) 70000 ++ (9 ∷ [])) 1 ≡ ok (70000, 5))
    × (read_u64_be (write_i64_be (7 ∷ []) 5000000000 ++ (9 ∷ [])) 1 ≡ ok (5000000000, 9))
unfolding write_u32_be write_i64_be be_bytes
read_be-write_be_example =
    read_be-write_be (7 ∷ []) (9 ∷ []) 70000 5000000000 (omega arith) (omega arith) (omega arith)
      (omega arith)
