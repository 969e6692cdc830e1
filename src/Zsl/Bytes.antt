-- ===== src/Zsl/Bytes.antt =====
-- sdsearch-core/src/zsl/bytes.rs: big-endian integers and strings in modified UTF-8. An `i32` or
-- `i64` is its bit pattern, so -1 is 2^32 - 1 or 2^64 - 1. A string is the list of its code points.
pub mod Integers
pub mod Chars
pub mod Strings
pub mod Skip
use php_sdsearch.Prelude.{ℕ, zero, suc, ◌+◌, ◌-◌, ◌*◌, ◌/◌, ◌%◌, ◌^◌, ◌<◌, min, bit_and, bit_or}
use php_sdsearch.Prelude.{List, [], ◌∷◌, ◌++◌, length, get_elem?, take, drop, Bool, true, false}
use php_sdsearch.Prelude.{Option, none, some, ltb, leb, ◌==◌, if◌then◌else◌, ◌⊎◌}
use php_sdsearch.Io.{Error, Reader, Result, ok, err, unexpected_eof, pure, ◌>>=◌, repeat}
use php_sdsearch.Serialize.{write_vint, read_vint}

-- `v.to_be_bytes()`, of 4 or 8 bytes.
unfoldable pub be_bytes : ℕ → ℕ → List ℕ
be_bytes zero v = []
be_bytes (suc n) v = (v / 256 ^ n % 256) ∷ be_bytes n v

unfoldable pub from_be_bytes : ℕ → List ℕ → ℕ
from_be_bytes acc [] = acc
from_be_bytes acc (b ∷ bytes) = from_be_bytes (acc * 256 + b) bytes

unfoldable pub write_u32_be : List ℕ → ℕ → List ℕ
write_u32_be buf v = buf ++ be_bytes 4 v

unfoldable pub write_i32_be : List ℕ → ℕ → List ℕ
write_i32_be buf v = write_u32_be buf v

unfoldable pub write_i64_be : List ℕ → ℕ → List ℕ
write_i64_be buf v = buf ++ be_bytes 8 v

-- `pos.checked_add(n)` on a usize.
abbrev pub checked_add : ℕ → ℕ → Option ℕ
checked_add pos n = if ltb (pos + n) (2 ^ 64) then some (pos + n) else none

-- `data.get(start..end)`
unfoldable pub get_range : List ℕ → ℕ → ℕ → Option (List ℕ)
get_range data' start end =
    if leb start end
    then (if leb end (length data') then some (take (end - start) (drop start data')) else none)
    else none

-- A slice of `n` bytes at `pos`; both `checked_add` and `get` fail with `truncated(pos)`.
unfoldable pub read_slice : ℕ → Reader (List ℕ)
unfolding get_range
read_slice n data' pos = elim (checked_add pos n) [
  | none ↦ err (unexpected_eof pos)
  | some end ↦ elim (get_range data' pos end) [
    | none ↦ err (unexpected_eof pos)
    | some bytes ↦ ok (bytes, end)
  ]
]

unfoldable pub read_u32_be : Reader ℕ
read_u32_be = do b ← read_slice 4; pure (from_be_bytes 0 b)

unfoldable pub read_i32_be : Reader ℕ
read_i32_be = read_u32_be

unfoldable pub read_u64_be : Reader ℕ
read_u64_be = do b ← read_slice 8; pure (from_be_bytes 0 b)

unfoldable pub read_byte : Reader ℕ
read_byte data' pos = elim (get_elem? data' pos) [
  | none ↦ err (unexpected_eof pos)
  | some b ↦ ok (b, pos + 1)
]

unfoldable pub checked_capacity : ℕ → ℕ → ℕ
checked_capacity count remaining = min count remaining

-- `char`: a code point that is no surrogate.
abbrev pub IsChar : ℕ → Type 0
IsChar c = (c < 0xd800) ⊎ ((0xdfff < c) × (c < 0x110000))

-- `char::encode_utf8`
unfoldable pub encode_utf8 : ℕ → List ℕ
encode_utf8 c =
    if ltb c 0x80
    then c ∷ []
    else if ltb c 0x800
    then (c / 64 + 0xc0) ∷ (c % 64 + 0x80) ∷ []
    else if ltb c 0x10000
    then (c / 4096 + 0xe0) ∷ (c / 64 % 64 + 0x80) ∷ (c % 64 + 0x80) ∷ []
    else (c / 262144 + 0xf0) ∷ (c / 4096 % 64 + 0x80) ∷ (c / 64 % 64 + 0x80) ∷ (c % 64 + 0x80) ∷ []

-- One round of the writer's loop: NUL is written as C0 80.
unfoldable pub write_char : List ℕ → ℕ → List ℕ
write_char buf c = if c == 0 then buf ++ (0xc0 ∷ 0x80 ∷ []) else buf ++ encode_utf8 c

unfoldable pub write_chars : List ℕ → List ℕ → List ℕ
write_chars buf [] = buf
write_chars buf (c ∷ s) = write_chars (write_char buf c) s

unfoldable pub write_modified_utf8 : List ℕ → List ℕ → List ℕ
write_modified_utf8 buf s = write_chars (write_vint buf (length s)) s

-- `char::from_u32(cp).unwrap_or('\u{FFFD}')`
unfoldable pub char_or_replacement : ℕ → ℕ
char_or_replacement cp =
    if ltb cp 0xd800
    then cp
    else if ltb cp 0xe000
    then 0xfffd
    else if ltb cp 0x110000
    then cp
    else 0xfffd

abbrev two_bytes : ℕ → ℕ → ℕ
two_bytes b0 b1 = char_or_replacement (bit_or (bit_and b0 0x1f * 2 ^ 6) (bit_and b1 0x3f))

abbrev three_bytes : ℕ → ℕ → ℕ → ℕ
three_bytes b0 b1 b2 =
    char_or_replacement
      (bit_or (bit_or (bit_and b0 0x0f * 2 ^ 12) (bit_and b1 0x3f * 2 ^ 6)) (bit_and b2 0x3f))

abbrev four_bytes : ℕ → ℕ → ℕ → ℕ → ℕ
four_bytes b0 b1 b2 b3 = char_or_replacement (
    bit_or
      (bit_or (bit_or (bit_and b0 0x07 * 2 ^ 18) (bit_and b1 0x3f * 2 ^ 12))
        (bit_and b2 0x3f * 2 ^ 6))
      (bit_and b3 0x3f))

-- What follows the lead byte `b0`.
unfoldable pub read_char_after : ℕ → Reader ℕ
read_char_after b0 =
    if bit_and b0 0x80 == 0
    then pure b0
    else if bit_and b0 0xe0 == 0xc0
    then (do b1 ← read_byte; pure (two_bytes b0 b1))
    else if bit_and b0 0xf0 == 0xe0
    then (do b1 ← read_byte; b2 ← read_byte; pure (three_bytes b0 b1 b2))
    else (do b1 ← read_byte; b2 ← read_byte; b3 ← read_byte; pure (four_bytes b0 b1 b2 b3))

unfoldable pub read_char : Reader ℕ
read_char = do b0 ← read_byte; read_char_after b0

unfoldable pub read_modified_utf8 : Reader (List ℕ)
read_modified_utf8 = do char_count ← read_vint; repeat char_count read_char

-- The number of bytes behind the lead byte `b0`, as `skip_modified_utf8` counts them.
unfoldable pub continuation : ℕ → ℕ
continuation b0 =
    if bit_and b0 0x80 == 0
    then 0
    else if bit_and b0 0xe0 == 0xc0
    then 1
    else if bit_and b0 0xf0 == 0xe0
    then 2
    else 3

unfoldable pub skip_bytes : ℕ → Reader (Unit {0})
skip_bytes zero = pure tt
skip_bytes (suc n) = do _b ← read_byte; skip_bytes n

-- One round of its loop.
unfoldable pub skip_char : Reader (Unit {0})
skip_char = do b0 ← read_byte; skip_bytes (continuation b0)

unfoldable pub skip_chars : ℕ → Reader (Unit {0})
skip_chars zero = pure tt
skip_chars (suc count) = do _u ← skip_char; skip_chars count

unfoldable pub skip_modified_utf8 : Reader (Unit {0})
skip_modified_utf8 = do char_count ← read_vint; skip_chars char_count
