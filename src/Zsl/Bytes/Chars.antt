-- ===== src/Zsl/Bytes/Chars.antt =====
-- One character: what `read_char` makes of the bytes of `write_char`.
use php_sdsearch.Prelude.{ℕ, ◌+◌, ◌*◌, ◌/◌, ◌%◌, ◌^◌, ◌≤◌, ◌<◌, ◌≡◌, ◌≢◌, refl, arith}
use php_sdsearch.Prelude.{List, [], ◌∷◌, ◌++◌, bit_and, bit_or, ◌==◌, if◌then◌else◌}
use php_sdsearch.Prelude.{bit_and-mask, bit_or_fields, and_0x80, and_0xe0, and_0xf0}
use php_sdsearch.Io.{pure, ◌>>=◌}
use php_sdsearch.Io.Reads.{Reads, Reads-pure, Reads-bind, Reads-map}
use php_sdsearch.Zsl.Bytes.{IsChar, encode_utf8, write_char, char_or_replacement}
use php_sdsearch.Zsl.Bytes.{
  read_byte, read_char_after, read_char, two_bytes, three_bytes, four_bytes,
}
use php_sdsearch.Zsl.Bytes.Integers.{Reads-byte}
use native.Mathlib.Decide.{dec_lt, ℕ_discrete}

-- The bytes of a character, as the writer leaves them.
unfoldable pub char_bytes : ℕ → List ℕ
char_bytes c = if c == 0 then 0xc0 ∷ 0x80 ∷ [] else encode_utf8 c

char_or_replacement_self : (c : ℕ) → IsChar c → char_or_replacement c ≡ c
unfolding char_or_replacement
char_or_replacement_self c h = ground arith

two_bytes_lem : (c : ℕ) → c < 0x800 → two_bytes (c / 64 + 0xc0) (c % 64 + 0x80) ≡ c
unfolding char_or_replacement
two_bytes_lem c h = ground (
  arith,
  bit_and-mask 5 (c / 64 + 0xc0),
  bit_and-mask 6 (c % 64 + 0x80),
  bit_or_fields 6 (c / 64) (c % 64),
)

three_bytes_lem :
    (c : ℕ)
    → c < 0x10000
    → IsChar c
    → three_bytes (c / 4096 + 0xe0) (c / 64 % 64 + 0x80) (c % 64 + 0x80) ≡ c
three_bytes_lem c h k = rw (joined, char_or_replacement_self c k)
  where
    joined :
        bit_or
          (bit_or
            (bit_and (c / 4096 + 0xe0) 0x0f * 2 ^ 12)
            (bit_and (c / 64 % 64 + 0x80) 0x3f * 2 ^ 6))
          (bit_and (c % 64 + 0x80) 0x3f)
        ≡ c
    joined = ground (
      arith,
      bit_and-mask 4 (c / 4096 + 0xe0),
      bit_and-mask 6 (c / 64 % 64 + 0x80),
      bit_and-mask 6 (c % 64 + 0x80),
      bit_or_fields 12 (c / 4096) (c / 64 % 64 * 2 ^ 6),
      bit_or_fields 6 (c / 64) (c % 64),
    )

four_bytes_lem :
    (c : ℕ)
    → c < 0x110000
    → IsChar c
    → four_bytes (c / 262144 + 0xf0) (c / 4096 % 64 + 0x80) (c / 64 % 64 + 0x80) (c % 64 + 0x80) ≡ c
four_bytes_lem c h k = rw (joined, char_or_replacement_self c k)
  where
    joined :
        bit_or
          (bit_or
            (bit_or
              (bit_and (c / 262144 + 0xf0) 0x07 * 2 ^ 18)
              (bit_and (c / 4096 % 64 + 0x80) 0x3f * 2 ^ 12))
            (bit_and (c / 64 % 64 + 0x80) 0x3f * 2 ^ 6))
          (bit_and (c % 64 + 0x80) 0x3f)
        ≡ c
    joined = ground (
      arith,
      bit_and-mask 3 (c / 262144 + 0xf0),
      bit_and-mask 6 (c / 4096 % 64 + 0x80),
      bit_and-mask 6 (c / 64 % 64 + 0x80),
      bit_and-mask 6 (c % 64 + 0x80),
      bit_or_fields 18 (c / 262144) (c / 4096 % 64 * 2 ^ 12),
      bit_or_fields 12 (c / 4096) (c / 64 % 64 * 2 ^ 6),
      bit_or_fields 6 (c / 64) (c % 64),
    )

-- Which branch the lead byte selects.
lead_one : (b : ℕ) → b < 128 → read_char_after b ≡ pure b
unfolding read_char_after
lead_one b h = ground (arith, and_0x80 b)

lead_two :
    (b : ℕ) → 192 ≤ b → b < 224 → read_char_after b ≡ (do b1 ← read_byte; pure (two_bytes b b1))
unfolding read_char_after
lead_two b lo hi = ground (arith, and_0x80 b, and_0xe0 b)

lead_three :
    (b : ℕ)
    → 224 ≤ b
    → b < 240
    → read_char_after b ≡ (do b1 ← read_byte; b2 ← read_byte; pure (three_bytes b b1 b2))
unfolding read_char_after
lead_three b lo hi = ground (arith, and_0x80 b, and_0xe0 b, and_0xf0 b)

lead_four :
    (b : ℕ)
    → 240 ≤ b
    → b < 256
    → read_char_after b
      ≡ (do b1 ← read_byte; b2 ← read_byte; b3 ← read_byte; pure (four_bytes b b1 b2 b3))
unfolding read_char_after
lead_four b lo hi = ground (arith, and_0x80 b, and_0xe0 b, and_0xf0 b)

Reads-lead :
    (b : ℕ) (bytes : List ℕ) (c : ℕ)
    → Reads (read_char_after b) bytes c
    → Reads read_char (b ∷ bytes) c
unfolding read_char
Reads-lead b bytes c h = Reads-bind read_byte read_char_after (b ∷ []) bytes b c (Reads-byte b) h

Reads-two : (b b1 c : ℕ) → 192 ≤ b → b < 224 → two_bytes b b1 ≡ c → Reads read_char (b ∷ b1 ∷ []) c
Reads-two b b1 c lo hi e =
    Reads-lead b (b1 ∷ []) c
      (rw (lead_two b lo hi) (Reads-map read_byte (two_bytes b) (b1 ∷ []) b1 c (Reads-byte b1) e))

Reads-three :
    (b b1 b2 c : ℕ)
    → 224 ≤ b
    → b < 240
    → three_bytes b b1 b2 ≡ c
    → Reads read_char (b ∷ b1 ∷ b2 ∷ []) c
Reads-three b b1 b2 c lo hi e = Reads-lead b (b1 ∷ b2 ∷ []) c (
    rw (lead_three b lo hi) (
      Reads-bind read_byte _ (b1 ∷ []) (b2 ∷ []) b1 c (Reads-byte b1)
        (Reads-map read_byte (three_bytes b b1) (b2 ∷ []) b2 c (Reads-byte b2) e)))

Reads-four :
    (b b1 b2 b3 c : ℕ)
    → 240 ≤ b
    → b < 256
    → four_bytes b b1 b2 b3 ≡ c
    → Reads read_char (b ∷ b1 ∷ b2 ∷ b3 ∷ []) c
Reads-four b b1 b2 b3 c lo hi e = Reads-lead b (b1 ∷ b2 ∷ b3 ∷ []) c (
    rw (lead_four b lo hi) (
      Reads-bind read_byte _ (b1 ∷ []) (b2 ∷ b3 ∷ []) b1 c (Reads-byte b1) (
        Reads-bind read_byte _ (b2 ∷ []) (b3 ∷ []) b2 c (Reads-byte b2)
          (Reads-map read_byte (four_bytes b b1 b2) (b3 ∷ []) b3 c (Reads-byte b3) e))))

char_bytes_zero : char_bytes 0 ≡ 0xc0 ∷ 0x80 ∷ []
unfolding char_bytes
char_bytes_zero = refl

nul_lem : two_bytes 0xc0 0x80 ≡ 0
unfolding char_or_replacement
nul_lem = refl

encode_two : (c : ℕ) → 0x80 ≤ c → c < 0x800 → char_bytes c ≡ (c / 64 + 0xc0) ∷ (c % 64 + 0x80) ∷ []
unfolding char_bytes encode_utf8
encode_two c lo hi = ground arith

encode_three :
    (c : ℕ)
    → 0x800 ≤ c
    → c < 0x10000
    → char_bytes c ≡ (c / 4096 + 0xe0) ∷ (c / 64 % 64 + 0x80) ∷ (c % 64 + 0x80) ∷ []
unfolding char_bytes encode_utf8
encode_three c lo hi = ground arith

encode_four :
    (c : ℕ)
    → 0x10000 ≤ c
    → char_bytes c
      ≡ (c / 262144 + 0xf0) ∷ (c / 4096 % 64 + 0x80) ∷ (c / 64 % 64 + 0x80) ∷ (c % 64 + 0x80) ∷ []
unfolding char_bytes encode_utf8
encode_four c lo = ground arith

encode_one : (c : ℕ) → c ≢ 0 → c < 0x80 → char_bytes c ≡ c ∷ []
unfolding char_bytes encode_utf8
encode_one c h hi = ground arith

char_lt : (c : ℕ) → IsChar c → c < 0x110000
char_lt c h = ground arith

-- Every character is read back from its bytes.
pub Reads-char : (c : ℕ) → IsChar c → Reads read_char (char_bytes c) c
Reads-char c h = elim (ℕ_discrete c 0) [
  | yes z ↦ rw (z, char_bytes_zero) (Reads-two 0xc0 0x80 0 (omega arith) (omega arith) nul_lem)
  | no nz ↦ elim (dec_lt c 0x80) [
    | yes p ↦ rw (encode_one c nz p) (Reads-lead c [] c (rw (lead_one c p) (Reads-pure c)))
    | no p ↦ elim (dec_lt c 0x800) [
      | yes q ↦
          rw (encode_two c (omega arith) q)
            (Reads-two _ _ c (omega arith) (omega arith) (two_bytes_lem c q))
      | no q ↦ elim (dec_lt c 0x10000) [
        | yes r ↦
            rw (encode_three c (omega arith) r)
              (Reads-three _ _ _ c (omega arith) (omega arith) (three_bytes_lem c r h))
        | no r ↦ rw (encode_four c (omega arith)) (
            Reads-four _ _ _ _ c (omega arith) (omega (arith, char_lt c h))
              (four_bytes_lem c (char_lt c h) h))
      ]
    ]
  ]
]

-- The writer appends the bytes of the character.
pub write_char-append : (buf : List ℕ) (c : ℕ) → write_char buf c ≡ buf ++ char_bytes c
unfolding write_char char_bytes
write_char-append buf c = ground arith
