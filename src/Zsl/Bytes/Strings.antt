-- ===== src/Zsl/Bytes/Strings.antt =====
-- Strings in modified UTF-8: what is written is read back; what is read from any bytes is a string
-- of characters, inside the buffer, for which the reserved capacity is enough.
use php_sdsearch.Prelude.{ℕ, ◌^◌, ◌<◌, ◌≡◌, sym, ap, ◌∙◌, arith}
use php_sdsearch.Prelude.{
  List, [], ◌∷◌, ◌++◌, length, length-append, append_assoc, append-nil, All, All-imp,
}
use mathlib.Core.List.{map-id}
use mathlib.Core.Path.{subst}
use php_sdsearch.Io.{ok, IsBuffer, repeat}
use php_sdsearch.Io.Reads.{Reads, Reads-bind, Reads-repeat, concat_map}
use php_sdsearch.Io.Advances.{Advances, advances_rules}
use php_sdsearch.Serialize.{write_vint, read_vint}
use php_sdsearch.Serialize.RoundTrip.{Reads-vint, write_vint-append}
use php_sdsearch.Serialize.Bounds.{Advances-read_vint}
use php_sdsearch.Zsl.Bytes.{IsChar, write_chars, write_modified_utf8, read_char_after, read_char}
use php_sdsearch.Zsl.Bytes.{read_modified_utf8}
use php_sdsearch.Zsl.Bytes.Chars.{char_bytes, Reads-char, write_char-append}
use php_sdsearch.Zsl.Bytes.Integers.{Advances-byte}

-- A string holds characters, fewer than 2^63 of them.
abbrev pub IsString : List ℕ → Type 0
IsString s = All IsChar s × (length s < 2 ^ 63)

write_chars-append : (buf s : List ℕ) → write_chars buf s ≡ buf ++ concat_map char_bytes s
unfolding write_chars
write_chars-append buf [] = sym (append-nil buf)
write_chars-append buf (c ∷ s) =
    ap (λ b. write_chars b s) (write_char-append buf c)
    ∙ write_chars-append (buf ++ char_bytes c) s
    ∙ append_assoc buf (char_bytes c) (concat_map char_bytes s)

-- The bytes of a string: the number of its characters, then the characters.
string_bytes :
    (s : List ℕ) → write_modified_utf8 [] s ≡ write_vint [] (length s) ++ concat_map char_bytes s
unfolding write_modified_utf8
string_bytes s = write_chars-append (write_vint [] (length s)) s

-- `write_modified_utf8` appends.
pub write_modified_utf8-append :
    (buf s : List ℕ)
    → length s < 2 ^ 63
    → write_modified_utf8 buf s ≡ buf ++ write_modified_utf8 [] s
write_modified_utf8-append buf s h = rw (string_bytes s) (
    unfold write_modified_utf8 in
    write_chars-append (write_vint buf (length s)) s
    ∙ ap (λ b. b ++ concat_map char_bytes s) (write_vint-append buf (length s) (omega arith))
    ∙ append_assoc buf (write_vint [] (length s)) (concat_map char_bytes s))

-- `read_modified_utf8` reads the string that `write_modified_utf8` left, wherever it stands.
pub Reads-string : (s : List ℕ) → IsString s → Reads read_modified_utf8 (write_modified_utf8 [] s) s
unfolding read_modified_utf8
Reads-string s (chars, short) = rw (string_bytes s) (
    Reads-bind read_vint _ (write_vint [] (length s)) (concat_map char_bytes s) (length s) s
      (Reads-vint (length s) (omega arith))
      (subst (λ t. Reads (repeat (length s) read_char) (concat_map char_bytes s) t) (map-id s)
        (Reads-repeat read_char char_bytes (λ c. c) s (All-imp IsChar _ Reads-char s chars))))

-- Writing a string (of Unicode scalar values, fewer than 2^63) at the end of any buffer and
-- reading at the old end gives the string back, and moves to the new end, whatever is written
-- later; all of it together is less than 2^63 bytes.
pub read_modified_utf8-write_modified_utf8 :
    (buf back s : List ℕ)
    → IsString s
    → IsBuffer (write_modified_utf8 buf s ++ back)
    → read_modified_utf8 (write_modified_utf8 buf s ++ back) (length buf)
      ≡ ok (s, length (write_modified_utf8 buf s))
read_modified_utf8-write_modified_utf8 buf back s h fits =
    rw (joined, append_assoc buf bytes back, length-append buf bytes)
      ((Reads-string s h).at buf back (rw (joined, append_assoc buf bytes back) at fits))
  where
    bytes : List ℕ
    bytes = write_modified_utf8 [] s

    joined : write_modified_utf8 buf s ≡ buf ++ bytes
    joined = write_modified_utf8-append buf s h.1

Advances-after : (b0 : ℕ) → Advances (read_char_after b0)
unfolding read_char_after
Advances-after b0 = search (advances_rules, Advances-byte) depth 9

pub Advances-string : Advances read_modified_utf8
unfolding read_modified_utf8 read_char
Advances-string = search (advances_rules, Advances-read_vint, Advances-byte, Advances-after)
