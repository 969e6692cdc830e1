-- ===== src/Zsl/Bytes/Integers.antt =====
-- Big-endian integers: what is written is read back, and reading stays inside the buffer.
use php_sdsearch.Prelude.{ℕ, zero, suc, ◌+◌, ◌-◌, ◌^◌, ◌<◌, ◌≡◌, refl, ap, ◌∙◌, arith}
use php_sdsearch.Prelude.{List, [], ◌∷◌, ◌++◌, length, length-append, take, drop}
use php_sdsearch.Prelude.{
  drop-length-append, take-length-append, append_assoc, get_elem?, Option, some, none,
}
use php_sdsearch.Prelude.{get_elem?-append_length}
use php_sdsearch.Serialize.{IsU64}
use php_sdsearch.Io.Advances.{Advances, Within, advances_rules}
use php_sdsearch.Io.{ok, err, IsBuffer, unexpected_eof}
use php_sdsearch.Io.Reads.{Reads, Reads-map}
use php_sdsearch.Zsl.Bytes.{be_bytes, from_be_bytes, write_u32_be, write_i64_be}
use php_sdsearch.Zsl.Bytes.{read_slice, read_u32_be, read_u64_be, read_byte}

abbrev pub IsU32 : ℕ → Type 0
IsU32 v = v < 2 ^ 32

pub length-be_bytes : (n v : ℕ) → length (be_bytes n v) ≡ n
unfolding be_bytes
length-be_bytes zero v = refl
length-be_bytes (suc n) v = ap suc (length-be_bytes n v)

from_be_bytes-be_bytes_four : (v : ℕ) → v < 2 ^ 32 → from_be_bytes 0 (be_bytes 4 v) ≡ v
unfolding from_be_bytes be_bytes
from_be_bytes-be_bytes_four v h = omega arith

from_be_bytes-be_bytes_eight : (v : ℕ) → v < 2 ^ 64 → from_be_bytes 0 (be_bytes 8 v) ≡ v
unfolding from_be_bytes be_bytes
from_be_bytes-be_bytes_eight v h = omega arith

Reads-slice_at :
    (n : ℕ) (bytes front back : List ℕ)
    → length bytes ≡ n
    → IsBuffer (front ++ (bytes ++ back))
    → read_slice n (front ++ (bytes ++ back)) (length front)
      ≡ ok (bytes, length front + length bytes)
unfolding read_slice
Reads-slice_at n bytes front back e fits = ground (
  arith,
  length-append front (bytes ++ back),
  length-append bytes back,
  ap (λ (k : ℕ). take k (drop (length front) (front ++ (bytes ++ back)))) gap,
  ap (λ xs. take (length bytes) xs) (drop-length-append front (bytes ++ back)),
  take-length-append bytes back,
)
  where
    gap : length front + n - length front ≡ length bytes
    gap = omega (arith, e)

pub Reads-read_slice :
    (n : ℕ) (bytes : List ℕ) → length bytes ≡ n → Reads (read_slice n) bytes bytes
Reads-read_slice n bytes e = record {
  at = λ front back fits. Reads-slice_at n bytes front back e fits;
}

-- A `u32` and a `u64` are read from the bytes that `to_be_bytes` gives.
pub Reads-u32 : (v : ℕ) → IsU32 v → Reads read_u32_be (be_bytes 4 v) v
unfolding read_u32_be
Reads-u32 v h =
    Reads-map (read_slice 4) (from_be_bytes 0) (be_bytes 4 v) (be_bytes 4 v) v
      (Reads-read_slice 4 (be_bytes 4 v) (length-be_bytes 4 v)) (from_be_bytes-be_bytes_four v h)

pub Reads-u64 : (v : ℕ) → IsU64 v → Reads read_u64_be (be_bytes 8 v) v
unfolding read_u64_be
Reads-u64 v h =
    Reads-map (read_slice 8) (from_be_bytes 0) (be_bytes 8 v) (be_bytes 8 v) v
      (Reads-read_slice 8 (be_bytes 8 v) (length-be_bytes 8 v)) (from_be_bytes-be_bytes_eight v h)

pub read_byte-some :
    (data' : List ℕ) (pos b : ℕ)
    → get_elem? data' pos ≡ some b
    → read_byte data' pos ≡ ok (b, pos + 1)
unfolding read_byte
read_byte-some data' pos b h = ground arith

pub read_byte-none :
    (data' : List ℕ) (pos : ℕ)
    → get_elem? data' pos ≡ none
    → read_byte data' pos ≡ err (unexpected_eof pos)
unfolding read_byte
read_byte-none data' pos h = ground arith

pub Reads-byte : (b : ℕ) → Reads read_byte (b ∷ []) b
Reads-byte b = record {
  at = λ front back fits.
      read_byte-some (front ++ (b ∷ back)) (length front) b (get_elem?-append_length front b back);
}

pub get_elem?-some {ℓ} :
    {A : Type ℓ} (xs : List A) (i : ℕ) (x : A) → get_elem? xs i ≡ some x → i < length xs
get_elem?-some [] i x h = cc
get_elem?-some (y ∷ xs) zero x h = omega arith
get_elem?-some (y ∷ xs) (suc i) x h = omega (arith, get_elem?-some xs i x h)

pub Advances-byte : Advances read_byte
Advances-byte = record { at = λ data' pos h. go data' pos (get_elem? data' pos) refl }
  where
    go :
        (data' : List ℕ) (pos : ℕ)
        → (x : Option ℕ) → get_elem? data' pos ≡ x
        → Within pos data' (read_byte data' pos)
    go data' pos none e = rw (read_byte-none data' pos e) tt
    go data' pos (some b) e =
        rw (read_byte-some data' pos b e) (omega (arith, get_elem?-some data' pos b e))

Advances-slice : (n : ℕ) → Advances (read_slice n)
unfolding read_slice
Advances-slice n = record { at = λ data' pos h. ground arith }

pub Advances-u32 : Advances read_u32_be
unfolding read_u32_be
Advances-u32 = search (advances_rules, Advances-slice)

pub Advances-u64 : Advances read_u64_be
unfolding read_u64_be
Advances-u64 = search (advances_rules, Advances-slice)

-- A `u32` and a `u64` written at the end of any buffer are read back at the old end, and the
-- reader moves by four and by eight bytes, whatever is written later; all of it together is less
-- than 2^63 bytes.
pub read_be-write_be :
    (buf back : List ℕ) (v w : ℕ)
    → IsU32 v
    → IsU64 w
    → IsBuffer (write_u32_be buf v ++ back)
    → IsBuffer (write_i64_be buf w ++ back)
    → (read_u32_be (write_u32_be buf v ++ back) (length buf) ≡ ok (v, length buf + 4))
      × (read_u64_be (write_i64_be buf w ++ back) (length buf) ≡ ok (w, length buf + 8))
unfolding write_u32_be write_i64_be
read_be-write_be buf back v w hv hw fv fw = (
  rw (append_assoc buf (be_bytes 4 v) back) (
      (Reads-u32 v hv).at buf back (rw (append_assoc buf (be_bytes 4 v) back) at fv)
      ∙ ap (λ n. ok (v, length buf + n)) (length-be_bytes 4 v)),
  rw (append_assoc buf (be_bytes 8 w) back) (
      (Reads-u64 w hw).at buf back (rw (append_assoc buf (be_bytes 8 w) back) at fw)
      ∙ ap (λ n. ok (w, length buf + n)) (length-be_bytes 8 w)),
)
