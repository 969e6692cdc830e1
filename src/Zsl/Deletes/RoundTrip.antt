-- ===== src/Zsl/Deletes/RoundTrip.antt =====
-- A document is deleted for the reader exactly if the writer was given it.
use php_sdsearch.Prelude.{
  ℕ, zero, suc, ◌+◌, ◌*◌, ◌/◌, ◌%◌, ◌^◌, ◌<◌, ◌≡◌, ◌≢◌, refl, ap, ◌∙◌, arith,
}
use php_sdsearch.Prelude.{
  List, [], ◌∷◌, ◌++◌, length, replicate, length-replicate, get_elem?, All, table,
}
use php_sdsearch.Prelude.{table_sound, zero-bit_and}
use php_sdsearch.Prelude.{Bool, true, false, not, ◌&&◌, ◌||◌, none, some, ltb, ◌==◌, if◌then◌else◌}
use php_sdsearch.Prelude.{bit_or, Bool-cases, inl, inr, to_u32}
use php_sdsearch.Io.{ok, IsBuffer, value, bind_ok}
use php_sdsearch.Io.Reads.{Reads}
use php_sdsearch.Zsl.Bytes.{be_bytes, read_i32_be, write_i32_be, write_u32_be}
use php_sdsearch.Zsl.Bytes.Integers.{IsU32, Reads-u32}
use php_sdsearch.Serialize.{IsByte}
use php_sdsearch.Zsl.Deletes.{DeletedDocs, sparse_marker, read_dense, read, has_bit, is_deleted}
use php_sdsearch.Zsl.Writer.Deletes.{or_at, mark_all, count_below, write_del_file}

-- On a byte, `|= 1 << k` sets bit `k` and leaves the others, and the result is a byte.
abbrev sets_bit : ℕ → ℕ → ℕ → Bool
sets_bit k j b =
    (if has_bit (bit_or b (2 ^ k)) j
      then (if k == j then true else has_bit b j)
      else not (if k == j then true else has_bit b j))
    && ltb (bit_or b (2 ^ k)) 256

bit_table : table 8 (λ k. table 8 (λ j. table 256 (sets_bit k j))) ≡ true
unfolding table has_bit
bit_table = refl

sets_bit-true : (b k j : ℕ) → k < 8 → j < 8 → IsByte b → sets_bit k j b ≡ true
sets_bit-true b k j hk hj hb =
    table_sound 256 (sets_bit k j) b
      (table_sound 8 (λ j'. table 256 (sets_bit k j')) j
        (table_sound 8 (λ k'. table 8 (λ j'. table 256 (sets_bit k' j'))) k bit_table hk) hj)
      hb

has_bit-bit_or :
    (b k j : ℕ)
    → k < 8
    → j < 8
    → IsByte b
    → (has_bit (bit_or b (2 ^ k)) j ≡ (if k == j then true else has_bit b j))
      × IsByte (bit_or b (2 ^ k))
has_bit-bit_or b k j hk hj hb = ground (arith, sets_bit-true b k j hk hj hb)

bit_at : List ℕ → ℕ → ℕ → Bool
bit_at bits k j = elim (get_elem? bits k) [ none ↦ false | some b ↦ has_bit b j ]

bit_at-or_at :
    (bits : List ℕ) (k m k' j : ℕ)
    → All IsByte bits
    → k < length bits
    → m < 8
    → j < 8
    → bit_at (or_at bits k (2 ^ m)) k' j ≡ (if k == k' && m == j then true else bit_at bits k' j)
unfolding bit_at or_at
bit_at-or_at [] k m k' j h hk hm hj = absurd (omega arith)
bit_at-or_at (b ∷ bits) zero m zero j h hk hm hj = (has_bit-bit_or b m j hm hj h.0).0
bit_at-or_at (b ∷ bits) zero m (suc k') j h hk hm hj = ground arith
bit_at-or_at (b ∷ bits) (suc k) m zero j h hk hm hj = ground arith
bit_at-or_at (b ∷ bits) (suc k) m (suc k') j h hk hm hj =
    ground (arith, bit_at-or_at bits k m k' j h.1 (omega arith) hm hj)

IsByte-or_at :
    (bits : List ℕ) (k m : ℕ) → All IsByte bits → m < 8 → All IsByte (or_at bits k (2 ^ m))
unfolding or_at
IsByte-or_at [] k m h hm = tt
IsByte-or_at (b ∷ bits) zero m h hm = ((has_bit-bit_or b m 0 hm (omega arith) h.0).1, h.1)
IsByte-or_at (b ∷ bits) (suc k) m h hm = (h.0, IsByte-or_at bits k m h.1 hm)

length-or_at : (bits : List ℕ) (k mask : ℕ) → length (or_at bits k mask) ≡ length bits
unfolding or_at
length-or_at [] k mask = refl
length-or_at (b ∷ bits) zero mask = refl
length-or_at (b ∷ bits) (suc k) mask = ap suc (length-or_at bits k mask)

-- Whether the set has a member.
unfoldable pub contains : List ℕ → ℕ → Bool
contains [] i = false
contains (x ∷ xs) i = x == i || contains xs i

same_place : (a b : ℕ) → (a / 8 == b / 8 && a % 8 == b % 8) ≡ (a == b)
same_place a b = ground arith

mark_all_lem :
    (n : ℕ) (bits deleted : List ℕ) (i : ℕ)
    → All IsByte bits
    → n < 8 * length bits
    → bit_at (mark_all n bits deleted) (i / 8) (i % 8)
      ≡ (bit_at bits (i / 8) (i % 8) || (ltb i n && contains deleted i))
unfolding mark_all contains
mark_all_lem n bits [] i h room = ground arith
mark_all_lem n bits (id ∷ deleted) i h room = elim (Bool-cases (ltb id n)) [
  | inl e ↦ rw e (
      mark_all_lem n (or_at bits (id / 8) (2 ^ (id % 8))) deleted i
        (IsByte-or_at bits (id / 8) (id % 8) h (omega arith))
        (ground (arith, length-or_at bits (id / 8) (2 ^ (id % 8))))
      ∙ ground (arith, bit_at-or_at bits (id / 8) (id % 8) (i / 8) (i % 8) h, same_place id i))
  | inr e ↦ rw e (mark_all_lem n bits deleted i h room ∙ ground arith)
]

bit_at-replicate : (n k j : ℕ) → bit_at (replicate n 0) k j ≡ false
unfolding bit_at has_bit
bit_at-replicate zero k j = refl
bit_at-replicate (suc n) zero j = ground (arith, zero-bit_and (2 ^ j))
bit_at-replicate (suc n) (suc k) j = bit_at-replicate n k j

IsByte-replicate : (n : ℕ) → All IsByte (replicate n 0)
IsByte-replicate zero = tt
IsByte-replicate (suc n) = (omega arith, IsByte-replicate n)

Reads-i32 : (v : ℕ) → IsU32 v → Reads read_i32_be (be_bytes 4 v) v
unfolding read_i32_be
Reads-i32 v h = Reads-u32 v h

module _ (doc_count : ℕ) (deleted : List ℕ) where
  del_bitmap : List ℕ
  del_bitmap = mark_all doc_count (replicate (doc_count / 8 + 1) 0) deleted

  count_bytes : List ℕ
  count_bytes = be_bytes 4 (to_u32 doc_count) ++ be_bytes 4 (to_u32 (count_below doc_count deleted))

  del_bytes : write_del_file doc_count deleted ≡ count_bytes ++ del_bitmap
  unfolding write_del_file write_i32_be write_u32_be count_bytes del_bitmap
  del_bytes = refl

  read_dense_at :
      to_u32 doc_count ≢ sparse_marker
      → IsBuffer (count_bytes ++ del_bitmap)
      → read_dense (to_u32 doc_count) (count_bytes ++ del_bitmap) 4
        ≡ ok (record { bits = del_bitmap }, 8)
  unfolding read_dense count_bytes be_bytes
  read_dense_at dense fits = rw (marker_false dense) (
      bind_ok read_i32_be _ _ 4 (to_u32 (count_below doc_count deleted)) 8 (
        (Reads-i32 (to_u32 (count_below doc_count deleted)) (omega arith)).at
          (be_bytes 4 (to_u32 doc_count)) del_bitmap fits))
    where
      marker_false : {v : ℕ} → v ≢ sparse_marker → (v == sparse_marker) ≡ false
      marker_false h = ground arith

  -- The reader keeps the bitmap that stands behind both counts.
  read_bits :
      to_u32 doc_count ≢ sparse_marker
      → IsBuffer (count_bytes ++ del_bitmap)
      → read (count_bytes ++ del_bitmap) ≡ ok (record { bits = del_bitmap })
  unfolding read count_bytes be_bytes
  read_bits dense fits = ap value (
      bind_ok read_i32_be read_dense _ 0 (to_u32 doc_count) 4
        ((Reads-i32 (to_u32 doc_count) (omega arith)).at [] _ fits)
      ∙ read_dense_at dense fits)

  bits_lem :
      (i : ℕ)
      → is_deleted (record { bits = del_bitmap }) i ≡ (ltb i doc_count && contains deleted i)
  unfolding is_deleted bit_at del_bitmap
  bits_lem i =
      mark_all_lem doc_count (replicate (doc_count / 8 + 1) 0) deleted i
        (IsByte-replicate (doc_count / 8 + 1))
        (omega (arith, length-replicate {0} {A = ℕ} (doc_count / 8 + 1) 0))
      ∙ ap (λ b. b || (ltb i doc_count && contains deleted i))
          (bit_at-replicate (doc_count / 8 + 1) (i / 8) (i % 8))

-- The reader of a `.del` file succeeds on what `write_del_file` wrote, and then a document is deleted
-- exactly if it is in the set that was given and below the document count. The count is not -1 as an
-- `i32` (the marker of the other layout), and the file fits a buffer.
pub is_deleted-write_del_file :
    (doc_count : ℕ) (deleted : List ℕ)
    → to_u32 doc_count ≢ sparse_marker
    → IsBuffer (write_del_file doc_count deleted)
    → (d : DeletedDocs) × (read (write_del_file doc_count deleted) ≡ ok d)
      × ((i : ℕ) → is_deleted d i ≡ (ltb i doc_count && contains deleted i))
is_deleted-write_del_file doc_count deleted dense fits = (
  record { bits = del_bitmap doc_count deleted },
  rw (del_bytes doc_count deleted)
      (read_bits doc_count deleted dense (rw (del_bytes doc_count deleted) at fits)),
  bits_lem doc_count deleted,
)
