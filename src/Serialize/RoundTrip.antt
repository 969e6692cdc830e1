-- ===== src/Serialize/RoundTrip.antt =====
-- Reading back what `write_vint` wrote, and cut or overlong input.
use php_sdsearch.Prelude.{ℕ, zero, suc, ◌+◌, ◌*◌, ◌/◌, ◌%◌, ◌^◌, ◌≤◌, ◌<◌, ◌≡◌, ap, ◌∙◌, arith}
use php_sdsearch.Prelude.{List, [], ◌∷◌, ◌++◌, length, drop-length-append, length-append}
use php_sdsearch.Prelude.{bit_and-mask, bit_or-shift, and_0x80, append_assoc}
use php_sdsearch.Io.{ok, IsBuffer}
use php_sdsearch.Io.Reads.{Reads}
use php_sdsearch.Serialize.{IsU64, write_vint, read_vint_loop, read_vint}
use php_sdsearch.Serialize.Encoding.{vint, write_vint-vint}
use native.Mathlib.Nat.{div-add-mod'}
use native.Mathlib.Numerals.{towards_suc}

last_round :
    (byte result shift pos : ℕ) (rest : List ℕ)
    → byte < 128
    → shift ≤ 63
    → result < 2 ^ shift
    → IsU64 (result + byte * 2 ^ shift)
    → read_vint_loop (byte ∷ rest) pos result shift ≡ ok (result + byte * 2 ^ shift, pos + 1)
unfolding read_vint_loop
last_round byte result shift pos rest small early below fits =
    ground (arith, bit_and-mask 7 byte, and_0x80 byte, bit_or-shift shift result byte)

inner_round :
    (group result shift pos : ℕ) (rest : List ℕ)
    → group < 128
    → shift ≤ 63
    → result < 2 ^ shift
    → IsU64 (result + group * 2 ^ shift)
    → read_vint_loop ((group + 128) ∷ rest) pos result shift
      ≡ read_vint_loop rest (pos + 1) (result + group * 2 ^ shift) (shift + 7)
unfolding read_vint_loop
inner_round group result shift pos rest small early below fits =
    ground
      (arith, bit_and-mask 7 (group + 128), and_0x80 (group + 128), bit_or-shift shift result group)

pub pow-add_seven : (s : ℕ) → 2 ^ (s + 7) ≡ 128 * 2 ^ s
pow-add_seven s = simp towards_suc (omega arith)

-- The lowest digit and the others, both shifted.
lowest_digit : (v s : ℕ) → v * 2 ^ s ≡ v % 128 * 2 ^ s + v / 128 * 2 ^ (s + 7)
lowest_digit v s = omega (
  arith,
  ap (λ (t : ℕ). t * 2 ^ s) (div-add-mod' v 128),
  ap (λ (t : ℕ). v / 128 * t) (pow-add_seven s),
)

pub group_fits : (g r s : ℕ) → g < 128 → r < 2 ^ s → r + g * 2 ^ s < 2 ^ (s + 7)
group_fits g r s h k = grind (arith, pow-add_seven s)

-- `v` is what is left to be read, counted from bit `shift` on.
read_vint_loop-vint :
    (k v result shift pos : ℕ) (rest : List ℕ)
    → v < 128 ^ suc k
    → shift + 7 * k ≤ 63
    → result < 2 ^ shift
    → IsU64 (result + v * 2 ^ shift)
    → read_vint_loop (vint k v ++ rest) pos result shift
      ≡ ok (result + v * 2 ^ shift, pos + length (vint k v))
unfolding vint
read_vint_loop-vint zero v result shift pos rest h early below fits =
    last_round v result shift pos rest h (omega arith) below fits
read_vint_loop-vint (suc k) v result shift pos rest h early below fits = ground (
  arith,
  last_round v result shift pos rest,
  lowest_digit v shift,
  group_fits (v % 128) result shift,
  inner_round (v % 128) result shift pos (vint k (v / 128) ++ rest),
  read_vint_loop-vint k (v / 128) (result + v % 128 * 2 ^ shift) (shift + 7) (pos + 1) rest
      (omega arith),
)

read_vint-vint : (v : ℕ) → IsU64 v → Reads read_vint (vint 9 v) v
unfolding read_vint
read_vint-vint v h = record {
  at = λ front back _. rw (drop-length-append front (vint 9 v ++ back)) (
      read_vint_loop-vint 9 v 0 0 (length front) back (omega arith) (omega arith) (omega arith)
        (omega arith)
      ∙ ap (λ x. ok (x, length front + length (vint 9 v))) (omega arith));
}

-- `read_vint` reads the number that `write_vint` left, wherever it stands.
pub Reads-vint : (v : ℕ) → IsU64 v → Reads read_vint (write_vint [] v) v
Reads-vint v h = rw (write_vint-vint [] v h) (read_vint-vint v h)

-- `write_vint` appends.
pub write_vint-append : (buf : List ℕ) (v : ℕ) → IsU64 v → write_vint buf v ≡ buf ++ write_vint [] v
write_vint-append buf v h = rw (write_vint-vint buf v h, write_vint-vint [] v h)

-- Writing a u64 at the end of any buffer and reading at the old end gives the number back, and
-- moves to the new end, whatever is written later; all of it together is less than 2^63 bytes.
pub read_vint-write_vint :
    (buf back : List ℕ) (v : ℕ)
    → IsU64 v
    → IsBuffer (write_vint buf v ++ back)
    → read_vint (write_vint buf v ++ back) (length buf) ≡ ok (v, length (write_vint buf v))
read_vint-write_vint buf back v h fits =
    rw
      (
        write_vint-append buf v h,
        append_assoc buf (write_vint [] v) back,
        length-append buf (write_vint [] v),
      )
      ((Reads-vint v h).at buf back
        (rw (write_vint-append buf v h, append_assoc buf (write_vint [] v) back) at fits))
