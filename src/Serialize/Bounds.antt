-- ===== src/Serialize/Bounds.antt =====
-- `read_vint` on any bytes: what it returns is a u64, from 1 to 10 bytes inside the buffer.
use php_sdsearch.Prelude.{ℕ, ◌+◌, ◌*◌, ◌%◌, ◌^◌, ◌≤◌, ◌<◌, ◌≡◌, refl, ◌≢◌, arith, bit_and, bit_or}
use php_sdsearch.Prelude.{List, [], ◌∷◌, length, drop, length-drop, bit_and-mask, bit_or-shift}
use php_sdsearch.Io.{Result, ok, err}
use php_sdsearch.Io.Advances.{Advances, Within}
use php_sdsearch.Serialize.{IsU64, read_vint_loop, read_vint}
use php_sdsearch.Serialize.RoundTrip.{group_fits}
use native.Mathlib.Nat.{pow-le-pow_right}
use native.Mathlib.Decide.{dec_le}

-- The bytes that one run of the loop takes.
pub read_vint_loop_takes :
    (bytes : List ℕ) (pos result shift v pos' : ℕ)
    → read_vint_loop bytes pos result shift ≡ ok (v, pos')
    → (pos < pos') × (pos' ≤ pos + length bytes)
unfolding read_vint_loop
read_vint_loop_takes [] pos result shift v pos' h = ground arith
read_vint_loop_takes (byte ∷ rest) pos result shift v pos' h = ground (
  arith,
  read_vint_loop_takes rest (pos + 1) (bit_or result (bit_and byte 0x7f * 2 ^ shift % 2 ^ 64))
      (shift + 7) v pos',
)

-- Past 64 bits nothing is accepted.
read_vint_loop-ne-ok :
    (bytes : List ℕ) (pos result v pos' : ℕ) → read_vint_loop bytes pos result 70 ≢ ok (v, pos')
unfolding read_vint_loop
read_vint_loop-ne-ok [] pos result v pos' h = ground arith
read_vint_loop-ne-ok (byte ∷ rest) pos result v pos' h = ground arith

top_bit_only : (byte : ℕ) → byte % 128 * 2 ^ 63 % 2 ^ 64 ≡ byte % 2 * 2 ^ 63
top_bit_only byte = omega arith

-- The tenth byte: one bit of it is kept.
tenth :
    (bytes : List ℕ) (pos result v pos' : ℕ)
    → result < 2 ^ 63
    → read_vint_loop bytes pos result 63 ≡ ok (v, pos')
    → IsU64 v × (pos' ≤ pos + 1)
unfolding read_vint_loop
tenth [] pos result v pos' h e = ground arith
tenth (byte ∷ rest) pos result v pos' h e = ground (
  arith,
  bit_and-mask 7 byte,
  top_bit_only byte,
  bit_or-shift 63 result (byte % 2),
  read_vint_loop-ne-ok rest (pos + 1) (bit_or result (bit_and byte 0x7f * 2 ^ 63 % 2 ^ 64)) v pos',
)

read_vint_loop_fits :
    (bytes : List ℕ) (pos result shift j v pos' : ℕ)
    → shift ≡ 7 * j
    → j ≤ 9
    → result < 2 ^ shift
    → read_vint_loop bytes pos result shift ≡ ok (v, pos')
    → IsU64 v × (pos' + j ≤ pos + 10)
unfolding read_vint_loop
read_vint_loop_fits [] pos result shift j v pos' s few below e = ground arith
read_vint_loop_fits (byte ∷ rest) pos result shift j v pos' s few below e = elim (dec_le j 8) [
  | yes p ↦ ground (
    arith,
    bit_and-mask 7 byte,
    bit_or-shift shift result (byte % 128),
    group_fits (byte % 128) result shift,
    pow-le-pow_right {n = 2} (omega arith) {i = shift + 7} {j = 63} (omega arith),
    read_vint_loop_fits rest (pos + 1) (bit_or result (bit_and byte 0x7f * 2 ^ shift % 2 ^ 64))
        (shift + 7) (j + 1) v pos',
  )
  | no p ↦
      let at_63 : shift ≡ 63 = omega arith in
      omega (arith, tenth (byte ∷ rest) pos result v pos' (rw at_63 at below) (rw at_63 at e))
]

-- On any buffer, from any position in it, a `read_vint` that succeeds returns a u64, takes at least
-- one byte and at most ten, and does not pass the end of the buffer.
pub read_vint_bounds :
    (data' : List ℕ) (pos v pos' : ℕ)
    → pos ≤ length data'
    → read_vint data' pos ≡ ok (v, pos')
    → IsU64 v × (pos < pos') × (pos' ≤ pos + 10) × (pos' ≤ length data')
unfolding read_vint
read_vint_bounds data' pos v pos' h e = omega (
  arith,
  read_vint_loop_takes (drop pos data') pos 0 0 v pos' e,
  read_vint_loop_fits (drop pos data') pos 0 0 0 v pos' (omega arith) (omega arith) (omega arith) e,
  length-drop pos data',
)

pub Advances-read_vint : Advances read_vint
Advances-read_vint = record { at = λ data' pos h. go data' pos h (read_vint data' pos) refl }
  where
    go :
        (data' : List ℕ) (pos : ℕ)
        → pos ≤ length data'
        → (x : Result (ℕ × ℕ)) → read_vint data' pos ≡ x
        → Within pos data' x
    go data' pos h (ok (v, pos')) e = omega (arith, read_vint_bounds data' pos v pos' h e)
    go data' pos h (err x) e = tt
