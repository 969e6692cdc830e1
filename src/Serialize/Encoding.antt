-- ===== src/Serialize/Encoding.antt =====
-- What `write_vint` writes, described without its loop.
use php_sdsearch.Prelude.{
  ℕ, zero, suc, ◌+◌, ◌/◌, ◌%◌, ◌^◌, ◌≤◌, ◌<◌, ◌≡◌, arith, ltb, bit_and, bit_or,
}
use php_sdsearch.Prelude.{List, [], ◌∷◌, ◌++◌, length, All, append_assoc, if◌then◌else◌}
use php_sdsearch.Prelude.{bit_and-mask, or_0x80, lt_wf}
use php_sdsearch.Serialize.{IsByte, IsU64, write_vint_loop, write_vint}
use mathlib.Core.WellFounded.{Acc}

-- The base-128 digits of `v`, lowest first, with 128 added to all but the last; `k` is one less
-- than the number of digits allowed.
unfoldable pub vint : ℕ → ℕ → List ℕ
vint zero v = v ∷ []
vint (suc k) v = let rest = vint k (v / 128) in if ltb v 128 then v ∷ [] else (v % 128 + 128) ∷ rest

low_seven : (v : ℕ) → bit_and v 0x7f % 256 ≡ v % 128
low_seven v = omega (arith, bit_and-mask 7 v)

marked : (v : ℕ) → bit_or (bit_and v 0x7f % 256) 0x80 ≡ v % 128 + 128
marked v = rw (low_seven v) (or_0x80 (v % 128) (omega arith))

write_vint_loop-vint :
    (k : ℕ) (buf : List ℕ) (v : ℕ) (w : Acc ◌<◌ v)
    → v < 128 ^ suc k
    → write_vint_loop buf v w ≡ buf ++ vint k v
unfolding write_vint_loop vint
write_vint_loop-vint zero buf v (Acc.intro _ below) h = ground (arith, low_seven v)
write_vint_loop-vint (suc k) buf v (Acc.intro _ below) h = grind (
  arith,
  low_seven v,
  marked v,
  λ (w : Acc ◌<◌ (v / 128)).
      write_vint_loop-vint k (buf ++ ((v % 128 + 128) ∷ [])) (v / 128) w (omega arith),
  append_assoc buf ((v % 128 + 128) ∷ []) (vint k (v / 128)),
)

pub write_vint-vint : (buf : List ℕ) (v : ℕ) → IsU64 v → write_vint buf v ≡ buf ++ vint 9 v
unfolding write_vint
write_vint-vint buf v h = write_vint_loop-vint 9 buf v (lt_wf.apply v) (omega arith)

vint-IsByte : (k v : ℕ) → v < 128 ^ suc k → All IsByte (vint k v)
unfolding vint
vint-IsByte zero v h = omega arith
vint-IsByte (suc k) v h = ground (arith, vint-IsByte k (v / 128) (omega arith))

pub length-vint : (k v : ℕ) → (1 ≤ length (vint k v)) × (length (vint k v) ≤ k + 1)
unfolding vint
length-vint zero v = omega arith
length-vint (suc k) v = ground (arith, length-vint k (v / 128))

-- For a u64, `write_vint` keeps the buffer and puts 1 to 10 bytes behind it.
pub write_vint_shape :
    (buf : List ℕ) (v : ℕ)
    → IsU64 v
    → (bytes : List ℕ) × (write_vint buf v ≡ buf ++ bytes)
      × All IsByte bytes
      × (1 ≤ length bytes)
      × (length bytes ≤ 10)
write_vint_shape buf v h =
    let (lo, hi) = length-vint 9 v in
    (vint 9 v, write_vint-vint buf v h, vint-IsByte 9 v (omega arith), lo, hi)
