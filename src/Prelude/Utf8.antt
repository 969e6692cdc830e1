-- ===== src/Prelude/Utf8.antt =====
-- `String::from_utf8_lossy` of the standard library: bytes to code points, with U+FFFD for each
-- maximal run that begins a character and does not end it.
use Prim.Native.Nat.{ℕ, ◌+◌, ◌*◌, ◌%◌, ◌-◌}
use mathlib.Core.Path.{◌≡◌, refl}
use mathlib.Core.Bool.{◌&&◌}
use mathlib.Core.List.{List, [], ◌∷◌, ◌++◌}
use php_sdsearch.Prelude.Tests.{ltb, leb, ◌==◌, if◌then◌else◌}

-- A character whose lead byte was read: the value so far, and how many bytes are missing, the next
-- of which lies between `lo` and `hi`.
pub data Pending : Type 0 where
  idle : Pending
  inside : ℕ → ℕ → ℕ → ℕ → Pending

lead : ℕ → List ℕ × Pending
lead b =
    if ltb b 0x80
    then (b ∷ [], idle)
    else if ltb b 0xc2
    then (0xfffd ∷ [], idle)
    else if ltb b 0xe0
    then ([], inside (b - 0xc0) 1 0x80 0xbf)
    else if ltb b 0xf0
    then (
      [],
      inside (b - 0xe0) 2 (if b == 0xe0 then 0xa0 else 0x80) (if b == 0xed then 0x9f else 0xbf),
    )
    else if ltb b 0xf5
    then (
      [],
      inside (b - 0xf0) 3 (if b == 0xf0 then 0x90 else 0x80) (if b == 0xf4 then 0x8f else 0xbf),
    )
    else (0xfffd ∷ [], idle)

abbrev emit : List ℕ → List ℕ × Pending → List ℕ × Pending
emit out (xs, p) = (out ++ xs, p)

next_byte : Pending → ℕ → List ℕ × Pending
next_byte idle b = lead b
next_byte (inside acc missing lo hi) b =
    if leb lo b && leb b hi
    then (if missing == 1
        then ((acc * 64 + b % 64) ∷ [], idle)
        else ([], inside (acc * 64 + b % 64) (missing - 1) 0x80 0xbf))
    else emit (0xfffd ∷ []) (lead b)

lossy_from : Pending → List ℕ → List ℕ
lossy_from idle [] = []
lossy_from (inside acc missing lo hi) [] = 0xfffd ∷ []
lossy_from p (b ∷ bytes) = let (xs, q) = next_byte p b in xs ++ lossy_from q bytes

unfoldable pub from_utf8_lossy : List ℕ → List ℕ
unfolding lossy_from next_byte lead
from_utf8_lossy bytes = lossy_from idle bytes

lossy_test :
    from_utf8_lossy (0x61 ∷ 0xe2 ∷ 0x82 ∷ 0xac ∷ 0xf0 ∷ 0x9f ∷ 0x62 ∷ 0xff ∷ 0xc3 ∷ [])
    ≡ 0x61 ∷ 0x20ac ∷ 0xfffd ∷ 0x62 ∷ 0xfffd ∷ 0xfffd ∷ []
unfolding from_utf8_lossy
lossy_test = refl
