-- ===== src/Serialize.antt =====
-- sdsearch-core/src/serialize.rs: unsigned LEB128 numbers (`write_vint`, `read_vint`).
-- `>>= 7` and `<< shift` on a u64 are `/ 128` and `* 2 ^ shift % 2 ^ 64`.
pub mod Encoding
pub mod RoundTrip
pub mod Bounds
pub mod Malformed
use php_sdsearch.Prelude.{ℕ, zero, suc, ◌+◌, ◌*◌, ◌/◌, ◌%◌, ◌^◌, ◌<◌, bit_and, bit_or, arith, lt_wf}
use php_sdsearch.Prelude.{List, [], ◌∷◌, ◌++◌, leb, ◌==◌, if◌then◌else◌, drop}
use php_sdsearch.Io.{Reader, Result, ok, err, unexpected_eof, invalid_data}
use mathlib.Core.Logic.{dite}
use mathlib.Core.WellFounded.{Acc}
use native.Mathlib.Decide.{dec_lt}

abbrev pub IsByte : ℕ → Type 0
IsByte b = b < 256

abbrev pub IsU64 : ℕ → Type 0
IsU64 v = v < 2 ^ 64

pub fewer : (v : ℕ) → 0 < v / 128 → v / 128 < v
fewer v h = omega arith

-- One round of the loop for each byte; both tests of the shifted `v` are the one `dite`.
write_vint_loop : List ℕ → (v : ℕ) → Acc ◌<◌ v → List ℕ
write_vint_loop buf v (Acc.intro _ below) =
    let byte = bit_and v 0x7f % 256 in
    dite (dec_lt 0 (v / 128))
      (λ more.
        write_vint_loop (buf ++ (bit_or byte 0x80 ∷ [])) (v / 128) (below (v / 128) (fewer v more)))
      (λ _. buf ++ (byte ∷ []))

-- `write_vint(&mut buf, v)`
unfoldable pub write_vint : List ℕ → ℕ → List ℕ
unfolding write_vint_loop lt_wf dec_lt
write_vint buf v = write_vint_loop buf v (lt_wf.apply v)

-- The list is what `data` holds from `pos` on, so that its head is `data.get(*pos)`.
pub read_vint_loop : List ℕ → ℕ → ℕ → ℕ → Result (ℕ × ℕ)
read_vint_loop [] pos result shift = err (unexpected_eof pos)
read_vint_loop (byte ∷ rest) pos result shift =
    let result' = bit_or result (bit_and byte 0x7f * 2 ^ shift % 2 ^ 64) in
    let more = read_vint_loop rest (pos + 1) result' (shift + 7) in
    if leb 64 shift
    then err invalid_data
    else if bit_and byte 0x80 == 0
    then ok (result', pos + 1)
    else more

-- `read_vint(data, &mut pos)`
unfoldable pub read_vint : Reader ℕ
unfolding read_vint_loop
read_vint data' pos = read_vint_loop (drop pos data') pos 0 0
