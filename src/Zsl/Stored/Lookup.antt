-- ===== src/Zsl/Stored/Lookup.antt =====
-- `read_stored_field`, which steps over the other fields, against `read_stored_raw`, which reads
-- them all.
use php_sdsearch.Prelude.{ℕ, zero, suc, ◌≡◌, refl, sym, ap, ◌∙◌, List, [], ◌∷◌, Bool, true, false}
use php_sdsearch.Prelude.{Option, none, some, inl, inr, Bool-cases, ◌==◌, if◌then◌else◌}
use php_sdsearch.Prelude.Utf8.{from_utf8_lossy}
use php_sdsearch.Io.{Reader, Result, ok, err, pure, ◌>>=◌, bind_ok, bind-eq-ok, repeat, value}
use php_sdsearch.Io.Moves.{Moves, Moves-pure, Moves-step, outcome}
use php_sdsearch.Serialize.{read_vint}
use php_sdsearch.Zsl.Bytes.{read_byte, read_slice}
use php_sdsearch.Zsl.Bytes.Skip.{skip_modified_utf8-read_modified_utf8}
use php_sdsearch.Zsl.Stored.{
  StoredRaw, binary_flag, stored_raw, read_binary, read_value, read_raw_field, find_block,
  read_block, read_stored_raw, skip_value, choose_field, find_field, find_in_block,
  read_stored_field, raw_from, field_from,
}

-- The value of the first entry of a field.
unfoldable pub first_value : ℕ → List StoredRaw → Option (List ℕ)
first_value field_num [] = none
first_value field_num (r ∷ rs) =
    if r.field_num == field_num then some r.value else first_value field_num rs

Moves-binary : Moves {0, 0} (do len ← read_vint; _b ← read_slice len; pure (tt {0})) read_binary
unfolding read_binary
Moves-binary =
    Moves-step read_vint _ _
      λ len. Moves-step (read_slice len) _ _ λ b. Moves-pure tt (from_utf8_lossy b)

Moves-value : (flags : ℕ) → Moves (skip_value flags) (read_value flags)
unfolding skip_value read_value
Moves-value flags = elim (Bool-cases (binary_flag flags)) [
  | inl e ↦ rw e Moves-binary
  | inr e ↦ rw e (record { at = skip_modified_utf8-read_modified_utf8 })
]

-- A skip ends where the read ends.
skipped :
    (x : Result (Unit {0} × ℕ)) (v : List ℕ) (pos : ℕ)
    → outcome x ≡ outcome (ok (v, pos))
    → x ≡ ok (tt, pos)
skipped (ok (u, p)) v pos h = cc h
skipped (err e) v pos h = absurd (cc h)

-- How an entry was read.
record RawField (fdt : List ℕ) (pos pos' : ℕ) (r : StoredRaw) : Type 0 where
  num : ℕ
  flags : ℕ
  text : List ℕ
  after_num : ℕ
  after_flags : ℕ
  num_read : read_vint fdt pos ≡ ok (num, after_num)
  flags_read : read_byte fdt after_num ≡ ok (flags, after_flags)
  text_read : read_value flags fdt after_flags ≡ ok (text, pos')
  same : r ≡ stored_raw num flags text

RawField-read :
    (fdt : List ℕ) (pos pos' : ℕ) (r : StoredRaw)
    → read_raw_field fdt pos ≡ ok (r, pos')
    → RawField fdt pos pos' r
unfolding read_raw_field
RawField-read fdt pos pos' r h =
    let (num, p1, e1, k1) = bind-eq-ok read_vint _ fdt pos (r, pos') h in
    let (flags, p2, e2, k2) = bind-eq-ok read_byte _ fdt p1 (r, pos') k1 in
    let (text, p3, e3, k3) = bind-eq-ok (read_value flags) _ fdt p2 (r, pos') k2 in
    record {
      num = num;
      flags = flags;
      text = text;
      after_num = p1;
      after_flags = p2;
      num_read = e1;
      flags_read = e2;
      text_read = e3 ∙ ap (λ p. ok (text, p)) (cc k3);
      same = cc k3;
    }

-- One entry: if it is the one wanted its value is returned, and otherwise the search goes on behind.
choose_field_lem :
    (field_num : ℕ) (rest : Reader (Option (List ℕ))) (fdt : List ℕ) (num flags pos pos' : ℕ)
    (v : List ℕ)
    → read_value flags fdt pos ≡ ok (v, pos')
    → value (choose_field field_num rest num flags fdt pos)
      ≡ (if num == field_num then ok (some v) else value (rest fdt pos'))
unfolding choose_field
choose_field_lem field_num rest fdt num flags pos pos' v h = elim (Bool-cases (num == field_num)) [
  | inl e ↦ rw e (ap value (bind_ok (read_value flags) _ fdt pos v pos' h))
  | inr e ↦ rw e (
      ap value (
        bind_ok (skip_value flags) (λ u. rest) fdt pos tt pos'
          (skipped (skip_value flags fdt pos) v pos'
            ((Moves-value flags).at fdt pos ∙ ap outcome h))))
]

find_field_to :
    (n field_num : ℕ) (fdt : List ℕ) (pos pos' : ℕ) (r : StoredRaw) (f : RawField fdt pos pos' r)
    → find_field (suc n) field_num fdt pos
      ≡ choose_field field_num (find_field n field_num) f.num f.flags fdt f.after_flags
unfolding find_field
find_field_to n field_num fdt pos pos' r f =
    bind_ok read_vint _ fdt pos f.num f.after_num f.num_read
    ∙ bind_ok read_byte _ fdt f.after_num f.flags f.after_flags f.flags_read

find_field_step :
    (n field_num : ℕ) (fdt : List ℕ) (pos pos' : ℕ) (r : StoredRaw)
    → read_raw_field fdt pos ≡ ok (r, pos')
    → value (find_field (suc n) field_num fdt pos) ≡ (
        if r.field_num == field_num
        then ok (some r.value)
        else value (find_field n field_num fdt pos'))
find_field_step n field_num fdt pos pos' r h =
    let f = RawField-read fdt pos pos' r h in
    ap value (find_field_to n field_num fdt pos pos' r f)
    ∙ choose_field_lem field_num (find_field n field_num) fdt f.num f.flags f.after_flags pos'
        f.text f.text_read
    ∙ ap
        (λ (x : StoredRaw).
          if x.field_num == field_num
          then ok (some x.value)
          else value (find_field n field_num fdt pos'))
        (sym f.same)

-- What follows the choice, as a choice of what follows.
ok_if :
    (b : Bool) (v : List ℕ) (o : Option (List ℕ))
    → (if b then ok (some v) else ok o) ≡ ok (if b then some v else o)
ok_if true v o = refl
ok_if false v o = refl

find_field_zero :
    (field_num : ℕ) (fdt : List ℕ) (pos : ℕ) → value (find_field 0 field_num fdt pos) ≡ ok none
unfolding find_field
find_field_zero field_num fdt pos = refl

find_field_lem :
    (n field_num : ℕ) (fdt : List ℕ) (pos pos' : ℕ) (rs : List StoredRaw)
    → repeat n read_raw_field fdt pos ≡ ok (rs, pos')
    → value (find_field n field_num fdt pos) ≡ ok (first_value field_num rs)
unfolding repeat first_value
find_field_lem zero field_num fdt pos pos' rs h =
    let none_left : [] ≡ rs = cc h in rw (← none_left) (find_field_zero field_num fdt pos)
find_field_lem (suc n) field_num fdt pos pos' rs h =
    let (r, p1, e1, k1) = bind-eq-ok read_raw_field _ fdt pos (rs, pos') h in
    let (rest, p2, e2, k2) = bind-eq-ok (repeat n read_raw_field) _ fdt p1 (rs, pos') k1 in
    let all : r ∷ rest ≡ rs = cc k2 in
    find_field_step n field_num fdt pos p1 r e1
    ∙ ap
        (λ (t : Result (Option (List ℕ))).
          if r.field_num == field_num then ok (some r.value) else t)
        (find_field_lem n field_num fdt p1 p2 rest e2)
    ∙ ok_if (r.field_num == field_num) r.value (first_value field_num rest)
    ∙ ap (λ (xs : List StoredRaw). ok (first_value field_num xs)) all

value-eq-ok {ℓ} :
    {A : Type ℓ} (x : Result (A × ℕ)) (a : A) → value x ≡ ok a → (pos : ℕ) × (x ≡ ok (a, pos))
value-eq-ok (ok (b, pos)) a h = (pos, ap (λ t. ok (t, pos)) (cc h))
value-eq-ok (err e) a h = absurd (cc h)

find_in_block_lem :
    (field_num : ℕ) (fdt : List ℕ) (pos pos' : ℕ) (rs : List StoredRaw)
    → read_block fdt pos ≡ ok (rs, pos')
    → value (find_in_block field_num fdt pos) ≡ ok (first_value field_num rs)
unfolding read_block find_in_block
find_in_block_lem field_num fdt pos pos' rs h =
    let (count, p1, e1, k1) = bind-eq-ok read_vint _ fdt pos (rs, pos') h in
    ap value (bind_ok read_vint _ fdt pos count p1 e1)
    ∙ find_field_lem count field_num fdt p1 pos' rs k1

from_block :
    (field_num : ℕ) (fdt : List ℕ) (rs : List StoredRaw) (o : Option (Result ℕ))
    → raw_from fdt o ≡ ok rs
    → field_from fdt field_num o ≡ ok (first_value field_num rs)
unfolding first_value
from_block field_num fdt rs none h = let none_stored : [] ≡ rs = cc h in rw (← none_stored) refl
from_block field_num fdt rs (some (err e)) h = absurd (cc h)
from_block field_num fdt rs (some (ok off)) h =
    let (pos', e) = value-eq-ok (read_block fdt off) rs h in
    find_in_block_lem field_num fdt off pos' rs e

-- On any bytes: where all stored fields of a document can be read, `read_stored_field` returns the
-- value of the first entry with the field number that it is asked for, or `None` if there is none.
pub read_stored_field-read_stored_raw :
    (fdx fdt : List ℕ) (doc_id field_num : ℕ) (rs : List StoredRaw)
    → read_stored_raw fdx fdt doc_id ≡ ok rs
    → read_stored_field fdx fdt doc_id field_num ≡ ok (first_value field_num rs)
unfolding read_stored_raw read_stored_field
read_stored_field-read_stored_raw fdx fdt doc_id field_num rs h =
    from_block field_num fdt rs (find_block fdx doc_id) h
