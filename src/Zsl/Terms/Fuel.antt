-- ===== src/Zsl/Terms/Fuel.antt =====
-- The loop of `decode_all` ends on any bytes: the length of the file is fuel enough.
use php_sdsearch.Prelude.{
  ℕ, zero, suc, ◌+◌, ◌≤◌, ◌<◌, ◌≡◌, refl, sym, ap, arith, List, [], ◌∷◌, length,
}
use php_sdsearch.Prelude.{Bool-cases, inl, inr, ltb}
use php_sdsearch.Io.{Result, ok, err, bind-eq-ok}
use php_sdsearch.Io.Advances.{Advances, Within, advances_rules}
use php_sdsearch.Serialize.{read_vint}
use php_sdsearch.Serialize.Bounds.{read_vint_bounds, Advances-read_vint}
use php_sdsearch.Zsl.Bytes.Strings.{Advances-string}
use php_sdsearch.Zsl.Terms.{Entry, push_entry, decode_after, decode_entry, decode_from}

Advances-after :
    (prev : List ℕ) (fp pp : ℕ) (field_names : List (List ℕ)) (shared : ℕ)
    → Advances (decode_after prev fp pp field_names shared)
unfolding decode_after
Advances-after prev fp pp field_names shared =
    search (advances_rules, Advances-read_vint, Advances-string) depth 12

push_entry-push_entry :
    (x : Result (Entry × ℕ)) (f g : Entry → ℕ → List Entry)
    → ((e : Entry) (p : ℕ) → x ≡ ok (e, p) → f e p ≡ g e p)
    → push_entry x f ≡ push_entry x g
push_entry-push_entry (ok (e, p)) f g h = ap (λ es. e ∷ es) (h e p refl)
push_entry-push_entry (err x) f g h = refl

module _ (tis : List ℕ) (field_names : List (List ℕ)) where
  -- An entry takes at least one byte, and stays in the file.
  decode_entry_bounds :
      (pos : ℕ) (prev : List ℕ) (fp pp : ℕ) (e : Entry) (pos' : ℕ)
      → pos ≤ length tis
      → decode_entry prev fp pp field_names tis pos ≡ ok (e, pos')
      → (pos < pos') × (pos' ≤ length tis)
  unfolding decode_entry
  decode_entry_bounds pos prev fp pp e pos' inside h =
      let (shared, p1, e1, k1) =
        bind-eq-ok read_vint (decode_after prev fp pp field_names) tis pos (e, pos') h in
      let first = read_vint_bounds tis pos shared p1 inside e1 in
      let others : Within p1 tis (ok (e, pos')) =
        rw k1 at ((Advances-after prev fp pp field_names shared).at tis p1 (omega arith)) in
      omega arith

  pub decode_from_end :
      (n pos : ℕ) (prev : List ℕ) (fp pp : ℕ)
      → length tis ≤ pos
      → decode_from tis field_names n pos prev fp pp ≡ []
  unfolding decode_from
  decode_from_end zero pos prev fp pp h = refl
  decode_from_end (suc n) pos prev fp pp h = ground arith

  -- From any position on, every amount of fuel that is not less than the bytes left gives the same
  -- entries.
  pub decode_from_fuel :
      (n m pos : ℕ) (prev : List ℕ) (fp pp : ℕ)
      → length tis ≤ pos + n
      → length tis ≤ pos + m
      → decode_from tis field_names n pos prev fp pp ≡ decode_from tis field_names m pos prev fp pp
  unfolding decode_from
  decode_from_fuel zero m pos prev fp pp h k = sym (decode_from_end m pos prev fp pp (omega arith))
  decode_from_fuel (suc n) zero pos prev fp pp h k =
      decode_from_end (suc n) pos prev fp pp (omega arith)
  decode_from_fuel (suc n) (suc m) pos prev fp pp h k = elim (Bool-cases (ltb pos (length tis))) [
    | inl e ↦ rw e (
        push_entry-push_entry (decode_entry prev fp pp field_names tis pos) _ _ λ x p same.
          let inside : pos < length tis = ground arith in
          let (forward, _) = decode_entry_bounds pos prev fp pp x p (omega arith) same in
          decode_from_fuel n m p x.text x.info.freq_pointer x.info.prox_pointer (omega arith)
            (omega arith))
    | inr e ↦ rw e refl
  ]
