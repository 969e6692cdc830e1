-- ===== src/Io.antt =====
-- `std::io::Result`, and the readers: functions of a buffer `data: &[u8]` and of a position in it
-- (`pos: &mut usize`), which return the new position. `?` is the bind of `Reader`.
pub mod Reads
pub mod Advances
pub mod Moves
pub mod Writes
use php_sdsearch.Prelude.{ℕ, zero, suc, ◌^◌, ◌<◌, length, List, [], ◌∷◌, ◌≡◌, refl, ap}

-- The errors that the readers build; the first names an offset.
pub data Error : Type 0 where
  unexpected_eof : ℕ → Error
  invalid_data : Error
  other : Error

pub data Result {ℓ} (A : Type ℓ) : Type ℓ where
  ok : A → Result A
  err : Error → Result A

abbrev pub Reader {ℓ} : Type ℓ → Type ℓ
Reader A = List ℕ → ℕ → Result (A × ℕ)

abbrev pub pure {ℓ} : {A : Type ℓ} → A → Reader A
pure a data' pos = ok (a, pos)

abbrev pub fail {ℓ} : {A : Type ℓ} → Error → Reader A
fail e data' pos = err e

module _ {ℓ κ} {A : Type ℓ} {B : Type κ} where
  abbrev continue : Result (A × ℕ) → (A → Reader B) → List ℕ → Result (B × ℕ)
  continue (ok (a, pos)) f data' = f a data' pos
  continue (err e) f data' = err e

  infixl 5 ◌>>=◌
  unfoldable pub ◌>>=◌ : Reader A → (A → Reader B) → Reader B
  ◌>>=◌ r f data' pos = continue (r data' pos) f data'

  -- The bind at a first step that is known.
  pub bind_ok :
      (r : Reader A) (f : A → Reader B) (data' : List ℕ) (pos : ℕ) (a : A) (pos' : ℕ)
      → r data' pos ≡ ok (a, pos')
      → (r >>= f) data' pos ≡ f a data' pos'
  unfolding ◌>>=◌
  bind_ok r f data' pos a pos' h = ap (λ x. continue x f data') h

  pub bind_err :
      (r : Reader A) (f : A → Reader B) (data' : List ℕ) (pos : ℕ) (e : Error)
      → r data' pos ≡ err e
      → (r >>= f) data' pos ≡ err e
  unfolding ◌>>=◌
  bind_err r f data' pos e h = ap (λ x. continue x f data') h

-- What a bind that succeeds went through.
abbrev pub Through {ℓ κ} :
    {A : Type ℓ} {B : Type κ} → Reader A → (A → Reader B) → List ℕ → ℕ → B × ℕ → Type (ℓ ⊔ κ)
Through {A} r f data' pos x =
    (a : A) × (pos' : ℕ) × (r data' pos ≡ ok (a, pos')) × (f a data' pos' ≡ ok x)

pub bind-eq-ok {ℓ κ} :
    {A : Type ℓ} {B : Type κ} (r : Reader A) (f : A → Reader B) (data' : List ℕ) (pos : ℕ)
    (x : B × ℕ)
    → (r >>= f) data' pos ≡ ok x
    → Through r f data' pos x
unfolding ◌>>=◌
bind-eq-ok {A} {B} r f data' pos x h = go (r data' pos) refl h
  where
    go :
        (y : Result (A × ℕ)) → r data' pos ≡ y → continue y f data' ≡ ok x → Through r f data' pos x
    go (ok (a, pos')) e k = (a, pos', e, k)
    go (err e') e k = absurd (cc k)

-- A slice holds at most `isize::MAX` bytes.
abbrev pub IsBuffer : List ℕ → Type 0
IsBuffer data' = length data' < 2 ^ 63

-- `for _ in 0..count { out.push(item?) }`
unfoldable pub repeat {ℓ} : {A : Type ℓ} → ℕ → Reader A → Reader (List A)
repeat zero item = pure []
repeat (suc count) item = do x ← item; xs ← repeat count item; pure (x ∷ xs)

-- A reader run for its value.
abbrev pub value {ℓ} : {A : Type ℓ} → Result (A × ℕ) → Result A
value (ok (a, pos)) = ok a
value (err e) = err e
