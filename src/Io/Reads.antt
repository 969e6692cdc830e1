-- ===== src/Io/Reads.antt =====
-- What a reader finds where a writer has left some bytes: wherever they stand in the buffer, it
-- returns the value and moves behind them. The rules follow the shape of a reader.
use php_sdsearch.Prelude.{ℕ, ◌+◌, ◌≡◌, refl, sym, ap, ◌∙◌, arith, List, [], ◌∷◌, ◌++◌, length}
use php_sdsearch.Prelude.{length-append, append_assoc, append-nil, All, map}
use php_sdsearch.Io.{Reader, ok, pure, ◌>>=◌, bind_ok, repeat, IsBuffer}

pub record Reads {ℓ} {A : Type ℓ} (r : Reader A) (bytes : List ℕ) (a : A) : Type ℓ where
  pub at :
      (front back : List ℕ)
      → IsBuffer (front ++ (bytes ++ back))
      → r (front ++ (bytes ++ back)) (length front) ≡ ok (a, length front + length bytes)

pub Reads-pure {ℓ} : {A : Type ℓ} (a : A) → Reads (pure a) [] a
Reads-pure a = record { at = λ front back fits. ap (λ p. ok (a, p)) (omega arith) }

-- A step behind the bytes of an earlier one.
step_at {ℓ} :
    {B : Type ℓ} {s : Reader B} (b : B) (front bs cs back : List ℕ)
    → Reads s cs b
    → IsBuffer (front ++ ((bs ++ cs) ++ back))
    → s (front ++ ((bs ++ cs) ++ back)) (length front + length bs)
      ≡ ok (b, length front + length (bs ++ cs))
step_at {s} b front bs cs back h fits =
    rw (append_assoc bs cs back, ← append_assoc front bs (cs ++ back), ← length-append front bs)
      (h.at (front ++ bs) back
          (rw (append_assoc bs cs back, ← append_assoc front bs (cs ++ back)) at fits)
        ∙ ap (λ p. ok (b, p)) (omega (arith, length-append front bs, length-append bs cs)))

module _ {ℓ κ} {A : Type ℓ} {B : Type κ} where
  pub Reads-bind :
      (r : Reader A) (f : A → Reader B) (bs cs : List ℕ) (a : A) (b : B)
      → Reads r bs a
      → Reads (f a) cs b
      → Reads (r >>= f) (bs ++ cs) b
  Reads-bind r f bs cs a b h k = record {
    at = λ front back fits.
        bind_ok r f (front ++ ((bs ++ cs) ++ back)) (length front) a (length front + length bs) (
          rw (append_assoc bs cs back)
            (h.at front (cs ++ back) (rw (append_assoc bs cs back) at fits)))
        ∙ step_at b front bs cs back k fits;
  }

  -- The last step of a reader: the value is built from what was read.
  pub Reads-map :
      (r : Reader A) (f : A → B) (bs : List ℕ) (a : A) (b : B)
      → Reads r bs a
      → f a ≡ b
      → Reads (r >>= λ x. pure (f x)) bs b
  Reads-map r f bs a b h e = record {
    at = λ front back fits.
        bind_ok r (λ x. pure (f x)) (front ++ (bs ++ back)) (length front) a
          (length front + length bs) (h.at front back fits)
        ∙ ap (λ x. ok (x, length front + length bs)) e;
  }

-- The encodings of a list, one behind the other.
abbrev pub concat_map {ℓ} : {A : Type ℓ} → (A → List ℕ) → List A → List ℕ
concat_map enc [] = []
concat_map enc (x ∷ xs) = enc x ++ concat_map enc xs

pub Reads-repeat {ℓ κ} :
    {A : Type ℓ} {B : Type κ} (item : Reader B) (enc : A → List ℕ) (g : A → B) (xs : List A)
    → All (λ x. Reads item (enc x) (g x)) xs
    → Reads (repeat (length xs) item) (concat_map enc xs) (map g xs)
unfolding repeat
Reads-repeat item enc g [] h = Reads-pure []
Reads-repeat item enc g (x ∷ xs) h =
    Reads-bind item _ (enc x) (concat_map enc xs) (g x) (g x ∷ map g xs) h.0 (
      Reads-map (repeat (length xs) item) (λ ys. g x ∷ ys) (concat_map enc xs) (map g xs)
        (g x ∷ map g xs) (Reads-repeat item enc g xs h.1) refl)

-- A reader that starts at the beginning of what was written.
pub Reads-whole {ℓ} :
    {A : Type ℓ} (r : Reader A) (bytes : List ℕ) (a : A)
    → Reads r bytes a
    → IsBuffer bytes
    → r bytes 0 ≡ ok (a, length bytes)
Reads-whole r bytes a h fits =
    ap (λ bs. r bs 0) (sym (append-nil bytes))
    ∙ h.at [] [] (rw (append-nil bytes) fits)
    ∙ ap (λ p. ok (a, p)) (omega arith)
