-- ===== src/Io/Advances.antt =====
-- Readers that stay inside the buffer: a read that succeeds moves the position forward, at most to
-- the end of the buffer.
use php_sdsearch.Prelude.{ℕ, zero, suc, ◌≤◌, arith, List, [], ◌∷◌, length, Bool, true, false}
use php_sdsearch.Prelude.{if◌then◌else◌}
use php_sdsearch.Io.{Reader, Result, Error, ok, err, pure, fail, continue, ◌>>=◌, repeat}

-- What is claimed of one outcome.
abbrev pub Within {ℓ} : {A : Type ℓ} → ℕ → List ℕ → Result (A × ℕ) → Type 0
Within pos data' (ok (a, pos')) = (pos ≤ pos') × (pos' ≤ length data')
Within pos data' (err e) = Unit

pub record Advances {ℓ} {A : Type ℓ} (r : Reader A) : Type ℓ where
  pub at : (data' : List ℕ) (pos : ℕ) → pos ≤ length data' → Within pos data' (r data' pos)

pub Advances-pure {ℓ} : {A : Type ℓ} (a : A) → Advances (pure a)
Advances-pure a = record { at = λ data' pos h. (omega arith, h) }

pub Advances-fail {ℓ} : {A : Type ℓ} (e : Error) → Advances (fail {A = A} e)
Advances-fail e = record { at = λ data' pos h. tt }

Within-mono {ℓ} :
    {A : Type ℓ} (pos pos' : ℕ) (data' : List ℕ) (x : Result (A × ℕ))
    → pos ≤ pos'
    → Within pos' data' x
    → Within pos data' x
Within-mono pos pos' data' (ok (a, p)) h k = omega arith
Within-mono pos pos' data' (err e) h k = tt

module _ {ℓ} {A B : Type ℓ} where
  pub Advances-bind :
      (r : Reader A) (f : A → Reader B)
      → Advances r
      → ((a : A) → Advances (f a))
      → Advances (r >>= f)
  unfolding ◌>>=◌
  Advances-bind r f h k = record {
    at = λ data' pos fits. go data' pos (r data' pos) (h.at data' pos fits);
  }
    where
      go :
          (data' : List ℕ) (pos : ℕ) (x : Result (A × ℕ))
          → Within pos data' x
          → Within pos data' (continue x f data')
      go data' pos (ok (a, p)) w = Within-mono pos p data' (f a data' p) w.0 ((k a).at data' p w.1)
      go data' pos (err e) w = tt

pub Advances-repeat {ℓ} :
    {A : Type ℓ} (count : ℕ) (item : Reader A) → Advances item → Advances (repeat count item)
unfolding repeat
Advances-repeat zero item h = Advances-pure []
Advances-repeat (suc count) item h = Advances-bind item _ h λ x.
    Advances-bind (repeat count item) _ (Advances-repeat count item h) λ xs. Advances-pure (x ∷ xs)

pub Advances-if {ℓ} :
    {A : Type ℓ} (b : Bool) (r s : Reader A)
    → Advances r
    → Advances s
    → Advances (if b then r else s)
Advances-if true r s h k = h
Advances-if false r s h k = k

pub ruleset advances_rules =
    (Advances-pure, Advances-fail, Advances-bind, Advances-repeat, Advances-if)
