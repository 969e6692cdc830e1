-- ===== src/Io/Moves.antt =====
-- Two readers that move alike: on every buffer and from every position both fail with the same
-- error, or both succeed and stop at the same position.
use php_sdsearch.Prelude.{ℕ, ◌≡◌, refl, ap, ◌∙◌, List}
use php_sdsearch.Io.{Reader, Result, ok, err, pure, continue, ◌>>=◌}

-- An outcome without the value that was read.
abbrev pub outcome {ℓ} : {A : Type ℓ} → Result (A × ℕ) → Result ℕ
outcome (ok (a, pos)) = ok pos
outcome (err e) = err e

pub record Moves {ℓ κ} {A : Type ℓ} {B : Type κ} (r : Reader A) (s : Reader B) : Type 0 where
  pub at : (data' : List ℕ) (pos : ℕ) → outcome (r data' pos) ≡ outcome (s data' pos)

pub Moves-pure {ℓ κ} : {A : Type ℓ} {B : Type κ} (a : A) (b : B) → Moves (pure a) (pure b)
Moves-pure a b = record { at = λ data' pos. refl }

-- One first step in both, of any kind.
pub Moves-step {ℓ κ μ} :
    {A : Type ℓ} {B : Type κ} {C : Type μ} (r : Reader A) (f : A → Reader B) (g : A → Reader C)
    → ((a : A) → Moves (f a) (g a))
    → Moves (r >>= f) (r >>= g)
unfolding ◌>>=◌
Moves-step {A} r f g h = record { at = λ data' pos. go data' (r data' pos) }
  where
    go :
        (data' : List ℕ) (x : Result (A × ℕ))
        → outcome (continue x f data') ≡ outcome (continue x g data')
    go data' (ok (a, pos)) = (h a).at data' pos
    go data' (err e) = refl

-- A first step that moves like two.
pub Moves-bind {ℓ} :
    {A B C D : Type ℓ} (r : Reader A) (s : Reader B) (f : A → Reader C) (g : B → Reader D)
    → Moves r s
    → ((a : A) (b : B) → Moves (f a) (g b))
    → Moves (r >>= f) (s >>= g)
unfolding ◌>>=◌
Moves-bind {A} {B} r s f g h k = record {
  at = λ data' pos. go data' (r data' pos) (s data' pos) (h.at data' pos);
}
  where
    go :
        (data' : List ℕ) (x : Result (A × ℕ)) (y : Result (B × ℕ))
        → outcome x ≡ outcome y
        → outcome (continue x f data') ≡ outcome (continue y g data')
    go data' (ok (a, p)) (ok (b, q)) e = (k a b).at data' p ∙ ap (λ t. outcome (g b data' t)) (cc e)
    go data' (ok (a, p)) (err y) e = cc
    go data' (err x) (ok (b, q)) e = cc
    go data' (err x) (err y) e = cc

-- A last step that only builds a value does not count.
pub Moves-map {ℓ} :
    {A B C : Type ℓ} (r : Reader A) (s : Reader B) (f : B → C)
    → Moves r s
    → Moves r (s >>= λ b. pure (f b))
unfolding ◌>>=◌
Moves-map {B} r s f h = record { at = λ data' pos. h.at data' pos ∙ go data' (s data' pos) }
  where
    go :
        (data' : List ℕ) (y : Result (B × ℕ))
        → outcome y ≡ outcome (continue y (λ b. pure (f b)) data')
    go data' (ok (b, p)) = refl
    go data' (err e) = refl
