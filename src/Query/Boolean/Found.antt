-- ===== src/Query/Boolean/Found.antt =====
-- Which documents a Boolean query finds.
use php_sdsearch.Prelude.{
  ℕ, ◌≡◌, refl, ◌∙◌, arith, List, [], ◌∷◌, Option, none, some, Bool, not, ◌&&◌, ◌||◌,
}
use php_sdsearch.Prelude.{Bool-cases, inl, inr}
use php_sdsearch.Floats.{Float}
use php_sdsearch.Maps.{is_some}
use php_sdsearch.Maps.Laws.{map_option}
use php_sdsearch.Query.Boolean.{Occur, should, must, must_not, clauses_of}
use php_sdsearch.Query.Meaning.{
  Value, Count, add_value, add_all, raise_value, raise_all, all_some, any_some, count,
  value_boolean,
}

is_some-map_option :
    {A B : Type 0} (f : A → B) (o : Option A) → is_some (map_option f o) ≡ is_some o
is_some-map_option f none = refl
is_some-map_option f (some a) = refl

module _ {F : Type 0} (fl : Float F) where
  is_some-add_value :
      (o : Option F) (c : Count fl) → is_some (add_value fl o c).0 ≡ (is_some c.0 || is_some o)
  unfolding add_value
  is_some-add_value none (none, k) = refl
  is_some-add_value none (some a, k) = refl
  is_some-add_value (some s) (none, k) = refl
  is_some-add_value (some s) (some a, k) = refl

  is_some-raise_value : (o : Option F) (c : Count fl) → is_some (raise_value fl o c).0 ≡ is_some c.0
  unfolding raise_value
  is_some-raise_value none (none, k) = refl
  is_some-raise_value none (some a, k) = refl
  is_some-raise_value (some s) (none, k) = refl
  is_some-raise_value (some s) (some a, k) = refl

  is_some-add_all :
      (vs : List (Value F)) (d : ℕ) (c : Count fl)
      → is_some (add_all fl vs d c).0 ≡ (is_some c.0 || any_some fl vs d)
  unfolding add_all any_some
  is_some-add_all [] d c = ground arith
  is_some-add_all (v ∷ vs) d c =
      is_some-add_all vs d (add_value fl (v d) c) ∙ rw (is_some-add_value (v d) c) (ground arith)

  is_some-raise_all :
      (vs : List (Value F)) (d : ℕ) (c : Count fl) → is_some (raise_all fl vs d c).0 ≡ is_some c.0
  unfolding raise_all
  is_some-raise_all [] d c = refl
  is_some-raise_all (v ∷ vs) d c =
      is_some-raise_all vs d (raise_value fl (v d) c) ∙ is_some-raise_value (v d) c

  -- A document is found without a must if a should finds it, with musts if all of them do.
  unfoldable pub found : List (Value F) → List (Value F) → ℕ → Bool
  found [] shoulds d = any_some fl shoulds d
  found (v ∷ musts) shoulds d = all_some fl (v ∷ musts) d

  is_some-count :
      (musts shoulds : List (Value F)) (d : ℕ)
      → is_some (count fl musts shoulds d).0 ≡ found musts shoulds d
  unfolding count found
  is_some-count [] shoulds d = is_some-add_all shoulds d (none, 0)
  is_some-count (v ∷ musts) shoulds d = elim (Bool-cases (all_some fl (v ∷ musts) d)) [
    | inl y ↦ rw y (is_some-raise_all shoulds d _)
    | inr n ↦ rw n refl
  ]

  pub is_some-value_boolean :
      (clauses : List (Occur × Value F)) (d : ℕ)
      → is_some (value_boolean fl clauses d) ≡ (
          not (any_some fl (clauses_of must_not clauses) d)
          && found (clauses_of must clauses) (clauses_of should clauses) d)
  unfolding value_boolean
  is_some-value_boolean clauses d =
      elim (Bool-cases (any_some fl (clauses_of must_not clauses) d)) [
        | inl y ↦ rw y refl
        | inr n ↦ rw n (
            is_some-map_option _
              (count fl (clauses_of must clauses) (clauses_of should clauses) d).0
            ∙ is_some-count (clauses_of must clauses) (clauses_of should clauses) d)
      ]
