-- ===== src/Strings/Sorting.antt =====
-- Sorting keeps what holds of all elements.
use php_sdsearch.Prelude.{◌≡◌, refl, ap, ◌∙◌, List, [], ◌∷◌, Bool, true, false, ◌&&◌}
use php_sdsearch.Maps.{all_of, is_empty}
use php_sdsearch.Strings.{place, sort_by}
use mathlib.Core.Ordering.{Ordering, lt, eq, gt}

module _ {ℓ} {A : Type ℓ} (p : A → Bool) (cmp : A → A → Ordering) where
  swap_and : (a b c : Bool) → (a && (b && c)) ≡ (b && (a && c))
  swap_and true b c = refl
  swap_and false true c = refl
  swap_and false false c = refl

  all_of-place : (x : A) (xs : List A) → all_of p (place cmp x xs) ≡ (p x && all_of p xs)
  unfolding place all_of
  all_of-place x [] = refl
  all_of-place x (y ∷ ys) =
      go (cmp x y) (ap (λ b. p y && b) (all_of-place x ys) ∙ swap_and (p y) (p x) (all_of p ys))
    where
      go :
          (o : Ordering)
          → (p y && all_of p (place cmp x ys)) ≡ (p x && (p y && all_of p ys))
          → all_of p (elim o [ gt ↦ y ∷ place cmp x ys | _ ↦ x ∷ y ∷ ys ])
            ≡ (p x && (p y && all_of p ys))
      go lt h = refl
      go eq h = refl
      go gt h = h

  is_empty-place : (x : A) (xs : List A) → is_empty (place cmp x xs) ≡ false
  unfolding place is_empty
  is_empty-place x [] = refl
  is_empty-place x (y ∷ ys) = go (cmp x y)
    where
      go :
          (o : Ordering)
          → is_empty {A = A} (elim o [ gt ↦ y ∷ place cmp x ys | _ ↦ x ∷ y ∷ ys ]) ≡ false
      go lt = refl
      go eq = refl
      go gt = refl

  pub is_empty-sort_by : (xs : List A) → is_empty (sort_by cmp xs) ≡ is_empty xs
  unfolding is_empty sort_by
  is_empty-sort_by [] = refl
  is_empty-sort_by (x ∷ xs) = is_empty-place x (sort_by cmp xs)

  -- The order does not matter.
  pub all_of-sort_by : (xs : List A) → all_of p (sort_by cmp xs) ≡ all_of p xs
  unfolding sort_by all_of
  all_of-sort_by [] = refl
  all_of-sort_by (x ∷ xs) = all_of-place x (sort_by cmp xs) ∙ ap (λ b. p x && b) (all_of-sort_by xs)
