-- ===== src/Strings.antt =====
-- Strings of the standard library, as lists of code points: equality, order, bytes, sorting.
pub mod Sorting
use php_sdsearch.Prelude.{
  ℕ, List, [], ◌∷◌, ◌++◌, Bool, true, false, ◌&&◌, ◌||◌, ◌==◌, ltb, if◌then◌else◌,
}
use php_sdsearch.Zsl.Bytes.{encode_utf8}
use mathlib.Core.Ordering.{Ordering, lt, eq, gt}

unfoldable pub str_eq : List ℕ → List ℕ → Bool
str_eq [] [] = true
str_eq [] (d ∷ t) = false
str_eq (c ∷ s) [] = false
str_eq (c ∷ s) (d ∷ t) = c == d && str_eq s t

-- The order of the bytes, which is the order of the code points.
unfoldable pub str_cmp : List ℕ → List ℕ → Ordering
str_cmp [] [] = eq
str_cmp [] (d ∷ t) = lt
str_cmp (c ∷ s) [] = gt
str_cmp (c ∷ s) (d ∷ t) =
    let rest = str_cmp s t in if ltb c d then lt else if ltb d c then gt else rest

unfoldable pub as_bytes : List ℕ → List ℕ
as_bytes [] = []
as_bytes (c ∷ s) = encode_utf8 c ++ as_bytes s

-- `Ordering::then`
abbrev pub then_with : Ordering → Ordering → Ordering
then_with eq o = o
then_with lt o = lt
then_with gt o = gt

-- `sort_by`, which is stable.
module _ {ℓ} {A : Type ℓ} (cmp : A → A → Ordering) where
  unfoldable pub place : A → List A → List A
  place x [] = x ∷ []
  place x (y ∷ ys) = let rest = place x ys in elim (cmp x y) [ gt ↦ y ∷ rest | _ ↦ x ∷ y ∷ ys ]

  unfoldable pub sort_by : List A → List A
  unfolding place
  sort_by [] = []
  sort_by (x ∷ xs) = place x (sort_by xs)

-- `starts_with`, and `contains` of a string
unfoldable pub starts_with : List ℕ → List ℕ → Bool
starts_with s [] = true
starts_with [] (c ∷ t) = false
starts_with (d ∷ s) (c ∷ t) = d == c && starts_with s t

unfoldable pub contains_str : List ℕ → List ℕ → Bool
unfolding starts_with
contains_str [] t = starts_with [] t
contains_str (c ∷ s) t = starts_with (c ∷ s) t || contains_str s t
