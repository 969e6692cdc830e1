-- ===== src/Maps.antt =====
-- `HashMap<usize, V>` and `HashSet<usize>` of the standard library: lists of entries and of members,
-- in the order of some iteration.
pub mod Laws
pub mod Sets
use php_sdsearch.Prelude.{
  ℕ, List, [], ◌∷◌, map, length, leb, Option, none, some, Bool, true, false, ◌||◌, ◌==◌,
}
use php_sdsearch.Prelude.{◌&&◌, if◌then◌else◌}

-- `retain`, and `filter` on an iterator.
unfoldable pub keep {ℓ} : {A : Type ℓ} → (A → Bool) → List A → List A
keep p [] = []
keep p (x ∷ xs) = let rest = keep p xs in if p x then x ∷ rest else rest

unfoldable pub contains : List ℕ → ℕ → Bool
contains [] i = false
contains (x ∷ xs) i = x == i || contains xs i

unfoldable pub is_empty {ℓ} : {A : Type ℓ} → List A → Bool
is_empty [] = true
is_empty (x ∷ xs) = false

-- `HashSet::insert`
unfoldable pub insert_member : List ℕ → ℕ → List ℕ
unfolding contains
insert_member set d = if contains set d then set else d ∷ set

module _ {ℓ} {V : Type ℓ} where
  unfoldable pub get : ℕ → List (ℕ × V) → Option V
  get d [] = none
  get d ((k, v) ∷ m) = if k == d then some v else get d m

  -- What is put in place of the value of `d`, or of no value.
  unfoldable pub update : ℕ → (Option V → V) → List (ℕ × V) → List (ℕ × V)
  update d f [] = (d, f none) ∷ []
  update d f ((k, v) ∷ m) =
      let rest = update d f m in if k == d then (k, f (some v)) ∷ m else (k, v) ∷ rest

  -- `insert`
  unfoldable pub insert : ℕ → V → List (ℕ × V) → List (ℕ × V)
  unfolding update
  insert d v m = update d (λ o. v) m

  unfoldable pub remove : ℕ → List (ℕ × V) → List (ℕ × V)
  remove d [] = []
  remove d ((k, v) ∷ m) = let rest = remove d m in if k == d then rest else (k, v) ∷ rest

  unfoldable pub keys : List (ℕ × V) → List ℕ
  keys [] = []
  keys ((k, v) ∷ m) = k ∷ keys m

  -- `.unwrap_or(v)`
  unfoldable pub unwrap_or : Option V → V → V
  unwrap_or none v = v
  unwrap_or (some w) v = w

unfoldable pub map_values {ℓ κ} :
    {V : Type ℓ} {W : Type κ} → (ℕ → V → W) → List (ℕ × V) → List (ℕ × W)
map_values f [] = []
map_values f ((k, v) ∷ m) = (k, f k v) ∷ map_values f m

abbrev pub is_some {ℓ} : {A : Type ℓ} → Option A → Bool
is_some none = false
is_some (some a) = true

-- `all` and `any` of an iterator.
unfoldable pub all_of {ℓ} : {A : Type ℓ} → (A → Bool) → List A → Bool
all_of p [] = true
all_of p (x ∷ xs) = p x && all_of p xs

unfoldable pub any_of {ℓ} : {A : Type ℓ} → (A → Bool) → List A → Bool
any_of p [] = false
any_of p (x ∷ xs) = p x || any_of p xs
