-- ===== src/Maps/Laws.antt =====
-- Lookup after each operation, and the keys of a map are distinct.
use php_sdsearch.Prelude.{ℕ, ◌≡◌, refl, ap, ◌∙◌, arith, List, [], ◌∷◌, Option, none, some, Bool}
use php_sdsearch.Prelude.{◌==◌, ◌&&◌, if◌then◌else◌, Bool-cases, inl, inr}
use php_sdsearch.Maps.{keep, contains, get, update, remove, keys, map_values, is_some}

abbrev pub map_option {ℓ κ} : {A : Type ℓ} {B : Type κ} → (A → B) → Option A → Option B
map_option f none = none
map_option f (some a) = some (f a)

pub contains-keep :
    (p : ℕ → Bool) (xs : List ℕ) (d : ℕ) → contains (keep p xs) d ≡ (contains xs d && p d)
unfolding keep contains
contains-keep p [] d = refl
contains-keep p (x ∷ xs) d = ground (arith, contains-keep p xs d)

module _ {ℓ} {V : Type ℓ} where
  pub get-update :
      (d e : ℕ) (f : Option V → V) (m : List (ℕ × V))
      → get e (update d f m) ≡ (if d == e then some (f (get e m)) else get e m)
  unfolding get update
  get-update d e f [] = refl
  get-update d e f ((k, v) ∷ m) = ground (arith, get-update d e f m)

  pub get-remove :
      (d e : ℕ) (m : List (ℕ × V)) → get e (remove d m) ≡ (if d == e then none else get e m)
  unfolding get remove
  get-remove d e [] = ground arith
  get-remove d e ((k, v) ∷ m) = ground (arith, get-remove d e m)

  pub contains-keys : (m : List (ℕ × V)) (d : ℕ) → contains (keys m) d ≡ is_some (get d m)
  unfolding get keys contains
  contains-keys [] d = refl
  contains-keys ((k, v) ∷ m) d = ground (arith, contains-keys m d)

  abbrev pub IsMap : List (ℕ × V) → Type ℓ
  IsMap [] = Unit
  IsMap ((k, v) ∷ m) = (get k m ≡ none) × IsMap m

  pub IsMap-update : (d : ℕ) (f : Option V → V) (m : List (ℕ × V)) → IsMap m → IsMap (update d f m)
  unfolding update get
  IsMap-update d f [] h = (refl, tt)
  IsMap-update d f ((k, v) ∷ m) h = ground (arith, IsMap-update d f m h.1, get-update d k f m)

  pub IsMap-remove : (d : ℕ) (m : List (ℕ × V)) → IsMap m → IsMap (remove d m)
  unfolding remove
  IsMap-remove d [] h = h
  IsMap-remove d ((k, v) ∷ m) h = ground (arith, IsMap-remove d m h.1, get-remove d k m)

  -- The values of a key, in the order of the list.
  unfoldable pub at : ℕ → List (ℕ × V) → List V
  at d [] = []
  at d ((k, v) ∷ m) = let rest = at d m in if k == d then v ∷ rest else rest

  abbrev pub list_of : Option V → List V
  list_of none = []
  list_of (some v) = v ∷ []

  at_nothing : (d : ℕ) (m : List (ℕ × V)) → get d m ≡ none → at d m ≡ []
  unfolding get at
  at_nothing d [] h = refl
  at_nothing d ((k, v) ∷ m) h = ground (arith, at_nothing d m)

  -- In a map, that is at most one.
  pub at-IsMap : (d : ℕ) (m : List (ℕ × V)) → IsMap m → at d m ≡ list_of (get d m)
  unfolding get at
  at-IsMap d [] h = refl
  at-IsMap d ((k, v) ∷ m) h = elim (Bool-cases (k == d)) [
    | inl e ↦
        let same : k ≡ d = ground arith in rw e (ap (λ t. v ∷ t) (at_nothing d m (rw same at h.0)))
    | inr e ↦ rw e (at-IsMap d m h.1)
  ]

module _ {ℓ κ} {V : Type ℓ} {W : Type κ} where
  pub get-map_values :
      (f : ℕ → V → W) (d : ℕ) (m : List (ℕ × V))
      → get d (map_values f m) ≡ map_option (f d) (get d m)
  unfolding get map_values
  get-map_values f d [] = refl
  get-map_values f d ((k, v) ∷ m) = elim (Bool-cases (k == d)) [
    | inl e ↦ let same : k ≡ d = ground arith in rw e (ap (λ (n : ℕ). some (f n v)) same)
    | inr e ↦ rw e (get-map_values f d m)
  ]

  pub IsMap-map_values : (f : ℕ → V → W) (m : List (ℕ × V)) → IsMap m → IsMap (map_values f m)
  unfolding map_values
  IsMap-map_values f [] h = tt
  IsMap-map_values f ((k, v) ∷ m) h =
      (get-map_values f k m ∙ ap (map_option (f k)) h.0, IsMap-map_values f m h.1)
