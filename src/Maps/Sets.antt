-- ===== src/Maps/Sets.antt =====
-- Sets: distinct members, and a set inside another that is as large.
use php_sdsearch.Prelude.{
  ℕ, suc, ◌≤◌, ◌≡◌, refl, ◌∙◌, arith, List, [], ◌∷◌, length, Bool, true, false, ◌==◌, ◌||◌,
}
use php_sdsearch.Prelude.{if◌then◌else◌, Bool-cases, inl, inr}
use php_sdsearch.Maps.{keep, contains, insert_member}
use php_sdsearch.Maps.Laws.{contains-keep}

abbrev pub IsSetOf : List ℕ → Type 0
IsSetOf [] = Unit
IsSetOf (x ∷ xs) = (contains xs x ≡ false) × IsSetOf xs

-- Each member of `a` is one of `b`.
abbrev pub Within : List ℕ → List ℕ → Type 0
Within a b = (d : ℕ) → contains a d ≡ true → contains b d ≡ true

pub contains-insert_member :
    (set : List ℕ) (d x : ℕ) → contains (insert_member set d) x ≡ (d == x || contains set x)
unfolding insert_member contains
contains-insert_member set d x = elim (Bool-cases (contains set d)) [
  | inl y ↦ rw y (elim (Bool-cases (d == x)) [
    | inl e ↦ let same : d ≡ x = ground arith in rw e (rw same at y)
    | inr e ↦ rw e refl
  ])
  | inr n ↦ rw n refl
]

pub IsSetOf-insert_member : (set : List ℕ) (d : ℕ) → IsSetOf set → IsSetOf (insert_member set d)
unfolding insert_member
IsSetOf-insert_member set d h = elim (Bool-cases (contains set d)) [
  | inl y ↦ rw y h
  | inr n ↦ rw n (n, h)
]

pub IsSetOf-keep : (p : ℕ → Bool) (set : List ℕ) → IsSetOf set → IsSetOf (keep p set)
unfolding keep
IsSetOf-keep p [] h = tt
IsSetOf-keep p (x ∷ xs) h = elim (Bool-cases (p x)) [
  | inl y ↦ rw y (contains-keep p xs x ∙ rw h.0 refl, IsSetOf-keep p xs h.1)
  | inr n ↦ rw n (IsSetOf-keep p xs h.1)
]

drop_one : ℕ → List ℕ → List ℕ
drop_one x [] = []
drop_one x (y ∷ ys) = let rest = drop_one x ys in if y == x then ys else y ∷ rest

length-drop_one :
    (x : ℕ) (ys : List ℕ) → contains ys x ≡ true → suc (length (drop_one x ys)) ≡ length ys
unfolding drop_one contains
length-drop_one x [] h = absurd (ground arith)
length-drop_one x (y ∷ ys) h = ground (arith, length-drop_one x ys)

contains-drop_one :
    (x d : ℕ) (ys : List ℕ)
    → contains ys d ≡ true
    → (x == d) ≡ false
    → contains (drop_one x ys) d ≡ true
unfolding drop_one contains
contains-drop_one x d [] h n = h
contains-drop_one x d (y ∷ ys) h n = ground (arith, contains-drop_one x d ys)

contains_first : (x : ℕ) (xs : List ℕ) → contains (x ∷ xs) x ≡ true
unfolding contains
contains_first x xs = ground arith

contains_behind : (x : ℕ) (xs : List ℕ) (d : ℕ) → contains xs d ≡ true → contains (x ∷ xs) d ≡ true
unfolding contains
contains_behind x xs d y = ground arith

differs :
    (x : ℕ) (xs : List ℕ) (d : ℕ) → contains xs x ≡ false → contains xs d ≡ true → (x == d) ≡ false
differs x xs d n y = elim (Bool-cases (x == d)) [
  | inl e ↦ let same : x ≡ d = ground arith in let n' = rw same at n in absurd (ground arith)
  | inr e ↦ e
]

length-Within : (a b : List ℕ) → IsSetOf a → Within a b → length a ≤ length b
length-Within [] b h w = ground arith
length-Within (x ∷ xs) b h w =
    let first : contains b x ≡ true = w x (contains_first x xs) in
    let fewer : length xs ≤ length (drop_one x b) = length-Within xs (drop_one x b) h.1 inside in
    let one = length-drop_one x b first in ground arith
  where
    inside : Within xs (drop_one x b)
    inside d y = contains-drop_one x d b (w d (contains_behind x xs d y)) (differs x xs d h.0 y)

other :
    (d : ℕ) (a : List ℕ) (x : ℕ)
    → (d == x) ≡ false
    → contains (d ∷ a) x ≡ true
    → contains a x ≡ true
unfolding contains
other d a x n z = ground arith

-- A set inside a list that is not longer is all of it.
pub contains-Within :
    (a b : List ℕ) (d : ℕ)
    → IsSetOf a
    → Within a b
    → length a ≡ length b
    → contains b d ≡ true
    → contains a d ≡ true
contains-Within a b d h w same y = elim (Bool-cases (contains a d)) [
  | inl e ↦ e
  | inr n ↦
      let longer : length {A = ℕ} (d ∷ a) ≤ length b = length-Within (d ∷ a) b (n, h) (more n) in
      absurd (ground arith)
]
  where
    more : contains a d ≡ false → Within (d ∷ a) b
    more n x z = elim (Bool-cases (d == x)) [
      | inl e ↦ let same' : d ≡ x = ground arith in rw same' at y
      | inr e ↦ w x (other d a x e z)
    ]
