-- ===== src/Analysis/Variants.antt =====
-- What the accent variants of a token are.
use php_sdsearch.Prelude.{
  ℕ, ◌≡◌, refl, ap, arith, List, [], ◌∷◌, ◌++◌, map, length, Bool, true, false, not, ltb,
}
use php_sdsearch.Prelude.{if◌then◌else◌, Bool-cases, inl, inr}
use mathlib.Core.Path.{ap₂}
use php_sdsearch.Maps.{keep}
use php_sdsearch.Strings.{str_eq}
use php_sdsearch.Analysis.{
  fold_char, fold_accents, max_variant_chars, accented_forms, single_accents, accent_variants,
}

fold_char_twice : (c : ℕ) → fold_char (fold_char c) ≡ fold_char c
unfolding fold_char
fold_char_twice c = ground arith

fold_accents_twice : (s : List ℕ) → fold_accents (fold_accents s) ≡ fold_accents s
unfolding fold_accents
fold_accents_twice [] = refl
fold_accents_twice (c ∷ s) = ap₂ (λ a b. a ∷ b) (fold_char_twice c) (fold_accents_twice s)

-- All of `xs` fold to `s`.
abbrev pub FoldTo : List ℕ → List (List ℕ) → Type 0
FoldTo s [] = Unit
FoldTo s (x ∷ xs) = (fold_accents x ≡ s) × FoldTo s xs

FoldTo-append :
    (s : List ℕ) (xs ys : List (List ℕ)) → FoldTo s xs → FoldTo s ys → FoldTo s (xs ++ ys)
FoldTo-append s [] ys h k = k
FoldTo-append s (x ∷ xs) ys h k = (h.0, FoldTo-append s xs ys h.1 k)

FoldTo-keep :
    (s : List ℕ) (p : List ℕ → Bool) (xs : List (List ℕ)) → FoldTo s xs → FoldTo s (keep p xs)
unfolding keep
FoldTo-keep s p [] h = tt
FoldTo-keep s p (x ∷ xs) h = elim (Bool-cases (p x)) [
  | inl y ↦ rw y (h.0, FoldTo-keep s p xs h.1)
  | inr n ↦ rw n (FoldTo-keep s p xs h.1)
]

-- All of `forms` fold to what `c` folds to.
abbrev CharsTo : ℕ → List ℕ → Type 0
CharsTo c [] = Unit
CharsTo c (a ∷ forms) = (fold_char a ≡ fold_char c) × CharsTo c forms

CharsTo-accented_forms : (c : ℕ) → CharsTo c (accented_forms c)
unfolding accented_forms fold_char
CharsTo-accented_forms c = ground arith

fold_at :
    (front : List ℕ) (a c : ℕ) (rest : List ℕ)
    → fold_char a ≡ fold_char c
    → fold_accents (front ++ (a ∷ rest)) ≡ fold_accents (front ++ (c ∷ rest))
unfolding fold_accents
fold_at [] a c rest h = ap (λ (x : ℕ). x ∷ fold_accents rest) h
fold_at (b ∷ front) a c rest h = ap (λ t. fold_char b ∷ t) (fold_at front a c rest h)

FoldTo-forms :
    (front rest : List ℕ) (c : ℕ) (forms : List ℕ)
    → CharsTo c forms
    → FoldTo (fold_accents (front ++ (c ∷ rest))) (map (λ a. front ++ (a ∷ rest)) forms)
FoldTo-forms front rest c [] h = tt
FoldTo-forms front rest c (a ∷ forms) h =
    (fold_at front a c rest h.0, FoldTo-forms front rest c forms h.1)

append_one :
    (front : List ℕ) (c : ℕ) (rest : List ℕ) → (front ++ (c ∷ [])) ++ rest ≡ front ++ (c ∷ rest)
append_one [] c rest = refl
append_one (b ∷ front) c rest = ap (λ t. b ∷ t) (append_one front c rest)

FoldTo-single_accents :
    (token front base : List ℕ)
    → FoldTo (fold_accents (front ++ base)) (single_accents token front base)
unfolding single_accents
FoldTo-single_accents token front [] = tt
FoldTo-single_accents token front (c ∷ rest) =
    let s = fold_accents (front ++ (c ∷ rest)) in
    let forms = map (λ a. front ++ (a ∷ rest)) (accented_forms c) in
    let behind = FoldTo-single_accents token (front ++ (c ∷ [])) rest in
    FoldTo-append s (keep (λ v. not (str_eq v token)) forms) _
      (FoldTo-keep s (λ v. not (str_eq v token)) forms
        (FoldTo-forms front rest c (accented_forms c) (CharsTo-accented_forms c)))
      (rw (append_one front c rest) at behind)

-- Every variant of a token folds to what the token folds to.
pub accent_variants-FoldTo : (token : List ℕ) → FoldTo (fold_accents token) (accent_variants token)
unfolding accent_variants
accent_variants-FoldTo token =
    let base = fold_accents token in
    let singles = FoldTo-single_accents token [] base in
    let behind = rw (fold_accents_twice token) at singles in
    let plain : FoldTo base (if str_eq base token then [] else base ∷ []) =
      plain_or_none (str_eq base token) in
    elim (Bool-cases (ltb max_variant_chars (length base))) [
      | inl y ↦ rw y (refl, plain)
      | inr n ↦
          rw n
            (refl, FoldTo-append base (if str_eq base token then [] else base ∷ []) _ plain behind)
    ]
  where
    plain_or_none :
        (b : Bool) → FoldTo (fold_accents token) (if b then [] else fold_accents token ∷ [])
    plain_or_none true = tt
    plain_or_none false = (fold_accents_twice token, tt)
