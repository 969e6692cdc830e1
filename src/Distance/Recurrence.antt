-- ===== src/Distance/Recurrence.antt =====
-- The rows hold the edit distances of all prefixes.
use php_sdsearch.Prelude.{ℕ, ◌+◌, ◌≡◌, refl, ap, ◌∙◌, arith, List, [], ◌∷◌, length, get_elem?, some}
use php_sdsearch.Prelude.{Bool-cases, inl, inr, ◌==◌, true}
use php_sdsearch.Distance.{cost, next_row, first_row, rows, levenshtein_bytes}
use Prim.Native.Nat.{min}

-- The edit distance by its recurrence on the last bytes: both strings are given from the last byte
-- to the first.
unfoldable pub edits : List ℕ → List ℕ → ℕ
edits [] ys = length ys
edits (x ∷ xs) [] = length (x ∷ xs)
edits (x ∷ xs) (y ∷ ys) =
    min (min (edits xs (y ∷ ys) + 1) (edits (x ∷ xs) ys + 1)) (edits xs ys + cost x y)

-- `back xs ys` is `xs` from the last byte to the first, and then `ys`.
unfoldable pub back : List ℕ → List ℕ → List ℕ
back [] ys = ys
back (x ∷ xs) ys = back xs (x ∷ ys)

-- The distances of `ra` from `rb` and from `rb` with more and more of `b`.
row : List ℕ → List ℕ → List ℕ → List ℕ
row ra rb [] = edits ra rb ∷ []
row ra rb (y ∷ b) = edits ra rb ∷ row ra (y ∷ rb) b

next_row-row :
    (x : ℕ) (ra rb b : List ℕ) → next_row x b (row ra rb b) (edits (x ∷ ra) rb) ≡ row (x ∷ ra) rb b
unfolding next_row row edits
next_row-row x ra rb [] = refl
next_row-row x ra rb (y ∷ []) = refl
next_row-row x ra rb (y ∷ z ∷ b) =
    ap (λ t. edits (x ∷ ra) rb ∷ t) (next_row-row x ra (y ∷ rb) (z ∷ b))

first_row-row : (k : ℕ) (rb b : List ℕ) → k ≡ length rb → first_row k b ≡ row [] rb b
unfolding first_row row edits
first_row-row k rb [] h = ap (λ n. n ∷ []) h
first_row-row k rb (y ∷ b) h = cc (h, first_row-row (k + 1) (y ∷ rb) b (omega arith))

edits-nil : (xs : List ℕ) → edits xs [] ≡ length xs
unfolding edits
edits-nil [] = refl
edits-nil (x ∷ xs) = refl

rows-row :
    (i : ℕ) (a ra b : List ℕ) → i ≡ length ra + 1 → rows i a b (row ra [] b) ≡ row (back a ra) [] b
unfolding rows back
rows-row i [] ra b h = refl
rows-row i (x ∷ a) ra b h =
    let left : i ≡ edits (x ∷ ra) [] = omega (arith, edits-nil (x ∷ ra)) in
    ap (λ (n : ℕ). rows (i + 1) a b (next_row x b (row ra [] b) n)) left
    ∙ ap (λ r. rows (i + 1) a b r) (next_row-row x ra [] b)
    ∙ rows-row (i + 1) a (x ∷ ra) b (omega arith)

get_elem?-row :
    (ra rb b : List ℕ) → get_elem? (row ra rb b) (length b) ≡ some (edits ra (back b rb))
unfolding row back
get_elem?-row ra rb [] = refl
get_elem?-row ra rb (y ∷ b) = get_elem?-row ra (y ∷ rb) b

length-back : (xs ys : List ℕ) → length (back xs ys) ≡ length xs + length ys
unfolding back
length-back [] ys = omega arith
length-back (x ∷ xs) ys = omega (arith, length-back xs (x ∷ ys))

no_bytes : (xs : List ℕ) → (length xs == 0) ≡ true → xs ≡ []
no_bytes [] h = refl
no_bytes (x ∷ xs) h = absurd (ground arith)

-- For all byte strings, `levenshtein_bytes` is the edit distance of the recurrence: nothing is left
-- to do but insertions or deletions where one string is empty; otherwise the least of a deletion, an
-- insertion, and a substitution (free for equal bytes) of the last byte.
pub levenshtein_bytes-edits : (a b : List ℕ) → levenshtein_bytes a b ≡ edits (back a []) (back b [])
unfolding levenshtein_bytes
levenshtein_bytes-edits a b = elim (Bool-cases (length a == 0)) [
  | inl e ↦ rw (e, no_bytes a e) (unfold back edits in omega (arith, length-back b []))
  | inr e ↦ rw e (elim (Bool-cases (length b == 0)) [
    | inl f ↦
        rw (f, no_bytes b f) (unfold back in omega (arith, length-back a [], edits-nil (back a [])))
    | inr f ↦
        rw (f, first_row-row 0 [] b refl, rows-row 1 a [] b refl, get_elem?-row (back a []) [] b)
          refl
  ])
]
