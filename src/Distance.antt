-- ===== src/Distance.antt =====
-- sdsearch-core/src/distance.rs: the edit distance of two byte strings, row by row.
pub mod Recurrence
use php_sdsearch.Prelude.{ℕ, zero, suc, ◌+◌, List, [], ◌∷◌, length, get_elem?, Option, none, some}
use php_sdsearch.Prelude.{◌==◌, if◌then◌else◌}
use Prim.Native.Nat.{min}

-- `usize::from(a[i - 1] != b[j - 1])`
abbrev pub cost : ℕ → ℕ → ℕ
cost x y = if x == y then 0 else 1

-- The loop over `j`: `left` is `cur[j - 1]`, and `prev` is read from `prev[j - 1]` on.
unfoldable pub next_row : ℕ → List ℕ → List ℕ → ℕ → List ℕ
next_row x [] prev left = left ∷ []
next_row x (y ∷ b) [] left = left ∷ []
next_row x (y ∷ b) (p0 ∷ []) left = left ∷ []
next_row x (y ∷ b) (p0 ∷ p1 ∷ prev) left =
    left ∷ next_row x b (p1 ∷ prev) (min (min (p1 + 1) (left + 1)) (p0 + cost x y))

-- `(0..=m).collect()`, from `k` on.
unfoldable pub first_row : ℕ → List ℕ → List ℕ
first_row k [] = k ∷ []
first_row k (y ∷ b) = k ∷ first_row (k + 1) b

-- The loop over `i`; `cur` and `prev` are swapped after each row.
unfoldable pub rows : ℕ → List ℕ → List ℕ → List ℕ → List ℕ
unfolding next_row
rows i [] b prev = prev
rows i (x ∷ a) b prev = rows (i + 1) a b (next_row x b prev i)

abbrev pub at_end : Option ℕ → ℕ
at_end none = 0
at_end (some d) = d

unfoldable pub levenshtein_bytes : List ℕ → List ℕ → ℕ
unfolding rows first_row
levenshtein_bytes a b =
    if length a == 0
    then length b
    else if length b == 0
    then length a
    else at_end (get_elem? (rows 1 a b (first_row 0 b)) (length b))
