-- ===== src/Examples/Distance.antt =====
-- distance.rs on `ting` and `ted`.
use php_sdsearch.Prelude.{ℕ, ◌≡◌, refl, List, [], ◌∷◌}
use php_sdsearch.Distance.{levenshtein_bytes}
use php_sdsearch.Distance.Recurrence.{edits, back, levenshtein_bytes-edits}

abbrev ting : List ℕ
ting = 116 ∷ 105 ∷ 110 ∷ 103 ∷ []

abbrev ted : List ℕ
ted = 116 ∷ 101 ∷ 100 ∷ []

three_edits : levenshtein_bytes ting ted ≡ 3
unfolding levenshtein_bytes
three_edits = refl

levenshtein_bytes-edits_example : levenshtein_bytes ting ted ≡ edits (back ting []) (back ted [])
levenshtein_bytes-edits_example = levenshtein_bytes-edits ting ted
