-- ===== src/Analysis.antt =====
-- sdsearch-core/src/analysis.rs: tokens, and the accents of Spanish. The regular expressions of the
-- `regex` crate and the tables of Unicode are parameters.
pub mod Variants
use php_sdsearch.Prelude.{
  ℕ, List, [], ◌∷◌, ◌++◌, map, length, Option, Bool, true, false, not, ltb, ◌==◌, ◌||◌,
}
use php_sdsearch.Prelude.{if◌then◌else◌}
use php_sdsearch.Maps.{keep}
use php_sdsearch.Strings.{str_eq}

pub record Text : Type 0 where
  -- The matches of TOKEN_RE, from left to right.
  pub tokens : List ℕ → List (List ℕ)
  pub to_lowercase : List ℕ → List ℕ
  pub is_whitespace : ℕ → Bool
  pub trim : List ℕ → List ℕ
  pub split_whitespace : List ℕ → List (List ℕ)
  -- `regex::escape`; `Regex::new`, with `is_match` of what it returns
  pub escape : List ℕ → List ℕ
  pub compile : List ℕ → Option (List ℕ → Bool)

unfoldable pub analyze : Text → List ℕ → List (List ℕ)
analyze t text = map t.to_lowercase (t.tokens text)

-- á é í ó ú ü and Á É Í Ó Ú Ü
unfoldable pub fold_char : ℕ → ℕ
fold_char c =
    if c == 225
    then 97
    else if c == 233
    then 101
    else if c == 237
    then 105
    else if c == 243
    then 111
    else if c == 250 || c == 252
    then 117
    else if c == 193
    then 65
    else if c == 201
    then 69
    else if c == 205
    then 73
    else if c == 211
    then 79
    else if c == 218 || c == 220
    then 85
    else c

unfoldable pub fold_accents : List ℕ → List ℕ
fold_accents s = map fold_char s

abbrev pub max_variant_chars : ℕ
max_variant_chars = 64

unfoldable pub accented_forms : ℕ → List ℕ
accented_forms c =
    if c == 97
    then 225 ∷ []
    else if c == 101
    then 233 ∷ []
    else if c == 105
    then 237 ∷ []
    else if c == 111
    then 243 ∷ []
    else if c == 117
    then 250 ∷ 252 ∷ []
    else []

-- The loop over the places of `base`; `front` is what lies before.
unfoldable pub single_accents : List ℕ → List ℕ → List ℕ → List (List ℕ)
single_accents token front [] = []
single_accents token front (c ∷ rest) =
    keep (λ v. not (str_eq v token)) (map (λ a. front ++ (a ∷ rest)) (accented_forms c))
    ++ single_accents token (front ++ (c ∷ [])) rest

unfoldable pub accent_variants : List ℕ → List (List ℕ)
unfolding single_accents fold_accents
accent_variants token =
    let base = fold_accents token in
    let out = token ∷ (if str_eq base token then [] else base ∷ []) in
    let variants = single_accents token [] base in
    if ltb max_variant_chars (length base) then out else out ++ variants
