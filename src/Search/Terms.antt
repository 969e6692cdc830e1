-- ===== src/Search/Terms.antt =====
-- sdsearch-core/src/search.rs: the terms of wildcards, of fuzzy words, and of accent variants.
use php_sdsearch.Prelude.{
  ℕ, ◌+◌, ◌-◌, min, List, [], ◌∷◌, ◌++◌, map, length, take, drop, Option, none, some, Bool, false,
}
use php_sdsearch.Prelude.{ltb, ◌==◌, ◌||◌, if◌then◌else◌}
use php_sdsearch.Floats.{Floats}
use php_sdsearch.Index.{IndexReader}
use php_sdsearch.Maps.{keep}
use php_sdsearch.Strings.{str_cmp, as_bytes, then_with, sort_by}
use php_sdsearch.Analysis.{Text, fold_accents, accent_variants}
use php_sdsearch.Distance.{levenshtein_bytes}
use mathlib.Core.Ordering.{Ordering, eq}

abbrev pub max_wildcard_terms : ℕ
max_wildcard_terms = 4096

-- The part before the first `*` or `?`.
unfoldable pub literal_prefix : List ℕ → List ℕ
literal_prefix [] = []
literal_prefix (c ∷ s) = let rest = literal_prefix s in if c == 42 || c == 63 then [] else c ∷ rest

-- `s.replace("\\c", with)` for one character `c` behind a backslash.
unfoldable pub replace_escaped : ℕ → List ℕ → List ℕ → List ℕ
replace_escaped c new [] = []
replace_escaped c new (a ∷ []) = a ∷ []
replace_escaped c new (a ∷ b ∷ s) =
    let behind = replace_escaped c new s in
    let next = replace_escaped c new (b ∷ s) in
    if a == 92 then (if b == c then new ++ behind else a ∷ next) else a ∷ next

-- `^`, the pattern with `.*` for `*` and `.` for `?`, `$`
unfoldable pub wildcard_regex : Text → List ℕ → Option (List ℕ → Bool)
unfolding replace_escaped
wildcard_regex t pattern = t.compile (
    (94 ∷ [])
    ++ (replace_escaped 63 (46 ∷ []) (replace_escaped 42 (46 ∷ 42 ∷ []) (t.escape pattern))
        ++ (36 ∷ [])))

unfoldable pub any_char : (ℕ → Bool) → List ℕ → Bool
any_char p [] = false
any_char p (c ∷ s) = p c || any_char p s

module _ (t : Text) {F : Type 0} (index : IndexReader F) (field : List ℕ) where
  abbrev matching : Option (List ℕ → Bool) → List (List ℕ) → List (List ℕ)
  matching none terms = []
  matching (some re) terms = keep re terms

  unfoldable pub wildcard_terms : List ℕ → ℕ → List (List ℕ)
  unfolding literal_prefix wildcard_regex
  wildcard_terms pattern min_prefix_len =
      let prefix = literal_prefix pattern in
      if ltb (length (as_bytes prefix)) min_prefix_len
      then []
      else matching (wildcard_regex t pattern)
          (index.terms_with_prefix_limited field prefix max_wildcard_terms)

  -- The loop over the buckets, behind the terms found so far.
  unfoldable pub fill_buckets : (List ℕ → Bool) → List (List ℕ) → List (List ℕ) → List (List ℕ)
  fill_buckets re [] terms = terms
  fill_buckets re (bucket ∷ buckets) terms =
      let room = max_wildcard_terms - length terms in
      let more = fill_buckets re buckets (
        terms
        ++ keep (λ s. re (fold_accents s)) (index.terms_with_prefix_limited field bucket room)) in
      if room == 0 then terms else more

  abbrev fill_matching : Option (List ℕ → Bool) → List (List ℕ) → List (List ℕ)
  fill_matching none buckets = []
  fill_matching (some re) buckets = fill_buckets re buckets []

  unfoldable pub accent_wildcard_terms : List ℕ → ℕ → List (List ℕ)
  unfolding wildcard_terms fill_buckets any_char
  accent_wildcard_terms pattern min_prefix_len =
      let folded = fold_accents pattern in
      let prefix = literal_prefix folded in
      if ltb (length (as_bytes prefix)) min_prefix_len
      then []
      else if any_char t.is_whitespace prefix
      then wildcard_terms pattern min_prefix_len
      else fill_matching (wildcard_regex t folded) (accent_variants (literal_prefix pattern))

module _ {F : Type 0} (index : IndexReader F) (field : List ℕ) where
  unfoldable pub accent_variant_terms : List ℕ → List (List ℕ)
  accent_variant_terms token = keep (λ s. ltb 0 (index.doc_freq field s)) (accent_variants token)

-- `zend_similarity`, and the terms of a fuzzy word.
module _ (fl : Floats) where
  open fl use {F32, F64, double, widen, narrow, int_lt}
  open double use {decimal, of_nat, sub, mul, div, partial_cmp, gt as above}

  -- `(a as i64 - b as i64).abs()`
  abbrev distance : ℕ → ℕ → ℕ
  distance a b = if ltb a b then b - a else a - b

  -- `1.0 - n / m`, and 0 if there is no prefix
  abbrev short : ℕ → ℕ → F64
  short n prefix_utf8_len =
      if prefix_utf8_len == 0
      then decimal 0 0
      else sub (decimal 1 0) (div (of_nat n) (of_nat prefix_utf8_len))

  unfoldable pub zend_similarity : List ℕ → List ℕ → ℕ → F64 → F64
  zend_similarity term_rest target prefix_utf8_len min_sim =
      let term_rest_len = length term_rest in
      let target_len = length target in
      let shorter = min term_rest_len target_len in
      let max_distance = mul (sub (decimal 1 0) min_sim) (of_nat (shorter + prefix_utf8_len)) in
      if term_rest_len == 0
      then short target_len prefix_utf8_len
      else if target_len == 0
      then short term_rest_len prefix_utf8_len
      else if int_lt max_distance (distance term_rest_len target_len)
      then decimal 0 0
      else sub (decimal 1 0)
          (div (of_nat (levenshtein_bytes term_rest target)) (of_nat (prefix_utf8_len + shorter)))

  abbrev max_fuzzy_terms : ℕ
  max_fuzzy_terms = 1024

  abbrev pub or_equal : Option Ordering → Ordering
  or_equal none = eq
  or_equal (some o) = o

  -- The most similar first, and the terms in order where they are equal.
  abbrev by_similarity : F64 × List ℕ → F64 × List ℕ → Ordering
  by_similarity a b = then_with (or_equal (partial_cmp b.0 a.0)) (str_cmp a.1 b.1)

  module _ (index : IndexReader F32) (field : List ℕ) (accent_insensitive : Bool) where
    -- The candidates of one bucket that are similar enough. A slice that starts past the end, where
    -- the source panics, is empty here.
    unfoldable pub similar_terms : List ℕ → ℕ → ℕ → F64 → List (List ℕ) → List (F64 × List ℕ)
    unfolding zend_similarity
    similar_terms term_rest prefix_byte_len prefix_utf8_len min_sim [] = []
    similar_terms term_rest prefix_byte_len prefix_utf8_len min_sim (cand ∷ cands) =
        let key = if accent_insensitive then fold_accents cand else cand in
        let similarity =
          zend_similarity term_rest (drop prefix_byte_len (as_bytes key)) prefix_utf8_len min_sim in
        let rest = similar_terms term_rest prefix_byte_len prefix_utf8_len min_sim cands in
        if above similarity min_sim then (similarity, cand) ∷ rest else rest

    unfoldable pub similar_in : List ℕ → ℕ → ℕ → F64 → List (List ℕ) → List (F64 × List ℕ)
    unfolding similar_terms
    similar_in term_rest prefix_byte_len prefix_utf8_len min_sim [] = []
    similar_in term_rest prefix_byte_len prefix_utf8_len min_sim (bucket ∷ buckets) =
        similar_terms term_rest prefix_byte_len prefix_utf8_len min_sim
          (index.terms_with_prefix field bucket)
        ++ similar_in term_rest prefix_byte_len prefix_utf8_len min_sim buckets

    abbrev most_similar : List (F64 × List ℕ) → List (F64 × List ℕ)
    most_similar matched =
        if ltb max_fuzzy_terms (length matched)
        then take max_fuzzy_terms (sort_by by_similarity matched)
        else matched

    abbrev boosted : F64 → F64 × List ℕ → List ℕ × F32
    boosted min_sim (similarity, s) =
        (s, narrow (div (sub similarity min_sim) (sub (decimal 1 0) min_sim)))

    unfoldable pub fuzzy_terms : List ℕ → F32 → ℕ → List (List ℕ × F32)
    unfolding similar_in
    fuzzy_terms term min_similarity prefix_length =
        let min_sim = widen min_similarity in
        let prefix = take prefix_length term in
        let prefix_utf8_len = length prefix in
        let seed = if accent_insensitive then fold_accents term else term in
        let buckets = if accent_insensitive then accent_variants prefix else prefix ∷ [] in
        let prefix_byte_len = length (as_bytes (take prefix_utf8_len seed)) in
        let term_rest = drop prefix_byte_len (as_bytes seed) in
        map (boosted min_sim)
          (most_similar (similar_in term_rest prefix_byte_len prefix_utf8_len min_sim buckets))
